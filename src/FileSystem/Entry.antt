-- ===== src/FileSystem/Entry.antt =====
-- What one directory entry copied into a dentry leaves in memory.
use judd_os.Prelude.{
  ℕ, zero, suc, ◌+◌, ◌-◌, ◌≤◌, ◌<◌, ◌≡◌, arith, ◌&&◌, ◌⊎◌, leb, ltb, if◌then◌else◌, fun_ext, ◌∙◌,
  some, ap,
}
use judd_os.Prelude.Memory.{Memory, IsBytes, store, load32, store32}
use judd_os.Block.{memcpy}
use judd_os.Block.Reference.{copied, filled}
use judd_os.Block.Copy.{memcpy_lem}
use judd_os.CString.Length.{IsString}
use judd_os.CString.Duplicate.{strcpy_lem}
use judd_os.FileSystem.{clear_bytes, clear_dentry, copy_dentry, some}

-- The entry at `found`, whose name has `len` bytes before a zero, is in `dentry`: the name cut at 32 bytes and
-- filled with zeros, then type, inode and reserved bytes. Nothing else has changed.
abbrev pub loaded : Memory → ℕ → ℕ → ℕ → Memory
loaded m dentry found len x =
    if leb dentry x && ltb x (dentry + 64)
    then (if ltb (x - dentry) 32 && leb len (x - dentry) then 0 else m (found + (x - dentry)))
    else m x

clear_bytes_lem : (n : ℕ) (m : Memory) (a : ℕ) → clear_bytes n m a ≡ filled m a 0 n
unfolding clear_bytes store
clear_bytes_lem zero m a = fun_ext λ x. ground arith
clear_bytes_lem (suc n) m a = clear_bytes_lem n (store m a 0) (a + 1) ∙ (fun_ext λ x. ground arith)

pub clear_dentry_lem : (m : Memory) (a : ℕ) → clear_dentry m a ≡ filled m a 0 64
unfolding clear_dentry store32 store
clear_dentry_lem m a = rw (clear_bytes_lem, clear_bytes_lem) (fun_ext λ x. ground arith)

store32-load32 : (m : Memory) (a b : ℕ) → IsBytes m → store32 m a (load32 m b) ≡ copied m a b 4
unfolding store32 load32 store
store32-load32 m a b h = fun_ext λ x. ground (arith, h b, h (b + 1), h (b + 2), h (b + 3))

IsBytes-copied : (m : Memory) (d s n : ℕ) → IsBytes m → IsBytes (copied m d s n)
IsBytes-copied m d s n h x = ground (arith, h x, h (s + (x - d)))

IsBytes-filled : (m : Memory) (s n : ℕ) → IsBytes m → IsBytes (filled m s 0 n)
IsBytes-filled m s n h x = ground (arith, h x)

module _ (m : Memory) (d f : ℕ) (apart : (f + 64 ≤ d) ⊎ (d + 64 ≤ f)) where
  -- `m1` holds the same entry at `f`.
  abbrev Agrees : Memory → Type 0
  Agrees m1 = (x : ℕ) → f ≤ x → x < f + 64 → m1 x ≡ m x

  -- `n` bytes at `a` taken from the entry as it was, over what `m1` holds.
  abbrev overlay : Memory → ℕ → ℕ → ℕ → Memory
  overlay m1 a s n x = if leb a x && ltb x (a + n) then m (s + (x - a)) else m1 x

  cleared-Agrees : Agrees (filled m d 0 64)
  cleared-Agrees x p q = ground arith

  copied-Agrees :
      (m1 : Memory) (a s n : ℕ) → Agrees m1 → d ≤ a → a + n ≤ d + 64 → Agrees (copied m1 a s n)
  copied-Agrees m1 a s n h lo hi x p q = ground (arith, h x)

  copied-overlay :
      (m1 : Memory) (a s n : ℕ)
      → Agrees m1
      → f ≤ s
      → s + n ≤ f + 64
      → copied m1 a s n ≡ overlay m1 a s n
  copied-overlay m1 a s n h lo hi = fun_ext λ x. ground (arith, h (s + (x - a)))

  overlays-loaded :
      (len : ℕ)
      → len < 64
      → m (f + len) ≡ 0
      → overlay
          (overlay
            (overlay (overlay (filled m d 0 64) d f (suc len)) (d + 32) (f + 32) 4)
            (d + 36)
            (f + 36)
            4)
          (d + 40)
          (f + 40)
          24
        ≡ loaded m d f len
  overlays-loaded len small ends = fun_ext λ x. ground arith

  abbrev stage1 : ℕ → Memory
  stage1 len = copied (filled m d 0 64) d f (suc len)

  abbrev stage2 : ℕ → Memory
  stage2 len = copied (stage1 len) (d + 32) (f + 32) 4

  abbrev stage3 : ℕ → Memory
  stage3 len = copied (stage2 len) (d + 36) (f + 36) 4

  stages-loaded :
      (len : ℕ)
      → len < 64
      → m (f + len) ≡ 0
      → copied (stage3 len) (d + 40) (f + 40) 24 ≡ loaded m d f len
  stages-loaded len small ends =
      let a1 =
        copied-Agrees (filled m d 0 64) d f (suc len) cleared-Agrees (omega arith) (omega arith) in
      let a2 = copied-Agrees (stage1 len) (d + 32) (f + 32) 4 a1 (omega arith) (omega arith) in
      let a3 = copied-Agrees (stage2 len) (d + 36) (f + 36) 4 a2 (omega arith) (omega arith) in
      let e1 =
        copied-overlay (filled m d 0 64) d f (suc len) cleared-Agrees (omega arith) (omega arith) in
      let e2 =
        copied-overlay (stage1 len) (d + 32) (f + 32) 4 a1 (omega arith) (omega arith)
        ∙ ap (λ w. overlay w (d + 32) (f + 32) 4) e1 in
      let e3 =
        copied-overlay (stage2 len) (d + 36) (f + 36) 4 a2 (omega arith) (omega arith)
        ∙ ap (λ w. overlay w (d + 36) (f + 36) 4) e2 in
      copied-overlay (stage3 len) (d + 40) (f + 40) 24 a3 (omega arith) (omega arith)
      ∙ ap (λ w. overlay w (d + 40) (f + 40) 24) e3
      ∙ overlays-loaded len small ends

  cleared-IsString : (len : ℕ) → IsString m f len → len < 64 → IsString (filled m d 0 64) f len
  cleared-IsString len name small = record {
    ends = ground (arith, name.ends);
    before = λ i p. ground (arith, name.before i);
  }

  -- `clear_dentry` and the copy load the entry.
  pub copy_dentry_lem :
      (scan len : ℕ)
      → IsBytes m
      → IsString m f len
      → len < 64
      → len < scan
      → copy_dentry scan (clear_dentry m d) d f ≡ some (loaded m d f len)
  unfolding copy_dentry
  copy_dentry_lem scan len bytes name small enough =
      let b0 = IsBytes-filled m d 64 bytes in
      let b1 = IsBytes-copied (filled m d 0 64) d f (suc len) b0 in
      let b2 = IsBytes-copied (stage1 len) (d + 32) (f + 32) 4 b1 in
      rw
        (
          clear_dentry_lem m d,
          strcpy_lem scan (filled m d 0 64) d f len (cleared-IsString len name small) (omega arith)
              enough,
          copy_dentry,
        )
        (ap some (
          ap (λ w. memcpy (store32 w (d + 36) (load32 w (f + 36))) (d + 40) (f + 40) 24)
            (store32-load32 (stage1 len) (d + 32) (f + 32) b1)
          ∙ ap (λ w. memcpy w (d + 40) (f + 40) 24)
              (store32-load32 (stage2 len) (d + 36) (f + 36) b2)
          ∙ memcpy_lem (stage3 len) (d + 40) (f + 40) 24 (omega arith)
          ∙ stages-loaded len small name.ends))
