-- ===== src/FileSystem/OpenStep.antt =====
-- `file_open` of a file that is there, on a memory that has the image of `fs`.
use judd_os.Prelude.{
  ℕ, ◌+◌, ◌*◌, ◌-◌, ◌^◌, ◌≤◌, ◌<◌, ◌≡◌, ◌⊎◌, ◌∙◌, ap, ap₂, sym, arith, some, refl, if_false,
  if_true, leb, ltb, ◌&&◌,
}
use judd_os.Prelude.Memory.{Memory, load32}
use judd_os.CString.Length.{IsString}
use judd_os.FileSystem.{Fs, file_open, read_dentry_by_name, inode_at}
use judd_os.FileSystem.Entry.{loaded}
use judd_os.FileSystem.Lookup.{
  IsDirectory, IsQuery, SameName, Named, entry_at, read_dentry_by_name_found,
}
use judd_os.FileSystem.Frame.{Agree, with_mem}

-- The names of a directory that ends in the boot block are the same in a memory with the same image.
pub directory_strings :
    (scan : ℕ) (m m' : Memory) (addr hi num : ℕ) (dir : IsDirectory scan m (addr + 64) num)
    → num ≤ 62
    → addr + 4096 ≤ hi
    → Agree addr hi m m'
    → (i : ℕ) → i ≤ num
    → IsString m' (addr + 64 + 64 * i) (dir.lens i)
directory_strings scan m m' addr hi num dir small high same i h = record {
  ends =
      same (addr + 64 + 64 * i + dir.lens i) (omega arith)
        (omega (arith, small, high, h, dir.short i h))
      ∙ (dir.strings i h).ends;
  before = λ j l e. (dir.strings i h).before j l (
      sym (
        same (addr + 64 + 64 * i + j) (omega arith)
          (omega (arith, small, high, h, l, dir.short i h)))
      ∙ e);
}

-- The name at `a` in `m` is the name at `fname` in `m'`.
pub SameName-moved :
    (m m' : Memory) (a fname n ptr len : ℕ)
    → ((i : ℕ) → i < n → m' (fname + i) ≡ m (a + i))
    → ((i : ℕ) → i < n → m' (ptr + i) ≡ m (ptr + i))
    → SameName m a n ptr len
    → SameName m' fname n ptr len
SameName-moved m m' a fname n ptr len name entry h = record {
  size = h.size;
  bytes = λ i l. name i l ∙ h.bytes i l ∙ sym (entry i l);
}

pub SameName-back :
    (m m' : Memory) (a fname n ptr len : ℕ)
    → ((i : ℕ) → i < n → m' (fname + i) ≡ m (a + i))
    → ((i : ℕ) → i < n → m' (ptr + i) ≡ m (ptr + i))
    → SameName m' fname n ptr len
    → SameName m a n ptr len
SameName-back m m' a fname n ptr len name entry h = record {
  size = h.size;
  bytes = λ i l. sym (name i l) ∙ h.bytes i l ∙ entry i l;
}

-- What the opened entry holds: the inode of the file, and the rest of the memory is as before.
pub record OpenStep (fs : Fs) (m m' : Memory) (j : ℕ) : Type 0 where
  pub inode : load32 m' (fs.opened_file + 36) ≡ load32 m (entry_at fs j + 36)
  pub kept : (x : ℕ) → (x < fs.opened_file) ⊎ (fs.opened_file + 64 ≤ x) → m' x ≡ m x

loaded_byte :
    (m : Memory) (d entry len i : ℕ)
    → 32 ≤ i
    → i < 64
    → loaded m d entry len (d + i) ≡ m (entry + i)
loaded_byte m d entry len i low high =
    let back : d + i - d ≡ i = omega arith in
    if_true {b = leb d (d + i) && ltb (d + i) (d + 64)} _ _ (ground (arith, high))
    ∙ if_false {b = ltb (d + i - d) 32 && leb len (d + i - d)} _ _ (ground (arith, low))
    ∙ ap (λ b. m (entry + b)) back

pub loaded_out :
    (m : Memory) (d entry len x : ℕ) → (x < d) ⊎ (d + 64 ≤ x) → loaded m d entry len x ≡ m x
loaded_out m d entry len x out = if_false {b = leb d x && ltb x (d + 64)} _ _ (ground (arith, out))

-- A word of the entry behind its name.
pub loaded_word :
    (m : Memory) (d entry len o : ℕ)
    → 32 ≤ o
    → o < 61
    → load32 (loaded m d entry len) (d + o) ≡ load32 m (entry + o)
unfolding load32
loaded_word m d entry len o low high =
    ap₂ (λ b c. b + c)
      (ap₂ (λ b c. b + c)
        (ap₂ (λ b c. b + 2 ^ 8 * c) (loaded_byte m d entry len o low (omega (arith, high)))
          (ap (loaded m d entry len) (omega arith)
            ∙ loaded_byte m d entry len (o + 1) (omega (arith, low)) (omega (arith, high))
            ∙ ap m (omega arith)))
        (ap (λ b. 2 ^ 16 * b)
          (ap (loaded m d entry len) (omega arith)
            ∙ loaded_byte m d entry len (o + 2) (omega (arith, low)) (omega (arith, high))
            ∙ ap m (omega arith))))
      (ap (λ b. 2 ^ 24 * b)
        (ap (loaded m d entry len) (omega arith)
          ∙ loaded_byte m d entry len (o + 3) (omega (arith, low)) (omega (arith, high))
          ∙ ap m (omega arith)))

-- What `file_open` does with the result of the search.
opened :
    (fs fs' : Fs) (scan fname : ℕ)
    → read_dentry_by_name scan fs fname fs.opened_file ≡ some (0, fs')
    → file_open scan fs fname
      ≡ some (load32 fs'.mem (inode_at fs' (load32 fs'.mem (fs'.opened_file + 36))), fs')
unfolding file_open
opened fs fs' scan fname e = rw (e, file_open) refl

pub open_step :
    (scan : ℕ) (fs : Fs) (fname n j : ℕ) (m : Memory)
    (q : IsQuery scan (with_mem fs m) fname n fs.opened_file)
    → j < fs.num_dentries
    → Named q j
    → ((i : ℕ) → i < j → Named q i → ⊥)
    → (size : ℕ) × (m' : Memory) × (file_open scan (with_mem fs m) fname
        ≡ some (size, with_mem fs m'))
      × OpenStep fs m m' j
open_step scan fs fname n j m q low named first =
    let m' = loaded m fs.opened_file (entry_at fs j) (q.dir.lens j) in
    let runs =
      read_dentry_by_name_found scan (with_mem fs m) fname n fs.opened_file q j low named first in
    (
      load32 m' (inode_at fs (load32 m' (fs.opened_file + 36))),
      m',
      opened (with_mem fs m) (with_mem fs m') scan fname runs,
      record {
        inode =
            loaded_word m fs.opened_file (entry_at fs j) (q.dir.lens j) 36 (omega arith)
              (omega arith);
        kept = λ x out. loaded_out m fs.opened_file (entry_at fs j) (q.dir.lens j) x out;
      },
    )
