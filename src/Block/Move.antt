-- ===== src/Block/Move.antt =====
-- `memmove`, whose regions may overlap, and the two fills by words.
use judd_os.Prelude.{
  ℕ, zero, suc, ◌+◌, ◌-◌, ◌*◌, ◌/◌, ◌%◌, ◌^◌, ◌≤◌, ◌<◌, ◌≡◌, arith, ◌∙◌, fun_ext, sym, refl, leb,
  ltb, ◌&&◌, ◌==◌, if◌then◌else◌, if_split, ap₂, ◌^◌,
}
use judd_os.Prelude.Memory.{Memory, store, store32}
use judd_os.Block.{
  copy_bytes, copy_down, memmove, fill_words, fill_dwords, memset_word, memset_dword,
}
use judd_os.Block.Reference.{copied}
use judd_os.Block.Copy.{copied-zero}

store-copied_up :
    (m : Memory) (d s n : ℕ)
    → d ≤ s
    → copied (store m d (m s)) (d + 1) (s + 1) n ≡ copied m d s (suc n)
unfolding store
store-copied_up m d s n h = fun_ext λ x. ground (arith, h)

copy_bytes_up : (n : ℕ) (m : Memory) (d s : ℕ) → d ≤ s → copy_bytes n m d s ≡ copied m d s n
unfolding copy_bytes
copy_bytes_up zero m d s h = sym (copied-zero m d s 0 refl)
copy_bytes_up (suc n) m d s h =
    copy_bytes_up n (store m d (m s)) (d + 1) (s + 1) (omega (arith, h)) ∙ store-copied_up m d s n h

store-copied_down :
    (m : Memory) (d s n : ℕ)
    → s < d
    → copied (store m (d + n) (m (s + n))) d s n ≡ copied m d s (suc n)
unfolding store
store-copied_down m d s n h = fun_ext λ x. ground (arith, h)

copy_down_lem :
    (n : ℕ) (m : Memory) (d s : ℕ) → s < d → copy_down n m (d + n - 1) (s + n - 1) ≡ copied m d s n
unfolding copy_down
copy_down_lem zero m d s h = sym (copied-zero m d s 0 refl)
copy_down_lem (suc n) m d s h =
    let to : d + suc n - 1 ≡ d + n = omega arith in
    let from : s + suc n - 1 ≡ s + n = omega arith in
    ap₂ (λ a b. copy_down n (store m a (m b)) (a - 1) (b - 1)) to from
    ∙ copy_down_lem n (store m (d + n) (m (s + n))) d s h
    ∙ store-copied_down m d s n h

-- `memmove` leaves at the destination the bytes that the source held before, also where the two overlap, and changes nothing else.
pub memmove_lem : (m : Memory) (d s n : ℕ) → memmove m d s n ≡ copied m d s n
unfolding memmove
memmove_lem m d s n =
    if_split (λ m'. m' ≡ copied m d s n) (leb d s)
      (λ up. copy_bytes_up n m d s (ground (arith, up)))
      (λ down. copy_down_lem n m d s (ground (arith, down)))

-- The bytes of a word fill, by their place in the word.
memset_word_lem :
    (n : ℕ) (m : Memory) (s c x : ℕ)
    → memset_word m s c n x ≡ (
        if leb s x && ltb x (s + 2 * n)
        then (if (x - s) % 2 == 0 then c % 256 else c / 256 % 256)
        else m x)
unfolding memset_word fill_words store
memset_word_lem zero m s c x = ground arith
memset_word_lem (suc n) m s c x =
    memset_word_lem n (store (store m s (c % 256)) (s + 1) (c / 256 % 256)) (s + 2) c x
    ∙ ground arith

memset_dword_lem :
    (n : ℕ) (m : Memory) (s c x : ℕ)
    → memset_dword m s c n x ≡ (
        if leb s x && ltb x (s + 4 * n)
        then (if (x - s) % 4 == 0
            then c % 256
            else if (x - s) % 4 == 1
            then c / 2 ^ 8 % 256
            else if (x - s) % 4 == 2
            then c / 2 ^ 16 % 256
            else c / 2 ^ 24 % 256)
        else m x)
unfolding memset_dword fill_dwords store32 store
memset_dword_lem zero m s c x = ground arith
memset_dword_lem (suc n) m s c x = memset_dword_lem n (store32 m s c) (s + 4) c x ∙ ground arith
