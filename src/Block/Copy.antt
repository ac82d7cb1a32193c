-- ===== src/Block/Copy.antt =====
-- `memcpy` between regions that do not meet is the copy byte by byte.
use judd_os.Prelude.{
  ℕ, zero, suc, ◌+◌, ◌≡◌, arith, ◌∙◌, fun_ext, ap, sym, refl, Bool-cases, ◌%◌, ◌*◌, ◌/◌, ◌==◌, inl,
  inr,
}
use judd_os.Prelude.Memory.{Memory, store}
use judd_os.Block.{copy_bytes, copy_dword, copy_dwords, copy_aligned, copy_top, memcpy}
use judd_os.Block.Reference.{copied, Disjoint}

pub copied-zero : (m : Memory) (d s n : ℕ) → n ≡ 0 → copied m d s n ≡ m
copied-zero m d s n e = fun_ext λ x. ground arith

pub copied-store :
    (m : Memory) (d s n : ℕ)
    → Disjoint d s (suc n)
    → copied (store m d (m s)) (d + 1) (s + 1) n ≡ copied m d s (suc n)
unfolding store
copied-store m d s n h = fun_ext λ x. ground arith

copied_dword :
    (m : Memory) (d s n : ℕ)
    → Disjoint d s (n + 4)
    → copied (copy_dword m d s) (d + 4) (s + 4) n ≡ copied m d s (n + 4)
unfolding copy_dword store
copied_dword m d s n h = fun_ext λ x. ground arith

copied-copied :
    (m : Memory) (d s k n : ℕ)
    → Disjoint d s (k + n)
    → copied (copied m d s k) (d + k) (s + k) n ≡ copied m d s (k + n)
copied-copied m d s k n h = fun_ext λ x. ground arith

copy_bytes_lem :
    (n : ℕ) (m : Memory) (d s : ℕ) → Disjoint d s n → copy_bytes n m d s ≡ copied m d s n
unfolding copy_bytes
copy_bytes_lem zero m d s h = sym (copied-zero m d s 0 refl)
copy_bytes_lem (suc n) m d s h =
    copy_bytes_lem n (store m d (m s)) (d + 1) (s + 1) (omega arith) ∙ copied-store m d s n h

copy_dwords_lem :
    (n : ℕ) (m : Memory) (d s : ℕ)
    → Disjoint d s (4 * n)
    → copy_dwords n m d s ≡ copied m d s (4 * n)
unfolding copy_dwords
copy_dwords_lem zero m d s h = sym (copied-zero m d s 0 refl)
copy_dwords_lem (suc n) m d s h =
    copy_dwords_lem n (copy_dword m d s) (d + 4) (s + 4) (omega arith)
    ∙ copied_dword m d s (4 * n) (omega arith)
    ∙ ap (copied m d s) (omega arith)

copy_aligned_lem :
    (n : ℕ) (m : Memory) (d s : ℕ) → Disjoint d s n → copy_aligned n m d s ≡ copied m d s n
unfolding copy_aligned
copy_aligned_lem n m d s h =
    copy_bytes_lem (n % 4) _ (d + 4 * (n / 4)) (s + 4 * (n / 4)) (omega arith)
    ∙ ap (λ m'. copied m' (d + 4 * (n / 4)) (s + 4 * (n / 4)) (n % 4))
        (copy_dwords_lem (n / 4) m d s (omega arith))
    ∙ copied-copied m d s (4 * (n / 4)) (n % 4) (omega arith)
    ∙ ap (copied m d s) (omega arith)

copy_top_lem : (n : ℕ) (m : Memory) (d s : ℕ) → Disjoint d s n → copy_top n m d s ≡ copied m d s n
unfolding copy_top
copy_top_lem zero m d s h = sym (copied-zero m d s 0 refl)
copy_top_lem (suc n) m d s h = elim (Bool-cases (d % 4 == 0)) [
  | inl aligned ↦ rw aligned (copy_aligned_lem (suc n) m d s h)
  | inr odd ↦
      rw odd
        (copy_top_lem n (store m d (m s)) (d + 1) (s + 1) (omega arith) ∙ copied-store m d s n h)
]

-- Between regions that do not meet, `memcpy`, moving words, copies exactly the `n` bytes.
pub memcpy_lem :
    (m : Memory) (dest src n : ℕ) → Disjoint dest src n → memcpy m dest src n ≡ copied m dest src n
unfolding memcpy
memcpy_lem m dest src n h = copy_top_lem n m dest src h
