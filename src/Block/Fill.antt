-- ===== src/Block/Fill.antt =====
-- `memset` is the fill byte by byte.
use judd_os.Prelude.{
  ℕ, zero, suc, ◌+◌, ◌≡◌, arith, ◌∙◌, fun_ext, ap, ◌<◌, ◌*◌, ◌^◌, sym, ◌%◌, Bool-cases, refl, ◌/◌,
  ◌==◌, inl, inr,
}
use judd_os.Prelude.Memory.{Memory, store, store32}
use judd_os.Block.{fill_bytes, fill_dwords, fill_aligned, fill_top, memset}
use judd_os.Block.Reference.{filled}

filled-zero : (m : Memory) (s c n : ℕ) → n ≡ 0 → filled m s c n ≡ m
filled-zero m s c n e = fun_ext λ x. ground arith

filled-store : (m : Memory) (s c n : ℕ) → filled (store m s c) (s + 1) c n ≡ filled m s c (suc n)
unfolding store
filled-store m s c n = fun_ext λ x. ground arith

filled-store32 :
    (m : Memory) (s c n : ℕ)
    → c < 256
    → filled (store32 m s (c * 2 ^ 24 + c * 2 ^ 16 + c * 2 ^ 8 + c)) (s + 4) c n
      ≡ filled m s c (n + 4)
unfolding store32
filled-store32 m s c n h = fun_ext λ x. ground arith

filled-filled :
    (m : Memory) (s c k n : ℕ) → filled (filled m s c k) (s + k) c n ≡ filled m s c (k + n)
filled-filled m s c k n = fun_ext λ x. ground arith

fill_bytes_lem : (n : ℕ) (m : Memory) (s c : ℕ) → fill_bytes n m s c ≡ filled m s c n
unfolding fill_bytes
fill_bytes_lem zero m s c = sym (filled-zero m s c 0 refl)
fill_bytes_lem (suc n) m s c = fill_bytes_lem n (store m s c) (s + 1) c ∙ filled-store m s c n

fill_dwords_lem :
    (n : ℕ) (m : Memory) (s c : ℕ)
    → c < 256
    → fill_dwords n m s (c * 2 ^ 24 + c * 2 ^ 16 + c * 2 ^ 8 + c) ≡ filled m s c (4 * n)
unfolding fill_dwords
fill_dwords_lem zero m s c h = sym (filled-zero m s c 0 refl)
fill_dwords_lem (suc n) m s c h =
    fill_dwords_lem n (store32 m s (c * 2 ^ 24 + c * 2 ^ 16 + c * 2 ^ 8 + c)) (s + 4) c h
    ∙ filled-store32 m s c (4 * n) h
    ∙ ap (filled m s c) (omega arith)

fill_aligned_lem : (n : ℕ) (m : Memory) (s c : ℕ) → c < 256 → fill_aligned n m s c ≡ filled m s c n
unfolding fill_aligned
fill_aligned_lem n m s c h =
    fill_bytes_lem (n % 4) _ (s + 4 * (n / 4)) c
    ∙ ap (λ m'. filled m' (s + 4 * (n / 4)) c (n % 4)) (fill_dwords_lem (n / 4) m s c h)
    ∙ filled-filled m s c (4 * (n / 4)) (n % 4)
    ∙ ap (filled m s c) (omega arith)

fill_top_lem : (n : ℕ) (m : Memory) (s c : ℕ) → c < 256 → fill_top n m s c ≡ filled m s c n
unfolding fill_top
fill_top_lem zero m s c h = sym (filled-zero m s c 0 refl)
fill_top_lem (suc n) m s c h = elim (Bool-cases (s % 4 == 0)) [
  | inl yes' ↦ rw yes' (fill_aligned_lem (suc n) m s c h)
  | inr no' ↦ rw no' (fill_top_lem n (store m s c) (s + 1) c h ∙ filled-store m s c n)
]

-- `memset`, moving words, sets exactly the `n` bytes from `s` on to the low byte of `c`.
pub memset_lem : (m : Memory) (s c n : ℕ) → memset m s c n ≡ filled m s (c % 256) n
unfolding memset
memset_lem m s c n = fill_top_lem n m s (c % 256) (omega arith)
