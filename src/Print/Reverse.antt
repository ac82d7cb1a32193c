-- ===== src/Print/Reverse.antt =====
-- `strrev` reverses a string in place.
use judd_os.Prelude.{
  >>=-some, ℕ, zero, suc, inl, inr, ◌+◌, ◌-◌, ◌*◌, ◌<◌, ◌≤◌, ◌≡◌, ◌∙◌, arith, some, if◌then◌else◌,
  ◌&&◌, ltb, leb, Bool-cases, fun_ext, ap, ◌==◌,
}
use judd_os.Prelude.Memory.{Memory, store}
use judd_os.CString.Length.{IsString, strlen_lem}
use judd_os.Print.{rev_loop, strrev}

-- The bytes from `beg` to `end` in the opposite order.
abbrev pub mirrored : Memory → ℕ → ℕ → ℕ → Memory
mirrored m s beg end x =
    if leb (s + beg) x && leb x (s + end) then m (s + (beg + end - (x - s))) else m x

mirrored_step :
    (m : Memory) (s beg end : ℕ)
    → beg < end
    → mirrored
        (store (store m (s + end) (m (s + beg))) (s + beg) (m (s + end)))
        s
        (beg + 1)
        (end - 1)
      ≡ mirrored m s beg end
unfolding store
mirrored_step m s beg end h = fun_ext λ x. elim (Bool-cases (x == s + beg)) [
  | inl front ↦ ground (arith, ap m (at_front x (ground arith)))
  | inr inner ↦ elim (Bool-cases (x == s + end)) [
    | inl back ↦ ground (arith, ap m (at_back x (ground arith)))
    | inr between ↦ ground (arith, ap m (same x))
  ]
]
  where
    at_front : (x : ℕ) → x ≡ s + beg → s + end ≡ s + (beg + end - (x - s))
    at_front x e = omega (arith, e)

    at_back : (x : ℕ) → x ≡ s + end → s + beg ≡ s + (beg + end - (x - s))
    at_back x e = omega (arith, e)

    same : (x : ℕ) → s + (beg + 1 + (end - 1) - (x - s)) ≡ s + (beg + end - (x - s))
    same x = omega (arith, h)

rev_loop_lem :
    (fuel : ℕ) (m : Memory) (s beg end : ℕ)
    → beg ≤ end + 1
    → end + 1 < beg + 2 * fuel
    → rev_loop fuel m s beg end ≡ some (mirrored m s beg end)
unfolding rev_loop
rev_loop_lem zero m s beg end near lt = absurd (omega (arith, lt, near))
rev_loop_lem (suc fuel) m s beg end near lt = elim (Bool-cases (ltb beg end)) [
  | inl more ↦ rw more (
      rev_loop_lem fuel (store (store m (s + end) (m (s + beg))) (s + beg) (m (s + end))) s
        (beg + 1) (end - 1) (ground arith) (ground arith)
      ∙ ap some (mirrored_step m s beg end (ground arith)))
  | inr met ↦ rw met (
      ap some (
        fun_ext λ x. elim (Bool-cases (leb (s + beg) x && leb x (s + end))) [
          | inl here ↦
              (let at : x ≡ s + (beg + end - (x - s)) = ground arith in ground (arith, ap m at))
          | inr elsewhere ↦ ground arith
        ]))
]

-- `strrev` puts the bytes of a string in the opposite order and leaves all other memory as it was, with fuel for the string and its zero.
pub strrev_lem :
    (fuel : ℕ) (m : Memory) (s n : ℕ)
    → IsString m s n
    → n < fuel
    → 0 < n
    → strrev fuel m s ≡ some (mirrored m s 0 (n - 1))
unfolding strrev
strrev_lem fuel m s n str enough pos =
    >>=-some _ (strlen_lem fuel m s n str enough)
    ∙ (rev_loop_lem fuel m s 0 (n - 1) (omega (arith, pos)) (omega (arith, enough)))
