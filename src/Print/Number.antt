-- ===== src/Print/Number.antt =====
-- `puts`, and what `%u`, `%x` and `%#x` print.
use judd_os.Prelude.{
  ℕ, zero, suc, inl, inr, ◌+◌, ◌-◌, ◌*◌, ◌^◌, ◌<◌, ◌≤◌, ◌≡◌, ◌≢◌, ◌∙◌, refl, sym, arith, some, List,
  [], ◌∷◌, length, if◌then◌else◌, ◌&&◌, ltb, leb, fun_ext, ap, ap₂, ◌==◌, >>=-some, if_false,
  Bool-cases, false,
}
use judd_os.Prelude.Memory.{Memory, store}
use judd_os.CString.Length.{IsString, strlen_lem}
use judd_os.Print.{puts_from, puts, put_number, zeros_from, put_alternate}
use judd_os.Print.Digits.{digit_of, spelled, itoa_lem}

-- The `n` characters at `s`.
unfoldable pub chars : ℕ → Memory → ℕ → List ℕ
chars zero m s = []
chars (suc n) m s = m s ∷ chars n m (s + 1)

pub length-chars : (n : ℕ) (m : Memory) (s : ℕ) → length (chars n m s) ≡ n
unfolding chars
length-chars zero m s = refl
length-chars (suc n) m s = ap suc (length-chars n m (s + 1))

puts_from_lem :
    (fuel left : ℕ) (m : Memory) (s index : ℕ)
    → left < fuel
    → m (s + index + left) ≡ 0
    → ((j : ℕ) → j < left → m (s + index + j) ≢ 0)
    → puts_from fuel m s index ≡ some (chars left m (s + index))
unfolding puts_from chars
puts_from_lem zero left m s index lt ends before = absurd (omega (arith, lt))
puts_from_lem (suc fuel) zero m s index lt ends before = ground (arith, ends)
puts_from_lem (suc fuel) (suc left) m s index lt ends before =
    let at : s + (index + 1) ≡ s + index + 1 = omega arith in
    let rest =
      puts_from_lem fuel left m s (index + 1) (omega (arith, lt)) (ap m (omega arith) ∙ ends)
        (λ j h e. before (suc j) (omega (arith, h)) (ap m (omega arith) ∙ e)) in
    if_false {b = m (s + index) == 0} _ _ (ground (arith, before 0))
    ∙ >>=-some _ (rest ∙ ap (λ a. some (chars left m a)) at)

-- `puts` prints the characters of its string, with fuel for them and the zero.
pub puts_lem :
    (fuel : ℕ) (m : Memory) (s n : ℕ)
    → IsString m s n
    → n < fuel
    → puts fuel m s ≡ some (chars n m s)
unfolding puts
puts_lem fuel m s n str lt =
    puts_from_lem fuel n m s 0 lt (ap m (omega arith) ∙ str.ends)
      (λ j h e. str.before j h (ap m (omega arith) ∙ e))
    ∙ ap (λ a. some (chars n m a)) (omega arith)

-- The number that a list of digits spells, behind `acc`.
unfoldable pub number_of : ℕ → ℕ → List ℕ → ℕ
number_of radix acc [] = acc
number_of radix acc (ch ∷ rest) = number_of radix (acc * radix + digit_of ch) rest

pub number_of-chars :
    (j k radix : ℕ) (m : Memory) (s : ℕ)
    → number_of radix (spelled k radix m s) (chars j m (s + k)) ≡ spelled (k + j) radix m s
unfolding number_of chars spelled
number_of-chars zero k radix m s = ap (λ i. spelled i radix m s) (omega arith)
number_of-chars (suc j) k radix m s =
    ap (λ a. number_of radix (spelled (suc k) radix m s) (chars j m a)) (omega arith)
    ∙ number_of-chars j (suc k) radix m s
    ∙ ap (λ i. spelled i radix m s) (omega arith)

-- For a number below `radix ^ fuel`, one round more than `fuel` is enough to print it in a base from 2 to 36: what is
-- printed spells the number, in at most `fuel` characters.
pub put_number_lem :
    (fuel value : ℕ) (m : Memory) (conv radix : ℕ)
    → 1 < radix
    → radix ≤ 36
    → 0 < fuel
    → value < radix ^ fuel
    → (out : List ℕ) × (put_number (suc fuel) value m conv radix ≡ some out)
      × (number_of radix 0 out ≡ value)
      × (0 < length out)
      × (length out ≤ fuel)
unfolding put_number spelled
put_number_lem fuel value m conv radix big small pos fits =
    let (n, m', runs, spells, few) = itoa_lem fuel value m conv radix big small pos fits in
    (
      chars n m' conv,
      >>=-some _ runs ∙ puts_lem (suc fuel) m' conv n spells.string (omega (arith, few)),
      ap (λ a. number_of radix 0 (chars n m' a)) (omega arith)
          ∙ number_of-chars n 0 radix m' conv
          ∙ ap (λ i. spelled i radix m' conv) (omega arith)
          ∙ spells.number,
      omega (arith, length-chars n m' conv, spells.some_digit),
      omega (arith, length-chars n m' conv, few),
    )

abbrev zeroed : ℕ → ℕ → Memory → ℕ → Memory
zeroed left i m conv x = if leb (conv + i) x && ltb x (conv + i + left) then 48 else m x

zeros_from_lem :
    (left i : ℕ) (m : Memory) (conv : ℕ) → zeros_from left i m conv ≡ zeroed left i m conv
unfolding zeros_from store
zeros_from_lem zero i m conv = fun_ext λ x. ground arith
zeros_from_lem (suc left) i m conv =
    zeros_from_lem left (i + 1) (store m (conv + i) 48) conv ∙ (fun_ext λ x. ground arith)

spelled_zeros :
    (z radix : ℕ) (m : Memory) (s : ℕ)
    → ((j : ℕ) → j < z → m (s + j) ≡ 48)
    → spelled z radix m s ≡ 0
unfolding spelled
spelled_zeros zero radix m s zeros = refl
spelled_zeros (suc z) radix m s zeros =
    ap₂ (λ a b. a * radix + b) (spelled_zeros z radix m s (λ j h. zeros j (omega (arith, h))))
      (ap digit_of (zeros z (omega arith)))
    ∙ (omega arith)

-- Zeros in front do not change the number; the digits stand at `t` in `w`.
spelled_padded :
    (k z radix : ℕ) (m w : Memory) (s t : ℕ)
    → ((j : ℕ) → j < z → m (s + j) ≡ 48)
    → ((j : ℕ) → j < k → m (s + (z + j)) ≡ w (t + j))
    → spelled (z + k) radix m s ≡ spelled k radix w t
unfolding spelled
spelled_padded zero z radix m w s t zeros digits =
    ap (λ i. spelled i radix m s) (omega arith) ∙ spelled_zeros z radix m s zeros
spelled_padded (suc k) z radix m w s t zeros digits =
    let at : z + suc k ≡ suc (z + k) = omega arith in
    ap (λ i. spelled i radix m s) at
    ∙ ap₂ (λ a b. a * radix + digit_of b)
        (spelled_padded k z radix m w s t zeros (λ j h. digits j (omega (arith, h))))
        (digits k (omega arith))

padded-digit :
    (n : ℕ) (w : Memory) (conv j : ℕ)
    → n ≤ 8
    → zeroed (8 - n) n w conv (conv + n + (8 - n + j)) ≡ w (conv + 8 + j)
padded-digit n w conv j few =
    let at : conv + n + (8 - n + j) ≡ conv + 8 + j = omega (arith, few) in
    let out : (leb (conv + n) (conv + 8 + j) && ltb (conv + 8 + j) (conv + n + (8 - n))) ≡ false =
      ground (arith, few) in
    ap (zeroed (8 - n) n w conv) at ∙ if_false _ _ out

padded-IsString :
    (n : ℕ) (w : Memory) (conv : ℕ)
    → n ≤ 8
    → IsString w (conv + 8) n
    → IsString (zeroed (8 - n) n w conv) (conv + n) 8
padded-IsString n w conv few string =
    let ends : zeroed (8 - n) n w conv (conv + n + 8) ≡ 0 =
      ap (zeroed (8 - n) n w conv) (omega (arith, few))
      ∙ padded-digit n w conv n few
      ∙ string.ends in
    record {
      ends = ends;
      before = λ i h e. (elim (Bool-cases (ltb i (8 - n))) [
        | inl c ↦ ground (arith, e, c)
        | inr c ↦
            let lt : i - (8 - n) < n = ground (arith, few, c, h) in
            let at : conv + n + (8 - n + (i - (8 - n))) ≡ conv + n + i = ground (arith, c) in
            string.before (i - (8 - n)) lt
              (sym (padded-digit n w conv (i - (8 - n)) few) ∙ ap (zeroed (8 - n) n w conv) at ∙ e)
      ]);
    }

-- `%#x` prints a 32-bit number as eight hexadecimal digits, whatever its size; nine rounds are enough.
pub put_alternate_lem :
    (value : ℕ) (m : Memory) (conv : ℕ)
    → value < 2 ^ 32
    → (out : List ℕ) × (put_alternate 9 value m conv ≡ some out)
      × (length out ≡ 8)
      × (number_of 16 0 out ≡ value)
unfolding put_alternate spelled
put_alternate_lem value m conv fits =
    let (n, w, runs, spells, few) =
      itoa_lem 8 value m (conv + 8) 16 (omega arith) (omega arith) (omega arith)
        (omega (arith, fits)) in
    let padded = zeroed (8 - n) n w conv in
    let str = padded-IsString n w conv few spells.string in
    let eight : 0 + 8 ≡ 8 - n + n = omega (arith, few) in
    (
      chars 8 padded (conv + n),
      >>=-some _ runs
          ∙ >>=-some _ (strlen_lem 9 w (conv + 8) n spells.string (omega (arith, few)))
          ∙ ap (λ p. puts 9 p (conv + n)) (zeros_from_lem (8 - n) n w conv)
          ∙ puts_lem 9 padded (conv + n) 8 str (omega arith),
      length-chars 8 padded (conv + n),
      ap (λ a. number_of 16 0 (chars 8 padded a)) (omega arith)
          ∙ number_of-chars 8 0 16 padded (conv + n)
          ∙ ap (λ i. spelled i 16 padded (conv + n)) eight
          ∙ spelled_padded n (8 - n) 16 padded w (conv + n) (conv + 8) (λ j h. ground arith)
              (λ j h. padded-digit n w conv j few)
          ∙ spells.number,
    )
