-- ===== src/Print/Negative.antt =====
-- `%d` of a negative number.
use judd_os.Prelude.{
  ℕ, zero, suc, ◌+◌, ◌^◌, ◌<◌, ◌≡◌, ◌≢◌, ◌∙◌, inl, ap, arith, List, ◌∷◌, length, Option, some,
  >>=-some, >>=-eq-some, ◌>>=◌,
}
use judd_os.Prelude.Word.{sub32}
use judd_os.Prelude.Memory.{Memory, store, store_self}
use judd_os.CString.Length.{IsString}
use judd_os.Print.{itoa, puts}
use judd_os.Print.Digits.{itoa_lem, spelled}
use judd_os.Print.Number.{chars, puts_lem, number_of, number_of-chars, length-chars}
use judd_os.Print.More.{itoa_more, puts_more}

-- The branch of `put_signed` for a negative number.
abbrev pub put_negative : ℕ → ℕ → Memory → ℕ → Option (List ℕ)
put_negative fuel value m conv = do
  m' ← itoa fuel (sub32 0 value) (store m conv 45) (conv + 1) 10
  puts fuel m' conv

pub put_negative_more :
    (fuel value : ℕ) (m : Memory) (conv : ℕ) (r : List ℕ)
    → put_negative fuel value m conv ≡ some r
    → put_negative (suc fuel) value m conv ≡ some r
put_negative_more fuel value m conv r e =
    let (m', e1, f1) =
      >>=-eq-some (itoa fuel (sub32 0 value) (store m conv 45) (conv + 1) 10) _ e in
    >>=-some _ (itoa_more fuel (sub32 0 value) (store m conv 45) (conv + 1) 10 m' e1)
    ∙ puts_more fuel m' conv r f1

signed_chars :
    (m : Memory) (conv n : ℕ)
    → m conv ≡ 45
    → IsString m (conv + 1) n
    → (i : ℕ) → i < suc n
    → m (conv + i) ≢ 0
signed_chars m conv n minus digits zero h e =
    let here : m conv ≡ 0 = ap m (omega arith) ∙ e in omega (arith, minus, here)
signed_chars m conv n minus digits (suc i) h e =
    digits.before i (omega (arith, h)) (ap m (omega arith) ∙ e)

signed-IsString :
    (m : Memory) (conv n : ℕ) → m conv ≡ 45 → IsString m (conv + 1) n → IsString m conv (suc n)
signed-IsString m conv n minus digits = record {
  ends = ap m (omega arith) ∙ digits.ends;
  before = signed_chars m conv n minus digits;
}

-- Twelve rounds are enough: a minus and the digits of the number without its sign.
pub put_negative_lem :
    (value : ℕ) (m : Memory) (conv : ℕ)
    → value < 2 ^ 32
    → (digits : List ℕ) × (put_negative 12 value m conv ≡ some (45 ∷ digits))
      × (number_of 10 0 digits ≡ sub32 0 value)
      × (0 < length digits)
unfolding chars spelled
put_negative_lem value m conv fits =
    let small : sub32 0 value < 10 ^ 10 = omega (arith, fits) in
    let (n, m', runs, spells, few) =
      itoa_lem 10 (sub32 0 value) (store m conv 45) (conv + 1) 10 (omega arith) (omega arith)
        (omega arith) small in
    let minus : m' conv ≡ 45 = spells.outside conv (inl (omega arith)) ∙ store_self m conv 45 in
    (
      chars n m' (conv + 1),
      >>=-some _ (itoa_more 11 (sub32 0 value) (store m conv 45) (conv + 1) 10 m' runs)
          ∙ puts_lem 12 m' conv (suc n) (signed-IsString m' conv n minus spells.string)
              (omega (arith, few))
          ∙ ap (λ c. some (c ∷ chars n m' (conv + 1))) minus,
      ap (λ a. number_of 10 0 (chars n m' a)) (omega arith)
          ∙ number_of-chars n 0 10 m' (conv + 1)
          ∙ ap (λ i. spelled i 10 m' (conv + 1)) (omega arith)
          ∙ spells.number,
      omega (arith, length-chars n m' (conv + 1), spells.some_digit),
    )
