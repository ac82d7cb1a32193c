-- ===== src/Print/Format.antt =====
-- `printf` on a format with one conversion.
use judd_os.Prelude.{
  ℕ, zero, suc, ◌+◌, ◌^◌, ◌<◌, ◌≤◌, ◌≡◌, ◌≢◌, ◌∙◌, ap, ap₂, arith, refl, some, List, [], ◌∷◌, ◌++◌,
  length, ◌==◌, if_true, if_false, >>=-some,
}
use judd_os.Prelude.Memory.{Memory}
use judd_os.Print.{print_from, printf, format_char, convert, put_number}
use judd_os.Print.Number.{chars, number_of, put_number_lem}

-- `n` characters that are printed as they are.
abbrev pub IsLiteral : Memory → ℕ → ℕ → Type 0
IsLiteral m a n = (j : ℕ) → j < n → (m (a + j) ≢ 0) × (m (a + j) ≢ 37)

literal_step :
    (fuel : ℕ) (m : Memory) (conv : ℕ) (stack : ℕ → ℕ) (esp buf : ℕ) (out : List ℕ) (last : ℕ)
    → m buf ≢ 0
    → m buf ≢ 37
    → print_from fuel m conv stack esp (buf + 1) ≡ some (out, last)
    → print_from (suc fuel) m conv stack esp buf ≡ some (m buf ∷ out, last)
unfolding print_from
literal_step fuel m conv stack esp buf out last nonzero plain rest =
    if_false {b = m buf == 0} _ _ (ground (arith, nonzero))
    ∙ if_false {b = m buf == 37} _ _ (ground (arith, plain))
    ∙ >>=-some _ rest

literal_lem :
    (n fuel : ℕ) (m : Memory) (conv : ℕ) (stack : ℕ → ℕ) (esp buf : ℕ) (out : List ℕ) (last : ℕ)
    → IsLiteral m buf n
    → print_from fuel m conv stack esp (buf + n) ≡ some (out, last)
    → print_from (n + fuel) m conv stack esp buf ≡ some (chars n m buf ++ out, last)
unfolding chars
literal_lem zero fuel m conv stack esp buf out last literal rest =
    ap (λ f. print_from f m conv stack esp buf) (omega arith)
    ∙ ap (print_from fuel m conv stack esp) (omega arith)
    ∙ rest
literal_lem (suc n) fuel m conv stack esp buf out last literal rest =
    let at : m (buf + 0) ≡ m buf = ap m (omega arith) in
    ap (λ f. print_from f m conv stack esp buf) (omega arith)
    ∙ literal_step (n + fuel) m conv stack esp buf (chars n m (buf + 1) ++ out) last
        (λ e. (literal 0 (omega arith)).0 (at ∙ e)) (λ e. (literal 0 (omega arith)).1 (at ∙ e))
        (literal_lem n fuel m conv stack esp (buf + 1) out last
          (λ j h. (
            λ e. (literal (suc j) (omega (arith, h))).0 (ap m (omega arith) ∙ e),
            λ e. (literal (suc j) (omega (arith, h))).1 (ap m (omega arith) ∙ e),
          ))
          (ap (print_from fuel m conv stack esp) (omega arith) ∙ rest))

-- A conversion at the end of the format.
conversion_end :
    (fuel : ℕ) (m : Memory) (conv : ℕ) (stack : ℕ → ℕ) (esp buf : ℕ) (out : List ℕ) (taken last : ℕ)
    → m buf ≡ 37
    → format_char (suc fuel) m conv 0 (buf + 1) (stack esp) ≡ some ((out, taken), last)
    → m (last + 1) ≡ 0
    → print_from (suc (suc fuel)) m conv stack esp buf ≡ some (out ++ [], last + 1)
unfolding print_from
conversion_end fuel m conv stack esp buf out taken last percent runs ends =
    if_false {b = m buf == 0} _ _ (ground (arith, percent))
    ∙ if_true {b = m buf == 37} _ _ (ground (arith, percent))
    ∙ >>=-some _ runs
    ∙ >>=-some _ (if_true {b = m (last + 1) == 0} _ _ (ground (arith, ends)))

unsigned_char :
    (fuel : ℕ) (m : Memory) (conv buf arg : ℕ) (out : List ℕ)
    → m buf ≡ 117
    → put_number fuel arg m conv 10 ≡ some out
    → format_char (suc fuel) m conv 0 buf arg ≡ some ((out, 1), buf)
unfolding format_char convert
unsigned_char fuel m conv buf arg out u number =
    if_false {b = m buf == 35} _ _ (ground (arith, u))
    ∙ >>=-some _ (ap (λ ch. convert fuel m conv 0 ch arg) u ∙ >>=-some _ number)

append_nil : (xs : List ℕ) → xs ++ [] ≡ xs
append_nil [] = refl
append_nil (x ∷ xs) = ap (λ l. x ∷ l) (append_nil xs)

print_end :
    (n fuel : ℕ) (m : Memory) (conv format : ℕ) (stack : ℕ → ℕ) (out : List ℕ) (size : ℕ)
    → IsLiteral m format n
    → print_from fuel m conv stack 0 (format + n) ≡ some (out ++ [], format + n + size)
    → printf (n + fuel) m conv format stack ≡ some (chars n m format ++ out, n + size)
unfolding printf
print_end n fuel m conv format stack out size literal rest =
    let whole =
      literal_lem n fuel m conv stack 0 format (out ++ []) (format + n + size) literal rest in
    >>=-some _ whole ∙ ap₂ (λ l s. some (chars n m format ++ l, s)) (append_nil out) (omega arith)

-- `printf` on `n` characters other than `%`, then `%u`: it prints the characters as they are and then a decimal number that
-- is the first argument, and returns `n + 2`, with 13 rounds more than `n`.
pub printf_unsigned :
    (n : ℕ) (m : Memory) (conv format : ℕ) (stack : ℕ → ℕ)
    → IsLiteral m format n
    → m (format + n) ≡ 37
    → m (format + n + 1) ≡ 117
    → m (format + n + 2) ≡ 0
    → stack 0 < 2 ^ 32
    → (out : List ℕ) × (printf (n + 13) m conv format stack ≡ some (chars n m format ++ out, n + 2))
      × (number_of 10 0 out ≡ stack 0)
      × (0 < length out)
      × (length out ≤ 10)
printf_unsigned n m conv format stack literal percent u ends fits =
    let (out, runs, number, some_digit, few) =
      put_number_lem 10 (stack 0) m conv 10 (omega arith) (omega arith) (omega arith)
        (omega (arith, fits)) in
    (
      out,
      print_end n 13 m conv format stack out 2 literal (
          conversion_end 11 m conv stack 0 (format + n) out 1 (format + n + 1) percent
            (unsigned_char 11 m conv (format + n + 1) (stack 0) out u runs)
            (ap m (omega arith) ∙ ends)
          ∙ ap (λ a. some (out ++ [], a)) (omega arith)),
      number,
      some_digit,
      few,
    )
