-- ===== src/Print/Kinds.antt =====
-- What the conversions of a format ask of their arguments, and that each conversion ends.
use judd_os.Prelude.{
  ℕ, ◌+◌, ◌-◌, ◌^◌, ◌%◌, ◌∙◌, inl, inr, if_true, if_false, Bool-cases, ◌<◌, ◌≤◌, ◌≡◌, subst, arith,
  some, List, ◌∷◌, [], ◌==◌, if◌then◌else◌, if_split,
}
use judd_os.Prelude.Memory.{Memory}
use judd_os.CString.Length.{IsString}
use judd_os.Prelude.Word.{is_negative}
use judd_os.Print.{put_number, put_alternate, put_signed, convert}
use judd_os.Print.Negative.{put_negative, put_negative_lem, put_negative_more}
use judd_os.Print.Number.{chars, puts_lem, put_number_lem, put_alternate_lem}
use judd_os.Print.More.{put_number_more, put_alternate_more, with_more}

-- What a conversion asks for: a number, a string or a character; no argument, as `%%` and a letter that `printf` does not know, of which it prints nothing;
-- or the rest of a format that ends within the conversion.
pub data Kind : Type 0 where
  unsigned hexadecimal signed alternate text character nothing unfinished : Kind

-- Where in a format a character stands: outside a conversion, after `%`, or after `%#`.
pub data Place : Type 0 where
  outside percent hash : Place

-- The kind of the conversion with this letter; `alt` is 1 after `%#`.
abbrev pub kind_of : ℕ → ℕ → Kind
kind_of alt c =
    if c == 117
    then unsigned
    else if c == 120
    then (if alt == 0 then hexadecimal else alternate)
    else if c == 100
    then signed
    else if c == 115
    then text
    else if c == 99
    then character
    else if c == 0
    then unfinished
    else nothing

-- How many arguments it takes.
abbrev pub takes : Kind → ℕ
takes unsigned = 1
takes hexadecimal = 1
takes signed = 1
takes alternate = 1
takes text = 1
takes character = 1
takes nothing = 0
takes unfinished = 0

abbrev pub next_place : Place → ℕ → Place
next_place outside c = if c == 37 then percent else outside
next_place percent c = if c == 35 then hash else outside
next_place hash c = if c == 35 then hash else outside

abbrev pub add_kind : Place → ℕ → List Kind → List Kind
add_kind outside c later = if c == 0 then unfinished ∷ later else later
add_kind percent c later = if c == 35 then later else kind_of 0 c ∷ later
add_kind hash c later = if c == 35 then later else kind_of 1 c ∷ later

-- The conversions of a format, in their order.
abbrev pub kinds : Place → List ℕ → List Kind
kinds outside [] = []
kinds percent [] = unfinished ∷ []
kinds hash [] = unfinished ∷ []
kinds p (c ∷ rest) = add_kind p c (kinds (next_place p c) rest)

-- An argument that the conversion takes. A string ends within `limit` bytes.
abbrev pub Fits : Memory → ℕ → Kind → ℕ → Type 0
Fits m limit unsigned arg = arg < 2 ^ 32
Fits m limit hexadecimal arg = arg < 2 ^ 32
Fits m limit signed arg = arg < 2 ^ 32
Fits m limit alternate arg = arg < 2 ^ 32
Fits m limit text arg = (n : ℕ) × IsString m arg n × (n < limit)
Fits m limit character arg = Unit {0}
Fits m limit nothing arg = Unit {0}
Fits m limit unfinished arg = ⊥

abbrev pub AllFit : Memory → ℕ → (ℕ → ℕ) → List Kind → ℕ → Type 0
AllFit m limit stack [] esp = Unit {0}
AllFit m limit stack (k ∷ rest) esp =
    Fits m limit k (stack esp) × AllFit m limit stack rest (esp + takes k)

-- A number of 32 bits is printed with twelve rounds or more.
number_returns :
    (k value : ℕ) (m : Memory) (conv radix : ℕ)
    → 1 < radix
    → radix ≤ 36
    → value < radix ^ 11
    → (out : List ℕ) × (put_number (k + 12) value m conv radix ≡ some out)
number_returns k value m conv radix low high fits =
    let (out, runs, spells, some_digit, few) =
      put_number_lem 11 value m conv radix low high (omega arith) fits in
    (
      out,
      with_more (λ f. put_number f value m conv radix) out
          (λ f e. put_number_more f value m conv radix out e) k 12 runs,
    )

pub alternate_returns :
    (k value : ℕ) (m : Memory) (conv : ℕ)
    → value < 2 ^ 32
    → (out : List ℕ) × (put_alternate (k + 9) value m conv ≡ some out)
alternate_returns k value m conv fits =
    let (out, runs, eight, spells) = put_alternate_lem value m conv fits in
    (
      out,
      with_more (λ f. put_alternate f value m conv) out
          (λ f e. put_alternate_more f value m conv out e) k 9 runs,
    )

-- A negative number is printed with twelve rounds or more.
negative_returns :
    (k value : ℕ) (m : Memory) (conv : ℕ)
    → value < 2 ^ 32
    → (out : List ℕ) × (put_negative (k + 12) value m conv ≡ some out)
negative_returns k value m conv fits =
    let (digits, runs, spells, some_digit) = put_negative_lem value m conv fits in
    (
      45 ∷ digits,
      with_more (λ f. put_negative f value m conv) (45 ∷ digits)
          (λ f e. put_negative_more f value m conv (45 ∷ digits) e) k 12 runs,
    )

signed_returns :
    (k value : ℕ) (m : Memory) (conv : ℕ)
    → value < 2 ^ 32
    → (out : List ℕ) × (put_signed (k + 12) value m conv ≡ some out)
unfolding put_signed
signed_returns k value m conv fits = elim (Bool-cases (is_negative value)) [
  | inl below ↦
      (let (out, runs) = negative_returns k value m conv fits in
        (out, if_true {b = is_negative value} _ _ below ∙ runs))
  | inr above ↦
      (let (out, runs) =
          number_returns k value m conv 10 (omega arith) (omega arith) (omega (arith, fits)) in
        (out, if_false {b = is_negative value} _ _ above ∙ runs))
]

-- One conversion, with an argument that fits.
pub convert_returns :
    (fuel limit : ℕ) (m : Memory) (conv alt c arg : ℕ)
    → limit ≤ fuel
    → 12 ≤ limit
    → Fits m limit (kind_of alt c) arg
    → (out : List ℕ) × (convert fuel m conv alt c arg ≡ some (out, takes (kind_of alt c)))
unfolding convert
convert_returns fuel limit m conv alt c arg enough big =
    let k = fuel - 12 in
    let same : k + 12 ≡ fuel = omega (arith, enough, big) in
    let number : (radix : ℕ)
        → 1 < radix
        → radix ≤ 36
        → arg < radix ^ 11
        → (out : List ℕ) × (put_number fuel arg m conv radix ≡ some out) =
      (λ radix low high fits.
        subst (λ f. (out : List ℕ) × (put_number f arg m conv radix ≡ some out)) same
          (number_returns k arg m conv radix low high fits)) in
    let Q : Kind → Type 0 = (λ kind.
      Fits m limit kind arg
      → (out : List ℕ) × (convert fuel m conv alt c arg ≡ some (out, takes kind))) in
    if_split Q (c == 117)
      (λ is fits.
        (let (out, e) = number 10 (omega arith) (omega arith) (omega (arith, fits)) in
          (out, ground (arith, e, is))))
      (λ n1.
        if_split Q (c == 120)
          (λ is.
            if_split Q (alt == 0)
              (λ plain fits.
                (let (out, e) = number 16 (omega arith) (omega arith) (omega (arith, fits)) in
                  (out, ground (arith, e, is, plain))))
              (λ other fits.
                (let nine : fuel - 9 + 9 ≡ fuel = omega (arith, enough, big) in
                  let (out, e) =
                    subst (λ f. (out : List ℕ) × (put_alternate f arg m conv ≡ some out)) nine
                      (alternate_returns (fuel - 9) arg m conv fits) in
                  (out, ground (arith, e, is, other)))))
          (λ n2.
            if_split Q (c == 100)
              (λ is fits.
                (let (out, e) =
                    subst (λ f. (out : List ℕ) × (put_signed f arg m conv ≡ some out)) same
                      (signed_returns k arg m conv fits) in
                  (out, ground (arith, e, is))))
              (λ n3.
                if_split Q (c == 115)
                  (λ is fits.
                    (let (n, string, short) = fits in
                      (
                        chars n m arg,
                        ground (
                          arith,
                          is,
                          puts_lem fuel m arg n string (omega (arith, short, enough)),
                        ),
                      )))
                  (λ n4.
                    if_split Q (c == 99) (λ is fits. (arg % 2 ^ 8 ∷ [], ground (arith, is)))
                      (λ n5.
                        if_split Q (c == 0) (λ is fits. absurd fits)
                          (λ n6 fits.
                            if_split
                              (λ o.
                                (convert fuel m conv alt c arg ≡ o)
                                → (out : List ℕ) × (convert fuel m conv alt c arg ≡ some (out, 0)))
                              (c == 37) (λ is e. (37 ∷ [], e)) (λ n7 e. ([], e))
                              (ground (arith, n1, n2, n3, n4, n5, n6))))))))
