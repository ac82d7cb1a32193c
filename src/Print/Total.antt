-- ===== src/Print/Total.antt =====
-- `printf` ends on every format whose conversions it knows, with arguments that fit them.
use judd_os.Prelude.{
  true, false, inl, inr, Bool-cases, ℕ, zero, suc, ◌+◌, ◌-◌, ◌<◌, ◌≤◌, ◌≡◌, ◌≢◌, ◌∙◌, sym, ap,
  subst, arith, some, List, ◌∷◌, [], ◌++◌, ◌==◌, if_split, if_true, if_false, >>=-some, length,
  ==_iff,
}
use judd_os.Prelude.Memory.{Memory}
use judd_os.Print.{format_char, print_from, printf}
use judd_os.Print.Kinds.{
  takes, Place, outside, percent, hash, kind_of, add_kind, kinds, Fits, AllFit, convert_returns,
}

-- The format stands at `buf`.
abbrev pub Holds : Memory → ℕ → List ℕ → Type 0
Holds m buf [] = m buf ≡ 0
Holds m buf (c ∷ rest) = (m buf ≡ c) × Holds m (buf + 1) rest

-- The conversion that goes on at `buf` ends, and so does the rest of the format.
abbrev Converts : ℕ → ℕ → Memory → ℕ → (ℕ → ℕ) → ℕ → ℕ → ℕ → Type 0
Converts fuel fuel' m conv stack esp alt buf =
    (out : List ℕ) × (taken : ℕ) × (at : ℕ) × (rest : List ℕ) × (last : ℕ) × (format_char fuel m
        conv alt buf (stack esp)
      ≡ some ((out, taken), at))
    × (print_from fuel' m conv stack (esp + taken) (at + 1) ≡ some (rest, last))

abbrev Goes : Place → ℕ → ℕ → Memory → ℕ → (ℕ → ℕ) → ℕ → ℕ → Type 0
Goes outside fuel fuel' m conv stack esp buf =
    (out : List ℕ) × (last : ℕ) × (print_from fuel' m conv stack esp buf ≡ some (out, last))
Goes percent fuel fuel' m conv stack esp buf = Converts fuel fuel' m conv stack esp 0 buf
Goes hash fuel fuel' m conv stack esp buf = Converts fuel fuel' m conv stack esp 1 buf

print_end :
    (fuel : ℕ) (m : Memory) (conv : ℕ) (stack : ℕ → ℕ) (esp buf : ℕ)
    → 0 < fuel
    → m buf ≡ 0
    → print_from fuel m conv stack esp buf ≡ some ([], buf)
unfolding print_from
print_end zero m conv stack esp buf pos e = absurd (omega (arith, pos))
print_end (suc fuel) m conv stack esp buf pos e = if_true {b = m buf == 0} _ _ (ground (arith, e))

-- A character outside a conversion, and a `%`.
print_plain :
    (fuel : ℕ) (m : Memory) (conv : ℕ) (stack : ℕ → ℕ) (esp buf : ℕ) (out : List ℕ) (last : ℕ)
    → m buf ≢ 0
    → m buf ≢ 37
    → print_from fuel m conv stack esp (buf + 1) ≡ some (out, last)
    → print_from (suc fuel) m conv stack esp buf ≡ some (m buf ∷ out, last)
unfolding print_from
print_plain fuel m conv stack esp buf out last nonzero plain rest =
    if_false {b = m buf == 0} _ _ (ground (arith, nonzero))
    ∙ if_false {b = m buf == 37} _ _ (ground (arith, plain))
    ∙ >>=-some _ rest

print_conversion :
    (fuel : ℕ) (m : Memory) (conv : ℕ) (stack : ℕ → ℕ) (esp buf : ℕ)
    → m buf ≡ 37
    → Converts fuel fuel m conv stack esp 0 (buf + 1)
    → (out : List ℕ) × (last : ℕ) × (print_from (suc fuel) m conv stack esp buf ≡ some (out, last))
unfolding print_from
print_conversion fuel m conv stack esp buf is (out, taken, at, rest, last, e, f) = (
  out ++ rest,
  last,
  if_false {b = m buf == 0} _ _ (ground (arith, is))
      ∙ if_true {b = m buf == 37} _ _ (ground (arith, is))
      ∙ >>=-some _ e
      ∙ >>=-some _ f,
)

-- The character that ends a conversion.
format_last :
    (fuel limit : ℕ) (m : Memory) (conv alt buf arg : ℕ)
    → limit ≤ fuel
    → 12 ≤ limit
    → m buf ≢ 35
    → Fits m limit (kind_of alt (m buf)) arg
    → (out : List ℕ) × (format_char (suc fuel) m conv alt buf arg
        ≡ some ((out, takes (kind_of alt (m buf))), buf))
unfolding format_char
format_last fuel limit m conv alt buf arg enough big other fits =
    let (out, e) = convert_returns fuel limit m conv alt (m buf) arg enough big fits in
    (out, if_false {b = m buf == 35} _ _ (ground (arith, other)) ∙ >>=-some _ e)

-- A `#`, as often as it comes.
format_hash :
    (fuel : ℕ) (m : Memory) (conv : ℕ) (stack : ℕ → ℕ) (esp alt buf fuel' : ℕ)
    → m buf ≡ 35
    → Converts fuel fuel' m conv stack esp 1 (buf + 1)
    → Converts (suc fuel) fuel' m conv stack esp alt buf
unfolding format_char
format_hash fuel m conv stack esp alt buf fuel' is (out, taken, at, rest, last, e, f) =
    (out, taken, at, rest, last, if_true {b = m buf == 35} _ _ (ground (arith, is)) ∙ e, f)

-- The rest of a format behind a `%`, or behind `%#`.
converts :
    (limit : ℕ) (m : Memory) (conv : ℕ) (stack : ℕ → ℕ) (alt c : ℕ) (rest : List ℕ)
    (esp buf fuel fuel' : ℕ)
    → 12 ≤ limit
    → limit ≤ fuel
    → m buf ≡ c
    → ((c == 35) ≡ true → Converts fuel fuel' m conv stack esp 1 (buf + 1))
    → ((c == 35) ≡ false
        → (out : List ℕ) × (last : ℕ) × (print_from fuel' m conv stack
              (esp + takes (kind_of alt c))
              (buf + 1)
            ≡ some (out, last)))
    → ((c == 35) ≡ false → Fits m limit (kind_of alt c) (stack esp))
    → Converts (suc fuel) fuel' m conv stack esp alt buf
converts limit m conv stack alt c rest esp buf fuel fuel' big enough at again later fits =
    elim (Bool-cases (c == 35)) [
      | inl is ↦
          format_hash fuel m conv stack esp alt buf fuel' (at ∙ (==_iff c 35).0 is) (again is)
      | inr other ↦
          (let (out, e) =
              format_last fuel limit m conv alt buf (stack esp) enough big
                (ground (arith, other, at))
                (subst (λ d. Fits m limit (kind_of alt d) (stack esp)) (sym at) (fits other)) in
            let (rest', last, f) = later other in
            (
              out,
              takes (kind_of alt c),
              buf,
              rest',
              last,
              e ∙ ap (λ d. some ((out, takes (kind_of alt d)), buf)) at,
              f,
            ))
    ]

Goes-on :
    (limit : ℕ) (m : Memory) (conv : ℕ) (stack : ℕ → ℕ) (p : Place) (format : List ℕ)
    (esp buf fuel fuel' : ℕ)
    → 12 ≤ limit
    → Holds m buf format
    → length format + limit ≤ fuel
    → length format + limit ≤ fuel'
    → AllFit m limit stack (kinds p format) esp
    → Goes p fuel fuel' m conv stack esp buf
Goes-on limit m conv stack outside [] esp buf fuel fuel' big held enough enough' fit =
    ([], buf, print_end fuel' m conv stack esp buf (omega (arith, enough', big)) held)
Goes-on limit m conv stack percent [] esp buf fuel fuel' big held enough enough' fit = absurd fit.0
Goes-on limit m conv stack hash [] esp buf fuel fuel' big held enough enough' fit = absurd fit.0
Goes-on limit m conv stack p (c ∷ rest) esp buf zero fuel' big held enough enough' fit =
    absurd (omega (arith, enough))
Goes-on limit m conv stack p (c ∷ rest) esp buf (suc fuel) zero big held enough enough' fit =
    absurd (omega (arith, enough'))
Goes-on limit m conv stack outside (c ∷ rest) esp buf (suc fuel) (suc fuel') big (at, held) enough
      enough' fit =
    let later : (q : Place)
        → AllFit m limit stack (kinds q rest) esp
        → Goes q fuel' fuel' m conv stack esp (buf + 1) =
      (λ q fit'.
        Goes-on limit m conv stack q rest esp (buf + 1) fuel' fuel' big held
          (omega (arith, enough')) (omega (arith, enough')) fit') in
    if_split
      (λ q.
        AllFit m limit stack (add_kind outside c (kinds q rest)) esp
        → Goes outside (suc fuel) (suc fuel') m conv stack esp buf)
      (c == 37)
      (λ is fit'. print_conversion fuel' m conv stack esp buf (at ∙ (==_iff c 37).0 is) (
        later percent (
          subst (λ l. AllFit m limit stack l esp) (if_false {b = c == 0} _ _ (ground (arith, is)))
            fit')))
      (λ other fit'.
        if_split
          (λ l.
            AllFit m limit stack l esp → Goes outside (suc fuel) (suc fuel') m conv stack esp buf)
          (c == 0) (λ bad fit''. absurd fit''.0)
          (λ nonzero fit''.
            (let (out, last, e) = later outside fit'' in
              (
                m buf ∷ out,
                last,
                print_plain fuel' m conv stack esp buf out last (ground (arith, nonzero, at))
                    (ground (arith, other, at)) e,
              )))
          fit')
      fit
Goes-on limit m conv stack percent (c ∷ rest) esp buf (suc fuel) (suc fuel') big (at, held) enough
      enough' fit =
    let fit' : (c == 35) ≡ false → AllFit m limit stack (kind_of 0 c ∷ kinds outside rest) esp =
      (λ other.
        subst (λ l. AllFit m limit stack l esp)
          (ap (λ q. add_kind percent c (kinds q rest)) (if_false {b = c == 35} hash outside other)
            ∙ if_false {b = c == 35} (kinds outside rest) (kind_of 0 c ∷ kinds outside rest) other)
          fit) in
    converts limit m conv stack 0 c rest esp buf fuel (suc fuel') big (omega (arith, enough)) at
      (λ is.
        Goes-on limit m conv stack hash rest esp (buf + 1) fuel (suc fuel') big held
          (omega (arith, enough)) (omega (arith, enough'))
          (subst (λ l. AllFit m limit stack l esp)
            (ap (λ q. add_kind percent c (kinds q rest)) (if_true {b = c == 35} hash outside is)
              ∙ if_true {b = c == 35} (kinds hash rest) (kind_of 0 c ∷ kinds hash rest) is)
            fit))
      (λ other.
        Goes-on limit m conv stack outside rest (esp + takes (kind_of 0 c)) (buf + 1) fuel
          (suc fuel') big held (omega (arith, enough)) (omega (arith, enough')) (fit' other).1)
      (λ other. (fit' other).0)
Goes-on limit m conv stack hash (c ∷ rest) esp buf (suc fuel) (suc fuel') big (at, held) enough
      enough' fit =
    let fit' : (c == 35) ≡ false → AllFit m limit stack (kind_of 1 c ∷ kinds outside rest) esp =
      (λ other.
        subst (λ l. AllFit m limit stack l esp)
          (ap (λ q. add_kind hash c (kinds q rest)) (if_false {b = c == 35} hash outside other)
            ∙ if_false {b = c == 35} (kinds outside rest) (kind_of 1 c ∷ kinds outside rest) other)
          fit) in
    converts limit m conv stack 1 c rest esp buf fuel (suc fuel') big (omega (arith, enough)) at
      (λ is.
        Goes-on limit m conv stack hash rest esp (buf + 1) fuel (suc fuel') big held
          (omega (arith, enough)) (omega (arith, enough'))
          (subst (λ l. AllFit m limit stack l esp)
            (ap (λ q. add_kind hash c (kinds q rest)) (if_true {b = c == 35} hash outside is)
              ∙ if_true {b = c == 35} (kinds hash rest) (kind_of 1 c ∷ kinds hash rest) is)
            fit))
      (λ other.
        Goes-on limit m conv stack outside rest (esp + takes (kind_of 1 c)) (buf + 1) fuel
          (suc fuel') big held (omega (arith, enough)) (omega (arith, enough')) (fit' other).1)
      (λ other. (fit' other).0)

-- `printf` ends on every format that does not stop within a conversion, with an argument that fits for each conversion that takes one: a 32-bit number for `%u`, `%x`, `%#x` and `%d`, negative ones included,
-- the address of a string for `%s`, anything for `%c`, and none for `%%` and for a letter it does not know. As many rounds as the format has
-- characters and `limit` more are enough, where `limit` is 12 or more and above the length of every string among the arguments.
pub printf_returns :
    (limit fuel : ℕ) (m : Memory) (conv : ℕ) (stack : ℕ → ℕ) (format : List ℕ) (at : ℕ)
    → 12 ≤ limit
    → Holds m at format
    → length format + limit ≤ fuel
    → AllFit m limit stack (kinds outside format) 0
    → (out : List ℕ) × (size : ℕ) × (printf fuel m conv at stack ≡ some (out, size))
unfolding printf
printf_returns limit fuel m conv stack format at big held enough fit =
    let (out, last, e) =
      Goes-on limit m conv stack outside format 0 at fuel fuel big held enough enough fit in
    (out, last - at, >>=-some _ e)
