-- ===== src/Print/Digits.antt =====
-- `itoa`: the digits, their number, and the value that they stand for.
use native.Mathlib.Nat.{div-add-mod', mod-lt, div-lt_iff_lt-mul, pow-suc, pow-zero}
use judd_os.Prelude.{
  ap₂, if_true, if_false, Bool, subst, ℕ, zero, suc, ◌+◌, ◌-◌, ◌*◌, ◌/◌, ◌%◌, ◌^◌, ◌<◌, ◌≤◌, ◌≡◌,
  ◌≢◌, ◌⊎◌, ◌∙◌, refl, sym, arith, some, if◌then◌else◌, ◌&&◌, ltb, ap, ◌==◌, get_or, >>=-some,
  every_below, every_below_lem,
}
use judd_os.Prelude.Memory.{Memory, store}
use judd_os.CString.Length.{IsString}
use judd_os.Print.{lookup, digit_loop, itoa}
use judd_os.Print.Reverse.{mirrored, strrev_lem}

-- The digit that a character stands for, and the number that `k` characters spell, the first one highest.
abbrev pub digit_of : ℕ → ℕ
digit_of ch = if ltb ch 58 then ch - 48 else ch - 55

unfoldable pub spelled : ℕ → ℕ → Memory → ℕ → ℕ
spelled zero radix m s = 0
spelled (suc k) radix m s = spelled k radix m s * radix + digit_of (m (s + k))

-- Dividing `k` times.
unfoldable pub shifted : ℕ → ℕ → ℕ → ℕ
shifted zero radix v = v
shifted (suc k) radix v = shifted k radix v / radix

shifted_first : (k radix v : ℕ) → shifted k radix (v / radix) ≡ shifted (suc k) radix v
unfolding shifted
shifted_first zero radix v = refl
shifted_first (suc k) radix v = ap (λ q. q / radix) (shifted_first k radix v)

abbrev char_test : ℕ → Bool
char_test d = (digit_of (get_or lookup d 0) == d) && ltb 0 (get_or lookup d 0)

-- The character of a digit is no zero byte, and stands for the digit.
digit_char : (d : ℕ) → d < 36 → (digit_of (get_or lookup d 0) ≡ d) × (get_or lookup d 0 ≢ 0)
unfolding every_below
digit_char d h =
    let both = every_below_lem 36 char_test d refl h in
    (ground (arith, both), λ e. ground (arith, both, e))

-- The digits at `p`, lowest first, and nothing else written.
record Written (v radix n p : ℕ) (m w : Memory) : Type 0 where
  empty : shifted n radix v ≡ 0
  more : (i : ℕ) → i < n → 0 < shifted i radix v
  digits : (i : ℕ) → i < n → w (p + i) ≡ get_or lookup (shifted i radix v % radix) 0
  outside : (x : ℕ) → (x < p) ⊎ (p + n ≤ x) → w x ≡ m x

Written-step :
    (v radix n p : ℕ) (m w : Memory)
    → 0 < v
    → Written (v / radix) radix n (p + 1) (store m p (get_or lookup (v % radix) 0)) w
    → Written v radix (suc n) p m w
unfolding store shifted
Written-step v radix n p m w pos rest = record {
  empty = sym (shifted_first n radix v) ∙ rest.empty;
  more = more;
  digits = digits;
  outside = λ x h. ground (arith, rest.outside x);
}
  where
    more : (i : ℕ) → i < suc n → 0 < shifted i radix v
    more zero h = pos
    more (suc i) h = subst (λ q. 0 < q) (shifted_first i radix v) (rest.more i (omega (arith, h)))

    digits : (i : ℕ) → i < suc n → w (p + i) ≡ get_or lookup (shifted i radix v % radix) 0
    digits zero h = ground (arith, rest.outside p)
    digits (suc i) h =
        ap w (omega arith)
        ∙ rest.digits i (omega (arith, h))
        ∙ ap (λ q. get_or lookup (q % radix) 0) (shifted_first i radix v)

-- One round more than the digits that a number below `radix ^ fuel` can have is enough.
digit_loop_lem :
    (fuel : ℕ) (m : Memory) (p v radix : ℕ)
    → 1 < radix
    → v < radix ^ fuel
    → (n : ℕ) × (w : Memory) × (digit_loop (suc fuel) m p v radix ≡ some (w, p + n))
      × Written v radix n p m w
      × (n ≤ fuel)
unfolding digit_loop shifted
digit_loop_lem fuel m p zero radix big fits = (
  0,
  m,
  ap (λ q. some (m, q)) (omega arith),
  record {
    empty = refl;
    more = λ i h. absurd (omega (arith, h));
    digits = λ i h. absurd (omega (arith, h));
    outside = λ x h. refl;
  },
  omega arith,
)
digit_loop_lem zero m p (suc v) radix big fits =
    absurd (omega (arith, subst (λ q. suc v < q) (pow-zero radix) fits))
digit_loop_lem (suc fuel) m p (suc v) radix big fits =
    let ch = get_or lookup (suc v % radix) 0 in
    let smaller : suc v / radix < radix ^ fuel =
      (div-lt_iff_lt-mul (omega (arith, big))).1
        (subst (λ q. suc v < q) (pow-suc radix fuel) fits) in
    let (n, w, runs, written, few) =
      digit_loop_lem fuel (store m p ch) (p + 1) (suc v / radix) radix big smaller in
    (
      suc n,
      w,
      if_true {b = ltb 0 (suc v)} _ _ (ground arith) ∙ runs ∙ ap (λ q. some (w, q)) (omega arith),
      Written-step (suc v) radix n p m w (omega arith) written,
      omega (arith, few),
    )

-- `itoa` writes the digits of the number, highest first, with no zero in front unless it is the whole, a terminating
-- zero behind them, and nothing else; at most as many digits as `radix ^ digits` allows.
pub record Spells (value radix buf n : ℕ) (m m' : Memory) : Type 0 where
  pub string : IsString m' buf n
  pub some_digit : 0 < n
  pub number : spelled n radix m' buf ≡ value
  pub no_zero : 1 < n → m' buf ≢ 48
  pub outside : (x : ℕ) → (x < buf) ⊎ (buf + n < x) → m' x ≡ m x

-- The digits in their final order.
abbrev Ordered : ℕ → ℕ → ℕ → ℕ → Memory → Type 0
Ordered v radix n buf w =
    (j : ℕ) → j < n → w (buf + j) ≡ get_or lookup (shifted (n - 1 - j) radix v % radix) 0

spelled-Ordered :
    (v radix n buf : ℕ) (w : Memory)
    → 1 < radix
    → radix ≤ 36
    → shifted n radix v ≡ 0
    → Ordered v radix n buf w
    → (k : ℕ) → k ≤ n
    → spelled k radix w buf ≡ shifted (n - k) radix v
unfolding spelled shifted
spelled-Ordered v radix n buf w big small empty order zero le =
    sym empty ∙ ap (λ k. shifted k radix v) (omega arith)
spelled-Ordered v radix n buf w big small empty order (suc k) le =
    let before = spelled-Ordered v radix n buf w big small empty order k (omega (arith, le)) in
    let q = shifted (n - suc k) radix v in
    let char = order k (omega (arith, le)) in
    let same : n - 1 - k ≡ n - suc k = omega arith in
    let low : q % radix < 36 = omega (arith, mod-lt q {m = radix} (omega (arith, big)), small) in
    let digit : digit_of (w (buf + k)) ≡ q % radix =
      ap digit_of (char ∙ ap (λ i. get_or lookup (shifted i radix v % radix) 0) same)
      ∙ (digit_char (q % radix) low).0 in
    let at : n - k ≡ suc (n - suc k) = omega (arith, le) in
    let split : shifted (n - k) radix v ≡ q / radix = ap (λ i. shifted i radix v) at in
    ap₂ (λ a b. a * radix + b) (before ∙ split) digit ∙ div-add-mod' q radix

Written-some : (v radix n p : ℕ) (m w : Memory) → 0 < v → Written v radix n p m w → 0 < n
unfolding shifted
Written-some v radix zero p m w pos written = absurd (omega (arith, pos, written.empty))
Written-some v radix (suc n) p m w pos written = omega arith

-- What `itoa` leaves behind: the zero, and the digits turned round.
abbrev finished : ℕ → ℕ → Memory → Memory
finished n buf w = mirrored (store w (buf + n) 0) buf 0 (n - 1)

module _ (v radix n buf : ℕ) (m w : Memory) (big : 1 < radix) (small : radix ≤ 36)
    (written : Written v radix n buf m w) where
  low_digit : (i : ℕ) → shifted i radix v % radix < 36
  low_digit i = omega (arith, mod-lt (shifted i radix v) {m = radix} (omega (arith, big)), small)

  ended-IsString : IsString (store w (buf + n) 0) buf n
  unfolding store
  ended-IsString = record {
    ends = ground arith;
    before = λ i h. ground (arith, written.digits i h, (digit_char _ (low_digit i)).1);
  }

  finished-Ordered : 0 < n → Ordered v radix n buf (finished n buf w)
  unfolding store
  finished-Ordered pos j h =
      let at : 0 + (n - 1) - (buf + j - buf) ≡ n - 1 - j = omega arith in
      ground (arith, ap (λ i. w (buf + i)) at, written.digits (n - 1 - j))

  top_digit :
      0 < n
      → (0 < shifted (n - 1) radix v) × (shifted (n - 1) radix v % radix ≡ shifted (n - 1) radix v)
  unfolding shifted
  top_digit pos =
      let q = shifted (n - 1) radix v in
      let gone : q / radix ≡ 0 = ap (λ i. shifted i radix v) at ∙ written.empty in
      (
        written.more (n - 1) (omega (arith, pos)),
        omega (arith, ap (λ d. d * radix + q % radix) (sym gone) ∙ div-add-mod' q radix),
      )
    where
      at : suc (n - 1) ≡ n
      at = omega (arith, pos)

  finished-Spells : 0 < n → Spells v radix buf n m (finished n buf w)
  unfolding store shifted
  finished-Spells pos =
      let order = finished-Ordered pos in
      let chars : (j : ℕ) → j < n → finished n buf w (buf + j) ≢ 0 =
        (λ j h e. (digit_char _ (low_digit (n - 1 - j))).1 (sym (order j h) ∙ e)) in
      record {
        string = record { ends = ground arith; before = chars };
        some_digit = pos;
        number =
            spelled-Ordered v radix n buf (finished n buf w) big small written.empty order n
              (omega arith)
            ∙ ap (λ k. shifted k radix v) last;
        no_zero = λ two zero_first.
            (let (some_left, whole) = top_digit pos in
              let char : 48 ≡ get_or lookup (shifted (n - 1) radix v % radix) 0 =
                sym zero_first
                ∙ ap (finished n buf w) first
                ∙ order 0 pos
                ∙ ap (λ i. get_or lookup (shifted i radix v % radix) 0) top in
              omega
                (arith, some_left, whole, ap digit_of char, (digit_char _ (low_digit (n - 1))).0));
        outside = λ x h. ground (arith, written.outside x);
      }
    where
      last : n - n ≡ 0
      last = omega arith

      first : buf ≡ buf + 0
      first = omega arith

      top : n - 1 - 0 ≡ n - 1
      top = omega arith

pub itoa_lem :
    (fuel value : ℕ) (m : Memory) (buf radix : ℕ)
    → 1 < radix
    → radix ≤ 36
    → 0 < fuel
    → value < radix ^ fuel
    → (n : ℕ) × (m' : Memory) × (itoa (suc fuel) value m buf radix ≡ some m')
      × Spells value radix buf n m m'
      × (n ≤ fuel)
unfolding itoa spelled store
itoa_lem fuel zero m buf radix big small pos fits = (
  1,
  store (store m buf 48) (buf + 1) 0,
  refl,
  record {
    string = record { ends = ground arith; before = λ i h. ground arith };
    some_digit = omega arith;
    number = ground arith;
    no_zero = λ h. absurd (omega (arith, h));
    outside = λ x h. ground arith;
  },
  omega (arith, pos),
)
itoa_lem fuel (suc v) m buf radix big small pos fits =
    let (n, w, runs, written, few) = digit_loop_lem fuel m buf (suc v) radix big fits in
    let some_digit : 0 < n = Written-some (suc v) radix n buf m w (omega arith) written in
    (
      n,
      finished n buf w,
      if_false {b = suc v == 0} _ _ (ground arith)
          ∙ >>=-some _ runs
          ∙ strrev_lem (suc fuel) (store w (buf + n) 0) buf n
              (ended-IsString (suc v) radix n buf m w big small written) (omega (arith, few))
              some_digit,
      finished-Spells (suc v) radix n buf m w big small written some_digit,
      few,
    )
