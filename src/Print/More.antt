-- ===== src/Print/More.antt =====
-- More fuel than enough changes nothing.
use judd_os.Prelude.{
  ℕ, zero, suc, ◌+◌, ◌-◌, ◌/◌, ◌%◌, ◌≡◌, ◌∙◌, ap, arith, Option, some, List, ◌==◌, if_split,
  if_true, if_false, get_or, >>=-some, >>=-eq-some,
}
use judd_os.Prelude.Memory.{Memory, store}
use judd_os.CString.{strlen}
use judd_os.CString.Length.{strlen_more}
use judd_os.Print.{
  rev_loop, strrev, digit_loop, itoa, puts_from, puts, put_number, zeros_from, put_alternate,
  lookup,
}

rev_loop_more :
    (fuel : ℕ) (m : Memory) (s beg end : ℕ) (r : Memory)
    → rev_loop fuel m s beg end ≡ some r
    → rev_loop (suc fuel) m s beg end ≡ some r
unfolding rev_loop
rev_loop_more zero m s beg end r e = cc
rev_loop_more (suc fuel) m s beg end r e = ground (
  arith,
  rev_loop_more fuel (store (store m (s + end) (m (s + beg))) (s + beg) (m (s + end))) s (beg + 1)
      (end - 1) r,
)

digit_loop_more :
    (fuel : ℕ) (m : Memory) (newbuf newval radix : ℕ) (r : Memory × ℕ)
    → digit_loop fuel m newbuf newval radix ≡ some r
    → digit_loop (suc fuel) m newbuf newval radix ≡ some r
unfolding digit_loop
digit_loop_more zero m newbuf newval radix r e = cc
digit_loop_more (suc fuel) m newbuf newval radix r e = ground (
  arith,
  digit_loop_more fuel (store m newbuf (get_or lookup (newval % radix) 0)) (newbuf + 1)
      (newval / radix) radix r,
)

puts_from_more :
    (fuel : ℕ) (m : Memory) (s index : ℕ) (r : List ℕ)
    → puts_from fuel m s index ≡ some r
    → puts_from (suc fuel) m s index ≡ some r
unfolding puts_from
puts_from_more zero m s index r e = cc
puts_from_more (suc fuel) m s index r e =
    if_split (λ o. o ≡ some r → puts_from (suc (suc fuel)) m s index ≡ some r) (m (s + index) == 0)
      (λ stop f. if_true {b = m (s + index) == 0} _ _ stop ∙ f)
      (λ go f.
        (let (out, e1, f1) = >>=-eq-some (puts_from fuel m s (index + 1)) _ f in
          if_false {b = m (s + index) == 0} _ _ go
          ∙ >>=-some _ (puts_from_more fuel m s (index + 1) out e1)
          ∙ f1))
      e

strrev_more :
    (fuel : ℕ) (m : Memory) (s : ℕ) (r : Memory)
    → strrev fuel m s ≡ some r
    → strrev (suc fuel) m s ≡ some r
unfolding strrev
strrev_more fuel m s r e =
    let (n, e1, f1) = >>=-eq-some (strlen fuel m s) _ e in
    >>=-some _ (strlen_more fuel m s n e1) ∙ rev_loop_more fuel m s 0 (n - 1) r f1

pub itoa_more :
    (fuel value : ℕ) (m : Memory) (buf radix : ℕ) (r : Memory)
    → itoa fuel value m buf radix ≡ some r
    → itoa (suc fuel) value m buf radix ≡ some r
unfolding itoa
itoa_more fuel value m buf radix r e =
    if_split (λ o. o ≡ some r → itoa (suc fuel) value m buf radix ≡ some r) (value == 0)
      (λ none_left f. if_true {b = value == 0} _ _ none_left ∙ f)
      (λ some_left f.
        (let ((m', newbuf), e1, f1) = >>=-eq-some (digit_loop fuel m buf value radix) _ f in
          if_false {b = value == 0} _ _ some_left
          ∙ >>=-some _ (digit_loop_more fuel m buf value radix (m', newbuf) e1)
          ∙ strrev_more fuel (store m' newbuf 0) buf r f1))
      e

pub puts_more :
    (fuel : ℕ) (m : Memory) (s : ℕ) (r : List ℕ)
    → puts fuel m s ≡ some r
    → puts (suc fuel) m s ≡ some r
unfolding puts
puts_more fuel m s r e = puts_from_more fuel m s 0 r e

pub put_number_more :
    (fuel value : ℕ) (m : Memory) (conv radix : ℕ) (r : List ℕ)
    → put_number fuel value m conv radix ≡ some r
    → put_number (suc fuel) value m conv radix ≡ some r
unfolding put_number
put_number_more fuel value m conv radix r e =
    let (m', e1, f1) = >>=-eq-some (itoa fuel value m conv radix) _ e in
    >>=-some _ (itoa_more fuel value m conv radix m' e1) ∙ puts_more fuel m' conv r f1

pub put_alternate_more :
    (fuel value : ℕ) (m : Memory) (conv : ℕ) (r : List ℕ)
    → put_alternate fuel value m conv ≡ some r
    → put_alternate (suc fuel) value m conv ≡ some r
unfolding put_alternate
put_alternate_more fuel value m conv r e =
    let (m', e1, f1) = >>=-eq-some (itoa fuel value m (conv + 8) 16) _ e in
    let (n, e2, f2) = >>=-eq-some (strlen fuel m' (conv + 8)) _ f1 in
    >>=-some _ (itoa_more fuel value m (conv + 8) 16 m' e1)
    ∙ >>=-some _ (strlen_more fuel m' (conv + 8) n e2)
    ∙ puts_more fuel (zeros_from (8 - n) n m' conv) (conv + n) r f2

-- A result with some fuel is the result with any that is more.
pub with_more :
    (f : ℕ → Option (List ℕ)) (r : List ℕ)
    → ((fuel : ℕ) → f fuel ≡ some r → f (suc fuel) ≡ some r)
    → (k fuel : ℕ) → f fuel ≡ some r
    → f (k + fuel) ≡ some r
with_more f r step zero fuel e = ap f (omega arith) ∙ e
with_more f r step (suc k) fuel e =
    ap f (omega arith) ∙ step (k + fuel) (with_more f r step k fuel e)
