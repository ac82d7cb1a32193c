-- ===== src/Print.antt =====
-- lib.c: `strrev`, `itoa`, `puts` and `printf`. What is printed is a list of characters, in the
-- order of the calls of `putc`.
pub mod Reverse
pub mod Digits
pub mod Number
pub mod More
pub mod Negative
pub mod Kinds
pub mod Total
pub mod Format
mod Tests
use judd_os.Prelude.{
  ℕ, zero, suc, ◌+◌, ◌-◌, ◌*◌, ◌/◌, ◌%◌, ◌^◌, if◌then◌else◌, ◌==◌, ltb, leb, List, [], ◌∷◌, ◌++◌,
  get_or, Option, none, some, ◌>>=◌,
}
use judd_os.Prelude.Memory.{Memory, store}
use judd_os.Prelude.Word.{u32, is_negative, sub32}
use judd_os.CString.{strlen}

-- The loop of `strrev`; `none` says that the fuel was too small.
rev_loop : ℕ → Memory → ℕ → ℕ → ℕ → Option Memory
rev_loop zero m s beg end = none
rev_loop (suc fuel) m s beg end =
    let swapped = store (store m (s + end) (m (s + beg))) (s + beg) (m (s + end)) in
    let rest = rev_loop fuel swapped s (beg + 1) (end - 1) in if ltb beg end then rest else some m

-- For the empty string `end` is -1 in the source and 0 here: the loop is not entered either way.
pub strrev : ℕ → Memory → ℕ → Option Memory
unfolding rev_loop
strrev fuel m s = do n ← strlen fuel m s; rev_loop fuel m s 0 (n - 1)

-- The string `lookup` of `itoa`.
abbrev lookup : List ℕ
lookup =
    48 ∷ 49 ∷ 50 ∷ 51 ∷ 52 ∷ 53 ∷ 54 ∷ 55 ∷ 56 ∷ 57 ∷ 65 ∷ 66 ∷ 67 ∷ 68 ∷ 69 ∷ 70 ∷ 71 ∷ 72 ∷ 73
    ∷ 74 ∷ 75 ∷ 76 ∷ 77 ∷ 78 ∷ 79 ∷ 80 ∷ 81 ∷ 82 ∷ 83 ∷ 84 ∷ 85 ∷ 86 ∷ 87 ∷ 88 ∷ 89 ∷ 90 ∷ []

-- The loop of `itoa`: the memory and the address behind the last digit.
digit_loop : ℕ → Memory → ℕ → ℕ → ℕ → Option (Memory × ℕ)
digit_loop zero m newbuf newval radix = none
digit_loop (suc fuel) m newbuf newval radix =
    let rest =
      digit_loop fuel (store m newbuf (get_or lookup (newval % radix) 0)) (newbuf + 1)
        (newval / radix) radix in
    if ltb 0 newval then rest else some (m, newbuf)

pub itoa : ℕ → ℕ → Memory → ℕ → ℕ → Option Memory
unfolding digit_loop
itoa fuel value m buf radix =
    let digits : Option Memory = (do
      (m', newbuf) ← digit_loop fuel m buf value radix
      strrev fuel (store m' newbuf 0) buf) in
    if value == 0 then some (store (store m buf 48) (buf + 1) 0) else digits

-- The characters that `puts` prints, with `index` already done.
puts_from : ℕ → Memory → ℕ → ℕ → Option (List ℕ)
puts_from zero m s index = none
puts_from (suc fuel) m s index =
    let rest : Option (List ℕ) = (do
      out ← puts_from fuel m s (index + 1)
      some (m (s + index) ∷ out)) in
    if m (s + index) == 0 then some [] else rest

pub puts : ℕ → Memory → ℕ → Option (List ℕ)
unfolding puts_from
puts fuel m s = puts_from fuel m s 0

-- A number printed from the local buffer at `conv`.
pub put_number : ℕ → ℕ → Memory → ℕ → ℕ → Option (List ℕ)
put_number fuel value m conv radix = do m' ← itoa fuel value m conv radix; puts fuel m' conv

-- The loop that writes zeros in front, with so many rounds left.
zeros_from : ℕ → ℕ → Memory → ℕ → Memory
zeros_from zero i m conv = m
zeros_from (suc left) i m conv = zeros_from left (i + 1) (store m (conv + i) 48) conv

-- `%#x`
pub put_alternate : ℕ → ℕ → Memory → ℕ → Option (List ℕ)
unfolding zeros_from
put_alternate fuel value m conv = do
  m' ← itoa fuel value m (conv + 8) 16
  n ← strlen fuel m' (conv + 8)
  puts fuel (zeros_from (8 - n) n m' conv) (conv + n)

-- `%d`: `value` is the bit pattern of an `int32_t`.
pub put_signed : ℕ → ℕ → Memory → ℕ → Option (List ℕ)
put_signed fuel value m conv =
    let positive = put_number fuel value m conv 10 in
    let negative : Option (List ℕ) = (do
      m' ← itoa fuel (sub32 0 value) (store m conv 45) (conv + 1) 10
      puts fuel m' conv) in
    if is_negative value then negative else positive

-- What a conversion prints, and how many arguments it takes: `arg` is the next one. The source leaves
-- the buffers of earlier conversions on its stack, which nothing reads.
pub convert : ℕ → Memory → ℕ → ℕ → ℕ → ℕ → Option (List ℕ × ℕ)
convert fuel m conv alternate ch arg =
    let with_one : Option (List ℕ) → Option (List ℕ × ℕ) = (λ o. o >>= λ out. some (out, 1)) in
    if ch == 37
    then some (37 ∷ [], 0)
    else if ch == 120
    then with_one
        (if alternate == 0 then put_number fuel arg m conv 16 else put_alternate fuel arg m conv)
    else if ch == 117
    then with_one (put_number fuel arg m conv 10)
    else if ch == 100
    then with_one (put_signed fuel arg m conv)
    else if ch == 99
    then some (arg % 2 ^ 8 ∷ [], 1)
    else if ch == 115
    then with_one (puts fuel m arg)
    else some ([], 0)

-- From `format_char_switch` on: what is printed, the arguments taken, and the address of the last character
-- of the conversion.
pub format_char : ℕ → Memory → ℕ → ℕ → ℕ → ℕ → Option ((List ℕ × ℕ) × ℕ)
unfolding convert
format_char zero m conv alternate buf arg = none
format_char (suc fuel) m conv alternate buf arg =
    let again = format_char fuel m conv 1 (buf + 1) arg in
    let done : Option ((List ℕ × ℕ) × ℕ) = (do
      r ← convert fuel m conv alternate (m buf) arg
      some (r, buf)) in
    if m buf == 35 then again else done

-- The loop of `printf`: what it prints, and the address of the terminating zero. `stack` holds the arguments behind the format, `esp`
-- the number of the next one.
pub print_from : ℕ → Memory → ℕ → (ℕ → ℕ) → ℕ → ℕ → Option (List ℕ × ℕ)
unfolding format_char
print_from zero m conv stack esp buf = none
print_from (suc fuel) m conv stack esp buf =
    let literal : Option (List ℕ × ℕ) = (do
      (out, last) ← print_from fuel m conv stack esp (buf + 1)
      some (m buf ∷ out, last)) in
    let conversion : Option (List ℕ × ℕ) = (do
      ((out, taken), at) ← format_char fuel m conv 0 (buf + 1) (stack esp)
      (rest, last) ← print_from fuel m conv stack (esp + taken) (at + 1)
      some (out ++ rest, last)) in
    if m buf == 0 then some ([], buf) else if m buf == 37 then conversion else literal

-- The characters, and the number returned.
pub printf : ℕ → Memory → ℕ → ℕ → (ℕ → ℕ) → Option (List ℕ × ℕ)
unfolding print_from
printf fuel m conv format stack = do
  (out, last) ← print_from fuel m conv stack 0 format
  some (out, last - format)
