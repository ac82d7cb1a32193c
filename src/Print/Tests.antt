-- ===== src/Print/Tests.antt =====
-- Runs of the printing functions.
use judd_os.Prelude.{ℕ, ◌+◌, ◌-◌, ◌^◌, ◌≡◌, arith, refl, some, List, [], ◌∷◌, if◌then◌else◌, ◌==◌}
use judd_os.Prelude.Memory.{Memory, store}
use judd_os.CString.{strlen}
use judd_os.Print.{rev_loop, strrev, digit_loop, itoa, puts_from, puts, put_signed, printf}
use judd_os.Print.Reverse.{mirrored, strrev_lem}
use judd_os.Print.Total.{printf_returns}

abbrev nothing : Memory
nothing x = 0

-- "abc" is at 100, "0x%#x" at 300.
abbrev strings : Memory
strings x =
    if x == 100
    then 97
    else if x == 101
    then 98
    else if x == 102
    then 99
    else if x == 300
    then 48
    else if x == 301
    then 120
    else if x == 302
    then 37
    else if x == 303
    then 35
    else if x == 304
    then 120
    else 0

strrev_lem_example : strrev 4 strings 100 ≡ some (mirrored strings 100 0 2)
strrev_lem_example =
    strrev_lem 4 strings 100 3 record { ends = refl; before = λ i h. ground (arith, h) }
      (omega arith) (omega arith)

abbrev arguments : ℕ → ℕ
arguments i = 1234 + i

-- `%d` of -15.
prints_minus : put_signed 5 (2 ^ 32 - 15) nothing 1000 ≡ some (45 ∷ 49 ∷ 53 ∷ [])
unfolding put_signed itoa digit_loop strrev rev_loop puts puts_from strlen store
prints_minus = refl

-- "%d%%%c" at 400.
abbrev three_kinds : Memory
three_kinds x =
    if x == 400
    then 37
    else if x == 401
    then 100
    else if x == 402
    then 37
    else if x == 403
    then 37
    else if x == 404
    then 37
    else if x == 405
    then 99
    else 0

abbrev below_zero : ℕ → ℕ
below_zero i = 2 ^ 32 - 15 + i

printf_returns_example :
    (out : List ℕ) × (size : ℕ) × (printf 18 three_kinds 1000 400 below_zero ≡ some (out, size))
printf_returns_example =
    printf_returns 12 18 three_kinds 1000 below_zero (37 ∷ 100 ∷ 37 ∷ 37 ∷ 37 ∷ 99 ∷ []) 400
      (omega arith) (refl, (refl, (refl, (refl, (refl, (refl, refl)))))) (omega arith)
      (omega arith, (tt, (tt, tt)))
