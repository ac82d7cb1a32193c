-- ===== src/Interrupts/Calls.antt =====
-- The `SYSTEM_CALL` wrapper of isr_wrapper.S.
use judd_os.Prelude.{
  zero, suc, ℕ, ◌-◌, ◌^◌, ◌⊎◌, ◌<◌, ◌≤◌, ◌≡◌, arith, refl, inl, inr, List, [], ◌∷◌, Option, none,
  some, if◌then◌else◌, ◌||◌, ltb, get_elem?, ◌>>=◌, if_true, if_false, Bool-cases, ap, ◌∙◌,
  >>=-some,
}
use judd_os.Prelude.Word.{fail, is_negative, sub32}

pub data Call : Type 0 where
  halt execute read write open_call close getargs vidmap set_handler sigreturn : Call

-- `syscalls_fxns_jmp`
abbrev pub jump_table : List Call
jump_table =
    halt ∷ execute ∷ read ∷ write ∷ open_call ∷ close ∷ getargs ∷ vidmap ∷ set_handler ∷ sigreturn
    ∷ []

-- The numbers that programs use.
abbrev pub number : Call → ℕ
number halt = 1
number execute = 2
number read = 3
number write = 4
number open_call = 5
number close = 6
number getargs = 7
number vidmap = 8
number set_handler = 9
number sigreturn = 10

jump_table-number : (f : Call) → get_elem? jump_table (number f - 1) ≡ some f
jump_table-number halt = refl
jump_table-number execute = refl
jump_table-number read = refl
jump_table-number write = refl
jump_table-number open_call = refl
jump_table-number close = refl
jump_table-number getargs = refl
jump_table-number vidmap = refl
jump_table-number set_handler = refl
jump_table-number sigreturn = refl

number-range : (f : Call) → (0 < number f) × (number f ≤ 10)
number-range halt = (omega arith, omega arith)
number-range execute = (omega arith, omega arith)
number-range read = (omega arith, omega arith)
number-range write = (omega arith, omega arith)
number-range open_call = (omega arith, omega arith)
number-range close = (omega arith, omega arith)
number-range getargs = (omega arith, omega arith)
number-range vidmap = (omega arith, omega arith)
number-range set_handler = (omega arith, omega arith)
number-range sigreturn = (omega arith, omega arith)

number_of_call : (n : ℕ) → 0 < n → n ≤ 10 → (f : Call) × (number f ≡ n)
number_of_call zero pos low = absurd (omega (arith, pos))
number_of_call (suc zero) pos low = (halt, refl)
number_of_call (suc (suc zero)) pos low = (execute, refl)
number_of_call (suc (suc (suc zero))) pos low = (read, refl)
number_of_call (suc (suc (suc (suc zero)))) pos low = (write, refl)
number_of_call (suc (suc (suc (suc (suc zero))))) pos low = (open_call, refl)
number_of_call (suc (suc (suc (suc (suc (suc zero)))))) pos low = (close, refl)
number_of_call (suc (suc (suc (suc (suc (suc (suc zero))))))) pos low = (getargs, refl)
number_of_call (suc (suc (suc (suc (suc (suc (suc (suc zero)))))))) pos low = (vidmap, refl)
number_of_call (suc (suc (suc (suc (suc (suc (suc (suc (suc zero))))))))) pos low =
    (set_handler, refl)
number_of_call (suc (suc (suc (suc (suc (suc (suc (suc (suc (suc zero)))))))))) pos low =
    (sigreturn, refl)
number_of_call (suc (suc (suc (suc (suc (suc (suc (suc (suc (suc (suc n))))))))))) pos low =
    absurd (omega (arith, low))

-- A negative result becomes -1.
finish : {S : Type 0} → ℕ × S → Option (ℕ × S)
finish (ret, s) = if is_negative ret then some (fail, s) else some (ret, s)

finish_lem : {S : Type 0} (r : ℕ × S) → finish r ≡ some (if is_negative r.0 then fail else r.0, r.1)
unfolding finish
finish_lem (ret, s) = elim (Bool-cases (is_negative ret)) [
  | inl e ↦ rw (e) refl
  | inr e ↦ rw (e) refl
]

-- The value in `eax` when the wrapper returns. `call` runs a function with three arguments; `none` is one that
-- does not return.
module _ {S : Type 0} (call : Call → ℕ → ℕ → ℕ → S → Option (ℕ × S)) where
  run_entry : Option Call → ℕ → ℕ → ℕ → S → Option (ℕ × S)
  run_entry none ebx ecx edx s = none
  run_entry (some f) ebx ecx edx s = call f ebx ecx edx s >>= finish

  pub system_call_wrapper : ℕ → ℕ → ℕ → ℕ → S → Option (ℕ × S)
  system_call_wrapper eax ebx ecx edx s =
      let number = sub32 eax 1 in
      if is_negative number || ltb 9 number
      then some (fail, s)
      else run_entry (get_elem? jump_table number) ebx ecx edx s

  -- The number of a call that is in range runs the call at that number.
  call_at :
      (eax ebx ecx edx : ℕ) (s : S) (f : Call)
      → number f ≡ eax
      → system_call_wrapper eax ebx ecx edx s ≡ (call f ebx ecx edx s >>= finish)
  unfolding system_call_wrapper run_entry
  call_at eax ebx ecx edx s f same =
      let (pos, small) = number-range f in
      let index : sub32 eax 1 ≡ number f - 1 = omega (arith, same, pos, small) in
      if_false {b = is_negative (sub32 eax 1) || ltb 9 (sub32 eax 1)} _ _
        (ground (arith, pos, small, index))
      ∙ ap (λ n. run_entry (get_elem? jump_table n) ebx ecx edx s) index
      ∙ ap (λ o. run_entry o ebx ecx edx s) (jump_table-number f)

  -- The numbers 1 to 10 are those of the ten calls: halt 1, execute 2, read 3, write 4, open 5, close 6, getargs 7, vidmap 8, set_handler 9 and sigreturn 10. Each runs its
  -- call on the three registers and gives the result back, with -1 for every negative one, and does not return when the call does not; any other number changes nothing and gives -1.
  pub system_call_wrapper_lem :
      (eax ebx ecx edx : ℕ) (s : S)
      → eax < 2 ^ 32
      → (((eax ≡ 0) ⊎ (10 < eax)) → system_call_wrapper eax ebx ecx edx s ≡ some (fail, s))
        × (0 < eax → eax ≤ 10 → (f : Call) × (number f ≡ eax))
        × ((f : Call)
            → number f ≡ eax
            → ((r : ℕ × S)
                → call f ebx ecx edx s ≡ some r
                → system_call_wrapper eax ebx ecx edx s
                  ≡ some (if is_negative r.0 then fail else r.0, r.1))
              × (call f ebx ecx edx s ≡ none → system_call_wrapper eax ebx ecx edx s ≡ none))
  unfolding system_call_wrapper
  system_call_wrapper_lem eax ebx ecx edx s low = (
    λ out.
        if_true {b = is_negative (sub32 eax 1) || ltb 9 (sub32 eax 1)} _ _
          (ground (arith, out, low)),
    number_of_call eax,
    λ f same. (
      λ r result. call_at eax ebx ecx edx s f same ∙ >>=-some finish result ∙ finish_lem r,
      λ stuck. call_at eax ebx ecx edx s f same ∙ ap (λ o. o >>= finish) stuck,
    ),
  )
