-- ===== src/Process/Command.antt =====
-- The parser of `execute_setup` on a command with or without arguments, and the two strings that it leaves.
use judd_os.Prelude.{
  ℕ, zero, suc, ◌+◌, ◌<◌, ◌≤◌, ◌≡◌, ◌≢◌, ◌⊎◌, ◌∙◌, sym, ap, subst, arith, inl, inr, refl, true,
  false, if_true, if_false, ◌==◌,
}
use judd_os.Prelude.Memory.{Memory, store, store_ne}
use judd_os.Process.Consistent.{eq_or_ne}
use judd_os.Process.{Locals, Parsed, stops, parse_args, parse_name}
use judd_os.Process.Arguments.{Apart, Rest, Rest-store, parse_args_lem}
use judd_os.Process.Parse.{Line, Words, parse_name_lem}

-- Of `len` characters at `a` the first `n` are a name, before the end of the line or a space; `rest` more are arguments.
abbrev pub IsCommand : Memory → ℕ → ℕ → ℕ → ℕ → Type 0
IsCommand m a len n rest =
    (Rest m a len n × ((j : ℕ) → j < n → m (a + j) ≢ 32) × (rest ≡ 0))
    ⊎ ((k : ℕ) × (len ≡ n + suc k) × Line m a n k rest)

clear_size : Parsed → Parsed
clear_size p = record p { size_of_args = 0 }

-- On a name without arguments the two loops do the same.
parse_name_plain :
    (n left : ℕ) (m : Memory) (command : ℕ) (loc : Locals) (i : ℕ)
    → Rest m (command + i) left n
    → ((j : ℕ) → j < n → m (command + i + j) ≢ 32)
    → Apart (command + i) left (loc.fname + i) n
    → parse_name left m command loc i
      ≡ clear_size (parse_args left m command (record loc { args = loc.fname }) i i)
unfolding parse_name parse_args clear_size
parse_name_plain zero zero m command loc i rest plain apart = refl
parse_name_plain (suc n) zero m command loc i rest plain apart = absurd (omega (arith, rest.fits))
parse_name_plain zero (suc left) m command loc i rest plain apart =
    let stop : stops (m (command + i)) ≡ true = (elim rest.ends [
      | inl e ↦ absurd (omega (arith, e))
      | inr e ↦ ap (λ a. stops (m a)) (omega arith) ∙ e
    ]) in
    if_true {b = stops (m (command + i))} _ _ stop
    ∙ sym (ap clear_size (if_true {b = stops (m (command + i))} _ _ stop))
parse_name_plain (suc n) (suc left) m command loc i rest plain apart =
    let go : stops (m (command + i)) ≡ false =
      ap (λ a. stops (m a)) (omega arith) ∙ rest.goes 0 (omega arith) in
    let word : m (command + i) ≢ 32 = (λ e. plain 0 (omega arith) (ap m (omega arith) ∙ e)) in
    let rest' =
      parse_name_plain n left (store m (loc.fname + i) (m (command + i))) command loc (i + 1)
        (Rest-store m (loc.fname + i) (m (command + i)) (command + i) (command + (i + 1)) left n
          (omega arith) apart rest)
        (λ j h e. plain (suc j) (omega (arith, h)) (
          ap m (omega arith)
          ∙ sym (
              store_ne m (loc.fname + i) (m (command + i)) (command + (i + 1) + j)
                (omega (arith, apart, h, rest.fits)))
          ∙ e))
        (omega (arith, apart)) in
    if_false {b = stops (m (command + i))} _ _ go
    ∙ if_false {b = m (command + i) == 32} _ _ (ground (arith, word))
    ∙ rest'
    ∙ sym (ap clear_size (if_false {b = stops (m (command + i))} _ _ go))

parse_plain :
    (n len : ℕ) (m : Memory) (command : ℕ) (loc : Locals)
    → Rest m command len n
    → ((j : ℕ) → j < n → m (command + j) ≢ 32)
    → Apart command len loc.fname n
    → Words m (parse_name len m command loc 0) loc.fname loc.args command n 0
unfolding clear_size
parse_plain n len m command loc rest plain apart =
    let start : command + 0 ≡ command = omega arith in
    let here : Rest m (command + 0) len n = subst (λ a. Rest m a len n) (sym start) rest in
    let args =
      parse_args_lem n len m command (record loc { args = loc.fname }) 0 0 here
        (omega (arith, apart)) in
    let Q : Parsed → Type 0 = (λ p. Words m p loc.fname loc.args command n 0) in
    subst Q
      (sym (
        parse_name_plain n len m command loc 0 here (λ j h e. plain j h (ap m (omega arith) ∙ e))
          (omega (arith, apart))))
      (record {
        ok = args.ok;
        size_of_args = refl;
        name = λ j h.
            ap (parse_args len m command (record loc { args = loc.fname }) 0 0).mem (omega arith)
            ∙ args.copied j h
            ∙ ap m (omega arith);
        arguments = λ j h. absurd (omega (arith, h));
        kept = λ x out out'. args.kept x (omega (arith, out));
      })

-- The parser on either kind of command.
pub parse_command :
    (m : Memory) (command len n rest : ℕ) (loc : Locals)
    → IsCommand m command len n rest
    → n < 32
    → Apart command len loc.fname len
    → Apart command len loc.args len
    → Apart loc.fname len loc.args len
    → Words m (parse_name len m command loc 0) loc.fname loc.args command n rest
parse_command m command len n rest loc (inl (name, plain, none_left)) short apart_name apart_args
      apart =
    subst (Words m (parse_name len m command loc 0) loc.fname loc.args command n) (sym none_left)
      (parse_plain n len m command loc name plain (omega (arith, apart_name, name.fits)))
parse_command m command len n rest loc (inr (k, size, line)) short apart_name apart_args apart =
    let start : command + 0 ≡ command = omega arith in
    let start' : loc.fname + 0 ≡ loc.fname = omega arith in
    let words =
      parse_name_lem n k m command loc 0 rest (subst (λ a. Line m a n k rest) (sym start) line)
        (omega (arith, short)) (omega (arith, apart_name, size)) (omega (arith, apart_args, size))
        (omega (arith, apart, size)) in
    let words' : Words m (parse_name (n + suc k) m command loc 0) loc.fname loc.args command n
        rest =
      subst (λ a. Words m (parse_name (n + suc k) m command loc 0) loc.fname loc.args a n rest)
        start
        (subst
          (λ f. Words m (parse_name (n + suc k) m command loc 0) f loc.args (command + 0) n rest)
          start' words) in
    subst (λ l. Words m (parse_name l m command loc 0) loc.fname loc.args command n rest) (sym size)
      words'

-- A command is the same in a memory with the same characters there.
Rest-same :
    (m m' : Memory) (a left n : ℕ)
    → ((j : ℕ) → j < left → m' (a + j) ≡ m (a + j))
    → Rest m a left n
    → Rest m' a left n
Rest-same m m' a left n same rest = record {
  fits = rest.fits;
  goes = λ j h. ap stops (same j (omega (arith, h, rest.fits))) ∙ rest.goes j h;
  ends = (elim (eq_or_ne n left) [
    | inl e ↦ inl e
    | inr ne ↦ (elim rest.ends [
      | inl e ↦ inl e
      | inr e ↦ inr (ap stops (same n (omega (arith, ne, rest.fits))) ∙ e)
    ])
  ]);
}

pub IsCommand-same :
    (m m' : Memory) (a len n rest : ℕ)
    → ((j : ℕ) → j < len → m' (a + j) ≡ m (a + j))
    → IsCommand m a len n rest
    → IsCommand m' a len n rest
IsCommand-same m m' a len n rest same (inl (name, plain, none_left)) = inl (
  Rest-same m m' a len n same name,
  λ j h e. plain j h (sym (same j (omega (arith, h, name.fits))) ∙ e),
  none_left,
)
IsCommand-same m m' a len n rest same (inr (k, size, line)) = inr (
  k,
  size,
  record {
    name_goes = λ j h. ap stops (same j (omega (arith, h, size))) ∙ line.name_goes j h;
    name_plain = λ j h e. line.name_plain j h (sym (same j (omega (arith, h, size))) ∙ e);
    space = same n (omega (arith, size)) ∙ line.space;
    arguments =
        Rest-same m m' (a + n + 1) k rest
          (λ j h.
            ap m' (omega arith) ∙ same (n + 1 + j) (omega (arith, h, size)) ∙ ap m (omega arith))
          line.arguments;
  },
)

-- The characters of the name and of the arguments are not zero.
pub record Characters (m : Memory) (a len n rest : ℕ) : Type 0 where
  pub name_fits : n ≤ len
  pub fits : (rest ≡ 0) ⊎ (n + 1 + rest ≤ len)
  pub name_goes : (j : ℕ) → j < n → m (a + j) ≢ 0
  pub goes : (j : ℕ) → j < rest → m (a + n + 1 + j) ≢ 0

not_zero : (c : ℕ) → stops c ≡ false → c ≢ 0
not_zero c h = ground (arith, h)

pub command-Characters :
    (m : Memory) (a len n rest : ℕ) → IsCommand m a len n rest → Characters m a len n rest
command-Characters m a len n rest (inl (name, plain, none_left)) = record {
  name_fits = name.fits;
  fits = inl none_left;
  name_goes = λ j h. not_zero _ (name.goes j h);
  goes = λ j h. absurd (omega (arith, h, none_left));
}
command-Characters m a len n rest (inr (k, size, line)) = record {
  name_fits = omega (arith, size);
  fits = inr (omega (arith, size, line.arguments.fits));
  name_goes = λ j h. not_zero _ (line.name_goes j h);
  goes = λ j h. not_zero _ (line.arguments.goes j h);
}
