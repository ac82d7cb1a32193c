-- ===== src/Process/Buffers.antt =====
-- The buffers of `execute` on the stack: cleared, and then filled by the parser.
use judd_os.Prelude.{
  ℕ, ◌+◌, ◌-◌, ◌<◌, ◌≤◌, ◌≡◌, ◌≢◌, ◌⊎◌, ◌∙◌, sym, ap, subst, arith, inl, inr, Bool-cases, leb, ltb,
  ◌&&◌,
}
use judd_os.Prelude.Memory.{Memory, IsBytes}
use judd_os.Block.{memset}
use judd_os.Block.Fill.{memset_lem}
use judd_os.Block.Reference.{filled, filled_in, filled_out}
use judd_os.CString.Length.{IsString}
use judd_os.Process.{Locals, Parsed, parse_name}
use judd_os.Process.Arguments.{Apart}
use judd_os.Process.Parse.{Words}
use judd_os.Process.Command.{
  IsCommand, IsCommand-same, Characters, command-Characters, parse_command,
}

-- A command of `len` characters, and buffers of `len + 1` bytes that overlap neither it nor one another.
pub record IsCall (m : Memory) (command len n rest : ℕ) (loc : Locals) : Type 0 where
  pub string : IsString m command len
  pub parts : IsCommand m command len n rest
  pub some_name : 0 < n
  pub short : n < 32
  pub apart_name : Apart command (len + 1) loc.fname (len + 1)
  pub apart_args : Apart command (len + 1) loc.args (len + 1)
  pub apart : Apart loc.fname (len + 1) loc.args (len + 1)

-- The memory after `memset` of the two buffers.
abbrev pub blanked : Memory → ℕ → Locals → Memory
blanked m len loc = memset (memset m loc.fname 0 (len + 1)) loc.args 0 (len + 1)

-- What the parser leaves: two strings, and the rest of the memory as it was.
pub record Ready (m m1 : Memory) (command len n rest : ℕ) (loc : Locals) : Type 0 where
  pub name : IsString m1 loc.fname n
  pub name_bytes : (i : ℕ) → i < n → m1 (loc.fname + i) ≡ m (command + i)
  pub args : IsString m1 loc.args rest
  pub args_bytes : (i : ℕ) → i < rest → m1 (loc.args + i) ≡ m (command + n + 1 + i)
  pub name_fits : n ≤ len
  pub fits : rest ≤ len
  pub bytes : IsBytes m → IsBytes m1
  pub kept :
      (x : ℕ)
      → (x < loc.fname) ⊎ (loc.fname + (len + 1) ≤ x)
      → (x < loc.args) ⊎ (loc.args + (len + 1) ≤ x)
      → m1 x ≡ m x

-- An address is outside a region, or has an offset in it.
outside_or_in : (a n x : ℕ) → ((x < a) ⊎ (a + n ≤ x)) ⊎ ((j : ℕ) × (j < n) × (x ≡ a + j))
outside_or_in a n x = elim (Bool-cases (leb a x && ltb x (a + n))) [
  | inl here ↦ inr (x - a, ground (arith, here), ground (arith, here))
  | inr out ↦ inl (ground (arith, out))
]

module _ (m : Memory) (command len n rest : ℕ) (loc : Locals)
    (call : IsCall m command len n rest loc) where
  blanked_lem : blanked m len loc ≡ filled (filled m loc.fname 0 (len + 1)) loc.args 0 (len + 1)
  blanked_lem =
      memset_lem (memset m loc.fname 0 (len + 1)) loc.args 0 (len + 1)
      ∙ ap (λ w. filled w loc.args 0 (len + 1)) (memset_lem m loc.fname 0 (len + 1))

  blanked_out :
      (x : ℕ)
      → (x < loc.fname) ⊎ (loc.fname + (len + 1) ≤ x)
      → (x < loc.args) ⊎ (loc.args + (len + 1) ≤ x)
      → blanked m len loc x ≡ m x
  blanked_out x out out' =
      ap (λ w. w x) blanked_lem
      ∙ filled_out (filled m loc.fname 0 (len + 1)) loc.args 0 (len + 1) x out'
      ∙ filled_out m loc.fname 0 (len + 1) x out

  pub blanked_command : (j : ℕ) → j < len + 1 → blanked m len loc (command + j) ≡ m (command + j)
  blanked_command j h =
      blanked_out (command + j) (omega (arith, h, call.apart_name))
        (omega (arith, h, call.apart_args))

  blanked_name : (j : ℕ) → j < len + 1 → blanked m len loc (loc.fname + j) ≡ 0
  blanked_name j h =
      ap (λ w. w (loc.fname + j)) blanked_lem
      ∙ filled_out (filled m loc.fname 0 (len + 1)) loc.args 0 (len + 1) (loc.fname + j)
          (omega (arith, h, call.apart))
      ∙ filled_in m loc.fname 0 (len + 1) j h

  blanked_args : (j : ℕ) → j < len + 1 → blanked m len loc (loc.args + j) ≡ 0
  blanked_args j h =
      ap (λ w. w (loc.args + j)) blanked_lem
      ∙ filled_in (filled m loc.fname 0 (len + 1)) loc.args 0 (len + 1) j h

  blanked-IsBytes : IsBytes m → IsBytes (blanked m len loc)
  blanked-IsBytes b x = subst (λ w. w x < 256) (sym blanked_lem) (ground (arith, b x))

  abbrev pub parsed : Parsed
  parsed = parse_name len (blanked m len loc) command loc 0

  pub words : Words (blanked m len loc) parsed loc.fname loc.args command n rest
  words =
      parse_command (blanked m len loc) command len n rest loc
        (IsCommand-same m (blanked m len loc) command len n rest
          (λ j h. blanked_command j (omega (arith, h))) call.parts)
        call.short (omega (arith, call.apart_name)) (omega (arith, call.apart_args))
        (omega (arith, call.apart))

  characters : Characters m command len n rest
  characters = command-Characters m command len n rest call.parts

  fits_len : rest ≤ len
  fits_len = omega (arith, characters.fits)

  name_copied : (i : ℕ) → i < n → parsed.mem (loc.fname + i) ≡ m (command + i)
  name_copied i h = words.name i h ∙ blanked_command i (omega (arith, h, characters.name_fits))

  args_copied : (i : ℕ) → i < rest → parsed.mem (loc.args + i) ≡ m (command + n + 1 + i)
  args_copied i h =
      words.arguments i h
      ∙ ap (blanked m len loc) (omega arith)
      ∙ blanked_command (n + 1 + i) (omega (arith, h, characters.fits))
      ∙ ap m (omega arith)

  parsed-IsBytes : IsBytes m → IsBytes parsed.mem
  parsed-IsBytes b x = elim (outside_or_in loc.fname n x) [
    | inr (j, h, e) ↦
        subst (λ c. c < 256) (sym (ap parsed.mem e ∙ name_copied j h)) (b (command + j))
    | inl out ↦ (elim (outside_or_in loc.args rest x) [
      | inr (j, h, e) ↦
          subst (λ c. c < 256) (sym (ap parsed.mem e ∙ args_copied j h)) (b (command + n + 1 + j))
      | inl out' ↦ subst (λ c. c < 256) (sym (words.kept x out out')) (blanked-IsBytes b x)
    ])
  ]

  -- The parser leaves the name and the arguments as two strings, and the rest of the memory as it was.
  pub ready : Ready m parsed.mem command len n rest loc
  ready = record {
    name = record {
      ends =
          words.kept (loc.fname + n) (inr (omega arith))
            (omega (arith, call.apart, fits_len, characters.name_fits))
          ∙ blanked_name n (omega (arith, characters.name_fits));
      before = λ i h e. characters.name_goes i h (sym (name_copied i h) ∙ e);
    };
    name_bytes = name_copied;
    args = record {
      ends =
          words.kept (loc.args + rest) (omega (arith, call.apart, fits_len, characters.name_fits))
            (inr (omega arith))
          ∙ blanked_args rest (omega (arith, fits_len));
      before = λ i h e. characters.goes i h (sym (args_copied i h) ∙ e);
    };
    args_bytes = args_copied;
    name_fits = characters.name_fits;
    fits = fits_len;
    bytes = parsed-IsBytes;
    kept = λ x out out'.
        words.kept x (omega (arith, out, characters.name_fits)) (omega (arith, out', fits_len))
        ∙ blanked_out x out out';
  }

  -- The command is not empty and does not start with a space.
  pub blanked_first : (blanked m len loc command ≢ 0) × (blanked m len loc command ≢ 32)
  blanked_first =
      let same : blanked m len loc command ≡ m command =
        ap (blanked m len loc) (omega arith)
        ∙ blanked_command 0 (omega arith)
        ∙ ap m (omega arith) in
      (
        λ e. characters.name_goes 0 call.some_name (ap m (omega arith) ∙ sym same ∙ e),
        λ e. (elim call.parts [
          | inl (name, plain, none_left) ↦
              plain 0 call.some_name (ap m (omega arith) ∙ sym same ∙ e)
          | inr (k, size, line) ↦
              line.name_plain 0 call.some_name (ap m (omega arith) ∙ sym same ∙ e)
        ]),
      )
