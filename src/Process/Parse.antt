-- ===== src/Process/Parse.antt =====
-- The parser of `execute_setup`: the first word is the name of the program, the rest of the line its arguments.
use judd_os.Prelude.{
  ℕ, zero, suc, ◌+◌, ◌<◌, ◌≤◌, ◌≡◌, ◌≢◌, ◌⊎◌, ◌∙◌, sym, ap, arith, inl, inr, true, false, if_split,
  ==_iff, subst, ◌==◌, leb,
}
use judd_os.Prelude.Memory.{Memory, store, store_self, store_ne}
use judd_os.Process.Consistent.{eq_or_ne}
use judd_os.Process.{Locals, Parsed, stops, parse_args, parse_name}
use judd_os.Process.Arguments.{Apart, Copied, Rest, copied_cons, parse_args_lem}

-- At `a` there are `n` characters of a name, a space, and `k` more characters, `rest` of them arguments.
pub record Line (m : Memory) (a n k rest : ℕ) : Type 0 where
  pub name_goes : (j : ℕ) → j < n → stops (m (a + j)) ≡ false
  pub name_plain : (j : ℕ) → j < n → m (a + j) ≢ 32
  pub space : m (a + n) ≡ 32
  pub arguments : Rest m (a + n + 1) k rest

-- What the parser leaves.
pub record Words (m : Memory) (p : Parsed) (fname args at n rest : ℕ) : Type 0 where
  pub ok : p.ok ≡ true
  pub size_of_args : p.size_of_args ≡ rest
  pub name : Copied m p.mem fname at n
  pub arguments : Copied m p.mem args (at + n + 1) rest
  pub kept :
      (x : ℕ) → (x < fname) ⊎ (fname + n ≤ x) → (x < args) ⊎ (args + rest ≤ x) → p.mem x ≡ m x

parse_space :
    (k : ℕ) (m : Memory) (command : ℕ) (loc : Locals) (i rest : ℕ)
    → Line m (command + i) 0 k rest
    → i < 32
    → Apart (command + i) (suc k) loc.args (suc k)
    → Words m (parse_name (suc k) m command loc i) (loc.fname + i) loc.args (command + i) 0 rest
unfolding parse_name
parse_space k m command loc i rest line short apart =
    let c : m (command + i) ≡ 32 = ap m (omega arith) ∙ line.space in
    let goes : stops (m (command + i)) ≡ false = ap stops c in
    let at : command + i + 0 + 1 ≡ command + (i + 1) = omega arith in
    let arguments : Rest m (command + (i + 1)) k rest =
      subst (λ a. Rest m a k rest) at line.arguments in
    let args =
      parse_args_lem rest k m command loc (i + 1) 0 arguments
        (omega (arith, apart, arguments.fits)) in
    let words : Words m (parse_args k m command loc (i + 1) 0) (loc.fname + i) loc.args
        (command + i) 0 rest =
      record {
        ok = args.ok;
        size_of_args = args.size_of_args ∙ omega arith;
        name = λ j h. absurd (omega (arith, h));
        arguments = λ j h.
            ap (parse_args k m command loc (i + 1) 0).mem (omega arith)
            ∙ args.copied j h
            ∙ ap m (omega arith);
        kept = λ x out_name out. args.kept x (omega (arith, out));
      } in
    let Q : Parsed → Type 0 = (λ p. Words m p (loc.fname + i) loc.args (command + i) 0 rest) in
    if_split Q (stops (m (command + i))) (λ bad. absurd (cc (bad, goes)))
      (λ good.
        if_split Q (m (command + i) == 32)
          (λ is.
            if_split Q (leb 32 i) (λ long. absurd (ground (arith, long, short))) (λ fine. words))
          (λ bad. absurd (ground (arith, bad, c))))

-- A write outside the line does not change it.
Line-store :
    (m : Memory) (d v a a' n k rest : ℕ)
    → a' ≡ a + 1
    → Apart a (suc (n + suc k)) d (suc (n + suc k))
    → Line m a (suc n) k rest
    → Line (store m d v) a' n k rest
Line-store m d v a a' n k rest next apart line =
    let same : (j : ℕ) → j < n + suc k → store m d v (a' + j) ≡ m (a + suc j) = (λ j h.
      store_ne m d v (a' + j) (omega (arith, apart, next, h)) ∙ ap m (omega (arith, next))) in
    let old = line.arguments in
    record {
      name_goes =
          λ j h. ap stops (same j (omega (arith, h))) ∙ line.name_goes (suc j) (omega (arith, h));
      name_plain =
          λ j h e. line.name_plain (suc j) (omega (arith, h)) (sym (same j (omega (arith, h))) ∙ e);
      space = same n (omega arith) ∙ line.space;
      arguments = record {
        fits = old.fits;
        goes = λ j h.
            ap stops
              (ap (store m d v) (omega arith) ∙ same (n + 1 + j) (omega (arith, h, old.fits)))
            ∙ ap (λ x. stops (m x)) (omega arith)
            ∙ old.goes j h;
        ends = (elim (eq_or_ne rest k) [
          | inl e ↦ inl e
          | inr ne ↦ (elim old.ends [
            | inl e ↦ inl e
            | inr e ↦ inr (
                ap stops (
                  ap (store m d v) (omega arith)
                  ∙ same (n + 1 + rest) (omega (arith, ne, old.fits)))
                ∙ ap (λ x. stops (m x)) (omega arith)
                ∙ e)
          ])
        ]);
      };
    }

Words-step :
    (n k rest : ℕ) (m : Memory) (fname fname' args a a' : ℕ) (p : Parsed)
    → a' ≡ a + 1
    → fname' ≡ fname + 1
    → rest ≤ k
    → Apart a (suc (n + suc k)) fname (suc (n + suc k))
    → Apart fname (suc (n + suc k)) args (suc (n + suc k))
    → Words (store m fname (m a)) p fname' args a' n rest
    → Words m p fname args a (suc n) rest
Words-step n k rest m fname fname' args a a' p next next' fits apart apart' words =
    let first : p.mem fname ≡ m a =
      words.kept fname (inl (omega (arith, next'))) (omega (arith, apart', fits))
      ∙ store_self m fname (m a) in
    let old : (j : ℕ) → j < n + suc k → store m fname (m a) (a' + j) ≡ m (a + suc j) = (λ j h.
      store_ne m fname (m a) (a' + j) (omega (arith, apart, next, h))
      ∙ ap m (omega (arith, next))) in
    record {
      ok = words.ok;
      size_of_args = words.size_of_args;
      name =
          copied_cons n m p.mem fname a first
            (λ j h. ap p.mem (omega (arith, next')) ∙ words.name j h ∙ old j (omega (arith, h)));
      arguments = λ j h.
          words.arguments j h
          ∙ ap (store m fname (m a)) (omega arith)
          ∙ old (n + 1 + j) (omega (arith, h, fits))
          ∙ ap m (omega arith);
      kept = λ x out_name out.
          words.kept x (omega (arith, out_name, next')) out
          ∙ store_ne m fname (m a) x (omega (arith, out_name));
    }

-- For a command of a name of `n` characters, at most 31 of them, a space, and `k` more characters, `rest` of them before the end
-- of the line: the parser copies the name to `fname` and the `rest` characters, leading spaces included, to `args`, counts them,
-- and changes no other byte, when the command and the two buffers do not overlap.
pub parse_name_lem :
    (n k : ℕ) (m : Memory) (command : ℕ) (loc : Locals) (i rest : ℕ)
    → Line m (command + i) n k rest
    → i + n < 32
    → Apart (command + i) (n + suc k) (loc.fname + i) (n + suc k)
    → Apart (command + i) (n + suc k) loc.args (n + suc k)
    → Apart (loc.fname + i) (n + suc k) loc.args (n + suc k)
    → Words m (parse_name (n + suc k) m command loc i) (loc.fname + i) loc.args (command + i) n rest
unfolding parse_name
parse_name_lem zero k m command loc i rest line short apart_name apart_args apart =
    let same : 0 + suc k ≡ suc k = omega arith in
    subst
      (λ left.
        Words m (parse_name left m command loc i) (loc.fname + i) loc.args (command + i) 0 rest)
      (sym same)
      (parse_space k m command loc i rest line (omega (arith, short)) (omega (arith, apart_args)))
parse_name_lem (suc n) k m command loc i rest line short apart_name apart_args apart =
    let same : suc n + suc k ≡ suc (n + suc k) = omega arith in
    let goes : stops (m (command + i)) ≡ false =
      ap (λ a. stops (m a)) (omega arith) ∙ line.name_goes 0 (omega arith) in
    let plain : m (command + i) ≢ 32 =
      (λ e. line.name_plain 0 (omega arith) (ap m (omega arith) ∙ e)) in
    let next : command + (i + 1) ≡ command + i + 1 = omega arith in
    let c = m (command + i) in
    let m' = store m (loc.fname + i) c in
    let apart' : Apart (command + i) (suc (n + suc k)) (loc.fname + i) (suc (n + suc k)) =
      omega (arith, apart_name) in
    let words =
      Words-step n k rest m (loc.fname + i) (loc.fname + (i + 1)) loc.args (command + i)
        (command + (i + 1)) (parse_name (n + suc k) m' command loc (i + 1)) next (omega arith)
        line.arguments.fits apart' (omega (arith, apart))
        (parse_name_lem n k m' command loc (i + 1) rest
          (Line-store m (loc.fname + i) c (command + i) (command + (i + 1)) n k rest next apart'
            line)
          (omega (arith, short)) (omega (arith, apart_name)) (omega (arith, apart_args))
          (omega (arith, apart))) in
    let Q : Parsed → Type 0 =
      (λ p. Words m p (loc.fname + i) loc.args (command + i) (suc n) rest) in
    subst (λ left. Q (parse_name left m command loc i)) (sym same)
      (if_split Q (stops c) (λ bad. absurd (cc (bad, goes)))
        (λ good. if_split Q (c == 32) (λ is. absurd (plain ((==_iff c 32).0 is))) (λ other. words)))
