-- ===== src/Process/Arguments.antt =====
-- The inner loop of the parser of `execute_setup`, which copies the arguments.
use judd_os.Prelude.{
  ℕ, zero, suc, ◌+◌, ◌<◌, ◌≤◌, ◌≡◌, ◌⊎◌, ◌∙◌, ap, arith, refl, inl, inr, true, false, if_true,
  if_split,
}
use judd_os.Prelude.Memory.{Memory, store, store_self, store_ne}
use judd_os.Process.Consistent.{eq_or_ne}
use judd_os.Process.{Locals, Parsed, stops, parse_args}

-- `n` bytes at `a` and `k` at `b` do not overlap.
abbrev pub Apart : ℕ → ℕ → ℕ → ℕ → Type 0
Apart a n b k = (a + n ≤ b) ⊎ (b + k ≤ a)

-- In `m'` the `n` bytes at `d` are those of `m` at `s`.
abbrev pub Copied : Memory → Memory → ℕ → ℕ → ℕ → Type 0
Copied m m' d s n = (j : ℕ) → j < n → m' (d + j) ≡ m (s + j)

pub copied_cons :
    (n : ℕ) (m m' : Memory) (d s : ℕ)
    → m' d ≡ m s
    → ((j : ℕ) → j < n → m' (d + suc j) ≡ m (s + suc j))
    → Copied m m' d s (suc n)
copied_cons n m m' d s first later zero h = ap m' (omega arith) ∙ first ∙ ap m (omega arith)
copied_cons n m m' d s first later (suc j) h = later j (omega (arith, h))

-- Outside `n` bytes at `d` nothing has changed.
abbrev pub Kept : Memory → Memory → ℕ → ℕ → Type 0
Kept m m' d n = (x : ℕ) → (x < d) ⊎ (d + n ≤ x) → m' x ≡ m x

-- `n` characters that end no line, before the end of the command or a character that ends it.
pub record Rest (m : Memory) (a left n : ℕ) : Type 0 where
  pub fits : n ≤ left
  pub goes : (j : ℕ) → j < n → stops (m (a + j)) ≡ false
  pub ends : (n ≡ left) ⊎ (stops (m (a + n)) ≡ true)

-- What the inner loop does with `n` characters.
pub record Args (m : Memory) (p : Parsed) (loc : Locals) (at size n : ℕ) : Type 0 where
  pub ok : p.ok ≡ true
  pub size_of_args : p.size_of_args ≡ size + n
  pub copied : Copied m p.mem (loc.args + size) at n
  pub kept : Kept m p.mem (loc.args + size) n

-- A write outside the rest of the line does not change it.
pub Rest-store :
    (m : Memory) (d v a a' left n : ℕ)
    → a' ≡ a + 1
    → Apart a (suc left) d (suc n)
    → Rest m a (suc left) (suc n)
    → Rest (store m d v) a' left n
Rest-store m d v a a' left n next apart rest = record {
  fits = omega (arith, rest.fits);
  goes = λ j h.
      ap stops (store_ne m d v (a' + j) (omega (arith, apart, next, h, rest.fits)))
      ∙ ap (λ x. stops (m x)) (omega (arith, next))
      ∙ rest.goes (suc j) (omega (arith, h));
  ends = (elim (eq_or_ne n left) [
    | inl e ↦ inl e
    | inr ne ↦ (elim rest.ends [
      | inl e ↦ absurd (omega (arith, e, ne))
      | inr e ↦ inr (
          ap stops (store_ne m d v (a' + n) (omega (arith, apart, next, ne, rest.fits)))
          ∙ ap (λ x. stops (m x)) (omega (arith, next))
          ∙ e)
    ])
  ]);
}

Args-step :
    (n left : ℕ) (m : Memory) (loc : Locals) (a a' size : ℕ) (p : Parsed)
    → a' ≡ a + 1
    → n ≤ left
    → Apart a (suc left) (loc.args + size) (suc n)
    → Args (store m (loc.args + size) (m a)) p loc a' (size + 1) n
    → Args m p loc a size (suc n)
Args-step n left m loc a a' size p next fits apart args =
    let d = loc.args + size in
    let first : p.mem d ≡ m a = args.kept d (inl (omega arith)) ∙ store_self m d (m a) in
    let later : (j : ℕ) → j < n → p.mem (d + suc j) ≡ m (a + suc j) = (λ j h.
      ap p.mem (omega arith)
      ∙ args.copied j h
      ∙ store_ne m d (m a) (a' + j) (omega (arith, apart, next, h, fits))
      ∙ ap m (omega (arith, next))) in
    record {
      ok = args.ok;
      size_of_args = args.size_of_args ∙ omega arith;
      copied = copied_cons n m p.mem d a first later;
      kept = λ x out. args.kept x (omega (arith, out)) ∙ store_ne m d (m a) x (omega (arith, out));
    }

pub parse_args_lem :
    (n left : ℕ) (m : Memory) (command : ℕ) (loc : Locals) (i size : ℕ)
    → Rest m (command + i) left n
    → Apart (command + i) left (loc.args + size) n
    → Args m (parse_args left m command loc i size) loc (command + i) size n
unfolding parse_args store
parse_args_lem zero zero m command loc i size rest apart = record {
  ok = refl;
  size_of_args = omega arith;
  copied = λ j h. absurd (omega (arith, h));
  kept = λ x h. refl;
}
parse_args_lem (suc n) zero m command loc i size rest apart = absurd (omega (arith, rest.fits))
parse_args_lem zero (suc left) m command loc i size rest apart =
    let stop : stops (m (command + i)) ≡ true = (elim rest.ends [
      | inl e ↦ absurd (omega (arith, e))
      | inr e ↦ ap (λ a. stops (m a)) (omega arith) ∙ e
    ]) in
    rw (if_true {b = stops (m (command + i))} _ _ stop) record {
      ok = refl;
      size_of_args = omega arith;
      copied = λ j h. absurd (omega (arith, h));
      kept = λ x h. refl;
    }
parse_args_lem (suc n) (suc left) m command loc i size rest apart =
    let go : stops (m (command + i)) ≡ false =
      ap (λ a. stops (m a)) (omega arith) ∙ rest.goes 0 (omega arith) in
    let next : command + (i + 1) ≡ command + i + 1 = omega arith in
    let c = m (command + i) in
    if_split (λ p. Args m p loc (command + i) size (suc n)) (stops c) (λ bad. absurd (cc (bad, go)))
      (λ good.
        Args-step n left m loc (command + i) (command + (i + 1)) size _ next
          (omega (arith, rest.fits)) apart
          (parse_args_lem n left (store m (loc.args + size) c) command loc (i + 1) (size + 1)
            (Rest-store m (loc.args + size) c (command + i) (command + (i + 1)) left n next apart
              rest)
            (omega (arith, apart))))
