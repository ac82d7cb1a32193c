-- ===== src/Rtc/Frequency.antt =====
-- The frequencies that `rtc_write` accepts, and the rate that it programs.
use judd_os.Prelude.Memory.{Memory, load32}
use judd_os.Prelude.Word.{PortWrite, u8, outb, fail}
use native.Mathlib.Nat.{pow-suc, add-zero, one-le-pow}
use judd_os.Prelude.{
  ℕ, zero, suc, ◌≡◌, ◌↔◌, arith, some, Option, ltb, Bool-cases, inl, inr, ◌^◌, ◌≤◌, ◌<◌, ◌*◌, ◌/◌,
  ◌+◌, if◌then◌else◌, not, ◌%◌, ◌==◌, Bool, every_below, bit_and, true, ◌-◌, ◌||◌, bit_or, ◌&&◌,
  table_sound, List, refl, ◌∙◌, ◌++◌, ◌≢◌, ◌∷◌, [], leb,
}
use judd_os.Rtc.Masks.{enable_rtc_port, disable_rtc_port}
use judd_os.Rtc.{log_loop, PortWrite, Rtc, rtc_write, write_rate, Memory, read_port, out}

record IsLog (freq rate rest : ℕ) (out : Option (ℕ × ℕ)) : Type 0 where
  k : ℕ
  rest' : ℕ
  low : 2 ^ k ≤ freq
  high : freq < 2 * 2 ^ k
  returns : out ≡ some (rate + k, rest')
  exact : (rest' ≡ 0) ↔ ((rest ≡ 0) × (freq ≡ 2 ^ k))

IsLog-one : (freq rate rest : ℕ) → freq ≡ 1 → IsLog freq rate rest (some (rate, rest))
IsLog-one freq rate rest e = record {
  k = 0;
  rest' = rest;
  low = omega arith;
  high = omega arith;
  returns = rw add-zero;
  exact = ground arith;
}

IsLog-half :
    (freq rate rest : ℕ) {out : Option (ℕ × ℕ)}
    → IsLog (freq / 2) (rate + 1) (if not (freq % 2 == 0) then 1 else rest) out
    → IsLog freq rate rest out
IsLog-half freq rate rest l = record {
  k = suc l.k;
  rest' = l.rest';
  low = omega (arith, l.low, pow-suc 2 l.k);
  high = omega (arith, l.high, pow-suc 2 l.k);
  returns = ground (arith, l.returns);
  exact = ground (arith, l.exact, l.low, l.high, pow-suc 2 l.k);
}

log_loop-IsLog :
    (fuel freq rate rest : ℕ)
    → 1 ≤ freq
    → freq < 2 ^ fuel
    → IsLog freq rate rest (log_loop fuel freq rate rest)
unfolding log_loop
log_loop-IsLog zero freq rate rest p h = absurd (omega arith)
log_loop-IsLog (suc fuel) freq rate rest p h = elim (Bool-cases (ltb 1 freq)) [
  | inl more ↦ rw more (
      IsLog-half freq rate rest (
        log_loop-IsLog fuel (freq / 2) (rate + 1) (if not (freq % 2 == 0) then 1 else rest)
          (ground arith) (ground (arith, pow-suc 2 fuel))))
  | inr done ↦ rw done (IsLog-one freq rate rest (ground arith))
]

two-pow-lt : (a b : ℕ) → a < b → 2 * 2 ^ a ≤ 2 ^ b
two-pow-lt a zero h = absurd (omega arith)
two-pow-lt a (suc b) h = elim (Bool-cases (ltb a b)) [
  | inl below ↦ ground (arith, pow-suc 2 b, two-pow-lt a b)
  | inr last ↦ ground (arith, pow-suc 2 b)
]

log_unique : (freq a b : ℕ) → 2 ^ a ≤ freq → freq < 2 * 2 ^ a → freq ≡ 2 ^ b → a ≡ b
log_unique freq a b low high e =
    ground (arith, two-pow-lt a b, two-pow-lt b a, one-le-pow a 2, one-le-pow b 2)

-- The byte that the loop's rate gives, on the rates that pass the check.
rate_row : ℕ → ℕ → ℕ → Bool
rate_row k j prev =
    not (ltb 0 k)
    || ((bit_and (15 + 1 - k) 0x0F == 16 - k)
        && (bit_or (bit_and prev 0xF0) (16 - k) == prev / 16 * 16 + (16 - k))
        && (32768 / 2 ^ (16 - k - 1) == 2 ^ k))

rate_table : every_below 11 (λ k. every_below 1 (λ j. every_below 256 (rate_row k j))) ≡ true
unfolding rate_row every_below
rate_table = refl

rate_facts :
    (k prev : ℕ)
    → 1 ≤ k
    → k ≤ 10
    → prev < 256
    → (bit_and (15 + 1 - k) 0x0F ≡ 16 - k)
      × (bit_or (bit_and prev 0xF0) (16 - k) ≡ prev / 16 * 16 + (16 - k))
      × (32768 / 2 ^ (16 - k - 1) ≡ 2 ^ k)
unfolding rate_row
rate_facts k prev p q h =
    let row = table_sound 11 1 256 rate_row rate_table k 0 prev (omega arith) (omega arith) h in
    ground arith

log_loop_power :
    (fuel freq k : ℕ) → freq ≡ 2 ^ k → freq < 2 ^ fuel → log_loop fuel freq 0 0 ≡ some (k, 0)
log_loop_power fuel freq k e h =
    let l = log_loop-IsLog fuel freq 0 0 (omega (arith, one-le-pow k 2)) h in
    let same : l.k ≡ k = log_unique freq l.k k l.low l.high e in
    let none_left : l.rest' ≡ 0 = l.exact.1 (refl, rw same e) in l.returns ∙ (ground arith)

-- What `rtc_write` leaves in the state when it programs 2 to the `k` Hz.
pub record IsProgrammed (inb : List PortWrite → ℕ → ℕ) (freq : ℕ) (r r' : Rtc) : Type 0 where
  pub prev : ℕ
  pub rate : ℕ
  pub read : prev ≡ u8 (inb (r.pic.writes ++ (outb 0x8A 0x70 ∷ [])) 0x71)
  pub rate_in : (6 ≤ rate) × (rate ≤ 15)
  pub divides : 32768 / 2 ^ (rate - 1) ≡ freq
  pub state : r' ≡ record r {
    pic = record r.pic {
      writes =
          ((r.pic.writes ++ (outb 0x8A 0x70 ∷ [])) ++ (outb 0x8A 0x70 ∷ []))
          ++ (record { port = 0x71; value = prev / 16 * 16 + rate } ∷ []);
    };
  }

module _ (inb : List PortWrite → ℕ → ℕ) where
  write_rate-IsProgrammed :
      (k : ℕ) (r : Rtc) → 1 ≤ k → k ≤ 10 → IsProgrammed inb (2 ^ k) r (write_rate inb (16 - k) r)
  unfolding write_rate
  write_rate-IsProgrammed k r p q =
      let before = read_port inb 0x71 (out 0x8A 0x70 r.pic) in
      let facts = rate_facts k before p q (omega arith) in
      record {
        prev = before;
        rate = 16 - k;
        read = refl;
        rate_in = omega arith;
        divides = facts.2;
        state = simp (enable_rtc_port, disable_rtc_port, facts.1) (ground (arith, facts.1));
      }

  -- A power of two from 2 to 1024 Hz in a buffer of four bytes is accepted: `rtc_write` returns 0 and
  -- programs a rate that divides 32768 Hz to this frequency, keeping the upper bits of register A.
  pub rtc_write_accepts :
      (fuel k : ℕ) (m : Memory) (buf nbytes : ℕ) (r : Rtc)
      → 1 ≤ k
      → k ≤ 10
      → load32 m buf ≡ 2 ^ k
      → nbytes ≡ 4
      → load32 m buf < 2 ^ fuel
      → (r' : Rtc) × (rtc_write inb fuel m buf nbytes r ≡ some (0, r'))
        × IsProgrammed inb (load32 m buf) r r'
  unfolding rtc_write
  rtc_write_accepts fuel k m buf nbytes r p q e n h = (
    write_rate inb (16 - k) r,
    ground (
      arith,
      log_loop_power fuel (load32 m buf) k,
      two-pow-lt k 11,
      two-pow-lt 0 k,
      (rate_facts k 0 p q (omega arith)).0,
    ),
    rw e (write_rate-IsProgrammed k r p q),
  )

  -- Anything else is refused and leaves the state alone, however large the number.
  pub rtc_write_rejects :
      (fuel : ℕ) (m : Memory) (buf nbytes : ℕ) (r : Rtc)
      → load32 m buf < 2 ^ fuel
      → ((k : ℕ) → 1 ≤ k → k ≤ 10 → load32 m buf ≡ 2 ^ k → nbytes ≢ 4)
      → rtc_write inb fuel m buf nbytes r ≡ some (fail, r)
  unfolding rtc_write
  rtc_write_rejects fuel m buf nbytes r h other = elim (Bool-cases (leb (load32 m buf) 1)) [
    | inl low ↦ ground arith
    | inr more ↦
        (let l = log_loop-IsLog fuel (load32 m buf) 0 0 (ground arith) h in
          ground (arith, l.returns, l.exact, other l.k))
  ]
