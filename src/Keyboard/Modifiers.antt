-- ===== src/Keyboard/Modifiers.antt =====
-- `translate`: the modifier flags, and the reads of the table.
use judd_os.Prelude.{
  ltb→lt, ltb_false→le, sym, ap, ◌∙◌, Bool-cases, ℕ, inl, inr, ◌+◌, ◌-◌, ◌<◌, ◌≤◌, ◌≡◌, ◌⊎◌, refl,
  arith, ltb, true, false,
}
use judd_os.Terminal.{Flags}
use judd_os.Keyboard.{scantable_small, ignored, lookup, modifier}

-- Nothing held down and caps lock off.
pub record Idle (f : Flags) : Type 0 where
  pub ctrl : f.ctrl_flag ≡ 0
  pub alt : f.alt_flag ≡ 0
  pub shift : f.shift_flag ≡ 0
  pub caps : f.caps_flag ≡ 0

lookup-Idle :
    (b : ℕ → ℕ) (scan : ℕ) (f : Flags) → Idle f → lookup b scan f ≡ scantable_small b 4 scan
unfolding lookup
lookup-Idle b scan f idle = rw (idle.shift) (rw (idle.caps) (rw (idle.alt) (rw (idle.ctrl) refl)))

-- The codes from 69 on that `translate` does not ignore.
abbrev Behind : ℕ → Type 0
Behind scan = (scan ≡ 84) ⊎ ((scan ≡ 85) ⊎ ((scan ≡ 86) ⊎ ((scan ≡ 89) ⊎ (109 ≤ scan))))

ignored-Behind : (scan : ℕ) (f : Flags) → 69 ≤ scan → ignored scan f ≡ false → Behind scan
unfolding ignored
ignored-Behind scan f high reached = ground arith

row_inside :
    (b c : ℕ → ℕ) (scan : ℕ) → scan < 69 → scantable_small b 4 scan ≡ scantable_small c 4 scan
unfolding scantable_small
row_inside b c scan h = let within : ltb (276 + scan) 345 ≡ true = ground arith in rw within refl

row_behind : (b : ℕ → ℕ) (scan : ℕ) → 69 ≤ scan → scantable_small b 4 scan ≡ b (scan - 69)
unfolding scantable_small
row_behind b scan h =
    let past : ltb (276 + scan) 345 ≡ false = ground arith in rw past (ap b (omega (arith, h)))

-- With no modifier on, `translate` reads behind the table, whatever is stored there, for the codes 84, 85, 86, 89
-- and 109 to 119, and for no other code that gets as far as the table.
pub translate_overruns :
    (beyond : ℕ → ℕ) (scan : ℕ) (f : Flags)
    → Idle f
    → scan < 120
    → ignored scan f ≡ false
    → ((69 ≤ scan) × Behind scan × (lookup beyond scan f ≡ beyond (scan - 69)))
      ⊎ ((scan < 69) × ((other : ℕ → ℕ) → lookup beyond scan f ≡ lookup other scan f))
translate_overruns beyond scan f idle small reached = elim (Bool-cases (ltb scan 69)) [
  | inl inside ↦ inr (
    ltb→lt scan 69 inside,
    λ other.
        lookup-Idle beyond scan f idle
        ∙ row_inside beyond other scan (ltb→lt scan 69 inside)
        ∙ sym (lookup-Idle other scan f idle),
  )
  | inr outside ↦
      (let high = ltb_false→le scan 69 outside in
        inl (
          high,
          ignored-Behind scan f high reached,
          lookup-Idle beyond scan f idle ∙ row_behind beyond scan high,
        ))
]

-- The four modifier flags are 0 or 1.
pub record AreBits (f : Flags) : Type 0 where
  pub ctrl : f.ctrl_flag < 2
  pub alt : f.alt_flag < 2
  pub shift : f.shift_flag < 2
  pub caps : f.caps_flag < 2

-- Whatever key is pressed or released, the four modifier flags stay 0 or 1.
pub modifier-AreBits : (scan : ℕ) (f : Flags) → AreBits f → AreBits (modifier scan f)
unfolding modifier
modifier-AreBits scan f v = record {
  ctrl = ground (arith, v.ctrl);
  alt = ground (arith, v.alt);
  shift = ground (arith, v.shift);
  caps = ground (arith, v.caps);
}
