-- ===== src/Process/Shrink.antt =====
-- The end of a process that has a parent keeps the control blocks consistent.
use judd_os.Prelude.{ℕ, ◌<◌, ◌≡◌, ◌≢◌, ◌∙◌, sym, ap, arith, inl, inr}
use judd_os.Paging.{put}
use judd_os.Process.{Pcb, Slot, pcb_at, stack_top}
use judd_os.Process.Stack.{pcb_at_injective, pcb_at_nonzero}
use judd_os.Process.Consistent.{IsUsed, IsConsistent, put_self, put_ne, eq_or_ne}

module _ (bits : ℕ → ℕ) (pcbs : ℕ → Pcb) (terminals : ℕ → Slot)
    (c : IsConsistent bits pcbs terminals) (tn pid q : ℕ) (pcb : Pcb) (slot : Slot)
    (tn_low : tn < 3) (used : IsUsed bits pid) (on : (terminals tn).active ≢ 0)
    (shows : (terminals tn).most_recent_pcb ≡ pcb_at pid) (used_parent : IsUsed bits q)
    (parent : (pcbs (pcb_at pid)).parent ≡ pcb_at q)
    (recent : slot.most_recent_pcb ≡ pcb_at q) where
  abbrev bits' : ℕ → ℕ
  bits' = put pid 0 bits

  abbrev pcbs' : ℕ → Pcb
  pcbs' = put (pcb_at pid) pcb pcbs

  abbrev terminals' : ℕ → Slot
  terminals' = put tn slot terminals

  left_ne : (p : ℕ) → IsUsed bits' p → p ≢ pid
  left_ne p (low, u) e =
      let zero : 0 ≡ 1 = sym (ap bits' e ∙ put_self pid 0 bits) ∙ u in omega (arith, zero)

  left_used : (p : ℕ) → IsUsed bits' p → IsUsed bits p
  left_used p u = (u.0, sym (put_ne pid p 0 bits (left_ne p u)) ∙ u.1)

  stays_used : (p : ℕ) → p ≢ pid → IsUsed bits p → IsUsed bits' p
  stays_used p ne u = (u.0, put_ne pid p 0 bits ne ∙ u.1)

  block : (p : ℕ) → IsUsed bits' p → pcbs' (pcb_at p) ≡ pcbs (pcb_at p)
  block p u =
      put_ne (pcb_at pid) (pcb_at p) pcb pcbs
        (λ e. left_ne p u (pcb_at_injective p pid u.0 used.0 e))

  has_parent : (pcbs (pcb_at pid)).parent ≢ 0
  has_parent z = pcb_at_nonzero q used_parent.0 (sym parent ∙ z)

  parent_stays : IsUsed bits' q
  parent_stays =
      stays_used q (λ e. c.leaf tn pid tn_low on used (parent ∙ ap pcb_at e ∙ sym shows))
        used_parent

  slot_new : (t : ℕ) → t ≡ tn → (terminals' t).most_recent_pcb ≡ pcb_at q
  slot_new t e =
      ap (λ i. (terminals' i).most_recent_pcb) e
      ∙ ap (λ s. s.most_recent_pcb) (put_self tn slot terminals)
      ∙ recent

  slot_old : (t : ℕ) → t ≢ tn → terminals' t ≡ terminals t
  slot_old t ne = put_ne tn t slot terminals ne

  old_on : (t : ℕ) → t ≢ tn → (terminals' t).active ≢ 0 → (terminals t).active ≢ 0
  old_on t ne on' z = on' (ap (λ s. s.active) (slot_old t ne) ∙ z)

  old_recent : (t : ℕ) → t ≢ tn → (terminals' t).most_recent_pcb ≡ (terminals t).most_recent_pcb
  old_recent t ne = ap (λ s. s.most_recent_pcb) (slot_old t ne)

  shrink-parents :
      (p : ℕ)
      → IsUsed bits' p
      → (pcbs' (pcb_at p)).parent ≢ 0
      → (r : ℕ) × IsUsed bits' r
        × ((pcbs' (pcb_at p)).parent ≡ pcb_at r)
        × ((pcbs' (pcb_at p)).esp0 ≡ stack_top r)
  shrink-parents p u has =
      let b = block p u in
      let (r, ur, at, top) = c.parents p (left_used p u) (λ z. has (ap (λ b. b.parent) b ∙ z)) in
      (
        r,
        stays_used r (λ e. c.leaf tn p tn_low on (left_used p u) (at ∙ ap pcb_at e ∙ sym shows)) ur,
        ap (λ b. b.parent) b ∙ at,
        ap (λ b. b.esp0) b ∙ top,
      )

  shrink-shown :
      (t : ℕ)
      → t < 3
      → (terminals' t).active ≢ 0
      → (p : ℕ) × IsUsed bits' p × ((terminals' t).most_recent_pcb ≡ pcb_at p)
  shrink-shown t low on' = elim (eq_or_ne t tn) [
    | inl e ↦ (q, parent_stays, slot_new t e)
    | inr ne ↦
        let (p, u, at) = c.shown t low (old_on t ne on') in
        let other : p ≢ pid = (λ e.
          ne (c.distinct t tn low tn_low (old_on t ne on') on (at ∙ ap pcb_at e ∙ sym shows))) in
        (p, stays_used p other u, old_recent t ne ∙ at)
  ]

  shrink-leaf :
      (t p : ℕ)
      → t < 3
      → (terminals' t).active ≢ 0
      → IsUsed bits' p
      → (pcbs' (pcb_at p)).parent ≢ (terminals' t).most_recent_pcb
  shrink-leaf t p low on' u same =
      let b = ap (λ b. b.parent) (block p u) in
      elim (eq_or_ne t tn) [
        | inl e ↦ left_ne p u (
            sym (
              c.apart pid p used (left_used p u) has_parent
                (parent ∙ sym (slot_new t e) ∙ sym same ∙ b)))
        | inr ne ↦ c.leaf t p low (old_on t ne on') (left_used p u) (sym b ∙ same ∙ old_recent t ne)
      ]

  -- Another terminal does not show the parent.
  shows_old :
      (t : ℕ)
      → t < 3
      → t ≢ tn
      → (terminals' t).active ≢ 0
      → (terminals' t).most_recent_pcb ≢ pcb_at q
  shows_old t low ne on' e =
      c.leaf t pid low (old_on t ne on') used (parent ∙ sym e ∙ old_recent t ne)

  shrink-distinct :
      (t u : ℕ)
      → t < 3
      → u < 3
      → (terminals' t).active ≢ 0
      → (terminals' u).active ≢ 0
      → (terminals' t).most_recent_pcb ≡ (terminals' u).most_recent_pcb
      → t ≡ u
  shrink-distinct t u tl ul ont onu same = elim (eq_or_ne t tn) [
    | inl e ↦ (elim (eq_or_ne u tn) [
      | inl f ↦ e ∙ sym f
      | inr nf ↦ absurd (shows_old u ul nf onu (sym same ∙ slot_new t e))
    ])
    | inr ne ↦ (elim (eq_or_ne u tn) [
      | inl f ↦ absurd (shows_old t tl ne ont (same ∙ slot_new u f))
      | inr nf ↦
          c.distinct t u tl ul (old_on t ne ont) (old_on u nf onu)
            (sym (old_recent t ne) ∙ same ∙ old_recent u nf)
    ])
  ]

  pub shrink-IsConsistent : IsConsistent bits' pcbs' terminals'
  shrink-IsConsistent = record {
    named = λ p u. ap (λ b. b.pid) (block p u) ∙ c.named p (left_used p u);
    parents = shrink-parents;
    apart = λ p r up ur has same.
        (let bp = ap (λ b. b.parent) (block p up) in
          let br = ap (λ b. b.parent) (block r ur) in
          c.apart p r (left_used p up) (left_used r ur) (λ z. has (bp ∙ z)) (sym bp ∙ same ∙ br));
    shown = shrink-shown;
    leaf = shrink-leaf;
    distinct = shrink-distinct;
  }
