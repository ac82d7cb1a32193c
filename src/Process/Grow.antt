-- ===== src/Process/Grow.antt =====
-- A new process on a terminal keeps the control blocks consistent.
use judd_os.Prelude.{ℕ, ◌<◌, ◌≡◌, ◌≢◌, ◌∙◌, sym, ap, inl, inr}
use judd_os.Paging.{put}
use judd_os.Process.{Pcb, Slot, pcb_at, stack_top}
use judd_os.Process.Stack.{pcb_at_injective, pcb_at_nonzero}
use judd_os.Process.Consistent.{IsUsed, IsConsistent, put_self, put_ne, eq_or_ne}

module _ (bits : ℕ → ℕ) (pcbs : ℕ → Pcb) (terminals : ℕ → Slot)
    (c : IsConsistent bits pcbs terminals) (tn pid : ℕ) (pcb : Pcb) (slot : Slot) (tn_low : tn < 3)
    (small : pid < 6) (free : bits pid ≢ 1) (named : pcb.pid ≡ pid) (active : slot.active ≢ 0)
    (recent : slot.most_recent_pcb ≡ pcb_at pid)
    (adopted : pcb.parent ≢ 0
      → (q : ℕ) × IsUsed bits q
        × (pcb.parent ≡ pcb_at q)
        × (pcb.esp0 ≡ stack_top q)
        × ((terminals tn).active ≢ 0)
        × ((terminals tn).most_recent_pcb ≡ pcb_at q)) where
  abbrev bits' : ℕ → ℕ
  bits' = put pid 1 bits

  abbrev pcbs' : ℕ → Pcb
  pcbs' = put (pcb_at pid) pcb pcbs

  abbrev terminals' : ℕ → Slot
  terminals' = put tn slot terminals

  used_old : (p : ℕ) → p ≢ pid → IsUsed bits' p → IsUsed bits p
  used_old p ne (low, u) = (low, sym (put_ne pid p 1 bits ne) ∙ u)

  used_new : (p : ℕ) → IsUsed bits p → IsUsed bits' p
  used_new p (low, u) = (low, put_ne pid p 1 bits (λ e. free (sym (ap bits e) ∙ u)) ∙ u)

  old_ne : (p : ℕ) → IsUsed bits p → p ≢ pid
  old_ne p (low, u) e = free (sym (ap bits e) ∙ u)

  block_new : (p : ℕ) → p ≡ pid → pcbs' (pcb_at p) ≡ pcb
  block_new p e = ap (λ i. pcbs' (pcb_at i)) e ∙ put_self (pcb_at pid) pcb pcbs

  block_old : (p : ℕ) → p < 6 → p ≢ pid → pcbs' (pcb_at p) ≡ pcbs (pcb_at p)
  block_old p low ne =
      put_ne (pcb_at pid) (pcb_at p) pcb pcbs (λ e. ne (pcb_at_injective p pid low small e))

  slot_new : (t : ℕ) → t ≡ tn → terminals' t ≡ slot
  slot_new t e = ap terminals' e ∙ put_self tn slot terminals

  slot_old : (t : ℕ) → t ≢ tn → terminals' t ≡ terminals t
  slot_old t ne = put_ne tn t slot terminals ne

  grow-named : (p : ℕ) → IsUsed bits' p → (pcbs' (pcb_at p)).pid ≡ p
  grow-named p u = elim (eq_or_ne p pid) [
    | inl e ↦ ap (λ b. b.pid) (block_new p e) ∙ named ∙ sym e
    | inr ne ↦ ap (λ b. b.pid) (block_old p u.0 ne) ∙ c.named p (used_old p ne u)
  ]

  -- The parent of a used process is used and not the new one.
  grow-parents :
      (p : ℕ)
      → IsUsed bits' p
      → (pcbs' (pcb_at p)).parent ≢ 0
      → (q : ℕ) × IsUsed bits q
        × ((pcbs' (pcb_at p)).parent ≡ pcb_at q)
        × ((pcbs' (pcb_at p)).esp0 ≡ stack_top q)
  grow-parents p u has = elim (eq_or_ne p pid) [
    | inl e ↦
        let b = block_new p e in
        let (q, uq, at, top, on, shows) = adopted (λ z. has (ap (λ b. b.parent) b ∙ z)) in
        (q, uq, ap (λ b. b.parent) b ∙ at, ap (λ b. b.esp0) b ∙ top)
    | inr ne ↦
        let b = block_old p u.0 ne in
        let (q, uq, at, top) =
          c.parents p (used_old p ne u) (λ z. has (ap (λ b. b.parent) b ∙ z)) in
        (q, uq, ap (λ b. b.parent) b ∙ at, ap (λ b. b.esp0) b ∙ top)
  ]

  -- Nobody else has the parent of the new process.
  fresh_parent : (q : ℕ) → IsUsed bits q → pcb.parent ≢ 0 → pcb.parent ≢ (pcbs (pcb_at q)).parent
  fresh_parent q uq has e =
      let (r, ur, at, top, on, shows) = adopted has in
      c.leaf tn q tn_low on uq (sym e ∙ at ∙ sym shows)

  grow-apart :
      (p q : ℕ)
      → IsUsed bits' p
      → IsUsed bits' q
      → (pcbs' (pcb_at p)).parent ≢ 0
      → (pcbs' (pcb_at p)).parent ≡ (pcbs' (pcb_at q)).parent
      → p ≡ q
  grow-apart p q up uq has same = elim (eq_or_ne p pid) [
    | inl e ↦ (elim (eq_or_ne q pid) [
      | inl f ↦ e ∙ sym f
      | inr nf ↦
          let bp = ap (λ b. b.parent) (block_new p e) in
          let bq = ap (λ b. b.parent) (block_old q uq.0 nf) in
          absurd (fresh_parent q (used_old q nf uq) (λ z. has (bp ∙ z)) (sym bp ∙ same ∙ bq))
    ])
    | inr ne ↦ (elim (eq_or_ne q pid) [
      | inl f ↦
          let bp = ap (λ b. b.parent) (block_old p up.0 ne) in
          let bq = ap (λ b. b.parent) (block_new q f) in
          absurd
            (fresh_parent p (used_old p ne up) (λ z. has (same ∙ bq ∙ z)) (sym bq ∙ sym same ∙ bp))
      | inr nf ↦
          let bp = ap (λ b. b.parent) (block_old p up.0 ne) in
          let bq = ap (λ b. b.parent) (block_old q uq.0 nf) in
          c.apart p q (used_old p ne up) (used_old q nf uq) (λ z. has (bp ∙ z)) (sym bp ∙ same ∙ bq)
    ])
  ]

  grow-shown :
      (t : ℕ)
      → t < 3
      → (terminals' t).active ≢ 0
      → (p : ℕ) × IsUsed bits' p × ((terminals' t).most_recent_pcb ≡ pcb_at p)
  grow-shown t low on = elim (eq_or_ne t tn) [
    | inl e ↦
        (pid, (small, put_self pid 1 bits), ap (λ s. s.most_recent_pcb) (slot_new t e) ∙ recent)
    | inr ne ↦
        let s = slot_old t ne in
        let (p, u, at) = c.shown t low (λ z. on (ap (λ s. s.active) s ∙ z)) in
        (p, used_new p u, ap (λ s. s.most_recent_pcb) s ∙ at)
  ]

  -- The parent of a used process is never the new block.
  not_new : (q : ℕ) → IsUsed bits' q → (pcbs' (pcb_at q)).parent ≢ pcb_at pid
  not_new q u e =
      let (r, ur, at, top) = grow-parents q u (λ z. pcb_at_nonzero pid small (sym e ∙ z)) in
      old_ne r ur (pcb_at_injective r pid ur.0 small (sym at ∙ e))

  grow-leaf :
      (t q : ℕ)
      → t < 3
      → (terminals' t).active ≢ 0
      → IsUsed bits' q
      → (pcbs' (pcb_at q)).parent ≢ (terminals' t).most_recent_pcb
  grow-leaf t q low on u same = elim (eq_or_ne t tn) [
    | inl e ↦ not_new q u (same ∙ ap (λ s. s.most_recent_pcb) (slot_new t e) ∙ recent)
    | inr ne ↦
        let s = slot_old t ne in
        let on' : (terminals t).active ≢ 0 = (λ z. on (ap (λ s. s.active) s ∙ z)) in
        let shows = ap (λ s. s.most_recent_pcb) s in
        (elim (eq_or_ne q pid) [
          | inl e ↦
              let b = ap (λ b. b.parent) (block_new q e) in
              let (p, up, at) = c.shown t low on' in
              let (r, ur, from, top, active_tn, shown_tn) =
                adopted (λ z. pcb_at_nonzero p up.0 (sym at ∙ sym shows ∙ sym same ∙ b ∙ z)) in
              ne (
                c.distinct t tn low tn_low on' active_tn
                  (sym shows ∙ sym same ∙ b ∙ from ∙ sym shown_tn))
          | inr nq ↦
              let b = ap (λ b. b.parent) (block_old q u.0 nq) in
              c.leaf t q low on' (used_old q nq u) (sym b ∙ same ∙ shows)
        ])
  ]

  -- Another terminal does not show the new block.
  shows_old :
      (t : ℕ)
      → t < 3
      → t ≢ tn
      → (terminals' t).active ≢ 0
      → (terminals' t).most_recent_pcb ≢ pcb_at pid
  shows_old t low ne on e =
      let s = slot_old t ne in
      let (p, u, at) = c.shown t low (λ z. on (ap (λ s. s.active) s ∙ z)) in
      old_ne p u
        (pcb_at_injective p pid u.0 small (sym at ∙ sym (ap (λ s. s.most_recent_pcb) s) ∙ e))

  grow-distinct :
      (t u : ℕ)
      → t < 3
      → u < 3
      → (terminals' t).active ≢ 0
      → (terminals' u).active ≢ 0
      → (terminals' t).most_recent_pcb ≡ (terminals' u).most_recent_pcb
      → t ≡ u
  grow-distinct t u tl ul ont onu same = elim (eq_or_ne t tn) [
    | inl e ↦ (elim (eq_or_ne u tn) [
      | inl f ↦ e ∙ sym f
      | inr nf ↦
          absurd
            (shows_old u ul nf onu (sym same ∙ ap (λ s. s.most_recent_pcb) (slot_new t e) ∙ recent))
    ])
    | inr ne ↦ (elim (eq_or_ne u tn) [
      | inl f ↦
          absurd
            (shows_old t tl ne ont (same ∙ ap (λ s. s.most_recent_pcb) (slot_new u f) ∙ recent))
      | inr nf ↦
          let s = slot_old t ne in
          let r = slot_old u nf in
          c.distinct t u tl ul (λ z. ont (ap (λ s. s.active) s ∙ z))
            (λ z. onu (ap (λ s. s.active) r ∙ z))
            (sym (ap (λ s. s.most_recent_pcb) s) ∙ same ∙ ap (λ s. s.most_recent_pcb) r)
    ])
  ]

  pub grow-IsConsistent : IsConsistent bits' pcbs' terminals'
  grow-IsConsistent = record {
    named = grow-named;
    parents =
        λ p u has. (let (q, uq, at, top) = grow-parents p u has in (q, used_new q uq, at, top));
    apart = grow-apart;
    shown = grow-shown;
    leaf = grow-leaf;
    distinct = grow-distinct;
  }
