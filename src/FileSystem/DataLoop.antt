-- ===== src/FileSystem/DataLoop.antt =====
-- The loop of `read_data`.
use judd_os.Block.Copy.{memcpy_lem}
use judd_os.FileSystem.{read_loop, some, suc, true}
use judd_os.Block.Reference.{copied, copied_out, Disjoint}
use mathlib.Core.Path.{subst}
use judd_os.Prelude.{
  ℕ, zero, suc, ◌+◌, ◌-◌, ◌*◌, ◌/◌, ◌%◌, ◌≤◌, ◌<◌, ◌⊎◌, ◌&&◌, if◌then◌else◌, ltb, leb, arith, ◌≡◌,
  fun_ext, Bool-cases, ◌∙◌, ap, inl, inr, sym, some, min, ◌==◌, true, refl,
}
use judd_os.Prelude.Word.{u32}
use judd_os.Prelude.Memory.{Memory, load32}

-- The address of byte `i` of what the loop copies: the first 4096 bytes from `ptr` on, and then
-- 4096 bytes from the block that each next number names.
abbrev pub source : Memory → ℕ → ℕ → ℕ → ℕ → ℕ
source m base ptr num_ptr i =
    if ltb i 4096
    then ptr + i
    else base + u32 (load32 m (num_ptr + 4 * (i / 4096)) * 4096) + i % 4096

-- The memory when the `left` bytes from `at` on are copied.
abbrev pub gathered : Memory → ℕ → ℕ → ℕ → ℕ → ℕ → Memory
gathered m base ptr num_ptr at left x =
    if leb at x && ltb x (at + left) then m (source m base ptr num_ptr (x - at)) else m x

gathered_in :
    (m : Memory) (base ptr num_ptr at left x : ℕ)
    → at ≤ x
    → x < at + left
    → gathered m base ptr num_ptr at left x ≡ m (source m base ptr num_ptr (x - at))
gathered_in m base ptr num_ptr at left x p q = ground arith

-- The region of the image, which is apart from the buffer of `size` bytes at `buf`.
module _ (lo hi buf size base : ℕ) (apart : (hi ≤ buf) ⊎ (buf + size ≤ lo)) where
  abbrev pub Inside : ℕ → ℕ → Type 0
  Inside a n = (lo ≤ a) × (a + n ≤ hi)

  -- What the loop reads with `left` bytes to go.
  pub record Reads (m : Memory) (ptr num_ptr left : ℕ) : Type 0 where
    pub first : Inside ptr 4096
    pub numbers : (k : ℕ) → 4096 * k ≤ left → Inside (num_ptr + 4 * k) 4
    pub blocks :
        (k : ℕ)
        → 0 < k
        → 4096 * k < left
        → Inside (base + u32 (load32 m (num_ptr + 4 * k) * 4096)) 4096

  load32-copied :
      (m : Memory) (at n ptr a : ℕ)
      → buf ≤ at
      → at + n ≤ buf + size
      → Inside a 4
      → load32 (copied m at ptr n) a ≡ load32 m a
  unfolding load32
  load32-copied m at n ptr a p q h = ground (arith, apart)

  -- The block number of a later chunk is read from memory that the copy has not touched.
  number-copied :
      (m : Memory) (ptr num_ptr at left k : ℕ)
      → buf ≤ at
      → at + 4096 ≤ buf + size
      → Reads m ptr num_ptr left
      → 4096 * (k + 1) ≤ left
      → load32 (copied m at ptr 4096) (num_ptr + 4 + 4 * k) ≡ load32 m (num_ptr + 4 * (k + 1))
  number-copied m ptr num_ptr at left k p q r h =
      load32-copied m at 4096 ptr (num_ptr + 4 + 4 * k) p q (omega (arith, r.numbers (k + 1) h))
      ∙ ap (load32 m) (omega arith)

  Reads-step :
      (m : Memory) (ptr num_ptr at left : ℕ)
      → buf ≤ at
      → at + 4096 ≤ buf + size
      → Reads m ptr num_ptr left
      → 4096 < left
      → Reads
          (copied m at ptr 4096)
          (base + u32 (load32 m (num_ptr + 4) * 4096))
          (num_ptr + 4)
          (left - 4096)
  Reads-step m ptr num_ptr at left p q r more = record {
    first = r.blocks 1 (omega arith) (omega arith);
    numbers = λ k h. omega (arith, r.numbers (k + 1) (omega arith));
    blocks = λ k h1 h2.
        subst (λ t. Inside (base + u32 (t * 4096)) 4096)
          (sym (number-copied m ptr num_ptr at left k p q r (omega arith)))
          (r.blocks (k + 1) (omega arith) (omega arith));
  }

  source-Inside :
      (m : Memory) (ptr num_ptr left i : ℕ)
      → Reads m ptr num_ptr left
      → 4096 ≤ i
      → i < left
      → Inside (source m base ptr num_ptr i) 1
  source-Inside m ptr num_ptr left i r h1 h2 = ground (arith, r.blocks (i / 4096))

  source-step :
      (m : Memory) (ptr num_ptr at left i : ℕ)
      → buf ≤ at
      → at + 4096 ≤ buf + size
      → Reads m ptr num_ptr left
      → i + 4096 < left
      → source
          (copied m at ptr 4096)
          base
          (base + u32 (load32 m (num_ptr + 4) * 4096))
          (num_ptr + 4)
          i
        ≡ source m base ptr num_ptr (i + 4096)
  source-step m ptr num_ptr at left i p q r h = elim (Bool-cases (ltb i 4096)) [
    | inl first ↦
        (let one : num_ptr + 4 * ((i + 4096) / 4096) ≡ num_ptr + 4 = ground arith in
          ground (arith, ap (load32 m) one))
    | inr later ↦
        (let next : num_ptr + 4 * (i / 4096 + 1) ≡ num_ptr + 4 * ((i + 4096) / 4096) =
            omega arith in
          ground (
            arith,
            number-copied m ptr num_ptr at left (i / 4096) p q r (omega arith),
            ap (load32 m) next,
          ))
  ]

  gathered-chunk :
      (m : Memory) (ptr num_ptr at left x : ℕ)
      → buf ≤ at
      → at + left ≤ buf + size
      → Reads m ptr num_ptr left
      → at + 4096 ≤ x
      → x < at + left
      → gathered
          (copied m at ptr 4096)
          base
          (base + u32 (load32 m (num_ptr + 4) * 4096))
          (num_ptr + 4)
          (at + 4096)
          (left - 4096)
          x
        ≡ gathered m base ptr num_ptr at left x
  gathered-chunk m ptr num_ptr at left x p q r h1 h2 =
      let m' : Memory = copied m at ptr 4096 in
      let next : ℕ = base + u32 (load32 m (num_ptr + 4) * 4096) in
      let i : ℕ = x - (at + 4096) in
      let there : Inside (source m base ptr num_ptr (i + 4096)) 1 =
        source-Inside m ptr num_ptr left (i + 4096) r (omega arith) (omega arith) in
      gathered_in m' base next (num_ptr + 4) (at + 4096) (left - 4096) x h1 (omega arith)
      ∙ ap m' (source-step m ptr num_ptr at left i p (omega arith) r (omega arith))
      ∙ copied_out m at ptr 4096 (source m base ptr num_ptr (i + 4096))
          (omega (arith, apart, there))
      ∙ ap (λ k. m (source m base ptr num_ptr k)) (omega arith)
      ∙ sym (gathered_in m base ptr num_ptr at left x (omega arith) h2)

  gathered-step :
      (m : Memory) (ptr num_ptr at left : ℕ)
      → buf ≤ at
      → at + left ≤ buf + size
      → 4096 ≤ left
      → Reads m ptr num_ptr left
      → gathered
          (copied m at ptr 4096)
          base
          (base + u32 (load32 m (num_ptr + 4) * 4096))
          (num_ptr + 4)
          (at + 4096)
          (left - 4096)
        ≡ gathered m base ptr num_ptr at left
  gathered-step m ptr num_ptr at left p q le r = fun_ext λ x.
      elim (Bool-cases (leb (at + 4096) x && ltb x (at + left))) [
        | inl chunk ↦ gathered-chunk m ptr num_ptr at left x p q r (ground arith) (ground arith)
        | inr other ↦ ground arith
      ]

  gathered-last :
      (m : Memory) (ptr num_ptr at left : ℕ)
      → left ≤ 4096
      → copied m at ptr left ≡ gathered m base ptr num_ptr at left
  gathered-last m ptr num_ptr at left h = fun_ext λ x. ground arith

  read_loop_end :
      (fuel : ℕ) (m : Memory) (data_length c ptr num_ptr : ℕ)
      → 0 < fuel
      → c ≡ data_length
      → read_loop fuel m base buf data_length c ptr num_ptr ≡ some (data_length, m)
  unfolding read_loop
  read_loop_end zero m data_length c ptr num_ptr f e = absurd (omega arith)
  read_loop_end (suc fuel) m data_length c ptr num_ptr f e = ground arith

  -- One round, which copies `n` bytes.
  read_loop_round :
      (fuel : ℕ) (m : Memory) (data_length c ptr num_ptr n : ℕ)
      → c < data_length
      → n ≡ min 4096 (data_length - c)
      → Disjoint (buf + c) ptr n
      → read_loop (suc fuel) m base buf data_length c ptr num_ptr
        ≡ read_loop fuel
            (copied m (buf + c) ptr n)
            base
            buf
            data_length
            (c + n)
            (base + u32 (load32 (copied m (buf + c) ptr n) (num_ptr + 4) * 4096))
            (num_ptr + 4)
  unfolding read_loop
  read_loop_round fuel m data_length c ptr num_ptr n lt e dis =
      let more : ltb c data_length ≡ true = ground arith in
      let same : (if leb 4096 (data_length - c) then 4096 else data_length - c) ≡ n =
        ground arith in
      rw (more, same, memcpy_lem m (buf + c) ptr n dis) refl

  -- The loop copies all that is left, chunk by chunk.
  pub read_loop_lem :
      (fuel : ℕ) (m : Memory) (data_length c ptr num_ptr left : ℕ)
      → c + left ≡ data_length
      → data_length ≤ size
      → left + 4096 ≤ 4096 * fuel
      → Reads m ptr num_ptr left
      → read_loop fuel m base buf data_length c ptr num_ptr
        ≡ some (data_length, gathered m base ptr num_ptr (buf + c) left)
  read_loop_lem zero m data_length c ptr num_ptr left e s f r = absurd (omega arith)
  read_loop_lem (suc fuel) m data_length c ptr num_ptr left e s f r =
      elim (Bool-cases (left == 0)) [
        | inl done ↦
            read_loop_end (suc fuel) m data_length c ptr num_ptr (omega arith) (ground arith)
            ∙ ap (λ w. some (data_length, w)) (fun_ext λ x. ground arith)
        | inr more ↦ elim (Bool-cases (leb left 4096)) [
          | inl last ↦
              read_loop_round fuel m data_length c ptr num_ptr left (ground arith) (ground arith)
                (ground (arith, apart, r.first))
              ∙ read_loop_end fuel _ data_length (c + left) _ (num_ptr + 4) (ground arith) e
              ∙ ap (λ w. some (data_length, w))
                  (gathered-last m ptr num_ptr (buf + c) left (ground arith))
          | inr longer ↦
              (let big : 4096 < left = ground arith in
                let m' : Memory = copied m (buf + c) ptr 4096 in
                let next : ℕ = base + u32 (load32 m (num_ptr + 4) * 4096) in
                let r' : Reads m' next (num_ptr + 4) (left - 4096) =
                  Reads-step m ptr num_ptr (buf + c) left (omega arith) (omega arith) r big in
                let same : load32 m' (num_ptr + 4) ≡ load32 m (num_ptr + 4) =
                  load32-copied m (buf + c) 4096 ptr (num_ptr + 4) (omega arith) (omega arith)
                    (omega (arith, r.numbers 1 (omega arith))) in
                read_loop_round fuel m data_length c ptr num_ptr 4096 (omega arith) (omega arith)
                  (omega (arith, apart, r.first))
                ∙ ap
                    (λ t.
                      read_loop fuel m' base buf data_length (c + 4096) (base + u32 (t * 4096))
                        (num_ptr + 4))
                    same
                ∙ read_loop_lem fuel m' data_length (c + 4096) next (num_ptr + 4) (left - 4096)
                    (omega arith) s (omega arith) r'
                ∙ ap (λ a. some (data_length, gathered m' base next (num_ptr + 4) a (left - 4096)))
                    (omega arith)
                ∙ ap (λ w. some (data_length, w))
                    (gathered-step m ptr num_ptr (buf + c) left (omega arith) (omega arith)
                      (omega arith) r))
        ]
      ]
