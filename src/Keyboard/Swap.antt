-- ===== src/Keyboard/Swap.antt =====
-- `swap_terminal`: the displayed terminal changes, what each terminal shows does not.
use judd_os.Prelude.{
  fun_ext, ℕ, ◌+◌, ◌*◌, ◌/◌, ◌%◌, ◌^◌, ◌<◌, ◌≤◌, ◌≡◌, ◌≢◌, ◌∙◌, ◌⊎◌, inl, inr, sym, subst, refl,
  arith, ◌==◌, Bool-cases, ap,
}
use judd_os.Prelude.Memory.{Memory}
use judd_os.Block.{memcpy}
use judd_os.Block.Reference.{copied, Disjoint}
use judd_os.Block.Copy.{memcpy_lem}
use judd_os.Paging.{Tables, set_up_virtual_to_video, vid_buf_addr_base}
use judd_os.Paging.Video.{Framed, frame, terminal_page, set_up-Framed}
use judd_os.Terminal.{Terminal, Console, screen_of, video_mem}
use judd_os.Terminal.Screen.{if_both, update_cursor_still}
use judd_os.Keyboard.{swap_terminal}

-- The byte at `off` of the screen of terminal `i`, wherever its page leads.
abbrev pub screen_byte : Console → ℕ → ℕ → ℕ
screen_byte c i off = c.mem (screen_of c.tables (c.terminal_arr i) + off)

-- The pages are those of `terminal_init`, one of the terminals is displayed, and the cursors of the three are on the screen.
pub record Displays (video_table_at : ℕ) (c : Console) : Type 0 where
  pub display : c.terminal_num_display < 3
  pub framed : Framed video_table_at c.terminal_num_display c.tables
  pub pages : (i : ℕ) → (c.terminal_arr i).vidmem_addr ≡ terminal_page i
  pub columns : (i : ℕ) → i < 3 → (c.terminal_arr i).cursor_x < 80
  pub rows : (i : ℕ) → i < 3 → (c.terminal_arr i).cursor_y < 25

screen_of-frame :
    (video_table_at display i : ℕ) (t : Tables) (term : Terminal)
    → Framed video_table_at display t
    → term.vidmem_addr ≡ terminal_page i
    → i < 3
    → screen_of t term ≡ frame display i
unfolding screen_of
screen_of-frame video_table_at display i t term f e h =
    let page : term.vidmem_addr / 2 ^ 12 % 2 ^ 10 ≡ 256 + i = omega (arith, e, h) in
    let offset : term.vidmem_addr % 2 ^ 12 ≡ 0 = omega (arith, e, h) in
    let (present, opened, framed) = f.entry i h in rw page (rw offset (omega (arith, framed)))

-- The three copies: the screen at `a` is saved, the video memory at `v` goes to `b`, the saved one to `v`.
abbrev exchanged : Memory → ℕ → ℕ → ℕ → ℕ → Memory
exchanged m temp a b v = copied (copied (copied m temp a 4000) b v 4000) v temp 4000

exchanged_lem :
    (m : Memory) (temp a b v o off : ℕ)
    → Disjoint temp a 4000
    → Disjoint temp b 4000
    → Disjoint temp v 4000
    → Disjoint b v 4000
    → off < 4000
    → (exchanged m temp a b v (v + off) ≡ m (a + off))
      × (exchanged m temp a b v (b + off) ≡ m (v + off))
      × (Disjoint temp o 4000
          → Disjoint b o 4000
          → Disjoint v o 4000
          → exchanged m temp a b v (o + off) ≡ m (o + off))
exchanged_lem m temp a b v o off ta tb tv bv h =
    (ground arith, ground arith, λ to bo vo. ground arith)

three_copies :
    (m : Memory) (temp a b v s t u : ℕ)
    → s ≡ a
    → t ≡ b
    → u ≡ v
    → Disjoint temp a 4000
    → Disjoint b v 4000
    → Disjoint v temp 4000
    → memcpy (memcpy (memcpy m temp s 4000) t v 4000) u temp 4000 ≡ exchanged m temp a b v
three_copies m temp a b v s t u sa tb uv ta bv vt =
    subst
      (λ u. memcpy (memcpy (memcpy m temp s 4000) t v 4000) u temp 4000 ≡ exchanged m temp a b v)
      (sym uv)
      (memcpy_lem (memcpy (memcpy m temp s 4000) t v 4000) v temp 4000 vt
        ∙ ap (λ w. copied w v temp 4000)
            (ap (λ t. memcpy (memcpy m temp s 4000) t v 4000) tb
              ∙ memcpy_lem (memcpy m temp s 4000) b v 4000 bv
              ∙ ap (λ w. copied w b v 4000)
                  (ap (λ s. memcpy m temp s 4000) sa ∙ memcpy_lem m temp a 4000 ta)))

-- `temp` lies off the three screens.
abbrev pub Away : ℕ → Type 0
Away temp =
    (temp + 4000 ≤ video_mem)
    ⊎ (((video_mem + 0x1000 ≤ temp) × (temp + 4000 ≤ vid_buf_addr_base))
        ⊎ (vid_buf_addr_base + 0x3000 ≤ temp))

-- The bytes of the three screens, from the frames before the exchange to the frames after.
exchanged-frame :
    (m : Memory) (temp old index i off : ℕ)
    → old < 3
    → index < 3
    → i < 3
    → index ≢ old
    → Away temp
    → off < 4000
    → exchanged m temp (frame old index) (frame index old) video_mem (frame index i + off)
      ≡ m (frame old i + off)
exchanged-frame m temp old index i off ho small hi ne away h =
    let a : frame old index ≡ vid_buf_addr_base + index * 0x1000 = ground arith in
    let b : frame index old ≡ vid_buf_addr_base + old * 0x1000 = ground arith in
    let at = vid_buf_addr_base + i * 0x1000 in
    let (shown, hidden, others) =
      exchanged_lem m temp (frame old index) (frame index old) video_mem at off
        (omega (arith, a, away, hi, ho, small)) (omega (arith, b, away, ho)) (omega (arith, away))
        (omega (arith, b)) h in
    elim (Bool-cases (i == index)) [
      | inl is_index ↦
          (let to : frame index i ≡ video_mem = ground arith in
            let from : frame old i ≡ frame old index = ap (frame old) (ground arith) in
            subst
              (λ x.
                exchanged m temp (frame old index) (frame index old) video_mem (x + off)
                ≡ m (frame old i + off))
              (sym to) (shown ∙ ap (λ x. m (x + off)) (sym from)))
      | inr not_index ↦ elim (Bool-cases (i == old)) [
        | inl is_old ↦
            (let to : frame index i ≡ frame index old = ap (frame index) (ground arith) in
              let from : frame old i ≡ video_mem = ground arith in
              subst
                (λ x.
                  exchanged m temp (frame old index) (frame index old) video_mem (x + off)
                  ≡ m (frame old i + off))
                (sym to) (hidden ∙ ap (λ x. m (x + off)) (sym from)))
        | inr not_old ↦
            (let to : frame index i ≡ at = ground arith in
              let from : frame old i ≡ at = ground arith in
              let apart : i ≢ old = ground arith in
              subst
                (λ x.
                  exchanged m temp (frame old index) (frame index old) video_mem (x + off)
                  ≡ m (frame old i + off))
                (sym to)
                (others (omega (arith, away, hi)) (omega (arith, b, apart)) (omega arith)
                  ∙ ap (λ x. m (x + off)) (sym from)))
      ]
    ]

module _ (page_table_at video_table_at temp : ℕ) where
  -- With the pages of `terminal_init` and a local buffer off the screens, switching to one of the terminals displays
  -- it, keeps the paging and the cursors well-formed, and changes no byte of what any of the three
  -- terminals sees through its page.
  pub swap_terminal_lem :
      (index : ℕ) (c : Console)
      → Displays video_table_at c
      → index < 3
      → Away temp
      → let after = swap_terminal page_table_at video_table_at temp index c in
        (after.terminal_num_display ≡ index)
        × Displays video_table_at after
        × ((i off : ℕ) → i < 3 → off < 4000 → screen_byte after i off ≡ screen_byte c i off)
  unfolding swap_terminal
  swap_terminal_lem index c d small away =
      let old = c.terminal_num_display in
      if_both
        (λ after.
          (after.terminal_num_display ≡ index)
          × Displays video_table_at after
          × ((i off : ℕ) → i < 3 → off < 4000 → screen_byte after i off ≡ screen_byte c i off))
        (index == old) c _ (λ same. (ground arith, d, λ i off hi h. refl))
        (λ other.
          let ne : index ≢ old = ground arith in
          let vidmem : ℕ → ℕ = (λ i. (c.terminal_arr i).vidmem_addr) in
          let tables = set_up_virtual_to_video page_table_at video_table_at vidmem index c.tables in
          let framed : Framed video_table_at index tables =
            subst
              (λ v.
                Framed video_table_at index
                  (set_up_virtual_to_video page_table_at video_table_at v index c.tables))
              (sym (fun_ext d.pages))
              ((set_up-Framed page_table_at video_table_at index c.tables small).0) in
          let before : (i : ℕ) → i < 3 → screen_of c.tables (c.terminal_arr i) ≡ frame old i =
            (λ i hi.
              screen_of-frame video_table_at old i c.tables (c.terminal_arr i) d.framed (d.pages i)
                hi) in
          let now : (i : ℕ) → i < 3 → screen_of tables (c.terminal_arr i) ≡ frame index i = (λ i hi.
            screen_of-frame video_table_at index i tables (c.terminal_arr i) framed (d.pages i)
              hi) in
          let a : frame old index ≡ vid_buf_addr_base + index * 0x1000 = ground arith in
          let b : frame index old ≡ vid_buf_addr_base + old * 0x1000 = ground arith in
          let v : frame index index ≡ video_mem = ground arith in
          let shown =
            memcpy
              (memcpy (memcpy c.mem temp (screen_of c.tables (c.terminal_arr index)) 4000)
                (screen_of tables (c.terminal_arr old)) video_mem 4000)
              (screen_of tables (c.terminal_arr index)) temp 4000 in
          let copies =
            three_copies c.mem temp (frame old index) (frame index old) video_mem
              (screen_of c.tables (c.terminal_arr index)) (screen_of tables (c.terminal_arr old))
              (screen_of tables (c.terminal_arr index)) (before index small) (now old d.display)
              (now index small ∙ v) (omega (arith, a, away, small)) (omega (arith, b))
              (omega (arith, away)) in
          update_cursor_still
            (λ after.
              (after.terminal_num_display ≡ index)
              × Displays video_table_at after
              × ((i off : ℕ) → i < 3 → off < 4000 → screen_byte after i off ≡ screen_byte c i off))
            (record c { mem = shown; tables = tables; terminal_num_display = index })
            (c.terminal_arr index).cursor_x (c.terminal_arr index).cursor_y (d.columns index small)
            (d.rows index small)
            (λ w. (
              refl,
              record {
                display = small;
                framed = framed;
                pages = d.pages;
                columns = d.columns;
                rows = d.rows;
              },
              λ i off hi h.
                  ap (λ p. shown (p + off)) (now i hi)
                  ∙ ap (λ (m : Memory). m (frame index i + off)) copies
                  ∙ exchanged-frame c.mem temp old index i off d.display small hi ne away h
                  ∙ ap (λ p. c.mem (p + off)) (sym (before i hi)),
            )))
