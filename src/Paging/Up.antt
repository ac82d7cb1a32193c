-- ===== src/Paging/Up.antt =====
-- The translation when the terminals have their pages: the rest is as `init_paging` leaves it.
use judd_os.Prelude.{
  ℕ, ◌*◌, ◌/◌, ◌%◌, ◌^◌, ◌<◌, ◌≡◌, ◌≢◌, ◌⊎◌, ◌∙◌, ap, sym, arith, inl, inr, refl, none, some, Bool,
  false, true, Bool-cases, if◌then◌else◌, ◌==◌, ltb, leb, ◌&&◌, ◌||◌,
}
use judd_os.Paging.{Tables, init_paging, map_video, set_up_virtual_to_video}
use judd_os.Paging.Boot.{Booted, init_paging-Booted, init_paging_lem}
use judd_os.Paging.Video.{Framed, terminal_page, set_up-Framed}
use judd_os.Paging.Walk.{walk}

module _ (page_table_at video_table_at : ℕ) where
  -- An entry of the directory that does not lead to the video table.
  abbrev Plain : Tables → ℕ → Type 0
  Plain t q =
      ((t.page_directory_entry q).present ≡ 0)
      ⊎ ((t.page_directory_entry q).page_size ≡ 1)
      ⊎ ((t.page_directory_entry q).page_table_addr * 2 ^ 12 ≢ video_table_at)

  walk_same :
      (user : Bool) (t t' : Tables) (va : ℕ)
      → t'.page_directory_entry (va / 2 ^ 22) ≡ t.page_directory_entry (va / 2 ^ 22)
      → t'.page_table_entry ≡ t.page_table_entry
      → Plain t (va / 2 ^ 22)
      → walk page_table_at video_table_at user t' va ≡ walk page_table_at video_table_at user t va
  walk_same user t t' va directory table plain = rw directory (rw table (ground (arith, plain)))

  set_up-table :
      (display : ℕ) (t : Tables)
      → (set_up_virtual_to_video page_table_at video_table_at terminal_page display
          t).page_table_entry
        ≡ t.page_table_entry
  unfolding set_up_virtual_to_video map_video
  set_up-table display t = refl

  Booted-Plain :
      (t : Tables) (q : ℕ)
      → Booted page_table_at t
      → page_table_at % 0x1000 ≡ 0
      → page_table_at < 0x100000000
      → page_table_at ≢ video_table_at
      → q < 1024
      → Plain t q
  Booted-Plain t q b aligned fits apart low = elim (Bool-cases (q == 0)) [
    | inl zeroth ↦
        (let e : q ≡ 0 = ground (arith, zeroth) in
          inr (
            inr (λ same. apart (
              omega (arith, aligned, fits)
              ∙ ap (λ a. a * 2 ^ 12) (sym b.first.3)
              ∙ ap (λ j. (t.page_directory_entry j).page_table_addr * 2 ^ 12) (sym e)
              ∙ same))))
    | inr later ↦ (elim (Bool-cases (q == 1)) [
      | inl oneth ↦
          (let e : q ≡ 1 = ground (arith, oneth) in
            inr (inl (ap (λ j. (t.page_directory_entry j).page_size) e ∙ b.second.2)))
      | inr more ↦ inl (b.others q (ground (arith, later, more)) low)
    ])
  ]

  -- With both tables on different page boundaries of the 32-bit space, after `init_paging` and the call of
  -- `set_up_virtual_to_video` for terminal `display`, outside the 4 MB of the terminals' pages the kernel reaches exactly the video page and its own 4 MB,
  -- by the identity, programs reach nothing, and the terminals' pages have their frames.
  pub walk_up :
      (display : ℕ) (t : Tables) (va : ℕ)
      → display < 3
      → page_table_at % 0x1000 ≡ 0
      → page_table_at < 0x100000000
      → page_table_at ≢ video_table_at
      → va < 0x100000000
      → va / 2 ^ 22 ≢ 33
      → (let up =
            set_up_virtual_to_video page_table_at video_table_at terminal_page display
              (init_paging page_table_at video_table_at t) in
          Framed video_table_at display up
          × (walk page_table_at video_table_at false up va ≡ (
              if (leb 0xB8000 va && ltb va 0xB9000) || (leb 0x400000 va && ltb va 0x800000)
              then some va
              else none))
          × (walk page_table_at video_table_at true up va ≡ none))
  walk_up display t va low aligned fits apart high other =
      let booted = init_paging page_table_at video_table_at t in
      let (framed, directory) = set_up-Framed page_table_at video_table_at display booted low in
      let same : (user : Bool)
          → walk page_table_at video_table_at user
              (set_up_virtual_to_video page_table_at video_table_at terminal_page display booted) va
            ≡ walk page_table_at video_table_at user booted va =
        (λ user.
          walk_same user booted
            (set_up_virtual_to_video page_table_at video_table_at terminal_page display booted) va
            (directory (va / 2 ^ 22) other) (set_up-table display booted)
            (Booted-Plain booted (va / 2 ^ 22) (init_paging-Booted page_table_at video_table_at t)
              aligned fits apart (omega (arith, high)))) in
      let (kernel, program) =
        init_paging_lem page_table_at video_table_at t va aligned fits apart high in
      (framed, same false ∙ kernel, same true ∙ program)
