-- ===== src/Paging/Boot.antt =====
-- `init_paging`: what is mapped when paging is turned on.
use judd_os.Prelude.{
  ap, ltb→lt, inl, inr, Bool-cases, ℕ, zero, suc, ◌+◌, ◌*◌, ◌/◌, ◌%◌, ◌^◌, ◌<◌, ◌≤◌, ◌≡◌, ◌≢◌, ◌∙◌,
  refl, arith, none, some, Bool, true, false, if◌then◌else◌, ◌==◌, ltb, leb, ◌&&◌, ◌||◌,
  every_below, every_below_lem, bit_or,
}
use judd_os.Prelude.Word.{bit}
use judd_os.Paging.{
  Pde, Tables, put, pde_of_val, pte_of_val, present_val, init_entries, init_paging,
}
use judd_os.Paging.Walk.{walk}

abbrev first_val : ℕ → ℕ
first_val j = if j == 0xB8 then present_val (j * 0x1000) else bit_or (j * 0x1000) 2

init_entries_lem :
    (n i : ℕ) (t : Tables) (j : ℕ)
    → ((init_entries n i t).page_directory_entry j
        ≡ (if leb i j && ltb j (i + n) then pde_of_val 2 else t.page_directory_entry j))
      × ((init_entries n i t).page_table_entry j
          ≡ (if leb i j && ltb j (i + n) then pte_of_val (first_val j) else t.page_table_entry j))
unfolding init_entries put
init_entries_lem zero i t j = (ground arith, ground arith)
init_entries_lem (suc n) i t j =
    let val = if i == 0xB8 then present_val (i * 0x1000) else bit_or (i * 0x1000) 2 in
    let next = record t {
      page_directory_entry = put i (pde_of_val 2) t.page_directory_entry;
      page_table_entry = put i (pte_of_val val) t.page_table_entry;
    } in
    let (directory, table) = init_entries_lem n (i + 1) next j in
    (directory ∙ ground arith, table ∙ ground arith)

absent : (j : ℕ) → j < 1024 → (bit 0 (bit_or (j * 0x1000) 2) == 0) ≡ true
unfolding every_below
absent j = every_below_lem 1024 (λ j. bit 0 (bit_or (j * 0x1000) 2) == 0) j refl

first_val_lem :
    (j : ℕ)
    → j < 1024
    → ((pte_of_val (first_val j)).present ≡ (if j == 0xB8 then 1 else 0))
      × (j ≡ 0xB8 → (pte_of_val (first_val j)).page_addr ≡ 0xB8)
      × (j ≡ 0xB8 → (pte_of_val (first_val j)).user_supervisor ≡ 0)
unfolding pte_of_val present_val
first_val_lem j h =
    let none_there = absent j h in
    (
      ground (arith, none_there),
      ap (λ j. (pte_of_val (first_val j)).page_addr),
      ap (λ j. (pte_of_val (first_val j)).user_supervisor),
    )

boot_directory :
    (t : Tables) (j : ℕ) → j < 1024 → (init_entries 1024 0 t).page_directory_entry j ≡ pde_of_val 2
boot_directory t j h = (init_entries_lem 1024 0 t j).0 ∙ ground arith

boot_table :
    (t : Tables) (j : ℕ)
    → j < 1024
    → (init_entries 1024 0 t).page_table_entry j ≡ pte_of_val (first_val j)
boot_table t j h = (init_entries_lem 1024 0 t j).1 ∙ ground arith

put_twice : {A : Type 0} (j : ℕ) (v w : A) (f : ℕ → A) → 2 ≤ j → put 1 v (put 0 w f) j ≡ f j
unfolding put
put_twice j v w f h = ground arith

-- The first two directory entries, the absence of the others, and the entries of the table.
pub record Booted (page_table_at : ℕ) (t : Tables) : Type 0 where
  pub first :
      ((t.page_directory_entry 0).present ≡ 1)
      × ((t.page_directory_entry 0).user_supervisor ≡ 0)
      × ((t.page_directory_entry 0).page_size ≡ 0)
      × ((t.page_directory_entry 0).page_table_addr ≡ page_table_at / 2 ^ 12 % 2 ^ 20)
  pub second :
      ((t.page_directory_entry 1).present ≡ 1)
      × ((t.page_directory_entry 1).user_supervisor ≡ 0)
      × ((t.page_directory_entry 1).page_size ≡ 1)
      × ((t.page_directory_entry 1).page_table_addr ≡ 0x400)
  pub others : (j : ℕ) → 2 ≤ j → j < 1024 → (t.page_directory_entry j).present ≡ 0
  table : (j : ℕ) → j < 1024 → (t.page_table_entry j).present ≡ (if j == 0xB8 then 1 else 0)
  video : (t.page_table_entry 0xB8).page_addr ≡ 0xB8

module _ (page_table_at video_table_at : ℕ) where
  rest :
      (t : Tables) (j : ℕ)
      → 2 ≤ j
      → (init_paging page_table_at video_table_at t).page_directory_entry j
        ≡ (init_entries 1024 0 t).page_directory_entry j
  unfolding init_paging
  rest t j low = put_twice j _ _ (init_entries 1024 0 t).page_directory_entry low

  pub init_paging-Booted :
      (t : Tables) → Booted page_table_at (init_paging page_table_at video_table_at t)
  unfolding init_paging put pde_of_val
  init_paging-Booted t =
      let zeroth = boot_directory t 0 (omega arith) in
      let oneth = boot_directory t 1 (omega arith) in
      record {
        first = (refl, ap (λ e. e.user_supervisor) zeroth, ap (λ e. e.page_size) zeroth, refl);
        second = (refl, ap (λ e. e.user_supervisor) oneth, refl, refl);
        others = λ j low high. ap (λ (e : Pde). e.present) (rest t j low ∙ boot_directory t j high);
        table = λ j high. ap (λ e. e.present) (boot_table t j high) ∙ (first_val_lem j high).0;
        video =
            ap (λ e. e.page_addr) (boot_table t 0xB8 (omega arith))
            ∙ (first_val_lem 0xB8 (omega arith)).1 refl;
      }

  walk_kernel :
      (t : Tables) (va : ℕ)
      → Booted page_table_at t
      → 0x400000 ≤ va
      → va < 0x800000
      → (walk page_table_at video_table_at false t va ≡ some va)
        × (walk page_table_at video_table_at true t va ≡ none)
  walk_kernel t va b low high =
      let (present, user, size, addr) = b.second in
      let q : va / 2 ^ 22 ≡ 1 = omega (arith, low, high) in
      (
        rw q (rw present (rw size (rw addr (ap some (omega (arith, low, high)))))),
        rw q (rw present (rw user refl)),
      )

  walk_above :
      (t : Tables) (va : ℕ) (user : Bool)
      → Booted page_table_at t
      → 0x800000 ≤ va
      → va < 0x100000000
      → walk page_table_at video_table_at user t va ≡ none
  walk_above t va user b low high =
      let absent_entry : (t.page_directory_entry (va / 2 ^ 22)).present ≡ 0 =
        b.others (va / 2 ^ 22) (omega (arith, low, high)) (omega (arith, low, high)) in
      rw absent_entry refl

  walk_low :
      (t : Tables) (va : ℕ)
      → Booted page_table_at t
      → page_table_at % 0x1000 ≡ 0
      → page_table_at < 0x100000000
      → page_table_at ≢ video_table_at
      → va < 0x400000
      → (walk page_table_at video_table_at false t va
          ≡ (if leb 0xB8000 va && ltb va 0xB9000 then some va else none))
        × (walk page_table_at video_table_at true t va ≡ none)
  walk_low t va b aligned fits apart high =
      let (present, user, size, addr) = b.first in
      let q : va / 2 ^ 22 ≡ 0 = omega (arith, high) in
      let shift : page_table_at / 2 ^ 12 % 2 ^ 20 * 2 ^ 12 ≡ page_table_at =
        omega (arith, aligned, fits) in
      let entry = b.table (va / 2 ^ 12 % 2 ^ 10) (omega arith) in
      (
        rw q (
            rw present (
              rw size (
                rw addr (
                  rw shift (elim (Bool-cases (leb 0xB8000 va && ltb va 0xB9000)) [
                    | inl in_page ↦
                        (let k : va / 2 ^ 12 % 2 ^ 10 ≡ 0xB8 = ground arith in
                          ground (arith, entry, k, b.video))
                    | inr outside ↦
                        (let k : (va / 2 ^ 12 % 2 ^ 10 == 0xB8) ≡ false = ground arith in
                          ground (arith, entry, k))
                  ]))))),
        rw q (rw present (rw user refl)),
      )

  -- When both tables lie on page boundaries of the 32-bit space, paging comes up with the identity on the video page
  -- at 0xB8000 and on the kernel's 4 MB from 4 MB on; every other address below 4 GB, the null pointer included,
  -- faults, and programs reach nothing.
  pub init_paging_lem :
      (t : Tables) (va : ℕ)
      → page_table_at % 0x1000 ≡ 0
      → page_table_at < 0x100000000
      → page_table_at ≢ video_table_at
      → va < 0x100000000
      → (walk page_table_at video_table_at false (init_paging page_table_at video_table_at t) va ≡ (
          if (leb 0xB8000 va && ltb va 0xB9000) || (leb 0x400000 va && ltb va 0x800000)
          then some va
          else none))
        × (walk page_table_at video_table_at true (init_paging page_table_at video_table_at t) va
            ≡ none)
  init_paging_lem t va aligned fits apart low =
      let b = init_paging-Booted t in
      let booted = init_paging page_table_at video_table_at t in
      elim (Bool-cases (ltb va 0x400000)) [
        | inl below ↦
            (let (kernel, program) =
                walk_low booted va b aligned fits apart (ltb→lt va 0x400000 below) in
              (kernel ∙ (ground arith), program))
        | inr beyond ↦ elim (Bool-cases (ltb va 0x800000)) [
          | inl inside ↦
              (let (kernel, program) = walk_kernel booted va b (ground arith) (ground arith) in
                (kernel ∙ (ground arith), program))
          | inr above ↦ (
            walk_above booted va false b (ground arith) low ∙ (ground arith),
            walk_above booted va true b (ground arith) low,
          )
        ]
      ]
