-- ===== src/Boot.antt =====
-- kernel.c and x86_desc.h: the two descriptors that `entry` makes, and the task state that it starts with.
pub mod Descriptors
pub mod Multiboot
pub mod Entry
pub mod Sample
mod Tests
use judd_os.Prelude.{ℕ, ◌/◌, ◌%◌, ◌^◌}

-- `seg_desc_t`
pub record SegDesc : Type 0 where
  pub seg_lim_15_00 : ℕ
  pub base_15_00 : ℕ
  pub base_23_16 : ℕ
  pub type : ℕ
  pub sys : ℕ
  pub dpl : ℕ
  pub present : ℕ
  pub seg_lim_19_16 : ℕ
  pub avail : ℕ
  pub reserved : ℕ
  pub opsize : ℕ
  pub granularity : ℕ
  pub base_31_24 : ℕ

-- The fields of `tss_t` that `entry` sets.
pub record Tss : Type 0 where
  pub ldt_segment_selector : ℕ
  pub ss0 : ℕ
  pub esp0 : ℕ

-- `SET_LDT_PARAMS`; a mask and a shift take a part of the number.
set_ldt_params : SegDesc → ℕ → ℕ → SegDesc
set_ldt_params str addr lim = record str {
  base_31_24 = addr / 2 ^ 24 % 2 ^ 8;
  base_23_16 = addr / 2 ^ 16 % 2 ^ 8;
  base_15_00 = addr % 2 ^ 16;
  seg_lim_19_16 = lim / 2 ^ 16 % 2 ^ 4;
  seg_lim_15_00 = lim % 2 ^ 16;
}

-- `SET_TSS_PARAMS`
set_tss_params : SegDesc → ℕ → ℕ → SegDesc
set_tss_params str addr lim = record str {
  base_31_24 = addr / 2 ^ 24 % 2 ^ 8;
  base_23_16 = addr / 2 ^ 16 % 2 ^ 8;
  base_15_00 = addr % 2 ^ 16;
  seg_lim_19_16 = lim / 2 ^ 16 % 2 ^ 4;
  seg_lim_15_00 = lim % 2 ^ 16;
}

-- The descriptors in the table, the task state, and the selectors loaded by `lldt` and `ltr`.
pub record Segments : Type 0 where
  pub ldt_desc_ptr : SegDesc
  pub tss_desc_ptr : SegDesc
  pub tss : Tss
  pub ldtr : ℕ
  pub tr : ℕ

-- The first of the two blocks of `entry`. `uninit` is what the local descriptor holds before, `ldt` and `ldt_size` the
-- address and the limit of the table.
pub set_up_ldt : SegDesc → ℕ → ℕ → Segments → Segments
unfolding set_ldt_params
set_up_ldt uninit ldt ldt_size s =
    let the_ldt_desc = record uninit {
      granularity = 0;
      opsize = 1;
      reserved = 0;
      avail = 0;
      present = 1;
      dpl = 0;
      sys = 0;
      type = 2;
    } in
    record s { ldt_desc_ptr = set_ldt_params the_ldt_desc ldt ldt_size; ldtr = 0x0038 }

-- The second. The high bits of the limit keep four bits of 104 & 0x000F0000, which is 0.
pub set_up_tss : SegDesc → ℕ → ℕ → Segments → Segments
unfolding set_tss_params
set_up_tss uninit tss tss_size s =
    let the_tss_desc = record uninit {
      granularity = 0;
      opsize = 0;
      reserved = 0;
      avail = 0;
      seg_lim_19_16 = 0;
      present = 1;
      dpl = 0;
      sys = 0;
      type = 9;
      seg_lim_15_00 = 104;
    } in
    record s {
      tss_desc_ptr = set_tss_params the_tss_desc tss tss_size;
      tss = record { ldt_segment_selector = 0x0038; ss0 = 0x0018; esp0 = 0x800000 };
      tr = 0x0030;
    }
