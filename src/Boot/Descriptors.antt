-- ===== src/Boot/Descriptors.antt =====
-- What the descriptors of `entry` mean to the processor.
use judd_os.Prelude.{ℕ, ◌+◌, ◌*◌, ◌^◌, ◌<◌, ◌≡◌, arith, refl}
use judd_os.Boot.{SegDesc, Segments, set_ldt_params, set_tss_params, set_up_ldt, set_up_tss}

abbrev pub base : SegDesc → ℕ
base d = d.base_31_24 * 2 ^ 24 + d.base_23_16 * 2 ^ 16 + d.base_15_00

-- In bytes, since the granularity is 0.
abbrev pub limit : SegDesc → ℕ
limit d = d.seg_lim_19_16 * 2 ^ 16 + d.seg_lim_15_00

-- A present descriptor of the system, for the kernel only, with a limit in bytes.
pub record IsSystem (d : SegDesc) (type addr lim : ℕ) : Type 0 where
  based : base d ≡ addr
  limited : limit d ≡ lim
  kind : (d.sys ≡ 0) × (d.type ≡ type)
  kernel : (d.dpl ≡ 0) × (d.present ≡ 1)
  in_bytes : d.granularity ≡ 0

-- After the two blocks of `entry`, for addresses of 32 bits and limits of 20, whatever the local descriptors held: the table
-- has a descriptor of the local descriptor table and one of the task state with these addresses and limits, their
-- selectors are loaded, and an entry from user mode finds the kernel's data segment and a stack that ends at 8 MB.
pub descriptors_lem :
    (uninit uninit' : SegDesc) (ldt ldt_size tss tss_size : ℕ) (s : Segments)
    → ldt < 2 ^ 32
    → ldt_size < 2 ^ 20
    → tss < 2 ^ 32
    → tss_size < 2 ^ 20
    → (let s' = set_up_tss uninit' tss tss_size (set_up_ldt uninit ldt ldt_size s) in
        IsSystem s'.ldt_desc_ptr 2 ldt ldt_size
        × IsSystem s'.tss_desc_ptr 9 tss tss_size
        × (s'.ldtr ≡ 0x0038)
        × (s'.tr ≡ 0x0030)
        × (s'.tss.ldt_segment_selector ≡ s'.ldtr)
        × (s'.tss.ss0 ≡ 0x0018)
        × (s'.tss.esp0 ≡ 0x800000))
unfolding set_up_tss set_up_ldt set_ldt_params set_tss_params
descriptors_lem uninit uninit' ldt ldt_size tss tss_size s ha hb hc hd = (
  record {
    based = omega (arith, ha);
    limited = omega (arith, hb);
    kind = (refl, refl);
    kernel = (refl, refl);
    in_bytes = refl;
  },
  record {
    based = omega (arith, hc);
    limited = omega (arith, hd);
    kind = (refl, refl);
    kernel = (refl, refl);
    in_bytes = refl;
  },
  refl,
  refl,
  refl,
  refl,
  refl,
)
