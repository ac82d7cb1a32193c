-- ===== src/Interrupts/Gates.antt =====
-- idt.c: `init_idt` and the two functions that fill an entry.
use judd_os.Prelude.{ℕ, ◌+◌, ◌*◌, ◌/◌, ◌%◌, ◌^◌, ◌<◌, ◌≡◌, ◌≢◌, ◌∙◌, sym, subst, arith, refl}
use judd_os.Paging.{put}
use judd_os.Process.Consistent.{put_self, put_ne}
use judd_os.Interrupts.{
  Label, div_by_zero, single_step_int, nmi, breakpoint, overflow, bounds, invalid_opcode,
  coprocessor_na, double_fault, coprocessor_so, invalid_tss, seg_not_present, stack_fault,
  general_pfault, page_fault, reserved, math_fault, alignment_check, machine_check, simd_fp_excep,
  virtual_excep, ctrl_prot_excep, irq_pit, irq_keyboard, irq_rtc, system_call,
}

-- `idt_desc_t`
pub record IdtDesc : Type 0 where
  pub offset_15_00 : ℕ
  pub seg_selector : ℕ
  pub reserved4 : ℕ
  pub reserved3 : ℕ
  pub reserved2 : ℕ
  pub reserved1 : ℕ
  pub size : ℕ
  pub reserved0 : ℕ
  pub dpl : ℕ
  pub present : ℕ
  pub offset_31_16 : ℕ

-- `SET_IDT_ENTRY`
set_idt_entry : ℕ → IdtDesc → IdtDesc
set_idt_entry handler d = record d {
  offset_31_16 = handler / 2 ^ 16 % 2 ^ 16;
  offset_15_00 = handler % 2 ^ 16;
}

define_exception : ℕ → ℕ → ℕ → (ℕ → IdtDesc) → ℕ → IdtDesc
unfolding set_idt_entry
define_exception entry f dpl idt =
    put entry
      (record (set_idt_entry f (idt entry)) {
        seg_selector = 0x0010;
        reserved4 = 0;
        reserved3 = 1;
        reserved2 = 1;
        reserved1 = 1;
        reserved0 = 0;
        present = 1;
        size = 1;
        dpl = dpl;
      })
      idt

define_interrupt : ℕ → ℕ → ℕ → (ℕ → IdtDesc) → ℕ → IdtDesc
unfolding set_idt_entry
define_interrupt entry f dpl idt =
    put entry
      (record (set_idt_entry f (idt entry)) {
        seg_selector = 0x0010;
        reserved4 = 0;
        reserved3 = 0;
        reserved2 = 1;
        reserved1 = 1;
        reserved0 = 0;
        present = 1;
        size = 1;
        dpl = dpl;
      })
      idt

-- `address` is where the linker puts a label.
pub init_idt : (Label → ℕ) → (ℕ → IdtDesc) → ℕ → IdtDesc
unfolding define_exception define_interrupt
init_idt address idt =
    let idt0 = define_exception 0x00 (address div_by_zero) 0 idt in
    let idt1 = define_exception 0x01 (address single_step_int) 0 idt0 in
    let idt2 = define_exception 0x02 (address nmi) 0 idt1 in
    let idt3 = define_exception 0x03 (address breakpoint) 0 idt2 in
    let idt4 = define_exception 0x04 (address overflow) 0 idt3 in
    let idt5 = define_exception 0x05 (address bounds) 0 idt4 in
    let idt6 = define_exception 0x06 (address invalid_opcode) 0 idt5 in
    let idt7 = define_exception 0x07 (address coprocessor_na) 0 idt6 in
    let idt8 = define_exception 0x08 (address double_fault) 0 idt7 in
    let idt9 = define_exception 0x09 (address coprocessor_so) 0 idt8 in
    let idt10 = define_exception 0x0A (address invalid_tss) 0 idt9 in
    let idt11 = define_exception 0x0B (address seg_not_present) 0 idt10 in
    let idt12 = define_exception 0x0C (address stack_fault) 0 idt11 in
    let idt13 = define_exception 0x0D (address general_pfault) 0 idt12 in
    let idt14 = define_exception 0x0E (address page_fault) 0 idt13 in
    let idt15 = define_exception 0x0F (address reserved) 0 idt14 in
    let idt16 = define_exception 0x10 (address math_fault) 0 idt15 in
    let idt17 = define_exception 0x11 (address alignment_check) 0 idt16 in
    let idt18 = define_exception 0x12 (address machine_check) 0 idt17 in
    let idt19 = define_exception 0x13 (address simd_fp_excep) 0 idt18 in
    let idt20 = define_exception 0x14 (address virtual_excep) 0 idt19 in
    let idt21 = define_exception 0x15 (address ctrl_prot_excep) 0 idt20 in
    let idt22 = define_interrupt 0x80 (address system_call) 3 idt21 in
    let idt23 = define_exception 0x20 (address irq_pit) 0 idt22 in
    let idt24 = define_exception 0x21 (address irq_keyboard) 0 idt23 in
    define_exception 0x28 (address irq_rtc) 0 idt24

-- The wrapper that belongs to a vector.
pub vector : Label → ℕ
vector div_by_zero = 0
vector single_step_int = 1
vector nmi = 2
vector breakpoint = 3
vector overflow = 4
vector bounds = 5
vector invalid_opcode = 6
vector coprocessor_na = 7
vector double_fault = 8
vector coprocessor_so = 9
vector invalid_tss = 10
vector seg_not_present = 11
vector stack_fault = 12
vector general_pfault = 13
vector page_fault = 14
vector reserved = 15
vector math_fault = 16
vector alignment_check = 17
vector machine_check = 18
vector simd_fp_excep = 19
vector virtual_excep = 20
vector ctrl_prot_excep = 21
vector irq_pit = 0x20
vector irq_keyboard = 0x21
vector irq_rtc = 0x28
vector system_call = 0x80

-- The address that the processor takes from a gate.
abbrev target : IdtDesc → ℕ
target d = d.offset_31_16 * 2 ^ 16 + d.offset_15_00

-- A 32-bit gate of the kernel's code segment: an interrupt gate has `kind` 0, a trap gate 1.
pub record IsGate (d : IdtDesc) (handler kind dpl : ℕ) : Type 0 where
  leads : target d ≡ handler
  segment : d.seg_selector ≡ 0x0010
  present : d.present ≡ 1
  type :
      (d.reserved3 ≡ kind)
      × (d.reserved2 ≡ 1)
      × (d.reserved1 ≡ 1)
      × (d.size ≡ 1)
      × (d.reserved0 ≡ 0)
  level : d.dpl ≡ dpl

abbrev pub gate_kind : Label → ℕ
gate_kind system_call = 0
gate_kind _ = 1

abbrev pub gate_dpl : Label → ℕ
gate_dpl system_call = 3
gate_dpl _ = 0

target_lem : (f : ℕ) → f < 2 ^ 32 → f / 2 ^ 16 % 2 ^ 16 * 2 ^ 16 + f % 2 ^ 16 ≡ f
target_lem f h = omega (arith, h)

define_exception-IsGate :
    (entry f dpl : ℕ) (idt : ℕ → IdtDesc)
    → f < 2 ^ 32
    → IsGate (define_exception entry f dpl idt entry) f 1 dpl
unfolding define_exception set_idt_entry
define_exception-IsGate entry f dpl idt h =
    subst (λ d. IsGate d f 1 dpl) (sym (put_self entry _ idt))
      record {
        leads = target_lem f h;
        segment = refl;
        present = refl;
        type = (refl, refl, refl, refl, refl);
        level = refl;
      }

define_interrupt-IsGate :
    (entry f dpl : ℕ) (idt : ℕ → IdtDesc)
    → f < 2 ^ 32
    → IsGate (define_interrupt entry f dpl idt entry) f 0 dpl
unfolding define_interrupt set_idt_entry
define_interrupt-IsGate entry f dpl idt h =
    subst (λ d. IsGate d f 0 dpl) (sym (put_self entry _ idt))
      record {
        leads = target_lem f h;
        segment = refl;
        present = refl;
        type = (refl, refl, refl, refl, refl);
        level = refl;
      }

exception_ne :
    (entry f dpl : ℕ) (idt : ℕ → IdtDesc) (v : ℕ)
    → v ≢ entry
    → define_exception entry f dpl idt v ≡ idt v
unfolding define_exception
exception_ne entry f dpl idt v ne = put_ne entry v _ idt ne

interrupt_ne :
    (entry f dpl : ℕ) (idt : ℕ → IdtDesc) (v : ℕ)
    → v ≢ entry
    → define_interrupt entry f dpl idt v ≡ idt v
unfolding define_interrupt
interrupt_ne entry f dpl idt v ne = put_ne entry v _ idt ne

init_idt-IsGate :
    (address : Label → ℕ) (idt : ℕ → IdtDesc) (l : Label)
    → address l < 2 ^ 32
    → IsGate (init_idt address idt (vector l)) (address l) (gate_kind l) (gate_dpl l)
unfolding init_idt define_exception define_interrupt set_idt_entry vector put
init_idt-IsGate address idt div_by_zero h =
    define_exception-IsGate 0x00 (address div_by_zero) 0 idt h
init_idt-IsGate address idt single_step_int h =
    define_exception-IsGate 0x01 (address single_step_int) 0 idt h
init_idt-IsGate address idt nmi h = define_exception-IsGate 0x02 (address nmi) 0 idt h
init_idt-IsGate address idt breakpoint h = define_exception-IsGate 0x03 (address breakpoint) 0 idt h
init_idt-IsGate address idt overflow h = define_exception-IsGate 0x04 (address overflow) 0 idt h
init_idt-IsGate address idt bounds h = define_exception-IsGate 0x05 (address bounds) 0 idt h
init_idt-IsGate address idt invalid_opcode h =
    define_exception-IsGate 0x06 (address invalid_opcode) 0 idt h
init_idt-IsGate address idt coprocessor_na h =
    define_exception-IsGate 0x07 (address coprocessor_na) 0 idt h
init_idt-IsGate address idt double_fault h =
    define_exception-IsGate 0x08 (address double_fault) 0 idt h
init_idt-IsGate address idt coprocessor_so h =
    define_exception-IsGate 0x09 (address coprocessor_so) 0 idt h
init_idt-IsGate address idt invalid_tss h =
    define_exception-IsGate 0x0A (address invalid_tss) 0 idt h
init_idt-IsGate address idt seg_not_present h =
    define_exception-IsGate 0x0B (address seg_not_present) 0 idt h
init_idt-IsGate address idt stack_fault h =
    define_exception-IsGate 0x0C (address stack_fault) 0 idt h
init_idt-IsGate address idt general_pfault h =
    define_exception-IsGate 0x0D (address general_pfault) 0 idt h
init_idt-IsGate address idt page_fault h = define_exception-IsGate 0x0E (address page_fault) 0 idt h
init_idt-IsGate address idt reserved h = define_exception-IsGate 0x0F (address reserved) 0 idt h
init_idt-IsGate address idt math_fault h = define_exception-IsGate 0x10 (address math_fault) 0 idt h
init_idt-IsGate address idt alignment_check h =
    define_exception-IsGate 0x11 (address alignment_check) 0 idt h
init_idt-IsGate address idt machine_check h =
    define_exception-IsGate 0x12 (address machine_check) 0 idt h
init_idt-IsGate address idt simd_fp_excep h =
    define_exception-IsGate 0x13 (address simd_fp_excep) 0 idt h
init_idt-IsGate address idt virtual_excep h =
    define_exception-IsGate 0x14 (address virtual_excep) 0 idt h
init_idt-IsGate address idt ctrl_prot_excep h =
    define_exception-IsGate 0x15 (address ctrl_prot_excep) 0 idt h
init_idt-IsGate address idt system_call h =
    define_interrupt-IsGate 0x80 (address system_call) 3 idt h
init_idt-IsGate address idt irq_pit h = define_exception-IsGate 0x20 (address irq_pit) 0 idt h
init_idt-IsGate address idt irq_keyboard h =
    define_exception-IsGate 0x21 (address irq_keyboard) 0 idt h
init_idt-IsGate address idt irq_rtc h = define_exception-IsGate 0x28 (address irq_rtc) 0 idt h

init_other :
    (address : Label → ℕ) (idt : ℕ → IdtDesc) (v : ℕ)
    → ((l : Label) → v ≢ vector l)
    → init_idt address idt v ≡ idt v
unfolding init_idt vector
init_other address idt v other =
    exception_ne 0x28 _ _ _ v (other irq_rtc)
    ∙ exception_ne 0x21 _ _ _ v (other irq_keyboard)
    ∙ exception_ne 0x20 _ _ _ v (other irq_pit)
    ∙ interrupt_ne 0x80 _ _ _ v (other system_call)
    ∙ exception_ne 0x15 _ _ _ v (other ctrl_prot_excep)
    ∙ exception_ne 0x14 _ _ _ v (other virtual_excep)
    ∙ exception_ne 0x13 _ _ _ v (other simd_fp_excep)
    ∙ exception_ne 0x12 _ _ _ v (other machine_check)
    ∙ exception_ne 0x11 _ _ _ v (other alignment_check)
    ∙ exception_ne 0x10 _ _ _ v (other math_fault)
    ∙ exception_ne 0x0F _ _ _ v (other reserved)
    ∙ exception_ne 0x0E _ _ _ v (other page_fault)
    ∙ exception_ne 0x0D _ _ _ v (other general_pfault)
    ∙ exception_ne 0x0C _ _ _ v (other stack_fault)
    ∙ exception_ne 0x0B _ _ _ v (other seg_not_present)
    ∙ exception_ne 0x0A _ _ _ v (other invalid_tss)
    ∙ exception_ne 0x09 _ _ _ v (other coprocessor_so)
    ∙ exception_ne 0x08 _ _ _ v (other double_fault)
    ∙ exception_ne 0x07 _ _ _ v (other coprocessor_na)
    ∙ exception_ne 0x06 _ _ _ v (other invalid_opcode)
    ∙ exception_ne 0x05 _ _ _ v (other bounds)
    ∙ exception_ne 0x04 _ _ _ v (other overflow)
    ∙ exception_ne 0x03 _ _ _ v (other breakpoint)
    ∙ exception_ne 0x02 _ _ _ v (other nmi)
    ∙ exception_ne 0x01 _ _ _ v (other single_step_int)
    ∙ exception_ne 0x00 _ _ _ v (other div_by_zero)

-- After `init_idt`, for wrappers below 4 GB: the vector of each wrapper holds a present 32-bit gate of the kernel's code
-- segment that leads to the wrapper; of these, the gate of the system calls is open to programs and is an interrupt gate, and
-- the others are for the kernel and are trap gates; and all other vectors are as they were.
pub init_idt_lem :
    (address : Label → ℕ) (idt : ℕ → IdtDesc)
    → ((l : Label) → address l < 2 ^ 32)
    → ((l : Label)
        → IsGate (init_idt address idt (vector l)) (address l) (gate_kind l) (gate_dpl l))
      × ((v : ℕ) → ((l : Label) → v ≢ vector l) → init_idt address idt v ≡ idt v)
init_idt_lem address idt low =
    (λ l. init_idt-IsGate address idt l (low l), λ v other. init_other address idt v other)
