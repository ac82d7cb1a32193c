-- ===== src/Interrupts/Handlers.antt =====
-- What the exception handlers do: each prints its message and ends the process.
use judd_os.Prelude.{
  ℕ, zero, suc, ◌+◌, ◌<◌, ◌≡◌, ◌≢◌, ◌∙◌, sym, ap, subst, arith, refl, Bool, true, false, List, [],
  ◌∷◌, length, get_or, Option, some, ◌==◌, if◌then◌else◌, >>=-some, some_injective, ◌++◌,
}
use judd_os.Prelude.Text.{codes}
use judd_os.Prelude.Memory.{Memory, store, store_self, store_ne}
use judd_os.Pic.{Pic}
use judd_os.Pic.Eoi.{send_eoi_master}
use judd_os.Keyboard.{keyboard_handler_main}
use judd_os.Prelude.Word.{outb}
use judd_os.CString.Length.{IsString, strlen_lem}
use judd_os.Terminal.{Console, terminal_write}
use judd_os.Process.{Locals, pit_handler, Kernel, Cpu, Outcome, halt}
use judd_os.Process.Stack.{InStack}
use judd_os.Process.Consistent.{IsScheduled, Runs}
use judd_os.Process.Switch.{HaltResult, halt_lem}
use judd_os.Interrupts.{
  irq_pit_handler, irq_keyboard_handler, place, raise, exception_handler, Label, div_by_zero,
  single_step_int, nmi, breakpoint, overflow, bounds, invalid_opcode, coprocessor_na, double_fault,
  coprocessor_so, invalid_tss, seg_not_present, stack_fault, general_pfault, page_fault, reserved,
  math_fault, alignment_check, machine_check, simd_fp_excep, virtual_excep, ctrl_prot_excep,
  irq_pit, irq_keyboard, irq_rtc, system_call,
}

all_nonzero : List ℕ → Bool
all_nonzero [] = true
all_nonzero (c ∷ rest) = if c == 0 then false else all_nonzero rest

pub place_before : (m : Memory) (a : ℕ) (text : List ℕ) (x : ℕ) → x < a → place m a text x ≡ m x
unfolding place
place_before m a [] x lt = store_ne m a 0 x (omega (arith, lt))
place_before m a (c ∷ rest) x lt =
    place_before (store m a c) (a + 1) rest x (omega (arith, lt))
    ∙ store_ne m a c x (omega (arith, lt))

place_end : (m : Memory) (a : ℕ) (text : List ℕ) → place m a text (a + length text) ≡ 0
unfolding place
place_end m a [] = ap (store m a 0) (omega arith) ∙ store_self m a 0
place_end m a (c ∷ rest) =
    ap (place (store m a c) (a + 1) rest) (omega arith) ∙ place_end (store m a c) (a + 1) rest

place_chars :
    (m : Memory) (a : ℕ) (text : List ℕ) (j : ℕ)
    → j < length text
    → place m a text (a + j) ≡ get_or text j 0
unfolding place
place_chars m a [] j lt = absurd (omega (arith, lt))
place_chars m a (c ∷ rest) zero lt =
    ap (place (store m a c) (a + 1) rest) (omega arith)
    ∙ place_before (store m a c) (a + 1) rest a (omega arith)
    ∙ store_self m a c
place_chars m a (c ∷ rest) (suc j) lt =
    ap (place (store m a c) (a + 1) rest) (omega arith)
    ∙ place_chars (store m a c) (a + 1) rest j (omega (arith, lt))

get_or-nonzero :
    (text : List ℕ) (j : ℕ) → all_nonzero text ≡ true → j < length text → get_or text j 0 ≢ 0
unfolding all_nonzero
get_or-nonzero [] j all lt = absurd (omega (arith, lt))
get_or-nonzero (c ∷ rest) zero all lt = ground (arith, all)
get_or-nonzero (c ∷ rest) (suc j) all lt =
    get_or-nonzero rest j (ground (arith, all)) (omega (arith, lt))

place-IsString :
    (m : Memory) (a : ℕ) (text : List ℕ)
    → all_nonzero text ≡ true
    → IsString (place m a text) a (length text)
place-IsString m a text all = record {
  ends = place_end m a text;
  before = λ j h e. get_or-nonzero text j all h (sym (place_chars m a text j h) ∙ e);
}

-- The handler with this text prints all of it and then ends the process.
abbrev Ends : List ℕ → (ℕ → Cpu → Console → Kernel → Option (Console × (Outcome × Kernel))) → Type 0
Ends text handler =
    (message : ℕ) (cpu : Cpu) (c : Console) (k : Kernel)
    → handler message cpu c k
      ≡ some (
        (terminal_write message (length text) (record c {
          mem = place c.mem message text;
          tables = k.tables;
          terminal_num = k.terminal_num;
        })).1,
        halt cpu 255 k,
      )

raise-Ends : (text : List ℕ) → all_nonzero text ≡ true → Ends text (raise text)
unfolding raise
raise-Ends text all message cpu c k = >>=-some _ (
    strlen_lem (length text + 1) (place c.mem message text) message (length text)
      (place-IsString c.mem message text all) (omega arith))

-- The message that belongs to each exception.
abbrev pub message_of : Label → List ℕ
message_of div_by_zero = codes "DIV_BY_ZERO_ERROR\n"
message_of single_step_int = codes "SINGLE_STEP_INT_ERROR\n"
message_of nmi = codes "NMI_ERROR\n"
message_of breakpoint = codes "BREAKPOINT(INT3)_ERROR\n"
message_of overflow = codes "OVERFLOW(INTO)_ERROR\n"
message_of bounds = codes "BOUNDS_ERROR\n"
message_of invalid_opcode = codes "INVALID_OPCODE(UD2)_ERROR\n"
message_of coprocessor_na = codes "COPROCESSOR_NA_ERROR\n"
message_of double_fault = codes "DOUBLE_FAULT_ERROR\n"
message_of coprocessor_so = codes "COPROCESSOR_SO_ERROR\n"
message_of invalid_tss = codes "INVALID_TSS_ERROR\n"
message_of seg_not_present = codes "SEG_NOT_PRESENT_ERROR\n"
message_of stack_fault = codes "STACK_FAULT_ERROR\n"
message_of general_pfault = codes "GENERAL_PFAULT_ERROR\n"
message_of page_fault = codes "PFAULT ERROR\n"
message_of reserved = codes "RESERVED_ERROR\n"
message_of math_fault = codes "MATH_FAULT\n"
message_of alignment_check = codes "ALIGNMENT_CHECK_ERROR\n"
message_of machine_check = codes "MACHINE_CHECK_ERROR\n"
message_of simd_fp_excep = codes "SIMD_FP_EXCEPTION\n"
message_of virtual_excep = codes "VIRTUALIZATION_EXCEPTION\n"
message_of ctrl_prot_excep = codes "CONTROL_PROTECTION_EXCEPTION\n"
message_of irq_pit = []
message_of irq_keyboard = []
message_of irq_rtc = []
message_of system_call = []

handler-Ends :
    (l : Label) (handler : ℕ → Cpu → Console → Kernel → Option (Console × (Outcome × Kernel)))
    → exception_handler l ≡ some handler
    → Ends (message_of l) handler
unfolding exception_handler all_nonzero
handler-Ends div_by_zero handler e =
    subst (Ends (message_of div_by_zero)) (some_injective e)
      (raise-Ends (message_of div_by_zero) refl)
handler-Ends single_step_int handler e =
    subst (Ends (message_of single_step_int)) (some_injective e)
      (raise-Ends (message_of single_step_int) refl)
handler-Ends nmi handler e =
    subst (Ends (message_of nmi)) (some_injective e) (raise-Ends (message_of nmi) refl)
handler-Ends breakpoint handler e =
    subst (Ends (message_of breakpoint)) (some_injective e)
      (raise-Ends (message_of breakpoint) refl)
handler-Ends overflow handler e =
    subst (Ends (message_of overflow)) (some_injective e) (raise-Ends (message_of overflow) refl)
handler-Ends bounds handler e =
    subst (Ends (message_of bounds)) (some_injective e) (raise-Ends (message_of bounds) refl)
handler-Ends invalid_opcode handler e =
    subst (Ends (message_of invalid_opcode)) (some_injective e)
      (raise-Ends (message_of invalid_opcode) refl)
handler-Ends coprocessor_na handler e =
    subst (Ends (message_of coprocessor_na)) (some_injective e)
      (raise-Ends (message_of coprocessor_na) refl)
handler-Ends double_fault handler e =
    subst (Ends (message_of double_fault)) (some_injective e)
      (raise-Ends (message_of double_fault) refl)
handler-Ends coprocessor_so handler e =
    subst (Ends (message_of coprocessor_so)) (some_injective e)
      (raise-Ends (message_of coprocessor_so) refl)
handler-Ends invalid_tss handler e =
    subst (Ends (message_of invalid_tss)) (some_injective e)
      (raise-Ends (message_of invalid_tss) refl)
handler-Ends seg_not_present handler e =
    subst (Ends (message_of seg_not_present)) (some_injective e)
      (raise-Ends (message_of seg_not_present) refl)
handler-Ends stack_fault handler e =
    subst (Ends (message_of stack_fault)) (some_injective e)
      (raise-Ends (message_of stack_fault) refl)
handler-Ends general_pfault handler e =
    subst (Ends (message_of general_pfault)) (some_injective e)
      (raise-Ends (message_of general_pfault) refl)
handler-Ends page_fault handler e =
    subst (Ends (message_of page_fault)) (some_injective e)
      (raise-Ends (message_of page_fault) refl)
handler-Ends reserved handler e =
    subst (Ends (message_of reserved)) (some_injective e) (raise-Ends (message_of reserved) refl)
handler-Ends math_fault handler e =
    subst (Ends (message_of math_fault)) (some_injective e)
      (raise-Ends (message_of math_fault) refl)
handler-Ends alignment_check handler e =
    subst (Ends (message_of alignment_check)) (some_injective e)
      (raise-Ends (message_of alignment_check) refl)
handler-Ends machine_check handler e =
    subst (Ends (message_of machine_check)) (some_injective e)
      (raise-Ends (message_of machine_check) refl)
handler-Ends simd_fp_excep handler e =
    subst (Ends (message_of simd_fp_excep)) (some_injective e)
      (raise-Ends (message_of simd_fp_excep) refl)
handler-Ends virtual_excep handler e =
    subst (Ends (message_of virtual_excep)) (some_injective e)
      (raise-Ends (message_of virtual_excep) refl)
handler-Ends ctrl_prot_excep handler e =
    subst (Ends (message_of ctrl_prot_excep)) (some_injective e)
      (raise-Ends (message_of ctrl_prot_excep) refl)
handler-Ends irq_pit handler e = absurd (cc (e))
handler-Ends irq_keyboard handler e = absurd (cc (e))
handler-Ends irq_rtc handler e = absurd (cc (e))
handler-Ends system_call handler e = absurd (cc (e))

-- Every exception handler, called while process `p` runs, writes its own message, all of it, to the terminal, and ends the
-- process as `halt` with status 255: a process without a parent starts anew at the entry point and the stack of its control block; otherwise the `execute` that
-- started it returns 255 to the parent, its number is free and the parent runs on the terminal with its own memory and its own kernel stack.
pub exception_handler_lem :
    (l : Label) (handler : ℕ → Cpu → Console → Kernel → Option (Console × (Outcome × Kernel)))
    (message : ℕ) (cpu : Cpu) (c : Console) (k : Kernel) (p : ℕ)
    → exception_handler l ≡ some handler
    → IsScheduled k
    → Runs p k
    → InStack p cpu.esp
    → (handler message cpu c k
        ≡ some (
          (terminal_write message (length (message_of l)) (record c {
            mem = place c.mem message (message_of l);
            tables = k.tables;
            terminal_num = k.terminal_num;
          })).1,
          halt cpu 255 k,
        ))
      × HaltResult p cpu 255 k (halt cpu 255 k)
exception_handler_lem l handler message cpu c k p e scheduled runs within =
    (handler-Ends l handler e message cpu c k, halt_lem cpu 255 k p scheduled runs within)

-- The keyboard's interrupt is acknowledged once, before the key is handled.
irq_keyboard_handler_lem :
    (page_table_at video_table_at temp : ℕ) (beyond : ℕ → ℕ) (scan : ℕ) (pic : Pic) (c : Console)
    → irq_keyboard_handler page_table_at video_table_at temp beyond scan pic c
      ≡ some (
        record pic { writes = pic.writes ++ (outb 0x61 0x20 ∷ []) },
        keyboard_handler_main page_table_at video_table_at temp beyond scan c,
      )
unfolding irq_keyboard_handler
irq_keyboard_handler_lem page_table_at video_table_at temp beyond scan pic c =
    >>=-some _ (send_eoi_master 1 pic (omega arith))

-- The timer's interrupt is acknowledged by its handler and again by `pit_handler`.
irq_pit_handler_lem :
    (scan fuel : ℕ) (loc : Locals) (shell : ℕ) (cpu inner : Cpu) (k : Kernel)
    → irq_pit_handler scan fuel loc shell cpu inner k
      ≡ pit_handler scan fuel loc shell cpu inner
          (record k { pic = record k.pic { writes = k.pic.writes ++ (outb 0x60 0x20 ∷ []) } })
unfolding irq_pit_handler
irq_pit_handler_lem scan fuel loc shell cpu inner k =
    >>=-some _ (send_eoi_master 0 k.pic (omega arith))
