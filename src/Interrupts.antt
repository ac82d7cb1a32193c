-- ===== src/Interrupts.antt =====
-- interrupt_handler.c, idt.c and the `SYSTEM_CALL` wrapper of isr_wrapper.S: what the processor runs on an
-- exception, an interrupt or a system call.
pub mod Handlers
pub mod Gates
pub mod Calls
mod Tests
use judd_os.Prelude.{
  ℕ, zero, suc, ◌+◌, ◌-◌, ◌/◌, ◌%◌, ◌^◌, List, [], ◌∷◌, length, Option, none, some, ◌>>=◌,
  if◌then◌else◌, ◌||◌, ltb, get_elem?,
}
use judd_os.Prelude.Word.{fail, is_negative, sub32}
use judd_os.Prelude.Text.{codes}
use judd_os.Prelude.Memory.{Memory, store}
use judd_os.CString.{strlen}
use judd_os.Pic.{Pic, send_eoi}
use judd_os.Keyboard.{keyboard_handler_main}
use judd_os.Paging.{put}
use judd_os.Terminal.{Console, terminal_write}
use judd_os.Process.{Kernel, Cpu, Locals, Outcome, halt, pit_handler}

-- The bytes of a literal and its zero, written to the array at `a`.
unfoldable pub place : Memory → ℕ → List ℕ → Memory
place m a [] = store m a 0
place m a (c ∷ rest) = place (store m a c) (a + 1) rest

-- An exception handler with this message. `message` is the address of its array; what it writes to the screen does not return,
-- since `halt` does not. The two records share the page tables and the number of the terminal.
raise : List ℕ → ℕ → Cpu → Console → Kernel → Option (Console × (Outcome × Kernel))
unfolding place
raise text message cpu c k = do
  len ← strlen (length text + 1) (place c.mem message text) message
  some (
    (terminal_write message len (record c {
      mem = place c.mem message text;
      tables = k.tables;
      terminal_num = k.terminal_num;
    })).1,
    halt cpu 255 k,
  )

abbrev page_fault_handler : ℕ → Cpu → Console → Kernel → Option (Console × (Outcome × Kernel))
page_fault_handler = raise (codes "PFAULT ERROR\n")

abbrev div_by_zero_handler : ℕ → Cpu → Console → Kernel → Option (Console × (Outcome × Kernel))
div_by_zero_handler = raise (codes "DIV_BY_ZERO_ERROR\n")

abbrev single_step_int_handler : ℕ → Cpu → Console → Kernel → Option (Console × (Outcome × Kernel))
single_step_int_handler = raise (codes "SINGLE_STEP_INT_ERROR\n")

abbrev nmi_handler : ℕ → Cpu → Console → Kernel → Option (Console × (Outcome × Kernel))
nmi_handler = raise (codes "NMI_ERROR\n")

abbrev breakpoint_handler : ℕ → Cpu → Console → Kernel → Option (Console × (Outcome × Kernel))
breakpoint_handler = raise (codes "BREAKPOINT(INT3)_ERROR\n")

abbrev overflow_handler : ℕ → Cpu → Console → Kernel → Option (Console × (Outcome × Kernel))
overflow_handler = raise (codes "OVERFLOW(INTO)_ERROR\n")

abbrev bounds_handler : ℕ → Cpu → Console → Kernel → Option (Console × (Outcome × Kernel))
bounds_handler = raise (codes "BOUNDS_ERROR\n")

abbrev invalid_opcode_handler : ℕ → Cpu → Console → Kernel → Option (Console × (Outcome × Kernel))
invalid_opcode_handler = raise (codes "INVALID_OPCODE(UD2)_ERROR\n")

abbrev coprocessor_na_handler : ℕ → Cpu → Console → Kernel → Option (Console × (Outcome × Kernel))
coprocessor_na_handler = raise (codes "COPROCESSOR_NA_ERROR\n")

abbrev double_fault_handler : ℕ → Cpu → Console → Kernel → Option (Console × (Outcome × Kernel))
double_fault_handler = raise (codes "DOUBLE_FAULT_ERROR\n")

abbrev coprocessor_so_handler : ℕ → Cpu → Console → Kernel → Option (Console × (Outcome × Kernel))
coprocessor_so_handler = raise (codes "COPROCESSOR_SO_ERROR\n")

abbrev invalid_tss_handler : ℕ → Cpu → Console → Kernel → Option (Console × (Outcome × Kernel))
invalid_tss_handler = raise (codes "INVALID_TSS_ERROR\n")

abbrev seg_not_present_handler : ℕ → Cpu → Console → Kernel → Option (Console × (Outcome × Kernel))
seg_not_present_handler = raise (codes "SEG_NOT_PRESENT_ERROR\n")

abbrev stack_fault_handler : ℕ → Cpu → Console → Kernel → Option (Console × (Outcome × Kernel))
stack_fault_handler = raise (codes "STACK_FAULT_ERROR\n")

abbrev general_pfault_handler : ℕ → Cpu → Console → Kernel → Option (Console × (Outcome × Kernel))
general_pfault_handler = raise (codes "GENERAL_PFAULT_ERROR\n")

abbrev reserved_handler : ℕ → Cpu → Console → Kernel → Option (Console × (Outcome × Kernel))
reserved_handler = raise (codes "RESERVED_ERROR\n")

abbrev math_fault_handler : ℕ → Cpu → Console → Kernel → Option (Console × (Outcome × Kernel))
math_fault_handler = raise (codes "MATH_FAULT\n")

abbrev alignment_check_handler : ℕ → Cpu → Console → Kernel → Option (Console × (Outcome × Kernel))
alignment_check_handler = raise (codes "ALIGNMENT_CHECK_ERROR\n")

abbrev machine_check_handler : ℕ → Cpu → Console → Kernel → Option (Console × (Outcome × Kernel))
machine_check_handler = raise (codes "MACHINE_CHECK_ERROR\n")

abbrev simd_fp_excep_handler : ℕ → Cpu → Console → Kernel → Option (Console × (Outcome × Kernel))
simd_fp_excep_handler = raise (codes "SIMD_FP_EXCEPTION\n")

abbrev virtual_excep_handler : ℕ → Cpu → Console → Kernel → Option (Console × (Outcome × Kernel))
virtual_excep_handler = raise (codes "VIRTUALIZATION_EXCEPTION\n")

abbrev ctrl_prot_excep_handler : ℕ → Cpu → Console → Kernel → Option (Console × (Outcome × Kernel))
ctrl_prot_excep_handler = raise (codes "CONTROL_PROTECTION_EXCEPTION\n")

-- The labels of isr_wrapper.S.
pub data Label : Type 0 where
  div_by_zero single_step_int nmi breakpoint : Label
  overflow bounds invalid_opcode coprocessor_na : Label
  double_fault coprocessor_so invalid_tss seg_not_present : Label
  stack_fault general_pfault page_fault reserved : Label
  math_fault alignment_check machine_check simd_fp_excep : Label
  virtual_excep ctrl_prot_excep : Label
  irq_pit irq_keyboard irq_rtc system_call : Label

-- The handlers that the wrappers of the exceptions call.
pub exception_handler :
    Label → Option (ℕ → Cpu → Console → Kernel → Option (Console × (Outcome × Kernel)))
exception_handler div_by_zero = some div_by_zero_handler
exception_handler single_step_int = some single_step_int_handler
exception_handler nmi = some nmi_handler
exception_handler breakpoint = some breakpoint_handler
exception_handler overflow = some overflow_handler
exception_handler bounds = some bounds_handler
exception_handler invalid_opcode = some invalid_opcode_handler
exception_handler coprocessor_na = some coprocessor_na_handler
exception_handler double_fault = some double_fault_handler
exception_handler coprocessor_so = some coprocessor_so_handler
exception_handler invalid_tss = some invalid_tss_handler
exception_handler seg_not_present = some seg_not_present_handler
exception_handler stack_fault = some stack_fault_handler
exception_handler general_pfault = some general_pfault_handler
exception_handler page_fault = some page_fault_handler
exception_handler reserved = some reserved_handler
exception_handler math_fault = some math_fault_handler
exception_handler alignment_check = some alignment_check_handler
exception_handler machine_check = some machine_check_handler
exception_handler simd_fp_excep = some simd_fp_excep_handler
exception_handler virtual_excep = some virtual_excep_handler
exception_handler ctrl_prot_excep = some ctrl_prot_excep_handler
exception_handler irq_pit = none
exception_handler irq_keyboard = none
exception_handler irq_rtc = none
exception_handler system_call = none

irq_pit_handler : ℕ → ℕ → Locals → ℕ → Cpu → Cpu → Kernel → Option (Outcome × Kernel)
irq_pit_handler scan fuel loc shell cpu inner k = do
  pic ← send_eoi 0 k.pic
  pit_handler scan fuel loc shell cpu inner (record k { pic = pic })

-- On the controllers and the console; `scan` is the byte from the keyboard's port, the other parameters are those of
-- `keyboard_handler_main`.
irq_keyboard_handler : ℕ → ℕ → ℕ → (ℕ → ℕ) → ℕ → Pic → Console → Option (Pic × Console)
irq_keyboard_handler page_table_at video_table_at temp beyond scan pic c = do
  pic' ← send_eoi 1 pic
  some (pic', keyboard_handler_main page_table_at video_table_at temp beyond scan c)
