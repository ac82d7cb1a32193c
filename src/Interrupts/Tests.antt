-- ===== src/Interrupts/Tests.antt =====
-- Runs of the handlers and of the table.
use judd_os.Prelude.{
  none, ℕ, ◌<◌, ◌≤◌, ◌≡◌, ◌≢◌, ◌⊎◌, arith, refl, length, Option, some, if◌then◌else◌,
}
use judd_os.Prelude.Word.{fail, is_negative}
use judd_os.Terminal.{terminal_write}
use judd_os.Terminal.Sample.{three}
use judd_os.Process.{halt}
use judd_os.Process.Switch.{HaltResult}
use judd_os.Process.Sample.{four, four_state, cpu_of}
use judd_os.Interrupts.{Label, page_fault, page_fault_handler, exception_handler, place}
use judd_os.Interrupts.Handlers.{message_of, exception_handler_lem}
use judd_os.Interrupts.Gates.{IdtDesc, init_idt, init_idt_lem, IsGate, vector, gate_kind, gate_dpl}
use judd_os.Interrupts.Calls.{Call, number, system_call_wrapper, system_call_wrapper_lem}

abbrev blank_gate : IdtDesc
blank_gate = record {
  offset_15_00 = 0;
  seg_selector = 0;
  reserved4 = 0;
  reserved3 = 0;
  reserved2 = 0;
  reserved1 = 0;
  size = 0;
  reserved0 = 0;
  dpl = 0;
  present = 0;
  offset_31_16 = 0;
}

-- All wrappers at one address of the kernel's page.
abbrev address : Label → ℕ
address l = 0x401234

init_idt_lem_example :
    ((l : Label)
      → IsGate (init_idt address (λ v. blank_gate) (vector l)) 0x401234 (gate_kind l) (gate_dpl l))
    × ((v : ℕ) → ((l : Label) → v ≢ vector l) → init_idt address (λ v. blank_gate) v ≡ blank_gate)
init_idt_lem_example = init_idt_lem address (λ v. blank_gate) (λ l. omega arith)

-- Calls that give back their second argument.
abbrev echo : Call → ℕ → ℕ → ℕ → ℕ → Option (ℕ × ℕ)
echo f ebx ecx edx s = some (ecx, s)

abbrev sixth : ℕ
sixth = 6

system_call_wrapper_lem_example :
    (((sixth ≡ 0) ⊎ (10 < sixth))
      → system_call_wrapper echo sixth 1 0x80000000 3 4 ≡ some (fail, 4))
    × (0 < sixth → sixth ≤ 10 → (f : Call) × (number f ≡ sixth))
    × ((f : Call)
        → number f ≡ sixth
        → ((r : ℕ × ℕ)
            → echo f 1 0x80000000 3 4 ≡ some r
            → system_call_wrapper echo sixth 1 0x80000000 3 4
              ≡ some (if is_negative r.0 then fail else r.0, r.1))
          × (echo f 1 0x80000000 3 4 ≡ none
              → system_call_wrapper echo sixth 1 0x80000000 3 4 ≡ none))
system_call_wrapper_lem_example = system_call_wrapper_lem echo sixth 1 0x80000000 3 4 (omega arith)

exception_handler_lem_example :
    (page_fault_handler 700 (cpu_of 3) three four
      ≡ some (
        (terminal_write 700 (length (message_of page_fault)) (record three {
          mem = place three.mem 700 (message_of page_fault);
          tables = four.tables;
          terminal_num = four.terminal_num;
        })).1,
        halt (cpu_of 3) 255 four,
      ))
    × HaltResult 3 (cpu_of 3) 255 four (halt (cpu_of 3) 255 four)
unfolding exception_handler
exception_handler_lem_example =
    exception_handler_lem page_fault page_fault_handler 700 (cpu_of 3) three four 3 refl
      four_state.0 four_state.1 (omega arith, omega arith)
