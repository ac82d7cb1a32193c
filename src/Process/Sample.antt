-- ===== src/Process/Sample.antt =====
-- A kernel with a file system of one program, "a", before and after processes start on its terminals.
use judd_os.Prelude.{ℕ, ◌-◌, ◌<◌, ◌≡◌, ◌≢◌, arith, refl, if◌then◌else◌, ◌==◌, []}
use judd_os.Prelude.Memory.{Memory}
use judd_os.Paging.{put, pde_of_val, pte_of_val, set_process_memory}
use judd_os.Process.{Kernel, Locals, Cpu, Pcb, stack_top, start_process, next_terminal}
use judd_os.Process.Setup.{Claimed}
use judd_os.Process.Start.{start_process_lem}
use judd_os.Process.Consistent.{IsScheduled, Runs}
use judd_os.Process.Tick.{next_terminal_lem}
use judd_os.Process.Steps.{IsBooted, booted-IsScheduled}

-- The command "a b" is at 100. The file has 44 bytes; its entry point is 0x08048100.
abbrev pub image : Memory
image x =
    if x == 100
    then 97
    else if x == 101
    then 32
    else if x == 102
    then 98
    else if x == 65600
    then 97
    else if x == 65632
    then 2
    else if x == 69632
    then 44
    else if x == 73728
    then 0x7f
    else if x == 73729
    then 0x45
    else if x == 73730
    then 0x4c
    else if x == 73731
    then 0x46
    else if x == 73753
    then 0x81
    else if x == 73754
    then 4
    else if x == 73755
    then 8
    else 0

abbrev blank_pcb : Pcb
blank_pcb = record {
  parent = 0;
  pid = 0;
  tid = 0;
  esp0 = 0;
  ebp = 0;
  eip = 0;
  esp = 0;
  fds = [];
  args_size = 0;
}

abbrev pub boot : Kernel
boot = record {
  fs = record {
    mem = image;
    filesystem_addr = 65536;
    num_dentries = 1;
    num_inodes = 1;
    num_datablocks = 1;
    file_index = 0;
    opened_file = 1000;
    reserved = 2000;
  };
  pic = record { master_mask = 0; slave_mask = 0; writes = [] };
  tables = record {
    page_directory_entry = λ i. pde_of_val 0;
    page_table_entry = λ i. pte_of_val 0;
    page_table_entry_for_video = λ i. pte_of_val 0;
  };
  pid_bits = λ i. 0;
  pcbs = λ a. blank_pcb;
  terminals = λ t. record { active = 0; most_recent_pcb = 0; ebp = 0; esp0 = 0 };
  terminal_num = 0;
  tss_esp0 = 0x800000;
  available_pid = 0;
  size_of_args = 0;
}

pub boot-IsBooted : IsBooted boot
boot-IsBooted = record { terminal = omega arith; unused = λ p h. refl; inactive = λ t h. refl }

abbrev pub locals : Locals
locals = record { fname = 200; args = 300; exe_check = 400 }

-- The registers in the kernel stack of a process.
abbrev pub cpu_of : ℕ → Cpu
cpu_of pid = record { esp = stack_top pid - 100; ebp = stack_top pid - 60; eflags = 2 }

abbrev claim : ℕ → Kernel → Kernel
claim pid k = record k {
  available_pid = pid;
  pid_bits = put pid 1 k.pid_bits;
  tables = set_process_memory pid k.tables;
}

claim-Claimed :
    (pid : ℕ) (k : Kernel)
    → pid < 6
    → k.pid_bits pid ≢ 1
    → ((j : ℕ) → j < pid → k.pid_bits j ≡ 1)
    → Claimed k (claim pid k)
claim-Claimed pid k small free first = record {
  small = small;
  free = free;
  first = first;
  pid_bits = refl;
  tables = refl;
  pcbs = refl;
  terminals = refl;
  terminal_num = refl;
  tss_esp0 = refl;
}

abbrev start : ℕ → Kernel → Kernel
start pid k = (start_process (cpu_of pid) 0x08048100 (claim pid k)).1

-- A process on each terminal, and then a child of the third.
abbrev pub one : Kernel
one = start 0 boot

abbrev pub two : Kernel
two = start 1 (next_terminal (cpu_of 0) one)

abbrev pub three : Kernel
three = start 2 (next_terminal (cpu_of 1) two)

abbrev pub four : Kernel
four = (start_process (cpu_of 2) 0x08048100 (claim 3 three)).1

pub one_state : IsScheduled one × Runs 0 one
one_state =
    start_process_lem boot (cpu_of 0) 0x08048100 (claim 0 boot)
      (booted-IsScheduled boot boot-IsBooted)
      (claim-Claimed 0 boot (omega arith) (λ e. omega (arith, e))
        (λ j h. absurd (omega (arith, h))))
      (λ on. absurd (on refl))

pub two_state : IsScheduled two × Runs 1 two
unfolding next_terminal start_process put
two_state =
    let k = next_terminal (cpu_of 0) one in
    start_process_lem k (cpu_of 1) 0x08048100 (claim 1 k)
      (next_terminal_lem (cpu_of 0) one 0 one_state.0 one_state.1).0
      (claim-Claimed 1 k (omega arith) (λ e. omega (arith, e)) (λ j h. ground arith))
      (λ on. absurd (on refl))

pub three_state : IsScheduled three × Runs 2 three
unfolding next_terminal start_process put
three_state =
    let k = next_terminal (cpu_of 1) two in
    start_process_lem k (cpu_of 2) 0x08048100 (claim 2 k)
      (next_terminal_lem (cpu_of 1) two 1 two_state.0 two_state.1).0
      (claim-Claimed 2 k (omega arith) (λ e. omega (arith, e)) (λ j h. ground arith))
      (λ on. absurd (on refl))

pub four_state : IsScheduled four × Runs 3 four
unfolding next_terminal start_process put
four_state =
    start_process_lem three (cpu_of 2) 0x08048100 (claim 3 three) three_state.0
      (claim-Claimed 3 three (omega arith) (λ e. omega (arith, e)) (λ j h. ground arith))
      (λ on. (2, three_state.1, (omega arith, omega arith)))

pub three_active : (t : ℕ) → t < 3 → (three.terminals t).active ≢ 0
unfolding next_terminal start_process put
three_active t low = ground (arith, low)
