-- ===== src/Process/Tests.antt =====
-- Runs of the process functions.
use judd_os.Prelude.{
  ℕ, ◌+◌, ◌-◌, ◌%◌, ◌<◌, ◌≡◌, ◌≢◌, ◌∙◌, ap, arith, refl, inl, [], ◌∷◌, Option, none, some,
  if◌then◌else◌, inr, ◌==◌,
}
use judd_os.Prelude.Word.{fail}
use judd_os.Prelude.Memory.{store, load32, store32, Memory}
use judd_os.Pic.{send_eoi}
use judd_os.Task.{free_fd}
use judd_os.Paging.{put}
use judd_os.FileSystem.{
  read_dentry_by_name, find_dentry, file_open, read_data, read_loop, copy_dentry, same_name,
  clear_dentry,
}
use judd_os.Block.{memcpy, memset}
use judd_os.CString.{strlen, strcpy, strncmp}
use judd_os.Process.{
  Kernel, Outcome, entered, returned, resumed, switched, Iret, pcb_at, stack_top, get_curr_pcb,
  find_pid, claim_pid, check_magic, open_program, execute_setup, load_process, execute, halt,
  pit_handler, parse_name, parse_args, fill_pcb, clear_fds, execute_cswitch, pit_end, after_shell,
  start_process, adopt, next_terminal,
}
use judd_os.Process.Stack.{InStack, get_curr_pcb_lem}
use judd_os.Process.Parse.{parse_name_lem, Words, Line}
use judd_os.FileSystem.Lookup.{IsQuery}
use judd_os.Process.Returns.{execute_setup_returns}
use judd_os.Process.Setup.{SetupResult}
use judd_os.Process.Consistent.{Runs}
use judd_os.Process.Switch.{halt_lem, HaltResult}
use judd_os.Process.RoundRobin.{round_robin}
use judd_os.Process.Steps.{
  Reached, first, after, ticks, IsIsolated, Reached-IsIsolated, booted-IsScheduled,
}
use judd_os.Process.Launch.{start_word, inode_of}
use judd_os.Process.Launch.Run.{Launched, execute_runs}
use judd_os.Process.Launch.Tick.{pit_handler_starts}
use judd_os.Process.Launch.Sample.{boot-IsLaunch, one-IsLaunch, one_next}
use judd_os.Process.Sample.{
  boot, boot-IsBooted, image, locals, cpu_of, three, one, one_state, four, three_state,
  three_active, four_state,
}

abbrev result_or : Option (Outcome × Kernel) → Outcome × Kernel
result_or none = (returned fail, boot)
result_or (some r) = r

abbrev first_run : Outcome × Kernel
first_run = result_or (execute 64 64 locals (cpu_of 0) 100 boot)

abbrev no_frame : Iret
no_frame = record { eip = 0; cs = 0; eflags = 0; esp = 0; ss = 0 }

abbrev frame_of : Outcome → Iret
frame_of (returned v) = no_frame
frame_of (entered f) = f
frame_of (resumed a b) = no_frame
frame_of (switched b) = no_frame

with_outcome :
    (o : Option (Outcome × Kernel)) (r : Outcome × Kernel) (out : Outcome)
    → o ≡ some r
    → r.0 ≡ out
    → o ≡ some (out, r.1)
with_outcome o r out e f = e ∙ ap (λ out. some (out, r.1)) f

first_ends : execute 64 64 locals (cpu_of 0) 100 boot ≡ some first_run
unfolding execute load_process execute_setup parse_name parse_args open_program check_magic
    claim_pid find_pid strlen strcpy memset file_open read_data read_dentry_by_name find_dentry
    same_name read_loop copy_dentry clear_dentry memcpy strncmp store load32 store32
first_ends = refl

first_enters : first_run.0 ≡ entered (frame_of first_run.0)
unfolding execute load_process execute_setup parse_name parse_args open_program check_magic
    claim_pid find_pid strlen strcpy memset file_open read_data read_dentry_by_name find_dentry
    same_name read_loop copy_dentry clear_dentry memcpy strncmp store load32 store32 start_process
    execute_cswitch
first_enters = refl

first_runs :
    execute 64 64 locals (cpu_of 0) 100 boot ≡ some (entered (frame_of first_run.0), first_run.1)
first_runs = with_outcome _ first_run _ first_ends first_enters

-- The entry point of the program is where it starts.
first_eip : (frame_of first_run.0).eip ≡ 0x08048100
unfolding execute load_process execute_setup parse_name parse_args open_program check_magic
    claim_pid find_pid strlen strcpy memset file_open read_data read_dentry_by_name find_dentry
    same_name read_loop copy_dentry clear_dentry memcpy strncmp store load32 store32 start_process
    execute_cswitch adopt fill_pcb get_curr_pcb put
first_eip = refl

abbrev tick_run : Outcome × Kernel
tick_run = result_or (pit_handler 64 64 locals 100 (cpu_of 0) (cpu_of 0) first_run.1)

tick_ends : pit_handler 64 64 locals 100 (cpu_of 0) (cpu_of 0) first_run.1 ≡ some tick_run
unfolding execute load_process execute_setup parse_name parse_args open_program check_magic
    claim_pid find_pid strlen strcpy memset file_open read_data read_dentry_by_name find_dentry
    same_name read_loop copy_dentry clear_dentry memcpy strncmp store load32 store32 pit_handler
    pit_end next_terminal after_shell send_eoi start_process execute_cswitch adopt fill_pcb
    get_curr_pcb put
tick_ends = refl

tick_enters : tick_run.0 ≡ entered (frame_of tick_run.0)
unfolding execute load_process execute_setup parse_name parse_args open_program check_magic
    claim_pid find_pid strlen strcpy memset file_open read_data read_dentry_by_name find_dentry
    same_name read_loop copy_dentry clear_dentry memcpy strncmp store load32 store32 pit_handler
    pit_end next_terminal after_shell send_eoi start_process execute_cswitch put
tick_enters = refl

tick_runs :
    pit_handler 64 64 locals 100 (cpu_of 0) (cpu_of 0) first_run.1
    ≡ some (entered (frame_of tick_run.0), tick_run.1)
tick_runs = with_outcome _ tick_run _ tick_ends tick_enters

not_switched : (f : Iret) (j : ℕ) → entered f ≢ switched j
not_switched f j e = cc (e)

-- The first shell starts, and the first interrupt starts the second.
reached : Reached tick_run.1
reached =
    after first_run.1 tick_run.1
      (first boot first_run.1 64 64 locals (cpu_of 0) 100 (frame_of first_run.0) boot-IsBooted
        first_runs)
      (ticks 64 64 locals 100 (cpu_of 0) (cpu_of 0) (entered (frame_of tick_run.0))
        (λ j e. absurd (not_switched (frame_of tick_run.0) j e)) tick_runs)

Reached-IsIsolated_example : IsIsolated tick_run.1
Reached-IsIsolated_example = Reached-IsIsolated reached

halt_lem_example : HaltResult 3 (cpu_of 3) 7 four (halt (cpu_of 3) 7 four)
halt_lem_example = halt_lem (cpu_of 3) 7 four 3 four_state.0 four_state.1 (omega arith, omega arith)

round_robin_example :
    (k1 : Kernel) × (k2 : Kernel) × (k3 : Kernel) × (pit_handler 64 64 locals 100
        (cpu_of 2)
        (cpu_of 0)
        three
      ≡ some (switched (three.terminals ((three.terminal_num + 1) % 3)).ebp, k1))
    × (pit_handler 64 64 locals 100 (cpu_of 0) (cpu_of 0) k1
        ≡ some (switched (three.terminals ((three.terminal_num + 2) % 3)).ebp, k2))
    × (pit_handler 64 64 locals 100 (cpu_of 1) (cpu_of 0) k2 ≡ some (switched (cpu_of 2).ebp, k3))
    × (k3.terminal_num ≡ three.terminal_num)
    × Runs 2 k3
round_robin_example =
    round_robin 64 64 locals 100 (cpu_of 2) (cpu_of 0) (cpu_of 1) (cpu_of 0) three 2 three_state.0
      three_state.1 three_active

get_curr_pcb_lem_example :
    (get_curr_pcb (stack_top 2 - 100) ≡ pcb_at 2)
    × (get_curr_pcb (stack_top 2) ≡ pcb_at 2)
    × (pcb_at 2 + 284 < stack_top 2)
    × ((other : ℕ) → other < 6 → InStack other (stack_top 2 - 100) → other ≡ 2)
get_curr_pcb_lem_example =
    get_curr_pcb_lem 2 (stack_top 2 - 100) (omega arith) (omega arith, omega arith)

-- The name is "a", the argument "b".
line : Line image (100 + 0) 1 1 1
line = record {
  name_goes = λ j h. ground (arith, h);
  name_plain = λ j h. ground (arith, h);
  space = refl;
  arguments = record { fits = omega arith; goes = λ j h. ground (arith, h); ends = inl refl };
}

parse_name_lem_example : Words image (parse_name 3 image 100 locals 0) (200 + 0) 300 (100 + 0) 1 1
parse_name_lem_example =
    parse_name_lem 1 1 image 100 locals 0 1 line (omega arith) (inl (omega arith))
      (inl (omega arith)) (inl (omega arith))

clears : clear_fds 8 0 (free_fd ∷ record free_fd { flags = 1 } ∷ []) ≡ free_fd ∷ free_fd ∷ []
unfolding clear_fds
clears = refl

-- The memory that the parser leaves.
abbrev ready : Memory
ready = (parse_name 3 image 100 locals 0).mem

abbrev entry_length : ℕ → ℕ
entry_length i = if i == 0 then 1 else 0

ready-IsQuery : IsQuery 64 (record boot.fs { mem = ready }) 200 1 1000
unfolding parse_name parse_args store
ready-IsQuery = record {
  bytes = λ x. ground arith;
  dir = record {
    lens = entry_length;
    strings = λ i h. record { ends = ground arith; before = λ j p. ground arith };
    short = λ i h. ground arith;
    enough = omega arith;
  };
  not_null = λ e. omega (arith, e);
  dir_apart = inr (omega arith);
  name = record { ends = refl; before = λ i h. ground arith };
  name_apart = inl (omega arith);
  name_short = omega arith;
}

execute_setup_returns_example :
    (r : ℕ × Kernel) × (execute_setup 64 2 locals 100 3 boot ≡ some r) × SetupResult boot r
execute_setup_returns_example = execute_setup_returns 64 0 locals 100 3 1 boot ready-IsQuery

execute_runs_example :
    (f : Iret) × (k' : Kernel) × (execute 64 1025 locals (cpu_of 0) 100 boot ≡ some (entered f, k'))
    × (f.eip ≡ start_word boot.fs (inode_of boot.fs 0))
    × (f.esp ≡ 0x08000000 + 0x00400000 - 4)
    × Launched boot.fs k' 0 100 1 1 0 0
execute_runs_example =
    execute_runs 64 1025 100000 100 3 1 1 0 0 locals (cpu_of 0) boot boot-IsLaunch (omega arith)
      (booted-IsScheduled boot boot-IsBooted) (λ on. absurd (on refl))

pit_handler_starts_example :
    (f : Iret) × (k' : Kernel) × (pit_handler 64 1025 locals 100 (cpu_of 0) (cpu_of 0) one
      ≡ some (entered f, k'))
    × (f.eip ≡ start_word one.fs (inode_of one.fs 0))
    × Launched one.fs k' ((one.terminal_num + 1) % 3) 100 1 1 0 1
pit_handler_starts_example =
    pit_handler_starts 64 1025 100000 100 3 1 1 0 1 0 locals (cpu_of 0) (cpu_of 0) one one-IsLaunch
      (omega arith) one_state.0 one_state.1 one_next
