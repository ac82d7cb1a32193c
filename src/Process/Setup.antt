-- ===== src/Process/Setup.antt =====
-- `execute_setup` either fails and leaves the processes alone, or claims the first free number.
use judd_os.Prelude.{
  ℕ, zero, suc, ◌+◌, ◌<◌, ◌≤◌, ◌≡◌, ◌≢◌, ◌⊎◌, ◌∙◌, ap, arith, refl, inl, inr, some, ◌==◌, if_split,
  ==_iff, subst, some_injective, >>=-eq-some, not, ◌||◌,
}
use judd_os.Prelude.Word.{fail}
use judd_os.Paging.{put, set_process_memory}
use judd_os.FileSystem.{Fs, file_open, read_data}
use judd_os.Process.Consistent.{eq_or_ne}
use judd_os.Process.{
  Kernel, Locals, find_pid, claim_pid, check_magic, open_program, execute_setup, has_magic,
  parse_name, opened_inode,
}

-- The same processes: only the file system and the variables that pass values inside `execute` may differ.
pub record SameProcesses (k k' : Kernel) : Type 0 where
  pub pid_bits : k'.pid_bits ≡ k.pid_bits
  pub tables : k'.tables ≡ k.tables
  pub pcbs : k'.pcbs ≡ k.pcbs
  pub terminals : k'.terminals ≡ k.terminals
  pub terminal_num : k'.terminal_num ≡ k.terminal_num
  pub tss_esp0 : k'.tss_esp0 ≡ k.tss_esp0

-- The first number that is not in use is claimed, and its memory is mapped.
pub record Claimed (k k' : Kernel) : Type 0 where
  pub small : k'.available_pid < 6
  pub free : k.pid_bits k'.available_pid ≢ 1
  pub first : (j : ℕ) → j < k'.available_pid → k.pid_bits j ≡ 1
  pub pid_bits : k'.pid_bits ≡ put k'.available_pid 1 k.pid_bits
  pub tables : k'.tables ≡ set_process_memory k'.available_pid k.tables
  pub pcbs : k'.pcbs ≡ k.pcbs
  pub terminals : k'.terminals ≡ k.terminals
  pub terminal_num : k'.terminal_num ≡ k.terminal_num
  pub tss_esp0 : k'.tss_esp0 ≡ k.tss_esp0

pub find_pid_lem :
    (left i : ℕ) (bits : ℕ → ℕ)
    → (i ≤ find_pid left i bits)
      × (find_pid left i bits ≤ i + left)
      × ((j : ℕ) → i ≤ j → j < find_pid left i bits → bits j ≡ 1)
      × (find_pid left i bits < i + left → bits (find_pid left i bits) ≢ 1)
unfolding find_pid
find_pid_lem zero i bits = (
  omega arith,
  omega arith,
  λ j h l. absurd (omega (arith, h, l)),
  λ h. absurd (omega (arith, h)),
)
find_pid_lem (suc left) i bits =
    let (low, high, before, after) = find_pid_lem left (i + 1) bits in
    if_split
      (λ r.
        (i ≤ r)
        × (r ≤ i + suc left)
        × ((j : ℕ) → i ≤ j → j < r → bits j ≡ 1)
        × (r < i + suc left → bits r ≢ 1))
      (bits i == 1)
      (λ taken. (
        omega (arith, low),
        omega (arith, high),
        λ j h l. (elim (eq_or_ne j i) [
          | inl e ↦ ap bits e ∙ ((==_iff (bits i) 1).0 taken)
          | inr ne ↦ before j (omega (arith, h, ne)) l
        ]),
        λ h. after (omega (arith, h)),
      ))
      (λ free. (
        omega arith,
        omega arith,
        λ j h l. absurd (omega (arith, h, l)),
        λ h. ground (arith, free),
      ))

-- What `execute_setup` leaves, when it returns.
abbrev pub SetupResult : Kernel → ℕ × Kernel → Type 0
SetupResult k (ret, k') = ((ret ≡ fail) × SameProcesses k k') ⊎ ((ret ≡ 0) × Claimed k k')

same : (k : Kernel) → SameProcesses k k
same k = record {
  pid_bits = refl;
  tables = refl;
  pcbs = refl;
  terminals = refl;
  terminal_num = refl;
  tss_esp0 = refl;
}

claim_pid_lem : (k : Kernel) → SetupResult k (claim_pid k)
unfolding claim_pid
claim_pid_lem k =
    let (low, high, before, after) = find_pid_lem 6 0 k.pid_bits in
    if_split (SetupResult k) (find_pid 6 0 k.pid_bits == 6) (λ full. inl (refl, same k))
      (λ found.
        (let less : find_pid 6 0 k.pid_bits < 6 = ground (arith, found, high) in
          inr (
            refl,
            record {
              small = less;
              free = after less;
              first = λ j h. before j (omega arith) h;
              pid_bits = refl;
              tables = refl;
              pcbs = refl;
              terminals = refl;
              terminal_num = refl;
              tss_esp0 = refl;
            },
          )))

check_magic_lem : (loc : Locals) (ret : ℕ) (k : Kernel) → SetupResult k (check_magic loc ret k)
unfolding check_magic
check_magic_lem loc ret k =
    if_split (SetupResult k) (ret == fail) (λ bad. inl (refl, same k))
      (λ good.
        if_split (SetupResult k) (not (has_magic k.fs.mem loc.exe_check))
          (λ bad. inl (refl, same k)) (λ good. claim_pid_lem k))

-- A change of the file system and of `size_of_args` before does not matter.
pub SetupResult-fs :
    (k : Kernel) (fs : Fs) (size : ℕ) (r : ℕ × Kernel)
    → SetupResult (record k { fs = fs; size_of_args = size }) r
    → SetupResult k r
SetupResult-fs k fs size (ret, k') (inl (bad, s)) = inl (
  bad,
  record {
    pid_bits = s.pid_bits;
    tables = s.tables;
    pcbs = s.pcbs;
    terminals = s.terminals;
    terminal_num = s.terminal_num;
    tss_esp0 = s.tss_esp0;
  },
)
SetupResult-fs k fs size (ret, k') (inr (good, c)) = inr (
  good,
  record {
    small = c.small;
    free = c.free;
    first = c.first;
    pid_bits = c.pid_bits;
    tables = c.tables;
    pcbs = c.pcbs;
    terminals = c.terminals;
    terminal_num = c.terminal_num;
    tss_esp0 = c.tss_esp0;
  },
)

open_program_lem :
    (scan fuel : ℕ) (loc : Locals) (k : Kernel) (r : ℕ × Kernel)
    → open_program scan fuel loc k ≡ some r
    → SetupResult k r
unfolding open_program
open_program_lem scan fuel loc k r e =
    let ((size, fs1), e1, f1) = >>=-eq-some (file_open scan k.fs loc.fname) _ e in
    let ((ret, fs2), e2, f2) =
      >>=-eq-some (read_data fuel fs1 (opened_inode fs1) 0 loc.exe_check 4) _ f1 in
    subst (SetupResult k) (some_injective f2)
      (SetupResult-fs k fs2 k.size_of_args _ (check_magic_lem loc ret (record k { fs = fs2 })))

-- When `execute_setup` returns, either it returns -1 and the process numbers, the page tables, the control blocks, the
-- terminals and the task state are as before; or it returns 0, the smallest number not in use, which is below 6, is marked
-- as used and has its memory mapped, and the rest is as before.
pub execute_setup_lem :
    (scan fuel : ℕ) (loc : Locals) (command len : ℕ) (k : Kernel) (r : ℕ × Kernel)
    → execute_setup scan fuel loc command len k ≡ some r
    → SetupResult k r
unfolding execute_setup
execute_setup_lem scan fuel loc command len k r e =
    let parsed = parse_name len k.fs.mem command loc 0 in
    let fs = record k.fs { mem = parsed.mem } in
    let k' = record k { fs = fs; size_of_args = parsed.size_of_args } in
    if_split (λ o. o ≡ some r → SetupResult k r)
      ((command == 0) || ((k.fs.mem command == 0) || (k.fs.mem command == 32)))
      (λ bad f. subst (SetupResult k) (some_injective f) (inl (refl, same k)))
      (λ good.
        if_split (λ o. o ≡ some r → SetupResult k r) (not parsed.ok)
          (λ bad f.
            subst (SetupResult k) (some_injective f)
              (SetupResult-fs k fs parsed.size_of_args _ (inl (refl, same k'))))
          (λ good f.
            SetupResult-fs k fs parsed.size_of_args r (open_program_lem scan fuel loc k' r f)))
      e
