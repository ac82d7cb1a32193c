-- ===== src/Process/Launch/Program.antt =====
-- `execute_setup` finds the program that the command names, checks its first bytes and claims a process number.
use judd_os.Prelude.{
  ℕ, ◌+◌, ◌<◌, ◌≤◌, ◌≡◌, ◌≢◌, ◌⊎◌, ◌∙◌, ap, subst, arith, inl, some, refl, if_false, ◌==◌, not,
  >>=-some, true,
}
use judd_os.Prelude.Memory.{Memory, load32}
use judd_os.Paging.{put, set_process_memory}
use judd_os.FileSystem.{file_open, read_data}
use judd_os.FileSystem.Frame.{Agree, with_mem, Agree-load32, ReadStep, read_step}
use judd_os.FileSystem.OpenStep.{
  OpenStep, open_step, directory_strings, SameName-moved, SameName-back,
}
use judd_os.FileSystem.Lookup.{IsQuery, Named, entry_at}
use judd_os.FileSystem.Data.{count_of}
use judd_os.Process.{
  Kernel, Locals, find_pid, claim_pid, check_magic, open_program, has_magic, opened_inode,
}
use judd_os.Process.Setup.{find_pid_lem}
use judd_os.Process.Buffers.{Ready}
use judd_os.Process.Launch.{IsLaunch, inode_of}

-- The kernel with another memory.
abbrev pub at_memory : Kernel → Memory → Kernel
at_memory k m = record k { fs = with_mem k.fs m }

-- The kernel when process number `p` is claimed.
abbrev pub claimed_as : ℕ → Kernel → Kernel
claimed_as p k = record k {
  available_pid = p;
  pid_bits = put p 1 k.pid_bits;
  tables = set_process_memory p k.tables;
}

find_pid_first :
    (p : ℕ) (bits : ℕ → ℕ)
    → p < 6
    → bits p ≢ 1
    → ((i : ℕ) → i < p → bits i ≡ 1)
    → find_pid 6 0 bits ≡ p
find_pid_first p bits low free taken =
    let (at_least, at_most, before, after) = find_pid_lem 6 0 bits in
    let not_less : find_pid 6 0 bits < p → ⊥ =
      (λ h. after (omega (arith, h, low)) (taken (find_pid 6 0 bits) h)) in
    let not_more : p < find_pid 6 0 bits → ⊥ = (λ h. free (before p (omega arith) h)) in
    omega (arith, not_less, not_more)

pub claim_pid_first :
    (p : ℕ) (k : Kernel)
    → p < 6
    → k.pid_bits p ≢ 1
    → ((i : ℕ) → i < p → k.pid_bits i ≡ 1)
    → claim_pid k ≡ (0, claimed_as p k)
unfolding claim_pid
claim_pid_first p k low free taken =
    let e = find_pid_first p k.pid_bits low free taken in
    if_false {b = find_pid 6 0 k.pid_bits == 6} _ _ (ground (arith, e, low))
    ∙ ap (λ q. (0, claimed_as q k)) e

-- What `execute_setup` leaves in memory: the inode of the program in `opened_file`.
pub record Found (m m' : Memory) (opened check number : ℕ) : Type 0 where
  pub inode : load32 m' (opened + 36) ≡ number
  pub kept : (x : ℕ) → (x < opened) ⊎ (opened + 64 ≤ x) → (x < check) ⊎ (check + 4 ≤ x) → m' x ≡ m x

module _ (scan fuel hi command len n rest j p : ℕ) (loc : Locals) (k : Kernel)
    (l : IsLaunch scan hi command len n rest j p loc k.fs k.pid_bits) (m : Memory)
    (ready : Ready k.fs.mem m command len n rest loc) (enough : 2 ≤ fuel) where
  pub same_image : Agree k.fs.filesystem_addr hi k.fs.mem m
  same_image x low high =
      ready.kept x (omega (arith, low, high, l.layout.name_image))
        (omega (arith, low, high, l.layout.args_image))

  entry_ends : (i : ℕ) → i ≤ k.fs.num_dentries → entry_at k.fs i + 64 ≤ hi
  entry_ends i h = omega (arith, h, l.few, l.image.ends)

  query : IsQuery scan (with_mem k.fs m) loc.fname n k.fs.opened_file
  query = record {
    bytes = ready.bytes l.bytes;
    dir = record {
      lens = l.dir.lens;
      strings =
          directory_strings scan k.fs.mem m k.fs.filesystem_addr hi k.fs.num_dentries l.dir l.few
            (omega (arith, l.image.ends)) same_image;
      short = l.dir.short;
      enough = l.dir.enough;
    };
    not_null = l.layout.opened_not_null;
    dir_apart = omega (arith, l.layout.opened_image, entry_ends k.fs.num_dentries (omega arith));
    name = ready.name;
    name_apart = omega (arith, l.layout.opened_name, l.call.short, ready.name_fits);
    name_short = omega (arith, ready.name_fits, l.enough);
  }

  fname_bytes : (i : ℕ) → i < n → m (loc.fname + i) ≡ k.fs.mem (command + i)
  fname_bytes i h = ready.name_bytes i h

  entry_bytes :
      (e i : ℕ)
      → e < k.fs.num_dentries
      → i < n
      → m (entry_at k.fs e + i) ≡ k.fs.mem (entry_at k.fs e + i)
  entry_bytes e i h low =
      same_image (entry_at k.fs e + i) (omega arith)
        (omega (arith, entry_ends e (omega (arith, h)), low, l.call.short))

  found_entry : Named query j
  unfolding query
  found_entry =
      SameName-moved k.fs.mem m command loc.fname n (entry_at k.fs j) (l.dir.lens j) fname_bytes
        (λ i h. entry_bytes j i l.low h) l.named

  found_first : (i : ℕ) → i < j → Named query i → ⊥
  unfolding query
  found_first i h named = l.first_named i h (
      SameName-back k.fs.mem m command loc.fname n (entry_at k.fs i) (l.dir.lens i) fname_bytes
        (λ b low. entry_bytes i b (omega (arith, h, l.low)) low) named)

  opened_lem :
      (size : ℕ) × (m' : Memory) × (file_open scan (with_mem k.fs m) loc.fname
        ≡ some (size, with_mem k.fs m'))
      × OpenStep k.fs m m' j
  opened_lem = open_step scan k.fs loc.fname n j m query l.low found_entry found_first

  checked :
      (m' : Memory)
      → Agree k.fs.filesystem_addr hi k.fs.mem m'
      → (m'' : Memory) × (read_data fuel (with_mem k.fs m') (inode_of k.fs j) 0 loc.exe_check 4
          ≡ some (4, with_mem k.fs m''))
        × ReadStep k.fs m' m'' (inode_of k.fs j) 0 loc.exe_check 4
  checked m' same =
      let four : count_of k.fs (inode_of k.fs j) 0 4 ≡ 4 = ground (arith, l.program.long) in
      subst
        (λ c.
          (m'' : Memory) × (read_data fuel (with_mem k.fs m') (inode_of k.fs j) 0 loc.exe_check 4
            ≡ some (c, with_mem k.fs m''))
          × ReadStep k.fs m' m'' (inode_of k.fs j) 0 loc.exe_check c)
        four
        (read_step fuel k.fs hi (inode_of k.fs j) 0 loc.exe_check 4 m' l.image l.program.file same
          l.layout.check_not_null (omega (arith, l.program.long)) (omega arith) l.layout.check_image
          (omega (arith, enough)) (inl refl))

  has_magic_lem :
      (m' m'' : Memory)
      → ReadStep k.fs m' m'' (inode_of k.fs j) 0 loc.exe_check 4
      → has_magic m'' loc.exe_check ≡ true
  has_magic_lem m' m'' r =
      let b0 : m'' loc.exe_check ≡ 0x7f =
        ap m'' (omega arith) ∙ r.bytes 0 (omega arith) ∙ l.program.magic0 in
      let b1 = r.bytes 1 (omega arith) ∙ l.program.magic1 in
      let b2 = r.bytes 2 (omega arith) ∙ l.program.magic2 in
      let b3 = r.bytes 3 (omega arith) ∙ l.program.magic3 in ground (arith, b0, b1, b2, b3)

  -- With a claimed number the kernel has another memory.
  abbrev pub prepared : ℕ → Memory → Kernel
  prepared size m' = record k { fs = with_mem k.fs m'; size_of_args = size }

  check_magic_lem :
      (size : ℕ) (m' m'' : Memory)
      → ReadStep k.fs m' m'' (inode_of k.fs j) 0 loc.exe_check 4
      → check_magic loc 4 (prepared size m'') ≡ (0, claimed_as p (prepared size m''))
  unfolding check_magic
  check_magic_lem size m' m'' r =
      if_false {b = not (has_magic m'' loc.exe_check)} _ _ (ap not (has_magic_lem m' m'' r))
      ∙ claim_pid_first p (prepared size m'') l.free_low l.free l.taken

  inode_kept :
      (m' : Memory) → OpenStep k.fs m m' j → load32 m' (k.fs.opened_file + 36) ≡ inode_of k.fs j
  inode_kept m' o =
      o.inode
      ∙ Agree-load32 k.fs.filesystem_addr hi k.fs.mem m (entry_at k.fs j + 36) same_image
          (omega arith) (omega (arith, entry_ends j (omega (arith, l.low))))

  opened_image : (m' : Memory) → OpenStep k.fs m m' j → Agree k.fs.filesystem_addr hi k.fs.mem m'
  opened_image m' o x low high =
      o.kept x (omega (arith, low, high, l.layout.opened_image)) ∙ same_image x low high

  -- The program is found, its first bytes are those of an executable, and the number is claimed.
  pub open_program_runs :
      (size : ℕ)
      → (m' : Memory) × (open_program scan fuel loc (prepared size m)
          ≡ some (0, claimed_as p (prepared size m')))
        × Found m m' k.fs.opened_file loc.exe_check (inode_of k.fs j)
  unfolding open_program
  open_program_runs size =
      let (ret, m', opens, o) = opened_lem in
      let number = inode_kept m' o in
      let (m'', reads, r) = checked m' (opened_image m' o) in
      let reads' : read_data fuel (with_mem k.fs m') (opened_inode (with_mem k.fs m')) 0
            loc.exe_check 4
          ≡ some (4, with_mem k.fs m'') =
        ap (λ i. read_data fuel (with_mem k.fs m') i 0 loc.exe_check 4) number ∙ reads in
      (
        m'',
        >>=-some _ opens ∙ >>=-some _ reads' ∙ ap some (check_magic_lem size m' m'' r),
        record {
          inode =
              Agree-load32 k.fs.opened_file (k.fs.opened_file + 64) m' m'' (k.fs.opened_file + 36)
                (λ x low high. r.kept x (omega (arith, low, high, l.layout.check_opened)))
                (omega arith) (omega arith)
              ∙ number;
          kept = λ x out out'. r.kept x out' ∙ o.kept x out;
        },
      )
