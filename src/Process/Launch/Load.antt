-- ===== src/Process/Launch/Load.antt =====
-- `execute` loads the program that `execute_setup` has found: the user page, the arguments and the entry point.
use judd_os.Prelude.{
  ℕ, suc, ◌+◌, ◌*◌, ◌^◌, ◌<◌, ◌≤◌, ◌≡◌, ◌⊎◌, ◌∙◌, sym, ap, ap₂, subst, arith, inl, inr, some, refl,
  if_false, ◌==◌, ltb, >>=-some,
}
use judd_os.Prelude.Word.{fail}
use judd_os.Prelude.Memory.{Memory, load32}
use judd_os.Block.Reference.{copied, copied_in, copied_out}
use judd_os.CString.{strcpy}
use judd_os.CString.Length.{IsString}
use judd_os.CString.Duplicate.{strcpy_lem}
use judd_os.FileSystem.{Fs, read_data}
use judd_os.FileSystem.Frame.{Agree, with_mem, Agree-load32, ReadStep, read_step}
use judd_os.FileSystem.Data.{file_byte, count_of}
use judd_os.Process.{Kernel, Locals, Cpu, load_process, start_process, pcb_at, opened_inode}
use judd_os.Process.Launch.{IsLaunch, inode_of, page, page_size, start_word}

-- In `m'` are the program, its arguments, `rest` bytes from `args` in `m`, and its entry point.
pub record Loaded (fs : Fs) (inode args rest p : ℕ) (m m' : Memory) : Type 0 where
  pub program :
      (i : ℕ) → i < count_of fs inode 0 page_size → m' (page + i) ≡ fs.mem (file_byte fs inode i)
  pub arguments : (i : ℕ) → i < rest → m' (pcb_at p + 152 + i) ≡ m (args + i)
  pub ends : m' (pcb_at p + 152 + rest) ≡ 0
  pub entry : load32 m' (pcb_at p + 16) ≡ start_word fs inode

-- What the steps need to know of the memory in between.
record IsIntact (fs : Fs) (hi args rest opened number : ℕ) (m m' : Memory) : Type 0 where
  image : Agree fs.filesystem_addr hi fs.mem m'
  opened_same : load32 m' (opened + 36) ≡ number
  args_same : (i : ℕ) → i < suc rest → m' (args + i) ≡ m (args + i)

IsIntact-write :
    (fs : Fs) (hi args rest opened number a n : ℕ) (m m' m'' : Memory)
    → IsIntact fs hi args rest opened number m m'
    → (hi ≤ a) ⊎ (a + n ≤ fs.filesystem_addr)
    → (opened + 64 ≤ a) ⊎ (a + n ≤ opened)
    → (args + suc rest ≤ a) ⊎ (a + n ≤ args)
    → ((x : ℕ) → (x < a) ⊎ (a + n ≤ x) → m'' x ≡ m' x)
    → IsIntact fs hi args rest opened number m m''
IsIntact-write fs hi args rest opened number a n m m' m'' s image_apart opened_apart args_apart
      kept =
    record {
      image = λ x low high. kept x (omega (arith, low, high, image_apart)) ∙ s.image x low high;
      opened_same =
          Agree-load32 opened (opened + 64) m' m'' (opened + 36)
            (λ x low high. kept x (omega (arith, low, high, opened_apart))) (omega arith)
            (omega arith)
          ∙ s.opened_same;
      args_same = λ i h. kept (args + i) (omega (arith, h, args_apart)) ∙ s.args_same i h;
    }

module _ (scan fuel hi command len n rest j p : ℕ) (loc : Locals) (k : Kernel)
    (l : IsLaunch scan hi command len n rest j p loc k.fs k.pid_bits) (m : Memory)
    (fits : rest ≤ len) (args : IsString m loc.args rest)
    (enough : page_size + 4096 ≤ 4096 * fuel) where
  abbrev Intact : Memory → Type 0
  Intact m' = IsIntact k.fs hi loc.args rest k.fs.opened_file (inode_of k.fs j) m m'

  abbrev loaded_count : ℕ
  loaded_count = count_of k.fs (inode_of k.fs j) 0 page_size

  small_count : loaded_count ≤ page_size
  small_count = ground arith

  -- The inode that is read from `opened_file` is the program's.
  reads :
      (m' m'' : Memory) (offset buf length count : ℕ)
      → Intact m'
      → read_data fuel (with_mem k.fs m') (inode_of k.fs j) offset buf length
        ≡ some (count, with_mem k.fs m'')
      → read_data fuel (with_mem k.fs m') (opened_inode (with_mem k.fs m')) offset buf length
        ≡ some (count, with_mem k.fs m'')
  reads m' m'' offset buf length count s e =
      ap (λ i. read_data fuel (with_mem k.fs m') i offset buf length) s.opened_same ∙ e

  page_read :
      (m' : Memory)
      → Intact m'
      → (m'' : Memory) × (read_data fuel
            (with_mem k.fs m')
            (opened_inode (with_mem k.fs m'))
            0
            page
            page_size
          ≡ some (loaded_count, with_mem k.fs m''))
        × ReadStep k.fs m' m'' (inode_of k.fs j) 0 page loaded_count
        × Intact m''
  page_read m' s =
      let (m'', e, r) =
        read_step fuel k.fs hi (inode_of k.fs j) 0 page page_size m' l.image l.program.file s.image
          (omega arith) (omega (arith, l.program.long)) (omega arith) l.layout.page_image enough
          (inl refl) in
      (
        m'',
        reads m' m'' 0 page page_size loaded_count s e,
        r,
        IsIntact-write k.fs hi loc.args rest k.fs.opened_file (inode_of k.fs j) page page_size m m'
            m'' s l.layout.page_image (omega (arith, l.layout.page_opened))
            (omega (arith, l.layout.page_args, fits))
            (λ x out. r.kept x (omega (arith, out, small_count))),
      )

  args_written :
      (m' : Memory)
      → Intact m'
      → (m'' : Memory) × (strcpy scan m' (pcb_at p + 152) loc.args ≡ some m'')
        × ((i : ℕ) → i < suc rest → m'' (pcb_at p + 152 + i) ≡ m (loc.args + i))
        × ((x : ℕ) → (x < pcb_at p + 152) ⊎ (pcb_at p + 152 + suc rest ≤ x) → m'' x ≡ m' x)
        × Intact m''
  args_written m' s =
      let d = pcb_at p + 152 in
      let string : IsString m' loc.args rest = record {
        ends = s.args_same rest (omega arith) ∙ args.ends;
        before = λ i h e. args.before i h (sym (s.args_same i (omega (arith, h))) ∙ e);
      } in
      let kept : (x : ℕ) → (x < d) ⊎ (d + suc rest ≤ x) → copied m' d loc.args (suc rest) x ≡ m' x =
        (λ x out. copied_out m' d loc.args (suc rest) x out) in
      (
        copied m' d loc.args (suc rest),
        strcpy_lem scan m' d loc.args rest string
            (omega (arith, l.layout.pcb_args, fits, l.args_fit)) (omega (arith, fits, l.enough)),
        λ i h. copied_in m' d loc.args (suc rest) i h ∙ s.args_same i h,
        kept,
        IsIntact-write k.fs hi loc.args rest k.fs.opened_file (inode_of k.fs j) d (suc rest) m m' _
            s (omega (arith, l.layout.pcb_image, l.args_fit))
            (omega (arith, l.layout.pcb_opened, l.args_fit))
            (omega (arith, l.layout.pcb_args, fits, l.args_fit)) kept,
      )

  entry_read :
      (m' : Memory)
      → Intact m'
      → (m'' : Memory) × (read_data fuel
            (with_mem k.fs m')
            (opened_inode (with_mem k.fs m'))
            24
            (pcb_at p + 16)
            4
          ≡ some (4, with_mem k.fs m''))
        × ReadStep k.fs m' m'' (inode_of k.fs j) 24 (pcb_at p + 16) 4
  entry_read m' s =
      let four : count_of k.fs (inode_of k.fs j) 24 4 ≡ 4 = ground (arith, l.program.long) in
      let (m'', e, r) =
        read_step fuel k.fs hi (inode_of k.fs j) 24 (pcb_at p + 16) 4 m' l.image l.program.file
          s.image (omega (arith, l.free_low)) (omega (arith, l.program.long)) (omega arith)
          (omega (arith, l.layout.pcb_image)) (omega (arith, enough)) (inr (omega arith)) in
      (
        m'',
        reads m' m'' 24 (pcb_at p + 16) 4 4 s (
            subst
              (λ c.
                read_data fuel (with_mem k.fs m') (inode_of k.fs j) 24 (pcb_at p + 16) 4
                ≡ some (c, with_mem k.fs m''))
              four e),
        subst (λ c. ReadStep k.fs m' m'' (inode_of k.fs j) 24 (pcb_at p + 16) c) four r,
      )

  entry_word :
      (m' m'' : Memory)
      → ReadStep k.fs m' m'' (inode_of k.fs j) 24 (pcb_at p + 16) 4
      → load32 m'' (pcb_at p + 16) ≡ start_word k.fs (inode_of k.fs j)
  unfolding load32
  entry_word m' m'' r =
      ap₂ (λ b c. b + c)
        (ap₂ (λ b c. b + c)
          (ap₂ (λ b c. b + 2 ^ 8 * c) (ap m'' (omega arith) ∙ r.bytes 0 (omega arith))
            (r.bytes 1 (omega arith)))
          (ap (λ b. 2 ^ 16 * b) (r.bytes 2 (omega arith))))
        (ap (λ b. 2 ^ 24 * b) (r.bytes 3 (omega arith)))

  -- The kernel that has claimed the number, with another memory.
  abbrev pub holding : Kernel → Memory → Kernel
  holding c m' = record c { available_pid = p; fs = with_mem k.fs m' }

  -- The program, its arguments and its entry point are loaded, and the process starts.
  pub load_process_runs :
      (cpu : Cpu) (c : Kernel)
      → load32 m (k.fs.opened_file + 36) ≡ inode_of k.fs j
      → Agree k.fs.filesystem_addr hi k.fs.mem m
      → (m' : Memory) × (load_process scan fuel loc cpu (0, holding c m)
          ≡ some (start_process cpu (start_word k.fs (inode_of k.fs j)) (holding c m')))
        × Loaded k.fs (inode_of k.fs j) loc.args rest p m m'
  unfolding load_process
  load_process_runs cpu c number same =
      let start : Intact m = record {
        image = same;
        opened_same = number;
        args_same = λ i h. refl;
      } in
      let (m1, e1, r1, s1) = page_read m start in
      let (m2, e2, in_args, out_args, s2) = args_written m1 s1 in
      let (m3, e3, r3) = entry_read m2 s2 in
      let entry : load32 m3 (pcb_at p + 16) ≡ start_word k.fs (inode_of k.fs j) =
        entry_word m2 m3 r3 in
      (
        m3,
        >>=-some _ e1
            ∙ if_false {b = loaded_count == fail} _ _ (ground (arith, small_count))
            ∙ if_false {b = ltb 0x08400000 (page + loaded_count)} _ _
                (ground (arith, l.program.in_page))
            ∙ >>=-some _ e2
            ∙ >>=-some _ e3
            ∙ ap (λ w. some (start_process cpu w (holding c m3))) entry,
        record {
          program = λ i h.
              r3.kept (page + i) (omega (arith, h, small_count, l.layout.pcb_page))
              ∙ out_args (page + i) (omega (arith, h, small_count, l.layout.pcb_page, l.args_fit))
              ∙ r1.bytes i h
              ∙ ap (λ x. k.fs.mem (file_byte k.fs (inode_of k.fs j) x)) (omega arith);
          arguments = λ i h.
              r3.kept (pcb_at p + 152 + i) (inr (omega arith)) ∙ in_args i (omega (arith, h));
          ends =
              r3.kept (pcb_at p + 152 + rest) (inr (omega arith))
              ∙ in_args rest (omega arith)
              ∙ args.ends;
          entry = entry;
        },
      )
