-- ===== src/Task/Found.antt =====
-- What `open` does with a name that the directory has, and with one that it does not have.
use judd_os.Prelude.{
  ℕ, zero, suc, ◌+◌, ◌-◌, ◌≤◌, ◌<◌, ◌≡◌, ◌≢◌, ◌⊎◌, ◌∙◌, ap, sym, arith, refl, inl, inr, List, set,
  some, if_true, if_false, ◌==◌, ◌||◌, not, leb, ltb, ◌&&◌, if◌then◌else◌, Bool-cases,
}
use judd_os.Prelude.Word.{PortWrite, fail}
use judd_os.Prelude.Memory.{Memory, IsBytes, load32}
use judd_os.CString.{strncmp}
use judd_os.CString.Compare.{strncmp_iff}
use judd_os.FileSystem.Entry.{loaded}
use judd_os.FileSystem.Lookup.{
  IsQuery, Named, entry_at, read_dentry_by_name_found, read_dentry_by_name_missing,
}
use judd_os.FileSystem.OpenStep.{loaded_word, loaded_out}
use judd_os.Rtc.{rtc_open}
use judd_os.Block.Reference.{filled}
use judd_os.Task.{
  Task, Fd, Ftable, rtc_ftable, dir_ftable, file_ftable, fd_at, find_free, name_size, open_as,
  open_type, sys_open,
}
use judd_os.Task.Open.{find_free_lem}

name_size_lem :
    (left : ℕ) (m : Memory) (a size k : ℕ)
    → k ≤ left
    → ((i : ℕ) → i < k → m (a + size + i) ≢ 0)
    → (k ≡ left) ⊎ (m (a + size + k) ≡ 0)
    → name_size left m a size ≡ size + k
unfolding name_size
name_size_lem zero m a size k low some_chars ends = omega (arith, low)
name_size_lem (suc left) m a size zero low some_chars ends = elim ends [
  | inl none_left ↦ absurd (omega (arith, none_left))
  | inr e ↦ if_true {b = m (a + size) == 0} _ _ (ground (arith, e)) ∙ (omega arith)
]
name_size_lem (suc left) m a size (suc k) low some_chars ends =
    let rest : name_size left m a (size + 1) ≡ size + 1 + k =
      name_size_lem left m a (size + 1) k (omega (arith, low))
        (λ i h e. some_chars (suc i) (omega (arith, h)) (ap m (omega arith) ∙ e))
        (elim ends [ inl all ↦ inl (omega (arith, all)) | inr e ↦ inr (ap m (omega arith) ∙ e) ]) in
    if_false {b = m (a + size) == 0} _ _ (ground (arith, some_chars 0 (omega arith)))
    ∙ rest
    ∙ (omega arith)

loaded-IsBytes : (m : Memory) (d entry len : ℕ) → IsBytes m → IsBytes (loaded m d entry len)
loaded-IsBytes m d entry len b x = ground (arith, b x, b (entry + (x - d)))

module _ (scan : ℕ) (inb : List PortWrite → ℕ → ℕ) (dentry filename n : ℕ) (t : Task)
    (q : IsQuery scan t.fs filename n dentry) (not_null : filename ≢ 0) (some_name : 0 < n)
    (not_space : t.fs.mem filename ≢ 32) where
  first_char : t.fs.mem filename ≢ 0
  first_char e = q.name.before 0 some_name (ap t.fs.mem (omega arith) ∙ e)

  -- The file system with this memory.
  abbrev pub holding : Memory → Task
  holding m = record t { fs = record t.fs { mem = m } }

  -- A name that the directory does not have: -1, and of the memory only the local entry is written.
  pub sys_open_missing :
      ((i : ℕ) → i < t.fs.num_dentries → Named q i → ⊥)
      → sys_open scan inb dentry filename t ≡ some (fail, holding (filled t.fs.mem dentry 0 64))
  unfolding sys_open
  sys_open_missing none_named =
      if_false {b = (filename == 0) || ((t.fs.mem filename == 0) || (t.fs.mem filename == 32))} _ _
        (ground (arith, not_null, first_char, not_space))
      ∙ rw (read_dentry_by_name_missing scan t.fs filename n dentry q none_named) refl

  module _ (j : ℕ) (low : j < t.fs.num_dentries) (named : Named q j)
      (first : (i : ℕ) → i < j → Named q i → ⊥) where
    -- The task with the entry `j` in the local entry.
    abbrev pub found : Task
    found = holding (loaded t.fs.mem dentry (entry_at t.fs j) (q.dir.lens j))

    abbrev pub free : ℕ
    free = find_free 6 t.fds 2

    -- The type and the inode of the entry.
    abbrev pub filetype : ℕ
    filetype = load32 t.fs.mem (entry_at t.fs j + 32)

    abbrev pub inode_num : ℕ
    inode_num = load32 t.fs.mem (entry_at t.fs j + 36)

    -- The descriptors with the free one open at position 0.
    abbrev pub opened : Ftable → ℕ → List Fd
    opened table inode =
        set t.fds free (record { fxn_tbl_ptr = table; inode = inode; file_pos = 0; flags = 1 })

    start : sys_open scan inb dentry filename t ≡ (
        if free == 8 then some (fail, found) else some (open_type inb filename dentry free found))
    unfolding sys_open
    start =
        if_false {b = (filename == 0) || ((t.fs.mem filename == 0) || (t.fs.mem filename == 32))} _
          _ (ground (arith, not_null, first_char, not_space))
        ∙ rw (read_dentry_by_name_found scan t.fs filename n dentry q j low named first) refl

    char_there : (i : ℕ) → i < n → found.fs.mem (dentry + i) ≡ t.fs.mem (filename + i)
    char_there i h =
        let back : dentry + i - dentry ≡ i = omega arith in
        if_true {b = leb dentry (dentry + i) && ltb (dentry + i) (dentry + 64)} _ _
          (ground (arith, h, named.size))
        ∙ if_false {b = ltb (dentry + i - dentry) 32 && leb (q.dir.lens j) (dentry + i - dentry)} _
            _ (ground (arith, h, named.size))
        ∙ ap (λ b. t.fs.mem (entry_at t.fs j + b)) back
        ∙ sym (named.bytes i h)

    name_there : (i : ℕ) → i ≤ n → found.fs.mem (filename + i) ≡ t.fs.mem (filename + i)
    name_there i h =
        loaded_out t.fs.mem dentry (entry_at t.fs j) (q.dir.lens j) (filename + i)
          (omega (arith, h, q.name_apart))

    short : n ≤ 32
    short = ground (arith, named.size)

    query_size : name_size 33 found.fs.mem filename 0 ≡ n
    query_size =
        name_size_lem 33 found.fs.mem filename 0 n (omega (arith, short))
          (λ i h e.
            q.name.before i h
              (sym (name_there i (omega (arith, h))) ∙ ap found.fs.mem (omega arith) ∙ e))
          (inr (ap found.fs.mem (omega arith) ∙ name_there n (omega arith) ∙ q.name.ends))
        ∙ (omega arith)

    ends_there : (n ≡ 32) ⊎ (found.fs.mem (dentry + 0 + n) ≡ 0)
    ends_there = elim (Bool-cases (n == 32)) [
      | inl e ↦ inl (ground (arith, e))
      | inr e ↦ inr (
          if_true {b = leb dentry (dentry + 0 + n) && ltb (dentry + 0 + n) (dentry + 64)} _ _
            (ground (arith, short))
          ∙ if_true
              {b = ltb (dentry + 0 + n - dentry) 32 && leb (q.dir.lens j) (dentry + 0 + n - dentry)}
              _ _ (ground (arith, e, named.size, short)))
    ]

    entry_size : name_size 32 found.fs.mem dentry 0 ≡ n
    entry_size =
        name_size_lem 32 found.fs.mem dentry 0 n short
          (λ i h e. q.name.before i h (sym (char_there i h) ∙ ap found.fs.mem (omega arith) ∙ e))
          ends_there
        ∙ (omega arith)

    names_equal : strncmp found.fs.mem dentry filename n ≡ 0
    names_equal =
        (strncmp_iff found.fs.mem dentry filename n
            (loaded-IsBytes t.fs.mem dentry (entry_at t.fs j) (q.dir.lens j) q.bytes)
            (λ i h e. q.name.before i h (sym (char_there i h) ∙ e))).1
          (λ i h. char_there i h ∙ sym (name_there i (omega (arith, h))))

    type_there : load32 found.fs.mem (dentry + 32) ≡ filetype
    type_there =
        loaded_word t.fs.mem dentry (entry_at t.fs j) (q.dir.lens j) 32 (omega arith) (omega arith)

    inode_there : load32 found.fs.mem (dentry + 36) ≡ inode_num
    inode_there =
        loaded_word t.fs.mem dentry (entry_at t.fs j) (q.dir.lens j) 36 (omega arith) (omega arith)

    -- `open` of a name that the directory has, with its first entry of that name, always ends. With a descriptor from 2 to 7 free it takes the lowest: an
    -- entry of type 0 opens the clock there and initialises it, one of type 1 the directory, one of type 2 the file with the inode of the entry, each at position 0, and the
    -- descriptor's number is returned; of another type, or with no descriptor free, the result is -1 and no descriptor changes. Of the memory only the local entry is written.
    pub sys_open_finds :
        ((2 ≤ free)
          × (free ≤ 8)
          × (free < 8 → (fd_at t.fds free).flags ≡ 0)
          × ((i : ℕ) → 2 ≤ i → i < free → (fd_at t.fds i).flags ≢ 0))
        × ((free ≡ 8) ⊎ (2 < filetype) → sys_open scan inb dentry filename t ≡ some (fail, found))
        × (free < 8
            → filetype ≡ 0
            → sys_open scan inb dentry filename t
              ≡ some
                  (free, record found { fds = opened rtc_ftable 0; rtc = (rtc_open inb t.rtc).1 }))
        × (free < 8
            → filetype ≡ 1
            → sys_open scan inb dentry filename t
              ≡ some (free, record found { fds = opened dir_ftable 0 }))
        × (free < 8
            → filetype ≡ 2
            → sys_open scan inb dentry filename t
              ≡ some (free, record found { fds = opened file_ftable inode_num }))
    unfolding open_type open_as
    sys_open_finds =
        let (lo, hi, stop, before) = find_free_lem 6 t.fds 2 in
        let go : free < 8
            → sys_open scan inb dentry filename t
              ≡ some (open_type inb filename dentry free found) =
          (λ small. start ∙ if_false {b = free == 8} _ _ (ground (arith, small))) in
        (
          (lo, hi, stop, before),
          λ bad. elim (Bool-cases (free == 8)) [
            | inl full ↦ start ∙ if_true {b = free == 8} _ _ full
            | inr room ↦
                (let other : 2 < load32 found.fs.mem (dentry + 32) =
                    ground (arith, bad, room, type_there) in
                  start
                  ∙ if_false {b = free == 8} _ _ room
                  ∙ ap some (
                      if_false {b = load32 found.fs.mem (dentry + 32) == 0} _ _
                        (ground (arith, other))
                      ∙ if_false {b = load32 found.fs.mem (dentry + 32) == 1} _ _
                          (ground (arith, other))
                      ∙ if_false {b = load32 found.fs.mem (dentry + 32) == 2} _ _
                          (ground (arith, other))))
          ],
          λ small type.
              go small
              ∙ ap some (
                  if_true {b = load32 found.fs.mem (dentry + 32) == 0} _ _
                    (ground (arith, type, type_there))),
          λ small type.
              go small
              ∙ ap some (
                  if_false {b = load32 found.fs.mem (dentry + 32) == 0} _ _
                    (ground (arith, type, type_there))
                  ∙ if_true {b = load32 found.fs.mem (dentry + 32) == 1} _ _
                      (ground (arith, type, type_there))),
          λ small type.
              go small
              ∙ ap some (
                  if_false {b = load32 found.fs.mem (dentry + 32) == 0} _ _
                    (ground (arith, type, type_there))
                  ∙ if_false {b = load32 found.fs.mem (dentry + 32) == 1} _ _
                      (ground (arith, type, type_there))
                  ∙ if_true {b = load32 found.fs.mem (dentry + 32) == 2} _ _
                      (ground (arith, type, type_there))
                  ∙ if_false
                      {b = not (
                        name_size 33 found.fs.mem filename 0 == name_size 32 found.fs.mem dentry 0)}
                      _ _ (ground (arith, query_size, entry_size))
                  ∙ if_false
                      {b = not (
                        strncmp found.fs.mem dentry filename (name_size 33 found.fs.mem filename 0)
                        == 0)}
                      _ _
                      (ground
                        (arith, ap (strncmp found.fs.mem dentry filename) query_size, names_equal))
                  ∙ ap (λ i. (free, record found { fds = opened file_ftable i })) inode_there),
        )
