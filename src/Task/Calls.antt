-- ===== src/Task/Calls.antt =====
-- `read`, `write`, `file_read`, `getargs` and `vidmap`.
use judd_os.Prelude.Memory.{Memory}
use judd_os.CString.{strncpy}
use judd_os.CString.Duplicate.{strncpy_lem, padded}
use judd_os.Block.Reference.{Disjoint}
use judd_os.CString.Length.{IsString}
use judd_os.Prelude.Word.{fail}
use judd_os.Prelude.{
  inl, inr, ℕ, Option, ◌≡◌, List, true, some, ◌⊎◌, arith, ◌<◌, ◌^◌, ◌+◌, ◌≢◌, refl, ap, sym, ◌∙◌,
  ◌≤◌,
}
use judd_os.Task.{
  null, wild, file_ftable, dir_ftable, rtc_ftable, stdin_ftable, stdout_ftable, Task, Fd, Handler,
  fd_at, read_entry, write_entry, sys_read, sys_write, getargs, vidmap, Ftable, fail, file, dir,
  rtc, terminal, strncpy, Memory,
}
use judd_os.Task.Table.{IsTable, is_device}

-- The functions of a table that `open` gives to a descriptor.
abbrev pub Serves : Ftable → Handler → Type 0
Serves f h =
    ((f ≡ file_ftable) × (h ≡ file))
    ⊎ ((f ≡ dir_ftable) × (h ≡ dir))
    ⊎ ((f ≡ rtc_ftable) × (h ≡ rtc))

device-read_entry :
    (f : Ftable)
    → is_device f ≡ true
    → (h : Handler) × Serves f h × (read_entry f ≡ some h) × (write_entry f ≡ some h)
unfolding read_entry write_entry
device-read_entry null e = absurd (cc)
device-read_entry wild e = absurd (cc)
device-read_entry file_ftable e = (file, inl (refl, refl), refl, refl)
device-read_entry dir_ftable e = (dir, inr (inl (refl, refl)), refl, refl)
device-read_entry rtc_ftable e = (rtc, inr (inr (refl, refl)), refl, refl)
device-read_entry stdin_ftable e = absurd (cc)
device-read_entry stdout_ftable e = absurd (cc)

module _ {S : Type 0} (call : Handler → ℕ → ℕ → ℕ → S → Option (ℕ × S)) where
  -- On a well-formed table `read` and `write` return -1 and change nothing for a free descriptor, for a number that is none, negative ones included, and for the
  -- descriptor of the terminal's other direction. `read` on 0 and `write` on 1 call the function of the terminal, and both on an open descriptor from 2 to 7
  -- that of its file, its directory or the clock.
  pub sys_read-safe :
      (fds : List Fd) (fd buf nbytes : ℕ) (s : S)
      → IsTable fds
      → ((fd ≡ 1) ⊎ (8 ≤ fd) ⊎ ((fd_at fds fd).flags ≡ 0)
          → sys_read call fds fd buf nbytes s ≡ some (fail, s))
        × ((fd ≡ 0) ⊎ (8 ≤ fd) ⊎ ((fd_at fds fd).flags ≡ 0)
            → sys_write call fds fd buf nbytes s ≡ some (fail, s))
        × (fd ≡ 0 → sys_read call fds fd buf nbytes s ≡ call terminal fd buf nbytes s)
        × (fd ≡ 1 → sys_write call fds fd buf nbytes s ≡ call terminal fd buf nbytes s)
        × (2 ≤ fd
            → fd < 8
            → (fd_at fds fd).flags ≢ 0
            → (h : Handler) × Serves (fd_at fds fd).fxn_tbl_ptr h
              × (sys_read call fds fd buf nbytes s ≡ call h fd buf nbytes s)
              × (sys_write call fds fd buf nbytes s ≡ call h fd buf nbytes s))
  unfolding sys_read sys_write read_entry write_entry
  sys_read-safe fds fd buf nbytes s v = (
    λ bad. ground (arith, bad),
    λ bad. ground (arith, bad),
    λ here. rw here (ground (arith, v.stdin, v.stdin_open)),
    λ here. rw here (ground (arith, v.stdout, v.stdout_open)),
    λ low high used.
        (let (h, serves, re, we) =
            device-read_entry (fd_at fds fd).fxn_tbl_ptr (v.devices fd low high used) in
          (h, serves, ground (arith, low, high, used, re), ground (arith, low, high, used, we))),
  )

padded_at : (m : Memory) (d s k i : ℕ) → i < k → padded m d s k k (d + i) ≡ m (s + i)
padded_at m d s k i p = ground arith

-- `getargs` returns 0 when the arguments fill the buffer, and leaves it with no terminating zero, where
-- syscalls.h promises -1.
pub getargs_unterminated :
    (t : Task) (buf k : ℕ)
    → IsString t.fs.mem t.args k
    → t.args_size ≡ k
    → 0 < k
    → k < 2 ^ 31
    → Disjoint buf t.args k
    → let out = getargs buf k t in
      (out.0 ≡ 0)
      × ((i : ℕ) → i < k → out.1.fs.mem (buf + i) ≡ t.fs.mem (t.args + i))
      × ((i : ℕ) → i < k → out.1.fs.mem (buf + i) ≢ 0)
unfolding getargs
getargs_unterminated t buf k name e pos small dis =
    let copy = strncpy_lem t.fs.mem buf t.args k k name dis in
    let done : getargs buf k t
        ≡ (0, record t { fs = record t.fs { mem = strncpy t.fs.mem buf t.args k } }) =
      ground (arith, e, pos, small) in
    let at : (i : ℕ) → i < k → (getargs buf k t).1.fs.mem (buf + i) ≡ t.fs.mem (t.args + i) =
      (λ i p.
        ap (λ r. r.1.fs.mem (buf + i)) done
        ∙ ap (λ (w : ℕ → ℕ). w (buf + i)) copy
        ∙ padded_at t.fs.mem buf t.args k i p) in
    (ap (λ r. r.0) done, at, λ i p z. name.before i p (sym (at i p) ∙ z))

-- `vidmap` checks its argument against the 4 MB that follow the program's load address, not against the user page:
-- it writes to an address of the following page, and refuses the first 0x48000 bytes of the user page.
pub vidmap_range :
    (vidmem_addr a : ℕ) (t : Task)
    → (0x08400000 ≤ a → a < 0x08448000 → (vidmap vidmem_addr a t).0 ≡ vidmem_addr)
      × (a < 0x08048000 → vidmap vidmem_addr a t ≡ (fail, t))
unfolding vidmap
vidmap_range vidmem_addr a t = (λ low high. ground arith, λ low. ground arith)
