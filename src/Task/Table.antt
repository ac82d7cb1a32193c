-- ===== src/Task/Table.antt =====
-- The invariant of a process's descriptor table.
use judd_os.Prelude.{
  ℕ, zero, suc, ◌≤◌, ◌<◌, ◌≡◌, ◌≢◌, arith, refl, Bool, true, false, List, [], ◌∷◌, length, set,
  get_or, length-set, ◌∙◌, ap, get_or-set_ne, Bool-cases, ◌==◌, inl, get_or-set_self, inr,
  replicate,
}
use judd_os.Task.{
  Fd, Ftable, null, wild, outside_fd, file_ftable, dir_ftable, rtc_ftable, stdin_ftable,
  stdout_ftable,
}
use judd_os.Task.{fd_at, free_fd, fill_free, execute_fillpcb}

abbrev pub is_device : Ftable → Bool
is_device null = false
is_device wild = false
is_device file_ftable = true
is_device dir_ftable = true
is_device rtc_ftable = true
is_device stdin_ftable = false
is_device stdout_ftable = false

-- Eight descriptors: the terminal's two, and the others free or with the table of a file, a directory or the clock.
pub record IsTable (fds : List Fd) : Type 0 where
  pub size : length fds ≡ 8
  pub stdin : (fd_at fds 0).fxn_tbl_ptr ≡ stdin_ftable
  pub stdin_open : (fd_at fds 0).flags ≡ 1
  pub stdout : (fd_at fds 1).fxn_tbl_ptr ≡ stdout_ftable
  pub stdout_open : (fd_at fds 1).flags ≡ 1
  pub devices :
      (i : ℕ) → 2 ≤ i → i < 8 → (fd_at fds i).flags ≢ 0 → is_device (fd_at fds i).fxn_tbl_ptr ≡ true

-- Changing a descriptor other than the terminal's keeps the invariant if the new one is free or a device.
pub set-IsTable :
    (fds : List Fd) (i : ℕ) (e : Fd)
    → IsTable fds
    → 2 ≤ i
    → i < 8
    → (e.flags ≢ 0 → is_device e.fxn_tbl_ptr ≡ true)
    → IsTable (set fds i e)
set-IsTable fds i e t lo hi ok = record {
  size = length-set fds i e ∙ t.size;
  stdin =
      ap (λ (d : Fd). d.fxn_tbl_ptr) (get_or-set_ne fds i 0 e outside_fd (omega arith)) ∙ t.stdin;
  stdin_open =
      ap (λ (d : Fd). d.flags) (get_or-set_ne fds i 0 e outside_fd (omega arith)) ∙ t.stdin_open;
  stdout =
      ap (λ (d : Fd). d.fxn_tbl_ptr) (get_or-set_ne fds i 1 e outside_fd (omega arith)) ∙ t.stdout;
  stdout_open =
      ap (λ (d : Fd). d.flags) (get_or-set_ne fds i 1 e outside_fd (omega arith)) ∙ t.stdout_open;
  devices = λ j p q used. elim (Bool-cases (i == j)) [
    | inl same ↦
        (let here : fd_at (set fds i e) j ≡ e =
            rw (← (let s : i ≡ j = ground arith in s))
              (get_or-set_self fds i e outside_fd (omega (arith, t.size))) in
          rw here (ok (rw here at used)))
    | inr other ↦
        (let there : fd_at (set fds i e) j ≡ fd_at fds j =
            get_or-set_ne fds i j e outside_fd (ground arith) in
          rw there (t.devices j p q (rw there at used)))
  ];
}

get_or-replicate : (n i : ℕ) → i < n → get_or (replicate n free_fd) i outside_fd ≡ free_fd
get_or-replicate zero i low = absurd (omega (arith, low))
get_or-replicate (suc n) zero low = refl
get_or-replicate (suc n) (suc i) low = get_or-replicate n i (omega (arith, low))

free_devices :
    (x y : Fd) (i : ℕ)
    → 2 ≤ i
    → i < 8
    → (fd_at (x ∷ y ∷ replicate 6 free_fd) i).flags ≢ 0
    → is_device (fd_at (x ∷ y ∷ replicate 6 free_fd) i).fxn_tbl_ptr ≡ true
free_devices x y zero p q used = absurd (omega arith)
free_devices x y (suc zero) p q used = absurd (omega arith)
free_devices x y (suc (suc i)) p q used =
    absurd (used (ap (λ (d : Fd). d.flags) (get_or-replicate 6 i (omega (arith, q)))))

-- A new process has a well-formed table, whatever its memory held.
pub execute_fillpcb-IsTable : (fds : List Fd) → length fds ≡ 8 → IsTable (execute_fillpcb fds)
unfolding execute_fillpcb fill_free
execute_fillpcb-IsTable (a ∷ b ∷ c ∷ d ∷ e ∷ f ∷ g ∷ h ∷ []) s = record {
  size = refl;
  stdin = refl;
  stdin_open = refl;
  stdout = refl;
  stdout_open = refl;
  devices = free_devices _ _;
}
execute_fillpcb-IsTable _ s = absurd (omega arith)
