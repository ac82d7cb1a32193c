-- ===== src/Task/Open.antt =====
-- `open` and `close` on the descriptor table.
use judd_os.FileSystem.{read_dentry_by_name}
use judd_os.CString.{strncmp}
use judd_os.Prelude.Memory.{load32}
use judd_os.Prelude.Word.{PortWrite, fail, is_negative}
use judd_os.Prelude.{
  List, ℕ, ◌≡◌, ◌≤◌, ◌+◌, ◌<◌, ◌⊎◌, set, ◌≢◌, arith, true, suc, Bool-cases, ◌==◌, some, refl,
  if◌then◌else◌, ◌||◌, Option-cases, ltb, leb, get_or-set_self, get_or-set_ne, subst,
}
use judd_os.Prelude.{zero, suc, inl, inr}
use judd_os.Task.Table.{IsTable, is_device, set-IsTable}
use judd_os.Task.{
  Task, Fd, fd_at, outside_fd, find_free, open_as, open_type, sys_open, sys_close, List, ℕ,
  PortWrite, Ftable, load32, rtc_ftable, dir_ftable, name_size, strncmp, file_ftable,
  read_dentry_by_name, fd_array_size,
}

pub find_free_lem :
    (left : ℕ) (fds : List Fd) (i : ℕ)
    → let k = find_free left fds i in
      (i ≤ k)
      × (k ≤ i + left)
      × ((k < i + left) → (fd_at fds k).flags ≡ 0)
      × ((j : ℕ) → i ≤ j → j < k → (fd_at fds j).flags ≢ 0)
unfolding find_free
find_free_lem zero fds i =
    (omega arith, omega arith, λ p. absurd (omega arith), λ j p q. absurd (omega arith))
find_free_lem (suc left) fds i = elim (Bool-cases ((fd_at fds i).flags == 0)) [
  | inl free ↦ rw free (omega arith, omega arith, λ p. ground arith, λ j p q. absurd (omega arith))
  | inr used ↦
      (let (lo, hi, stop, before) = find_free_lem left fds (i + 1) in
        rw used (
          omega arith,
          omega arith,
          λ p. stop (omega arith),
          λ j p q. elim (Bool-cases (i == j)) [
            | inl same ↦ (let s : i ≡ j = ground arith in rw (← s) (ground arith))
            | inr later ↦ before j (ground arith) q
          ],
        ))
]

abbrev opened_fd : Ftable → ℕ → Fd
opened_fd table inode = record { fxn_tbl_ptr = table; inode = inode; file_pos = 0; flags = 1 }

-- What one branch of `open` does to the table `fds` at the free descriptor `i`: -1 and nothing, or `i` and a
-- device there.
abbrev pub Opens : List Fd → ℕ → ℕ × Task → Type 0
Opens fds i out =
    ((out.0 ≡ fail) × (out.1.fds ≡ fds))
    ⊎ ((e : Fd) × (out.0 ≡ i)
        × (out.1.fds ≡ set fds i e)
        × (is_device e.fxn_tbl_ptr ≡ true)
        × (e.flags ≡ 1)
        × (e.file_pos ≡ 0))

open_type-Opens :
    (inb : List PortWrite → ℕ → ℕ) (filename dentry i : ℕ) (t : Task)
    → Opens t.fds i (open_type inb filename dentry i t)
unfolding open_type open_as
open_type-Opens inb filename dentry i t = elim (Bool-cases (load32 t.fs.mem (dentry + 32) == 0)) [
  | inl clock ↦ rw clock (inr (opened_fd rtc_ftable 0, refl, refl, refl, refl, refl))
  | inr no_clock ↦ rw no_clock (elim (Bool-cases (load32 t.fs.mem (dentry + 32) == 1)) [
    | inl folder ↦ rw folder (inr (opened_fd dir_ftable 0, refl, refl, refl, refl, refl))
    | inr no_folder ↦ rw no_folder (elim (Bool-cases (load32 t.fs.mem (dentry + 32) == 2)) [
      | inr unknown ↦ rw unknown (inl (refl, refl))
      | inl regular ↦
          rw regular
            (elim (Bool-cases
              (name_size 33 t.fs.mem filename 0 == name_size 32 t.fs.mem dentry 0)) [
                | inr longer ↦ rw longer (inl (refl, refl))
                | inl same ↦
                    rw same
                      (elim (Bool-cases (
                        strncmp t.fs.mem dentry filename (name_size 33 t.fs.mem filename 0) == 0)) [
                          | inr differs ↦ rw differs (inl (refl, refl))
                          | inl equal ↦ rw equal (
                              inr (
                                opened_fd file_ftable (load32 t.fs.mem (dentry + 36)),
                                refl,
                                refl,
                                refl,
                                refl,
                                refl,
                              ))
                        ])
              ])
    ])
  ])
]

-- `open` in the table of a process: if it does not return -1, it returns the lowest free descriptor from 2 to 7,
-- which now is in use with the table of a device, at position 0, and no other has changed. If it returns -1, none has.
pub sys_open_lem :
    (scan : ℕ) (inb : List PortWrite → ℕ → ℕ) (dentry filename : ℕ) (t : Task) {out : ℕ × Task}
    → sys_open scan inb dentry filename t ≡ some out
    → let k = find_free 6 t.fds 2 in
      ((out.0 ≡ fail) × (out.1.fds ≡ t.fds))
      ⊎ ((2 ≤ k)
          × (k < 8)
          × ((fd_at t.fds k).flags ≡ 0)
          × ((j : ℕ) → 2 ≤ j → j < k → (fd_at t.fds j).flags ≢ 0)
          × Opens t.fds k out)
unfolding sys_open
sys_open_lem scan inb dentry filename t {out} h =
    elim (Bool-cases ((filename == 0) || ((t.fs.mem filename == 0) || (t.fs.mem filename == 32)))) [
      | inl bad ↦ inl (ground arith, ground arith)
      | inr good ↦ elim (Option-cases (read_dentry_by_name scan t.fs filename dentry)) [
        | inl lost ↦ absurd (ground arith)
        | inr ((ret, fs'), e) ↦ elim (Bool-cases ((ret == fail) || (find_free 6 t.fds 2 == 8))) [
          | inl refused ↦ inl (ground (arith, e), ground (arith, e))
          | inr ok ↦
              (let (lo, hi, stop, before) = find_free_lem 6 t.fds 2 in
                let below : find_free 6 t.fds 2 < 8 = ground arith in
                let same : open_type inb filename dentry (find_free 6 t.fds 2)
                      (record t { fs = fs' })
                    ≡ out =
                  ground (arith, e) in
                inr (
                  lo,
                  below,
                  stop below,
                  before,
                  subst (Opens t.fds (find_free 6 t.fds 2)) same (
                      open_type-Opens inb filename dentry (find_free 6 t.fds 2)
                        (record t { fs = fs' })),
                ))
        ]
      ]
    ]

-- `open` keeps the invariant.
pub sys_open-IsTable :
    (scan : ℕ) (inb : List PortWrite → ℕ → ℕ) (dentry filename : ℕ) (t : Task) {out : ℕ × Task}
    → IsTable t.fds
    → sys_open scan inb dentry filename t ≡ some out
    → IsTable out.1.fds
sys_open-IsTable scan inb dentry filename t v h = elim (sys_open_lem scan inb dentry filename t h) [
  | inl (e, same) ↦ rw same v
  | inr (lo, hi, free, before, opens) ↦ elim opens [
    | inl (e, same) ↦ rw same v
    | inr (fd, e, same, device, used, start) ↦
        rw same (set-IsTable t.fds (find_free 6 t.fds 2) fd v lo hi (λ _. device))
  ]
]

-- `close` returns -1 and changes nothing for the terminal's two descriptors, for a number that is none, and for a
-- free descriptor. Otherwise it returns 0 and frees this descriptor and no other.
pub sys_close_lem :
    (fd j : ℕ) (t : Task)
    → IsTable t.fds
    → let out = sys_close fd t in
      ((out ≡ (fail, t)) × ((fd < 2) ⊎ (8 ≤ fd) ⊎ ((fd_at t.fds fd).flags ≡ 0)))
      ⊎ ((out.0 ≡ 0)
          × (2 ≤ fd)
          × (fd < 8)
          × ((fd_at t.fds fd).flags ≢ 0)
          × ((fd_at out.1.fds j).flags ≡ (if j == fd then 0 else (fd_at t.fds j).flags))
          × IsTable out.1.fds)
unfolding sys_close
sys_close_lem fd j t v = elim (Bool-cases (is_negative fd || (ltb fd 2 || leb fd_array_size fd))) [
  | inl bad ↦ inl (ground arith, ground arith)
  | inr fits ↦ elim (Bool-cases ((fd_at t.fds fd).flags == 0)) [
    | inl free ↦ inl (ground arith, ground arith)
    | inr used ↦ inr (
      ground arith,
      ground arith,
      ground arith,
      ground arith,
      rw (fits, used)
          (ground (
            arith,
            get_or-set_self t.fds fd (record (fd_at t.fds fd) { flags = 0 }) outside_fd,
            get_or-set_ne t.fds fd j (record (fd_at t.fds fd) { flags = 0 }) outside_fd,
          )),
      rw (fits, used)
          (set-IsTable t.fds fd _ v (ground arith) (ground arith) (λ h. absurd (h refl))),
    )
  ]
]
