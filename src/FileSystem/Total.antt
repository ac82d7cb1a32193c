-- ===== src/FileSystem/Total.antt =====
-- Enough fuel for the functions of the file system.
use judd_os.Prelude.{
  ℕ, zero, suc, ◌+◌, ◌-◌, ◌*◌, ◌/◌, ◌%◌, ◌<◌, ◌≤◌, ◌≡◌, ◌∙◌, ap, sym, subst, some_injective, arith,
  refl, Bool, true, false, Option, none, some, if_split, leb, ltb, ◌==◌, ◌||◌, if◌then◌else◌,
}
use judd_os.Prelude.Word.{fail, u32, sub32}
use judd_os.Prelude.Memory.{Memory, load32}
use judd_os.Block.{memcpy}
use judd_os.FileSystem.Entry.{copy_dentry_lem}
use judd_os.FileSystem.Lookup.{IsQuery, entry_at, entry_decides}
use judd_os.FileSystem.{
  file_open, read_dentry_by_name, find_dentry, same_name, copy_dentry, clear_dentry, Fs, read_loop,
  read_data, read_size, inode_at, datablock_base,
}

abbrev pub Some {ℓ} : {A : Type ℓ} → Option A → Type ℓ
Some {A = A} o = (a : A) × (o ≡ some a)

read_loop_total :
    (fuel : ℕ) (m : Memory) (base buf data_length c ptr num_ptr : ℕ)
    → data_length ≤ c + 4096 * fuel
    → Some (read_loop (suc fuel) m base buf data_length c ptr num_ptr)
unfolding read_loop
read_loop_total zero m base buf data_length c ptr num_ptr enough =
    if_split Some (ltb c data_length) (λ more. absurd (ground (arith, more, enough)))
      (λ done. (_, refl))
read_loop_total (suc fuel) m base buf data_length c ptr num_ptr enough =
    let left = data_length - c in
    let n = if leb 4096 left then 4096 else left in
    let m' = memcpy m (buf + c) ptr n in
    if_split Some (ltb c data_length)
      (λ more.
        read_loop_total fuel m' base buf data_length (c + n)
          (base + u32 (load32 m' (num_ptr + 4) * 4096)) (num_ptr + 4)
          (ground (arith, more, enough)))
      (λ done. (_, refl))

read_size_small :
    (size offset length bound : ℕ) → length ≤ bound → read_size size offset length ≤ 0 + bound
read_size_small size offset length bound h = ground (arith, h)

read_data_finish :
    (o : Option (ℕ × Memory)) (fs : Fs)
    → Some o
    → Some {A = ℕ × Fs} (elim o [ none ↦ none | some (n, m') ↦ some (n, record fs { mem = m' }) ])
read_data_finish none fs (a, e) = absurd (cc (e))
read_data_finish (some (n, m')) fs e = (_, refl)

-- One round more than the number of blocks.
pub read_data_total :
    (fuel : ℕ) (fs : Fs) (inode offset buf length : ℕ)
    → length ≤ 4096 * fuel
    → Some (read_data (suc fuel) fs inode offset buf length)
unfolding read_data
read_data_total fuel fs inode offset buf length enough =
    let m = fs.mem in
    let inode_ptr = inode_at fs inode in
    let size = load32 m inode_ptr in
    let num_ptr = inode_ptr + 4 * (offset / 4096 + 1) in
    let base = datablock_base fs in
    let ptr = base + u32 (load32 m num_ptr * 4096) + offset % 4096 in
    if_split Some (ltb (sub32 fs.num_inodes 1) inode || (buf == 0)) (λ bad. (_, refl))
      (λ good.
        if_split Some (leb size offset) (λ bad. (_, refl))
          (λ good. read_data_finish _ fs (
            read_loop_total fuel m base buf (read_size size offset length) 0 ptr num_ptr
              (read_size_small size offset length (4096 * fuel) enough))))

found_or :
    (o : Option Bool) (b : Bool) (i : ℕ) (rest : Option ℕ)
    → o ≡ some b
    → Some rest
    → Some (elim o [ none ↦ none | some true ↦ some i | some false ↦ rest ])
found_or none b i rest e total = absurd (cc (e))
found_or (some true) b i rest e total = (i, refl)
found_or (some false) b i rest e total = total

after_find :
    (o : Option ℕ) (k : ℕ) (next : ℕ → Option (ℕ × Fs))
    → o ≡ some k
    → Some (next k)
    → Some (elim o [ none ↦ none | some i ↦ next i ])
after_find none k next e total = absurd (cc (e))
after_find (some i) k next e total = subst (λ i. Some (next i)) (sym (some_injective e)) total

after_copy :
    (o : Option Memory) (fs : Fs)
    → Some o
    → Some {A = ℕ × Fs} (elim o [ none ↦ none | some m' ↦ some (0, record fs { mem = m' }) ])
after_copy none fs (a, e) = absurd (cc (e))
after_copy (some m') fs e = (_, refl)

after_read :
    (o : Option (ℕ × Fs))
    → Some o
    → Some {A = ℕ × Fs} (elim o [
      | none ↦ none
      | some (ret, fs') ↦
          if ret == 0
          then some (load32 fs'.mem (inode_at fs' (load32 fs'.mem (fs'.opened_file + 36))), fs')
          else some (fail, fs')
    ])
after_read none (a, e) = absurd (cc (e))
after_read (some (ret, fs')) e = if_split Some (ret == 0) (λ a. (_, refl)) (λ a. (_, refl))

copied_total :
    (scan : ℕ) (fs : Fs) (fname n d : ℕ)
    → IsQuery scan fs fname n d
    → (k : ℕ) → k < fs.num_dentries
    → Some (copy_dentry scan (clear_dentry fs.mem d) d (fs.filesystem_addr + 64 + 64 * k))
copied_total scan fs fname n d q k low = (
  _,
  copy_dentry_lem fs.mem d (entry_at fs k) (omega (arith, q.dir_apart, low)) scan (q.dir.lens k)
      q.bytes (q.dir.strings k (omega (arith, low))) (q.dir.short k (omega (arith, low)))
      (omega (arith, q.dir.short k (omega (arith, low)), q.dir.enough)),
)

find_total :
    (left scan : ℕ) (m : Memory) (fname start ptr i : ℕ)
    → ptr ≡ start + 64 * i
    → ((j : ℕ) → j < i + left → (b : Bool) × (same_name scan m fname (start + 64 * j) ≡ some b))
    → Some (find_dentry left scan m fname ptr i)
unfolding find_dentry
find_total zero scan m fname start ptr i at tests = (i, refl)
find_total (suc left) scan m fname start ptr i at tests =
    let (b, e) = tests i (omega arith) in
    let rest =
      find_total left scan m fname start (ptr + 64) (i + 1) (omega (arith, at))
        (λ j h. tests j (omega (arith, h))) in
    found_or (same_name scan m fname ptr) b i (find_dentry left scan m fname (ptr + 64) (i + 1))
      (ap (same_name scan m fname) at ∙ e) rest

pub read_dentry_by_name_total :
    (scan : ℕ) (fs : Fs) (fname n d : ℕ)
    → IsQuery scan fs fname n d
    → Some (read_dentry_by_name scan fs fname d)
unfolding read_dentry_by_name
read_dentry_by_name_total scan fs fname n d q =
    let start = fs.filesystem_addr + 64 in
    let (k, e) =
      find_total (fs.num_dentries + 1) scan (clear_dentry fs.mem d) fname start start 0
        (omega arith) (λ j h. entry_decides scan fs fname n d q j (omega (arith, h))) in
    if_split Some (d == 0) (λ bad. (_, refl))
      (λ good.
        after_find (find_dentry (fs.num_dentries + 1) scan (clear_dentry fs.mem d) fname start 0) k
          _ e
          (if_split Some (leb fs.num_dentries k) (λ out. (_, refl))
            (λ found.
              after_copy (copy_dentry scan (clear_dentry fs.mem d) d (start + 64 * k)) fs
                (copied_total scan fs fname n d q k (ground (arith, found))))))

pub file_open_total :
    (scan : ℕ) (fs : Fs) (fname n : ℕ)
    → IsQuery scan fs fname n fs.opened_file
    → Some (file_open scan fs fname)
unfolding file_open
file_open_total scan fs fname n q =
    after_read (read_dentry_by_name scan fs fname fs.opened_file)
      (read_dentry_by_name_total scan fs fname n fs.opened_file q)
