-- ===== src/FileSystem/Lookup.antt =====
-- `read_dentry_by_name` and `read_dentry_by_index` find the entry that they are asked for.
use judd_os.Prelude.{Bool}
use judd_os.FileSystem.Entry.{loaded, clear_dentry_lem, copy_dentry_lem}
use judd_os.Block.Reference.{filled}
use judd_os.Prelude.Word.{fail}
use judd_os.Prelude.{
  ℕ, zero, suc, ◌+◌, ◌*◌, ◌≤◌, ◌<◌, ◌≡◌, ◌≢◌, arith, some, true, false, ◌⊎◌, ◌==◌, min, Bool-cases,
  inl, inr, ◌↔◌, if◌then◌else◌, ltb, ◌||◌, leb,
}
use judd_os.Prelude.Memory.{Memory, IsBytes}
use judd_os.CString.Length.{IsString, strlen_lem}
use judd_os.CString.Compare.{strncmp_iff}
use judd_os.FileSystem.{
  same_name, find_dentry, cap_name, strncmp, Fs, read_dentry_by_name, fail, clear_dentry,
  read_dentry_by_index, ltb, leb,
}

-- The name of `n` bytes at `fname` is that of the entry at `ptr`, whose bytes up to a zero are `len`:
-- the entry's name is cut off at 32 bytes.
pub record SameName (m : Memory) (fname n ptr len : ℕ) : Type 0 where
  pub size : n ≡ min len 32
  pub bytes : (i : ℕ) → i < n → m (fname + i) ≡ m (ptr + i)

module _ (scan : ℕ) (m : Memory) (fname n ptr len : ℕ) (b : IsBytes m) (name : IsString m fname n)
    (entry : IsString m ptr len) (n_lt : n < scan) (len_lt : len < scan) where
  same_name_yes : SameName m fname n ptr len → same_name scan m fname ptr ≡ some true
  unfolding same_name
  same_name_yes h =
      let capped : cap_name len ≡ n = ground (arith, h.size) in
      let equal : strncmp m fname ptr (cap_name len) ≡ 0 =
        rw capped ((strncmp_iff m fname ptr n b name.before).1 h.bytes) in
      ground (arith, strlen_lem scan m ptr len entry len_lt, strlen_lem scan m fname n name n_lt)

  same_name_no : (SameName m fname n ptr len → ⊥) → same_name scan m fname ptr ≡ some false
  unfolding same_name
  same_name_no h = elim (Bool-cases (cap_name len == n)) [
    | inl e ↦
        (let capped : cap_name len ≡ n = ground arith in
          let differs : strncmp m fname ptr (cap_name len) ≢ 0 = rw capped (λ z. h (record {
            size = ground arith;
            bytes = (strncmp_iff m fname ptr n b name.before).0 z;
          })) in
          ground
            (arith, strlen_lem scan m ptr len entry len_lt, strlen_lem scan m fname n name n_lt))
    | inr e ↦
        ground (arith, strlen_lem scan m ptr len entry len_lt, strlen_lem scan m fname n name n_lt)
  ]

  same_name_cases :
      (same_name scan m fname ptr ≡ some true) ⊎ (same_name scan m fname ptr ≡ some false)
  unfolding same_name
  same_name_cases =
      ground (arith, strlen_lem scan m ptr len entry len_lt, strlen_lem scan m fname n name n_lt)

find_dentry_lem :
    (left scan : ℕ) (m : Memory) (fname start ptr i k : ℕ)
    → ptr ≡ start + 64 * i
    → i ≤ k
    → ((j : ℕ) → i ≤ j → j < k → same_name scan m fname (start + 64 * j) ≡ some false)
    → (k ≡ i + left) ⊎ ((k < i + left) × (same_name scan m fname (start + 64 * k) ≡ some true))
    → find_dentry left scan m fname ptr i ≡ some k
unfolding find_dentry
find_dentry_lem zero scan m fname start ptr i k e le before at = ground arith
find_dentry_lem (suc left) scan m fname start ptr i k e le before at =
    rw e (elim (Bool-cases (i == k)) [
      | inl same ↦ ground (arith, at)
      | inr later ↦ ground (
        arith,
        before i,
        find_dentry_lem left scan m fname start (start + 64 * i + 64) (i + 1) k (omega arith)
            (ground arith) (λ j p q. before j (omega arith) q) (ground (arith, at)),
      )
    ])

-- The directory of `num` entries at `start`, and the entry after it, which the search reads too:
-- each has a zero within its 64 bytes, after `lens` bytes.
pub record IsDirectory (scan : ℕ) (m : Memory) (start num : ℕ) : Type 0 where
  pub lens : ℕ → ℕ
  pub strings : (i : ℕ) → i ≤ num → IsString m (start + 64 * i) (lens i)
  pub short : (i : ℕ) → i ≤ num → lens i < 64
  pub enough : 64 ≤ scan

-- A call of `read_dentry_by_name` on a name of `n` bytes, with a dentry at `d` that overlaps neither
-- the directory nor the name.
pub record IsQuery (scan : ℕ) (fs : Fs) (fname n d : ℕ) : Type 0 where
  pub bytes : IsBytes fs.mem
  pub dir : IsDirectory scan fs.mem (fs.filesystem_addr + 64) fs.num_dentries
  pub not_null : d ≢ 0
  pub dir_apart :
      (fs.filesystem_addr + 64 + 64 * (fs.num_dentries + 1) ≤ d)
      ⊎ (d + 64 ≤ fs.filesystem_addr + 64)
  pub name : IsString fs.mem fname n
  pub name_apart : (fname + n < d) ⊎ (d + 64 ≤ fname)
  pub name_short : n < scan

abbrev pub entry_at : Fs → ℕ → ℕ
entry_at fs i = fs.filesystem_addr + 64 + 64 * i

-- Whether entry `i` has the name that is looked up.
abbrev pub Named : {scan : ℕ} {fs : Fs} {fname n d : ℕ} → IsQuery scan fs fname n d → ℕ → Type 0
Named {fs = fs} {fname = fname} {n = n} q i = SameName fs.mem fname n (entry_at fs i) (q.dir.lens i)

module _ (scan : ℕ) (fs : Fs) (fname n d : ℕ) (q : IsQuery scan fs fname n d) where
  abbrev cleared : Memory
  cleared = filled fs.mem d 0 64

  cleared-IsBytes : IsBytes cleared
  cleared-IsBytes x = ground (arith, q.bytes x)

  cleared-name : IsString cleared fname n
  cleared-name = record {
    ends = ground (arith, q.name.ends, q.name_apart);
    before = λ i p. ground (arith, q.name.before i, q.name_apart);
  }

  cleared-entry : (i : ℕ) → i ≤ fs.num_dentries → IsString cleared (entry_at fs i) (q.dir.lens i)
  cleared-entry i p = record {
    ends = ground (arith, (q.dir.strings i p).ends, q.dir.short i, q.dir_apart);
    before = λ j r. ground (arith, (q.dir.strings i p).before j, q.dir.short i, q.dir_apart);
  }

  Named-cleared :
      (i : ℕ)
      → i ≤ fs.num_dentries
      → Named q i ↔ SameName cleared fname n (entry_at fs i) (q.dir.lens i)
  Named-cleared i p = (
    λ h. record {
      size = h.size;
      bytes = λ j r. ground (arith, h.size, h.bytes j, q.dir.short i, q.dir_apart, q.name_apart);
    },
    λ h. record {
      size = h.size;
      bytes = λ j r. ground (arith, h.size, h.bytes j, q.dir.short i, q.dir_apart, q.name_apart);
    },
  )

  found_test :
      (i : ℕ)
      → i ≤ fs.num_dentries
      → Named q i
      → same_name scan cleared fname (entry_at fs i) ≡ some true
  found_test i p h =
      same_name_yes scan cleared fname n (entry_at fs i) (q.dir.lens i) cleared-IsBytes cleared-name
        (cleared-entry i p) q.name_short (omega (arith, q.dir.short i p, q.dir.enough))
        ((Named-cleared i p).0 h)

  missing_test :
      (i : ℕ)
      → i ≤ fs.num_dentries
      → (Named q i → ⊥)
      → same_name scan cleared fname (entry_at fs i) ≡ some false
  missing_test i p h =
      same_name_no scan cleared fname n (entry_at fs i) (q.dir.lens i) cleared-IsBytes cleared-name
        (cleared-entry i p) q.name_short (omega (arith, q.dir.short i p, q.dir.enough))
        (λ s. h ((Named-cleared i p).1 s))

  -- The test of the loop has a result for each entry.
  pub entry_decides :
      (i : ℕ)
      → i ≤ fs.num_dentries
      → (b : Bool) × (same_name scan (clear_dentry fs.mem d) fname (entry_at fs i) ≡ some b)
  entry_decides i p =
      let cases =
        same_name_cases scan cleared fname n (entry_at fs i) (q.dir.lens i) cleared-IsBytes
          cleared-name (cleared-entry i p) q.name_short
          (omega (arith, q.dir.short i p, q.dir.enough)) in
      rw (clear_dentry_lem fs.mem d) (elim cases [ inl e ↦ (true, e) | inr e ↦ (false, e) ])

  -- The first entry with the name is copied into the dentry, and 0 returned.
  pub read_dentry_by_name_found :
      (k : ℕ)
      → k < fs.num_dentries
      → Named q k
      → ((j : ℕ) → j < k → Named q j → ⊥)
      → read_dentry_by_name scan fs fname d
        ≡ some (0, record fs { mem = loaded fs.mem d (entry_at fs k) (q.dir.lens k) })
  unfolding read_dentry_by_name
  read_dentry_by_name_found k p h first = ground (
    arith,
    q.not_null,
    search,
    copy_dentry_lem fs.mem d (entry_at fs k) (omega (arith, q.dir_apart)) scan (q.dir.lens k)
        q.bytes (q.dir.strings k (omega arith)) (q.dir.short k (omega arith))
        (omega (arith, q.dir.short k (omega arith), q.dir.enough)),
  )
    where
      search :
          find_dentry
            (fs.num_dentries + 1)
            scan
            (clear_dentry fs.mem d)
            fname
            (fs.filesystem_addr + 64)
            0
          ≡ some k
      search = rw (clear_dentry_lem fs.mem d) (
          find_dentry_lem (fs.num_dentries + 1) scan cleared fname (fs.filesystem_addr + 64)
            (fs.filesystem_addr + 64) 0 k (omega arith) (omega arith)
            (λ j a b. missing_test j (omega arith) (first j b))
            (inr (omega arith, found_test k (omega arith) h)))

  -- Without such an entry the result is -1, and the dentry is cleared.
  pub read_dentry_by_name_missing :
      ((j : ℕ) → j < fs.num_dentries → Named q j → ⊥)
      → read_dentry_by_name scan fs fname d ≡ some (fail, record fs { mem = filled fs.mem d 0 64 })
  unfolding read_dentry_by_name
  read_dentry_by_name_missing none_named = elim last_cases [
    | inl hit ↦ ground (
      arith,
      q.not_null,
      search fs.num_dentries (omega arith) (inr (omega arith, hit)),
      clear_dentry_lem fs.mem d,
    )
    | inr miss ↦ ground (arith, q.not_null, search_all miss, clear_dentry_lem fs.mem d)
  ]
    where
      last_cases :
          (same_name scan cleared fname (entry_at fs fs.num_dentries) ≡ some true)
          ⊎ (same_name scan cleared fname (entry_at fs fs.num_dentries) ≡ some false)
      last_cases =
          same_name_cases scan cleared fname n (entry_at fs fs.num_dentries)
            (q.dir.lens fs.num_dentries) cleared-IsBytes cleared-name
            (cleared-entry fs.num_dentries (omega arith)) q.name_short
            (omega (arith, q.dir.short fs.num_dentries (omega arith), q.dir.enough))

      search :
          (k : ℕ)
          → k ≤ fs.num_dentries
          → (k ≡ 0 + (fs.num_dentries + 1))
            ⊎ ((k < 0 + (fs.num_dentries + 1))
                × (same_name scan cleared fname (entry_at fs k) ≡ some true))
          → find_dentry
              (fs.num_dentries + 1)
              scan
              (clear_dentry fs.mem d)
              fname
              (fs.filesystem_addr + 64)
              0
            ≡ some k
      search k le at = rw (clear_dentry_lem fs.mem d) (
          find_dentry_lem (fs.num_dentries + 1) scan cleared fname (fs.filesystem_addr + 64)
            (fs.filesystem_addr + 64) 0 k (omega arith) (omega arith)
            (λ j a b. missing_test j (omega arith) (none_named j (omega arith))) at)

      search_all :
          same_name scan cleared fname (entry_at fs fs.num_dentries) ≡ some false
          → find_dentry
              (fs.num_dentries + 1)
              scan
              (clear_dentry fs.mem d)
              fname
              (fs.filesystem_addr + 64)
              0
            ≡ some (fs.num_dentries + 1)
      search_all miss = rw (clear_dentry_lem fs.mem d) (
          find_dentry_lem (fs.num_dentries + 1) scan cleared fname (fs.filesystem_addr + 64)
            (fs.filesystem_addr + 64) 0 (fs.num_dentries + 1) (omega arith) (omega arith)
            (λ j a b. elim (Bool-cases (ltb j fs.num_dentries)) [
              | inl below ↦ missing_test j (omega arith) (none_named j (ground arith))
              | inr end ↦ (let e : j ≡ fs.num_dentries = ground arith in rw e miss)
            ])
            (inl (omega arith)))

-- The entry with an index below `num_dentries` is copied into the dentry; with another index, or a
-- null dentry, the result is -1 and nothing changes.
pub read_dentry_by_index_lem :
    (scan : ℕ) (fs : Fs) (index d : ℕ)
    (dir : IsDirectory scan fs.mem (fs.filesystem_addr + 64) fs.num_dentries)
    → IsBytes fs.mem
    → (fs.filesystem_addr + 64 + 64 * (fs.num_dentries + 1) ≤ d)
      ⊎ (d + 64 ≤ fs.filesystem_addr + 64)
    → read_dentry_by_index scan fs index d ≡ (
        if (d == 0) || leb fs.num_dentries index
        then some (fail, fs)
        else some (0, record fs { mem = loaded fs.mem d (entry_at fs index) (dir.lens index) }))
unfolding read_dentry_by_index
read_dentry_by_index_lem scan fs index d dir bytes apart =
    elim (Bool-cases (leb fs.num_dentries index)) [
      | inl out ↦ ground arith
      | inr in_range ↦
          (let below : index < fs.num_dentries = ground arith in
            ground (
              arith,
              copy_dentry_lem fs.mem d (entry_at fs index) (omega (arith, apart)) scan
                  (dir.lens index) bytes (dir.strings index (omega arith))
                  (dir.short index (omega arith))
                  (omega (arith, dir.short index (omega arith), dir.enough)),
            ))
    ]
