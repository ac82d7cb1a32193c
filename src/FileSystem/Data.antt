-- ===== src/FileSystem/Data.antt =====
-- `read_data` on a well-formed file.
use judd_os.Prelude.Word.{u32}
use judd_os.Prelude.{
  ℕ, ◌+◌, ◌-◌, ◌*◌, ◌/◌, ◌%◌, ◌^◌, ◌≤◌, ◌<◌, ◌≡◌, ◌≢◌, arith, some, ◌⊎◌, ◌&&◌, if◌then◌else◌, ltb,
  leb, min, ap, ◌∙◌, fun_ext, Bool-cases, inl, inr, refl,
}
use judd_os.Prelude.Memory.{Memory, load32}
use judd_os.FileSystem.{Fs, inode_at, datablock_base, read_size, read_loop, read_data, u32}
use judd_os.FileSystem.DataLoop.{gathered, Reads, read_loop_lem, source}

-- The image lies below `hi`, with one block to spare, and its block addresses do not wrap.
pub record IsImage (fs : Fs) (hi : ℕ) : Type 0 where
  pub inodes_fit : fs.num_inodes * 4096 < 2 ^ 32
  pub blocks_fit : fs.num_datablocks * 4096 < 2 ^ 32
  pub ends : fs.filesystem_addr + 4096 + fs.num_inodes * 4096 + fs.num_datablocks * 4096 + 4096 ≤ hi

abbrev pub size_of : Fs → ℕ → ℕ
size_of fs inode = load32 fs.mem (inode_at fs inode)

-- The number of the block that holds byte `4096 * q` of the file.
abbrev pub block_of : Fs → ℕ → ℕ → ℕ
block_of fs inode q = load32 fs.mem (inode_at fs inode + 4 * (q + 1))

-- The address of byte `p` of the file.
abbrev pub file_byte : Fs → ℕ → ℕ → ℕ
file_byte fs inode p = datablock_base fs + block_of fs inode (p / 4096) * 4096 + p % 4096

-- An inode of the image: at most the 1023 blocks that it can number, all of them in the image.
pub record IsFile (fs : Fs) (inode : ℕ) : Type 0 where
  pub exists : inode < fs.num_inodes
  pub fits : size_of fs inode ≤ 1023 * 4096
  pub blocks : (q : ℕ) → 4096 * q < size_of fs inode → block_of fs inode q < fs.num_datablocks

-- A read inside the file into a buffer apart from the image.
pub record IsRead (fs : Fs) (hi inode offset buf length : ℕ) : Type 0 where
  pub image : IsImage fs hi
  pub file : IsFile fs inode
  pub not_null : buf ≢ 0
  pub inside : offset < size_of fs inode
  pub no_wrap : offset + length < 2 ^ 32
  pub apart : (hi ≤ buf) ⊎ (buf + length ≤ fs.filesystem_addr)

abbrev pub count_of : Fs → ℕ → ℕ → ℕ → ℕ
count_of fs inode offset length = min length (size_of fs inode - offset)

-- What the buffer holds if `count` bytes of the file from `offset` on are in it.
abbrev pub delivered : Fs → ℕ → ℕ → ℕ → ℕ → Memory
delivered fs inode offset buf count x =
    if leb buf x && ltb x (buf + count)
    then fs.mem (file_byte fs inode (offset + (x - buf)))
    else fs.mem x

module _ (fs : Fs) (hi inode offset buf length : ℕ) (r : IsRead fs hi inode offset buf length) where
  abbrev first_ptr : ℕ
  first_ptr = datablock_base fs + u32 (block_of fs inode (offset / 4096) * 4096) + offset % 4096

  abbrev first_num : ℕ
  first_num = inode_at fs inode + 4 * (offset / 4096 + 1)

  count_eq : read_size (size_of fs inode) offset length ≡ count_of fs inode offset length
  count_eq = ground (arith, r.no_wrap, r.inside)

  block_below :
      (q : ℕ)
      → 4096 * q < size_of fs inode
      → (block_of fs inode q + 1) * 4096 ≤ fs.num_datablocks * 4096
  block_below q h = omega (arith, r.file.blocks q h)

  all-Reads :
      Reads fs.filesystem_addr hi buf length
        (datablock_base fs)
        r.apart
        fs.mem
        first_ptr
        first_num
        (count_of fs inode offset length)
  all-Reads = record {
    first = omega (
      arith,
      r.image.inodes_fit,
      r.image.blocks_fit,
      r.image.ends,
      block_below (offset / 4096) (omega (arith, r.inside)),
    );
    numbers = λ k h. omega (arith, r.image.inodes_fit, r.image.ends, r.file.exists, r.file.fits);
    blocks = λ k h1 h2.
        (let same : first_num + 4 * k ≡ inode_at fs inode + 4 * (offset / 4096 + k + 1) =
            omega arith in
          ground (
            arith,
            r.image.inodes_fit,
            r.image.blocks_fit,
            r.image.ends,
            ap (load32 fs.mem) same,
            block_below (offset / 4096 + k) (omega (arith, r.inside)),
          ));
  }

  -- The call copies as many bytes as there are, up to `length`, from the addresses that the loop
  -- reaches, and changes nothing else.
  pub read_data_lem :
      (fuel : ℕ)
      → count_of fs inode offset length + 4096 ≤ 4096 * fuel
      → read_data fuel fs inode offset buf length
        ≡ some (
          count_of fs inode offset length,
          record fs {
            mem =
                gathered fs.mem
                  (datablock_base fs)
                  first_ptr
                  first_num
                  buf
                  (count_of fs inode offset length);
          },
        )
  unfolding read_data
  read_data_lem fuel f =
      let n : ℕ = count_of fs inode offset length in
      let start : buf + 0 ≡ buf = omega arith in
      let loop : read_loop fuel fs.mem (datablock_base fs) buf
            (read_size (size_of fs inode) offset length) 0 first_ptr first_num
          ≡ some (n, gathered fs.mem (datablock_base fs) first_ptr first_num buf n) =
        ap (λ k. read_loop fuel fs.mem (datablock_base fs) buf k 0 first_ptr first_num) count_eq
        ∙ read_loop_lem fs.filesystem_addr hi buf length (datablock_base fs) r.apart fuel fs.mem n 0
            first_ptr first_num n (omega arith) (omega arith) f all-Reads
        ∙ ap (λ a. some (n, gathered fs.mem (datablock_base fs) first_ptr first_num a n)) start in
      ground (arith, loop, r.not_null, r.inside, r.file.exists, r.image.inodes_fit)

  -- Where the code's byte is the file's: all of the first block's, and all others.
  source_byte :
      (i : ℕ)
      → i < count_of fs inode offset length
      → (offset % 4096 ≡ 0) ⊎ (offset % 4096 + i < 4096)
      → source fs.mem (datablock_base fs) first_ptr first_num i ≡ file_byte fs inode (offset + i)
  source_byte i h ok = elim (Bool-cases (ltb i 4096)) [
    | inl early ↦
        (let same : offset / 4096 ≡ (offset + i) / 4096 = ground (arith, ok) in
          ground (
            arith,
            ok,
            ap (block_of fs inode) same,
            block_below ((offset + i) / 4096) (omega (arith, r.inside)),
            r.image.blocks_fit,
          ))
    | inr late ↦
        (let same : first_num + 4 * (i / 4096) ≡ inode_at fs inode + 4 * ((offset + i) / 4096 + 1) =
            ground (arith, ok) in
          ground (
            arith,
            ok,
            ap (load32 fs.mem) same,
            block_below ((offset + i) / 4096) (omega (arith, r.inside)),
            r.image.blocks_fit,
          ))
  ]

  -- If the read starts at a block boundary or stays in one block, the buffer holds exactly the bytes of the file
  -- from `offset` on, as many as there are up to `length`, and nothing else has changed.
  pub read_data_delivers :
      (fuel : ℕ)
      → count_of fs inode offset length + 4096 ≤ 4096 * fuel
      → (offset % 4096 ≡ 0) ⊎ (offset % 4096 + count_of fs inode offset length ≤ 4096)
      → read_data fuel fs inode offset buf length
        ≡ some (
          count_of fs inode offset length,
          record fs { mem = delivered fs inode offset buf (count_of fs inode offset length) },
        )
  read_data_delivers fuel f ok =
      read_data_lem fuel f
      ∙ ap (λ w. some (count_of fs inode offset length, record fs { mem = w })) (fun_ext same)
    where
      same :
          (x : ℕ)
          → gathered fs.mem
              (datablock_base fs)
              first_ptr
              first_num
              buf
              (count_of fs inode offset length)
              x
            ≡ delivered fs inode offset buf (count_of fs inode offset length) x
      same x = elim (Bool-cases (leb buf x && ltb x (buf + count_of fs inode offset length))) [
        | inl in_buf ↦
            rw in_buf (ap fs.mem (source_byte (x - buf) (ground arith) (ground (arith, ok))))
        | inr out ↦ rw out refl
      ]

  -- A read that starts inside a block and goes past its end takes the bytes after that end from the block which
  -- follows it in the image, whatever the file's next block is.
  pub read_data_overruns :
      (fuel i : ℕ)
      → count_of fs inode offset length + 4096 ≤ 4096 * fuel
      → i < count_of fs inode offset length
      → i < 4096
      → 4096 ≤ offset % 4096 + i
      → (fs' : Fs) × (read_data fuel fs inode offset buf length
          ≡ some (count_of fs inode offset length, fs'))
        × (fs'.mem (buf + i)
            ≡ fs.mem (
                datablock_base fs
                + (block_of fs inode (offset / 4096) + 1) * 4096
                + (offset + i) % 4096))
  read_data_overruns fuel i f h early past =
      let same : first_ptr + i
          ≡ datablock_base fs
            + (block_of fs inode (offset / 4096) + 1) * 4096
            + (offset + i) % 4096 =
        omega (arith, block_below (offset / 4096) (omega (arith, r.inside)), r.image.blocks_fit) in
      (_, read_data_lem fuel f, ground (arith, ap fs.mem same))
