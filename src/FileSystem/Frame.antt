-- ===== src/FileSystem/Frame.antt =====
-- The image is only read: with the same bytes in it, a file has the same size, blocks and bytes.
use judd_os.Prelude.{
  ℕ, ◌+◌, ◌-◌, ◌*◌, ◌/◌, ◌%◌, ◌^◌, ◌≤◌, ◌<◌, ◌≡◌, ◌≢◌, ◌⊎◌, ◌∙◌, ap, ap₂, sym, subst, arith, some,
  leb, ltb, ◌&&◌, if_true, if_false, min,
}
use judd_os.Prelude.Memory.{Memory, load32}
use judd_os.FileSystem.{Fs, read_data, inode_at, datablock_base}
use judd_os.FileSystem.Data.{
  IsImage, IsFile, IsRead, size_of, block_of, file_byte, count_of, delivered, read_data_delivers,
}

-- The bytes from `lo` up to `hi` are the same.
abbrev pub Agree : ℕ → ℕ → Memory → Memory → Type 0
Agree lo hi m m' = (x : ℕ) → lo ≤ x → x < hi → m' x ≡ m x

abbrev pub with_mem : Fs → Memory → Fs
with_mem fs m = record fs { mem = m }

pub Agree-load32 :
    (lo hi : ℕ) (m m' : Memory) (a : ℕ)
    → Agree lo hi m m'
    → lo ≤ a
    → a + 4 ≤ hi
    → load32 m' a ≡ load32 m a
unfolding load32
Agree-load32 lo hi m m' a same low high =
    ap₂ (λ b c. b + c)
      (ap₂ (λ b c. b + c)
        (ap₂ (λ b c. b + 2 ^ 8 * c) (same a low (omega (arith, high)))
          (same (a + 1) (omega (arith, low)) (omega (arith, high))))
        (ap (λ b. 2 ^ 16 * b) (same (a + 2) (omega (arith, low)) (omega (arith, high)))))
      (ap (λ b. 2 ^ 24 * b) (same (a + 3) (omega (arith, low)) (omega (arith, high))))

module _ (fs : Fs) (hi inode : ℕ) (m : Memory) (image : IsImage fs hi) (file : IsFile fs inode)
    (same : Agree fs.filesystem_addr hi fs.mem m) where
  inode_low : fs.filesystem_addr + 4096 + inode * 4096 + 4096 ≤ hi
  inode_low = omega (arith, image.ends, file.exists)

  inode_plain : inode_at fs inode ≡ fs.filesystem_addr + 4096 + inode * 4096
  inode_plain = omega (arith, image.inodes_fit, file.exists)

  pub same_size : size_of (with_mem fs m) inode ≡ size_of fs inode
  same_size =
      Agree-load32 fs.filesystem_addr hi fs.mem m (inode_at fs inode) same
        (omega (arith, inode_plain)) (omega (arith, inode_plain, inode_low))

  same_block :
      (q : ℕ) → 4096 * q < size_of fs inode → block_of (with_mem fs m) inode q ≡ block_of fs inode q
  same_block q h =
      Agree-load32 fs.filesystem_addr hi fs.mem m (inode_at fs inode + 4 * (q + 1)) same
        (omega (arith, inode_plain)) (omega (arith, inode_plain, inode_low, file.fits, h))

  same-IsFile : IsFile (with_mem fs m) inode
  same-IsFile = record {
    exists = file.exists;
    fits = subst (λ s. s ≤ 1023 * 4096) (sym same_size) file.fits;
    blocks = λ q h.
        (let h' : 4096 * q < size_of fs inode = subst (λ s. 4096 * q < s) same_size h in
          subst (λ b. b < fs.num_datablocks) (sym (same_block q h')) (file.blocks q h'));
  }

  same_place :
      (p : ℕ) → p < size_of fs inode → file_byte (with_mem fs m) inode p ≡ file_byte fs inode p
  same_place p h =
      ap (λ b. datablock_base fs + b * 4096 + p % 4096) (same_block (p / 4096) (omega (arith, h)))

  place_low : (p : ℕ) → p < size_of fs inode → file_byte fs inode p < hi
  place_low p h =
      let below = file.blocks (p / 4096) (omega (arith, h)) in
      omega (arith, image.ends, image.inodes_fit, below)

  place_high : (p : ℕ) → fs.filesystem_addr ≤ file_byte fs inode p
  place_high p = omega arith

  pub same_byte :
      (p : ℕ)
      → p < size_of fs inode
      → m (file_byte (with_mem fs m) inode p) ≡ fs.mem (file_byte fs inode p)
  same_byte p h = ap m (same_place p h) ∙ same (file_byte fs inode p) (place_high p) (place_low p h)

count_small : (fs : Fs) (inode offset length : ℕ) → count_of fs inode offset length ≤ length
count_small fs inode offset length = ground arith

count_inside :
    (fs : Fs) (inode offset length i : ℕ)
    → i < count_of fs inode offset length
    → offset + i < size_of fs inode
count_inside fs inode offset length i h = ground (arith, h)

delivered_out :
    (fs : Fs) (inode offset buf count x : ℕ)
    → (x < buf) ⊎ (buf + count ≤ x)
    → delivered fs inode offset buf count x ≡ fs.mem x
delivered_out fs inode offset buf count x out =
    if_false {b = leb buf x && ltb x (buf + count)} _ _ (ground (arith, out))

delivered_in :
    (fs : Fs) (inode offset buf count i : ℕ)
    → i < count
    → delivered fs inode offset buf count (buf + i) ≡ fs.mem (file_byte fs inode (offset + i))
delivered_in fs inode offset buf count i h =
    if_true {b = leb buf (buf + i) && ltb (buf + i) (buf + count)} _ _ (ground (arith, h))
    ∙ ap (λ j. fs.mem (file_byte fs inode (offset + j))) (omega arith)

-- A read at a block boundary, or in one block, from a file whose image is as in `fs`.
pub record ReadStep (fs : Fs) (m m' : Memory) (inode offset buf count : ℕ) : Type 0 where
  pub kept : (x : ℕ) → (x < buf) ⊎ (buf + count ≤ x) → m' x ≡ m x
  pub bytes : (i : ℕ) → i < count → m' (buf + i) ≡ fs.mem (file_byte fs inode (offset + i))

one_block :
    (n length offset : ℕ)
    → n ≤ length
    → (offset % 4096 ≡ 0) ⊎ (offset % 4096 + length ≤ 4096)
    → (offset % 4096 ≡ 0) ⊎ (offset % 4096 + n ≤ 4096)
one_block n length offset small block = ground (arith, small, block)

pub read_step :
    (fuel : ℕ) (fs : Fs) (hi inode offset buf length : ℕ) (m : Memory)
    → IsImage fs hi
    → IsFile fs inode
    → Agree fs.filesystem_addr hi fs.mem m
    → buf ≢ 0
    → offset < size_of fs inode
    → offset + length < 2 ^ 32
    → (hi ≤ buf) ⊎ (buf + length ≤ fs.filesystem_addr)
    → length + 4096 ≤ 4096 * fuel
    → (offset % 4096 ≡ 0) ⊎ (offset % 4096 + length ≤ 4096)
    → (m' : Memory) × (read_data fuel (with_mem fs m) inode offset buf length
        ≡ some (count_of fs inode offset length, with_mem fs m'))
      × ReadStep fs m m' inode offset buf (count_of fs inode offset length)
read_step fuel fs hi inode offset buf length m image file same not_null inside no_wrap apart enough
      block =
    let size = same_size fs hi inode m image file same in
    let r : IsRead (with_mem fs m) hi inode offset buf length = record {
      image = record {
        inodes_fit = image.inodes_fit;
        blocks_fit = image.blocks_fit;
        ends = image.ends;
      };
      file = same-IsFile fs hi inode m image file same;
      not_null = not_null;
      inside = subst (λ s. offset < s) (sym size) inside;
      no_wrap = no_wrap;
      apart = apart;
    } in
    let count : count_of (with_mem fs m) inode offset length ≡ count_of fs inode offset length =
      ap (λ s. min length (s - offset)) size in
    let small = count_small (with_mem fs m) inode offset length in
    let runs =
      read_data_delivers (with_mem fs m) hi inode offset buf length r fuel
        (omega (arith, enough, small)) (one_block _ length offset small block) in
    (
      delivered (with_mem fs m) inode offset buf (count_of fs inode offset length),
      subst
          (λ n.
            read_data fuel (with_mem fs m) inode offset buf length
            ≡ some (n, with_mem fs (delivered (with_mem fs m) inode offset buf n)))
          count runs,
      record {
        kept = λ x out. delivered_out (with_mem fs m) inode offset buf _ x out;
        bytes = λ i h.
            delivered_in (with_mem fs m) inode offset buf _ i h
            ∙ same_byte fs hi inode m image file same (offset + i)
                (count_inside fs inode offset length i h);
      },
    )
