-- ===== src/FileSystem/Sample.antt =====
-- A file system of one file, "a", of 5000 bytes, whose two blocks are the second and the first; the file is a clock to
-- `open`, since its type is 0.
use judd_os.Prelude.{ℕ, inl, inr, refl, arith, if◌then◌else◌, ◌==◌}
use judd_os.Prelude.Memory.{Memory, IsBytes}
use judd_os.FileSystem.{Fs}
use judd_os.FileSystem.Lookup.{IsDirectory, IsQuery}

-- The name looked up is at 100.
abbrev pub image : Memory
image x =
    if x == 100
    then 97
    else if x == 65600
    then 97
    else if x == 69632
    then 136
    else if x == 69633
    then 19
    else if x == 69636
    then 1
    else 0

abbrev pub small_fs : Fs
small_fs = record {
  mem = image;
  filesystem_addr = 65536;
  num_dentries = 1;
  num_inodes = 1;
  num_datablocks = 2;
  file_index = 0;
  opened_file = 1000;
  reserved = 2000;
}

pub image-IsBytes : IsBytes image
image-IsBytes x = ground arith

abbrev pub entry_length : ℕ → ℕ
entry_length i = if i == 0 then 1 else 0

unfoldable pub small-IsDirectory : IsDirectory 64 image 65600 1
small-IsDirectory = record {
  lens = entry_length;
  strings = λ i h. record { ends = ground arith; before = λ j p. ground arith };
  short = λ i h. ground arith;
  enough = omega arith;
}

unfoldable pub small-IsQuery : IsQuery 64 small_fs 100 1 3000
small-IsQuery = record {
  bytes = image-IsBytes;
  dir = small-IsDirectory;
  not_null = λ e. omega (arith, e);
  dir_apart = inr (omega arith);
  name = record { ends = refl; before = λ i h. ground arith };
  name_apart = inl (omega arith);
  name_short = omega arith;
}
