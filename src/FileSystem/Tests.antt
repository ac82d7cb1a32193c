-- ===== src/FileSystem/Tests.antt =====
-- Runs on the sample file system.
use judd_os.Prelude.{ℕ, zero, suc, inl, inr, ◌≡◌, ◌<◌, ◌*◌, ◌+◌, refl, arith, some}
use judd_os.Prelude.Word.{fail}
use judd_os.Prelude.Memory.{load32}
use judd_os.Block.Reference.{filled}
use judd_os.FileSystem.{Fs, read_dentry_by_name, read_data}
use judd_os.FileSystem.Lookup.{
  IsQuery, Named, read_dentry_by_name_found, read_dentry_by_name_missing,
}
use judd_os.FileSystem.Entry.{loaded}
use judd_os.FileSystem.Data.{
  IsImage, IsFile, IsRead, block_of, delivered, read_data_delivers, read_data_overruns,
}
use judd_os.FileSystem.Sample.{image, small_fs, image-IsBytes, small-IsDirectory, small-IsQuery}

read_dentry_by_name_found_example :
    read_dentry_by_name 64 small_fs 100 3000
    ≡ some (0, record small_fs { mem = loaded image 3000 65600 1 })
unfolding small-IsQuery small-IsDirectory
read_dentry_by_name_found_example =
    read_dentry_by_name_found 64 small_fs 100 1 3000 small-IsQuery 0 (omega arith)
      (record { size = refl; bytes = λ i h. ground arith }) (λ j h. absurd (omega arith))

missing-IsQuery : IsQuery 64 small_fs 300 0 3000
missing-IsQuery = record {
  bytes = image-IsBytes;
  dir = small-IsDirectory;
  not_null = λ e. omega (arith, e);
  dir_apart = inr (omega arith);
  name = record { ends = refl; before = λ i h. absurd (omega (arith, h)) };
  name_apart = inl (omega arith);
  name_short = omega arith;
}

not-Named : (j : ℕ) → j < 1 → Named missing-IsQuery j → ⊥
unfolding missing-IsQuery small-IsDirectory
not-Named zero h named = omega (arith, named.size)
not-Named (suc j) h named = omega (arith, h)

read_dentry_by_name_missing_example :
    read_dentry_by_name 64 small_fs 300 3000
    ≡ some (fail, record small_fs { mem = filled image 3000 0 64 })
read_dentry_by_name_missing_example =
    read_dentry_by_name_missing 64 small_fs 300 0 3000 missing-IsQuery not-Named

small-IsImage : IsImage small_fs 90000
small-IsImage = record { inodes_fit = omega arith; blocks_fit = omega arith; ends = omega arith }

small-blocks : (q : ℕ) → 4096 * q < 5000 → block_of small_fs 0 q < 2
unfolding load32
small-blocks zero h = omega arith
small-blocks (suc zero) h = omega arith
small-blocks (suc (suc q)) h = absurd (omega (arith, h))

small-IsFile : IsFile small_fs 0
unfolding load32
small-IsFile = record { exists = omega arith; fits = omega arith; blocks = small-blocks }

small-IsRead : IsRead small_fs 90000 0 0 200000 10
unfolding load32
small-IsRead = record {
  image = small-IsImage;
  file = small-IsFile;
  not_null = λ e. omega (arith, e);
  inside = omega arith;
  no_wrap = omega arith;
  apart = inl (omega arith);
}

read_data_delivers_example :
    read_data 2 small_fs 0 0 200000 10
    ≡ some (10, record small_fs { mem = delivered small_fs 0 0 200000 10 })
unfolding load32
read_data_delivers_example =
    read_data_delivers small_fs 90000 0 0 200000 10 small-IsRead 2 (omega arith) (inl refl)

across-IsRead : IsRead small_fs 90000 0 4090 200000 10
unfolding load32
across-IsRead = record {
  image = small-IsImage;
  file = small-IsFile;
  not_null = λ e. omega (arith, e);
  inside = omega arith;
  no_wrap = omega arith;
  apart = inl (omega arith);
}

read_data_overruns_example :
    (fs : Fs) × (read_data 2 small_fs 0 4090 200000 10 ≡ some (10, fs))
    × (fs.mem 200006 ≡ image (73728 + 2 * 4096 + 0))
unfolding load32
read_data_overruns_example =
    read_data_overruns small_fs 90000 0 4090 200000 10 across-IsRead 2 6 (omega arith) (omega arith)
      (omega arith) (omega arith)
