-- ===== src/Paging/Process.antt =====
-- `set_process_memory` and `free_process_memory`: each process has a 4 MB page of its own.
use judd_os.Prelude.{ℕ, ◌+◌, ◌*◌, ◌/◌, ◌<◌, ◌≡◌, ◌≢◌, arith, none, some, Bool, true}
use judd_os.Paging.{
  Tables, put, process_base, set_process_memory, free_process_memory, vid_buf_addr_base,
}
use judd_os.Paging.Walk.{walk}

module _ (page_table_at video_table_at : ℕ) where
  -- With a process number below 6, a program reaches the 4 MB from 128 MB on at 8 MB plus 4 MB for each
  -- smaller number, so below the video buffers, and every other address leads where it led before.
  pub set_process_memory_lem :
      (pid off : ℕ) (t : Tables)
      → pid < 6
      → off < 0x400000
      → (walk page_table_at video_table_at true (set_process_memory pid t) (0x08000000 + off)
          ≡ some (0x800000 + pid * 0x400000 + off))
        × (0x800000 + pid * 0x400000 + off < vid_buf_addr_base)
        × ((user : Bool) (va : ℕ)
            → va / 0x400000 ≢ 32
            → walk page_table_at video_table_at user (set_process_memory pid t) va
              ≡ walk page_table_at video_table_at user t va)
  unfolding set_process_memory process_base put
  set_process_memory_lem pid off t small low =
      (ground arith, omega arith, λ user va other. ground arith)

  -- Whatever the process number, `free_process_memory` leaves no translation in the 4 MB from 128 MB on.
  pub free_process_memory_lem :
      (user : Bool) (pid off : ℕ) (t : Tables)
      → off < 0x400000
      → walk page_table_at video_table_at user (free_process_memory pid t) (0x08000000 + off) ≡ none
  unfolding free_process_memory put
  free_process_memory_lem user pid off t low = ground arith
