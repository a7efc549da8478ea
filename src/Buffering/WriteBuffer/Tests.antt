-- ===== src/Buffering/WriteBuffer/Tests.antt =====
-- Tests of the write buffer, and its theorems on a run with a flush threshold of 4 bytes.
use helpers.Prelude.{◌+◌, ◌<◌, ◌≤◌, ◌≡◌, refl, some, List, [], ◌∷◌}
use helpers.Buffering.WriteBuffer.{
  WriteBuffer, create, push_buffer, confirm_loop, confirm, confirm_over_threshold, write,
  calculate_flush_threshold, calculate_confirm_threshold, Step, write_step, flush_step,
  measured_step, step, run,
}
use helpers.Buffering.WriteBuffer.Ranges.{File, apply_all}
use helpers.Buffering.WriteBuffer.Confirm.{Valid}
use helpers.Buffering.WriteBuffer.Stepped.{contents}
use helpers.Buffering.WriteBuffer.Run.{written, create-Valid, write_bounded, run_writes}

-- Two writes that meet, a flush, one elsewhere, and one that passes the threshold.
abbrev steps : List Step
steps =
    write_step 0 (1 ∷ 2 ∷ [])
    ∷ write_step 2 (3 ∷ [])
    ∷ flush_step
    ∷ measured_step 1
    ∷ write_step 9 (4 ∷ [])
    ∷ write_step 0 (5 ∷ 6 ∷ 7 ∷ 8 ∷ [])
    ∷ []

abbrev after_steps : WriteBuffer
after_steps = record {
  write_buffer_min_size = 4;
  write_buffer_max_size = 8;
  buffered_size = 0;
  next_offset = 4;
  buffers = [];
  bps = 0;
  pending_confirmation = 8;
  confirmation_futures = 3 ∷ 5 ∷ [];
  sent = ((0, 1 ∷ 2 ∷ 3 ∷ []) ∷ []) ∷ ((9, 4 ∷ []) ∷ (0, 5 ∷ 6 ∷ 7 ∷ 8 ∷ []) ∷ []) ∷ [];
}

-- 8 bytes wait in two batches, below the confirm threshold of 24.
run_test : run (create 4 8) steps ≡ some after_steps
unfolding run step write push_buffer confirm_over_threshold confirm confirm_loop
run_test = refl

run_writes_example :
    (after : WriteBuffer) × (run (create 4 8) steps ≡ some after)
    × ((f : File) → apply_all (contents after) f ≡ apply_all (written steps) f)
run_writes_example = run_writes 4 8 steps

write_bounded_example :
    (after : WriteBuffer) × (write (create 1 4) 7 (1 ∷ 2 ∷ []) ≡ some after)
    × (after.buffered_size ≤ calculate_flush_threshold (create 1 4))
    × (calculate_flush_threshold (create 1 4) < 0 + 2
        → after.pending_confirmation ≤ calculate_confirm_threshold (create 1 4))
write_bounded_example = write_bounded (create 1 4) 7 (1 ∷ 2 ∷ []) (create-Valid 1 4)

abbrev holding : WriteBuffer
holding = record (create 1 4) { buffered_size = 2; next_offset = 5; buffers = (3, 1 ∷ 2 ∷ []) ∷ [] }

holding-Valid : Valid holding
holding-Valid = record { buffered = refl; pending = refl; positive = tt; ends = refl }

confirm_test : confirm_loop 6 9 (3 ∷ 5 ∷ 1 ∷ []) ≡ some (6, 5 ∷ 1 ∷ [])
unfolding confirm_loop
confirm_test = refl
