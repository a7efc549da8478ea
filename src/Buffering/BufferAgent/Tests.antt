-- ===== src/Buffering/BufferAgent/Tests.antt =====
-- Tests of the guard and of a buffered handle, and their theorems on short runs.
use helpers.Prelude.{ℕ, ◌-◌, ◌*◌, min, u64_mod, true, Option, none, some, [], ◌∷◌, ◌≡◌, refl, arith}
use helpers.KeyValue.Buffer.{range}
use helpers.Buffering.WriteBuffer as write_buffer
use helpers.Buffering.WriteBuffer.Ranges.{File}
use helpers.Buffering.ReadCache.{Content, filled, Limits}
use helpers.Buffering.ReadCache as read_cache
use helpers.Buffering.BufferAgent.{
  BufferLimits, reserve_buffers, release_buffers, Agent, on_open, Handle, write, write_waited,
  buffer_fsync, flush, batch_ended,
}
use helpers.Buffering.BufferAgent.Limit.{started, starts, opens, Reserved, reserved_lem}
use helpers.Buffering.BufferAgent.ReadBack.{opened}
use helpers.Buffering.BufferAgent.ReadBack as read_back_run

-- Room for two buffered files.
abbrev limits : BufferLimits
limits = record {
  read_buffer_max_size = 10;
  write_buffer_max_size = 5;
  read_buffers_total_size = 25;
  write_buffers_total_size = 0;
}

abbrev three_opened : Agent
three_opened = on_open limits (on_open limits (on_open limits (started limits)))

three_opened_are : three_opened ≡ record {
  guard = record {
    limits = limits;
    read_buffers_reserved_size = 20;
    write_buffers_reserved_size = 10;
  };
  buffered = 2;
  unbuffered = 1;
}
unfolding on_open reserve_buffers
three_opened_are = refl

-- More than was reserved is released, and the difference wraps around.
released_too_much :
    release_buffers 11 5
      (record { limits = limits; read_buffers_reserved_size = 10; write_buffers_reserved_size = 5 })
    ≡ (
      record {
        limits = limits;
        read_buffers_reserved_size = u64_mod - 1;
        write_buffers_reserved_size = 0;
      },
      true,
    )
unfolding release_buffers
released_too_much = refl

reserved_lem_example :
    Reserved 25 10 three_opened.buffered three_opened.guard.read_buffers_reserved_size
    × Reserved 0 5 three_opened.buffered three_opened.guard.write_buffers_reserved_size
    × ((release_buffers 11 5 three_opened.guard).1 ≡ true)
reserved_lem_example =
    reserved_lem limits (omega arith) (omega arith) 11 5 (opens (opens (opens starts)))

abbrev cache_limits : Limits
cache_limits = record {
  Coeff = ℕ;
  one = 1;
  times_power_base = λ n. n * 2;
  truncated = λ n. n;
  read_buffer_min_size = 4;
  read_buffer_max_size = 8;
  cache_duration = 50;
  target_latency = 20;
}

abbrev zeros : File
zeros i = 0

abbrev disk : File → ℕ → ℕ → ℕ → Content
disk file n offset size = filled (range file offset (min size (n - offset)))

abbrev or_handle : Handle cache_limits → Option (Handle cache_limits) → Handle cache_limits
or_handle h none = h
or_handle h (some k) = k

abbrev new_handle : Handle cache_limits
new_handle = opened cache_limits 4 8 zeros 6

-- Two bytes are written and flushed, and their batch ends; one is written over them, and held back.
abbrev flushed : Handle cache_limits
flushed = batch_ended (flush (or_handle new_handle (write_waited 1 (7 ∷ 8 ∷ []) new_handle)))

abbrev held_back : Handle cache_limits
held_back = or_handle flushed (write_waited 2 (9 ∷ []) flushed)

-- A buffer that holds back no byte confirms each write at once.
abbrev unheld : Handle cache_limits
unheld = opened cache_limits 0 0 zeros 6

-- A write whose future is not waited for: its batch is not written, and a synchronisation, and so a
-- read, does not wait for it either.
abbrev unwaited : Handle cache_limits
unwaited = or_handle unheld (write 1 (7 ∷ 8 ∷ []) unheld)

read_too_early : (or_handle unheld (buffer_fsync unwaited)).file 1 ≡ 0
unfolding write write_buffer.write write_buffer.push_buffer write_buffer.confirm_loop buffer_fsync
    write_buffer.fsync write_buffer.confirm write_buffer.confirm_over_threshold
read_too_early = refl

read_in_time :
    (or_handle unheld (buffer_fsync (or_handle unheld (write_waited 1 (7 ∷ 8 ∷ []) unheld)))).file 1
    ≡ 7
unfolding write write_waited write_buffer.write write_buffer.push_buffer write_buffer.confirm_loop
    buffer_fsync write_buffer.fsync write_buffer.confirm write_buffer.confirm_over_threshold
    read_cache.clear
read_in_time = refl
