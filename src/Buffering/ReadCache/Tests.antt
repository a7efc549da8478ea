-- ===== src/Buffering/ReadCache/Tests.antt =====
-- Tests of the read cache, with a file whose byte at `i` is `10 + i`, up to 100.
use helpers.Prelude.{ℕ, ◌+◌, ◌-◌, ◌*◌, min, false, some, List, [], ◌∷◌, ◌≡◌, refl, inr, arith}
use helpers.KeyValue.Buffer.{Bytes, range}
use helpers.Buffering.ReadCache.{
  Content, pending, filled, failed, ReadData, Limits, entry, settle, new_data, value, ReadCache,
  created, clear, read, completed,
}
use helpers.Buffering.ReadCache.Sound.{Honest, Served}
use helpers.Buffering.ReadCache.Reads.{Sound, read-Served}
use helpers.Buffering.ReadCache.Poisoned.{failure_kept}

-- A coefficient is a whole number, and doubles.
abbrev limits : Limits
limits = record {
  Coeff = ℕ;
  one = 1;
  times_power_base = λ n. n * 2;
  truncated = λ n. n;
  read_buffer_min_size = 4;
  read_buffer_max_size = 8;
  cache_duration = 50;
  target_latency = 20;
}

abbrev file : ℕ → ℕ
file i = 10 + i

abbrev disk : ℕ → ℕ → Content
disk offset size = filled (range file offset (min size (100 - offset)))

abbrev slow : ℕ → ℕ → Content
slow offset size = pending

-- The first read fetches a block, the second one is behind it, fetches the next block and reads
-- four bytes ahead.
abbrev second : ReadCache limits
second = read limits 7 disk 3 2 20 (read limits 5 disk 0 3 20 (created limits))

second_is : second.cache ≡ 1 ∷ 2 ∷ []
unfolding read
second_is = refl

ahead :
    entry second.store 2
    ≡ some (record { offset = 5; size = 4; t = some 7; content = filled (15 ∷ 16 ∷ 17 ∷ 18 ∷ []) })
unfolding read
ahead = refl

-- What was cleared is fetched again.
cleared_is : (read limits 8 slow 3 2 20 (clear limits second)).cache ≡ 3 ∷ []
unfolding read clear
cleared_is = refl

disk-Honest : Honest file 100 disk
disk-Honest offset size buf e = filled_inj e
  where
    filled_inj : {a b : Bytes} → filled a ≡ filled b → b ≡ a
    filled_inj e = ground arith

slow-Honest : Honest file 100 slow
slow-Honest offset size buf e = absurd (ground arith)

-- The read of the block ends after the read of the cache.
read-Served_example :
    let d = read limits 5 slow 4 3 20 (created limits) in
    Sound limits file 100 d
    × ((i : ℕ) × (others : List ℕ) × (e : ReadData) × (d.cache ≡ i ∷ others)
        × (entry d.store i ≡ some e)
        × Served file 100 4 3 (value e 4 3)
        × Served file 100 4 3 (value (settle 9 (disk e.offset e.size) e) 4 3))
read-Served_example =
    read-Served limits file 100 5 slow slow-Honest 4 3 20 9 disk (created limits) (inr tt)
      disk-Honest

-- A block that failed at 6 is still in front at 1000.
abbrev broken : ReadCache limits
broken = completed limits 6 0 (failed 5) (read limits 5 slow 4 3 20 (created limits))

broken_clearing : broken.clearing ≡ false
unfolding completed read
broken_clearing = refl

broken_cache : broken.cache ≡ 0 ∷ []
unfolding completed read
broken_cache = refl

broken_entry : entry broken.store 0 ≡ some (settle 6 (failed 5) (new_data 4 3))
unfolding completed read
broken_entry = refl

failure_kept_example :
    (read limits 1000 disk 5 1 20 broken ≡ broken)
    × (value (settle 6 (failed 5) (new_data 4 3)) 5 1 ≡ failed 5)
failure_kept_example =
    failure_kept limits broken 0 [] 4 3 5 6 1000 disk 5 1 20 broken_clearing broken_cache
      broken_entry (omega arith) (omega arith)
