-- ===== src/Storage/Tests.antt =====
-- Theorems on several ranges, with a handle that writes at most 2 bytes and with one that writes
-- all, on files in memory.
use helpers.Prelude.{ℕ, ◌≡◌, refl, length, take, min, List, [], ◌∷◌, arith}
use helpers.KeyValue.Buffer.{Bytes}
use helpers.KeyValue.Helper.{ok}
use helpers.Storage.{FileHandle, multiwrite_loop, multiwrite}
use helpers.Storage.Multiwrite.{
  NoExcess, write_each, Complete, multiwrite_never_stops, multiwrite_complete,
}
use helpers.Buffering.WriteBuffer.Ranges.{File, write_at, apply_all}

abbrev short : FileHandle
short = record {
  Store = List (ℕ × Bytes);
  write = λ s offset buf. ((offset, take 2 buf) ∷ s, ok (min 2 (length buf)));
}

short-NoExcess : NoExcess short
short-NoExcess s offset buf n e = ground arith

abbrev ranges : List (ℕ × Bytes)
ranges = (0, 1 ∷ 2 ∷ 3 ∷ []) ∷ (8, 4 ∷ 5 ∷ []) ∷ []

multiwrite_never_stops_example : multiwrite short [] ranges ≡ write_each short ranges 0 []
multiwrite_never_stops_example = multiwrite_never_stops short short-NoExcess [] ranges

-- The second range is written though the first was cut short.
short_test :
    multiwrite short [] ranges
    ≡ record { store = (8, 4 ∷ 5 ∷ []) ∷ (0, 1 ∷ 2 ∷ []) ∷ []; result = ok 4 }
unfolding multiwrite multiwrite_loop
short_test = refl

abbrev full : FileHandle
full = record { Store = File; write = λ s offset buf. (write_at offset buf s, ok (length buf)) }

abbrev full_complete : Complete full
full_complete = record {
  file = λ s. s;
  all_written = λ s offset buf. refl;
  file_written = λ s offset buf. refl;
}

multiwrite_complete_example :
    ((multiwrite full (λ i. 0) ranges).result ≡ ok 5)
    × ((multiwrite full (λ i. 0) ranges).store ≡ apply_all ranges (λ i. 0))
multiwrite_complete_example = multiwrite_complete full full_complete (λ i. 0) ranges
