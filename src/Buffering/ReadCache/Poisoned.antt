-- ===== src/Buffering/ReadCache/Poisoned.antt =====
-- src/buffering/readCache.h: a block whose read has failed.
use helpers.Prelude.{
  ℕ, ◌+◌, ◌≤◌, ◌<◌, if◌then◌else◌, true, false, some, List, ◌∷◌, ◌≡◌, refl, ap, ◌∙◌, arith,
}
use helpers.Buffering.ReadCache.{
  Content, failed, Limits, entry, settle, new_data, value, ReadCache, refreshed, is_current_read,
  missed, read,
}

-- A block in front of the cache whose read has failed never grows stale: at any later time a read
-- at an offset that the block was to cover leaves the cache as it is, and gives the error again,
-- without asking the handle.
pub failure_kept :
    (l : Limits) (c : ReadCache l) (i : ℕ) (others : List ℕ) (start n x then_at : ℕ) (now : ℕ)
    (handle : ℕ → ℕ → Content) (offset size continuous_size : ℕ)
    → c.clearing ≡ false
    → c.cache ≡ i ∷ others
    → entry c.store i ≡ some (settle then_at (failed x) (new_data start n))
    → start ≤ offset
    → offset < start + n
    → (read l now handle offset size continuous_size c ≡ c)
      × (value (settle then_at (failed x) (new_data start n)) offset size ≡ failed x)
unfolding read value
failure_kept l c i others start n x then_at now handle offset size continuous_size kept front at
      above below =
    let same : refreshed l now c ≡ c = rw (kept, front, at) refl in
    let current : is_current_read l offset c ≡ true = rw (front, at) (ground arith) in
    (
      ap
            (λ d.
              if is_current_read l offset d
              then d
              else missed l now handle offset size continuous_size d)
            same
          ∙ rw current refl,
      refl,
    )
