-- ===== src/Communication/ConnectionPool/Once.antt =====
-- src/communication/connectionPool.cc: that connections and callbacks are not shared.
use helpers.Prelude.{
  Bool-cases, inl, inr, ℕ, ◌≤◌, ltb, ◌&&◌, if◌then◌else◌, Bool, true, false, find, ◌≡◌, refl, arith,
}
use helpers.Communication.ConnectionPool.{Pool, check, pop, written}
use helpers.Communication.ConnectionPool.Steps.{
  Step, checks_step, pops_step, written_step, returned_step, reconnected_step, stop_step, Run,
  stays, sends, steps, Reach,
}
use helpers.Communication.ConnectionPool.Present.{present, present-Run, present-started}
use helpers.Communication.ConnectionPool.Callbacks.{
  held, calm_step, held-check_at, held-pop_at, held_sent, held_failed, held-returned,
  held-reconnected, held-stop, held-send, held-started,
}

-- Whether no write has failed in a run.
abbrev pub is_calm : {n : ℕ} {p : Pool} {m : ℕ} {q : Pool} → Run n p m q → Bool
is_calm stays = true
is_calm (sends r) = is_calm r
is_calm (steps r s) = is_calm r && calm_step s

held-Step :
    (k : ℕ) {p q : Pool} (s : Step p q)
    → held k p ≤ 1
    → ((c : ℕ) → present c p ≤ 1)
    → (held k q ≤ held k p) × (calm_step s ≡ true → held k q ≡ held k p)
unfolding check pop written
held-Step k {p} (checks_step j) one apart =
    let e = held-check_at k j (find j p.senders) p refl one in (omega arith, λ _. e)
held-Step k {p} (pops_step j a) one apart =
    let e = held-pop_at k j a (find j p.senders) p refl one in (omega arith, λ _. e)
held-Step k {p} (written_step client true) one apart =
    let e = held_sent k client (find client p.writing) p refl (omega (arith, apart client)) in
    (omega arith, λ _. e)
held-Step k {p} (written_step client false) one apart =
    (held_failed k client (find client p.writing) p, λ f. ground arith)
held-Step k {p} (returned_step client) one apart =
    let e = held-returned k client p in (omega arith, λ _. e)
held-Step k {p} (reconnected_step client success) one apart =
    let e = held-reconnected k client success p in (omega arith, λ _. e)
held-Step k {p} stop_step one apart = let e = held-stop k p in (omega arith, λ _. e)

abbrev one_below : ℕ → ℕ → ℕ
one_below k m = if ltb k m then 1 else 0

module _ (accepts : ℕ → Bool) (count : ℕ) where
  pub present_one : {m : ℕ} {p : Pool} → Reach accepts count m p → (c : ℕ) → present c p ≤ 1
  present_one r c = omega (arith, present-Run c r, present-started c accepts count)

  held-Reach :
      (k : ℕ) {m : ℕ} {p : Pool} (r : Reach accepts count m p)
      → (held k p ≤ one_below k m) × (is_calm r ≡ true → held k p ≡ one_below k m)
  held-Reach k stays = let e = held-started k accepts count in (ground arith, λ _. ground arith)
  held-Reach k (sends {m} {q} r) =
      let (below, exact) = held-Reach k r in
      let e = held-send k m q in (ground arith, λ c. ground (arith, exact c))
  held-Reach k (steps r s) =
      let (below, exact) = held-Reach k r in
      let (less, same) = held-Step k s (ground arith) (present_one r) in
      (omega arith, λ c. ground (arith, exact (ground arith), same (ground arith)))

  -- However the threads and the executors of a pool are interleaved, stopped or not: a connection
  -- stands at most once in all of the queue, the writes and the reconnections, so that no two
  -- messages are written on it at a time. The callback of a message that was sent is called or held
  -- at most once, and at least once if no write has failed; that of a message still to be sent is
  -- not.
  pub exclusive :
      {m : ℕ} {p : Pool} (c k : ℕ) (r : Reach accepts count m p)
      → (present c p ≤ 1)
        × (held k p ≤ (if ltb k m then 1 else 0))
        × ((if ltb k m && is_calm r then 1 else 0) ≤ held k p)
  exclusive c k r =
      let (below, exact) = held-Reach k r in
      (
        present_one r c,
        below,
        elim (Bool-cases (is_calm r)) [
          | inl calm ↦ let e = exact calm in rw calm (ground arith)
          | inr failing ↦ rw failing (ground arith)
        ],
      )
