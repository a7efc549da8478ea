-- ===== src/Communication/Client/Tests.antt =====
-- Tests of the response handlers and of the attempts at connecting.
use helpers.Prelude.{
  ℕ, zero, suc, ◌==◌, if◌then◌else◌, true, List, [], ◌∷◌, ◌++◌, Option, none, some, ◌≡◌, refl,
  arith,
}
use helpers.KeyValue.Buffer.{Bytes}
use helpers.Communication.Client.Handlers.{
  unset, with_value, with_exception, response_status, read_handshake, read_upgrade, starts_with,
}
use helpers.Communication.Client.Connect.{
  Attempt, World, attempt, established, failed, connect, Stage, await_upgrade,
}
use helpers.Communication.Client.Handled.{
  fresh_handshake, read_handshakes, handshake_settled, fresh_upgrade, read_upgrades, joined,
  header_closed,
}
use helpers.Communication.Client.Attempts.{Ends, attempts_lem}

-- A response that is an error, then two messages.
abbrev refuses_four : ℕ → ℕ
refuses_four m = if m == 4 then 7 else 0

handshake_settled_example :
    let h = read_handshakes refuses_four (4 ∷ 5 ∷ 6 ∷ []) fresh_handshake in
    (h.promise ≡ with_value)
    × (h.done ≡ [])
    × (h.fired ≡ 5 ∷ 6 ∷ [])
    × ((read_handshake refuses_four 4 fresh_handshake).threw ≡ true)
handshake_settled_example = handshake_settled refuses_four 4 (5 ∷ 6 ∷ [])

-- The header ends in the second chunk, which goes on with a byte 9.
header_closed_example :
    let cs : List Bytes = (response_status ++ 13 ∷ 10 ∷ []) ∷ [] in
    let c : Bytes = 13 ∷ 10 ∷ 9 ∷ [] in
    (read_upgrades cs fresh_upgrade ≡ record { promise = unset; buf = joined cs; fired = [] })
    × (read_upgrade (8 ∷ []) (read_upgrade c (read_upgrades cs fresh_upgrade)) ≡ (
        if starts_with response_status (joined cs ++ c)
        then record { promise = with_value; buf = []; fired = 8 ∷ [] }
        else record { promise = with_exception; buf = []; fired = (joined cs ++ c) ++ 8 ∷ [] }))
header_closed_example =
    header_closed ((response_status ++ 13 ∷ 10 ∷ []) ∷ []) (13 ∷ 10 ∷ 9 ∷ []) (8 ∷ []) refl refl

-- A server that does not answer to the first three requests for an upgrade.
abbrev slow_server : World
slow_server = record { close = λ n. none; resolve = λ n. none; answer = slow }
  where
    slow : ℕ → Stage → Option ℕ
    slow zero await_upgrade = some 5
    slow (suc zero) await_upgrade = some 5
    slow (suc (suc zero)) await_upgrade = some 5
    slow n s = none

abbrev slow_attempt : ℕ → Attempt
slow_attempt = attempt true true slow_server

reconnected : connect slow_attempt 14 1 ≡ some (record { ended = established; waited = 2100 })
unfolding connect
reconnected = refl

attempts_lem_example :
    (connect slow_attempt 14 0 ≡ some (record { ended = failed 5; waited = 0 }))
    × Ends slow_attempt 1 (connect slow_attempt 14 1)
attempts_lem_example = attempts_lem slow_attempt 14 1 (omega arith) (omega arith)
