-- ===== src/Communication/Client/Connect.antt =====
-- src/communication/clprotoClientBootstrap.cc: the attempts at setting up a connection. Times are in
-- milliseconds.
use helpers.Prelude.{
  ℕ, zero, suc, ◌+◌, ltb, ◌==◌, if◌then◌else◌, Bool, Option, none, some, List, [], ◌∷◌, ◌++◌,
  length, get_or, min,
}

-- `CLIENT_RECONNECT_DELAYS`.
abbrev pub reconnect_delays : List ℕ
reconnect_delays =
    0 ∷ 100 ∷ 1000 ∷ 1000 ∷ 1000 ∷ 1000 ∷ 5000 ∷ 5000 ∷ 5000 ∷ 15000 ∷ 15000 ∷ 15000 ∷ 60000 ∷ []

-- What is done on a connection, in the order of the chained futures.
pub data Stage : Type 0 where
  open_socket : Stage
  send_upgrade_request : Stage
  await_upgrade : Stage
  remove_upgrade_handler : Stage
  finalize : Stage
  send_handshake : Stage
  await_handshake : Stage
  remove_handshake_handler : Stage

abbrev pub upgrade_stages : Bool → List Stage
upgrade_stages upgrade =
    if upgrade then send_upgrade_request ∷ await_upgrade ∷ remove_upgrade_handler ∷ [] else []

abbrev pub handshake_stages : Bool → List Stage
handshake_stages handshake =
    if handshake
    then send_handshake ∷ await_handshake ∷ remove_handshake_handler ∷ finalize ∷ []
    else []

-- The first stage is the socket's, the others run once it is open.
abbrev pub stages : Bool → Bool → List Stage
stages upgrade handshake =
    open_socket ∷ upgrade_stages upgrade ++ finalize ∷ handshake_stages handshake

-- A chain of futures ends with its first error.
abbrev pub first_error : (Stage → Option ℕ) → List Stage → Option ℕ
first_error answer [] = none
first_error answer (s ∷ ss) =
    let rest = first_error answer ss in elim (answer s) [ none ↦ rest | some e ↦ some e ]

-- How an attempt ends. Only a connection that is refused is handled by `onError`.
pub data Attempt : Type 0 where
  close_failed : ℕ → Attempt
  unresolved : ℕ → Attempt
  refused : ℕ → Attempt
  accepted : Attempt

-- What the outside answers, by the number of the attempt: to the closing of the pipeline that
-- exists, to the resolution of the host's name, and to each stage.
pub record World : Type 0 where
  pub close : ℕ → Option ℕ
  pub resolve : ℕ → Option ℕ
  pub answer : ℕ → Stage → Option ℕ

abbrev pub attempt_of : Option ℕ → Option ℕ → Option ℕ → Attempt
attempt_of (some e) resolved chained = close_failed e
attempt_of none (some e) chained = unresolved e
attempt_of none none (some e) = refused e
attempt_of none none none = accepted

abbrev pub closed : World → ℕ → Option ℕ
closed w reconnect_attempt = if reconnect_attempt == 0 then none else w.close reconnect_attempt

abbrev pub attempt : Bool → Bool → World → ℕ → Attempt
attempt upgrade handshake w n =
    attempt_of (closed w n) (w.resolve n) (first_error (w.answer n) (stages upgrade handshake))

pub data Ended : Type 0 where
  established : Ended
  failed : ℕ → Ended
  out_of_range : Ended

-- How `connect` ends, and how long it has waited.
pub record Course : Type 0 where
  pub ended : Ended
  pub waited : ℕ

abbrev pub delayed : ℕ → Course → Course
delayed t c = record c { waited = t + c.waited }

-- `rest` is how the next attempt goes on.
abbrev pub on_error : ℕ → Option Course → Attempt → Option Course
on_error n rest accepted = some (record { ended = established; waited = 0 })
on_error n rest (close_failed e) = some (record { ended = failed e; waited = 0 })
on_error n rest (unresolved e) = some (record { ended = failed e; waited = 0 })
on_error n rest (refused e) =
    if n == 0 then some (record { ended = failed e; waited = 0 }) else rest

abbrev pub after_delay : ℕ → Option Course → Option Course
after_delay t none = none
after_delay t (some c) = some (delayed t c)

-- `std::array::at` throws from the array's length on.
unfoldable pub connect : (ℕ → Attempt) → ℕ → ℕ → Option Course
connect tried zero n = none
connect tried (suc fuel) n =
    let rest = connect tried fuel (suc n) in
    if ltb (min n (length reconnect_delays)) (length reconnect_delays)
    then after_delay (get_or reconnect_delays (min n (length reconnect_delays)) 0)
        (on_error n rest (tried n))
    else some (record { ended = out_of_range; waited = 0 })
