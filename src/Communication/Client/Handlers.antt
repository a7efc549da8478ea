-- ===== src/Communication/Client/Handlers.antt =====
-- src/communication/codec/clprotoUpgradeResponseHandler.h and clprotoHandshakeResponseHandler.h.
use helpers.Prelude.{ℕ, ◌==◌, if◌then◌else◌, Bool, true, false, ◌&&◌, ◌||◌, List, [], ◌∷◌, ◌++◌}
use helpers.KeyValue.Buffer.{Bytes}

-- A `folly::Promise<folly::Unit>`.
pub data Promise : Type 0 where
  unset : Promise
  with_value : Promise
  with_exception : Promise

abbrev pub is_fulfilled : Promise → Bool
is_fulfilled unset = false
is_fulfilled with_value = true
is_fulfilled with_exception = true

-- A handler of handshakes, the errors it has told of as being done, and the messages it has passed
-- on. `threw` is whether the last message ended with an exception.
pub record Handshake : Type 0 where
  pub promise : Promise
  pub done : List ℕ
  pub fired : List ℕ
  pub threw : Bool

-- `setException` throws when the promise is fulfilled.
abbrev pub set_exception : Promise → Promise × Bool
set_exception unset = (with_exception, false)
set_exception with_value = (with_value, true)
set_exception with_exception = (with_exception, true)

abbrev pub fire_read : ℕ → Handshake → Handshake
fire_read message h = record h { fired = h.fired ++ message ∷ []; threw = false }

abbrev pub handshake_done : ℕ → Handshake → Handshake
handshake_done error h = record h { done = h.done ++ error ∷ [] }

abbrev pub handshake_failed : ℕ → ℕ → Promise × Bool → Handshake → Handshake
handshake_failed message error (p, true) h = record h { promise = p; threw = true }
handshake_failed message error (p, false) h =
    fire_read message (handshake_done error (record h { promise = p }))

-- `on_response` is `m_onHandshakeResponse`.
abbrev pub first_response : (ℕ → ℕ) → ℕ → Handshake → Handshake
first_response on_response message h =
    if on_response message == 0
    then fire_read message (handshake_done 0 h)
    else handshake_failed message (on_response message) (set_exception h.promise) h

unfoldable pub read_handshake : (ℕ → ℕ) → ℕ → Handshake → Handshake
read_handshake on_response message h =
    if is_fulfilled h.promise
    then fire_read message h
    else first_response on_response message (record h { promise = with_value })

-- The bytes of "HTTP/1.1 101 Switching Protocols".
abbrev pub response_status : Bytes
response_status =
    72 ∷ 84 ∷ 84 ∷ 80 ∷ 47 ∷ 49 ∷ 46 ∷ 49 ∷ 32 ∷ 49 ∷ 48 ∷ 49 ∷ 32 ∷ 83 ∷ 119 ∷ 105 ∷ 116 ∷ 99 ∷ 104
    ∷ 105 ∷ 110 ∷ 103 ∷ 32 ∷ 80 ∷ 114 ∷ 111 ∷ 116 ∷ 111 ∷ 99 ∷ 111 ∷ 108 ∷ 115 ∷ []

-- "\r\n\r\n".
abbrev pub end_of_header : Bytes
end_of_header = 13 ∷ 10 ∷ 13 ∷ 10 ∷ []

abbrev pub starts_with : Bytes → Bytes → Bool
starts_with [] buf = true
starts_with (x ∷ xs) [] = false
starts_with (x ∷ xs) (b ∷ buf) = (x == b) && starts_with xs buf

-- `find` gives a position.
abbrev pub contains : Bytes → Bytes → Bool
contains xs [] = starts_with xs []
contains xs (b ∷ buf) = starts_with xs (b ∷ buf) || contains xs buf

-- A handler of upgrade responses, the bytes received and not passed on, and the bytes it has
-- passed on.
pub record Upgrade : Type 0 where
  pub promise : Promise
  pub buf : Bytes
  pub fired : Bytes

abbrev pub checked_response : Upgrade → Upgrade
checked_response u =
    if starts_with response_status u.buf
    then record u { promise = with_value; buf = [] }
    else record u { promise = with_exception }

abbrev pub read_response : Upgrade → Upgrade
read_response u = if contains end_of_header u.buf then checked_response u else u

-- Bytes arrive behind those that are there. The handlers above take what is passed on.
unfoldable pub read_upgrade : Bytes → Upgrade → Upgrade
read_upgrade chunk u =
    if is_fulfilled u.promise
    then record u { buf = []; fired = u.fired ++ u.buf ++ chunk }
    else read_response (record u { buf = u.buf ++ chunk })
