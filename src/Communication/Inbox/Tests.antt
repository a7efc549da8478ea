-- ===== src/Communication/Inbox/Tests.antt =====
-- A test of the inbox: two requests near the end of the 64-bit numbers, of which the second is
-- answered twice.
use helpers.Prelude.{ℕ, ◌+◌, ◌≡◌, refl, find, List, [], ◌∷◌, arith}
use helpers.Communication.Inbox.{replied, communicate, on_message, send_error, message_id_at}
use helpers.Communication.Inbox.Once.{
  Event, communicate_event, message_event, history, after, times, one_if, called_once,
}

abbrev seed : ℕ
seed = 18446744073709551615

-- The newest event first.
abbrev events : List Event
events = message_event 0 8 ∷ message_event 0 9 ∷ communicate_event ∷ communicate_event ∷ []

calls_test : (history seed events).calls ≡ (1, replied 9) ∷ []
unfolding history after communicate on_message send_error
calls_test = refl

called_once_example :
    times 1 (history seed events).calls
      + one_if (find (message_id_at seed 1) (history seed events).inbox.callbacks) 1
    ≡ 1
called_once_example = called_once seed events 1 (omega arith) (omega arith)
