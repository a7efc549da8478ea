-- ===== src/Communication/Retrier.antt =====
-- src/communication/layers/retrier.h: a message is sent again while sending fails. The lower layer
-- is a parameter: what sending, with a number of retries left, makes of its state, and the error
-- code that it calls back with.
pub mod Attempts
pub mod Tests
use helpers.Prelude.{ℕ, zero, suc, ◌-◌, Option, none, some}

module _ {State : Type 0} (lower_send : ℕ → State → State × Option ℕ) where
  -- What the wrapped callback does with an error code while retries are left.
  abbrev pub retried : Option ℕ → State × Option ℕ → State × Option ℕ → State × Option ℕ
  retried none sent again = sent
  retried (some ec) sent again = again

  -- `retries` is what is left; a negative number is as good as 0.
  unfoldable pub send : ℕ → State → State × Option ℕ
  send zero s = lower_send zero s
  send (suc retries) s =
      let sent = lower_send (suc retries) s in
      let again = send retries sent.0 in retried sent.1 sent again
