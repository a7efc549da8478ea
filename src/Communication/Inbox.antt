-- ===== src/Communication/Inbox.antt =====
-- src/communication/layers/inbox.h: replies are matched with requests by message ids. An id is the
-- number that its text shows, and a callback is known by a number; what is called back is a list.
-- Subscriptions and the logging of times are left out.
pub mod Once
pub mod Tests
use helpers.Prelude.{
  ℕ, ◌+◌, ◌%◌, ◌^◌, u64, Option, none, some, List, [], ◌∷◌, ◌++◌, find, put, erase,
}

-- What a callback is given: an error code, or the body of a reply.
pub data Reply : Type 0 where
  failed : ℕ → Reply
  replied : ℕ → Reply

pub record Inbox : Type 0 where
  pub callbacks : List (ℕ × ℕ)
  pub seed : ℕ
  pub next_msg_id : ℕ

-- The inbox after an event, and who is called back.
pub record Called : Type 0 where
  pub inbox : Inbox
  pub calls : List (ℕ × Reply)

abbrev pub message_id_at : ℕ → ℕ → ℕ
message_id_at seed n = u64 (seed + n)

-- The message is sent with the id `message_id_at b.seed b.next_msg_id`.
unfoldable pub communicate : Inbox → ℕ → Inbox
communicate b callback = record b {
  callbacks = put (message_id_at b.seed b.next_msg_id) callback b.callbacks;
  next_msg_id = (b.next_msg_id + 1) % 2 ^ 16;
}

-- The entry of an id is erased and called back, if there is one.
abbrev pub finish : Inbox → ℕ → Option ℕ → Reply → Called
finish b message_id none reply = record { inbox = b; calls = [] }
finish b message_id (some callback) reply = record {
  inbox = record b { callbacks = erase message_id b.callbacks };
  calls = (callback, reply) ∷ [];
}

-- The callback that `communicate` hands to the lower layer, when sending failed.
unfoldable pub send_error : Inbox → ℕ → ℕ → Called
send_error b message_id ec = finish b message_id (find message_id b.callbacks) (failed ec)

-- The callback that `connect` hands to the lower layer.
unfoldable pub on_message : Inbox → ℕ → ℕ → Called
on_message b message_id body = finish b message_id (find message_id b.callbacks) (replied body)
