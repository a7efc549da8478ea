-- ===== src/Communication/Inbox/Once.antt =====
-- src/communication/layers/inbox.h: how often a request is called back, over a history of events.
use helpers.Prelude.{
  ℕ, suc, ◌+◌, ◌%◌, ◌^◌, ◌<◌, ◌≤◌, ◌≡◌, ◌≢◌, refl, sym, ap, ap₂, ◌∙◌, ltb, ◌==◌, if◌then◌else◌,
  Option, none, some, List, [], ◌∷◌, ◌++◌, find, put, erase, find-put, find-erase, count_if, arith,
}
use native.Mathlib.Decide.{ℕ_discrete}
use helpers.Communication.Inbox.{
  Reply, replied, failed, Inbox, Called, message_id_at, communicate, finish, send_error, on_message,
}

pub data Event : Type 0 where
  communicate_event : Event
  error_event : ℕ → ℕ → Event
  message_event : ℕ → ℕ → Event

-- An inbox, how many requests it has had, and whom it has called back.
pub record History : Type 0 where
  pub inbox : Inbox
  pub issued : ℕ
  pub calls : List (ℕ × Reply)

abbrev pub logged : History → Called → History
logged h c = record h { inbox = c.inbox; calls = c.calls ++ h.calls }

-- The callbacks of requests are numbered in their order.
unfoldable pub after : History → Event → History
unfolding communicate send_error on_message
after h communicate_event = record h { inbox = communicate h.inbox h.issued; issued = suc h.issued }
after h (error_event message_id ec) = logged h (send_error h.inbox message_id ec)
after h (message_event message_id body) = logged h (on_message h.inbox message_id body)

-- Histories have the newest event first.
unfoldable pub history : ℕ → List Event → History
history seed [] = record {
  inbox = record { callbacks = []; seed = seed; next_msg_id = 0 };
  issued = 0;
  calls = [];
}
history seed (e ∷ es) = after (history seed es) e

abbrev pub times : ℕ → List (ℕ × Reply) → ℕ
times k calls = count_if (λ c. c.0 == k) calls

abbrev pub one_if : Option ℕ → ℕ → ℕ
one_if none k = 0
one_if (some j) k = if j == k then 1 else 0

-- Whether request `k` waits for its reply.
abbrev pub waiting : History → ℕ → ℕ
waiting h k = one_if (find (message_id_at h.inbox.seed k) h.inbox.callbacks) k

-- What holds of the histories with at most 2 ^ 16 requests.
pub record Matched (seed : ℕ) (h : History) : Type 0 where
  pub same_seed : h.inbox.seed ≡ seed
  pub counted : h.inbox.next_msg_id ≡ h.issued % 2 ^ 16
  pub own :
      (m j : ℕ) → find m h.inbox.callbacks ≡ some j → (m ≡ message_id_at seed j) × (j < h.issued)
  pub once :
      (k : ℕ)
      → k < 2 ^ 16
      → times k h.calls + one_if (find (message_id_at seed k) h.inbox.callbacks) k
        ≡ (if ltb k h.issued then 1 else 0)

-- Among 2 ^ 16 requests no two have the same id.
ids_apart :
    (seed j k : ℕ) → j < 2 ^ 16 → k < 2 ^ 16 → message_id_at seed j ≡ message_id_at seed k → j ≡ k
ids_apart seed j k a b e = omega arith

finish_once :
    (seed k m : ℕ) (cbs : List (ℕ × ℕ)) (o : Option ℕ)
    → find m cbs ≡ o
    → ((j : ℕ) → o ≡ some j → (m ≡ message_id_at seed j) × (j < 2 ^ 16))
    → k < 2 ^ 16
    → one_if o k + one_if (find (message_id_at seed k) (erase m cbs)) k
      ≡ one_if (find (message_id_at seed k) cbs) k
finish_once seed k m cbs none e own l =
    rw (find-erase m (message_id_at seed k) cbs)
      (ground (arith, ap (λ x. find x cbs) {x = m} {y = message_id_at seed k}))
finish_once seed k m cbs (some j) e own l =
    let (at, small) = own j refl in
    rw (find-erase m (message_id_at seed k) cbs) (elim (ℕ_discrete j k) [
      | yes same ↦ rw (ap (message_id_at seed) (sym same) ∙ sym at, e) (ground arith)
      | no differ ↦
          let apart : m ≢ message_id_at seed k =
            λ q. differ (ids_apart seed j k small l (sym at ∙ q)) in
          ground arith
    ])

module _ (seed : ℕ) (h : History) (m : Matched seed h) (reply : Reply) (message_id : ℕ) where
  finish-Matched :
      (o : Option ℕ)
      → find message_id h.inbox.callbacks ≡ o
      → h.issued ≤ 2 ^ 16
      → Matched seed (logged h (finish h.inbox message_id o reply))
  finish-Matched none e b = record {
    same_seed = m.same_seed;
    counted = m.counted;
    own = m.own;
    once = m.once;
  }
  finish-Matched (some j) e b = record {
    same_seed = m.same_seed;
    counted = m.counted;
    own = λ i k f. m.own i k (still i k f);
    once = λ k l. ground (
      arith,
      m.once k l,
      finish_once seed k message_id h.inbox.callbacks (some j) e
          (λ i f. let (at, below) = m.own message_id i (e ∙ f) in (at, omega arith)) l,
    );
  }
    where
      still :
          (i k : ℕ)
          → find i (erase message_id h.inbox.callbacks) ≡ some k
          → find i h.inbox.callbacks ≡ some k
      still i k f = ground (arith, find-erase message_id i h.inbox.callbacks)

put_once :
    (seed k n t : ℕ) (cbs : List (ℕ × ℕ))
    → k < 2 ^ 16
    → n < 2 ^ 16
    → t + one_if (find (message_id_at seed k) cbs) k ≡ (if ltb k n then 1 else 0)
    → t + one_if (find (message_id_at seed k) (put (message_id_at seed n) n cbs)) k
      ≡ (if ltb k (suc n) then 1 else 0)
put_once seed k n t cbs a b e = elim (ℕ_discrete n k) [
  | yes same ↦
      rw (find-put (message_id_at seed n) (message_id_at seed k) n cbs)
        (ground (arith, ap (message_id_at seed) same))
  | no differ ↦
      let apart : message_id_at seed n ≢ message_id_at seed k =
        λ q. differ (ids_apart seed n k b a q) in
      rw (find-put (message_id_at seed n) (message_id_at seed k) n cbs) (ground arith)
]

put_own :
    (seed n i j : ℕ) (cbs : List (ℕ × ℕ))
    → (find i cbs ≡ some j → (i ≡ message_id_at seed j) × (j < n))
    → find i (put (message_id_at seed n) n cbs) ≡ some j
    → (i ≡ message_id_at seed j) × (j < suc n)
put_own seed n i j cbs own f =
    let f' = sym (find-put (message_id_at seed n) i n cbs) ∙ f in
    elim (ℕ_discrete (message_id_at seed n) i) [
      | yes same ↦
          let n_j : n ≡ j = ground arith in (sym same ∙ ap (message_id_at seed) n_j, omega arith)
      | no differ ↦ let (at, below) = own (ground arith) in (at, omega arith)
    ]

communicate-Matched :
    (seed : ℕ) (h : History)
    → Matched seed h
    → h.issued < 2 ^ 16
    → Matched seed (after h communicate_event)
unfolding after communicate
communicate-Matched seed h m b =
    let id_at : message_id_at h.inbox.seed h.inbox.next_msg_id ≡ message_id_at seed h.issued =
      ap₂ message_id_at m.same_seed (m.counted ∙ omega arith) in
    record {
      same_seed = m.same_seed;
      counted = omega (arith, m.counted);
      own = λ i j. rw id_at (put_own seed h.issued i j h.inbox.callbacks (m.own i j));
      once = λ k l.
          rw id_at (put_once seed k h.issued (times k h.calls) h.inbox.callbacks l b (m.once k l));
    }

-- How many requests a history holds.
abbrev pub requests : List Event → ℕ
requests [] = 0
requests (communicate_event ∷ es) = suc (requests es)
requests (e ∷ es) = requests es

issued-history : (seed : ℕ) (es : List Event) → (history seed es).issued ≡ requests es
unfolding history after
issued-history seed [] = refl
issued-history seed (communicate_event ∷ es) = ap suc (issued-history seed es)
issued-history seed (error_event i ec ∷ es) = issued-history seed es
issued-history seed (message_event i body ∷ es) = issued-history seed es

history-Matched :
    (seed : ℕ) (es : List Event) → requests es ≤ 2 ^ 16 → Matched seed (history seed es)
unfolding history after send_error on_message
history-Matched seed [] b = record {
  same_seed = refl;
  counted = refl;
  own = λ i j f. absurd (ground arith);
  once = λ k l. ground arith;
}
history-Matched seed (communicate_event ∷ es) b =
    communicate-Matched seed (history seed es) (history-Matched seed es (omega arith))
      (omega (arith, issued-history seed es))
history-Matched seed (error_event i ec ∷ es) b =
    finish-Matched seed (history seed es) (history-Matched seed es b) (failed ec) i _ refl
      (omega (arith, issued-history seed es))
history-Matched seed (message_event i body ∷ es) b =
    finish-Matched seed (history seed es) (history-Matched seed es b) (replied body) i _ refl
      (omega (arith, issued-history seed es))

-- While an inbox has had at most 2 ^ 16 requests, whatever messages and errors come in, for known
-- ids, unknown ones and ones that come again: each request has been called back once, or waits for
-- its reply under its id and has not been called back; one that is still to come is neither.
pub called_once :
    (seed : ℕ) (es : List Event) (k : ℕ)
    → requests es ≤ 2 ^ 16
    → k < 2 ^ 16
    → times k (history seed es).calls
        + one_if (find (message_id_at seed k) (history seed es).inbox.callbacks) k
      ≡ (if ltb k (requests es) then 1 else 0)
called_once seed es k b l =
    (history-Matched seed es b).once k l
    ∙ ap (λ n. if ltb k n then 1 else 0) (issued-history seed es)
