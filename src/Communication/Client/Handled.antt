-- ===== src/Communication/Client/Handled.antt =====
-- The response handlers of src/communication/codec over all that they read.
use helpers.Prelude.{
  ℕ, ◌==◌, if◌then◌else◌, Bool, true, false, Bool-cases, List, [], ◌∷◌, ◌++◌, append_assoc,
  append-nil, ◌≡◌, refl, sym, ap, ◌∙◌, inl, inr, arith,
}
use helpers.KeyValue.Buffer.{Bytes}
use helpers.Communication.Client.Handlers.{
  unset, with_value, with_exception, is_fulfilled, Handshake, fire_read, read_handshake,
  response_status, end_of_header, starts_with, contains, Upgrade, read_upgrade,
}

abbrev pub fresh_handshake : Handshake
fresh_handshake = record { promise = unset; done = []; fired = []; threw = false }

abbrev pub read_handshakes : (ℕ → ℕ) → List ℕ → Handshake → Handshake
read_handshakes on_response [] h = h
read_handshakes on_response (m ∷ ms) h =
    read_handshakes on_response ms (read_handshake on_response m h)

passed :
    (on_response : ℕ → ℕ) (m : ℕ) (h : Handshake)
    → is_fulfilled h.promise ≡ true
    → read_handshake on_response m h ≡ fire_read m h
unfolding read_handshake
passed on_response m h f = rw f refl

-- Once the promise is fulfilled messages are only passed on.
handshakes_passed :
    (on_response : ℕ → ℕ) (ms : List ℕ) (h : Handshake)
    → is_fulfilled h.promise ≡ true
    → ((read_handshakes on_response ms h).promise ≡ h.promise)
      × ((read_handshakes on_response ms h).done ≡ h.done)
      × ((read_handshakes on_response ms h).fired ≡ h.fired ++ ms)
handshakes_passed on_response [] h f = (refl, refl, sym (append-nil h.fired))
handshakes_passed on_response (m ∷ ms) h f =
    let (p, d, q) = handshakes_passed on_response ms (fire_read m h) f in
    let e = ap (read_handshakes on_response ms) (passed on_response m h f) in
    (
      ap (λ k. k.promise) e ∙ p,
      ap (λ k. k.done) e ∙ d,
      ap (λ k. k.fired) e ∙ q ∙ append_assoc h.fired (m ∷ []) ms,
    )

-- What a fresh handler is after its first response.
abbrev first_state : ℕ → Bool → Handshake
first_state m true = record { promise = with_value; done = 0 ∷ []; fired = m ∷ []; threw = false }
first_state m false = record { promise = with_value; done = []; fired = []; threw = true }

first_read :
    (on_response : ℕ → ℕ) (m : ℕ) (good : Bool)
    → (on_response m == 0) ≡ good
    → read_handshake on_response m fresh_handshake ≡ first_state m good
unfolding read_handshake
first_read on_response m true e = rw e refl
first_read on_response m false e = rw e refl

settled :
    (on_response : ℕ → ℕ) (m : ℕ) (ms : List ℕ) (k : Handshake)
    → is_fulfilled k.promise ≡ true
    → read_handshake on_response m fresh_handshake ≡ k
    → let h = read_handshakes on_response (m ∷ ms) fresh_handshake in
      (h.promise ≡ k.promise)
      × (h.done ≡ k.done)
      × (h.fired ≡ k.fired ++ ms)
      × ((read_handshake on_response m fresh_handshake).threw ≡ k.threw)
settled on_response m ms k f e =
    let (p, d, q) = handshakes_passed on_response ms k f in
    let e' = ap (read_handshakes on_response ms) e in
    (
      ap (λ h. h.promise) e' ∙ p,
      ap (λ h. h.done) e' ∙ d,
      ap (λ h. h.fired) e' ∙ q,
      ap (λ h. h.threw) e,
    )

-- The first response settles a handshake, with the messages `ms` behind it. The promise has a value
-- in either case. If the response is good, its end is told once, without an error, and each message
-- is passed on. If it is an error, the reading of it throws, no end is ever told, and the response
-- is not passed on.
pub handshake_settled :
    (on_response : ℕ → ℕ) (m : ℕ) (ms : List ℕ)
    → let h = read_handshakes on_response (m ∷ ms) fresh_handshake in
      let good = on_response m == 0 in
      (h.promise ≡ with_value)
      × (h.done ≡ (if good then 0 ∷ [] else []))
      × (h.fired ≡ (if good then m ∷ ms else ms))
      × ((read_handshake on_response m fresh_handshake).threw ≡ (if good then false else true))
handshake_settled on_response m ms = elim (Bool-cases (on_response m == 0)) [
  | inl good ↦ rw good (
      settled on_response m ms
        (record { promise = with_value; done = 0 ∷ []; fired = m ∷ []; threw = false }) refl
        (first_read on_response m true good))
  | inr bad ↦ rw bad (
      settled on_response m ms
        (record { promise = with_value; done = []; fired = []; threw = true }) refl
        (first_read on_response m false bad))
]

abbrev pub fresh_upgrade : Upgrade
fresh_upgrade = record { promise = unset; buf = []; fired = [] }

abbrev pub read_upgrades : List Bytes → Upgrade → Upgrade
read_upgrades [] u = u
read_upgrades (c ∷ cs) u = read_upgrades cs (read_upgrade c u)

abbrev pub joined : List Bytes → Bytes
joined [] = []
joined (c ∷ cs) = c ++ joined cs

starts_with-append : (xs a b : Bytes) → starts_with xs a ≡ true → starts_with xs (a ++ b) ≡ true
starts_with-append [] a b e = refl
starts_with-append (x ∷ xs) [] b e = absurd (ground arith)
starts_with-append (x ∷ xs) (y ∷ a) b e = ground (arith, starts_with-append xs a b)

-- More bytes do not take the end of a header away.
contains-append :
    (a b : Bytes) → contains end_of_header a ≡ true → contains end_of_header (a ++ b) ≡ true
contains-append [] b e = absurd (ground arith)
contains-append (x ∷ a) b e =
    ground (arith, starts_with-append end_of_header (x ∷ a) b, contains-append a b)

no_end_before :
    (a b : Bytes) → contains end_of_header (a ++ b) ≡ false → contains end_of_header a ≡ false
no_end_before a b e = ground (arith, contains-append a b)

-- While there is no end of a header the bytes are kept.
header_open :
    (cs : List Bytes) (u : Upgrade)
    → u.promise ≡ unset
    → contains end_of_header (u.buf ++ joined cs) ≡ false
    → read_upgrades cs u ≡ record u { buf = u.buf ++ joined cs }
unfolding read_upgrade
header_open [] u p e = ap (λ b. record u { buf = b }) (sym (append-nil u.buf))
header_open (c ∷ cs) u p e =
    let e' = ap (contains end_of_header) (append_assoc u.buf c (joined cs)) ∙ e in
    let at = no_end_before (u.buf ++ c) (joined cs) e' in
    ap (read_upgrades cs) (rw (p, at) refl)
    ∙ header_open cs (record u { buf = u.buf ++ c }) p e'
    ∙ ap (λ b. record u { buf = b }) (append_assoc u.buf c (joined cs))

-- A response, whose header ends in the last of the chunks that it came in, is kept until then.
-- With the right status it fulfils the promise, and nothing is passed on but what comes later, so
-- that bytes behind the header are lost. With any other, the promise is broken, and what comes later
-- is passed on behind all of the response.
pub header_closed :
    (cs : List Bytes) (c later : Bytes)
    → contains end_of_header (joined cs) ≡ false
    → contains end_of_header (joined cs ++ c) ≡ true
    → (read_upgrades cs fresh_upgrade ≡ record { promise = unset; buf = joined cs; fired = [] })
      × (read_upgrade later (read_upgrade c (read_upgrades cs fresh_upgrade)) ≡ (
          if starts_with response_status (joined cs ++ c)
          then record { promise = with_value; buf = []; fired = later }
          else record { promise = with_exception; buf = []; fired = (joined cs ++ c) ++ later }))
unfolding read_upgrade
header_closed cs c later before after =
    let kept = header_open cs fresh_upgrade refl before in
    (
      kept,
      ap (λ u. read_upgrade later (read_upgrade c u)) kept
          ∙ elim (Bool-cases (starts_with response_status (joined cs ++ c))) [
            | inl right ↦ rw (after, right) refl
            | inr wrong ↦ rw (after, wrong) refl
          ],
    )
