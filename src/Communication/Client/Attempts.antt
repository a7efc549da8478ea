-- ===== src/Communication/Client/Attempts.antt =====
-- src/communication/clprotoClientBootstrap.cc: where the attempts end.
use helpers.Prelude.{
  ℕ, zero, suc, ◌+◌, ◌-◌, ◌<◌, ◌≤◌, ltb, ◌==◌, if◌then◌else◌, Bool-cases, false, Option, some, List,
  [], ◌∷◌, length, get_or, min, ◌≡◌, ◌≢◌, refl, sym, ap, ap₂, ◌∙◌, ◌⊎◌, inl, inr, arith, ltb→lt,
  lt→ltb, le→ltb, subst,
}
use helpers.Communication.Client.Connect.{
  reconnect_delays, Attempt, accepted, refused, unresolved, close_failed, Ended, established,
  failed, out_of_range, Course, on_error, after_delay, connect,
}

abbrev pub Refused : Attempt → Type 0
Refused a = (e : ℕ) × (a ≡ refused e)

abbrev pub delay : ℕ → ℕ
delay n = get_or reconnect_delays n 0

-- The delays of `count` attempts from attempt `n` on.
abbrev pub total_delay : ℕ → ℕ → ℕ
total_delay n zero = 0
total_delay n (suc count) = delay n + total_delay (suc n) count

abbrev pub end_of : Attempt → Ended
end_of accepted = established
end_of (refused e) = failed e
end_of (unresolved e) = failed e
end_of (close_failed e) = failed e

-- How `connect` ends when attempt `k` is the last.
abbrev pub end_at : (ℕ → Attempt) → ℕ → Ended
end_at tried k = if ltb k (length reconnect_delays) then end_of (tried k) else out_of_range

-- The attempts from attempt `n` on, to the last.
pub record Ends (tried : ℕ → Attempt) (n : ℕ) (r : Option Course) : Type 0 where
  pub last : ℕ
  pub from : n ≤ last
  pub before : (i : ℕ) → n ≤ i → i < last → (i < length reconnect_delays) × Refused (tried i)
  pub decided : (length reconnect_delays ≤ last) ⊎ ((e : ℕ) → tried last ≢ refused e)
  pub result :
      r ≡ some (record { ended = end_at tried last; waited = total_delay n (suc last - n) })

later :
    (tried : ℕ → Attempt) (n : ℕ) (r : Option Course)
    → n < length reconnect_delays
    → 1 ≤ n
    → Refused (tried n)
    → Ends tried (suc n) r
    → Ends tried n (after_delay (delay n) (on_error n r (tried n)))
later tried n r small one (e, refuses) ends = record {
  last = ends.last;
  from = omega (arith, ends.from);
  before = λ i l h. elim (native.Mathlib.Decide.ℕ_discrete n i) [
    | yes same ↦ (omega arith, (e, ap tried (sym same) ∙ refuses))
    | no differ ↦ ends.before i (omega arith) h
  ];
  decided = ends.decided;
  result =
      ap (λ a. after_delay (delay n) (on_error n r a)) refuses
      ∙ ap
          (λ b.
            after_delay (delay n) (if b then some (record { ended = failed e; waited = 0 }) else r))
          {x = n == 0} {y = false} (ground arith)
      ∙ ap (after_delay (delay n)) ends.result
      ∙ ap (λ w. some (record { ended = end_at tried ends.last; waited = w }))
          {x = delay n + total_delay (suc n) (suc ends.last - suc n)}
          {y = total_delay n (suc ends.last - n)}
          (ap (total_delay n) {x = suc (suc ends.last - suc n)} {y = suc ends.last - n}
            (omega (arith, ends.from)));
}

decided_result :
    (n : ℕ) (r : Option Course) (a : Attempt)
    → ((e : ℕ) → a ≢ refused e)
    → after_delay (delay n) (on_error n r a)
      ≡ some (record { ended = end_of a; waited = delay n + 0 })
decided_result n r accepted not_refused = refl
decided_result n r (close_failed e) not_refused = refl
decided_result n r (unresolved e) not_refused = refl
decided_result n r (refused e) not_refused = absurd (not_refused e refl)

decides :
    (tried : ℕ → Attempt) (n : ℕ) (r : Option Course) (a : Attempt)
    → n < length reconnect_delays
    → tried n ≡ a
    → ((e : ℕ) → a ≢ refused e)
    → Ends tried n (after_delay (delay n) (on_error n r a))
decides tried n r a small is not_refused = record {
  last = n;
  from = omega arith;
  before = λ i l h. absurd (omega arith);
  decided = inr (λ e f. not_refused e (sym is ∙ f));
  result =
      decided_result n r a not_refused
      ∙ ap₂ (λ t w. some (record { ended = t; waited = w })) {x = end_of a} {y = end_at tried n}
          {u = delay n + 0} {v = total_delay n (suc n - n)}
          (ap end_of (sym is)
            ∙ ap (λ b. if b then end_of (tried n) else out_of_range)
                (sym (lt→ltb n (length reconnect_delays) small)))
          (ap (total_delay n) {x = 1} {y = suc n - n} (omega arith));
}

continues :
    (tried : ℕ → Attempt) (n : ℕ) (r : Option Course) (a : Attempt)
    → n < length reconnect_delays
    → 1 ≤ n
    → tried n ≡ a
    → Ends tried (suc n) r
    → Ends tried n (after_delay (delay n) (on_error n r a))
continues tried n r accepted small one is rest =
    decides tried n r accepted small is (λ e f. ground arith)
continues tried n r (close_failed e) small one is rest =
    decides tried n r (close_failed e) small is (λ e f. ground arith)
continues tried n r (unresolved e) small one is rest =
    decides tried n r (unresolved e) small is (λ e f. ground arith)
continues tried n r (refused e) small one is rest =
    subst (λ a. Ends tried n (after_delay (delay n) (on_error n r a))) is
      (later tried n r small one (e, is) rest)

within :
    (tried : ℕ → Attempt) (fuel n : ℕ)
    → n < length reconnect_delays
    → connect tried (suc fuel) n
      ≡ after_delay (delay n) (on_error n (connect tried fuel (suc n)) (tried n))
unfolding connect
within tried fuel n small =
    let same : min n (length reconnect_delays) ≡ n = omega arith in
    rw (same, lt→ltb n (length reconnect_delays) small) refl

beyond :
    (tried : ℕ → Attempt) (fuel n : ℕ)
    → length reconnect_delays ≤ n
    → connect tried (suc fuel) n ≡ some (record { ended = out_of_range; waited = 0 })
unfolding connect
beyond tried fuel n large =
    let same : min n (length reconnect_delays) ≡ length reconnect_delays = omega arith in
    rw same refl

get_or_beyond : (xs : List ℕ) (i : ℕ) → length xs ≤ i → get_or xs i 0 ≡ 0
get_or_beyond [] i h = refl
get_or_beyond (x ∷ xs) zero h = absurd (omega arith)
get_or_beyond (x ∷ xs) (suc i) h = get_or_beyond xs i (omega arith)

no_delay : (n count : ℕ) → length reconnect_delays ≤ n → total_delay n count ≡ 0
no_delay n zero large = refl
no_delay n (suc count) large =
    omega (arith, get_or_beyond reconnect_delays n large, no_delay (suc n) count (omega arith))

connect_ends :
    (tried : ℕ → Attempt) (fuel n : ℕ)
    → 1 ≤ n
    → 1 ≤ fuel
    → length reconnect_delays < n + fuel
    → Ends tried n (connect tried fuel n)
connect_ends tried zero n one fuel_left enough = absurd (omega arith)
connect_ends tried (suc fuel) n one fuel_left enough =
    elim (Bool-cases (ltb n (length reconnect_delays))) [
      | inl small ↦
          let small = ltb→lt n (length reconnect_delays) small in
          subst (Ends tried n) (sym (within tried fuel n small)) (
            continues tried n (connect tried fuel (suc n)) (tried n) small one refl
              (connect_ends tried fuel (suc n) (omega arith) (omega arith) (omega arith)))
      | inr large ↦
          let large : length reconnect_delays ≤ n = ground arith in
          record {
            last = n;
            from = omega arith;
            before = λ i l h. absurd (omega arith);
            decided = inl large;
            result =
                beyond tried fuel n large
                ∙ ap₂ (λ t w. some (record { ended = t; waited = w }))
                    (ap (λ b. if b then end_of (tried n) else out_of_range)
                      (sym (le→ltb n (length reconnect_delays) large)))
                    (sym (no_delay n (suc n - n) large));
          }
    ]

first_ends :
    (tried : ℕ → Attempt) (r : Option Course) (a : Attempt)
    → after_delay (delay 0) (on_error 0 r a) ≡ some (record { ended = end_of a; waited = 0 })
first_ends tried r accepted = refl
first_ends tried r (close_failed e) = refl
first_ends tried r (unresolved e) = refl
first_ends tried r (refused e) = refl

-- Attempt 0 is the only one, whatever comes of it. Later attempts go on while they are refused, up
-- to the first that is accepted, or that fails before it reaches the server; from attempt 13 on
-- there is no delay in the list, and an exception ends them. The time waited is that of the delays
-- of all these attempts.
pub attempts_lem :
    (tried : ℕ → Attempt) (fuel n : ℕ)
    → length reconnect_delays < fuel
    → 1 ≤ n
    → (connect tried fuel 0 ≡ some (record { ended = end_of (tried 0); waited = 0 }))
      × Ends tried n (connect tried fuel n)
attempts_lem tried zero n enough one = absurd (omega arith)
attempts_lem tried (suc fuel) n enough one = (
  within tried fuel 0 (omega arith) ∙ first_ends tried (connect tried fuel 1) (tried 0),
  connect_ends tried (suc fuel) n one (omega arith) (omega arith),
)
