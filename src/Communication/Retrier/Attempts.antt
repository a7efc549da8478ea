-- ===== src/Communication/Retrier/Attempts.antt =====
-- src/communication/layers/retrier.h: the attempts at sending a message.
use helpers.Prelude.{
  ℕ, zero, suc, ◌-◌, ◌≤◌, ◌<◌, ◌≡◌, ◌⊎◌, inl, inr, sym, ap, subst, ◌∙◌, Option, none, some, arith,
}
use helpers.Communication.Retrier.{retried, send}

module _ {State : Type 0} (lower_send : ℕ → State → State × Option ℕ) where
  -- The state before attempt `i`, counted from 0, and what it gives.
  abbrev pub state_before : ℕ → ℕ → State → State
  state_before retries zero s = s
  state_before retries (suc i) s = state_before (retries - 1) i (lower_send retries s).0

  abbrev pub attempt : ℕ → ℕ → State → State × Option ℕ
  attempt retries i s = lower_send (retries - i) (state_before retries i s)

  attempt-suc :
      (retries i : ℕ) (s : State)
      → attempt (suc retries) (suc i) s ≡ attempt retries i (lower_send (suc retries) s).0
  attempt-suc retries i s =
      ap (λ n. lower_send (suc retries - suc i) (state_before n i (lower_send (suc retries) s).0))
        {x = suc retries - 1} {y = retries} (omega arith)
      ∙ ap (λ n. lower_send n (state_before retries i (lower_send (suc retries) s).0))
          {x = suc retries - suc i} {y = retries - i} (omega arith)

  -- An attempt that failed.
  abbrev pub Failed : State × Option ℕ → Type 0
  Failed a = (ec : ℕ) × (a.1 ≡ some ec)

  after_failure :
      (retries : ℕ) (s : State)
      → Failed (lower_send (suc retries) s)
      → send lower_send (suc retries) s ≡ send lower_send retries (lower_send (suc retries) s).0
  unfolding send
  after_failure retries s (ec, e) =
      ap
        (λ o.
          retried lower_send o (lower_send (suc retries) s)
            (send lower_send retries (lower_send (suc retries) s).0))
        e

  first_attempt : (retries : ℕ) (s : State) → attempt retries 0 s ≡ lower_send retries s
  first_attempt retries s = ap (λ n. lower_send n s) {x = retries - 0} (omega arith)

  -- The attempts end with attempt `k` if it succeeds, or is the last that is allowed, and all
  -- before it fail: the callback gets what attempt `k` gives, after exactly `k + 1` attempts.
  pub send_lem :
      (retries k : ℕ) (s : State)
      → k ≤ retries
      → ((i : ℕ) → i < k → Failed (attempt retries i s))
      → (((attempt retries k s).1 ≡ none) ⊎ (k ≡ retries))
      → send lower_send retries s ≡ attempt retries k s
  unfolding send
  send_lem zero zero s l failed ends = ap (λ n. lower_send n s) (omega arith)
  send_lem zero (suc k) s l failed ends = absurd (omega arith)
  send_lem (suc retries) zero s l failed (inl e) =
      ap
        (λ o.
          retried lower_send o (lower_send (suc retries) s)
            (send lower_send retries (lower_send (suc retries) s).0))
        (ap (λ a. a.1) (sym (first_attempt (suc retries) s)) ∙ e)
      ∙ sym (first_attempt (suc retries) s)
  send_lem (suc retries) zero s l failed (inr e) = absurd (omega arith)
  send_lem (suc retries) (suc k) s l failed ends =
      after_failure retries s
        (subst Failed (first_attempt (suc retries) s) (failed 0 (omega arith)))
      ∙ send_lem retries k (lower_send (suc retries) s).0 (omega arith)
          (λ i h. subst Failed (attempt-suc retries i s) (failed (suc i) (omega arith)))
          (elim ends [
            | inl e ↦ inl (ap (λ a. a.1) (sym (attempt-suc retries k s)) ∙ e)
            | inr e ↦ inr (omega arith)
          ])
      ∙ sym (attempt-suc retries k s)
