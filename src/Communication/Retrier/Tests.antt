-- ===== src/Communication/Retrier/Tests.antt =====
-- The retrier over a lower layer that fails as often as its state says.
use helpers.Prelude.{ℕ, zero, suc, ◌<◌, ◌≡◌, refl, inl, Option, none, some, arith}
use helpers.Communication.Retrier.{send}
use helpers.Communication.Retrier.Attempts.{attempt, Failed, send_lem}

-- How many failures are to come, and how many messages came.
abbrev flaky : ℕ → ℕ × ℕ → (ℕ × ℕ) × Option ℕ
flaky retries (zero, count) = ((0, suc count), none)
flaky retries (suc failures, count) = ((failures, suc count), some 5)

-- Two failures, then a success: three attempts of the six that are allowed.
flaky_test : send flaky 5 (2, 0) ≡ ((0, 3), none)
unfolding send
flaky_test = refl

send_lem_example : send flaky 5 (2, 0) ≡ attempt flaky 5 2 (2, 0)
send_lem_example = send_lem flaky 5 2 (2, 0) (omega arith) fails (inl refl)
  where
    fails : (i : ℕ) → i < 2 → Failed flaky (attempt flaky 5 i (2, 0))
    fails zero l = (5, refl)
    fails (suc zero) l = (5, refl)
    fails (suc (suc i)) l = absurd (omega arith)
