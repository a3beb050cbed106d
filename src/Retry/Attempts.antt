-- ===== src/Retry/Attempts.antt =====
-- `RetryN` and `RetryElsewhere`: which attempt's result they give.
use graphed.Prelude.{ℕ, zero, suc, ◌+◌, ◌<◌, ◌≡◌, refl, ◌∙◌, true, arith}
use graphed.Outcome.{Exn, returns, raises, Exec, is_exception}
use graphed.Outcome.Inversion.{recover_caught}
use graphed.Partition.{Partition}
use graphed.Retry.{Process, Combine, retry_n, attempts, recover_with}

module _ {ℓ} {S R : Type ℓ} (try : ℕ → Exec S R) (states : ℕ → S) (errors : ℕ → Exn) where
  -- Attempts `i .. i + count - 1` fail one after another, each with an Exception.
  abbrev pub Fail : ℕ → ℕ → Type ℓ
  Fail i zero = Unit
  Fail i (suc count) =
      (try i (states i) ≡ (raises (errors i), states (i + 1)))
      × (is_exception (errors i) ≡ true)
      × Fail (i + 1) count

  step :
      (i left : ℕ) (last : Exn)
      → try i (states i) ≡ (raises (errors i), states (i + 1))
      → is_exception (errors i) ≡ true
      → attempts try i (suc left) last (states i)
        ≡ attempts try (i + 1) left (errors i) (states (i + 1))
  unfolding attempts
  step i left last e h =
      rw e (recover_caught (errors i) (states (i + 1)) (attempts try (i + 1) left) h)

  -- The loop returns what its first attempt that returns does.
  attempts_first :
      (count i j n : ℕ) (last : Exn) {r : R} {s : S}
      → i + count ≡ j
      → count < n
      → Fail i count
      → try j (states j) ≡ (returns r, s)
      → attempts try i n last (states i) ≡ (returns r, s)
  unfolding attempts
  attempts_first count i j zero last at few h done = absurd (omega arith)
  attempts_first zero i j (suc left) last at few h done =
      let here : i ≡ j = omega arith in rw (rw (← here) at done) refl
  attempts_first (suc count) i j (suc left) last at few h done =
      step i left last h.0 h.1
      ∙ attempts_first count (i + 1) j left (errors i) (omega arith) (omega arith) h.2 done

  -- The error that the loop re-raises after attempts `i .. i + count - 1`.
  abbrev pub last_error : ℕ → ℕ → Exn → Exn
  last_error i zero last = last
  last_error i (suc count) last = last_error (i + 1) count (errors i)

  attempts_exhausted :
      (count i j : ℕ) (last : Exn)
      → i + count ≡ j
      → Fail i count
      → attempts try i count last (states i) ≡ (raises (last_error i count last), states j)
  unfolding attempts
  attempts_exhausted zero i j last at h = let here : i ≡ j = omega arith in rw here refl
  attempts_exhausted (suc count) i j last at h =
      step i count last h.0 h.1 ∙ attempts_exhausted count (i + 1) j (errors i) (omega arith) h.2

-- `RetryN(n)`: if the first `k < n` attempts raise Exceptions and the next one returns, `recover`
-- returns that result, in the state that the attempt left.
pub retry_n_first {ℓ} :
    {S R : Type ℓ} (process : Process S R) (combine : Combine R) (p : Partition) (error : Exn)
    (states : ℕ → S) (errors : ℕ → Exn) (k n : ℕ) {r : R} {s : S}
    → Fail (λ _. process p) states errors 0 k
    → k < n
    → process p (states k) ≡ (returns r, s)
    → recover_with (retry_n n) process combine p error (states 0) ≡ (returns r, s)
unfolding recover_with
retry_n_first process combine p error states errors k n h few done =
    attempts_first (λ _. process p) states errors k 0 k n error (omega arith) few h done

-- `RetryN(n)`: if all `n` attempts raise Exceptions, `recover` raises the last of them, and the
-- original error where `n` is 0.
pub retry_n_exhausted {ℓ} :
    {S R : Type ℓ} (process : Process S R) (combine : Combine R) (p : Partition) (error : Exn)
    (states : ℕ → S) (errors : ℕ → Exn) (n : ℕ)
    → Fail (λ _. process p) states errors 0 n
    → recover_with (retry_n n) process combine p error (states 0)
      ≡ (raises (last_error (λ _. process p) states errors 0 n error), states n)
unfolding recover_with
retry_n_exhausted process combine p error states errors n h =
    attempts_exhausted (λ _. process p) states errors n 0 n error (omega arith) h
