-- ===== src/Utils/Net.antt =====
-- core/utils/net.py: one bounded retry for every network call. The call is a function of the number
-- of the attempt, since the network may answer each one differently.
use native.Mathlib.Decide.{ℕ_discrete}
use compute_quant_lab.Prelude.{
  ℕ, zero, suc, ◌+◌, ◌≡◌, ◌≤◌, ◌<◌, ◌⊎◌, inl, inr, refl, ◌∙◌, Bool, true, false, Option, none, some,
  arith, leb, if◌then◌else◌, ◌||◌, not, Bool-cases,
}

-- `MAX_RETRIES`
abbrev pub default_max_retries : ℕ
default_max_retries = 2

pub data Failure : Type 0 where
  timeout : Failure
  connection_error : Failure
  http_error : Option ℕ → Failure
  other_error : Failure

pub data Outcome (A : Type 0) : Type 0 where
  returned : A → Outcome A
  raised : Failure → Outcome A

unfoldable pub is_retryable_http_error : Failure → Bool
is_retryable_http_error timeout = true
is_retryable_http_error connection_error = true
is_retryable_http_error (http_error none) = false
is_retryable_http_error (http_error (some status_code)) = leb 500 status_code
is_retryable_http_error other_error = false

module _ {A : Type 0} where
  -- The `while True` loop, from the given attempt on: the outcome, and the attempts made. `none` is
  -- for a loop that has run out of fuel.
  unfoldable pub attempts : ℕ → (ℕ → Outcome A) → ℕ → ℕ → Option (Outcome A × ℕ)
  unfolding is_retryable_http_error
  attempts zero fn max_retries attempt = none
  attempts (suc fuel) fn max_retries attempt = elim (fn attempt) [
    | returned a ↦ some (returned a, attempt + 1)
    | raised exc ↦
        let again = attempts fuel fn max_retries (attempt + 1) in
        if leb max_retries attempt || not (is_retryable_http_error exc)
        then some (raised exc, attempt + 1)
        else again
  ]

  unfoldable pub call_with_retry : (ℕ → Outcome A) → ℕ → Option (Outcome A × ℕ)
  unfolding attempts
  call_with_retry fn max_retries = attempts (max_retries + 1) fn max_retries 0

  abbrev pub IsRetryable : Outcome A → Type 0
  IsRetryable (returned a) = ⊥
  IsRetryable (raised exc) = is_retryable_http_error exc ≡ true

  -- What the loop gives from `attempt` on, by the attempt `last` that ends it.
  abbrev pub EndsAt : (ℕ → Outcome A) → ℕ → ℕ → ℕ → Type 0
  EndsAt fn max_retries attempt last =
      (attempt ≤ last)
      × (last ≤ max_retries)
      × ((i : ℕ) → attempt ≤ i → i < last → IsRetryable (fn i))
      × ((last ≡ max_retries) ⊎ (¬ IsRetryable (fn last)))

  Outcome-cases : (o : Outcome A) → ((a : A) × (o ≡ returned a)) ⊎ ((x : Failure) × (o ≡ raised x))
  Outcome-cases (returned a) = inl (a, refl)
  Outcome-cases (raised x) = inr (x, refl)

  attempts_returned :
      (fuel : ℕ) (fn : ℕ → Outcome A) (m n : ℕ) (a : A)
      → fn n ≡ returned a
      → attempts (suc fuel) fn m n ≡ some (fn n, n + 1)
  unfolding attempts
  attempts_returned fuel fn m n a e = ground arith

  attempts_raised :
      (fuel : ℕ) (fn : ℕ → Outcome A) (m n : ℕ) (x : Failure)
      → fn n ≡ raised x
      → attempts (suc fuel) fn m n ≡ (
          if leb m n || not (is_retryable_http_error x)
          then some (fn n, n + 1)
          else attempts fuel fn m (n + 1))
  unfolding attempts
  attempts_raised fuel fn m n x e = ground arith

  attempts_lem :
      (fuel : ℕ) (fn : ℕ → Outcome A) (m n : ℕ)
      → n ≤ m
      → m < fuel + n
      → (last : ℕ) × (attempts fuel fn m n ≡ some (fn last, last + 1)) × EndsAt fn m n last
  attempts_lem zero fn m n h f = absurd (omega arith)
  attempts_lem (suc fuel) fn m n h f = elim (Outcome-cases (fn n)) [
    | inl (a, e) ↦ (
      n,
      attempts_returned fuel fn m n a e,
      (omega arith, h, (λ i p q. absurd (omega arith)), inr (rw e (λ x. x))),
    )
    | inr (x, e) ↦ elim (Bool-cases (leb m n || not (is_retryable_http_error x))) [
      | inl stop ↦ (
        n,
        attempts_raised fuel fn m n x e ∙ rw stop,
        (omega arith, h, (λ i p q. absurd (omega arith)), rw e (stopped m n x h stop)),
      )
      | inr again ↦
          let (below, retryable) = continued m n x again in
          let (last, run, (from, to, all, end)) =
            attempts_lem fuel fn m (n + 1) (omega arith) (omega arith) in
          (
            last,
            attempts_raised fuel fn m n x e ∙ rw again run,
            (omega arith, to, earlier fn n last (rw e retryable) all, end),
          )
    ]
  ]
    where
      stopped :
          (m n : ℕ) (x : Failure)
          → n ≤ m
          → (leb m n || not (is_retryable_http_error x)) ≡ true
          → (n ≡ m) ⊎ (¬ (is_retryable_http_error x ≡ true))
      stopped m n x h stop = ground arith

      continued :
          (m n : ℕ) (x : Failure)
          → (leb m n || not (is_retryable_http_error x)) ≡ false
          → (n < m) × (is_retryable_http_error x ≡ true)
      continued m n x again = ground arith

      earlier :
          (fn : ℕ → Outcome A) (n last : ℕ)
          → IsRetryable (fn n)
          → ((i : ℕ) → n + 1 ≤ i → i < last → IsRetryable (fn i))
          → (i : ℕ) → n ≤ i
          → i < last
          → IsRetryable (fn i)
      earlier fn n last here later i p q = elim (ℕ_discrete i n) [
        | yes same ↦ rw same here
        | no other ↦ later i (omega arith) q
      ]

  -- A call makes at most `max_retries + 1` attempts and gives the outcome of the last one. Every
  -- attempt before it failed in a way that is worth a retry; the last one did not, or it was the
  -- last that is allowed.
  pub call_with_retry_lem :
      (fn : ℕ → Outcome A) (max_retries : ℕ)
      → (last : ℕ) × (call_with_retry fn max_retries ≡ some (fn last, last + 1))
        × EndsAt fn max_retries 0 last
  unfolding call_with_retry
  call_with_retry_lem fn max_retries =
      attempts_lem (max_retries + 1) fn max_retries 0 (omega arith) (omega arith)
