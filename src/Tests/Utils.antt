-- ===== src/Tests/Utils.antt =====
-- core/utils: a call that fails twice before it answers, and one that is refused.
use compute_quant_lab.Prelude.{ℕ, zero, suc, ◌≡◌, ◌+◌, refl, some, none}
use compute_quant_lab.Prelude.Int.{ℤ, pos}
use compute_quant_lab.Utils.Net.{
  Outcome, returned, raised, timeout, http_error, call_with_retry, EndsAt, call_with_retry_lem,
}
use compute_quant_lab.Utils.Coerce.{Value, Conversions, int}

abbrev flaky : ℕ → Outcome ℕ
flaky zero = raised timeout
flaky (suc zero) = raised (http_error (some 503))
flaky (suc (suc i)) = returned 7

flaky_run : call_with_retry flaky 3 ≡ some (returned 7, 3)
unfolding call_with_retry
flaky_run = refl

abbrev refused : ℕ → Outcome ℕ
refused i = raised (http_error (some 404))

refused_run : call_with_retry refused 3 ≡ some (raised (http_error (some 404)), 1)
unfolding call_with_retry
refused_run = refl

call_with_retry_lem_example :
    (last : ℕ) × (call_with_retry flaky 3 ≡ some (flaky last, last + 1)) × EndsAt flaky 3 0 last
call_with_retry_lem_example = call_with_retry_lem flaky 3

abbrev whole : Conversions ℤ
whole = record { of_int = λ i. i; of_text = λ s. none; truncate = λ i. i; show = λ v. "" }

abbrev five : Value ℤ
five = int (pos 5)
