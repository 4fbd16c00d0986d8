-- ===== src/Samples/Calls.antt =====
-- Tests of retried calls and of the check of documents.
use Prim.Native.Nat.{max}
use j_harness.Base.{ℕ, zero, suc, ◌≤◌, none, some, [], ◌≡◌, ◌≢◌, refl, Result, ok, err, arith}
use j_harness.Schema.Defs.{out_of_fuel}
use j_harness.Schema.Validate.{validate_text}
use j_harness.Schema.Validate.Fuel.{validate_text-ne-out_of_fuel}
use j_harness.Llm.{Response, CallError, http_error, Client}
use j_harness.Llm.Retry
use j_harness.Llm.Retry.{Clock, backoff}
use j_harness.Llm.Retry.Bounds.{IsMeter, IsWithin, complete-IsWithin, backoff-bounded}
use j_harness.Llm.Retry.Bounds.Final.{Decided, complete-final}
use j_harness.Samples.{lib}
use j_harness.Samples.Agents.{context, request, object_schema, reply}

-- A backend that fails twice and then answers.
abbrev flaky_answer : ℕ → Result CallError Response
flaky_answer zero = err (http_error 500 "")
flaky_answer (suc zero) = err (http_error 429 "")
flaky_answer (suc (suc w)) = ok (reply [] "done")

abbrev flaky : Client ℕ ℕ
flaky ctx req w = (flaky_answer w, suc w)

-- A backend that refuses each request.
abbrev refusing : Client ℕ ℕ
refusing ctx req w = (err (http_error 400 ""), suc w)

abbrev timer : Clock ℕ
timer = record { draw = λ n w. (0, w); wait = λ ctx n w. (none, w) }

abbrev policy : Retry.Retry ℕ
policy = record { max_attempts = 3; base_delay = 100; max_delay = 150; on_retry = none }

complete-flaky : Retry.complete timer flaky policy context request 0 ≡ (ok (reply [] "done"), 3)
unfolding Retry.complete
complete-flaky = refl

abbrev identity : ℕ → ℕ
identity w = w

flaky-IsMeter : IsMeter timer flaky policy context request identity
flaky-IsMeter = record {
  called = λ w. refl;
  notified = λ w. refl;
  drawn = λ n w. refl;
  waited = λ n w. refl;
}

complete-IsWithin_example :
    IsWithin timer flaky policy context request identity 1 3
      (Retry.complete timer flaky policy context request 0)
complete-IsWithin_example =
    complete-IsWithin timer flaky policy context request identity flaky-IsMeter (omega arith) 0

complete-refusing :
    Retry.complete timer refusing policy context request 0 ≡ (err (http_error 400 ""), 1)
unfolding Retry.complete
complete-refusing = refl

complete-final_example :
    Decided timer flaky policy context request identity 0
      (flaky context request 0)
      (Retry.complete timer flaky policy context request 0)
complete-final_example =
    complete-final timer flaky policy context request identity flaky-IsMeter (λ n v. refl)
      (omega arith) 0

backoff-bounded_example : (backoff timer policy 2 0).0 ≤ max 100 150
backoff-bounded_example = backoff-bounded timer policy (λ n w. omega arith) 2 0

validate_text-ne-out_of_fuel_example : validate_text lib object_schema "5" ≢ some out_of_fuel
validate_text-ne-out_of_fuel_example = validate_text-ne-out_of_fuel lib object_schema "5"
