-- ===== src/Api/Http.antt =====
-- internal/api/api.go: requests, responses, and the checks of a request that look at it alone. What
-- net/http and encoding/json do is a parameter.
use j_harness.Base.{
  ℕ, ◌+◌, String, code, Bool, true, false, not, ◌&&◌, ◌||◌, Option, none, some, List, [], ◌∷◌, Map,
  Result, ok, err, leb, nat_eq, if◌then◌else◌, ◌==◌, is_empty, split, has_prefix, drop_chars,
  trim_space,
}
use j_harness.Model.{AgentBlueprint, Pipeline, Job, StepResult}
use j_harness.Registry.{Error as RegistryError}
use j_harness.Store.{Error as StoreError}
use j_harness.Engine.Worker.{PoolError}

pub record Request : Type 0 where
  pub method : String
  pub path : String
  pub authorization : String
  pub body : String

-- What is wrong with a body.
pub data BodyError : Type 0 where
  empty_body not_single no_input_data no_inputs : BodyError
  invalid_json : String → BodyError

-- What one `Decode` of a decoder gives: the end of the text, an error, or a value and the text behind it.
pub data Decoded (A : Type 0) : Type 0 where
  at_end : Decoded A
  bad : String → Decoded A
  value : A → String → Decoded A

-- Summaries of the lists of agents and of pipelines
pub record AgentSummary : Type 0 where
  pub id : String
  pub description : String
  pub model : String
  pub output_format : String

pub record PipelineSummary : Type 0 where
  pub pipeline_id : String
  pub steps : ℕ
  pub inputs : List String

-- The bodies of responses, before they are encoded; an error has a code and its cause.
pub data Cause : Type 0 where
  unauthorized unknown_route missing_input queue_full : Cause
  method_not_allowed : (allowed : String) → Cause
  unknown conflict id_mismatch : String → Cause
  bad_body : BodyError → Cause
  not_submitted : PoolError → Cause
  store_failed : StoreError → Cause
  not_ready : Cause
  invalid_entry reload_failed : RegistryError → Cause

pub data Body (F : Type 0) : Type 0 where
  error : Cause → Body F
  healthy ready done redirect : Body F
  counters : String → Body F
  submitted : (session : String) → Body F
  session : Job → Body F
  steps : String → List StepResult → Body F
  agents : List AgentSummary → Body F
  pipelines : List PipelineSummary → Body F
  agent_detail : AgentBlueprint F → String → Body F
  pipeline_detail : Pipeline F → Body F

pub record Response (F : Type 0) : Type 0 where
  pub status : ℕ
  pub body : Body F

abbrev pub respond : {F : Type 0} → ℕ → Body F → Response F
respond status body = record { status = status; body = body }

abbrev pub fail : {F : Type 0} → ℕ → Cause → Response F
fail status cause = respond status (error cause)

-- `splitTwo`: the two parts around the only slash
abbrev pub two_of : List String → Option (String × String)
two_of (a ∷ b ∷ []) = some (a, b)
two_of _ = none

unfoldable pub split_two : String → Option (String × String)
unfolding split
split_two s = two_of (split b'/' s)

-- `strings.EqualFold` with a text of ASCII letters and a space
abbrev pub lower : ℕ → ℕ
lower c = if leb b'A' c && leb c b'Z' then c + 32 else c

unfoldable pub has_prefix_fold : String → String → Bool
has_prefix_fold s String.[] = true
has_prefix_fold String.[] (String.◌∷◌ d t) = false
has_prefix_fold (String.◌∷◌ c s) (String.◌∷◌ d t) =
    nat_eq (lower (code c)) (lower (code d)) && has_prefix_fold s t

unfoldable pub bearer_token : String → String
unfolding has_prefix_fold drop_chars trim_space
bearer_token header =
    if has_prefix_fold header "Bearer " then trim_space (drop_chars header "Bearer ") else ""

-- The condition under which `authenticate` serves a request.
unfoldable pub is_allowed : (auth : String) → Request → Bool
unfolding has_prefix bearer_token
is_allowed auth r =
    let token = bearer_token r.authorization in
    is_empty auth || not (has_prefix r.path "/v1/") || not (is_empty token) && token == auth

module _ {A : Type 0} where
  abbrev single : (String → Bool) → Decoded A → Result BodyError A
  single ends at_end = err empty_body
  single ends (bad message) = err (invalid_json message)
  single ends (value a rest) = if ends rest then ok a else err not_single

  -- `decodeStrictBody`, and the start of the other decoders; `ends` tells whether nothing but white space
  -- is left.
  unfoldable pub decode_single :
      (String → Bool) → (String → Decoded A) → String → Result BodyError A
  decode_single ends decode body = single ends (decode body)

abbrev require_data : Result BodyError String → Result BodyError String
unfolding trim_space
require_data (err e) = err e
require_data (ok s) = if is_empty (trim_space s) then err no_input_data else ok s

unfoldable pub decode_execute_request :
    (String → Bool) → (String → Decoded String) → String → Result BodyError String
unfolding decode_single require_data
decode_execute_request ends decode body = require_data (decode_single ends decode body)

abbrev require_inputs : Result BodyError (Map String) → Result BodyError (Map String)
require_inputs (err e) = err e
require_inputs (ok []) = err no_inputs
require_inputs (ok (i ∷ is)) = ok (i ∷ is)

unfoldable pub decode_pipeline_request :
    (String → Bool) → (String → Decoded (Map String)) → String → Result BodyError (Map String)
unfolding decode_single
decode_pipeline_request ends decode body = require_inputs (decode_single ends decode body)
