-- ===== src/Model.antt =====
-- internal/model/model.go: blueprints, pipelines, steps and job records. `F` stands for float64.
pub mod Laws
use j_harness.Base.{
  ℕ, suc, ◌+◌, String, Bool, true, false, Option, none, some, List, [], ◌∷◌, ◌≡◌, refl,
  if◌then◌else◌, is_empty, nat_eq,
}
use j_harness.Json.{Json, null}

abbrev pub schema_version : ℕ
schema_version = 1

-- OutputFormat: the two values, as text.
abbrev pub output_text : String
output_text = "text"

abbrev pub output_json : String
output_json = "json"

pub record AgentBlueprint (F : Type 0) : Type 0 where
  pub id : String
  pub description : String
  pub prompt_path : String
  pub model : String
  pub base_url : String
  pub temperature : Option F
  pub max_tokens : ℕ
  pub timeout_seconds : ℕ
  pub output_format : String
  pub output_schema : String
  pub tools : List String
  pub concurrency : ℕ
  pub rate_limit : String
  pub version : ℕ

-- The operator names; `no_operator` is the empty string.
pub data Operator : Type 0 where
  no_operator op_equals op_not_equals op_in op_matches op_exists : Operator

pub record Condition (F : Type 0) : Type 0 where
  pub path : String
  pub equals : Json F
  pub not_equals : Json F
  pub among : List (Json F)
  pub matches : String
  pub exists : Bool

-- `c.Equals != nil`
abbrev pub is_set : {F : Type 0} → Json F → Bool
is_set null = false
is_set _ = true

abbrev pub is_cons : {F : Type 0} → List (Json F) → Bool
is_cons [] = false
is_cons (x ∷ xs) = true

-- One `if` of the chain: count the operator and remember it.
abbrev pub note : Bool → Operator → ℕ × Operator → ℕ × Operator
note true o (n, last) = (suc n, o)
note false o (n, last) = (n, last)

abbrev single : ℕ × Operator → Operator
single (n, op) = if nat_eq n 1 then op else no_operator

unfoldable pub operator : {F : Type 0} → Condition F → Operator
operator c = single (
    note c.exists op_exists (
      note (elim (is_empty c.matches) [ true ↦ false | false ↦ true ]) op_matches
        (note (is_cons c.among) op_in (
          note (is_set c.not_equals) op_not_equals
            (note (is_set c.equals) op_equals (0, no_operator))))))

pub record Route (F : Type 0) : Type 0 where
  pub when : Option (Condition F)
  pub default : Bool
  pub goto : String

pub record Step (F : Type 0) : Type 0 where
  pub id : String
  pub agent_id : String
  pub input : String
  pub output : String
  pub router : Bool
  pub routes : List (Route F)
  pub needs : List String

pub record Pipeline (F : Type 0) : Type 0 where
  pub pipeline_id : String
  pub version : ℕ
  pub inputs : List String
  pub steps : List (Step F)
  pub output : String

pub data JobKind : Type 0 where
  agent pipeline : JobKind
  other_kind : String → JobKind

-- `unset` is the empty string, the zero value of JobStatus.
pub data JobStatus : Type 0 where
  unset pending running completed failed canceled skipped : JobStatus

-- `a == b` on two statuses.
abbrev pub same_status : JobStatus → JobStatus → Bool
same_status unset unset = true
same_status pending pending = true
same_status running running = true
same_status completed completed = true
same_status failed failed = true
same_status canceled canceled = true
same_status skipped skipped = true
same_status _ _ = false

abbrev pub is_pending : JobStatus → Bool
is_pending pending = true
is_pending _ = false

abbrev pub is_completed : JobStatus → Bool
is_completed completed = true
is_completed _ = false

pub record Job : Type 0 where
  pub session_id : String
  pub kind : JobKind
  pub target_id : String
  pub status : JobStatus
  pub input : String
  pub result : String
  pub error : String

pub record StepResult : Type 0 where
  pub session_id : String
  pub step_id : String
  pub status : JobStatus
  pub output : String
  pub error : String
  pub tokens : ℕ
  pub duration_ms : ℕ
