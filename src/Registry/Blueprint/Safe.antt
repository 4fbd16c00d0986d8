-- ===== src/Registry/Blueprint/Safe.antt =====
-- internal/registry/registry.go: what a blueprint satisfies that the registry accepts.
use j_harness.Base.{
  String, true, false, not, ◌==◌, eq_iff, nat_eq, List, [], ◌∷◌, ◌≡◌, refl, Result, ok, err,
  is_empty, All, trim_space,
}
use j_harness.Model.{AgentBlueprint, schema_version, output_json}
use j_harness.Tools.{is_builtin}
use j_harness.Pipeline.Template.{id_pattern}
use j_harness.Registry.Paths.{PathError, safe_rel}
use j_harness.Registry.Paths.Inside.{IsInside, safe_rel-IsInside}
use j_harness.Registry.Blueprint.{check_tools, validate_blueprint, known_format}
use j_harness.Registry.{
  Error, require, from_path, bad_prompt_path, bad_schema_path, model_required, unsupported_version,
  invalid_id, id_not_filename, prompt_path_required, invalid_output_format,
}
use j_harness.Registry.Valid.{>>-ok, require-ok}

from_path-ok :
    (f : PathError → Error) (r : Result PathError String)
    → from_path f r ≡ ok tt
    → (q : String) × (r ≡ ok q)
from_path-ok f (ok q) h = (q, refl)
from_path-ok f (err e) h = cc

-- What a blueprint satisfies that the registry has accepted.
pub record IsBlueprint {F : Type 0} (filename : String) (bp : AgentBlueprint F) : Type 0 where
  pub named : filename ≡ bp.id
  pub pattern : id_pattern bp.id ≡ true
  pub prompt : (q : String) × (safe_rel bp.prompt_path ≡ ok q) × IsInside q
  pub tools : All (λ t. is_builtin t ≡ true) bp.tools
  pub schema :
      is_empty bp.output_schema ≡ false
      → ((bp.output_format == output_json) ≡ true)
        × ((q : String) × (safe_rel bp.output_schema ≡ ok q) × IsInside q)

check_tools-All :
    (tools : List String) → check_tools tools ≡ ok tt → All (λ t. is_builtin t ≡ true) tools
unfolding check_tools
check_tools-All [] h = tt
check_tools-All (t ∷ ts) h = let a = >>-ok _ _ h in (require-ok _ _ a.0, check_tools-All ts a.1)

safe-Inside :
    (f : PathError → Error) (p : String)
    → from_path f (safe_rel p) ≡ ok tt
    → (q : String) × (safe_rel p ≡ ok q) × IsInside q
safe-Inside f p h = let (q, e) = from_path-ok f (safe_rel p) h in (q, e, safe_rel-IsInside p q e)

-- A blueprint that validateBlueprint accepts has an id of the pattern that is its file name, only
-- built-in tools, a prompt path that safeRel accepts, and, where it names an output schema, the
-- format json and a schema path that safeRel accepts; the accepted paths are the root itself or
-- lead down from it by names without a step up.
pub validate_blueprint-IsBlueprint :
    {F : Type 0} (filename : String) (bp : AgentBlueprint F)
    → validate_blueprint filename bp ≡ ok tt
    → IsBlueprint filename bp
unfolding validate_blueprint
validate_blueprint-IsBlueprint filename bp h =
    let a =
      >>-ok (require (nat_eq bp.version schema_version) (unsupported_version bp.version)) _ h in
    let b = >>-ok (require (id_pattern bp.id) (invalid_id bp.id)) _ a.1 in
    let c = >>-ok (require (filename == bp.id) (id_not_filename bp.id filename)) _ b.1 in
    let d =
      >>-ok (require (not (is_empty (trim_space bp.prompt_path))) prompt_path_required) _ c.1 in
    let e = >>-ok (from_path bad_prompt_path (safe_rel bp.prompt_path)) _ d.1 in
    let f = >>-ok (require (not (is_empty (trim_space bp.model))) model_required) _ e.1 in
    let g = >>-ok (check_tools bp.tools) _ f.1 in
    let i =
      >>-ok (require (known_format bp.output_format) (invalid_output_format bp.output_format)) _
        g.1 in
    record {
      named = (eq_iff filename bp.id).0 (require-ok _ _ c.0);
      pattern = require-ok _ _ b.0;
      prompt = safe-Inside bad_prompt_path bp.prompt_path e.0;
      tools = check_tools-All bp.tools g.0;
      schema = λ full.
          let j = >>-ok _ _ (rw full at i.1) in
          (require-ok _ _ j.0, safe-Inside bad_schema_path bp.output_schema j.1);
    }
