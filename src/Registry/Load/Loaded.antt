-- ===== src/Registry/Load/Loaded.antt =====
-- internal/registry/registry.go: what a registry that `Load` has read satisfies.
use j_harness.Base.{
  String, Bool, true, false, ◌==◌, eq_iff, eq_refl, nat_eq, none, some, List, [], ◌∷◌, ◌≡◌, ◌≢◌,
  refl, subst, ◌∙◌, Result, ok, err, >>=-eq-ok, is_empty, lookup, insert, lookup-insert, All,
  Bool-cases, Option-cases, inl, inr, arith, trim_suffix,
}
use j_harness.Json.{GoLib}
use j_harness.Model.{AgentBlueprint, Pipeline, Step, schema_version}
use j_harness.Engine.Defs.{Registry}
use j_harness.Pipeline.Template.{id_pattern}
use j_harness.Registry.Paths.{safe_rel}
use j_harness.Registry.Blueprint.Safe.{validate_blueprint-IsBlueprint}
use j_harness.Registry.Blueprint.{validate_blueprint}
use j_harness.Registry.{
  Error, require, validate_pipeline, bad_prompt_path, unsupported_version, invalid_pipeline_id,
  id_not_filename,
}
use j_harness.Registry.Valid.{
  >>-ok, require-ok, IsRunnable, IsLoadable, validate_pipeline-IsLoadable,
}
use j_harness.Registry.Load.{
  Files, Entry, Listing, missing, failed, listed, is_skipped, or_error, within, of_path,
  decode_strict, compile_output_schema, put_schema, put_blueprint, load_blueprint, known_in,
  load_pipeline, load_entries, load_listing, empty, load, blueprints_dir, pipelines_dir, in_dir,
  prompt_unreadable,
}

within-ok :
    {A : Type 0} (name : String) (r : Result Error A) (a : A) → within name r ≡ ok a → r ≡ ok a
within-ok name (ok b) a h = cc
within-ok name (err e) a h = cc

validate_pipeline-named :
    {F : Type 0} (known : String → Bool) (filename : String) (p : Pipeline F)
    → validate_pipeline known filename p ≡ ok tt
    → filename ≡ p.pipeline_id
unfolding validate_pipeline
validate_pipeline-named known filename p h =
    let a = >>-ok (require (nat_eq p.version schema_version) (unsupported_version p.version)) _ h in
    let b = >>-ok (require (id_pattern p.pipeline_id) (invalid_pipeline_id p.pipeline_id)) _ a.1 in
    let c =
      >>-ok (require (filename == p.pipeline_id) (id_not_filename p.pipeline_id filename)) _ b.1 in
    (eq_iff filename p.pipeline_id).0 (require-ok _ _ c.0)

-- An agent that is loaded: its blueprint was accepted, and its prompt and its schema are there.
abbrev pub IsAgent : {F : Type 0} → Registry F → String → AgentBlueprint F → Type 0
IsAgent r id bp =
    (validate_blueprint id bp ≡ ok tt)
    × (lookup id r.prompts ≢ none)
    × (is_empty bp.output_schema ≡ false → lookup id r.schemas ≢ none)

-- What a run of a pipeline needs of a step that is no router.
abbrev pub HasAgent : {F : Type 0} → Registry F → Step F → Type 0
HasAgent {F} r s =
    s.router ≡ false
    → (bp : AgentBlueprint F) × (lookup s.agent_id r.blueprints ≡ some bp) × IsAgent r s.agent_id bp

-- What `Load` promises.
pub record IsLoaded {F : Type 0} (r : Registry F) : Type 0 where
  pub agents :
      (id : String) (bp : AgentBlueprint F) → lookup id r.blueprints ≡ some bp → IsAgent r id bp
  pub pipelines :
      (id : String) (p : Pipeline F)
      → lookup id r.pipelines ≡ some p
      → IsLoadable (known_in r) p × All (HasAgent r) p.steps

module _ {F : Type 0} (lib : GoLib F) (files : Files F) where
  open files use {read_file}

  abbrev AgentsIn : Registry F → Type 0
  AgentsIn r =
      (id : String) (bp : AgentBlueprint F) → lookup id r.blueprints ≡ some bp → IsAgent r id bp

  -- Only schemas are put in, and that of the blueprint is there then.
  abbrev Keeps : AgentBlueprint F → Registry F → Registry F → Type 0
  Keeps bp r r' =
      (r'.blueprints ≡ r.blueprints)
      × (r'.prompts ≡ r.prompts)
      × (r'.pipelines ≡ r.pipelines)
      × ((j : String) → lookup j r.schemas ≢ none → lookup j r'.schemas ≢ none)
      × (is_empty bp.output_schema ≡ false → lookup bp.id r'.schemas ≢ none)

  put_schema-Keeps :
      (bp : AgentBlueprint F) (r r' : Registry F)
      → put_schema lib files bp r ≡ ok r'
      → Keeps bp r r'
  unfolding put_schema
  put_schema-Keeps bp r r' h = elim (Bool-cases (is_empty bp.output_schema)) [
    | inl no_schema ↦
        let e : r ≡ r' = cc (rw no_schema at h) in
        subst (Keeps bp r) e
          (refl, refl, refl, (λ j n. n), λ full. absurd (cc (rw no_schema at full)))
    | inr full ↦
        let (s, compiled, out) = >>=-eq-ok (compile_output_schema lib files bp) _ (rw full at h) in
        let e : record r { schemas = insert bp.id s r.schemas } ≡ r' = cc out in
        subst (Keeps bp r) e (
          refl,
          refl,
          refl,
          (λ j n q. n (ground (arith, lookup-insert bp.id j s r.schemas))),
          λ full' q. ground (arith, lookup-insert bp.id bp.id s r.schemas, eq_refl bp.id),
        )
  ]

  new-AgentsIn :
      (bp : AgentBlueprint F) (prompt : String) (r r1 : Registry F)
      → validate_blueprint bp.id bp ≡ ok tt
      → Keeps bp (record r { prompts = insert bp.id prompt r.prompts }) r1
      → AgentsIn r
      → AgentsIn (record r1 { blueprints = insert bp.id bp r1.blueprints })
  new-AgentsIn bp prompt r r1 valid k v j b found = elim (Bool-cases (bp.id == j)) [
    | inl same ↦
        let at = (eq_iff bp.id j).0 same in
        let e : bp ≡ b = cc (rw (lookup-insert bp.id j bp r1.blueprints, same) at found) in
        subst (IsAgent r1 j) e (
          subst (λ t. IsAgent r1 t bp) at
            (
              valid,
              (λ q.
                  ground
                    (arith, lookup-insert bp.id bp.id prompt r.prompts, eq_refl bp.id, q, k.1)),
              k.4,
            ))
    | inr other ↦
        let old = v j b (ground (arith, lookup-insert bp.id j bp r1.blueprints, found, k.0)) in
        (
          old.0,
          (λ q. old.1 (ground (arith, lookup-insert bp.id j prompt r.prompts, q, k.1))),
          λ full. k.3 j (old.2 full),
        )
  ]

  put_blueprint-AgentsIn :
      (file id : String) (bp : AgentBlueprint F) (r r' : Registry F)
      → put_blueprint lib files file id bp r ≡ ok r'
      → AgentsIn r
      → AgentsIn r' × (r'.pipelines ≡ r.pipelines)
  unfolding put_blueprint
  put_blueprint-AgentsIn file id bp r r' h v =
      let (u, valid, h1) = >>=-eq-ok (within file (validate_blueprint id bp)) _ h in
      let (rel, path, h2) =
        >>=-eq-ok (within file (of_path bad_prompt_path (safe_rel bp.prompt_path))) _ h1 in
      let (prompt, there, h3) =
        >>=-eq-ok (within file (or_error (prompt_unreadable rel) (read_file rel))) _ h2 in
      let (r1, put, h4) =
        >>=-eq-ok
          (within file
            (put_schema lib files bp (record r { prompts = insert bp.id prompt r.prompts })))
          _ h3 in
      let e : record r1 { blueprints = insert bp.id bp r1.blueprints } ≡ r' = cc h4 in
      let k =
        put_schema-Keeps bp (record r { prompts = insert bp.id prompt r.prompts }) r1
          (within-ok file _ r1 put) in
      let ok_id = within-ok file (validate_blueprint id bp) u valid in
      let w =
        new-AgentsIn bp prompt r r1
          (subst (λ t. validate_blueprint t bp ≡ ok tt)
            (validate_blueprint-IsBlueprint id bp ok_id).named ok_id)
          k v in
      (subst AgentsIn e w, subst (λ t. t.pipelines ≡ r.pipelines) e k.2)

  load_blueprint-AgentsIn :
      (file : String) (r r' : Registry F)
      → load_blueprint lib files file r ≡ ok r'
      → AgentsIn r
      → AgentsIn r' × (r'.pipelines ≡ r.pipelines)
  unfolding load_blueprint
  load_blueprint-AgentsIn file r r' h v =
      let (bp, decoded, put) =
        >>=-eq-ok
          (decode_strict read_file files.decode_any files.decode_blueprint
            (in_dir blueprints_dir file))
          _ h in
      put_blueprint-AgentsIn file (trim_suffix file ".json") bp r r' put v

  -- Each pipeline was accepted with the agents of the registry.
  abbrev PipelinesIn : Registry F → Type 0
  PipelinesIn r =
      (id : String) (p : Pipeline F)
      → lookup id r.pipelines ≡ some p
      → validate_pipeline (known_in r) id p ≡ ok tt

  new-PipelinesIn :
      (id : String) (p : Pipeline F) (r : Registry F)
      → validate_pipeline (known_in r) id p ≡ ok tt
      → PipelinesIn r
      → PipelinesIn (record r { pipelines = insert p.pipeline_id p r.pipelines })
  unfolding known_in
  new-PipelinesIn id p r valid v j b found = elim (Bool-cases (p.pipeline_id == j)) [
    | inl same ↦
        let e : p ≡ b = cc (rw (lookup-insert p.pipeline_id j p r.pipelines, same) at found) in
        let at =
          validate_pipeline-named (known_in r) id p valid ∙ (eq_iff p.pipeline_id j).0 same in
        subst (λ t. validate_pipeline (known_in r) j t ≡ ok tt) e
          (subst (λ t. validate_pipeline (known_in r) t p ≡ ok tt) at valid)
    | inr other ↦ v j b (ground (arith, lookup-insert p.pipeline_id j p r.pipelines, found))
  ]

  load_pipeline-PipelinesIn :
      (file : String) (r r' : Registry F)
      → load_pipeline lib files file r ≡ ok r'
      → AgentsIn r × PipelinesIn r
      → AgentsIn r' × PipelinesIn r'
  unfolding load_pipeline
  load_pipeline-PipelinesIn file r r' h v =
      let (p, decoded, h1) =
        >>=-eq-ok
          (decode_strict read_file files.decode_any files.decode_pipeline
            (in_dir pipelines_dir file))
          _ h in
      let (u, valid, h2) =
        >>=-eq-ok (within file (validate_pipeline (known_in r) (trim_suffix file ".json") p)) _
          h1 in
      let e : record r { pipelines = insert p.pipeline_id p r.pipelines } ≡ r' = cc h2 in
      subst (λ t. AgentsIn t × PipelinesIn t) e
        (v.0, new-PipelinesIn (trim_suffix file ".json") p r (within-ok file _ u valid) v.1)

  module _ (P : Registry F → Type 0) (load_one : String → Registry F → Result Error (Registry F))
      (keeps : (file : String) (r r' : Registry F) → load_one file r ≡ ok r' → P r → P r') where
    load_entries-keeps :
        (es : List Entry) (r r' : Registry F) → load_entries load_one es r ≡ ok r' → P r → P r'
    unfolding load_entries
    load_entries-keeps [] r r' h v = subst P (cc) v
    load_entries-keeps (e ∷ es) r r' h v = elim (Bool-cases (is_skipped e)) [
      | inl skipped ↦ load_entries-keeps es r r' (rw skipped at h) v
      | inr taken ↦
          let (r1, one, rest) = >>=-eq-ok (load_one e.name r) _ (rw taken at h) in
          load_entries-keeps es r1 r' rest (keeps e.name r r1 one v)
    ]

    load_listing-keeps :
        (dir : String) (l : Listing) (r r' : Registry F)
        → load_listing load_one dir l r ≡ ok r'
        → P r
        → P r'
    unfolding load_listing
    load_listing-keeps dir missing r r' h v = subst P (cc h) v
    load_listing-keeps dir failed r r' h v = cc
    load_listing-keeps dir (listed es) r r' h v = load_entries-keeps es r r' h v

  known_in-found :
      (r : Registry F) (id : String)
      → known_in r id ≡ true
      → (bp : AgentBlueprint F) × (lookup id r.blueprints ≡ some bp)
  unfolding known_in
  known_in-found r id h = elim (Option-cases (lookup id r.blueprints)) [
    | inl absent ↦ cc (rw (absent, known_in) at h)
    | inr found ↦ found
  ]

  steps-HasAgent :
      (r : Registry F) (ids : List String) (steps : List (Step F))
      → AgentsIn r
      → All (IsRunnable (known_in r) ids) steps
      → All (HasAgent r) steps
  steps-HasAgent r ids [] v w = tt
  steps-HasAgent r ids (s ∷ ss) v w = (
    (λ agent_step.
        let (bp, found) = known_in-found r s.agent_id (w.0.1 agent_step) in
        (bp, found, v s.agent_id bp found)),
    steps-HasAgent r ids ss v w.1,
  )

  all-IsLoaded : (r : Registry F) → AgentsIn r × PipelinesIn r → IsLoaded r
  all-IsLoaded r v = record {
    agents = v.0;
    pipelines = λ id p found.
        let l = validate_pipeline-IsLoadable (known_in r) id p (v.1 id p found) in
        (l, steps-HasAgent r _ p.steps v.0 l.runnable);
  }

  -- For any files, if Load returns a registry, then each blueprint in it was accepted under its id
  -- and has its prompt and, where it names one, its schema in the registry; each pipeline in it is
  -- loadable (distinct step ids, routes that lead to steps, an acyclic graph), and each step that
  -- is no router has an agent with blueprint and prompt in the registry.
  pub load-IsLoaded : (r : Registry F) → load lib files ≡ ok r → IsLoaded r
  unfolding load lookup
  load-IsLoaded r h =
      let (r1, agents, pipes) =
        >>=-eq-ok
          (load_listing (load_blueprint lib files) blueprints_dir (files.read_dir blueprints_dir)
            empty)
          _ h in
      let v : AgentsIn r1 × (r1.pipelines ≡ []) =
        load_listing-keeps (λ t. AgentsIn t × (t.pipelines ≡ [])) (load_blueprint lib files)
          (λ file a b one w. let n = load_blueprint-AgentsIn file a b one w.0 in (n.0, n.1 ∙ w.1))
          blueprints_dir (files.read_dir blueprints_dir) empty r1 agents
          ((λ id bp found. cc), refl) in
      all-IsLoaded r (
        load_listing-keeps (λ t. AgentsIn t × PipelinesIn t) (load_pipeline lib files)
          load_pipeline-PipelinesIn pipelines_dir (files.read_dir pipelines_dir) r1 r pipes
          (v.0, λ id p found. cc (rw v.1 at found)))
