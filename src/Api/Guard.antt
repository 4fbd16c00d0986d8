-- ===== src/Api/Guard.antt =====
-- internal/api/api.go: what a request without the token can do.
use Prim.Native.String.{◌++◌ as str_append}
use text.Mathlib.TextLemmas.{cons-append}
use j_harness.Base.{
  String, Bool, true, false, ◌≡◌, ◌≢◌, refl, Bool-cases, inl, inr, arith, has_prefix, is_empty,
  eq_iff,
}
use j_harness.Metrics.{Metrics}
use j_harness.Api.Http.{
  Request, Body, error, healthy, ready, redirect, counters, bearer_token, is_allowed,
}
use j_harness.Api.Server.{Api, Env}
use j_harness.Api.Entries.{RegistryEnv}
use j_harness.Api.{
  Config, Target, to_health, to_ready, to_metrics, to_agents, to_pipelines, to_sessions,
  to_registry, redirected, nowhere, target_of, dispatch, serve,
}

-- Bodies that show nothing of agents, pipelines, jobs and steps.
abbrev pub is_public : {F : Type 0} → Body F → Bool
is_public (error cause) = true
is_public healthy = true
is_public ready = true
is_public redirect = true
is_public (counters text) = true
is_public _ = false

has_prefix-append : (s t u : String) → has_prefix s (str_append t u) ≡ true → has_prefix s t ≡ true
unfolding has_prefix
has_prefix-append s String.[] u h = refl
has_prefix-append String.[] (String.◌∷◌ d t) u h = cc (rw (cons-append d t u) at h)
has_prefix-append (String.◌∷◌ c s) (String.◌∷◌ d t) u h =
    let k = rw (cons-append d t u) at h in ground (arith, k, has_prefix-append s t u)

empty-eq : (s : String) → is_empty s ≡ true → s ≡ ""
empty-eq String.[] h = refl
empty-eq (String.◌∷◌ c s) h = cc

-- A target that changes the state, or shows what it holds.
abbrev is_v1 : Target → Bool
is_v1 to_agents = true
is_v1 to_pipelines = true
is_v1 to_sessions = true
is_v1 to_registry = true
is_v1 _ = false

target_of-v1 :
    (is_clean : String → Bool) (path : String)
    → is_v1 (target_of is_clean path) ≡ true
    → has_prefix path "/v1/" ≡ true
unfolding target_of
target_of-v1 is_clean path h = ground (
  arith,
  has_prefix-append path "/v1/" "agents/",
  has_prefix-append path "/v1/" "pipelines/",
  has_prefix-append path "/v1/" "sessions/",
  has_prefix-append path "/v1/" "registry/",
)

allowed-outside :
    (auth : String) (r : Request)
    → auth ≢ ""
    → bearer_token r.authorization ≢ auth
    → is_allowed auth r ≡ true
    → has_prefix r.path "/v1/" ≡ false
unfolding is_allowed
allowed-outside auth r set wrong h =
    ground (arith, empty-eq auth, set, wrong, eq_iff (bearer_token r.authorization) auth)

module _ {F S W D : Type 0} (cfg : Config) (env : Env F S) (entries : RegistryEnv F D)
    (print : Metrics → String) where
  dispatch-public :
      (t : Target) (r : Request) (a : Api F S W D)
      → is_v1 t ≡ false
      → ((dispatch cfg env entries print t r a).1 ≡ a)
        × (is_public (dispatch cfg env entries print t r a).0.body ≡ true)
  unfolding dispatch
  dispatch-public to_health r a h = (refl, refl)
  dispatch-public to_ready r a h = (refl, ground arith)
  dispatch-public to_metrics r a h = (refl, refl)
  dispatch-public to_agents r a h = cc
  dispatch-public to_pipelines r a h = cc
  dispatch-public to_sessions r a h = cc
  dispatch-public to_registry r a h = cc
  dispatch-public redirected r a h = (refl, refl)
  dispatch-public nowhere r a h = (refl, refl)

  -- Where a token is configured, a request whose bearer token is another text changes nothing, on
  -- any path, and its response shows no agent, pipeline, job or step.
  pub serve-Guarded :
      (r : Request) (a : Api F S W D)
      → cfg.auth ≢ ""
      → bearer_token r.authorization ≢ cfg.auth
      → ((serve cfg env entries print r a).1 ≡ a)
        × (is_public (serve cfg env entries print r a).0.body ≡ true)
  unfolding serve
  serve-Guarded r a set wrong = elim (Bool-cases (is_allowed cfg.auth r)) [
    | inr refused ↦ rw refused (refl, refl)
    | inl allowed ↦
        let outside = allowed-outside cfg.auth r set wrong allowed in
        let t = target_of cfg.is_clean r.path in
        rw allowed (
          dispatch-public t r a (elim (Bool-cases (is_v1 t)) [
            | inr other ↦ other
            | inl v1 ↦ cc (rw (target_of-v1 cfg.is_clean r.path v1) at outside)
          ]))
  ]
