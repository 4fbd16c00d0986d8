-- ===== src/Api.antt =====
-- internal/api/api.go: how a request is served. `Handler` wires the handlers by their paths behind the
-- check of the token; logging and the recovery from panics change neither response nor state.
pub mod Http
pub mod Server
pub mod Entries
pub mod Guard
pub mod Accepts
pub mod Snapshots
use j_harness.Base.{
  ℕ, String, Bool, true, false, Option, none, some, Result, ok, err, if◌then◌else◌, ◌==◌,
  has_prefix,
}
use j_harness.Metrics.{Metrics}
use j_harness.Engine.Defs.{Engine, Registry}
use j_harness.Engine.Worker.{Pool}
use j_harness.Store.{Store}
use j_harness.Api.Http.{
  Request, Response, respond, fail, healthy, ready, redirect, counters, unauthorized, unknown_route,
  not_ready, is_allowed,
}
use j_harness.Api.Server.{Api, Env, Served, handle_agents, handle_pipelines, handle_sessions}
use j_harness.Api.Entries.{RegistryEnv, handle_registry}

-- What `New` asks of its configuration
pub data ConfigError : Type 0 where
  engine_required registry_required pool_required store_required : ConfigError

unfoldable pub new :
    {F S W D : Type 0}
    → Option (Engine F W)
    → Option (Registry F)
    → Option (Pool S W)
    → Option (Store S)
    → D
    → Result ConfigError (Api F S W D)
new none reg pool st d = err engine_required
new (some e) none pool st d = err registry_required
new (some e) (some reg) none st d = err pool_required
new (some e) (some reg) (some pool) none d = err store_required
new (some e) (some reg) (some pool) (some st) d =
    ok (record { engine = e; registry = reg; pool = pool; disk = d })

-- The path patterns of `Handler`; http.ServeMux answers a path that is not in its clean form, and a
-- pattern without its last slash, with a redirect.
pub data Target : Type 0 where
  to_health to_ready to_metrics to_agents to_pipelines to_sessions to_registry : Target
  redirected nowhere : Target

abbrev pub without_slash : String → Target
without_slash path =
    if path == "/v1/agents"
    then redirected
    else if path == "/v1/pipelines"
    then redirected
    else if path == "/v1/sessions"
    then redirected
    else if path == "/v1/registry"
    then redirected
    else nowhere

unfoldable pub under_v1 : String → Target
unfolding has_prefix
under_v1 path =
    if has_prefix path "/v1/agents/"
    then to_agents
    else if has_prefix path "/v1/pipelines/"
    then to_pipelines
    else if has_prefix path "/v1/sessions/"
    then to_sessions
    else if has_prefix path "/v1/registry/"
    then to_registry
    else without_slash path

unfoldable pub target_of : (is_clean : String → Bool) → String → Target
unfolding under_v1
target_of is_clean path =
    if is_clean path
    then (if path == "/healthz"
        then to_health
        else if path == "/readyz"
        then to_ready
        else if path == "/metrics"
        then to_metrics
        else under_v1 path)
    else redirected

-- The configuration, and what net/http calls clean.
pub record Config : Type 0 where
  pub auth : String
  pub is_clean : String → Bool

-- `handleReadyz`; the registry is there from `New` on.
abbrev pub handle_ready : {F S : Type 0} → Env F S → S → Response F
handle_ready env s = if env.ping s then respond 200 ready else fail 503 not_ready

module _ {F S W D : Type 0} (cfg : Config) (env : Env F S) (entries : RegistryEnv F D)
    (print : Metrics → String) where
  unfoldable pub dispatch : Target → Request → Api F S W D → Served F S W D
  unfolding handle_agents handle_pipelines handle_sessions handle_registry
  dispatch to_health r a = (respond 200 healthy, a)
  dispatch to_ready r a = (handle_ready env a.pool.store, a)
  dispatch to_metrics r a = (respond 200 (counters (print a.pool.state.metrics)), a)
  dispatch to_agents r a = handle_agents env r a
  dispatch to_pipelines r a = handle_pipelines env r a
  dispatch to_sessions r a = (handle_sessions env r a.pool.store, a)
  dispatch to_registry r a = handle_registry entries a.registry r a
  dispatch redirected r a = (respond 301 redirect, a)
  dispatch nowhere r a = (fail 404 unknown_route, a)

  -- `authenticate` around the mux
  unfoldable pub serve : Request → Api F S W D → Served F S W D
  unfolding is_allowed target_of dispatch
  serve r a =
      if is_allowed cfg.auth r
      then dispatch (target_of cfg.is_clean r.path) r a
      else (fail 401 unauthorized, a)
