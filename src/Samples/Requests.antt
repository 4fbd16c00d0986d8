-- ===== src/Samples/Requests.antt =====
-- Tests of requests that are served, over the SQLite store and a registry of one agent.
use j_harness.Base.{ℕ, String, true, none, some, [], ◌∷◌, Map, lookup, ◌≡◌, ◌≢◌, refl, ok, ◌==◌}
use j_harness.Metrics.{Metrics}
use j_harness.Model.{agent, pipeline}
use j_harness.Registry.Load.Loaded.{load-IsLoaded}
use j_harness.Store.Sqlite.{Db, create_job, sqlite}
use j_harness.Store.Laws.{sqlite-StoreLaws}
use j_harness.Api.Http.{
  Request, Decoded, value, bearer_token, split_two, fail, respond, submitted, done, conflict,
}
use j_harness.Api.Server.{Api, Env, handle_execute_agent, handle_execute_pipeline}
use j_harness.Api.Entries.{RegistryEnv}
use j_harness.Api.{Config, serve}
use j_harness.Api.Guard.{is_public, serve-Guarded}
use j_harness.Api.Accepts.{Outcome, execute-Outcome}
use j_harness.Api.Snapshots.{here, next, request, Synced, Reach-Synced}
use j_harness.Samples.{lib, engine}
use j_harness.Samples.Files.{loaded, files, disk, texts, blueprint, load-files}
use j_harness.Samples.Jobs.{empty_pool}

bearer_token-case : bearer_token "bEARER  abc " ≡ "abc"
unfolding bearer_token
bearer_token-case = refl

split_two-steps : split_two "s1/steps" ≡ some ("s1", "steps")
unfolding split_two
split_two-steps = refl

split_two-many : split_two "a/b/c" ≡ none
unfolding split_two
split_two-many = refl

abbrev env : Env ℕ Db
env = record {
  store = sqlite 7;
  list_step_results = λ id db. ok db.step_results;
  ping = λ db. true;
  fresh = λ r. "sess_1";
  ends = λ s. s == "";
  decode_input = λ s. value s "";
  decode_inputs = λ s. value (("doc", s) ∷ []) "";
  encode_inputs = λ m. "{}";
}

abbrev entries : RegistryEnv ℕ (Map String)
entries = record {
  lib = lib;
  disk = disk;
  ends = λ s. s == "";
  decode_agent = λ s. value (blueprint, s) "";
  decode_pipeline = λ s. Decoded.bad "no";
  sorted = λ ids. ids;
}

abbrev config : Config
config = record { auth = "abc"; is_clean = λ path. true }

abbrev print : Metrics → String
print m = ""

abbrev api : Api ℕ Db ℕ (Map String)
api = record {
  engine = record engine { registry = loaded };
  registry = loaded;
  pool = empty_pool;
  disk = texts;
}

abbrev ask : String → String → String → Request
ask method path body = record {
  method = method;
  path = path;
  authorization = "Bearer abc";
  body = body;
}

abbrev run_writer : Request
run_writer = ask "POST" "/v1/agents/writer/execute" "Hi."

serve-accepted :
    ((serve config env entries print run_writer api).0 ≡ respond 202 (submitted "sess_1"))
    × ((serve config env entries print run_writer api).1.pool.queue ≡ "sess_1" ∷ [])
unfolding serve create_job
serve-accepted = (refl, refl)

-- An agent that is there is not created again, and a PUT of it writes its files.
serve-conflict :
    (serve config env entries print (ask "POST" "/v1/registry/agents/writer" "New.") api).0
    ≡ fail 409 (conflict "writer")
unfolding serve
serve-conflict = refl

serve-replaced :
    (serve config env entries print (ask "PUT" "/v1/registry/agents/writer" "New.") api).0
    ≡ respond 200 done
unfolding serve disk files
serve-replaced = refl

abbrev wrong : Request
wrong = record run_writer { authorization = "Bearer ab" }

wrong-token : bearer_token wrong.authorization ≢ config.auth
unfolding bearer_token
wrong-token h = cc

serve-Guarded_example :
    ((serve config env entries print wrong api).1 ≡ api)
    × (is_public (serve config env entries print wrong api).0.body ≡ true)
serve-Guarded_example = serve-Guarded config env entries print wrong api (λ h. cc) wrong-token

execute-Outcome_example :
    (Outcome env agent "writer" "sess_1" api (handle_execute_agent env run_writer "writer" api)
      × (lookup "writer" loaded.blueprints ≡ none
          → (handle_execute_agent env run_writer "writer" api).1 ≡ api))
    × (Outcome env pipeline "writer" "sess_1" api
          (handle_execute_pipeline env run_writer "writer" api)
        × (lookup "writer" loaded.pipelines ≡ none
            → (handle_execute_pipeline env run_writer "writer" api).1 ≡ api))
execute-Outcome_example = execute-Outcome env run_writer "writer" api (sqlite-StoreLaws 7)

abbrev served : Api ℕ Db ℕ (Map String)
unfolding serve
served = (serve config env entries print (ask "PUT" "/v1/registry/agents/writer" "New.") api).1

Reach-Synced_example : Synced config env entries print served
unfolding served
Reach-Synced_example =
    Reach-Synced config env entries print api served
      (next here (request (ask "PUT" "/v1/registry/agents/writer" "New.") api))
      (refl, load-IsLoaded lib (files texts) loaded load-files)
