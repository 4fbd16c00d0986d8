-- ===== src/Lib.antt =====
-- A model of j-harness, a server that runs language model agents and pipelines of agents, with the
-- theorems that make its core correct. Paths are those of the repository.
--
-- The parts and how they interact. A pipeline (internal/model) is a list of steps, whose inputs
-- refer to outputs of other steps by templates (internal/pipeline/template.go, resolve.go). `Deps`
-- (graph.go) turns references, `needs` entries and router targets into a dependency graph and
-- refuses cycles. `RunPipeline` (internal/engine/pipeline.go) starts a step once its dependencies
-- completed, skips what a router passed over (condition.go), and runs agents
-- (internal/engine/engine.go), which call a backend (internal/llm), answer tool calls
-- (internal/engine/tools.go) and check the answer against a JSON schema (internal/schema). The
-- registry (internal/registry) checks a pipeline before it is loaded. A job in a store
-- (internal/store) stands for one run, run by a pool of workers (internal/engine/worker.go), and
-- counters (internal/metrics) count what happens. The HTTP handlers (internal/api) submit jobs, read
-- them, and write the registry's files, which they then load again (internal/registry). Calls of the
-- backend go through limits for each endpoint (internal/ratelimit), and agents may use built-in tools
-- (internal/tools).
--
-- Files and code.
--   Base: tests, lists, maps, results and texts that the parts share.
--   Json: decoded documents; the record GoLib stands for encoding/json, strconv, regexp and float64
--     arithmetic, which are parameters of all that uses them.
--   Model: internal/model/model.go. Model/Laws: the operator of a condition.
--   Schema/Defs, Compile, Validate: internal/schema/schema.go (Compile, Validate). Validate/Fuel is
--     about the fuel of the model.
--   Metrics, Metrics/Laws: internal/metrics/metrics.go; counters wrap at 2 ^ 64.
--   Llm: internal/llm/client.go; a backend is a function of a context, a request and the world.
--     Llm/Retry, Retry/Bounds: internal/llm/retry.go; the random draw and the timer are parameters.
--     Bounds/Final is about the failures that end a call. Counts of tokens are ints, as 64-bit patterns.
--   RateLimit: internal/ratelimit/ratelimit.go, the limits and the caches. RateLimit/System has the
--     steps of calls of `Complete` that run at once, Safety what holds of the states that they reach,
--     Buckets which calls share a token bucket.
--   Pipeline/Template, Resolve, Condition: the files of those names in internal/pipeline.
--   Pipeline/Graph: graph.go (Deps, checkAcyclic). Cycles describes paths and well-founded steps,
--     Colors counts what the search has not entered, Search follows it, Edges says where edges come
--     from, Valid has the results on Deps as a whole.
--   Tools: internal/tools/tools.go, the built-in tools. Tools/Eval: eval.go, the parser of
--     expressions; Eval/Fuel is about the fuel of its model, Grammar has the trees that it reads with
--     their texts and values, Tokens and Reads follow it along such a text. Tools/Enabled is about New.
--   Registry, Registry/Valid: validatePipeline and checkRef of internal/registry/registry.go.
--     Registry/Routes is about the routers of a pipeline that it accepts. Registry/Paths: safeRel, with
--     Parts and Inside about where a path leads. Registry/Blueprint: validateBlueprint, with Safe about
--     what it accepts. Registry/Load: Load and decodeStrict, with Loaded about the registry that is
--     read. Registry/Write: write.go, with Refused about what a
--     write leaves, done or not.
--   Store, Store/Sqlite, Store/Laws: internal/store/store.go and sqlite.go, the tables as lists.
--   Store/Redis: internal/store/redis. Wire is the protocol, with Numbers about its digits,
--     RoundTrip about replies that are read back and Fuel about its reader; Conn has single commands
--     and transactions, with Exchange about what a caller gets; Pool the connections, their dialing
--     and the calls on it (redis.go), with Even about the replies
--     that are read on a connection and Synced about the pool. Fields has the texts that a job is kept
--     as, Jobs the operations of RedisStore over a server; Contract says what they rely on, Decoded,
--     Rewritten and Written follow the hashes, and Kept has the result.
--   Engine/Defs, Messages, Tools, Agent: internal/engine/engine.go and tools.go. Tools/Rounds and
--     Allowlist are about the tool loop, Agent/Conforms about outputs with a schema.
--   Engine/Worker: worker.go, the pool. Lifecycle is about the run of a job, Queue about Submit and
--     RequeueOrphans; both stand on the contract StoreLaws of any store.
--   Engine/Pipeline: RunPipeline. Admit is the pass over the steps, Receive what follows `<-done`,
--     Loop the loop and the result. Terminates, Phases, Order, Receipt, Cover, Progress and Wiring
--     hold the proofs about the loop, Abandon what it does with goroutines that are left.
--   Api: internal/api. Http has requests, responses and decoded bodies, Server the handlers of jobs and
--     sessions, Entries those of the registry (internal/api/registry.go) and `mutate`, and Api itself
--     the routing behind the token. Guard is about requests without the token, Accepts about requests
--     to execute, Snapshots about the registry that the API and the engine see.
--   Samples: concrete data, tests and one example for each result.
--
-- How state and concurrency are modelled. The world outside of the program is a type W; a backend
-- call maps it to a new one, and the clock is read from it. The goroutines of a run are a list of
-- steps in flight; a function `schedule` says which of them ends next, so a theorem for each
-- schedule holds for each order of completions. An agent's run is one step of the world. A map is
-- an association list, and a set is the list of its members.
--
-- Bounds and fuel. The loop of RunPipeline takes fuel, one more than there are steps: each round
-- that goes on receives one completion. The search for cycles takes fuel for as many levels as there
-- are steps: each call of `visit` turns a white step gray. The parser of expressions takes fuel,
-- four units for each byte and three more. The tool loop counts its five rounds as
-- the code does. The reader of Redis replies takes fuel, one more than there are bytes: each level of
-- nested arrays has read a line. A document is checked with fuel for its depth: each level takes one
-- unit.
--
-- Not modelled: the deadlines of the connections to Redis, the step from a call of the Redis store to
-- its bytes, and the memory that a length in a reply asks for; the OpenAI client, the command line and
-- the documentation check, which are mostly input and output; cancellation of contexts; texts of
-- errors, which are constructors here; the limit on goroutines that run at once, which changes the
-- order of completions only.
pub mod Base
pub mod Json
pub mod Model
pub mod Schema
pub mod Metrics
pub mod Llm
pub mod RateLimit
pub mod Pipeline
pub mod Store
pub mod Tools
pub mod Registry
pub mod Engine
pub mod Api
pub mod Samples
