-- ===== src/Hitl/Executors.antt =====
-- src/hitl/tool-executor.registry.ts: how each approved tool is really executed.
use jin_core.Base.{String, Option, none, some, List, [], ◌∷◌, str_eq, if◌then◌else◌}
use jin_core.Hitl.Payload.{Payload}
use jin_core.Runtime.Program.{
  Prog, Answer, ok, err, throw, query, invoke, no_executor_registered, executor_already_registered,
}

-- `ToolExecutor`: the payload and the context's `requestId`
abbrev pub Executor : Type 0
Executor = Option Payload → String → Prog String

-- the `Map`, by insertion
abbrev pub Registry : Type 0
Registry = List (String × Executor)

unfoldable pub lookup_executor : String → Registry → Option Executor
lookup_executor tool [] = none
lookup_executor tool ((name, e) ∷ r) = if str_eq name tool then some e else lookup_executor tool r

unfoldable pub register : String → Executor → Registry → Answer Registry
register tool e r = elim (lookup_executor tool r) [
  | some _ ↦ err (executor_already_registered tool)
  | none ↦ ok ((tool, e) ∷ r)
]

-- the guard on a missing executor
unfoldable pub execute_with : Option Executor → String → Option Payload → String → Prog String
execute_with none tool payload rid = throw (no_executor_registered tool)
execute_with (some e) tool payload rid = e payload rid

unfoldable pub execute : Registry → String → Option Payload → String → Prog String
unfolding lookup_executor execute_with
execute r tool payload rid = execute_with (lookup_executor tool r) tool payload rid

-- the executor of an integration: its side effect, which is not the repository's
abbrev pub integration : String → Executor
integration tool payload rid = query (invoke tool payload rid)
