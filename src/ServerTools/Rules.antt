-- ===== src/ServerTools/Rules.antt =====
-- Server tools that the bridge declares for a model (internal/bridge/server_tools.go): the check of a
-- rule, the key of a tool, and applyServerTools. A Go set of strings is the list of what was put
-- into it. strings.TrimSpace and a string's bytes are fields of ToolLib.
use cline_pass_bridge.Base.{
  is_empty, String, Bool, false, ◌&&◌, ◌||◌, not, Option, none, some, List, [], ◌∷◌, ltb, nat_beq,
  ◌==◌, string_eq, if◌then◌else◌, length, any, ◌++◌,
}
use cline_pass_bridge.Base.Text.{Text, codes}
use cline_pass_bridge.Faults.{Fault, fail}
use cline_pass_bridge.Json.{
  null, Items, nil, cons, Fields, arr, obj, store, str, object, list, value_at,
}
use cline_pass_bridge.ServerTools.Glob.{trimmed_matches}
use Prim.Native.String as Str

pub record ToolLib : Type 0 where
  pub trim_space : String → String
  pub bytes : String → Text

-- A tool is a map that may be nil.
pub record ServerToolRule : Type 0 where
  pub models : List String
  pub tools : List (Option Fields)

-- set[k]
abbrev pub has : List String → String → Bool
has seen k = any (λ j. j == k) seen

abbrev pub first_named : String → String → String
first_named a b = if a == "" then b else a

abbrev pub joined_key : String → String → String
joined_key kind name = if kind == "" && name == "" then "" else Str.◌++◌ kind (Str.◌++◌ "\0" name)

-- The loop's answer; it always has one.
abbrev pub is_yes : Option Bool → Bool
is_yes none = false
is_yes (some b) = b

-- The decoded tools with others behind them.
unfoldable pub with_tools : Items → List (Option Fields) → Items
with_tools nil [] = nil
with_tools nil (none ∷ tools) = cons null (with_tools nil tools)
with_tools nil (some tool ∷ tools) = cons (obj tool) (with_tools nil tools)
with_tools (cons entry rest) tools = cons entry (with_tools rest tools)

-- `if appended { j["tools"] = tools }`
unfoldable pub store_tools : Fields → Items → List (Option Fields) → Fields
store_tools j tools [] = j
store_tools j tools (t ∷ ts) = store j "tools" (arr (with_tools tools (t ∷ ts)))

abbrev pub tools_of : Fields → Items
tools_of j = list (value_at (some j) "tools")

module _ (lib : ToolLib) where
  -- strings.TrimSpace(str(m[k]))
  abbrev pub trimmed : Option Fields → String → String
  trimmed m k = lib.trim_space (str (value_at m k))

  -- strings.TrimSpace(str(object(tool["function"])["name"]))
  abbrev pub inner_name : Option Fields → String
  inner_name tool = trimmed (object (value_at tool "function")) "name"

  unfoldable pub server_tool_key : Option Fields → String
  server_tool_key tool =
      joined_key (trimmed tool "type") (first_named (trimmed tool "name") (inner_name tool))

  unfoldable pub builtin_server_tool_function_name : Option Fields → String
  builtin_server_tool_function_name tool =
      let kind = trimmed tool "type" in
      if kind == "vercel:exa_search"
      then "exa_search"
      else if kind == "vercel:perplexity_search"
      then "perplexity_search"
      else if kind == "vercel:parallel_search"
      then "parallel_search"
      else if kind == "vercel:tako_search"
      then "tako_search"
      else if kind == "vercel:browserbase_search"
      then "browserbase_search"
      else if kind == "vercel:browserbase_fetch"
      then "browserbase_fetch"
      else ""

  unfoldable pub model_pattern_matches : String → String → Bool
  model_pattern_matches pattern model =
      is_yes
        (trimmed_matches (lib.bytes (lib.trim_space pattern)) (lib.bytes (lib.trim_space model)))

  abbrev pub bad_pattern : String → Bool
  bad_pattern p =
      (lib.trim_space p == "") || any (λ c. nat_beq c 13 || nat_beq c 10 || nat_beq c 9) (codes p)

  -- The loop over the tools, with the keys that were seen.
  unfoldable pub check_tools : List (Option Fields) → List String → Option Fault
  check_tools [] seen = none
  check_tools (none ∷ tools) seen =
      some (fail 400 (codes "server_tools entries must be objects with a nonempty type"))
  check_tools (some tool ∷ tools) seen =
      let key = server_tool_key (some tool) in
      let rest = check_tools tools (key ∷ seen) in
      if trimmed (some tool) "type" == ""
      then some (fail 400 (codes "server_tools entries must be objects with a nonempty type"))
      else if has seen key
      then some (fail 400 (codes "server_tools entries must be unique within a rule"))
      else rest

  unfoldable pub validate : ServerToolRule → Option Fault
  validate r =
      if is_empty r.models || is_empty r.tools
      then some (fail 400 (codes "server_tools rules need at least one model pattern and one tool"))
      else if any bad_pattern r.models
      then some (
          fail 400 (
            codes "server_tools model patterns must be nonempty and contain no control whitespace"))
      else if ltb 16 (length r.tools)
      then some (fail 400 (codes "a server_tools rule can hold at most 16 tools"))
      else check_tools r.tools []

  unfoldable pub server_tool_rule_matches : ServerToolRule → String → Bool
  server_tool_rule_matches rule model = any (λ p. model_pattern_matches p model) rule.models

  -- `if tool := object(entry); tool != nil` with the key of the tool, without the empty one.
  unfoldable pub record_key : Option Fields → List String → List String
  record_key none keys = keys
  record_key (some tool) keys =
      let key = server_tool_key (some tool) in if key == "" then keys else key ∷ keys

  -- The keys of the client's tools.
  unfoldable pub client_keys : Items → List String
  client_keys nil = []
  client_keys (cons entry rest) = record_key (object entry) (client_keys rest)

  -- The name that a client's tool of type "function" gives its function.
  unfoldable pub function_name : Option Fields → String
  function_name tool = first_named (inner_name tool) (trimmed tool "name")

  unfoldable pub record_function : Option Fields → List String → List String
  record_function none names = names
  record_function (some tool) names =
      if (trimmed (some tool) "type" == "function") && not (function_name (some tool) == "")
      then function_name (some tool) ∷ names
      else names

  unfoldable pub client_functions : Items → List String
  client_functions nil = []
  client_functions (cons entry rest) = record_function (object entry) (client_functions rest)

  abbrev pub reserved : List String → Option Fields → Bool
  reserved functions tool =
      let name = builtin_server_tool_function_name tool in not (name == "") && has functions name

  -- One tool of a rule that matches: is it left out?
  unfoldable pub skips : List String → List String → Option Fields → Bool
  skips existing functions tool =
      (server_tool_key tool == "") || has existing (server_tool_key tool) || reserved functions tool

  -- The tools of the rules that match, in the order in which the loops come to them.
  unfoldable pub offered : List ServerToolRule → String → List (Option Fields)
  offered [] model = []
  offered (rule ∷ rules) model =
      let rest = offered rules model in
      if server_tool_rule_matches rule model then rule.tools ++ rest else rest

  -- The tools that are appended; each key that is appended exists from there on.
  unfoldable pub added : List String → List String → List (Option Fields) → List (Option Fields)
  added existing functions [] = []
  added existing functions (tool ∷ tools) =
      let skipped = added existing functions tools in
      let rest = added (server_tool_key tool ∷ existing) functions tools in
      if skips existing functions tool then skipped else tool ∷ rest

  abbrev pub new_tools : List ServerToolRule → Fields → String → List (Option Fields)
  new_tools rules j model =
      added (client_keys (tools_of j)) (client_functions (tools_of j)) (offered rules model)

  unfoldable pub apply_server_tools : List ServerToolRule → Fields → String → Fields
  apply_server_tools rules j model =
      if is_empty rules || (lib.trim_space model == "")
      then j
      else store_tools j (tools_of j) (new_tools rules j model)
