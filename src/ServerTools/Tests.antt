-- ===== src/ServerTools/Tests.antt =====
-- The server tools at concrete patterns, rules and requests.
use cline_pass_bridge.Base.{
  String, ◌≡◌, ◌≢◌, refl, true, false, Option, some, List, [], ◌∷◌, arith, is_some, string_eq,
}
use cline_pass_bridge.Base.Text.{Text, codes}
use cline_pass_bridge.Json.{nil, cons, Fields, end, field, text, arr, obj, find, store}
use cline_pass_bridge.ServerTools.Glob.{
  only_stars, fall_back, turn, go_on, match_loop, run_match, trimmed_matches,
}
use cline_pass_bridge.ServerTools.Ending.{trimmed_matches_ends}
use cline_pass_bridge.ServerTools.Matching.{Decides, trimmed_matches_lem}
use cline_pass_bridge.ServerTools.Fits.{Fits}
use cline_pass_bridge.ServerTools.Rules.{
  ToolLib, ServerToolRule, server_tool_key, builtin_server_tool_function_name,
  model_pattern_matches, server_tool_rule_matches, client_keys, client_functions, record_key,
  record_function, function_name, skips, offered, added, with_tools, store_tools, tools_of,
  apply_server_tools, check_tools, validate,
}
use cline_pass_bridge.ServerTools.New.{IsNew, AreDistinct, IsOffered}
use cline_pass_bridge.ServerTools.Provided.{AreProvided}
use cline_pass_bridge.ServerTools.Request.{apply_server_tools_lem}
use cline_pass_bridge.Base.{All}

abbrev family : Text
family = codes "deep*-flash-*"

abbrev member : Text
member = codes "deepseek-v4-flash-1017"

trimmed_matches_ends_example : is_some (trimmed_matches family member) ≡ true
trimmed_matches_ends_example = trimmed_matches_ends family member

trimmed_matches_lem_example : Decides (Fits family member) (trimmed_matches family member)
trimmed_matches_lem_example =
    trimmed_matches_lem family member (λ e. ground (arith, e)) (λ e. ground (arith, e)) refl

matches_member : trimmed_matches family member ≡ some true
unfolding trimmed_matches run_match match_loop turn go_on fall_back only_stars
matches_member = refl

-- A star of the model is matched by itself first, and then no star of the pattern is left.
star_of_model : trimmed_matches (codes "a*") (codes "a*b") ≡ some false
unfolding trimmed_matches run_match match_loop turn go_on fall_back only_stars
star_of_model = refl

abbrev plain : ToolLib
plain = record { trim_space = λ s. s; bytes = codes }

abbrev search_tool : String → Fields
search_tool kind = field "type" (text kind) end

-- The client brings a function of its own under a built-in tool's name.
abbrev own_function : Fields
own_function =
    field "type" (text "function")
      (field "function" (obj (field "name" (text "exa_search") end)) end)

abbrev request : Fields
request = field "tools" (arr (cons (obj own_function) nil)) end

abbrev rule : ServerToolRule
rule = record {
  models = "flash*" ∷ [];
  tools =
      some (search_tool "vercel:exa_search")
      ∷ some (search_tool "vercel:tako_search")
      ∷ some (search_tool "vercel:tako_search")
      ∷ [];
}

keeps_own_search :
    tools_of (apply_server_tools plain (rule ∷ []) request "flash-1")
    ≡ cons (obj own_function) (cons (obj (search_tool "vercel:tako_search")) nil)
unfolding apply_server_tools store_tools with_tools added offered server_tool_rule_matches
    model_pattern_matches client_keys client_functions record_key record_function function_name
    skips server_tool_key builtin_server_tool_function_name find store trimmed_matches run_match
    match_loop turn go_on fall_back only_stars
keeps_own_search = refl

doubled_tool : is_some (validate plain rule) ≡ true
unfolding validate check_tools server_tool_key find
doubled_tool = refl

-- A client that has a tool of its own already, with the key of a rule's tool.
abbrev own_tool : Fields
own_tool = field "tools" (arr (cons (obj (search_tool "vercel:tako_search")) nil)) end

keeps_own_tool :
    tools_of (apply_server_tools plain (rule ∷ []) own_tool "flash-1")
    ≡ cons
        (obj (search_tool "vercel:tako_search"))
        (cons (obj (search_tool "vercel:exa_search")) nil)
unfolding apply_server_tools store_tools with_tools added offered server_tool_rule_matches
    model_pattern_matches client_keys client_functions record_key record_function function_name
    skips server_tool_key builtin_server_tool_function_name find store trimmed_matches run_match
    match_loop turn go_on fall_back only_stars
keeps_own_tool = refl

apply_server_tools_lem_example :
    (extra : List (Option Fields)) × (tools_of
        (apply_server_tools plain (rule ∷ []) request "flash-1")
      ≡ with_tools (tools_of request) extra)
    × All (IsOffered plain (rule ∷ []) "flash-1") extra
    × All (IsNew plain (tools_of request)) extra
    × AreDistinct plain extra
    × AreProvided plain
        (tools_of request)
        (with_tools (tools_of request) extra)
        (rule ∷ [])
        "flash-1"
    × ((k : String)
        → k ≢ "tools"
        → find (apply_server_tools plain (rule ∷ []) request "flash-1") k ≡ find request k)
apply_server_tools_lem_example =
    apply_server_tools_lem plain (rule ∷ []) request "flash-1" refl refl
