-- ===== src/ServerTools/Provided.antt =====
-- Every tool of a rule that matches the model is provided for.
use cline_pass_bridge.Base.{
  String, ◌≡◌, ◌≢◌, refl, ap, sym, ◌⊎◌, inl, inr, true, false, Option, none, some, List, [], ◌∷◌,
  ◌++◌, arith, ◌==◌, string_eq, Bool-cases, eq_iff, All,
}
use mathlib.Core.Path.{subst}
use cline_pass_bridge.Json.{Items, nil, cons, Fields}
use cline_pass_bridge.ServerTools.Rules.{
  ToolLib, ServerToolRule, has, server_tool_key, builtin_server_tool_function_name, client_keys,
  client_functions, server_tool_rule_matches, offered, with_tools,
}
use cline_pass_bridge.ServerTools.Own.{HasKey, HasFunction, keys-HasKey, functions-HasFunction}
use cline_pass_bridge.ServerTools.Added.{key_list, IsServed, AreServed, has-append}
use cline_pass_bridge.ServerTools.New.{IsAmong}

module _ (lib : ToolLib) where
  -- The keys of a longer list are those of the list and those of the tools behind it.
  with_tools-old :
      (items : Items) (tools : List (Option Fields)) (k : String)
      → HasKey lib items k
      → HasKey lib (with_tools items tools) k
  unfolding with_tools
  with_tools-old nil tools k h = absurd h
  with_tools-old (cons entry rest) tools k (inl here) = inl here
  with_tools-old (cons entry rest) tools k (inr there) = inr (with_tools-old rest tools k there)

  added_key :
      (tools : List (Option Fields)) (tool : Fields)
      → IsAmong lib (some tool) tools
      → HasKey lib (with_tools nil tools) (server_tool_key lib (some tool))
  unfolding with_tools
  added_key [] tool h = absurd h
  added_key (none ∷ ts) tool (inl here) = absurd (ground (arith, here))
  added_key (none ∷ ts) tool (inr there) = inr (added_key ts tool there)
  added_key (some t ∷ ts) tool (inl here) = inl (t, refl, ap (server_tool_key lib) (sym here))
  added_key (some t ∷ ts) tool (inr there) = inr (added_key ts tool there)

  with_tools-new :
      (items : Items) (tools : List (Option Fields)) (tool : Fields)
      → IsAmong lib (some tool) tools
      → HasKey lib (with_tools items tools) (server_tool_key lib (some tool))
  unfolding with_tools
  with_tools-new nil tools tool h = added_key tools tool h
  with_tools-new (cons entry rest) tools tool h = inr (with_tools-new rest tools tool h)

  -- A tool has no key, or the key of a tool of the new list, or it is the built-in form of a function
  -- of the request.
  abbrev pub IsProvided : Items → Items → Option Fields → Type 0
  IsProvided items result tool =
      (server_tool_key lib tool ≡ "")
      ⊎ (HasKey lib result (server_tool_key lib tool)
          ⊎ HasFunction lib items (builtin_server_tool_function_name lib tool))

  abbrev pub AreProvided : Items → Items → List ServerToolRule → String → Type 0
  AreProvided items result [] model = Unit
  AreProvided items result (rule ∷ rules) model =
      ((server_tool_rule_matches lib rule model ≡ false) ⊎ All (IsProvided items result) rule.tools)
      × AreProvided items result rules model

  nameless : lib.trim_space "" ≡ "" → server_tool_key lib none ≡ ""
  unfolding server_tool_key
  nameless blank = rw blank refl

  listed_key :
      (extra : List (Option Fields)) (k : String)
      → lib.trim_space "" ≡ ""
      → k ≢ ""
      → has (key_list lib extra) k ≡ true
      → (tool : Fields) × IsAmong lib (some tool) extra × (server_tool_key lib (some tool) ≡ k)
  listed_key [] k blank ne h = absurd (ground arith)
  listed_key (none ∷ extra) k blank ne h =
      let (tool, among, same) =
        listed_key extra k blank ne
          (ground (arith, h, ne, nameless blank, eq_iff (server_tool_key lib none) k)) in
      (tool, inr among, same)
  listed_key (some t ∷ extra) k blank ne h = elim (Bool-cases (server_tool_key lib (some t) == k)) [
    | inl here ↦ (t, inl refl, (eq_iff (server_tool_key lib (some t)) k).0 here)
    | inr there ↦
        let (tool, among, same) = listed_key extra k blank ne (ground (arith, h, there)) in
        (tool, inr among, same)
  ]

  served-IsProvided :
      (items : Items) (extra : List (Option Fields)) (tool : Option Fields)
      → lib.trim_space "" ≡ ""
      → IsServed lib (client_keys lib items ++ key_list lib extra) (client_functions lib items) tool
      → IsProvided items (with_tools items extra) tool
  served-IsProvided items extra tool blank h =
      let own = server_tool_key lib tool in
      let name = builtin_server_tool_function_name lib tool in
      let keys = client_keys lib items in
      elim (Bool-cases (own == "")) [
        | inl nothing ↦ inl ((eq_iff own "").0 nothing)
        | inr named ↦ elim (Bool-cases (has keys own)) [
          | inl old ↦ inr (inl (with_tools-old items extra own (keys-HasKey lib items own old)))
          | inr missing ↦ elim (Bool-cases (has (key_list lib extra) own)) [
            | inl new ↦
                let (t, among, same) =
                  listed_key extra own blank (ground (arith, named, eq_iff own "")) new in
                inr (
                  inl (
                    subst (HasKey lib (with_tools items extra)) same
                      (with_tools-new items extra t among)))
            | inr absent ↦ inr (
                inr (
                  functions-HasFunction lib items name (
                    ground (
                      arith,
                      h,
                      named,
                      missing,
                      absent,
                      has-append lib keys (key_list lib extra) own,
                    ))))
          ]
        ]
      ]

  pub All-IsProvided :
      (items : Items) (extra tools : List (Option Fields))
      → lib.trim_space "" ≡ ""
      → AreServed lib
          (client_keys lib items ++ key_list lib extra)
          (client_functions lib items)
          tools
      → All (IsProvided items (with_tools items extra)) tools
  All-IsProvided items extra [] blank h = tt
  All-IsProvided items extra (tool ∷ tools) blank (h, hs) =
      (served-IsProvided items extra tool blank h, All-IsProvided items extra tools blank hs)

  All-append :
      (P : Option Fields → Type 0) (xs ys : List (Option Fields))
      → All P (xs ++ ys)
      → All P xs × All P ys
  All-append P [] ys h = (tt, h)
  All-append P (x ∷ xs) ys (p, h) = let (left, right) = All-append P xs ys h in ((p, left), right)

  pub offered-AreProvided :
      (items result : Items) (rules : List ServerToolRule) (model : String)
      → All (IsProvided items result) (offered lib rules model)
      → AreProvided items result rules model
  unfolding offered
  offered-AreProvided items result [] model h = tt
  offered-AreProvided items result (rule ∷ rules) model h =
      elim (Bool-cases (server_tool_rule_matches lib rule model)) [
        | inl fits ↦
            let both : All (IsProvided items result) (rule.tools ++ offered lib rules model) =
              rw fits at h in
            let (own, later) =
              All-append (IsProvided items result) rule.tools (offered lib rules model) both in
            (inr own, offered-AreProvided items result rules model later)
        | inr unfit ↦ (inl unfit, offered-AreProvided items result rules model (rw unfit at h))
      ]
