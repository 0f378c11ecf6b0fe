-- ===== src/ServerTools/New.antt =====
-- The appended tools are new to the request, and stand in a rule that matches the model.
use cline_pass_bridge.Base.{
  String, ◌≡◌, ◌≢◌, refl, ap, ◌⊎◌, inl, inr, true, false, Option, List, [], ◌∷◌, ◌++◌, arith,
  string_eq, Bool-cases, eq_iff, All,
}
use cline_pass_bridge.Json.{Items, nil, cons, Fields}
use cline_pass_bridge.ServerTools.Rules.{
  ToolLib, ServerToolRule, has, server_tool_key, builtin_server_tool_function_name, client_keys,
  client_functions, reserved, server_tool_rule_matches, skips, offered, added,
}
use cline_pass_bridge.ServerTools.Own.{HasKey, HasFunction, HasKey-keys, HasFunction-functions}
use cline_pass_bridge.ServerTools.Added.{AreFresh, Within}

module _ (lib : ToolLib) where
  -- Being among some tools.
  abbrev pub IsAmong : Option Fields → List (Option Fields) → Type 0
  IsAmong tool [] = ⊥
  IsAmong tool (t ∷ ts) = (tool ≡ t) ⊎ IsAmong tool ts

  -- A tool has a key that no tool of the request has, and it is not the built-in form of a function
  -- of the request.
  abbrev pub IsNew : Items → Option Fields → Type 0
  IsNew items tool =
      (server_tool_key lib tool ≢ "")
      × (HasKey lib items (server_tool_key lib tool) → ⊥)
      × (HasFunction lib items (builtin_server_tool_function_name lib tool) → ⊥)

  -- No two tools have the same key.
  abbrev pub AreDistinct : List (Option Fields) → Type 0
  AreDistinct [] = Unit
  AreDistinct (tool ∷ tools) =
      All (λ t. server_tool_key lib t ≢ server_tool_key lib tool) tools × AreDistinct tools

  -- A tool stands in a rule that matches the model.
  abbrev pub IsOffered : List ServerToolRule → String → Option Fields → Type 0
  IsOffered [] model tool = ⊥
  IsOffered (rule ∷ rules) model tool =
      ((server_tool_rule_matches lib rule model ≡ true) × IsAmong tool rule.tools)
      ⊎ IsOffered rules model tool

  HasFunction-named : (items : Items) (n : String) → HasFunction lib items n → n ≢ ""
  HasFunction-named nil n h = absurd h
  HasFunction-named (cons entry rest) n (inl here) = here.1
  HasFunction-named (cons entry rest) n (inr there) = HasFunction-named rest n there

  unreserved :
      (items : Items) (tool : Option Fields)
      → reserved lib (client_functions lib items) tool ≡ false
      → HasFunction lib items (builtin_server_tool_function_name lib tool)
      → ⊥
  unreserved items tool free h =
      let name = builtin_server_tool_function_name lib tool in
      ground (
        arith,
        free,
        HasFunction-functions lib items name h,
        HasFunction-named items name h,
        eq_iff name "",
      )

  pub fresh-IsNew :
      (items : Items) (existing : List String) (tools : List (Option Fields))
      → Within lib (client_keys lib items) existing
      → AreFresh lib existing (client_functions lib items) tools
      → All (IsNew items) tools
  fresh-IsNew items existing [] old h = tt
  fresh-IsNew items existing (tool ∷ tools) old (ne, fresh, free, rest) = (
    (
      ne,
      λ k. absurd (
          ground (
            arith,
            fresh,
            old (server_tool_key lib tool) (HasKey-keys lib items (server_tool_key lib tool) ne k),
          )),
      unreserved items tool free,
    ),
    fresh-IsNew items (server_tool_key lib tool ∷ existing) tools (λ k h. ground (arith, old k h))
        rest,
  )

  fresh_absent :
      (existing functions : List String) (tools : List (Option Fields)) (k : String)
      → has existing k ≡ true
      → AreFresh lib existing functions tools
      → All (λ t. server_tool_key lib t ≢ k) tools
  fresh_absent existing functions [] k old h = tt
  fresh_absent existing functions (tool ∷ tools) k old (ne, fresh, free, rest) = (
    λ e. absurd (ground (arith, fresh, old, ap (has existing) e)),
    fresh_absent (server_tool_key lib tool ∷ existing) functions tools k (ground (arith, old)) rest,
  )

  pub fresh-AreDistinct :
      (existing functions : List String) (tools : List (Option Fields))
      → AreFresh lib existing functions tools
      → AreDistinct tools
  fresh-AreDistinct existing functions [] h = tt
  fresh-AreDistinct existing functions (tool ∷ tools) (ne, fresh, free, rest) =
      let own = server_tool_key lib tool in
      (
        fresh_absent (own ∷ existing) functions tools own (ground (arith, eq_iff own own)) rest,
        fresh-AreDistinct (own ∷ existing) functions tools rest,
      )

  IsAmong-append :
      (tool : Option Fields) (xs ys : List (Option Fields))
      → IsAmong tool (xs ++ ys)
      → IsAmong tool xs ⊎ IsAmong tool ys
  IsAmong-append tool [] ys h = inr h
  IsAmong-append tool (x ∷ xs) ys (inl here) = inl (inl here)
  IsAmong-append tool (x ∷ xs) ys (inr there) = elim (IsAmong-append tool xs ys there) [
    | inl left ↦ inl (inr left)
    | inr right ↦ inr right
  ]

  pub among-IsOffered :
      (rules : List ServerToolRule) (model : String) (tool : Option Fields)
      → IsAmong tool (offered lib rules model)
      → IsOffered rules model tool
  unfolding offered
  among-IsOffered [] model tool h = h
  among-IsOffered (rule ∷ rules) model tool h =
      elim (Bool-cases (server_tool_rule_matches lib rule model)) [
        | inl fits ↦
            let both : IsAmong tool (rule.tools ++ offered lib rules model) = rw fits at h in
            elim (IsAmong-append tool rule.tools (offered lib rules model) both) [
              | inl own ↦ inl (fits, own)
              | inr later ↦ inr (among-IsOffered rules model tool later)
            ]
        | inr unfit ↦ inr (among-IsOffered rules model tool (rw unfit at h))
      ]

  pub added-All :
      (P : Option Fields → Type 0) (existing functions : List String) (tools : List (Option Fields))
      → ((tool : Option Fields) → IsAmong tool tools → P tool)
      → All P (added lib existing functions tools)
  unfolding added
  added-All P existing functions [] f = tt
  added-All P existing functions (tool ∷ tools) f =
      let own = server_tool_key lib tool in
      elim (Bool-cases (skips lib existing functions tool)) [
        | inl skip ↦ rw skip (added-All P existing functions tools (λ t h. f t (inr h)))
        | inr keep ↦
            rw keep
              (f tool (inl refl), added-All P (own ∷ existing) functions tools (λ t h. f t (inr h)))
      ]
