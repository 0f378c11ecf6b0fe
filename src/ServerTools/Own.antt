-- ===== src/ServerTools/Own.antt =====
-- What a request's own tools are, apart from the collecting loop.
use cline_pass_bridge.Base.{
  String, ◌≡◌, ◌≢◌, refl, ap, ◌∙◌, ◌⊎◌, inl, inr, true, ◌&&◌, not, Option, none, some, List, arith,
  ◌==◌, string_eq, Bool-cases, eq_iff,
}
use cline_pass_bridge.Json.{Json, Items, nil, cons, Fields, object}
use cline_pass_bridge.ServerTools.Rules.{
  ToolLib, has, trimmed, server_tool_key, function_name, record_key, record_function, client_keys,
  client_functions,
}

module _ (lib : ToolLib) where
  -- An entry is a tool with a key.
  abbrev pub IsKeyed : String → Json → Type 0
  IsKeyed k entry =
      (tool : Fields) × (object entry ≡ some tool) × (server_tool_key lib (some tool) ≡ k)

  -- One of the entries is a tool with a key.
  abbrev pub HasKey : Items → String → Type 0
  HasKey nil k = ⊥
  HasKey (cons entry rest) k = IsKeyed k entry ⊎ HasKey rest k

  -- An entry is a tool of type "function" that gives its function a name.
  abbrev pub IsFunction : String → Json → Type 0
  IsFunction n entry =
      (tool : Fields) × (object entry ≡ some tool)
      × (trimmed lib (some tool) "type" ≡ "function")
      × (function_name lib (some tool) ≡ n)

  -- One of the entries is a function with a name that is not empty.
  abbrev pub HasFunction : Items → String → Type 0
  HasFunction nil n = ⊥
  HasFunction (cons entry rest) n = (IsFunction n entry × (n ≢ "")) ⊎ HasFunction rest n

  recorded_key :
      (o : Option Fields) (keys : List String) (k : String)
      → has (record_key lib o keys) k ≡ true
      → ((tool : Fields) × (o ≡ some tool) × (server_tool_key lib (some tool) ≡ k))
        ⊎ (has keys k ≡ true)
  unfolding record_key
  recorded_key none keys k h = inr h
  recorded_key (some tool) keys k h =
      let own = server_tool_key lib (some tool) in
      elim (Bool-cases ((own == k) && not (own == ""))) [
        | inl here ↦ inl (tool, refl, (eq_iff own k).0 (ground (arith, here)))
        | inr other ↦ inr (ground (arith, h, other))
      ]

  record_key_new :
      (o : Option Fields) (keys : List String) (k : String) (tool : Fields)
      → k ≢ ""
      → o ≡ some tool
      → server_tool_key lib (some tool) ≡ k
      → has (record_key lib o keys) k ≡ true
  unfolding record_key
  record_key_new none keys k tool ne e key = cc
  record_key_new (some t) keys k tool ne e key =
      let own = server_tool_key lib (some t) in
      let same : own ≡ k = ap (server_tool_key lib) e ∙ key in
      ground (arith, same, ne, eq_iff own "", eq_iff own k)

  record_key_old :
      (o : Option Fields) (keys : List String) (k : String)
      → has keys k ≡ true
      → has (record_key lib o keys) k ≡ true
  unfolding record_key
  record_key_old none keys k h = h
  record_key_old (some t) keys k h = ground arith

  pub keys-HasKey :
      (items : Items) (k : String) → has (client_keys lib items) k ≡ true → HasKey items k
  unfolding client_keys
  keys-HasKey nil k h = absurd (ground arith)
  keys-HasKey (cons entry rest) k h =
      elim (recorded_key (object entry) (client_keys lib rest) k h) [
        | inl here ↦ inl here
        | inr there ↦ inr (keys-HasKey rest k there)
      ]

  pub HasKey-keys :
      (items : Items) (k : String) → k ≢ "" → HasKey items k → has (client_keys lib items) k ≡ true
  unfolding client_keys
  HasKey-keys nil k ne h = absurd h
  HasKey-keys (cons entry rest) k ne (inl (tool, e, key)) =
      record_key_new (object entry) (client_keys lib rest) k tool ne e key
  HasKey-keys (cons entry rest) k ne (inr there) =
      record_key_old (object entry) (client_keys lib rest) k (HasKey-keys rest k ne there)

  recorded_function :
      (o : Option Fields) (names : List String) (n : String)
      → has (record_function lib o names) n ≡ true
      → (((tool : Fields) × (o ≡ some tool)
            × (trimmed lib (some tool) "type" ≡ "function")
            × (function_name lib (some tool) ≡ n))
          × (n ≢ ""))
        ⊎ (has names n ≡ true)
  unfolding record_function
  recorded_function none names n h = inr h
  recorded_function (some tool) names n h =
      let kind = trimmed lib (some tool) "type" in
      let own = function_name lib (some tool) in
      elim (Bool-cases ((own == n) && ((kind == "function") && not (own == "")))) [
        | inl here ↦
            let same : own ≡ n = (eq_iff own n).0 (ground (arith, here)) in
            inl (
              (tool, refl, (eq_iff kind "function").0 (ground (arith, here)), same),
              ground (arith, here, same, eq_iff own ""),
            )
        | inr other ↦ inr (ground (arith, h, other))
      ]

  record_function_new :
      (o : Option Fields) (names : List String) (n : String) (tool : Fields)
      → n ≢ ""
      → o ≡ some tool
      → trimmed lib (some tool) "type" ≡ "function"
      → function_name lib (some tool) ≡ n
      → has (record_function lib o names) n ≡ true
  unfolding record_function
  record_function_new none names n tool ne e kind name = cc
  record_function_new (some t) names n tool ne e kind name =
      let own = function_name lib (some t) in
      let same : own ≡ n = ap (function_name lib) e ∙ name in
      let is : trimmed lib (some t) "type" ≡ "function" = ap (λ o. trimmed lib o "type") e ∙ kind in
      ground (
        arith,
        same,
        is,
        ne,
        eq_iff own "",
        eq_iff own n,
        eq_iff (trimmed lib (some t) "type") "function",
      )

  record_function_old :
      (o : Option Fields) (names : List String) (n : String)
      → has names n ≡ true
      → has (record_function lib o names) n ≡ true
  unfolding record_function
  record_function_old none names n h = h
  record_function_old (some t) names n h = ground arith

  pub functions-HasFunction :
      (items : Items) (n : String) → has (client_functions lib items) n ≡ true → HasFunction items n
  unfolding client_functions
  functions-HasFunction nil n h = absurd (ground arith)
  functions-HasFunction (cons entry rest) n h =
      elim (recorded_function (object entry) (client_functions lib rest) n h) [
        | inl here ↦ inl here
        | inr there ↦ inr (functions-HasFunction rest n there)
      ]

  pub HasFunction-functions :
      (items : Items) (n : String) → HasFunction items n → has (client_functions lib items) n ≡ true
  unfolding client_functions
  HasFunction-functions nil n h = absurd h
  HasFunction-functions (cons entry rest) n (inl ((tool, e, kind, name), ne)) =
      record_function_new (object entry) (client_functions lib rest) n tool ne e kind name
  HasFunction-functions (cons entry rest) n (inr there) =
      record_function_old (object entry) (client_functions lib rest) n
        (HasFunction-functions rest n there)
