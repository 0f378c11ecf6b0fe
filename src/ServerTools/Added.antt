-- ===== src/ServerTools/Added.antt =====
-- Which tools the loop of applyServerTools appends.
use cline_pass_bridge.Base.{
  String, ◌≡◌, ◌≢◌, refl, ap, sym, inl, inr, true, false, ◌||◌, Option, List, [], ◌∷◌, ◌++◌, arith,
  ◌==◌, string_eq, Bool-cases, eq_iff,
}
use cline_pass_bridge.Json.{Items, nil, cons, Fields, arr, find, find-store}
use cline_pass_bridge.ServerTools.Rules.{
  ToolLib, ServerToolRule, has, server_tool_key, reserved, skips, offered, added, with_tools,
  store_tools, tools_of, new_tools, apply_server_tools,
}

module _ (lib : ToolLib) where
  -- Every tool has a key that neither the keys so far nor a tool before it has, and is not the
  -- built-in form of a function.
  abbrev pub AreFresh : List String → List String → List (Option Fields) → Type 0
  AreFresh existing functions [] = Unit
  AreFresh existing functions (tool ∷ tools) =
      (server_tool_key lib tool ≢ "")
      × (has existing (server_tool_key lib tool) ≡ false)
      × (reserved lib functions tool ≡ false)
      × AreFresh (server_tool_key lib tool ∷ existing) functions tools

  abbrev pub key_list : List (Option Fields) → List String
  key_list [] = []
  key_list (tool ∷ tools) = server_tool_key lib tool ∷ key_list tools

  -- A tool has no key, or stands in for a function, or its key is among some keys.
  abbrev pub IsServed : List String → List String → Option Fields → Type 0
  IsServed keys functions tool =
      ((server_tool_key lib tool == "")
        || has keys (server_tool_key lib tool)
        || reserved lib functions tool)
      ≡ true

  abbrev pub AreServed : List String → List String → List (Option Fields) → Type 0
  AreServed keys functions [] = Unit
  AreServed keys functions (tool ∷ tools) =
      IsServed keys functions tool × AreServed keys functions tools

  pub added-AreFresh :
      (existing functions : List String) (tools : List (Option Fields))
      → AreFresh existing functions (added lib existing functions tools)
  unfolding added skips
  added-AreFresh existing functions [] = tt
  added-AreFresh existing functions (tool ∷ tools) =
      elim (Bool-cases (skips lib existing functions tool)) [
        | inl skip ↦ rw skip (added-AreFresh existing functions tools)
        | inr keep ↦ rw keep (
          ground (arith, eq_iff (server_tool_key lib tool) ""),
          ground arith,
          ground arith,
          added-AreFresh (server_tool_key lib tool ∷ existing) functions tools,
        )
      ]

  pub has-append : (xs ys : List String) (k : String) → has (xs ++ ys) k ≡ (has xs k || has ys k)
  has-append [] ys k = refl
  has-append (x ∷ xs) ys k = ground (arith, has-append xs ys k)

  abbrev pub Within : List String → List String → Type 0
  Within keys more = (k : String) → has keys k ≡ true → has more k ≡ true

  pub added-AreServed :
      (existing functions keys : List String) (tools : List (Option Fields))
      → Within existing keys
      → Within (key_list (added lib existing functions tools)) keys
      → AreServed keys functions tools
  unfolding added skips
  added-AreServed existing functions keys [] old new = tt
  added-AreServed existing functions keys (tool ∷ tools) old new =
      elim (Bool-cases (skips lib existing functions tool)) [
        | inl skip ↦ (
          ground (arith, old (server_tool_key lib tool)),
          added-AreServed existing functions keys tools old (rw skip at new),
        )
        | inr keep ↦
            let grown : Within
                (server_tool_key lib tool
                  ∷ key_list (added lib (server_tool_key lib tool ∷ existing) functions tools))
                keys =
              rw keep at new in
            (
              ground (
                arith,
                grown (server_tool_key lib tool),
                eq_iff (server_tool_key lib tool) (server_tool_key lib tool),
              ),
              added-AreServed (server_tool_key lib tool ∷ existing) functions keys tools
                  (λ k h. ground (arith, h, old k, grown k)) (λ k h. ground (arith, h, grown k)),
            )
      ]

  with_tools-nothing : (tools : Items) → with_tools tools [] ≡ tools
  unfolding with_tools
  with_tools-nothing nil = refl
  with_tools-nothing (cons entry rest) = ap (cons entry) (with_tools-nothing rest)

  pub store_tools-tools :
      (j : Fields) (extra : List (Option Fields))
      → tools_of (store_tools j (tools_of j) extra) ≡ with_tools (tools_of j) extra
  unfolding store_tools
  store_tools-tools j [] = sym (with_tools-nothing (tools_of j))
  store_tools-tools j (t ∷ ts) =
      simp (find-store j "tools" "tools" (arr (with_tools (tools_of j) (t ∷ ts))))

  pub store_tools-others :
      (j : Fields) (extra : List (Option Fields)) (k : String)
      → k ≢ "tools"
      → find (store_tools j (tools_of j) extra) k ≡ find j k
  unfolding store_tools
  store_tools-others j [] k other = refl
  store_tools-others j (t ∷ ts) k other = ground (
    arith,
    other,
    eq_iff "tools" k,
    find-store j "tools" k (arr (with_tools (tools_of j) (t ∷ ts))),
  )

  pub applied :
      (rules : List ServerToolRule) (j : Fields) (model : String)
      → (lib.trim_space model == "") ≡ false
      → apply_server_tools lib rules j model
        ≡ store_tools j (tools_of j) (new_tools lib rules j model)
  unfolding apply_server_tools store_tools offered added
  applied [] j model named = refl
  applied (rule ∷ rules) j model named = rw named refl
