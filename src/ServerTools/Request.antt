-- ===== src/ServerTools/Request.antt =====
-- Which server tools a request gets.
use cline_pass_bridge.Base.{
  String, ◌≡◌, ◌≢◌, false, Option, List, ◌++◌, arith, ◌==◌, string_eq, All,
}
use cline_pass_bridge.Json.{Fields, find}
use cline_pass_bridge.ServerTools.Rules.{
  ToolLib, ServerToolRule, client_keys, client_functions, offered, with_tools, tools_of, new_tools,
  apply_server_tools,
}
use cline_pass_bridge.ServerTools.Added.{
  key_list, Within, added-AreFresh, added-AreServed, has-append, store_tools-tools,
  store_tools-others, applied,
}
use cline_pass_bridge.ServerTools.New.{
  IsNew, AreDistinct, IsOffered, fresh-IsNew, fresh-AreDistinct, among-IsOffered, added-All,
}
use cline_pass_bridge.ServerTools.Provided.{AreProvided, All-IsProvided, offered-AreProvided}

module _ (lib : ToolLib) where
  -- For a model that is not blank, the request's own tools come first and in their order, and no
  -- other field of the request changes. Every tool behind them stands in a rule that matches the
  -- model, has a key that no tool of the request and no other tool behind them has, and is not
  -- the built-in form of a function of the request. Every tool of a rule that matches the model
  -- has no key, or has the key of a tool of the new list, or is the built-in form of a function
  -- of the request. The condition is that trimming the empty text gives the empty text.
  pub apply_server_tools_lem :
      (rules : List ServerToolRule) (j : Fields) (model : String)
      → lib.trim_space "" ≡ ""
      → (lib.trim_space model == "") ≡ false
      → (extra : List (Option Fields)) × (tools_of (apply_server_tools lib rules j model)
          ≡ with_tools (tools_of j) extra)
        × All (IsOffered lib rules model) extra
        × All (IsNew lib (tools_of j)) extra
        × AreDistinct lib extra
        × AreProvided lib (tools_of j) (with_tools (tools_of j) extra) rules model
        × ((k : String) → k ≢ "tools" → find (apply_server_tools lib rules j model) k ≡ find j k)
  apply_server_tools_lem rules j model blank named =
      let items = tools_of j in
      let extra = new_tools lib rules j model in
      let keys = client_keys lib items in
      let functions = client_functions lib items in
      let fresh = added-AreFresh lib keys functions (offered lib rules model) in
      let into : Within lib keys (keys ++ key_list lib extra) =
        λ k h. ground (arith, h, has-append lib keys (key_list lib extra) k) in
      let grown : Within lib (key_list lib extra) (keys ++ key_list lib extra) =
        λ k h. ground (arith, h, has-append lib keys (key_list lib extra) k) in
      (
        extra,
        rw (applied lib rules j model named) (store_tools-tools lib j extra),
        added-All lib (IsOffered lib rules model) keys functions (offered lib rules model)
            (λ tool h. among-IsOffered lib rules model tool h),
        fresh-IsNew lib items keys extra (λ k h. h) fresh,
        fresh-AreDistinct lib keys functions extra fresh,
        offered-AreProvided lib items (with_tools items extra) rules model (
            All-IsProvided lib items extra (offered lib rules model) blank (
              added-AreServed lib keys functions (keys ++ key_list lib extra)
                (offered lib rules model) into grown)),
        λ k other. rw (applied lib rules j model named) (store_tools-others lib j extra k other),
      )
