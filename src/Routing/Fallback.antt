-- ===== src/Routing/Fallback.antt =====
-- A request that the upstream rejects for its routing fields is sent once more without them
-- (internal/bridge/routing_fallback.go: requestWithRoutingFallback). What the upstream answers to a body,
-- and whether the context or the deadline stands against an attempt, are arguments; so is the JSON
-- decoder. The entry's and the attempt's fields for the log are left out.
use mathlib.Core.Path.{subst}
use cline_pass_bridge.Base.{
  ℕ, String, ◌≡◌, ◌≢◌, refl, ◌∙◌, sym, inl, inr, Bool, true, false, ◌&&◌, not, Option, none, some,
  List, [], ◌∷◌, arith, ◌==◌, nat_eq, string_eq, if◌then◌else◌, is_some, Bool-cases, eq_iff,
}
use cline_pass_bridge.Base.Text.{Text}
use cline_pass_bridge.Faults.{Fault, Result, ok, err}
use cline_pass_bridge.Json.{Fields, find, delete, error_message, find-delete}

abbrev pub provider_routing_rejection : String
provider_routing_rejection =
    "Error 403: client-supplied \"providerOptions\" model routing is not supported"

-- An upstream's response: its status, and its body or the error with which reading it ends.
pub record Response : Type 0 where
  pub status : ℕ
  pub body : Result Text

-- What may stand against an attempt, in the order of the checks.
pub record Checks : Type 0 where
  pub before_first : Option Fault
  pub after_rejection : Option Fault
  pub before_second : Option Fault

pub record UpstreamLib : Type 0 where
  pub decode_object : Text → Option Fields
  -- What the upstream answers to the first and to the second body.
  pub first : Fields → Result Response
  pub second : Fields → Result Response

-- The bodies that were sent, in their order; the response; and an error.
pub record Outcome : Type 0 where
  pub sent : List Fields
  pub response : Option Response
  pub failure : Option Fault

abbrev pub answered : List Fields → Result Response → Outcome
answered sent (ok r) = record { sent = sent; response = some r; failure = none }
answered sent (err e) = record { sent = sent; response = none; failure = some e }

abbrev pub without_routing : Fields → Fields
without_routing j = delete (delete j "providerOptions") "provider"

-- The second attempt.
unfoldable pub send_again : UpstreamLib → Fields → Response → Option Fault → Option Fault → Outcome
send_again lib j r (some e) before_second = record {
  sent = j ∷ [];
  response = some r;
  failure = some e;
}
send_again lib j r none (some e) = record { sent = j ∷ []; response = none; failure = some e }
send_again lib j r none none =
    answered (j ∷ without_routing j ∷ []) (lib.second (without_routing j))

abbrev pub is_rejection : UpstreamLib → Text → Bool
is_rejection lib body = elim (lib.decode_object body) [
  | none ↦ false
  | some m ↦ error_message (some m) == provider_routing_rejection
]

-- A 403 whose body was read, or not.
unfoldable pub after_forbidden : UpstreamLib → Checks → Fields → Response → Result Text → Outcome
after_forbidden lib checks j r (err e) = record {
  sent = j ∷ [];
  response = some r;
  failure = some e;
}
after_forbidden lib checks j r (ok body) =
    if is_rejection lib body
    then send_again lib j r checks.after_rejection checks.before_second
    else record { sent = j ∷ []; response = some r; failure = none }

abbrev pub may_fall_back : Bool → Fields → Response → Bool
may_fall_back had_fallback j r =
    (r.status == 403) && is_some (find j "providerOptions") && not had_fallback

unfoldable pub after_first : UpstreamLib → Checks → Bool → Fields → Result Response → Outcome
after_first lib checks had_fallback j (err e) = record {
  sent = j ∷ [];
  response = none;
  failure = some e;
}
after_first lib checks had_fallback j (ok r) =
    if may_fall_back had_fallback j r
    then after_forbidden lib checks j r r.body
    else record { sent = j ∷ []; response = some r; failure = none }

abbrev pub checked_first : UpstreamLib → Checks → Bool → Fields → Option Fault → Outcome
checked_first lib checks had_fallback j (some e) = record {
  sent = [];
  response = none;
  failure = some e;
}
checked_first lib checks had_fallback j none = after_first lib checks had_fallback j (lib.first j)

-- `had_fallback` is entry.RoutingFallback.
unfoldable pub request_with_routing_fallback : UpstreamLib → Checks → Bool → Fields → Outcome
request_with_routing_fallback lib checks had_fallback j =
    checked_first lib checks had_fallback j checks.before_first

-- The upstream rejected the routing fields of a body.
abbrev pub Rejected : UpstreamLib → Fields → Result Response → Type 0
Rejected lib j (err e) = ⊥
Rejected lib j (ok r) =
    (r.status ≡ 403)
    × (is_some (find j "providerOptions") ≡ true)
    × ((body : Text) × (r.body ≡ ok body) × (is_rejection lib body ≡ true))

-- What may have been sent: nothing, the body, or the body and then the body without its routing.
abbrev pub IsCautious : UpstreamLib → Bool → Fields → List Fields → Type 0
IsCautious lib had_fallback j [] = Unit
IsCautious lib had_fallback j (a ∷ []) = a ≡ j
IsCautious lib had_fallback j (a ∷ b ∷ []) =
    (a ≡ j)
    × (had_fallback ≡ false)
    × Rejected lib j (lib.first j)
    × (find b "providerOptions" ≡ none)
    × (find b "provider" ≡ none)
    × ((k : String) → k ≢ "providerOptions" → k ≢ "provider" → find b k ≡ find j k)
IsCautious lib had_fallback j (a ∷ b ∷ c ∷ rest) = ⊥

without_routing-find :
    (j : Fields) (k : String)
    → k ≢ "providerOptions"
    → k ≢ "provider"
    → find (without_routing j) k ≡ find j k
without_routing-find j k h g = ground (
  arith,
  h,
  g,
  eq_iff "provider" k,
  eq_iff "providerOptions" k,
  find-delete (delete j "providerOptions") "provider" k,
  find-delete j "providerOptions" k,
)

answered-sent : (sent : List Fields) (o : Result Response) → (answered sent o).sent ≡ sent
answered-sent sent (ok r) = refl
answered-sent sent (err e) = refl

-- The second body is the first one without its routing.
twice-IsCautious :
    (lib : UpstreamLib) (j : Fields)
    → Rejected lib j (lib.first j)
    → IsCautious lib false j (j ∷ without_routing j ∷ [])
twice-IsCautious lib j rejected = (
  refl,
  refl,
  rejected,
  find-delete (delete j "providerOptions") "provider" "providerOptions"
      ∙ find-delete j "providerOptions" "providerOptions",
  find-delete (delete j "providerOptions") "provider" "provider",
  without_routing-find j,
)

send_again-IsCautious :
    (lib : UpstreamLib) (j : Fields) (r : Response) (after_rejection before_second : Option Fault)
    → Rejected lib j (lib.first j)
    → IsCautious lib false j (send_again lib j r after_rejection before_second).sent
unfolding send_again
send_again-IsCautious lib j r (some e) before_second rejected = refl
send_again-IsCautious lib j r none (some e) rejected = refl
send_again-IsCautious lib j r none none rejected =
    subst (IsCautious lib false j)
      (sym (answered-sent (j ∷ without_routing j ∷ []) (lib.second (without_routing j))))
      (twice-IsCautious lib j rejected)

after_forbidden-IsCautious :
    (lib : UpstreamLib) (checks : Checks) (j : Fields) (r : Response) (body : Result Text)
    → r.body ≡ body
    → lib.first j ≡ ok r
    → r.status ≡ 403
    → is_some (find j "providerOptions") ≡ true
    → IsCautious lib false j (after_forbidden lib checks j r body).sent
unfolding after_forbidden
after_forbidden-IsCautious lib checks j r (err e) same first forbidden has_options = refl
after_forbidden-IsCautious lib checks j r (ok body) same first forbidden has_options =
    elim (Bool-cases (is_rejection lib body)) [
      | inr other ↦ rw other refl
      | inl rejection ↦ rw rejection (
          send_again-IsCautious lib j r checks.after_rejection checks.before_second
            (subst (Rejected lib j) (sym first) (forbidden, has_options, (body, same, rejection))))
    ]

after_first-IsCautious :
    (lib : UpstreamLib) (checks : Checks) (had_fallback : Bool) (j : Fields) (o : Result Response)
    → lib.first j ≡ o
    → IsCautious lib had_fallback j (after_first lib checks had_fallback j o).sent
unfolding after_first
after_first-IsCautious lib checks had_fallback j (err e) first = refl
after_first-IsCautious lib checks had_fallback j (ok r) first =
    elim (Bool-cases (may_fall_back had_fallback j r)) [
      | inr stays ↦ rw stays refl
      | inl may ↦
          let fresh : had_fallback ≡ false = ground (arith, may) in
          rw may (
            subst (λ b. IsCautious lib b j (after_forbidden lib checks j r r.body).sent) (sym fresh)
              (after_forbidden-IsCautious lib checks j r r.body refl first (ground (arith, may))
                (ground (arith, may))))
    ]

checked_first-IsCautious :
    (lib : UpstreamLib) (checks : Checks) (had_fallback : Bool) (j : Fields) (before : Option Fault)
    → IsCautious lib had_fallback j (checked_first lib checks had_fallback j before).sent
checked_first-IsCautious lib checks had_fallback j (some e) = tt
checked_first-IsCautious lib checks had_fallback j none =
    after_first-IsCautious lib checks had_fallback j (lib.first j) refl

-- However the upstream answers, at most two bodies are sent: the first is the request's, and a second
-- is sent only for a request that had no second attempt before, after a 403 with exactly the
-- upstream's rejection of routing fields; it has none of them, and is otherwise the first.
pub request_with_routing_fallback-IsCautious :
    (lib : UpstreamLib) (checks : Checks) (had_fallback : Bool) (j : Fields)
    → IsCautious lib had_fallback j (request_with_routing_fallback lib checks had_fallback j).sent
unfolding request_with_routing_fallback
request_with_routing_fallback-IsCautious lib checks had_fallback j =
    checked_first-IsCautious lib checks had_fallback j checks.before_first
