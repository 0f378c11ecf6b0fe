-- ===== src/Json.antt =====
-- Decoded JSON values (internal/bridge/types.go: str, object, list, errorMessage). A Go `any` that
-- is nil and a JSON null are the same value, so a missing key reads as `null`.
use cline_pass_bridge.Base.{
  String, ◌≡◌, refl, Bool, Option, none, some, arith, ◌==◌, if◌then◌else◌, eq_iff, string_eq,
}

mutual
  pub data Json : Type 0 where
    null : Json
    bool : Bool → Json
    num : String → Json
    text : String → Json
    arr : Items → Json
    obj : Fields → Json

  pub data Items : Type 0 where
    nil : Items
    cons : Json → Items → Items

  pub data Fields : Type 0 where
    end : Fields
    field : String → Json → Fields → Fields

-- m[k] with the presence flag.
unfoldable pub find : Fields → String → Option Json
find end k = none
find (field j v m) k = if j == k then some v else find m k

-- delete(m, k)
unfoldable pub delete : Fields → String → Fields
delete end k = end
delete (field j v m) k = let rest = delete m k in if j == k then rest else field j v rest

-- m[k] = v
unfoldable pub store : Fields → String → Json → Fields
store end k v = field k v end
store (field j w m) k v = if j == k then field j v m else field j w (store m k v)

abbrev pub or_null : Option Json → Json
or_null none = null
or_null (some v) = v

-- m[k] of a map that may be nil
abbrev pub value_at : Option Fields → String → Json
value_at none k = null
value_at (some m) k = or_null (find m k)

abbrev pub str : Json → String
str (text s) = s
str null = ""
str (bool b) = ""
str (num n) = ""
str (arr xs) = ""
str (obj m) = ""

abbrev pub object : Json → Option Fields
object (obj m) = some m
object null = none
object (bool b) = none
object (num n) = none
object (text s) = none
object (arr xs) = none

abbrev pub list : Json → Items
list (arr xs) = xs
list null = nil
list (bool b) = nil
list (num n) = nil
list (text s) = nil
list (obj m) = nil

-- The object's own message, a nonempty text in its place, or a fixed text.
unfoldable pub error_message : Option Fields → String
error_message body = elim (value_at body "error") [
  | obj m ↦ str (or_null (find m "message"))
  | text s ↦ (if s == "" then "upstream request failed" else s)
  | _ ↦ "upstream request failed"
]

pub find-store :
    (m : Fields) (k j : String) (v : Json)
    → find (store m k v) j ≡ (if k == j then some v else find m j)
unfolding find store
find-store end k j v = refl
find-store (field i w m) k j v =
    ground (arith, eq_iff k j, eq_iff i k, eq_iff i j, find-store m k j v)

pub find-delete :
    (m : Fields) (k j : String) → find (delete m k) j ≡ (if k == j then none else find m j)
unfolding find delete
find-delete end k j = ground arith
find-delete (field i w m) k j =
    ground (arith, eq_iff k j, eq_iff i k, eq_iff i j, find-delete m k j)

pub ruleset field_laws = (find-store, find-delete)
