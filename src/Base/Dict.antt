-- ===== src/Base/Dict.antt =====
-- Go's maps: association lists behind their laws. A Go map iterates in no fixed order, so a client
-- uses only what `get` shows, or a property that holds for every order of the entries.
use cline_pass_bridge.Base.{
  Comparable, ◌==◌, if◌then◌else◌, ◌≡◌, refl, Bool, true, false, Option, none, some, List, [], ◌∷◌,
  arith, Bool-cases, inl, inr, is_some,
}

pub record Dict {ℓ κ} (K : Type ℓ) (V : Type κ) : Type (ℓ ⊔ κ) where
  pub entries : List (K × V)

abbrev pub revalue {κ} : {V : Type κ} → Option V → (V → Option V) → Option V
revalue none f = none
revalue (some v) f = f v

module _ {ℓ κ} {K : Type ℓ} {V : Type κ} where
  pub keys_of : List (K × V) → List K
  keys_of [] = []
  keys_of ((k, v) ∷ l) = k ∷ keys_of l

  -- The keys, in the order of one iteration.
  unfoldable pub keys : Dict K V → List K
  unfolding keys_of
  keys d = keys_of d.entries

  unfoldable pub empty : Dict K V
  empty = record { entries = [] }

module _ {ℓ κ} {K : Type ℓ} {V : Type κ} ⦃e : Comparable K⦄ where
  pub lookup_in : K → List (K × V) → Option V
  lookup_in k [] = none
  lookup_in k ((j, v) ∷ l) = if j == k then some v else lookup_in k l

  -- The entries whose key passes a test.
  pub keep_in : (K → Bool) → List (K × V) → List (K × V)
  keep_in p [] = []
  keep_in p ((j, v) ∷ l) = let rest = keep_in p l in if p j then (j, v) ∷ rest else rest

  -- m[k]
  unfoldable pub get : Dict K V → K → Option V
  unfolding lookup_in
  get d k = lookup_in k d.entries

  -- m[k] = v
  unfoldable pub put : Dict K V → K → V → Dict K V
  unfolding keep_in
  put d k v = record { entries = (k, v) ∷ keep_in (λ j. if j == k then false else true) d.entries }

  -- Deletes every key that fails a test: `for k := range m { if … { delete(m, k) } }`.
  unfoldable pub keep : (K → Bool) → Dict K V → Dict K V
  unfolding keep_in
  keep p d = record { entries = keep_in p d.entries }

  -- delete(m, k)
  unfoldable pub remove : Dict K V → K → Dict K V
  unfolding keep
  remove d k = keep (λ j. if j == k then false else true) d

  -- A loop over the entries that rewrites or deletes each: `g` gives the new value of a key.
  pub adjust_in : (K → Option V) → List (K × V) → List (K × V)
  adjust_in g [] = []
  adjust_in g ((j, v) ∷ l) =
      let rest = adjust_in g l in elim (g j) [ none ↦ rest | some w ↦ (j, w) ∷ rest ]

  unfoldable pub adjust : (K → V → Option V) → Dict K V → Dict K V
  unfolding adjust_in
  adjust f d = record { entries = adjust_in (λ j. revalue (get d j) (f j)) d.entries }

  lookup_in-keep_in :
      (p : K → Bool) (k : K) (l : List (K × V))
      → lookup_in k (keep_in p l) ≡ (if p k then lookup_in k l else none)
  unfolding lookup_in keep_in
  lookup_in-keep_in p k [] = ground arith
  lookup_in-keep_in p k ((j, v) ∷ l) = elim (Bool-cases (j == k)) [
    | inl same ↦
        rw ((e.same_iff j k).0 same)
          (ground (arith, lookup_in-keep_in p k l, (e.same_iff k k).1 refl))
    | inr other ↦ ground (arith, lookup_in-keep_in p k l, other)
  ]

  pub get-keep :
      (p : K → Bool) (d : Dict K V) (k : K) → get (keep p d) k ≡ (if p k then get d k else none)
  unfolding get keep
  get-keep p d k = lookup_in-keep_in p k d.entries

  pub get-remove :
      (d : Dict K V) (j k : K) → get (remove d j) k ≡ (if k == j then none else get d k)
  unfolding get remove
  get-remove d j k =
      ground (arith, lookup_in-keep_in (λ i. if i == j then false else true) k d.entries)

  pub get-put :
      (d : Dict K V) (j k : K) (v : V) → get (put d j v) k ≡ (if k == j then some v else get d k)
  unfolding get put lookup_in
  get-put d j k v = elim (Bool-cases (k == j)) [
    | inl same ↦ rw ((e.same_iff k j).0 same) (ground (arith, (e.same_iff j j).1 refl))
    | inr other ↦ ground (
      arith,
      other,
      e.same_iff k j,
      e.same_iff j k,
      lookup_in-keep_in (λ i. if i == j then false else true) k d.entries,
    )
  ]

  lookup_in-adjust_in :
      (g : K → Option V) (k : K) (l : List (K × V))
      → lookup_in k (adjust_in g l) ≡ (if is_some (lookup_in k l) then g k else none)
  unfolding lookup_in adjust_in
  lookup_in-adjust_in g k [] = refl
  lookup_in-adjust_in g k ((j, v) ∷ l) = elim (Bool-cases (j == k)) [
    | inl same ↦
        rw ((e.same_iff j k).0 same)
          (ground (arith, lookup_in-adjust_in g k l, (e.same_iff k k).1 refl))
    | inr other ↦ ground (arith, lookup_in-adjust_in g k l, other)
  ]

  pub get-adjust :
      (f : K → V → Option V) (d : Dict K V) (k : K) → get (adjust f d) k ≡ revalue (get d k) (f k)
  unfolding get adjust
  get-adjust f d k =
      ground (arith, lookup_in-adjust_in (λ j. revalue (lookup_in j d.entries) (f j)) k d.entries)

  pub get-empty : (k : K) → get (empty {V = V}) k ≡ none
  unfolding get empty
  get-empty k = refl

pub ruleset dict_laws = (get-keep, get-adjust, get-remove, get-put, get-empty)
