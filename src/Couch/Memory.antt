-- ===== src/Couch/Memory.antt =====
-- An association list that keeps one entry for each key it is given.
use inventaire.Base.{
  String, ◌≡◌, refl, Option, none, some, List, [], ◌∷◌, arith, ◌==◌, string_eq, if◌then◌else◌,
  eq_iff, Bool, true, any, ◌⊎◌, inl, inr, Bool-cases,
}

module _ {Doc : Type 0} where
  abbrev pub memory_lookup : List (String × Doc) → String → Option Doc
  memory_lookup [] id = none
  memory_lookup ((k, d) ∷ m) id = if k == id then some d else memory_lookup m id

  abbrev pub memory_put : List (String × Doc) → String → Doc → List (String × Doc)
  memory_put [] id d = (id, d) ∷ []
  memory_put ((k, v) ∷ m) id d = if k == id then (k, d) ∷ m else (k, v) ∷ memory_put m id d

  abbrev pub found : Option Doc → List Doc → List Doc
  found none ds = ds
  found (some d) ds = d ∷ ds

  -- The documents as `memory_lookup` finds them in `whole`, one for each entry of `m`.
  abbrev pub memory_docs : List (String × Doc) → List (String × Doc) → List Doc
  memory_docs whole [] = []
  memory_docs whole ((k, _) ∷ m) = found (memory_lookup whole k) (memory_docs whole m)

  pub memory_lookup-put :
      (m : List (String × Doc)) (id j : String) (d : Doc)
      → memory_lookup (memory_put m id d) j ≡ (if id == j then some d else memory_lookup m j)
  memory_lookup-put [] id j d = refl
  memory_lookup-put ((k, v) ∷ m) id j d =
      ground (arith, eq_iff k id, eq_iff k j, eq_iff id j, memory_lookup-put m id j d)

  pub memory_any-get :
      (p : Doc → Bool) (whole m : List (String × Doc)) (id : String) (d e : Doc)
      → memory_lookup m id ≡ some e
      → memory_lookup whole id ≡ some d
      → p d ≡ true
      → any p (memory_docs whole m) ≡ true
  unfolding any
  memory_any-get p whole [] id d e h k q = ground arith
  memory_any-get p whole ((j, v) ∷ m) id d e h k q =
      ground (arith, eq_iff j id, memory_any-get p whole m id d e)

  any-found :
      (p : Doc → Bool) (o : Option Doc) (ds : List Doc)
      → any p (found o ds) ≡ true
      → ((d : Doc) × (o ≡ some d) × (p d ≡ true)) ⊎ (any p ds ≡ true)
  unfolding any
  any-found p none ds h = inr h
  any-found p (some d) ds h = elim (Bool-cases (p d)) [
    | inl e ↦ inl (d, refl, e)
    | inr e ↦ inr (rw e at h)
  ]

  pub memory_get-any :
      (p : Doc → Bool) (whole m : List (String × Doc))
      → any p (memory_docs whole m) ≡ true
      → (id : String) × (d : Doc) × (memory_lookup whole id ≡ some d) × (p d ≡ true)
  unfolding any
  memory_get-any p whole [] h = absurd (ground arith)
  memory_get-any p whole ((k, v) ∷ m) h =
      elim (any-found p (memory_lookup whole k) (memory_docs whole m) h) [
        | inl (d, e, q) ↦ (k, d, e, q)
        | inr rest ↦ memory_get-any p whole m rest
      ]
