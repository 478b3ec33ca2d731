-- ===== src/Entities/Objects.antt =====
-- Objects of JavaScript as lists of entries: reading, writing and leaving out a key.
use inventaire.Base.{
  String, none, List, [], ◌∷◌, ◌==◌, string_eq, if◌then◌else◌, ◌≡◌, arith, eq_iff,
}
use inventaire.Couch.{memory_lookup}

module _ {A : Type 0} where
  -- omit(object, key), and `delete object[key]`
  unfoldable pub omit : List (String × A) → String → List (String × A)
  omit [] key = []
  omit ((k, v) ∷ o) key = let rest = omit o key in if k == key then rest else (k, v) ∷ rest

  pub lookup-omit :
      (o : List (String × A)) (key k : String)
      → memory_lookup (omit o key) k ≡ (if key == k then none else memory_lookup o k)
  unfolding omit
  lookup-omit [] key k = ground arith
  lookup-omit ((j, v) ∷ o) key k =
      ground (arith, eq_iff j key, eq_iff j k, eq_iff key k, lookup-omit o key k)
