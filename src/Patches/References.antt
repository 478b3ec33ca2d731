-- ===== src/Patches/References.antt =====
-- The revert of a patch that added a claim with references (operationFix.test of
-- server/models/patch.ts).
use inventaire.Base.{ℕ, ◌≡◌, refl, ap, some, [], ◌∷◌, ◌++◌, ok, false}
use inventaire.Patches.{
  Json, text, number, array, object, Items, nil, cons, Fields, Segment, key, index, missing,
  OperationPath,
}
use inventaire.Patches.Fixes.{
  get_from_patch_path, index_of, parent, last_index, array_path, with_last_index,
  current_value_index, fix_test, same_primitive,
}

parent-append : (path : OperationPath) (s : Segment) → parent (path ++ s ∷ []) ≡ path
unfolding parent
parent-append [] s = refl
parent-append (t ∷ []) s = refl
parent-append (t ∷ u ∷ path) s = ap (λ p. t ∷ p) (parent-append (u ∷ path) s)

last_index-append : (path : OperationPath) (i : ℕ) → last_index (path ++ index i ∷ []) ≡ some i
unfolding last_index
last_index-append [] i = refl
last_index-append (key k ∷ []) i = refl
last_index-append (index j ∷ []) i = refl
last_index-append (missing ∷ []) i = refl
last_index-append (key k ∷ u ∷ path) i = last_index-append (u ∷ path) i
last_index-append (index j ∷ u ∷ path) i = last_index-append (u ∷ path) i
last_index-append (missing ∷ u ∷ path) i = last_index-append (u ∷ path) i

same_primitive-object : (x : Json) (fields : Fields) → same_primitive x (object fields) ≡ false
same_primitive-object (text s) fields = refl
same_primitive-object (number n) fields = refl
same_primitive-object (array xs) fields = refl
same_primitive-object (object f) fields = refl

-- `indexOf` finds no object.
index_of-object : (xs : Items) (fields : Fields) → index_of xs (object fields) ≡ missing
unfolding index_of
index_of-object nil fields = refl
index_of-object (cons x xs) fields =
    rw (same_primitive-object x fields, index_of-object xs fields) refl

-- The test and the removal of a claim that is an object, which the patch added to an array of claims,
-- are made to be of the element -1, whatever the array holds and wherever the claim stands in it.
pub fix_test-object :
    (doc : Json) (path : OperationPath) (i : ℕ) (xs : Items) (fields : Fields)
    → get_from_patch_path doc path ≡ some (array xs)
    → fix_test doc (path ++ index i ∷ []) (object fields) ≡ ok (path ++ missing ∷ [], object fields)
unfolding fix_test array_path with_last_index current_value_index
fix_test-object doc path i xs fields h =
    rw (last_index-append path i, parent-append path (index i), h, index_of-object xs fields) refl
