-- ===== src/Patches/Fixes.antt =====
-- The revert of a patch (revertPatch of server/models/patch.ts), with the changes that it makes to the
-- operations before jiff applies them.
use inventaire.Base.{
  ℕ, zero, suc, String, Bool, true, false, Option, none, some, List, [], ◌∷◌, ◌++◌, ◌==◌, string_eq,
  nat_eq, ◌&&◌, nat_beq, ltb, length, if◌then◌else◌, Outcome, ok, err, http, failed, require, ◌>>=◌,
  ◌>>◌,
}
use inventaire.Patches.{
  Json, text, number, array, object, Items, nil, cons, Fields, end, field, Segment, key, index,
  missing, OperationPath, PatchOperation, add, test, replace, remove, VersionedDoc, Patch, Jiff,
}

unfoldable pub get_item : Items → ℕ → Option Json
get_item nil i = none
get_item (cons x xs) zero = some x
get_item (cons x xs) (suc i) = get_item xs i

unfoldable pub get_field : Fields → String → Option Json
get_field end k = none
get_field (field j v fields) k = if j == k then some v else get_field fields k

abbrev get_at : Json → Segment → Option Json
get_at (array xs) (index i) = get_item xs i
get_at (object fields) (key k) = get_field fields k
get_at _ _ = none

-- getFromPatchPath
unfoldable pub get_from_patch_path : Json → OperationPath → Option Json
unfolding get_item get_field
get_from_patch_path doc [] = some doc
get_from_patch_path doc (s ∷ path) = inside (get_at doc s) (λ found. get_from_patch_path found path)
  where
    inside : Option Json → (Json → Option Json) → Option Json
    inside none next = none
    inside (some found) next = next found

abbrev pub items_length : Items → ℕ
items_length nil = 0
items_length (cons x xs) = suc (items_length xs)

-- `===` of a JSON value with one of another document: arrays and objects are never the same.
abbrev pub same_primitive : Json → Json → Bool
same_primitive (text a) (text b) = a == b
same_primitive (number a) (number b) = a == b
same_primitive _ _ = false

-- `array.indexOf(value)`
abbrev next_segment : Segment → Segment
next_segment (index i) = index (suc i)
next_segment s = s

unfoldable pub index_of : Items → Json → Segment
index_of nil v = missing
index_of (cons x xs) v =
    let rest = next_segment (index_of xs v) in if same_primitive x v then index 0 else rest

-- What `op.value` is, if it is an array of one element
abbrev pub single_item : Json → Option Json
single_item (array (cons x nil)) = some x
single_item _ = none

-- `path.split('/').slice(0, -1)`, and the last segment
unfoldable pub parent : OperationPath → OperationPath
parent [] = []
parent (s ∷ []) = []
parent (s ∷ t ∷ path) = s ∷ parent (t ∷ path)

unfoldable pub last_index : OperationPath → Option ℕ
last_index [] = none
last_index (index i ∷ []) = some i
last_index (s ∷ []) = none
last_index (s ∷ t ∷ path) = last_index (t ∷ path)

-- operationFix.add, for a value that is an array
abbrev pushed : OperationPath → Json → Option Json → Option Json → PatchOperation
pushed path value none current = add path value
pushed path value (some x) none = add path value
pushed path value (some x) (some (array xs)) = add (path ++ index (items_length xs) ∷ []) x
-- `currentArray.length` is undefined, or the length of a text: the path leads nowhere.
pushed path value (some x) (some _) = add (path ++ missing ∷ []) x

-- For another value, whose path may be one of an element of an array
abbrev clipped : OperationPath → Json → Option Json → Option ℕ → PatchOperation
clipped path value (some (array xs)) (some i) =
    if ltb (items_length xs) i
    then add (parent path ++ index (items_length xs) ∷ []) value
    else add path value
clipped path value _ _ = add path value

unfoldable pub fix_add : Json → OperationPath → Json → PatchOperation
unfolding get_from_patch_path parent last_index
fix_add doc path (array xs) =
    pushed path (array xs) (single_item (array xs)) (get_from_patch_path doc path)
-- `path.split('/')` has an empty text before the first segment.
fix_add doc path value =
    if ltb 2 (length path)
    then clipped path value (get_from_patch_path doc (parent path)) (last_index path)
    else add path value

-- `path.replace(/\/\d+$/, …)`
unfoldable pub array_path : OperationPath → OperationPath
unfolding parent
array_path path = without_index (last_index path) path
  where
    without_index : Option ℕ → OperationPath → OperationPath
    without_index none path = path
    without_index (some i) path = parent path

unfoldable pub with_last_index : OperationPath → Segment → OperationPath
unfolding parent
with_last_index path s = replaced (last_index path) path s
  where
    replaced : Option ℕ → OperationPath → Segment → OperationPath
    replaced none path s = path
    replaced (some i) path s = parent path ++ s ∷ []

-- `patchedArray.indexOf(op.value)`. A text has the method too; the path of its value has no index, so
-- that what it returns is not used. An empty text and 0 are falsy.
unfoldable pub current_value_index : Option Json → Json → Outcome Segment
unfolding index_of
current_value_index none value = err (http "unhandled patch case" 500)
current_value_index (some (array xs)) value = ok (index_of xs value)
current_value_index (some (text s)) value =
    if s == "" then err (http "unhandled patch case" 500) else ok missing
current_value_index (some (number zero)) value = err (http "unhandled patch case" 500)
current_value_index (some (number (suc n))) value = err failed
current_value_index (some (object fields)) value = err failed

abbrev segment_beq : Segment → Segment → Bool
segment_beq (key a) (key b) = a == b
segment_beq (index i) (index j) = nat_beq i j
segment_beq missing missing = true
segment_beq _ _ = false

unfoldable pub path_beq : OperationPath → OperationPath → Bool
path_beq [] [] = true
path_beq [] (t ∷ q) = false
path_beq (s ∷ p) [] = false
path_beq (s ∷ p) (t ∷ q) = segment_beq s t && path_beq p q

-- operationFix.test, followed by the removal of the same path; the path of both
abbrev first_item : OperationPath → Json → Option Json → OperationPath × Json
first_item path value none = (path, value)
first_item path value (some x) = (path ++ index 0 ∷ [], x)

unfoldable pub fix_test : Json → OperationPath → Json → Outcome (OperationPath × Json)
unfolding array_path get_from_patch_path current_value_index with_last_index
fix_test doc path value = do
  let start = first_item path value (single_item value)
  i ← current_value_index (get_from_patch_path doc (array_path start.0)) start.1
  ok (with_last_index start.0 i, start.1)

-- `inverseOperations.forEach(fixOperation(currentDoc, inverseOperations))`. A test is followed by
-- another operation, or its path is read from undefined.
unfoldable pub fix_operations : Json → List PatchOperation → Outcome (List PatchOperation)
unfolding fix_add fix_test path_beq
fix_operations doc [] = ok []
fix_operations doc (add path value ∷ operations) = do
  rest ← fix_operations doc operations
  ok (fix_add doc path value ∷ rest)
fix_operations doc (replace path value ∷ operations) = do
  rest ← fix_operations doc operations
  ok (replace path value ∷ rest)
fix_operations doc (remove path ∷ operations) = do
  rest ← fix_operations doc operations
  ok (remove path ∷ rest)
fix_operations doc (test path value ∷ []) = err failed
fix_operations doc (test path value ∷ remove next ∷ operations) =
    let kept =
      fix_operations doc operations >>= λ rest. ok (test path value ∷ remove next ∷ rest) in
    let fixed = fix_test doc path value >>= λ (fixed : OperationPath × Json).
    fix_operations doc operations >>= λ rest. ok (test fixed.0 fixed.1 ∷ remove fixed.0 ∷ rest) in
    if path_beq next path then fixed else kept
fix_operations doc (test path value ∷ operation ∷ operations) = do
  rest ← fix_operations doc (operation ∷ operations)
  ok (test path value ∷ rest)

-- The cleanup: the claims that are empty arrays are removed.
unfoldable pub without_empty_arrays : Fields → Fields
without_empty_arrays end = end
without_empty_arrays (field k (array nil) fields) = without_empty_arrays fields
without_empty_arrays (field k v fields) = field k v (without_empty_arrays fields)

abbrev clean_claims : Json → Json
clean_claims (object claims) = object (without_empty_arrays claims)
clean_claims v = v

unfoldable pub clean_fields : Fields → Fields
unfolding without_empty_arrays
clean_fields end = end
clean_fields (field k v fields) =
    field k (if k == "claims" then clean_claims v else v) (clean_fields fields)

abbrev pub cleanup : Json → Json
cleanup (object fields) = object (clean_fields fields)
cleanup v = v

module _ (jiff : Jiff) where
  -- applyInverseOperations
  unfoldable pub apply_inverse_operations : Json → List PatchOperation → Outcome Json
  unfolding fix_operations clean_fields
  apply_inverse_operations doc operations = do
    fixed ← fix_operations doc operations
    updated ← jiff.patch fixed doc
    ok (cleanup updated)

  unfoldable pub revert_patch : VersionedDoc → Patch → Outcome VersionedDoc
  unfolding apply_inverse_operations
  revert_patch current patch = do
    require (patch.entity_id == current.id) "entity and patch ids do not match" 500
    updated ← apply_inverse_operations current.versioned (jiff.inverse patch.operations)
    ok (record current { versioned = updated })
