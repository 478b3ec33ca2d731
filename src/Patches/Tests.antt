-- ===== src/Patches/Tests.antt =====
-- Patches made with a difference that replaces the whole document, and the theorems at these inputs.
use inventaire.Base.{
  ℕ, ◌≡◌, refl, ap, sym, ◌∙◌, arith, eq_iff, String, true, false, Option, some, List, [], ◌∷◌, ◌++◌,
  string_eq, nat_eq, all, Outcome, ok, err, failed,
}
use inventaire.Validation.{is_couch_uuid, is_hex}
use inventaire.Patches.{
  Json, text, array, object, nil, cons, end, field, key, index, missing, PatchOperation, add, test,
  replace, remove, VersionedDoc, Patch, Jiff, OperationPath,
}
use inventaire.Patches.Fixes.{
  get_field, get_from_patch_path, fix_test, fix_operations, clean_fields, without_empty_arrays,
  apply_inverse_operations, revert_patch,
}
use inventaire.Patches.Creation.{
  is_user_acct, before_at, after_at, last_patch, entity_history_base, create_patch_doc,
  patches_after, create_patch, add_versions_snapshots, restore_version,
}
use inventaire.Patches.Replay.{replay, RevertsExactly, last_snapshot}
use inventaire.Patches.History.{create_patch-snapshots}
use inventaire.Patches.Restoring.{restore_version-replay}
use inventaire.Patches.References.{fix_test-object}

-- A difference is the replacement of the root, after a test that records what was there.
abbrev whole : List PatchOperation → Json → Outcome Json
whole [] doc = ok doc
whole (test path value ∷ operations) doc = whole operations doc
whole (replace path value ∷ operations) doc = whole operations value
whole (add path value ∷ operations) doc = err failed
whole (remove path ∷ operations) doc = err failed

abbrev swapped : List PatchOperation → List PatchOperation
swapped (test path a ∷ replace path' b ∷ []) = test path b ∷ replace path a ∷ []
swapped operations = operations

abbrev toy : Jiff
toy = record {
  diff = λ a b. test [] a ∷ replace [] b ∷ [];
  patch = whole;
  inverse = swapped;
  patch-nil = λ a. refl;
  patch-diff = λ a b. refl;
}

abbrev entity_id : String
entity_id = "0123456789abcdef0123456789abcdef"

abbrev ann : String
ann = "fedcba9876543210fedcba9876543210@example.org"

abbrev url_host : String → Option String
url_host s = some s

abbrev named : String → Json
named name = object (
    field "type" (text "entity")
      (field "labels" (object (field "en" (text name) end)) (field "claims" (object end) end)))

abbrev doc_of : ℕ → Json → VersionedDoc
doc_of version versioned = record { id = entity_id; version = version; versioned = versioned }

abbrev patch_of : ℕ → Json → Json → Patch
patch_of version a b = record {
  entity_id = entity_id;
  entity_version = version;
  user = ann;
  timestamp = 9;
  operations = test [] a ∷ replace [] b ∷ [];
  special = false;
}

-- A label is set, and set again by the same user: the patch is rewritten.
abbrev first : Patch
first = patch_of 2 entity_history_base (named "a")

abbrev rewritten : Patch
rewritten = patch_of 2 entity_history_base (named "b")

set_again :
    create_patch toy url_host 9 ann (doc_of 2 (named "a")) (doc_of 3 (named "b")) false (first ∷ [])
    ≡ ok (rewritten ∷ [])
unfolding create_patch create_patch_doc patches_after last_patch is_user_acct before_at after_at
    is_couch_uuid is_hex all revert_patch apply_inverse_operations fix_operations clean_fields
    without_empty_arrays
set_again = refl

-- By another user, or where it is special, it is kept.
kept_if_special :
    create_patch toy url_host 9 ann
      (doc_of 2 (named "a"))
      (doc_of 3 (named "b"))
      false
      (record first { special = true } ∷ [])
    ≡ ok (record first { special = true } ∷ patch_of 3 (named "a") (named "b") ∷ [])
unfolding create_patch create_patch_doc patches_after last_patch is_user_acct before_at after_at
    is_couch_uuid is_hex all revert_patch apply_inverse_operations fix_operations clean_fields
    without_empty_arrays
kept_if_special = refl

first-RevertsExactly : RevertsExactly toy entity_history_base (doc_of 2 (named "a")) (first ∷ [])
unfolding last_patch replay revert_patch apply_inverse_operations fix_operations clean_fields
    without_empty_arrays
first-RevertsExactly older p before e r =
    let (no_older, is_first) : ([] ≡ older) × (first ≡ p) = ground arith in
    let r' : revert_patch toy (doc_of 2 (named "a")) first ≡ ok before =
      ap (λ q. revert_patch toy (doc_of 2 (named "a")) q) is_first ∙ r in
    let same : entity_history_base ≡ before.versioned = ground (arith, r') in
    ap (λ ps. replay toy entity_history_base ps) (sym no_older) ∙ ap ok same

create_patch-snapshots_example :
    (rows : List (Patch × Json)) × (add_versions_snapshots toy (rewritten ∷ []) ≡ ok rows)
    × (last_snapshot toy entity_history_base rows ≡ named "b")
    × (replay toy entity_history_base (rewritten ∷ []) ≡ ok (named "b"))
unfolding replay
create_patch-snapshots_example =
    create_patch-snapshots toy url_host 9 ann (doc_of 2 (named "a")) (doc_of 3 (named "b")) false
      (first ∷ []) (rewritten ∷ []) refl first-RevertsExactly set_again

back :
    (d : VersionedDoc)
    → d.id ≡ entity_id
    → revert_patch toy d (patch_of 3 (named "a") (named "b"))
      ≡ ok (record d { versioned = named "a" })
unfolding revert_patch apply_inverse_operations fix_operations clean_fields without_empty_arrays
back d k = ground (arith, eq_iff entity_id d.id)

restore_version-replay_example :
    restore_version toy 2 (doc_of 3 (named "b")) (first ∷ patch_of 3 (named "a") (named "b") ∷ [])
    ≡ ok (doc_of 3 (named "a"))
unfolding replay revert_patch apply_inverse_operations fix_operations clean_fields
    without_empty_arrays
restore_version-replay_example =
    restore_version-replay toy 2 (doc_of 3 (named "b")) (named "a") (first ∷ [])
      (patch_of 3 (named "a") (named "b") ∷ []) refl refl (refl, tt) (refl, tt)
      (named "b", refl, (λ d e k. back d k), tt)

abbrev referenced : Json
referenced = object (field "value" (text "wd:Q1") end)

abbrev claims_path : OperationPath
claims_path = key "claims" ∷ key "wdt:P50" ∷ []

abbrev with_author : Json
with_author =
    object (field "claims" (object (field "wdt:P50" (array (cons referenced nil)) end)) end)

fix_test-object_example :
    fix_test with_author (claims_path ++ index 0 ∷ []) referenced
    ≡ ok (claims_path ++ missing ∷ [], referenced)
unfolding get_from_patch_path get_field
fix_test-object_example =
    fix_test-object with_author claims_path 0 (cons referenced nil)
      (field "value" (text "wd:Q1") end) refl
