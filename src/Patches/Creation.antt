-- ===== src/Patches/Creation.antt =====
-- The creation of patches (createPatchDoc of server/models/patch.ts, createPatch of
-- server/controllers/entities/lib/patches/create_patch.ts), the snapshots of versions, and the
-- restoration of a version (restore_version.ts). The patches of one entity are a list in the order of
-- the view byEntityId, that of their versions.
use Prim.Native.Char.{code}
use Prim.Native.String.{◌++◌ as join}
use inventaire.Base.{
  ℕ, ◌+◌, String, Bool, true, false, not, Option, none, some, List, [], ◌∷◌, ◌++◌, ◌==◌, string_eq,
  nat_eq, ◌&&◌, nat_beq, ltb, length, filter, if◌then◌else◌, Outcome, ok, err, require, ◌>>=◌, ◌>>◌,
}
use mathlib.Core.List.{reverse}
use inventaire.Validation.{is_couch_uuid}
use inventaire.Patches.{Json, object, end, field, text, PatchOperation, VersionedDoc, Patch, Jiff}
use inventaire.Patches.Fixes.{revert_patch}

-- The first two parts of `str.split('@')`; the second is none without an '@'.
unfoldable pub before_at : String → String
before_at String.[] = ""
before_at (String.◌∷◌ c s) =
    let rest = before_at s in if nat_beq (code c) b'@' then "" else String.◌∷◌ c rest

unfoldable pub after_at : String → Option String
unfolding before_at
after_at String.[] = none
after_at (String.◌∷◌ c s) =
    let rest = after_at s in if nat_beq (code c) b'@' then some (before_at s) else rest

-- isUserAcct; `url_host` is the host that `new URL` of the platform reads in an address.
abbrev host_is : Option String → String → Bool
host_is none s = false
host_is (some host) s = s == host

abbrev is_host : (String → Option String) → Option String → Bool
is_host url_host none = false
is_host url_host (some s) = host_is (url_host s) s

unfoldable pub is_user_acct : (String → Option String) → String → Bool
unfolding before_at after_at
is_user_acct url_host acct = is_couch_uuid (before_at acct) && is_host url_host (after_at acct)

abbrev pub is_empty {ℓ} : {A : Type ℓ} → List A → Bool
is_empty [] = true
is_empty (x ∷ xs) = false

-- getEntityLastPatches with the length 1: the last patch, after those before it
abbrev pub after_first : Patch → Option (List Patch × Patch) → Option (List Patch × Patch)
after_first p none = some ([], p)
after_first p (some (ps, last)) = some (p ∷ ps, last)

unfoldable pub last_patch : List Patch → Option (List Patch × Patch)
last_patch [] = none
last_patch (p ∷ ps) = after_first p (last_patch ps)

-- getEntityHistoryBase: the versioned attributes of createBlankEntityDoc
abbrev pub entity_history_base : Json
entity_history_base =
    object
      (field "type" (text "entity") (field "labels" (object end) (field "claims" (object end) end)))

module _ (jiff : Jiff) (url_host : String → Option String) where
  -- createPatchDoc; `special` says that a context or a batch is given.
  unfoldable pub create_patch_doc : ℕ → String → VersionedDoc → VersionedDoc → Bool → Outcome Patch
  create_patch_doc now user current updated special = do
    require (is_user_acct url_host user) "invalid user acct" 500
    require (is_couch_uuid updated.id) (join "invalid couchUuid: " updated.id) 400
    let operations = jiff.diff current.versioned updated.versioned
    require (not (is_empty operations)) "empty patch" 500
    ok (record {
      entity_id = updated.id;
      entity_version = updated.version;
      user = user;
      timestamp = now;
      operations = operations;
      special = special;
    })

  -- getAggregatedOperations; an error is caught.
  abbrev pub aggregated_operations :
      Outcome VersionedDoc → VersionedDoc → Option (List PatchOperation)
  aggregated_operations (err failure) updated = none
  aggregated_operations (ok before) updated = some (jiff.diff before.versioned updated.versioned)

  -- What becomes of the last patch
  abbrev pub with_aggregated :
      List Patch → Patch → Patch → Option (List PatchOperation) → List Patch
  with_aggregated older previous new none = older ++ (previous ∷ new ∷ [])
  with_aggregated older previous new (some operations) =
      if previous.special
      then older ++ (previous ∷ new ∷ [])
      else if is_empty operations
      then older
      else if ltb (length operations) (length previous.operations + length new.operations)
      then older ++ (record previous { operations = operations } ∷ [])
      else older ++ (previous ∷ new ∷ [])

  unfoldable pub patches_after :
      List Patch → Option (List Patch × Patch) → VersionedDoc → VersionedDoc → Patch → List Patch
  patches_after patches none current updated new = patches ++ new ∷ []
  patches_after patches (some (older, previous)) current updated new =
      if previous.user == new.user
      then with_aggregated older previous new
          (aggregated_operations (revert_patch jiff current previous) updated)
      else patches ++ new ∷ []

  -- createPatch
  unfoldable pub create_patch :
      ℕ → String → VersionedDoc → VersionedDoc → Bool → List Patch → Outcome (List Patch)
  unfolding create_patch_doc patches_after last_patch
  create_patch now user current updated special patches = do
    new ← create_patch_doc now user current updated special
    ok (
        if ltb 1 current.version
        then patches_after patches (last_patch patches) current updated new
        else patches ++ new ∷ [])

-- addVersionsSnapshots, from a previous version
module _ (jiff : Jiff) where
  unfoldable pub snapshots : Json → List Patch → Outcome (List (Patch × Json))
  snapshots previous [] = ok []
  snapshots previous (p ∷ patches) = do
    snapshot ← jiff.patch p.operations previous
    rest ← snapshots snapshot patches
    ok ((p, snapshot) ∷ rest)

  unfoldable pub add_versions_snapshots : List Patch → Outcome (List (Patch × Json))
  unfolding snapshots
  add_versions_snapshots = snapshots entity_history_base

  -- The loop of restoreVersion, on the patches to revert
  unfoldable pub revert_patches : VersionedDoc → List Patch → Outcome VersionedDoc
  revert_patches doc [] = ok doc
  revert_patches doc (p ∷ patches) = do
    reverted ← revert_patch jiff doc p
    revert_patches reverted patches

  -- restoreVersion, up to the document that is then validated and saved. The sort by descending
  -- version reverses the order of the view.
  unfoldable pub restore_version : ℕ → VersionedDoc → List Patch → Outcome VersionedDoc
  unfolding revert_patches
  restore_version version current patches =
      revert_patches current
        (reverse (filter (λ (p : Patch). ltb version p.entity_version) patches))
