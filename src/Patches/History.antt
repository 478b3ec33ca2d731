-- ===== src/Patches/History.antt =====
-- The patches of an entity lead from the blank document to the current one, whatever createPatch
-- (server/controllers/entities/lib/patches/create_patch.ts) does with the last patch.
use inventaire.Base.{
  ℕ, ◌+◌, ◌≡◌, inl, inr, refl, ap, sym, arith, ◌∙◌, String, Bool, true, false, Option, none, some,
  List, [], ◌∷◌, ◌++◌, ◌==◌, string_eq, nat_eq, ltb, length, if◌then◌else◌, Outcome, ok, err,
  bind_inv, Bool-cases,
}
use inventaire.Patches.{Json, VersionedDoc, Patch, Jiff}
use inventaire.Patches.Fixes.{revert_patch}
use inventaire.Patches.Creation.{
  is_empty, last_patch, aggregated_operations, with_aggregated, entity_history_base,
  create_patch_doc, patches_after, create_patch, add_versions_snapshots,
}
use inventaire.Patches.Replay.{
  last_patch-append, if_true, if_false, replay, last_snapshot, snapshots-replay, replay-snoc,
  RevertsExactly, kept, same_of_nothing,
}

module _ (jiff : Jiff) (url_host : String → Option String) where
  -- What becomes of the last patch leads to the new document.
  with_aggregated-replay :
      (s t : Json) (older : List Patch) (previous new : Patch) (updated : VersionedDoc)
      (reverted : Outcome VersionedDoc)
      → replay jiff s (older ++ previous ∷ []) ≡ ok t
      → jiff.patch new.operations t ≡ ok updated.versioned
      → ((before : VersionedDoc) → reverted ≡ ok before → replay jiff s older ≡ ok before.versioned)
      → replay jiff s (
          with_aggregated jiff url_host older previous new
            (aggregated_operations jiff url_host reverted updated))
        ≡ ok updated.versioned
  with_aggregated-replay s t older previous new updated (err failure) h k exact =
      kept jiff s t updated.versioned older previous new h k
  with_aggregated-replay s t older previous new updated (ok before) h k exact =
      let all_kept = kept jiff s t updated.versioned older previous new h k in
      let start = exact before refl in
      let operations = jiff.diff before.versioned updated.versioned in
      let leads = jiff.patch-diff before.versioned updated.versioned in
      let normal = older ++ previous ∷ new ∷ [] in
      let rewritten = older ++ record previous { operations = operations } ∷ [] in
      let enough = ltb (length operations) (length previous.operations + length new.operations) in
      let not_special =
        if is_empty operations then older else if enough then rewritten else normal in
      elim (Bool-cases previous.special) [
        | inl special ↦
            ap (λ ps. replay jiff s ps) (if_true previous.special normal not_special special)
            ∙ all_kept
        | inr plain ↦
            ap (λ ps. replay jiff s ps) (if_false previous.special normal not_special plain)
            ∙ elim (Bool-cases (is_empty operations)) [
              | inl none_left ↦ rw none_left (
                  start
                  ∙ ap ok (
                      same_of_nothing jiff operations before.versioned updated.versioned none_left
                        leads))
              | inr some_left ↦ rw some_left (elim (Bool-cases enough) [
                | inl shorter ↦ rw shorter (
                    replay-snoc jiff s before.versioned updated.versioned older
                      (record previous { operations = operations }) start leads)
                | inr longer ↦ rw longer all_kept
              ])
            ]
      ]

  patches_after-replay :
      (s : Json) (patches : List Patch) (last : Option (List Patch × Patch))
      (current updated : VersionedDoc) (new : Patch)
      → last_patch patches ≡ last
      → replay jiff s patches ≡ ok current.versioned
      → RevertsExactly jiff s current patches
      → jiff.patch new.operations current.versioned ≡ ok updated.versioned
      → replay jiff s (patches_after jiff url_host patches last current updated new)
        ≡ ok updated.versioned
  unfolding patches_after
  patches_after-replay s patches none current updated new e h exact k =
      replay-snoc jiff s current.versioned updated.versioned patches new h k
  patches_after-replay s patches (some (older, previous)) current updated new e h exact k =
      elim (Bool-cases (previous.user == new.user)) [
        | inl same ↦ rw same (
            with_aggregated-replay s current.versioned older previous new updated
              (revert_patch jiff current previous)
              (ap (λ ps. replay jiff s ps) (sym (last_patch-append patches older previous e)) ∙ h) k
              (λ before r. exact older previous before e r))
        | inr other ↦
            rw other (replay-snoc jiff s current.versioned updated.versioned patches new h k)
      ]

  either :
      (b : Bool) (xs ys after : List Patch) (t : Json)
      → ok (if b then xs else ys) ≡ ok after
      → replay jiff entity_history_base xs ≡ ok t
      → replay jiff entity_history_base ys ≡ ok t
      → replay jiff entity_history_base after ≡ ok t
  either true xs ys after t e h k =
      let same : xs ≡ after = ground (arith, e) in
      ap (λ ps. replay jiff entity_history_base ps) (sym same) ∙ h
  either false xs ys after t e h k =
      let same : ys ≡ after = ground (arith, e) in
      ap (λ ps. replay jiff entity_history_base ps) (sym same) ∙ k

  -- What the creation of a patch accepts
  create_patch_doc-leads :
      (now : ℕ) (user : String) (current updated : VersionedDoc) (special : Bool) (new : Patch)
      → create_patch_doc jiff url_host now user current updated special ≡ ok new
      → jiff.patch new.operations current.versioned ≡ ok updated.versioned
  unfolding create_patch_doc
  create_patch_doc-leads now user current updated special new h =
      let e : new.operations ≡ jiff.diff current.versioned updated.versioned = ground arith in
      ap (λ operations. jiff.patch operations current.versioned) e
      ∙ jiff.patch-diff current.versioned updated.versioned

  -- Where the patches of an entity lead to the current document, and the revert of the last one gives
  -- the document before it, an accepted creation of a patch leaves patches whose snapshots end with
  -- the updated document, also where the last patch is rewritten or deleted.
  pub create_patch-snapshots :
      (now : ℕ) (user : String) (current updated : VersionedDoc) (special : Bool)
      (patches after : List Patch)
      → replay jiff entity_history_base patches ≡ ok current.versioned
      → RevertsExactly jiff entity_history_base current patches
      → create_patch jiff url_host now user current updated special patches ≡ ok after
      → (rows : List (Patch × Json)) × (add_versions_snapshots jiff after ≡ ok rows)
        × (last_snapshot jiff entity_history_base rows ≡ updated.versioned)
        × (replay jiff entity_history_base after ≡ ok updated.versioned)
  unfolding create_patch add_versions_snapshots
  create_patch-snapshots now user current updated special patches after h exact run =
      let (new, made, e) =
        bind_inv (create_patch_doc jiff url_host now user current updated special)
          (λ new. ok (
            if ltb 1 current.version
            then patches_after jiff url_host patches (last_patch patches) current updated new
            else patches ++ new ∷ []))
          after run in
      let leads = create_patch_doc-leads now user current updated special new made in
      let normal =
        replay-snoc jiff entity_history_base current.versioned updated.versioned patches new h
          leads in
      let rewritten =
        patches_after-replay entity_history_base patches (last_patch patches) current updated new
          refl h exact leads in
      let replayed : replay jiff entity_history_base after ≡ ok updated.versioned =
        either (ltb 1 current.version)
          (patches_after jiff url_host patches (last_patch patches) current updated new)
          (patches ++ new ∷ []) after updated.versioned e rewritten normal in
      let (rows, all_made, ends) =
        snapshots-replay jiff entity_history_base updated.versioned after replayed in
      (rows, all_made, ends, replayed)
