-- ===== src/Patches/Restoring.antt =====
-- Restoring a version of an entity (server/controllers/entities/lib/restore_version.ts) gives the
-- document of that version.
use mathlib.Core.List.{reverse, reverse-cons}
use inventaire.Base.{
  ℕ, ◌≡◌, refl, ap, sym, arith, ◌∙◌, String, Bool, true, false, List, [], ◌∷◌, ◌++◌, ltb, filter,
  Outcome, ok, err, ◌>>=◌, All,
}
use inventaire.Patches.{Json, VersionedDoc, Patch, Jiff}
use inventaire.Patches.Fixes.{revert_patch}
use inventaire.Patches.Creation.{revert_patches, restore_version, entity_history_base}
use inventaire.Patches.Replay.{replay}

filter-append {ℓ} :
    {A : Type ℓ} (p : A → Bool) (xs ys : List A) → filter p (xs ++ ys) ≡ filter p xs ++ filter p ys
unfolding filter
filter-append p [] ys = refl
filter-append p (x ∷ xs) ys = ground (arith, filter-append p xs ys)

filter-All_not {ℓ} :
    {A : Type ℓ} (p : A → Bool) (xs : List A) → All (λ x. p x ≡ false) xs → filter p xs ≡ []
unfolding filter
filter-All_not p [] h = refl
filter-All_not p (x ∷ xs) h = ground (arith, filter-All_not p xs h.1)

filter-All {ℓ} :
    {A : Type ℓ} (p : A → Bool) (xs : List A) → All (λ x. p x ≡ true) xs → filter p xs ≡ xs
unfolding filter
filter-All p [] h = refl
filter-All p (x ∷ xs) h = ground (arith, filter-All p xs h.1)

module _ (jiff : Jiff) where
  revert_patches-append :
      (doc : VersionedDoc) (ps qs : List Patch)
      → revert_patches jiff doc (ps ++ qs)
        ≡ revert_patches jiff doc ps >>= λ reverted. revert_patches jiff reverted qs
  unfolding revert_patches
  revert_patches-append doc [] qs = refl
  revert_patches-append doc (p ∷ ps) qs =
      (λ i. revert_patch jiff doc p >>= λ reverted. revert_patches-append reverted ps qs i)
      ∙ sym (assoc (revert_patch jiff doc p))
    where
      assoc :
          (m : Outcome VersionedDoc)
          → (m >>= λ d. revert_patches jiff d ps) >>= (λ d. revert_patches jiff d qs)
            ≡ m >>= λ d. revert_patches jiff d ps >>= λ e. revert_patches jiff e qs
      assoc (ok d) = refl
      assoc (err e) = refl

  -- Each patch leads on, and its revert back: from a document of the entity with what it leads to, to
  -- what it led from.
  abbrev pub RevertBack : String → Json → List Patch → Type 0
  RevertBack id s [] = Unit
  RevertBack id s (p ∷ patches) =
      (t : Json) × (jiff.patch p.operations s ≡ ok t)
      × ((d : VersionedDoc)
          → d.versioned ≡ t
          → d.id ≡ id
          → revert_patch jiff d p ≡ ok (record d { versioned = s }))
      × RevertBack id t patches

  revert_patches-reverse :
      (current : VersionedDoc) (s : Json) (newer : List Patch)
      → RevertBack current.id s newer
      → replay jiff s newer ≡ ok current.versioned
      → revert_patches jiff current (reverse newer) ≡ ok (record current { versioned = s })
  unfolding revert_patches replay
  revert_patches-reverse current s [] back h =
      ap (λ t. ok (record current { versioned = t })) (sym same)
    where
      same : s ≡ current.versioned
      same = ground (arith, h)
  revert_patches-reverse current s (p ∷ newer) (t, leads, reverts, back) h =
      let rest : replay jiff t newer ≡ ok current.versioned =
        ap (λ (m : Outcome Json). m >>= λ v. replay jiff v newer) (sym leads) ∙ h in
      let last : revert_patch jiff (record current { versioned = t }) p
          ≡ ok (record current { versioned = s }) =
        reverts (record current { versioned = t }) refl refl in
      ap (λ ps. revert_patches jiff current ps) (reverse-cons p newer)
      ∙ revert_patches-append current (reverse newer) (p ∷ [])
      ∙ ap (λ (m : Outcome VersionedDoc). m >>= λ d. revert_patches jiff d (p ∷ []))
          (revert_patches-reverse current t newer back rest)
      ∙ ap (λ (m : Outcome VersionedDoc). m >>= λ d. ok d) last

  -- Where the patches of an entity lead to the current document, and the revert of each of those after
  -- a version leads back, restoring the version gives the document that the patches up to it lead to.
  pub restore_version-replay :
      (version : ℕ) (current : VersionedDoc) (s : Json) (older newer : List Patch)
      → replay jiff entity_history_base older ≡ ok s
      → replay jiff s newer ≡ ok current.versioned
      → All (λ (p : Patch). ltb version p.entity_version ≡ false) older
      → All (λ (p : Patch). ltb version p.entity_version ≡ true) newer
      → RevertBack current.id s newer
      → restore_version jiff version current (older ++ newer)
        ≡ ok (record current { versioned = s })
  unfolding restore_version
  restore_version-replay version current s older newer h k before after back =
      let is_newer = λ (p : Patch). ltb version p.entity_version in
      ap (λ ps. revert_patches jiff current (reverse ps))
        (filter-append is_newer older newer
          ∙ (λ i. filter-All_not is_newer older before i ++ filter-All is_newer newer after i))
      ∙ revert_patches-reverse current s newer back k
