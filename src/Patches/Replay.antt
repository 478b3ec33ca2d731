-- ===== src/Patches/Replay.antt =====
-- The document that patches lead to, and the snapshots on the way (addVersionsSnapshots,
-- server/models/patch.ts).
use mathlib.Core.List.{append_assoc}
use inventaire.Base.{
  ◌≡◌, refl, ap, sym, arith, ◌∙◌, Bool, true, false, some, List, [], ◌∷◌, ◌++◌, string_eq, nat_eq,
  if◌then◌else◌, Outcome, ok, err, ◌>>=◌, bind_inv,
}
use inventaire.Patches.{Json, PatchOperation, VersionedDoc, Patch, Jiff}
use inventaire.Patches.Fixes.{revert_patch}
use inventaire.Patches.Creation.{is_empty, last_patch, after_first, snapshots}

last_patch-some :
    (x : Patch) (ps : List Patch)
    → (older : List Patch) × (p : Patch) × (last_patch (x ∷ ps) ≡ some (older, p))
      × (x ∷ ps ≡ older ++ p ∷ [])
unfolding last_patch
last_patch-some x [] = ([], x, refl, refl)
last_patch-some x (y ∷ ps) =
    let (older, p, found, e) = last_patch-some y ps in
    (x ∷ older, p, ap (λ r. after_first x r) found, ap (λ r. x ∷ r) e)

-- The last patch stands after the older ones.
pub last_patch-append :
    (patches older : List Patch) (p : Patch)
    → last_patch patches ≡ some (older, p)
    → patches ≡ older ++ p ∷ []
unfolding last_patch
last_patch-append [] older p h = absurd (ground arith)
last_patch-append (x ∷ ps) older p h =
    let (older', p', found, e) = last_patch-some x ps in
    let (same, same') : (older' ≡ older) × (p' ≡ p) = ground arith in
    e ∙ (λ i. same i ++ same' i ∷ [])

pub if_true {ℓ} : {A : Type ℓ} (b : Bool) (x y : A) → b ≡ true → (if b then x else y) ≡ x
if_true b x y h = rw h refl

pub if_false {ℓ} : {A : Type ℓ} (b : Bool) (x y : A) → b ≡ false → (if b then x else y) ≡ y
if_false b x y h = rw h refl

bind_assoc :
    {A B C : Type 0} (m : Outcome A) (f : A → Outcome B) (g : B → Outcome C)
    → (m >>= f) >>= g ≡ m >>= λ a. f a >>= g
bind_assoc (ok a) f g = refl
bind_assoc (err e) f g = refl

module _ (jiff : Jiff) where
  -- The document that patches lead to
  unfoldable pub replay : Json → List Patch → Outcome Json
  replay s [] = ok s
  replay s (p ∷ patches) = jiff.patch p.operations s >>= λ t. replay t patches

  replay-append :
      (s : Json) (ps qs : List Patch) → replay s (ps ++ qs) ≡ replay s ps >>= λ t. replay t qs
  unfolding replay
  replay-append s [] qs = refl
  replay-append s (p ∷ ps) qs =
      (λ i. jiff.patch p.operations s >>= λ t. replay-append t ps qs i)
      ∙ sym (bind_assoc (jiff.patch p.operations s) (λ t. replay t ps) (λ t. replay t qs))

  abbrev pub last_snapshot : Json → List (Patch × Json) → Json
  last_snapshot s [] = s
  last_snapshot s ((p, t) ∷ rows) = last_snapshot t rows

  -- The snapshots of the patches are made, and the last one is the document that they lead to.
  pub snapshots-replay :
      (s t : Json) (ps : List Patch)
      → replay s ps ≡ ok t
      → (rows : List (Patch × Json)) × (snapshots jiff s ps ≡ ok rows) × (last_snapshot s rows ≡ t)
  unfolding replay snapshots
  snapshots-replay s t [] h = ([], refl, ground arith)
  snapshots-replay s t (p ∷ ps) h =
      let (u, first, rest) = bind_inv (jiff.patch p.operations s) (λ u. replay u ps) t h in
      let (rows, made, ends) = snapshots-replay u t ps rest in
      (
        (p, u) ∷ rows,
        ap (λ (m : Outcome Json). m >>= λ v. snapshots jiff v ps >>= λ rest. ok ((p, v) ∷ rest))
              first
            ∙ ap (λ (m : Outcome (List (Patch × Json))). m >>= λ rest. ok ((p, u) ∷ rest)) made,
        ends,
      )

  -- A patch after those that lead to a document leads on.
  pub replay-snoc :
      (s t u : Json) (ps : List Patch) (p : Patch)
      → replay s ps ≡ ok t
      → jiff.patch p.operations t ≡ ok u
      → replay s (ps ++ p ∷ []) ≡ ok u
  unfolding replay
  replay-snoc s t u ps p h k =
      replay-append s ps (p ∷ [])
      ∙ ap (λ (m : Outcome Json). m >>= λ v. jiff.patch p.operations v >>= λ w. ok w) h
      ∙ ap (λ (m : Outcome Json). m >>= λ w. ok w) k

  -- Where the revert of the last patch gives the document before it
  abbrev pub RevertsExactly : Json → VersionedDoc → List Patch → Type 0
  RevertsExactly s current patches =
      (older : List Patch) (p : Patch) (before : VersionedDoc)
      → last_patch patches ≡ some (older, p)
      → revert_patch jiff current p ≡ ok before
      → replay s older ≡ ok before.versioned

  -- The new patch after the last one
  pub kept :
      (s t u : Json) (older : List Patch) (previous new : Patch)
      → replay s (older ++ previous ∷ []) ≡ ok t
      → jiff.patch new.operations t ≡ ok u
      → replay s (older ++ previous ∷ new ∷ []) ≡ ok u
  kept s t u older previous new h k =
      ap (λ ps. replay s ps) (sym (append_assoc older (previous ∷ []) (new ∷ [])))
      ∙ replay-snoc s t u (older ++ previous ∷ []) new h k

  pub same_of_nothing :
      (operations : List PatchOperation) (a b : Json)
      → is_empty operations ≡ true
      → jiff.patch operations a ≡ ok b
      → a ≡ b
  same_of_nothing [] a b h k = let e : ok a ≡ ok b = sym (jiff.patch-nil a) ∙ k in ground (arith, e)
  same_of_nothing (x ∷ xs) a b h k = absurd (ground arith)
