-- ===== src/Properties/Matching.antt =====
-- What a regular expression matches, as a relation, and that the test by derivatives finds it.
use inventaire.Base.{
  ℕ, Bool, true, List, [], ◌∷◌, ◌++◌, ◌≡◌, refl, sym, ap, ◌∙◌, arith, Bool-cases, inl, inr,
}
use inventaire.Properties.Patterns.{
  Regex, fail, empty, one, seq, alt, star, nullable, derive, matches, anything,
}

pub data Matches : Regex → List ℕ → Type 0 where
  done : {s : List ℕ} → s ≡ [] → Matches empty s
  single : {p : ℕ → Bool} {s : List ℕ} (c : ℕ) → s ≡ c ∷ [] → p c ≡ true → Matches (one p) s
  both :
      {r q : Regex} {u : List ℕ} (s t : List ℕ)
      → u ≡ s ++ t
      → Matches r s
      → Matches q t
      → Matches (seq r q) u
  left : {r q : Regex} {s : List ℕ} → Matches r s → Matches (alt r q) s
  right : {r q : Regex} {s : List ℕ} → Matches q s → Matches (alt r q) s
  stop : {r : Regex} {s : List ℕ} → s ≡ [] → Matches (star r) s
  again :
      {r : Regex} {u : List ℕ} (s t : List ℕ)
      → u ≡ s ++ t
      → Matches r s
      → Matches (star r) t
      → Matches (star r) u

Matches-nullable : {r : Regex} {s : List ℕ} → Matches r s → s ≡ [] → nullable r ≡ true
unfolding nullable
Matches-nullable (done _) e = refl
Matches-nullable (single c h _) e = absurd (cc (h, e))
Matches-nullable (both [] t h a b) e =
    ground (arith, Matches-nullable a refl, Matches-nullable b (sym h ∙ e))
Matches-nullable (both (c ∷ s) t h a b) e = absurd (cc (h, e))
Matches-nullable (left a) e = ground (arith, Matches-nullable a e)
Matches-nullable (right b) e = ground (arith, Matches-nullable b e)
Matches-nullable (stop _) e = refl
Matches-nullable (again s t _ _ _) e = refl

derive-later :
    (r q : Regex) (c : ℕ) (s : List ℕ)
    → nullable r ≡ true
    → Matches (derive c q) s
    → Matches (derive c (seq r q)) s
unfolding derive
derive-later r q c s n m = rw n (right m)

derive-first :
    (r q : Regex) (c : ℕ) (s : List ℕ)
    → Matches (seq (derive c r) q) s
    → Matches (derive c (seq r q)) s
unfolding derive
derive-first r q c s m = elim (Bool-cases (nullable r)) [ inl n ↦ rw n (left m) | inr n ↦ rw n m ]

derive-one :
    (p : ℕ → Bool) (c : ℕ) (s : List ℕ) → p c ≡ true → s ≡ [] → Matches (derive c (one p)) s
unfolding derive
derive-one p c s h e = rw h (done e)

Matches-derive :
    {r : Regex} {u : List ℕ} (c : ℕ) (s : List ℕ) → Matches r u → u ≡ c ∷ s → Matches (derive c r) s
unfolding derive
Matches-derive c s (done h) e = absurd (cc (h, e))
Matches-derive c s (single {p} d h t) e = derive-one p c s (cc (h, e, t)) (cc (h, e))
Matches-derive c s (both {r} {q} [] t h a b) e =
    derive-later r q c s (Matches-nullable a refl) (Matches-derive c s b (sym h ∙ e))
Matches-derive c s (both {r} {q} (d ∷ w) t h a b) e =
    derive-first r q c s (both w t (cc (h, e)) (Matches-derive c w a (cc (h, e))) b)
Matches-derive c s (left a) e = left (Matches-derive c s a e)
Matches-derive c s (right b) e = right (Matches-derive c s b e)
Matches-derive c s (stop h) e = absurd (cc (h, e))
Matches-derive c s (again [] t h a b) e = Matches-derive c s b (sym h ∙ e)
Matches-derive c s (again (d ∷ w) t h a b) e =
    both w t (cc (h, e)) (Matches-derive c w a (cc (h, e))) b

-- The test finds what the relation has.
pub matches_complete : (r : Regex) (s : List ℕ) → Matches r s → matches r s ≡ true
unfolding matches
matches_complete r [] m = Matches-nullable m refl
matches_complete r (c ∷ s) m = matches_complete (derive c r) s (Matches-derive c s m refl)

-- Any text is matched by any characters.
pub Matches-any : (s : List ℕ) → Matches (star anything) s
Matches-any [] = stop refl
Matches-any (c ∷ s) = again (c ∷ []) s refl (single c refl refl) (Matches-any s)

pub Matches-one : (p : ℕ → Bool) (c : ℕ) → p c ≡ true → Matches (one p) (c ∷ [])
Matches-one p c h = single c refl h

nullable-Matches : (r : Regex) → nullable r ≡ true → Matches r []
unfolding nullable
nullable-Matches fail h = absurd (ground arith)
nullable-Matches empty h = done refl
nullable-Matches (one p) h = absurd (ground arith)
nullable-Matches (seq r q) h =
    both [] [] refl (nullable-Matches r (ground arith)) (nullable-Matches q (ground arith))
nullable-Matches (alt r q) h = elim (Bool-cases (nullable r)) [
  | inl n ↦ left (nullable-Matches r n)
  | inr n ↦ right (nullable-Matches q (ground arith))
]
nullable-Matches (star r) h = stop refl

-- A text that a derivative matches is matched after its character.
IsSound : ℕ → Regex → Type 0
IsSound c r = (s : List ℕ) → Matches (derive c r) s → Matches r (c ∷ s)

sound_first :
    (r q : Regex) (c : ℕ) (s : List ℕ)
    → IsSound c r
    → Matches (seq (derive c r) q) s
    → Matches (seq r q) (c ∷ s)
unfolding IsSound
sound_first r q c s sound (both u t h a b) = both (c ∷ u) t (ap (λ x. c ∷ x) h) (sound u a) b

IsSound-seq : (r q : Regex) (c : ℕ) → IsSound c r → IsSound c q → IsSound c (seq r q)
unfolding IsSound derive
IsSound-seq r q c first later s m = elim (Bool-cases (nullable r)) [
  | inl n ↦ sound_either r q c s first later n (rw n at m)
  | inr n ↦ sound_first r q c s first (rw n at m)
]
  where
    sound_either :
        (r q : Regex) (c : ℕ) (s : List ℕ)
        → IsSound c r
        → IsSound c q
        → nullable r ≡ true
        → Matches (alt (seq (derive c r) q) (derive c q)) s
        → Matches (seq r q) (c ∷ s)
    sound_either r q c s first later n (left a) = sound_first r q c s first a
    sound_either r q c s first later n (right b) =
        both [] (c ∷ s) refl (nullable-Matches r n) (later s b)

not_fail : {s : List ℕ} → ¬ (Matches fail s)
not_fail m = elim m [ ]

IsSound-one : (p : ℕ → Bool) (c : ℕ) → IsSound c (one p)
unfolding IsSound derive
IsSound-one p c s m = elim (Bool-cases (p c)) [
  | inl h ↦ sound_empty s h (rw h at m)
  | inr h ↦ absurd (not_fail (rw h at m))
]
  where
    sound_empty : (s : List ℕ) → p c ≡ true → Matches empty s → Matches (one p) (c ∷ s)
    sound_empty s h (done e) = single c (ap (λ x. c ∷ x) e) h

derive-Matches : (r : Regex) (c : ℕ) → IsSound c r
unfolding IsSound derive
derive-Matches fail c s m = absurd (not_fail m)
derive-Matches empty c s m = absurd (not_fail m)
derive-Matches (one p) c s m = IsSound-one p c s m
derive-Matches (seq r q) c s m = IsSound-seq r q c (derive-Matches r c) (derive-Matches q c) s m
derive-Matches (alt r q) c s (left a) = left (derive-Matches r c s a)
derive-Matches (alt r q) c s (right b) = right (derive-Matches q c s b)
derive-Matches (star r) c s (both u t h a b) =
    again (c ∷ u) t (ap (λ x. c ∷ x) h) (derive-Matches r c u a) b

-- The relation has what the test finds.
pub matches_sound : (r : Regex) (s : List ℕ) → matches r s ≡ true → Matches r s
unfolding matches IsSound
matches_sound r [] h = nullable-Matches r h
matches_sound r (c ∷ s) h = derive-Matches r c s (matches_sound (derive c r) s h)
