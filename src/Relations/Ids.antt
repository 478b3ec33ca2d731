-- ===== src/Relations/Ids.antt =====
-- The ids of relations (joinOrderedIds of server/models/relation.ts): their order, and their split.
use Prim.Native.Nat.{Ordering}
use Prim.Native.String.{compare, ◌++◌, count}
use Prim.Native.String.compare.{nil-nil, nil-cons, cons-nil, cons-cons}
use text.Mathlib.TextEquality.{path_by_compare}
use text.Mathlib.TextLemmas.{cons-append, nil-append, length-nil, length-cons}
use inventaire.Base.{
  suc, String, true, ◌≡◌, ◌≢◌, ◌∙◌, ◌⊎◌, inl, inr, refl, sym, ap, arith, string_eq, eq_iff, nat_eq,
  not, if◌then◌else◌, length, all, Bool-cases,
}
use inventaire.Validation.{codes, is_hex, is_couch_uuid}
use inventaire.Relations.{
  text_ltb, join_ordered_ids, before_colon, after_colon, split_id, is_valid_id,
}

abbrev flip : Ordering → Ordering
flip Ordering.lt = Ordering.gt
flip Ordering.eq = Ordering.eq
flip Ordering.gt = Ordering.lt

compare-flip : (a b : String) → compare b a ≡ flip (compare a b)
compare-flip String.[] String.[] = rw nil-nil refl
compare-flip String.[] (String.◌∷◌ d t) = rw (nil-cons d t, cons-nil d t) refl
compare-flip (String.◌∷◌ c s) String.[] = rw (nil-cons c s, cons-nil c s) refl
compare-flip (String.◌∷◌ c s) (String.◌∷◌ d t) =
    rw (cons-cons c d s t, cons-cons d c t s) (ground (arith, compare-flip s t))

pub ltb-flip : (a b : String) → a ≢ b → text_ltb b a ≡ not (text_ltb a b)
unfolding text_ltb
ltb-flip a b ne = ground (arith, compare-flip a b, path_by_compare a b)

pub join_comm : (a b : String) → a ≢ b → join_ordered_ids b a ≡ join_ordered_ids a b
unfolding join_ordered_ids
join_comm a b ne = ground (arith, ltb-flip a b ne)

count-codes : (s : String) → length (codes s) ≡ count s
count-codes String.[] = sym length-nil
count-codes (String.◌∷◌ c s) = ap suc (count-codes s) ∙ sym (length-cons c s)

pub uuid_inv :
    (s : String) → is_couch_uuid s ≡ true → (count s ≡ 32) × (all is_hex (codes s) ≡ true)
unfolding is_couch_uuid
uuid_inv s h = ground (arith, count-codes s)

colon-append : (b : String) → ":" ++ b ≡ String.◌∷◌ ":" b
colon-append b = cons-append ":" "" b ∙ ap (λ s. String.◌∷◌ ":" s) (nil-append b)

before_colon-append :
    (a b : String) → all is_hex (codes a) ≡ true → before_colon (a ++ (":" ++ b)) ≡ a
unfolding before_colon all is_hex
before_colon-append String.[] b h = rw (nil-append (":" ++ b), colon-append b) refl
before_colon-append (String.◌∷◌ c a) b h =
    rw (cons-append c a (":" ++ b)) (ground (arith, before_colon-append a b))

after_colon-append :
    (a b : String) → all is_hex (codes a) ≡ true → after_colon (a ++ (":" ++ b)) ≡ b
unfolding after_colon all is_hex
after_colon-append String.[] b h = rw (nil-append (":" ++ b), colon-append b) refl
after_colon-append (String.◌∷◌ c a) b h =
    rw (cons-append c a (":" ++ b)) (ground (arith, after_colon-append a b))

before_colon_hex : (a : String) → all is_hex (codes a) ≡ true → before_colon a ≡ a
unfolding before_colon all is_hex
before_colon_hex String.[] h = refl
before_colon_hex (String.◌∷◌ c a) h = ground (arith, before_colon_hex a)

-- The ids in their order
abbrev pub ordered : String → String → String × String
ordered a b = if text_ltb a b then (a, b) else (b, a)

split-append :
    (a b : String)
    → is_couch_uuid a ≡ true
    → is_couch_uuid b ≡ true
    → split_id (a ++ (":" ++ b)) ≡ (a, b)
unfolding split_id
split-append a b u v =
    let (_, h) = uuid_inv a u in
    let (_, k) = uuid_inv b v in
    rw (before_colon-append a b h, after_colon-append a b h, before_colon_hex b k) refl

pub split-join :
    (a b : String)
    → is_couch_uuid a ≡ true
    → is_couch_uuid b ≡ true
    → split_id (join_ordered_ids a b) ≡ ordered a b
unfolding join_ordered_ids
split-join a b u v = elim (Bool-cases (text_ltb a b)) [
  | inl e ↦ rw e (split-append a b u v)
  | inr e ↦ rw e (split-append b a v u)
]

pub join-is_valid_id :
    (a b : String)
    → a ≢ b
    → is_couch_uuid a ≡ true
    → is_couch_uuid b ≡ true
    → is_valid_id (join_ordered_ids a b) ≡ true
unfolding is_valid_id
join-is_valid_id a b ne u v = rw (split-join a b u v) (ground (arith, eq_iff a b, eq_iff b a))

-- Of the split of one id there are the two ids, in one order or the other.
pub join_inj :
    (a b c d : String)
    → is_couch_uuid a ≡ true
    → is_couch_uuid b ≡ true
    → is_couch_uuid c ≡ true
    → is_couch_uuid d ≡ true
    → join_ordered_ids a b ≡ join_ordered_ids c d
    → ((a ≡ c) × (b ≡ d)) ⊎ ((a ≡ d) × (b ≡ c))
join_inj a b c d u v x y h =
    let same : ordered a b ≡ ordered c d =
      sym (split-join a b u v) ∙ ap split_id h ∙ split-join c d x y in
    ground (arith)
