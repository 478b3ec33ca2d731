-- ===== src/Relations/Views.antt =====
-- What the two users of a relation see of it, by its document and by the view `byStatus`.
use inventaire.Base.{
  String, Bool, true, false, Option, none, some, any, ◌≡◌, ◌≢◌, ◌∙◌, ◌↔◌, ◌⊎◌, inl, inr, refl, sym,
  ap, subst, arith, ◌==◌, string_eq, eq_iff, ◌&&◌, not, Bool-cases,
}
use inventaire.Couch.{Database}
use inventaire.Validation.{is_couch_uuid}
use inventaire.Relations.{
  RelationStatus, friends, a_requested, b_requested, unrelated, RelativeStatus, are_friends,
  user_requested, other_requested, not_related, Relation, text_ltb, join_ordered_ids,
  user_relative_request, Row, status_rows, by_status, split_id,
}
use inventaire.Relations.Ids.{ltb-flip, join_comm, join_inj, split-join}
use inventaire.Relations.Requests.{get_relation_status, seen}

abbrev pub mirror : RelativeStatus → RelativeStatus
mirror are_friends = are_friends
mirror user_requested = other_requested
mirror other_requested = user_requested
mirror not_related = not_related

pub relative-mirror :
    (a b : String) (status : RelationStatus)
    → a ≢ b
    → user_relative_request b a status ≡ mirror (user_relative_request a b status)
unfolding user_relative_request
relative-mirror a b friends ne = refl
relative-mirror a b a_requested ne = ground (arith, ltb-flip a b ne)
relative-mirror a b b_requested ne = ground (arith, ltb-flip a b ne)
relative-mirror a b unrelated ne = refl

seen-mirror : (a b : String) (o : Option Relation) → a ≢ b → seen b a o ≡ mirror (seen a b o)
seen-mirror a b none ne = refl
seen-mirror a b (some d) ne = relative-mirror a b d.status ne

-- The two users of a relation see the same relation, each from their side: the request that one has
-- made is the one that the other has received.
pub get_relation_status-mirror :
    (db : Database Relation) (a b : String) (s : db.Store)
    → a ≢ b
    → get_relation_status db b a s ≡ mirror (get_relation_status db a b s)
unfolding get_relation_status
get_relation_status-mirror db a b s ne =
    rw (join_comm a b ne) (seen-mirror a b (db.get s (join_ordered_ids a b)) ne)

abbrev pub relative_beq : RelativeStatus → RelativeStatus → Bool
relative_beq are_friends are_friends = true
relative_beq user_requested user_requested = true
relative_beq other_requested other_requested = true
relative_beq not_related not_related = true
relative_beq _ _ = false

abbrev pub is_row : String → RelativeStatus → String → Row → Bool
is_row u t v (x, r, y) = (x == u) && (relative_beq r t && (y == v))

abbrev Pair : String → String → String → String → Type 0
Pair p q u v = ((p ≡ u) × (q ≡ v)) ⊎ ((p ≡ v) × (q ≡ u))

-- A document of the users `p` and `q`, `p` first.
status_rows_iff :
    (p q u v : String) (status : RelationStatus) (t : RelativeStatus)
    → p ≢ q
    → text_ltb p q ≡ true
    → (any (is_row u t v) (status_rows p q status) ≡ true)
      ↔ (Pair p q u v × (t ≢ not_related) × (user_relative_request u v status ≡ t))
unfolding any status_rows user_relative_request
status_rows_iff p q u v friends t ne lt =
    ground (arith, ltb-flip p q ne, eq_iff p u, eq_iff q u, eq_iff p v, eq_iff q v)
status_rows_iff p q u v a_requested t ne lt =
    ground (arith, ltb-flip p q ne, eq_iff p u, eq_iff q u, eq_iff p v, eq_iff q v)
status_rows_iff p q u v b_requested t ne lt =
    ground (arith, ltb-flip p q ne, eq_iff p u, eq_iff q u, eq_iff p v, eq_iff q v)
status_rows_iff p q u v unrelated t ne lt = ground arith

-- A document at the id of two users.
pub record IsOfUsers (id : String) : Type 0 where
  pub a : String
  pub b : String
  pub distinct : a ≢ b
  pub a_uuid : is_couch_uuid a ≡ true
  pub b_uuid : is_couch_uuid b ≡ true
  pub joined : id ≡ join_ordered_ids a b

by_status_iff :
    (d : Relation) (u v : String) (t : RelativeStatus)
    → IsOfUsers d.id
    → is_couch_uuid u ≡ true
    → is_couch_uuid v ≡ true
    → u ≢ v
    → (any (is_row u t v) (by_status d) ≡ true) ↔ (
        (d.id ≡ join_ordered_ids u v)
        × (t ≢ not_related)
        × (user_relative_request u v d.status ≡ t))
unfolding by_status
by_status_iff d u v t o x y ne =
    let parts = ap split_id o.joined ∙ split-join o.a o.b o.a_uuid o.b_uuid in
    let same = join_inj o.a o.b u v o.a_uuid o.b_uuid x y in
    let comm = join_comm u v ne in
    elim (Bool-cases (text_ltb o.a o.b)) [
      | inl lt ↦
          let e : split_id d.id ≡ (o.a, o.b) = parts ∙ (rw lt refl) in
          rw e (ground (arith, status_rows_iff o.a o.b u v d.status t o.distinct lt, o.joined))
      | inr ge ↦
          let e : split_id d.id ≡ (o.b, o.a) = parts ∙ (rw ge refl) in
          let lt : text_ltb o.b o.a ≡ true = ltb-flip o.a o.b o.distinct ∙ ap not ge in
          rw e (
            ground (
              arith,
              status_rows_iff o.b o.a u v d.status t (λ z. o.distinct (sym z)) lt,
              o.joined,
            ))
    ]

module _ (db : Database Relation) where
  -- Every stored relation is one of two users, at their id.
  unfoldable pub IsKeyed : db.Store → Type 0
  IsKeyed s = (id : String) (d : Relation) → db.get s id ≡ some d → (d.id ≡ id) × IsOfUsers id

  unfoldable pub emitted : String → RelativeStatus → String → db.Store → Bool
  emitted u t v s = any (λ d. any (is_row u t v) (by_status d)) (db.all_docs s)

  seen_of_emitted :
      (u v : String) (t : RelativeStatus) (s : db.Store)
      → IsKeyed s
      → is_couch_uuid u ≡ true
      → is_couch_uuid v ≡ true
      → u ≢ v
      → emitted u t v s ≡ true
      → (t ≢ not_related) × (get_relation_status db u v s ≡ t)
  unfolding IsKeyed emitted get_relation_status
  seen_of_emitted u v t s keyed x y ne h =
      let (id, d, stored, row) = db.get-any (λ d. any (is_row u t v) (by_status d)) s h in
      let (at, o) = keyed id d stored in
      let (joined, related, same) =
        (by_status_iff d u v t (subst IsOfUsers (sym at) o) x y ne).0 row in
      let e : db.get s (join_ordered_ids u v) ≡ some d = ap (db.get s) (sym joined ∙ at) ∙ stored in
      (related, ap (seen u v) e ∙ same)

  emitted_of_seen :
      (u v : String) (t : RelativeStatus) (s : db.Store) (o : Option Relation)
      → IsKeyed s
      → is_couch_uuid u ≡ true
      → is_couch_uuid v ≡ true
      → u ≢ v
      → t ≢ not_related
      → db.get s (join_ordered_ids u v) ≡ o
      → seen u v o ≡ t
      → emitted u t v s ≡ true
  unfolding IsKeyed emitted
  emitted_of_seen u v t s none keyed x y ne related e h = absurd (related (sym h))
  emitted_of_seen u v t s (some d) keyed x y ne related e h =
      let (at, o) = keyed (join_ordered_ids u v) d e in
      db.any-get (λ d. any (is_row u t v) (by_status d)) s (join_ordered_ids u v) d e
        ((by_status_iff d u v t (subst IsOfUsers (sym at) o) x y ne).1 (at, related, h))

  -- In a database whose relations are stored at the ids of their users, the view `byStatus` has a row
  -- of a type for a user and another exactly if that type, which is not `none`, is the status that
  -- the user is shown of the relation.
  pub emitted_iff :
      (u v : String) (t : RelativeStatus) (s : db.Store)
      → IsKeyed s
      → is_couch_uuid u ≡ true
      → is_couch_uuid v ≡ true
      → u ≢ v
      → (emitted u t v s ≡ true) ↔ ((t ≢ not_related) × (get_relation_status db u v s ≡ t))
  unfolding get_relation_status
  emitted_iff u v t s keyed x y ne = (
    seen_of_emitted u v t s keyed x y ne,
    λ (related, h).
        emitted_of_seen u v t s (db.get s (join_ordered_ids u v)) keyed x y ne related refl h,
  )
