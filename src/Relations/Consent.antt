-- ===== src/Relations/Consent.antt =====
-- Histories of requests on relations (server/controllers/relations/actions.ts), from the first.
use inventaire.Base.{
  ℕ, String, Bool, true, false, Option, none, List, [], ◌∷◌, any, ◌≡◌, ◌≢◌, inl, inr, sym, ap,
  subst, arith, ◌==◌, string_eq, eq_iff, ◌&&◌, ◌||◌, Bool-cases, ok, beq_refl,
}
use inventaire.Couch.{Database}
use inventaire.Validation.{is_couch_uuid}
use inventaire.Relations.{
  RelativeStatus, are_friends, user_requested, other_requested, not_related, Relation,
  join_ordered_ids,
}
use inventaire.Relations.Ids.{join_inj}
use inventaire.Relations.Views.{mirror, get_relation_status-mirror}
use inventaire.Relations.Steps.{next_status, Step, relation_action-Step}
use inventaire.Relations.Requests.{
  Event, RelationAction, request, cancel, accept, discard, unfriend, get_relation_status, seen,
  relation_action,
}

abbrev pub Made : Type 0
Made = RelationAction × String × String

-- The user asks for the other's friendship, or accepts it.
abbrev wants : RelationAction → Bool
wants request = true
wants accept = true
wants _ = false

abbrev wants_of : String → String → Made → Bool
wants_of u v (action, user, other) = wants action && ((user == u) && (other == v))

unfoldable pub asked : String → String → List Made → Bool
asked u v made = any (wants_of u v) made

-- What a status says of who has asked: the user, and the other.
abbrev Agreed : RelativeStatus → Bool → Bool → Type 0
Agreed are_friends mine theirs = (mine ≡ true) × (theirs ≡ true)
Agreed user_requested mine theirs = mine ≡ true
Agreed other_requested mine theirs = theirs ≡ true
Agreed not_related mine theirs = Unit

Agreed-mirror :
    (r : RelativeStatus) (mine theirs : Bool) → Agreed r mine theirs → Agreed (mirror r) theirs mine
Agreed-mirror are_friends mine theirs (x, y) = (y, x)
Agreed-mirror user_requested mine theirs h = h
Agreed-mirror other_requested mine theirs h = h
Agreed-mirror not_related mine theirs h = tt

Agreed-more :
    (r : RelativeStatus) (a b mine theirs : Bool)
    → Agreed r mine theirs
    → Agreed r (a || mine) (b || theirs)
Agreed-more are_friends a b mine theirs h = ground arith
Agreed-more user_requested a b mine theirs h = ground arith
Agreed-more other_requested a b mine theirs h = ground arith
Agreed-more not_related a b mine theirs h = tt

Agreed-next :
    (action : RelationAction) (r : RelativeStatus) (b mine theirs : Bool)
    → Agreed r mine theirs
    → Agreed (next_status action r) (wants action || mine) (b || theirs)
Agreed-next request r b mine theirs h = ground arith
Agreed-next accept r b mine theirs h = ground arith
Agreed-next cancel r b mine theirs h = ground arith
Agreed-next discard r b mine theirs h = ground arith
Agreed-next unfriend r b mine theirs h = ground arith

asked-cons_self :
    (u v : String) (action : RelationAction) (made : List Made)
    → asked u v ((action, u, v) ∷ made) ≡ (wants action || asked u v made)
unfolding asked any
asked-cons_self u v action made = ground (arith, beq_refl u, beq_refl v)

module _ (db : Database Relation) where
  -- A database after a list of accepted requests between users, the last one first, from an empty one.
  pub data History : List Made → db.Store → Type 0 where
    begun : (s : db.Store) → ((id : String) → db.get s id ≡ none) → History [] s
    made :
        (now : ℕ) (action : RelationAction) (user other : String) (type : Option String)
        (before : List Made) (s s' : db.Store) (events : List Event)
        → History before s
        → is_couch_uuid user ≡ true
        → is_couch_uuid other ≡ true
        → relation_action db now action user other type s ≡ ok (s', events)
        → History ((action, user, other) ∷ before) s'

  abbrev Consented : List Made → db.Store → String → String → Type 0
  Consented before s u v =
      Agreed (get_relation_status db u v s) (asked u v before) (asked v u before)

  Consented-sym :
      (before : List Made) (s : db.Store) (u v : String)
      → u ≢ v
      → Consented before s u v
      → Consented before s v u
  Consented-sym before s u v ne h =
      subst (λ r. Agreed r (asked v u before) (asked u v before))
        (sym (get_relation_status-mirror db u v s ne))
        (Agreed-mirror (get_relation_status db u v s) (asked u v before) (asked v u before) h)

  own-Consented :
      (action : RelationAction) (user other : String) (before : List Made) (s s' : db.Store)
      → Step db action user other s s'
      → Consented before s user other
      → Consented ((action, user, other) ∷ before) s' user other
  unfolding asked any
  own-Consented action user other before s s' step h =
      rw (step.moved, asked-cons_self user other action before)
        (Agreed-next action (get_relation_status db user other s)
          (wants_of other user (action, user, other)) (asked user other before)
          (asked other user before) h)

  status-kept :
      (action : RelationAction) (user other u v : String) (s s' : db.Store)
      → Step db action user other s s'
      → join_ordered_ids u v ≢ join_ordered_ids user other
      → get_relation_status db u v s' ≡ get_relation_status db u v s
  unfolding get_relation_status
  status-kept action user other u v s s' step ne =
      ap (seen u v) (step.kept (join_ordered_ids u v) ne)

  kept-Consented :
      (action : RelationAction) (user other u v : String) (before : List Made) (s s' : db.Store)
      → Step db action user other s s'
      → join_ordered_ids u v ≢ join_ordered_ids user other
      → Consented before s u v
      → Consented ((action, user, other) ∷ before) s' u v
  unfolding asked any
  kept-Consented action user other u v before s s' step ne h =
      rw (status-kept action user other u v s s' step ne) (
        Agreed-more (get_relation_status db u v s) (wants_of u v (action, user, other))
          (wants_of v u (action, user, other)) (asked u v before) (asked v u before) h)

  paired-Consented :
      (action : RelationAction) (user other u v : String) (before : List Made) (s s' : db.Store)
      → Step db action user other s s'
      → user ≡ u
      → other ≡ v
      → Consented before s u v
      → Consented ((action, user, other) ∷ before) s' u v
  paired-Consented action user other u v before s s' step e f h =
      let after = (action, user, other) ∷ before in
      subst (λ x. Consented after s' x v) e
        (subst (λ x. Consented after s' user x) f
          (own-Consented action user other before s s' step (
            subst (λ x. Consented before s x other) (sym e)
              (subst (λ x. Consented before s u x) (sym f) h))))

  one_more-Consented :
      (action : RelationAction) (user other u v : String) (before : List Made) (s s' : db.Store)
      → Step db action user other s s'
      → is_couch_uuid user ≡ true
      → is_couch_uuid other ≡ true
      → is_couch_uuid u ≡ true
      → is_couch_uuid v ≡ true
      → u ≢ v
      → Consented before s u v
      → Consented ((action, user, other) ∷ before) s' u v
  one_more-Consented action user other u v before s s' step x y p q ne h =
      elim (Bool-cases (join_ordered_ids u v == join_ordered_ids user other)) [
        | inr apart ↦
            kept-Consented action user other u v before s s' step
              (λ e. cc (apart, (eq_iff (join_ordered_ids u v) (join_ordered_ids user other)).1 e)) h
        | inl same ↦
            elim (join_inj u v user other p q x y
              ((eq_iff (join_ordered_ids u v) (join_ordered_ids user other)).0 same)) [
                | inl (a, b) ↦
                    paired-Consented action user other u v before s s' step (sym a) (sym b) h
                | inr (a, b) ↦
                    Consented-sym ((action, user, other) ∷ before) s' v u (λ e. ne (sym e))
                      (paired-Consented action user other v u before s s' step (sym b) (sym a)
                        (Consented-sym before s u v ne h))
              ]
      ]

  none_at_first :
      (s : db.Store) (u v : String)
      → ((id : String) → db.get s id ≡ none)
      → get_relation_status db u v s ≡ not_related
  unfolding get_relation_status
  none_at_first s u v h = ap (seen u v) (h (join_ordered_ids u v))

  all-Consented :
      (before : List Made) (s : db.Store) (u v : String)
      → History before s
      → is_couch_uuid u ≡ true
      → is_couch_uuid v ≡ true
      → u ≢ v
      → Consented before s u v
  all-Consented _ _ u v (begun s e) p q ne = rw (none_at_first s u v e) tt
  all-Consented _ _ u v (made now action user other type before s s' events hist x y h) p q ne =
      one_more-Consented action user other u v before s s'
        (relation_action-Step db now action user other type s s' events h) x y p q ne
        (all-Consented before s u v hist p q ne)

  -- After any accepted requests between users, from a database without relations, two users are only
  -- friends if each of them has asked for the other's friendship or accepted it.
  pub are_friends-asked :
      (before : List Made) (s : db.Store) (u v : String)
      → History before s
      → is_couch_uuid u ≡ true
      → is_couch_uuid v ≡ true
      → u ≢ v
      → get_relation_status db u v s ≡ are_friends
      → (asked u v before ≡ true) × (asked v u before ≡ true)
  are_friends-asked before s u v hist p q ne h =
      subst (λ r. Agreed r (asked u v before) (asked v u before)) h
        (all-Consented before s u v hist p q ne)
