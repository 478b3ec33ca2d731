-- ===== src/Relations/Keys.antt =====
-- The ids at which the requests on relations store them (server/controllers/relations/lib/queries.ts),
-- and the requests that are accepted.
use inventaire.Base.{
  ℕ, String, true, Option, none, some, List, [], ◌∷◌, beq_of_ne, ◌≡◌, ◌≢◌, ◌∙◌, inl, inr, refl, sym,
  ap, subst, arith, ◌==◌, string_eq, eq_iff, Bool-cases, ok,
}
use inventaire.Couch.{Database}
use inventaire.Validation.{is_couch_uuid}
use inventaire.Groups.Requests.{validate_user_existance}
use inventaire.Relations.{
  RelationStatus, friends, unrelated, RelativeStatus, are_friends, user_requested, other_requested,
  not_related, Relation, join_ordered_ids, create_relation_doc, is_valid_id,
}
use inventaire.Relations.Ids.{join-is_valid_id}
use inventaire.Relations.Views.{IsOfUsers, IsKeyed}
use inventaire.Relations.Steps.{solved, solve_inv, action_inv, put_status_inv}
use inventaire.Relations.Requests.{
  put_and_emit, Event, friend_request_accepted, friendship_request, RelationAction, request, cancel,
  accept, discard, unfriend, get_relation_status, update_status, relation_action, put_status,
  requested_by, solve, solve_new_relation,
}

update_status-id :
    (now : ℕ) (id : String) (status : RelationStatus) (o : Option Relation) (d : Relation)
    → ((x : Relation) → o ≡ some x → x.id ≡ id)
    → update_status now id status o ≡ ok d
    → d.id ≡ id
unfolding update_status create_relation_doc
update_status-id now id status none d k h = ground arith
update_status-id now id status (some x) d k h = ground (arith, k x refl)

update_status_total :
    (now : ℕ) (id : String) (status : RelationStatus) (o : Option Relation)
    → is_valid_id id ≡ true
    → (d : Relation) × (update_status now id status o ≡ ok d)
unfolding update_status create_relation_doc
update_status_total now id status none h =
    (record { id = id; status = status; created = now; updated = some now }, ground arith)
update_status_total now id status (some x) h = (_, refl)

module _ (db : Database Relation) where
  put-IsKeyed :
      (id : String) (d : Relation) (s : db.Store)
      → IsOfUsers id
      → d.id ≡ id
      → IsKeyed db s
      → IsKeyed db (db.put s id d)
  unfolding IsKeyed
  put-IsKeyed id d s o e keyed j x h = elim (Bool-cases (id == j)) [
    | inl same ↦
        let h' : some d ≡ some x = sym (db.get-put s id j d ∙ (rw same refl)) ∙ h in
        let at : id ≡ j = (eq_iff id j).0 same in
        let is_x : d ≡ x = ground arith in
        (cc (ap (λ (r : Relation). r.id) is_x, e, at), subst IsOfUsers at o)
    | inr other ↦ keyed j x (sym (db.get-put s id j d ∙ (rw other refl)) ∙ h)
  ]

  users_of :
      (user other : String)
      → user ≢ other
      → is_couch_uuid user ≡ true
      → is_couch_uuid other ≡ true
      → IsOfUsers (join_ordered_ids user other)
  users_of user other ne x y = record {
    a = user;
    b = other;
    distinct = ne;
    a_uuid = x;
    b_uuid = y;
    joined = refl;
  }

  stored-id :
      (id : String) (s : db.Store)
      → IsKeyed db s
      → (x : Relation) → db.get s id ≡ some x
      → x.id ≡ id
  unfolding IsKeyed
  stored-id id s keyed x e = (keyed id x e).0

  put_status-IsKeyed :
      (now : ℕ) (user other : String) (status : RelationStatus) (s s' : db.Store)
      → IsOfUsers (join_ordered_ids user other)
      → put_status db now user other status s ≡ ok s'
      → IsKeyed db s
      → IsKeyed db s'
  put_status-IsKeyed now user other status s s' o h keyed =
      let (d, made, stored) = put_status_inv db now user other status s s' h in
      let id = join_ordered_ids user other in
      subst (IsKeyed db) stored (
        put-IsKeyed id d s o
          (update_status-id now id status (db.get s id) d (stored-id id s keyed) made) keyed)

  -- Accepted requests between users keep every stored relation at the id of its two users.
  pub relation_action-IsKeyed :
      (now : ℕ) (action : RelationAction) (user other : String) (type : Option String)
      (s s' : db.Store) (events : List Event)
      → is_couch_uuid user ≡ true
      → is_couch_uuid other ≡ true
      → relation_action db now action user other type s ≡ ok (s', events)
      → IsKeyed db s
      → IsKeyed db s'
  relation_action-IsKeyed now action user other type s s' events x y h keyed =
      let (ne, done) =
        solved db now action user other s (s', events)
          (action_inv db now action user other type s (s', events) h) in
      elim (solve_inv db now action user other (get_relation_status db user other s) s s' events
        done) [
          | inl (status, put, _) ↦
              put_status-IsKeyed now user other status s s' (users_of user other ne x y) put keyed
          | inr (same, _) ↦ subst (IsKeyed db) same keyed
        ]

  put_status_total :
      (now : ℕ) (user other : String) (status : RelationStatus) (s : db.Store)
      → is_valid_id (join_ordered_ids user other) ≡ true
      → (s' : db.Store) × (put_status db now user other status s ≡ ok s')
  unfolding put_status
  put_status_total now user other status s h =
      let id = join_ordered_ids user other in
      let (d, made) = update_status_total now id status (db.get s id) h in
      (db.put s id d, rw made refl)

  put_and_emit_total :
      (now : ℕ) (user other : String) (status : RelationStatus) (events : List Event) (s : db.Store)
      → is_valid_id (join_ordered_ids user other) ≡ true
      → (done : db.Store × List Event) × (put_and_emit db now user other status events s ≡ ok done)
  put_and_emit_total now user other status events s h =
      let (s', e) = put_status_total now user other status s h in ((s', events), rw e refl)

  solve_total :
      (now : ℕ) (action : RelationAction) (user other : String) (r : RelativeStatus) (s : db.Store)
      → is_valid_id (join_ordered_ids user other) ≡ true
      → (done : db.Store × List Event) × (solve db now action user other r s ≡ ok done)
  unfolding solve
  solve_total now request user other not_related s h =
      put_and_emit_total now user other (requested_by user other)
        (friendship_request other user ∷ []) s h
  solve_total now request user other other_requested s h =
      put_and_emit_total now user other friends
        (friend_request_accepted other user ∷ friend_request_accepted user other ∷ []) s h
  solve_total now accept user other other_requested s h =
      put_and_emit_total now user other friends (friend_request_accepted other user ∷ []) s h
  solve_total now cancel user other user_requested s h =
      put_and_emit_total now user other unrelated [] s h
  solve_total now discard user other other_requested s h =
      put_and_emit_total now user other unrelated [] s h
  solve_total now unfriend user other are_friends s h =
      put_and_emit_total now user other unrelated [] s h
  solve_total now unfriend user other user_requested s h =
      put_and_emit_total now user other unrelated [] s h
  solve_total now unfriend user other other_requested s h =
      put_and_emit_total now user other unrelated [] s h
  solve_total now _ user other _ s h = ((s, []), refl)

  new_relation_total :
      (now : ℕ) (action : RelationAction) (user other : String) (s : db.Store)
      → user ≢ other
      → is_couch_uuid user ≡ true
      → is_couch_uuid other ≡ true
      → (done : db.Store × List Event) × (solve_new_relation db now action user other s ≡ ok done)
  unfolding solve_new_relation
  new_relation_total now action user other s ne x y =
      let (done, e) =
        solve_total now action user other (get_relation_status db user other s) s
          (join-is_valid_id user other ne x y) in
      (done, rw (beq_of_ne user other ne) e)

  -- A request on the relation of two different users is accepted, whatever the status of their
  -- relation, if the other user exists or the request is not one for friendship.
  relation_action_total :
      (now : ℕ) (action : RelationAction) (user other : String) (type : Option String)
      (s : db.Store)
      → user ≢ other
      → is_couch_uuid user ≡ true
      → is_couch_uuid other ≡ true
      → (action ≡ request → type ≡ some "user")
      → (done : db.Store × List Event) × (relation_action db now action user other type s ≡ ok done)
  unfolding relation_action validate_user_existance
  relation_action_total now request user other type s ne x y h =
      rw (h refl) (new_relation_total now request user other s ne x y)
  relation_action_total now cancel user other type s ne x y h =
      new_relation_total now cancel user other s ne x y
  relation_action_total now action user other type s ne x y h =
      new_relation_total now action user other s ne x y
