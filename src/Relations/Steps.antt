-- ===== src/Relations/Steps.antt =====
-- The requests on relations (server/controllers/relations/actions.ts) and a small table on what the
-- user sees of the relation.
use inventaire.Base.{
  ℕ, String, Option, none, some, List, ◌≡◌, ◌≢◌, ◌∙◌, ◌⊎◌, inl, inr, refl, sym, ap, arith, ◌==◌,
  string_eq, eq_iff, if◌then◌else◌, ok, beq_refl, beq_of_ne,
}
use inventaire.Couch.{Database}
use inventaire.Relations.{
  RelationStatus, friends, unrelated, RelativeStatus, are_friends, user_requested, other_requested,
  not_related, Relation, join_ordered_ids, user_relative_request, create_relation_doc,
}
use inventaire.Relations.Requests.{
  Event, RelationAction, request, cancel, accept, discard, unfriend, update_status, put_status,
  get_relation_status, seen, requested_by, solve, solve_new_relation, relation_action,
}

abbrev pub next_status : RelationAction → RelativeStatus → RelativeStatus
next_status request not_related = user_requested
next_status request other_requested = are_friends
next_status cancel user_requested = not_related
next_status accept other_requested = are_friends
next_status discard other_requested = not_related
next_status unfriend _ = not_related
next_status _ status = status

update_status-status :
    (now : ℕ) (id : String) (status : RelationStatus) (o : Option Relation) (d : Relation)
    → update_status now id status o ≡ ok d
    → d.status ≡ status
unfolding update_status create_relation_doc
update_status-status now id status none d h = ground arith
update_status-status now id status (some x) d h = ground arith

module _ (db : Database Relation) where
  pub put_status_inv :
      (now : ℕ) (user other : String) (status : RelationStatus) (s s' : db.Store)
      → put_status db now user other status s ≡ ok s'
      → (d : Relation) × (update_status now
            (join_ordered_ids user other)
            status
            (db.get s (join_ordered_ids user other))
          ≡ ok d)
        × (db.put s (join_ordered_ids user other) d ≡ s')
  unfolding put_status
  put_status_inv now user other status s s' h = ground arith

  -- The relation after a status is put, and the other documents.
  pub record Put (user other : String) (status : RelationStatus) (s s' : db.Store) : Type 0 where
    pub now_seen : get_relation_status db user other s' ≡ user_relative_request user other status
    pub kept : (id : String) → id ≢ join_ordered_ids user other → db.get s' id ≡ db.get s id

  put_status-Put :
      (now : ℕ) (user other : String) (status : RelationStatus) (s s' : db.Store)
      → put_status db now user other status s ≡ ok s'
      → Put user other status s s'
  unfolding get_relation_status
  put_status-Put now user other status s s' h =
      let (d, made, stored) = put_status_inv now user other status s s' h in
      let id = join_ordered_ids user other in
      let as_put : (j : String) → db.get s' j ≡ (if id == j then some d else db.get s j) =
        λ j. ap (λ x. db.get x j) (sym stored) ∙ db.get-put s id j d in
      let own : db.get s' id ≡ some d = as_put id ∙ (rw (beq_refl id) refl) in
      record {
        now_seen =
            ap (seen user other) own
            ∙ ap (user_relative_request user other)
                (update_status-status now id status (db.get s id) d made);
        kept = λ j ne. as_put j ∙ (rw (beq_of_ne id j (λ e. ne (sym e))) refl);
      }

  -- A step of the table for one relation.
  pub record Step (action : RelationAction) (user other : String) (s s' : db.Store) : Type 0 where
    pub moved :
        get_relation_status db user other s'
        ≡ next_status action (get_relation_status db user other s)
    pub kept : (id : String) → id ≢ join_ordered_ids user other → db.get s' id ≡ db.get s id

  requested_is_seen :
      (user other : String)
      → user_relative_request user other (requested_by user other) ≡ user_requested
  unfolding user_relative_request requested_by
  requested_is_seen user other = ground arith

  pub solve_inv :
      (now : ℕ) (action : RelationAction) (user other : String) (seen_as : RelativeStatus)
      (s s' : db.Store) (events : List Event)
      → solve db now action user other seen_as s ≡ ok (s', events)
      → ((status : RelationStatus) × (put_status db now user other status s ≡ ok s')
          × (user_relative_request user other status ≡ next_status action seen_as))
        ⊎ ((s ≡ s') × (next_status action seen_as ≡ seen_as))
  unfolding solve user_relative_request
  solve_inv now request user other not_related s s' events h =
      inl (requested_by user other, ground arith, requested_is_seen user other)
  solve_inv now request user other other_requested s s' events h = inl (friends, ground arith, refl)
  solve_inv now accept user other other_requested s s' events h = inl (friends, ground arith, refl)
  solve_inv now cancel user other user_requested s s' events h = inl (unrelated, ground arith, refl)
  solve_inv now discard user other other_requested s s' events h =
      inl (unrelated, ground arith, refl)
  solve_inv now unfriend user other are_friends s s' events h = inl (unrelated, ground arith, refl)
  solve_inv now unfriend user other user_requested s s' events h =
      inl (unrelated, ground arith, refl)
  solve_inv now unfriend user other other_requested s s' events h =
      inl (unrelated, ground arith, refl)
  solve_inv now _ user other _ s s' events h = inr (ground arith)

  solve-Step :
      (now : ℕ) (action : RelationAction) (user other : String) (s s' : db.Store)
      (events : List Event)
      → solve db now action user other (get_relation_status db user other s) s ≡ ok (s', events)
      → Step action user other s s'
  solve-Step now action user other s s' events h =
      elim (solve_inv now action user other (get_relation_status db user other s) s s' events h) [
        | inl (status, h, e) ↦
            let p = put_status-Put now user other status s s' h in
            record { moved = p.now_seen ∙ e; kept = p.kept }
        | inr (same, e) ↦ record {
          moved = ap (get_relation_status db user other) (sym same) ∙ sym e;
          kept = λ id _. ap (λ x. db.get x id) (sym same);
        }
      ]

  pub action_inv :
      (now : ℕ) (action : RelationAction) (user other : String) (type : Option String)
      (s : db.Store) (r : db.Store × List Event)
      → relation_action db now action user other type s ≡ ok r
      → solve_new_relation db now action user other s ≡ ok r
  unfolding relation_action
  action_inv now request user other type s r h = ground arith
  action_inv now _ user other type s r h = h

  pub solved :
      (now : ℕ) (action : RelationAction) (user other : String) (s : db.Store)
      (r : db.Store × List Event)
      → solve_new_relation db now action user other s ≡ ok r
      → (user ≢ other)
        × (solve db now action user other (get_relation_status db user other s) s ≡ ok r)
  unfolding solve_new_relation
  solved now action user other s r h = ground (arith, eq_iff user other)

  -- An accepted request on the relation with another user moves what the user sees of it as the table
  -- says, and leaves every document but that of the relation as it was.
  pub relation_action-Step :
      (now : ℕ) (action : RelationAction) (user other : String) (type : Option String)
      (s s' : db.Store) (events : List Event)
      → relation_action db now action user other type s ≡ ok (s', events)
      → Step action user other s s'
  relation_action-Step now action user other type s s' events h =
      solve-Step now action user other s s' events
        (solved now action user other s (s', events)
          (action_inv now action user other type s (s', events) h)).1
