-- ===== src/Relations/Requests.antt =====
-- The requests on relations (server/controllers/relations/actions.ts and lib/queries.ts,
-- lib/actions.ts, lib/intent.ts, lib/solve_intent.ts). Logs and warnings are left out; the events
-- given to the radio are the second result.
use inventaire.Base.{
  ℕ, String, Option, none, some, List, [], ◌∷◌, ◌==◌, string_eq, not, if◌then◌else◌, Outcome, ok,
  require, ◌>>=◌, ◌>>◌,
}
use inventaire.Couch.{Database}
use inventaire.Groups.Requests.{validate_user_existance}
use inventaire.Relations.{
  RelationStatus, friends, a_requested, b_requested, unrelated, RelativeStatus, are_friends,
  user_requested, other_requested, not_related, Relation, text_ltb, join_ordered_ids,
  create_relation_doc, user_relative_request,
}

-- notify:friend:request:accepted and notify:friendship:request, with the user to notify first
pub data Event : Type 0 where
  friend_request_accepted friendship_request : String → String → Event

pub data RelationAction : Type 0 where
  request cancel accept discard unfriend : RelationAction

unfoldable pub update_status : ℕ → String → RelationStatus → Option Relation → Outcome Relation
update_status now id status (some doc) = ok (record doc { status = status; updated = some now })
update_status now id status none = do
  doc ← create_relation_doc now id status
  ok (record doc { updated = some now })

abbrev pub seen : String → String → Option Relation → RelativeStatus
seen user other none = not_related
seen user other (some doc) = user_relative_request user other doc.status

-- putRequestedStatus
unfoldable pub requested_by : String → String → RelationStatus
requested_by user other = if text_ltb user other then a_requested else b_requested

module _ (db : Database Relation) where
  unfoldable pub put_status : ℕ → String → String → RelationStatus → db.Store → Outcome db.Store
  put_status now user other status s = do
    doc ←
        update_status now (join_ordered_ids user other) status
          (db.get s (join_ordered_ids user other))
    ok (db.put s (join_ordered_ids user other) doc)

  unfoldable pub get_relation_status : String → String → db.Store → RelativeStatus
  get_relation_status user other s = seen user other (db.get s (join_ordered_ids user other))

  abbrev pub Solved : Type 0
  Solved = Outcome (db.Store × List Event)

  abbrev pub put_and_emit : ℕ → String → String → RelationStatus → List Event → db.Store → Solved
  put_and_emit now user other status events s = do
    s' ← put_status now user other status s
    ok (s', events)

  -- solve[intent](userId, otherId, status), with `actions` as lib/actions.ts
  unfoldable pub solve : ℕ → RelationAction → String → String → RelativeStatus → db.Store → Solved
  solve now request user other not_related s =
      put_and_emit now user other (requested_by user other) (friendship_request other user ∷ []) s
  solve now request user other other_requested s =
      put_and_emit now user other friends
        (friend_request_accepted other user ∷ friend_request_accepted user other ∷ []) s
  solve now cancel user other user_requested s = put_and_emit now user other unrelated [] s
  solve now unfriend user other are_friends s = put_and_emit now user other unrelated [] s
  solve now unfriend user other user_requested s = put_and_emit now user other unrelated [] s
  solve now unfriend user other other_requested s = put_and_emit now user other unrelated [] s
  solve now accept user other other_requested s =
      put_and_emit now user other friends (friend_request_accepted other user ∷ []) s
  solve now discard user other other_requested s = put_and_emit now user other unrelated [] s
  solve now _ user other _ s = ok (s, [])

  unfoldable pub solve_new_relation : ℕ → RelationAction → String → String → db.Store → Solved
  solve_new_relation now action user other s = do
    require (not (user == other)) "cant create relation between identical ids" 400
    solve now action user other (get_relation_status user other s) s

  -- The controller; `type` is that of the other user's document, if there is one.
  unfoldable pub relation_action :
      ℕ → RelationAction → String → String → Option String → db.Store → Solved
  relation_action now request user other type s = do
    validate_user_existance type
    solve_new_relation now request user other s
  relation_action now action user other type s = solve_new_relation now action user other s
