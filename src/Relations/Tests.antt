-- ===== src/Relations/Tests.antt =====
-- Two users who become friends, and the theorems at these inputs.
use inventaire.Base.{
  String, ◌≡◌, ◌≢◌, ◌↔◌, refl, true, arith, ok, err, Outcome, some, none, [], ◌∷◌, string_eq,
  eq_iff, http, any, all, List,
}
use inventaire.Couch.{Database, memory}
use inventaire.Validation.{is_couch_uuid, is_hex}
use inventaire.Groups.Requests.{validate_user_existance}
use inventaire.Relations.{
  Relation, user_requested, other_requested, text_ltb, join_ordered_ids, before_colon, after_colon,
  split_id, is_valid_id, create_relation_doc, user_relative_request, by_status, status_rows,
  not_related,
}
use inventaire.Relations.Requests.{
  Event, request, accept, update_status, put_status, get_relation_status, requested_by, solve,
  solve_new_relation, relation_action,
}
use inventaire.Relations.Views.{IsKeyed, emitted, emitted_iff}
use inventaire.Relations.Steps.{Step, relation_action-Step}
use inventaire.Relations.Keys.{relation_action-IsKeyed}
use inventaire.Relations.Consent.{Made, asked, begun, made, are_friends-asked}

abbrev ann : String
ann = "0123456789abcdef0123456789abcdef"

abbrev bob : String
bob = "1123456789abcdef0123456789abcdef"

server : Unit {0}
unfolding text_ltb join_ordered_ids before_colon after_colon split_id is_valid_id
    create_relation_doc user_relative_request by_status status_rows update_status put_status
    get_relation_status requested_by solve solve_new_relation relation_action is_couch_uuid is_hex
    any all validate_user_existance emitted
server = tt

abbrev db : Database Relation
db = memory

abbrev Store : Type 0
Store = List (String × Relation)

abbrev empty : Store
empty = []

abbrev or_empty : Outcome (Store × List Event) → Store × List Event
or_empty (ok r) = r
or_empty (err _) = (empty, [])

abbrev first : Store × List Event
first = or_empty (relation_action db 3 request bob ann (some "user") empty)

abbrev second : Store × List Event
second = or_empty (relation_action db 4 accept ann bob none first.0)

first_ok : relation_action db 3 request bob ann (some "user") empty ≡ ok (first.0, first.1)
unfolding server
first_ok = refl

second_ok : relation_action db 4 accept ann bob none first.0 ≡ ok (second.0, second.1)
unfolding server
second_ok = refl

statuses :
    (get_relation_status db bob ann first.0 ≡ user_requested)
    × (emitted db ann other_requested bob first.0 ≡ true)
    × (relation_action db 4 request ann ann (some "user") empty
        ≡ err (http "cant create relation between identical ids" 400))
unfolding server
statuses = (refl, refl, refl)

uuids : (is_couch_uuid ann ≡ true) × (is_couch_uuid bob ≡ true)
unfolding server
uuids = (refl, refl)

apart : ann ≢ bob
apart e = cc ((eq_iff ann bob).1 e)

relation_action-Step_example : Step db accept ann bob first.0 second.0
relation_action-Step_example =
    relation_action-Step db 4 accept ann bob none first.0 second.0 second.1 second_ok

empty-IsKeyed : IsKeyed db empty
unfolding IsKeyed
empty-IsKeyed id d h = absurd (ground arith)

first-IsKeyed : IsKeyed db first.0
first-IsKeyed =
    relation_action-IsKeyed db 3 request bob ann (some "user") empty first.0 first.1 uuids.1 uuids.0
      first_ok empty-IsKeyed

emitted_iff_example :
    (emitted db ann other_requested bob first.0 ≡ true)
    ↔ ((other_requested ≢ not_related) × (get_relation_status db ann bob first.0 ≡ other_requested))
emitted_iff_example =
    emitted_iff db ann bob other_requested first.0 first-IsKeyed uuids.0 uuids.1 apart

abbrev both : List Made
both = (accept, ann, bob) ∷ (request, bob, ann) ∷ []

are_friends-asked_example : (asked ann bob both ≡ true) × (asked bob ann both ≡ true)
unfolding server
are_friends-asked_example =
    are_friends-asked db both second.0 ann bob
      (made 4 accept ann bob none _ first.0 second.0 second.1
        (made 3 request bob ann (some "user") _ empty first.0 first.1 (begun empty (λ id. refl))
          uuids.1 uuids.0 first_ok)
        uuids.0 uuids.1 second_ok)
      uuids.0 uuids.1 apart refl
