-- ===== src/Relations.antt =====
-- The relations between users (server/types/relation.ts, server/models/relation.ts and
-- server/db/couchdb/design_docs/relations.ts): one document for two users, at an id that joins
-- theirs in order, with a status that each of them reads in its own way.
mod Ids
mod Requests
mod Views
mod Steps
mod Consent
mod Keys
mod Tests
use Prim.Native.Nat.{Ordering}
use Prim.Native.Char.{Char, code}
use Prim.Native.String.{compare, ◌++◌}
use inventaire.Base.{
  ℕ, String, Bool, true, false, Option, none, some, List, [], ◌∷◌, ◌==◌, string_eq, nat_beq, not,
  ◌&&◌, if◌then◌else◌, Outcome, ok, err, failed,
}
use inventaire.Validation.{is_couch_uuid}

-- The statuses of a document; `unrelated` is 'none'.
pub data RelationStatus : Type 0 where
  friends a_requested b_requested unrelated : RelationStatus

-- What one of the users sees; `not_related` is 'none'.
pub data RelativeStatus : Type 0 where
  are_friends user_requested other_requested not_related : RelativeStatus

pub record Relation : Type 0 where
  pub id : String
  pub status : RelationStatus
  pub created : ℕ
  pub updated : Option ℕ

-- `idA < idB` on texts
abbrev pub is_lt : Ordering → Bool
is_lt Ordering.lt = true
is_lt _ = false

unfoldable pub text_ltb : String → String → Bool
text_ltb a b = is_lt (compare a b)

unfoldable pub join_ordered_ids : String → String → String
join_ordered_ids a b = if text_ltb a b then a ++ ":" ++ b else b ++ ":" ++ a

-- The first part of `id.split(':')`, and the text after the first colon. An id without a colon has
-- an empty second part here, where JavaScript has undefined; neither is valid.
unfoldable pub before_colon : String → String
before_colon String.[] = ""
before_colon (String.◌∷◌ c s) =
    let rest = before_colon s in if nat_beq (code c) b':' then "" else String.◌∷◌ c rest

unfoldable pub after_colon : String → String
after_colon String.[] = ""
after_colon (String.◌∷◌ c s) = let rest = after_colon s in if nat_beq (code c) b':' then s else rest

-- The first two parts
unfoldable pub split_id : String → String × String
split_id id = (before_colon id, before_colon (after_colon id))

unfoldable pub is_valid_id : String → Bool
is_valid_id id =
    let parts = split_id id in
    not (parts.0 == parts.1) && (is_couch_uuid parts.0 && is_couch_uuid parts.1)

-- createRelationDoc, whose asserts throw
unfoldable pub create_relation_doc : ℕ → String → RelationStatus → Outcome Relation
create_relation_doc now id status =
    if is_valid_id id
    then ok (record { id = id; status = status; created = now; updated = none })
    else err failed

-- user-relative_request.ts
unfoldable pub user_relative_request : String → String → RelationStatus → RelativeStatus
user_relative_request user other friends = are_friends
user_relative_request user other a_requested =
    if text_ltb user other then user_requested else other_requested
user_relative_request user other b_requested =
    if text_ltb user other then other_requested else user_requested
user_relative_request user other unrelated = not_related

-- The rows `emit([ user, type ], other)` of the view `byStatus`, for the two parts of the id
abbrev pub Row : Type 0
Row = String × RelativeStatus × String

unfoldable pub status_rows : String → String → RelationStatus → List Row
status_rows a b friends = (a, are_friends, b) ∷ (b, are_friends, a) ∷ []
status_rows a b a_requested = (a, user_requested, b) ∷ (b, other_requested, a) ∷ []
status_rows a b b_requested = (b, user_requested, a) ∷ (a, other_requested, b) ∷ []
status_rows a b unrelated = []

unfoldable pub by_status : Relation → List Row
by_status doc = let parts = split_id doc.id in status_rows parts.0 parts.1 doc.status
