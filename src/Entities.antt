-- ===== src/Entities.antt =====
-- The entities (server/types/entity.ts, server/models/entity.ts and
-- server/controllers/entities/lib/inv_claims_utils.ts): documents with labels and claims, removed
-- placeholders, and redirections that a merge leaves.
pub mod Edits
mod Merge
pub mod Objects
mod Labels
pub mod Claims
pub mod Edited
pub mod Places
pub mod Values
mod Merged
mod Survivors
mod Tests
use inventaire.Base.{
  ℕ, zero, suc, String, Bool, true, false, Option, none, some, List, [], ◌∷◌, ◌==◌, HasEq,
  string_eq, nat_eq, ◌&&◌, not, length, any, nat_beq_iff, eq_iff, arith, ltb, if◌then◌else◌,
  Outcome, ok, err, http, ◌↔◌, ◌≡◌, map,
}
use inventaire.Relations.{split_id}
use inventaire.Texts.{super_trim}

-- InvClaimValue: a text or a number
pub data ClaimValue : Type 0 where
  text : String → ClaimValue
  number : ℕ → ClaimValue

abbrev pub value_beq : ClaimValue → ClaimValue → Bool
value_beq (text s) (text t) = s == t
value_beq (number m) (number n) = m == n
value_beq _ _ = false

pub value_beq_iff : (a b : ClaimValue) → (value_beq a b ≡ true) ↔ (a ≡ b)
value_beq_iff (text s) (text t) = ground (arith, eq_iff s t)
value_beq_iff (number m) (number n) = ground (arith, nat_beq_iff m n)
value_beq_iff (text s) (number n) = ground arith
value_beq_iff (number m) (text t) = ground arith

instance abbrev pub value_eq : HasEq ClaimValue
value_eq = record { same = value_beq; same_iff = value_beq_iff }

-- InvClaim: a value, or a value with references. A reference stands as its JSON, by which
-- `sameObjects` compares two, and an absent list of references as the empty one.
pub data Claim : Type 0 where
  plain : ClaimValue → Claim
  object : ClaimValue → List String → Claim

-- An object of JavaScript as the list of its entries
abbrev pub Claims : Type 0
Claims = List (String × List Claim)

abbrev pub Labels : Type 0
Labels = List (String × String)

pub record InvEntity : Type 0 where
  pub id : String
  pub labels : Labels
  pub claims : Claims
  pub created : ℕ
  pub updated : Option ℕ
  pub version : ℕ

pub record EntityRedirection : Type 0 where
  pub id : String
  pub created : ℕ
  pub updated : Option ℕ
  pub version : ℕ
  pub redirect : String
  pub removed_placeholders_ids : List String

pub data EntityDoc : Type 0 where
  entity removed_placeholder : InvEntity → EntityDoc
  redirection : EntityRedirection → EntityDoc

abbrev pub get_claim_value : Claim → ClaimValue
get_claim_value (plain v) = v
get_claim_value (object v _) = v

abbrev pub set_claim_value : Claim → ClaimValue → Claim
set_claim_value (plain _) v = plain v
set_claim_value (object _ refs) v = object v refs

abbrev pub has_value : ClaimValue → Claim → Bool
has_value v c = get_claim_value c == v

-- getClaimIndex; `none` is -1.
unfoldable pub get_claim_index : List Claim → ClaimValue → Option ℕ
get_claim_index [] v = none
get_claim_index (c ∷ cs) v =
    let rest = get_claim_index cs v in
    if has_value v c then some 0 else elim rest [ none ↦ none | some i ↦ some (suc i) ]

abbrev pub is_non_empty : {A : Type 0} → List A → Bool
is_non_empty [] = false
is_non_empty (_ ∷ _) = true

unfoldable pub minimize_claim_object : Claim → Claim
minimize_claim_object (plain v) = plain v
minimize_claim_object (object v refs) = if is_non_empty refs then object v refs else plain v

-- superTrim on a claim whose value is a text
abbrev pub trim_value : ClaimValue → ClaimValue
trim_value (text s) = text (super_trim s)
trim_value (number n) = number n

unfoldable pub trim_claim : Claim → Claim
trim_claim c = set_claim_value c (trim_value (get_claim_value c))

-- preventRedirectionEdit
unfoldable pub prevent_redirection_edit : EntityDoc → Outcome InvEntity
prevent_redirection_edit (entity e) = ok e
prevent_redirection_edit (removed_placeholder e) = ok e
prevent_redirection_edit (redirection _) =
    err (http "entity edit failed: the entity is a redirection" 400)

-- assertEditableEntity, and its two calls in updateEntityDocClaim
unfoldable pub assert_editable_entity : EntityDoc → Outcome InvEntity
assert_editable_entity (entity e) = ok e
assert_editable_entity (removed_placeholder _) =
    err (http "entity edit failed: the entity is a removed placeholder" 400)
assert_editable_entity (redirection _) =
    err (http "entity edit failed: the entity is a redirection" 400)

unfoldable pub convert_entity_doc_into_a_redirection :
    InvEntity → String → List String → Outcome EntityRedirection
convert_entity_doc_into_a_redirection e to_uri removed =
    if (split_id to_uri).0 == "inv" && ((split_id to_uri).1 == e.id)
    then err (http "circular redirection" 500)
    else ok (record {
      id = e.id;
      created = e.created;
      updated = e.updated;
      version = e.version;
      redirect = to_uri;
      removed_placeholders_ids = removed;
    })

unfoldable pub convert_entity_doc_to_placeholder : EntityDoc → Outcome EntityDoc
convert_entity_doc_to_placeholder (redirection _) =
    err (http "can't turn a redirection into a removed placeholder" 400)
convert_entity_doc_to_placeholder (entity e) = ok (removed_placeholder e)
convert_entity_doc_to_placeholder (removed_placeholder e) = ok (removed_placeholder e)

unfoldable pub recover_entity_doc_from_placeholder : InvEntity → EntityDoc
recover_entity_doc_from_placeholder e = entity e
