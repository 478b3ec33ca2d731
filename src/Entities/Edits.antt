-- ===== src/Entities/Edits.antt =====
-- The edits of an entity's labels and claims. The languages that Wikimedia knows come from the
-- package wikidata-lang and are a parameter, and so is the table of inferences
-- (server/controllers/entities/lib/inferences.ts), whose functions read ISBNs.
use inventaire.Base.{
  ℕ, zero, suc, String, Bool, false, Option, none, some, List, [], ◌∷◌, ◌++◌, ◌==◌, string_eq,
  nat_beq, not, length, any, filter, includes, if◌then◌else◌, Outcome, ok, err, http, require,
  ◌>>=◌, ◌>>◌, map,
}
use inventaire.Couch.{memory_lookup, memory_put}
use inventaire.Texts.{super_trim}
use inventaire.Entities.{
  ClaimValue, value_eq, Claim, plain, object, Claims, Labels, EntityDoc, entity, get_claim_value,
  has_value, get_claim_index, minimize_claim_object, trim_claim, assert_editable_entity,
  prevent_redirection_edit,
}
use inventaire.Entities.Objects.{omit}

abbrev pub is_label : Option String → String → Bool
is_label none value = false
is_label (some label) value = label == value

unfoldable pub delete_from : Labels → String → Option String → Outcome Labels
delete_from labels lang none = err (http "can not delete a non-existant label" 400)
delete_from labels lang (some _) =
    if nat_beq (length labels) 1
    then err (http "can not delete the last label" 400)
    else ok (omit labels lang)

unfoldable pub set_label : String → Option String → Labels → Outcome Labels
set_label lang none labels = delete_from labels lang (memory_lookup labels lang)
set_label lang (some value) labels =
    if is_label (memory_lookup labels lang) (super_trim value)
    then err (http "already up-to-date" 400)
    else ok (memory_put labels lang (super_trim value))

module _ (is_lang : String → Bool) where
  unfoldable pub set_entity_doc_label : EntityDoc → String → Option String → Outcome EntityDoc
  set_entity_doc_label doc lang value = do
    require (is_lang lang) "invalid lang" 400
    e ← assert_editable_entity doc
    labels ← set_label lang value e.labels
    ok (entity (record e { labels = labels }))

  unfoldable pub set_each : EntityDoc → Labels → Outcome EntityDoc
  set_each doc [] = ok doc
  set_each doc ((lang, value) ∷ labels) = do
    doc' ← set_entity_doc_label doc lang (some value)
    set_each doc' labels

  unfoldable pub set_entity_doc_labels : EntityDoc → Labels → Outcome EntityDoc
  set_entity_doc_labels doc labels = do e ← prevent_redirection_edit doc; set_each doc labels

abbrev pub or_empty : Option (List Claim) → List Claim
or_empty none = []
or_empty (some claims) = claims

unfoldable pub set_possibly_empty_property_array : Claims → String → List Claim → Claims
set_possibly_empty_property_array claims property [] = omit claims property
set_possibly_empty_property_array claims property (c ∷ cs) = memory_put claims property (c ∷ cs)

-- `array[index] = claim` and `array.splice(index, 1)`, at an index that is in the array
unfoldable pub assign : List Claim → ℕ → Claim → List Claim
assign [] i c = []
assign (x ∷ xs) zero c = c ∷ xs
assign (x ∷ xs) (suc i) c = x ∷ assign xs i c

unfoldable pub splice : List Claim → ℕ → List Claim
splice [] i = []
splice (x ∷ xs) zero = xs
splice (x ∷ xs) (suc i) = x ∷ splice xs i

abbrev pub not_found : Outcome Claims
not_found = err (http "claim property value not found" 400)

unfoldable pub replace_at : Claims → String → List Claim → Option Claim → Option ℕ → Outcome Claims
replace_at claims property array new none = not_found
replace_at claims property array (some new) (some i) =
    ok (memory_put claims property (assign array i new))
replace_at claims property array none (some i) =
    ok (set_possibly_empty_property_array claims property (splice (map trim_claim array) i))

unfoldable pub replace_in :
    Claims → String → Claim → Option Claim → Option (List Claim) → Outcome Claims
replace_in claims property old new none = not_found
replace_in claims property old new (some array) =
    replace_at claims property array new
      (get_claim_index (map trim_claim array) (get_claim_value old))

-- The claims after the edit, by the trimmed old and new claim, before the inferences
unfoldable pub edited_claims : Claims → String → Option Claim → Option Claim → Outcome Claims
edited_claims claims property none none = err (http "missing old or new value" 400)
edited_claims claims property none (some new) =
    ok (memory_put claims property (or_empty (memory_lookup claims property) ++ new ∷ []))
edited_claims claims property (some old) new =
    replace_in claims property old new (memory_lookup claims property)

abbrev pub map_claim : (Claim → Claim) → Option Claim → Option Claim
map_claim f none = none
map_claim f (some c) = some (f c)

-- Whether the value of the new claim is among the property's
abbrev pub already : List Claim → Option Claim → Bool
already claims none = false
already claims (some new) = any (has_value (get_claim_value new)) claims

-- `===` of a claim and a value: a claim with references is not the value.
abbrev pub is_plain : ClaimValue → Claim → Bool
is_plain v (plain w) = w == v
is_plain v (object _ _) = false

unfoldable pub add_inferred : List Claim → Option ClaimValue → List Claim
add_inferred array none = array
add_inferred array (some v) = if any (is_plain v) array then array else array ++ plain v ∷ []

unfoldable pub remove_inferred : List Claim → Option ClaimValue → List Claim
remove_inferred array none = array
remove_inferred array (some v) = filter (λ c. not (is_plain v c)) array

abbrev pub Convertor : Type 0
Convertor = ClaimValue → Option ClaimValue

unfoldable pub inferred : Convertor → Option Claim → Option Claim → List Claim → List Claim
inferred convertor old (some new) array = add_inferred array (convertor (get_claim_value new))
inferred convertor (some old) none array = remove_inferred array (convertor (get_claim_value old))
inferred convertor none none array = array

unfoldable pub update_inferred_properties :
    List (String × Convertor) → List String → Option Claim → Option Claim → Claims → Claims
update_inferred_properties [] defined old new claims = claims
update_inferred_properties ((property, convertor) ∷ others) defined old new claims =
    let done =
      set_possibly_empty_property_array claims property
        (inferred convertor old new (or_empty (memory_lookup claims property))) in
    update_inferred_properties others defined old new
      (if includes defined property then claims else done)

module _ (inferences : String → List (String × Convertor)) where
  unfoldable pub update_entity_doc_claim :
      EntityDoc → String → Option Claim → Option Claim → List String → Outcome EntityDoc
  update_entity_doc_claim doc property old new defined = do
    e ← assert_editable_entity doc
    require (not (already (or_empty (memory_lookup e.claims property)) (map_claim trim_claim new)))
        "claim property new value already exist" 400
    claims ←
        edited_claims e.claims property (map_claim trim_claim old)
          (map_claim (λ c. minimize_claim_object (trim_claim c)) new)
    ok (
        entity (record e {
          claims =
              update_inferred_properties (inferences property) defined (map_claim trim_claim old)
                (map_claim (λ c. minimize_claim_object (trim_claim c)) new) claims;
        }))
