-- ===== src/Entities/Tests.antt =====
-- An edition that is edited and merged, and the theorems at these inputs.
use inventaire.Base.{
  String, Bool, true, false, none, some, List, [], ◌∷◌, string_eq, ◌&&◌, ◌||◌, not, any, filter,
  includes, Outcome, ok, err, http, ◌≡◌, refl, subst, arith,
}
use inventaire.Relations.{split_id, before_colon, after_colon}
use inventaire.Texts.{is_space, squeeze, trim_start, trim_end, super_trim}
use inventaire.Entities.{
  text, plain, object, InvEntity, EntityDoc, entity, get_claim_index, minimize_claim_object,
  trim_claim, assert_editable_entity, prevent_redirection_edit, value_eq,
  convert_entity_doc_into_a_redirection,
}
use inventaire.Entities.Objects.{omit}
use inventaire.Entities.Edits.{
  delete_from, set_label, set_entity_doc_label, set_each, set_entity_doc_labels,
  set_possibly_empty_property_array, assign, splice, replace_at, replace_in, edited_claims,
  map_claim, add_inferred, remove_inferred, inferred, Convertor, update_inferred_properties,
  update_entity_doc_claim,
}
use inventaire.Entities.Merge.{
  Constraints, merge_labels, merge_references, merge_claim_references, merge_into, merge_claim,
  merge_property_claims, merge_claims, merge_entities_docs,
}
use inventaire.Entities.Claims.{IsClean}
use inventaire.Entities.Edited.{AreClean, IsTidy, update_entity_doc_claim-IsTidy}
use inventaire.Entities.Places.{is_of}
use inventaire.Entities.Values.{claims_of, holds, holds-update_entity_doc_claim}
use inventaire.Entities.Merged.{is_limited, claimed}
use inventaire.Entities.Survivors.{holds-merge_entities_docs}

abbrev book : InvEntity
book = record {
  id = "b";
  labels = ("en", "The Book") ∷ [];
  claims = ("wdt:P50", plain (text "wd:Q1") ∷ []) ∷ [];
  created = 1;
  updated = none;
  version = 1;
}

abbrev twin : InvEntity
twin = record book {
  id = "t";
  labels = ("en", "Book") ∷ ("fr", "Le Livre") ∷ [];
  claims = ("wdt:P50", object (text "wd:Q1") ("r" ∷ []) ∷ plain (text "wd:Q2") ∷ []) ∷ [];
}

abbrev nothing : String → List (String × Convertor)
nothing _ = []

-- A property from which another is inferred
abbrev isbns : String → List (String × Convertor)
isbns p = ("wdt:P957", λ v. some v) ∷ []

abbrev free : String → Constraints
free _ = record { unique_value = false; has_placeholders = false }

abbrev all_langs : String → Bool
all_langs _ = true

server : Unit {0}
unfolding is_space squeeze trim_start trim_end super_trim get_claim_index minimize_claim_object
    trim_claim assert_editable_entity prevent_redirection_edit omit delete_from set_label
    set_entity_doc_label set_each set_entity_doc_labels set_possibly_empty_property_array assign
    splice replace_at replace_in edited_claims add_inferred remove_inferred inferred
    update_inferred_properties update_entity_doc_claim merge_labels merge_references
    merge_claim_references merge_into merge_claim merge_property_claims merge_claims
    merge_entities_docs any filter includes claimed
server = tt

abbrev or_book : Outcome EntityDoc → EntityDoc
or_book (ok doc) = doc
or_book (err _) = entity book

abbrev edited : EntityDoc
edited = or_book (
    update_entity_doc_claim nothing (entity book) "wdt:P50" (some (plain (text "wd:Q1")))
      (some (plain (text "  wd:Q3 "))) [])

edited_ok :
    update_entity_doc_claim nothing
      (entity book)
      "wdt:P50"
      (some (plain (text "wd:Q1")))
      (some (plain (text "  wd:Q3 ")))
      []
    ≡ ok edited
unfolding server
edited_ok = refl

-- The inferred value is there with references, and is added once more.
inferred_again :
    update_entity_doc_claim isbns
      (entity (record book { claims = ("wdt:P957", object (text "2-07") ("r" ∷ []) ∷ []) ∷ [] }))
      "wdt:P212"
      none
      (some (plain (text "2-07")))
      []
    ≡ ok (
        entity (record book {
          claims =
              ("wdt:P957", object (text "2-07") ("r" ∷ []) ∷ plain (text "2-07") ∷ [])
              ∷ ("wdt:P212", plain (text "2-07") ∷ [])
              ∷ [];
        }))
unfolding server
inferred_again = refl

refusals :
    (update_entity_doc_claim nothing (entity book) "wdt:P50" none (some (plain (text "wd:Q1"))) []
      ≡ err (http "claim property new value already exist" 400))
    × (update_entity_doc_claim nothing (entity book) "wdt:P50" (some (plain (text "wd:Q9"))) none []
        ≡ err (http "claim property value not found" 400))
    × (update_entity_doc_claim nothing (entity book) "wdt:P50" none none []
        ≡ err (http "missing old or new value" 400))
    × (set_entity_doc_label all_langs (entity book) "en" none
        ≡ err (http "can not delete the last label" 400))
unfolding server
refusals = (refl, refl, refl, refl)

book-IsTidy : IsTidy (entity book)
unfolding AreClean server
book-IsTidy p cs h =
    let same : plain (text "wd:Q1") ∷ [] ≡ cs = ground arith in subst IsClean same (refl, refl, tt)

update_entity_doc_claim-IsTidy_example : IsTidy edited
update_entity_doc_claim-IsTidy_example =
    update_entity_doc_claim-IsTidy nothing (entity book) edited "wdt:P50"
      (some (plain (text "wd:Q1"))) (some (plain (text "  wd:Q3 "))) [] refl edited_ok book-IsTidy

holds-update_entity_doc_claim_example : holds edited "wdt:P50" (text "wd:Q1") ≡ (
    is_of (map_claim trim_claim (some (plain (text "  wd:Q3 ")))) (text "wd:Q1")
    || (not (is_of (map_claim trim_claim (some (plain (text "wd:Q1")))) (text "wd:Q1"))
        && holds (entity book) "wdt:P50" (text "wd:Q1")))
holds-update_entity_doc_claim_example =
    holds-update_entity_doc_claim nothing (entity book) edited "wdt:P50"
      (some (plain (text "wd:Q1"))) (some (plain (text "  wd:Q3 "))) [] (text "wd:Q1") refl
      book-IsTidy edited_ok

abbrev labelled : EntityDoc
labelled = or_book (set_entity_doc_labels all_langs (entity book) (("fr", " Le  Livre") ∷ []))

labelled_ok :
    set_entity_doc_labels all_langs (entity book) (("fr", " Le  Livre") ∷ []) ≡ ok labelled
unfolding server
labelled_ok = refl

abbrev survivor : EntityDoc
survivor = or_book (merge_entities_docs free (entity twin) (entity book))

survivor_ok : merge_entities_docs free (entity twin) (entity book) ≡ ok survivor
unfolding server
survivor_ok = refl

holds-merge_entities_docs_example :
    (holds (entity book) "wdt:P50" (text "wd:Q2") ≡ true
      → holds survivor "wdt:P50" (text "wd:Q2") ≡ true)
    × (holds survivor "wdt:P50" (text "wd:Q2") ≡ true
        → (holds (entity book) "wdt:P50" (text "wd:Q2")
            || claimed (claims_of (entity twin)) "wdt:P50" (text "wd:Q2"))
          ≡ true)
    × (is_limited (free "wdt:P50") ≡ false
        → holds survivor "wdt:P50" (text "wd:Q2") ≡ (
            holds (entity book) "wdt:P50" (text "wd:Q2")
            || claimed (claims_of (entity twin)) "wdt:P50" (text "wd:Q2")))
holds-merge_entities_docs_example =
    holds-merge_entities_docs free (entity twin) (entity book) survivor "wdt:P50" (text "wd:Q2")
      survivor_ok

merged_references :
    claims_of survivor
    ≡ ("wdt:P50", object (text "wd:Q1") ("r" ∷ []) ∷ plain (text "wd:Q2") ∷ []) ∷ []
unfolding server
merged_references = refl

circular :
    convert_entity_doc_into_a_redirection book "inv:b" [] ≡ err (http "circular redirection" 500)
unfolding server convert_entity_doc_into_a_redirection split_id before_colon after_colon
circular = refl
