-- ===== src/Entities/Labels.antt =====
-- The labels of entities after setEntityDocLabels and mergeEntitiesDocs (server/models/entity.ts).
use inventaire.Base.{
  String, Bool, true, false, Option, none, some, [], ◌∷◌, ◌==◌, string_eq, if◌then◌else◌, bind_inv,
  ok, ◌≡◌, ◌∙◌, refl, sym, ap, arith, eq_iff,
}
use inventaire.Couch.{memory_lookup, memory_put, memory_lookup-put}
use inventaire.Texts.{super_trim}
use inventaire.Entities.{
  Labels, InvEntity, EntityDoc, entity, removed_placeholder, redirection, assert_editable_entity,
}
use inventaire.Entities.Objects.{omit, lookup-omit}
use inventaire.Entities.Edits.{
  delete_from, set_label, set_entity_doc_label, set_each, set_entity_doc_labels,
}
use inventaire.Entities.Merge.{merge_labels, or_else}

abbrev pub labels_of : EntityDoc → Labels
labels_of (entity e) = e.labels
labels_of (removed_placeholder e) = e.labels
labels_of (redirection _) = []

abbrev pub label_of : EntityDoc → String → Option String
label_of doc lang = memory_lookup (labels_of doc) lang

abbrev pub trimmed : Option String → Option String
trimmed none = none
trimmed (some value) = some (super_trim value)

delete_from-ok :
    (labels labels' : Labels) (lang : String) (o : Option String)
    → delete_from labels lang o ≡ ok labels'
    → omit labels lang ≡ labels'
unfolding delete_from
delete_from-ok labels labels' lang o h = ground arith

lookup-set_label :
    (lang l : String) (value : Option String) (labels labels' : Labels)
    → set_label lang value labels ≡ ok labels'
    → memory_lookup labels' l ≡ (if lang == l then trimmed value else memory_lookup labels l)
unfolding set_label
lookup-set_label lang l none labels labels' h =
    ap (λ x. memory_lookup x l)
      (sym (delete_from-ok labels labels' lang (memory_lookup labels lang) h))
    ∙ lookup-omit labels lang l
lookup-set_label lang l (some value) labels labels' h =
    let same : memory_put labels lang (super_trim value) ≡ labels' = ground arith in
    ap (λ x. memory_lookup x l) (sym same) ∙ memory_lookup-put labels lang l (super_trim value)

module _ (is_lang : String → Bool) where
  set_inv :
      (doc doc' : EntityDoc) (lang : String) (value : Option String)
      → set_entity_doc_label is_lang doc lang value ≡ ok doc'
      → (e : InvEntity) × (labels : Labels) × (doc ≡ entity e)
        × (set_label lang value e.labels ≡ ok labels)
        × (doc' ≡ entity (record e { labels = labels }))
  unfolding set_entity_doc_label assert_editable_entity
  set_inv doc doc' lang value h = ground arith

  label_of-set :
      (doc doc' : EntityDoc) (lang l : String) (value : Option String)
      → set_entity_doc_label is_lang doc lang value ≡ ok doc'
      → label_of doc' l ≡ (if lang == l then trimmed value else label_of doc l)
  label_of-set doc doc' lang l value h =
      let (e, labels, is_e, done, is_e') = set_inv doc doc' lang value h in
      ap (λ x. label_of x l) is_e'
      ∙ lookup-set_label lang l value e.labels labels done
      ∙ ap (λ x. if lang == l then trimmed value else label_of x l) (sym is_e)

  -- The last label given for a language, and else another
  abbrev pub last_label : Labels → String → Option String → Option String
  last_label [] l before = before
  last_label ((lang, value) ∷ labels) l before =
      last_label labels l (if lang == l then some (super_trim value) else before)

  label_of-set_each :
      (labels : Labels) (doc doc' : EntityDoc) (l : String)
      → set_each is_lang doc labels ≡ ok doc'
      → label_of doc' l ≡ last_label labels l (label_of doc l)
  unfolding set_each
  label_of-set_each [] doc doc' l h =
      let same : doc ≡ doc' = ground arith in ap (λ x. label_of x l) (sym same)
  label_of-set_each ((lang, value) ∷ labels) doc doc' l h =
      let (next, first, rest) =
        bind_inv (set_entity_doc_label is_lang doc lang (some value))
          (λ d. set_each is_lang d labels) doc' h in
      label_of-set_each labels next doc' l rest
      ∙ ap (last_label labels l) (label_of-set doc next lang l (some value) first)

  -- After an accepted edit of labels each language has the last label that was given for it, trimmed,
  -- and where none was given, the label that it had.
  label_of-set_entity_doc_labels :
      (labels : Labels) (doc doc' : EntityDoc) (l : String)
      → set_entity_doc_labels is_lang doc labels ≡ ok doc'
      → label_of doc' l ≡ last_label labels l (label_of doc l)
  unfolding set_entity_doc_labels
  label_of-set_entity_doc_labels labels doc doc' l h =
      label_of-set_each labels doc doc' l (ground arith)

abbrev pub first_of : Option String → Option String → Option String
first_of none other = other
first_of (some value) _ = some value

first_kept :
    (same : Bool) (o o' : Option String) (value : String) (other : Option String)
    → (same ≡ true → o ≡ o')
    → first_of (if same then some (or_else o value) else o') other
      ≡ first_of o' (if same then some value else other)
first_kept true none o' value other h = rw (sym (h refl)) refl
first_kept true (some v) o' value other h = rw (sym (h refl)) refl
first_kept false o o' value other h = refl

pub lookup-merge_labels :
    (from to : Labels) (l : String)
    → memory_lookup (merge_labels from to) l ≡ first_of (memory_lookup to l) (memory_lookup from l)
unfolding merge_labels
lookup-merge_labels [] to l = ground arith
lookup-merge_labels ((lang, value) ∷ from) to l =
    lookup-merge_labels from (memory_put to lang (or_else (memory_lookup to lang) value)) l
    ∙ ap (λ x. first_of x (memory_lookup from l))
        (memory_lookup-put to lang l (or_else (memory_lookup to lang) value))
    ∙ first_kept (lang == l) (memory_lookup to lang) (memory_lookup to l) value
        (memory_lookup from l) (λ e. ap (memory_lookup to) ((eq_iff lang l).0 e))
