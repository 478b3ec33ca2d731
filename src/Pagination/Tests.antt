-- ===== src/Pagination/Tests.antt =====
-- Three documents in pages of two, and the theorem at these inputs.
use inventaire.Base.{List, [], ◌∷◌, none, some, drop, ◌≡◌, refl, arith}
use inventaire.Pagination.{
  Listed, paginate, displayed, sort_by_creation_date, insert_by_creation_date,
}
use inventaire.Pagination.Walk.{all_pages, all_pages-drop}

abbrev doc_a : Listed
doc_a = record { id = "a"; created = 1; visibility = [] }

abbrev doc_b : Listed
doc_b = record { id = "b"; created = 3; visibility = [] }

abbrev doc_c : Listed
doc_c = record { id = "c"; created = 2; visibility = [] }

abbrev three : List Listed
three = doc_a ∷ doc_b ∷ doc_c ∷ []

pages :
    ((paginate three 2 0 none).page ≡ doc_b ∷ doc_c ∷ [])
    × ((paginate three 2 0 none).continue ≡ some 2)
    × ((paginate three 2 2 none).page ≡ doc_a ∷ [])
    × ((paginate three 2 2 none).continue ≡ none)
unfolding paginate displayed sort_by_creation_date insert_by_creation_date
pages = (refl, refl, refl, refl)

all_pages-drop_example : all_pages 3 three 2 none 0 ≡ drop 0 (displayed none three)
unfolding displayed sort_by_creation_date insert_by_creation_date
all_pages-drop_example = all_pages-drop 3 three 2 none 0 (omega arith) (omega arith)
