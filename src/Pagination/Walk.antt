-- ===== src/Pagination/Walk.antt =====
-- A client that asks `paginate` (server/lib/pagination.ts) for one page after the other.
use inventaire.Base.{
  ℕ, zero, suc, ◌+◌, ◌-◌, ◌≤◌, String, Option, none, some, List, [], ◌∷◌, ◌++◌, ltb, length, take,
  drop, length-drop, take-append-drop, ◌≡◌, ◌∙◌, refl, sym, ap, arith, Bool-cases, inl, inr,
}
use inventaire.Pagination.{Listed, paginate, displayed}

-- The documents of the pages from an offset on, each asked for with the `continue` of the last; the
-- first argument bounds the number of pages.
unfoldable pub all_pages : ℕ → List Listed → ℕ → Option String → ℕ → List Listed
all_pages zero collection limit context offset = []
all_pages (suc n) collection limit context offset =
    let p = paginate collection limit offset context in
    p.page
    ++ (elim p.continue [ none ↦ [] | some next ↦ all_pages n collection limit context next ])

drop-add : (a b : ℕ) (l : List Listed) → drop (a + b) l ≡ drop b (drop a l)
drop-add zero b l = let e : 0 + b ≡ b = omega arith in rw e refl
drop-add (suc a) zero [] = let e : suc a + 0 ≡ suc a = omega arith in rw e refl
drop-add (suc a) (suc b) [] = let e : suc a + suc b ≡ suc (a + suc b) = omega arith in rw e refl
drop-add (suc a) b (d ∷ l) = let e : suc a + b ≡ suc (a + b) = omega arith in rw e (drop-add a b l)

drop_all : (n : ℕ) (l : List Listed) → length l ≤ n → drop n l ≡ []
drop_all zero [] h = refl
drop_all (suc n) [] h = refl
drop_all zero (d ∷ l) h = absurd (omega arith)
drop_all (suc n) (d ∷ l) h = drop_all n l (omega arith)

take_all : (n : ℕ) (l : List Listed) → length l ≤ n → take n l ≡ l
take_all zero [] h = refl
take_all (suc n) [] h = refl
take_all zero (d ∷ l) h = absurd (omega arith)
take_all (suc n) (d ∷ l) h = ap (λ x. d ∷ x) (take_all n l (omega arith))

append-nil : (l : List Listed) → l ++ [] ≡ l
append-nil [] = refl
append-nil (d ∷ l) = ap (λ x. d ∷ x) (append-nil l)

-- With pages of at least one document, and as many pages as there are documents left, asking for each
-- page after the first at the `continue` of the one before gives all the displayed documents from the
-- offset on, in order and each once.
pub all_pages-drop :
    (n : ℕ) (collection : List Listed) (limit : ℕ) (context : Option String) (offset : ℕ)
    → 1 ≤ limit
    → length (displayed context collection) ≤ n + offset
    → all_pages n collection limit context offset ≡ drop offset (displayed context collection)
unfolding all_pages paginate
all_pages-drop zero collection limit context offset h k =
    sym (drop_all offset (displayed context collection) (omega arith))
all_pages-drop (suc n) collection limit context offset h k =
    let shown = displayed context collection in
    let width : (offset + limit) - offset ≡ limit = omega arith in
    elim (Bool-cases (ltb (offset + limit) (length shown))) [
      | inl more ↦
          rw
            (
              more,
              width,
              all_pages-drop n collection limit context (offset + limit) h (omega arith),
              drop-add offset limit shown,
            )
            (take-append-drop limit (drop offset shown))
      | inr last ↦
          let short : length shown ≤ offset + limit = ground arith in
          let rest : length (drop offset shown) ≤ limit = omega (arith, length-drop offset shown) in
          rw (last, width)
            (append-nil (take limit (drop offset shown)) ∙ take_all limit (drop offset shown) rest)
    ]
