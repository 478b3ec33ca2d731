-- ===== src/Pagination.antt =====
-- Pages of documents (server/lib/pagination.ts)
mod Walk
mod Tests
use inventaire.Base.{
  ℕ, ◌+◌, ◌-◌, String, Bool, true, false, Option, none, some, List, [], ◌∷◌, ◌==◌, string_eq, ltb,
  leb, ◌||◌, includes, filter, length, take, drop, if◌then◌else◌,
}
use inventaire.Visibility.{is_visibility_group_key}

pub record Listed : Type 0 where
  pub id : String
  pub created : ℕ
  pub visibility : List String

-- `collection.sort(byCreationDate)`, which is stable
unfoldable pub insert_by_creation_date : Listed → List Listed → List Listed
insert_by_creation_date d [] = d ∷ []
insert_by_creation_date d (x ∷ l) =
    let rest = insert_by_creation_date d l in
    if leb x.created d.created then d ∷ x ∷ l else x ∷ rest

unfoldable pub sort_by_creation_date : List Listed → List Listed
sort_by_creation_date [] = []
sort_by_creation_date (d ∷ l) = insert_by_creation_date d (sort_by_creation_date l)

unfoldable pub can_be_displayed_in_context : String → Listed → Bool
can_be_displayed_in_context context d =
    if is_visibility_group_key context
    then includes d.visibility "public"
      || (includes d.visibility "groups" || includes d.visibility context)
    else true

unfoldable pub displayed : Option String → List Listed → List Listed
displayed none collection = sort_by_creation_date collection
displayed (some context) collection =
    filter (can_be_displayed_in_context context) (sort_by_creation_date collection)

pub record Page : Type 0 where
  pub page : List Listed
  pub total : ℕ
  pub offset : ℕ
  pub context : Option String
  pub continue : Option ℕ

-- collection.slice(from, to)
abbrev pub slice : ℕ → ℕ → List Listed → List Listed
slice from to l = take (to - from) (drop from l)

unfoldable pub paginate : List Listed → ℕ → ℕ → Option String → Page
paginate collection limit offset context =
    let shown = displayed context collection in
    record {
      page = slice offset (offset + limit) shown;
      total = length shown;
      offset = offset;
      context = context;
      continue = if ltb (offset + limit) (length shown) then some (offset + limit) else none;
    }
