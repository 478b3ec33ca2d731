-- ===== src/Shelves/Owned.antt =====
-- What an accepted request on the items of shelves does (server/controllers/shelves/lib/shelves.ts).
use inventaire.Base.{
  ℕ, String, Bool, true, false, not, Option, none, some, List, [], ◌∷◌, ◌==◌, string_eq, ◌≡◌, refl,
  arith, eq_iff, ◌&&◌, ◌||◌, ◌∙◌, ap, sym, map, includes, if◌then◌else◌, ok, Bool-cases,
  Option-cases, ◌⊎◌, inl, inr, seq_inv,
}
use inventaire.Couch.{Database}
use inventaire.Items.{Item}
use inventaire.Shelves.{
  Shelf, ShelvesAction, by_ids, validate_ownership, with_shelves, bulk, update_items_shelves,
  update_shelves_items,
}
use inventaire.Shelves.Lists.{adds, includes-action_function}

module _ {Doc : Type 0} where
  -- A document that is there is the user's.
  abbrev pub is_of : (Doc → String) → String → Option Doc → Bool
  is_of owner user none = true
  is_of owner user (some d) = owner d == user

  by_ids-cons :
      (get : String → Option Doc) (id : String) (ids : List String) (d : Doc)
      → get id ≡ some d
      → by_ids get (id ∷ ids) ≡ d ∷ by_ids get ids
  unfolding by_ids
  by_ids-cons get id ids d e = ground arith

  by_ids-skip :
      (get : String → Option Doc) (id : String) (ids : List String)
      → get id ≡ none
      → by_ids get (id ∷ ids) ≡ by_ids get ids
  unfolding by_ids
  by_ids-skip get id ids e = ground arith

  validate_ownership_inv :
      (owner : Doc → String) (status : ℕ) (user : String) (d : Doc) (docs : List Doc)
      → validate_ownership owner status user (d ∷ docs) ≡ ok tt
      → ((owner d == user) ≡ true) × (validate_ownership owner status user docs ≡ ok tt)
  unfolding validate_ownership
  validate_ownership_inv owner status user d docs h = elim (Bool-cases (owner d == user)) [
    | inl e ↦ (e, ground arith)
    | inr e ↦ absurd (ground arith)
  ]

  -- Each document that is there at one of the ids is the user's.
  owned :
      (owner : Doc → String) (status : ℕ) (user : String) (get : String → Option Doc)
      (ids : List String) (id : String)
      → validate_ownership owner status user (by_ids get ids) ≡ ok tt
      → (not (includes ids id) || is_of owner user (get id)) ≡ true
  unfolding includes
  owned owner status user get [] id h = refl
  owned owner status user get (j ∷ ids) id h = elim (Option-cases (get j)) [
    | inl e ↦
        let h' = ap (validate_ownership owner status user) (sym (by_ids-skip get j ids e)) ∙ h in
        let others = owned owner status user get ids id h' in
        let mine : is_of owner user (get j) ≡ true = rw e refl in ground (arith, eq_iff j id)
    | inr (d, e) ↦
        let (is_mine, h') =
          validate_ownership_inv owner status user d (by_ids get ids)
            (ap (validate_ownership owner status user) (sym (by_ids-cons get j ids d e)) ∙ h) in
        let others = owned owner status user get ids id h' in
        let mine : is_of owner user (get j) ≡ true = rw e is_mine in ground (arith, eq_iff j id)
  ]

abbrev moved : ShelvesAction → List String → Option Item → Option Item
moved action shelves_ids none = none
moved action shelves_ids (some item) = some (with_shelves action shelves_ids item)

-- Whether an item that may be there is on a shelf, and the item without its shelves
abbrev pub is_on : String → Option Item → Bool
is_on shelf none = false
is_on shelf (some item) = includes item.shelves shelf

abbrev pub is_there : Option Item → Bool
is_there none = false
is_there (some _) = true

abbrev pub off_shelves : Option Item → Option Item
off_shelves none = none
off_shelves (some item) = some (record item { shelves = [] })

is_on-moved :
    (action : ShelvesAction) (shelves_ids items_ids : List String) (o o' : Option Item)
    (id shelf : String)
    → o' ≡ (if includes items_ids id then moved action shelves_ids o else o)
    → is_on shelf o' ≡ (
        if is_there o && (includes items_ids id && includes shelves_ids shelf)
        then adds action
        else is_on shelf o)
unfolding with_shelves
is_on-moved action shelves_ids items_ids none o' id shelf e = ground arith
is_on-moved action shelves_ids items_ids (some item) o' id shelf e =
    ground (arith, includes-action_function action item.shelves shelves_ids shelf)

off_shelves-moved :
    (action : ShelvesAction) (shelves_ids : List String) (o o' : Option Item) (listed : Bool)
    → o' ≡ (if listed then moved action shelves_ids o else o)
    → off_shelves o' ≡ off_shelves o
unfolding with_shelves
off_shelves-moved action shelves_ids none o' true e = ap off_shelves e
off_shelves-moved action shelves_ids none o' false e = ap off_shelves e
off_shelves-moved action shelves_ids (some item) o' true e = ap off_shelves e
off_shelves-moved action shelves_ids (some item) o' false e = ap off_shelves e

-- An item that is not there stays so, listed or not.
missing :
    (action : ShelvesAction) (shelves_ids : List String) (o p : Option Item) (same listed : Bool)
    → (same ≡ true → o ≡ none)
    → (p ≡ moved action shelves_ids o) ⊎ (p ≡ o)
    → (if listed then moved action shelves_ids o else p)
      ≡ (if same || listed then moved action shelves_ids o else p)
missing action shelves_ids o p same true e at = ground arith
missing action shelves_ids o p false false e at = refl
missing action shelves_ids o p true false e (inl h) = h
missing action shelves_ids o p true false e (inr h) =
    h ∙ e refl ∙ sym (ap (moved action shelves_ids) (e refl))

either :
    (same : Bool) (m o p p' : Option Item)
    → p' ≡ (if same then m else p)
    → (p ≡ m) ⊎ (p ≡ o)
    → (p' ≡ m) ⊎ (p' ≡ o)
either true m o p p' e at = inl e
either false m o p p' e (inl h) = inl (e ∙ h)
either false m o p p' e (inr h) = inr (e ∙ h)

module _ (items : Database Item) where
  open items use {get, put}

  -- Each item is stored at its id.
  pub record AreStored (s : items.Store) : Type 0 where
    pub at_id : (id : String) (item : Item) → get s id ≡ some item → item.id ≡ id

  get-bulk :
      (action : ShelvesAction) (shelves_ids : List String) (s : items.Store)
      → AreStored s
      → (ids : List String) (t : items.Store) (id : String)
      → (get t id ≡ moved action shelves_ids (get s id)) ⊎ (get t id ≡ get s id)
      → get (bulk items (map (with_shelves action shelves_ids) (by_ids (get s) ids)) t) id
        ≡ (if includes ids id then moved action shelves_ids (get s id) else get t id)
  unfolding bulk includes with_shelves by_ids
  get-bulk action shelves_ids s stored [] t id at = refl
  get-bulk action shelves_ids s stored (j ∷ ids) t id at = elim (Option-cases (get s j)) [
    | inl e ↦
        let skipped = get-bulk action shelves_ids s stored ids t id at in
        ap (λ docs. get (bulk items (map (with_shelves action shelves_ids) docs) t) id)
          (by_ids-skip (get s) j ids e)
        ∙ skipped
        ∙ missing action shelves_ids (get s id) (get t id) (j == id) (includes ids id)
            (λ same. ap (get s) (sym ((eq_iff j id).0 same)) ∙ e) at
    | inr (d, e) ↦
        let item = with_shelves action shelves_ids d in
        let t' = put t item.id item in
        let stored_at : get t' id
            ≡ (if j == id then moved action shelves_ids (get s id) else get t id) =
          ground (
            arith,
            items.get-put t item.id id item,
            stored.at_id j d e,
            eq_iff j id,
            eq_iff item.id id,
          ) in
        ap (λ docs. get (bulk items (map (with_shelves action shelves_ids) docs) t) id)
          (by_ids-cons (get s) j ids d e)
        ∙ get-bulk action shelves_ids s stored ids t' id (
            either (j == id) (moved action shelves_ids (get s id)) (get s id) (get t id) (get t' id)
              stored_at at)
        ∙ ground (arith, stored_at)
  ]

  -- After an accepted request to add items to shelves or to take them off, by a user, in a database
  -- whose items are stored at their ids: each of the items and of the shelves of the request
  -- that are there is the user's; an item that is there is on a shelf, where both are among those of the request, whether or not
  -- there is such a shelf, exactly if the request adds, and otherwise exactly if it was there before;
  -- nothing else of any item changes.
  pub update_shelves_items-places :
      (shelves : Database Shelf) (at : shelves.Store) (action : ShelvesAction)
      (shelves_ids : List String) (user : String) (items_ids : List String) (s s' : items.Store)
      (id shelf : String)
      → AreStored s
      → update_shelves_items items shelves at action shelves_ids user items_ids s ≡ ok s'
      → ((not (includes items_ids id) || is_of (λ (i : Item). i.owner) user (get s id)) ≡ true)
        × ((not (includes shelves_ids shelf)
              || is_of (λ (h : Shelf). h.owner) user (shelves.get at shelf))
            ≡ true)
        × (is_on shelf (get s' id) ≡ (
            if is_there (get s id) && (includes items_ids id && includes shelves_ids shelf)
            then adds action
            else is_on shelf (get s id)))
        × (off_shelves (get s' id) ≡ off_shelves (get s id))
  unfolding update_shelves_items update_items_shelves
  update_shelves_items-places shelves at action shelves_ids user items_ids s s' id shelf stored h =
      let owner = λ (i : Item). i.owner in
      let shelf_owner = λ (h : Shelf). h.owner in
      let (e, rest) =
        seq_inv (validate_ownership shelf_owner 403 user (by_ids (shelves.get at) shelves_ids)) _ s'
          h in
      let (e', last) =
        seq_inv (validate_ownership owner 400 user (by_ids (get s) items_ids)) _ s' rest in
      let final : bulk items (map (with_shelves action shelves_ids) (by_ids (get s) items_ids)) s
          ≡ s' =
        ground arith in
      let result =
        sym (ap (λ (u : items.Store). get u id) final)
        ∙ get-bulk action shelves_ids s stored items_ids s id (inr refl) in
      (
        owned owner 400 user (get s) items_ids id e',
        owned shelf_owner 403 user (shelves.get at) shelves_ids shelf e,
        is_on-moved action shelves_ids items_ids (get s id) (get s' id) id shelf result,
        off_shelves-moved action shelves_ids (get s id) (get s' id) (includes items_ids id) result,
      )
