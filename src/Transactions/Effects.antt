-- ===== src/Transactions/Effects.antt =====
-- When a request to update a transaction succeeds, and what it does to the item.
use inventaire.Base.{
  ℕ, String, ◌≡◌, ◌∙◌, ap, ◌≢◌, ◌⊎◌, refl, false, arith, ok, err, some, none, Option, ◌==◌,
  string_eq, eq_iff, if◌then◌else◌, inl, inr, http, Bool-cases, ◌++◌, ◌∷◌, [],
}
use inventaire.Couch.{Database}
use inventaire.Items.{lending, inventorying, Item, change_item_doc_owner}
use inventaire.Transactions.{
  State, requested, accepted, confirmed, cancelled, Transaction, Role, owner, requester, Actor,
  by_requester, by_owner, by_both, actor_of, validate_transaction_possible_state,
  transaction_is_one_way,
}
use inventaire.Transactions.Documents.{
  read_by, state_updater, update_read_states, actor_of_action, user_role,
}
use inventaire.Transactions.Server.{
  World, check_if_item_is_busy, check_for_concurrent_transactions, apply_side_effects,
  update_transaction_state, update_state, change_item_owner,
}
use inventaire.Transactions.Updates.{Permitted, validate_rights_iff, update_state-Updated}

-- Every user whom some state's actor names has a role.
user_role_of_Permitted :
    (t : Transaction) (actor : Actor) (user : String)
    → Permitted actor user t
    → (role : Role) × (user_role user t ≡ ok role)
unfolding user_role
user_role_of_Permitted t actor user h = elim (Bool-cases (user == t.owner)) [
  | inl e ↦ (owner, ground arith)
  | inr e ↦ (requester, role_of_requester actor h e)
]
  where
    role_of_requester :
        (a : Actor)
        → Permitted a user t
        → (user == t.owner) ≡ false
        → (if user == t.owner
            then ok owner
            else if user == t.requester
            then ok requester
            else err (http "no role found" 500))
          ≡ ok requester
    role_of_requester by_requester p q =
        ground (arith, eq_iff user t.owner, eq_iff user t.requester)
    role_of_requester by_owner p q = ground (arith, eq_iff user t.owner, eq_iff user t.requester)
    role_of_requester by_both p q = ground (arith, eq_iff user t.owner, eq_iff user t.requester)

actor_of_action_total :
    (new_state : State) (t : Transaction) (user : String) (role : Role)
    → user_role user t ≡ ok role
    → (a : Option Role) × (actor_of_action new_state user t ≡ ok a)
unfolding actor_of_action
actor_of_action_total cancelled t user role h = (some role, ground arith)
actor_of_action_total requested t user role h = (none, refl)
actor_of_action_total _ t user role h = (none, refl)

-- The item as it is handed over to the requester: the private and descriptive attributes are reset,
-- and the history has one more event.
abbrev pub handed_over : ℕ → Transaction → Item → Item
handed_over now t item = record item {
  owner = t.requester;
  transaction = inventorying;
  visibility = [];
  shelves = [];
  details = none;
  notes = none;
  updated = some now;
  history =
      item.history ++ record { transaction = t.id; previous_owner = t.owner; timestamp = now } ∷ [];
}

module _ (tdb : Database Transaction) (idb : Database Item) where
  check_for_concurrent_total :
      (t : Transaction) (new_state : State) (s : tdb.Store)
      → (new_state ≡ accepted → check_if_item_is_busy tdb idb t.item s ≡ false)
      → check_for_concurrent_transactions tdb idb t new_state s ≡ ok tt
  unfolding check_for_concurrent_transactions
  check_for_concurrent_total t accepted s free = rw (free refl)
  check_for_concurrent_total t requested s free = refl
  check_for_concurrent_total t _ s free = refl

  update_transaction_state_total :
      (now : ℕ) (t doc : Transaction) (new_state : State) (user : String) (w : World tdb idb)
      (role : Role)
      → user_role user t ≡ ok role
      → validate_transaction_possible_state t.transaction t.state new_state ≡ ok tt
      → tdb.get w.transactions t.id ≡ some doc
      → (w' : World tdb idb) × (update_transaction_state tdb idb now t new_state user w ≡ ok w')
  unfolding update_transaction_state update_read_states state_updater
  update_transaction_state_total now t doc new_state user w role has_role valid stored =
      let (actor, has_actor) = actor_of_action_total new_state t user role has_role in
      let doc' : Transaction = record doc {
        state = new_state;
        actions = doc.actions ++ record { action = new_state; timestamp = now; actor = actor } ∷ [];
        read = read_by role;
      } in
      let w' : World tdb idb = record {
        transactions = tdb.put w.transactions t.id doc';
        items = apply_side_effects tdb idb now t new_state w.items;
      } in
      (w', ground arith)

  -- A request by the user that the new state's actor names, for a state that may follow, on a stored
  -- transaction, is accepted, if the item is free where the new state is `accepted`.
  pub update_state_total :
      (now : ℕ) (id : String) (new_state : State) (user : String) (w : World tdb idb)
      (t : Transaction)
      → tdb.get w.transactions id ≡ some t
      → t.id ≡ id
      → Permitted (actor_of new_state) user t
      → validate_transaction_possible_state t.transaction t.state new_state ≡ ok tt
      → (new_state ≡ accepted → check_if_item_is_busy tdb idb t.item w.transactions ≡ false)
      → (w' : World tdb idb) × (update_state tdb idb now id new_state user w ≡ ok w')
  unfolding update_state
  update_state_total now id new_state user w t stored own p valid free =
      let (role, has_role) = user_role_of_Permitted t (actor_of new_state) user p in
      let (w', done) =
        update_transaction_state_total now t t new_state user w role has_role valid
          (ap (tdb.get w.transactions) own ∙ stored) in
      (
        w',
        ground (
          arith,
          stored,
          (validate_rights_iff t (actor_of new_state) user).1 p,
          check_for_concurrent_total t new_state w.transactions free,
          done,
        ),
      )

  apply_side_effects_confirmed :
      (now : ℕ) (t : Transaction) (item : Item) (s : idb.Store)
      → t.transaction ≢ lending
      → t.transaction ≢ inventorying
      → idb.get s t.item ≡ some item
      → item.owner ≡ t.owner
      → apply_side_effects tdb idb now t confirmed s ≡ idb.put s t.item (handed_over now t item)
  unfolding apply_side_effects change_item_owner change_item_doc_owner transaction_is_one_way
  apply_side_effects_confirmed now t item s h k g e = ground (arith, eq_iff item.owner t.owner)

  apply_side_effects_other :
      (now : ℕ) (t : Transaction) (new_state : State) (s : idb.Store)
      → (new_state ≢ confirmed) ⊎ (t.transaction ≡ lending)
      → apply_side_effects tdb idb now t new_state s ≡ s
  unfolding apply_side_effects transaction_is_one_way
  apply_side_effects_other now t new_state s h = ground arith

  -- A confirmed giving or sale hands the item over to the requester, if it is still the owner's, and
  -- touches no other item.
  pub update_state-handed_over :
      (now : ℕ) (id : String) (user : String) (w w' : World tdb idb) (t : Transaction) (item : Item)
      → update_state tdb idb now id confirmed user w ≡ ok w'
      → tdb.get w.transactions id ≡ some t
      → t.transaction ≢ lending
      → t.transaction ≢ inventorying
      → idb.get w.items t.item ≡ some item
      → item.owner ≡ t.owner
      → (j : String)
      → idb.get w'.items j
        ≡ (if t.item == j then some (handed_over now t item) else idb.get w.items j)
  update_state-handed_over now id user w w' t item h stored k l g e j =
      let u = update_state-Updated tdb idb now id confirmed user w w' h in
      let same : u.before ≡ t = cc (u.stored, stored) in
      ap (λ s. idb.get s j)
        (u.items
          ∙ ap (λ x. apply_side_effects tdb idb now x confirmed w.items) same
          ∙ apply_side_effects_confirmed now t item w.items k l g e)
      ∙ idb.get-put w.items t.item j (handed_over now t item)

  -- Any other update of a transaction changes no item.
  update_state-items_kept :
      (now : ℕ) (id : String) (new_state : State) (user : String) (w w' : World tdb idb)
      (t : Transaction)
      → update_state tdb idb now id new_state user w ≡ ok w'
      → tdb.get w.transactions id ≡ some t
      → (new_state ≢ confirmed) ⊎ (t.transaction ≡ lending)
      → w'.items ≡ w.items
  update_state-items_kept now id new_state user w w' t h stored k =
      let u = update_state-Updated tdb idb now id new_state user w w' h in
      let same : u.before ≡ t = cc (u.stored, stored) in
      u.items
      ∙ ap (λ x. apply_side_effects tdb idb now x new_state w.items) same
      ∙ apply_side_effects_other now t new_state w.items k
