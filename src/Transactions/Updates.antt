-- ===== src/Transactions/Updates.antt =====
-- What an accepted request to update a transaction has established, and what it leaves behind.
use inventaire.Base.{
  ℕ, String, ◌≡◌, ◌↔◌, ◌⊎◌, refl, true, false, arith, ok, some, Option, List, [], ◌∷◌, ◌++◌,
  string_eq, eq_iff,
}
use inventaire.Couch.{Database}
use inventaire.Items.{Mode, lending, Item}
use inventaire.Transactions.{
  State, Role, returned, accepted, Actor, by_requester, by_owner, by_both, Action, Transaction,
  ReadStates, is_next, actor_of, validate_transaction_possible_state,
}
use inventaire.Transactions.Documents.{actor_of_action, state_updater, update_read_states}
use inventaire.Transactions.Server.{
  World, found, last_action, validate_rights, check_if_item_is_busy,
  check_for_concurrent_transactions, apply_side_effects, update_transaction_state, update_state,
}

-- The user whom the state's `actor` names.
abbrev pub Permitted : Actor → String → Transaction → Type 0
Permitted by_requester user t = user ≡ t.requester
Permitted by_owner user t = user ≡ t.owner
Permitted by_both user t = (user ≡ t.owner) ⊎ (user ≡ t.requester)

pub validate_rights_iff :
    (t : Transaction) (actor : Actor) (user : String)
    → (validate_rights t actor user ≡ ok tt) ↔ Permitted actor user t
unfolding validate_rights
validate_rights_iff t by_requester user = ground (arith, eq_iff user t.requester)
validate_rights_iff t by_owner user = ground (arith, eq_iff user t.owner)
validate_rights_iff t by_both user = ground (arith, eq_iff user t.requester, eq_iff user t.owner)

last_action-append : (l : List Action) (a : Action) → last_action (l ++ a ∷ []) ≡ some a.action
last_action-append [] a = refl
last_action-append (b ∷ []) a = refl
last_action-append (b ∷ c ∷ l) a = last_action-append (c ∷ l) a

found-eq-ok {ℓ} : {A : Type ℓ} (o : Option A) {a : A} → found o ≡ ok a → o ≡ some a
found-eq-ok o h = ground arith

-- What stateUpdater does to the stored document.
pub record Moved (doc : Transaction) (new_state : State) (doc' : Transaction) : Type 0 where
  pub state : doc'.state ≡ new_state
  pub last : last_action doc'.actions ≡ some new_state
  pub id : doc'.id ≡ doc.id
  pub item : doc'.item ≡ doc.item
  pub transaction : doc'.transaction ≡ doc.transaction
  pub owner : doc'.owner ≡ doc.owner
  pub requester : doc'.requester ≡ doc.requester

state_updater_inv :
    (now : ℕ) (new_state : State) (user : String) (t : Transaction) (r : ReadStates)
    (doc doc' : Transaction)
    → state_updater now new_state user t r doc ≡ ok doc'
    → (actor : Option Role) × (actor_of_action new_state user t ≡ ok actor)
      × (doc' ≡ record doc {
        state = new_state;
        actions = doc.actions ++ record { action = new_state; timestamp = now; actor = actor } ∷ [];
        read = r;
      })
unfolding state_updater
state_updater_inv now new_state user t r doc doc' h = ground arith

state_updater-Moved :
    (now : ℕ) (new_state : State) (user : String) (t : Transaction) (r : ReadStates)
    (doc doc' : Transaction)
    → state_updater now new_state user t r doc ≡ ok doc'
    → Moved doc new_state doc'
state_updater-Moved now new_state user t r doc doc' h =
    let (actor, _, e) = state_updater_inv now new_state user t r doc doc' h in
    rw e (record {
      state = refl;
      last = last_action-append doc.actions _;
      id = refl;
      item = refl;
      transaction = refl;
      owner = refl;
      requester = refl;
    })

validate_inv :
    (mode : Mode) (state new_state : State)
    → validate_transaction_possible_state mode state new_state ≡ ok tt
    → (is_next state new_state ≡ true) × (new_state ≡ returned → mode ≡ lending)
unfolding validate_transaction_possible_state
validate_inv mode state new_state h = (ground arith, λ e. ground arith)

module _ (tdb : Database Transaction) (idb : Database Item) where
  pub record Updated (now : ℕ) (id : String) (new_state : State) (user : String)
      (w w' : World tdb idb) : Type 0 where
    pub before : Transaction
    pub stored : tdb.get w.transactions id ≡ some before
    pub permitted : Permitted (actor_of new_state) user before
    pub next : is_next before.state new_state ≡ true
    pub lent : new_state ≡ returned → before.transaction ≡ lending
    pub free :
        new_state ≡ accepted → check_if_item_is_busy tdb idb before.item w.transactions ≡ false
    pub doc : Transaction
    pub found_doc : tdb.get w.transactions before.id ≡ some doc
    pub after : Transaction
    pub moved : Moved doc new_state after
    pub transactions : w'.transactions ≡ tdb.put w.transactions before.id after
    pub items : w'.items ≡ apply_side_effects tdb idb now before new_state w.items

  update_transaction_state_inv :
      (now : ℕ) (t : Transaction) (new_state : State) (user : String) (w w' : World tdb idb)
      → update_transaction_state tdb idb now t new_state user w ≡ ok w'
      → (read : ReadStates) × (doc : Transaction) × (after : Transaction)
        × (validate_transaction_possible_state t.transaction t.state new_state ≡ ok tt)
        × (update_read_states user t ≡ ok read)
        × (tdb.get w.transactions t.id ≡ some doc)
        × (state_updater now new_state user t read doc ≡ ok after)
        × (w'.transactions ≡ tdb.put w.transactions t.id after)
        × (w'.items ≡ apply_side_effects tdb idb now t new_state w.items)
  unfolding update_transaction_state
  update_transaction_state_inv now t new_state user w w' h = ground arith

  update_state_inv :
      (now : ℕ) (id : String) (new_state : State) (user : String) (w w' : World tdb idb)
      → update_state tdb idb now id new_state user w ≡ ok w'
      → (t : Transaction) × (tdb.get w.transactions id ≡ some t)
        × (validate_rights t (actor_of new_state) user ≡ ok tt)
        × (check_for_concurrent_transactions tdb idb t new_state w.transactions ≡ ok tt)
        × (update_transaction_state tdb idb now t new_state user w ≡ ok w')
  unfolding update_state
  update_state_inv now id new_state user w w' h = ground arith

  check_for_concurrent_inv :
      (t : Transaction) (new_state : State) (s : tdb.Store)
      → check_for_concurrent_transactions tdb idb t new_state s ≡ ok tt
      → new_state ≡ accepted
      → check_if_item_is_busy tdb idb t.item s ≡ false
  unfolding check_for_concurrent_transactions
  check_for_concurrent_inv t new_state s h e = ground arith

  pub update_state-Updated :
      (now : ℕ) (id : String) (new_state : State) (user : String) (w w' : World tdb idb)
      → update_state tdb idb now id new_state user w ≡ ok w'
      → Updated now id new_state user w w'
  update_state-Updated now id new_state user w w' h =
      let (t, stored, rights, free, h') = update_state_inv now id new_state user w w' h in
      let (read, doc, after, valid, _, found_doc, updated, transactions, items) =
        update_transaction_state_inv now t new_state user w w' h' in
      record {
        before = t;
        stored = stored;
        permitted = (validate_rights_iff t (actor_of new_state) user).0 rights;
        next = (validate_inv t.transaction t.state new_state valid).0;
        lent = (validate_inv t.transaction t.state new_state valid).1;
        free = check_for_concurrent_inv t new_state w.transactions free;
        doc = doc;
        found_doc = found_doc;
        after = after;
        moved = state_updater-Moved now new_state user t read doc after updated;
        transactions = transactions;
        items = items;
      }
