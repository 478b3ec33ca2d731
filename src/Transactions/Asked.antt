-- ===== src/Transactions/Asked.antt =====
-- The request of an item (server/controllers/transactions/request.ts): its checks, and what it stores.
use inventaire.Base.{
  ℕ, String, Bool, false, Option, some, List, string_eq, bind_inv, ◌>>=◌, ok, length, nat_beq, ◌≡◌,
  ◌≢◌, ◌∙◌, sym, ap, subst, arith, eq_iff, inl, inr, ◌⊎◌,
}
use inventaire.Couch.{Database}
use inventaire.Items.{Item, inventorying, item_allows_transactions}
use inventaire.Visibility.{Verified, verify_right_to_interact_with_item}
use inventaire.Transactions.{Transaction, requested, UserDoc, EntitySnapshot}
use inventaire.Transactions.Documents.{create_transaction_doc}
use inventaire.Transactions.Server.{World, check_if_item_is_busy, emits_busy, last_action}
use inventaire.Transactions.Holding.{IsConsistent}
use inventaire.Transactions.Asking.{
  some_active, as_doc, verify_no_existing_transaction, verify_right_to_request, request_item,
}

-- A new transaction
pub record IsNew (now : ℕ) (id : String) (item : Item) (owner_doc requester_doc : UserDoc)
    (t : Transaction) : Type 0 where
  pub is_id : t.id ≡ id
  pub is_item : t.item ≡ item.id
  pub is_owner : t.owner ≡ owner_doc.id
  pub is_requester : t.requester ≡ requester_doc.id
  pub is_requested : t.state ≡ requested
  pub is_recorded : last_action t.actions ≡ some requested
  pub is_requestable : item.transaction ≢ inventorying

create-IsNew :
    (now : ℕ) (id : String) (item : Item) (entity : EntitySnapshot)
    (owner_doc requester_doc : UserDoc) (t : Transaction)
    → create_transaction_doc now id item entity owner_doc requester_doc ≡ ok t
    → IsNew now id item owner_doc requester_doc t
unfolding create_transaction_doc item_allows_transactions
create-IsNew now id item entity owner_doc requester_doc t h =
    let (a, b, c, d, e, f, g) : (t.id ≡ id)
        × (t.item ≡ item.id)
        × (t.owner ≡ owner_doc.id)
        × (t.requester ≡ requester_doc.id)
        × (t.state ≡ requested)
        × (last_action t.actions ≡ some requested)
        × (item.transaction ≢ inventorying) =
      ground arith in
    record {
      is_id = a;
      is_item = b;
      is_owner = c;
      is_requester = d;
      is_requested = e;
      is_recorded = f;
      is_requestable = g;
    }

module _ (tdb : Database Transaction) (idb : Database Item) where
  -- What the checks have found.
  pub record Checked (user : String) (item : Item) (s : tdb.Store) : Type 0 where
    pub not_busy : check_if_item_is_busy tdb idb item.id s ≡ false
    pub not_owner : item.owner ≢ user
    pub has_keys : nat_beq (length item.visibility) 0 ≡ false
    pub none_active : some_active user item.id (tdb.all_docs s) ≡ ok false

  others_visible :
      (user : String) (item : Item) (friends : Bool) (shared : List String) (v : Verified)
      → verify_right_to_interact_with_item user (as_doc item) false friends shared ≡ ok v
      → (item.owner ≢ user) × (nat_beq (length item.visibility) 0 ≡ false)
  unfolding verify_right_to_interact_with_item
  others_visible user item friends shared v h = ground (arith, eq_iff item.owner user)

  none_active_of :
      (user item : String) (s : tdb.Store)
      → verify_no_existing_transaction tdb idb user item s ≡ ok tt
      → some_active user item (tdb.all_docs s) ≡ ok false
  unfolding verify_no_existing_transaction
  none_active_of user item s h = ground arith

  verify-Checked :
      (user : String) (item : Item) (friends : Bool) (shared : List String) (s : tdb.Store)
      → verify_right_to_request tdb idb user item friends shared s ≡ ok tt
      → Checked user item s
  unfolding verify_right_to_request
  verify-Checked user item friends shared s h =
      let (busy, rest) : (check_if_item_is_busy tdb idb item.id s ≡ false)
          × (verify_right_to_interact_with_item user (as_doc item) false friends shared
                >>= (λ verified. verify_no_existing_transaction tdb idb user item.id s)
              ≡ ok tt) =
        ground arith in
      let (v, verified, free) =
        bind_inv (verify_right_to_interact_with_item user (as_doc item) false friends shared)
          (λ verified. verify_no_existing_transaction tdb idb user item.id s) tt rest in
      let active = none_active_of user item.id s free in
      let (other, keys) = others_visible user item friends shared v verified in
      record { not_busy = busy; not_owner = other; has_keys = keys; none_active = active }

  -- An accepted request
  pub record Requested (now : ℕ) (id item_id user : String) (users : String → Option UserDoc)
      (w w' : World tdb idb) : Type 0 where
    pub item : Item
    pub owner_doc : UserDoc
    pub requester_doc : UserDoc
    pub t : Transaction
    pub stored : idb.get w.items item_id ≡ some item
    pub owner_found : users item.owner ≡ some owner_doc
    pub requester_found : users user ≡ some requester_doc
    pub checked : Checked user item w.transactions
    pub new : IsNew now id item owner_doc requester_doc t
    pub transactions : w'.transactions ≡ tdb.put w.transactions id t
    pub items : w'.items ≡ w.items

  -- An accepted request of an item finds it stored, not busy, with some visibility key, of another
  -- user and no mere inventory item; the user has no active transaction on it. It stores, at the given
  -- id, a new requested transaction of the item's owner and the user, and changes no item.
  pub request_item-Requested :
      (now : ℕ) (id item_id user : String) (entity : EntitySnapshot)
      (users : String → Option UserDoc) (friends : Bool) (shared : List String)
      (w w' : World tdb idb)
      → request_item tdb idb now id item_id user entity users friends shared w ≡ ok w'
      → Requested now id item_id user users w w'
  unfolding request_item
  request_item-Requested now id item_id user entity users friends shared w w' h =
      let (item, owner_doc, requester_doc, t, stored, valid, o, r, made, ts, is) : (item : Item)
          × (owner_doc : UserDoc) × (requester_doc : UserDoc) × (t : Transaction) × (idb.get w.items
                item_id
              ≡ some item)
          × (verify_right_to_request tdb idb user item friends shared w.transactions ≡ ok tt)
          × (users item.owner ≡ some owner_doc)
          × (users user ≡ some requester_doc)
          × (create_transaction_doc now id item entity owner_doc requester_doc ≡ ok t)
          × (w'.transactions ≡ tdb.put w.transactions id t)
          × (w'.items ≡ w.items) =
        ground arith in
      record {
        item = item;
        owner_doc = owner_doc;
        requester_doc = requester_doc;
        t = t;
        stored = stored;
        owner_found = o;
        requester_found = r;
        checked = verify-Checked user item friends shared w.transactions valid;
        new = create-IsNew now id item entity owner_doc requester_doc t made;
        transactions = ts;
        items = is;
      }

  requested_free :
      (t : Transaction) → last_action t.actions ≡ some requested → emits_busy t.item t ≡ false
  unfolding emits_busy
  requested_free t h = rw h (ground arith)

  -- An accepted request of an item keeps the
  -- stored transactions consistent.
  request_item-IsConsistent :
      (now : ℕ) (id item_id user : String) (entity : EntitySnapshot)
      (users : String → Option UserDoc) (friends : Bool) (shared : List String)
      (w w' : World tdb idb)
      → request_item tdb idb now id item_id user entity users friends shared w ≡ ok w'
      → IsConsistent tdb idb w.transactions
      → IsConsistent tdb idb w'.transactions
  request_item-IsConsistent now id item_id user entity users friends shared w w' h c =
      let r = request_item-Requested now id item_id user entity users friends shared w w' h in
      let get-after : (j : String) (t : Transaction)
          → tdb.get w'.transactions j ≡ some t
          → ((j ≡ id) × (t ≡ r.t)) ⊎ (tdb.get w.transactions j ≡ some t) =
        λ j t g. ground (arith, r.transactions, tdb.get-put w.transactions id j r.t, eq_iff id j) in
      let new_free : (t : Transaction) → t ≡ r.t → emits_busy t.item t ≡ false = λ t same.
        subst (λ x. emits_busy x.item x ≡ false) (sym same)
          (requested_free r.t r.new.is_recorded) in
      record {
        keyed = λ j t g. elim (get-after j t g) [
          | inl (e, same) ↦ cc (same, e, r.new.is_id)
          | inr old ↦ c.keyed j t old
        ];
        recorded = λ j t g. elim (get-after j t g) [
          | inl (e, same) ↦ rw same (r.new.is_recorded ∙ ap some (sym r.new.is_requested))
          | inr old ↦ c.recorded j t old
        ];
        lent = λ j t g s. elim (get-after j t g) [
          | inl (e, same) ↦ absurd (cc (same, r.new.is_requested, s))
          | inr old ↦ c.lent j t old s
        ];
        single = λ i j t u hi hj ht hu e. elim (get-after i t hi) [
          | inl (_, same) ↦ absurd (cc (new_free t same, ht))
          | inr gi ↦ elim (get-after j u hj) [
            | inl (_, same) ↦ absurd (cc (new_free u same, hu))
            | inr gj ↦ c.single i j t u gi gj ht hu e
          ]
        ];
      }
