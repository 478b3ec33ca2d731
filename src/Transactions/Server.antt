-- ===== src/Transactions/Server.antt =====
-- The transaction requests (server/controllers/transactions/update_state.ts and the lib/ beside
-- it: transactions.ts, rights_verification.ts, side_effects.ts; the view byBusyItem of
-- server/db/couchdb/design_docs/transactions.ts). A request is one function on the two databases.
use inventaire.Base.{
  ℕ, String, Bool, true, false, not, Option, none, some, List, [], ◌∷◌, any, ◌==◌, string_eq,
  if◌then◌else◌, ◌&&◌, ◌||◌, Outcome, ok, err, failed, require, ◌>>=◌, ◌>>◌,
}
use inventaire.Couch.{Database}
use inventaire.Items.{Mode, lending, Item, change_item_doc_owner}
use inventaire.Transactions.{
  State, accepted, confirmed, Actor, by_requester, by_owner, by_both, Action, Transaction,
  state_beq, actor_of, validate_transaction_possible_state, transaction_is_one_way,
}
use inventaire.Transactions.Documents.{update_read_states, state_updater, user_role, mark_read}

abbrev pub last_action : List Action → Option State
last_action [] = none
last_action (a ∷ []) = some a.action
last_action (a ∷ b ∷ rest) = last_action (b ∷ rest)

abbrev pub busy_action : Mode → Option State → Bool
busy_action mode (some accepted) = true
busy_action lending (some confirmed) = true
busy_action mode _ = false

-- The map function of the view byBusyItem emits `item` for the document.
unfoldable pub emits_busy : String → Transaction → Bool
emits_busy item t = t.item == item && busy_action t.transaction (last_action t.actions)

-- validateRights, with verifyIsRequester, verifyIsOwner and verifyRightToInteractWithTransaction
unfoldable pub validate_rights : Transaction → Actor → String → Outcome (Unit {0})
validate_rights t by_requester user_id = require (user_id == t.requester) "wrong user" 403
validate_rights t by_owner user_id = require (user_id == t.owner) "wrong user" 403
validate_rights t by_both user_id =
    require (user_id == t.owner || user_id == t.requester) "wrong user" 403

pub record World (tdb : Database Transaction) (idb : Database Item) : Type 0 where
  pub transactions : tdb.Store
  pub items : idb.Store

abbrev pub found {ℓ} : {A : Type ℓ} → Option A → Outcome A
found none = err failed
found (some a) = ok a

module _ (tdb : Database Transaction) (idb : Database Item) where
  -- checkIfItemIsBusy
  unfoldable pub check_if_item_is_busy : String → tdb.Store → Bool
  check_if_item_is_busy item s = any (emits_busy item) (tdb.all_docs s)

  -- changeItemOwner; an error is logged and the items stay as they are.
  abbrev saved : idb.Store → String → Outcome Item → idb.Store
  saved s id (ok item) = idb.put s id item
  saved s id (err e) = s

  abbrev change_item_owner_of : ℕ → Transaction → idb.Store → Option Item → idb.Store
  change_item_owner_of now t s none = s
  change_item_owner_of now t s (some item) =
      saved s t.item (change_item_doc_owner now t.id t.owner t.requester item)

  unfoldable pub change_item_owner : ℕ → Transaction → idb.Store → idb.Store
  change_item_owner now t s = change_item_owner_of now t s (idb.get s t.item)

  -- applySideEffects, the listener of transaction:update
  unfoldable pub apply_side_effects : ℕ → Transaction → State → idb.Store → idb.Store
  apply_side_effects now t confirmed s =
      if transaction_is_one_way t.transaction then change_item_owner now t s else s
  apply_side_effects now t _ s = s

  -- checkForConcurrentTransactions
  unfoldable pub check_for_concurrent_transactions :
      Transaction → State → tdb.Store → Outcome (Unit {0})
  check_for_concurrent_transactions t requested_state s =
      if state_beq requested_state accepted
      then require (not (check_if_item_is_busy t.item s)) "item already busy" 403
      else ok tt

  -- updateTransactionState
  unfoldable pub update_transaction_state :
      ℕ → Transaction → State → String → World tdb idb → Outcome (World tdb idb)
  update_transaction_state now t new_state user_id w = do
    validate_transaction_possible_state t.transaction t.state new_state
    read ← update_read_states user_id t
    doc ← found (tdb.get w.transactions t.id)
    updated ← state_updater now new_state user_id t read doc
    ok (record {
      transactions = tdb.put w.transactions t.id updated;
      items = apply_side_effects now t new_state w.items;
    })

  -- updateState: the request of `user_id` to put a transaction in a new state
  unfoldable pub update_state :
      ℕ → String → State → String → World tdb idb → Outcome (World tdb idb)
  update_state now transaction_id new_state user_id w = do
    t ← found (tdb.get w.transactions transaction_id)
    validate_rights t (actor_of new_state) user_id
    check_for_concurrent_transactions t new_state w.transactions
    update_transaction_state now t new_state user_id w

  -- markTransactionAsRead
  unfoldable pub mark_transaction_as_read :
      String → Transaction → World tdb idb → Outcome (World tdb idb)
  mark_transaction_as_read user_id t w = do
    role ← user_role user_id t
    doc ← found (tdb.get w.transactions t.id)
    ok (record w {
      transactions = tdb.put w.transactions t.id (record doc { read = mark_read role doc.read });
    })
