-- ===== src/Transactions/Asking.antt =====
-- The request of an item (server/controllers/transactions/request.ts, and verifyRightToRequest of
-- lib/rights_verification.ts). The snapshot of the item's entity, the users' documents, and what the
-- two users share are given; the message, a document of another database, is left out.
use inventaire.Base.{
  ℕ, String, Bool, false, not, Option, List, [], ◌∷◌, ◌==◌, string_eq, if◌then◌else◌, ◌&&◌, ◌||◌,
  Outcome, ok, require, ◌>>=◌, ◌>>◌,
}
use inventaire.Couch.{Database}
use inventaire.Items.{Item}
use inventaire.Visibility.{Doc, verify_right_to_interact_with_item}
use inventaire.Transactions.{Transaction, UserDoc, EntitySnapshot, transaction_is_active}
use inventaire.Transactions.Documents.{create_transaction_doc}
use inventaire.Transactions.Server.{World, found, check_if_item_is_busy}

-- The rows of the view byUserAndItem
unfoldable pub emits_user_and_item : String → String → Transaction → Bool
emits_user_and_item user item t = t.item == item && (t.owner == user || t.requester == user)

abbrev pub or_more : Outcome Bool → Outcome Bool → Outcome Bool
or_more active rest = do a ← active; b ← rest; ok (a || b)

-- `transactionsDocs.filter(transactionIsActive).length > 0`, which throws where the test throws
unfoldable pub some_active : String → String → List Transaction → Outcome Bool
some_active user item [] = ok false
some_active user item (t ∷ ts) =
    let rest = some_active user item ts in
    if emits_user_and_item user item t
    then or_more (transaction_is_active t.transaction t.state) rest
    else rest

abbrev pub as_doc : Item → Doc
as_doc item = record { user = item.owner; visibility = item.visibility }

module _ (tdb : Database Transaction) (idb : Database Item) where
  -- verifyNoExistingTransaction
  unfoldable pub verify_no_existing_transaction : String → String → tdb.Store → Outcome (Unit {0})
  verify_no_existing_transaction user item s = do
    active ← some_active user item (tdb.all_docs s)
    require (not active) "user already made a request on this item" 403

  unfoldable pub verify_right_to_request :
      String → Item → Bool → List String → tdb.Store → Outcome (Unit {0})
  verify_right_to_request user item friends shared s = do
    require (not (check_if_item_is_busy tdb idb item.id s)) "item already busy" 403
    verified ← verify_right_to_interact_with_item user (as_doc item) false friends shared
    verify_no_existing_transaction user item.id s

  -- The controller; `id` is the new document's.
  unfoldable pub request_item :
      ℕ
      → String
      → String
      → String
      → EntitySnapshot
      → (String → Option UserDoc)
      → Bool
      → List String
      → World tdb idb
      → Outcome (World tdb idb)
  request_item now id item_id user entity users friends shared w = do
    item ← found (idb.get w.items item_id)
    verify_right_to_request user item friends shared w.transactions
    owner_doc ← found (users item.owner)
    requester_doc ← found (users user)
    t ← create_transaction_doc now id item entity owner_doc requester_doc
    ok (record w { transactions = tdb.put w.transactions id t })
