-- ===== src/Transactions/Documents.antt =====
-- The functions on one transaction document: its creation (createTransactionDoc of
-- server/models/transaction.ts), and the update of its state and read marks (stateUpdater,
-- updateReadStates and userRole of server/controllers/transactions/lib/transactions.ts).
use Prim.Native.String.{◌++◌ as join}
use inventaire.Base.{
  ℕ, String, true, false, Option, none, some, [], ◌∷◌, ◌++◌, ◌==◌, string_eq, if◌then◌else◌,
  Outcome, ok, err, http, require, ◌>>=◌, ◌>>◌,
}
use inventaire.Validation.{is_couch_uuid}
use inventaire.Items.{Item, item_allows_transactions}
use inventaire.Transactions.{
  State, requested, cancelled, Role, owner, requester, ReadStates, UserDoc, EntitySnapshot,
  Snapshot, Transaction,
}

-- transactionValidations.pass(attribute, value)
abbrev pass_uuid : String → String → Outcome (Unit {0})
pass_uuid attribute value =
    require (is_couch_uuid value) (join "invalid " (join attribute (join ": " value))) 400

-- snapshotData
snapshot_data : Item → EntitySnapshot → UserDoc → UserDoc → Snapshot
snapshot_data item entity owner_doc requester_doc = record {
  item_entity = item.entity;
  item_details = item.details;
  entity = entity;
  owner = owner_doc;
  requester = requester_doc;
}

-- createTransactionDoc at time `now`. `id` is the _id that the database gives to the new document,
-- `entity` the title, image and authors of the snapshot that addItemSnapshot put on the item.
unfoldable pub create_transaction_doc :
    ℕ → String → Item → EntitySnapshot → UserDoc → UserDoc → Outcome Transaction
unfolding snapshot_data
create_transaction_doc now id item entity owner_doc requester_doc = do
  pass_uuid "itemId" item.id
  pass_uuid "userId" owner_doc.id
  pass_uuid "userId" requester_doc.id
  require (item_allows_transactions item.transaction) "this item can't be requested" 400
  ok (record {
    id = id;
    item = item.id;
    owner = owner_doc.id;
    requester = requester_doc.id;
    transaction = item.transaction;
    state = requested;
    created = now;
    actions = record { action = requested; timestamp = now; actor = none } ∷ [];
    read = record { requester = true; owner = false };
    snapshot = snapshot_data item entity owner_doc requester_doc;
  })

unfoldable pub user_role : String → Transaction → Outcome Role
user_role user_id t =
    if user_id == t.owner
    then ok owner
    else if user_id == t.requester
    then ok requester
    else err (http "no role found" 500)

abbrev pub read_by : Role → ReadStates
read_by owner = record { owner = true; requester = false }
read_by requester = record { owner = false; requester = true }

unfoldable pub update_read_states : String → Transaction → Outcome ReadStates
update_read_states user_id t = do role ← user_role user_id t; ok (read_by role)

abbrev pub mark_read : Role → ReadStates → ReadStates
mark_read owner r = record r { owner = true }
mark_read requester r = record r { requester = true }

-- The actor is recorded for `cancelled`, the only state of `actorCanBeBoth`.
unfoldable pub actor_of_action : State → String → Transaction → Outcome (Option Role)
actor_of_action cancelled user_id t = do role ← user_role user_id t; ok (some role)
actor_of_action _ user_id t = ok none

-- The function that stateUpdater returns; `read` is what it computed from the transaction `t` that
-- was read before, and `doc` the stored document.
unfoldable pub state_updater :
    ℕ → State → String → Transaction → ReadStates → Transaction → Outcome Transaction
state_updater now state user_id t read doc = do
  actor ← actor_of_action state user_id t
  ok (record doc {
    state = state;
    actions = doc.actions ++ record { action = state; timestamp = now; actor = actor } ∷ [];
    read = read;
  })
