-- ===== src/Items.antt =====
-- Items (server/types/item.ts, server/models/attributes/item.ts, server/models/item.ts): the
-- documents, and the change of owner at the end of a transaction; the updates are in Items/Updates.
pub mod Updates
mod Checked
mod Tests
use inventaire.Base.{
  ℕ, String, Bool, Option, none, some, List, [], ◌∷◌, ◌++◌, ◌==◌, string_eq, if◌then◌else◌, Outcome,
  ok, err, failed,
}

-- itemTransactionModes
pub data Mode : Type 0 where
  giving lending selling inventorying : Mode

pub record HistoryEvent : Type 0 where
  pub transaction : String
  pub previous_owner : String
  pub timestamp : ℕ

-- An undefined `history` or `previousEntities` is the empty list.
pub record Item : Type 0 where
  pub id : String
  pub created : ℕ
  pub updated : Option ℕ
  pub owner : String
  pub transaction : Mode
  pub entity : String
  pub shelves : List String
  pub visibility : List String
  pub details : Option String
  pub notes : Option String
  pub history : List HistoryEvent
  pub previous_entities : List String

-- itemAllowsTransactions, and `requestable` of server/models/transaction.ts
unfoldable pub item_allows_transactions : Mode → Bool
item_allows_transactions giving = Bool.true
item_allows_transactions lending = Bool.true
item_allows_transactions selling = Bool.true
item_allows_transactions inventorying = Bool.false

-- changeItemDocOwner; the transaction document is given by its _id, owner and requester.
-- `omit(item, itemAttributes.reset)` drops notes, visibility and details.
unfoldable pub change_item_doc_owner : ℕ → String → String → String → Item → Outcome Item
change_item_doc_owner now transac_id owner requester item =
    if item.owner == owner
    then ok (record item {
      history =
          item.history
          ++ record { transaction = transac_id; previous_owner = owner; timestamp = now } ∷ [];
      owner = requester;
      transaction = inventorying;
      visibility = [];
      shelves = [];
      details = none;
      notes = none;
      updated = some now;
    })
    else err failed
