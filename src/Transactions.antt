-- ===== src/Transactions.antt =====
-- Transactions (server/types/transaction.ts, server/models/attributes/transaction.ts,
-- server/models/transaction.ts): the documents, the state machine and its tables.
pub mod Documents
pub mod Server
pub mod Lifecycle
pub mod Asking
pub mod Asked
pub mod Updates
pub mod Holding
pub mod Effects
mod Tests
mod AskingTests
use inventaire.Base.{
  ℕ, String, Bool, true, false, not, ◌≡◌, Option, none, some, List, [], ◌∷◌, ◌==◌, string_eq,
  if◌then◌else◌, ◌&&◌, Outcome, ok, err, failed, http, require, ◌>>=◌, ◌>>◌,
}
use inventaire.Items.{Mode, giving, lending, selling, inventorying, Item, item_allows_transactions}

pub data State : Type 0 where
  requested accepted declined confirmed returned cancelled : State

pub data Role : Type 0 where
  owner requester : Role

-- `actor` of transactionStates
pub data Actor : Type 0 where
  by_requester by_owner by_both : Actor

pub record Action : Type 0 where
  pub action : State
  pub timestamp : ℕ
  pub actor : Option Role

pub record ReadStates : Type 0 where
  pub owner : Bool
  pub requester : Bool

-- The parts of a user document that a transaction copies (userAttributes.snapshot), behind its _id.
pub record UserDoc : Type 0 where
  pub id : String
  pub username : String
  pub picture : Option String

pub record EntitySnapshot : Type 0 where
  pub title : Option String
  pub image : Option String
  pub authors : Option String

-- TransactionSnapshot; the first two fields are the picked itemAttributes.snapshot
pub record Snapshot : Type 0 where
  pub item_entity : String
  pub item_details : Option String
  pub entity : EntitySnapshot
  pub owner : UserDoc
  pub requester : UserDoc

pub record Transaction : Type 0 where
  pub id : String
  pub item : String
  pub owner : String
  pub requester : String
  pub transaction : Mode
  pub state : State
  pub created : ℕ
  pub actions : List Action
  pub read : ReadStates
  pub snapshot : Snapshot

abbrev pub state_beq : State → State → Bool
state_beq requested requested = true
state_beq accepted accepted = true
state_beq declined declined = true
state_beq confirmed confirmed = true
state_beq returned returned = true
state_beq cancelled cancelled = true
state_beq _ _ = false

-- transactionStates[state].actor
unfoldable pub actor_of : State → Actor
actor_of requested = by_requester
actor_of accepted = by_owner
actor_of declined = by_owner
actor_of confirmed = by_requester
actor_of returned = by_owner
actor_of cancelled = by_both

-- transactionStates[state].next.includes(newState)
unfoldable pub is_next : State → State → Bool
is_next requested accepted = true
is_next requested declined = true
is_next requested cancelled = true
is_next accepted confirmed = true
is_next accepted cancelled = true
is_next confirmed returned = true
is_next confirmed cancelled = true
is_next _ _ = false

abbrev is_lending : Mode → Bool
is_lending lending = true
is_lending _ = false

unfoldable pub validate_transaction_possible_state : Mode → State → State → Outcome (Unit {0})
unfolding is_next
validate_transaction_possible_state mode state new_state = do
  require (is_next state new_state) "invalid state update" 400
  require (not (state_beq new_state returned && not (is_lending mode)))
      "transaction and state mismatch" 400

-- oneWay; the undefined entry of inventorying is falsy
unfoldable pub transaction_is_one_way : Mode → Bool
transaction_is_one_way giving = true
transaction_is_one_way lending = false
transaction_is_one_way selling = true
transaction_is_one_way inventorying = false

-- transactionBasicNextActions and transactionNextActionsWithReturn: the entry of the owner and of
-- the requester. Reading a role of the missing entry `returned` of the basic table throws.
abbrev basic_next_actions : State → Outcome (Option String × Option String)
basic_next_actions requested = ok (some "accept/decline", some "waiting:accepted")
basic_next_actions accepted = ok (some "waiting:confirmed", some "confirm")
basic_next_actions declined = ok (none, none)
basic_next_actions confirmed = ok (none, none)
basic_next_actions cancelled = ok (none, none)
basic_next_actions returned = err failed

abbrev next_actions_with_return : State → Outcome (Option String × Option String)
next_actions_with_return confirmed = ok (some "returned", some "waiting:returned")
next_actions_with_return returned = ok (none, none)
next_actions_with_return state = basic_next_actions state

abbrev of_role : Role → Option String × Option String → Option String
of_role owner entry = entry.0
of_role requester entry = entry.1

unfoldable pub find_next_actions : Mode → State → Role → Outcome (Option String)
find_next_actions lending state role = do
  entry ← next_actions_with_return state
  ok (of_role role entry)
find_next_actions _ state role = do entry ← basic_next_actions state; ok (of_role role entry)

abbrev is_some : Option String → Bool
is_some none = false
is_some (some _) = true

-- `mainUserIsOwner: true`
unfoldable pub transaction_is_active : Mode → State → Outcome Bool
unfolding find_next_actions
transaction_is_active mode state = do
  actions ← find_next_actions mode state owner
  ok (is_some actions)
