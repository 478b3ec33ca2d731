-- ===== src/Transactions/AskingTests.antt =====
-- A book that is asked for, and the theorems at these inputs.
use inventaire.Base.{
  String, false, Option, none, some, [], ◌∷◌, any, all, string_eq, includes, nat_eq, Outcome, ok,
  err, http, failed, ◌≡◌, refl, arith,
}
use inventaire.Couch.{Database, memory}
use inventaire.Validation.{is_couch_uuid, is_hex}
use inventaire.Visibility.{
  verify_right_to_interact_with_item, get_allowed_visibility_keys, some_match,
}
use inventaire.Items.{lending, Item, item_allows_transactions}
use inventaire.Transactions.{
  Transaction, UserDoc, EntitySnapshot, transaction_is_active, find_next_actions,
}
use inventaire.Transactions.Documents.{create_transaction_doc}
use inventaire.Transactions.Server.{World, check_if_item_is_busy, emits_busy}
use inventaire.Transactions.Holding.{IsConsistent}
use inventaire.Transactions.Asking.{
  emits_user_and_item, some_active, verify_no_existing_transaction, verify_right_to_request,
  request_item,
}
use inventaire.Transactions.Asked.{Requested, request_item-Requested}

abbrev ann : String
ann = "0123456789abcdef0123456789abcdef"

abbrev bob : String
bob = "1123456789abcdef0123456789abcdef"

abbrev book : Item
book = record {
  id = "2123456789abcdef0123456789abcdef";
  created = 1;
  updated = none;
  owner = ann;
  transaction = lending;
  entity = "isbn:9782070389162";
  shelves = [];
  visibility = "friends" ∷ [];
  details = none;
  notes = none;
  history = [];
  previous_entities = [];
}

abbrev tdb : Database Transaction
tdb = memory

abbrev idb : Database Item
idb = memory

abbrev users : String → Option UserDoc
users id = some (record { id = id; username = "someone"; picture = none })

abbrev untitled : EntitySnapshot
untitled = record { title = none; image = none; authors = none }

abbrev start : World tdb idb
start = record { transactions = []; items = ("i", book) ∷ [] }

server : Unit {0}
unfolding is_couch_uuid is_hex verify_right_to_interact_with_item get_allowed_visibility_keys
    some_match item_allows_transactions transaction_is_active find_next_actions
    create_transaction_doc check_if_item_is_busy emits_busy emits_user_and_item some_active
    verify_no_existing_transaction verify_right_to_request request_item any all includes
server = tt

abbrev or_start : Outcome (World tdb idb) → World tdb idb
or_start (ok w) = w
or_start (err _) = start

-- The two users are no friends.
abbrev asked : World tdb idb
asked = or_start (request_item tdb idb 2 "t" "i" bob untitled users false [] start)

asked_ok : request_item tdb idb 2 "t" "i" bob untitled users false [] start ≡ ok asked
unfolding server
asked_ok = refl

refusals :
    (request_item tdb idb 3 "u" "i" bob untitled users false [] asked
      ≡ err (http "user already made a request on this item" 403))
    × (request_item tdb idb 3 "u" "i" ann untitled users false [] start
        ≡ err (http "not allowed with this item" 403))
    × (request_item tdb idb 3 "u" "j" bob untitled users false [] start ≡ err failed)
unfolding server
refusals = (refl, refl, refl)

start-IsConsistent : IsConsistent tdb idb start.transactions
start-IsConsistent = record {
  keyed = λ id t h. absurd (ground arith);
  recorded = λ id t h. absurd (ground arith);
  lent = λ id t h r. absurd (ground arith);
  single = λ i j t u h k _ _ _. absurd (ground arith);
}

request_item-Requested_example : Requested tdb idb 2 "t" "i" bob users start asked
request_item-Requested_example =
    request_item-Requested tdb idb 2 "t" "i" bob untitled users false [] start asked asked_ok
