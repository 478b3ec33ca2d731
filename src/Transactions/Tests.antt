-- ===== src/Transactions/Tests.antt =====
-- A giving, as a run of requests, and the theorems at these inputs.
use inventaire.Base.{
  ◌<◌, String, ◌≡◌, refl, ap, subst, true, false, arith, ok, err, Outcome, some, none, [], ◌∷◌,
  ◌==◌, string_eq, eq_iff, http, any,
}
use inventaire.Couch.{Database, memory}
use inventaire.Items.{giving, Item, change_item_doc_owner}
use inventaire.Transactions.{
  requested, returned, accepted, confirmed, Transaction, is_next, actor_of,
  validate_transaction_possible_state, transaction_is_one_way,
}
use inventaire.Transactions.Documents.{
  state_updater, update_read_states, actor_of_action, user_role,
}
use inventaire.Transactions.Server.{
  World, last_action, validate_rights, check_if_item_is_busy, check_for_concurrent_transactions,
  emits_busy, apply_side_effects, update_transaction_state, update_state, change_item_owner,
}
use inventaire.Transactions.Lifecycle.{validate-lt-updates_left, updates_left}
use inventaire.Transactions.Updates.{Updated, update_state-Updated}
use inventaire.Transactions.Holding.{IsConsistent, update_state-IsConsistent}
use inventaire.Transactions.Effects.{update_state_total, update_state-handed_over, handed_over}

abbrev book : Item
book = record {
  id = "i";
  created = 1;
  updated = none;
  owner = "ann";
  transaction = giving;
  entity = "isbn:9782070389162";
  shelves = "s" ∷ [];
  visibility = "public" ∷ [];
  details = some "a first edition";
  notes = none;
  history = [];
  previous_entities = [];
}

abbrev asked : Transaction
asked = record {
  id = "t";
  item = "i";
  owner = "ann";
  requester = "bob";
  transaction = giving;
  state = requested;
  created = 2;
  actions = record { action = requested; timestamp = 2; actor = none } ∷ [];
  read = record { requester = true; owner = false };
  snapshot = record {
    item_entity = "isbn:9782070389162";
    item_details = some "a first edition";
    entity = record { title = none; image = none; authors = none };
    owner = record { id = "ann"; username = "ann"; picture = none };
    requester = record { id = "bob"; username = "bob"; picture = none };
  };
}

abbrev tdb : Database Transaction
tdb = memory

abbrev idb : Database Item
idb = memory

abbrev start : World tdb idb
start = record { transactions = ("t", asked) ∷ []; items = ("i", book) ∷ [] }

server : Unit {0}
unfolding update_state update_transaction_state check_for_concurrent_transactions update_read_states
    state_updater actor_of_action user_role validate_rights actor_of is_next
    validate_transaction_possible_state check_if_item_is_busy emits_busy apply_side_effects
    change_item_owner change_item_doc_owner transaction_is_one_way any
server = tt

abbrev or_start : Outcome (World tdb idb) → World tdb idb
or_start (ok w) = w
or_start (err _) = start

abbrev agreed : World tdb idb
agreed = or_start (update_state tdb idb 3 "t" accepted "ann" start)

abbrev given : World tdb idb
given = or_start (update_state tdb idb 4 "t" confirmed "bob" agreed)

agreed_ok : update_state tdb idb 3 "t" accepted "ann" start ≡ ok agreed
unfolding server
agreed_ok = refl

given_ok : update_state tdb idb 4 "t" confirmed "bob" agreed ≡ ok given
unfolding server
given_ok = refl

refusals :
    (update_state tdb idb 3 "t" accepted "bob" start ≡ err (http "wrong user" 403))
    × (update_state tdb idb 3 "t" confirmed "bob" start ≡ err (http "invalid state update" 400))
    × (update_state tdb idb 5 "t" returned "ann" given
        ≡ err (http "transaction and state mismatch" 400))
unfolding server
refusals = (refl, refl, refl)

get-start :
    (id : String) (t : Transaction)
    → tdb.get start.transactions id ≡ some t
    → (("t" == id) ≡ true) × (asked ≡ t)
get-start id t h = ground arith

start-IsConsistent : IsConsistent tdb idb start.transactions
start-IsConsistent = record {
  keyed = λ id t h.
      let (e, same) = get-start id t h in
      cc (ap (λ (x : Transaction). x.id) same, (eq_iff "t" id).0 e);
  recorded = λ id t h.
      let (e, same) = get-start id t h in
      subst (λ x. last_action x.actions ≡ some x.state) same refl;
  lent = λ id t h r.
      let (e, same) = get-start id t h in absurd (cc (ap (λ (x : Transaction). x.state) same, r));
  single = λ i j t u h k _ _ _.
      let (e, _) = get-start i t h in
      let (e', _) = get-start j u k in cc ((eq_iff "t" i).0 e, (eq_iff "t" j).0 e');
}

update_state-IsConsistent_example : IsConsistent tdb idb agreed.transactions
update_state-IsConsistent_example =
    update_state-IsConsistent tdb idb 3 "t" accepted "ann" start agreed agreed_ok start-IsConsistent

update_state-Updated_example : Updated tdb idb 3 "t" accepted "ann" start agreed
update_state-Updated_example =
    update_state-Updated tdb idb 3 "t" accepted "ann" start agreed agreed_ok

update_state_total_example :
    (w' : World tdb idb) × (update_state tdb idb 3 "t" accepted "ann" start ≡ ok w')
unfolding server
update_state_total_example =
    update_state_total tdb idb 3 "t" accepted "ann" start asked refl refl refl refl (λ _. refl)

update_state-handed_over_example :
    idb.get given.items "i" ≡ some (handed_over 4 (record asked { state = accepted }) book)
unfolding server
update_state-handed_over_example =
    update_state-handed_over tdb idb 4 "t" "bob" agreed given _ book given_ok refl (λ e. cc)
      (λ e. cc) refl refl "i"

validate-lt-updates_left_example : updates_left accepted < updates_left requested
unfolding server
validate-lt-updates_left_example = validate-lt-updates_left giving requested accepted refl
