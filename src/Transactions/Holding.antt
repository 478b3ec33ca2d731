-- ===== src/Transactions/Holding.antt =====
-- The invariant of the stored transactions: the last recorded action is the state, and no item is
-- held by two transactions at once.
use inventaire.Base.{
  ℕ, String, ◌≡◌, ◌∙◌, sym, ap, subst, ◌≢◌, ◌⊎◌, true, false, arith, ok, some, string_eq, eq_iff,
  inl, inr, Bool-cases,
}
use inventaire.Couch.{Database}
use inventaire.Items.{Mode, lending, Item}
use inventaire.Transactions.{State, returned, accepted, Transaction, is_next}
use inventaire.Transactions.Server.{
  World, last_action, emits_busy, busy_action, check_if_item_is_busy, update_state,
}
use inventaire.Transactions.Updates.{Moved, Updated, update_state-Updated}

-- The transaction keeps its item busy.
abbrev pub Holds : Transaction → Type 0
Holds t = emits_busy t.item t ≡ true

busy_action-next :
    (mode : Mode) (s s' : State)
    → is_next s s' ≡ true
    → busy_action mode (some s') ≡ true
    → (s' ≡ accepted) ⊎ (busy_action mode (some s) ≡ true)
unfolding is_next
busy_action-next mode s s' n h = ground arith

abbrev state_of : Transaction → State
state_of t = t.state

abbrev item_of : Transaction → String
item_of t = t.item

module _ (tdb : Database Transaction) (idb : Database Item) where
  pub record IsConsistent (s : tdb.Store) : Type 0 where
    pub keyed : (id : String) (t : Transaction) → tdb.get s id ≡ some t → t.id ≡ id
    pub recorded :
        (id : String) (t : Transaction)
        → tdb.get s id ≡ some t
        → last_action t.actions ≡ some t.state
    pub lent :
        (id : String) (t : Transaction)
        → tdb.get s id ≡ some t
        → t.state ≡ returned
        → t.transaction ≡ lending
    pub single :
        (i j : String) (t u : Transaction)
        → tdb.get s i ≡ some t
        → tdb.get s j ≡ some u
        → Holds t
        → Holds u
        → t.item ≡ u.item
        → i ≡ j

  not_held :
      (item : String) (s : tdb.Store) (id : String) (t : Transaction)
      → check_if_item_is_busy tdb idb item s ≡ false
      → tdb.get s id ≡ some t
      → emits_busy item t ≡ false
  unfolding check_if_item_is_busy
  not_held item s id t h g = elim (Bool-cases (emits_busy item t)) [
    | inl e ↦ absurd (ground (arith, tdb.any-get (emits_busy item) s id t g e))
    | inr e ↦ e
  ]

  -- A move after which the transaction holds its item was an acceptance, or it held it before.
  Holds-Moved :
      (doc doc' : Transaction) (new_state : State)
      → Moved doc new_state doc'
      → last_action doc.actions ≡ some doc.state
      → is_next doc.state new_state ≡ true
      → Holds doc'
      → (new_state ≡ accepted) ⊎ Holds doc
  unfolding emits_busy
  Holds-Moved doc doc' new_state m r n h = ground (
    arith,
    busy_action-next doc.transaction doc.state new_state n,
    eq_iff doc'.item doc'.item,
    eq_iff doc.item doc.item,
  )

  emits_busy_of_Holds :
      (t : Transaction) (item : String) → Holds t → t.item ≡ item → emits_busy item t ≡ true
  emits_busy_of_Holds t item h e = subst (λ i. emits_busy i t ≡ true) e h

  module _ {now : ℕ} {id : String} {new_state : State} {user : String} {w w' : World tdb idb}
      (u : Updated tdb idb now id new_state user w w') (c : IsConsistent w.transactions) where
    before_id : u.before.id ≡ id
    before_id = c.keyed id u.before u.stored

    doc-eq-before : u.doc ≡ u.before
    doc-eq-before = cc (u.found_doc, u.stored, before_id)

    -- After the update each stored transaction is the moved one, or is another one as it was.
    get-after :
        (j : String) (t : Transaction)
        → tdb.get w'.transactions j ≡ some t
        → ((j ≡ id) × (t ≡ u.after)) ⊎ ((j ≢ id) × (tdb.get w.transactions j ≡ some t))
    get-after j t h = ground (
      arith,
      u.transactions,
      before_id,
      tdb.get-put w.transactions u.before.id j u.after,
      eq_iff u.before.id j,
    )

    after-Moved : Moved u.before new_state u.after
    after-Moved = rw doc-eq-before at u.moved

    -- No other transaction holds the item, if the moved one holds it afterwards.
    alone :
        (j : String) (t : Transaction)
        → tdb.get w.transactions j ≡ some t
        → Holds u.after
        → Holds t
        → t.item ≡ u.after.item
        → j ≡ id
    alone j t g ha ht e =
        elim (Holds-Moved u.before u.after new_state after-Moved (c.recorded id u.before u.stored)
          u.next ha) [
            | inl a ↦ absurd (
                ground (
                  arith,
                  not_held u.before.item w.transactions j t (u.free a) g,
                  emits_busy_of_Holds t u.before.item ht (e ∙ after-Moved.item),
                ))
            | inr held ↦ c.single j id t u.before g u.stored ht held (e ∙ after-Moved.item)
          ]

    update-IsConsistent : IsConsistent w'.transactions
    update-IsConsistent = record {
      keyed = λ j t h. elim (get-after j t h) [
        | inl (e, same) ↦ cc (same, e, after-Moved.id, before_id)
        | inr (_, g) ↦ c.keyed j t g
      ];
      recorded = λ j t h. elim (get-after j t h) [
        | inl (e, same) ↦ rw same (after-Moved.last ∙ ap some (sym after-Moved.state))
        | inr (_, g) ↦ c.recorded j t g
      ];
      lent = λ j t h r. elim (get-after j t h) [
        | inl (e, same) ↦ cc (
          same,
          after-Moved.transaction,
          u.lent (sym after-Moved.state ∙ ap state_of (sym same) ∙ r),
        )
        | inr (_, g) ↦ c.lent j t g r
      ];
      single = λ i j t v hi hj ht hv e. elim (get-after i t hi) [
        | inl (ei, ti) ↦ elim (get-after j v hj) [
          | inl (ej, _) ↦ ei ∙ sym ej
          | inr (_, gj) ↦ ei ∙ sym (alone j v gj (subst Holds ti ht) hv (sym e ∙ ap item_of ti))
        ]
        | inr (_, gi) ↦ elim (get-after j v hj) [
          | inl (ej, tj) ↦ alone i t gi (subst Holds tj hv) ht (e ∙ ap item_of tj) ∙ sym ej
          | inr (_, gj) ↦ c.single i j t v gi gj ht hv e
        ]
      ];
    }

module _ (tdb : Database Transaction) (idb : Database Item) where
  -- A request to update a transaction, whoever makes it and whatever the state asked for, keeps the
  -- stored transactions consistent.
  pub update_state-IsConsistent :
      (now : ℕ) (id : String) (new_state : State) (user : String) (w w' : World tdb idb)
      → update_state tdb idb now id new_state user w ≡ ok w'
      → IsConsistent tdb idb w.transactions
      → IsConsistent tdb idb w'.transactions
  update_state-IsConsistent now id new_state user w w' h c =
      update-IsConsistent tdb idb (update_state-Updated tdb idb now id new_state user w w' h) c
