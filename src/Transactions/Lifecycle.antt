-- ===== src/Transactions/Lifecycle.antt =====
-- What the tables of server/models/attributes/transaction.ts allow: which states end a
-- transaction, and how the tables agree with each other.
use inventaire.Base.{ℕ, ◌<◌, ◌≡◌, ◌≢◌, ◌↔◌, ◌⊎◌, true, arith, ok}
use inventaire.Items.{Mode, lending}
use inventaire.Transactions.{
  State, requested, accepted, confirmed, cancelled, validate_transaction_possible_state,
  transaction_is_active,
}

-- How many more updates a transaction in this state can have at most.
abbrev pub updates_left : State → ℕ
updates_left requested = 3
updates_left accepted = 2
updates_left confirmed = 1
updates_left _ = 0

pub validate-lt-updates_left :
    (mode : Mode) (state new_state : State)
    → validate_transaction_possible_state mode state new_state ≡ ok tt
    → updates_left new_state < updates_left state
unfolding validate_transaction_possible_state
validate-lt-updates_left mode state new_state h = ground arith

-- The two tables of the model agree but for one case: a transaction can be cancelled exactly if it
-- is active, or is a confirmed one that is not a lending.
cancellable_iff :
    (mode : Mode) (state : State)
    → (validate_transaction_possible_state mode state cancelled ≡ ok tt)
      ↔ ((transaction_is_active mode state ≡ ok true) ⊎ ((state ≡ confirmed) × (mode ≢ lending)))
unfolding validate_transaction_possible_state transaction_is_active
cancellable_iff mode state = (λ h. ground arith, λ h. ground arith)
