-- ===== src/Visibility/Interactions.antt =====
-- verifyRightToInteractWithItem (server/lib/interactions.ts): whom it lets pass.
use inventaire.Base.{
  String, Bool, true, false, List, ◌==◌, string_eq, nat_beq, length, not, if◌then◌else◌, Outcome,
  ok, err, ◌≡◌, arith,
}
use inventaire.Visibility.{Doc, Verified, verify_right_to_interact_with_item}

abbrev pub passes : Outcome Verified → Bool
passes (ok _) = true
passes (err _) = false

-- A user passes the check of the right to interact with an item exactly if the user owns it and
-- owners are allowed, or does not own it and it has some visibility key, whatever the key is and
-- whatever friends and groups the two users share.
passes-verify_right :
    (user : String) (d : Doc) (owner_allowed friends : Bool) (shared : List String)
    → passes (verify_right_to_interact_with_item user d owner_allowed friends shared)
      ≡ (if d.user == user then owner_allowed else not (nat_beq (length d.visibility) 0))
unfolding verify_right_to_interact_with_item
passes-verify_right user d owner_allowed friends shared = ground arith
