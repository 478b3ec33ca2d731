-- ===== src/Sanitization/Identity.antt =====
-- What an accepted input says beside the parameters (server/lib/sanitize/sanitize.ts): the names that
-- the request brings, and who has sent it.
use inventaire.Base.{
  String, false, Option, none, some, ◌==◌, string_eq, ◌≡◌, arith, if◌then◌else◌, ok, bind_inv, inl,
  inr, Option-cases,
}
use inventaire.Couch.{memory_lookup, memory_put, memory_lookup-put}
use inventaire.Entities.Objects.{lookup-omit}
use inventaire.Sanitization.{
  Value, text, Input, Configs, Sanitized, Sender, remote_user, anonymous, Request, Setting,
  is_expected, expected_input, local_user_acct, raw_input, get_place,
}
use inventaire.Sanitization.Chain.{sanitize_parameters, with_sender, sanitize_input, sanitize}
use inventaire.Sanitization.Names.{writes, expected_input-lookup, sanitize_parameters-keeps}

module _ (setting : Setting) where
  open setting use {Other, public_host}

  -- What the input says of a sender
  abbrev pub sender_id : Sender → Option (Value Other)
  sender_id (Sender.user id _) = some (text id)
  sender_id _ = none

  abbrev pub sender_acct : Sender → Option (Value Other)
  sender_acct (Sender.user _ id) = some (text (local_user_acct public_host id))
  sender_acct (remote_user acct) = some (text acct)
  sender_acct anonymous = none

  -- The steps of an accepted request
  pub sanitize-ok :
      (req : Request Other) (configs : Configs Other) (r : Sanitized Other)
      → sanitize setting req configs ≡ ok r
      → (raw : Input Other) × (t : Sanitized Other) × (raw_input req (get_place req.method configs)
          ≡ some raw)
        × (sanitize_parameters setting configs.entries
              (get_place req.method configs)
              (expected_input configs raw)
            ≡ ok t)
        × (r.input ≡ with_sender setting req.sender t.input)
  unfolding sanitize sanitize_input
  sanitize-ok req configs r h =
      let place = get_place req.method configs in
      elim (Option-cases (raw_input req place)) [
        | inl e ↦ absurd (ground arith)
        | inr (raw, e) ↦
            let done =
              sanitize_parameters setting configs.entries place (expected_input configs raw) in
            let accepted : sanitize_input setting configs place req.sender raw ≡ ok r =
              ground arith in
            let (t, e', last) = bind_inv done _ r accepted in (raw, t, e, e', ground arith)
      ]

  pub with_sender-lookup :
      (sender : Sender) (input : Input Other) (k : String)
      → memory_lookup (with_sender setting sender input) k ≡ (
          if "reqUserAcct" == k
          then elim (sender_acct sender) [ some v ↦ some v | none ↦ memory_lookup input k ]
          else if "reqUserId" == k
          then elim (sender_id sender) [ some v ↦ some v | none ↦ memory_lookup input k ]
          else memory_lookup input k)
  unfolding with_sender
  with_sender-lookup (Sender.user id anonymizable_id) input k =
      let account = text (local_user_acct public_host anonymizable_id) in
      rw (
        memory_lookup-put (memory_put input "reqUserId" (text id)) "reqUserAcct" k account,
        memory_lookup-put input "reqUserId" k (text id),
      )
  with_sender-lookup (remote_user acct) input k =
      ground (arith, memory_lookup-put input "reqUserAcct" k (text acct))
  with_sender-lookup anonymous input k = ground arith

  -- A name that no parameter is written at, and that is neither reqUserId nor reqUserAcct, has in the
  -- accepted input what it has in the request if it is expected and is not `action`, and is absent
  -- otherwise.
  pub sanitize-unwritten :
      (req : Request Other) (configs : Configs Other) (r : Sanitized Other) (raw : Input Other)
      (k : String)
      → sanitize setting req configs ≡ ok r
      → raw_input req (get_place req.method configs) ≡ some raw
      → writes setting configs.entries k ≡ false
      → ("reqUserId" == k) ≡ false
      → ("reqUserAcct" == k) ≡ false
      → memory_lookup r.input k ≡ (
          if is_expected configs k
          then if "action" == k then none else memory_lookup raw k
          else none)
  sanitize-unwritten req configs r raw k h there w i a =
      let (raw', t, e, steps, last) = sanitize-ok req configs r h in
      let place = get_place req.method configs in
      let same : raw' ≡ raw = cc in
      let start = expected_input-lookup configs raw' k in
      let kept =
        sanitize_parameters-keeps setting configs.entries place (expected_input configs raw') t k w
          steps in
      let signed = with_sender-lookup req.sender t.input k in
      let omitted = lookup-omit raw' "action" k in ground arith

  sanitize-unexpected :
      (req : Request Other) (configs : Configs Other) (r : Sanitized Other) (k : String)
      → sanitize setting req configs ≡ ok r
      → is_expected configs k ≡ false
      → writes setting configs.entries k ≡ false
      → memory_lookup r.input k ≡ (
          if "reqUserAcct" == k
          then sender_acct req.sender
          else if "reqUserId" == k
          then sender_id req.sender
          else none)
  sanitize-unexpected req configs r k h u w =
      let (raw, t, e, steps, last) = sanitize-ok req configs r h in
      let place = get_place req.method configs in
      let start = expected_input-lookup configs raw k in
      let kept =
        sanitize_parameters-keeps setting configs.entries place (expected_input configs raw) t k w
          steps in
      let signed = with_sender-lookup req.sender t.input k in ground arith

  -- Where no parameter is expected or written at the names of the sender's identity, an accepted
  -- input has there what the sender is known by: the id and the account of a user, the account of a
  -- remote user, and nothing for an anonymous request, whatever the request gives at these names.
  pub sanitize-identity :
      (req : Request Other) (configs : Configs Other) (r : Sanitized Other)
      → sanitize setting req configs ≡ ok r
      → is_expected configs "reqUserId" ≡ false
      → is_expected configs "reqUserAcct" ≡ false
      → writes setting configs.entries "reqUserId" ≡ false
      → writes setting configs.entries "reqUserAcct" ≡ false
      → (memory_lookup r.input "reqUserId" ≡ sender_id req.sender)
        × (memory_lookup r.input "reqUserAcct" ≡ sender_acct req.sender)
  sanitize-identity req configs r h ui ua wi wa = (
    sanitize-unexpected req configs r "reqUserId" h ui wi,
    sanitize-unexpected req configs r "reqUserAcct" h ua wa,
  )
