-- ===== src/Data/Review/Laws.antt =====
-- A decision on a review group is one call, and what becomes of it.
use vekst.Prelude.{Text, codes, ℕ, ◌≡◌, refl, List, [], ◌∷◌, ◌++◌, some}
use vekst.Prelude.Result.{
  Result, ok, err, Failure, rejected, syntax_error, unknown_currency, type_error, mixed_basis,
  session_not_set, batch_vanished, missing_message, upload_failed, resolve_group,
  create_organisation,
}
use vekst.Wire.Review.{ReviewOutcome}
use vekst.Client
use vekst.Client.{Platform, State, Session, Call, Io, call, throw, handled}
use vekst.Data.Session.{require_session}
use vekst.Data.Review.{
  ReviewDecision, classify, internal_transfer, not_in_pnl, to_proto_outcome, raw_message_of,
  or_unknown, decide_group,
}

-- The request that a decision is, written out for each.
abbrev pub decision_call : Session → Text → ReviewDecision → Call
decision_call session key d = Client.resolve_group (record {
  organization_id = session.org_id;
  entity_id = session.entity_id;
  counterparty_key = key;
  outcome = elim d [
    | classify code ↦ ReviewOutcome.categorised
    | internal_transfer ↦ ReviewOutcome.internal_transfer
    | not_in_pnl ↦ ReviewOutcome.non_pnl
  ];
  category_code = elim d [ classify code ↦ code | internal_transfer ↦ [] | not_in_pnl ↦ [] ];
})

abbrev in_session : Session → List Call → State
in_session session calls = record { session = some session; calls = calls }

-- The message that an error has: the one that core rejected the call with, or the error's own.
abbrev Says : Platform → Failure → Text → Type 0
Says p (rejected message) said = said ≡ message
Says p e said = said ≡ p.message_of e

-- What a decision comes to, of the answer to its call.
pub data Decided (p : Platform) (answer : Result (Unit {0})) : Result (Unit {0}) → Type 0 where
  accepted : answer ≡ ok tt → Decided p answer (ok tt)
  coded :
      (e : Failure) (c : ℕ) (s : Text)
      → answer ≡ err e
      → Says p e (c ∷ s)
      → Decided p answer (err (resolve_group (c ∷ s)))
  wordless :
      (e : Failure)
      → answer ≡ err e
      → Says p e []
      → Decided p answer (err (resolve_group (codes "error.unknown")))

handled_lem :
    (p : Platform) (e : Failure) (said : Text)
    → Says p e said
    → Decided p (err e) (err (resolve_group (or_unknown said)))
handled_lem p e [] h = wordless e refl h
handled_lem p e (c ∷ s) h = coded e c s refl h

raw_message_of-Says : (p : Platform) (e : Failure) → Says p e (raw_message_of p e)
raw_message_of-Says p (rejected m) = refl
raw_message_of-Says p syntax_error = refl
raw_message_of-Says p (unknown_currency c) = refl
raw_message_of-Says p type_error = refl
raw_message_of-Says p mixed_basis = refl
raw_message_of-Says p session_not_set = refl
raw_message_of-Says p batch_vanished = refl
raw_message_of-Says p (missing_message n) = refl
raw_message_of-Says p (upload_failed n) = refl
raw_message_of-Says p (resolve_group c) = refl
raw_message_of-Says p (create_organisation c) = refl

abbrev failing : Failure → Io (Unit {0})
failing e p = throw (resolve_group (or_unknown (raw_message_of p e))) p

settled :
    (p : Platform) (s : State) (r : Result (Unit {0}))
    → ((handled failing p (r, s)).1 ≡ s) × Decided p r (handled failing p (r, s)).0
settled p s (ok tt) = (refl, accepted refl)
settled p s (err e) = (refl, handled_lem p e (raw_message_of p e) (raw_message_of-Says p e))

-- A decision in a session makes exactly one call, which names the group, the outcome and, for a
-- classification only, the category. It succeeds exactly where core accepts the call. Where it is
-- rejected the decision fails with the code that core's error carries as its message, or with
-- error.unknown where the message is empty.
pub decide_group-cases :
    (key : Text) (d : ReviewDecision) (p : Platform) (session : Session) (calls : List Call)
    → let done = decide_group key d p (in_session session calls) in
      let call = decision_call session key d in
      (done.1 ≡ in_session session (calls ++ call ∷ [])) × Decided p (p.answer calls call) done.0
unfolding decide_group require_session call to_proto_outcome
decide_group-cases key (classify code) p session calls =
    let call = decision_call session key (classify code) in
    settled p (in_session session (calls ++ call ∷ [])) (p.answer calls call)
decide_group-cases key internal_transfer p session calls =
    let call = decision_call session key internal_transfer in
    settled p (in_session session (calls ++ call ∷ [])) (p.answer calls call)
decide_group-cases key not_in_pnl p session calls =
    let call = decision_call session key not_in_pnl in
    settled p (in_session session (calls ++ call ∷ [])) (p.answer calls call)
