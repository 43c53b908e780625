-- ===== src/Data/Imports/Detail.antt =====
-- Reading one batch with its report and its summary, and the balance check that it shows.
use vekst.Prelude.{Text, ◌≡◌, refl, ap, inl, inr, List, [], ◌∷◌, ◌++◌, Option, none, some}
use vekst.Prelude.Int.{◌+ℤ◌}
use vekst.Prelude.Decimal.{big_int}
use vekst.Prelude.Lemmas.{big_int-int_text}
use vekst.Prelude.Result.{Result, ok, err, Failure}
use vekst.Wire.Imports.{ImportBatch, BalanceMismatchDetail}
use vekst.Client.{
  Platform, State, Session, Call, call, get_import_batch, get_validation_report, get_dedup_summary,
}
use vekst.Client.Laws.{Result-cases}
use vekst.Data.Session.{require_session}
use vekst.Data.Imports.{
  BatchDetail, batch_from_proto, detail_of, read_detail, get_batch, balance_check_from_proto,
}

-- What an optional call of the detail comes to.
abbrev pub answered {ℓ} : {A : Type ℓ} → Result (Option A) → Option A
answered (ok a) = a
answered (err e) = none

module _ (p : Platform) (session : Session) (calls : List Call) (id : Text) where
  abbrev asked : List Call
  asked = calls ++ get_import_batch session.org_id id ∷ []

  abbrev reported : List Call
  reported = asked ++ get_validation_report session.org_id id ∷ []

  -- The detail of a batch that was found, from whatever the two other calls are answered.
  abbrev pub detail_for : ImportBatch → BatchDetail
  detail_for wire =
      detail_of (batch_from_proto p wire)
        (answered (p.answer asked (get_validation_report session.org_id id)))
        (answered (p.answer reported (get_dedup_summary session.org_id id)))

  -- What reading a batch comes to, with the calls made when it ends.
  pub data Read (r : Result (Option BatchDetail)) (made : List Call) : Type 0 where
    -- the batch's own call is rejected, and so is the whole
    refused :
        (e : Failure)
        → p.answer calls (get_import_batch session.org_id id) ≡ err e
        → r ≡ err e
        → made ≡ asked
        → Read r made
    -- there is no such batch, and nothing more is asked
    missing :
        p.answer calls (get_import_batch session.org_id id) ≡ ok none
        → r ≡ ok none
        → made ≡ asked
        → Read r made
    -- the batch is there
    found :
        (wire : ImportBatch)
        → p.answer calls (get_import_batch session.org_id id) ≡ ok (some wire)
        → r ≡ ok (some (detail_for wire))
        → made ≡ reported ++ get_dedup_summary session.org_id id ∷ []
        → Read r made

  abbrev with_session : State
  with_session = record { session = some session; calls = calls }

  abbrev after_asking : State
  after_asking = record { session = some session; calls = asked }

  found_lem :
      (wire : ImportBatch)
      → read_detail session.org_id id (some wire) p after_asking ≡ (
        ok (some (detail_for wire)),
        record {
          session = some session;
          calls = reported ++ get_dedup_summary session.org_id id ∷ [];
        },
      )
  unfolding read_detail
  found_lem wire = elim (Result-cases (p.answer asked (get_validation_report session.org_id id))) [
    | inl (report, h) ↦
        elim (Result-cases (p.answer reported (get_dedup_summary session.org_id id))) [
          | inl (summary, k) ↦ rw h (rw k refl)
          | inr (e, k) ↦ rw h (rw k refl)
        ]
    | inr (e, h) ↦ elim (Result-cases (p.answer reported (get_dedup_summary session.org_id id))) [
      | inl (summary, k) ↦ rw h (rw k refl)
      | inr (e', k) ↦ rw h (rw k refl)
    ]
  ]

  -- Reading a batch ends in one of three ways. Its own call is rejected, and the failure is passed
  -- on. There is no such batch, and the result says so with nothing else asked. Or the batch is
  -- there, and the result is its detail after one call for the report and one for the summary:
  -- where either of those is rejected the detail is as if it had no report, or no summary.
  pub get_batch-Read : let done = get_batch id p with_session in Read done.0 done.1.calls
  unfolding get_batch require_session call
  get_batch-Read = elim (Result-cases (p.answer calls (get_import_batch session.org_id id))) [
    | inr (e, h) ↦ refused e h (rw h refl) (rw h refl)
    | inl (none, h) ↦
        missing h (rw h (unfold read_detail in refl)) (rw h (unfold read_detail in refl))
    | inl (some wire, h) ↦
        found wire h (rw h (ap (λ x. x.0) (found_lem wire)))
          (rw h (ap (λ x. x.1.calls) (found_lem wire)))
  ]

-- The balance check that a screen shows adds up: its opening, movements and closing are texts of
-- integers, the first two are those the server sent, and the third is their sum, whatever closing
-- balance the statement declares; that one is kept beside it.
pub balance_check_from_proto-IsBalanced :
    (bm : BalanceMismatchDetail)
    → let c = balance_check_from_proto bm in
      (big_int c.opening.minor_units ≡ some bm.opening)
      × (big_int c.movements.minor_units ≡ some bm.movements)
      × (big_int c.closing.minor_units ≡ some (bm.opening +ℤ bm.movements))
      × (big_int c.declared.minor_units ≡ some bm.closing)
unfolding balance_check_from_proto
balance_check_from_proto-IsBalanced bm = (
  big_int-int_text bm.opening,
  big_int-int_text bm.movements,
  big_int-int_text (bm.opening +ℤ bm.movements),
  big_int-int_text bm.closing,
)
