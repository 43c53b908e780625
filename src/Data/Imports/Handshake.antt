-- ===== src/Data/Imports/Handshake.antt =====
-- Which calls an upload makes, and in which order.
use mathlib.Core.List.{append_assoc}
use native.Mathlib.Decide.{dec_lt}
use vekst.Prelude.{
  Text, codes, ℕ, ◌≡◌, refl, ap, ◌∙◌, ◌≤◌, ◌<◌, ◌⊎◌, inl, inr, List, [], ◌∷◌, ◌++◌, Option, none,
  some, false, ◌&&◌, leb, arith, Bool-cases, Option-cases,
}
use vekst.Prelude.Result.{Result, ok, err, Failure, upload_failed, missing_message}
use vekst.Wire.Imports.{CreateImportBatchRequest, CreateImportBatchResponse, ImportBatch}
use vekst.Client.{
  Platform, State, Session, pure, Io, call, both, optional, get_import_batch, get_validation_report,
  get_dedup_summary, Call, create_import_batch, put, confirm_import_upload, ◌>>=◌, ◌>>◌,
}
use vekst.Client.Laws.{
  bind_ok, bind_err, Result-cases, IsExtending, bind-IsExtending, call-IsExtending,
  both-IsExtending, optional-IsExtending, Extends, Extends-refl,
}
use vekst.Data.Session.{require_session}
use vekst.Data.Upload.{
  SourceKind, ReservedUpload, CreateInput, to_proto_source_kind, reserve, put_upload,
  confirm_upload,
}
use vekst.Data.Imports.{BatchDetail, flat, detail_of, batch_from_proto, read_detail, get_batch}
use vekst.Data.Imports.Upload.{File, declared_type_of, or_vanished, upload_batch}

abbrev request_of : CreateInput → CreateImportBatchRequest
request_of input = record {
  org_id = input.org_id;
  entity_id = input.entity_id;
  source_kind = to_proto_source_kind input.source_kind;
  file_name = input.file_name;
  declared_bytes = input.declared_bytes;
  declared_type = input.declared_type;
  import_profile_id = none;
}

abbrev after : State → Call → State
after s c = record s { calls = s.calls ++ c ∷ [] }

-- A reservation is the batch, the address and the headers that core answered with.
abbrev IsReserved : Platform → State → CreateInput → ReservedUpload → Type 0
IsReserved p s input u =
    (res : CreateImportBatchResponse) × (b : ImportBatch) × (p.answer s.calls
        (create_import_batch (request_of input))
      ≡ ok res)
    × (res.batch ≡ some b)
    × (u ≡ record {
      batch_id = b.id;
      upload_url = res.upload_url;
      upload_headers = res.upload_headers;
    })

-- Core rejects the call for a batch, or answers it without one.
abbrev IsRefused : Platform → State → CreateInput → Failure → Type 0
IsRefused p s input e =
    (p.answer s.calls (create_import_batch (request_of input)) ≡ err e)
    ⊎ ((res : CreateImportBatchResponse) × (p.answer s.calls
            (create_import_batch (request_of input))
          ≡ ok res)
        × (res.batch ≡ none)
        × (e ≡ missing_message (codes "createImportBatch")))

reserve-cases :
    (input : CreateInput) (p : Platform) (s : State)
    → ((u : ReservedUpload) × (reserve input p s
          ≡ (ok u, after s (create_import_batch (request_of input))))
        × IsReserved p s input u)
      ⊎ ((e : Failure) × (reserve input p s
            ≡ (err e, after s (create_import_batch (request_of input))))
          × IsRefused p s input e)
unfolding reserve
reserve-cases input p s =
    elim (Result-cases (p.answer s.calls (create_import_batch (request_of input)))) [
      | inr (e, h) ↦ inr (e, rw h refl, inl h)
      | inl (res, h) ↦ elim (Option-cases res.batch) [
        | inl none_there ↦ inr (
          missing_message (codes "createImportBatch"),
          rw h (rw none_there refl),
          inr (res, h, none_there, refl),
        )
        | inr (b, there) ↦ inl (_, rw h (rw there), (res, b, h, there, refl))
      ]
    ]

-- The store answers a PUT with a status of success.
abbrev IsStored : Platform → List Call → ReservedUpload → Text → Type 0
IsStored p before u file =
    (status : ℕ) × (p.answer before (put u.upload_url u.upload_headers file) ≡ ok status)
    × (200 ≤ status)
    × (status ≤ 299)

-- The PUT fails, or the store answers it with another status.
abbrev IsUnstored : Platform → List Call → ReservedUpload → Text → Failure → Type 0
IsUnstored p before u file e =
    (p.answer before (put u.upload_url u.upload_headers file) ≡ err e)
    ⊎ ((status : ℕ) × (p.answer before (put u.upload_url u.upload_headers file) ≡ ok status)
        × ((status < 200) ⊎ (299 < status))
        × (e ≡ upload_failed status))

outside :
    (status : ℕ) → (leb 200 status && leb status 299) ≡ false → (status < 200) ⊎ (299 < status)
outside status h = elim (dec_lt status 200) [
  | yes low ↦ inl low
  | no high ↦ inr (ground (arith, high, h))
]

abbrev put_of : ReservedUpload → Text → Call
put_of u file = put u.upload_url u.upload_headers file

put_upload-cases :
    (u : ReservedUpload) (file : Text) (p : Platform) (s : State)
    → ((put_upload u file p s ≡ (ok tt, after s (put_of u file))) × IsStored p s.calls u file)
      ⊎ ((e : Failure) × (put_upload u file p s ≡ (err e, after s (put_of u file)))
          × IsUnstored p s.calls u file e)
unfolding put_upload
put_upload-cases u file p s = elim (Result-cases (p.answer s.calls (put_of u file))) [
  | inr (e, h) ↦ inr (e, rw h refl, inl h)
  | inl (status, h) ↦ elim (Bool-cases (leb 200 status && leb status 299)) [
    | inl fine ↦ inl (rw h (rw fine), (status, h, ground arith, ground arith))
    | inr bad ↦
        inr (upload_failed status, rw h (rw bad refl), inr (status, h, outside status bad, refl))
  ]
]

abbrev pub state_of : Option Session → List Call → State
state_of session calls = record { session = session; calls = calls }

require_session-IsExtending : IsExtending require_session
unfolding require_session
require_session-IsExtending p s = go s.session
  where
    go :
        (o : Option Session)
        → Extends (state_of o s.calls) (require_session p (state_of o s.calls)).1
    go none = Extends-refl (state_of none s.calls)
    go (some session) = Extends-refl (state_of (some session) s.calls)

read_detail-IsExtending :
    (org_id id : Text) (found : Option ImportBatch) → IsExtending (read_detail org_id id found)
unfolding read_detail
read_detail-IsExtending org_id id none p s = Extends-refl s
read_detail-IsExtending org_id id (some wire) p s =
    let v = call (get_validation_report org_id id) in
    let d = call (get_dedup_summary org_id id) in
    bind-IsExtending (both (optional v) (optional d))
      (λ r. pure (some (detail_of (batch_from_proto p wire) (flat r.0) (flat r.1))))
      (both-IsExtending (optional v) (optional d)
        (optional-IsExtending v (call-IsExtending (get_validation_report org_id id)))
        (optional-IsExtending d (call-IsExtending (get_dedup_summary org_id id))))
      (λ r p s. Extends-refl s) p s

get_batch-IsExtending : (id : Text) → IsExtending (get_batch id)
unfolding get_batch
get_batch-IsExtending id = bind-IsExtending require_session _ require_session-IsExtending λ session.
    bind-IsExtending (call (get_import_batch session.org_id id)) _ (call-IsExtending _)
      λ found. read_detail-IsExtending session.org_id id found

or_vanished-IsExtending : (d : Option BatchDetail) → IsExtending (or_vanished d)
or_vanished-IsExtending none p s = Extends-refl s
or_vanished-IsExtending (some d) p s = Extends-refl s

abbrev input_of : Session → File → SourceKind → CreateInput
input_of session file kind = record {
  org_id = session.org_id;
  entity_id = session.entity_id;
  source_kind = kind;
  file_name = file.name;
  declared_bytes = file.size;
  declared_type = declared_type_of file.type_;
}

-- What an upload comes to, with the calls that it has made when it ends.
pub data Handshake (p : Platform) (s : State) (session : Session) (file : File) (kind : SourceKind)
    (r : Result BatchDetail) (calls : List Call) : Type 0 where
  -- no batch: nothing was put
  refused :
      (e : Failure)
      → IsRefused p s (input_of session file kind) e
      → r ≡ err e
      → calls ≡ s.calls ++ create_import_batch (request_of (input_of session file kind)) ∷ []
      → Handshake p s session file kind r calls
  -- not stored: nothing was confirmed
  unstored :
      (u : ReservedUpload) (e : Failure)
      → IsReserved p s (input_of session file kind) u
      → IsUnstored p
          (s.calls ++ create_import_batch (request_of (input_of session file kind)) ∷ [])
          u
          file.content
          e
      → r ≡ err e
      → calls
        ≡ s.calls
          ++ create_import_batch (request_of (input_of session file kind))
            ∷ put_of u file.content
            ∷ []
      → Handshake p s session file kind r calls
  -- stored, and then confirmed for the batch that was reserved
  stored :
      (u : ReservedUpload) (more : List Call)
      → IsReserved p s (input_of session file kind) u
      → IsStored p
          (s.calls ++ create_import_batch (request_of (input_of session file kind)) ∷ [])
          u
          file.content
      → calls
        ≡ s.calls
          ++ create_import_batch (request_of (input_of session file kind))
            ∷ put_of u file.content
            ∷ confirm_import_upload session.org_id u.batch_id
            ∷ more
      → Handshake p s session file kind r calls

abbrev after_put : Session → ReservedUpload → Io BatchDetail
after_put session u =
    confirm_upload session.org_id u.batch_id
    >> (do detail ← get_batch u.batch_id; or_vanished detail)

after_put-Extends :
    (session : Session) (u : ReservedUpload) (p : Platform) (s : State)
    → Extends
        (after s (confirm_import_upload session.org_id u.batch_id))
        (after_put session u p s).1
unfolding confirm_upload call
after_put-Extends session u p s =
    elim (Result-cases (p.answer s.calls (confirm_import_upload session.org_id u.batch_id))) [
      | inr (e, h) ↦ rw h (Extends-refl (after s (confirm_import_upload session.org_id u.batch_id)))
      | inl (done, h) ↦ rw h (
          bind-IsExtending (get_batch u.batch_id) or_vanished (get_batch-IsExtending u.batch_id)
            or_vanished-IsExtending p (after s (confirm_import_upload session.org_id u.batch_id)))
    ]

-- Once there is a reservation.
abbrev after_reserve : Session → File → ReservedUpload → Io BatchDetail
after_reserve session file u = put_upload u file.content >> after_put session u

reserved-Handshake :
    (session : Session) (file : File) (kind : SourceKind) (p : Platform) (calls : List Call)
    (u : ReservedUpload)
    → let s = state_of (some session) calls in
      let c = create_import_batch (request_of (input_of session file kind)) in
      let done = after_reserve session file u p (after s c) in
      IsReserved p s (input_of session file kind) u
      → Handshake p s session file kind done.0 done.1.calls
reserved-Handshake session file kind p calls u r =
    let s = state_of (some session) calls in
    let t = after s (create_import_batch (request_of (input_of session file kind))) in
    elim (put_upload-cases u file.content p t) [
      | inr (e, h, why) ↦
          let ends = bind_err (put_upload u file.content) (λ _. after_put session u) p t h in
          unstored u e r why (ap (λ x. x.0) ends)
            (ap (λ x. x.1.calls) ends ∙ append_assoc calls _ _)
      | inl (h, fine) ↦
          let goes = bind_ok (put_upload u file.content) (λ _. after_put session u) p t h in
          let rest = after_put-Extends session u p (after t (put_of u file.content)) in
          stored u rest.more r fine (ap (λ x. x.1.calls) goes ∙ rest.calls ∙ simp append_assoc)
    ]

-- An upload with the session set ends in one of three ways. Core rejects the call for a batch, or answers
-- it without one: the upload fails with that and nothing is put. There is a reservation, and the PUT
-- fails or is answered with a status that is not from 200 to 299: the upload fails with that and
-- nothing is confirmed. Or the store took the file at the address and with the headers of the
-- reservation, with a status from 200 to 299, and the third call confirms the batch that was reserved.
pub upload_batch-Handshake :
    (session : Session) (file : File) (kind : SourceKind) (p : Platform) (calls : List Call)
    → let s = state_of (some session) calls in
      let done = upload_batch file kind p s in Handshake p s session file kind done.0 done.1.calls
unfolding upload_batch require_session
upload_batch-Handshake session file kind p calls =
    let s = state_of (some session) calls in
    let input = input_of session file kind in
    elim (reserve-cases input p s) [
      | inr (e, h, why) ↦
          let ends = bind_err (reserve input) (after_reserve session file) p s h in
          refused e why (ap (λ x. x.0) ends) (ap (λ x. x.1.calls) ends)
      | inl (u, h, r) ↦
          let goes = bind_ok (reserve input) (after_reserve session file) p s h in
          rw goes (reserved-Handshake session file kind p calls u r)
    ]
