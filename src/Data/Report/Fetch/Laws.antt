-- ===== src/Data/Report/Fetch/Laws.antt =====
-- The basis of a report against the batches that are imported.
use mathlib.Core.Bool.{true≢false}
use vekst.Prelude.{
  arith, sym, ◌∙◌, ◌&&◌, ◌||◌, if◌then◌else◌, ◌≡◌, refl, List, [], ◌∷◌, Option, none, some, Bool,
  true, false, ◌⊎◌, inl, inr, Bool-cases,
}
use vekst.Wire.Report.{ReportBasis}
use vekst.Data.Upload.{SourceKind, ledger, bank}
use vekst.Data.Imports.{Batch, BatchState, batch_from_proto, list_batches}
use vekst.Prelude.{Text, map, ◌++◌}
use vekst.Prelude.Result.{ok, err, mixed_basis}
use vekst.Wire.Imports.{ImportBatch}
use vekst.Client.{Platform, Session, Call, call, list_import_batches}
use vekst.Data.Session.{require_session}
use vekst.Data.Report.Fetch.{
  get_report, derive_basis, has_ledger, has_bank, basis_of, is_imported, is_ledger,
}

-- The batch is imported and of the kind.
abbrev pub IsOf : SourceKind → Batch → Type 0
IsOf kind b = (b.state ≡ some BatchState.imported) × (b.source_kind ≡ kind)

-- Some batch of the list is.
pub data Has (kind : SourceKind) : List Batch → Type 0 where
  here : {b : Batch} {bs : List Batch} → IsOf kind b → Has kind (b ∷ bs)
  there : {b : Batch} {bs : List Batch} → Has kind bs → Has kind (b ∷ bs)

Has-has_ledger : {bs : List Batch} → Has ledger bs → has_ledger bs ≡ true
unfolding has_ledger
Has-has_ledger (here (i, k)) = rw i (rw k refl)
Has-has_ledger (there {b} h) = ground (arith, Has-has_ledger h)

Has-has_bank : {bs : List Batch} → Has bank bs → has_bank bs ≡ true
unfolding has_bank
Has-has_bank (here (i, k)) = rw i (rw k refl)
Has-has_bank (there {b} h) = ground (arith, Has-has_bank h)

-- One batch: of the ledger, of the bank, or not imported.
step_ledger :
    (st : Option BatchState) (k : SourceKind) (rest : Bool)
    → (is_imported st && is_ledger k || rest) ≡ true
    → ((st ≡ some BatchState.imported) × (k ≡ ledger)) ⊎ (rest ≡ true)
step_ledger (some BatchState.imported) ledger rest h = inl (refl, refl)
step_ledger (some BatchState.imported) bank rest h = inr h
step_ledger (some BatchState.pending) k rest h = inr h
step_ledger (some BatchState.parsing) k rest h = inr h
step_ledger (some BatchState.rejected) k rest h = inr h
step_ledger none k rest h = inr h

step_bank :
    (st : Option BatchState) (k : SourceKind) (rest : Bool)
    → (is_imported st && (if is_ledger k then false else true) || rest) ≡ true
    → ((st ≡ some BatchState.imported) × (k ≡ bank)) ⊎ (rest ≡ true)
step_bank (some BatchState.imported) ledger rest h = inr h
step_bank (some BatchState.imported) bank rest h = inl (refl, refl)
step_bank (some BatchState.pending) k rest h = inr h
step_bank (some BatchState.parsing) k rest h = inr h
step_bank (some BatchState.rejected) k rest h = inr h
step_bank none k rest h = inr h

has_ledger-Has : (bs : List Batch) → has_ledger bs ≡ true → Has ledger bs
unfolding has_ledger
has_ledger-Has [] h = ground arith
has_ledger-Has (b ∷ bs) h = elim (step_ledger b.state b.source_kind (has_ledger bs) h) [
  | inl x ↦ here x
  | inr rest ↦ there (has_ledger-Has bs rest)
]

has_bank-Has : (bs : List Batch) → has_bank bs ≡ true → Has bank bs
unfolding has_bank
has_bank-Has [] h = ground arith
has_bank-Has (b ∷ bs) h = elim (step_bank b.state b.source_kind (has_bank bs) h) [
  | inl x ↦ here x
  | inr rest ↦ there (has_bank-Has bs rest)
]

-- What a basis says of the batches.
abbrev pub Agrees : List Batch → Option ReportBasis → Type 0
Agrees bs none = Has ledger bs × Has bank bs
Agrees bs (some ReportBasis.ledger) = Has ledger bs × (¬ Has bank bs)
Agrees bs (some ReportBasis.bank) = ¬ Has ledger bs
Agrees bs (some _) = ⊥

-- The basis of a report is decided by the imported batches alone. It is refused exactly when they have
-- both kinds of source, it is the ledger when they have that one only, and otherwise it is the bank.
pub basis_of-Agrees : (bs : List Batch) → Agrees bs (basis_of bs)
unfolding basis_of
basis_of-Agrees bs = elim (Bool-cases (has_ledger bs)) [
  | inr missing ↦ rw missing (λ l. true≢false (sym (Has-has_ledger l) ∙ missing))
  | inl found ↦ elim (Bool-cases (has_bank bs)) [
    | inl too ↦ rw found (rw too (has_ledger-Has bs found, has_bank-Has bs too))
    | inr not_too ↦
        rw found
          (rw not_too (has_ledger-Has bs found, λ b. true≢false (sym (Has-has_bank b) ∙ not_too)))
  ]
]

basis_of-none : (bs : List Batch) → Has ledger bs → Has bank bs → basis_of bs ≡ none
unfolding basis_of
basis_of-none bs l b = rw (Has-has_ledger l) (rw (Has-has_bank b) refl)

-- Where the imported batches have both kinds of source, no report is asked for: the call for the
-- batches is the only one, and the report fails with the failure for a mixed basis.
pub get_report_mixed :
    (p : Platform) (session : Session) (calls : List Call) (from to : Text)
    (wires : List ImportBatch)
    → p.answer calls (list_import_batches session.org_id session.entity_id) ≡ ok wires
    → Has ledger (map (batch_from_proto p) wires)
    → Has bank (map (batch_from_proto p) wires)
    → get_report from to p (record { session = some session; calls = calls }) ≡ (
      err mixed_basis,
      record {
        session = some session;
        calls = calls ++ list_import_batches session.org_id session.entity_id ∷ [];
      },
    )
unfolding get_report derive_basis list_batches require_session call
get_report_mixed p session calls from to wires answered l b =
    rw answered (rw (basis_of-none (map (batch_from_proto p) wires) l b) refl)
