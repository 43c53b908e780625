-- ===== src/Data/Report/Fetch.antt =====
-- web/src/data/report.ts: the basis of a report, and the calls that fetch a report and a drill-down.
pub mod Laws
use vekst.Prelude.{
  Text, codes, ℤ, pos, List, [], ◌∷◌, map, Option, none, some, Bool, true, false, ◌&&◌, ◌||◌,
  if◌then◌else◌,
}
use vekst.Prelude.Strings.{text_eq}
use vekst.Prelude.Result.{mixed_basis}
use vekst.Money.{Money}
use vekst.Wire.Imports.{Double}
use vekst.Wire.Report.{
  ReportBasis, ReportGranularity, ReportAnswerKind, DrillTransaction, ReportOperand,
}
use vekst.Client.{
  Io, pure, throw, lift, call, both, get_management_pnl, list_line_transactions, ◌>>=◌,
}
use vekst.Data.Session.{require_session}
use vekst.Data.Upload.{SourceKind, ledger, bank}
use vekst.Data.Imports.{Batch, BatchState, list_batches, money_from_proto, or_undefined}
use vekst.Data.Report.{Basis, cash, accrual, Provenance, Report, ReportLine, report_from_proto}

abbrev pub is_imported : Option BatchState → Bool
is_imported (some BatchState.imported) = true
is_imported _ = false

abbrev pub is_ledger : SourceKind → Bool
is_ledger ledger = true
is_ledger bank = false

-- Whether the imported batches have one of a kind: `kinds.has(kind)`.
unfoldable pub has_ledger : List Batch → Bool
has_ledger [] = false
has_ledger (b ∷ bs) = (is_imported b.state && is_ledger b.source_kind) || has_ledger bs

unfoldable pub has_bank : List Batch → Bool
has_bank [] = false
has_bank (b ∷ bs) =
    (is_imported b.state && (if is_ledger b.source_kind then false else true)) || has_bank bs

unfoldable pub basis_of : List Batch → Option ReportBasis
unfolding has_ledger has_bank
basis_of batches =
    if has_ledger batches && has_bank batches
    then none
    else if has_ledger batches
    then some ReportBasis.ledger
    else some ReportBasis.bank

unfoldable pub derive_basis : Io ReportBasis
unfolding list_batches basis_of
derive_basis = do
  batches ← list_batches
  elim (basis_of batches) [ none ↦ throw mixed_basis | some basis ↦ pure basis ]

unfoldable pub basis_from_proto : ReportBasis → Basis
basis_from_proto ReportBasis.ledger = accrual
basis_from_proto _ = cash

unfoldable pub get_report : Text → Text → Io Report
unfolding require_session derive_basis call basis_from_proto report_from_proto
get_report from to = do
  session ← require_session
  basis ← derive_basis
  res ← call (
      get_management_pnl (record {
        organization_id = session.org_id;
        entity_id = session.entity_id;
        from = from;
        to = to;
        granularity = ReportGranularity.month;
        basis = basis;
      }))
  lift (
      report_from_proto (basis_from_proto res.basis) res.periods res.lines res.buckets
        res.reconciliation res.versions)

pub record DrilldownRow : Type 0 where
  pub id : Text
  pub booked_on : Text
  pub description : Text
  pub amount : Money
  pub category_label : Text
  pub layer : Text
  pub confidence : Option Double
  pub evidence : Option Text

abbrev or_l0 : Text → Text
or_l0 [] = codes "L0"
or_l0 (c ∷ s) = c ∷ s

unfoldable pub row_from_proto : DrillTransaction → DrilldownRow
unfolding money_from_proto
row_from_proto t = record {
  id = t.id;
  booked_on = t.booked_on;
  description = t.description;
  amount = money_from_proto t.amount;
  category_label = t.category_name;
  layer = or_l0 t.engine_layer;
  confidence = t.confidence;
  evidence = or_undefined t.evidence;
}

pub record DrilldownOperand : Type 0 where
  pub category_id : Text
  pub label : Text
  pub subtracted : Bool

unfoldable pub operand_from_proto : ReportOperand → DrilldownOperand
operand_from_proto o = record { category_id = o.code; label = o.label; subtracted = o.subtracted }

pub data DrilldownKind : Type 0 where
  transactions operands : DrilldownKind

unfoldable pub kind_from_proto : ReportAnswerKind → DrilldownKind
kind_from_proto ReportAnswerKind.operands = operands
kind_from_proto _ = transactions

pub record Drilldown : Type 0 where
  pub category_id : Text
  pub category_label : Text
  pub period : Text
  pub amount : Money
  pub kind : DrilldownKind
  pub rows : List DrilldownRow
  pub operands : List DrilldownOperand
  pub provenance : Provenance

-- report.lines.find(…)?.label ?? categoryId
unfoldable pub label_of : Text → List ReportLine → Text
unfolding text_eq
label_of id [] = id
label_of id (l ∷ ls) = if text_eq l.category_id id then l.label else label_of id ls

unfoldable pub get_drilldown : (category_id period from to : Text) → Io Drilldown
unfolding require_session derive_basis get_report call label_of row_from_proto operand_from_proto
    kind_from_proto money_from_proto
get_drilldown category_id period from to = do
  session ← require_session
  (basis, report) ← both derive_basis (get_report from to)
  res ← call (
      list_line_transactions (record {
        organization_id = session.org_id;
        entity_id = session.entity_id;
        basis = basis;
        granularity = ReportGranularity.month;
        from = from;
        to = to;
        period = period;
        line = category_id;
        cursor = [];
        limit = pos 500;
      }))
  pure (record {
    category_id = category_id;
    category_label = label_of category_id report.lines;
    period = period;
    amount = money_from_proto res.total;
    kind = kind_from_proto res.kind;
    rows = map row_from_proto res.transactions;
    operands = map operand_from_proto res.operands;
    provenance = report.provenance;
  })
