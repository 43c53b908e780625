-- ===== src/Wire/Report.antt =====
-- web/src/gen/vekst/v1/report_pb.ts: the report service's messages.
use vekst.Prelude.{Text, ℕ, ℤ, List, Bool, Option}
use vekst.Money.{Money}
use vekst.Wire.Imports.{Double}

pub data ReportBasis : Type 0 where
  unspecified ledger bank : ReportBasis
  unrecognised : ℕ → ReportBasis

pub data ReportGranularity : Type 0 where
  unspecified month quarter year : ReportGranularity
  unrecognised : ℕ → ReportGranularity

pub data ReportBucketKind : Type 0 where
  unspecified unclassified non_pnl unallocated other_basis : ReportBucketKind
  unrecognised : ℕ → ReportBucketKind

pub data ReportAnswerKind : Type 0 where
  unspecified transactions operands : ReportAnswerKind
  unrecognised : ℕ → ReportAnswerKind

pub record ReportFigure : Type 0 where
  pub amount : Option Money
  pub percent_of_revenue : Option Double

pub record ReportLine : Type 0 where
  pub code : Text
  pub label : Text
  pub formula : Text
  pub computed : Bool
  pub by_period : List ReportFigure
  pub total : Option ReportFigure

pub record ReportBucketLine : Type 0 where
  pub kind : ReportBucketKind
  pub by_period : List Money
  pub total : Option Money

pub record ReportVersions : Type 0 where
  pub taxonomy : List Text
  pub rule_set : List Text
  pub engine : List Text
  pub normalize : List Text

pub record ReconciliationLine : Type 0 where
  pub period : Text
  pub opening : Option Money
  pub money_in : Option Money
  pub money_out : Option Money
  pub transfers : Option Money
  pub transfer_row_count : ℤ
  pub closing : Option Money
  pub balances : Bool
  pub derived : Bool

pub record GetManagementPnlRequest : Type 0 where
  pub organization_id : Text
  pub entity_id : Text
  pub from : Text
  pub to : Text
  pub granularity : ReportGranularity
  pub basis : ReportBasis

pub record GetManagementPnlResponse : Type 0 where
  pub basis : ReportBasis
  pub granularity : ReportGranularity
  pub from : Text
  pub to : Text
  pub base_currency : Text
  pub periods : List Text
  pub lines : List ReportLine
  pub buckets : List ReportBucketLine
  pub versions : Option ReportVersions
  pub reconciliation : List ReconciliationLine

pub record DrillTransaction : Type 0 where
  pub id : Text
  pub booked_on : Text
  pub batch_id : Text
  pub line_no : ℤ
  pub posting_no : ℤ
  pub document_ref : Text
  pub amount : Option Money
  pub base_amount : Option Money
  pub counterparty_raw : Text
  pub description : Text
  pub regulated_code : Text
  pub source_kind : Text
  pub category_code : Text
  pub category_name : Text
  pub engine_layer : Text
  pub evidence : Text
  pub confidence : Option Double
  pub decided_by : Text

pub record ReportOperand : Type 0 where
  pub code : Text
  pub label : Text
  pub subtracted : Bool

pub record ListLineTransactionsRequest : Type 0 where
  pub organization_id : Text
  pub entity_id : Text
  pub basis : ReportBasis
  pub granularity : ReportGranularity
  pub from : Text
  pub to : Text
  pub period : Text
  pub line : Text
  pub cursor : Text
  pub limit : ℤ

pub record ListLineTransactionsResponse : Type 0 where
  pub kind : ReportAnswerKind
  pub transactions : List DrillTransaction
  pub operands : List ReportOperand
  pub row_count : ℤ
  pub total : Option Money
  pub next_cursor : Text
