-- ===== src/Data/Validation.antt =====
-- web/src/data/validation.ts: a batch's validation report, and overriding a warning.
use vekst.Prelude.{Text, codes, ℤ, Bool, List, map, Option}
use mathlib.Core.Option
use vekst.Wire.Imports
use vekst.Wire.Imports.{BalanceMismatchDetail}
use vekst.Client.{
  required, Platform, Date, Io, call, get_validation_report, override_validation, ◌>>=◌,
}

pub data ValidationOutcome : Type 0 where
  valid valid_with_warnings rejected : ValidationOutcome

unfoldable pub outcome_from_proto : Imports.ValidationOutcome → ValidationOutcome
outcome_from_proto Imports.ValidationOutcome.valid = valid
outcome_from_proto Imports.ValidationOutcome.rejected = rejected
outcome_from_proto _ = valid_with_warnings

pub record ValidationErrorDetail : Type 0 where
  pub line : ℤ
  pub field : Text
  pub code : Text
  pub raw : Text

pub record ValidationWarningDetail : Type 0 where
  pub code : Text
  pub balance_mismatch : Option BalanceMismatchDetail

pub record ValidationReportView : Type 0 where
  pub batch_id : Text
  pub outcome : ValidationOutcome
  pub row_count : ℤ
  pub error_count : ℤ
  pub warning_count : ℤ
  pub balance_check_passed : Option Bool
  pub errors : List ValidationErrorDetail
  pub warnings : List ValidationWarningDetail
  pub overridden_by_user_id : Text
  pub override_reason : Text
  pub overridden_at : Option Date

unfoldable pub report_view : Platform → Imports.ValidationReport → ValidationReportView
unfolding outcome_from_proto
report_view p report = record {
  batch_id = report.batch_id;
  outcome = outcome_from_proto report.outcome;
  row_count = report.row_count;
  error_count = report.error_count;
  warning_count = report.warning_count;
  balance_check_passed = report.balance_check_passed;
  errors =
      map (λ e. record { line = e.line; field = e.field; code = e.code; raw = e.raw })
        report.errors;
  warnings =
      map (λ w. record { code = w.code; balance_mismatch = w.balance_mismatch }) report.warnings;
  overridden_by_user_id = report.overridden_by_user_id;
  override_reason = report.override_reason;
  overridden_at = Option.map p.timestamp_date report.overridden_at;
}

unfoldable pub read_report : Text → Text → Io ValidationReportView
unfolding call report_view
read_report org_id batch_id p =
    (do
      report ← call (get_validation_report org_id batch_id)
      required (codes "getValidationReport") (report_view p) report)
      p

unfoldable pub override : Text → Text → Text → Io ValidationReportView
unfolding call report_view
override org_id batch_id reason p =
    (do
      report ← call (override_validation org_id batch_id reason)
      required (codes "overrideValidation") (report_view p) report)
      p
