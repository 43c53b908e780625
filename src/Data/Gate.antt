-- ===== src/Data/Gate.antt =====
-- A call before the organisation is known is refused here, and is not made.
use vekst.Prelude.{Text, ◌≡◌}
use vekst.Prelude.Result.{err, session_not_set}
use vekst.Client.{Platform, State, Io}
use vekst.Data.Imports.{list_batches, get_batch, list_rows}
use vekst.Data.Imports.Upload.{File, upload_batch}
use vekst.Data.Upload.{SourceKind}
use vekst.Data.Report.Fetch.{derive_basis, get_report, get_drilldown}
use vekst.Data.Review.{
  review_groups, group_transactions, review_summary, categories, decide_group, ReviewDecision,
}

-- The step fails for want of a session, and nothing is sent.
abbrev pub IsRefused {ℓ} : {A : Type ℓ} → Io A → Platform → State → Type ℓ
IsRefused m p s = m p s ≡ (err session_not_set, s)

-- The operations of the data modules that are about an organisation: the imports, the upload, the
-- report and its drill-down, the review queue and its decisions.
module _ (id counterparty period from to : Text) (file : File) (kind : SourceKind)
    (d : ReviewDecision) (p : Platform) (s : State) where
  abbrev pub AllRefused : Type 0
  AllRefused =
      IsRefused list_batches p s
      × IsRefused (get_batch id) p s
      × IsRefused (list_rows id) p s
      × IsRefused (upload_batch file kind) p s
      × IsRefused derive_basis p s
      × IsRefused (get_report from to) p s
      × IsRefused (get_drilldown id period from to) p s
      × IsRefused review_groups p s
      × IsRefused (group_transactions counterparty) p s
      × IsRefused (review_summary) p s
      × IsRefused categories p s
      × IsRefused (decide_group counterparty d) p s
