-- ===== src/Data/Dedup.antt =====
-- web/src/data/dedup.ts: a batch's dedup summary and skipped rows, and an entity's transfers.
use vekst.Prelude.{Text, codes, ℤ, pos, List, map, Option, none, some}
use mathlib.Core.Option
use vekst.Wire.Imports.{Timestamp, DedupSummary, SkippedRow, InternalTransfer}
use vekst.Client.{
  required, Platform, Date, Io, pure, call, get_dedup_summary, list_skipped_rows,
  list_internal_transfers, dismiss_internal_transfer, ◌>>=◌,
}

pub record DedupSummaryView : Type 0 where
  pub imported_rows : ℤ
  pub skipped_in_batch : ℤ
  pub skipped_cross_batch : ℤ
  pub internal_transfers : ℤ

unfoldable pub summary_from_proto : DedupSummary → DedupSummaryView
summary_from_proto s = record {
  imported_rows = s.imported_rows;
  skipped_in_batch = s.skipped_in_batch;
  skipped_cross_batch = s.skipped_cross_batch;
  internal_transfers = s.internal_transfers;
}

unfoldable pub read_summary : Text → Text → Io DedupSummaryView
unfolding call summary_from_proto
read_summary org_id batch_id = do
  summary ← call (get_dedup_summary org_id batch_id)
  required (codes "getDedupSummary") summary_from_proto summary

-- The epoch, where the wire carries no time.
abbrev date_or_epoch : Platform → Option Timestamp → Date
date_or_epoch p none = pos 0
date_or_epoch p (some t) = p.timestamp_date t

pub record SkippedRowView : Type 0 where
  pub line_no : ℤ
  pub posting_no : ℤ
  pub level : Text
  pub dedup_hash : Text
  pub matched_transaction_id : Text
  pub matched_batch_id : Text
  pub created_at : Date

unfoldable pub skipped_row_from_proto : Platform → SkippedRow → SkippedRowView
skipped_row_from_proto p r = record {
  line_no = r.line_no;
  posting_no = r.posting_no;
  level = r.level;
  dedup_hash = r.dedup_hash;
  matched_transaction_id = r.matched_transaction_id;
  matched_batch_id = r.matched_batch_id;
  created_at = date_or_epoch p r.created_at;
}

unfoldable pub skipped_rows : Text → Text → Io (List SkippedRowView)
unfolding call skipped_row_from_proto
skipped_rows org_id batch_id p =
    (do rows ← call (list_skipped_rows org_id batch_id); pure (map (skipped_row_from_proto p) rows))
      p

pub record InternalTransferView : Type 0 where
  pub id : Text
  pub out_transaction_id : Text
  pub in_transaction_id : Text
  pub detected_at : Date
  pub dismissed_by_user_id : Text
  pub dismissed_at : Option Date

unfoldable pub transfer_from_proto : Platform → InternalTransfer → InternalTransferView
transfer_from_proto p t = record {
  id = t.id;
  out_transaction_id = t.out_transaction_id;
  in_transaction_id = t.in_transaction_id;
  detected_at = date_or_epoch p t.detected_at;
  dismissed_by_user_id = t.dismissed_by_user_id;
  dismissed_at = Option.map p.timestamp_date t.dismissed_at;
}

unfoldable pub internal_transfers : Text → Text → Io (List InternalTransferView)
unfolding call transfer_from_proto
internal_transfers org_id entity_id p =
    (do
      transfers ← call (list_internal_transfers org_id entity_id)
      pure (map (transfer_from_proto p) transfers))
      p

unfoldable pub dismiss_transfer : Text → Text → Io InternalTransferView
unfolding call transfer_from_proto
dismiss_transfer org_id transfer_id p =
    (do
      transfer ← call (dismiss_internal_transfer org_id transfer_id)
      required (codes "dismissInternalTransfer") (transfer_from_proto p) transfer)
      p
