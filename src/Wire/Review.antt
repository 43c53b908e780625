-- ===== src/Wire/Review.antt =====
-- web/src/gen/vekst/v1/review_pb.ts and org_pb.ts: the messages of the review queue and of sign-up.
use vekst.Prelude.{Text, ℕ, ℤ, List, Bool, Option}
use vekst.Money.{Money}

pub data ReviewOutcome : Type 0 where
  unspecified categorised internal_transfer non_pnl skipped : ReviewOutcome
  unrecognised : ℕ → ReviewOutcome

pub record ReviewGroup : Type 0 where
  pub counterparty_key : Text
  pub display_name : Text
  pub row_count : ℤ
  pub total : Option Money
  pub first_seen : Text
  pub last_seen : Text

pub record ListReviewGroupsRequest : Type 0 where
  pub organization_id : Text
  pub entity_id : Text
  pub limit : ℤ
  pub offset : ℤ

pub record ListReviewGroupsResponse : Type 0 where
  pub groups : List ReviewGroup
  pub total_row_count : ℤ
  pub total_counterparty_count : ℤ
  pub total_absolute : Option Money

pub record ListGroupTransactionsRequest : Type 0 where
  pub organization_id : Text
  pub entity_id : Text
  pub counterparty_key : Text

pub record QueuedTransaction : Type 0 where
  pub id : Text
  pub booked_on : Text
  pub direction : Text
  pub amount : Option Money
  pub base_amount : Option Money
  pub description : Text
  pub counterparty_raw : Text
  pub regulated_code : Text
  pub source_kind : Text

pub record ResolveGroupRequest : Type 0 where
  pub organization_id : Text
  pub entity_id : Text
  pub counterparty_key : Text
  pub outcome : ReviewOutcome
  pub category_code : Text

pub record Category : Type 0 where
  pub id : Text
  pub code : Text
  pub name : Text
  pub path : Text
  pub is_pnl : Bool

pub record CreateOrganizationRequest : Type 0 where
  pub name : Text
  pub country : Text
  pub base_currency : Text
  pub entity_name : Text

pub record CreateOrganizationResponse : Type 0 where
  pub organization_id : Text
  pub entity_id : Text
