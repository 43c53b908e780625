-- ===== src/Data/Review.antt =====
-- web/src/data/review.ts: the review queue and the decisions that empty it.
pub mod Laws
use vekst.Prelude.{Text, codes, ℕ, ℤ, pos, List, [], ◌∷◌, map, Option, none, some}
use vekst.Prelude.Result.{Failure, rejected, resolve_group, create_organisation, session_not_set}
use vekst.Money.{Money}
use vekst.App.CategoryTree.{Category}
use vekst.Wire.Review
use vekst.Wire.Review.{QueuedTransaction, ReviewOutcome, CreateOrganizationRequest}
use vekst.Client.{
  Platform, Io, pure, throw, call, catch_with, list_review_groups, list_group_transactions,
  list_categories, create_organization, ◌>>=◌,
}
use vekst.Client
use vekst.Data.Session.{require_session}
use vekst.Data.Imports.{money_from_proto}

abbrev page_size : ℤ
page_size = pos 500

pub record ReviewTransaction : Type 0 where
  pub id : Text
  pub booked_on : Text
  pub description : Text
  pub amount : Money

unfoldable pub transaction_from_proto : QueuedTransaction → ReviewTransaction
unfolding money_from_proto
transaction_from_proto t = record {
  id = t.id;
  booked_on = t.booked_on;
  description = t.description;
  amount = money_from_proto t.amount;
}

pub record ReviewGroup : Type 0 where
  pub counterparty_key : Text
  pub counterparty_label : Text
  pub row_count : ℤ
  pub total : Money
  pub first_seen : Text
  pub last_seen : Text

unfoldable pub group_from_proto : Review.ReviewGroup → ReviewGroup
unfolding money_from_proto
group_from_proto g = record {
  counterparty_key = g.counterparty_key;
  counterparty_label = g.display_name;
  row_count = g.row_count;
  total = money_from_proto g.total;
  first_seen = g.first_seen;
  last_seen = g.last_seen;
}

unfoldable pub review_groups : Io (List ReviewGroup)
unfolding require_session call group_from_proto
review_groups = do
  session ← require_session
  res ← call (
      list_review_groups (record {
        organization_id = session.org_id;
        entity_id = session.entity_id;
        limit = page_size;
        offset = pos 0;
      }))
  pure (map group_from_proto res.groups)

unfoldable pub group_transactions : Text → Io (List ReviewTransaction)
unfolding require_session call transaction_from_proto
group_transactions counterparty_key = do
  session ← require_session
  transactions ← call (
      list_group_transactions (record {
        organization_id = session.org_id;
        entity_id = session.entity_id;
        counterparty_key = counterparty_key;
      }))
  pure (map transaction_from_proto transactions)

pub record ReviewSummary : Type 0 where
  pub groups : ℤ
  pub rows : ℤ
  pub amount : Money

unfoldable pub review_summary : Io ReviewSummary
unfolding require_session call money_from_proto
review_summary = do
  session ← require_session
  res ← call (
      list_review_groups (record {
        organization_id = session.org_id;
        entity_id = session.entity_id;
        limit = pos 1;
        offset = pos 0;
      }))
  pure (record {
    groups = res.total_counterparty_count;
    rows = res.total_row_count;
    amount = money_from_proto res.total_absolute;
  })

unfoldable pub category_from_proto : Review.Category → Category
category_from_proto c = record { id = c.id; code = c.code; label = c.name; path = c.path }

unfoldable pub categories : Io (List Category)
unfolding require_session call category_from_proto
categories = do
  session ← require_session
  cs ← call (list_categories session.org_id)
  pure (map category_from_proto cs)

pub data ReviewDecision : Type 0 where
  classify : (category_code : Text) → ReviewDecision
  internal_transfer not_in_pnl : ReviewDecision

unfoldable pub to_proto_outcome : ReviewDecision → ReviewOutcome
to_proto_outcome (classify code) = ReviewOutcome.categorised
to_proto_outcome internal_transfer = ReviewOutcome.internal_transfer
to_proto_outcome not_in_pnl = ReviewOutcome.non_pnl

abbrev pub code_of : ReviewDecision → Text
code_of (classify code) = code
code_of _ = []

-- ConnectError.from(err).rawMessage: an error that is no rejected call keeps its own message.
abbrev pub raw_message_of : Platform → Failure → Text
raw_message_of p (rejected message) = message
raw_message_of p e = p.message_of e

-- code || "error.unknown"
abbrev pub or_unknown : Text → Text
or_unknown [] = codes "error.unknown"
or_unknown (c ∷ s) = c ∷ s

abbrev raw_message : Platform → Failure → Text
raw_message p e = or_unknown (raw_message_of p e)

unfoldable pub decide_group : Text → ReviewDecision → Io (Unit {0})
unfolding require_session call to_proto_outcome
decide_group counterparty_key decision = do
  session ← require_session
  catch_with
      (call (
        Client.resolve_group (record {
          organization_id = session.org_id;
          entity_id = session.entity_id;
          counterparty_key = counterparty_key;
          outcome = to_proto_outcome decision;
          category_code = code_of decision;
        })))
      (λ e p. throw (resolve_group (raw_message p e)) p)

pub record CreatedOrganisation : Type 0 where
  pub organization_id : Text
  pub entity_id : Text

-- web/src/data/org.ts
unfoldable pub sign_up : CreateOrganizationRequest → Io CreatedOrganisation
unfolding call
sign_up input =
    catch_with
      (do
        res ← call (create_organization input)
        pure (record { organization_id = res.organization_id; entity_id = res.entity_id }))
      (λ e p. throw (create_organisation (raw_message p e)) p)
