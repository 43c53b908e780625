-- ===== src/Client.antt =====
-- Calls of core, as the data modules make them. What is not in this repository's client is a
-- parameter: what core and the object store answer, given every call made before, and how a wire
-- timestamp becomes a date and a text. A promise is a step from the state before to the state after.
pub mod Laws
use vekst.Prelude.{Text, codes, ℕ, ℤ, List, [], ◌∷◌, ◌++◌, Option, none, some}
use vekst.Prelude.Result.{Result, ok, err, Failure, missing_message}
use vekst.Wire.Imports.{
  Timestamp, ImportBatch, ValidationReport, DedupSummary, SkippedRow, InternalTransfer, ImportedRow,
  CreateImportBatchRequest, CreateImportBatchResponse,
}
use vekst.Wire.Report.{
  GetManagementPnlRequest, GetManagementPnlResponse, ListLineTransactionsRequest,
  ListLineTransactionsResponse,
}
use vekst.Wire.Review.{
  ListReviewGroupsRequest, ListReviewGroupsResponse, ListGroupTransactionsRequest,
  QueuedTransaction, ResolveGroupRequest, Category, CreateOrganizationRequest,
  CreateOrganizationResponse,
}

-- A request; `put` is the browser's own PUT to the object store, `log_out` its POST.
pub data Call : Type 0 where
  create_import_batch : CreateImportBatchRequest → Call
  put : (url : Text) (headers : List (Text × Text)) (file : Text) → Call
  confirm_import_upload : (org_id batch_id : Text) → Call
  list_import_batches : (org_id entity_id : Text) → Call
  get_import_batch : (org_id batch_id : Text) → Call
  list_batch_transactions : (org_id batch_id : Text) → Call
  get_validation_report : (org_id batch_id : Text) → Call
  override_validation : (org_id batch_id reason : Text) → Call
  get_dedup_summary : (org_id batch_id : Text) → Call
  list_skipped_rows : (org_id batch_id : Text) → Call
  list_internal_transfers : (org_id entity_id : Text) → Call
  dismiss_internal_transfer : (org_id transfer_id : Text) → Call
  get_management_pnl : GetManagementPnlRequest → Call
  list_line_transactions : ListLineTransactionsRequest → Call
  list_review_groups : ListReviewGroupsRequest → Call
  list_group_transactions : ListGroupTransactionsRequest → Call
  resolve_group : ResolveGroupRequest → Call
  list_categories : (organization_id : Text) → Call
  create_organization : CreateOrganizationRequest → Call
  log_out : Call

-- What a call that is not rejected brings; the status of a PUT.
abbrev pub Reply : Call → Type 0
Reply (create_import_batch _) = CreateImportBatchResponse
Reply (put _ _ _) = ℕ
Reply (confirm_import_upload _ _) = Unit
Reply (list_import_batches _ _) = List ImportBatch
Reply (get_import_batch _ _) = Option ImportBatch
Reply (list_batch_transactions _ _) = List ImportedRow
Reply (get_validation_report _ _) = Option ValidationReport
Reply (override_validation _ _ _) = Option ValidationReport
Reply (get_dedup_summary _ _) = Option DedupSummary
Reply (list_skipped_rows _ _) = List SkippedRow
Reply (list_internal_transfers _ _) = List InternalTransfer
Reply (dismiss_internal_transfer _ _) = Option InternalTransfer
Reply (get_management_pnl _) = GetManagementPnlResponse
Reply (list_line_transactions _) = ListLineTransactionsResponse
Reply (list_review_groups _) = ListReviewGroupsResponse
Reply (list_group_transactions _) = List QueuedTransaction
Reply (resolve_group _) = Unit
Reply (list_categories _) = List Category
Reply (create_organization _) = CreateOrganizationResponse
Reply log_out = Unit

-- Milliseconds since the epoch.
abbrev pub Date : Type 0
Date = ℤ

pub record Platform : Type 0 where
  pub answer : List Call → (c : Call) → Result (Reply c)
  pub timestamp_date : Timestamp → Date
  pub to_iso_string : Date → Text
  -- the message of an error that is no rejected call
  pub message_of : Failure → Text

-- web/src/data/session.ts
pub record Session : Type 0 where
  pub org_id : Text
  pub entity_id : Text
  pub base_currency : Text

pub record State : Type 0 where
  pub session : Option Session
  pub calls : List Call

abbrev pub Io {ℓ} : Type ℓ → Type ℓ
Io A = Platform → State → Result A × State

module _ {ℓ} {A : Type ℓ} where
  abbrev pub pure : A → Io A
  pure a p s = (ok a, s)

  abbrev pub lift : Result A → Io A
  lift r p s = (r, s)

  abbrev pub throw : Failure → Io A
  throw e p s = (err e, s)

  abbrev pub handled : (Failure → Io A) → Platform → Result A × State → Result A × State
  handled handler p (ok a, s) = (ok a, s)
  handled handler p (err e, s) = handler e p s

  -- try { … } catch (err) { … }
  abbrev pub catch_with : Io A → (Failure → Io A) → Io A
  catch_with m handler p s = handled handler p (m p s)

  abbrev pub caught : Result A × State → Result (Option A) × State
  caught (ok a, s) = (ok (some a), s)
  caught (err e, s) = (ok none, s)

  -- .catch(() => undefined)
  abbrev pub optional : Io A → Io (Option A)
  optional m p s = caught (m p s)

abbrev pub continue {ℓ κ} :
    {A : Type ℓ} {B : Type κ} → Result A × State → (A → Io B) → Platform → Result B × State
continue (ok a, s) f p = f a p s
continue (err e, s) f p = (err e, s)

infixl 5 ◌>>=◌ ◌>>◌
abbrev pub ◌>>=◌ {ℓ κ} : {A : Type ℓ} {B : Type κ} → Io A → (A → Io B) → Io B
◌>>=◌ m f p s = continue (m p s) f p

abbrev pub ◌>>◌ {ℓ κ} : {A : Type ℓ} {B : Type κ} → Io A → Io B → Io B
m >> n = m >>= λ _. n

-- A field of a response that may be missing: if (!res.field) throw new Error(…).
abbrev pub required {ℓ κ} : {A : Type ℓ} {B : Type κ} → Text → (A → B) → Option A → Io B
required name view none = throw (missing_message name)
required name view (some a) = pure (view a)

abbrev both_ok {ℓ κ} : {A : Type ℓ} {B : Type κ} → Result A → Result B → Result (A × B)
both_ok (ok a) (ok b) = ok (a, b)
both_ok (err e) _ = err e
both_ok (ok a) (err e) = err e

-- Promise.all([m, n]): the second is begun whatever becomes of the first. Where both are rejected,
-- the first listed is the one that is reported.
abbrev pub both {ℓ κ} : {A : Type ℓ} {B : Type κ} → Io A → Io B → Io (A × B)
both m n p s = let (a, s') = m p s in let (b, s'') = n p s' in (both_ok a b, s'')

-- A call is answered in the light of those before it, and is remembered whatever the answer.
unfoldable pub call : (c : Call) → Io (Reply c)
call c p s = (p.answer s.calls c, record s { calls = s.calls ++ c ∷ [] })
