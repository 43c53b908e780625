-- ===== src/I18n/EnApp.antt =====
-- web/src/i18n.ts, the English catalogue, lines 153 to 289.
use vekst.Prelude.{List, [], ◌∷◌, Text}
use vekst.I18n.Message.{msg}

abbrev pub en_app : List (Text × Text)
en_app =
    msg "home.title" "Home"
    ∷ msg "home.imports.count" "Batches"
    ∷ msg "home.imports.latest" "Latest"
    ∷ msg "home.review.awaiting" "Awaiting review"
    ∷ msg "home.reports.net" "Net result"
    ∷ msg "home.account.title" "Account"
    ∷ msg "imports.title" "Imports"
    ∷ msg "imports.upload" "Upload a file"
    ∷ msg "imports.chooseSource" "Where is this file from?"
    ∷ msg "imports.source.ledger" "Ledger"
    ∷ msg "imports.source.bank" "Bank"
    ∷ msg "imports.sourceNote"
        "This decides the accounting basis and cannot be read from the file. It is not optional."
    ∷ msg "imports.col.file" "File"
    ∷ msg "imports.col.source" "Source"
    ∷ msg "imports.col.state" "State"
    ∷ msg "imports.col.period" "Period"
    ∷ msg "imports.col.uploaded" "Uploaded"
    ∷ msg "imports.counts.imported" "Rows imported"
    ∷ msg "imports.counts.duplicates" "Duplicates skipped"
    ∷ msg "imports.counts.transfers" "Internal transfers"
    ∷ msg "imports.counts.matches" "Matches proposed"
    ∷ msg "batch.rejected.balance_mismatch"
        "Opening balance plus movements does not equal the declared closing balance. Nothing from this file was stored."
    ∷ msg "batch.errors.title" "Validation errors"
    ∷ msg "batch.errors.line" "Line"
    ∷ msg "batch.errors.download" "Download the list"
    ∷ msg "batch.balance.title" "Balance check"
    ∷ msg "batch.balance.opening" "Opening"
    ∷ msg "batch.balance.movements" "Movements"
    ∷ msg "batch.balance.closing" "Computed closing"
    ∷ msg "batch.balance.declared" "Declared closing"
    ∷ msg "batch.rows.title" "Rows"
    ∷ msg "batch.rows.category" "Category"
    ∷ msg "batch.rows.unclassified" "Unclassified"
    ∷ msg "error.amount_unparseable" "The amount could not be read as a number."
    ∷ msg "error.date_implausible" "The date does not exist."
    ∷ msg "error.currency_unknown" "Not a valid ISO-4217 currency code."
    ∷ msg "error.debit_and_credit_both_set" "Debit and credit are both filled in."
    ∷ msg "error.description_missing" "The description is empty."
    ∷ msg "error.upload_missing" "The file never reached us. Please upload it again."
    ∷ msg "error.file_too_large" "This file is larger than the 25 MB limit."
    ∷ msg "error.object_store_not_configured" "File upload is not configured on this server."
    ∷ msg "error.invalid_argument" "That request was not valid."
    ∷ msg "error.batch_not_found"
        "This import no longer exists, or it belongs to another organisation."
    ∷ msg "error.not_a_member" "You do not have access to that organisation."
    ∷ msg "error.replacement_character"
        "This file contains corrupted text. Re-export it and try again."
    ∷ msg "error.account_unresolved" "This file's account could not be matched to one on file."
    ∷ msg "error.balance_mismatch"
        "Opening balance plus movements does not equal the declared closing balance."
    ∷ msg "error.row_count_mismatch" "The number of rows does not match what the file declares."
    ∷ msg "error.period_gap" "A row falls outside the period this file declares."
    ∷ msg "error.mixed_currency" "This account is on file in a different currency."
    ∷ msg "error.duplicate_bank_reference" "The same posting appears twice in this file."
    ∷ msg "validation.outcome.valid" "Valid"
    ∷ msg "validation.outcome.valid_with_warnings" "Valid, with warnings"
    ∷ msg "validation.outcome.rejected" "Rejected"
    ∷ msg "error.validation_not_found"
        "This import has not been validated, or it belongs to another organisation."
    ∷ msg "error.override_reason_too_short" "Write at least ten characters explaining the override."
    ∷ msg "error.override_requires_approver_role"
        "Only an owner, admin or approver may override a validation warning."
    ∷ msg "error.already_overridden" "This import was already overridden."
    ∷ msg "error.override_only_over_warnings"
        "A file with errors cannot be overridden — only one with warnings can."
    ∷ msg "error.already_imported" "This file has already been imported."
    ∷ msg "error.transfer_not_found"
        "This transfer no longer exists, or belongs to another organisation."
    ∷ msg "dedup.level.D2" "Duplicate within this file"
    ∷ msg "dedup.level.D3" "Already imported previously"
    ∷ msg "dedup.transfer.active" "Excluded as a transfer between your own accounts"
    ∷ msg "dedup.transfer.dismissed" "Included"
    ∷ msg "error.review_forbidden" "You do not have permission to resolve this group."
    ∷ msg "error.review_outcome_required" "Choose approve, transfer or not in P&L."
    ∷ msg "error.review_category_required" "Choose a category before approving."
    ∷ msg "error.review_category_not_allowed"
        "A transfer or not-in-P&L decision does not take a category."
    ∷ msg "error.review_unknown_category" "That category no longer exists. Refresh and try again."
    ∷ msg "error.review_group_is_empty" "This group has already been resolved."
    ∷ msg "error.review_decision_already_undone" "This decision was already undone."
    ∷ msg "error.review_already_decided" "Somebody else already resolved this group."
    ∷ msg "review.title" "Review"
    ∷ msg "review.remaining" "remaining"
    ∷ msg "review.suggested" "Suggested"
    ∷ msg "review.legend" "Keys"
    ∷ msg "review.key.digit" "open a section or pick a category"
    ∷ msg "review.key.enter" "approve this counterparty"
    ∷ msg "review.key.transfer" "internal transfer"
    ∷ msg "review.key.notPnl" "not in the P&L"
    ∷ msg "review.key.move" "next · previous"
    ∷ msg "review.key.clear" "clear"
    ∷ msg "review.key.back" "up a level"
    ∷ msg "review.tree.root" "All categories"
    ∷ msg "review.side.expense" "Expense categories: money went out to this counterparty."
    ∷ msg "review.side.income" "Income categories: money came in from this counterparty."
    ∷ msg "review.side.showAll" "Show all categories"
    ∷ msg "review.side.showMatching" "Show only the matching side"
    ∷ msg "review.selected" "Selected"
    ∷ msg "review.transactions" "Transactions"
    ∷ msg "review.groupOf" "of"
    ∷ msg "review.blurb"
        "Classify this counterparty once and every transaction from them -- past and future -- is classified the same way."
    ∷ msg "review.search.placeholder" "Filter categories"
    ∷ msg "review.search.empty" "No category matches"
    ∷ msg "review.action.approve" "Approve"
    ∷ msg "review.action.transfer" "Mark as transfer"
    ∷ msg "review.action.notPnl" "Not in P&L"
    ∷ msg "report.title" "Management P&L"
    ∷ msg "report.tab.table" "Table"
    ∷ msg "report.tab.charts" "Charts"
    ∷ msg "report.category" "Category"
    ∷ msg "report.total" "Total"
    ∷ msg "report.percentOfRevenue" "% of revenue"
    ∷ msg "report.basis.cash" "Cash-basis"
    ∷ msg "report.basis.accrual" "Accrual"
    ∷ msg "report.basis.note" "derived from the source of the data, not chosen"
    ∷ msg "report.period.from" "From"
    ∷ msg "report.period.to" "To"
    ∷ msg "report.blocked" "Blocked"
    ∷ msg "report.blocked.mixed_basis"
        "This entity has both bank and ledger imports, with no confirmed match between them. Computing a report would count an invoice and its payment twice, so none is shown until they are reconciled."
    ∷ msg "report.bucket.unclassified" "Unclassified"
    ∷ msg "report.bucket.non_pnl" "Excluded, non-P&L"
    ∷ msg "report.bucket.unallocated" "Unallocated"
    ∷ msg "report.bucket.other_basis" "Other basis"
    ∷ []
