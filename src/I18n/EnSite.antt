-- ===== src/I18n/EnSite.antt =====
-- web/src/i18n.ts, the English catalogue, lines 14 to 151.
use vekst.Prelude.{List, [], ◌∷◌, Text}
use vekst.I18n.Message.{msg}

abbrev pub en_site : List (Text × Text)
en_site =
    msg "app.title" "Veekst"
    ∷ msg "app.tagline" "Management reporting for owner-run companies."
    ∷ msg "a11y.skipToContent" "Skip to content"
    ∷ msg "notFound.title" "Page not found"
    ∷ msg "notFound.detail" "There is nothing at this address."
    ∷ msg "notFound.cta" "Back to Veekst"
    ∷ msg "signIn.heading" "Sign in"
    ∷ msg "signIn.google" "Continue with Google"
    ∷ msg "signIn.blurb" "Sign-in is by Google account."
    ∷ msg "signedIn.greeting" "Signed in"
    ∷ msg "signedIn.signOut" "Sign out"
    ∷ msg "error.auth_not_configured" "Sign-in is not configured on this server."
    ∷ msg "error.invalid_flow"
        "That sign-in link has expired or was already used. Please try again."
    ∷ msg "error.invalid_token" "Google could not be verified. Please try again."
    ∷ msg "error.unverified_email" "Your Google account's email address is not verified."
    ∷ msg "error.email_taken" "That email address already belongs to another account."
    ∷ msg "error.internal_error" "Something went wrong. Please try again."
    ∷ msg "error.unknown" "Sign-in failed. Please try again."
    ∷ msg "error.org_name_required" "Enter a name for the organisation."
    ∷ msg "error.org_entity_name_required" "Enter a name for the entity."
    ∷ msg "error.org_unsupported_country" "That country is not supported yet."
    ∷ msg "error.org_unsupported_currency" "That currency is not supported yet."
    ∷ msg "error.org_already_a_member" "You already belong to an organisation."
    ∷ msg "firstRun.heading" "Set up your organisation"
    ∷ msg "firstRun.blurb"
        "One organisation, one entity, to start. You can invite others and add more later."
    ∷ msg "firstRun.name" "Organisation name"
    ∷ msg "firstRun.entityName" "Entity name"
    ∷ msg "firstRun.market" "Country and currency"
    ∷ msg "firstRun.market.by" "Belarus — BYN"
    ∷ msg "firstRun.market.kz" "Kazakhstan — KZT"
    ∷ msg "firstRun.market.pl" "Poland — PLN"
    ∷ msg "firstRun.submit" "Create organisation"
    ∷ msg "firstRun.submitting" "Creating…"
    ∷ msg "state.batch.pending" "Pending"
    ∷ msg "state.batch.parsing" "Parsing"
    ∷ msg "state.batch.rejected" "Rejected"
    ∷ msg "state.batch.imported" "Imported"
    ∷ msg "state.report.ready" "Ready"
    ∷ msg "state.report.partial" "Partial"
    ∷ msg "state.report.blocked" "Blocked"
    ∷ msg "state.row.classified" "Classified"
    ∷ msg "state.row.needsReview" "Needs review"
    ∷ msg "state.row.blocked" "Blocked"
    ∷ msg "nav.primary" "Main"
    ∷ msg "nav.home" "Home"
    ∷ msg "nav.imports" "Imports"
    ∷ msg "nav.review" "Review"
    ∷ msg "nav.reports" "Reports"
    ∷ msg "nav.awaitingReview" "awaiting review"
    ∷ msg "topbar.organisation" "Organisation"
    ∷ msg "topbar.entity" "Entity"
    ∷ msg "topbar.language" "Language"
    ∷ msg "topbar.theme" "Theme"
    ∷ msg "action.retry" "Try again"
    ∷ msg "empty.imports.title" "No files imported yet"
    ∷ msg "empty.imports.detail"
        "Upload a bank statement or a ledger export to begin. Every file is validated before anything is stored, and a file that fails stores nothing."
    ∷ msg "empty.review.title" "Nothing to review"
    ∷ msg "empty.review.detail"
        "Transactions the engine could not classify confidently appear here, grouped by counterparty. An empty queue means every imported row has a category."
    ∷ msg "empty.reports.title" "No report yet"
    ∷ msg "empty.reports.detail"
        "The Management P&L is built from imported transactions. Import a bank statement or a ledger export and the report opens here."
    ∷ msg "empty.batch.title" "Batch not found"
    ∷ msg "empty.batch.detail"
        "This import no longer exists, or it belongs to another organisation."
    ∷ msg "chart.expenses.title" "Top expense categories"
    ∷ msg "chart.expenses.note" "Sections that cost money over the range, largest first."
    ∷ msg "chart.cashflow.title" "Money in and out"
    ∷ msg "chart.cashflow.note"
        "Money that actually moved, month by month — including what the P&L leaves out. Both bars are sizes: out is drawn as what left, not as a negative. Transfers between your own accounts are counted apart, in the reconciliation strip."
    ∷ msg "chart.cashflow.net" "Net movement"
    ∷ msg "chart.moneyflow.title" "Money flow"
    ∷ msg "chart.moneyflow.note" "Where the revenue for this range went."
    ∷ msg "chart.moneyflow.unavailable"
        "Nothing to draw: net sales are zero for this range, so there is no inflow for the expense side to come out of. The figures are below — and a report with costs but no revenue is usually a classification problem, not an empty month."
    ∷ msg "chart.moneyflow.totalIn" "Total in"
    ∷ msg "chart.moneyflow.other" "Other"
    ∷ msg "chart.netresult.title" "Net result by month"
    ∷ msg "chart.netresult.note"
        "Profit or loss in each month of the range. A loss is drawn as its size, in the loss colour — this chart's value axis starts at zero."
    ∷ msg "chart.netresult.series" "Net result"
    ∷ msg "chart.netresult.profit" "Profit"
    ∷ msg "chart.netresult.loss" "Loss"
    ∷ msg "chart.revenueExpense.title" "Revenue against expenses"
    ∷ msg "chart.revenueExpense.note" "The P&L's own revenue and costs, month by month."
    ∷ msg "chart.revenueExpense.revenue" "Revenue"
    ∷ msg "chart.revenueExpense.expenses" "Expenses"
    ∷ msg "chart.trend.title" "Category trend"
    ∷ msg "chart.trend.note" "Each section over the range, each on its own scale."
    ∷ msg "chart.view.chart" "Chart"
    ∷ msg "chart.view.table" "Table"
    ∷ msg "landing.cta" "Sign in"
    ∷ msg "landing.cta.secondary" "See the report"
    ∷ msg "landing.nav.how" "How it works"
    ∷ msg "landing.nav.product" "The report"
    ∷ msg "landing.promise" "Know what your business actually earned."
    ∷ msg "landing.sub"
        "Veekst turns your bank statements and your accountant's ledger into a management P&L you can open, line by line, down to the transaction."
    ∷ msg "landing.problem.title" "Your bank and your accountant disagree, and both are right"
    ∷ msg "landing.problem.body"
        "A bank statement says when money moved. A ledger says when it was earned. Neither is a management report, and reconciling them by hand each month is where the evening goes — so the numbers arrive late, or they arrive rounded, or they arrive as a feeling."
    ∷ msg "landing.how.title" "Three steps, and the report opens"
    ∷ msg "landing.how.1.title" "Upload what you already have"
    ∷ msg "landing.how.1.body"
        "Bank exports and ledger exports, CSV or XLSX. Every file is validated before anything is stored — and a file that fails stores nothing, with the errors listed by the line number in your original file."
    ∷ msg "landing.how.2.title" "The engine classifies it"
    ∷ msg "landing.how.2.body"
        "Deterministic rules first, and your own corrections remembered. Anything it is not sure about goes to a review queue instead of being guessed."
    ∷ msg "landing.how.3.title" "Read the report"
    ∷ msg "landing.how.3.body"
        "Categories down, months across. Every figure opens to the transactions behind it, each carrying the rule that classified it and how confident it was."
    ∷ msg "landing.product.title" "This is the report"
    ∷ msg "landing.product.body"
        "Not a screenshot — the same component the application renders, on sample figures. The basis is stated where you read it, a line that cannot be computed honestly says so instead of guessing, and the reconciliation proves nothing was dropped."
    ∷ msg "landing.close.title" "See it on your own numbers"
    ∷ msg "landing.rights" "Management reporting for owner-run companies."
    ∷ []
