-- ===== src/Lib.antt =====
-- The web client of Vekst, web/src: what its own modules compute, keep and send.
--
-- The client shows a company's management P&L. Its screens read data modules (web/src/data), which call
-- core over generated messages (web/src/gen) and keep the organisation of the session; amounts are
-- texts of minor units from the wire to the screen (web/src/money.ts); every sentence is a key of one
-- catalogue in two locales (web/src/i18n.ts); preferences live in memory, in storage and on the document
-- (web/src/ui); the report's range lives in the URL (web/src/router.tsx).
--
-- Where each part is:
--   Money, Money/Currency    web/src/money.ts: `exponentOf`, `formatMinorUnits`, `formatMoney`,
--                            `sumMinorUnits`, `percentOf`, and the table of core/internal/money/exponents.go
--   Locale, I18n             web/src/i18n.ts: `resolveLocale`, `messages`, `t`, `authErrorMessage`; the
--                            catalogue is in three files for a locale
--   App/LineName             web/src/app/lineName.ts
--   App/CategoryName         web/src/app/categoryName.ts
--   App/CategoryTree         web/src/app/categoryTree.ts: the picker's tree, its folding and open paths
--   App/ReviewScreen         web/src/app/ReviewScreen.tsx: the state of the review screen, its keys and
--                            clicks, and the effect that scopes a choice to its group
--   App/Batch                web/src/app/BatchScreen.tsx: what is shown of a batch; Csv is a reader of its own for
--                            the file of errors, Rejection is about the reason of a rejected one
--   App/Layout               web/src/app/AppLayout.tsx: `layout` is one render, given what its two queries have,
--                            `Header` the range on screen
--   App/FirstRun             web/src/app/FirstRunScreen.tsx
--   App/PeriodPicker         web/src/app/PeriodPicker.tsx
--   App/ReportScreen         web/src/app/ReportScreen.tsx: Figures is StatTiles.tsx and Reconciliation.tsx, Table
--                            is PnlTable.tsx, Drilldown is DrilldownPanel.tsx less its footer
--   App/Home                 web/src/app/HomeScreen.tsx and Rail.tsx
--   App/ImportsScreen        web/src/app/ImportsScreen.tsx
--   App/Upload               web/src/app/Upload.tsx: its control as a state, with the uploads not settled yet
--   App/Charts               web/src/app/charts: Support is support.ts, Lines the filters that the charts
--                            share, Periods the rows of NetResultChart, CashFlowChart and
--                            RevenueExpenseChart; MoneyFlow, Expenses, Trend and Shell are MoneyFlowChart,
--                            ExpenseCategoriesChart, CategoryTrendChart and ChartShell
--   Wire                     web/src/gen/vekst/v1: the messages that the data modules read and send
--   Client                   the promises of the data modules as steps on a state, which is the session and
--                            the calls made so far
--   Data/Session             web/src/data/session.ts and auth.ts
--   Data/Upload              web/src/data/importUpload.ts: `reserve` is `createImportBatch`
--   Data/Imports             web/src/data/imports.ts
--   Data/Validation, Data/Dedup, Data/Review
--                            web/src/data/validation.ts, dedup.ts, review.ts and org.ts
--   Data/Gate                what the operations of the data modules have in common
--   Data/Report              web/src/data/report.ts: Cash is the strip and the months of money, Fetch is the
--                            basis of a report and the calls for a report and a drill-down,
--                            Whole the report from the wire
--   Ui/Period, Ui/PeriodPreference, Ui/Preferences
--                            web/src/ui/period.ts, periodPreference.ts and preferences.ts; Ui/Storage is the
--                            localStorage that both of the last read and write
--   Ui/StateChip             web/src/ui/StateChip.tsx
--   Router                   web/src/router.tsx: `validateSearch` of the report's route and the redirect to it
--   Prelude                  texts, integers, decimal digits, results, and their lemmas
--   Examples                 the theorems at concrete inputs
--
-- Names keep the source's words; a name that this language reserves is changed: `in` and `out` of a
-- reconciliation line are `money_in` and `money_out`, `type` of a file is `type_`, `ruleset` of a
-- report's versions is `rule_set`.
--
-- How it is modelled:
--   A text is the list of its UTF-16 code units. BigInt is ℤ, and a text that BigInt refuses is a
--   `syntax_error`; a throw is an `err` of a result, and `undefined` is `none`.
--   `Platform` stands for what is not in the client: what core and the object store answer to a call,
--   given all those before it, how a timestamp becomes a date and a text, and the message of an error
--   that is no rejected call. A theorem about calls holds for every platform.
--   A call is remembered in the order in which it is made. Of two calls that are made together the
--   first listed is made first, and where both are rejected it is the one that is reported.
--   `DateFormats` stands for how `Intl.DateTimeFormat` words a month.
--   `Intl.NumberFormat` of an integer is written out for the two locales of the product: groups of
--   three and the locale's marks.
--   Upper and lower case are those of the Latin and Cyrillic letters, and of all else that becomes
--   capitals of the Latin alphabet; trimming drops the white space of the language. A
--   64-bit floating point number is passed on by its bits, as the client passes it on.
--   Loops are recursion on the list that they walk. The digits of a number are drawn with as much fuel
--   as the number is large, which is enough, since each step divides by ten.
--   The numbers that a chart is drawn with are a parameter, `Numbers`: the language's floating point
--   numbers, of which the code relies on an order and on the sign of amounts and sums (`IsOrdered`);
--   no figure in a table passes through them, but for the text of a bar, which is a parameter.
--   The calendar of the month fields is a library's, a parameter: `IsBounded` says that it lets through
--   months of four-digit years between the bounds that it is given.
--   The review screen is followed while its queries hold the same groups and categories; what a decision
--   that was sent comes to is an event of its own, so that others may come between.
--
-- Not modelled: the other React components, markup and styles (the rest of web/src/app/*.tsx, web/src/site,
-- web/src/ui/*.tsx), the fixtures of web/src/mock, the vendored charts of web/src/components/charts, the
-- parts of the generated messages that no module reads, and the parts of the repository that are no
-- client: core but for the exponents, the classifier, eval, and third_party.
pub mod Prelude
pub mod Locale
pub mod Money
pub mod I18n
pub mod App
pub mod Wire
pub mod Client
pub mod Data
pub mod Ui
pub mod Router
pub mod Examples
