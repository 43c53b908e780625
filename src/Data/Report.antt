-- ===== src/Data/Report.antt =====
-- web/src/data/report.ts: the Management P&L as the screens read it.
pub mod Cash
pub mod Fetch
pub mod Costs
pub mod Whole
use vekst.Prelude.{
  Text, codes, ℤ, pos, List, [], ◌∷◌, ◌++◌, map, Option, none, some, Bool, if◌then◌else◌, get_elem?,
  ℕ, zero, suc,
}
use mathlib.Core.Option
use vekst.Prelude.Int.{◌-ℤ◌}
use vekst.Prelude.Strings.{text_eq, join}
use vekst.Prelude.Decimal.{big_int, int_text}
use vekst.Prelude.Result.{Result, ok, or_throw, syntax_error, map_result, ◌>>=◌}
use vekst.Money.{Money}
use vekst.App.LineName.{BucketKind, unclassified, non_pnl, unallocated, other_basis}
use vekst.Wire.Imports.{Double}
use vekst.Wire
use vekst.Wire.Report.{
  ReportFigure, ReportBucketKind, ReportBucketLine, ReconciliationLine, ReportVersions,
}
use vekst.Data.Imports.{money_from_proto}
use Cash.{CashPeriod, Reconciliation, zero_money, cash_by_period, aggregate_reconciliation}

pub data Basis : Type 0 where
  cash accrual : Basis

pub record Provenance : Type 0 where
  pub taxonomy_version : Text
  pub ruleset_version : Text
  pub engine_version : Text

-- A throw at the first text that is no integer.
unfoldable pub sub_minor_units : Text → Text → Result Text
unfolding big_int int_text ◌-ℤ◌
sub_minor_units a b = do
  x ← or_throw syntax_error (big_int a)
  y ← or_throw syntax_error (big_int b)
  ok (int_text (x -ℤ y))

pub record ReportLine : Type 0 where
  pub category_id : Text
  pub label : Text
  pub computed : Bool
  pub values : List Money
  pub total : Money
  pub percent_of_revenue : Option Double

unfoldable pub figure_money : Option ReportFigure → Money
unfolding money_from_proto
figure_money none = money_from_proto none
figure_money (some f) = money_from_proto f.amount

abbrev percent : Option ReportFigure → Option Double
percent none = none
percent (some f) = f.percent_of_revenue

unfoldable pub line_from_proto : Wire.Report.ReportLine → ReportLine
unfolding figure_money
line_from_proto l = record {
  category_id = l.code;
  label = l.label;
  computed = l.computed;
  values = map (λ f. figure_money (some f)) l.by_period;
  total = figure_money l.total;
  percent_of_revenue = percent l.total;
}

-- BUCKET_KIND
unfoldable pub bucket_kind : ReportBucketKind → Option BucketKind
bucket_kind ReportBucketKind.unspecified = none
bucket_kind ReportBucketKind.unclassified = some unclassified
bucket_kind ReportBucketKind.non_pnl = some non_pnl
bucket_kind ReportBucketKind.unallocated = some unallocated
bucket_kind ReportBucketKind.other_basis = some other_basis
bucket_kind (ReportBucketKind.unrecognised n) = none

pub record ReportBucket : Type 0 where
  pub kind : BucketKind
  pub values : List Money
  pub total : Money

unfoldable pub bucket_from_proto : ReportBucketLine → Option ReportBucket
unfolding bucket_kind money_from_proto
bucket_from_proto b = elim (bucket_kind b.kind) [
  | none ↦ none
  | some kind ↦ some (record {
    kind = kind;
    values = map (λ m. money_from_proto (some m)) b.by_period;
    total = money_from_proto b.total;
  })
]

-- protoBuckets.map(bucketFromProto).filter((b) => b !== undefined)
unfoldable pub buckets_from_proto : List ReportBucketLine → List ReportBucket
unfolding bucket_from_proto
buckets_from_proto [] = []
buckets_from_proto (b ∷ bs) = elim (bucket_from_proto b) [
  | none ↦ buckets_from_proto bs
  | some bucket ↦ bucket ∷ buckets_from_proto bs
]

unfoldable pub provenance_from_proto : Option ReportVersions → Provenance
unfolding join
provenance_from_proto none = record {
  taxonomy_version = [];
  ruleset_version = [];
  engine_version = [];
}
provenance_from_proto (some v) = record {
  taxonomy_version = join (codes ", ") v.taxonomy;
  ruleset_version = join (codes ", ") v.rule_set;
  engine_version = join (codes ", ") v.engine;
}

pub record Report : Type 0 where
  pub currency_code : Text
  pub periods : List Text
  pub basis : Basis
  pub lines : List ReportLine
  pub buckets : List ReportBucket
  pub net_by_period : List Money
  pub net_total : Money
  pub revenue_total : Money
  pub expenses_total : Money
  pub expenses_by_period : List Money
  pub cash : List CashPeriod
  pub reconciliation : Reconciliation
  pub provenance : Provenance
  pub unreviewed_amount : Money

-- byCode.get(code): of two lines with one code the map keeps the later.
unfoldable pub line_by_code : Text → List ReportLine → Option ReportLine
unfolding text_eq
line_by_code code [] = none
line_by_code code (l ∷ ls) = elim (line_by_code code ls) [
  | some later ↦ some later
  | none ↦ if text_eq l.category_id code then some l else none
]

abbrev is_unclassified : BucketKind → Bool
is_unclassified unclassified = Bool.true
is_unclassified _ = Bool.false

unfoldable pub first_unclassified : List ReportBucket → Option ReportBucket
first_unclassified [] = none
first_unclassified (b ∷ bs) = if is_unclassified b.kind then some b else first_unclassified bs

-- a || b
abbrev or_text : Text → Text → Text
or_text [] b = b
or_text (c ∷ a) b = c ∷ a

abbrev total_or : Money → Option ReportLine → Money
total_or m none = m
total_or m (some l) = l.total

abbrev or_money : Money → Option Money → Money
or_money m none = m
or_money m (some v) = v

-- line?.values[i] ?? ZERO
abbrev pub value_at : Option ReportLine → ℕ → Money
value_at none i = zero_money
value_at (some l) i = or_money zero_money (get_elem? l.values i)

abbrev first_currency : List ReportLine → Text
first_currency [] = []
first_currency (l ∷ ls) = l.total.currency_code

-- periods.map((_, i) => …), from index `i` on
unfoldable pub expenses_from :
    Option ReportLine → Option ReportLine → Text → ℕ → List Text → Result (List Money)
unfolding sub_minor_units
expenses_from revenue cm currency i [] = ok []
expenses_from revenue cm currency i (p ∷ periods) = do
  units ← sub_minor_units (value_at revenue i).minor_units (value_at cm i).minor_units
  rest ← expenses_from revenue cm currency (suc i) periods
  ok (record { minor_units = units; currency_code = currency } ∷ rest)

unfoldable pub report_from_proto :
    Basis
    → List Text
    → List Wire.Report.ReportLine
    → List ReportBucketLine
    → List ReconciliationLine
    → Option ReportVersions
    → Result Report
unfolding line_from_proto buckets_from_proto line_by_code first_unclassified sub_minor_units
    expenses_from cash_by_period aggregate_reconciliation provenance_from_proto
report_from_proto basis periods proto_lines proto_buckets proto_reconciliation versions =
    let lines = map line_from_proto proto_lines in
    let buckets = buckets_from_proto proto_buckets in
    let revenue = line_by_code (codes "01") lines in
    let cm = line_by_code (codes "93") lines in
    let ni = line_by_code (codes "95") lines in
    let revenue_total = total_or zero_money revenue in
    let currency = or_text revenue_total.currency_code (first_currency lines) in
    let nothing : Money = record { minor_units = codes "0"; currency_code = currency } in
    do
      expenses ← sub_minor_units revenue_total.minor_units (total_or zero_money cm).minor_units
      expenses_by_period ← expenses_from revenue cm currency 0 periods
      moved ← cash_by_period periods proto_reconciliation currency
      reconciliation ← aggregate_reconciliation proto_reconciliation
      ok (record {
        currency_code = currency;
        periods = periods;
        basis = basis;
        lines = lines;
        buckets = buckets;
        net_by_period = elim ni [ none ↦ map (λ _. nothing) periods | some l ↦ l.values ];
        net_total = total_or nothing ni;
        revenue_total = revenue_total;
        expenses_total = record { minor_units = expenses; currency_code = currency };
        expenses_by_period = expenses_by_period;
        cash = moved;
        reconciliation = reconciliation;
        provenance = provenance_from_proto versions;
        unreviewed_amount = elim (first_unclassified buckets) [ none ↦ nothing | some b ↦ b.total ];
      })
