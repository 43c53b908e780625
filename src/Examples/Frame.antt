-- ===== src/Examples/Frame.antt =====
-- The frame of the application, its first form, and the screen of a batch at concrete inputs.
use vekst.Prelude.{
  codes, ◌≡◌, ◌≢◌, ◌↔◌, ◌+◌, ◌*◌, ◌≤◌, refl, pos, List, [], ◌∷◌, Option, none, some, Bool, true,
  ◌&&◌, leb, ltb, arith, length,
}
use vekst.Prelude.Strings.{Text, trim, trim_start, is_space}
use vekst.Prelude.Decimal.{int_text, digits_of, scan, digit}
use vekst.Prelude.Lemmas.{All}
use vekst.Prelude.Result.{err, create_organisation, rejected}
use vekst.Locale.{en, ru}
use vekst.I18n.{t}
use vekst.Client.{Platform, State}
use vekst.Ui.Period.{Month, PeriodRange, is_period, parse}
use vekst.Ui.PeriodPreference.{init_period_range, get_period_range}
use vekst.Router.{charts}
use vekst.Data.Imports.{ValidationError}
use vekst.App.Batch.{errors_csv, rejection}
use vekst.App.Batch.Csv.{read, before, read-errors_csv}
use vekst.App.Batch.Rejection.{rejection-none_iff}
use vekst.App.PeriodPicker.{
  IsMonth, Picker, IsBounded, Picked, from_local_month, to_local_month, month_field, to_field,
  change_to, to_picked,
}
use vekst.App.PeriodPicker.Laws.{from_local_month-IsRead, IsReadable, IsInOrder, Picked-IsInOrder}
use vekst.App.Layout.{CurrentUser, answered, Header, layout, shown_range, on_period_change}
use vekst.App.Layout.Laws.{IsGated, layout-IsGated, IsLinked, on_period_change-IsLinked}
use vekst.App.FirstRun.{
  Form, opened, on_submit, choose_market, settle, Reached, start, type_name, type_entity, choose,
  submit, answer,
}
use vekst.App.FirstRun.Laws.{IsAccepted, in_flight, Reached-IsAccepted}

abbrev two_errors : List ValidationError
two_errors =
    record {
      file_line = pos 7;
      code = codes "amount_unparseable";
      detail = some (codes "\"1,00\"\nEUR");
    }
    ∷ record { file_line = pos 9; code = codes "date_implausible"; detail = none }
    ∷ []

read-errors_csv_example :
    (label : Text) × (t (codes "batch.errors.line") ru ≡ some label)
    × (read (errors_csv ru two_errors) before
        ≡ some (
            (label ∷ codes "code" ∷ codes "detail" ∷ [])
            ∷ (int_text (pos 7) ∷ codes "amount_unparseable" ∷ codes "\"1,00\"\nEUR" ∷ [])
            ∷ (int_text (pos 9) ∷ codes "date_implausible" ∷ [] ∷ [])
            ∷ []))
read-errors_csv_example = read-errors_csv ru _ _ (ground arith, (ground arith, tt))

rejection-none_iff_example :
    (rejection (some (codes "file_too_large")) en ≡ some none)
    ↔ (codes "file_too_large" ≢ codes "balance_mismatch")
rejection-none_iff_example = rejection-none_iff b'f' (codes "ile_too_large") en

abbrev december : Month
december = record { year = 2026; month = 12 }

abbrev march : Month
march = record { year = 2026; month = 3 }

december-IsMonth : IsMonth december
december-IsMonth = record {
  year_low = omega arith;
  year_high = omega arith;
  month_low = omega arith;
  month_high = omega arith;
}

from_local_month-IsRead_example :
    (is_period (from_local_month december) ≡ true)
    × (to_local_month (from_local_month december) ≡ some december)
    × (parse (from_local_month december) ≡ some december)
from_local_month-IsRead_example = from_local_month-IsRead december december-IsMonth

abbrev march_only : PeriodRange
march_only = record { from = codes "2026-03"; to = codes "2026-03" }

-- A range that a link can have, with its months in the wrong order.
abbrev backwards : PeriodRange
backwards = record { from = codes "2026-12"; to = codes "2026-03" }

backwards-IsReadable : IsReadable backwards
unfolding is_period to_local_month digits_of scan digit
backwards-IsReadable = ((refl, refl), (december, march, refl, refl))

abbrev not_before : Option Month → Month → Bool
not_before none d = true
not_before (some bound) d = leb (bound.year * 12 + bound.month) (d.year * 12 + d.month)

abbrev not_after : Option Month → Month → Bool
not_after none d = true
not_after (some bound) d = leb (d.year * 12 + d.month) (bound.year * 12 + bound.month)

abbrev calendar : Picker
calendar f d =
    (leb 1000 d.year && ltb d.year 10000 && leb 1 d.month && leb d.month 12)
    && (not_before f.min_date d && not_after f.max_date d)

calendar-IsBounded : IsBounded calendar
calendar-IsBounded = record {
  month = λ f d h. record {
    year_low = ground (arith, h);
    year_high = ground (arith, h);
    month_low = ground (arith, h);
    month_high = ground (arith, h);
  };
  lower = λ f d bound h e. go_low f.min_date d bound (ground (arith, h)) e;
  upper = λ f d bound h e. go_high f.max_date d bound (ground (arith, h)) e;
}
  where
    go_low :
        (o : Option Month) (d bound : Month)
        → not_before o d ≡ true
        → o ≡ some bound
        → bound.year * 12 + bound.month ≤ d.year * 12 + d.month
    go_low o d bound h e = let k = rw e at h in ground (arith, k)

    go_high :
        (o : Option Month) (d bound : Month)
        → not_after o d ≡ true
        → o ≡ some bound
        → d.year * 12 + d.month ≤ bound.year * 12 + bound.month
    go_high o d bound h e = let k = rw e at h in ground (arith, k)

to_december : Picked calendar backwards (change_to december backwards)
unfolding to_field month_field to_local_month digits_of scan digit
to_december = to_picked december refl

Picked-IsInOrder_example : IsInOrder (change_to december backwards)
Picked-IsInOrder_example =
    Picked-IsInOrder calendar calendar-IsBounded to_december backwards-IsReadable

abbrev header : Header
header = record {
  store = record {
    range = march_only;
    storage = record { readable = true; writable = true; items = [] };
    emitted = 0;
  };
  report_match = some (record { from = codes "2025-01"; to = codes "2025-12"; view = charts });
}

abbrev spring : PeriodRange
spring = record { from = codes "2026-03"; to = codes "2026-05" }

spring-IsRange : (is_period spring.from ≡ true) × (is_period spring.to ≡ true)
unfolding is_period
spring-IsRange = (refl, refl)

on_period_change-IsLinked_example :
    (shown_range (on_period_change spring header) ≡ spring)
    × (get_period_range (on_period_change spring header).store ≡ spring)
    × (get_period_range (init_period_range december (on_period_change spring header).store)
        ≡ spring)
    × IsLinked spring header.store header.report_match (on_period_change spring header).report_match
on_period_change-IsLinked_example =
    on_period_change-IsLinked december spring header header.store spring-IsRange refl refl

abbrev member : CurrentUser
member = answered (record {
  user = some (record { id = codes "u1"; email = []; name = codes "Ada"; locale = codes "en" });
  organisations =
      record {
        id = codes "o1";
        name = codes "Works";
        base_currency = codes "PLN";
        role = codes "owner";
        entities = [];
      }
      ∷ [];
})

abbrev silent : Platform
silent = record {
  answer = λ calls c. err (rejected (codes "unavailable"));
  timestamp_date = λ s. pos 0;
  to_iso_string = λ d. [];
  message_of = λ e. [];
}

abbrev nobody : State
nobody = record { session = none; calls = [] }

layout-IsGated_example :
    IsGated member none march_only nobody (layout member none march_only silent nobody)
layout-IsGated_example = layout-IsGated member none march_only silent nobody

abbrev typed : Form
typed =
    choose_market (codes "PL") (record opened { name = codes "Works"; entity_name = codes "Plant" })

abbrev refused : Form
refused = settle (err (create_organisation (codes "org_already_a_member"))) (on_submit typed)

submitted_once : (on_submit typed).is_pending ≡ true
unfolding on_submit trim trim_start is_space choose_market
submitted_once = refl

refused-Reached : Reached refused
refused-Reached =
    answer _ submitted_once
      (submit (choose (codes "PL") (type_entity (codes "Plant") (type_name (codes "Works") start))))

Reached-IsAccepted_example :
    All IsAccepted refused.sent
    × (length refused.sent ≡ refused.answered + in_flight refused.is_pending)
Reached-IsAccepted_example = Reached-IsAccepted refused refused-Reached
