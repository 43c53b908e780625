-- ===== src/Money/Tests.antt =====
-- Runs of web/src/money.ts on the inputs of its own tests.
use vekst.Prelude.{codes, ◌≡◌, refl, none, some, [], ◌∷◌}
use vekst.Prelude.Result.{ok, err, unknown_currency}
use vekst.Prelude.Strings.{text_eq, to_upper_case}
use vekst.Prelude.Decimal.{nat_text}
use vekst.Locale.{en, ru}
use vekst.Money.{minus, format_money, sum_minor_units, percent_of}

past_max_safe_integer :
    format_money (record { minor_units = codes "9007199254740993"; currency_code = codes "EUR" }) en
    ≡ ok (codes "90,071,992,547,409.93")
unfolding format_money text_eq to_upper_case nat_text
past_max_safe_integer = refl

kwd_has_three :
    format_money (record { minor_units = codes "-1234"; currency_code = codes "kwd" }) ru
    ≡ ok (minus ∷ codes "1,234")
unfolding format_money text_eq to_upper_case nat_text
kwd_has_three = refl

unknown_code :
    format_money (record { minor_units = codes "1234"; currency_code = codes "ZZZ" }) en
    ≡ err (unknown_currency (codes "ZZZ"))
unfolding format_money text_eq to_upper_case nat_text
unknown_code = refl

sum_test :
    sum_minor_units (codes "9007199254740993" ∷ codes "1" ∷ codes "-2" ∷ [])
    ≡ ok (codes "9007199254740992")
unfolding sum_minor_units
sum_test = refl

percent_test : percent_of (codes "-681240") (codes "1284600") en ≡ ok (some (minus ∷ codes "53.0%"))
unfolding percent_of
percent_test = refl

percent_of_nothing : percent_of (codes "1234") (codes "0") en ≡ ok none
unfolding percent_of
percent_of_nothing = refl
