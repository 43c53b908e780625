-- ===== src/Locale.antt =====
-- web/src/i18n.ts and web/src/ui/preferences.ts: the two locales, and how a tag chooses one.
use vekst.Prelude.{Text, codes, Option, none, some, if◌then◌else◌}
use vekst.Prelude.Strings.{starts_with, to_lower_case}

pub data Locale : Type 0 where
  en ru : Locale

unfoldable pub resolve_locale : Option Text → Locale
unfolding starts_with to_lower_case
resolve_locale none = en
resolve_locale (some raw) = if starts_with (to_lower_case raw) (codes "ru") then ru else en
