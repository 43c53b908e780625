-- ===== src/I18n.antt =====
-- web/src/i18n.ts: the catalogues of the two locales, and the lookup of a message.
mod Message
mod EnSite
mod EnApp
mod EnNames
mod RuSite
mod RuApp
mod RuNames
pub mod Laws
use vekst.Prelude.{
  Text, codes, List, [], ◌∷◌, ◌++◌, Option, none, some, Bool, true, false, if◌then◌else◌,
}
use vekst.Prelude.Strings.{text_eq}
use vekst.Locale.{Locale, en, ru}
use EnSite.{en_site}
use EnApp.{en_app}
use EnNames.{en_names}
use RuSite.{ru_site}
use RuApp.{ru_app}
use RuNames.{ru_names}

unfoldable pub messages : Locale → List (Text × Text)
messages en = en_site ++ (en_app ++ en_names)
messages ru = ru_site ++ (ru_app ++ ru_names)

unfoldable pub find_message : Text → List (Text × Text) → Option Text
unfolding text_eq
find_message key [] = none
find_message key ((k, v) ∷ rest) = if text_eq k key then some v else find_message key rest

-- `none` is `undefined`: a key that is cast to `MessageKey` may not be one.
unfoldable pub t : Text → Locale → Option Text
unfolding find_message messages
t key locale = find_message key (messages locale)

abbrev is_some : Option Text → Bool
is_some none = false
is_some (some _) = true

-- The inner `none` is `undefined`, the outer one `null`.
unfoldable pub auth_error_message : Option Text → Locale → Option (Option Text)
auth_error_message none locale = none
auth_error_message (some []) locale = none
auth_error_message (some (c ∷ code)) locale =
    let key = codes "error." ++ c ∷ code in
    some (if is_some (t key en) then t key locale else t (codes "error.unknown") locale)
