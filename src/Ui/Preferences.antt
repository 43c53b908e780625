-- ===== src/Ui/Preferences.antt =====
-- web/src/ui/preferences.ts: theme and locale, in memory, in storage and on the document.
pub mod Laws
use vekst.Prelude.{
  Text, codes, ℕ, suc, [], ◌∷◌, Option, none, some, Bool, true, false, if◌then◌else◌,
}
use vekst.Prelude.Strings.{text_eq}
use vekst.Locale.{Locale, en, ru, resolve_locale}
use vekst.Ui.Storage.{Storage, read, write}

pub data ThemeChoice : Type 0 where
  system light dark : ThemeChoice

abbrev pub theme_key : Text
theme_key = codes "veekst.theme"

abbrev pub locale_key : Text
locale_key = codes "veekst.locale"

abbrev pub theme_text : ThemeChoice → Text
theme_text system = codes "system"
theme_text light = codes "light"
theme_text dark = codes "dark"

abbrev pub locale_text : Locale → Text
locale_text en = codes "en"
locale_text ru = codes "ru"

-- The document's root: `data-theme`, absent for `none`, and `lang`.
pub record Document : Type 0 where
  pub data_theme : Option Text
  pub lang : Text

pub record Store : Type 0 where
  pub theme : ThemeChoice
  pub locale : Locale
  pub storage : Storage
  pub document : Document
  pub emitted : ℕ

-- Where there is a document.
unfoldable pub apply : Store → Store
apply s = record s {
  document = record {
    data_theme = elim s.theme [
      | system ↦ none
      | light ↦ some (theme_text light)
      | dark ↦ some (theme_text dark)
    ];
    lang = locale_text s.locale;
  };
}

abbrev theme_or : ThemeChoice → Option Text → ThemeChoice
theme_or old none = old
theme_or old (some t) =
    if text_eq t (theme_text light)
    then light
    else if text_eq t (theme_text dark)
    then dark
    else if text_eq t (theme_text system)
    then system
    else old

-- `language` is that of the navigator.
abbrev locale_or : Option Text → Option Text → Locale
locale_or language none = resolve_locale language
locale_or language (some l) =
    if text_eq l (locale_text en)
    then en
    else if text_eq l (locale_text ru)
    then ru
    else resolve_locale language

unfoldable pub init_preferences : Option Text → Store → Store
unfolding apply read
init_preferences language s = apply (record s {
  theme = theme_or s.theme (read theme_key s.storage);
  locale = locale_or language (read locale_key s.storage);
})

abbrev emit : Store → Store
emit s = record s { emitted = suc s.emitted }

unfoldable pub set_theme : ThemeChoice → Store → Store
unfolding apply write
set_theme next s =
    emit (apply (record s { theme = next; storage = write theme_key (theme_text next) s.storage }))

unfoldable pub set_locale : Locale → Store → Store
unfolding apply write
set_locale next s =
    emit
      (apply (record s { locale = next; storage = write locale_key (locale_text next) s.storage }))

-- `prefers_dark` is none where there is no `matchMedia`.
unfoldable pub resolved_theme : Option Bool → ThemeChoice → ThemeChoice
resolved_theme prefers_dark light = light
resolved_theme prefers_dark dark = dark
resolved_theme none system = light
resolved_theme (some true) system = dark
resolved_theme (some false) system = light
