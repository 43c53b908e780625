-- ===== src/Ui/Preferences/Laws.antt =====
-- The document always shows the choices in memory, and a choice survives a restart.
use vekst.Prelude.{Text, codes, ◌≡◌, refl, ◌∙◌, true, false, Option, none, some, arith}
use vekst.Prelude.Strings.{text_eq}
use vekst.Locale.{Locale, en, ru}
use vekst.Ui.Storage.{read, write, readable-write, writable-write, read_self, read_other}
use vekst.Ui.Preferences.{
  ThemeChoice, system, light, dark, theme_key, locale_key, theme_text, locale_text, Store, apply,
  init_preferences, set_theme, set_locale,
}

-- What the token layer reads: no attribute for the system's theme.
abbrev pub shown : ThemeChoice → Option Text
shown system = none
shown light = some (codes "light")
shown dark = some (codes "dark")

pub record IsApplied (s : Store) : Type 0 where
  pub theme : s.document.data_theme ≡ shown s.theme
  pub lang : s.document.lang ≡ locale_text s.locale

-- A run of the page: it starts, and then the reader chooses.
pub data Step : Store → Store → Type 0 where
  start : (language : Option Text) (s : Store) → Step s (init_preferences language s)
  choose_theme : (t : ThemeChoice) (s : Store) → Step s (set_theme t s)
  choose_locale : (l : Locale) (s : Store) → Step s (set_locale l s)

pub data Run (s : Store) : Store → Type 0 where
  here : Run s s
  next : {t u : Store} → Run s t → Step t u → Run s u

Step-IsApplied : {s t : Store} → Step s t → IsApplied t
unfolding init_preferences set_theme set_locale apply
Step-IsApplied (start language s) = ground arith
Step-IsApplied (choose_theme t s) = ground arith
Step-IsApplied (choose_locale l s) = ground arith

-- After the page has started, and after every choice, the document shows the theme and the language in
-- memory: no theme attribute for the system's choice, and the attribute of the theme for any other.
pub Run-IsApplied :
    (language : Option Text) (s : Store) {t : Store}
    → Run (init_preferences language s) t
    → IsApplied t
Run-IsApplied language s here = Step-IsApplied (start language s)
Run-IsApplied language s (next r st) = Step-IsApplied st

keys_differ : text_eq locale_key theme_key ≡ false
unfolding text_eq
keys_differ = refl

theme_read_back :
    (language : Option Text) (s : Store) (t : ThemeChoice)
    → read theme_key s.storage ≡ some (theme_text t)
    → (init_preferences language s).theme ≡ t
unfolding init_preferences apply text_eq
theme_read_back language s system h = rw h
theme_read_back language s light h = rw h
theme_read_back language s dark h = rw h

locale_read_back :
    (language : Option Text) (s : Store) (l : Locale)
    → read locale_key s.storage ≡ some (locale_text l)
    → (init_preferences language s).locale ≡ l
unfolding init_preferences apply text_eq
locale_read_back language s en h = rw h
locale_read_back language s ru h = rw h

stored :
    (t : ThemeChoice) (l : Locale) (s : Store)
    → (set_locale l (set_theme t s)).storage
      ≡ write locale_key (locale_text l) (write theme_key (theme_text t) s.storage)
unfolding set_locale set_theme apply
stored t l s = refl

-- A page that starts later over the same storage, whatever it held in memory and whatever the browser's
-- language, has the theme and the locale that were chosen last, if storage can be read and written.
pub init-set_theme-set_locale :
    (language : Option Text) (t : ThemeChoice) (l : Locale) (s later : Store)
    → s.storage.readable ≡ true
    → s.storage.writable ≡ true
    → later.storage ≡ (set_locale l (set_theme t s)).storage
    → ((init_preferences language later).theme ≡ t) × ((init_preferences language later).locale ≡ l)
init-set_theme-set_locale language t l s later r w e =
    let s' = write theme_key (theme_text t) s.storage in
    let r' = readable-write theme_key (theme_text t) s.storage ∙ r in
    let w' = writable-write theme_key (theme_text t) s.storage ∙ w in
    let same : later.storage ≡ write locale_key (locale_text l) s' = e ∙ stored t l s in
    (
      theme_read_back language later t (
          rw same (
            read_other locale_key theme_key (locale_text l) s' r' w' keys_differ
            ∙ read_self theme_key (theme_text t) s.storage r w)),
      locale_read_back language later l (rw same (read_self locale_key (locale_text l) s' r' w')),
    )
