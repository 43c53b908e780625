-- ===== src/I18n/Message.antt =====
-- web/src/i18n.ts: an entry of a catalogue.
use Prim.Native.String.{String}
use vekst.Prelude.{Text, codes}

abbrev pub msg : String → String → Text × Text
msg key value = (codes key, codes value)
