-- ===== src/Data/Session.antt =====
-- web/src/data/session.ts and auth.ts: the organisation on screen, and signing out.
use vekst.Prelude.{none, some}
use vekst.Prelude.Result.{ok, session_not_set}
use vekst.Client.{Session, Io, pure, throw, call, log_out, ◌>>◌}

unfoldable pub set_session : Session → Io (Unit {0})
set_session session p s = (ok tt, record s { session = some session })

unfoldable pub clear_session : Io (Unit {0})
clear_session p s = (ok tt, record s { session = none })

unfoldable pub require_session : Io Session
require_session p s = elim s.session [
  | none ↦ throw session_not_set p s
  | some session ↦ pure session p s
]

-- The page that is opened afterwards is not modelled.
unfoldable pub sign_out : Io (Unit {0})
unfolding clear_session call
sign_out = do clear_session; call log_out
