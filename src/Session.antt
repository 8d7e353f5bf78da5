-- ===== src/Session.antt =====
-- A request's database session: backend/app/core/database.py and what a service does through it.
-- A service call reads and writes the open transaction, `session`; `commit` makes it the committed
-- state, and an exception that leaves the request rolls it back to that state. `effects` lists, in
-- order, what the process did outside the database, with each commit among them.
pub mod Rules
use support_flow.Prelude.{ℕ, String, Bool, true, false, Option, none, some, List, [], ◌∷◌, ◌++◌}
use support_flow.Errors.{AppError, Result, ok, raised}
use support_flow.Db.{Db}
use support_flow.Realtime.{Envelope}

pub data Effect : Type 0 where
  commit : Effect
  -- the notification ids handed to `send_notification_email.delay`
  deliver : List ℕ → Effect
  -- one pipelined publish
  publish : List Envelope → Effect
  -- a version bump of one organization's analytics cache
  invalidate : ℕ → Effect
  -- a document handed to `ingest_document.delay`, and an object deleted from the store
  ingest : ℕ → Effect
  delete_object : String → Effect
  -- a ticket and the analysis rows handed to `analyze_ticket.delay`
  analyze : ℕ → List ℕ → Effect

pub record World : Type 0 where
  pub committed : Db
  pub session : Db
  pub effects : List Effect

abbrev pub App : Type 0 → Type 0
App A = World → Result A × World

abbrev pub continue : {A B : Type 0} → Result A → (A → App B) → World → Result B × World
continue (ok a) f w = f a w
continue (raised e) f w = (raised e, w)

infixl 5 ◌>>=◌ ◌>>◌
abbrev pub ◌>>=◌ : {A B : Type 0} → App A → (A → App B) → App B
◌>>=◌ m f w = let (r, w') = m w in continue r f w'

abbrev pub ◌>>◌ : {B : Type 0} → App (Unit {0}) → App B → App B
m >> k = m >>= λ _. k

abbrev pub pure : {A : Type 0} → A → App A
pure a w = (ok a, w)

abbrev pub raise : {A : Type 0} → AppError → App A
raise e w = (raised e, w)

-- `if not test: raise error`
abbrev pub require : Bool → AppError → App (Unit {0})
require true e w = (ok tt, w)
require false e w = (raised e, w)

-- `if value is None: raise error`
abbrev pub require_some : {A : Type 0} → Option A → AppError → App A
require_some none e w = (raised e, w)
require_some (some a) e w = (ok a, w)

abbrev pub gets : {A : Type 0} → (Db → A) → App A
gets f w = (ok (f w.session), w)

abbrev pub modify : (Db → Db) → App (Unit {0})
modify f w = (ok tt, record w { session = f w.session })

abbrev pub emit : Effect → App (Unit {0})
emit e w = (ok tt, record w { effects = w.effects ++ e ∷ [] })

abbrev pub commit_session : App (Unit {0})
commit_session w =
    (ok tt, record w { committed = w.session; effects = w.effects ++ Effect.commit ∷ [] })

abbrev rollback_on : {A : Type 0} → Result A → World → World
rollback_on (ok a) w = w
rollback_on (raised e) w = record w { session = w.committed }

-- `try: … except AppError`: the error becomes a value, in the world that it left.
abbrev pub caught : {A : Type 0} → App A → App (Result A)
caught m w = let (r, w') = m w in (ok r, w')

-- `except AIServiceError`: that error becomes a value, and any other one stays raised.
abbrev pub except_ai : {A : Type 0} → Result A → Result (Result A)
except_ai (ok a) = ok (ok a)
except_ai (raised AppError.ai_service_error) = ok (raised AppError.ai_service_error)
except_ai (raised e) = raised e

abbrev pub caught_ai : {A : Type 0} → App A → App (Result A)
caught_ai m w = let (r, w') = m w in (except_ai r, w')

-- `get_db`: one request, with the rollback of its `except` clause.
unfoldable pub request : {A : Type 0} → App A → App A
request m w = let (r, w') = m w in (r, rollback_on r w')
