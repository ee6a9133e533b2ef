-- ===== src/Chat/Session.antt =====
-- The session of a ChatService: the database as committed and as the open transaction sees it, and
-- the calls that leave it. An action may raise, and keeps what it did before it raised.
use fastapi_realtime_chat_ba.Prelude.{ℕ, ◌+◌, List, [], ◌∷◌, Option, some, none}
use fastapi_realtime_chat_ba.Errors.{Result, ok, err, Failure, raised, AppError, wrong_row_count}
use fastapi_realtime_chat_ba.Models.{Db}

pub record Session : Type 0 where
  pub committed : Db
  pub working : Db
  -- calls of `on_commit`, which is `relay.notify`
  pub notified : ℕ
  -- the counters MESSAGES_SENT and MESSAGES_REPLAYED
  pub messages_sent : ℕ
  pub messages_replayed : ℕ

abbrev pub open_session : Db → Session
open_session db = record {
  committed = db;
  working = db;
  notified = 0;
  messages_sent = 0;
  messages_replayed = 0;
}

abbrev pub Exec {ℓ} : Type ℓ → Type ℓ
Exec A = Session → Result A × Session

abbrev pub continue {ℓ κ} : {A : Type ℓ} {B : Type κ} → Result A → (A → Exec B) → Exec B
continue (ok a) f s = f a s
continue (err e) f s = (err e, s)

infixl 10 ◌>>=◌ ◌>>◌
abbrev pub ◌>>=◌ {ℓ κ} : {A : Type ℓ} {B : Type κ} → Exec A → (A → Exec B) → Exec B
◌>>=◌ m f s = continue (m s).0 f (m s).1

abbrev pub ◌>>◌ {ℓ κ} : {A : Type ℓ} {B : Type κ} → Exec A → Exec B → Exec B
m >> n = m >>= λ _. n

abbrev pub pure {ℓ} : {A : Type ℓ} → A → Exec A
pure a s = (ok a, s)

abbrev pub lift {ℓ} : {A : Type ℓ} → Result A → Exec A
lift r s = (r, s)

abbrev pub fail {ℓ} : {A : Type ℓ} → Failure → Exec A
fail e s = (err e, s)

abbrev pub raise {ℓ} : {A : Type ℓ} → AppError → Exec A
raise e s = (err (raised e), s)

abbrev pub gets {ℓ} : {A : Type ℓ} → (Db → A) → Exec A
gets f s = (ok (f s.working), s)

abbrev pub modify : (Db → Db) → Exec (Unit {0})
modify f s = (ok tt, record s { working = f s.working })

-- ChatService._commit
unfoldable pub commit : Exec (Unit {0})
commit s = (ok tt, record s { committed = s.working; notified = s.notified + 1 })

-- AsyncSession.rollback
abbrev pub rollback : Exec (Unit {0})
rollback s = (ok tt, record s { working = s.committed })

-- Commits of other sessions, where this one has nothing pending.
abbrev pub others_commit : (Db → Db) → Exec (Unit {0})
others_commit f s = (ok tt, record s { committed = f s.committed; working = f s.committed })

-- Result.one_or_none
abbrev pub one_or_none {ℓ} : {A : Type ℓ} → List A → Result (Option A)
one_or_none [] = ok none
one_or_none (a ∷ []) = ok (some a)
one_or_none (a ∷ b ∷ rest) = err wrong_row_count

-- Result.one
abbrev pub one {ℓ} : {A : Type ℓ} → List A → Result A
one [] = err wrong_row_count
one (a ∷ []) = ok a
one (a ∷ b ∷ rest) = err wrong_row_count
