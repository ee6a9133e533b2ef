-- ===== src/Chat/Keeps.antt =====
-- Invariants of actions: what holds of the committed database and of the transaction's view before an
-- action holds of both afterwards, whether the action returns or raises.
use fastapi_realtime_chat_ba.Prelude.{
  ◌≡◌, sym, subst, Bool, true, false, Option, none, some, if◌then◌else◌,
}
use fastapi_realtime_chat_ba.Errors.{Result, ok, err, AppError}
use fastapi_realtime_chat_ba.Models.{Db}
use fastapi_realtime_chat_ba.Chat.Session.{
  Session, Exec, continue, ◌>>=◌, pure, lift, raise, gets, modify, commit,
}

pub record Keeps {ℓ} {A : Type ℓ} (P : Db → Type 0) (m : Exec A) : Type ℓ where
  pub committed : (s : Session) → P s.committed → P s.working → P (m s).1.committed
  pub working : (s : Session) → P s.committed → P s.working → P (m s).1.working

module _ {ℓ} {A : Type ℓ} {P : Db → Type 0} where
  pub Keeps-pure : (a : A) → Keeps P (pure a)
  Keeps-pure a = record { committed = λ s c w. c; working = λ s c w. w }

  pub Keeps-raise : (e : AppError) → Keeps P (raise {A = A} e)
  Keeps-raise e = record { committed = λ s c w. c; working = λ s c w. w }

  pub Keeps-lift : (r : Result A) → Keeps P (lift r)
  Keeps-lift r = record { committed = λ s c w. c; working = λ s c w. w }

  pub Keeps-gets : (f : Db → A) → Keeps P (gets f)
  Keeps-gets f = record { committed = λ s c w. c; working = λ s c w. w }

  -- an action that leaves the session as it was
  pub Keeps-reads : (m : Exec A) → ((s : Session) → (m s).1 ≡ s) → Keeps P m
  Keeps-reads m same = record {
    committed = λ s c w. subst (λ t. P t.committed) (sym (same s)) c;
    working = λ s c w. subst (λ t. P t.working) (sym (same s)) w;
  }

  pub Keeps-if : (b : Bool) (m n : Exec A) → Keeps P m → Keeps P n → Keeps P (if b then m else n)
  Keeps-if true m n km kn = km
  Keeps-if false m n km kn = kn

module _ {P : Db → Type 0} where
  pub Keeps-modify : (f : Db → Db) → ((d : Db) → P d → P (f d)) → Keeps P (modify f)
  Keeps-modify f h = record { committed = λ s c w. c; working = λ s c w. h s.working w }

  pub Keeps-commit : Keeps P commit
  unfolding commit
  Keeps-commit = record { committed = λ s c w. w; working = λ s c w. w }

module _ {ℓ κ} {A : Type ℓ} {B : Type κ} {P : Db → Type 0} where
  continue-Keeps :
      (r : Result A) (f : A → Exec B) → ((a : A) → Keeps P (f a)) → Keeps P (continue r f)
  continue-Keeps (ok a) f h = h a
  continue-Keeps (err e) f h = record { committed = λ s c w. c; working = λ s c w. w }

  pub Keeps-bind :
      (m : Exec A) (f : A → Exec B) → Keeps P m → ((a : A) → Keeps P (f a)) → Keeps P (m >>= f)
  Keeps-bind m f km kf = record {
    committed = λ s c w.
        (continue-Keeps (m s).0 f kf).committed (m s).1 (km.committed s c w) (km.working s c w);
    working = λ s c w.
        (continue-Keeps (m s).0 f kf).working (m s).1 (km.committed s c w) (km.working s c w);
  }

  pub Keeps-option :
      (o : Option A) (m : Exec B) (f : A → Exec B)
      → Keeps P m
      → ((a : A) → Keeps P (f a))
      → Keeps P (elim o [ none ↦ m | some a ↦ f a ])
  Keeps-option none m f km kf = km
  Keeps-option (some a) m f km kf = kf a

pub ruleset keeps_rules = (
  Keeps-pure, Keeps-raise, Keeps-lift, Keeps-gets, Keeps-if, Keeps-modify, Keeps-commit, Keeps-bind,
  Keeps-option,
)
