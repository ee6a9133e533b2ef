-- ===== src/Realtime/Hub/Fanout.antt =====
-- A message on a user's channel reaches that user's connections, and no other.
use text.Mathlib.Text.{starts_with}
use text.Mathlib.TextPositions.{starts_with-append}
use text.Mathlib.TextLemmas.{nil-append, cons-append, append_assoc}
use Prim.Native.String.{◌++◌ as str_append}
use fastapi_realtime_chat_ba.Prelude.{
  ℕ, suc, String, true, false, some, List, [], ◌∷◌, ◌≡◌, refl, sym, ap, subst, ◌∙◌, arith, inl, inr,
  ◌==◌, if◌then◌else◌, Bool-cases, Option-cases, text_length,
}
use fastapi_realtime_chat_ba.Models.{user_topic}
use fastapi_realtime_chat_ba.Realtime.Connection.{Connection, send_nowait}
use fastapi_realtime_chat_ba.Realtime.Relay.{topic_channel}
use fastapi_realtime_chat_ba.Realtime.Hub.{
  user_channel, Registry, get, has, or_empty, Event, steps, new_hub,
}
use fastapi_realtime_chat_ba.Realtime.Hub.Members.{member_from, distinct, members_of_run}
use fastapi_realtime_chat_ba.Realtime.Hub.Dispatch.{
  drop_text, Payload, object, DataField, observes, Connections, set_connection, each, deliver_event,
  deliver_to, dispatch,
}

drop_text-append : (p u : String) → drop_text (text_length p) (str_append p u) ≡ u
drop_text-append String.[] u = nil-append u
drop_text-append (String.◌∷◌ c p) u =
    ap (drop_text (suc (text_length p))) (cons-append c p u) ∙ drop_text-append p u

-- A user's channel is the prefix and the user.
channel_prefix : (u : String) → user_channel u ≡ str_append (user_channel "") u
channel_prefix u = ap (λ z. str_append z u) refl

-- The relay's channel for a user is the hub's.
topic_of_user : (u : String) → topic_channel (user_topic u) ≡ user_channel u
topic_of_user u = sym (append_assoc "chat:" "user:" u)

module _ {ℓ} {E : Type ℓ} where
  each_lem :
      (f : Connection E → Connection E) (ids : List ℕ) (cs : Connections E) (j : ℕ)
      → distinct ids ≡ true
      → each f ids cs j ≡ (if has j ids then f (cs j) else cs j)
  unfolding each
  each_lem f [] cs j h = refl
  each_lem f (i ∷ ids) cs j h =
      let rest = each_lem f ids (set_connection i (f (cs i)) cs) j (ground arith) in
      elim (Bool-cases (j == i)) [
        | inl same ↦
            let e : i ≡ j = ground arith in
            let once : has j ids ≡ false = subst (λ z. has z ids ≡ false) e (ground arith) in
            rest ∙ rw (once, same) (ap (λ z. f (cs z)) e)
        | inr other ↦ rest ∙ rw other refl
      ]

  deliver_lem :
      (type : String) (content : DataField) (e : E) (ids : List ℕ) (cs : Connections E)
      → observes type content ≡ true
      → deliver_to (some ids) (object type content e) cs ≡ some (each (send_nowait e) ids cs)
  unfolding deliver_event each
  deliver_lem type content e [] cs fine = refl
  deliver_lem type content e (i ∷ ids) cs fine = rw fine refl

  delivered :
      (local : Registry) (u : String) (type : String) (content : DataField) (e : E)
      (cs : Connections E)
      → observes type content ≡ true
      → deliver_to (get u local) (object type content e) cs
        ≡ some (each (send_nowait e) (or_empty (get u local)) cs)
  unfolding each
  delivered local u type content e cs fine = elim (Option-cases (get u local)) [
    | inl nobody ↦ rw nobody refl
    | inr (ids, there) ↦ rw there (deliver_lem type content e ids cs fine)
  ]

  on_channel :
      (local : Registry) (u : String) (p : Payload E) (cs : Connections E)
      → dispatch local (some (user_channel u)) p cs ≡ deliver_to (get u local) p cs
  unfolding dispatch
  on_channel local u p cs =
      let begins : starts_with (user_channel u) (user_channel "") ≡ true =
        subst (λ z. starts_with z (user_channel "") ≡ true) (sym (channel_prefix u))
          (starts_with-append (user_channel "") u) in
      let user : drop_text (text_length (user_channel "")) (user_channel u) ≡ u =
        ap (drop_text (text_length (user_channel ""))) (channel_prefix u)
        ∙ drop_text-append (user_channel "") u in
      rw (begins, user) refl

  -- After any run of a hub, an event that the relay publishes for a user is put into the queues of the
  -- connections that joined for this user and did not leave, once each, and of no others: for an event
  -- whose `data` is no value that `_observe_latency` fails at.
  pub dispatch_reaches :
      (es : List Event) (u : String) (type : String) (content : DataField) (e : E)
      (cs : Connections E)
      → observes type content ≡ true
      → (cs' : Connections E) × (dispatch
            (steps es new_hub).registry
            (some (topic_channel (user_topic u)))
            (object type content e)
            cs
          ≡ some cs')
        × ((j : ℕ) → cs' j ≡ (if member_from es u j false then send_nowait e (cs j) else cs j))
  dispatch_reaches es u type content e cs fine =
      let local = (steps es new_hub).registry in
      let ids = or_empty (get u local) in
      let (once, members) = members_of_run es u in
      (
        each (send_nowait e) ids cs,
        ap (λ z. dispatch local (some z) (object type content e) cs) (topic_of_user u)
            ∙ on_channel local u (object type content e) cs
            ∙ delivered local u type content e cs fine,
        λ j.
            each_lem (send_nowait e) ids cs j once
            ∙ ap (λ b. if b then send_nowait e (cs j) else cs j) (members j),
      )
