-- ===== src/Realtime/Hub/Follows.antt =====
-- In every run of a hub its subscriptions follow its registry.

use fastapi_realtime_chat_ba.Prelude.{
  ℕ, ◌-◌, String, Bool, true, false, not, Option, some, none, List, [], ◌∷◌, ◌++◌, str_eq, eq_iff,
  ◌≡◌, refl, sym, ap, subst, arith, inl, inr, if◌then◌else◌, Bool-cases, Option-cases, ◌∙◌,
}
use fastapi_realtime_chat_ba.Realtime.Hub.{
  user_channel, Request, subscribe, unsubscribe, Channels, Link, down, connecting, up, Registry,
  Hub, get, put, delete, has, discard, add, is_empty, or_empty, register, unregister_from,
  unregister, on, local_channels, apply_request, release_waiters, resubscribe, connected, Event,
  joins, leaves, applies, breaks, begins, connects, step, steps, new_hub,
}
use fastapi_realtime_chat_ba.Realtime.Hub.Registry.{
  after_requests, after_requests-append, later_requests, local_put, local_get, local_delete,
}

-- With the waiting requests done, a subscription to `s` is the registry's.
abbrev pub Reaches : List Request → Channels → Channels → Type 0
Reaches rs s t = (d : String) → after_requests rs d (s d) ≡ t d

abbrev pub Linked : Link → List Request → Channels → Type 0
Linked down rs t = Unit
Linked (connecting s) rs t = Reaches rs s t
Linked (up s) rs t = Reaches rs s t

-- The requests that wait are right for the loop's subscriptions, and for those that it would take
-- from the registry if it began again.
abbrev pub Follows : Hub → Type 0
Follows h =
    Reaches h.requests (local_channels h.registry) (local_channels h.registry)
    × Linked h.link h.requests (local_channels h.registry)

-- One more request, with the change of the registry that it stands for.
Reaches-request :
    (rs : List Request) (r : Request) (s t t' : Channels)
    → ((d : String) → t' d ≡ on r d (t d))
    → Reaches rs s t
    → Reaches (rs ++ (r ∷ [])) s t'
Reaches-request rs r s t t' change h d =
    after_requests-append rs r d (s d) ∙ ap (on r d) (h d) ∙ sym (change d)

Linked-request :
    (link : Link) (rs : List Request) (r : Request) (t t' : Channels)
    → ((d : String) → t' d ≡ on r d (t d))
    → Linked link rs t
    → Linked link (rs ++ (r ∷ [])) t'
Linked-request down rs r t t' change h = tt
Linked-request (connecting s) rs r t t' change h = Reaches-request rs r s t t' change h
Linked-request (up s) rs r t t' change h = Reaches-request rs r s t t' change h

Linked-same :
    (link : Link) (rs : List Request) (t t' : Channels)
    → ((d : String) → t' d ≡ t d)
    → Linked link rs t
    → Linked link rs t'
Linked-same down rs t t' same h = tt
Linked-same (connecting s) rs t t' same h = λ d. h d ∙ sym (same d)
Linked-same (up s) rs t t' same h = λ d. h d ∙ sym (same d)

-- The channels after a request, from those before it.
Reaches-moved :
    (rs : List Request) (r : Request) (t t' : Channels)
    → ((d : String) → t' d ≡ on r d (t d))
    → Reaches rs t t
    → Reaches (rs ++ (r ∷ [])) t' t'
Reaches-moved rs (subscribe c) t t' change h d =
    after_requests-append rs (subscribe c) d (t' d) ∙ elim (Bool-cases (str_eq d c)) [
      | inl e ↦ ground (arith, change d)
      | inr e ↦ let same : t' d ≡ t d = ground (arith, change d) in rw (e, same) (h d)
    ]
Reaches-moved rs (unsubscribe c) t t' change h d =
    after_requests-append rs (unsubscribe c) d (t' d) ∙ elim (Bool-cases (str_eq d c)) [
      | inl e ↦ ground (arith, change d)
      | inr e ↦ let same : t' d ≡ t d = ground (arith, change d) in rw (e, same) (h d)
    ]

-- A change of the registry that changes no channel.
Follows-same :
    (h h' : Hub)
    → h'.requests ≡ h.requests
    → h'.link ≡ h.link
    → ((d : String) → local_channels h'.registry d ≡ local_channels h.registry d)
    → Follows h
    → Follows h'
Follows-same h h' rs link same (moot, linked) = (
  (λ d. rw (rs, same d) (moot d)),
  rw (rs, link)
      (Linked-same h.link h.requests (local_channels h.registry) (local_channels h'.registry) same
        linked),
)

-- A change of the registry with its request.
Follows-request :
    (h h' : Hub) (r : Request)
    → h'.requests ≡ h.requests ++ (r ∷ [])
    → h'.link ≡ h.link
    → ((d : String) → local_channels h'.registry d ≡ on r d (local_channels h.registry d))
    → Follows h
    → Follows h'
Follows-request h h' r rs link change (moot, linked) =
    let t = local_channels h.registry in
    let t' = local_channels h'.registry in
    (
      subst (λ z. Reaches z t' t') (sym rs) (Reaches-moved h.requests r t t' change moot),
      rw (rs, link) (Linked-request h.link h.requests r t t' change linked),
    )

-- An entry that is there already adds no channel.
put_again :
    (u : String) (ids old : List ℕ) (es : Registry) (d : String)
    → get u es ≡ some old
    → local_channels (put u ids es) d ≡ local_channels es d
put_again u ids old es d found =
    local_put u ids es d ∙ elim (Bool-cases (str_eq d (user_channel u))) [
      | inr e ↦ rw e refl
      | inl e ↦
          let one : d ≡ user_channel u = (eq_iff d (user_channel u)).0 e in
          let here : local_channels es d ≡ true =
            subst (λ z. local_channels es z ≡ true) (sym one) (local_get u es old found) in
          ground (arith, e, here)
    ]

register-Follows : (u : String) (i : ℕ) (h : Hub) → Follows h → Follows (register u i h)
unfolding register
register-Follows u i h f = elim (Bool-cases (is_empty (or_empty (get u h.registry)))) [
  | inl e ↦
      Follows-request h (register u i h) (subscribe (user_channel u)) (rw e refl) refl
        (local_put u (add i (or_empty (get u h.registry))) h.registry) f
  | inr e ↦ elim (Option-cases (get u h.registry)) [
    | inl missing ↦
        absurd (let bad : is_empty (or_empty (get u h.registry)) ≡ true = rw missing refl in cc)
    | inr (old, found) ↦
        Follows-same h (register u i h) (rw e refl) refl
          (λ d. put_again u (add i (or_empty (get u h.registry))) old h.registry d found) f
  ]
]

unregister_from-Follows :
    (u : String) (i : ℕ) (h : Hub) (conns : List ℕ)
    → get u h.registry ≡ some conns
    → Follows h
    → Follows (unregister_from u i h conns)
unfolding unregister_from
unregister_from-Follows u i h conns found f = elim (Bool-cases (has i conns)) [
  | inr absent ↦ subst Follows (sym (not_there absent)) f
  | inl there ↦ elim (Bool-cases (is_empty (discard i conns))) [
    | inl last ↦ subst Follows (sym (last_one there last)) (
        Follows-request h (without_user) (unsubscribe (user_channel u)) refl refl
          (local_delete u h.registry) f)
    | inr others ↦ subst Follows (sym (one_less there others)) (
        Follows-same h (without_one) refl refl
          (λ d. put_again u (discard i conns) conns h.registry d found) f)
  ]
]
  where
    without_user : Hub
    without_user = record h {
      registry = delete u h.registry;
      requests = h.requests ++ (unsubscribe (user_channel u) ∷ []);
      ws_connections = h.ws_connections - 1;
    }

    without_one : Hub
    without_one = record h {
      registry = put u (discard i conns) h.registry;
      ws_connections = h.ws_connections - 1;
    }

    pick : Bool → Bool → Hub
    pick a b = if not a then h else if b then without_user else without_one

    not_there : has i conns ≡ false → unregister_from u i h conns ≡ h
    not_there e = ap (λ a. pick a (is_empty (discard i conns))) e

    last_one :
        has i conns ≡ true
        → is_empty (discard i conns) ≡ true
        → unregister_from u i h conns ≡ without_user
    last_one e e' = ap (λ a. pick a (is_empty (discard i conns))) e ∙ ap (pick true) e'

    one_less :
        has i conns ≡ true
        → is_empty (discard i conns) ≡ false
        → unregister_from u i h conns ≡ without_one
    one_less e e' = ap (λ a. pick a (is_empty (discard i conns))) e ∙ ap (pick true) e'

unregister-Follows : (u : String) (i : ℕ) (h : Hub) → Follows h → Follows (unregister u i h)
unfolding unregister
unregister-Follows u i h f = by_entry (get u h.registry) refl
  where
    by_entry :
        (o : Option (List ℕ))
        → get u h.registry ≡ o
        → Follows (elim o as (λ z. Hub) [ none ↦ h | some conns ↦ unregister_from u i h conns ])
    by_entry none e = f
    by_entry (some conns) e = unregister_from-Follows u i h conns e f

apply-Follows :
    (h : Hub) (rs : List Request) (link : Link)
    → h.requests ≡ rs
    → h.link ≡ link
    → Follows h
    → Follows (apply_request h rs link)
unfolding apply_request
apply-Follows h [] link e e' f = f
apply-Follows h (r ∷ rs) down e e' f = f
apply-Follows h (r ∷ rs) (connecting s) e e' f = f
apply-Follows h (r ∷ rs) (up s) e e' (moot, linked) =
    let t = local_channels h.registry in
    let moot' : Reaches (r ∷ rs) t t = subst (λ z. Reaches z t t) e moot in
    let linked' : Reaches (r ∷ rs) s t =
      subst (λ z. Linked z (r ∷ rs) t) e' (subst (λ z. Linked h.link z t) e linked) in
    ((λ d. later_requests r rs d (t d) (moot' d)), linked')

resubscribe-Follows : (h : Hub) (link : Link) → Follows h → Follows (resubscribe h link)
unfolding resubscribe
resubscribe-Follows h down (moot, linked) = (moot, moot)
resubscribe-Follows h (connecting s) f = f
resubscribe-Follows h (up s) f = f

connected-Follows : (h : Hub) (link : Link) → h.link ≡ link → Follows h → Follows (connected h link)
unfolding connected
connected-Follows h down e f = f
connected-Follows h (connecting s) e (moot, linked) =
    (moot, subst (λ z. Linked z h.requests (local_channels h.registry)) e linked)
connected-Follows h (up s) e f = f

step-Follows : (e : Event) (h : Hub) → Follows h → Follows (step e h)
unfolding step release_waiters
step-Follows (joins u i) h f = register-Follows u i h f
step-Follows (leaves u i) h f = unregister-Follows u i h f
step-Follows applies h f = apply-Follows h h.requests h.link refl refl f
step-Follows breaks h f = ((λ d. refl), tt)
step-Follows begins h f = resubscribe-Follows h h.link f
step-Follows connects h f = connected-Follows h h.link refl f

steps-Follows : (es : List Event) (h : Hub) → Follows h → Follows (steps es h)
unfolding steps
steps-Follows [] h f = f
steps-Follows (e ∷ es) h f = steps-Follows es (step e h) (step-Follows e h f)

-- In every run of a hub, with devices that come and go and a connection to Redis that is lost and
-- made again at any point: when the loop runs and no request waits, the replica is subscribed to the
-- channels of the users with a device on it, and to no other user's.
pub subscriptions_follow :
    (es : List Event) (s : Channels)
    → (steps es new_hub).link ≡ up s
    → (steps es new_hub).requests ≡ []
    → (d : String) → s d ≡ local_channels (steps es new_hub).registry d
subscriptions_follow es s running none_wait d =
    let f = steps-Follows es new_hub ((λ z. refl), tt) in
    let t = local_channels (steps es new_hub).registry in
    subst (λ z. Reaches z s t) none_wait
      (subst (λ z. Linked z (steps es new_hub).requests t) running f.1) d
