-- ===== src/Realtime/Hub/Members.antt =====
-- Who is registered: after any run of a hub, the connections that joined and did not leave.
use fastapi_realtime_chat_ba.Prelude.{
  ℕ, String, Bool, true, false, not, ◌&&◌, ◌||◌, some, none, List, [], ◌∷◌, ◌≡◌, refl, sym, ap,
  subst, ◌∙◌, arith, inl, inr, ◌==◌, str_eq, eq_iff, if◌then◌else◌, Bool-cases, Option-cases,
}
use fastapi_realtime_chat_ba.Realtime.Hub.{
  Registry, Hub, get, put, delete, has, discard, add, is_empty, or_empty, register, unregister_from,
  unregister, apply_request, release_waiters, resubscribe, connected, Event, joins, leaves, applies,
  breaks, begins, connects, step, steps, new_hub, Request, Link, down, connecting, up,
}

-- whether a connection is in the set of a user
abbrev pub registered : String → ℕ → Registry → Bool
registered u j local = has j (or_empty (get u local))

-- what one event means for the membership of a connection
abbrev pub member_after : Event → String → ℕ → Bool → Bool
member_after (joins v i) u j b = str_eq u v && j == i || b
member_after (leaves v i) u j b = not (str_eq u v && j == i) && b
member_after applies u j b = b
member_after breaks u j b = b
member_after begins u j b = b
member_after connects u j b = b

-- The connection has joined, and not left since.
abbrev pub member_from : List Event → String → ℕ → Bool → Bool
member_from [] u j b = b
member_from (e ∷ es) u j b = member_from es u j (member_after e u j b)

get-put :
    (u v : String) (ids : List ℕ) (es : Registry)
    → get u (put v ids es) ≡ (if str_eq u v then some ids else get u es)
get-put u v ids [] = refl
get-put u v ids (e ∷ es) =
    ground (arith, eq_iff u v, eq_iff v e.0, eq_iff u e.0, get-put u v ids es)

get-delete :
    (u v : String) (es : Registry) → get u (delete v es) ≡ (if str_eq u v then none else get u es)
get-delete u v [] = ground arith
get-delete u v (e ∷ es) = ground (arith, eq_iff u v, eq_iff v e.0, eq_iff u e.0, get-delete u v es)

has-add : (j i : ℕ) (ids : List ℕ) → has j (add i ids) ≡ (j == i || has j ids)
has-add j i ids = elim (Bool-cases (has i ids)) [
  | inr new ↦ rw new refl
  | inl there ↦ elim (Bool-cases (j == i)) [
    | inr other ↦ rw (there, other) refl
    | inl same ↦ let e : j ≡ i = ground arith in rw (there, same) (ap (λ z. has z ids) e ∙ there)
  ]
]

has-discard : (j i : ℕ) (ids : List ℕ) → has j (discard i ids) ≡ (not (j == i) && has j ids)
has-discard j i [] = ground arith
has-discard j i (k ∷ ids) = ground (arith, has-discard j i ids)

abbrev pub distinct : List ℕ → Bool
distinct [] = true
distinct (i ∷ is) = not (has i is) && distinct is

distinct-discard : (i : ℕ) (ids : List ℕ) → distinct ids ≡ true → distinct (discard i ids) ≡ true
distinct-discard i [] h = refl
distinct-discard i (k ∷ ids) h = ground (arith, distinct-discard i ids, has-discard k i ids)

-- No set has a connection twice.
abbrev pub IsDistinct : Registry → Type 0
IsDistinct local = (u : String) → distinct (or_empty (get u local)) ≡ true

distinct-add : (i : ℕ) (ids : List ℕ) → distinct ids ≡ true → distinct (add i ids) ≡ true
distinct-add i ids h = ground arith

is_empty-has : (j : ℕ) (ids : List ℕ) → is_empty ids ≡ true → has j ids ≡ false
is_empty-has j [] h = refl
is_empty-has j (i ∷ ids) h = cc

-- The set of a user after `register` and `unregister`.
get-register :
    (u v : String) (i : ℕ) (h : Hub)
    → or_empty (get u (register v i h).registry)
      ≡ (if str_eq u v then add i (or_empty (get u h.registry)) else or_empty (get u h.registry))
unfolding register
get-register u v i h = elim (Bool-cases (str_eq u v)) [
  | inl same ↦
      let one : u ≡ v = (eq_iff u v).0 same in
      rw (get-put u v (add i (or_empty (get v h.registry))) h.registry, same)
        (ap (λ z. add i (or_empty (get z h.registry))) (sym one))
  | inr other ↦ rw (get-put u v (add i (or_empty (get v h.registry))) h.registry, other) refl
]

discard-absent : (i : ℕ) (ids : List ℕ) → has i ids ≡ false → discard i ids ≡ ids
discard-absent i [] h = refl
discard-absent i (j ∷ ids) h = ground (arith, discard-absent i ids)

is_empty-nil : (ids : List ℕ) → is_empty ids ≡ true → ids ≡ []
is_empty-nil [] h = refl
is_empty-nil (i ∷ ids) h = cc

get-unregister_from :
    (u v : String) (i : ℕ) (h : Hub) (conns : List ℕ)
    → get v h.registry ≡ some conns
    → or_empty (get u (unregister_from v i h conns).registry)
      ≡ (if str_eq u v then discard i conns else or_empty (get u h.registry))
unfolding unregister_from
get-unregister_from u v i h conns there =
    let own : str_eq u v ≡ true → or_empty (get u h.registry) ≡ conns =
      λ same. ap (λ z. or_empty (get z h.registry)) ((eq_iff u v).0 same) ∙ ap or_empty there in
    elim (Bool-cases (has i conns)) [
      | inr absent ↦ elim (Bool-cases (str_eq u v)) [
        | inl same ↦
            rw (absent, same, unregister_from) (own same ∙ sym (discard-absent i conns absent))
        | inr other ↦ rw (absent, other, unregister_from) refl
      ]
      | inl member ↦ elim (Bool-cases (is_empty (discard i conns))) [
        | inl last ↦ elim (Bool-cases (str_eq u v)) [
          | inl same ↦
              rw (member, last, unregister_from)
                (rw (get-delete u v h.registry, same) (sym (is_empty-nil (discard i conns) last)))
          | inr other ↦
              rw (member, last, unregister_from) (rw (get-delete u v h.registry, other) refl)
        ]
        | inr more ↦
            rw (member, more, unregister_from)
              (elim (Bool-cases (str_eq u v)) [
                | inl same ↦ rw (get-put u v (discard i conns) h.registry, same) refl
                | inr other ↦ rw (get-put u v (discard i conns) h.registry, other) refl
              ])
      ]
    ]

get-unregister :
    (u v : String) (i : ℕ) (h : Hub)
    → or_empty (get u (unregister v i h).registry) ≡ (
        if str_eq u v then discard i (or_empty (get u h.registry)) else or_empty (get u h.registry))
unfolding unregister unregister_from
get-unregister u v i h = elim (Option-cases (get v h.registry)) [
  | inl none_there ↦ elim (Bool-cases (str_eq u v)) [
    | inl same ↦
        let own : or_empty (get u h.registry) ≡ [] =
          ap (λ z. or_empty (get z h.registry)) ((eq_iff u v).0 same) ∙ ap or_empty none_there in
        rw (none_there, same, unregister) (rw own refl)
    | inr other ↦ rw (none_there, other, unregister) refl
  ]
  | inr (conns, there) ↦ elim (Bool-cases (str_eq u v)) [
    | inl same ↦
        let own : or_empty (get u h.registry) ≡ conns =
          ap (λ z. or_empty (get z h.registry)) ((eq_iff u v).0 same) ∙ ap or_empty there in
        rw (there, unregister) (get-unregister_from u v i h conns there ∙ rw (same, own) refl)
    | inr other ↦ rw (there, unregister) (get-unregister_from u v i h conns there ∙ rw other refl)
  ]
]

apply_request-registry :
    (h : Hub) (rs : List Request) (link : Link) → (apply_request h rs link).registry ≡ h.registry
unfolding apply_request
apply_request-registry h [] link = refl
apply_request-registry h (r ∷ rs) down = refl
apply_request-registry h (r ∷ rs) (connecting s) = refl
apply_request-registry h (r ∷ rs) (up s) = refl

resubscribe-registry : (h : Hub) (link : Link) → (resubscribe h link).registry ≡ h.registry
unfolding resubscribe
resubscribe-registry h down = refl
resubscribe-registry h (connecting s) = refl
resubscribe-registry h (up s) = refl

connected-registry : (h : Hub) (link : Link) → (connected h link).registry ≡ h.registry
unfolding connected
connected-registry h down = refl
connected-registry h (connecting s) = refl
connected-registry h (up s) = refl

-- the set of a user after an event, from the set before it
abbrev set_after : Event → String → List ℕ → List ℕ
set_after (joins v i) u ids = if str_eq u v then add i ids else ids
set_after (leaves v i) u ids = if str_eq u v then discard i ids else ids
set_after applies u ids = ids
set_after breaks u ids = ids
set_after begins u ids = ids
set_after connects u ids = ids

step-set :
    (e : Event) (u : String) (h : Hub)
    → or_empty (get u (step e h).registry) ≡ set_after e u (or_empty (get u h.registry))
unfolding step release_waiters
step-set (joins v i) u h = get-register u v i h
step-set (leaves v i) u h = get-unregister u v i h
step-set applies u h = ap (λ z. or_empty (get u z)) (apply_request-registry h h.requests h.link)
step-set breaks u h = refl
step-set begins u h = ap (λ z. or_empty (get u z)) (resubscribe-registry h h.link)
step-set connects u h = ap (λ z. or_empty (get u z)) (connected-registry h h.link)

set_after-has :
    (e : Event) (u : String) (j : ℕ) (ids : List ℕ)
    → has j (set_after e u ids) ≡ member_after e u j (has j ids)
set_after-has (joins v i) u j ids = elim (Bool-cases (str_eq u v)) [
  | inl same ↦ rw same (has-add j i ids)
  | inr other ↦ rw other refl
]
set_after-has (leaves v i) u j ids = elim (Bool-cases (str_eq u v)) [
  | inl same ↦ rw same (has-discard j i ids)
  | inr other ↦ rw other refl
]
set_after-has applies u j ids = refl
set_after-has breaks u j ids = refl
set_after-has begins u j ids = refl
set_after-has connects u j ids = refl

set_after-distinct :
    (e : Event) (u : String) (ids : List ℕ)
    → distinct ids ≡ true
    → distinct (set_after e u ids) ≡ true
set_after-distinct (joins v i) u ids h = elim (Bool-cases (str_eq u v)) [
  | inl same ↦ rw same (distinct-add i ids h)
  | inr other ↦ rw other h
]
set_after-distinct (leaves v i) u ids h = elim (Bool-cases (str_eq u v)) [
  | inl same ↦ rw same (distinct-discard i ids h)
  | inr other ↦ rw other h
]
set_after-distinct applies u ids h = h
set_after-distinct breaks u ids h = h
set_after-distinct begins u ids h = h
set_after-distinct connects u ids h = h

pub steps-member :
    (es : List Event) (h : Hub) (u : String) (j : ℕ)
    → registered u j (steps es h).registry ≡ member_from es u j (registered u j h.registry)
unfolding steps
steps-member [] h u j = refl
steps-member (e ∷ es) h u j =
    steps-member es (step e h) u j
    ∙ ap (member_from es u j)
        (ap (has j) (step-set e u h) ∙ set_after-has e u j (or_empty (get u h.registry)))

steps-IsDistinct :
    (es : List Event) (h : Hub) → IsDistinct h.registry → IsDistinct (steps es h).registry
unfolding steps
steps-IsDistinct [] h d = d
steps-IsDistinct (e ∷ es) h d = steps-IsDistinct es (step e h) (λ u.
    subst (λ z. distinct z ≡ true) (sym (step-set e u h))
      (set_after-distinct e u (or_empty (get u h.registry)) (d u)))

-- After any run of a new hub, the set of a user holds exactly the connections that joined for the user
-- and did not leave since, each once.
pub members_of_run :
    (es : List Event) (u : String)
    → (distinct (or_empty (get u (steps es new_hub).registry)) ≡ true)
      × ((j : ℕ) → registered u j (steps es new_hub).registry ≡ member_from es u j false)
members_of_run es u = (steps-IsDistinct es new_hub (λ v. refl) u, λ j. steps-member es new_hub u j)
