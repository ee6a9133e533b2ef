-- ===== src/Realtime/Hub/Registry.antt =====
-- The subscriptions of a replica follow its registry.

use text.Mathlib.TextLemmas.{append_cancel_left}
use fastapi_realtime_chat_ba.Prelude.{
  ℕ, String, Bool, true, false, not, ◌&&◌, ◌||◌, some, List, [], ◌∷◌, ◌++◌, str_eq, eq_iff, eq_refl,
  ◌≡◌, refl, sym, ap, subst, arith, ◌⊎◌, inl, inr, Bool-cases, ◌∙◌,
}
use fastapi_realtime_chat_ba.Realtime.Hub.{
  user_channel, Request, subscribe, unsubscribe, Registry, get, put, delete, on, local_channels,
}

-- The requests in order, on one channel.
abbrev pub after_requests : List Request → String → Bool → Bool
after_requests [] d b = b
after_requests (r ∷ rs) d b = after_requests rs d (on r d b)

pub after_requests-append :
    (rs : List Request) (r : Request) (d : String) (b : Bool)
    → after_requests (rs ++ (r ∷ [])) d b ≡ on r d (after_requests rs d b)
after_requests-append [] r d b = refl
after_requests-append (q ∷ rs) r d b = after_requests-append rs r d (on q d b)

-- Requests leave a channel alone, or they fix it.
after_requests_cases :
    (rs : List Request) (d : String)
    → ((b : Bool) → after_requests rs d b ≡ b)
      ⊎ ((c : Bool) × ((b : Bool) → after_requests rs d b ≡ c))
after_requests_cases [] d = inl (λ b. refl)
after_requests_cases (subscribe c ∷ rs) d = elim (Bool-cases (str_eq d c)) [
  | inl e ↦ inr (after_requests rs d true, λ b. rw e refl)
  | inr e ↦ rw e (after_requests_cases rs d)
]
after_requests_cases (unsubscribe c ∷ rs) d = elim (Bool-cases (str_eq d c)) [
  | inl e ↦ inr (after_requests rs d false, λ b. rw e refl)
  | inr e ↦ rw e (after_requests_cases rs d)
]

-- A channel that all requests leave as it is, the later ones leave so too.
pub later_requests :
    (r : Request) (rs : List Request) (d : String) (b : Bool)
    → after_requests (r ∷ rs) d b ≡ b
    → after_requests rs d b ≡ b
later_requests r rs d b h = elim (after_requests_cases rs d) [
  | inl same ↦ same b
  | inr (c, fixed) ↦ fixed b ∙ sym (fixed (on r d b)) ∙ h
]

pub local_put :
    (u : String) (ids : List ℕ) (es : Registry) (d : String)
    → local_channels (put u ids es) d ≡ (str_eq d (user_channel u) || local_channels es d)
local_put u ids [] d = refl
local_put u ids (e ∷ es) d = elim (Bool-cases (str_eq u e.0)) [
  | inl same ↦
      let one : u ≡ e.0 = (eq_iff u e.0).0 same in
      rw same (ground (arith, ap (λ z. str_eq d (user_channel z)) one))
  | inr other ↦ rw other (ground (arith, local_put u ids es d))
]

pub local_get :
    (u : String) (es : Registry) (ids : List ℕ)
    → get u es ≡ some ids
    → local_channels es (user_channel u) ≡ true
local_get u [] ids h = cc
local_get u (e ∷ es) ids h = elim (Bool-cases (str_eq u e.0)) [
  | inl same ↦
      let one : u ≡ e.0 = (eq_iff u e.0).0 same in
      let own : str_eq (user_channel u) (user_channel e.0) ≡ true =
        subst (λ z. str_eq (user_channel u) (user_channel z) ≡ true) one
          (eq_refl (user_channel u)) in
      rw own refl
  | inr other ↦ ground (arith, local_get u es ids)
]

channel_of_other :
    (u v d : String)
    → str_eq u v ≡ false
    → str_eq d (user_channel v) ≡ true
    → str_eq d (user_channel u) ≡ false
channel_of_other u v d other here = elim (Bool-cases (str_eq d (user_channel u))) [
  | inr e ↦ e
  | inl e ↦
      let same : user_channel u ≡ user_channel v =
        sym ((eq_iff d (user_channel u)).0 e) ∙ (eq_iff d (user_channel v)).0 here in
      let one : u ≡ v = append_cancel_left "chat:user:" u v same in ground (arith, eq_iff u v)
]

pub local_delete :
    (u : String) (es : Registry) (d : String)
    → local_channels (delete u es) d ≡ (not (str_eq d (user_channel u)) && local_channels es d)
local_delete u [] d = ground arith
local_delete u (e ∷ es) d = elim (Bool-cases (str_eq u e.0)) [
  | inl same ↦
      let one : u ≡ e.0 = (eq_iff u e.0).0 same in
      rw same (ground (arith, local_delete u es d, ap (λ z. str_eq d (user_channel z)) one))
  | inr other ↦ rw other (elim (Bool-cases (str_eq d (user_channel e.0))) [
    | inl here ↦ ground (arith, local_delete u es d, channel_of_other u e.0 d other here)
    | inr not_here ↦ ground (arith, local_delete u es d)
  ])
]
