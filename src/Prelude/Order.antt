-- ===== src/Prelude/Order.antt =====
-- ORDER BY on rows that a strict order tells apart: the one sorted list of the rows, and what WHERE
-- and LIMIT do to it.
use Prim.Native.Nat.{ℕ, zero, suc}
use mathlib.Core.Path.{◌≡◌, refl, sym, subst}
use mathlib.Core.Logic.{◌⊎◌, inl, inr}
use mathlib.Core.Bool.{Bool, true, false}
use mathlib.Core.List.{List, [], ◌∷◌}
use mathlib.Core.Option.{Option, none, some}
use native.Mathlib.Omega.{arith}
use fastapi_realtime_chat_ba.Prelude.Tests.{if◌then◌else◌, Bool-cases}
use fastapi_realtime_chat_ba.Prelude.Lists.{take, drop, All, All-map}
use fastapi_realtime_chat_ba.Prelude.Tables.{rows_where}

module _ {ℓ} {R : Type ℓ} where
  unfoldable pub insert_row : (R → R → Bool) → R → List R → List R
  insert_row lt r [] = r ∷ []
  insert_row lt r (q ∷ qs) =
      let rest = insert_row lt r qs in if lt r q then r ∷ q ∷ qs else q ∷ rest

  unfoldable pub order_by : (R → R → Bool) → List R → List R
  unfolding insert_row
  order_by lt [] = []
  order_by lt (r ∷ rs) = insert_row lt r (order_by lt rs)

  abbrev pub last? : List R → Option R
  last? [] = none
  last? (r ∷ []) = some r
  last? (r ∷ q ∷ rs) = last? (q ∷ rs)

  -- A strict order.
  pub record IsStrict (lt : R → R → Bool) : Type ℓ where
    pub irrefl : (r : R) → lt r r ≡ false
    pub trans : (r q s : R) → lt r q ≡ true → lt q s ≡ true → lt r s ≡ true

  abbrev pub Comparable : (R → R → Bool) → R → R → Type 0
  Comparable lt r q = (lt r q ≡ true) ⊎ (lt q r ≡ true)

  -- Any two rows are in order, one way or the other.
  abbrev pub Apart : (R → R → Bool) → List R → Type 0
  Apart lt [] = Unit
  Apart lt (r ∷ rs) = All (Comparable lt r) rs × Apart lt rs

  abbrev pub Ascending : (R → R → Bool) → List R → Type 0
  Ascending lt [] = Unit
  Ascending lt (r ∷ rs) = All (λ q. lt r q ≡ true) rs × Ascending lt rs

module _ {ℓ κ} {R : Type ℓ} (lt : R → R → Bool) (P : R → Type κ) where
  pub insert_row-All : (r : R) (qs : List R) → P r → All P qs → All P (insert_row lt r qs)
  unfolding insert_row
  insert_row-All r [] h hs = (h, tt)
  insert_row-All r (q ∷ qs) h hs = elim (Bool-cases (lt r q)) [
    | inl e ↦ rw e (h, hs)
    | inr e ↦ rw e (hs.0, insert_row-All r qs h hs.1)
  ]

  pub order_by-All : (rs : List R) → All P rs → All P (order_by lt rs)
  unfolding order_by
  order_by-All [] h = tt
  order_by-All (r ∷ rs) h = insert_row-All r (order_by lt rs) h.0 (order_by-All rs h.1)

  pub rows_where-All : (p : R → Bool) (rs : List R) → All P rs → All P (rows_where p rs)
  rows_where-All p [] h = tt
  rows_where-All p (r ∷ rs) h = elim (Bool-cases (p r)) [
    | inl e ↦ rw e (h.0, rows_where-All p rs h.1)
    | inr e ↦ rw e (rows_where-All p rs h.1)
  ]

pub take-All {ℓ κ} :
    {R : Type ℓ} (P : R → Type κ) (n : ℕ) (rs : List R) → All P rs → All P (take n rs)
take-All P zero rs h = tt
take-All P (suc n) [] h = tt
take-All P (suc n) (r ∷ rs) h = (h.0, take-All P n rs h.1)

module _ {ℓ} {R : Type ℓ} {lt : R → R → Bool} (strict : IsStrict lt) where
  insert_row-Ascending :
      (r : R) (qs : List R)
      → All (Comparable lt r) qs
      → Ascending lt qs
      → Ascending lt (insert_row lt r qs)
  unfolding insert_row
  insert_row-Ascending r [] c a = (tt, tt)
  insert_row-Ascending r (q ∷ qs) c a = elim (Bool-cases (lt r q)) [
    | inl e ↦ rw e ((e, All-map qs (λ z h. strict.trans r q z e h) a.0), a)
    | inr e ↦
        let above : lt q r ≡ true = ground arith in
        rw e
          (insert_row-All lt (λ z. lt q z ≡ true) r qs above a.0, insert_row-Ascending r qs c.1 a.1)
  ]

  pub order_by-Ascending : (rs : List R) → Apart lt rs → Ascending lt (order_by lt rs)
  unfolding order_by
  order_by-Ascending [] h = tt
  order_by-Ascending (r ∷ rs) h =
      insert_row-Ascending r (order_by lt rs) (order_by-All lt (Comparable lt r) rs h.0)
        (order_by-Ascending rs h.1)

  -- A row below all others goes in front.
  insert_row-front :
      (r : R) (qs : List R) → All (λ q. lt r q ≡ true) qs → insert_row lt r qs ≡ r ∷ qs
  unfolding insert_row
  insert_row-front r [] h = refl
  insert_row-front r (q ∷ qs) h = rw h.0 refl

  rows_where-insert_row :
      (p : R → Bool) (r : R) (qs : List R)
      → Ascending lt qs
      → rows_where p (insert_row lt r qs)
        ≡ (if p r then insert_row lt r (rows_where p qs) else rows_where p qs)
  unfolding insert_row
  rows_where-insert_row p r [] a = refl
  rows_where-insert_row p r (q ∷ qs) a = elim (Bool-cases (lt r q)) [
    | inl e ↦ ground (
      arith,
      insert_row-front r (rows_where p qs) (
          rows_where-All lt (λ z. lt r z ≡ true) p qs
            (All-map qs (λ z h. strict.trans r q z e h) a.0)),
    )
    | inr e ↦ ground (arith, rows_where-insert_row p r qs a.1)
  ]

  -- WHERE and ORDER BY commute.
  pub rows_where-order_by :
      (p : R → Bool) (rs : List R)
      → Apart lt rs
      → rows_where p (order_by lt rs) ≡ order_by lt (rows_where p rs)
  unfolding order_by
  rows_where-order_by p [] h = refl
  rows_where-order_by p (r ∷ rs) h = ground (
    arith,
    rows_where-insert_row p r (order_by lt rs) (order_by-Ascending rs h.1),
    rows_where-order_by p rs h.1,
  )

  pub rows_where_kept :
      (p : R → Bool) (rs : List R) → All (λ r. p r ≡ true) rs → rows_where p rs ≡ rs
  rows_where_kept p [] h = refl
  rows_where_kept p (r ∷ rs) h = ground (arith, rows_where_kept p rs h.1)

  last?-above :
      (r : R) (qs : List R) (l : R)
      → All (λ q. lt r q ≡ true) qs
      → last? qs ≡ some l
      → lt r l ≡ true
  last?-above r [] l h e = cc
  last?-above r (q ∷ []) l h e = let same : q ≡ l = cc in rw (sym same) h.0
  last?-above r (q ∷ s ∷ qs) l h e = last?-above r (s ∷ qs) l h.1 e

  rows_above_first :
      (r : R) (rs : List R) → All (λ q. lt r q ≡ true) rs → rows_where (lt r) (r ∷ rs) ≡ rs
  rows_above_first r rs h = ground (arith, strict.irrefl r, rows_where_kept (lt r) rs h)

  -- The rows after the last one of a page are the rest of the list.
  pub rows_above_last :
      (n : ℕ) (rs : List R) (l : R)
      → Ascending lt rs
      → last? (take n rs) ≡ some l
      → rows_where (lt l) rs ≡ drop n rs
  rows_above_last zero rs l a e = cc
  rows_above_last (suc n) [] l a e = cc
  rows_above_last (suc zero) (r ∷ rs) l a e =
      let same : r ≡ l = cc in
      subst (λ z. rows_where (lt z) (r ∷ rs) ≡ rs) same (rows_above_first r rs a.0)
  rows_above_last (suc (suc n)) (r ∷ []) l a e =
      let same : r ≡ l = cc in
      subst (λ z. rows_where (lt z) (r ∷ []) ≡ []) same (rows_above_first r [] tt)
  rows_above_last (suc (suc n)) (r ∷ q ∷ rs) l a e = ground (
    arith,
    rows_above_last (suc n) (q ∷ rs) l a.1 e,
    below_last,
    strict.trans r l r below_last,
    strict.irrefl r,
  )
    where
      below_last : lt r l ≡ true
      below_last =
          last?-above r (q ∷ take n rs) l (a.0.0, take-All (λ z. lt r z ≡ true) n rs a.0.1) e

module _ {ℓ} {R : Type ℓ} (lt : R → R → Bool) where
  pub Apart-rows_where : (p : R → Bool) (rs : List R) → Apart lt rs → Apart lt (rows_where p rs)
  Apart-rows_where p [] a = tt
  Apart-rows_where p (r ∷ rs) a = elim (Bool-cases (p r)) [
    | inl e ↦ rw e (rows_where-All lt (Comparable lt r) p rs a.0, Apart-rows_where p rs a.1)
    | inr e ↦ rw e (Apart-rows_where p rs a.1)
  ]
