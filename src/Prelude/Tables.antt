-- ===== src/Prelude/Tables.antt =====
-- Tables as lists of rows, and what the statements that the program builds do to them: WHERE keeps
-- rows by a test, UPDATE rewrites the rows that a test picks, and a unique index looks for a row.
use Prim.Native.Nat.{ℕ}
use mathlib.Core.Path.{◌≡◌, refl, sym, subst, fun_ext}
use mathlib.Core.Logic.{◌⊎◌, inl, inr}
use mathlib.Core.Bool.{Bool, true, false, ◌&&◌}
use mathlib.Core.List.{List, [], ◌∷◌}
use mathlib.Core.Option.{Option, none, some}
use native.Mathlib.Omega.{arith}
use fastapi_realtime_chat_ba.Prelude.Tests.{if◌then◌else◌, Bool-cases}
use fastapi_realtime_chat_ba.Prelude.Lists.{length, All}

module _ {ℓ} {R : Type ℓ} where
  -- SELECT … WHERE p
  abbrev pub rows_where : (R → Bool) → List R → List R
  rows_where p [] = []
  rows_where p (r ∷ rs) = if p r then r ∷ rows_where p rs else rows_where p rs

  -- UPDATE … SET f WHERE p
  abbrev pub rows_set : (R → Bool) → (R → R) → List R → List R
  rows_set p f [] = []
  rows_set p f (r ∷ rs) = (if p r then f r else r) ∷ rows_set p f rs

  -- the first row that passes the test, as an index finds it
  abbrev pub find_row : (R → Bool) → List R → Option R
  find_row p [] = none
  find_row p (r ∷ rs) = if p r then some r else find_row p rs

  abbrev pub count_where : (R → Bool) → List R → ℕ
  count_where p rs = length (rows_where p rs)

module _ {ℓ} {R : Type ℓ} where
  -- No two rows have one key, where `same r q` says that `q` has the key of `r`.
  abbrev pub UniqueBy : (R → R → Bool) → List R → Type ℓ
  UniqueBy same [] = Unit
  UniqueBy same (r ∷ rs) = (find_row (same r) rs ≡ none) × UniqueBy same rs

  -- `p` tests for one value of the key.
  abbrev pub Keyed : (R → R → Bool) → (R → Bool) → Type ℓ
  Keyed same p = (r q : R) → p r ≡ true → p q ≡ same r q

  pub find_row_sound : (p : R → Bool) (rs : List R) (r : R) → find_row p rs ≡ some r → p r ≡ true
  find_row_sound p [] r h = cc
  find_row_sound p (q ∷ rs) r h = elim (Bool-cases (p q)) [
    | inl e ↦ subst (λ z. p z ≡ true) (ground arith) e
    | inr e ↦ find_row_sound p rs r (ground arith)
  ]

  pub rows_where-nil : (p : R → Bool) (rs : List R) → find_row p rs ≡ none → rows_where p rs ≡ []
  rows_where-nil p [] h = refl
  rows_where-nil p (r ∷ rs) h = ground (arith, rows_where-nil p rs)

  -- A unique index answers a query for its key by the one row that it finds.
  pub rows_where_unique :
      (same : R → R → Bool) (p : R → Bool) (rs : List R)
      → Keyed same p
      → UniqueBy same rs
      → ((find_row p rs ≡ none) × (rows_where p rs ≡ []))
        ⊎ ((r : R) × (find_row p rs ≡ some r) × (rows_where p rs ≡ r ∷ []))
  rows_where_unique same p [] k u = inl (refl, refl)
  rows_where_unique same p (r ∷ rs) k u = elim (Bool-cases (p r)) [
    | inl e ↦
        let rest : rows_where p rs ≡ [] =
          rows_where-nil p rs
            (subst (λ q. find_row q rs ≡ none) (fun_ext (λ q. sym (k r q e))) u.0) in
        inr (r, rw e refl, rw (e, rest) refl)
    | inr e ↦ elim (rows_where_unique same p rs k u.1) [
      | inl (missing, empty) ↦ inl (ground arith, ground arith)
      | inr (q, found, only) ↦ inr (q, ground arith, ground arith)
    ]
  ]

  pub find_row-rows_set :
      (t p : R → Bool) (f : R → R) (rs : List R)
      → ((r : R) → t (f r) ≡ t r)
      → find_row t rs ≡ none
      → find_row t (rows_set p f rs) ≡ none
  find_row-rows_set t p f [] keep h = refl
  find_row-rows_set t p f (r ∷ rs) keep h = ground (arith, keep r, find_row-rows_set t p f rs keep)

  pub UniqueBy-rows_set :
      (same : R → R → Bool) (p : R → Bool) (f : R → R) (rs : List R)
      → ((r q : R) → same r (f q) ≡ same r q)
      → ((r q : R) → same (f r) q ≡ same r q)
      → UniqueBy same rs
      → UniqueBy same (rows_set p f rs)
  UniqueBy-rows_set same p f [] right left u = tt
  UniqueBy-rows_set same p f (r ∷ rs) right left u = (
    elim (Bool-cases (p r)) [
      | inl e ↦ rw (e, fun_ext (left r)) (find_row-rows_set (same r) p f rs (right r) u.0)
      | inr e ↦ rw e (find_row-rows_set (same r) p f rs (right r) u.0)
    ],
    UniqueBy-rows_set same p f rs right left u.1,
  )

  pub All-rows_set {κ} :
      {P : R → Type κ} (p : R → Bool) (f : R → R) (rs : List R)
      → ((r : R) → p r ≡ true → P r → P (f r))
      → All P rs
      → All P (rows_set p f rs)
  All-rows_set p f [] keep h = tt
  All-rows_set p f (r ∷ rs) keep h = (
    elim (Bool-cases (p r)) [ inl e ↦ rw e (keep r e h.0) | inr e ↦ rw e h.0 ],
    All-rows_set p f rs keep h.1,
  )

module _ {ℓ} {R : Type ℓ} where
  -- A row that one test finds fails each test that finds none.
  pub find_row-none_at :
      (t p : R → Bool) (rs : List R) (r : R)
      → find_row t rs ≡ none
      → find_row p rs ≡ some r
      → t r ≡ false
  find_row-none_at t p [] r miss hit = cc
  find_row-none_at t p (q ∷ rs) r miss hit = elim (Bool-cases (p q)) [
    | inl e ↦ let e' : q ≡ r = ground arith in subst (λ z. t z ≡ false) e' (ground arith)
    | inr e ↦ find_row-none_at t p rs r (ground arith) (ground arith)
  ]

  -- A row is found by its own key.
  pub find_row_self :
      (same : R → R → Bool) (p : R → Bool) (rs : List R) (r : R)
      → ((q : R) → same q q ≡ true)
      → ((q s : R) → same q s ≡ same s q)
      → UniqueBy same rs
      → find_row p rs ≡ some r
      → find_row (same r) rs ≡ some r
  find_row_self same p [] r rfl comm u h = h
  find_row_self same p (q ∷ rs) r rfl comm u h = elim (Bool-cases (p q)) [
    | inl e ↦
        let e' : q ≡ r = ground arith in
        subst (λ z. find_row (same z) (q ∷ rs) ≡ some z) e' (ground (arith, rfl q))
    | inr e ↦
        let h' : find_row p rs ≡ some r = ground arith in
        ground (
          arith,
          comm r q,
          find_row-none_at (same q) p rs r u.0 h',
          find_row_self same p rs r rfl comm u.1 h',
        )
  ]

module _ {ℓ} {R : Type ℓ} where
  abbrev pub keep_if : (R → Bool) → Option R → List R
  keep_if c none = []
  keep_if c (some r) = if c r then r ∷ [] else []

  rows_where-and_nil :
      (p c : R → Bool) (rs : List R) → find_row p rs ≡ none → rows_where (λ r. p r && c r) rs ≡ []
  rows_where-and_nil p c [] h = refl
  rows_where-and_nil p c (r ∷ rs) h = ground (arith, rows_where-and_nil p c rs)

  -- A query for a unique key and a further condition looks at the one row of that key.
  pub rows_where-and :
      (same : R → R → Bool) (p c : R → Bool) (rs : List R)
      → Keyed same p
      → UniqueBy same rs
      → rows_where (λ r. p r && c r) rs ≡ keep_if c (find_row p rs)
  rows_where-and same p c [] k u = refl
  rows_where-and same p c (r ∷ rs) k u = elim (Bool-cases (p r)) [
    | inl e ↦
        let rest : find_row p rs ≡ none =
          subst (λ q. find_row q rs ≡ none) (fun_ext (λ q. sym (k r q e))) u.0 in
        ground (arith, rows_where-and_nil p c rs rest)
    | inr e ↦ ground (arith, rows_where-and same p c rs k u.1)
  ]

  abbrev pub set_if : (R → Bool) → (R → R) → Option R → Option R
  set_if p f none = none
  set_if p f (some r) = some (if p r then f r else r)

  -- A row is found in an updated table as it was, or as the update has made it.
  pub find_row-rows_set_eq :
      (t p : R → Bool) (f : R → R) (rs : List R)
      → ((r : R) → t (f r) ≡ t r)
      → find_row t (rows_set p f rs) ≡ set_if p f (find_row t rs)
  find_row-rows_set_eq t p f [] keep = refl
  find_row-rows_set_eq t p f (r ∷ rs) keep =
      ground (arith, keep r, find_row-rows_set_eq t p f rs keep)

  -- An update that changes no row.
  pub rows_set-none :
      (p : R → Bool) (f : R → R) (rs : List R) → rows_where p rs ≡ [] → rows_set p f rs ≡ rs
  rows_set-none p f [] h = refl
  rows_set-none p f (r ∷ rs) h = ground (arith, rows_set-none p f rs)

  -- After an update whose new rows fail its test, no row passes it.
  pub rows_where-rows_set :
      (p : R → Bool) (f : R → R) (rs : List R)
      → ((r : R) → p (f r) ≡ false)
      → rows_where p (rows_set p f rs) ≡ []
  rows_where-rows_set p f [] h = refl
  rows_where-rows_set p f (r ∷ rs) h = ground (arith, h r, rows_where-rows_set p f rs h)

  pub All-find_row {κ} :
      (P : R → Type κ) (p : R → Bool) (rs : List R) (r : R)
      → All P rs
      → find_row p rs ≡ some r
      → P r
  All-find_row P p [] r h e = cc
  All-find_row P p (q ∷ rs) r h e = elim (Bool-cases (p q)) [
    | inl hit ↦ let same : q ≡ r = ground arith in subst P same h.0
    | inr miss ↦ All-find_row P p rs r h.1 (ground arith)
  ]
