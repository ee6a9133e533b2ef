-- ===== src/Realtime/Hub/Shutdown.antt =====
-- Hub.stop: every registered connection is asked to close.
use fastapi_realtime_chat_ba.Prelude.{
  ℕ, String, Bool, true, false, ◌||◌, List, [], ◌∷◌, ◌++◌, ◌≡◌, refl, ap, ◌∙◌, arith, inl, inr,
  ◌==◌, if◌then◌else◌, Bool-cases,
}
use fastapi_realtime_chat_ba.Realtime.Connection.{Connection, close, close_request}
use fastapi_realtime_chat_ba.Realtime.Hub.{Registry, has}
use fastapi_realtime_chat_ba.Realtime.Hub.Dispatch.{Connections, set_connection, each, stop}

-- whether some user's set has the connection
abbrev pub in_some_set : ℕ → Registry → Bool
in_some_set j [] = false
in_some_set j (u ∷ us) = has j u.1 || in_some_set j us

module _ {ℓ} {E : Type ℓ} where
  each_again :
      (f : Connection E → Connection E) (ids : List ℕ) (cs : Connections E) (j : ℕ)
      → ((c : Connection E) → f (f c) ≡ f c)
      → each f ids cs j ≡ (if has j ids then f (cs j) else cs j)
  unfolding each
  each_again f [] cs j again = refl
  each_again f (i ∷ ids) cs j again =
      let rest = each_again f ids (set_connection i (f (cs i)) cs) j again in
      elim (Bool-cases (j == i)) [
        | inr other ↦ rest ∙ rw other refl
        | inl same ↦
            let e : i ≡ j = ground arith in
            let own : set_connection i (f (cs i)) cs j ≡ f (cs j) =
              rw same (ap (λ z. f (cs z)) e) in
            rest
            ∙ rw own (elim (Bool-cases (has j ids)) [
              | inl twice ↦ rw (same, twice) (again (cs j))
              | inr once ↦ rw (same, once) refl
            ])
      ]

  close_again :
      (code : ℕ) (reason : String) (c : Connection E)
      → close code reason (close code reason c) ≡ close code reason c
  unfolding close
  close_again code reason c = elim (Bool-cases c.closing) [
    | inl closing ↦ rw closing refl
    | inr open_still ↦ rw open_still refl
  ]

  stopped :
      (local : Registry) (cs : Connections E) (j : ℕ)
      → stop local cs j
        ≡ (if in_some_set j local then close 1012 "server restarting" (cs j) else cs j)
  unfolding stop each
  stopped [] cs j = refl
  stopped (u ∷ us) cs j =
      let f : Connection E → Connection E = close 1012 "server restarting" in
      let here = each_again f u.1 cs j (close_again 1012 "server restarting") in
      stopped us (each f u.1 cs) j
      ∙ rw here (elim (Bool-cases (has j u.1)) [
        | inr absent ↦ rw absent refl
        | inl there ↦ elim (Bool-cases (in_some_set j us)) [
          | inl twice ↦ rw (there, twice) (close_again 1012 "server restarting" (cs j))
          | inr once ↦ rw (there, once) refl
        ]
      ])

  -- After `stop` every registered connection is closing; one that was open has the close request 1012 as
  -- the last of its queue, behind what it still has to send; the others are as before.
  pub stop_closes :
      (local : Registry) (cs : Connections E) (j : ℕ)
      → (in_some_set j local ≡ true → (stop local cs j).closing ≡ true)
        × (in_some_set j local ≡ true
            → (cs j).closing ≡ false
            → (stop local cs j).queue
              ≡ (cs j).queue ++ (close_request 1012 "server restarting" ∷ []))
        × (in_some_set j local ≡ false → stop local cs j ≡ cs j)
  unfolding close
  stop_closes local cs j = (
    λ there. ap (λ c. c.closing) (stopped local cs j) ∙ rw there (closing_after (cs j)),
    λ there open_still.
        ap (λ c. c.queue) (stopped local cs j) ∙ rw there (queue_after (cs j) open_still),
    λ absent. stopped local cs j ∙ rw absent refl,
  )
    where
      closing_after : (c : Connection E) → (close 1012 "server restarting" c).closing ≡ true
      closing_after c = elim (Bool-cases c.closing) [
        | inl e ↦ rw (e, close) refl
        | inr e ↦ rw (e, close) refl
      ]

      queue_after :
          (c : Connection E)
          → c.closing ≡ false
          → (close 1012 "server restarting" c).queue
            ≡ c.queue ++ (close_request 1012 "server restarting" ∷ [])
      queue_after c e = rw (e, close) refl
