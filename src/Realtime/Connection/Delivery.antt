-- ===== src/Realtime/Connection/Delivery.antt =====
-- What the client of a connection gets, in any order of calls.
use mathlib.Core.List.{append_assoc, append-nil, map-append}
use fastapi_realtime_chat_ba.Prelude.{
  ℕ, ◌+◌, ◌≤◌, String, Bool, true, false, not, Option, some, none, List, [], ◌∷◌, ◌++◌, map, leb,
  length, length-append, ◌≡◌, refl, sym, ap, subst, arith, ◌⊎◌, inl, inr, if◌then◌else◌, Bool-cases,
  ◌∙◌,
}
use fastapi_realtime_chat_ba.Realtime.Connection.{
  Queued, event, close_request, Connection, max_pending_events, close, send_nowait, first_of,
  next_event,
}

-- The calls that a connection gets, from the hub, the endpoint and its writer.
pub data Call {ℓ} (E : Type ℓ) : Type ℓ where
  sends : E → Call E
  closes : ℕ → String → Call E
  takes : Call E

-- What the writer has taken so far, and the connection.
abbrev pub Trace {ℓ} : Type ℓ → Type ℓ
Trace E = List (Queued E) × Connection E

module _ {ℓ} {E : Type ℓ} where
  abbrev pub taken_with :
      List (Queued E) → Connection E → Option (Queued E × Connection E) → Trace E
  taken_with taken c none = (taken, c)
  taken_with taken c (some (q, c')) = (taken ++ (q ∷ []), c')

  unfoldable pub call : Call E → Trace E → Trace E
  call (sends e) (taken, c) = (taken, send_nowait e c)
  call (closes code reason) (taken, c) = (taken, close code reason c)
  call takes (taken, c) = taken_with taken c (next_event c)

  unfoldable pub calls : List (Call E) → Trace E → Trace E
  calls [] t = t
  calls (k ∷ ks) t = calls ks (call k t)

  -- the events of the calls, in order
  abbrev pub sent : List (Call E) → List E
  sent [] = []
  sent (sends e ∷ ks) = e ∷ sent ks
  sent (closes code reason ∷ ks) = sent ks
  sent (takes ∷ ks) = sent ks

  -- While a connection is open, what was taken and what is queued are the events that were sent, all
  -- of them and in order. Once it is closing they are the first of these events, in order, and then
  -- the close request, once and at the end.
  pub data Faithful (es : List E) (t : Trace E) : Type ℓ where
    flowing :
        t.1.closing ≡ false
        → t.0 ++ t.1.queue ≡ map event es
        → length t.1.queue ≤ max_pending_events
        → Faithful es t
    closed :
        (first rest : List E) (code : ℕ) (reason : String)
        → t.1.closing ≡ true
        → es ≡ first ++ rest
        → t.0 ++ t.1.queue ≡ map event first ++ (close_request code reason ∷ [])
        → length t.1.queue ≤ max_pending_events + 1
        → Faithful es t

  close-Faithful :
      (code : ℕ) (reason : String) (es : List E) (taken : List (Queued E)) (c : Connection E)
      → c.closing ≡ false
      → taken ++ c.queue ≡ map event es
      → length c.queue ≤ max_pending_events
      → (rest : List E) → Faithful (es ++ rest) (taken, close code reason c)
  unfolding close
  close-Faithful code reason es taken c up flow room rest = rw up (
      closed es rest code reason refl refl
        (sym (append_assoc taken c.queue (close_request code reason ∷ []))
          ∙ ap (λ z. z ++ (close_request code reason ∷ [])) flow)
        (omega (arith, length-append c.queue (close_request code reason ∷ []))))

  later-Faithful :
      (more es : List E) (t : Trace E)
      → t.1.closing ≡ true
      → Faithful es t
      → Faithful (es ++ more) t
  later-Faithful more es t shut (flowing up flow room) = cc
  later-Faithful more es t shut (closed first rest code reason c split flow room) =
      closed first (rest ++ more) code reason c
        (ap (λ z. z ++ more) split ∙ append_assoc first rest more) flow room

  pub close_shut :
      (code : ℕ) (reason : String) (c : Connection E) → c.closing ≡ true → close code reason c ≡ c
  unfolding close
  close_shut code reason c shut =
      ap
        (λ b.
          if not b
          then record c { closing = true; queue = c.queue ++ (close_request code reason ∷ []) }
          else c)
        shut

  -- what a send does with the queue, by its length
  abbrev pub add_event : E → Connection E → Bool → Connection E
  add_event e c full =
      if full
      then close 1013 "client too slow, reconnect and sync" c
      else record c { queue = c.queue ++ (event e ∷ []) }

  pub send_shut : (e : E) (c : Connection E) → c.closing ≡ true → send_nowait e c ≡ c
  unfolding send_nowait
  send_shut e c shut =
      ap (λ b. if b then c else add_event e c (leb max_pending_events (length c.queue))) shut

  pub send_open :
      (e : E) (c : Connection E) (full : Bool)
      → c.closing ≡ false
      → leb max_pending_events (length c.queue) ≡ full
      → send_nowait e c ≡ add_event e c full
  unfolding send_nowait
  send_open e c full up h =
      ap (λ b. if b then c else add_event e c (leb max_pending_events (length c.queue))) up
      ∙ ap (add_event e c) h

  send-Faithful :
      (e : E) (es : List E) (taken : List (Queued E)) (c : Connection E)
      → Faithful es (taken, c)
      → Faithful (es ++ (e ∷ [])) (taken, send_nowait e c)
  send-Faithful e es taken c (closed first rest code reason shut split flow room) =
      rw (send_shut e c shut) (
        later-Faithful (e ∷ []) es (taken, c) shut
          (closed first rest code reason shut split flow room))
  send-Faithful e es taken c (flowing up flow room) =
      elim (Bool-cases (leb max_pending_events (length c.queue))) [
        | inl full ↦ rw (send_open e c true up full) (
            close-Faithful 1013 "client too slow, reconnect and sync" es taken c up flow room
              (e ∷ []))
        | inr space ↦ rw (send_open e c false up space) (
            flowing up
              (sym (append_assoc taken c.queue (event e ∷ []))
                ∙ ap (λ z. z ++ (event e ∷ [])) flow
                ∙ sym (map-append event es (e ∷ [])))
              (ground (arith, length-append c.queue (event e ∷ []))))
      ]

  closes-Faithful :
      (code : ℕ) (reason : String) (es : List E) (taken : List (Queued E)) (c : Connection E)
      → Faithful es (taken, c)
      → Faithful es (taken, close code reason c)
  closes-Faithful code reason es taken c (flowing up flow room) =
      subst (λ z. Faithful z (taken, close code reason c)) (append-nil es)
        (close-Faithful code reason es taken c up flow room [])
  closes-Faithful code reason es taken c (closed first rest n s shut split flow room) =
      rw (close_shut code reason c shut) (closed first rest n s shut split flow room)

  moved :
      (es : List E) (taken : List (Queued E)) (c : Connection E) (q : Queued E)
      (qs : List (Queued E))
      → c.queue ≡ q ∷ qs
      → Faithful es (taken, c)
      → Faithful es (taken ++ (q ∷ []), record c { queue = qs })
  moved es taken c q qs e (flowing up flow room) =
      flowing up (append_assoc taken (q ∷ []) qs ∙ ap (λ z. taken ++ z) (sym e) ∙ flow)
        (omega (arith, ap length e))
  moved es taken c q qs e (closed first rest code reason shut split flow room) =
      closed first rest code reason shut split
        (append_assoc taken (q ∷ []) qs ∙ ap (λ z. taken ++ z) (sym e) ∙ flow)
        (omega (arith, ap length e))

  pub queue-cases :
      (c : Connection E)
      → (c.queue ≡ []) ⊎ ((q : Queued E) × (qs : List (Queued E)) × (c.queue ≡ q ∷ qs))
  queue-cases c = by_list c.queue refl
    where
      by_list :
          (l : List (Queued E))
          → c.queue ≡ l
          → (c.queue ≡ []) ⊎ ((q : Queued E) × (qs : List (Queued E)) × (c.queue ≡ q ∷ qs))
      by_list [] e = inl e
      by_list (q ∷ qs) e = inr (q, qs, e)

  takes-Faithful :
      (es : List E) (taken : List (Queued E)) (c : Connection E)
      → Faithful es (taken, c)
      → Faithful es (taken_with taken c (next_event c))
  unfolding next_event
  takes-Faithful es taken c f = elim (queue-cases c) [
    | inl e ↦ subst (λ z. Faithful es (taken_with taken c z)) (sym (ap (λ z. first_of z c) e)) f
    | inr (q, qs, e) ↦
        subst (λ z. Faithful es (taken_with taken c z)) (sym (ap (λ z. first_of z c) e))
          (moved es taken c q qs e f)
  ]

  calls-Faithful :
      (ks : List (Call E)) (es : List E) (t : Trace E)
      → Faithful es t
      → Faithful (es ++ sent ks) (calls ks t)
  unfolding calls call
  calls-Faithful [] es t f = rw (append-nil es) f
  calls-Faithful (sends e ∷ ks) es (taken, c) f =
      subst (λ z. Faithful z (calls ks (taken, send_nowait e c)))
        (append_assoc es (e ∷ []) (sent ks))
        (calls-Faithful ks (es ++ (e ∷ [])) (taken, send_nowait e c) (send-Faithful e es taken c f))
  calls-Faithful (closes code reason ∷ ks) es (taken, c) f =
      calls-Faithful ks es (taken, close code reason c) (closes-Faithful code reason es taken c f)
  calls-Faithful (takes ∷ ks) es (taken, c) f =
      calls-Faithful ks es (taken_with taken c (next_event c)) (takes-Faithful es taken c f)

  -- a connection as `__init__` makes it
  abbrev pub new_connection : String → ℕ → Connection E
  new_connection user_id id = record { user_id = user_id; id = id; closing = false; queue = [] }

  -- For a new connection and any order of calls, the writer gets the events that were sent, in order
  -- and without a gap, up to the first close or to the event that finds the queue full; after them it
  -- gets the close request, once and last. The queue never holds more than 1001 entries.
  pub connection-Faithful :
      (user_id : String) (id : ℕ) (ks : List (Call E))
      → Faithful (sent ks) (calls ks ([], new_connection user_id id))
  connection-Faithful user_id id ks =
      calls-Faithful ks [] ([], new_connection user_id id) (flowing refl refl (omega arith))
