-- ===== src/Realtime/Connection/Closing.antt =====
-- When a connection closes, and what its client gets up to then.
use mathlib.Core.List.{append_assoc}
use fastapi_realtime_chat_ba.Prelude.{
  ℕ, ◌≤◌, String, Bool, true, false, not, ◌&&◌, List, [], ◌∷◌, ◌++◌, map, leb, length, ◌≡◌, refl,
  sym, ap, subst, arith, ◌⊎◌, inl, inr, Bool-cases, false≢true, ◌∙◌,
}
use fastapi_realtime_chat_ba.Realtime.Connection.{
  Queued, event, close_request, Connection, max_pending_events, close, first_of, next_event,
}
use fastapi_realtime_chat_ba.Realtime.Connection.Delivery.{
  Call, sends, closes, takes, Trace, taken_with, call, calls, sent, Faithful, flowing, closed,
  close_shut, send_shut, send_open, queue-cases, new_connection, connection-Faithful,
}

module _ {ℓ} {E : Type ℓ} where
  abbrev pub is_close : Call E → Bool
  is_close (sends e) = false
  is_close (closes code reason) = true
  is_close takes = false

  -- No call closes the connection.
  abbrev pub never_closed : List (Call E) → Bool
  never_closed [] = true
  never_closed (k ∷ ks) = not (is_close k) && never_closed ks

  -- A call closes an open connection: it is a close, or a send that finds the queue full.
  abbrev pub Ends : Call E → Connection E → ℕ → String → Type ℓ
  Ends k c code reason =
      (k ≡ closes code reason)
      ⊎ ((e : E) × (k ≡ sends e)
          × (1000 ≤ length c.queue)
          × (code ≡ 1013)
          × (reason ≡ "client too slow, reconnect and sync"))

  -- Nothing has closed the connection and every event goes to the client, or the call that closed it is
  -- the first that does, and the client gets the events before it and then the close.
  pub data Delivered (start : Trace E) (ks : List (Call E)) (t : Trace E) : Type ℓ where
    open_yet :
        never_closed ks ≡ true
        → t.1.closing ≡ false
        → t.0 ++ t.1.queue ≡ map event (sent ks)
        → length t.1.queue ≤ 1000
        → Delivered start ks t
    ended :
        (before after : List (Call E)) (k : Call E) (code : ℕ) (reason : String)
        → ks ≡ before ++ (k ∷ after)
        → never_closed before ≡ true
        → (calls before start).1.closing ≡ false
        → Ends k (calls before start).1 code reason
        → t.1.closing ≡ true
        → t.0 ++ t.1.queue ≡ map event (sent before) ++ (close_request code reason ∷ [])
        → length t.1.queue ≤ 1001
        → Delivered start ks t

  calls-append :
      (before after : List (Call E)) (t : Trace E)
      → calls (before ++ after) t ≡ calls after (calls before t)
  unfolding calls
  calls-append [] after t = refl
  calls-append (k ∷ before) after t = calls-append before after (call k t)

  stream : Trace E → List (Queued E)
  stream t = t.0 ++ t.1.queue

  taken_stream :
      (taken : List (Queued E)) (c : Connection E)
      → (stream (taken_with taken c (next_event c)) ≡ stream (taken, c))
        × ((taken_with taken c (next_event c)).1.closing ≡ c.closing)
  unfolding next_event stream
  taken_stream taken c =
      let Kept : List (Queued E) → Type ℓ = λ l.
        (stream (taken_with taken c (first_of l c)) ≡ stream (taken, c))
        × ((taken_with taken c (first_of l c)).1.closing ≡ c.closing) in
      elim (queue-cases c) [
        | inl e ↦ subst Kept (sym e) (refl, refl)
        | inr (q, qs, e) ↦
            subst Kept (sym e) (append_assoc taken (q ∷ []) qs ∙ ap (λ z. taken ++ z) (sym e), refl)
      ]

  -- a call on a connection that is closing
  shut_call :
      (k : Call E) (t : Trace E)
      → t.1.closing ≡ true
      → (stream (call k t) ≡ stream t) × ((call k t).1.closing ≡ true)
  unfolding call
  shut_call (sends e) (taken, c) shut = rw (send_shut e c shut) (refl, shut)
  shut_call (closes code reason) (taken, c) shut = rw (close_shut code reason c shut) (refl, shut)
  shut_call takes (taken, c) shut = let (a, b) = taken_stream taken c in (a, b ∙ shut)

  shut_calls :
      (ks : List (Call E)) (t : Trace E)
      → t.1.closing ≡ true
      → (stream (calls ks t) ≡ stream t) × ((calls ks t).1.closing ≡ true)
  unfolding calls
  shut_calls [] t shut = (refl, shut)
  shut_calls (k ∷ ks) t shut =
      let (a, b) = shut_call k t shut in let (a', b') = shut_calls ks (call k t) b in (a' ∙ a, b')

  close_open :
      (code : ℕ) (reason : String) (c : Connection E)
      → c.closing ≡ false
      → close code reason c
        ≡ record c { closing = true; queue = c.queue ++ (close_request code reason ∷ []) }
  unfolding close
  close_open code reason c up = rw up refl

  -- the call that closes an open connection
  closing_call :
      (k : Call E) (t : Trace E)
      → t.1.closing ≡ false
      → (call k t).1.closing ≡ true
      → (code : ℕ) × (reason : String) × Ends k t.1 code reason
        × (stream (call k t) ≡ stream t ++ (close_request code reason ∷ []))
  unfolding call stream
  closing_call (closes code reason) (taken, c) up shut = (
    code,
    reason,
    inl refl,
    ap (λ (z : Connection E). taken ++ z.queue) (close_open code reason c up)
        ∙ sym (append_assoc taken c.queue (close_request code reason ∷ [])),
  )
  closing_call takes (taken, c) up shut =
      absurd (false≢true (sym up ∙ sym (taken_stream taken c).1 ∙ shut))
  closing_call (sends e) (taken, c) up shut =
      elim (Bool-cases (leb max_pending_events (length c.queue))) [
        | inr space ↦ absurd (
            false≢true (
              sym up
              ∙ sym (ap (λ (z : Connection E). z.closing) (send_open e c false up space))
              ∙ shut))
        | inl full ↦ (
          1013,
          "client too slow, reconnect and sync",
          inr (e, refl, ground arith, refl, refl),
          ap (λ (z : Connection E). taken ++ z.queue)
                (send_open e c true up full
                  ∙ close_open 1013 "client too slow, reconnect and sync" c up)
              ∙ sym (
                  append_assoc taken c.queue
                    (close_request 1013 "client too slow, reconnect and sync" ∷ [])),
        )
      ]

  -- the calls up to the first that closes
  abbrev Split : List (Call E) → Trace E → Type ℓ
  Split ks t =
      (before : List (Call E)) × (k : Call E) × (after : List (Call E)) × (ks
        ≡ before ++ (k ∷ after))
      × (never_closed before ≡ true)
      × ((calls before t).1.closing ≡ false)
      × ((call k (calls before t)).1.closing ≡ true)

  no_close :
      (k : Call E) (t : Trace E)
      → t.1.closing ≡ false
      → (call k t).1.closing ≡ false
      → is_close k ≡ false
  unfolding call
  no_close (sends e) t up still = refl
  no_close takes t up still = refl
  no_close (closes code reason) (taken, c) up still =
      absurd (
        false≢true (sym still ∙ ap (λ (z : Connection E). z.closing) (close_open code reason c up)))

  first_close :
      (ks : List (Call E)) (t : Trace E)
      → t.1.closing ≡ false
      → (((calls ks t).1.closing ≡ false) × (never_closed ks ≡ true)) ⊎ Split ks t
  unfolding calls
  first_close [] t up = inl (up, refl)
  first_close (k ∷ ks) t up = elim (Bool-cases (call k t).1.closing) [
    | inl shut ↦ inr ([], k, ks, refl, refl, up, shut)
    | inr still ↦ elim (first_close ks (call k t) still) [
      | inl (end, free) ↦ inl (end, rw (no_close k t up still, free) refl)
      | inr (before, j, after, split, free, yet, shut) ↦ inr (
        k ∷ before,
        j,
        after,
        ap (λ z. k ∷ z) split,
        rw (no_close k t up still, free) refl,
        yet,
        shut,
      )
    ]
  ]

  open_flow :
      (es : List E) (t : Trace E)
      → Faithful es t
      → t.1.closing ≡ false
      → (stream t ≡ map event es) × (length t.1.queue ≤ 1000)
  unfolding stream
  open_flow es t (flowing up flow room) still = (flow, room)
  open_flow es t (closed first rest code reason shut split flow room) still =
      absurd (false≢true (sym still ∙ shut))

  bounded : (es : List E) (t : Trace E) → Faithful es t → length t.1.queue ≤ 1001
  bounded es t (flowing up flow room) = omega arith
  bounded es t (closed first rest code reason shut split flow room) = omega arith

  -- For a new connection and any order of calls: as long as nothing closes it the writer gets all the
  -- events that were sent, in order, and the queue holds at most 1000. It is closed by the first close,
  -- or by the first send that finds 1000 entries in the queue, then with 1013; the writer gets the
  -- events that were sent before this call, in order, and then the close request, once and last. The
  -- queue never holds more than 1001 entries.
  pub calls-Delivered :
      (user_id : String) (id : ℕ) (ks : List (Call E))
      → Delivered ([], new_connection user_id id) ks (calls ks ([], new_connection user_id id))
  unfolding stream calls
  calls-Delivered user_id id ks =
      let start : Trace E = ([], new_connection user_id id) in
      elim (first_close ks start refl) [
        | inl (still, free) ↦
            let (flow, room) =
              open_flow (sent ks) (calls ks start) (connection-Faithful user_id id ks) still in
            open_yet free still flow room
        | inr (before, k, after, split, free, up, shut) ↦
            let (flow, room) =
              open_flow (sent before) (calls before start) (connection-Faithful user_id id before)
                up in
            let (code, reason, ends, queue) = closing_call k (calls before start) up shut in
            let (same, end) = shut_calls after (call k (calls before start)) shut in
            let whole : calls ks start ≡ calls after (call k (calls before start)) =
              ap (λ z. calls z start) split ∙ calls-append before (k ∷ after) start in
            ended before after k code reason split free up ends
              (ap (λ (z : Trace E). z.1.closing) whole ∙ end)
              (ap stream whole
                ∙ same
                ∙ queue
                ∙ ap (λ z. z ++ (close_request code reason ∷ [])) flow)
              (bounded (sent ks) (calls ks start) (connection-Faithful user_id id ks))
      ]
