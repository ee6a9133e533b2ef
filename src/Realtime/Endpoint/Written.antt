-- ===== src/Realtime/Endpoint/Written.antt =====
-- What a client receives.
use mathlib.Core.List.{append-nil}
use fastapi_realtime_chat_ba.Prelude.{
  ℕ, String, true, false, some, none, List, [], ◌∷◌, ◌++◌, map, ◌≡◌, refl, sym, ap, ◌∙◌, ◌⊎◌, inl,
  inr,
}
use fastapi_realtime_chat_ba.Realtime.Connection.{event, close_request}
use fastapi_realtime_chat_ba.Realtime.Connection.Delivery.{
  Call, Trace, calls, sent, new_connection, Faithful, flowing, closed, connection-Faithful,
}
use fastapi_realtime_chat_ba.Realtime.Endpoint.{write}

module _ {ℓ} {E : Type ℓ} where
  write_events : (es : List E) → write (map event es) ≡ (es, none)
  unfolding write
  write_events [] = refl
  write_events (e ∷ es) = rw (write_events es) refl

  write_closed :
      (es : List E) (code : ℕ) (reason : String)
      → write (map event es ++ (close_request code reason ∷ [])) ≡ (es, some (code, reason))
  unfolding write
  write_closed [] code reason = refl
  write_closed (e ∷ es) code reason = rw (write_closed es code reason) refl

  written :
      (es : List E) (t : Trace E)
      → Faithful es t
      → (first : List E) × (rest : List E) × (es ≡ first ++ rest)
        × (((write (t.0 ++ t.1.queue) ≡ (first, none)) × (rest ≡ []) × (t.1.closing ≡ false))
            ⊎ ((code : ℕ) × (reason : String) × (write (t.0 ++ t.1.queue)
                  ≡ (first, some (code, reason)))
                × (t.1.closing ≡ true)))
  written es t (flowing still same short) =
      (es, [], sym (append-nil es), inl (ap write same ∙ write_events es, refl, still))
  written es t (closed first rest code reason closing same queue short) = (
    first,
    rest,
    same,
    inr (code, reason, ap write queue ∙ write_closed first code reason, closing),
  )

  -- The writer of a session sends its client the first of the events that were queued for it, in order and
  -- each once, and all of them as long as the connection is not closing; once it is closing the writer
  -- ends with the close, after these events and before any other. What it took from the queue before and
  -- what is left there count together, in any order of calls.
  pub write_sends :
      (user_id : String) (i : ℕ) (ks : List (Call E))
      → let t = calls ks ([], new_connection user_id i) in
        (first : List E) × (rest : List E) × (sent ks ≡ first ++ rest)
        × (((write (t.0 ++ t.1.queue) ≡ (first, none)) × (rest ≡ []) × (t.1.closing ≡ false))
            ⊎ ((code : ℕ) × (reason : String) × (write (t.0 ++ t.1.queue)
                  ≡ (first, some (code, reason)))
                × (t.1.closing ≡ true)))
  write_sends user_id i ks =
      written (sent ks) (calls ks ([], new_connection user_id i)) (connection-Faithful user_id i ks)
