-- ===== src/Ops/Examples.antt =====
-- The probes and the bootstrap on concrete replies.
use fastapi_realtime_chat_ba.Prelude.{ℕ, ◌==◌, some, none, ◌≡◌, refl, if◌then◌else◌}
use fastapi_realtime_chat_ba.Chat.Fixture.{settings}
use fastapi_realtime_chat_ba.Ops.{
  answers, ends_in, readyz, BucketReply, done, client_error, unreachable, ensure_bucket, bootstrap,
}

one_down : (readyz settings answers (ends_in "TimeoutError")).status_code ≡ 503
unfolding readyz
one_down = refl

both_up : (readyz settings answers answers).status_code ≡ 200
unfolding readyz
both_up = refl

-- the store is there from the third attempt on, without the bucket
abbrev replies : ℕ → BucketReply × BucketReply
replies n = if n == 3 then (client_error, done) else (unreachable, unreachable)

third : bootstrap replies 1 30 ≡ some 3
unfolding bootstrap ensure_bucket
third = refl

given_up : bootstrap replies 1 2 ≡ none
unfolding bootstrap ensure_bucket
given_up = refl
