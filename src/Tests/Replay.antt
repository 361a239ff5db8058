-- ===== src/Tests/Replay.antt =====
-- The status of ordered requests on concrete inputs.
use bbt_framework.Tests.{test_infra}
use bbt_framework.Tests.Ordered.{first_move, granted}
use bbt_framework.Prelude.{
  ◌≡◌, refl, true, [], ◌∷◌, some, arith, lookup, insert, emplace, erase, ℕ_discrete,
  String_discrete,
}
use bbt_framework.Ordered.Ingress.{
  OrderedIngress, OrderedTerminalReply, reply_bytes, StreamKey_discrete, CachedKey_discrete,
}
use bbt_framework.Ordered.Ingress.Cache.{evict_to_limits, evict, over_limits}
use bbt_framework.Ordered.Ingress.Admit.{admit, admit_stream, authorized, request_key, admission_of}
use bbt_framework.Ordered.Ingress.Complete.{
  complete, complete_execute, cache_reply, keep_reply, sanitize,
}
use bbt_framework.Ordered.Ingress.Once.{admits, completes, is_entitled, next_of-step}
use bbt_framework.Ordered.Ingress.Once
use bbt_framework.Ordered.Ingress.Status.{status_of, IsConsistent, in_flight_of}
use bbt_framework.Ordered.Ingress.Replay.{
  Course, run_refines, replayed_or_expired, IsReplayOrExpired, step-IsConsistent, HasRoom,
}

granted-IsConsistent : IsConsistent granted
unfolding lookup
granted-IsConsistent = λ k q. (λ _. (refl, refl), λ f e. refl)

abbrev done : OrderedTerminalReply
done = record { is_ok = true; payload = "ok"; error = test_infra.blank_error }

run_refines_example :
    Course
      (request_key first_move)
      1
      (admits first_move ∷ completes (λ k. k) (admission_of first_move) done ∷ [])
      (status_of (request_key first_move) 1 granted)
      (status_of (request_key first_move) 1 (
        Once.run granted
          (admits first_move ∷ completes (λ k. k) (admission_of first_move) done ∷ [])))
unfolding lookup
run_refines_example =
    run_refines granted (admits first_move ∷ completes (λ k. k) (admission_of first_move) done ∷ [])
      (request_key first_move) 1 granted-IsConsistent (λ k. omega arith)

abbrev moving : OrderedIngress
moving = Once.step granted (admits first_move)

moving-IsConsistent : IsConsistent moving
unfolding lookup
moving-IsConsistent =
    step-IsConsistent granted (admits first_move) granted-IsConsistent (λ k. omega arith)

moving_in_flight :
    in_flight_of (request_key first_move) 1 moving
    ≡ some (record { request_id = "r"; digest = "d" })
unfolding lookup insert emplace admit admit_stream authorized Once.step String_discrete
    StreamKey_discrete ℕ_discrete
moving_in_flight = refl

abbrev later : OrderedIngress
later =
    Once.run (complete (λ k. k) (admission_of first_move) done moving).0 (admits first_move ∷ [])

later_entitled : is_entitled first_move later ≡ true
unfolding lookup insert emplace erase admit admit_stream authorized Once.step Once.run
    String_discrete complete complete_execute cache_reply keep_reply sanitize evict_to_limits evict
    reply_bytes StreamKey_discrete CachedKey_discrete ℕ_discrete over_limits
later_entitled = refl

moving-room : HasRoom 2 moving
unfolding lookup
moving-room = λ k. omega (arith, (next_of-step k granted (admits first_move) (omega arith)).1)

replayed_or_expired_example :
    IsReplayOrExpired first_move (sanitize done) (admit first_move later).1
replayed_or_expired_example =
    replayed_or_expired (λ k. k) first_move done moving (admits first_move ∷ []) moving-IsConsistent
      moving-room moving_in_flight (omega arith) later_entitled
