-- ===== src/Ordered/Ingress/Status.antt =====
-- OrderedIngress.cc: what the ingress promises of one sequence of one stream, apart from how it keeps
-- it: the sequence is still ahead, its request is in progress, its reply is kept, or it has expired.
use bbt_framework.Prelude.{ℕ, ◌≤◌, ◌≡◌, Option, none, some, ℕ_discrete, lookup, ltb, if◌then◌else◌}
use bbt_framework.Infra.{Infra}
use bbt_framework.Ordered.Ingress.{
  OrderedTerminalReply, StreamKey, StreamKey_discrete, InFlight, CachedKey_discrete, CachedResult,
  OrderedIngress,
}
use bbt_framework.Ordered.Ingress.Admit.{request_key}
use bbt_framework.Ordered.Ingress.Grants.{or_fresh}
use bbt_framework.Ordered.Ingress.Complete.{sanitize, result_of, admission_key}
use bbt_framework.Ordered.Ingress.Once.{next_of, Call, admits, completes}

-- What a client may know of a sequence.
pub data Status : Type 0 where
  ahead expired : Status
  in_progress_of : InFlight → Status
  kept : CachedResult → Status

abbrev pub in_flight_of : StreamKey → ℕ → OrderedIngress → Option InFlight
in_flight_of k q s =
    lookup ℕ_discrete q (or_fresh (lookup StreamKey_discrete k s.streams)).in_flight

abbrev pub cached_of : StreamKey → ℕ → OrderedIngress → Option CachedResult
cached_of k q s = lookup CachedKey_discrete (record { stream = k; sequence = q }) s.cached

abbrev pub consumed_status : Option InFlight → Option CachedResult → Status
consumed_status (some f) c = in_progress_of f
consumed_status none (some c) = kept c
consumed_status none none = expired

unfoldable pub status_of : StreamKey → ℕ → OrderedIngress → Status
status_of k q s =
    if ltb q (next_of k s) then consumed_status (in_flight_of k q s) (cached_of k q s) else ahead

-- The call is a request of this sequence, and `f` is what is kept of it.
abbrev pub IsRequest : StreamKey → ℕ → Call → InFlight → Type 0
IsRequest k q (admits r) f =
    (request_key r ≡ k)
    × (r.sequence ≡ q)
    × (f ≡ record { request_id = r.request_id; digest = r.request_digest })
IsRequest k q (completes stale a x) f = ⊥

-- The call completes this sequence with this reply.
abbrev pub IsCompletion : StreamKey → ℕ → Call → OrderedTerminalReply → Type 0
IsCompletion k q (admits r) reply = ⊥
IsCompletion k q (completes stale a x) reply =
    (admission_key a ≡ k) × (a.sequence ≡ q) × (x ≡ reply)

-- The steps that a sequence may take in a call: a request of it puts it in progress, once; its
-- completion keeps the reply of the call, or keeps none; and in any call a kept reply may expire.
pub data Move ⦃infra : Infra⦄ (k : StreamKey) (q : ℕ) (c : Call) : Status → Status → Type 0 where
  stays : {t : Status} → Move k q c t t
  admitted : (f : InFlight) → IsRequest k q c f → Move k q c ahead (in_progress_of f)
  answered :
      (f : InFlight) (reply : OrderedTerminalReply)
      → IsCompletion k q c reply
      → Move k q c (in_progress_of f) (kept (result_of f (sanitize reply)))
  unkept :
      (f : InFlight) (reply : OrderedTerminalReply)
      → IsCompletion k q c reply
      → Move k q c (in_progress_of f) expired
  forgotten : (r : CachedResult) → Move k q c (kept r) expired

-- What holds of every stream: requests in flight and replies in the cache have been consumed, and no
-- sequence is both.
abbrev pub IsConsistent : OrderedIngress → Type 0
IsConsistent s =
    (k : StreamKey) (q : ℕ)
    → (next_of k s ≤ q → (in_flight_of k q s ≡ none) × (cached_of k q s ≡ none))
      × ((f : InFlight) → in_flight_of k q s ≡ some f → cached_of k q s ≡ none)
