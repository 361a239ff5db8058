-- ===== src/Ordered/Ingress.antt =====
-- framework/src/actor/OrderedIngress.cc and internal/OrderedIngress.hpp: the state of the receiving
-- side of ordered streams, its creation and what can be observed of it.
pub mod Cache
pub mod Grants
pub mod Admit
pub mod Complete
pub mod Once
pub mod Status
pub mod Kept
pub mod Refines
pub mod Replay
use Prim.Native.String.{len}
use bbt_framework.Prelude.{
  ℕ, ◌+◌, ◌≡◌, Bool, true, false, ◌||◌, List, [], ◌∷◌, Option, none, some, String, String_discrete,
  ℕ_discrete, Dict, lookup, length, is_empty, ◌==◌, if◌then◌else◌,
}
use bbt_framework.Infra.{
  Infra, Error, ErrorCode, make_error, Result, ok, err, invalid_argument, remote_error, not_found,
}
use bbt_framework.Ordered.Types.{OrderedGrant, ordered_error_domain}

pub record OrderedTerminalReply : Type 0 where
  pub is_ok : Bool
  pub payload : String
  pub error : Error

pub record OrderedIngressRequest : Type 0 where
  pub method : String
  pub actor_key : String
  pub peer_principal : String
  pub has_ordered_stamp : Bool
  pub producer_id : String
  pub producer_epoch : String
  pub receiver_epoch : String
  pub sequence : ℕ
  pub request_id : String
  pub request_digest : String

pub record OrderedIngressConfig : Type 0 where
  pub service : String
  pub max_ordered_streams : ℕ
  pub max_cached_results : ℕ
  pub max_cached_result_bytes : ℕ

pub record OrderedStreamObservation : Type 0 where
  pub next_sequence : ℕ
  pub in_flight : ℕ
  pub cached : ℕ

pub data DecisionKind : Type 0 where
  execute replays : DecisionKind

pub record Admission : Type 0 where
  pub kind : DecisionKind
  pub sequence : ℕ
  pub actor_key : String
  pub producer_id : String
  pub producer_epoch : String
  pub replay : OrderedTerminalReply

pub record StreamKey : Type 0 where
  pub actor_key : String
  pub producer_id : String
  pub producer_epoch : String

unfoldable pub StreamKey_discrete : Discrete StreamKey
StreamKey_discrete = hlevel String_discrete

pub record InFlight : Type 0 where
  pub request_id : String
  pub digest : String

pub record CachedKey : Type 0 where
  pub stream : StreamKey
  pub sequence : ℕ

unfoldable pub CachedKey_discrete : Discrete CachedKey
CachedKey_discrete = hlevel (String_discrete, ℕ_discrete)

pub record CachedResult : Type 0 where
  pub request_id : String
  pub digest : String
  pub reply : OrderedTerminalReply
  pub bytes : ℕ

-- `cached_seqs` is a set, held as the map of the source with a value of no meaning.
pub record StreamState : Type 0 where
  pub next_sequence : ℕ
  pub in_flight : Dict ℕ InFlight
  pub cached_seqs : Dict ℕ ℕ

abbrev pub fresh_stream : StreamState
fresh_stream = record { next_sequence = 1; in_flight = []; cached_seqs = [] }

pub record OrderedIngress : Type 0 where
  pub config : OrderedIngressConfig
  pub grants : List OrderedGrant
  pub streams : Dict StreamKey StreamState
  pub cached : Dict CachedKey CachedResult
  pub cached_order : List CachedKey
  pub cached_bytes : ℕ

module _ ⦃infra : Infra⦄ where
  abbrev pub ordered_ingest_error : String → String → Error
  ordered_ingest_error domain_code message = record (make_error remote_error message) {
    domain = ordered_error_domain;
    domain_code = domain_code;
  }

  unfoldable pub create : OrderedIngressConfig → Result OrderedIngress
  create c =
      if is_empty c.service
      then err (make_error invalid_argument "ordered ingress: empty service name")
      else if c.max_ordered_streams == 0
          || (c.max_cached_results == 0 || c.max_cached_result_bytes == 0)
      then err (
          make_error invalid_argument
            "ordered ingress: max_ordered_streams, max_cached_results and max_cached_result_bytes must all be > 0")
      else ok (record {
        config = c;
        grants = [];
        streams = [];
        cached = [];
        cached_order = [];
        cached_bytes = 0;
      })

  unfoldable pub observe_stream :
      String → String → String → OrderedIngress → Result OrderedStreamObservation
  observe_stream actor_key producer_id producer_epoch s =
      let key : StreamKey = record {
        actor_key = actor_key;
        producer_id = producer_id;
        producer_epoch = producer_epoch;
      } in
      elim (lookup StreamKey_discrete key s.streams) [
        | none ↦ err (make_error not_found "ordered stream not installed")
        | some st ↦ ok (record {
          next_sequence = st.next_sequence;
          in_flight = length st.in_flight;
          cached = length st.cached_seqs;
        })
      ]

unfoldable pub details_bytes : List (String × String) → ℕ
details_bytes [] = 0
details_bytes ((k, v) ∷ rest) = len k + len v + details_bytes rest

unfoldable pub reply_bytes : OrderedTerminalReply → ℕ
reply_bytes r =
    if r.is_ok
    then len r.payload
    else len r.payload
      + len (r.error).domain
      + len (r.error).domain_code
      + len (r.error).message
      + details_bytes (r.error).details

unfoldable pub stream_count : OrderedIngress → ℕ
stream_count s = length s.grants

unfoldable pub cached_result_count : OrderedIngress → ℕ
cached_result_count s = length s.cached

unfoldable pub cached_result_bytes : OrderedIngress → ℕ
cached_result_bytes s = s.cached_bytes
