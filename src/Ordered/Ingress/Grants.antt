-- ===== src/Ordered/Ingress/Grants.antt =====
-- OrderedIngress.cc, `GrantStream`: the installation of an authorised stream.
use bbt_framework.Prelude.{
  Bool, not, ◌&&◌, ◌||◌, List, [], ◌∷◌, ◌++◌, Option, none, some, lookup, insert, erase, length,
  leb, is_empty, if◌then◌else◌,
}
use bbt_framework.Infra.{Infra, make_error, Result, ok, err, invalid_argument, overloaded}
use bbt_framework.Ordered.Types.{
  ◌==ₛ◌, OrderedGrant, same_grant, same_ordered_stream_id, stream_rejected,
}
use bbt_framework.Ordered.Ingress.{
  StreamKey, StreamKey_discrete, StreamState, OrderedIngress, ordered_ingest_error, fresh_stream,
}
use bbt_framework.Ordered.Ingress.Cache.{drop_stream_cache}

unfoldable pub same_producer_stream : OrderedGrant → OrderedGrant → Bool
same_producer_stream a b =
    a.actor_key ==ₛ b.actor_key
    && (a.producer_id ==ₛ b.producer_id && a.producer_epoch ==ₛ b.producer_epoch)

abbrev pub key_of : OrderedGrant → StreamKey
key_of g = record {
  actor_key = g.actor_key;
  producer_id = g.producer_id;
  producer_epoch = g.producer_epoch;
}

-- The grant starts a new session of a producer stream that is already granted.
unfoldable pub supersedes : OrderedGrant → OrderedGrant → Bool
unfolding same_producer_stream
supersedes grant old =
    same_producer_stream old grant && not (old.receiver_epoch ==ₛ grant.receiver_epoch)

-- The second loop: superseded grants go, with the state and the cached replies of their stream.
unfoldable pub revoke :
    OrderedGrant → List OrderedGrant → OrderedIngress → List OrderedGrant × OrderedIngress
unfolding supersedes
revoke grant [] s = ([], s)
revoke grant (g ∷ gs) s =
    let dropped = drop_stream_cache (key_of g) s in
    let cut =
      revoke grant gs
        (record dropped { streams = erase StreamKey_discrete (key_of g) dropped.streams }) in
    let kept = revoke grant gs s in if supersedes grant g then cut else (g ∷ kept.0, kept.1)

-- `streams_[key]`: the state of a stream, made if it is missing.
abbrev pub or_fresh : Option StreamState → StreamState
or_fresh none = fresh_stream
or_fresh (some st) = st

unfoldable pub install : OrderedGrant → OrderedIngress → OrderedIngress
install grant s =
    let st = or_fresh (lookup StreamKey_discrete (key_of grant) s.streams) in
    record s {
      grants = s.grants ++ grant ∷ [];
      streams =
          insert StreamKey_discrete (key_of grant) (record st { next_sequence = 1 }) s.streams;
    }

module _ ⦃infra : Infra⦄ where
  -- The first loop: a grant of the same stream decides the call.
  unfoldable pub find_installed : OrderedGrant → List OrderedGrant → Option (Result (Unit {0}))
  find_installed grant [] = none
  find_installed grant (g ∷ gs) =
      if same_ordered_stream_id g grant
      then some (
          if same_grant g grant
          then ok tt
          else err (
              ordered_ingest_error stream_rejected
                "ordered stream grant conflicts with the installed grant"))
      else find_installed grant gs

  unfoldable pub install_within : OrderedGrant → OrderedIngress → OrderedIngress × Result (Unit {0})
  unfolding install
  install_within grant s =
      if leb s.config.max_ordered_streams (length s.grants)
      then (s, err (make_error overloaded "ordered ingress: max_ordered_streams reached"))
      else (install grant s, ok tt)

  unfoldable pub grant_stream : OrderedGrant → OrderedIngress → OrderedIngress × Result (Unit {0})
  unfolding install_within find_installed revoke
  grant_stream grant s =
      let cut = revoke grant s.grants s in
      if not (grant.service ==ₛ s.config.service)
      then (
        s,
        err (
            make_error invalid_argument
              "ordered ingress: grant service does not match this ingress"),
      )
      else if is_empty grant.service
          || (is_empty grant.actor_key
              || (is_empty grant.producer_id
                  || (is_empty grant.producer_epoch || is_empty grant.receiver_epoch)))
      then (
        s,
        err (
            make_error invalid_argument
              "ordered ingress: grant has empty field; refusing to install"),
      )
      else elim (find_installed grant s.grants) [
        | some answer ↦ (s, answer)
        | none ↦ install_within grant (record (cut.1) { grants = cut.0 })
      ]
