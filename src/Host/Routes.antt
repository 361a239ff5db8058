-- ===== src/Host/Routes.antt =====
-- framework/src/host/DynamicRouteTable.cc: the table of endpoints by service, with its round-robin
-- cursors. Points of the clock are arguments.
pub mod Resolution
use bbt_framework.Prelude.{
  ℕ, zero, suc, ◌+◌, ◌-◌, ◌%◌, ◌≤◌, ◌<◌, ◌≡◌, refl, Bool, true, false, not, ◌&&◌, ◌||◌, List, [],
  ◌∷◌, ◌++◌, Option, none, some, String, ◌++ₛ◌, String_discrete, Dict, lookup, insert,
  lookup-insert, length, get_elem?, is_empty, ltb, ◌==◌, add64, u64_max, to_string, if◌then◌else◌,
  arith,
}
use bbt_framework.Infra.{
  Infra, make_error, Result, ok, err, invalid_argument, not_found, runtime_unavailable,
}
use bbt_framework.Ordered.Types.{◌==ₛ◌}

-- `infra::RpcAddress`, more far as the table reads it.
pub record RpcAddress : Type 0 where
  pub transport : String
  pub endpoint : String

unfoldable pub same_endpoint : RpcAddress → RpcAddress → Bool
same_endpoint a b = a.transport ==ₛ b.transport && a.endpoint ==ₛ b.endpoint

pub record Entry : Type 0 where
  pub revision : ℕ
  pub observed_at : ℕ
  pub endpoints : List RpcAddress
  pub next : ℕ
  pub unavailable : Bool

pub record DynamicRouteTable : Type 0 where
  pub stale_limit : ℕ
  pub entries : Dict String Entry

unfoldable pub has_blank : List RpcAddress → Bool
has_blank [] = false
has_blank (a ∷ more) = is_empty a.transport || (is_empty a.endpoint || has_blank more)

unfoldable pub contains : RpcAddress → List RpcAddress → Bool
unfolding same_endpoint
contains a [] = false
contains a (b ∷ bs) = same_endpoint b a || contains a bs

-- The loop of `Replace`: each endpoint that is not known yet is appended.
unfoldable pub add_unseen : List RpcAddress → List RpcAddress → List RpcAddress
unfolding contains
add_unseen known [] = known
add_unseen known (a ∷ more) =
    let next = if contains a known then known else known ++ a ∷ [] in add_unseen next more

unfoldable pub same_view : List RpcAddress → List RpcAddress → Bool
unfolding same_endpoint
same_view [] [] = true
same_view [] (_ ∷ _) = false
same_view (_ ∷ _) [] = false
same_view (a ∷ more) (b ∷ bs) = same_endpoint a b && same_view more bs

-- The cursor and the endpoints before the call; a service that is new has none.
abbrev pub old_next : Option Entry → ℕ
old_next none = 0
old_next (some e) = e.next

abbrev pub old_endpoints : Option Entry → List RpcAddress
old_endpoints none = []
old_endpoints (some e) = e.endpoints

module _ ⦃infra : Infra⦄ where
  unfoldable pub replace :
      ℕ → String → ℕ → List RpcAddress → DynamicRouteTable → DynamicRouteTable × Result (Unit {0})
  unfolding add_unseen same_view has_blank
  replace now service revision endpoints t =
      let unique = add_unseen [] endpoints in
      let old = lookup String_discrete service t.entries in
      let fresh : Entry = record {
        revision = revision;
        observed_at = now;
        endpoints = unique;
        next = if same_view (old_endpoints old) unique then old_next old else 0;
        unavailable = false;
      } in
      if is_empty service
      then (t, err (make_error invalid_argument "DynamicRouteTable::Replace: empty service name"))
      else if has_blank endpoints
      then (
        t,
        err (
            make_error invalid_argument (
              "DynamicRouteTable::Replace: service '" ++ₛ service
              ++ₛ "' has endpoint with empty transport/endpoint")),
      )
      else (record t { entries = insert String_discrete service fresh t.entries }, ok tt)

  -- The end of `Resolve`: the endpoint at the cursor. The index is always in range, so the second
  -- case of the match is never taken.
  unfoldable pub take_next :
      String → Entry → DynamicRouteTable → DynamicRouteTable × Result RpcAddress
  take_next service e t =
      let advanced = record t {
        entries = insert String_discrete service (record e { next = add64 e.next 1 }) t.entries;
      } in
      elim (get_elem? e.endpoints (e.next % length e.endpoints)) [
        | some a ↦ (advanced, ok a)
        | none ↦ (advanced, err (make_error not_found "out of range"))
      ]

  unfoldable pub resolve : ℕ → String → DynamicRouteTable → DynamicRouteTable × Result RpcAddress
  unfolding take_next
  resolve now service t =
      let text : String → String =
        λ what. "DynamicRouteTable::Resolve: service '" ++ₛ service ++ₛ what in
      elim (lookup String_discrete service t.entries) [
        | none ↦ (t, err (make_error not_found (text "' is not published by any provider")))
        | some e ↦
            if e.unavailable
            then (t, err (make_error runtime_unavailable (text "' view was marked unavailable")))
            else if length e.endpoints == 0
            then (t, err (make_error not_found (text "' currently has no healthy instance")))
            else if ltb t.stale_limit (now - e.observed_at)
            then (
              t,
              err (
                  make_error runtime_unavailable (
                    text "' view is stale (no successful discovery within "
                    ++ₛ to_string t.stale_limit
                    ++ₛ "ms)")),
            )
            else take_next service e t
      ]

unfoldable pub mark_unavailable : String → DynamicRouteTable → DynamicRouteTable
mark_unavailable service t = elim (lookup String_discrete service t.entries) [
  | none ↦ t
  | some e ↦
      let marked : Entry = record e { unavailable = true; endpoints = [] } in
      record t { entries = insert String_discrete service marked t.entries }
]

unfoldable pub has_service : String → DynamicRouteTable → Bool
has_service service t = elim (lookup String_discrete service t.entries) [
  | none ↦ false
  | some _ ↦ true
]
