-- ===== src/Tests/Egress.antt =====
-- Service options, outgoing calls and routes on concrete inputs.
use bbt_framework.Tests.{test_infra}
use bbt_framework.Prelude.{
  ℕ, ◌+◌, ◌%◌, ◌<◌, ◌≡◌, ◌≢◌, ◌↔◌, refl, true, false, [], ◌∷◌, none, some, String_discrete, lookup,
  length, get_elem?, arith,
}
use bbt_framework.Infra.{ok, invalid_argument, make_error}
use bbt_framework.Host.Policy.{
  ServiceOptions, actor_serial, validate_service_options, validate_service_options_iff, FitsPolicy,
  FitsIngress,
}
use bbt_framework.Host.CallOptions.{
  Hooks, consume_sequence, initiate_io, adapt_call_options, adapt_in_budget, adapt_refuses_first,
  IsWithin,
}
use bbt_framework.Host.Routes.{RpcAddress, Entry, DynamicRouteTable, resolve}
use bbt_framework.Host.Routes.Resolution.{resolves, round_robin}

abbrev options : ServiceOptions
options = record {
  execution = actor_serial;
  max_inflight = 8;
  mailbox_capacity = 4;
  max_actors = 2;
  ordered_ingress = false;
  max_ordered_streams = 0;
  max_cached_results = 0;
  max_cached_result_bytes = 0;
}

validate_service_options_iff_example :
    (validate_service_options options ≡ ok tt)
    ↔ ((0 < 8) × FitsPolicy actor_serial options × FitsIngress false options)
validate_service_options_iff_example = validate_service_options_iff options

abbrev willing : Hooks
willing = record { consumes = some (ok tt); initiates = some (ok tt) }

adapt_in_budget_example :
    (◌≢◌ {A = ℕ} 50 1000) × (10 < 50) × IsWithin 50 (some 50) × IsWithin 50 (some 70)
unfolding adapt_call_options
adapt_in_budget_example =
    adapt_in_budget 1000 10 (some 50) (some 70) true willing (consume_sequence ∷ initiate_io ∷ [])
      50 refl

adapt_refuses_first_example : (adapt_call_options 1000 10 none none true willing).0 ≡ []
unfolding adapt_call_options
adapt_refuses_first_example =
    adapt_refuses_first 1000 10 none none true willing
      (make_error invalid_argument "top-level call requires a finite deadline") tt tt refl

abbrev near : RpcAddress
near = record { transport = "tcp"; endpoint = "a:1" }

abbrev far : RpcAddress
far = record { transport = "tcp"; endpoint = "b:1" }

abbrev blank_table : DynamicRouteTable
blank_table = record { stale_limit = 5000; entries = [] }

abbrev view : Entry
view = record {
  revision = 1;
  observed_at = 7;
  endpoints = near ∷ far ∷ [];
  next = 0;
  unavailable = false;
}

abbrev table : DynamicRouteTable
table = record { stale_limit = 5000; entries = ("room", view) ∷ [] }

round_robin_example :
    (a : RpcAddress) × (get_elem? (near ∷ far ∷ []) ((view.next + 3) % length view.endpoints)
      ≡ some a)
    × ((resolve 9 "room" (resolves 3 9 "room" table)).1 ≡ ok a)
unfolding lookup String_discrete
round_robin_example =
    round_robin 3 9 "room" table view refl refl (omega arith) (omega arith) (omega arith)
