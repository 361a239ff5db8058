-- ===== src/Host/Policy.antt =====
-- framework/src/ExecutionPolicy.cc: which service options are accepted.
use bbt_framework.Prelude.{
  ℕ, ◌<◌, ◌≡◌, ◌↔◌, Bool, true, false, String, ◌++ₛ◌, ◌==◌, if◌then◌else◌, arith,
}
use bbt_framework.Infra.{Infra, make_error, Result, ok, err, invalid_argument}

pub data ExecutionPolicy : Type 0 where
  actor_serial concurrent : ExecutionPolicy

pub record ServiceOptions : Type 0 where
  pub execution : ExecutionPolicy
  pub max_inflight : ℕ
  pub mailbox_capacity : ℕ
  pub max_actors : ℕ
  pub ordered_ingress : Bool
  pub max_ordered_streams : ℕ
  pub max_cached_results : ℕ
  pub max_cached_result_bytes : ℕ

-- What the validation means to accept: each execution policy with its own bounds, and the bounds of
-- ordered ingress exactly where it is on.
abbrev pub FitsPolicy : ExecutionPolicy → ServiceOptions → Type 0
FitsPolicy actor_serial o = (0 < o.mailbox_capacity) × (0 < o.max_actors)
FitsPolicy concurrent o =
    (o.mailbox_capacity ≡ 0) × (o.max_actors ≡ 0) × (o.ordered_ingress ≡ false)

abbrev pub FitsIngress : Bool → ServiceOptions → Type 0
FitsIngress true o =
    (0 < o.max_ordered_streams) × (0 < o.max_cached_results) × (0 < o.max_cached_result_bytes)
FitsIngress false o =
    (o.max_ordered_streams ≡ 0) × (o.max_cached_results ≡ 0) × (o.max_cached_result_bytes ≡ 0)

module _ ⦃infra : Infra⦄ where
  abbrev pub fail_field : String → String → Result (Unit {0})
  fail_field field why =
      err (make_error invalid_argument ("ServiceOptions." ++ₛ field ++ₛ ": " ++ₛ why))

  unfoldable pub check_ingress : ServiceOptions → Result (Unit {0})
  check_ingress o =
      if o.ordered_ingress
      then if o.max_ordered_streams == 0
        then fail_field "max_ordered_streams" "ordered_ingress requires > 0"
        else if o.max_cached_results == 0
        then fail_field "max_cached_results" "ordered_ingress requires > 0"
        else if o.max_cached_result_bytes == 0
        then fail_field "max_cached_result_bytes" "ordered_ingress requires > 0"
        else ok tt
      else if o.max_ordered_streams == 0
      then if o.max_cached_results == 0
        then if o.max_cached_result_bytes == 0
          then ok tt
          else fail_field "max_cached_result_bytes" "must be 0 when ordered_ingress is disabled"
        else fail_field "max_cached_results" "must be 0 when ordered_ingress is disabled"
      else fail_field "max_ordered_streams" "must be 0 when ordered_ingress is disabled"

  -- The switch on the execution policy, and what follows it.
  unfoldable pub check_policy : ExecutionPolicy → ServiceOptions → Result (Unit {0})
  unfolding check_ingress
  check_policy actor_serial o =
      if o.mailbox_capacity == 0
      then fail_field "mailbox_capacity" "ActorSerial requires mailbox_capacity > 0"
      else if o.max_actors == 0
      then fail_field "max_actors" "ActorSerial requires max_actors > 0"
      else check_ingress o
  check_policy concurrent o =
      if o.mailbox_capacity == 0
      then if o.max_actors == 0
        then if o.ordered_ingress
          then fail_field "ordered_ingress" "ordered_ingress is only allowed for ActorSerial"
          else check_ingress o
        else fail_field "max_actors" "Concurrent requires max_actors == 0"
      else fail_field "mailbox_capacity" "Concurrent requires mailbox_capacity == 0"

  unfoldable pub validate_service_options : ServiceOptions → Result (Unit {0})
  unfolding check_policy
  validate_service_options o =
      if o.max_inflight == 0
      then fail_field "max_inflight" "must be > 0"
      else check_policy o.execution o

  check_policy_iff :
      (p : ExecutionPolicy) (o : ServiceOptions)
      → (check_policy p o ≡ ok tt) ↔ (FitsPolicy p o × FitsIngress o.ordered_ingress o)
  unfolding check_policy check_ingress
  check_policy_iff actor_serial o = (ground arith, ground arith)
  check_policy_iff concurrent o = (ground arith, ground arith)

  -- Service options are accepted exactly when some calls may be in flight, the bounds of the mailbox
  -- and the actors are positive under the serial policy and zero under the concurrent one, ordered
  -- ingress is off under the concurrent policy, and the bounds of ordered ingress are positive where
  -- it is on and zero where it is off.
  pub validate_service_options_iff :
      (o : ServiceOptions)
      → (validate_service_options o ≡ ok tt)
        ↔ ((0 < o.max_inflight) × FitsPolicy o.execution o × FitsIngress o.ordered_ingress o)
  unfolding validate_service_options
  validate_service_options_iff o =
      let (there, back) = check_policy_iff o.execution o in
      (ground (arith, there), ground (arith, back))
