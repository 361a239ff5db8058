-- ===== src/Host/Dispatcher/State.antt =====
-- framework/include/bbt/framework/internal/InboundDispatcher.hpp and RequestContext.hpp: the state
-- of the dispatcher, the calls that infra gives it, and the replies it makes. `F` is the type of
-- factories and `I` that of service objects. The actor registry is the one that all services of an
-- application share.
use bbt_framework.Prelude.{
  ℕ, ◌≡◌, ap, subst, ◌∙◌, List, [], Option, none, some, String, String_discrete, Dict, lookup,
  insert, add64, sub64, is_empty, ◌++ₛ◌, ◌||◌, Option-cases, inl, inr, arith, if◌then◌else◌,
}
use bbt_framework.Infra.{
  Infra, make_error, Result, Result-cases, ok, err, invalid_argument, not_found, type_mismatch,
}
use bbt_framework.Actor.Mailbox.{Mailbox}
use bbt_framework.Actor.Mailbox
use bbt_framework.Actor.Registry.{ActorRegistry, Instance}
use bbt_framework.Ordered.Types.{◌==ₛ◌}
use bbt_framework.Ordered.Ingress.{OrderedIngress, Admission}
use bbt_framework.Host.Policy.{ServiceOptions}
use bbt_framework.Host.Methods.{RpcMethod, find_method}
use bbt_framework.Host.Dispatcher.Metadata.{MetadataFields, no_fields, read_metadata}

-- `bbt::infra::IncomingCallContext`; times are milliseconds of the steady clock.
pub record IncomingCallContext : Type 0 where
  pub deadline : ℕ
  pub peer_principal : String

-- `bbt::infra::RpcEnvelope`; a payload is a string of bytes.
pub record RpcEnvelope : Type 0 where
  pub service : String
  pub method : String
  pub request_id : String
  pub request_schema : String
  pub response_schema : String
  pub metadata : List (String × String)
  pub payload : String

pub record RequestContext : Type 0 where
  pub request_id : String
  pub actor_key : Option String
  pub deadline : ℕ
  pub peer_principal : String
  pub trace_id : Option String

-- What a task in a mailbox holds.
pub record Task (I : Type 0) : Type 0 where
  pub context : RequestContext
  pub method : RpcMethod
  pub object : Instance I
  pub payload : String

pub record ServiceEntry (I : Type 0) : Type 0 where
  pub options : ServiceOptions
  pub table : List RpcMethod
  pub bound : Option I
  pub ordered_ingress : Option OrderedIngress

pub record PerService (I : Type 0) : Type 0 where
  pub entry : ServiceEntry I
  pub inflight : ℕ
  pub mailboxes : Dict String (Mailbox (Task I))

pub record InboundDispatcher (F I : Type 0) : Type 0 where
  pub services : Dict String (PerService I)
  pub registry : ActorRegistry F I

-- Where a call that has not been answered stands: about to give back a place that it took beyond
-- the limit, inside a handler that runs inline, or waiting for the result of an actor. A waiting call
-- has the admission of its ordered request and the result that its slot holds.
pub data Stage : Type 0 where
  refused running : Stage
  waiting : Option Admission → Result String → Stage

pub record Pending : Type 0 where
  pub request : RpcEnvelope
  pub method : RpcMethod
  pub context : RequestContext
  pub stage : Stage

module _ {I : Type 0} where
  -- The constructor of the dispatcher, for one service.
  unfoldable pub new_service : ServiceEntry I → PerService I
  new_service e = record { entry = e; inflight = 0; mailboxes = [] }

  -- `inflight.fetch_add(1)` and `inflight.fetch_sub(1)`
  abbrev pub take_place : PerService I → PerService I
  take_place svc = record svc { inflight = add64 svc.inflight 1 }

  abbrev pub give_back : PerService I → PerService I
  give_back svc = record svc { inflight = sub64 svc.inflight 1 }

  abbrev pub with_ingress : OrderedIngress → PerService I → PerService I
  with_ingress ingress svc = record svc {
    entry = record (svc.entry) { ordered_ingress = some ingress };
  }

  -- `_MailboxFor`: the mailbox of a key is made when it is first asked for.
  unfoldable pub mailbox_for : String → PerService I → Mailbox (Task I)
  unfolding Mailbox.create
  mailbox_for key svc = elim (lookup String_discrete key svc.mailboxes) [
    | some box ↦ box
    | none ↦ Mailbox.create svc.entry.options.mailbox_capacity
  ]

  abbrev pub with_mailbox : String → Mailbox (Task I) → PerService I → PerService I
  with_mailbox key box svc = record svc { mailboxes = insert String_discrete key box svc.mailboxes }

-- The reply to a request: its five associated fields come from the request and its method.
unfoldable pub reply_of : RpcEnvelope → RpcMethod → String → RpcEnvelope
reply_of request method payload = record {
  service = request.service;
  method = request.method;
  request_id = request.request_id;
  request_schema = method.request_schema;
  response_schema = method.response_schema;
  metadata = [];
  payload = payload;
}

module _ ⦃infra : Infra⦄ where
  unfoldable pub check_envelope : RpcEnvelope → Result (Unit {0})
  check_envelope request =
      if is_empty request.service || is_empty request.method
      then err (make_error invalid_argument "inbound envelope missing service/method")
      else if is_empty request.request_id
      then err (make_error invalid_argument "inbound envelope missing request_id")
      else ok tt

-- What a call is for: the fields of its metadata, its service and its method.
pub record Target (I : Type 0) : Type 0 where
  pub fields : MetadataFields
  pub service : PerService I
  pub method : RpcMethod

module _ {I : Type 0} ⦃infra : Infra⦄ where
  unfoldable pub find_target :
      RpcEnvelope → MetadataFields → Option (PerService I) → Result (Target I)
  find_target request fields none = err (
      make_error not_found ("inbound dispatch: unregistered service '" ++ₛ request.service ++ₛ "'"))
  find_target request fields (some svc) = elim (find_method request.method svc.entry.table) [
    | none ↦ err (
        make_error not_found (
          "inbound dispatch: unknown method '" ++ₛ request.method ++ₛ "' on service '"
          ++ₛ request.service ++ₛ "'"))
    | some method ↦
        if request.request_schema ==ₛ method.request_schema
        then ok (record { fields = fields; service = svc; method = method })
        else err (
            make_error type_mismatch (
              "inbound dispatch: request schema mismatch on '" ++ₛ request.service ++ₛ "."
              ++ₛ request.method ++ₛ "'"))
  ]

module _ {F I : Type 0} ⦃infra : Infra⦄ where
  -- The checks that come before a call takes a place in its service.
  unfoldable pub resolve : RpcEnvelope → InboundDispatcher F I → Result (Target I)
  unfolding check_envelope find_target
  resolve request d = elim (check_envelope request) [
    | err e ↦ err e
    | ok _ ↦ elim (read_metadata request.metadata no_fields) [
      | err e ↦ err e
      | ok fields ↦ find_target request fields (lookup String_discrete request.service d.services)
    ]
  ]

module _ {I : Type 0} ⦃infra : Infra⦄ where
  -- What is known of the target of a request among these services.
  abbrev pub IsTarget : RpcEnvelope → Option (PerService I) → Target I → Type 0
  IsTarget request svc target =
      (svc ≡ some target.service)
      × (find_method request.method target.service.entry.table ≡ some target.method)
      × (request.request_schema ≡ target.method.request_schema)

  find_target-IsTarget :
      (request : RpcEnvelope) (fields : MetadataFields) (svc : Option (PerService I))
      (target : Target I)
      → find_target request fields svc ≡ ok target
      → IsTarget request svc target
  unfolding find_target
  find_target-IsTarget request fields none target h = ground arith
  find_target-IsTarget request fields (some svc) target h =
      elim (Option-cases (find_method request.method svc.entry.table)) [
        | inl e ↦ absurd (ground arith)
        | inr (method, e) ↦ elim (String_discrete request.request_schema method.request_schema) [
          | yes same ↦
              let found : record { fields = fields; service = svc; method = method } ≡ target =
                ground arith in
              (
                ap (λ t. some t.service) found,
                subst (λ t. find_method request.method t.service.entry.table ≡ some t.method) found
                    e,
                same ∙ ap (λ t. t.method.request_schema) found,
              )
          | no differ ↦ absurd (ground arith)
        ]
      ]

module _ {F I : Type 0} ⦃infra : Infra⦄ where
  pub resolve-IsTarget :
      (request : RpcEnvelope) (d : InboundDispatcher F I) (target : Target I)
      → resolve request d ≡ ok target
      → IsTarget request (lookup String_discrete request.service d.services) target
  unfolding resolve
  resolve-IsTarget request d target h = elim (Result-cases (check_envelope request)) [
    | inl (e, f) ↦ absurd (ground arith)
    | inr (_, f) ↦ elim (Result-cases (read_metadata request.metadata no_fields)) [
      | inl (e, g) ↦ absurd (ground arith)
      | inr (fields, g) ↦
          find_target-IsTarget request fields (lookup String_discrete request.service d.services)
            target (ground arith)
    ]
  ]
