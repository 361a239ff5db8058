-- ===== src/Lib.antt =====
-- A formal model of the bbt framework, a runtime for actors and services over coroutines and HTTP.
--
-- The parts and their files. Paths are from the root of the repository.
-- - Prelude: shared names, maps as association lists, tests on numbers, 64-bit arithmetic.
-- - Infra: errors and results. What bbt::infra does itself is the instance argument `Infra`: the
--   fields that `MakeError` leaves, and `ValidateErrorDetails`.
-- - Actor.Mailbox (framework/src/actor/ActorMailbox.cc): the queue of one actor. `try_enqueue`,
--   `close` and `next_task` are the critical sections; Actor.Mailbox.System lets the callers and
--   the drain coroutines take them in any order; Actor.Mailbox.Drain is the loop of `_Drain`, with
--   the calls that come in while a task runs.
-- - Actor.Registry (framework/src/actor/ActorRegistry.cc): `register_factory` and `get_or_create`.
--   What a factory does is an argument of the call that reaches it.
-- - Ordered.Types, Ordered.ErrorDomain (framework/include/bbt/framework/OrderedTypes.hpp,
--   internal/ErrorDomainRule.hpp, framework/src/host/RpcWireBridge.cc): grants, tickets, and the
--   rules of an error at a boundary.
-- - Ordered.Ingress (framework/src/actor/OrderedIngress.cc): the receiver of ordered streams.
--   Grants is `GrantStream`, Admit is `Admit`, Complete is `Complete`, Cache is the cache of
--   replies with its eviction. `remove_cached` takes the key that is read after the erasure as
--   `stale`, since the source reads it through a reference to the element it has erased.
-- - Ordered.Session (framework/src/actor/OrderedSession.cc): the sender. Order has the runs of
--   `prepare` and `BindForSend`, Open the process-wide table of sessions.
-- - Host.Lifecycle (framework/src/host/HostLifecycle.cc): `Run` with its start, shutdown and
--   rollback. `Env` holds what the network host, the hooks and the waits answer, and the actions on
--   them are recorded.
-- - Host.Registry (framework/src/host/Registry.cc, internal/Registry.hpp): the entries of managed
--   objects and the index over them. Borrow has the bindings and the borrows of one component's
--   entry, Counts and Drained the leases that are out, Index the histories of the table, Observers
--   and Revoked the observers with their callbacks and revocations, Views what a handle shows.
-- - Host.Routes (framework/src/host/DynamicRouteTable.cc): `replace`, `resolve`,
--   `mark_unavailable`.
-- - Host.CallOptions (framework/src/host/CallOptionsAdapter.cc): `AdaptCallOptions`.
-- - Host.Policy (framework/src/ExecutionPolicy.cc): `ValidateServiceOptions`.
-- - Host.Scope (framework/src/host/RequestScope.cc): the contexts bound to coroutines and threads;
--   a stack holds its last entry first.
-- - Host.Methods (framework/include/bbt/framework/internal/MethodTable.hpp,
--   framework/src/MethodTable.cc): the method table and the check of its key extractors.
-- - Host.Dispatcher (framework/src/host/InboundDispatcher.cc): `Dispatch`. Decimal, Digest and
--   Metadata are its helpers; State has the data; Ordered the admission and the completion of
--   ordered requests; Enter goes up to the first suspension and Leave from there to the reply.
--   System lets calls and the rest of the process take turns; a call that was refused a place holds
--   it until its second step, as between `fetch_add` and `fetch_sub`.
-- - Host.Runtime (framework/src/host/AppRuntimeState.cc,
--   framework/include/bbt/framework/RpcPolicy.hpp): `FindRoute`, `Send`, `Publish`, `Release`,
--   `Dispatch`.
-- - Host.App (framework/src/host/App.cc): Cycle is `_WouldFormCycleLocked`, Edges the map `deps`
--   that it builds, StartOrder `ComponentStartOrderLocked` (framework/src/host/Registry.cc), Bind
--   `_ValidateOwner` and the critical section of `_BindComponentImpl`, History the critical
--   sections of all operations on the registry in any order. Control has the calls of hooks, Stages
--   `_StartImpl`, `_PauseImpl` and `_ResumeImpl`, Stop `_StopImpl` with the ways in which objects
--   go, Uninstall `_UninstallComponentImpl`, `_UninstallServiceImpl` and `_UninstallActorTypeImpl`.
--   Connect is `_BindComponentImpl`, `_UnbindComponentImpl` and `_ApplyServiceBindings`, Install
--   `_InstallComponentImpl`, `_InstallServiceImpl` and `_InstallActorTypeImpl`. Drained has the
--   waits for borrows. `Outside` holds what hooks, observers, waits and other callers do to the
--   registry while no lock is held, and the events record the calls of hooks and the releases of
--   objects. Between `_ValidateOwner` and the critical section after it no other caller acts,
--   except in History, where the owner is any. `FindEntryLocked` is there the scan for the first
--   entry with the id.
-- - Tests: the components on concrete inputs.
--
-- A session hands its requests to a receiver, whose ingress admits them; the receiver executes what
-- was admitted on the actor that the activation registry gives, by its mailbox. The errors of all
-- of them pass the rules of Ordered.ErrorDomain at the boundary. The host lifecycle starts and
-- stops the network host that carries the requests.
--
-- Bounds: the loop of `_Drain` runs on fuel, and more fuel than waiting tasks and calls that come
-- in meanwhile is enough. The eviction loop runs on fuel of the length of the list that each of its
-- steps shortens. Sequences are 64-bit numbers that wrap around. The two walks of the dependencies
-- of components run on fuel of the number of all edges, since each component is walked from once; a
-- wait for borrows has a list of its wake-ups.
--
-- Not modelled: threads and locks below the level of a critical section, the wire format, the HTTP
-- and coroutine libraries, the database resources, and the templates over user types.
pub mod Prelude
pub mod Infra
pub mod Actor
pub mod Ordered
pub mod Host
pub mod Tests
