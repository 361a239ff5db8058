-- ===== src/Host/Registry/Observers.antt =====
-- framework/src/host/Registry.cc: the observers of object states. A callback runs outside of the lock,
-- between two critical sections that count it in and out; a revocation marks its record, waits until
-- no callback of it runs, and erases it.
use bbt_framework.Prelude.{
  ℕ, ◌+◌, ◌-◌, Bool, true, false, not, ◌&&◌, ◌||◌, List, [], ◌∷◌, Option, none, some, String,
  ℕ_discrete, Dict, lookup, insert, erase, emplace, ltb, leb, ◌==◌, add64, if◌then◌else◌,
}
use bbt_framework.Infra.{
  Infra, make_error, Result, ok, err, invalid_argument, overloaded, not_found,
}
use bbt_framework.Ordered.Types.{◌==ₛ◌}
use bbt_framework.Host.Registry.{Registry, RegistryEntry, find_entry}

pub record ObserverRecord : Type 0 where
  pub observer_id : String
  pub observer_generation : ℕ
  pub target_id : String
  pub target_generation : ℕ
  pub active : Bool
  pub in_flight : ℕ

pub record ObserverTable : Type 0 where
  pub observers : Dict ℕ ObserverRecord
  pub next_observer_id : ℕ
  pub max_observers : ℕ

-- `ObjectHandle`, with whether it belongs to this registry.
pub record Handle : Type 0 where
  pub id : String
  pub generation : ℕ
  pub is_ours : Bool

unfoldable pub count_active : Dict ℕ ObserverRecord → ℕ
count_active [] = 0
count_active ((_, rec) ∷ rest) = (if rec.active then 1 else 0) + count_active rest

-- An object that is there in the generation of the handle.
unfoldable pub is_current : Handle → Registry → Bool
is_current h r = elim (find_entry h.id r) [ none ↦ false | some e ↦ e.generation == h.generation ]

module _ ⦃infra : Infra⦄ where
  -- The first argument tells whether there is a callback.
  unfoldable pub observe :
      Bool → Handle → Handle → Registry → ObserverTable → ObserverTable × Result ℕ
  unfolding count_active is_current
  observe has_callback observer target r t =
      if not has_callback
      then (t, err (make_error invalid_argument "Observe: null callback"))
      else if not observer.is_ours || not target.is_ours
      then (t, err (make_error invalid_argument "Observe: handle belongs to another registry"))
      else if leb t.max_observers (count_active t.observers)
      then (t, err (make_error overloaded "Observe: observer limit reached"))
      else if not (is_current observer r)
      then (t, err (make_error not_found "Observe: observer not found or generation stale"))
      else if not (is_current target r)
      then (t, err (make_error not_found "Observe: target not found or generation stale"))
      else (
        record t {
          next_observer_id = add64 t.next_observer_id 1;
          observers =
              emplace ℕ_discrete t.next_observer_id
                (record {
                  observer_id = observer.id;
                  observer_generation = observer.generation;
                  target_id = target.id;
                  target_generation = target.generation;
                  active = true;
                  in_flight = 0;
                })
                t.observers;
        },
        ok t.next_observer_id,
      )

-- The observers that an event of this object goes to.
unfoldable pub observers_of : RegistryEntry → Dict ℕ ObserverRecord → List ℕ
observers_of e [] = []
observers_of e ((tid, rec) ∷ rest) =
    let more = observers_of e rest in
    if rec.active && (rec.target_id ==ₛ e.id && rec.target_generation == e.generation)
    then tid ∷ more
    else more

-- `DispatchEvents`, first critical section: an observer that is gone or revoked is passed over.
unfoldable pub begin_callback : ℕ → ObserverTable → Option ObserverTable
begin_callback tid t = elim (lookup ℕ_discrete tid t.observers) [
  | none ↦ none
  | some rec ↦
      if rec.active
      then some (record t {
        observers =
            insert ℕ_discrete tid (record rec { in_flight = add64 rec.in_flight 1 }) t.observers;
      })
      else none
]

-- `DispatchEvents`, second critical section.
unfoldable pub end_callback : ℕ → ObserverTable → ObserverTable
end_callback tid t = elim (lookup ℕ_discrete tid t.observers) [
  | none ↦ t
  | some rec ↦
      if ltb 0 rec.in_flight
      then record t {
        observers =
            insert ℕ_discrete tid (record rec { in_flight = rec.in_flight - 1 }) t.observers;
      }
      else t
]

-- `RevokeObserver`: the mark, the condition that is waited for, and the end.
unfoldable pub mark_revoked : ℕ → ObserverTable → ObserverTable
mark_revoked tid t = elim (lookup ℕ_discrete tid t.observers) [
  | none ↦ t
  | some rec ↦ record t {
    observers = insert ℕ_discrete tid (record rec { active = false }) t.observers;
  }
]

unfoldable pub is_quiet : ℕ → ObserverTable → Bool
is_quiet tid t = elim (lookup ℕ_discrete tid t.observers) [
  | none ↦ true
  | some rec ↦ rec.in_flight == 0
]

unfoldable pub erase_observer : ℕ → ObserverTable → ObserverTable
erase_observer tid t = record t { observers = erase ℕ_discrete tid t.observers }

unfoldable pub observer_active : ℕ → ObserverTable → Bool
observer_active tid t = elim (lookup ℕ_discrete tid t.observers) [
  | none ↦ false
  | some rec ↦ rec.active
]

-- `RevokeObserversOfLocked`
unfoldable pub revoke_observers_of : String → Dict ℕ ObserverRecord → Dict ℕ ObserverRecord
revoke_observers_of observer_id [] = []
revoke_observers_of observer_id ((tid, rec) ∷ rest) =
    let marked = if rec.observer_id ==ₛ observer_id then record rec { active = false } else rec in
    (tid, marked) ∷ revoke_observers_of observer_id rest

-- `DrainInactiveObservers`: the first pass, the condition that is waited for, and the last pass.
unfoldable pub drop_idle : Dict ℕ ObserverRecord → Dict ℕ ObserverRecord
drop_idle [] = []
drop_idle ((tid, rec) ∷ rest) =
    let more = drop_idle rest in
    if not rec.active && rec.in_flight == 0 then more else (tid, rec) ∷ more

unfoldable pub is_drained : Dict ℕ ObserverRecord → Bool
is_drained [] = true
is_drained ((_, rec) ∷ rest) = not (not rec.active && ltb 0 rec.in_flight) && is_drained rest

unfoldable pub drop_inactive : Dict ℕ ObserverRecord → Dict ℕ ObserverRecord
drop_inactive [] = []
drop_inactive ((tid, rec) ∷ rest) =
    let more = drop_inactive rest in if rec.active then (tid, rec) ∷ more else more
