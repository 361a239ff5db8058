-- ===== src/Actor/Registry/Once.antt =====
-- An actor is activated at most once for each key (ActorRegistry.cc, `GetOrCreate`).
use bbt_framework.Prelude.{
  ◌≡◌, false, List, [], ◌∷◌, none, some, String, lookup, lookup-insert, is_empty, arith,
}
use bbt_framework.Infra.{Infra, ok}
use bbt_framework.Actor.Registry.{
  Instance, ServiceEntry, ActorId, ActorId_discrete, ActorRegistry, Activation, built, null_object,
  throws, register_factory, activate, get_or_create, get_or_create_cases, Call, registers, gets,
  step, run,
}

module _ {F I : Type 0} ⦃infra : Infra⦄ where
  abbrev Holds : ActorId → Instance I → ActorRegistry F I → Type 0
  Holds id x r = lookup ActorId_discrete id r.actors ≡ some x

  activate-Holds :
      (a : Activation I) (j id : ActorId) (x : Instance I) (entry : ServiceEntry F)
      (r : ActorRegistry F I)
      → lookup ActorId_discrete j r.actors ≡ none
      → Holds id x r
      → Holds id x (activate a j entry r).0
  unfolding activate
  activate-Holds throws j id x entry r h k = k
  activate-Holds null_object j id x entry r h k = k
  activate-Holds (built o) j id x entry r h k =
      ground (
        arith,
        lookup-insert ActorId_discrete j id (record { object = o; actor_key = j.1 }) r.actors,
      )

  step-Holds :
      (id : ActorId) (x : Instance I) (r : ActorRegistry F I) (c : Call F I)
      → Holds id x r
      → Holds id x (step r c)
  unfolding step register_factory
  step-Holds id x r (registers name none n) h = h
  step-Holds id x r (registers name (some f) n) h = ground arith
  step-Holds id x r (gets call s k) h =
      get_or_create_cases (λ p. Holds id x p.0) call s k r (λ _. h) (λ _ _ _. h)
        (λ entry _ free e room. activate-Holds (call entry.factory) (s, k) id x entry r free h)

  run-Holds :
      (id : ActorId) (x : Instance I) (r : ActorRegistry F I) (cs : List (Call F I))
      → Holds id x r
      → Holds id x (run r cs)
  unfolding run
  run-Holds id x r [] h = h
  run-Holds id x r (c ∷ cs) h = run-Holds id x (step r c) cs (step-Holds id x r c h)

  activate_ok :
      (a : Activation I) (id : ActorId) (entry : ServiceEntry F) (r r' : ActorRegistry F I)
      (x : Instance I)
      → activate a id entry r ≡ (r', ok x)
      → Holds id x r'
  unfolding activate
  activate_ok throws id entry r r' x h = cc
  activate_ok null_object id entry r r' x h = cc
  activate_ok (built o) id entry r r' x h = ground (
    arith,
    lookup-insert ActorId_discrete id id (record { object = o; actor_key = id.1 }) r.actors,
  )

  get_or_create_ok :
      (call : F → Activation I) (s k : String) (r r' : ActorRegistry F I) (x : Instance I)
      → get_or_create call s k r ≡ (r', ok x)
      → (is_empty k ≡ false) × Holds (s, k) x r'
  get_or_create_ok call s k r r' x =
      get_or_create_cases (λ p. p ≡ (r', ok x) → (is_empty k ≡ false) × Holds (s, k) x r') call s k
        r (λ e h. cc) (λ y full held h. (full, ground arith))
        (λ entry full _ _ _ h. (full, activate_ok (call entry.factory) (s, k) entry r r' x h))

  -- Once a call has handed out the instance of a key, every later call for that key hands out the
  -- same instance and changes nothing, whatever happened to the registry in between and whatever
  -- the factory would build now.
  pub activated_once :
      (call later : F → Activation I) (s k : String) (r r' : ActorRegistry F I) (x : Instance I)
      (cs : List (Call F I))
      → get_or_create call s k r ≡ (r', ok x)
      → get_or_create later s k (run r' cs) ≡ (run r' cs, ok x)
  unfolding get_or_create
  activated_once call later s k r r' x cs h =
      let (full, held) = get_or_create_ok call s k r r' x h in
      ground (arith, full, run-Holds (s, k) x r' cs held)
