-- ===== src/Actor/Registry/Invariant.antt =====
-- The bookkeeping of ActorRegistry.cc: `live_actors` counts, and stays within `max_actors`.
use bbt_framework.Prelude.{
  ℕ, ◌+◌, ◌≤◌, ◌≡◌, refl, false, List, [], ◌∷◌, Option, none, some, String, ite, String_discrete,
  Dict, lookup, insert, lookup-insert, leb, arith,
}
use bbt_framework.Infra.{Infra}
use bbt_framework.Actor.Registry.{
  Instance, ServiceEntry, ActorId, ActorId_discrete, ActorRegistry, Activation, built, null_object,
  throws, empty, register_factory, activate, get_or_create, actor_count, live_or_zero,
  get_or_create_cases, Call, registers, gets, step, run,
}

module _ {I : Type 0} where
  -- The actors of one service.
  pub count_of : String → Dict ActorId (Instance I) → ℕ
  count_of s [] = 0
  count_of s ((id, x) ∷ m) = ite (String_discrete id.0 s) 1 0 + count_of s m

  pub count_of-insert :
      (s : String) (id : ActorId) (x : Instance I) (m : Dict ActorId (Instance I))
      → lookup ActorId_discrete id m ≡ none
      → count_of s (insert ActorId_discrete id x m)
        ≡ count_of s m + ite (String_discrete id.0 s) 1 0
  unfolding count_of lookup insert
  count_of-insert s id x [] h = omega arith
  count_of-insert s id x ((j, y) ∷ m) h = ground (arith, count_of-insert s id x m)

module _ {F I : Type 0} where
  pub record Inv (r : ActorRegistry F I) : Type 0 where
    pub counted :
        (s : String) (e : ServiceEntry F)
        → lookup String_discrete s r.services ≡ some e
        → (e.live_actors ≡ count_of s r.actors) × (e.live_actors ≤ e.max_actors)
    pub known : (s : String) → lookup String_discrete s r.services ≡ none → count_of s r.actors ≡ 0
    pub keyed :
        (id : ActorId) (x : Instance I)
        → lookup ActorId_discrete id r.actors ≡ some x
        → x.actor_key ≡ id.1

  empty-Inv : Inv empty
  unfolding empty lookup count_of
  empty-Inv = record { counted = λ s e h. cc; known = λ s h. refl; keyed = λ id x h. cc }

  module _ ⦃infra : Infra⦄ where
    pub register_factory-Inv :
        (name : String) (f : Option F) (n : ℕ) (r : ActorRegistry F I)
        → Inv r
        → Inv (register_factory name f n r).0
    unfolding register_factory
    register_factory-Inv name none n r v = v
    register_factory-Inv name (some f) n r v = record {
      counted = λ s e. ground (
        arith,
        v.counted s e,
        v.known s,
        lookup-insert String_discrete name s
            (record { factory = f; max_actors = n; live_actors = 0 }) r.services,
      );
      known = λ s. ground (
        arith,
        v.known s,
        lookup-insert String_discrete name s
            (record { factory = f; max_actors = n; live_actors = 0 }) r.services,
      );
      keyed = λ id x. ground (arith, v.keyed id x);
    }

    activate-Inv :
        (a : Activation I) (id : ActorId) (entry : ServiceEntry F) (r : ActorRegistry F I)
        → lookup ActorId_discrete id r.actors ≡ none
        → lookup String_discrete id.0 r.services ≡ some entry
        → leb entry.max_actors entry.live_actors ≡ false
        → Inv r
        → Inv (activate a id entry r).0
    unfolding activate
    activate-Inv throws id entry r h k l v = v
    activate-Inv null_object id entry r h k l v = v
    activate-Inv (built o) id entry r h k l v = record {
      counted = λ s e. ground (
        arith,
        v.counted s e,
        v.counted s entry,
        lookup-insert String_discrete id.0 s grown r.services,
        count_of-insert s id fresh r.actors,
      );
      known = λ s. ground (
        arith,
        v.known s,
        lookup-insert String_discrete id.0 s grown r.services,
        count_of-insert s id fresh r.actors,
      );
      keyed =
          λ j x. ground (arith, v.keyed j x, lookup-insert ActorId_discrete id j fresh r.actors);
    }
      where
        grown : ServiceEntry F
        grown = record entry { live_actors = entry.live_actors + 1 }

        fresh : Instance I
        fresh = record { object = o; actor_key = id.1 }

    pub get_or_create-Inv :
        (call : F → Activation I) (s k : String) (r : ActorRegistry F I)
        → Inv r
        → Inv (get_or_create call s k r).0
    unfolding get_or_create
    get_or_create-Inv call s k r v =
        get_or_create_cases (λ p. Inv p.0) call s k r (λ _. v) (λ _ _ _. v)
          (λ entry _ h e room. activate-Inv (call entry.factory) (s, k) entry r h e room v)

    pub step-Inv : (r : ActorRegistry F I) (c : Call F I) → Inv r → Inv (step r c)
    unfolding step
    step-Inv r (registers name f n) v = register_factory-Inv name f n r v
    step-Inv r (gets call s k) v = get_or_create-Inv call s k r v

    pub run-Inv : (r : ActorRegistry F I) (cs : List (Call F I)) → Inv r → Inv (run r cs)
    unfolding run
    run-Inv r [] v = v
    run-Inv r (c ∷ cs) v = run-Inv (step r c) cs (step-Inv r c v)

    count_bounded_from :
        (r : ActorRegistry F I) (s : String) (o : Option (ServiceEntry F))
        → lookup String_discrete s r.services ≡ o
        → Inv r
        → (live_or_zero o ≡ count_of s r.actors)
          × ((e : ServiceEntry F) → o ≡ some e → count_of s r.actors ≤ e.max_actors)
    count_bounded_from r s none h v = (ground (arith, v.known s), λ e. ground arith)
    count_bounded_from r s (some d) h v =
        (ground (arith, v.counted s d), λ e. ground (arith, v.counted s d))

    -- After any history of registrations and activations, whatever the factories did, `ActorCount`
    -- of a service is the number of its actors, and if the service is registered that number is at
    -- most its `max_actors`.
    pub count_bounded :
        (cs : List (Call F I)) (s : String)
        → (actor_count s (run empty cs) ≡ count_of s (run empty cs).actors)
          × ((e : ServiceEntry F)
              → lookup String_discrete s (run empty cs).services ≡ some e
              → count_of s (run empty cs).actors ≤ e.max_actors)
    unfolding actor_count
    count_bounded cs s = count_bounded_from (run empty cs) s _ refl (run-Inv empty cs empty-Inv)
