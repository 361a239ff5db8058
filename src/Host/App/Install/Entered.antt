-- ===== src/Host/App/Install/Entered.antt =====
-- How an install enters an object (framework/src/host/App.cc).
use bbt_framework.Prelude.{
  ℕ, ◌≡◌, ◌⊎◌, inl, inr, refl, ap, subst, ◌∙◌, Bool, true, false, List, [], ◌++◌, Option, none,
  some, String, leb, length, arith,
}
use bbt_framework.Infra.{Infra, Error, Result, ok, err, Result-cases}
use bbt_framework.Host.Registry.{Registry, RegistryEntry, Creation, create_entry}
use bbt_framework.Host.App.Bind.{make_handle}
use bbt_framework.Host.App.Control.{AppState, Outside, Event, CoApp}
use bbt_framework.Host.App.Control.Calls.{is_ok, append_nil}
use bbt_framework.Host.App.Stages.Started.{append_assoc, set_and_dispatch-events}
use bbt_framework.Host.App.Uninstall.Answers.{Answered}
use bbt_framework.Host.App.Connect.{ComponentBindingDecl, OnBindingChanged, apply_service_bindings}
use bbt_framework.Host.App.Connect.Rollback.{Declared, apply_service_bindings-Declared}
use bbt_framework.Host.App.Install.{
  Construction, made, ctor_threw, announce, enter_component, enter_actor_type, enter_service,
}
use bbt_framework.Host.App.Install.Hooks.{
  Hooked, NoHooks, no_hooks, BoundAndHooked, not_bound, bound_first, install_hooks-Hooked,
}

abbrev pub IsRefused : CoApp → CoApp × Result (Unit {0}) → Type 0
IsRefused c done = (done.0 ≡ c) × (is_ok done.1 ≡ false)

pub Construction-cases :
    (x : Construction)
    → ((text : Option String) × (x ≡ ctor_threw text)) ⊎ ((object : ℕ) × (x ≡ made object))
Construction-cases (made object) = inr (object, refl)
Construction-cases (ctor_threw text) = inl (text, refl)

module _ ⦃infra : Infra⦄ where
  create_entry-full :
      (creation : Creation) (r : Registry) {e : Error}
      → (create_entry creation r).1 ≡ err e
      → leb r.limits.max_objects (length r.entries) ≡ true
  unfolding create_entry
  create_entry-full creation r h = ground arith

  module _ (outside : Outside) where
    -- An object is entered as `creation`, and goes its way from there, of which the observers have
    -- heard, or the registry is full.
    abbrev pub Entered :
        (RegistryEntry → CoApp → List Event → Bool → Type 0)
        → Creation
        → CoApp
        → CoApp × Result (Unit {0})
        → Type 0
    Entered way creation c done =
        (IsRefused c done × (leb c.registry.limits.max_objects (length c.registry.entries) ≡ true))
        ⊎ ((e : RegistryEntry) × ((create_entry creation c.registry).1 ≡ ok e)
            × Answered (way e (announce outside e.id (create_entry creation c.registry).0 c)) c
                done)

    -- What comes after the constructor of an object, whose place may be taken.
    abbrev pub Constructed :
        (RegistryEntry → CoApp → List Event → Bool → Type 0)
        → Construction
        → Option RegistryEntry
        → (ℕ → Creation)
        → CoApp
        → CoApp × Result (Unit {0})
        → Type 0
    Constructed way construction taken creation c done =
        (IsRefused c done
          × (((text : Option String) × (construction ≡ ctor_threw text))
              ⊎ ((old : RegistryEntry) × (taken ≡ some old))))
        ⊎ ((object : ℕ) × (construction ≡ made object)
            × (taken ≡ none)
            × Entered way (creation object) c done)

    pub enter_component-Entered :
        (now : AppState) (creation : Creation) (c : CoApp)
        → Entered (λ e. Hooked outside now e.id) creation c (enter_component outside now creation c)
    unfolding enter_component
    enter_component-Entered now creation c =
        elim (Result-cases (create_entry creation c.registry).1) [
          | inl (e, p) ↦
              rw (p, enter_component) (inl ((refl, refl), create_entry-full creation c.registry p))
          | inr (e, p) ↦
              let h =
                install_hooks-Hooked outside now e.id
                  (announce outside e.id (create_entry creation c.registry).0 c) in
              inr (
                e,
                p,
                rw (p, enter_component)
                    (record { events = h.events; noted = h.noted; goes = h.goes }),
              )
        ]

    pub enter_actor_type-Entered :
        (creation : Creation) (c : CoApp)
        → Entered (λ _ _. NoHooks) creation c (enter_actor_type outside creation c)
    unfolding enter_actor_type
    enter_actor_type-Entered creation c = elim (Result-cases (create_entry creation c.registry).1) [
      | inl (e, p) ↦
          rw (p, enter_actor_type) (inl ((refl, refl), create_entry-full creation c.registry p))
      | inr (e, p) ↦ inr (
        e,
        p,
        rw (p, enter_actor_type)
            (record { events = []; noted = append_nil c.events; goes = no_hooks }),
      )
    ]

    module _ (changed : OnBindingChanged) (allows : ℕ → ℕ → Bool) where
      pub enter_service-Entered :
          (decls : List ComponentBindingDecl) (now : AppState) (creation : Creation) (c : CoApp)
          → Entered
              (λ e. BoundAndHooked outside changed allows decls now (make_handle e))
              creation
              c
              (enter_service outside changed allows decls now creation c)
      unfolding enter_service
      enter_service-Entered decls now creation c =
          elim (Result-cases (create_entry creation c.registry).1) [
            | inl (e, p) ↦
                rw (p, enter_service) (inl ((refl, refl), create_entry-full creation c.registry p))
            | inr (e, p) ↦
                let begun = announce outside e.id (create_entry creation c.registry).0 c in
                let h =
                  apply_service_bindings-Declared outside changed allows (make_handle e) decls
                    begun in
                let after =
                  apply_service_bindings outside changed allows (make_handle e) decls begun in
                elim (Result-cases after.1) [
                  | inl (x, q) ↦ inr (
                    e,
                    p,
                    rw (p, enter_service)
                        (rw (q, enter_service)
                          (record {
                            events = h.events;
                            noted = set_and_dispatch-events outside e.id _ _ after.0 ∙ h.noted;
                            goes = not_bound (
                                subst
                                  (λ r.
                                    Declared outside changed allows (make_handle e) decls begun
                                      h.events (is_ok r))
                                  q h.goes);
                          })),
                  )
                  | inr (_, q) ↦
                      let hooks = install_hooks-Hooked outside now e.id after.0 in
                      inr (
                        e,
                        p,
                        rw (p, enter_service)
                            (rw (q, enter_service)
                              (record {
                                events = h.events ++ hooks.events;
                                noted =
                                    hooks.noted
                                    ∙ ap (λ es. es ++ hooks.events) h.noted
                                    ∙ append_assoc c.events h.events hooks.events;
                                goes =
                                    bound_first
                                      (subst
                                        (λ r.
                                          Declared outside changed allows (make_handle e) decls
                                            begun h.events (is_ok r))
                                        q h.goes)
                                      hooks.goes;
                              })),
                      )
                ]
          ]
