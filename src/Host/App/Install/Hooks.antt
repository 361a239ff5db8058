-- ===== src/Host/App/Install/Hooks.antt =====
-- The hooks of an install and the events that they leave (framework/src/host/App.cc).
use bbt_framework.Prelude.{
  ℕ, ◌≡◌, ◌≢◌, inl, inr, refl, ap, subst, ◌∙◌, Bool, true, false, List, [], ◌∷◌, ◌++◌, none, some,
  String, Option-cases,
}
use bbt_framework.Infra.{Infra, ok, Result-cases}
use bbt_framework.Host.Registry.Observers.{Handle}
use bbt_framework.Host.Registry.{installed, starting, running, failed, first_entry}
use bbt_framework.Host.App.Control.{
  AppState, app_created, app_starting, app_running, app_paused, app_stopping, app_stop_incomplete,
  app_stopped, Hook, on_install, on_start, Outside, Event, hooked, succeeded, CoApp, run_hook,
  run_hook_caught, run_hook_co, set_and_dispatch,
}
use bbt_framework.Host.App.Control.Calls.{
  is_ok, append_nil, append_two, IsGone, Trace, CoTrace, gone, broken, full, run_hook_co-Call,
}
use bbt_framework.Host.App.Stages.{error_at}
use bbt_framework.Host.App.Stages.Started.{append_assoc, set_and_dispatch-events}
use bbt_framework.Host.App.Uninstall.Answers.{Answered}
use bbt_framework.Host.App.Connect.{ComponentBindingDecl, OnBindingChanged, apply_service_bindings}
use bbt_framework.Host.App.Connect.Rollback.{Declared}
use bbt_framework.Host.App.Install.{start_installed, install_hooks}

-- The type of an actor has no hooks.
pub data NoHooks : List Event → Bool → Type 0 where
  no_hooks : NoHooks [] true

module _ ⦃infra : Infra⦄ (outside : Outside) where
  -- A hook that the caller runs itself, called at `c`.
  abbrev pub RunTrace : Hook → String → CoApp → List Event → Bool → Type 0
  RunTrace hook id c =
      Trace hook id (IsGone id c) ⊥ (run_hook_caught (outside.called hook id c.registry).1)

  -- The state in which an `OnStart` comes after an `OnInstall` called at `c`.
  abbrev pub at_start : String → CoApp → CoApp
  at_start id c =
      set_and_dispatch outside id starting none
        (set_and_dispatch outside id installed none (run_hook outside on_install "install" id c).0)

  -- The hooks of an object that has its entry, from the state `c` on, and whether all succeed:
  -- `OnInstall`, and after it, where the application runs by then, `OnStart`.
  pub data Hooked (now : AppState) (id : String) (c : CoApp) : List Event → Bool → Type 0 where
    not_installed : {es : List Event} → RunTrace on_install id c es false → Hooked now id c es false
    rests :
        {es : List Event}
        → now ≢ app_running
        → RunTrace on_install id c es true
        → Hooked now id c es true
    starts :
        {es fs : List Event} {b : Bool}
        → now ≡ app_running
        → RunTrace on_install id c es true
        → CoTrace outside on_start id (at_start id c) fs b
        → Hooked now id c (es ++ fs) b

  run_hook-Answered :
      (hook : Hook) (phase id : String) (c : CoApp)
      → Answered (RunTrace hook id c) c (run_hook outside hook phase id c)
  unfolding run_hook
  run_hook-Answered hook phase id c = elim (Option-cases (first_entry id c.registry.entries)) [
    | inl nothing ↦
        rw (nothing, run_hook)
          (record { events = []; noted = append_nil c.events; goes = gone refl })
    | inr (e, found) ↦ elim (Result-cases (run_hook_caught (outside.called hook id c.registry).1)) [
      | inl (x, p) ↦
          rw (found, run_hook)
            (rw (p, run_hook)
              (record { events = hooked hook id ∷ []; noted = refl; goes = broken refl }))
      | inr (_, p) ↦
          rw (found, run_hook)
            (rw (p, run_hook)
              (record {
                events = hooked hook id ∷ succeeded hook id ∷ [];
                noted = append_two c.events (hooked hook id) (succeeded hook id);
                goes = full refl;
              }))
    ]
  ]

  start_running-Answered :
      (id : String) (c : CoApp)
      → Answered
          (CoTrace outside on_start id (set_and_dispatch outside id starting none c))
          c
          (start_installed outside app_running id c)
  unfolding start_installed
  start_running-Answered id c =
      let begun = set_and_dispatch outside id starting none c in
      let h = run_hook_co-Call outside on_start "start" id begun in
      let same = set_and_dispatch-events outside id starting none c in
      let after = run_hook_co outside on_start "start" id begun in
      let noted : after.0.events ≡ c.events ++ h.events =
        h.noted ∙ ap (λ es. es ++ h.events) same in
      elim (Result-cases after.1) [
        | inl (e, p) ↦
            rw (p, start_installed)
              (record {
                events = h.events;
                noted =
                    set_and_dispatch-events outside id failed (some (error_at "start" e)) after.0
                    ∙ noted;
                goes = subst (λ r. CoTrace outside on_start id begun h.events (is_ok r)) p h.trace;
              })
        | inr (_, p) ↦
            rw (p, start_installed)
              (record {
                events = h.events;
                noted = set_and_dispatch-events outside id running none after.0 ∙ noted;
                goes = subst (λ r. CoTrace outside on_start id begun h.events (is_ok r)) p h.trace;
              })
      ]

  abbrev after_install : String → CoApp → CoApp
  after_install id c =
      set_and_dispatch outside id installed none (run_hook outside on_install "install" id c).0

  resting :
      (now : AppState) (id : String) (es : List Event) (c : CoApp)
      → now ≢ app_running
      → RunTrace on_install id c es true
      → (after_install id c).events ≡ c.events ++ es
      → Answered (Hooked now id c) c (after_install id c, ok tt)
  resting now id es c still t same = record { events = es; noted = same; goes = rests still t }

  -- What follows an `OnInstall` that succeeded.
  start_installed-Hooked :
      (now : AppState) (id : String) (es : List Event) (c : CoApp)
      → RunTrace on_install id c es true
      → (after_install id c).events ≡ c.events ++ es
      → Answered (Hooked now id c) c (start_installed outside now id (after_install id c))
  unfolding start_installed
  start_installed-Hooked app_running id es c t same =
      let h = start_running-Answered id (after_install id c) in
      record {
        events = es ++ h.events;
        noted = h.noted ∙ ap (λ l. l ++ h.events) same ∙ append_assoc c.events es h.events;
        goes = starts refl t h.goes;
      }
  start_installed-Hooked app_created id es c t same = resting app_created id es c (cc) t same
  start_installed-Hooked app_starting id es c t same = resting app_starting id es c (cc) t same
  start_installed-Hooked app_paused id es c t same = resting app_paused id es c (cc) t same
  start_installed-Hooked app_stopping id es c t same = resting app_stopping id es c (cc) t same
  start_installed-Hooked app_stop_incomplete id es c t same =
      resting app_stop_incomplete id es c (cc) t same
  start_installed-Hooked app_stopped id es c t same = resting app_stopped id es c (cc) t same

  pub install_hooks-Hooked :
      (now : AppState) (id : String) (c : CoApp)
      → Answered (Hooked now id c) c (install_hooks outside now id c)
  unfolding install_hooks
  install_hooks-Hooked now id c =
      let h = run_hook-Answered on_install "install" id c in
      let after = run_hook outside on_install "install" id c in
      elim (Result-cases after.1) [
        | inl (e, p) ↦
            let t = subst (λ r. RunTrace on_install id c h.events (is_ok r)) p h.goes in
            rw (p, install_hooks)
              (record {
                events = h.events;
                noted = set_and_dispatch-events outside id _ _ after.0 ∙ h.noted;
                goes = not_installed t;
              })
        | inr (_, p) ↦
            rw (p, install_hooks)
              (start_installed-Hooked now id h.events c
                (subst (λ r. RunTrace on_install id c h.events (is_ok r)) p h.goes)
                (set_and_dispatch-events outside id installed none after.0 ∙ h.noted))
      ]

  -- A service binds what it declares before its hooks, which start in the state that this leaves.
  pub data BoundAndHooked (changed : OnBindingChanged) (allows : ℕ → ℕ → Bool)
      (decls : List ComponentBindingDecl) (now : AppState) (subject : Handle) (c : CoApp)
      : List Event → Bool → Type 0 where
    not_bound :
        {es : List Event}
        → Declared outside changed allows subject decls c es false
        → BoundAndHooked changed allows decls now subject c es false
    bound_first :
        {es fs : List Event} {b : Bool}
        → Declared outside changed allows subject decls c es true
        → Hooked now subject.id
            (apply_service_bindings outside changed allows subject decls c).0
            fs
            b
        → BoundAndHooked changed allows decls now subject c (es ++ fs) b
