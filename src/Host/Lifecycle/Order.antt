-- ===== src/Host/Lifecycle/Order.antt =====
-- The fixed order of the actions of a run (HostLifecycle.cc), stage by stage.
use bbt_framework.Prelude.{
  ℕ, ◌≤◌, ◌<◌, ◌≡◌, refl, Bool, true, false, not, List, [], ◌∷◌, ◌++◌, Option, none, some, String,
  if_both, subst, sym, ◌++ₛ◌, ◌==◌, arith,
}
use bbt_framework.Infra.{Infra, Error, Result, ok, err}
use bbt_framework.Host.Lifecycle.{
  DrainOutcome, drained, interrupted, undrained, Call, returned, threw, Action, stop_accepting,
  wait_within_budget, wait_on, handlers_drained, host_close, release, Env, HostLifecycle, Outcome,
  exits, waits, parks, init, Phase, failed, final_phase, exit_start_failed, exit_rejected,
  wait_late, wait_handlers_done, finish_close, shut_down, open_host, start_up, start_all, roll_back,
  serve, run, act, after_wait, begin, is_incomplete, proceed, set_phase, closing, running,
  add_failure, run_handlers_drained, run_release,
}
use bbt_framework.Host.Lifecycle.Safety.{rank, performed}

-- The ranks rise strictly, from above the first bound up to the second.
abbrev pub Within : ℕ → ℕ → List Action → Type 0
Within low high [] = low ≤ high
Within low high (a ∷ rest) = (low < rank a) × Within (rank a) high rest

Within-append :
    (low high : ℕ) (xs : List Action) (a : Action)
    → Within low high xs
    → high < rank a
    → Within low (rank a) (xs ++ a ∷ [])
Within-append low high [] a w h = (omega arith, omega arith)
Within-append low high (x ∷ xs) a w h = (w.0, Within-append (rank x) high xs a w.1 h)

Within-le : (low high : ℕ) (xs : List Action) → Within low high xs → low ≤ high
Within-le low high [] w = w
Within-le low high (x ∷ xs) w = omega (arith, Within-le (rank x) high xs w.1)

Within-mono : (low m n : ℕ) (xs : List Action) → m ≤ n → Within low m xs → Within low n xs
Within-mono low m n [] h w = omega arith
Within-mono low m n (x ∷ xs) h w = (w.0, Within-mono (rank x) m n xs h w.1)

-- The actions of a lifecycle so far.
abbrev Upto : ℕ → HostLifecycle → Type 0
Upto n l = Within 0 n l.actions

add :
    (m n : ℕ) (a : Action) (l : HostLifecycle)
    → m < rank a
    → rank a ≤ n
    → Upto m l
    → Upto n (act a l)
add m n a l h k w = Within-mono 0 (rank a) n _ k (Within-append 0 m l.actions a w h)

wait_late-Upto :
    (env : Env) (b : Bool) (l : HostLifecycle) → Upto 6 l → Upto 7 (wait_late env b l).0
unfolding wait_late
wait_late-Upto env b l w = ground (arith, add 6 7 wait_on l)

wait_handlers_done-Upto :
    (env : Env) (l : HostLifecycle) → Upto 5 l → Upto 7 (wait_handlers_done env l).0
unfolding wait_handlers_done wait_late
wait_handlers_done-Upto env l w = ground (
  arith,
  add 5 7 wait_within_budget l,
  add 6 7 wait_on (act wait_within_budget l),
  add 5 6 wait_within_budget l,
)

run_release-Upto : (o : Option Call) (l : HostLifecycle) → Upto 9 l → Upto 10 (run_release o l)
unfolding run_release
run_release-Upto none l w = Within-mono 0 9 10 l.actions (omega arith) w
run_release-Upto (some (returned r)) l w = add 9 10 release l (omega arith) (omega arith) w
run_release-Upto (some (threw what)) l w = add 9 10 release l (omega arith) (omega arith) w

run_handlers_drained-Upto :
    (o : Option Call) (l : HostLifecycle) → Upto 7 l → Upto 8 (run_handlers_drained o l)
unfolding run_handlers_drained
run_handlers_drained-Upto none l w = Within-mono 0 7 8 l.actions (omega arith) w
run_handlers_drained-Upto (some (returned r)) l w =
    add 7 8 handlers_drained l (omega arith) (omega arith) w
run_handlers_drained-Upto (some (threw none)) l w =
    add 7 8 handlers_drained l (omega arith) (omega arith) w
run_handlers_drained-Upto (some (threw (some what))) l w =
    add 7 8 handlers_drained l (omega arith) (omega arith) w

finish_close-Upto :
    (env : Env) (b : Bool) (l : HostLifecycle) → Upto 8 l → Upto 10 (finish_close env b l).0
unfolding finish_close
finish_close-Upto env b l w =
    run_release-Upto env.on_release (act host_close l)
      (add 8 9 host_close l (omega arith) (omega arith) w)

after_wait-Upto :
    (env : Env) (o : DrainOutcome) (l : HostLifecycle) → Upto 7 l → Upto 10 (after_wait env o l).0
unfolding after_wait
after_wait-Upto env undrained l w = Within-mono 0 7 10 l.actions (omega arith) w
after_wait-Upto env interrupted l w =
    finish_close-Upto env true _ (Within-mono 0 7 8 l.actions (omega arith) w)
after_wait-Upto env drained l w =
    finish_close-Upto env false _ (run_handlers_drained-Upto env.on_handlers_drained l w)

shut_down-Upto : (env : Env) (l : HostLifecycle) → Upto 4 l → Upto 10 (shut_down env l).0
unfolding shut_down
shut_down-Upto env l w =
    if_both {A = HostLifecycle × Outcome} (λ p. Upto 10 p.0) l.host_created _ _
      (λ _. after_wait-Upto env _ _ (
        wait_handlers_done-Upto env _
          (add 4 5 stop_accepting (set_phase closing l) (omega arith) (omega arith) w)))
      (λ _.
        run_release-Upto env.on_release (set_phase closing l)
          (Within-mono 0 4 9 l.actions (omega arith) w))

after_wait-parks :
    (env : Env) (o : DrainOutcome) (l : HostLifecycle)
    → (after_wait env o l).1 ≡ parks
    → ((after_wait env o l).0 ≡ l) × (o ≡ undrained)
unfolding after_wait finish_close
after_wait-parks env undrained l h = (refl, refl)
after_wait-parks env interrupted l h = absurd (ground arith)
after_wait-parks env drained l h = absurd (ground arith)

wait_handlers_done-undrained :
    (env : Env) (l : HostLifecycle)
    → (wait_handlers_done env l).1 ≡ undrained
    → (wait_handlers_done env l).0.state ≡ is_incomplete
unfolding wait_handlers_done wait_late
wait_handlers_done-undrained env l h = ground arith

-- A shutdown that parks has got no further than its second wait.
pub shut_down-parks :
    (env : Env) (l : HostLifecycle)
    → Upto 4 l
    → (shut_down env l).1 ≡ parks
    → ((shut_down env l).0.state ≡ is_incomplete) × Upto 7 (shut_down env l).0
unfolding shut_down
shut_down-parks env l w =
    if_both {A = HostLifecycle × Outcome}
      (λ p. p.1 ≡ parks → (p.0.state ≡ is_incomplete) × Upto 7 p.0) l.host_created _ _
      (λ _ h.
        let waited = wait_handlers_done env (act stop_accepting (set_phase closing l)) in
        let (same, stuck) = after_wait-parks env waited.1 waited.0 h in
        subst (λ m. (m.state ≡ is_incomplete) × Upto 7 m) (sym same)
          (
            wait_handlers_done-undrained env _ stuck,
            wait_handlers_done-Upto env _
                (add 4 5 stop_accepting (set_phase closing l) (omega arith) (omega arith) w),
          ))
      (λ _ h. absurd (ground arith))

start_all-Upto : (env : Env) (l : HostLifecycle) → l.actions ≡ [] → Upto 4 (start_all env l).0
unfolding start_all start_up open_host
start_all-Upto env l e = ground arith

-- What lies above the bound was not performed.
pub Within-performed :
    (low high : ℕ) (a : Action) (xs : List Action)
    → Within low high xs
    → high < rank a
    → performed a xs ≡ false
Within-performed low high a [] w h = refl
Within-performed low high a (x ∷ xs) w h =
    ground (arith, Within-performed (rank x) high a xs w.1 h, Within-le (rank x) high xs)

-- What holds of every end of a run: the order of the actions, and where a parked run stands.
abbrev pub Ends : HostLifecycle × Outcome → Type 0
Ends (l, o) = Upto 10 l × (o ≡ parks → (l.state ≡ is_incomplete) × Upto 7 l)

Ends-idle : (l : HostLifecycle) (n : ℕ) → Upto 10 l → Ends (l, exits n)
Ends-idle l n w = (w, λ h. absurd (ground arith))

Ends-outcome :
    (r : HostLifecycle × Outcome) (p : ℕ → Phase) (f : ℕ → ℕ)
    → Ends r
    → Ends (elim r.1 [ exits n ↦ (set_phase (p n) r.0, exits (f n)) | other ↦ (r.0, other) ])
Ends-outcome (l, exits n) p f w = Ends-idle (set_phase (p n) l) (f n) w.0
Ends-outcome (l, waits) p f w = w
Ends-outcome (l, parks) p f w = w

shut_down-Ends : (env : Env) (l : HostLifecycle) → Upto 4 l → Ends (shut_down env l)
shut_down-Ends env l w = (shut_down-Upto env l w, shut_down-parks env l w)

module _ ⦃infra : Infra⦄ where
  roll_back-Ends : (env : Env) (e : Error) (l : HostLifecycle) → Upto 4 l → Ends (roll_back env e l)
  unfolding roll_back
  roll_back-Ends env e l w =
      Ends-outcome _ (λ _. failed) (λ _. exit_start_failed)
        (shut_down-Ends env (add_failure ("startup: " ++ₛ e.message) l) w)

  serve-Ends : (env : Env) (l : HostLifecycle) → Upto 4 l → Ends (serve env l)
  unfolding serve
  serve-Ends env l w =
      if_both {A = HostLifecycle × Outcome} Ends env.shutdown_requested _ _
        (λ _. Ends-outcome _ final_phase (λ n. n) (shut_down-Ends env l w))
        (λ _. (Within-mono 0 4 10 l.actions (omega arith) w, λ h. absurd (ground arith)))

  proceed-Ends :
      (env : Env) (r : Result (Unit {0})) (l : HostLifecycle) → Upto 4 l → Ends (proceed env r l)
  unfolding proceed
  proceed-Ends env (ok _) l w = serve-Ends env (set_phase running l) w
  proceed-Ends env (err e) l w = roll_back-Ends env e l w

  unfoldable reject : String → HostLifecycle
  unfolding init
  reject what = set_phase failed (add_failure what (record init { started = true }))

  pub run-Ends : (env : Env) → Ends (run env init)
  unfolding run begin init reject
  run-Ends env =
      if_both {A = HostLifecycle × Outcome} Ends (not env.has_host) _ _
        (λ _. Ends-idle (reject "network host is not configured") exit_rejected (omega arith))
        (λ _.
          if_both {A = HostLifecycle × Outcome} Ends (env.step_budget == 0) _ _
            (λ _. Ends-idle (reject "step_budget must be > 0") exit_rejected (omega arith))
            (λ _. proceed-Ends env _ _ (start_all-Upto env _ refl)))
