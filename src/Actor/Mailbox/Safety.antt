-- ===== src/Actor/Mailbox/Safety.antt =====
-- What holds in every reachable state of a mailbox and its drain coroutines (ActorMailbox.cc).
use mathlib.Core.List.{append-nil, append_assoc}
use bbt_framework.Prelude.{
  ℕ, ◌≡◌, ◌≢◌, ◌≤◌, refl, sym, ap, ◌∙◌, Bool, true, false, List, [], ◌∷◌, ◌++◌, Option, none, some,
  length, length-append, arith,
}
use bbt_framework.Infra.{Infra}
use bbt_framework.Actor.Mailbox.{try_enqueue, close, next_task, pop_back-append}
use bbt_framework.Actor.Mailbox.System.{
  Drain, ready, running, System, init, enqueue, advance, finish, Step, enqueues, closes, advances,
  finishes, Reach, start, later,
}

-- As many drain coroutines as the flag says.
abbrev pub flag : Bool → ℕ
flag true = 1
flag false = 0

module _ {A : Type 0} where
  pub record Inv (n : ℕ) (s : System A) : Type 0 where
    pub kept : s.box.capacity ≡ n
    pub fits : length s.box.queue ≤ s.box.capacity
    pub single : length s.drains ≡ flag s.box.draining
    pub fifo : s.accepted ≡ s.started ++ s.box.queue
    pub awake : s.box.draining ≡ false → s.box.queue ≡ []

  init-Inv : (n : ℕ) → Inv n (init n)
  unfolding init
  init-Inv n = record {
    kept = refl;
    fits = omega arith;
    single = refl;
    fifo = refl;
    awake = λ _. refl;
  }

  enqueue-Inv :
      ⦃i : Infra⦄ (n : ℕ) (succ : Bool) (task : Option A) (s : System A)
      → Inv n s
      → Inv n (enqueue succ task s)
  unfolding enqueue try_enqueue
  enqueue-Inv n succ none s v = ground arith
  enqueue-Inv n succ (some task) s v = ground (
    arith,
    length-append s.box.queue (task ∷ []),
    append_assoc s.started s.box.queue (task ∷ []),
    pop_back-append s.box.queue task,
  )

  -- With one coroutine at most, the one that moves is alone.
  alone :
      (before after : List (Drain A)) (d : Drain A) (b : Bool)
      → length (before ++ d ∷ after) ≡ flag b
      → (before ≡ []) × (after ≡ []) × (b ≡ true)
  alone [] [] d true h = (refl, refl, refl)
  alone [] [] d false h = absurd (omega arith)
  alone [] (x ∷ xs) d true h = absurd (omega arith)
  alone [] (x ∷ xs) d false h = absurd (omega arith)
  alone (x ∷ xs) ys d true h = absurd (omega (arith, length-append xs (d ∷ ys)))
  alone (x ∷ xs) ys d false h = absurd (omega (arith, length-append xs (d ∷ ys)))

  advance-Inv :
      (n : ℕ) (s : System A) (q : List A)
      → s.box.queue ≡ q
      → s.box.draining ≡ true
      → Inv n s
      → Inv n (advance [] [] s)
  unfolding advance next_task
  advance-Inv n s [] e d v = ground (arith, append-nil s.started)
  advance-Inv n s (x ∷ q) e d v = ground (arith, append_assoc s.started (x ∷ []) q)

  Step-Inv : ⦃i : Infra⦄ {n : ℕ} {s t : System A} → Step s t → Inv n s → Inv n t
  unfolding close finish
  Step-Inv {n} {s} (enqueues succ task) v = enqueue-Inv n succ task s v
  Step-Inv (closes) v = ground arith
  Step-Inv {n} {s} (advances before after e) v =
      let (b, a, d) = alone before after ready s.box.draining (sym (ap length e) ∙ v.single) in
      rw (b, a) (advance-Inv n s s.box.queue refl d v)
  Step-Inv {n} {s} (finishes before after task e) v =
      let (b, a, d) =
        alone before after (running task) s.box.draining (sym (ap length e) ∙ v.single) in
      rw (b, a) (ground arith)

  pub Reach-Inv : ⦃i : Infra⦄ {n : ℕ} {s : System A} → Reach n s → Inv n s
  Reach-Inv {n} start = init-Inv n
  Reach-Inv (later r st) = Step-Inv st (Reach-Inv r)

  -- In every reachable state at most one drain coroutine lives, so no two tasks of the mailbox
  -- overlap; and while a task waits exactly one lives, so no accepted task is left with nobody to
  -- run it.
  pub single_consumer :
      ⦃i : Infra⦄ {n : ℕ} {s : System A}
      → Reach n s
      → (length s.drains ≤ 1) × (s.box.queue ≢ [] → length s.drains ≡ 1)
  single_consumer {s} r = by_flag s.box.draining refl
    where
      open (Reach-Inv r) use {single, awake}

      by_flag :
          (b : Bool)
          → s.box.draining ≡ b
          → (length s.drains ≤ 1) × (s.box.queue ≢ [] → length s.drains ≡ 1)
      by_flag true e = (ground (arith, single), λ _. ground (arith, single))
      by_flag false e = (ground (arith, single), λ h. absurd (h (awake e)))

  -- In every reachable state the accepted tasks are those that have started, followed by those that
  -- wait, in the order of acceptance; and at most `capacity` tasks wait.
  pub starts_in_order :
      ⦃i : Infra⦄ {n : ℕ} {s : System A}
      → Reach n s
      → (s.accepted ≡ s.started ++ s.box.queue) × (length s.box.queue ≤ n)
  starts_in_order r = let v = Reach-Inv r in (v.fifo, omega arith)
