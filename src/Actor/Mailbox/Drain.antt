-- ===== src/Actor/Mailbox/Drain.antt =====
-- The loop of `_Drain` (ActorMailbox.cc), on fuel. A task runs outside of the lock: meanwhile the task
-- itself and other callers may call `TryEnqueue` and `Close`.
use mathlib.Core.Option
use mathlib.Core.List.{append-nil, append_assoc}
use bbt_framework.Prelude.{
  ℕ, zero, suc, ◌+◌, ◌≤◌, ◌<◌, ◌≡◌, refl, sym, ap, ◌∙◌, Bool, true, false, ◌&&◌, List, [], ◌∷◌,
  ◌++◌, Option, none, some, keep, leb, Bool-cases, ◌⊎◌, inl, inr, if◌then◌else◌, length,
  length-append, arith,
}
use bbt_framework.Infra.{Infra, Result, ok, err}
use bbt_framework.Actor.Mailbox.{Mailbox, try_enqueue, close, next_task}

-- A call that reaches the mailbox while a task runs.
pub data Visit (A : Type 0) : Type 0 where
  offers : A → Visit A
  closes : Visit A

-- What a drain did: the tasks it ran, those whose exception went to the hook, those that were accepted
-- meanwhile, and the mailbox.
pub record Drained (A : Type 0) : Type 0 where
  pub executed : List A
  pub reported : List A
  pub accepted : List A
  pub box : Mailbox A

module _ {A : Type 0} where
  abbrev accept : A → Result (Unit {0}) → List A → List A
  accept task (ok _) tasks = task ∷ tasks
  accept task (err _) tasks = tasks

  -- The calls during one task: what they add, and the mailbox after them.
  unfoldable pub receive : ⦃infra : Infra⦄ → List (Visit A) → Mailbox A → List A × Mailbox A
  receive [] m = ([], m)
  receive (offers task ∷ visits) m =
      let a = try_enqueue false (some task) m in
      let (tasks, box) = receive visits a.box in (accept task a.reply tasks, box)
  receive (closes ∷ visits) m = receive visits (close m)

  abbrev first_visits : List (List (Visit A)) → List (Visit A)
  first_visits [] = []
  first_visits (now ∷ later) = now

  abbrev later_visits : List (List (Visit A)) → List (List (Visit A))
  later_visits [] = []
  later_visits (now ∷ later) = later

  -- A task that throws is reported if a hook is set; the loop goes on either way.
  unfoldable pub settle : Bool → (A → Bool) → A → List A → Drained A → Drained A
  settle hooked throws task tasks d = record d {
    executed = task ∷ d.executed;
    reported = if hooked && throws task then task ∷ d.reported else d.reported;
    accepted = tasks ++ d.accepted;
  }

  -- The lists are the calls during the first task, the second one, and so on.
  unfoldable pub drain :
      ⦃infra : Infra⦄
      → Bool
      → (A → Bool)
      → ℕ
      → List (List (Visit A))
      → Mailbox A
      → Option (Drained A)
  unfolding settle receive
  drain hooked throws zero visits m = none
  drain hooked throws (suc fuel) visits m = elim (next_task m).0 [
    | none ↦ some (record { executed = []; reported = []; accepted = []; box = (next_task m).1 })
    | some task ↦
        let (tasks, box) = receive (first_visits visits) (next_task m).1 in
        Option.map (settle hooked throws task tasks)
          (drain hooked throws fuel (later_visits visits) box)
  ]

  -- How many calls there are.
  unfoldable pub count_visits : List (List (Visit A)) → ℕ
  count_visits [] = 0
  count_visits (now ∷ later) = length now + count_visits later

  -- While a drain is on, a task is refused or stands at the end of the queue.
  try_enqueue_cases :
      ⦃infra : Infra⦄ (task : A) (m : Mailbox A) (tasks : List A)
      → m.draining ≡ true
      → (let a = try_enqueue false (some task) m in
          ((a.box ≡ m) × (accept task a.reply tasks ≡ tasks))
          ⊎ ((a.box ≡ record m { queue = m.queue ++ task ∷ [] })
              × (accept task a.reply tasks ≡ task ∷ tasks)))
  unfolding try_enqueue
  try_enqueue_cases task m tasks on = elim (Bool-cases m.is_closed) [
    | inl y ↦ inl (ground (arith, y), ground (arith, y))
    | inr is_open ↦ elim (Bool-cases (leb m.capacity (length m.queue))) [
      | inl y ↦ inl (ground (arith, is_open, y), ground (arith, is_open, y))
      | inr room ↦ inr (ground (arith, is_open, room, on), ground (arith, is_open, room, on))
    ]
  ]

  receive-queue :
      ⦃infra : Infra⦄ (visits : List (Visit A)) (m : Mailbox A)
      → m.draining ≡ true
      → ((receive visits m).1.queue ≡ m.queue ++ (receive visits m).0)
        × ((receive visits m).1.draining ≡ true)
        × (length (receive visits m).0 ≤ length visits)
  unfolding receive close
  receive-queue [] m on = (sym (append-nil m.queue), on, omega arith)
  receive-queue (closes ∷ visits) m on =
      let h = receive-queue visits (close m) on in (h.0, h.1, omega (arith, h.2))
  receive-queue (offers task ∷ visits) m on =
      let box = (try_enqueue false (some task) m).box in
      elim (try_enqueue_cases task m (receive visits box).0 on) [
        | inl (same, refused) ↦
            let h = receive-queue visits box (ap (λ b. b.draining) same ∙ on) in
            (
              h.0
                  ∙ ap (λ b. b.queue ++ (receive visits box).0) same
                  ∙ ap (◌++◌ m.queue) (sym refused),
              h.1,
              omega (arith, h.2, ap length refused),
            )
        | inr (pushed, taken) ↦
            let h = receive-queue visits box (ap (λ b. b.draining) pushed ∙ on) in
            (
              h.0
                  ∙ ap (λ b. b.queue ++ (receive visits box).0) pushed
                  ∙ append_assoc m.queue (task ∷ []) (receive visits box).0
                  ∙ ap (◌++◌ m.queue) (sym taken),
              h.1,
              omega (arith, h.2, ap length taken),
            )
      ]

  -- What a drain that has ended leaves.
  abbrev IsOver : Bool → (A → Bool) → List A → Drained A → Type 0
  IsOver hooked throws q d =
      (d.executed ≡ q ++ d.accepted)
      × (d.reported ≡ keep (λ t. hooked && throws t) d.executed)
      × (d.box.queue ≡ [])
      × (d.box.draining ≡ false)

  settle-IsOver :
      (hooked : Bool) (throws : A → Bool) (task : A) (q tasks : List A) (d : Drained A)
      → IsOver hooked throws (q ++ tasks) d
      → IsOver hooked throws (task ∷ q) (settle hooked throws task tasks d)
  unfolding settle
  settle-IsOver hooked throws task q tasks d h =
      (ap (◌∷◌ task) (h.0 ∙ append_assoc q tasks d.accepted), ground (arith, h.1), h.2, h.3)

  count_visits-parts :
      (visits : List (List (Visit A)))
      → count_visits visits ≡ length (first_visits visits) + count_visits (later_visits visits)
  unfolding count_visits
  count_visits-parts [] = refl
  count_visits-parts (now ∷ later) = refl

  drain_from :
      ⦃infra : Infra⦄ (hooked : Bool) (throws : A → Bool) (fuel : ℕ)
      (visits : List (List (Visit A))) (m : Mailbox A) (q : List A)
      → m.queue ≡ q
      → m.draining ≡ true
      → length q + count_visits visits < fuel
      → (d : Drained A) × (drain hooked throws fuel visits m ≡ some d) × IsOver hooked throws q d
  unfolding drain next_task
  drain_from hooked throws zero visits m q e on h = absurd (omega (arith, h))
  drain_from hooked throws (suc fuel) visits m [] e on h = (
    record { executed = []; reported = []; accepted = []; box = record m { draining = false } },
    ground (arith, e),
    (refl, refl, e, refl),
  )
  drain_from hooked throws (suc fuel) visits m (task ∷ q) e on h =
      let after = record m { queue = q } in
      let now = first_visits visits in
      let tasks = (receive now after).0 in
      let left = receive-queue now after on in
      let (d, runs, over) =
        drain_from hooked throws fuel (later_visits visits) (receive now after).1 (q ++ tasks)
          left.0 left.1
          (omega (arith, h, left.2, length-append q tasks, count_visits-parts visits)) in
      (
        settle hooked throws task tasks d,
        rw e (ap (Option.map (settle hooked throws task tasks)) runs),
        settle-IsOver hooked throws task q tasks d over,
      )

  -- A drain is on. While a task runs, it and others may offer tasks and close the mailbox. If there are
  -- finitely many of these calls, the loop ends, with any fuel above the number of waiting tasks and
  -- calls: it has run the tasks that waited and then those that were accepted meanwhile, each once and
  -- in order, whatever they throw; it has reported to the hook, if there is one, those that threw; and
  -- it leaves an empty queue and the drain flag down.
  pub drain_total :
      ⦃infra : Infra⦄ (hooked : Bool) (throws : A → Bool) (fuel : ℕ)
      (visits : List (List (Visit A))) (m : Mailbox A)
      → m.draining ≡ true
      → length m.queue + count_visits visits < fuel
      → (d : Drained A) × (drain hooked throws fuel visits m ≡ some d)
        × (d.executed ≡ m.queue ++ d.accepted)
        × (d.reported ≡ keep (λ t. hooked && throws t) d.executed)
        × (d.box.queue ≡ [])
        × (d.box.draining ≡ false)
  drain_total hooked throws fuel visits m on h =
      let (d, runs, over) = drain_from hooked throws fuel visits m m.queue refl on h in
      (d, runs, over.0, over.1, over.2, over.3)
