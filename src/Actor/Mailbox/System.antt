-- ===== src/Actor/Mailbox/System.antt =====
-- A mailbox with the drain coroutines that the scheduler holds, as a step relation: any caller may
-- enqueue or close at any time, and any drain coroutine may advance (ActorMailbox.cc, `TryEnqueue`
-- and `_Drain`). `accepted` and `started` record the tasks in the order of their critical sections.
use bbt_framework.Prelude.{ℕ, ◌≡◌, Bool, List, [], ◌∷◌, ◌++◌, Option, none, some, if◌then◌else◌}
use bbt_framework.Infra.{Infra, Result, ok, err}
use bbt_framework.Actor.Mailbox.{Mailbox, create, try_enqueue, close, next_task}

-- A drain coroutine is at the top of its loop, or inside a task.
pub data Drain (A : Type 0) : Type 0 where
  ready : Drain A
  running : A → Drain A

pub record System (A : Type 0) : Type 0 where
  pub box : Mailbox A
  pub drains : List (Drain A)
  pub accepted : List A
  pub started : List A

module _ {A : Type 0} where
  unfoldable pub init : ℕ → System A
  unfolding create
  init n = record { box = create n; drains = []; accepted = []; started = [] }

  -- The history of accepted tasks after a call with this task and reply.
  abbrev pub note : Option A → Result (Unit {0}) → List A → List A
  note (some task) (ok _) log = log ++ task ∷ []
  note (some task) (err _) log = log
  note none _ log = log

  unfoldable pub enqueue : ⦃i : Infra⦄ → Bool → Option A → System A → System A
  enqueue succ task s =
      let a = try_enqueue succ task s.box in
      record s {
        box = a.box;
        drains = if a.spawned then ready ∷ s.drains else s.drains;
        accepted = note task a.reply s.accepted;
      }

  -- A drain coroutine takes its next task, or ends.
  abbrev resume : Option A → List (Drain A)
  resume none = []
  resume (some task) = running task ∷ []

  abbrev begun : Option A → List A
  begun none = []
  begun (some task) = task ∷ []

  unfoldable pub advance : List (Drain A) → List (Drain A) → System A → System A
  advance before after s =
      let (task, box) = next_task s.box in
      record s {
        box = box;
        drains = before ++ (resume task ++ after);
        started = s.started ++ begun task;
      }

  -- The task of a drain coroutine ends, by a return or by an exception: `_Drain` swallows both.
  unfoldable pub finish : List (Drain A) → List (Drain A) → System A → System A
  finish before after s = record s { drains = before ++ ready ∷ after }

  pub data Step ⦃i : Infra⦄ (s : System A) : System A → Type 0 where
    enqueues : (succ : Bool) (task : Option A) → Step s (enqueue succ task s)
    closes : Step s (record s { box = close s.box })
    advances :
        (before after : List (Drain A))
        → s.drains ≡ before ++ ready ∷ after
        → Step s (advance before after s)
    finishes :
        (before after : List (Drain A)) (task : A)
        → s.drains ≡ before ++ running task ∷ after
        → Step s (finish before after s)

  pub data Reach ⦃i : Infra⦄ (n : ℕ) : System A → Type 0 where
    start : Reach n (init n)
    later : {s t : System A} → Reach n s → Step s t → Reach n t
