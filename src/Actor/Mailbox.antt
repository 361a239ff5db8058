-- ===== src/Actor/Mailbox.antt =====
-- framework/src/actor/ActorMailbox.cc: the bounded queue of one actor and its single consumer.
-- A critical section is one function; `TryEnqueue` reports whether it registered a coroutine.

pub mod System
pub mod Safety
pub mod Drain
use bbt_framework.Prelude.{
  ℕ, ◌≡◌, refl, Bool, true, false, List, [], ◌∷◌, ◌++◌, Option, none, some, leb, if◌then◌else◌,
  length, arith,
}
use bbt_framework.Infra.{
  Infra, make_error, Result, ok, err, invalid_argument, closed, overloaded, runtime_unavailable,
}

pub record Mailbox (A : Type 0) : Type 0 where
  pub queue : List A
  pub draining : Bool
  pub is_closed : Bool
  pub capacity : ℕ

-- What one call of `TryEnqueue` leaves: the mailbox, the reply, and whether the scheduler took a
-- new drain coroutine.
pub record Attempt (A : Type 0) : Type 0 where
  pub box : Mailbox A
  pub reply : Result (Unit {0})
  pub spawned : Bool

-- `std::deque::pop_back`
pub pop_back {ℓ} : {A : Type ℓ} → List A → List A
pop_back [] = []
pop_back (x ∷ []) = []
pop_back (x ∷ y ∷ xs) = x ∷ pop_back (y ∷ xs)

pub pop_back-append {ℓ} : {A : Type ℓ} (xs : List A) (x : A) → pop_back (xs ++ x ∷ []) ≡ xs
unfolding pop_back
pop_back-append [] x = refl
pop_back-append (y ∷ []) x = refl
pop_back-append (y ∷ z ∷ xs) x = ground (arith, pop_back-append (z ∷ xs) x)

module _ {A : Type 0} where
  unfoldable pub create : ℕ → Mailbox A
  create n = record { queue = []; draining = false; is_closed = false; capacity = n }

  -- The second argument is the answer of `RegistCoroutineTask`; an empty `std::function` is `none`.
  unfoldable pub try_enqueue : ⦃i : Infra⦄ → Bool → Option A → Mailbox A → Attempt A
  unfolding pop_back
  try_enqueue succ none m =
      let e = make_error invalid_argument "ActorMailbox::TryEnqueue: empty task" in
      record { box = m; reply = err e; spawned = false }
  try_enqueue succ (some task) m =
      let e_closed = make_error closed "ActorMailbox is closed" in
      let e_full = make_error overloaded "ActorMailbox waiting queue full (mailbox_capacity)" in
      let e_runtime =
        make_error runtime_unavailable "ActorMailbox: coroutine scheduler unavailable" in
      let pushed = record m { queue = m.queue ++ task ∷ [] } in
      if m.is_closed
      then record { box = m; reply = err e_closed; spawned = false }
      else if leb m.capacity (length m.queue)
      then record { box = m; reply = err e_full; spawned = false }
      else if m.draining
      then record { box = pushed; reply = ok tt; spawned = false }
      else if succ
      then record { box = record pushed { draining = true }; reply = ok tt; spawned = true }
      else record {
        box = record pushed { queue = pop_back pushed.queue };
        reply = err e_runtime;
        spawned = false;
      }

  unfoldable pub close : Mailbox A → Mailbox A
  close m = record m { is_closed = true }

  pub pending : Mailbox A → ℕ
  pending m = length m.queue

  -- The critical section of `_Drain`: the next task, or the end of this drain.
  unfoldable pub next_task : Mailbox A → Option A × Mailbox A
  next_task m = elim m.queue [
    | [] ↦ (none, record m { draining = false })
    | task ∷ rest ↦ (some task, record m { queue = rest })
  ]

  -- A refused task leaves the mailbox as it was: no orphan in the queue, no lost place, and no
  -- change of the drain flag.
  try_enqueue_refused :
      ⦃i : Infra⦄ (succ : Bool) (task : Option A) (m : Mailbox A)
      → ((try_enqueue succ task m).reply ≡ ok tt → ⊥)
      → (try_enqueue succ task m).box ≡ m
  unfolding try_enqueue
  try_enqueue_refused succ none m h = refl
  try_enqueue_refused succ (some task) m h = ground (arith, pop_back-append m.queue task)
