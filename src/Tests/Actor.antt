-- ===== src/Tests/Actor.antt =====
-- The mailbox and the activation registry on concrete inputs.
use bbt_framework.Tests.{test_infra}
use bbt_framework.Prelude.{
  ℕ, ◌≡◌, ◌≢◌, ◌≤◌, refl, true, false, ◌&&◌, List, [], ◌∷◌, ◌++◌, some, length, keep, ltb, arith,
  lookup, insert, String_discrete,
}
use bbt_framework.Infra.{ok}
use bbt_framework.Actor.Mailbox.{Mailbox, try_enqueue}
use bbt_framework.Actor.Mailbox.System.{
  System, Reach, start, later, enqueues, advances, init, enqueue, advance,
}
use bbt_framework.Actor.Mailbox.Safety.{single_consumer, starts_in_order}
use bbt_framework.Actor.Mailbox.Drain.{
  Visit, offers, closes, Drained, drain, count_visits, drain_total,
}
use bbt_framework.Actor.Registry.{
  ActorRegistry, Activation, built, ServiceEntry, Call, registers, gets, empty, get_or_create,
  actor_count, run, step, register_factory,
}
use bbt_framework.Actor.Registry.Invariant.{count_bounded, count_of}
use bbt_framework.Actor.Registry.Once.{activated_once}

abbrev full_box : Mailbox ℕ
full_box = record { queue = 1 ∷ 2 ∷ []; draining = true; is_closed = false; capacity = 2 }

-- Two tasks are accepted and the first starts.
abbrev busy : System ℕ
busy = advance [] [] (enqueue true (some 8) (enqueue true (some 7) (init 3)))

busy-Reach : Reach 3 busy
unfolding init enqueue try_enqueue
busy-Reach =
    later (later (later start (enqueues true (some 7))) (enqueues true (some 8)))
      (advances [] [] refl)

single_consumer_example : (length busy.drains ≤ 1) × (busy.box.queue ≢ [] → length busy.drains ≡ 1)
single_consumer_example = single_consumer busy-Reach

starts_in_order_example :
    (busy.accepted ≡ busy.started ++ busy.box.queue) × (length busy.box.queue ≤ 3)
starts_in_order_example = starts_in_order busy-Reach

-- During the first task there are two offers, and the mailbox is closed between them.
abbrev busy_visits : List (List (Visit ℕ))
busy_visits = (offers 3 ∷ closes ∷ offers 4 ∷ []) ∷ []

drain_total_example :
    (d : Drained ℕ) × (drain true (ltb 1) 6 busy_visits full_box ≡ some d)
    × (d.executed ≡ 1 ∷ 2 ∷ d.accepted)
    × (d.reported ≡ keep (λ t. true && ltb 1 t) d.executed)
    × (d.box.queue ≡ [])
    × (d.box.draining ≡ false)
unfolding count_visits
drain_total_example = drain_total true (ltb 1) 6 busy_visits full_box refl (omega arith)

abbrev make_seven : ℕ → Activation ℕ
make_seven _ = built 7

abbrev make_nine : ℕ → Activation ℕ
make_nine _ = built 9

abbrev history : List (Call ℕ ℕ)
history = registers "room" (some 0) 1 ∷ gets make_seven "room" "a" ∷ gets make_nine "room" "b" ∷ []

count_bounded_example :
    (actor_count "room" (run empty history) ≡ count_of "room" (run empty history).actors)
    × ((e : ServiceEntry ℕ)
        → lookup String_discrete "room" (run empty history).services ≡ some e
        → count_of "room" (run empty history).actors ≤ e.max_actors)
count_bounded_example = count_bounded history "room"

abbrev opened : ActorRegistry ℕ ℕ
opened = run empty (registers "room" (some 0) 1 ∷ [])

abbrev seated : ActorRegistry ℕ ℕ
seated = (get_or_create make_seven "room" "a" opened).0

activated_once_example :
    get_or_create make_nine "room" "a" (run seated history)
    ≡ (run seated history, ok (record { object = 7; actor_key = "a" }))
unfolding run get_or_create empty lookup step register_factory insert String_discrete
activated_once_example =
    activated_once make_seven make_nine "room" "a" opened seated
      (record { object = 7; actor_key = "a" }) history refl
