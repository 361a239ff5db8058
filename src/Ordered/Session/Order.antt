-- ===== src/Ordered/Session/Order.antt =====
-- The order of a session's sequences and of its first sends (OrderedSession.cc).
use bbt_framework.Prelude.{
  ℕ, ◌+◌, ◌≤◌, ◌<◌, ◌≡◌, List, [], ◌∷◌, Option, none, some, u64_max, if◌then◌else◌, arith,
}
use bbt_framework.Infra.{Infra, ok}
use bbt_framework.Ordered.Types.{BoundContent}
use bbt_framework.Ordered.Session.{OrderedSession, OrderedStamp, prepare, bind_for_send}

pub data Call : Type 0 where
  prepares : Call
  binds : Option OrderedStamp → BoundContent → Call

module _ ⦃infra : Infra⦄ where
  unfoldable pub step : OrderedSession → Call → OrderedSession
  step s prepares = (prepare s).0
  step s (binds stamp content) = (bind_for_send stamp content s).0

  unfoldable pub run : OrderedSession → List Call → OrderedSession
  unfolding step
  run s [] = s
  run s (c ∷ cs) = run (step s c) cs

  -- The sequence that is issued next, counted past the end where the space is exhausted.
  abbrev frontier : OrderedSession → ℕ
  frontier s = if s.exhausted then u64_max + 1 else s.next_sequence

  frontier-step :
      (s : OrderedSession) (c : Call)
      → s.next_sequence ≤ u64_max
      → ((step s c).next_sequence ≤ u64_max) × (frontier s ≤ frontier (step s c))
  unfolding step prepare bind_for_send
  frontier-step s prepares h = ground arith
  frontier-step s (binds none content) h = ground arith
  frontier-step s (binds (some stamp) content) h = ground arith

  frontier-run :
      (s : OrderedSession) (cs : List Call)
      → s.next_sequence ≤ u64_max
      → ((run s cs).next_sequence ≤ u64_max) × (frontier s ≤ frontier (run s cs))
  unfolding run
  frontier-run s [] h = (h, omega arith)
  frontier-run s (c ∷ cs) h =
      let (bound, up) = frontier-step s c h in
      let (bound', up') = frontier-run (step s c) cs bound in (bound', omega arith)

  -- Within the 64-bit range, what `prepare` issues after another `prepare` bears a larger sequence,
  -- whatever was prepared and sent in between: a sequence is never issued twice and never wraps.
  pub prepare_increases :
      (s s' t : OrderedSession) (a b : OrderedStamp) (cs : List Call)
      → s.next_sequence ≤ u64_max
      → prepare s ≡ (s', ok a)
      → prepare (run s' cs) ≡ (t, ok b)
      → a.sequence < b.sequence
  unfolding prepare
  prepare_increases s s' t a b cs h p q =
      let after : (s'.next_sequence ≤ u64_max) × (a.sequence < frontier s') = ground arith in
      let later = frontier-run s' cs after.0 in ground (arith, later)
