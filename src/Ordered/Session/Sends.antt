-- ===== src/Ordered/Session/Sends.antt =====
-- First sends happen in the order of the sequences (OrderedSession.cc, `BindForSend`).
use bbt_framework.Prelude.{
  ℕ, zero, suc, ◌+◌, ◌≤◌, ◌<◌, ◌≡◌, ◌⊎◌, refl, Bool, true, false, not, ◌&&◌, List, [], ◌∷◌, ◌++◌,
  none, some, String, String_discrete, lookup, lookup-insert, emplace, ◌==◌, add64, u64_max, length,
  if◌then◌else◌, arith, Option-cases, Bool-cases, inl, inr,
}
use bbt_framework.Infra.{Infra}
use bbt_framework.Ordered.Types.{OrderedGrant, OrderedTicket, BoundContent, bind_or_check}
use bbt_framework.Ordered.Session.{
  OrderedSession, OrderedStamp, new_session, make_request_id, new_ticket, is_issued, prepare,
  bind_for_send, is_ticket_sent,
}
use bbt_framework.Ordered.Session.Order.{Call, prepares, binds, step, run}

-- Each ticket is filed under its own request id.
abbrev pub IsFiled : OrderedSession → Type 0
IsFiled s =
    (id : String) (t : OrderedTicket)
    → lookup String_discrete id s.tickets ≡ some t
    → t.request_id ≡ id

-- The sequences from one number on.
abbrev pub iota : ℕ → ℕ → List ℕ
iota n zero = []
iota n (suc k) = n ∷ iota (suc n) k

module _ ⦃infra : Infra⦄ where
  -- The ticket that a call sends for the first time: it was unsent before, and is sent after.
  unfoldable pub first_sent : OrderedSession → Call → List ℕ
  first_sent s prepares = []
  first_sent s (binds none content) = []
  first_sent s (binds (some stamp) content) =
      if is_ticket_sent (some stamp) s
      then []
      else if is_ticket_sent (some stamp) (bind_for_send (some stamp) content s).0
      then stamp.sequence ∷ []
      else []

  unfoldable pub first_sends : OrderedSession → List Call → List ℕ
  unfolding first_sent
  first_sends s [] = []
  first_sends s (c ∷ cs) = first_sent s c ++ first_sends (step s c) cs

  step-IsFiled : (s : OrderedSession) (c : Call) → IsFiled s → IsFiled (step s c)
  unfolding step prepare bind_for_send emplace bind_or_check
  step-IsFiled s prepares f = λ id t. ground (
    arith,
    f id t,
    lookup-insert String_discrete (make_request_id s s.next_sequence) id
        (new_ticket s.next_sequence (make_request_id s s.next_sequence)) s.tickets,
  )
  step-IsFiled s (binds none content) f = f
  step-IsFiled s (binds (some stamp) content) f =
      elim (Option-cases (lookup String_discrete stamp.request_id s.tickets)) [
        | inl e ↦ λ id u. ground (arith, f id u)
        | inr (t, e) ↦ λ id u. ground (
          arith,
          f id u,
          f id t,
          lookup-insert String_discrete t.request_id id (bind_or_check content t).0 s.tickets,
        )
      ]

  -- The ticket that this stamp sends first now: its own, unsent, and next in order.
  abbrev is_next : OrderedSession → OrderedStamp → OrderedTicket → Bool
  is_next s stamp t = not t.bound && (is_issued s stamp t && t.sequence == add64 s.bind_watermark 1)

  abbrev SendsNext : OrderedSession → Call → Type 0
  SendsNext s c =
      (first_sent s c ≡ suc s.bind_watermark ∷ [])
      × ((step s c).bind_watermark ≡ suc s.bind_watermark)

  abbrev SendsNone : OrderedSession → Call → Type 0
  SendsNone s c = (first_sent s c ≡ []) × ((step s c).bind_watermark ≡ s.bind_watermark)

  bind-SendsNext :
      (s : OrderedSession) (stamp : OrderedStamp) (content : BoundContent) (t : OrderedTicket)
      → lookup String_discrete stamp.request_id s.tickets ≡ some t
      → t.request_id ≡ stamp.request_id
      → s.bind_watermark < u64_max
      → is_next s stamp t ≡ true
      → SendsNext s (binds (some stamp) content)
  unfolding first_sent step is_ticket_sent bind_for_send bind_or_check
  bind-SendsNext s stamp content t e id h n = ground (
    arith,
    lookup-insert String_discrete t.request_id stamp.request_id (bind_or_check content t).0
        s.tickets,
  )

  bind-SendsNone :
      (s : OrderedSession) (stamp : OrderedStamp) (content : BoundContent) (t : OrderedTicket)
      → lookup String_discrete stamp.request_id s.tickets ≡ some t
      → is_next s stamp t ≡ false
      → SendsNone s (binds (some stamp) content)
  unfolding first_sent step is_ticket_sent bind_for_send
  bind-SendsNone s stamp content t e n = ground arith

  -- A call sends the ticket next in order for the first time, or none.
  first_sent-step :
      (s : OrderedSession) (c : Call)
      → IsFiled s
      → s.bind_watermark < u64_max
      → SendsNone s c ⊎ SendsNext s c
  unfolding first_sent step prepare is_ticket_sent bind_for_send
  first_sent-step s prepares f h = inl (refl, ground arith)
  first_sent-step s (binds none content) f h = inl (refl, ground arith)
  first_sent-step s (binds (some stamp) content) f h =
      elim (Option-cases (lookup String_discrete stamp.request_id s.tickets)) [
        | inl e ↦ inl (ground arith, ground arith)
        | inr (t, e) ↦ elim (Bool-cases (is_next s stamp t)) [
          | inl y ↦ inr (bind-SendsNext s stamp content t e (f stamp.request_id t e) h y)
          | inr n ↦ inl (bind-SendsNone s stamp content t e n)
        ]
      ]

  first_sends_from :
      (s : OrderedSession) (cs : List Call)
      → IsFiled s
      → s.bind_watermark + length cs ≤ u64_max
      → (n : ℕ) × (first_sends s cs ≡ iota (suc s.bind_watermark) n)
        × ((run s cs).bind_watermark ≡ s.bind_watermark + n)
  unfolding first_sends run
  first_sends_from s [] f h = (0, refl, omega arith)
  first_sends_from s (c ∷ cs) f h = elim (first_sent-step s c f (omega arith)) [
    | inl (e, w) ↦
        let (n, log, mark) = first_sends_from (step s c) cs (step-IsFiled s c f) (omega arith) in
        (n, ground arith, omega arith)
    | inr (e, w) ↦
        let (n, log, mark) = first_sends_from (step s c) cs (step-IsFiled s c f) (omega arith) in
        (suc n, ground arith, omega arith)
  ]

  -- From the opening of a session, whatever is prepared and sent in whatever order, the tickets that
  -- are sent for the first time bear the sequences 1, 2, 3 and so on, and the watermark counts them.
  pub first_sends_in_order :
      (grant : OrderedGrant) (first id : ℕ) (cs : List Call)
      → length cs ≤ u64_max
      → (n : ℕ) × (first_sends (new_session grant first id) cs ≡ iota 1 n)
        × ((run (new_session grant first id) cs).bind_watermark ≡ n)
  unfolding new_session lookup
  first_sends_in_order grant first id cs h =
      let (n, log, mark) =
        first_sends_from (new_session grant first id) cs (λ i t e. cc) (omega arith) in
      (n, log, omega arith)
