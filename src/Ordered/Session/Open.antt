-- ===== src/Ordered/Session/Open.antt =====
-- OrderedSession.cc, `OpenImpl` and the destructor: the process-wide registry of live sessions. A
-- session is its instance number; `is_live` says whether its shared pointer is still held.
use bbt_framework.Prelude.{
  ℕ, ◌+◌, ◌≡◌, ◌≢◌, refl, sym, ap, ◌∙◌, ◌⊎◌, Bool, true, false, not, ◌&&◌, List, [], ◌∷◌, ◌++◌, All,
  Option, none, some, keep, map, ◌==◌, Bool-cases, Option-cases, inl, inr, if◌then◌else◌, arith,
}
use bbt_framework.Infra.{Infra, Result, ok, err}
use bbt_framework.Ordered.Types.{OrderedGrant, same_grant, same_ordered_stream_id, stream_rejected}
use bbt_framework.Ordered.Session.{ordered_domain_error}

pub record RegistryEntry : Type 0 where
  pub grant : OrderedGrant
  pub session : ℕ
  pub is_live : Bool

-- `s_registry` and `g_session_instance`
pub record Sessions : Type 0 where
  pub registry : List RegistryEntry
  pub instances : ℕ

module _ ⦃infra : Infra⦄ where
  -- The loop of `OpenImpl`: it drops dead entries up to the one that decides the call.
  unfoldable pub scan : OrderedGrant → List RegistryEntry → List RegistryEntry × Option (Result ℕ)
  scan grant [] = ([], none)
  scan grant (e ∷ es) =
      let rest = scan grant es in
      if e.is_live
      then if same_ordered_stream_id e.grant grant
        then (
          e ∷ es,
          some (
              if same_grant e.grant grant
              then ok e.session
              else err (
                  ordered_domain_error stream_rejected
                    "ordered stream grant conflicts with a live session")),
        )
        else (e ∷ rest.0, rest.1)
      else rest

  -- `OpenImpl`; the new session starts at `first_sequence`.
  unfoldable pub open_impl : OrderedGrant → Sessions → Sessions × Result ℕ
  unfolding scan
  open_impl grant s =
      let (kept, answer) = scan grant s.registry in
      let id = s.instances + 1 in
      elim answer [
        | some r ↦ (record s { registry = kept }, r)
        | none ↦ (
          record {
            registry = kept ++ record { grant = grant; session = id; is_live = true } ∷ [];
            instances = id;
          },
          ok id,
        )
      ]

abbrev pub mark_dead : ℕ → RegistryEntry → RegistryEntry
mark_dead id e = record e { is_live = e.is_live && not (e.session == id) }

-- The last shared pointer of a session goes: its weak pointer is expired.
unfoldable pub expire : ℕ → Sessions → Sessions
expire id s = record s { registry = map (mark_dead id) s.registry }

-- The body of the destructor.
unfoldable pub sweep : Sessions → Sessions
sweep s = record s { registry = keep (λ e. e.is_live) s.registry }

-- For opens by this grant: the first live entry of its stream is the one of session `id`.
abbrev Holds : OrderedGrant → ℕ → List RegistryEntry → Type 0
Holds grant id [] = ⊥
Holds grant id (e ∷ es) =
    ((e.is_live ≡ true) × (same_ordered_stream_id e.grant grant ≡ true) × (e.session ≡ id))
    ⊎ ((e.is_live ≡ true → same_ordered_stream_id e.grant grant ≡ false) × Holds grant id es)

same_stream_trans :
    (a b c : OrderedGrant)
    → same_ordered_stream_id b c ≡ true
    → same_ordered_stream_id a b ≡ same_ordered_stream_id a c
unfolding same_ordered_stream_id
same_stream_trans a b c h = ground arith

same_stream_refl : (g : OrderedGrant) → same_ordered_stream_id g g ≡ true
unfolding same_ordered_stream_id
same_stream_refl g = ground arith

Holds-stream :
    (g h : OrderedGrant) (id : ℕ) (es : List RegistryEntry)
    → same_ordered_stream_id g h ≡ true
    → Holds g id es
    → Holds h id es
Holds-stream g h id [] same absent = absurd absent
Holds-stream g h id (e ∷ es) same (inl (live, own, is)) =
    inl (live, sym (same_stream_trans e.grant g h same) ∙ own, is)
Holds-stream g h id (e ∷ es) same (inr (other, rest)) = inr (
  λ live. sym (same_stream_trans e.grant g h same) ∙ other live,
  Holds-stream g h id es same rest,
)

Holds-append :
    (g : OrderedGrant) (id : ℕ) (es ds : List RegistryEntry) → Holds g id es → Holds g id (es ++ ds)
Holds-append g id [] ds absent = absurd absent
Holds-append g id (e ∷ es) ds (inl h) = inl h
Holds-append g id (e ∷ es) ds (inr (other, rest)) = inr (other, Holds-append g id es ds rest)

Holds-last :
    (g : OrderedGrant) (id : ℕ) (es : List RegistryEntry) (d : RegistryEntry)
    → All (λ e. e.is_live ≡ true → same_ordered_stream_id e.grant g ≡ false) es
    → (d.is_live ≡ true) × (same_ordered_stream_id d.grant g ≡ true) × (d.session ≡ id)
    → Holds g id (es ++ d ∷ [])
Holds-last g id [] d h k = inl k
Holds-last g id (e ∷ es) d h k = inr (h.0, Holds-last g id es d h.1 k)

Holds-expire :
    (g : OrderedGrant) (id other : ℕ) (es : List RegistryEntry)
    → other ≢ id
    → Holds g id es
    → Holds g id (map (mark_dead other) es)
Holds-expire g id other [] ne absent = absurd absent
Holds-expire g id other (e ∷ es) ne (inl (live, own, is)) =
    inl (ground (arith, live, is, ne), own, is)
Holds-expire g id other (e ∷ es) ne (inr (passed, rest)) =
    inr (λ live. passed (ground (arith, live)), Holds-expire g id other es ne rest)

Holds-keep :
    (g : OrderedGrant) (id : ℕ) (es : List RegistryEntry)
    → Holds g id es
    → Holds g id (keep (λ e. e.is_live) es)
Holds-keep g id [] absent = absurd absent
Holds-keep g id (e ∷ es) h = elim (Bool-cases e.is_live) [
  | inl y ↦
      rw (y, keep)
        (elim h [ inl own ↦ inl own | inr (other, rest) ↦ inr (other, Holds-keep g id es rest) ])
  | inr n ↦
      rw (n, keep)
        (elim h [
          | inl own ↦ absurd (ground (arith, own.0, n))
          | inr (other, rest) ↦ Holds-keep g id es rest
        ])
]

pub data Event : Type 0 where
  opens : OrderedGrant → Event
  expires : ℕ → Event
  sweeps : Event

-- The entries that the loop keeps, and its answer, by the cases of the first entry.
module _ ⦃infra : Infra⦄ where
  scan_cases {κ} :
      (P : List RegistryEntry × Option (Result ℕ) → Type κ) (grant : OrderedGrant)
      (e : RegistryEntry) (es : List RegistryEntry)
      → (e.is_live ≡ false → P (scan grant es))
      → ((answer : Result ℕ) → e.is_live ≡ true → P (e ∷ es, some answer))
      → (same_ordered_stream_id e.grant grant ≡ false
          → P (e ∷ (scan grant es).0, (scan grant es).1))
      → P (scan grant (e ∷ es))
  unfolding scan
  scan_cases P grant e es dead found passed = elim (Bool-cases e.is_live) [
    | inr l ↦ simp (l, scan) (dead l)
    | inl l ↦
        simp (l, scan)
          (elim (Bool-cases (same_ordered_stream_id e.grant grant)) [
            | inl m ↦ simp m (found _ l)
            | inr m ↦ simp m (passed m)
          ])
  ]

  Holds-scan :
      (k g : OrderedGrant) (id : ℕ) (es : List RegistryEntry)
      → Holds g id es
      → Holds g id (scan k es).0
  unfolding scan
  Holds-scan k g id [] absent = absurd absent
  Holds-scan k g id (e ∷ es) h =
      scan_cases (λ p. Holds g id p.0) k e es
        (λ dead. elim h [
          | inl own ↦ absurd (ground (arith, own.0, dead))
          | inr (other, rest) ↦ Holds-scan k g id es rest
        ])
        (λ _ _. h)
        (λ _. elim h [
          | inl own ↦ inl own
          | inr (other, rest) ↦ inr (other, Holds-scan k g id es rest)
        ])

  -- With no answer, no live entry has the stream of the grant.
  scan_missed :
      (grant : OrderedGrant) (es : List RegistryEntry)
      → (scan grant es).1 ≡ none
      → All (λ e. e.is_live ≡ true → same_ordered_stream_id e.grant grant ≡ false) (scan grant es).0
  unfolding scan
  scan_missed grant [] h = tt
  scan_missed grant (e ∷ es) h =
      scan_cases
        (λ p.
          p.1 ≡ none
          → All (λ d. d.is_live ≡ true → same_ordered_stream_id d.grant grant ≡ false) p.0)
        grant e es (λ _. scan_missed grant es) (λ _ _ k. cc)
        (λ m k. (λ _. m, scan_missed grant es k)) h

  -- The answer where the stream has its session.
  abbrev IsHolder : OrderedGrant → ℕ → Option (Result ℕ) → Type 0
  IsHolder grant id answer =
      (answer ≡ some (ok id))
      ⊎ (answer
          ≡ some (
              err (
                ordered_domain_error stream_rejected
                  "ordered stream grant conflicts with a live session")))

  scan_held :
      (g : OrderedGrant) (id : ℕ) (es : List RegistryEntry)
      → Holds g id es
      → IsHolder g id (scan g es).1
  unfolding scan
  scan_held g id [] absent = absurd absent
  scan_held g id (e ∷ es) (inl (live, own, is)) = elim (Bool-cases (same_grant e.grant g)) [
    | inl y ↦ inl (ground (arith, live, own, is, y))
    | inr n ↦ inr (ground (arith, live, own, is, n))
  ]
  scan_held g id (e ∷ es) (inr (other, rest)) = elim (Bool-cases e.is_live) [
    | inl y ↦ let passed = other y in rw (y, passed) (scan_held g id es rest)
    | inr n ↦ rw n (scan_held g id es rest)
  ]

  -- The session that an answer names is the first one of its stream.
  scan_found :
      (g : OrderedGrant) (id : ℕ) (es : List RegistryEntry)
      → (scan g es).1 ≡ some (ok id)
      → Holds g id (scan g es).0
  unfolding scan
  scan_found g id [] h = absurd (ground arith)
  scan_found g id (e ∷ es) h = elim (Bool-cases e.is_live) [
    | inr n ↦ simp (n, scan) (scan_found g id es (ground (arith, h, n)))
    | inl y ↦ elim (Bool-cases (same_ordered_stream_id e.grant g)) [
      | inl m ↦ simp (y, m, scan) (inl (refl, refl, ground (arith, h, y, m)))
      | inr m ↦ simp (y, m, scan) (inr (λ _. refl, scan_found g id es (ground (arith, h, y, m))))
    ]
  ]

  open_impl-Holds :
      (k g : OrderedGrant) (id : ℕ) (s : Sessions)
      → Holds g id s.registry
      → Holds g id (open_impl k s).0.registry
  unfolding open_impl
  open_impl-Holds k g id s h = elim (Option-cases (scan k s.registry).1) [
    | inr (r, e) ↦ rw (e, open_impl) (Holds-scan k g id s.registry h)
    | inl e ↦
        rw (e, open_impl)
          (Holds-append g id (scan k s.registry).0 _ (Holds-scan k g id s.registry h))
  ]

  opened-Holds :
      (g : OrderedGrant) (id : ℕ) (s : Sessions)
      → (open_impl g s).1 ≡ ok id
      → Holds g id (open_impl g s).0.registry
  unfolding open_impl
  opened-Holds g id s h = elim (Option-cases (scan g s.registry).1) [
    | inr (r, e) ↦
        let same : r ≡ ok id = ground (arith, e, h) in
        rw (e, open_impl) (scan_found g id s.registry (e ∙ ap some same))
    | inl e ↦
        rw (e, open_impl)
          (Holds-last g id (scan g s.registry).0 _ (scan_missed g s.registry e)
            (refl, same_stream_refl g, ground (arith, e, h)))
  ]

  unfoldable pub step : Sessions → Event → Sessions
  step s (opens grant) = (open_impl grant s).0
  step s (expires id) = expire id s
  step s sweeps = sweep s

  unfoldable pub run : Sessions → List Event → Sessions
  unfolding step
  run s [] = s
  run s (e ∷ es) = run (step s e) es

  -- The session is not ended in these events.
  abbrev pub Endures : ℕ → List Event → Type 0
  Endures id [] = Unit {0}
  Endures id (opens grant ∷ es) = Endures id es
  Endures id (expires other ∷ es) = (other ≢ id) × Endures id es
  Endures id (sweeps ∷ es) = Endures id es

  run-Holds :
      (g : OrderedGrant) (id : ℕ) (s : Sessions) (es : List Event)
      → Endures id es
      → Holds g id s.registry
      → Holds g id (run s es).registry
  unfolding run step expire sweep
  run-Holds g id s [] live h = h
  run-Holds g id s (opens k ∷ es) live h =
      run-Holds g id (step s (opens k)) es live (open_impl-Holds k g id s h)
  run-Holds g id s (expires other ∷ es) live h =
      run-Holds g id (step s (expires other)) es live.1
        (Holds-expire g id other s.registry live.0 h)
  run-Holds g id s (sweeps ∷ es) live h =
      run-Holds g id (step s sweeps) es live (Holds-keep g id s.registry h)

  -- An open hands out a session. As long as that session is not ended, whatever opens of this or other
  -- streams, ends of other sessions and sweeps come in between, an open of the same stream hands out
  -- this session again or is refused with a conflict; it never makes a second session of the stream.
  pub one_live_session :
      (s : Sessions) (es : List Event) (g h : OrderedGrant) (id : ℕ)
      → (open_impl g s).1 ≡ ok id
      → Endures id es
      → same_ordered_stream_id g h ≡ true
      → ((open_impl h (run (open_impl g s).0 es)).1 ≡ ok id)
        ⊎ ((open_impl h (run (open_impl g s).0 es)).1
            ≡ err (
                ordered_domain_error stream_rejected
                  "ordered stream grant conflicts with a live session"))
  unfolding open_impl
  one_live_session s es g h id opened live same =
      let held =
        Holds-stream g h id (run (open_impl g s).0 es).registry same
          (run-Holds g id (open_impl g s).0 es live (opened-Holds g id s opened)) in
      elim (scan_held h id (run (open_impl g s).0 es).registry held) [
        | inl e ↦ inl (ground (arith, e))
        | inr e ↦ inr (ground (arith, e))
      ]
