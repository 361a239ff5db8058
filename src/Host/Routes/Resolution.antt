-- ===== src/Host/Routes/Resolution.antt =====
-- What the route table answers after a publication (DynamicRouteTable.cc, `Replace` and `Resolve`).
use bbt_framework.Prelude.{
  ℕ, zero, suc, ◌+◌, ◌-◌, ◌%◌, ◌≤◌, ◌<◌, ◌≡◌, refl, ap, ◌∙◌, true, false, ◌||◌, List, [], ◌∷◌, ◌++◌,
  some, String, String_discrete, lookup, lookup-insert_self, length, get_elem?, get_elem?_total,
  u64_max, if◌then◌else◌, arith, if_both,
}
use bbt_framework.Infra.{Infra, ok}
use bbt_framework.Host.Routes.{
  RpcAddress, same_endpoint, Entry, DynamicRouteTable, contains, add_unseen, same_view, old_next,
  old_endpoints, replace, take_next, resolve,
}

-- No endpoint stands twice.
abbrev pub IsDistinct : List RpcAddress → Type 0
IsDistinct [] = Unit
IsDistinct (a ∷ rest) = (contains a rest ≡ false) × IsDistinct rest

contains-append :
    (a b : RpcAddress) (xs : List RpcAddress)
    → contains a (xs ++ b ∷ []) ≡ (contains a xs || same_endpoint b a)
unfolding contains
contains-append a b [] = ground arith
contains-append a b (x ∷ xs) = ground (arith, contains-append a b xs)

same_endpoint_sym : (a b : RpcAddress) → same_endpoint a b ≡ same_endpoint b a
unfolding same_endpoint
same_endpoint_sym a b = ground arith

IsDistinct-append :
    (xs : List RpcAddress) (a : RpcAddress)
    → contains a xs ≡ false
    → IsDistinct xs
    → IsDistinct (xs ++ a ∷ [])
unfolding contains
IsDistinct-append [] a h d = (refl, tt)
IsDistinct-append (x ∷ xs) a h d = (
  ground (arith, contains-append x a xs, same_endpoint_sym x a, d.0),
  IsDistinct-append xs a (ground arith) d.1,
)

add_unseen-IsDistinct :
    (xs known : List RpcAddress) → IsDistinct known → IsDistinct (add_unseen known xs)
unfolding add_unseen
add_unseen-IsDistinct [] known d = d
add_unseen-IsDistinct (a ∷ xs) known d = add_unseen-IsDistinct xs _ (
    if_both IsDistinct (contains a known) known (known ++ a ∷ []) (λ _. d)
      (λ e. IsDistinct-append known a e d))

contains-same :
    (a b : RpcAddress) (xs : List RpcAddress)
    → same_endpoint a b ≡ true
    → contains b xs ≡ contains a xs
unfolding contains same_endpoint
contains-same a b [] h = refl
contains-same a b (x ∷ xs) h = ground (arith, contains-same a b xs)

contains-add_unseen :
    (b : RpcAddress) (xs known : List RpcAddress)
    → contains b (add_unseen known xs) ≡ (contains b known || contains b xs)
unfolding add_unseen contains
contains-add_unseen b [] known = ground arith
contains-add_unseen b (a ∷ xs) known = ground (
  arith,
  contains-add_unseen b xs known,
  contains-add_unseen b xs (known ++ a ∷ []),
  contains-append b a known,
  contains-same a b known,
)

module _ ⦃infra : Infra⦄ where
  -- A publication that is accepted makes the service available from now on, under endpoints that are
  -- those given, each once.
  replace_publishes :
      (now : ℕ) (service : String) (revision : ℕ) (xs : List RpcAddress) (t t' : DynamicRouteTable)
      → replace now service revision xs t ≡ (t', ok tt)
      → (e : Entry) × (lookup String_discrete service t'.entries ≡ some e)
        × (e.unavailable ≡ false)
        × (e.observed_at ≡ now)
        × IsDistinct e.endpoints
        × ((a : RpcAddress) → contains a e.endpoints ≡ contains a xs)
  unfolding replace contains
  replace_publishes now service revision xs t t' h =
      let fresh : Entry = record {
        revision = revision;
        observed_at = now;
        endpoints = add_unseen [] xs;
        next =
            if same_view (old_endpoints (lookup String_discrete service t.entries))
              (add_unseen [] xs)
            then old_next (lookup String_discrete service t.entries)
            else 0;
        unavailable = false;
      } in
      (
        fresh,
        ground (arith, lookup-insert_self String_discrete service fresh t.entries),
        refl,
        refl,
        add_unseen-IsDistinct xs [] tt,
        λ a. contains-add_unseen a xs [],
      )

  -- `n` resolutions of a service, one after the other.
  unfoldable pub resolves : ℕ → ℕ → String → DynamicRouteTable → DynamicRouteTable
  resolves zero now service t = t
  resolves (suc n) now service t = resolves n now service (resolve now service t).0

  resolve_serves :
      (now : ℕ) (service : String) (t : DynamicRouteTable) (e : Entry)
      → lookup String_discrete service t.entries ≡ some e
      → e.unavailable ≡ false
      → 0 < length e.endpoints
      → now - e.observed_at ≤ t.stale_limit
      → e.next < u64_max
      → (a : RpcAddress) × (get_elem? e.endpoints (e.next % length e.endpoints) ≡ some a)
        × ((resolve now service t).1 ≡ ok a)
        × (lookup String_discrete service (resolve now service t).0.entries
            ≡ some (record e { next = e.next + 1 }))
        × ((resolve now service t).0.stale_limit ≡ t.stale_limit)
  unfolding resolve take_next
  resolve_serves now service t e f u l s m =
      let (a, q) = get_elem?_total e.endpoints (e.next % length e.endpoints) (omega arith) in
      (
        a,
        q,
        ground arith,
        ground (
          arith,
          lookup-insert_self String_discrete service (record e { next = e.next + 1 }) t.entries,
        ),
        ground arith,
      )

  -- While the view of a service is fresh and not withdrawn, the resolutions go round its endpoints:
  -- the one after `n` others answers with the endpoint that stands `n` places after the cursor,
  -- counted round the list, as long as the 64-bit cursor does not run out.
  pub round_robin :
      (n now : ℕ) (service : String) (t : DynamicRouteTable) (e : Entry)
      → lookup String_discrete service t.entries ≡ some e
      → e.unavailable ≡ false
      → 0 < length e.endpoints
      → now - e.observed_at ≤ t.stale_limit
      → e.next + n < u64_max
      → (a : RpcAddress) × (get_elem? e.endpoints ((e.next + n) % length e.endpoints) ≡ some a)
        × ((resolve now service (resolves n now service t)).1 ≡ ok a)
  unfolding resolves
  round_robin zero now service t e f u l s m =
      let (a, q, r, _, _) = resolve_serves now service t e f u l s (omega arith) in
      let here : e.next + 0 ≡ e.next = omega arith in
      (a, ap (λ i. get_elem? e.endpoints (i % length e.endpoints)) here ∙ q, r)
  round_robin (suc n) now service t e f u l s m =
      let (a, q, r, g, k) = resolve_serves now service t e f u l s (omega arith) in
      let (b, q', r') =
        round_robin n now service (resolve now service t).0 (record e { next = e.next + 1 }) g u l
          (omega arith) (omega arith) in
      let there : e.next + suc n ≡ e.next + 1 + n = omega arith in
      (b, ap (λ i. get_elem? e.endpoints (i % length e.endpoints)) there ∙ q', r')
