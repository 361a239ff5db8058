-- ===== src/Ordered/Ingress/Cache.antt =====
-- OrderedIngress.cc: removal from the service's cache of terminal replies, and its eviction.
-- `_EvictToLimits` passes `_RemoveCached` a reference to the front of `cached_order_`, which
-- `_RemoveCached` destroys before its last use of the key. So the key has two readings here: `key`
-- before the erasure and `stale` after it.
use bbt_framework.Prelude.{
  ℕ, zero, suc, Bool, ◌||◌, List, [], ◌∷◌, none, some, ite, map, ℕ_discrete, lookup, insert, erase,
  Dict, length, ltb, sub64, if◌then◌else◌,
}
use bbt_framework.Ordered.Ingress.{
  StreamKey, StreamKey_discrete, CachedKey, CachedKey_discrete, StreamState, OrderedIngress,
}

-- The loop over `cached_order_`: erase the first equal key.
unfoldable pub remove_first : CachedKey → List CachedKey → List CachedKey
remove_first k [] = []
remove_first k (x ∷ xs) = ite (CachedKey_discrete x k) xs (x ∷ remove_first k xs)

unfoldable pub forget_seq : CachedKey → Dict StreamKey StreamState → Dict StreamKey StreamState
forget_seq key streams = elim (lookup StreamKey_discrete key.stream streams) [
  | none ↦ streams
  | some st ↦
      insert StreamKey_discrete key.stream
        (record st { cached_seqs = erase ℕ_discrete key.sequence st.cached_seqs }) streams
]

-- `_RemoveCached`
unfoldable pub remove_cached : CachedKey → CachedKey → OrderedIngress → OrderedIngress
remove_cached key stale s = elim (lookup CachedKey_discrete key s.cached) [
  | none ↦ s
  | some c ↦ record s {
    cached_bytes = sub64 s.cached_bytes c.bytes;
    cached = erase CachedKey_discrete key s.cached;
    cached_order = remove_first key s.cached_order;
    streams = forget_seq stale s.streams;
  }
]

abbrev pub keys {ℓ} : {K V : Type ℓ} → Dict K V → List K
keys = map (λ e. e.0)

unfoldable pub remove_all : StreamKey → List ℕ → OrderedIngress → OrderedIngress
remove_all key [] s = s
remove_all key (q ∷ qs) s =
    let k : CachedKey = record { stream = key; sequence = q } in
    remove_all key qs (remove_cached k k s)

-- `_DropStreamCache`: here the key is a temporary, which stays alive.
unfoldable pub drop_stream_cache : StreamKey → OrderedIngress → OrderedIngress
unfolding remove_all
drop_stream_cache key s = elim (lookup StreamKey_discrete key s.streams) [
  | none ↦ s
  | some st ↦ remove_all key (keys st.cached_seqs) s
]

unfoldable pub over_limits : OrderedIngress → Bool
over_limits s =
    ltb s.config.max_cached_results (length s.cached)
    || ltb s.config.max_cached_result_bytes s.cached_bytes

-- `_EvictToLimits`, on fuel: each round drops the front of `cached_order`.
unfoldable pub evict : (CachedKey → CachedKey) → ℕ → OrderedIngress → OrderedIngress
evict stale zero s = s
evict stale (suc fuel) s = elim s.cached_order [
  | [] ↦ s
  | k ∷ _ ↦
      let again = evict stale fuel (remove_cached k (stale k) s) in
      if over_limits s then again else s
]

unfoldable pub evict_to_limits : (CachedKey → CachedKey) → OrderedIngress → OrderedIngress
unfolding evict
evict_to_limits stale s = evict stale (suc (length s.cached_order)) s
