-- ===== src/Cache/Refinement.antt =====
-- `DNSCache` as a map of records: what its writes mean when its buckets, its heap, its expiry table
-- and its service index are forgotten.
use lscamoflash.Prelude.Dict.{Dict}
use lscamoflash.Cache.Lookup.{find_in}
use lscamoflash.Cache.Coherent.{
  IsCoherent, async_add-IsCoherent, async_get_unique-async_add, server_has,
}
use lscamoflash.Dns.{Record, record_eq, set_created_ttl}
use lscamoflash.Cache.Removal.{async_remove-IsCoherent, async_remove_missing}
use lscamoflash.Prelude.{
  ℕ, List, Option, Option-cases, Text, [], if◌then◌else◌, inl, inr, none, refl, some, ◌∙◌, ◌∷◌, ◌≡◌,
}
use lscamoflash.Prelude.Dict
use lscamoflash.Cache.{
  DnsCache, async_add, async_get_unique, async_remove, async_set_created_ttl, when_of, ◌>>=◌,
}

-- What a lookup of each record finds
abbrev pub RecordMap : Type 0
RecordMap = Record → Option Record

pub data CacheWrite : Type 0 where
  adds : Record → CacheWrite
  removes : Record → CacheWrite
  resets : Record → ℕ → ℕ → CacheWrite

unfoldable pub write_cache : CacheWrite → DnsCache → Option DnsCache
unfolding async_add async_remove async_set_created_ttl
write_cache (adds r) c = some (async_add r c).0
write_cache (removes r) c = async_remove r c
write_cache (resets r now ttl) c = some (async_set_created_ttl r now ttl c)

unfoldable pub write_caches : List CacheWrite → DnsCache → Option DnsCache
unfolding write_cache
write_caches [] c = some c
write_caches (w ∷ ws) c = write_cache w c >>= write_caches ws

-- The same on a map: a record replaces its equal, and only one that is there can be removed.
unfoldable pub set_record : Record → RecordMap → RecordMap
set_record r m q = if record_eq r q then some r else m q

unfoldable pub unset_record : Record → RecordMap → RecordMap
unset_record r m q = if record_eq r q then none else m q

unfoldable pub write_map : CacheWrite → RecordMap → Option RecordMap
unfolding set_record unset_record
write_map (adds r) m = some (set_record r m)
write_map (removes r) m = elim (m r) [ none ↦ none | some old ↦ some (unset_record r m) ]
write_map (resets r now ttl) m = some (set_record (set_created_ttl r now ttl) m)

unfoldable pub write_maps : List CacheWrite → RecordMap → Option RecordMap
unfolding write_map
write_maps [] m = some m
write_maps (w ∷ ws) m = write_map w m >>= write_maps ws

-- Every lookup of a cache reads a map: of a record, of its expiry time, and of a service record by
-- its server.
pub record Implements (c : DnsCache) (m : RecordMap) : Type 0 where
  pub coherent : IsCoherent c
  pub finds : (q : Record) → async_get_unique q c ≡ m q
  pub expires :
      (q : Record)
      → Dict.get record_eq q c.expirations ≡ elim (m q) [ none ↦ none | some r ↦ some (when_of r) ]
  pub serves :
      (k : Text) (q : Record)
      → find_in k q c.service_cache ≡ (if server_has k q.rdata then m q else none)

-- Both end in a KeyError, or neither does and the cache implements the map.
pub data Refines : Option DnsCache → Option RecordMap → Type 0 where
  both_fail : Refines none none
  both_work : {c : DnsCache} {m : RecordMap} → Implements c m → Refines (some c) (some m)

implements :
    (c : DnsCache) (m : RecordMap)
    → IsCoherent c
    → ((q : Record) → async_get_unique q c ≡ m q)
    → Implements c m
implements c m v f = record {
  coherent = v;
  finds = f;
  expires = λ q. rw (v.expirations_match q, f q) refl;
  serves = λ k q. rw (v.services_match k q, f q) refl;
}

async_add-Implements :
    (r : Record) (c : DnsCache) (m : RecordMap)
    → Implements c m
    → Implements (async_add r c).0 (set_record r m)
unfolding set_record
async_add-Implements r c m v =
    implements (async_add r c).0 (set_record r m) (async_add-IsCoherent r c v.coherent)
      (λ q. rw (async_get_unique-async_add r q c, v.finds q) refl)

write_map-removes :
    (r old : Record) (m : RecordMap)
    → m r ≡ some old
    → write_map (removes r) m ≡ some (unset_record r m)
unfolding write_map
write_map-removes r old m e = rw (write_map, e) refl

async_remove_cached-Refines :
    (r old : Record) (c : DnsCache) (m : RecordMap)
    → Implements c m
    → async_get_unique r c ≡ some old
    → m r ≡ some old
    → Refines (async_remove r c) (write_map (removes r) m)
unfolding unset_record
async_remove_cached-Refines r old c m v h e =
    let (c', f, v', gone) = async_remove-IsCoherent r old c v.coherent h in
    rw (f, write_map-removes r old m e)
      (both_work (implements c' (unset_record r m) v' (λ q. rw (gone q, v.finds q) refl)))

async_remove-Refines :
    (r : Record) (c : DnsCache) (m : RecordMap)
    → Implements c m
    → Refines (async_remove r c) (write_map (removes r) m)
unfolding write_map
async_remove-Refines r c m v = elim (Option-cases (m r)) [
  | inl e ↦ rw (async_remove_missing r c (v.finds r ∙ e), write_map, e) both_fail
  | inr (old, e) ↦ async_remove_cached-Refines r old c m v (v.finds r ∙ e) e
]

write_cache-Refines :
    (w : CacheWrite) (c : DnsCache) (m : RecordMap)
    → Implements c m
    → Refines (write_cache w c) (write_map w m)
unfolding write_cache
write_cache-Refines (adds r) c m v = unfold write_map in both_work (async_add-Implements r c m v)
write_cache-Refines (removes r) c m v = async_remove-Refines r c m v
write_cache-Refines (resets r now ttl) c m v =
    unfold write_map async_set_created_ttl in
    both_work (async_add-Implements (set_created_ttl r now ttl) c m v)

-- The later writes, of both
Refines-bind :
    (f : DnsCache → Option DnsCache) (g : RecordMap → Option RecordMap) (o : Option DnsCache)
    (p : Option RecordMap)
    → Refines o p
    → ((c : DnsCache) (m : RecordMap) → Implements c m → Refines (f c) (g m))
    → Refines (o >>= f) (p >>= g)
Refines-bind f g none none both_fail k = both_fail
Refines-bind f g (some c) (some m) (both_work v) k = k c m v
Refines-bind f g none (some m) r k = elim r [ ]
Refines-bind f g (some c) none r k = elim r [ ]

-- Any sequence of writes to a cache that implements a map has the outcome of the same writes to
-- the map: both end in a KeyError, or the cache that is left implements the map that is left, in
-- its lookups of records, of expiry times and of services.
pub write_caches-Refines :
    (ws : List CacheWrite) (c : DnsCache) (m : RecordMap)
    → Implements c m
    → Refines (write_caches ws c) (write_maps ws m)
unfolding write_caches write_maps
write_caches-Refines [] c m v = both_work v
write_caches-Refines (w ∷ ws) c m v =
    Refines-bind (write_caches ws) (write_maps ws) (write_cache w c) (write_map w m)
      (write_cache-Refines w c m v) (write_caches-Refines ws)
