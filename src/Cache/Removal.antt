-- ===== src/Cache/Removal.antt =====
-- `_async_remove` and `async_remove_records` on a coherent cache.
use lscamoflash.Dns.Equality.{record_eq_iff}
use lscamoflash.Prelude.{
  true, false, ◌&&◌, none, some, List, [], ◌∷◌, Text, text_eq_iff, ◌≡◌, refl, arith, ◌∙◌, sym,
  if◌then◌else◌, Option-cases, inl, inr, any_of, All,
}
use lscamoflash.Prelude.Dict
use lscamoflash.Prelude.Dict.{Dict}
use lscamoflash.Dns.{Record, RData, service, record_eq}
use lscamoflash.Cache.{
  Store, DnsCache, async_get_unique, async_remove, remove_service, async_remove_records,
}
use lscamoflash.Cache.Lookup.{
  find_in, remove_key-find_in, remove_key_missing, get-delete_record, record_eq-key,
}
use lscamoflash.Cache.Coherent.{server_has, record_eq-server_has, IsCoherent, IsIndexed}

-- The record as it is cached, or nothing.
get_unique-find_in : (q : Record) (c : DnsCache) → async_get_unique q c ≡ find_in q.key q c.cache
unfolding async_get_unique find_in
get_unique-find_in q c = refl

-- The service index loses the record under its server key, and any other record loses nothing.
remove_service-find_in :
    (r old : Record) (x : RData) (m : Dict Text Store)
    → ((k : Text) → server_has k x ≡ true → find_in k r m ≡ some old)
    → (m' : Dict Text Store) × (remove_service r x m ≡ some m')
      × ((j : Text) (q : Record)
          → find_in j q m' ≡ (if server_has j x && record_eq r q then none else find_in j q m))
unfolding remove_service server_has
remove_service-find_in r old (service p w o s key) m h =
    remove_key-find_in key r old m (h key ((text_eq_iff key key).1 refl))
remove_service-find_in r old _ m h = (m, refl, λ j q. refl)

-- `_async_remove` of a cached record succeeds, takes that record alone out, and keeps the
-- indexes.
pub async_remove_lem :
    (r old : Record) (c : DnsCache)
    → IsIndexed c
    → async_get_unique r c ≡ some old
    → (c' : DnsCache) × (async_remove r c ≡ some c')
      × IsIndexed c'
      × ((q : Record)
          → async_get_unique q c' ≡ (if record_eq r q then none else async_get_unique q c))
      × (c'.expire_heap ≡ c.expire_heap)
unfolding async_remove
async_remove_lem r old c v h =
    let (services, es, fs) =
      remove_service-find_in r old r.rdata c.service_cache (λ k e. v.services_match k r ∙ rw e h) in
    let (buckets, eb, fb) =
      remove_key-find_in r.key r old c.cache (sym (get_unique-find_in r c) ∙ h) in
    let c' : DnsCache = record c {
      cache = buckets;
      expirations = Dict.delete record_eq r c.expirations;
      service_cache = services;
    } in
    let gone : (q : Record)
        → async_get_unique q c' ≡ (if record_eq r q then none else async_get_unique q c) =
      λ q.
        get_unique-find_in q c'
        ∙ fb q.key q
        ∙ ground (arith, text_eq_iff r.key q.key, record_eq-key r q, get_unique-find_in q c) in
    (
      c',
      rw (es, eb),
      record {
        expirations_match =
            λ q. ground (arith, gone q, get-delete_record r q c.expirations, v.expirations_match q);
        services_match =
            λ k q. ground (arith, gone q, fs k q, v.services_match k q, record_eq-server_has k r q);
      },
      gone,
      refl,
    )

-- `_async_remove` of a record that is not cached is a KeyError.
pub async_remove_missing :
    (r : Record) (c : DnsCache) → async_get_unique r c ≡ none → async_remove r c ≡ none
unfolding async_remove
async_remove_missing r c h = elim (Option-cases (remove_service r r.rdata c.service_cache)) [
  | inl e ↦ rw e
  | inr (m, e) ↦ rw (e, remove_key_missing r.key r c.cache (sym (get_unique-find_in r c) ∙ h))
]

-- No two records of a list are equal.
abbrev pub IsDistinct : List Record → Type 0
IsDistinct [] = Unit {0}
IsDistinct (r ∷ rs) = (any_of (λ q. record_eq q r) rs ≡ false) × IsDistinct rs

pub record_eq_comm : (a b : Record) → record_eq a b ≡ record_eq b a
record_eq_comm a b = ground (arith, record_eq_iff a b, record_eq_iff b a)

abbrev pub IsCached : DnsCache → Record → Type 0
IsCached c r = (old : Record) × (async_get_unique r c ≡ some old)

All-IsCached :
    (r : Record) (rs : List Record) (c c' : DnsCache)
    → ((q : Record)
        → async_get_unique q c' ≡ (if record_eq r q then none else async_get_unique q c))
    → any_of (λ q. record_eq q r) rs ≡ false
    → All (IsCached c) rs
    → All (IsCached c') rs
All-IsCached r [] c c' gone h a = tt
All-IsCached r (q ∷ rs) c c' gone h ((old, e), a) = (
  (old, ground (arith, gone q, record_eq_comm r q, e, h)),
  All-IsCached r rs c c' gone (ground (arith, h)) a,
)

-- `async_remove_records` of distinct cached records succeeds, takes exactly those out, keeps the
-- indexes and leaves the heap alone.
pub async_remove_records_lem :
    (rs : List Record) (c : DnsCache)
    → IsIndexed c
    → IsDistinct rs
    → All (IsCached c) rs
    → (c' : DnsCache) × (async_remove_records rs c ≡ some c')
      × IsIndexed c'
      × ((q : Record)
          → async_get_unique q c'
            ≡ (if any_of (λ r. record_eq r q) rs then none else async_get_unique q c))
      × (c'.expire_heap ≡ c.expire_heap)
unfolding async_remove_records
async_remove_records_lem [] c v d a = (c, refl, v, λ q. refl, refl)
async_remove_records_lem (r ∷ rs) c v (dr, d) ((old, e), a) =
    let (c1, e1, v1, gone1, heap1) = async_remove_lem r old c v e in
    let (c2, e2, v2, gone2, heap2) =
      async_remove_records_lem rs c1 v1 d (All-IsCached r rs c c1 gone1 dr a) in
    (c2, rw e1 e2, v2, λ q. ground (arith, gone1 q, gone2 q), heap2 ∙ heap1)

-- On a coherent cache `_async_remove` succeeds exactly when the record is cached, then takes that
-- record alone out, and the cache stays coherent.
pub async_remove-IsCoherent :
    (r old : Record) (c : DnsCache)
    → IsCoherent c
    → async_get_unique r c ≡ some old
    → (c' : DnsCache) × (async_remove r c ≡ some c')
      × IsCoherent c'
      × ((q : Record)
          → async_get_unique q c' ≡ (if record_eq r q then none else async_get_unique q c))
async_remove-IsCoherent r old c v h =
    let (c', e, i, gone, same) = async_remove_lem r old c v.indexed h in
    (
      c',
      e,
      record {
        indexed = i;
        heap_covers = λ q w d. rw same (
            v.heap_covers q w
              (ground (arith, d, gone q, i.expirations_match q, v.expirations_match q)));
        heap_ordered = rw same v.heap_ordered;
      },
      gone,
    )

-- `async_remove_records` of distinct cached records of a coherent cache succeeds, takes exactly
-- those out, and the cache stays coherent.
pub async_remove_records-IsCoherent :
    (rs : List Record) (c : DnsCache)
    → IsCoherent c
    → IsDistinct rs
    → All (IsCached c) rs
    → (c' : DnsCache) × (async_remove_records rs c ≡ some c')
      × IsCoherent c'
      × ((q : Record)
          → async_get_unique q c'
            ≡ (if any_of (λ r. record_eq r q) rs then none else async_get_unique q c))
async_remove_records-IsCoherent rs c v d a =
    let (c', e, i, gone, same) = async_remove_records_lem rs c v.indexed d a in
    (
      c',
      e,
      record {
        indexed = i;
        heap_covers = λ q w k. rw same (
            v.heap_covers q w
              (ground (arith, k, gone q, i.expirations_match q, v.expirations_match q)));
        heap_ordered = rw same v.heap_ordered;
      },
      gone,
    )
