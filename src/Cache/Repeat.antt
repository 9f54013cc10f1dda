-- ===== src/Cache/Repeat.antt =====
-- The repeat that `_async_add` lets into the heap: a record that leaves an expiry time and comes
-- back to it.
use lscamoflash.Cache.Expire.{cleaned}
use lscamoflash.Cache.Purge.{cleaned-IsIndexed}
use lscamoflash.Dns.Equality.{record_eq_iff}
use lscamoflash.Prelude.Dict.{Dict}
use lscamoflash.Cache.Removal.{async_remove_lem, async_remove_missing, record_eq_comm}
use lscamoflash.Cache.Coherent.{IsCoherent, IsIndexed, async_add-IsCoherent}
use lscamoflash.Cache.Lookup.{find_in}
use lscamoflash.Dns.{Record, record_eq}
use lscamoflash.Cache.{
  async_add, async_expire, async_get_unique, DnsCache, expires_at, empty_cache, heappush, heap_lt,
  pop_expired, when_of, async_remove_records,
}
use lscamoflash.Prelude.Dict
use lscamoflash.Prelude.{
  ℕ, ◌≡◌, true, ◌≢◌, ◌≤◌, none, ◌∷◌, Option-cases, [], arith, false, inl, inr, length, refl, ◌==◌,
  ◌∙◌, List,
}

-- The cache that is empty is coherent.
pub empty_cache-IsCoherent : IsCoherent empty_cache
unfolding async_get_unique Dict.get find_in
empty_cache-IsCoherent = record {
  indexed = record { expirations_match = λ q. refl; services_match = λ k q. ground arith };
  heap_covers = λ q w h. cc;
  heap_ordered = tt;
}

-- The cache after a record, an equal one of another expiry, and the first one again.
abbrev pub re_added : Record → Record → DnsCache
re_added r r' = (async_add r (async_add r' (async_add r empty_cache).0).0).0

remove_twice :
    (r : Record) (c : DnsCache) → IsIndexed c → async_remove_records (r ∷ r ∷ []) c ≡ none
unfolding async_remove_records
remove_twice r c v = elim (Option-cases (async_get_unique r c)) [
  | inl e ↦ rw (async_remove_missing r c e)
  | inr (old, e) ↦
      let (c', removed, i, gone, same) = async_remove_lem r old c v e in
      rw (removed, async_remove_missing r c' (gone r ∙ ground (arith, record_eq_iff r r)))
]

heap_not_empty :
    (now : ℕ) (m : Dict Record ℕ) (h : List (ℕ × Record)) (r : Record) (rs : List Record)
    → (pop_expired now m h).1 ≡ r ∷ rs
    → (length h == 0) ≡ false
unfolding pop_expired
heap_not_empty now m [] r rs e = cc
heap_not_empty now m (x ∷ h) r rs e = ground arith

re_added_expired :
    (now : ℕ) (r r' : Record)
    → record_eq r r' ≡ true
    → when_of r ≢ when_of r'
    → when_of r ≤ now
    → when_of r' ≤ now
    → (pop_expired now (re_added r r').expirations (re_added r r').expire_heap).1 ≡ r ∷ r ∷ []
unfolding async_add expires_at heappush heap_lt Dict.get Dict.insert pop_expired
re_added_expired now r r' e ne h h' = ground (arith, record_eq_comm r r', record_eq_iff r r)

-- A record that is cached with one expiry time, then with another and then with the first again
-- stands twice in the heap at that time; when both times have passed, `async_expire` raises a
-- KeyError.
pub async_expire-re_added :
    (now : ℕ) (r r' : Record)
    → record_eq r r' ≡ true
    → when_of r ≢ when_of r'
    → when_of r ≤ now
    → when_of r' ≤ now
    → async_expire now (re_added r r') ≡ none
unfolding async_expire
async_expire-re_added now r r' e ne h h' =
    let c = re_added r r' in
    let v : IsCoherent c =
      async_add-IsCoherent r _
        (async_add-IsCoherent r' _ (async_add-IsCoherent r _ empty_cache-IsCoherent)) in
    let expired = re_added_expired now r r' e ne h h' in
    let nonempty = heap_not_empty now c.expirations c.expire_heap r _ expired in
    rw (nonempty, expired, remove_twice r (cleaned now c) (cleaned-IsIndexed now c v.indexed))
