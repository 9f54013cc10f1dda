-- ===== src/Cache/Purge.antt =====
-- `async_expire` as a whole: what it removes, and what stays.
use lscamoflash.Cache.{async_expire}
use lscamoflash.Prelude.Dict.{Dict}
use lscamoflash.Prelude.Dict
use lscamoflash.Cache.Removal.{async_remove_records_lem}
use lscamoflash.Dns.{Record, record_eq}
use lscamoflash.Cache.Expire.{
  HasNoRepeat, All-IsCached_of_expires, any_of-is_due, clean_heap-IsOrdered, cleaned, is_due,
  pop_expired-IsDistinct, pop_expired-IsOrdered, pop_expired-expires_at, cleaned-heap_has,
}
use lscamoflash.Cache.Coherent.{IsCoherent, IsIndexed, heap_has}
use lscamoflash.Cache.{DnsCache, async_remove_records, pop_expired, async_get_unique, when_of}
use lscamoflash.Prelude.{
  List, any_of, if◌then◌else◌, none, some, ℕ, ◌∙◌, ◌≡◌, Bool-cases, arith, length, true, ◌==◌, [],
  false, inl, inr, refl, sym, ◌∷◌,
}

cleaned-get_unique :
    (now : ℕ) (q : Record) (c : DnsCache)
    → async_get_unique q (cleaned now c) ≡ async_get_unique q c
unfolding async_get_unique
cleaned-get_unique now q c = refl

pub cleaned-IsIndexed : (now : ℕ) (c : DnsCache) → IsIndexed c → IsIndexed (cleaned now c)
unfolding async_get_unique
cleaned-IsIndexed now c v = record {
  expirations_match = v.expirations_match;
  services_match = v.services_match;
}

-- An expiry that is still in force is in what is left of the heap.
kept-heap_has :
    (now : ℕ) (q : Record) (w : ℕ) (c c' : DnsCache)
    → IsCoherent c
    → async_get_unique q c' ≡ (if is_due now q c then none else async_get_unique q c)
    → Dict.get record_eq q c'.expirations
      ≡ elim (async_get_unique q c') [ none ↦ none | some r ↦ some (when_of r) ]
    → Dict.get record_eq q c'.expirations ≡ some w
    → heap_has w q (cleaned now c).expire_heap ≡ true
unfolding is_due
kept-heap_has now q w c c' v left i k =
    ground (arith, left, i, k, v.expirations_match q, cleaned-heap_has now w q c v)

-- The heap and the removals of `async_expire`, once the heap is not empty.
purge :
    (now : ℕ) (c : DnsCache)
    → IsCoherent c
    → HasNoRepeat c.expire_heap
    → (c' : DnsCache) × (async_remove_records
          (pop_expired now c.expirations c.expire_heap).1
          (cleaned now c)
        ≡ some c')
      × IsCoherent c'
      × ((q : Record)
          → async_get_unique q c' ≡ (if is_due now q c then none else async_get_unique q c))
purge now c v d =
    let h = c.expire_heap in
    let i : IsIndexed (cleaned now c) = cleaned-IsIndexed now c v.indexed in
    let (c', e, i', gone, same) =
      async_remove_records_lem (pop_expired now c.expirations h).1 (cleaned now c) i
        (pop_expired-IsDistinct now c.expirations h v.heap_ordered d)
        (All-IsCached_of_expires (cleaned now c) _ i
          (pop_expired-expires_at now c.expirations h)) in
    let left : (q : Record)
        → async_get_unique q c' ≡ (if is_due now q c then none else async_get_unique q c) =
      λ q. ground (arith, gone q, any_of-is_due now q c v, cleaned-get_unique now q c) in
    (
      c',
      e,
      record {
        indexed = i';
        heap_covers =
            λ q w k. rw same (kept-heap_has now q w c c' v (left q) (i'.expirations_match q) k);
        heap_ordered =
            rw same (
              clean_heap-IsOrdered _ _ _
                (pop_expired-IsOrdered now c.expirations h v.heap_ordered));
      },
      left,
    )

pop_expired_empty :
    (now : ℕ) (m : Dict Record ℕ) (q : Record) (h : List (ℕ × Record))
    → (length h == 0) ≡ true
    → any_of (λ r. record_eq r q) (pop_expired now m h).1 ≡ false
unfolding pop_expired
pop_expired_empty now m q [] z = refl
pop_expired_empty now m q (e ∷ h) z = ground arith

-- On a coherent cache whose heap has no repeat, `async_expire` raises nothing. It returns exactly
-- the cached records whose time has come, takes exactly those out, and the cache stays coherent.
pub async_expire_lem :
    (now : ℕ) (c : DnsCache)
    → IsCoherent c
    → HasNoRepeat c.expire_heap
    → (c' : DnsCache) × (expired : List Record) × (async_expire now c ≡ some (c', expired))
      × IsCoherent c'
      × ((q : Record) → any_of (λ r. record_eq r q) expired ≡ is_due now q c)
      × ((q : Record)
          → async_get_unique q c' ≡ (if is_due now q c then none else async_get_unique q c))
unfolding async_expire
async_expire_lem now c v d =
    let (c', e, v', gone) = purge now c v d in
    let idle = λ (q : Record) (z : (length c.expire_heap == 0) ≡ true).
      sym (any_of-is_due now q c v) ∙ pop_expired_empty now c.expirations q c.expire_heap z in
    elim (Bool-cases (length c.expire_heap == 0)) [
      | inl z ↦ (c, [], rw z, v, λ q. sym (idle q z), λ q. rw (idle q z))
      | inr z ↦ (
        c',
        (pop_expired now c.expirations c.expire_heap).1,
        rw (z, e),
        v',
        λ q. any_of-is_due now q c v,
        gone,
      )
    ]
