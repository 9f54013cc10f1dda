-- ===== src/Cache/Expire.antt =====
-- The parts of `async_expire`: the records that it takes off the heap, and the heap that it leaves.
use lscamoflash.Cache.{
  clean_heap, heapify, pop_expired, expires_at, DnsCache, async_get_unique, when_of,
}
use lscamoflash.Prelude.Dict
use lscamoflash.Cache.Lookup.{get_congr_record}
use lscamoflash.Cache.Removal.{IsDistinct, IsCached}
use lscamoflash.Prelude.Dict.{Dict}
use lscamoflash.Dns.{Record, record_eq}
use lscamoflash.Cache.Coherent.{
  heap_has, IsOrdered, heappush-IsOrdered, heappush-heap_has, IsCoherent, IsIndexed,
}
use lscamoflash.Prelude.{
  List, ℕ, All, Bool, any_of, arith, Bool-cases, Option-cases, [], false, filter_by, inl, inr, leb,
  ltb, none, refl, some, true, ◌&&◌, ◌<◌, ◌∷◌, ◌≡◌, ◌≤◌, length,
}

-- Whether a record is cached and its time has come.
unfoldable pub is_due : ℕ → Record → DnsCache → Bool
is_due now q c = elim (async_get_unique q c) [ none ↦ false | some r ↦ leb (when_of r) now ]

-- No record stands twice in the heap at one time.
abbrev pub HasNoRepeat : List (ℕ × Record) → Type 0
HasNoRepeat [] = Unit {0}
HasNoRepeat ((w, r) ∷ h) = (heap_has w r h ≡ false) × HasNoRepeat h

heap_has-above :
    (w : ℕ) (q : Record) (n : ℕ) (h : List (ℕ × Record))
    → All (λ e. n ≤ e.0) h
    → w < n
    → heap_has w q h ≡ false
unfolding heap_has
heap_has-above w q n [] a lt = refl
heap_has-above w q n ((t, r) ∷ h) (b, a) lt = ground (arith, heap_has-above w q n h a lt)

-- Which records are expired, by the table and the heap.
pop_expired-any_of :
    (now : ℕ) (m : Dict Record ℕ) (q : Record) (h : List (ℕ × Record))
    → IsOrdered h
    → any_of (λ r. record_eq r q) (pop_expired now m h).1
      ≡ (elim (Dict.get record_eq q m) [ none ↦ false | some w ↦ leb w now && heap_has w q h ])
unfolding pop_expired heap_has
pop_expired-any_of now m q [] o = ground arith
pop_expired-any_of now m q ((t, r) ∷ h) (a, o) = elim (Option-cases (Dict.get record_eq q m)) [
  | inl e ↦ ground (arith, e, pop_expired-any_of now m q h o, get_congr_record r q m)
  | inr (w, e) ↦
      ground
        (arith, e, pop_expired-any_of now m q h o, get_congr_record r q m, heap_has-above w q t h a)
]

expires_at-some :
    (m : Dict Record ℕ) (r : Record) (w : ℕ)
    → expires_at m r w ≡ true
    → Dict.get record_eq r m ≡ some w
unfolding expires_at
expires_at-some m r w h = ground arith

pub pop_expired-expires_at :
    (now : ℕ) (m : Dict Record ℕ) (h : List (ℕ × Record))
    → All (λ r. (w : ℕ) × (Dict.get record_eq r m ≡ some w)) (pop_expired now m h).1
unfolding pop_expired
pop_expired-expires_at now m [] = tt
pop_expired-expires_at now m ((t, r) ∷ h) = elim (Bool-cases (ltb now t)) [
  | inl e ↦ rw e tt
  | inr e ↦ rw e (elim (Bool-cases (expires_at m r t)) [
    | inl g ↦ rw g ((t, expires_at-some m r t g), pop_expired-expires_at now m h)
    | inr g ↦ rw g (pop_expired-expires_at now m h)
  ])
]

pub pop_expired-IsDistinct :
    (now : ℕ) (m : Dict Record ℕ) (h : List (ℕ × Record))
    → IsOrdered h
    → HasNoRepeat h
    → IsDistinct (pop_expired now m h).1
unfolding pop_expired
pop_expired-IsDistinct now m [] o d = tt
pop_expired-IsDistinct now m ((t, r) ∷ h) (a, o) (d, ds) =
    ground (arith, pop_expired-IsDistinct now m h o ds, pop_expired-any_of now m r h o)

-- What the loop leaves of the heap: the entries of a later time, in order.
pop_expired-rest :
    (now w : ℕ) (q : Record) (m : Dict Record ℕ) (h : List (ℕ × Record))
    → now < w
    → heap_has w q h ≡ true
    → heap_has w q (pop_expired now m h).0 ≡ true
unfolding pop_expired heap_has
pop_expired-rest now w q m [] lt e = e
pop_expired-rest now w q m ((t, r) ∷ h) lt e = ground (arith, pop_expired-rest now w q m h lt)

pub pop_expired-IsOrdered :
    (now : ℕ) (m : Dict Record ℕ) (h : List (ℕ × Record))
    → IsOrdered h
    → IsOrdered (pop_expired now m h).0
unfolding pop_expired
pop_expired-IsOrdered now m [] o = tt
pop_expired-IsOrdered now m ((t, r) ∷ h) (a, o) = ground (arith, pop_expired-IsOrdered now m h o)

heapify-IsOrdered : (h : List (ℕ × Record)) → IsOrdered (heapify h)
unfolding heapify
heapify-IsOrdered [] = tt
heapify-IsOrdered ((t, r) ∷ h) = heappush-IsOrdered t r (heapify h) (heapify-IsOrdered h)

heapify-heap_has :
    (w : ℕ) (q : Record) (h : List (ℕ × Record)) → heap_has w q (heapify h) ≡ heap_has w q h
unfolding heapify heap_has
heapify-heap_has w q [] = refl
heapify-heap_has w q ((t, r) ∷ h) =
    ground (arith, heappush-heap_has t r w q (heapify h), heapify-heap_has w q h)

filter-heap_has :
    (w : ℕ) (q : Record) (m : Dict Record ℕ) (h : List (ℕ × Record))
    → Dict.get record_eq q m ≡ some w
    → heap_has w q h ≡ true
    → heap_has w q (filter_by (λ e. expires_at m e.1 e.0) h) ≡ true
unfolding heap_has expires_at
filter-heap_has w q m [] e has = has
filter-heap_has w q m ((t, r) ∷ h) e has =
    ground (arith, filter-heap_has w q m h e, get_congr_record r q m)

-- The clean-up drops no expiry that is in force.
clean_heap-heap_has :
    (n w : ℕ) (q : Record) (m : Dict Record ℕ) (h : List (ℕ × Record))
    → Dict.get record_eq q m ≡ some w
    → heap_has w q h ≡ true
    → heap_has w q (clean_heap n m h) ≡ true
unfolding clean_heap
clean_heap-heap_has n w q m h e has = ground (
  arith,
  heapify-heap_has w q (filter_by (λ e. expires_at m e.1 e.0) h),
  filter-heap_has w q m h e has,
)

pub clean_heap-IsOrdered :
    (n : ℕ) (m : Dict Record ℕ) (h : List (ℕ × Record)) → IsOrdered h → IsOrdered (clean_heap n m h)
unfolding clean_heap
clean_heap-IsOrdered n m h o =
    ground (arith, heapify-IsOrdered (filter_by (λ e. expires_at m e.1 e.0) h))

-- What is expired is cached.
pub All-IsCached_of_expires :
    (c : DnsCache) (rs : List Record)
    → IsIndexed c
    → All (λ r. (w : ℕ) × (Dict.get record_eq r c.expirations ≡ some w)) rs
    → All (IsCached c) rs
All-IsCached_of_expires c [] v a = tt
All-IsCached_of_expires c (r ∷ rs) v ((w, e), a) = (
  elim (Option-cases (async_get_unique r c)) [
    | inl n ↦ absurd (ground (arith, v.expirations_match r, e, n))
    | inr found ↦ found
  ],
  All-IsCached_of_expires c rs v a,
)

pub any_of-is_due :
    (now : ℕ) (q : Record) (c : DnsCache)
    → IsCoherent c
    → any_of (λ r. record_eq r q) (pop_expired now c.expirations c.expire_heap).1 ≡ is_due now q c
unfolding is_due
any_of-is_due now q c v = elim (Option-cases (async_get_unique q c)) [
  | inl e ↦ ground (
    arith,
    e,
    pop_expired-any_of now c.expirations q c.expire_heap v.heap_ordered,
    v.expirations_match q,
  )
  | inr (r, e) ↦ ground (
    arith,
    e,
    pop_expired-any_of now c.expirations q c.expire_heap v.heap_ordered,
    v.expirations_match q,
    v.heap_covers q (when_of r),
  )
]

-- The state that `async_expire` hands to `async_remove_records`.
abbrev pub cleaned : ℕ → DnsCache → DnsCache
cleaned now c = record c {
  expire_heap =
      clean_heap (length c.expire_heap) c.expirations
        (pop_expired now c.expirations c.expire_heap).0;
}

pub cleaned-heap_has :
    (now w : ℕ) (q : Record) (c : DnsCache)
    → IsCoherent c
    → Dict.get record_eq q c.expirations ≡ some w
    → now < w
    → heap_has w q (cleaned now c).expire_heap ≡ true
cleaned-heap_has now w q c v e lt =
    clean_heap-heap_has (length c.expire_heap) w q c.expirations _ e
      (pop_expired-rest now w q c.expirations c.expire_heap lt (v.heap_covers q w e))
