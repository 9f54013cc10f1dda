-- ===== src/Cache/Coherent.antt =====
-- The invariant of `DNSCache` over what can be looked up, and that the writes keep it.
use lscamoflash.Prelude.{
  ℕ, ◌≤◌, Bool, true, false, ◌&&◌, ◌||◌, none, some, List, [], ◌∷◌, Text, text_eq, text_eq_iff, ◌≡◌,
  refl, arith, ◌∙◌, if◌then◌else◌, ◌==◌, All,
}
use lscamoflash.Prelude.Dict
use lscamoflash.Prelude.Dict.{Dict}
use lscamoflash.Dns.{Record, RData, service, record_eq}
use lscamoflash.Cache.{
  Store, DnsCache, async_get_unique, async_add, add_service, when_of, expires_at, heappush, heap_lt,
  async_add_records,
}
use lscamoflash.Cache.Lookup.{
  find_in, find_in-put_record, get-insert_record, get_congr_record, record_eq-key,
}

-- Whether the service index files a record under a server key.
unfoldable pub server_has : Text → RData → Bool
server_has k (service p w o s server_key) = text_eq server_key k
server_has k _ = false

-- Whether the heap has an entry for a record at a time.
unfoldable pub heap_has : ℕ → Record → List (ℕ × Record) → Bool
heap_has w q [] = false
heap_has w q ((t, r) ∷ h) = ((t == w) && record_eq r q) || heap_has w q h

-- The entries of the heap are in the order of their times.
abbrev pub IsOrdered : List (ℕ × Record) → Type 0
IsOrdered [] = Unit {0}
IsOrdered (e ∷ h) = All (λ e'. e.0 ≤ e'.0) h × IsOrdered h

-- The expiry table has exactly the cached records, each at its expiry time; the service index
-- has exactly the cached service records, under their server keys.
pub record IsIndexed (c : DnsCache) : Type 0 where
  pub expirations_match :
      (q : Record)
      → Dict.get record_eq q c.expirations
        ≡ elim (async_get_unique q c) [ none ↦ none | some r ↦ some (when_of r) ]
  pub services_match :
      (k : Text) (q : Record)
      → find_in k q c.service_cache ≡ (if server_has k q.rdata then async_get_unique q c else none)

-- Beside that, the heap is in order and has every expiry that is in force.
pub record IsCoherent (c : DnsCache) : Type 0 where
  pub indexed : IsIndexed c
  pub open indexed use *
  pub heap_covers :
      (q : Record) (w : ℕ)
      → Dict.get record_eq q c.expirations ≡ some w
      → heap_has w q c.expire_heap ≡ true
  pub heap_ordered : IsOrdered c.expire_heap

-- After `_async_add` of a record a lookup of an equal record finds the added one, and a lookup of any
-- other record finds what it found before.
pub async_get_unique-async_add :
    (r q : Record) (c : DnsCache)
    → async_get_unique q (async_add r c).0
      ≡ (if record_eq r q then some r else async_get_unique q c)
unfolding async_get_unique async_add
async_get_unique-async_add r q c =
    unfold find_in in
    find_in-put_record r.key q.key r q c.cache
    ∙ ground (arith, text_eq_iff r.key q.key, record_eq-key r q)

pub expirations-async_add :
    (r q : Record) (c : DnsCache)
    → Dict.get record_eq q (async_add r c).0.expirations
      ≡ (if record_eq r q then some (when_of r) else Dict.get record_eq q c.expirations)
unfolding async_add expires_at
expirations-async_add r q c =
    ground
      (arith, get-insert_record r q (when_of r) c.expirations, get_congr_record r q c.expirations)

server_has_at :
    (k : Text) (a b : Record)
    → record_eq a b ≡ true
    → (x y : RData) → a.rdata ≡ x
    → b.rdata ≡ y
    → server_has k x ≡ server_has k y
unfolding record_eq server_has
server_has_at k a b e (service p w o s key) (service p' w' o' s' key') i j =
    ground (arith, text_eq_iff key key', text_eq_iff key k, text_eq_iff key' k)
server_has_at k a b e _ _ i j = ground arith

-- Equal records are filed under the same server keys.
pub record_eq-server_has :
    (k : Text) (a b : Record) → record_eq a b ≡ true → server_has k a.rdata ≡ server_has k b.rdata
record_eq-server_has k a b e = server_has_at k a b e a.rdata b.rdata refl refl

add_service-find_in :
    (k : Text) (r q : Record) (x : RData) (m : Dict Text Store)
    → find_in k q (add_service r x m)
      ≡ (if server_has k x && record_eq r q then some r else find_in k q m)
unfolding add_service server_has
add_service-find_in k r q (service p w o s key) m = find_in-put_record key k r q m
add_service-find_in k r q _ m = refl

services-async_add :
    (k : Text) (r q : Record) (c : DnsCache)
    → find_in k q (async_add r c).0.service_cache
      ≡ (if server_has k r.rdata && record_eq r q then some r else find_in k q c.service_cache)
unfolding async_add
services-async_add k r q c = add_service-find_in k r q r.rdata c.service_cache

pub heappush-heap_has :
    (t : ℕ) (r : Record) (w : ℕ) (q : Record) (h : List (ℕ × Record))
    → heap_has w q (heappush (t, r) h) ≡ (((t == w) && record_eq r q) || heap_has w q h)
unfolding heap_has heappush
heappush-heap_has t r w q [] = refl
heappush-heap_has t r w q ((t', r') ∷ h) = ground (arith, heappush-heap_has t r w q h)

All-heappush :
    (n t : ℕ) (r : Record) (h : List (ℕ × Record))
    → n ≤ t
    → All (λ e. n ≤ e.0) h
    → All (λ e. n ≤ e.0) (heappush (t, r) h)
unfolding heappush
All-heappush n t r [] le a = (le, tt)
All-heappush n t r ((t', r') ∷ h) le (b, a) = ground (arith, All-heappush n t r h le a)

All-le_trans :
    (m n : ℕ) (h : List (ℕ × Record)) → m ≤ n → All (λ e. n ≤ e.0) h → All (λ e. m ≤ e.0) h
All-le_trans m n [] le a = tt
All-le_trans m n (e ∷ h) le (b, a) = (omega arith, All-le_trans m n h le a)

pub heappush-IsOrdered :
    (t : ℕ) (r : Record) (h : List (ℕ × Record)) → IsOrdered h → IsOrdered (heappush (t, r) h)
unfolding heappush heap_lt
heappush-IsOrdered t r [] o = (tt, tt)
heappush-IsOrdered t r ((t', r') ∷ h) (a, o) =
    ground (arith, heappush-IsOrdered t r h o, All-heappush t' t r h, All-le_trans t t' h)

heap-async_add :
    (r q : Record) (w : ℕ) (c : DnsCache)
    → IsCoherent c
    → Dict.get record_eq q (async_add r c).0.expirations ≡ some w
    → heap_has w q (async_add r c).0.expire_heap ≡ true
heap-async_add r q w c v h =
    unfold async_add expires_at in
    ground (
      arith,
      rw expirations-async_add at h,
      v.heap_covers q w,
      heappush-heap_has (when_of r) r w q c.expire_heap,
      get_congr_record r q c.expirations,
    )

-- `_async_add` of any record to a coherent cache leaves a coherent cache.
pub async_add-IsCoherent : (r : Record) (c : DnsCache) → IsCoherent c → IsCoherent (async_add r c).0
async_add-IsCoherent r c v = record {
  indexed = record {
    expirations_match = λ q. ground (
      arith,
      expirations-async_add r q c,
      async_get_unique-async_add r q c,
      v.expirations_match q,
    );
    services_match = λ k q. ground (
      arith,
      services-async_add k r q c,
      async_get_unique-async_add r q c,
      v.services_match k q,
      record_eq-server_has k r q,
    );
  };
  heap_covers = λ q w h. heap-async_add r q w c v h;
  heap_ordered =
      unfold async_add in
      ground (arith, v.heap_ordered, heappush-IsOrdered (when_of r) r c.expire_heap);
}

pub async_add_records-IsCoherent :
    (rs : List Record) (c : DnsCache) → IsCoherent c → IsCoherent (async_add_records rs c).0
unfolding async_add_records
async_add_records-IsCoherent [] c v = v
async_add_records-IsCoherent (r ∷ rs) c v =
    async_add_records-IsCoherent rs (async_add r c).0 (async_add-IsCoherent r c v)
