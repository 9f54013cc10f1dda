-- ===== src/Cache.antt =====
-- `DNSCache` of SOURCE/src/modules/python/zeroconf/src/zeroconf/_cache.py. `none` is the KeyError
-- of `_remove_key`. The expiry heap is the list of its entries in the order in which `heappop`
-- hands them out; an entry holds the record as it was pushed.
pub mod Lookup
pub mod Coherent
pub mod Removal
pub mod Expire
pub mod Purge
pub mod Repeat
pub mod Refinement
use lscamoflash.Prelude.{
  ℕ, ◌+◌, ◌*◌, Bool, true, false, ◌&&◌, ◌||◌, not, Option, none, some, List, [], ◌∷◌, Text, text_eq,
  lower, ltb, ◌==◌, if◌then◌else◌, length, any_of, filter_by, find_last,
}
use lscamoflash.Prelude.Dict
use lscamoflash.Prelude.Dict.{Dict, values, keys}
use lscamoflash.Dns.{
  Record, RData, Entry, address, hinfo, pointer, text, service, nsec, record_eq, entry_matches,
  is_nsec, is_expired, set_created_ttl,
}
use lscamoflash.Const.{one_second}
use lscamoflash.Const.Types

-- One bucket: the records of one name, each the key of itself.
abbrev pub Store : Type 0
Store = Dict Record Record

pub record DnsCache : Type 0 where
  pub cache : Dict Text Store
  pub expire_heap : List (ℕ × Record)
  pub expirations : Dict Record ℕ
  pub service_cache : Dict Text Store

-- `DNSCache.__init__`
abbrev pub empty_cache : DnsCache
empty_cache = record { cache = []; expire_heap = []; expirations = []; service_cache = [] }

infixl 5 ◌>>=◌
abbrev pub ◌>>=◌ : {A B : Type 0} → Option A → (A → Option B) → Option B
none >>= f = none
some a >>= f = f a

-- `cache.get(key)`, where a missing bucket reads as an empty one
unfoldable pub store_of : Text → Dict Text Store → Store
store_of key m = elim (Dict.get text_eq key m) [ none ↦ [] | some s ↦ s ]

-- `cache[key][record] = record`, with the bucket made if it is missing
unfoldable pub put_record : Text → Record → Dict Text Store → Dict Text Store
unfolding store_of
put_record key r m = Dict.insert text_eq key (Dict.insert record_eq r r (store_of key m)) m

-- The order of the heap's tuples: by time, and of one time by the records' `<`.
unfoldable pub heap_lt : ℕ × Record → ℕ × Record → Bool
heap_lt (t, r) (t', r') = ltb t t' || ((t == t') && (not (record_eq r r') && ltb r.ttl r'.ttl))

unfoldable pub heappush : ℕ × Record → List (ℕ × Record) → List (ℕ × Record)
unfolding heap_lt
heappush e [] = e ∷ []
heappush e (e' ∷ h) = if heap_lt e e' then e ∷ e' ∷ h else e' ∷ heappush e h

-- `heapify`
unfoldable pub heapify : List (ℕ × Record) → List (ℕ × Record)
unfolding heappush
heapify [] = []
heapify (e ∷ h) = heappush e (heapify h)

unfoldable pub when_of : Record → ℕ
when_of r = r.created + r.ttl * 1000

-- `self._expirations.get(record) == when`
unfoldable pub expires_at : Dict Record ℕ → Record → ℕ → Bool
expires_at m r w = elim (Dict.get record_eq r m) [ none ↦ false | some w' ↦ w' == w ]

unfoldable pub add_service : Record → RData → Dict Text Store → Dict Text Store
unfolding put_record
add_service r (service p w o s server_key) m = put_record server_key r m
add_service r _ m = m

-- `DNSCache._async_add`: the new cache, and whether the record is new to it.
unfoldable pub async_add : Record → DnsCache → DnsCache × Bool
unfolding store_of put_record when_of expires_at add_service
async_add r c =
    let is_new = not (Dict.has record_eq r (store_of r.key c.cache)) && not (is_nsec r.rdata) in
    let w = when_of r in
    let known = expires_at c.expirations r w in
    (
      record {
        cache = put_record r.key r c.cache;
        expire_heap = if known then c.expire_heap else heappush (w, r) c.expire_heap;
        expirations = if known then c.expirations else Dict.insert record_eq r w c.expirations;
        service_cache = add_service r r.rdata c.service_cache;
      },
      is_new,
    )

-- `DNSCache.async_add_records`
unfoldable pub async_add_records : List Record → DnsCache → DnsCache × Bool
unfolding async_add
async_add_records [] c = (c, false)
async_add_records (r ∷ rs) c =
    let (c', is_new) = async_add r c in
    let (c'', more) = async_add_records rs c' in (c'', is_new || more)

-- What is left of a bucket goes back; an empty bucket is deleted.
unfoldable pub put_rest : Text → Store → Dict Text Store → Dict Text Store
put_rest key [] m = Dict.delete text_eq key m
put_rest key (e ∷ rest) m = Dict.insert text_eq key (e ∷ rest) m

-- `_remove_key`: a KeyError if the bucket or the record is missing; an empty bucket goes.
unfoldable pub remove_key : Dict Text Store → Text → Record → Option (Dict Text Store)
unfolding put_rest
remove_key m key r = do
  store ← Dict.get text_eq key m
  old ← Dict.get record_eq r store
  some (put_rest key (Dict.delete record_eq r store) m)

unfoldable pub remove_service : Record → RData → Dict Text Store → Option (Dict Text Store)
unfolding remove_key
remove_service r (service p w o s server_key) m = remove_key m server_key r
remove_service r _ m = some m

-- `DNSCache._async_remove`
unfoldable pub async_remove : Record → DnsCache → Option DnsCache
unfolding remove_service remove_key
async_remove r c = do
  services ← remove_service r r.rdata c.service_cache
  buckets ← remove_key c.cache r.key r
  some (record c {
    cache = buckets;
    expirations = Dict.delete record_eq r c.expirations;
    service_cache = services;
  })

-- `DNSCache.async_remove_records`
unfoldable pub async_remove_records : List Record → DnsCache → Option DnsCache
unfolding async_remove
async_remove_records [] c = some c
async_remove_records (r ∷ rs) c = do c' ← async_remove r c; async_remove_records rs c'

-- The `while` loop of `async_expire`: what is left of the heap, and the expired records.
unfoldable pub pop_expired : ℕ → Dict Record ℕ → List (ℕ × Record) → List (ℕ × Record) × List Record
unfolding expires_at
pop_expired now m [] = ([], [])
pop_expired now m ((w, r) ∷ h) =
    let (rest, expired) = pop_expired now m h in
    if ltb now w
    then ((w, r) ∷ h, [])
    else (rest, if expires_at m r w then r ∷ expired else expired)

-- The clean-up of the heap: entries whose record has another expiry by now are dropped.
unfoldable pub clean_heap : ℕ → Dict Record ℕ → List (ℕ × Record) → List (ℕ × Record)
unfolding expires_at heapify
clean_heap heap_len m h =
    if ltb 100 heap_len && ltb (length m * 2) heap_len
    then heapify (filter_by (λ e. expires_at m e.1 e.0) h)
    else h

-- `DNSCache.async_expire`: the new cache and the expired records, or a KeyError.
unfoldable pub async_expire : ℕ → DnsCache → Option (DnsCache × List Record)
unfolding pop_expired clean_heap async_remove_records
async_expire now c =
    let heap_len = length c.expire_heap in
    let (rest, expired) = pop_expired now c.expirations c.expire_heap in
    if heap_len == 0 then some (c, []) else do
      c' ←
          async_remove_records expired
            (record c { expire_heap = clean_heap heap_len c.expirations rest })
      some (c', expired)

-- `DNSCache.async_get_unique`
unfoldable pub async_get_unique : Record → DnsCache → Option Record
unfolding store_of
async_get_unique r c = Dict.get record_eq r (store_of r.key c.cache)

-- `DNSCache.async_all_by_details` and `get_all_by_details`
unfoldable pub async_all_by_details : Text → ℕ → ℕ → DnsCache → List Record
unfolding store_of
async_all_by_details name type class_ c =
    filter_by (λ r. (type == r.type) && (class_ == r.class_))
      (values (store_of (lower name) c.cache))

-- `DNSCache.get_by_details`
unfoldable pub get_by_details : Text → ℕ → ℕ → DnsCache → Option Record
unfolding store_of
get_by_details name type class_ c =
    find_last (λ r. (type == r.type) && (class_ == r.class_))
      (values (store_of (lower name) c.cache))

-- `DNSCache.get`, of an entry that is none of the record classes of `_UNIQUE_RECORD_TYPES`: the
-- newest record that matches as an entry.
unfoldable pub get_entry : Entry → DnsCache → Option Record
unfolding store_of
get_entry e c = find_last (λ r. entry_matches e r.entry) (values (store_of e.key c.cache))

-- `DNSCache.entries_with_name` and `async_entries_with_name`
unfoldable pub entries_with_name : Text → DnsCache → List Record
unfolding store_of
entries_with_name name c = values (store_of (lower name) c.cache)

-- `DNSCache.entries_with_server` and `async_entries_with_server`
unfoldable pub entries_with_server : Text → DnsCache → List Record
unfolding store_of
entries_with_server server c = values (store_of (lower server) c.service_cache)

unfoldable pub alias_is : Text → RData → Bool
alias_is alias (pointer a k) = text_eq a alias
alias_is alias _ = false

-- `DNSCache.current_entry_with_name_and_alias`
unfoldable pub current_entry_with_name_and_alias : ℕ → Text → Text → DnsCache → Option Record
unfolding entries_with_name alias_is
current_entry_with_name_and_alias now name alias c =
    find_last (λ r. (r.type == Types.ptr) && (not (is_expired r now) && alias_is alias r.rdata))
      (entries_with_name name c)

-- `DNSCache.names`
unfoldable pub names : DnsCache → List Text
names c = keys c.cache

-- `DNSCache._async_set_created_ttl`
unfoldable pub async_set_created_ttl : Record → ℕ → ℕ → DnsCache → DnsCache
unfolding async_add
async_set_created_ttl r now ttl c = (async_add (set_created_ttl r now ttl) c).0

-- The inner loop of `async_mark_unique_records_older_than_1s_to_expire`, over the records of one
-- name, type and class.
unfoldable pub mark_records : ℕ → List Record → List Record → DnsCache → DnsCache
unfolding async_set_created_ttl
mark_records now answers [] c = c
mark_records now answers (r ∷ rs) c = mark_records now answers rs (
    if ltb (r.created + one_second) now && not (any_of (record_eq r) answers)
    then async_set_created_ttl r now 1 c
    else c)

-- `DNSCache.async_mark_unique_records_older_than_1s_to_expire`
unfoldable pub mark_unique : List (Text × ℕ × ℕ) → List Record → ℕ → DnsCache → DnsCache
unfolding mark_records async_all_by_details
mark_unique [] answers now c = c
mark_unique ((name, type, class_) ∷ us) answers now c =
    mark_unique us answers now
      (mark_records now answers (async_all_by_details name type class_ c) c)
