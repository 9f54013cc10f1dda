-- ===== src/Info/Addresses.antt =====
-- The addresses of a `ServiceInfo`, as it learns them from records and from the cache.
use lscamoflash.Manager.{RecordUpdate}
use lscamoflash.Const.{class_in}
use lscamoflash.Cache.{DnsCache, get_by_details}
use lscamoflash.Const.Types
use lscamoflash.Info.{
  add_addresses, learn_address, move_to_front, process_address, remove_address, Resolver,
  address_records, async_update_records, get_ip_addresses_from_cache_lifo, is_key, load_from_cache,
  process_cached, process_live, process_record, process_records, process_service, same_key,
  set_addresses_from_cache,
}
use lscamoflash.Prelude.{
  ℕ, Bool-cases, List, Option, Option-cases, [], any_of, arith, false, inl, inr, none, refl, some,
  text_eq_iff, true, ◌||◌, ◌↔◌, ◌∷◌, ◌≡◌, Text, map, text_eq,
}
use lscamoflash.IpAddress.{IpAddress, get_ip_address_object_from_record, ip_eq, is_v4}
use lscamoflash.Services.{ServiceInfo}
use lscamoflash.Dns.{
  RData, address, hinfo, nsec, pointer, service, text, Record, is_expired, option_eq,
}

-- No address of a list is there twice.
abbrev pub AreOnce : List IpAddress → Type 0
AreOnce [] = Unit {0}
AreOnce (a ∷ l) = (any_of (ip_eq a) l ≡ false) × AreOnce l

-- The same of both lists of a service
pub record IsRepeatless (i : ServiceInfo) : Type 0 where
  pub once_v4 : AreOnce i.ipv4_addresses
  pub once_v6 : AreOnce i.ipv6_addresses

option_eq_same : (s t : Option ℕ) → (option_eq s t ≡ true) ↔ (s ≡ t)
unfolding option_eq
option_eq_same none none = ground arith
option_eq_same none (some y) = ground arith
option_eq_same (some x) none = ground arith
option_eq_same (some x) (some y) = ground arith

ip_eq_congr : (a b c : IpAddress) → ip_eq a b ≡ true → ip_eq a c ≡ ip_eq b c
unfolding ip_eq
ip_eq_congr a b c e =
    ground (arith, e, text_eq_iff a.packed b.packed, option_eq_same a.scope b.scope)

ip_eq_comm : (a b : IpAddress) → ip_eq a b ≡ ip_eq b a
unfolding ip_eq
ip_eq_comm a b = ground (
  arith,
  text_eq_iff a.packed b.packed,
  text_eq_iff b.packed a.packed,
  option_eq_same a.scope b.scope,
  option_eq_same b.scope a.scope,
)

any_of-remove_address :
    (a b : IpAddress) (l : List IpAddress)
    → any_of (ip_eq b) l ≡ false
    → any_of (ip_eq b) (remove_address a l) ≡ false
unfolding remove_address
any_of-remove_address a b [] e = refl
any_of-remove_address a b (c ∷ l) e = ground (arith, e, any_of-remove_address a b l)

remove_address-AreOnce :
    (a : IpAddress) (l : List IpAddress) → AreOnce l → AreOnce (remove_address a l)
unfolding remove_address
remove_address-AreOnce a [] o = tt
remove_address-AreOnce a (b ∷ l) (e, o) =
    ground (arith, e, remove_address-AreOnce a l o, any_of-remove_address a b l e)

-- The address that is taken out of a list without repeats is out of it.
any_of_same :
    (a b : IpAddress) (l : List IpAddress)
    → ip_eq a b ≡ true
    → any_of (ip_eq a) l ≡ any_of (ip_eq b) l
any_of_same a b [] e = refl
any_of_same a b (c ∷ l) e = ground (arith, ip_eq_congr a b c e, any_of_same a b l e)

remove_address_gone :
    (a : IpAddress) (l : List IpAddress) → AreOnce l → any_of (ip_eq a) (remove_address a l) ≡ false
unfolding remove_address
remove_address_gone a [] o = refl
remove_address_gone a (b ∷ l) (e, o) =
    ground (arith, e, any_of_same a b l, remove_address_gone a l o)

learn_address-AreOnce :
    (a : IpAddress) (l : List IpAddress) → AreOnce l → AreOnce (learn_address a l).0
unfolding learn_address move_to_front
learn_address-AreOnce a [] o = (refl, tt)
learn_address-AreOnce a (b ∷ l) (e, o) =
    ground
      (arith, e, o, remove_address-AreOnce a (b ∷ l) (e, o), remove_address_gone a (b ∷ l) (e, o))

add_addresses-AreOnce :
    (now : ℕ) (rs : List Record) (l : List IpAddress) → AreOnce l → AreOnce (add_addresses now rs l)
unfolding add_addresses
add_addresses-AreOnce now [] l o = o
add_addresses-AreOnce now (r ∷ rs) l o = elim (Option-cases (get_ip_address_object_from_record r)) [
  | inl e ↦ rw (add_addresses, e) (add_addresses-AreOnce now rs l o)
  | inr (a, e) ↦ elim (Bool-cases (is_expired r now || any_of (ip_eq a) l)) [
    | inl x ↦ rw (add_addresses, e, x) (add_addresses-AreOnce now rs l o)
    | inr x ↦ rw (add_addresses, e, x) (add_addresses-AreOnce now rs (a ∷ l) (ground (arith, x), o))
  ]
]

process_address-IsRepeatless :
    (a : IpAddress) (i : ServiceInfo) → IsRepeatless i → IsRepeatless (process_address a i).0
unfolding process_address
process_address-IsRepeatless a i v = elim (Bool-cases (is_v4 a)) [
  | inl e ↦
      rw (process_address, e)
        (record {
          once_v4 = learn_address-AreOnce a i.ipv4_addresses v.once_v4;
          once_v6 = v.once_v6;
        })
  | inr e ↦
      rw (process_address, e)
        (record {
          once_v4 = v.once_v4;
          once_v6 = learn_address-AreOnce a i.ipv6_addresses v.once_v6;
        })
]

set_addresses_from_cache-IsRepeatless :
    (c : DnsCache) (now : ℕ) (i : ServiceInfo) → IsRepeatless (set_addresses_from_cache c now i)
unfolding set_addresses_from_cache get_ip_addresses_from_cache_lifo
set_addresses_from_cache-IsRepeatless c now i = record {
  once_v4 = add_addresses-AreOnce now (address_records c Types.a i) [] tt;
  once_v6 = add_addresses-AreOnce now (address_records c Types.aaaa i) [] tt;
}

process_service-IsRepeatless :
    (c : DnsCache) (now : ℕ) (r : Record) (priority weight port : ℕ) (server server_key : Text)
    (i : ServiceInfo)
    → IsRepeatless i
    → IsRepeatless (process_service c now r priority weight port server server_key i)
unfolding process_service
process_service-IsRepeatless c now r p w o s k i v = elim (Bool-cases (is_key k i.server_key)) [
  | inl e ↦ rw (process_service, e) (record { once_v4 = v.once_v4; once_v6 = v.once_v6 })
  | inr e ↦
      rw (process_service, e)
        (set_addresses_from_cache-IsRepeatless c now (record i {
          name = r.name;
          key = r.key;
          server = some s;
          server_key = some k;
          port = o;
          weight = w;
          priority = p;
        }))
]

process_live-IsRepeatless :
    (c : DnsCache) (now : ℕ) (r : Record) (x : RData) (i : ServiceInfo)
    → IsRepeatless i
    → IsRepeatless (process_live c now r x i).0
unfolding process_live
process_live-IsRepeatless c now r (address b scope) i v =
    elim (Bool-cases (is_key r.key i.server_key)) [
      | inl e ↦ elim (Option-cases (get_ip_address_object_from_record r)) [
        | inl f ↦ rw (process_live, e, f) v
        | inr (a, f) ↦ rw (process_live, e, f) (process_address-IsRepeatless a i v)
      ]
      | inr e ↦ rw (process_live, e) v
    ]
process_live-IsRepeatless c now r (text t) i v = elim (Bool-cases (text_eq r.key i.key)) [
  | inl e ↦ rw (process_live, e) (record { once_v4 = v.once_v4; once_v6 = v.once_v6 })
  | inr e ↦ rw (process_live, e) v
]
process_live-IsRepeatless c now r (service p w o s k) i v =
    elim (Bool-cases (text_eq r.key i.key)) [
      | inl e ↦ rw (process_live, e) (process_service-IsRepeatless c now r p w o s k i v)
      | inr e ↦ rw (process_live, e) v
    ]
process_live-IsRepeatless c now r (hinfo a b) i v = v
process_live-IsRepeatless c now r (pointer a b) i v = v
process_live-IsRepeatless c now r (nsec a b) i v = v

pub process_record-IsRepeatless :
    (c : DnsCache) (now : ℕ) (r : Record) (i : ServiceInfo)
    → IsRepeatless i
    → IsRepeatless (process_record c now r i).0
unfolding process_record
process_record-IsRepeatless c now r i v = elim (Bool-cases (is_expired r now)) [
  | inl e ↦ rw (process_record, e) v
  | inr e ↦ rw (process_record, e) (process_live-IsRepeatless c now r r.rdata i v)
]

process_records-IsRepeatless :
    (c : DnsCache) (now : ℕ) (rs : List Record) (i : ServiceInfo)
    → IsRepeatless i
    → IsRepeatless (process_records c now rs i).0
unfolding process_records
process_records-IsRepeatless c now [] i v = v
process_records-IsRepeatless c now (r ∷ rs) i v =
    process_records-IsRepeatless c now rs (process_record c now r i).0
      (process_record-IsRepeatless c now r i v)

process_cached-IsRepeatless :
    (c : DnsCache) (now : ℕ) (o : Option Record) (i : ServiceInfo)
    → IsRepeatless i
    → IsRepeatless (process_cached c now o i)
unfolding process_cached
process_cached-IsRepeatless c now none i v = v
process_cached-IsRepeatless c now (some r) i v = process_record-IsRepeatless c now r i v

-- A service that has no address twice has none twice when it has been loaded from any cache, and
-- when it has learned from any update.
pub learned-IsRepeatless :
    (resolver : Resolver) (c : DnsCache) (now : ℕ) (us : List RecordUpdate) (i : ServiceInfo)
    → IsRepeatless i
    → IsRepeatless (load_from_cache resolver c now i).0
      × IsRepeatless (async_update_records c now us i).0
unfolding load_from_cache async_update_records
learned-IsRepeatless resolver c now us i v =
    let i1 = process_cached c now (get_by_details i.name Types.srv class_in c) i in
    let v1 = process_cached-IsRepeatless c now (get_by_details i.name Types.srv class_in c) i v in
    let i2 = process_cached c now (get_by_details i1.name Types.txt class_in c) i1 in
    let v2 =
      process_cached-IsRepeatless c now (get_by_details i1.name Types.txt class_in c) i1 v1 in
    let i3 = (process_records c now (address_records c Types.a i2) i2).0 in
    let v3 = process_records-IsRepeatless c now (address_records c Types.a i2) i2 v2 in
    let v4 = process_records-IsRepeatless c now (address_records c Types.aaaa i3) i3 v3 in
    (
      elim (Bool-cases (same_key i.server_key i2.server_key)) [
        | inl e ↦ rw (load_from_cache, e) v4
        | inr e ↦ rw (load_from_cache, e) v2
      ],
      process_records-IsRepeatless c now (map (λ u. u.new) us) i v,
    )
