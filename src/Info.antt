-- ===== src/Info.antt =====
-- How a `ServiceInfo` of SOURCE/src/modules/python/zeroconf/src/zeroconf/_services/info.py learns from
-- records, from those of an update and from those of the cache.
pub mod Request
pub mod Pacing
pub mod Verdict
pub mod Addresses
use lscamoflash.Cache.{DnsCache, async_all_by_details, get_by_details}
use lscamoflash.Const.{class_in}
use lscamoflash.Manager.{RecordUpdate}
use lscamoflash.Const.Types
use lscamoflash.Prelude.{
  ℕ, Bool, List, Option, Text, [], any_of, false, if◌then◌else◌, length, map, none, not, some,
  text_eq, true, ◌&&◌, ◌==◌, ◌||◌, ◌∷◌,
}
use lscamoflash.Dns.{Record, RData, address, text, service, is_expired}
use lscamoflash.Services.{ServiceInfo}
use lscamoflash.IpAddress.{IpAddress, get_ip_address_object_from_record, ip_eq, is_v4}

-- `addresses.remove(ip_addr)`: the first one that is equal
unfoldable pub remove_address : IpAddress → List IpAddress → List IpAddress
unfolding ip_eq
remove_address a [] = []
remove_address a (b ∷ l) = if ip_eq a b then l else b ∷ remove_address a l

-- A known address comes to the front, unless the front has its number.
unfoldable pub move_to_front : IpAddress → List IpAddress → List IpAddress
unfolding remove_address
move_to_front a [] = []
move_to_front a (b ∷ l) = if text_eq a.packed b.packed then b ∷ l else a ∷ remove_address a (b ∷ l)

-- The list of one version with an address, and whether the address is new
unfoldable pub learn_address : IpAddress → List IpAddress → List IpAddress × Bool
unfolding move_to_front
learn_address a l = if any_of (ip_eq a) l then (move_to_front a l, false) else (a ∷ l, true)

-- An address of the service's server
unfoldable pub process_address : IpAddress → ServiceInfo → ServiceInfo × Bool
unfolding learn_address is_v4
process_address a i =
    if is_v4 a
    then (
      record i { ipv4_addresses = (learn_address a i.ipv4_addresses).0 },
      (learn_address a i.ipv4_addresses).1,
    )
    else (
      record i { ipv6_addresses = (learn_address a i.ipv6_addresses).0 },
      (learn_address a i.ipv6_addresses).1,
    )

-- `ServiceInfo._get_address_records_from_cache_by_type`
unfoldable pub address_records : DnsCache → ℕ → ServiceInfo → List Record
unfolding async_all_by_details
address_records c type i = elim i.server_key [
  | none ↦ []
  | some key ↦ async_all_by_details key type class_in c
]

-- The loop of `_get_ip_addresses_from_cache_lifo`, whose list is kept reversed
unfoldable pub add_addresses : ℕ → List Record → List IpAddress → List IpAddress
unfolding ip_eq is_expired get_ip_address_object_from_record
add_addresses now [] l = l
add_addresses now (r ∷ rs) l = elim (get_ip_address_object_from_record r) [
  | none ↦ add_addresses now rs l
  | some a ↦ add_addresses now rs (if is_expired r now || any_of (ip_eq a) l then l else a ∷ l)
]

-- `ServiceInfo._get_ip_addresses_from_cache_lifo`
unfoldable pub get_ip_addresses_from_cache_lifo : DnsCache → ℕ → ℕ → ServiceInfo → List IpAddress
unfolding address_records add_addresses
get_ip_addresses_from_cache_lifo c now type i = add_addresses now (address_records c type i) []

-- `_set_ipv4_addresses_from_cache` and `_set_ipv6_addresses_from_cache`
unfoldable pub set_addresses_from_cache : DnsCache → ℕ → ServiceInfo → ServiceInfo
unfolding get_ip_addresses_from_cache_lifo
set_addresses_from_cache c now i = record i {
  ipv4_addresses = get_ip_addresses_from_cache_lifo c now Types.a i;
  ipv6_addresses = get_ip_addresses_from_cache_lifo c now Types.aaaa i;
}

-- `a == b`, where either may be None
unfoldable pub is_key : Text → Option Text → Bool
is_key k none = false
is_key k (some k') = text_eq k k'

-- A service record of the service's name
unfoldable pub process_service :
    DnsCache → ℕ → Record → ℕ → ℕ → ℕ → Text → Text → ServiceInfo → ServiceInfo
unfolding set_addresses_from_cache is_key
process_service c now r priority weight port server server_key i =
    let i' : ServiceInfo = record i {
      name = r.name;
      key = r.key;
      server = some server;
      server_key = some server_key;
      port = port;
      weight = weight;
      priority = priority;
    } in
    if is_key server_key i.server_key then i' else set_addresses_from_cache c now i'

-- A record that is not expired, by its class
unfoldable pub process_live : DnsCache → ℕ → Record → RData → ServiceInfo → ServiceInfo × Bool
unfolding process_address process_service is_key get_ip_address_object_from_record
process_live c now r (address b scope) i =
    if is_key r.key i.server_key
    then elim (get_ip_address_object_from_record r) [
      | none ↦ (i, false)
      | some a ↦ process_address a i
    ]
    else (i, false)
process_live c now r (text t) i =
    if text_eq r.key i.key then (record i { text = t }, true) else (i, false)
process_live c now r (service priority weight port server server_key) i =
    if text_eq r.key i.key
    then (process_service c now r priority weight port server server_key i, true)
    else (i, false)
process_live c now r _ i = (i, false)

-- `ServiceInfo._process_record_threadsafe`: the service, and whether it is updated
unfoldable pub process_record : DnsCache → ℕ → Record → ServiceInfo → ServiceInfo × Bool
unfolding process_live is_expired
process_record c now r i = if is_expired r now then (i, false) else process_live c now r r.rdata i

-- The loop of `ServiceInfo.async_update_records`: the service, and whether who waits is woken
unfoldable pub process_records : DnsCache → ℕ → List Record → ServiceInfo → ServiceInfo × Bool
unfolding process_record
process_records c now [] i = (i, false)
process_records c now (r ∷ rs) i =
    let (i1, updated) = process_record c now r i in
    let (i2, more) = process_records c now rs i1 in (i2, updated || more)

-- `ServiceInfo.async_update_records`
unfoldable pub async_update_records :
    DnsCache → ℕ → List RecordUpdate → ServiceInfo → ServiceInfo × Bool
unfolding process_records
async_update_records c now us i = process_records c now (map (λ u. u.new) us) i

-- A cached record, if there is one
unfoldable pub process_cached : DnsCache → ℕ → Option Record → ServiceInfo → ServiceInfo
unfolding process_record
process_cached c now none i = i
process_cached c now (some r) i = (process_record c now r i).0

-- `ServiceInfo` and its subclasses `AddressResolver`, `AddressResolverIPv6` and
-- `AddressResolverIPv4`
pub data Resolver : Type 0 where
  service_info address_resolver address_resolver_ipv6 address_resolver_ipv4 : Resolver

-- `_is_complete` of the classes
unfoldable pub is_complete : Resolver → ServiceInfo → Bool
is_complete address_resolver_ipv6 i = not (length i.ipv6_addresses == 0)
is_complete address_resolver_ipv4 i = not (length i.ipv4_addresses == 0)
is_complete _ i = not ((length i.ipv4_addresses == 0) && (length i.ipv6_addresses == 0))

unfoldable pub same_key : Option Text → Option Text → Bool
unfolding is_key
same_key none none = true
same_key none (some k) = false
same_key (some k) o = is_key k o

-- `ServiceInfo._load_from_cache`: the service, and whether it is complete
unfoldable pub load_from_cache : Resolver → DnsCache → ℕ → ServiceInfo → ServiceInfo × Bool
unfolding process_cached get_by_details same_key address_records process_records is_complete
load_from_cache resolver c now i =
    let i1 = process_cached c now (get_by_details i.name Types.srv class_in c) i in
    let i2 = process_cached c now (get_by_details i1.name Types.txt class_in c) i1 in
    let i3 = (process_records c now (address_records c Types.a i2) i2).0 in
    let i4 = (process_records c now (address_records c Types.aaaa i3) i3).0 in
    let i' = if same_key i.server_key i2.server_key then i4 else i2 in (i', is_complete resolver i')
