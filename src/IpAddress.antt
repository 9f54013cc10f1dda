-- ===== src/IpAddress.antt =====
-- SOURCE/src/modules/python/zeroconf/src/zeroconf/_utils/ipaddress.py: an address is its bytes, 4 or 16
-- of them, and the scope of an IPv6 address. The caches are left out.
use lscamoflash.Dns.{Record, address, option_eq}
use lscamoflash.Const.Types
use lscamoflash.Prelude.{
  ℕ, Bool, Bytes, Option, byte_at, if◌then◌else◌, length, none, not, some, text_eq, ◌&&◌, ◌/◌, ◌==◌,
  ◌||◌,
}

-- `ZeroconfIPv4Address` and `ZeroconfIPv6Address`
pub record IpAddress : Type 0 where
  pub packed : Bytes
  pub scope : Option ℕ

-- `__eq__`, of the version, the number and the scope
unfoldable pub ip_eq : IpAddress → IpAddress → Bool
ip_eq a b = text_eq a.packed b.packed && option_eq a.scope b.scope

-- `version == 4`
unfoldable pub is_v4 : IpAddress → Bool
is_v4 a = length a.packed == 4

-- `cached_ip_addresses`, of bytes
unfoldable pub cached_ip_addresses : Bytes → Option IpAddress
cached_ip_addresses b =
    if (length b == 4) || (length b == 16) then some (record { packed = b; scope = none }) else none

-- `is_link_local`: 169.254.0.0/16 and fe80::/10
unfoldable pub is_link_local : Bytes → Bool
is_link_local b =
    if length b == 4
    then (byte_at b 0 == 169) && (byte_at b 1 == 254)
    else (byte_at b 0 == 254) && (byte_at b 1 / 64 == 2)

-- `ip_bytes_and_scope_to_address`; an IPv4 address with a scope is no address.
unfoldable pub ip_bytes_and_scope_to_address : Bytes → ℕ → Option IpAddress
unfolding cached_ip_addresses is_link_local
ip_bytes_and_scope_to_address b scope = elim (cached_ip_addresses b) [
  | none ↦ none
  | some a ↦
      if not (is_link_local b)
      then some a
      else if length b == 4
      then none
      else some (record { packed = b; scope = some scope })
]

-- `get_ip_address_object_from_record`, of what a `DNSAddress` holds; a scope of 0 is none.
unfoldable pub get_ip_address_object : ℕ → Bytes → Option ℕ → Option IpAddress
unfolding ip_bytes_and_scope_to_address cached_ip_addresses
get_ip_address_object type b none = cached_ip_addresses b
get_ip_address_object type b (some scope) =
    if (type == Types.aaaa) && not (scope == 0)
    then ip_bytes_and_scope_to_address b scope
    else cached_ip_addresses b

-- `get_ip_address_object_from_record`
unfoldable pub get_ip_address_object_from_record : Record → Option IpAddress
unfolding get_ip_address_object
get_ip_address_object_from_record r = elim r.rdata [
  | address b scope ↦ get_ip_address_object r.type b scope
  | _ ↦ none
]
