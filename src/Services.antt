-- ===== src/Services.antt =====
-- The parts of `ServiceInfo` of SOURCE/src/modules/python/zeroconf/src/zeroconf/_services/info.py
-- that the registry and the query handler use. Its record caches are left out: a record is built
-- anew, at the time that is passed.
use lscamoflash.Dns.{
  RData, Record, fast_init_record, nsec_of, pointer_of, record_eq, service_of, address,
}
use lscamoflash.Const.{class_in, class_in_unique}
use lscamoflash.IpAddress.{IpAddress, is_v4}
use lscamoflash.Const.Types
use lscamoflash.Prelude.{
  ℕ, Bytes, List, Option, Text, [], any_of, if◌then◌else◌, map, none, some, ◌++◌, ◌==◌, ◌∷◌,
}

pub record ServiceInfo : Type 0 where
  pub type : Text
  pub name : Text
  pub key : Text
  pub ipv4_addresses : List IpAddress
  pub ipv6_addresses : List IpAddress
  pub port : ℕ
  pub weight : ℕ
  pub priority : ℕ
  pub server : Option Text
  pub server_key : Option Text
  pub text : Bytes
  pub host_ttl : ℕ
  pub other_ttl : ℕ

unfoldable pub or_else : Option Text → Text → Text
or_else none d = d
or_else (some []) d = d
or_else (some (x ∷ s)) d = x ∷ s

unfoldable pub ttl_or : Option ℕ → ℕ → ℕ
ttl_or none d = d
ttl_or (some t) d = t

-- `ServiceInfo._dns_addresses`, of all IP versions
unfoldable pub dns_addresses : Option ℕ → ℕ → ServiceInfo → List Record
unfolding or_else ttl_or fast_init_record is_v4
dns_addresses override_ttl now i =
    map
      (λ a.
        fast_init_record (or_else i.server i.name) (if is_v4 a then Types.a else Types.aaaa)
          class_in_unique (ttl_or override_ttl i.host_ttl) now (address a.packed none))
      (i.ipv4_addresses ++ i.ipv6_addresses)

-- `ServiceInfo._dns_pointer`
unfoldable pub dns_pointer : Option ℕ → ℕ → ServiceInfo → Record
unfolding ttl_or fast_init_record pointer_of
dns_pointer override_ttl now i =
    fast_init_record i.type Types.ptr class_in (ttl_or override_ttl i.other_ttl) now
      (pointer_of i.name)

-- `ServiceInfo._dns_service`
unfoldable pub dns_service : Option ℕ → ℕ → ServiceInfo → Record
unfolding or_else ttl_or fast_init_record service_of
dns_service override_ttl now i =
    fast_init_record i.name Types.srv class_in_unique (ttl_or override_ttl i.host_ttl) now
      (service_of i.priority i.weight i.port (or_else i.server i.name))

-- `ServiceInfo._dns_text`
unfoldable pub dns_text : Option ℕ → ℕ → ServiceInfo → Record
unfolding ttl_or fast_init_record
dns_text override_ttl now i =
    fast_init_record i.name Types.txt class_in_unique (ttl_or override_ttl i.other_ttl) now
      (RData.text i.text)

-- `ServiceInfo._dns_nsec`
unfoldable pub dns_nsec : List ℕ → Option ℕ → ℕ → ServiceInfo → Record
unfolding ttl_or fast_init_record nsec_of
dns_nsec missing_types override_ttl now i =
    fast_init_record i.name Types.nsec class_in_unique (ttl_or override_ttl i.host_ttl) now
      (nsec_of i.name missing_types)

-- `_ADDRESS_RECORD_TYPES` without the types that were seen
unfoldable pub missing_types : List Record → List ℕ
missing_types seen =
    (if any_of (λ r. r.type == Types.a) seen then [] else Types.a ∷ [])
    ++ (if any_of (λ r. r.type == Types.aaaa) seen then [] else Types.aaaa ∷ [])

-- A set of records, as the list of its members: `s.add(r)`
unfoldable pub set_add : Record → List Record → List Record
set_add r s = if any_of (record_eq r) s then s else s ++ (r ∷ [])

unfoldable pub set_of : List Record → List Record → List Record
unfolding set_add
set_of [] s = s
set_of (r ∷ rs) s = set_of rs (set_add r s)

-- `ServiceInfo._get_address_and_nsec_records`; `none` is the failing assertion that the server is
-- set.
unfoldable pub get_address_and_nsec_records : Option ℕ → ℕ → ServiceInfo → Option (List Record)
unfolding dns_addresses missing_types set_of set_add dns_nsec
get_address_and_nsec_records override_ttl now i =
    let addresses = dns_addresses override_ttl now i in
    elim (missing_types addresses) [
      | [] ↦ some (set_of addresses [])
      | t ∷ ts ↦ elim i.server [
        | none ↦ none
        | some s ↦ some (set_add (dns_nsec (t ∷ ts) override_ttl now i) (set_of addresses []))
      ]
    ]

-- `ServiceInfo.set_server_if_missing`
unfoldable pub set_server_if_missing : ServiceInfo → ServiceInfo
set_server_if_missing i = elim i.server [
  | none ↦ record i { server = some i.name; server_key = some i.key }
  | some s ↦ i
]
