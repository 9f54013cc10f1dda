-- ===== src/Registry.antt =====
-- `ServiceRegistry` of SOURCE/src/modules/python/zeroconf/src/zeroconf/_services/registry.py.
pub mod Indexes
pub mod Reads
pub mod Removal
use lscamoflash.Services.{ServiceInfo}
use lscamoflash.Prelude.Dict.{Dict, keys, values}
use lscamoflash.Prelude.Dict
use lscamoflash.Prelude.{
  Bool, List, Option, Text, [], false, if◌then◌else◌, lower, none, some, text_eq, true, ◌++◌, ◌∷◌,
}

pub record ServiceRegistry : Type 0 where
  pub services : Dict Text ServiceInfo
  pub types : Dict Text (List Text)
  pub servers : Dict Text (List Text)
  pub has_entries : Bool

abbrev pub empty_registry : ServiceRegistry
empty_registry = record { services = []; types = []; servers = []; has_entries = false }

pub data RegistryError : Type 0 where
  assertion_error service_name_already_registered key_error value_error : RegistryError

pub data Registered {ℓ} (A : Type ℓ) : Type ℓ where
  ok : A → Registered A
  err : RegistryError → Registered A

infixl 5 ◌>>=◌
abbrev pub ◌>>=◌ {ℓ κ} :
    {A : Type ℓ} {B : Type κ} → Registered A → (A → Registered B) → Registered B
ok a >>= f = f a
err e >>= f = err e

-- `index.get(key, [])`
unfoldable pub names_at : Text → Dict Text (List Text) → List Text
names_at k m = elim (Dict.get text_eq k m) [ none ↦ [] | some ns ↦ ns ]

-- `index.setdefault(key, []).append(name)`
unfoldable pub append_name : Text → Text → Dict Text (List Text) → Dict Text (List Text)
unfolding names_at
append_name k n m = Dict.insert text_eq k (names_at k m ++ (n ∷ [])) m

-- `names.remove(name)`: the first occurrence, or a ValueError
unfoldable pub remove_name : Text → List Text → Registered (List Text)
remove_name n [] = err value_error
remove_name n (m ∷ ms) =
    let rest = remove_name n ms in
    elim (text_eq m n) [ true ↦ ok ms | false ↦ do ms' ← rest; ok (m ∷ ms') ]

-- `index[key].remove(name)`
unfoldable pub remove_from_index :
    Text → Text → Dict Text (List Text) → Registered (Dict Text (List Text))
unfolding remove_name
remove_from_index k n m = elim (Dict.get text_eq k m) [
  | none ↦ err key_error
  | some ns ↦ do ns' ← remove_name n ns; ok (Dict.insert text_eq k ns' m)
]

-- `ServiceRegistry._add` behind the assertion
unfoldable pub add_with_server : Text → ServiceInfo → ServiceRegistry → Registered ServiceRegistry
unfolding append_name
add_with_server server_key i s =
    if Dict.has text_eq i.key s.services
    then err service_name_already_registered
    else ok (record {
      services = Dict.insert text_eq i.key i s.services;
      types = append_name (lower i.type) i.key s.types;
      servers = append_name server_key i.key s.servers;
      has_entries = true;
    })

-- `ServiceRegistry._add` and `async_add`
unfoldable pub async_add : ServiceInfo → ServiceRegistry → Registered ServiceRegistry
unfolding add_with_server
async_add i s = elim i.server_key [
  | none ↦ err assertion_error
  | some server_key ↦ add_with_server server_key i s
]

unfoldable pub is_nonempty : Dict Text ServiceInfo → Bool
is_nonempty [] = false
is_nonempty (e ∷ es) = true

-- One round of `ServiceRegistry._remove`, for the service `old` that is registered
unfoldable pub remove_registered : Text → ServiceInfo → ServiceRegistry → Registered ServiceRegistry
unfolding remove_from_index
remove_registered key old s = elim old.server_key [
  | none ↦ err assertion_error
  | some server_key ↦ do
    types ← remove_from_index (lower old.type) key s.types
    servers ← remove_from_index server_key key s.servers
    ok (record s {
      services = Dict.delete text_eq key s.services;
      types = types;
      servers = servers;
    })
]

unfoldable pub remove_loop : List ServiceInfo → ServiceRegistry → Registered ServiceRegistry
unfolding remove_registered
remove_loop [] s = ok s
remove_loop (i ∷ is) s =
    let rest = remove_loop is in
    elim (Dict.get text_eq i.key s.services) [
      | none ↦ rest s
      | some old ↦ remove_registered i.key old s >>= rest
    ]

-- `ServiceRegistry._remove` and `async_remove`
unfoldable pub async_remove : List ServiceInfo → ServiceRegistry → Registered ServiceRegistry
unfolding remove_loop is_nonempty
async_remove is s = do
  s' ← remove_loop is s
  ok (record s' { has_entries = is_nonempty s'.services })

-- `ServiceRegistry.async_update`
unfoldable pub async_update : ServiceInfo → ServiceRegistry → Registered ServiceRegistry
unfolding async_remove async_add
async_update i s = async_remove (i ∷ []) s >>= async_add i

-- `ServiceRegistry.async_get_info_name`
unfoldable pub async_get_info_name : Text → ServiceRegistry → Option ServiceInfo
async_get_info_name name s = Dict.get text_eq name s.services

-- `ServiceRegistry.async_get_types`
unfoldable pub async_get_types : ServiceRegistry → List Text
async_get_types s = keys s.types

unfoldable pub async_get_service_infos : ServiceRegistry → List ServiceInfo
async_get_service_infos s = values s.services

-- `[self._services[name] for name in record_list]`
unfoldable pub infos_of : List Text → Dict Text ServiceInfo → Registered (List ServiceInfo)
infos_of [] m = ok []
infos_of (n ∷ ns) m =
    let rest = infos_of ns m in
    elim (Dict.get text_eq n m) [ none ↦ err key_error | some i ↦ do is ← rest; ok (i ∷ is) ]

-- `ServiceRegistry._async_get_by_index`
unfoldable pub async_get_by_index :
    Dict Text (List Text) → Text → ServiceRegistry → Registered (List ServiceInfo)
unfolding infos_of names_at
async_get_by_index index key s = infos_of (names_at key index) s.services

unfoldable pub async_get_infos_type : Text → ServiceRegistry → Registered (List ServiceInfo)
unfolding async_get_by_index
async_get_infos_type type s = async_get_by_index s.types type s

unfoldable pub async_get_infos_server : Text → ServiceRegistry → Registered (List ServiceInfo)
unfolding async_get_by_index
async_get_infos_server server s = async_get_by_index s.servers server s
