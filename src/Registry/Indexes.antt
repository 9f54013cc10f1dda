-- ===== src/Registry/Indexes.antt =====
-- The indexes of `ServiceRegistry`, by type and by server, against its services.
use lscamoflash.Prelude.Dict.{Dict, values}
use lscamoflash.Registry.{
  ServiceRegistry, add_with_server, append_name, async_add, async_get_info_name, names_at, ok,
}
use lscamoflash.Services.{ServiceInfo}
use lscamoflash.Prelude.{
  ℕ, List, Option, Text, [], arith, if◌then◌else◌, lower, none, refl, some, text_eq, text_eq_iff,
  true, ◌++◌, ◌+◌, ◌∷◌, ◌≡◌, Bool-cases, inl, inr, ◌∙◌,
}
use lscamoflash.Prelude.Dict

-- How often a name stands in a list.
unfoldable pub count : Text → List Text → ℕ
count n [] = 0
count n (m ∷ ms) = if text_eq m n then 1 + count n ms else count n ms

-- Whether a service is to be listed under a key of an index, for what `key_of` reads.
unfoldable pub listed : (ServiceInfo → Option Text) → Text → Option ServiceInfo → ℕ
listed key_of k none = 0
listed key_of k (some i) = elim (key_of i) [ none ↦ 0 | some j ↦ if text_eq j k then 1 else 0 ]

unfoldable pub type_key : ServiceInfo → Option Text
type_key i = some (lower i.type)

-- An index lists each service once under its own key, and nothing else.
abbrev pub IsIndex :
    (ServiceInfo → Option Text) → Dict Text (List Text) → Dict Text ServiceInfo → Type 0
IsIndex key_of index services =
    (k n : Text) → count n (names_at k index) ≡ listed key_of k (Dict.get text_eq n services)

-- Both indexes are in step; every service is registered under its key and has a server.
pub record IsConsistent (s : ServiceRegistry) : Type 0 where
  pub by_type : IsIndex type_key s.types s.services
  pub by_server : IsIndex (λ i. i.server_key) s.servers s.services
  pub has_server :
      (n : Text) (i : ServiceInfo)
      → Dict.get text_eq n s.services ≡ some i
      → (k : Text) × (i.server_key ≡ some k)

count-snoc :
    (n m : Text) (ms : List Text)
    → count n (ms ++ (m ∷ [])) ≡ (if text_eq m n then 1 + count n ms else count n ms)
unfolding count
count-snoc n m [] = refl
count-snoc n m (x ∷ ms) = ground (arith, count-snoc n m ms)

names_at-append_name :
    (k j n : Text) (m : Dict Text (List Text))
    → names_at j (append_name k n m)
      ≡ (if text_eq k j then names_at k m ++ (n ∷ []) else names_at j m)
unfolding names_at append_name
names_at-append_name k j n m = ground (arith, Dict.get-insert_text k j (names_at k m ++ (n ∷ [])) m)

-- Adding a service to an index and to the services keeps them in step.
append_name-IsIndex :
    (key_of : ServiceInfo → Option Text) (i : ServiceInfo) (k : Text)
    (index : Dict Text (List Text)) (services : Dict Text ServiceInfo)
    → key_of i ≡ some k
    → Dict.get text_eq i.key services ≡ none
    → IsIndex key_of index services
    → IsIndex key_of (append_name k i.key index) (Dict.insert text_eq i.key i services)
unfolding listed
append_name-IsIndex key_of i k index services e free v j n = ground (
  arith,
  e,
  free,
  v j n,
  v k n,
  text_eq_iff i.key n,
  text_eq_iff k j,
  names_at-append_name k j i.key index,
  count-snoc n i.key (names_at k index),
  Dict.get-insert_text i.key n i services,
)

-- What `_add` makes of the registry
unfoldable pub with_service : Text → ServiceInfo → ServiceRegistry → ServiceRegistry
with_service k i s = record {
  services = Dict.insert text_eq i.key i s.services;
  types = append_name (lower i.type) i.key s.types;
  servers = append_name k i.key s.servers;
  has_entries = true;
}

add_with_server_free :
    (k : Text) (i : ServiceInfo) (s : ServiceRegistry)
    → Dict.get text_eq i.key s.services ≡ none
    → add_with_server k i s ≡ ok (with_service k i s)
unfolding add_with_server Dict.has with_service
add_with_server_free k i s free = rw (free, Dict.has, add_with_server) refl

async_add_at :
    (k : Text) (i : ServiceInfo) (s : ServiceRegistry)
    → i.server_key ≡ some k
    → async_add i s ≡ add_with_server k i s
unfolding async_add
async_add_at k i s e = ground (arith, e)

has_server-insert :
    (k : Text) (i : ServiceInfo) (services : Dict Text ServiceInfo) (n : Text) (i' : ServiceInfo)
    → i.server_key ≡ some k
    → (Dict.get text_eq n services ≡ some i' → (j : Text) × (i'.server_key ≡ some j))
    → Dict.get text_eq n (Dict.insert text_eq i.key i services) ≡ some i'
    → (j : Text) × (i'.server_key ≡ some j)
has_server-insert k i services n i' e v h =
    let r = Dict.get-insert_text i.key n i services in
    elim (Bool-cases (text_eq i.key n)) [
      | inl t ↦ (k, ground (arith, e, r, t, h))
      | inr t ↦ v (ground (arith, r, t, h))
    ]

-- `async_add` of a service that has a server and whose key is free succeeds, registers exactly that
-- service, and keeps the indexes in step.
pub async_add-IsConsistent :
    (i : ServiceInfo) (k : Text) (s : ServiceRegistry)
    → IsConsistent s
    → i.server_key ≡ some k
    → async_get_info_name i.key s ≡ none
    → (s' : ServiceRegistry) × (async_add i s ≡ ok s')
      × IsConsistent s'
      × ((n : Text)
          → async_get_info_name n s'
            ≡ (if text_eq i.key n then some i else async_get_info_name n s))
unfolding async_get_info_name with_service
async_add-IsConsistent i k s v e free = (
  with_service k i s,
  async_add_at k i s e ∙ add_with_server_free k i s free,
  record {
    by_type =
        append_name-IsIndex type_key i (lower i.type) s.types s.services (unfold type_key in refl)
          free v.by_type;
    by_server = append_name-IsIndex (λ x. x.server_key) i k s.servers s.services e free v.by_server;
    has_server = λ n i' h. has_server-insert k i s.services n i' e (v.has_server n i') h;
  },
  λ n. Dict.get-insert_text i.key n i s.services,
)
