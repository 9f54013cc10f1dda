-- ===== src/Registry/Reads.antt =====
-- The reads of `ServiceRegistry` through its indexes.
use lscamoflash.Prelude.Dict.{Dict}
use lscamoflash.Services.{ServiceInfo}
use lscamoflash.Registry.Indexes.{IsConsistent, IsIndex, listed, type_key, count}
use lscamoflash.Prelude.{
  All, List, Option, Option-cases, Text, [], arith, inl, inr, none, refl, some, text_eq,
  text_eq_iff, ◌∷◌, ◌≡◌, ◌≤◌,
}
use lscamoflash.Prelude.Dict
use lscamoflash.Registry.{
  ok, ServiceRegistry, async_get_by_index, async_get_infos_server, async_get_infos_type, infos_of,
  names_at,
}

pub infos_of-All :
    (P : ServiceInfo → Type 0) (ns : List Text) (m : Dict Text ServiceInfo)
    → ((n : Text) → 1 ≤ count n ns → (i : ServiceInfo) × (Dict.get text_eq n m ≡ some i) × P i)
    → (is : List ServiceInfo) × (infos_of ns m ≡ ok is) × All P is
unfolding infos_of count
infos_of-All P [] m h = ([], refl, tt)
infos_of-All P (n ∷ ns) m h =
    let (i, e, p) = h n (ground (arith, text_eq_iff n n)) in
    let (is, f, a) = infos_of-All P ns m (λ j le. h j (ground (arith, le))) in
    (i ∷ is, rw (e, infos_of) (rw f refl), (p, a))

-- A name that an index lists is that of a service with this key.
pub listed_at :
    (key_of : ServiceInfo → Option Text) (k : Text) (o : Option ServiceInfo)
    → 1 ≤ listed key_of k o
    → (i : ServiceInfo) × (o ≡ some i) × (key_of i ≡ some k)
unfolding listed
listed_at key_of k none h = absurd (omega (arith, h))
listed_at key_of k (some i) h = (
  i,
  refl,
  elim (Option-cases (key_of i)) [
    | inl e ↦ absurd (ground (arith, e, h))
    | inr (j, e) ↦ ground (arith, e, h, text_eq_iff j k)
  ],
)

index-All :
    (key_of : ServiceInfo → Option Text) (k : Text) (index : Dict Text (List Text))
    (s : ServiceRegistry)
    → IsIndex key_of index s.services
    → (is : List ServiceInfo) × (async_get_by_index index k s ≡ ok is)
      × All (λ i. key_of i ≡ some k) is
unfolding async_get_by_index
index-All key_of k index s v =
    infos_of-All (λ i. key_of i ≡ some k) (names_at k index) s.services
      (λ n le. listed_at key_of k (Dict.get text_eq n s.services) (omega (arith, le, v k n)))

-- From a registry whose indexes are in step, `async_get_infos_type` and `async_get_infos_server`
-- raise nothing: they return services of the type, and services of the server.
pub async_get_infos-All :
    (k : Text) (s : ServiceRegistry)
    → IsConsistent s
    → ((is : List ServiceInfo) × (async_get_infos_type k s ≡ ok is)
        × All (λ i. type_key i ≡ some k) is)
      × ((is : List ServiceInfo) × (async_get_infos_server k s ≡ ok is)
          × All (λ i. i.server_key ≡ some k) is)
unfolding async_get_infos_type async_get_infos_server
async_get_infos-All k s v = (
  index-All type_key k s.types s v.by_type,
  index-All (λ i. i.server_key) k s.servers s v.by_server,
)
