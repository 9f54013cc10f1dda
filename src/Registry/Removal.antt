-- ===== src/Registry/Removal.antt =====
-- `ServiceRegistry._remove` and the indexes.
use lscamoflash.Services.{ServiceInfo}
use lscamoflash.Registry.Indexes.{IsConsistent, IsIndex, type_key, count, listed}
use lscamoflash.Prelude.Dict.{Dict, values}
use lscamoflash.Prelude.{
  ℕ, Bool, Bool-cases, List, Option, Option-cases, Text, [], any_of, arith, false, if◌then◌else◌,
  inl, inr, lower, none, refl, some, suc, text_eq, text_eq_iff, ◌↔◌, ◌∙◌, ◌∷◌, ◌≡◌,
}
use lscamoflash.Prelude.Dict
use lscamoflash.Registry.{
  ok, ServiceRegistry, async_get_info_name, async_get_service_infos, async_remove, is_nonempty,
  names_at, remove_from_index, remove_loop, remove_name, remove_registered,
}

remove_name_skip :
    (n m : Text) (ms ms' : List Text)
    → text_eq m n ≡ false
    → remove_name n ms ≡ ok ms'
    → remove_name n (m ∷ ms) ≡ ok (m ∷ ms')
unfolding remove_name
remove_name_skip n m ms ms' t e = ground (arith, t, e)

-- `names.remove(name)` of a name that is there takes one occurrence out.
remove_name_lem :
    (n : Text) (ns : List Text) (c : ℕ)
    → count n ns ≡ suc c
    → (ns' : List Text) × (remove_name n ns ≡ ok ns')
      × ((m : Text) → count m ns' ≡ (if text_eq n m then c else count m ns))
unfolding remove_name count
remove_name_lem n [] c h = absurd (omega (arith, h))
remove_name_lem n (m ∷ ms) c h = elim (Bool-cases (text_eq m n)) [
  | inl t ↦
      (ms, rw (t, remove_name) refl, λ j. ground (arith, h, t, text_eq_iff m n, text_eq_iff n j))
  | inr t ↦
      let (ms', e, f) = remove_name_lem n ms c (ground (arith, h, t)) in
      (
        m ∷ ms',
        remove_name_skip n m ms ms' t e,
        λ j. ground (arith, f j, t, text_eq_iff m n, text_eq_iff n j, text_eq_iff m j),
      )
]

-- What `_remove` leaves of an index
remove_from_index-IsIndex :
    (key_of : ServiceInfo → Option Text) (old : ServiceInfo) (k n : Text)
    (index : Dict Text (List Text)) (services : Dict Text ServiceInfo)
    → key_of old ≡ some k
    → Dict.get text_eq n services ≡ some old
    → IsIndex key_of index services
    → (index' : Dict Text (List Text)) × (remove_from_index k n index ≡ ok index')
      × IsIndex key_of index' (Dict.delete text_eq n services)
unfolding remove_from_index
remove_from_index-IsIndex key_of old k n index services e h v =
    let once : count n (names_at k index) ≡ 1 =
      v k n ∙ unfold listed in ground (arith, h, e, text_eq_iff k k) in
    elim (Option-cases (Dict.get text_eq k index)) [
      | inl g ↦ absurd (unfold names_at count in ground (arith, g, once))
      | inr (ns, g) ↦
          let (ns', removed, left) =
            remove_name_lem n ns 0 (unfold names_at in ground (arith, g, once)) in
          (
            Dict.insert text_eq k ns' index,
            rw (g, removed, remove_from_index) refl,
            λ j m.
                unfold names_at listed in
                ground (
                  arith,
                  g,
                  left m,
                  v j m,
                  e,
                  h,
                  text_eq_iff k j,
                  text_eq_iff n m,
                  Dict.get-insert_text k j ns' index,
                  Dict.get-delete_text n m services,
                ),
          )
    ]

-- What a removal does to the registry: the indexes stay in step, and the services are gone.
Removes : (Text → Bool) → ServiceRegistry → ServiceRegistry → Type 0
Removes gone s s' =
    IsConsistent s'
    × ((n : Text)
        → Dict.get text_eq n s'.services ≡ (if gone n then none else Dict.get text_eq n s.services))

remove_registered_at :
    (n k : Text) (old : ServiceInfo) (s : ServiceRegistry) (types servers : Dict Text (List Text))
    → old.server_key ≡ some k
    → remove_from_index (lower old.type) n s.types ≡ ok types
    → remove_from_index k n s.servers ≡ ok servers
    → remove_registered n old s
      ≡ ok (record s {
        services = Dict.delete text_eq n s.services;
        types = types;
        servers = servers;
      })
unfolding remove_registered
remove_registered_at n k old s types servers e et es = ground (arith, e, et, es)

is_nonempty-values : (m : Dict Text ServiceInfo) → (is_nonempty m ≡ false) ↔ (values m ≡ [])
unfolding is_nonempty
is_nonempty-values [] = ground arith
is_nonempty-values ((k, i) ∷ m) = ground arith

remove_registered_lem :
    (n : Text) (old : ServiceInfo) (s : ServiceRegistry)
    → IsConsistent s
    → Dict.get text_eq n s.services ≡ some old
    → (s' : ServiceRegistry) × (remove_registered n old s ≡ ok s') × Removes (text_eq n) s s'
unfolding Removes
remove_registered_lem n old s v h =
    let (k, e) = v.has_server n old h in
    let (types, et, vt) =
      remove_from_index-IsIndex type_key old (lower old.type) n s.types s.services
        (unfold type_key in refl) h v.by_type in
    let (servers, es, vs) =
      remove_from_index-IsIndex (λ x. x.server_key) old k n s.servers s.services e h v.by_server in
    let s' : ServiceRegistry = record s {
      services = Dict.delete text_eq n s.services;
      types = types;
      servers = servers;
    } in
    let left = λ (m : Text). Dict.get-delete_text n m s.services in
    (
      s',
      remove_registered_at n k old s types servers e et es,
      (
        record {
          by_type = vt;
          by_server = vs;
          has_server = λ m i g. v.has_server m i (ground (arith, left m, g));
        },
        left,
      ),
    )

remove_loop_lem :
    (is : List ServiceInfo) (s : ServiceRegistry)
    → IsConsistent s
    → (s' : ServiceRegistry) × (remove_loop is s ≡ ok s')
      × Removes (λ n. any_of (λ i. text_eq i.key n) is) s s'
unfolding remove_loop Removes
remove_loop_lem [] s v = (s, refl, (v, λ n. refl))
remove_loop_lem (i ∷ is) s v = elim (Option-cases (Dict.get text_eq i.key s.services)) [
  | inl g ↦
      let (s', e, (v', left)) = remove_loop_lem is s v in
      (s', rw (g, remove_loop) e, (v', λ n. ground (arith, left n, g, text_eq_iff i.key n)))
  | inr (old, g) ↦
      let (s1, e1, (v1, left1)) = remove_registered_lem i.key old s v g in
      let (s2, e2, (v2, left2)) = remove_loop_lem is s1 v1 in
      (s2, rw (g, remove_loop) (rw e1 e2), (v2, λ n. ground (arith, left1 n, left2 n)))
]

-- `async_remove` of any services, from a registry whose indexes are in step, raises nothing, takes
-- exactly the services with those keys out, keeps the indexes in step and notes whether any service
-- is left.
pub async_remove-IsConsistent :
    (is : List ServiceInfo) (s : ServiceRegistry)
    → IsConsistent s
    → (s' : ServiceRegistry) × (async_remove is s ≡ ok s')
      × IsConsistent s'
      × ((n : Text)
          → async_get_info_name n s'
            ≡ (if any_of (λ i. text_eq i.key n) is then none else async_get_info_name n s))
      × ((s'.has_entries ≡ false) ↔ (async_get_service_infos s' ≡ []))
unfolding async_remove async_get_info_name async_get_service_infos Removes
async_remove-IsConsistent is s v =
    let (s1, e, (v1, left)) = remove_loop_lem is s v in
    (
      record s1 { has_entries = is_nonempty s1.services },
      rw e refl,
      record { by_type = v1.by_type; by_server = v1.by_server; has_server = v1.has_server },
      left,
      is_nonempty-values s1.services,
    )
