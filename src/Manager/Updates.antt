-- ===== src/Manager/Updates.antt =====
-- `async_updates_from_response` on a coherent cache.
use lscamoflash.Manager.{
  Pending, note_answer, note_answers, note_expired, note_live, note_unique, Event, apply_pending,
  async_updates_from_response, clamp_ttl, nothing_pending, events_of,
}
use lscamoflash.Const.{one_second}
use lscamoflash.Cache.{
  DnsCache, async_add, async_add_records, async_all_by_details, async_set_created_ttl, mark_records,
  mark_unique, async_get_unique,
}
use lscamoflash.Cache.Removal.{IsCached, IsDistinct, async_remove_records-IsCoherent}
use lscamoflash.Dns.{Record, record_eq, set_created_ttl, is_expired}
use lscamoflash.Cache.Coherent.{
  IsCoherent, async_add-IsCoherent, async_get_unique-async_add, async_add_records-IsCoherent,
}
use lscamoflash.Services.{set_add}
use lscamoflash.Prelude.{
  ℕ, All, Bool-cases, List, Text, [], any_of, arith, false, inl, inr, ltb, not, refl, ◌&&◌, ◌++◌,
  ◌+◌, ◌||◌, ◌∷◌, ◌≡◌, Option, none, some, Bool, map, true, ◌∙◌, All-snoc,
}

-- A record that is cached stays so when another is added.
IsCached-async_add : (r q : Record) (c : DnsCache) → IsCached c q → IsCached (async_add r c).0 q
IsCached-async_add r q c (old, e) = elim (Bool-cases (record_eq r q)) [
  | inl same ↦ (r, ground (arith, async_get_unique-async_add r q c, same))
  | inr other ↦ (old, ground (arith, async_get_unique-async_add r q c, other, e))
]

IsCached-async_add_records :
    (rs : List Record) (q : Record) (c : DnsCache)
    → IsCached c q
    → IsCached (async_add_records rs c).0 q
unfolding async_add_records
IsCached-async_add_records [] q c h = h
IsCached-async_add_records (r ∷ rs) q c h =
    IsCached-async_add_records rs q (async_add r c).0 (IsCached-async_add r q c h)

-- What the writes before the removals keep: a coherent cache, and what was cached.
Keeps : DnsCache → DnsCache → Type 0
Keeps c c' = IsCoherent c' × ((q : Record) → IsCached c q → IsCached c' q)

mark_records-Keeps :
    (now : ℕ) (answers rs : List Record) (c : DnsCache)
    → IsCoherent c
    → Keeps c (mark_records now answers rs c)
unfolding mark_records Keeps
mark_records-Keeps now answers [] c v = (v, λ q h. h)
mark_records-Keeps now answers (r ∷ rs) c v =
    elim (Bool-cases (ltb (r.created + one_second) now && not (any_of (record_eq r) answers))) [
      | inl e ↦ rw e (
          let r' = set_created_ttl r now 1 in
          let (v', k) =
            mark_records-Keeps now answers rs (async_add r' c).0 (async_add-IsCoherent r' c v) in
          unfold async_set_created_ttl in (v', λ q h. k q (IsCached-async_add r' q c h)))
      | inr e ↦ rw e (mark_records-Keeps now answers rs c v)
    ]

mark_unique-Keeps :
    (us : List (Text × ℕ × ℕ)) (answers : List Record) (now : ℕ) (c : DnsCache)
    → IsCoherent c
    → Keeps c (mark_unique us answers now c)
unfolding mark_unique Keeps
mark_unique-Keeps [] answers now c v = (v, λ q h. h)
mark_unique-Keeps ((name, type, class_) ∷ us) answers now c v =
    let (v1, k1) = mark_records-Keeps now answers (async_all_by_details name type class_ c) c v in
    let (v2, k2) = mark_unique-Keeps us answers now _ v1 in (v2, λ q h. k2 q (k1 q h))

-- The removals of a response are distinct and cached.
record RemovesFit (c : DnsCache) (p : Pending) : Type 0 where
  distinct : IsDistinct p.removes
  cached : All (IsCached c) p.removes

any_of-snoc :
    (r q : Record) (rs : List Record)
    → any_of (λ x. record_eq x r) (rs ++ (q ∷ []))
      ≡ (any_of (λ x. record_eq x r) rs || record_eq q r)
any_of-snoc r q [] = ground arith
any_of-snoc r q (x ∷ rs) = ground (arith, any_of-snoc r q rs)

snoc-IsDistinct :
    (r : Record) (rs : List Record)
    → any_of (record_eq r) rs ≡ false
    → IsDistinct rs
    → IsDistinct (rs ++ (r ∷ []))
snoc-IsDistinct r [] h d = (refl, tt)
snoc-IsDistinct r (x ∷ rs) h (dx, d) =
    (ground (arith, any_of-snoc x r rs, h), snoc-IsDistinct r rs (ground (arith, h)) d)

set_add-Fits :
    (c : DnsCache) (r : Record) (rs : List Record)
    → IsCached c r
    → IsDistinct rs
    → All (IsCached c) rs
    → IsDistinct (set_add r rs) × All (IsCached c) (set_add r rs)
unfolding set_add
set_add-Fits c r rs h d a = elim (Bool-cases (any_of (record_eq r) rs)) [
  | inl e ↦ rw e (d, a)
  | inr e ↦ rw e (snoc-IsDistinct r rs e d, All-snoc (IsCached c) rs r a h)
]

note_expired-RemovesFit :
    (c : DnsCache) (r : Record) (entry : Option Record) (p : Pending)
    → async_get_unique r c ≡ entry
    → RemovesFit c p
    → RemovesFit c (note_expired r entry p)
unfolding note_expired
note_expired-RemovesFit c r none p e f = f
note_expired-RemovesFit c r (some old) p e f =
    let (d, a) = set_add-Fits c r p.removes (old, e) f.distinct f.cached in
    record { distinct = d; cached = a }

note_answer-RemovesFit :
    (c : DnsCache) (now : ℕ) (r : Record) (p : Pending)
    → RemovesFit c p
    → RemovesFit c (note_answer c now r p)
unfolding note_answer note_live
note_answer-RemovesFit c now r p f =
    let p' = record p { unique_types = note_unique r p.unique_types } in
    elim (Bool-cases (is_expired r now)) [
      | inl e ↦ rw e (
          note_expired-RemovesFit c r _ p' refl
            (record { distinct = f.distinct; cached = f.cached }))
      | inr e ↦ rw e (record { distinct = f.distinct; cached = f.cached })
    ]

note_answers-RemovesFit :
    (c : DnsCache) (now : ℕ) (rs : List Record) (p : Pending)
    → RemovesFit c p
    → RemovesFit c (note_answers c now rs p)
unfolding note_answers
note_answers-RemovesFit c now [] p f = f
note_answers-RemovesFit c now (r ∷ rs) p f =
    note_answers-RemovesFit c now rs (note_answer c now r p) (note_answer-RemovesFit c now r p f)

-- What the loop over the answers leaves to remove is distinct and cached.
note_answers-Fits :
    (c : DnsCache) (now : ℕ) (rs : List Record)
    → RemovesFit c (note_answers c now rs nothing_pending)
note_answers-Fits c now rs =
    note_answers-RemovesFit c now rs nothing_pending (record { distinct = tt; cached = tt })

All-IsCached :
    (c c' : DnsCache) (rs : List Record)
    → ((q : Record) → IsCached c q → IsCached c' q)
    → All (IsCached c) rs
    → All (IsCached c') rs
All-IsCached c c' [] k a = tt
All-IsCached c c' (r ∷ rs) k (h, a) = (k r h, All-IsCached c c' rs k a)

apply_pending-IsCoherent :
    (p : Pending) (c : DnsCache)
    → IsCoherent c
    → IsDistinct p.removes
    → All (IsCached c) p.removes
    → (c' : DnsCache) × (is_new : Bool) × (apply_pending p c ≡ some (c', is_new))
      × IsCoherent c'
      × ((q : Record) → any_of (λ r. record_eq r q) p.removes ≡ true → async_get_unique q c' ≡ none)
unfolding apply_pending
apply_pending-IsCoherent p c v d a =
    let c1 = (async_add_records p.address_adds c).0 in
    let c2 = (async_add_records p.other_adds c1).0 in
    let v2 : IsCoherent c2 =
      async_add_records-IsCoherent p.other_adds c1
        (async_add_records-IsCoherent p.address_adds c v) in
    let a2 : All (IsCached c2) p.removes =
      All-IsCached c c2 p.removes
        (λ q h.
          IsCached-async_add_records p.other_adds q c1
            (IsCached-async_add_records p.address_adds q c h))
        a in
    let (c', e, v', gone) = async_remove_records-IsCoherent p.removes c2 v2 d a2 in
    (
      c',
      (async_add_records p.address_adds c).1 || (async_add_records p.other_adds c1).1,
      rw e,
      v',
      λ q h. gone q ∙ rw h,
    )

-- `async_updates_from_response` on a coherent cache raises nothing and leaves a coherent cache,
-- whatever the answers and the time.
pub async_updates-IsCoherent :
    (answers : List Record) (now : ℕ) (c : DnsCache)
    → IsCoherent c
    → (c' : DnsCache) × (events : List Event) × (async_updates_from_response answers now c
        ≡ some (c', events))
      × IsCoherent c'
unfolding async_updates_from_response Keeps
async_updates-IsCoherent answers now c v =
    let rs = map clamp_ttl answers in
    let p = note_answers c now rs nothing_pending in
    let f = note_answers-Fits c now rs in
    let (v1, k) = mark_unique-Keeps p.unique_types rs now c v in
    let (c', is_new, e, v', gone) =
      apply_pending-IsCoherent p (mark_unique p.unique_types rs now c) v1 f.distinct
        (All-IsCached c _ p.removes k f.cached) in
    (c', events_of p (mark_unique p.unique_types rs now c) c' is_new, rw e, v')
