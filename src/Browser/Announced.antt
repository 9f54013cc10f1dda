-- ===== src/Browser/Announced.antt =====
-- What `async_update_records` leaves pending, and what is fired when the update is complete.
use lscamoflash.Cache.{DnsCache}
use lscamoflash.Const.Types
use lscamoflash.Prelude.Dict.{Dict}
use lscamoflash.Manager.{RecordUpdate}
use lscamoflash.Dns.{is_expired}
use lscamoflash.Grouping.{alias_of}
use lscamoflash.Browser.Precedence.{
  Change, pending_after, pointer_changes, changes_of, get-pending_after, strongest, stronger,
}
use lscamoflash.Prelude.{
  ℕ, Bool-cases, List, Option-cases, Text, [], inl, inr, refl, ◌++◌, ◌∙◌, ◌∷◌, ◌≡◌, concat_all, map,
  ◌==◌, ◌||◌,
}
use lscamoflash.Prelude.Dict
use lscamoflash.Browser.{
  Browser, ServiceStateChange, Key, enqueue_callback, update_pointer, async_update_records,
  async_update_records_complete, enqueue_updates, is_cached, key_eq, names_about,
  names_matching_types, types_of, update_pointers, update_record, enqueue, updated,
}

pending_after-append :
    (cs ds : List Change) (p : Dict Key ServiceStateChange)
    → pending_after (cs ++ ds) p ≡ pending_after ds (pending_after cs p)
unfolding pending_after
pending_after-append [] ds p = refl
pending_after-append ((c, (n, t)) ∷ cs) ds p = pending_after-append cs ds (enqueue_callback c t n p)

-- A browser has the types of another, and what the changes leave pending there.
record Follows (cs : List Change) (b b' : Browser) : Type 0 where
  same_types : b'.types ≡ b.types
  pending : b'.pending_handlers ≡ pending_after cs b.pending_handlers

Follows-append :
    (cs ds : List Change) (a b c : Browser)
    → Follows cs a b
    → Follows ds b c
    → Follows (cs ++ ds) a c
Follows-append cs ds a b c f g = record {
  same_types = g.same_types ∙ f.same_types;
  pending = rw (pending_after-append cs ds a.pending_handlers, g.pending, f.pending) refl;
}

Follows-update_pointer :
    (now : ℕ) (u : RecordUpdate) (t : Text) (b : Browser)
    → Follows
        (pointer_changes now u t)
        b
        (update_pointer now u.new u.old (alias_of u.new.rdata) t b)
unfolding update_pointer pointer_changes pending_after
Follows-update_pointer now u t b = elim (Option-cases u.old) [
  | inl e ↦ rw (update_pointer, e) (record { same_types = refl; pending = refl })
  | inr (old, e) ↦ elim (Bool-cases (is_expired u.new now)) [
    | inl x ↦ rw (update_pointer, e, x) (record { same_types = refl; pending = refl })
    | inr x ↦ rw (update_pointer, e, x) (record { same_types = refl; pending = refl })
  ]
]

Follows-update_pointers :
    (now : ℕ) (u : RecordUpdate) (ts : List Text) (b : Browser)
    → Follows (concat_all (map (pointer_changes now u) ts)) b (update_pointers now u.new u.old ts b)
unfolding update_pointers
Follows-update_pointers now u [] b = record {
  same_types = refl;
  pending = unfold pending_after in refl;
}
Follows-update_pointers now u (t ∷ ts) b =
    let b' = update_pointer now u.new u.old (alias_of u.new.rdata) t b in
    Follows-append (pointer_changes now u t) (concat_all (map (pointer_changes now u) ts)) b b'
      (update_pointers now u.new u.old ts b') (Follows-update_pointer now u t b)
      (Follows-update_pointers now u ts b')

Follows-enqueue_updates :
    (ps : List (Text × Text)) (b : Browser)
    → Follows (map (λ p. (updated, (p.1, p.0))) ps) b (enqueue_updates ps b)
unfolding enqueue_updates enqueue pending_after
Follows-enqueue_updates [] b = record { same_types = refl; pending = refl }
Follows-enqueue_updates ((t, n) ∷ ps) b =
    let f = Follows-enqueue_updates ps (enqueue updated t n b) in
    record { same_types = f.same_types; pending = f.pending }

Follows-update_record :
    (now : ℕ) (c : DnsCache) (u : RecordUpdate) (b : Browser)
    → Follows (changes_of now c b.types u) b (update_record now c u b)
unfolding update_record changes_of
Follows-update_record now c u b = elim (Bool-cases (u.new.type == Types.ptr)) [
  | inl e ↦ rw (update_record, e) (Follows-update_pointers now u (types_of u.new.name b.types) b)
  | inr e ↦ elim (Bool-cases (is_cached u.old || is_expired u.new now)) [
    | inl x ↦
        rw (update_record, e, x)
          (record { same_types = refl; pending = unfold pending_after in refl })
    | inr x ↦
        rw (update_record, e, x)
          (Follows-enqueue_updates (names_matching_types b.types (names_about c u.new)) b)
  ]
]

Follows-async_update_records :
    (now : ℕ) (c : DnsCache) (us : List RecordUpdate) (b : Browser)
    → Follows (concat_all (map (changes_of now c b.types) us)) b (async_update_records now c us b)
unfolding async_update_records
Follows-async_update_records now c [] b = record {
  same_types = refl;
  pending = unfold pending_after in refl;
}
Follows-async_update_records now c (u ∷ us) b =
    let b' = update_record now c u b in
    let f = Follows-update_record now c u b in
    let g = Follows-async_update_records now c us b' in
    Follows-append (changes_of now c b.types u) (concat_all (map (changes_of now c b.types) us)) b
      b' (async_update_records now c us b') f (rw f.same_types at g)

-- Of a browser with nothing pending, the records of an update leave, and its completion fires, for
-- each name and type the strongest of the changes that they mean, in whichever order they came:
-- added if one of them is, else removed if one of them is, else updated, and nothing where they mean
-- no change of it. Nothing is pending afterwards.
pub fired-async_update_records :
    (now : ℕ) (c : DnsCache) (us : List RecordUpdate) (b : Browser) (k : Key)
    → b.pending_handlers ≡ []
    → let (b', fired) = async_update_records_complete (async_update_records now c us b) in
      (Dict.get key_eq k fired ≡ strongest k (concat_all (map (changes_of now c b.types) us)))
      × (b'.pending_handlers ≡ [])
unfolding async_update_records_complete
fired-async_update_records now c us b k e = (
  rw
      (
        (Follows-async_update_records now c us b).pending,
        e,
        get-pending_after (concat_all (map (changes_of now c b.types) us)) k [],
      )
      (unfold stronger Dict.get in refl),
  refl,
)
