-- ===== src/Browser/Precedence.antt =====
-- What is pending for a name in a browser, against a description of the changes since it last fired
-- that leaves their order out.
use lscamoflash.Cache.{DnsCache}
use lscamoflash.Manager.{RecordUpdate}
use lscamoflash.Grouping.{alias_of}
use lscamoflash.Dns.{is_expired}
use lscamoflash.Prelude.Dict.{Dict}
use lscamoflash.Const.Types
use lscamoflash.Prelude.{
  ℕ, Bool, List, Option, Text, [], any_of, arith, concat_all, false, if◌then◌else◌, map, none, some,
  text_eq_iff, true, ◌&&◌, ◌==◌, ◌||◌, ◌↔◌, ◌∷◌, ◌≡◌, refl, sym,
}
use lscamoflash.Prelude.Dict
use lscamoflash.Browser.{
  ServiceStateChange, Key, enqueue_callback, is_added, is_cached, key_eq, names_about,
  names_matching_types, types_of, added, updated, removed,
}

abbrev pub Change : Type 0
Change = ServiceStateChange × Key

is_removed : Option ServiceStateChange → Bool
is_removed (some removed) = true
is_removed _ = false

key_eq_iff : (a b : Key) → (key_eq a b ≡ true) ↔ (a ≡ b)
unfolding key_eq
key_eq_iff (n, t) (n', t') = grind (arith, text_eq_iff n n', text_eq_iff t t')

-- Whether one of the changes of a key is that one
abbrev has_added : Key → List Change → Bool
has_added k cs = any_of (λ c. is_added (some c.0) && key_eq c.1 k) cs

abbrev has_removed : Key → List Change → Bool
has_removed k cs = any_of (λ c. is_removed (some c.0) && key_eq c.1 k) cs

abbrev has_change : Key → List Change → Bool
has_change k cs = any_of (λ c. key_eq c.1 k) cs

-- Added, else removed, else updated, else nothing
unfoldable pub strongest : Key → List Change → Option ServiceStateChange
unfolding is_removed is_added
strongest k cs =
    if has_added k cs
    then some added
    else if has_removed k cs
    then some removed
    else if has_change k cs
    then some updated
    else none

-- The changes that a pointer means for one type
unfoldable pub pointer_changes : ℕ → RecordUpdate → Text → List Change
pointer_changes now u type = elim u.old [
  | none ↦ (added, (alias_of u.new.rdata, type)) ∷ []
  | some old ↦ if is_expired u.new now then (removed, (alias_of u.new.rdata, type)) ∷ [] else []
]

-- The changes that an update means, of a browser for some types
unfoldable pub changes_of : ℕ → DnsCache → List Text → RecordUpdate → List Change
unfolding pointer_changes
changes_of now c types u =
    if u.new.type == Types.ptr
    then concat_all (map (pointer_changes now u) (types_of u.new.name types))
    else if is_cached u.old || is_expired u.new now
    then []
    else map (λ p. (updated, (p.1, p.0))) (names_matching_types types (names_about c u.new))

-- The stronger of what is pending and what comes
unfoldable pub stronger :
    Option ServiceStateChange → Option ServiceStateChange → Option ServiceStateChange
stronger none d = d
stronger (some added) d = some added
stronger (some removed) d = if is_added d then some added else some removed
stronger (some updated) none = some updated
stronger (some updated) (some d) = some d

unfoldable pub pending_after :
    List Change → Dict Key ServiceStateChange → Dict Key ServiceStateChange
unfolding enqueue_callback
pending_after [] p = p
pending_after ((c, (n, t)) ∷ cs) p = pending_after cs (enqueue_callback c t n p)

-- Another key reads as before, and a key that is written as what is written.
get-insert_key :
    (j k : Key) (c : ServiceStateChange) (p : Dict Key ServiceStateChange)
    → Dict.get key_eq k (Dict.insert key_eq j c p)
      ≡ (if key_eq j k then some c else Dict.get key_eq k p)
get-insert_key j k c p = Dict.get-insert key_eq (λ x. x) key_eq_iff j k c p

get_same :
    (j k : Key) (p : Dict Key ServiceStateChange)
    → key_eq j k ≡ true
    → Dict.get key_eq j p ≡ Dict.get key_eq k p
get_same j k p e = Dict.get_congr key_eq (λ x. x) key_eq_iff j k p ((key_eq_iff j k).0 e)

get-enqueue_callback :
    (c : ServiceStateChange) (n t : Text) (k : Key) (p : Dict Key ServiceStateChange)
    → Dict.get key_eq k (enqueue_callback c t n p)
      ≡ stronger (Dict.get key_eq k p) (if key_eq (n, t) k then some c else none)
unfolding enqueue_callback stronger is_added Dict.has
get-enqueue_callback added n t k p =
    ground (arith, get-insert_key (n, t) k added p, get_same (n, t) k p)
get-enqueue_callback removed n t k p =
    ground (arith, get-insert_key (n, t) k removed p, get_same (n, t) k p)
get-enqueue_callback updated n t k p =
    ground (arith, get-insert_key (n, t) k updated p, get_same (n, t) k p)

stronger_assoc :
    (a b c : Option ServiceStateChange) → stronger (stronger a b) c ≡ stronger a (stronger b c)
unfolding stronger is_added
stronger_assoc a b c = ground arith

strongest-cons :
    (c : ServiceStateChange) (j k : Key) (cs : List Change)
    → strongest k ((c, j) ∷ cs) ≡ stronger (if key_eq j k then some c else none) (strongest k cs)
unfolding strongest stronger is_added is_removed
strongest-cons added j k cs = ground arith
strongest-cons removed j k cs = ground arith
strongest-cons updated j k cs = ground arith

stronger-none : (a : Option ServiceStateChange) → stronger a none ≡ a
unfolding stronger is_added
stronger-none a = ground arith

pub get-pending_after :
    (cs : List Change) (k : Key) (p : Dict Key ServiceStateChange)
    → Dict.get key_eq k (pending_after cs p) ≡ stronger (Dict.get key_eq k p) (strongest k cs)
unfolding pending_after
get-pending_after [] k p = unfold strongest in sym (stronger-none (Dict.get key_eq k p))
get-pending_after ((c, (n, t)) ∷ cs) k p =
    rw
      (
        get-pending_after cs k (enqueue_callback c t n p),
        get-enqueue_callback c n t k p,
        strongest-cons c (n, t) k cs,
        stronger_assoc,
      )
      refl
