-- ===== src/Core/Check/Unique.antt =====
-- The search of `Zeroconf.async_check_service` for a name.
use lscamoflash.ServiceName
use lscamoflash.ServiceName.{NameError, service_type_name}
use lscamoflash.Core.Check.Names.{next_name_inj}
use lscamoflash.Cache.{DnsCache, alias_is, current_entry_with_name_and_alias, entries_with_name}
use lscamoflash.Dns.{RData, Record, is_expired, pointer, address, hinfo, text, service, nsec}
use lscamoflash.Grouping.{alias_of}
use lscamoflash.Const.Types
use lscamoflash.Prelude.{
  ℕ, Bool, Bool-cases, List, Text, [], any_of, ap, arith, false, filter_by, find_last, inl, inr,
  length, map, none, not, refl, suc, text_eq, text_eq_iff, true, zero, ◌&&◌, ◌+◌, ◌<◌, ◌==◌, ◌∷◌,
  ◌≡◌, ◌≤◌, ◌⊎◌,
}
use lscamoflash.Core.Check.{
  Check, Checking, bad_name, bad_type_in_name, err, no_fuel, non_unique_name, ok, find_name,
  is_taken, next_name, check_name, name_fuel, set_name,
}

-- What the search may end in: a name that is not taken, the error of a name that is taken and may
-- not be changed, or that of a new name that is none
abbrev pub IsFound : Bool → ℕ → DnsCache → Checking Check → Type 0
IsFound allow now c (ok k) = is_taken now k.info.type k.info.name c ≡ false
IsFound allow now c (err (bad_name e)) = allow ≡ true
IsFound allow now c (err bad_type_in_name) = ⊥
IsFound allow now c (err non_unique_name) = allow ≡ false
IsFound allow now c (err no_fuel) = ⊥

-- The aliases of some records
abbrev aliases : List Record → List Text
aliases rs = map (λ r. alias_of r.rdata) rs

length-aliases : (rs : List Record) → length (aliases rs) ≡ length rs
length-aliases [] = refl
length-aliases (r ∷ rs) = ap suc (length-aliases rs)

abbrev is_in : Text → List Text → Bool
is_in name l = any_of (text_eq name) l

-- The names of a list but one
abbrev without : Text → List Text → List Text
without name l = filter_by (λ x. not (text_eq name x)) l

length-without_le : (name : Text) (l : List Text) → length (without name l) ≤ length l
length-without_le name [] = omega arith
length-without_le name (x ∷ l) = ground (arith, length-without_le name l)

length-without :
    (name : Text) (l : List Text) → is_in name l ≡ true → length (without name l) < length l
length-without name [] e = ground (arith, e)
length-without name (x ∷ l) e = ground (arith, e, length-without name l, length-without_le name l)

is_in-without :
    (name other : Text) (l : List Text)
    → text_eq name other ≡ false
    → is_in other l ≡ true
    → is_in other (without name l) ≡ true
is_in-without name other [] d e = e
is_in-without name other (x ∷ l) d e = ground (
  arith,
  d,
  e,
  is_in-without name other l d,
  text_eq_iff name x,
  text_eq_iff other x,
  text_eq_iff name other,
)

alias_is-alias_of :
    (name : Text) (x : RData) → alias_is name x ≡ true → text_eq name (alias_of x) ≡ true
unfolding alias_is alias_of
alias_is-alias_of name (pointer a k) e = ground (arith, e, text_eq_iff a name, text_eq_iff name a)
alias_is-alias_of name (address b s) e = ground (arith, e)
alias_is-alias_of name (hinfo a b) e = ground (arith, e)
alias_is-alias_of name (text b) e = ground (arith, e)
alias_is-alias_of name (service p w o s k) e = ground (arith, e)
alias_is-alias_of name (nsec n l) e = ground (arith, e)

find_last-aliases :
    (now : ℕ) (name : Text) (rs : List Record)
    → is_in name (aliases rs) ≡ false
    → find_last (λ r. (r.type == Types.ptr) && (not (is_expired r now) && alias_is name r.rdata)) rs
      ≡ none
find_last-aliases now name [] e = refl
find_last-aliases now name (r ∷ rs) e =
    ground (arith, e, find_last-aliases now name rs, alias_is-alias_of name r.rdata)

-- A name that is taken is the alias of a cached record.
taken_in :
    (now : ℕ) (type name : Text) (c : DnsCache)
    → is_taken now type name c ≡ true
    → is_in name (aliases (entries_with_name type c)) ≡ true
unfolding is_taken current_entry_with_name_and_alias
taken_in now type name c e = elim (Bool-cases (is_in name (aliases (entries_with_name type c)))) [
  | inl f ↦ f
  | inr f ↦ ground (arith, e, find_last-aliases now name (entries_with_name type c) f)
]

check_name-cases :
    (name : Text) (strict : Bool)
    → ((t : Text) × (check_name name strict ≡ ok t))
      ⊎ ((e : NameError) × (check_name name strict ≡ err (bad_name e)))
unfolding check_name
check_name-cases name strict = named (service_type_name name strict)
  where
    named :
        (x : ServiceName.Checked Text)
        → ((t : Text) × (elim x [ ServiceName.ok t ↦ ok t | ServiceName.err e ↦ err (bad_name e) ]
              ≡ ok t))
          ⊎ ((e : NameError) × (elim x [
            | ServiceName.ok t ↦ ok t
            | ServiceName.err e ↦ err (bad_name e)
          ]
                ≡ err (bad_name e)))
    named (ServiceName.ok t) = inl (t, refl)
    named (ServiceName.err e) = inr (e, refl)

-- The check with its next name
abbrev renamed : Text → ℕ → Check → Check
renamed instance_name now k = record {
  info = set_name (next_name instance_name k.next_instance_number k.info.type) k.info;
  next_instance_number = k.next_instance_number + 1;
  next_time = now;
  sent = 0;
}

-- A search ends if, where its name is taken, the search from its next name does.
find_name-step :
    (fuel : ℕ) (allow strict : Bool) (instance_name : Text) (now : ℕ) (c : DnsCache) (k : Check)
    → (is_taken now k.info.type k.info.name c ≡ true
        → IsFound allow now c
            (find_name fuel allow strict instance_name now c (renamed instance_name now k)))
    → IsFound allow now c (find_name (suc fuel) allow strict instance_name now c k)
unfolding find_name
find_name-step fuel false strict inst now c k rest =
    elim (Bool-cases (is_taken now k.info.type k.info.name c)) [
      | inl t ↦ rw (find_name, t) refl
      | inr t ↦ rw (find_name, t) t
    ]
find_name-step fuel true strict inst now c k rest =
    elim (Bool-cases (is_taken now k.info.type k.info.name c)) [
      | inr t ↦ rw (find_name, t) t
      | inl t ↦ elim (check_name-cases (next_name inst k.next_instance_number k.info.type) strict) [
        | inl (s, e) ↦ rw (find_name, t, e) (rest t)
        | inr (b, e) ↦ rw (find_name, t, e) refl
      ]
    ]

other_name :
    (instance_name type : Text) (m n : ℕ)
    → m < n
    → text_eq (next_name instance_name m type) (next_name instance_name n type) ≡ false
other_name inst type m n le =
    elim (Bool-cases (text_eq (next_name inst m type) (next_name inst n type))) [
      | inr e ↦ e
      | inl e ↦
          let same =
            next_name_inj inst type m n
              ((text_eq_iff (next_name inst m type) (next_name inst n type)).0 e) in
          absurd (omega (arith, le, same))
    ]

-- Where the numbered names from a number on that are taken stand in a list, and no more of them than
-- the fuel, the search from a numbered name ends.
find_numbered-IsFound :
    (fuel : ℕ) (allow strict : Bool) (instance_name type : Text) (now : ℕ) (c : DnsCache) (n : ℕ)
    (l : List Text) (k : Check)
    → k.info.name ≡ next_name instance_name n type
    → k.next_instance_number ≡ n + 1
    → k.info.type ≡ type
    → length l < fuel
    → ((m : ℕ)
        → n ≤ m
        → is_taken now type (next_name instance_name m type) c ≡ true
        → is_in (next_name instance_name m type) l ≡ true)
    → IsFound allow now c (find_name fuel allow strict instance_name now c k)
find_numbered-IsFound zero allow strict inst type now c n l k e1 e2 e3 le h =
    absurd (omega (arith, le))
find_numbered-IsFound (suc fuel) allow strict inst type now c n l k e1 e2 e3 le h =
    find_name-step fuel allow strict inst now c k (λ t.
      let here : is_in (next_name inst n type) l ≡ true = h n (omega arith) (rw (e1, e3) at t) in
      find_numbered-IsFound fuel allow strict inst type now c (n + 1)
        (without (next_name inst n type) l) (renamed inst now k)
        (unfold set_name in rw (e2, e3) refl) (rw e2 refl) (unfold set_name in e3)
        (omega (arith, le, length-without (next_name inst n type) l here))
        (λ m p t'.
          is_in-without (next_name inst n type) (next_name inst m type) l
            (other_name inst type n m (omega (arith, p))) (h m (omega (arith, p)) t')))

-- On the fuel that it gets, the search of any service for a name in any cache ends: in a service
-- whose name no live pointer of its type has, or with NonUniqueNameException, and then a change of
-- the name is not allowed, or with a name that is none, and then it is allowed.
pub find_name-IsFound :
    (allow strict : Bool) (instance_name : Text) (now : ℕ) (c : DnsCache) (k : Check)
    → IsFound allow now c (find_name (name_fuel k.info.type c) allow strict instance_name now c k)
find_name-IsFound allow strict inst now c k =
    let records = entries_with_name k.info.type c in
    let fuel : name_fuel k.info.type c ≡ suc (length records + 1) =
      unfold name_fuel in omega arith in
    rw fuel (
      find_name-step (length records + 1) allow strict inst now c k (λ t.
        find_numbered-IsFound (length records + 1) allow strict inst k.info.type now c
          k.next_instance_number (aliases records) (renamed inst now k) (unfold set_name in refl)
          refl (unfold set_name in refl) (omega (arith, length-aliases records))
          (λ m p t'. taken_in now k.info.type (next_name inst m k.info.type) c t')))
