-- ===== src/Dns/Equality.antt =====
-- Equality of the records of _dns.py, against what the source hashes.
use lscamoflash.Prelude.{
  ℕ, true, Option, none, some, List, Text, Bytes, ◌≡◌, ◌↔◌, text_eq_iff, refl, arith,
}
use lscamoflash.Dns.{
  Record, RData, address, hinfo, pointer, text, service, nsec, record_eq, option_eq,
}

-- The tuple that a subclass hashes, behind the class: what `hash` is computed from.
pub data HashInput : Type 0 where
  address_hash : Text → ℕ → ℕ → Bytes → Option ℕ → HashInput
  hinfo_hash : Text → ℕ → ℕ → Text → Text → HashInput
  pointer_hash : Text → ℕ → ℕ → Text → HashInput
  text_hash : Text → ℕ → ℕ → Bytes → HashInput
  service_hash : Text → ℕ → ℕ → ℕ → ℕ → ℕ → Text → HashInput
  nsec_hash : Text → ℕ → ℕ → Text → List ℕ → HashInput

unfoldable pub hash_rdata : Text → ℕ → ℕ → RData → HashInput
hash_rdata k t c (address a s) = address_hash k t c a s
hash_rdata k t c (hinfo cpu os) = hinfo_hash k t c cpu os
hash_rdata k t c (pointer a ak) = pointer_hash k t c ak
hash_rdata k t c (text b) = text_hash k t c b
hash_rdata k t c (service p w o s sk) = service_hash k t c p w o sk
hash_rdata k t c (nsec n r) = nsec_hash k t c n r

unfoldable pub hash_input : Record → HashInput
unfolding hash_rdata
hash_input r = hash_rdata r.key r.type r.class_ r.rdata

option_eq_iff : (a b : Option ℕ) → (option_eq a b ≡ true) ↔ (a ≡ b)
unfolding option_eq
option_eq_iff none none = ground arith
option_eq_iff none (some b) = ground arith
option_eq_iff (some a) none = ground arith
option_eq_iff (some a) (some b) = ground arith

record_eq_iff_rdata :
    (a b : Record)
    → (x y : RData) → a.rdata ≡ x
    → b.rdata ≡ y
    → (record_eq a b ≡ true)
      ↔ (hash_rdata a.key a.type a.class_ x ≡ hash_rdata b.key b.type b.class_ y)
unfolding record_eq hash_rdata
record_eq_iff_rdata a b (address u s) (address v t) p q =
    ground (arith, text_eq_iff a.key b.key, text_eq_iff u v, option_eq_iff s t)
record_eq_iff_rdata a b (hinfo c o) (hinfo c' o') p q =
    ground (arith, text_eq_iff a.key b.key, text_eq_iff c c', text_eq_iff o o')
record_eq_iff_rdata a b (pointer u k) (pointer v k') p q =
    ground (arith, text_eq_iff a.key b.key, text_eq_iff k k')
record_eq_iff_rdata a b (text u) (text v) p q =
    ground (arith, text_eq_iff a.key b.key, text_eq_iff u v)
record_eq_iff_rdata a b (service p w o s k) (service p' w' o' s' k') e q =
    ground (arith, text_eq_iff a.key b.key, text_eq_iff k k')
record_eq_iff_rdata a b (nsec n r) (nsec n' r') p q =
    ground (arith, text_eq_iff a.key b.key, text_eq_iff n n', text_eq_iff r r')
record_eq_iff_rdata a b _ _ p q = ground arith

-- Two records are equal exactly when they hash the same tuple, of the same class; so dicts and
-- sets of records, which look a key up by its hash first, agree with `__eq__`.
pub record_eq_iff : (a b : Record) → (record_eq a b ≡ true) ↔ (hash_input a ≡ hash_input b)
unfolding hash_input
record_eq_iff a b = record_eq_iff_rdata a b a.rdata b.rdata refl refl
