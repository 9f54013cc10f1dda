-- ===== src/Incoming/Typed.antt =====
-- The classes of the records that the readers of `DNSIncoming` make.
use lscamoflash.Incoming.Names.{read_name}
use lscamoflash.Incoming.Records.{
  read_address, read_bitmap, read_bitmap_to, read_hinfo, read_nsec, read_pointer, read_service,
  read_text, skip_rdata, read_rdata,
}
use lscamoflash.Incoming.Keeps.{
  Keeps, advance-Keeps, bind-Keeps, bind_read-answers, read_character_string-Keeps, read_name-Keeps,
  read_string-Keeps, return-Keeps, view-Keeps, view_short-Keeps,
}
use lscamoflash.Prelude.{
  ℕ, Bool, Bool-cases, List, Option, [], inl, inr, lower, ltb, none, refl, some, suc, true, zero,
  ◌+◌, ◌==◌, ◌||◌, ◌≡◌, arith, if◌then◌else◌,
}
use lscamoflash.Dns.{
  RData, Record, address, hinfo, nsec, pointer, service, text, nsec_of, pointer_of, service_of,
  sorted,
}
use lscamoflash.Incoming.{
  Decoded, DnsIncoming, Reader, err, ok, return, ◌>>=◌, bind_read, get_offset,
  read_character_string, read_string, view_short, advance, view,
}
use lscamoflash.Const.Types

-- Whether a record class has a type
unfoldable pub has_type : ℕ → RData → Bool
has_type t (address b s) = (t == Types.a) || (t == Types.aaaa)
has_type t (hinfo c o) = t == Types.hinfo
has_type t (pointer a k) = (t == Types.cname) || (t == Types.ptr)
has_type t (text b) = t == Types.txt
has_type t (service p w o s k) = t == Types.srv
has_type t (nsec n l) = t == Types.nsec

abbrev pub IsTyped : Record → Type 0
IsTyped r = has_type r.type r.rdata ≡ true

-- A read of record data gives data of a type, if it gives any.
abbrev pub Gives : ℕ → Decoded (Option RData) → Type 0
Gives t (ok none) = Unit {0}
Gives t (ok (some x)) = has_type t x ≡ true
Gives t (err e) = Unit {0}

-- A reader of record data adds no answer and gives data of a type.
record Reads (t : ℕ) (r : Reader (Option RData)) : Type 0 where
  keeps : Keeps r
  gives : (m : DnsIncoming) → Gives t (r m).0

bind_read-Gives :
    {A : Type 0} (t : ℕ) (x : Decoded A × DnsIncoming) (f : A → Reader (Option RData))
    → ((a : A) (m : DnsIncoming) → Gives t (f a m).0)
    → Gives t (bind_read x f).0
bind_read-Gives t (ok a, m) f k = k a m
bind_read-Gives t (err e, m) f k = tt

bind-Reads :
    {A : Type 0} (t : ℕ) (r : Reader A) (f : A → Reader (Option RData))
    → Keeps r
    → ((a : A) → Reads t (f a))
    → Reads t (r >>= f)
bind-Reads t r f h k = record {
  keeps = bind-Keeps r f h (λ a. (k a).keeps);
  gives = λ m. bind_read-Gives t (r m) f (λ a. (k a).gives);
}

return-Reads : (t : ℕ) (x : RData) → has_type t x ≡ true → Reads t (return (some x))
return-Reads t x e = record { keeps = return-Keeps (some x); gives = λ m. e }

read_address-Reads :
    (t n : ℕ) (scope_id : Option ℕ)
    → ((t == Types.a) || (t == Types.aaaa)) ≡ true
    → Reads t (read_address n scope_id)
unfolding read_address has_type
read_address-Reads t n scope_id e =
    bind-Reads t (read_string n) _ (read_string-Keeps n)
      (λ b. return-Reads t (address b scope_id) e)

read_pointer-Reads :
    (t : ℕ) → ((t == Types.cname) || (t == Types.ptr)) ≡ true → Reads t read_pointer
unfolding read_pointer pointer_of has_type
read_pointer-Reads t e =
    bind-Reads t read_name _ read_name-Keeps (λ name. return-Reads t (pointer name (lower name)) e)

read_text-Reads : (t len : ℕ) → (t == Types.txt) ≡ true → Reads t (read_text len)
unfolding read_text has_type
read_text-Reads t len e =
    bind-Reads t (read_string len) _ (read_string-Keeps len) (λ b. return-Reads t (text b) e)

read_service-Reads : (t : ℕ) → (t == Types.srv) ≡ true → Reads t read_service
unfolding read_service service_of has_type
read_service-Reads t e = bind-Reads t (advance 6) _ (advance-Keeps 6) (λ offset.
    bind-Reads t (view_short offset) _ (view_short-Keeps offset) (λ priority.
      bind-Reads t (view_short (offset + 2)) _ (view_short-Keeps (offset + 2)) (λ weight.
        bind-Reads t (view_short (offset + 4)) _ (view_short-Keeps (offset + 4)) (λ port.
          bind-Reads t read_name _ read_name-Keeps
            (λ server. return-Reads t (service priority weight port server (lower server)) e)))))

read_hinfo-Reads : (t : ℕ) → (t == Types.hinfo) ≡ true → Reads t read_hinfo
unfolding read_hinfo has_type
read_hinfo-Reads t e = bind-Reads t read_character_string _ read_character_string-Keeps (λ cpu.
    bind-Reads t read_character_string _ read_character_string-Keeps
      (λ os. return-Reads t (hinfo cpu os) e))

read_bitmap-Keeps : (rounds end_ : ℕ) (types : List ℕ) → Keeps (read_bitmap rounds end_ types)
unfolding read_bitmap
read_bitmap-Keeps zero end_ types m = refl
read_bitmap-Keeps (suc rounds) end_ types m = elim (Bool-cases (ltb m.offset end_)) [
  | inr e ↦ rw (read_bitmap, e) refl
  | inl e ↦
      rw (read_bitmap, e)
        (bind_read-answers (view m.offset m) _ m.answers (view-Keeps m.offset m) (λ window.
          bind-Keeps (view (m.offset + 1)) _ (view-Keeps (m.offset + 1))
            (λ n m'. read_bitmap-Keeps rounds end_ _ (record m' { offset = m'.offset + (2 + n) }))))
]

read_nsec-Reads : (t len : ℕ) → (t == Types.nsec) ≡ true → Reads t (read_nsec len)
unfolding read_nsec nsec_of has_type read_bitmap_to
read_nsec-Reads t len e =
    bind-Reads t get_offset _ (λ m. refl)
      (λ start. bind-Reads t read_name _ read_name-Keeps (λ next_name.
        bind-Reads t (read_bitmap_to (start + len)) _
          (read_bitmap-Keeps (start + len + 1) (start + len) [])
          (λ types. return-Reads t (nsec next_name (sorted types)) e)))

skip_rdata-Reads : (t len : ℕ) → Reads t (skip_rdata len)
unfolding skip_rdata
skip_rdata-Reads t len = unfold advance in record { keeps = λ m. refl; gives = λ m. tt }

-- What one read of record data leaves and gives
abbrev pub ReadsAt : ℕ → List Record → Decoded (Option RData) × DnsIncoming → Type 0
ReadsAt t l x = (x.1.answers ≡ l) × Gives t x.0

at : (t : ℕ) (r : Reader (Option RData)) (m : DnsIncoming) → Reads t r → ReadsAt t m.answers (r m)
at t r m h = (h.keeps m, h.gives m)

or_left : (a b : Bool) → a ≡ true → (a || b) ≡ true
or_left a b e = ground (arith, e)

or_right : (a b : Bool) → b ≡ true → (a || b) ≡ true
or_right a b e = ground (arith, e)

-- The later branches
read_more-ReadsAt :
    (t len : ℕ) (m : DnsIncoming)
    → ReadsAt t m.answers (
        if t == Types.srv
        then read_service m
        else if t == Types.hinfo
        then read_hinfo m
        else if t == Types.aaaa
        then read_address 16 m.scope_id m
        else if t == Types.nsec
        then read_nsec len m
        else skip_rdata len m)
read_more-ReadsAt t len m = elim (Bool-cases (t == Types.srv)) [
  | inl e ↦ rw e (at t read_service m (read_service-Reads t e))
  | inr a ↦ elim (Bool-cases (t == Types.hinfo)) [
    | inl e ↦ rw (a, e) (at t read_hinfo m (read_hinfo-Reads t e))
    | inr b ↦ elim (Bool-cases (t == Types.aaaa)) [
      | inl e ↦
          rw (a, b, e)
            (at t (read_address 16 m.scope_id) m
              (read_address-Reads t 16 m.scope_id (or_right (t == Types.a) (t == Types.aaaa) e)))
      | inr c ↦ elim (Bool-cases (t == Types.nsec)) [
        | inl e ↦ rw (a, b, c, e) (at t (read_nsec len) m (read_nsec-Reads t len e))
        | inr d ↦ rw (a, b, c, d) (at t (skip_rdata len) m (skip_rdata-Reads t len))
      ]
    ]
  ]
]

-- The record data that is read goes with the type that it is read for.
pub read_rdata-ReadsAt : (t len : ℕ) (m : DnsIncoming) → ReadsAt t m.answers (read_rdata t len m)
unfolding read_rdata
read_rdata-ReadsAt t len m = elim (Bool-cases (t == Types.a)) [
  | inl e ↦
      rw (read_rdata, e)
        (at t (read_address 4 none) m
          (read_address-Reads t 4 none (or_left (t == Types.a) (t == Types.aaaa) e)))
  | inr a ↦ elim (Bool-cases ((t == Types.cname) || (t == Types.ptr))) [
    | inl e ↦ rw (read_rdata, a, e) (at t read_pointer m (read_pointer-Reads t e))
    | inr b ↦ elim (Bool-cases (t == Types.txt)) [
      | inl e ↦ rw (read_rdata, a, b, e) (at t (read_text len) m (read_text-Reads t len e))
      | inr c ↦ rw (read_rdata, a, b, c) (read_more-ReadsAt t len m)
    ]
  ]
]
