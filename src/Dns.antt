-- ===== src/Dns.antt =====
-- The entries, questions and records of
-- SOURCE/src/modules/python/zeroconf/src/zeroconf/_dns.py. The subclasses of `DNSRecord` are the
-- constructors of `RData`; a time is a number of milliseconds and a ttl a number of seconds.
pub mod Equality
pub mod Expiry
use lscamoflash.Prelude.{
  ℕ, ◌+◌, ◌-◌, ◌*◌, ◌/◌, ◌%◌, Bool, true, false, ◌&&◌, ◌||◌, Option, none, some, List, [], ◌∷◌,
  Text, Bytes, text_eq, lower, ltb, leb, ◌==◌, if◌then◌else◌, length, any_of, utf8_encode,
}
use lscamoflash.Prelude.Dict
use lscamoflash.Prelude.Dict.{Dict}
use lscamoflash.Const.Types

pub record Entry : Type 0 where
  pub name : Text
  pub key : Text
  pub type : ℕ
  pub class_ : ℕ
  pub unique : Bool

-- `DNSEntry._fast_init_entry`: the top bit of the class is the unique bit.
unfoldable pub fast_init_entry : Text → ℕ → ℕ → Entry
fast_init_entry name type class_ = record {
  name = name;
  key = lower name;
  type = type;
  class_ = class_ % 0x8000;
  unique = class_ / 0x8000 % 2 == 1;
}

-- `DNSEntry._dns_entry_matches`
unfoldable pub entry_matches : Entry → Entry → Bool
entry_matches a b = text_eq a.key b.key && ((a.type == b.type) && (a.class_ == b.class_))

-- `DNSQuestion`: an entry whose unique bit asks for a unicast answer.
pub record Question : Type 0 where
  pub entry : Entry
  pub open entry use *

unfoldable pub init_question : Text → ℕ → ℕ → Question
init_question name type class_ = record { entry = fast_init_entry name type class_ }

-- `DNSQuestion.__eq__`
unfoldable pub question_eq : Question → Question → Bool
question_eq a b = entry_matches a.entry b.entry

-- `DNSQuestion.max_size`
unfoldable pub question_max_size : Question → ℕ
question_max_size q = length (utf8_encode q.name) + 1 + 2 + 2

-- What each subclass of `DNSRecord` adds.
pub data RData : Type 0 where
  address : Bytes → Option ℕ → RData
  hinfo : Text → Text → RData
  pointer : Text → Text → RData
  text : Bytes → RData
  service : ℕ → ℕ → ℕ → Text → Text → RData
  nsec : Text → List ℕ → RData

pub record Record : Type 0 where
  pub entry : Entry
  pub open entry use *
  pub ttl : ℕ
  pub created : ℕ
  pub rdata : RData

-- `DNSRecord._fast_init_record`
unfoldable pub fast_init_record : Text → ℕ → ℕ → ℕ → ℕ → RData → Record
unfolding fast_init_entry
fast_init_record name type class_ ttl created rdata = record {
  entry = fast_init_entry name type class_;
  ttl = ttl;
  created = created;
  rdata = rdata;
}

unfoldable pub pointer_of : Text → RData
pointer_of alias = pointer alias (lower alias)

unfoldable pub service_of : ℕ → ℕ → ℕ → Text → RData
service_of priority weight port server = service priority weight port server (lower server)

-- `sorted(rdtypes)` of `DNSNsec._fast_init`
unfoldable pub insert_sorted : ℕ → List ℕ → List ℕ
insert_sorted x [] = x ∷ []
insert_sorted x (y ∷ ys) = if leb x y then x ∷ y ∷ ys else y ∷ insert_sorted x ys

unfoldable pub sorted : List ℕ → List ℕ
unfolding insert_sorted
sorted [] = []
sorted (x ∷ xs) = insert_sorted x (sorted xs)

unfoldable pub nsec_of : Text → List ℕ → RData
unfolding sorted
nsec_of next_name rdtypes = nsec next_name (sorted rdtypes)

unfoldable pub option_eq : Option ℕ → Option ℕ → Bool
option_eq none none = true
option_eq none (some b) = false
option_eq (some a) none = false
option_eq (some a) (some b) = a == b

-- The `_eq` methods of the subclasses, without the entry; records of two classes differ.
unfoldable pub rdata_eq : RData → RData → Bool
unfolding option_eq
rdata_eq (address a s) (address b t) = text_eq a b && option_eq s t
rdata_eq (hinfo c o) (hinfo c' o') = text_eq c c' && text_eq o o'
rdata_eq (pointer a k) (pointer b k') = text_eq k k'
rdata_eq (text t) (text t') = text_eq t t'
rdata_eq (service p w o s k) (service p' w' o' s' k') =
    (p == p') && ((w == w') && ((o == o') && text_eq k k'))
rdata_eq (nsec n r) (nsec n' r') = text_eq n n' && text_eq r r'
rdata_eq _ _ = false

-- `__eq__` of the record classes
unfoldable pub record_eq : Record → Record → Bool
unfolding rdata_eq entry_matches
record_eq a b = rdata_eq a.rdata b.rdata && entry_matches a.entry b.entry

-- `DNSQuestion.answered_by`
unfoldable pub answered_by : Question → Record → Bool
answered_by q r =
    (q.class_ == r.class_)
    && (((q.type == r.type) || (q.type == Types.any)) && text_eq q.name r.name)

-- `DNSRecord._set_created_ttl`
unfoldable pub set_created_ttl : Record → ℕ → ℕ → Record
set_created_ttl r created ttl = record r { created = created; ttl = ttl }

-- `DNSRecord.get_expiration_time`
unfoldable pub get_expiration_time : Record → ℕ → ℕ
get_expiration_time r percent = r.created + percent * r.ttl * 10

-- `DNSRecord.get_remaining_ttl`, in milliseconds; never below 0.
unfoldable pub remaining_ttl_ms : Record → ℕ → ℕ
remaining_ttl_ms r now = r.created + 1000 * r.ttl - now

-- `DNSRecord.is_expired`
unfoldable pub is_expired : Record → ℕ → Bool
is_expired r now = leb (r.created + 1000 * r.ttl) now

-- `DNSRecord.is_stale`
unfoldable pub is_stale : Record → ℕ → Bool
is_stale r now = leb (r.created + 500 * r.ttl) now

-- `DNSRecord.is_recent`
unfoldable pub is_recent : Record → ℕ → Bool
is_recent r now = ltb now (r.created + 250 * r.ttl)

-- `DNSRecord._suppressed_by_answer`
unfoldable pub suppressed_by_answer : Record → Record → Bool
unfolding record_eq
suppressed_by_answer r other = record_eq r other && ltb r.ttl (2 * other.ttl)

-- `DNSRecord.suppressed_by`, over the answers of the message
unfoldable pub suppressed_by : Record → List Record → Bool
unfolding suppressed_by_answer
suppressed_by r answers = any_of (suppressed_by_answer r) answers

-- `DNSRRSet._get_lookup`: `{record: record for record in self._records}`
unfoldable pub rrset_lookup_from : Dict Record Record → List Record → Dict Record Record
rrset_lookup_from m [] = m
rrset_lookup_from m (r ∷ rs) = rrset_lookup_from (Dict.insert record_eq r r m) rs

-- `DNSRRSet.suppresses`
unfoldable pub rrset_suppresses : List Record → Record → Bool
unfolding rrset_lookup_from
rrset_suppresses known r = elim (Dict.get record_eq r (rrset_lookup_from [] known)) [
  | none ↦ false
  | some other ↦ ltb r.ttl (2 * other.ttl)
]

unfoldable pub is_nsec : RData → Bool
is_nsec (nsec n r) = true
is_nsec _ = false
