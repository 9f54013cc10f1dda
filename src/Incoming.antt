-- ===== src/Incoming.antt =====
-- `DNSIncoming` of SOURCE/src/modules/python/zeroconf/src/zeroconf/_protocol/incoming.py. A method
-- takes the object and returns what it read or the exception it raised, with the object as it is
-- then: the handlers of the source go on with it.
pub mod Names
pub mod Records
pub mod Total
pub mod Parses
pub mod Keeps
pub mod Typed
pub mod Classes
use lscamoflash.Dns.{Question, Record}
use lscamoflash.Prelude.Dict.{Dict}
use lscamoflash.Const.{flags_qr_mask, flags_tc}
use lscamoflash.Prelude.{
  ℕ, Bool, Bytes, List, Option, Text, drop, get_elem?, ltb, none, some, take, utf8_decode, ◌%◌, ◌*◌,
  ◌+◌, ◌/◌, ◌==◌,
}

pub data DecodeError : Type 0 where
  index_error incoming_decode_error no_fuel : DecodeError

pub data Decoded {ℓ} (A : Type ℓ) : Type ℓ where
  ok : A → Decoded A
  err : DecodeError → Decoded A

pub record DnsIncoming : Type 0 where
  pub data_ : Bytes
  pub flags : ℕ
  pub id : ℕ
  pub offset : ℕ
  pub name_cache : Dict ℕ (List Text)
  pub questions : List Question
  pub answers : List Record
  pub num_questions : ℕ
  pub num_answers : ℕ
  pub num_authorities : ℕ
  pub num_additionals : ℕ
  pub valid : Bool
  pub did_read_others : Bool
  pub now : ℕ
  pub scope_id : Option ℕ
  pub has_qu_question : Bool

-- A method: reads from the object, which it changes also where it raises.
abbrev pub Reader : Type 0 → Type 0
Reader A = DnsIncoming → Decoded A × DnsIncoming

abbrev pub bind_read :
    {A B : Type 0} → Decoded A × DnsIncoming → (A → Reader B) → Decoded B × DnsIncoming
bind_read (ok a, m) f = f a m
bind_read (err e, m) f = (err e, m)

infixl 5 ◌>>=◌
abbrev pub ◌>>=◌ : {A B : Type 0} → Reader A → (A → Reader B) → Reader B
◌>>=◌ r f m = bind_read (r m) f

infixl 5 ◌>>◌
abbrev pub ◌>>◌ : {B : Type 0} → Reader (Unit {0}) → Reader B → Reader B
◌>>◌ r k = r >>= λ _. k

abbrev pub return : {A : Type 0} → A → Reader A
return a m = (ok a, m)

-- An assignment to fields
abbrev pub modify : (DnsIncoming → DnsIncoming) → Reader (Unit {0})
modify f m = (ok tt, f m)

abbrev pub get_offset : Reader ℕ
get_offset m = (ok m.offset, m)

-- `self.view[i]`, an IndexError beyond the end
unfoldable pub view : ℕ → Reader ℕ
view i m = elim (get_elem? m.data_ i) [ none ↦ (err index_error, m) | some b ↦ (ok b, m) ]

-- `self.offset += n`, which gives the offset before
unfoldable pub advance : ℕ → Reader ℕ
advance n m = (ok m.offset, record m { offset = m.offset + n })

-- `view[i] << 8 | view[i + 1]`: the two bytes do not overlap.
unfoldable pub view_short : ℕ → Reader ℕ
unfolding view
view_short i = do a ← view i; b ← view (i + 1); return (a * 256 + b)

unfoldable pub view_long : ℕ → Reader ℕ
unfolding view_short
view_long i = do a ← view_short i; b ← view_short (i + 2); return (a * 65536 + b)

-- `self.data[i : j]`, cut at the end of the data
unfoldable pub slice : ℕ → ℕ → Bytes → Bytes
slice i n b = take n (drop i b)

-- `{self.flags & _FLAGS_QR_MASK} == _FLAGS_QR_QUERY`
unfoldable pub is_query : DnsIncoming → Bool
is_query m = m.flags / flags_qr_mask % 2 == 0

unfoldable pub is_response : DnsIncoming → Bool
is_response m = m.flags / flags_qr_mask % 2 == 1

-- `DNSIncoming.truncated`
unfoldable pub truncated : DnsIncoming → Bool
truncated m = m.flags / flags_tc % 2 == 1

unfoldable pub is_probe : DnsIncoming → Bool
is_probe m = ltb 0 m.num_authorities

-- One of the six shorts of the header
unfoldable pub read_field : ℕ → (ℕ → DnsIncoming → DnsIncoming) → Reader (Unit {0})
unfolding view_short
read_field i set = do v ← view_short i; modify (set v)

-- `DNSIncoming._read_header`
unfoldable pub read_header : Reader (Unit {0})
unfolding advance read_field
read_header = do
  offset ← advance 12
  read_field offset (λ v m. record m { id = v })
  read_field (offset + 2) (λ v m. record m { flags = v })
  read_field (offset + 4) (λ v m. record m { num_questions = v })
  read_field (offset + 6) (λ v m. record m { num_answers = v })
  read_field (offset + 8) (λ v m. record m { num_authorities = v })
  read_field (offset + 10) (λ v m. record m { num_additionals = v })

-- `DNSIncoming._read_string`
unfoldable pub read_string : ℕ → Reader Bytes
unfolding slice
read_string n m = (ok (slice m.offset n m.data_), record m { offset = m.offset + n })

-- `DNSIncoming._read_character_string`
unfoldable pub read_character_string : Reader Text
unfolding view read_string
read_character_string = do
  start ← get_offset
  n ← view start
  modify (λ m. record m { offset = start + 1 })
  info ← read_string n
  return (utf8_decode info)
