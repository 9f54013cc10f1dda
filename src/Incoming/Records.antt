-- ===== src/Incoming/Records.antt =====
-- The sections of `DNSIncoming`: questions, records, and the constructor.
use lscamoflash.Const.Types
use lscamoflash.Dns.{
  Question, RData, Record, fast_init_record, init_question, nsec_of, pointer_of, service_of,
  address, hinfo, text,
}
use lscamoflash.Incoming.{
  Decoded, DnsIncoming, Reader, advance, bind_read, get_offset, read_character_string, read_header,
  read_string, view, view_long, view_short, err, no_fuel, ok, slice, ◌>>=◌, modify, return, ◌>>◌,
}
use lscamoflash.Incoming.Names.{read_name}
use lscamoflash.Prelude.{
  ℕ, Bytes, List, Option, Text, [], false, if◌then◌else◌, ltb, none, some, suc, true, zero, ◌%◌,
  ◌*◌, ◌++◌, ◌+◌, ◌-◌, ◌/◌, ◌==◌, ◌^◌, ◌||◌, ◌∷◌,
}

-- The types of one byte of an NSEC bitmap, from the highest bit
unfoldable pub bitmap_byte : ℕ → ℕ → ℕ → List ℕ
bitmap_byte base byte zero = []
bitmap_byte base byte (suc left) =
    let rest = bitmap_byte base byte left in
    if byte / 2 ^ left % 2 == 1 then (base + (7 - left)) ∷ rest else rest

unfoldable pub bitmap_types : ℕ → Bytes → List ℕ
unfolding bitmap_byte
bitmap_types base [] = []
bitmap_types base (byte ∷ bytes) = bitmap_byte base byte 8 ++ bitmap_types (base + 8) bytes

-- The loop of `DNSIncoming._read_bitmap`; each round moves the offset on by two at least.
unfoldable pub read_bitmap : ℕ → ℕ → List ℕ → Reader (List ℕ)
unfolding view slice bitmap_types
read_bitmap zero end_ rdtypes m = (err no_fuel, m)
read_bitmap (suc rounds) end_ rdtypes m =
    let again = λ (types : List ℕ). read_bitmap rounds end_ types in
    elim (ltb m.offset end_) [
      | false ↦ (ok rdtypes, m)
      | true ↦
          (do
            window ← view m.offset
            bitmap_length ← view (m.offset + 1)
            modify (λ m'. record m' { offset = m'.offset + (2 + bitmap_length) })
            again (
                rdtypes
                ++ bitmap_types (window * 256) (slice (m.offset + 2) bitmap_length m.data_)))
            m
    ]

unfoldable pub read_bitmap_to : ℕ → Reader (List ℕ)
unfolding read_bitmap
read_bitmap_to end_ m = read_bitmap (end_ + 1) end_ [] m

-- A record of the packet's time
unfoldable pub make_record : Text → ℕ → ℕ → ℕ → RData → Reader (Option Record)
unfolding fast_init_record
make_record domain type class_ ttl rdata m =
    (ok (some (fast_init_record domain type class_ ttl m.now rdata)), m)

-- The reads of `_read_record` for each kind of record data
unfoldable pub read_address : ℕ → Option ℕ → Reader (Option RData)
unfolding read_string
read_address n scope_id = do a ← read_string n; return (some (address a scope_id))

unfoldable pub read_pointer : Reader (Option RData)
unfolding read_name pointer_of
read_pointer = do name ← read_name; return (some (pointer_of name))

unfoldable pub read_text : ℕ → Reader (Option RData)
unfolding read_string
read_text len = do t ← read_string len; return (some (text t))

unfoldable pub read_service : Reader (Option RData)
unfolding advance view_short read_name service_of
read_service = do
  offset ← advance 6
  priority ← view_short offset
  weight ← view_short (offset + 2)
  port ← view_short (offset + 4)
  server ← read_name
  return (some (service_of priority weight port server))

unfoldable pub read_hinfo : Reader (Option RData)
unfolding read_character_string
read_hinfo = do
  cpu ← read_character_string
  os ← read_character_string
  return (some (hinfo cpu os))

unfoldable pub read_nsec : ℕ → Reader (Option RData)
unfolding read_name read_bitmap_to nsec_of
read_nsec len = do
  name_start ← get_offset
  next_name ← read_name
  rdtypes ← read_bitmap_to (name_start + len)
  return (some (nsec_of next_name rdtypes))

unfoldable pub skip_rdata : ℕ → Reader (Option RData)
unfolding advance
skip_rdata len = do skipped ← advance len; return none

-- The record data of one type; `none` for a type that is skipped.
unfoldable pub read_rdata : ℕ → ℕ → Reader (Option RData)
unfolding read_address read_pointer read_text read_service read_hinfo read_nsec skip_rdata
read_rdata type len m =
    if type == Types.a
    then read_address 4 none m
    else if (type == Types.cname) || (type == Types.ptr)
    then read_pointer m
    else if type == Types.txt
    then read_text len m
    else if type == Types.srv
    then read_service m
    else if type == Types.hinfo
    then read_hinfo m
    else if type == Types.aaaa
    then read_address 16 m.scope_id m
    else if type == Types.nsec
    then read_nsec len m
    else skip_rdata len m

-- `DNSIncoming._read_record`
unfoldable pub read_record : Text → ℕ → ℕ → ℕ → ℕ → Reader (Option Record)
unfolding read_rdata make_record
read_record domain type class_ ttl len = do
  rdata ← read_rdata type len
  elim rdata [ none ↦ return none | some d ↦ make_record domain type class_ ttl d ]

-- The `try` of `_read_others`: a record that fails to decode is skipped by its length.
unfoldable pub skip_on_error :
    ℕ → Decoded (Option Record) × DnsIncoming → Decoded (Option Record) × DnsIncoming
skip_on_error end_ (ok r, m) = (ok r, m)
skip_on_error end_ (err no_fuel, m) = (err no_fuel, m)
skip_on_error end_ (err e, m) = (ok none, record m { offset = end_ })

unfoldable pub add_record : Option Record → DnsIncoming → DnsIncoming
add_record none m = m
add_record (some r) m = record m { answers = m.answers ++ (r ∷ []) }

-- One round of the loop of `_read_others`
unfoldable pub read_other : Reader (Unit {0})
unfolding read_name advance view_short view_long read_record skip_on_error add_record
read_other = do
  domain ← read_name
  offset ← advance 10
  type ← view_short offset
  class_ ← view_short (offset + 2)
  ttl ← view_long (offset + 4)
  len ← view_short (offset + 8)
  rec ← λ m. skip_on_error (m.offset + len) (read_record domain type class_ ttl len m)
  modify (add_record rec)

unfoldable pub repeat_read : ℕ → Reader (Unit {0}) → Reader (Unit {0})
repeat_read zero r m = (ok tt, m)
repeat_read (suc n) r m = bind_read (r m) (λ _. repeat_read n r)

-- `DNSIncoming._read_others`
unfoldable pub read_others : Reader (Unit {0})
unfolding read_other repeat_read
read_others m =
    repeat_read (m.num_answers + m.num_authorities + m.num_additionals) read_other
      (record m { did_read_others = true })

unfoldable pub add_read_question : Question → DnsIncoming → DnsIncoming
add_read_question q m = record m {
  questions = m.questions ++ (q ∷ []);
  has_qu_question = m.has_qu_question || q.unique;
}

-- One round of the loop of `_read_questions`
unfoldable pub read_question : Reader (Unit {0})
unfolding read_name advance view_short add_read_question init_question
read_question = do
  name ← read_name
  offset ← advance 4
  type ← view_short offset
  class_ ← view_short (offset + 2)
  modify (add_read_question (init_question name type class_))

-- `DNSIncoming._read_questions`
unfoldable pub read_questions : Reader (Unit {0})
unfolding read_question repeat_read
read_questions m = repeat_read m.num_questions read_question m

-- `DNSIncoming._initial_parse`
unfoldable pub initial_parse : Reader (Unit {0})
unfolding read_header read_questions read_others
initial_parse = do
  read_header
  read_questions
  λ m. if m.num_questions == 0 then read_others m else (ok tt, m)
  modify (λ m. record m { valid = true })

abbrev pub blank_incoming : Bytes → Option ℕ → ℕ → DnsIncoming
blank_incoming b scope_id now = record {
  data_ = b;
  flags = 0;
  id = 0;
  offset = 0;
  name_cache = [];
  questions = [];
  answers = [];
  num_questions = 0;
  num_answers = 0;
  num_authorities = 0;
  num_additionals = 0;
  valid = false;
  did_read_others = false;
  now = now;
  scope_id = scope_id;
  has_qu_question = false;
}

-- `DNSIncoming.__init__`, which logs a decode error and keeps what was read.
unfoldable pub init_incoming : Bytes → Option ℕ → ℕ → DnsIncoming
unfolding initial_parse
init_incoming b scope_id now = (initial_parse (blank_incoming b scope_id now)).1

-- `DNSIncoming.answers`
unfoldable pub read_answers : DnsIncoming → List Record × DnsIncoming
unfolding read_others
read_answers m = let m' = if m.did_read_others then m else (read_others m).1 in (m'.answers, m')
