-- ===== src/Outgoing.antt =====
-- `DNSOutgoing` of SOURCE/src/modules/python/zeroconf/src/zeroconf/_protocol/outgoing.py: the bytes
-- and the sections of the packets. A method takes the object and returns it anew, or raises;
-- logging is left out.
pub mod Growth
pub mod Limits
pub mod Packets
pub mod Ends
pub mod Rounds
pub mod Sections
use lscamoflash.Prelude.Dict.{Dict}
use lscamoflash.Const.{dns_packet_header_len, flags_qr_mask}
use lscamoflash.Dns.{Question, Record, is_expired, suppressed_by}
use lscamoflash.Prelude.Dict
use lscamoflash.Prelude.{
  ℕ, Bool, Bytes, List, Option, Text, [], false, if◌then◌else◌, join_dots, length, ltb, none, not,
  set_at, some, split_dots, text_eq, true, utf8_encode, ◌%◌, ◌++◌, ◌+◌, ◌-◌, ◌/◌, ◌==◌, ◌||◌, ◌∷◌,
  bit_or,
}

-- `State`, and the object itself; `data_` holds the pieces of the packet that is being written.
pub record DnsOutgoing : Type 0 where
  pub flags : ℕ
  pub id : ℕ
  pub multicast : Bool
  pub packets_data : List Bytes
  pub names : Dict Text ℕ
  pub data_ : List Bytes
  pub size : ℕ
  pub allow_long : Bool
  pub finished : Bool
  pub questions : List Question
  pub answers : List (Record × ℕ)
  pub authorities : List Record
  pub additionals : List Record

-- `DNSOutgoing.__init__`
abbrev pub init_outgoing : ℕ → Bool → ℕ → DnsOutgoing
init_outgoing flags multicast id = record {
  flags = flags;
  id = id;
  multicast = multicast;
  packets_data = [];
  names = [];
  data_ = [];
  size = dns_packet_header_len;
  allow_long = true;
  finished = false;
  questions = [];
  answers = [];
  authorities = [];
  additionals = [];
}

-- What the methods raise. `no_fuel` is the model's own: the loop of `packets` ran out of fuel.
pub data WriteError : Type 0 where
  name_part_too_long index_error struct_error value_error no_fuel : WriteError

pub data Written {ℓ} (A : Type ℓ) : Type ℓ where
  ok : A → Written A
  err : WriteError → Written A

infixl 5 ◌>>=◌
abbrev pub ◌>>=◌ {ℓ κ} : {A : Type ℓ} {B : Type κ} → Written A → (A → Written B) → Written B
ok a >>= f = f a
err e >>= f = err e

-- `(self.flags & _FLAGS_QR_MASK) == _FLAGS_QR_QUERY`
unfoldable pub is_query : DnsOutgoing → Bool
is_query o = o.flags / flags_qr_mask % 2 == 0

-- `DNSOutgoing._reset_for_next_packet`
unfoldable pub reset_for_next_packet : DnsOutgoing → DnsOutgoing
reset_for_next_packet o = record o {
  names = [];
  data_ = [];
  size = dns_packet_header_len;
  allow_long = true;
}

unfoldable pub add_question : Question → DnsOutgoing → DnsOutgoing
add_question q o = record o { questions = o.questions ++ (q ∷ []) }

-- `DNSOutgoing.add_answer_at_time`
unfoldable pub add_answer_at_time : Option Record → ℕ → DnsOutgoing → DnsOutgoing
add_answer_at_time none now o = o
add_answer_at_time (some r) now o =
    if (now == 0) || not (is_expired r now)
    then record o { answers = o.answers ++ ((r, now) ∷ []) }
    else o

-- `DNSOutgoing.add_answer`, over the answers of the incoming message
unfoldable pub add_answer : List Record → Record → DnsOutgoing → DnsOutgoing
unfolding add_answer_at_time
add_answer known r o = if suppressed_by r known then o else add_answer_at_time (some r) 0 o

unfoldable pub add_authorative_answer : Record → DnsOutgoing → DnsOutgoing
add_authorative_answer r o = record o { authorities = o.authorities ++ (r ∷ []) }

unfoldable pub add_additional_answer : Record → DnsOutgoing → DnsOutgoing
add_additional_answer r o = record o { additionals = o.additionals ++ (r ∷ []) }

-- `self.data.append(chunk); self.size += n`
unfoldable pub append_chunk : Bytes → ℕ → DnsOutgoing → DnsOutgoing
append_chunk chunk n o = record o { data_ = o.data_ ++ (chunk ∷ []); size = o.size + n }

-- `DNSOutgoing._write_byte`: the table has 256 entries.
unfoldable pub write_byte : ℕ → DnsOutgoing → Written DnsOutgoing
unfolding append_chunk
write_byte v o = if ltb v 256 then ok (append_chunk (v ∷ []) 1 o) else err index_error

-- `DNSOutgoing._get_short`: `Struct(">H").pack`
unfoldable pub get_short : ℕ → Written Bytes
get_short v = if ltb v 0x10000 then ok ((v / 256) ∷ (v % 256) ∷ []) else err struct_error

-- `DNSOutgoing._insert_short_at_start`; it leaves the size alone, which counts the header already.
unfoldable pub insert_short_at_start : ℕ → DnsOutgoing → Written DnsOutgoing
unfolding get_short
insert_short_at_start v o = do b ← get_short v; ok (record o { data_ = b ∷ o.data_ })

-- `DNSOutgoing._replace_short`
unfoldable pub replace_short : ℕ → ℕ → DnsOutgoing → Written DnsOutgoing
unfolding get_short
replace_short i v o = do b ← get_short v; ok (record o { data_ = set_at o.data_ i b })

unfoldable pub write_short : ℕ → DnsOutgoing → Written DnsOutgoing
unfolding get_short append_chunk
write_short v o = do b ← get_short v; ok (append_chunk b 2 o)

-- `DNSOutgoing._write_int`: `Struct(">L").pack`
unfoldable pub write_int : ℕ → DnsOutgoing → Written DnsOutgoing
unfolding append_chunk
write_int v o =
    if ltb v 0x1_0000_0000
    then ok (
        append_chunk ((v / 0x1000000) ∷ (v / 0x10000 % 256) ∷ (v / 256 % 256) ∷ (v % 256) ∷ []) 4 o)
    else err struct_error

unfoldable pub write_string : Bytes → DnsOutgoing → DnsOutgoing
unfolding append_chunk
write_string v o = append_chunk v (length v) o

-- `DNSOutgoing._write_utf`
unfoldable pub write_utf : Text → DnsOutgoing → Written DnsOutgoing
unfolding write_byte write_string
write_utf s o =
    let utfstr = utf8_encode s in
    if ltb 64 (length utfstr)
    then err name_part_too_long
    else do o' ← write_byte (length utfstr) o; ok (write_string utfstr o')

unfoldable pub write_character_string : Bytes → DnsOutgoing → Written DnsOutgoing
unfolding write_byte write_string
write_character_string v o =
    if ltb 256 (length v)
    then err name_part_too_long
    else do o' ← write_byte (length v) o; ok (write_string v o')

-- `self.names.get(name, 0)`
unfoldable pub name_index : Text → DnsOutgoing → ℕ
name_index name o = elim (Dict.get text_eq name o.names) [ none ↦ 0 | some i ↦ i ]

-- `DNSOutgoing._write_link_to_name`
unfoldable pub write_link_to_name : ℕ → DnsOutgoing → Written DnsOutgoing
unfolding write_byte
write_link_to_name i o = do o' ← write_byte (bit_or (i / 256) 0xC0) o; write_byte (i % 256) o'

-- `if name and name[-1] == ".": name = name[:-1]`
unfoldable pub strip_dot : Text → Text
strip_dot [] = []
strip_dot (c ∷ []) = if c == b'.' then [] else c ∷ []
strip_dot (c ∷ d ∷ cs) = c ∷ strip_dot (d ∷ cs)

-- `self.names[name] = i`
unfoldable pub note_name : Text → ℕ → DnsOutgoing → DnsOutgoing
note_name name i o = record o { names = Dict.insert text_eq name i o.names }

-- The loop of `write_name` over the labels behind the first, and the closing byte.
unfoldable pub write_labels : ℕ → List Text → DnsOutgoing → Written DnsOutgoing
unfolding write_byte name_index write_link_to_name note_name write_utf
write_labels end_ [] o = write_byte 0 o
write_labels end_ (l ∷ ls) o =
    let partial_name = join_dots (l ∷ ls) in
    let rest = λ (o' : DnsOutgoing). write_labels end_ ls o' in
    elim (name_index partial_name o == 0) [
      | false ↦ write_link_to_name (name_index partial_name o) o
      | true ↦
          write_utf l (note_name partial_name (end_ - length (utf8_encode partial_name)) o) >>= rest
    ]

unfoldable pub write_first : Text → List Text → DnsOutgoing → Written DnsOutgoing
unfolding write_labels write_byte note_name write_utf
write_first name [] o = err index_error
write_first name (l ∷ ls) o =
    write_utf l (note_name name o.size o) >>= write_labels (o.size + length (utf8_encode name)) ls

-- `DNSOutgoing.write_name`
unfoldable pub write_name : Text → DnsOutgoing → Written DnsOutgoing
unfolding strip_dot name_index write_link_to_name write_first
write_name dotted o =
    let name = strip_dot dotted in
    elim (name_index name o == 0) [
      | false ↦ write_link_to_name (name_index name o) o
      | true ↦ write_first name (split_dots name) o
    ]
