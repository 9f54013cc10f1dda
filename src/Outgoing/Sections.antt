-- ===== src/Outgoing/Sections.antt =====
-- Questions and records of `DNSOutgoing`, and the `write` methods of the record classes of _dns.py.
use lscamoflash.Const.{class_unique, max_msg_absolute, max_msg_typical}
use lscamoflash.Outgoing.{
  DnsOutgoing, Written, replace_short, write_byte, write_character_string, write_int, write_name,
  write_short, write_string, ok, ◌>>=◌, err, value_error,
}
use lscamoflash.Dns.{
  Entry, Question, RData, Record, remaining_ttl_ms, address, hinfo, nsec, pointer, service, text,
}
use lscamoflash.Prelude.{
  ℕ, Bool, Bytes, List, [], bit_or, byte_at, concat_all, drop, false, filter_by, if◌then◌else◌, leb,
  length, ltb, replicate, set_at, take, true, utf8_encode, ◌%◌, ◌&&◌, ◌*◌, ◌+◌, ◌/◌, ◌==◌, ◌^◌, ◌∷◌,
  Text,
}

-- The loop of `DNSNsec.write`: the bitmap, and the octets of it that are used.
unfoldable pub nsec_bitmap : List ℕ → Bytes → ℕ → Written (Bytes × ℕ)
nsec_bitmap [] bitmap total = ok (bitmap, total)
nsec_bitmap (t ∷ ts) bitmap total =
    let byte = t / 8 in
    let bitmap' = set_at bitmap byte (bit_or (byte_at bitmap byte) (0x80 / 2 ^ (t % 8))) in
    if ltb 255 t then err value_error else nsec_bitmap ts bitmap' (byte + 1)

-- The end of `DNSNsec.write`; a bitmap with no octets is a ValueError.
unfoldable pub write_bitmap : Text → Bytes → DnsOutgoing → Written DnsOutgoing
unfolding write_string write_name write_byte
write_bitmap next_name [] o = err value_error
write_bitmap next_name (b ∷ bs) o = do
  o1 ← write_name next_name o
  o2 ← write_byte 0 o1
  o3 ← write_byte (length (b ∷ bs)) o2
  ok (write_string (b ∷ bs) o3)

-- The `write` methods of the record classes
unfoldable pub write_rdata : RData → DnsOutgoing → Written DnsOutgoing
unfolding write_string write_character_string write_name write_short write_byte nsec_bitmap
    write_bitmap
write_rdata (address a s) o = ok (write_string a o)
write_rdata (hinfo cpu os) o = do
  o' ← write_character_string (utf8_encode cpu) o
  write_character_string (utf8_encode os) o'
write_rdata (pointer alias k) o = write_name alias o
write_rdata (text t) o = ok (write_string t o)
write_rdata (service priority weight port server k) o = do
  o1 ← write_short priority o
  o2 ← write_short weight o1
  o3 ← write_short port o2
  write_name server o3
write_rdata (nsec next_name rdtypes) o = do
  (bitmap, total) ← nsec_bitmap rdtypes (replicate 32 0) 0
  write_bitmap next_name (take total bitmap) o

-- `DNSOutgoing._write_record_class`: the class with the unique bit, or the unicast bit of a
-- question.
unfoldable pub write_record_class : Entry → DnsOutgoing → Written DnsOutgoing
unfolding write_short
write_record_class e o =
    if e.unique && o.multicast
    then write_short (e.class_ % 0x8000 + class_unique + e.class_ / 0x10000 * 0x10000) o
    else write_short e.class_ o

-- `DNSOutgoing._write_ttl`: whole seconds.
unfoldable pub write_ttl : Record → ℕ → DnsOutgoing → Written DnsOutgoing
unfolding write_int remaining_ttl_ms
write_ttl r now o = write_int (if now == 0 then r.ttl else remaining_ttl_ms r now / 1000) o

-- `DNSOutgoing._check_data_limit_or_rollback`: whether the packet still fits its limit; if not,
-- what was written since the start is taken back.
unfoldable pub check_data_limit_or_rollback : ℕ → ℕ → DnsOutgoing → Bool × DnsOutgoing
check_data_limit_or_rollback start_data_length start_size o =
    let len_limit = if o.allow_long then max_msg_absolute else max_msg_typical in
    if leb o.size len_limit then (true, record o { allow_long = false }) else (
      false,
      record o {
        allow_long = false;
        data_ = take start_data_length o.data_;
        size = start_size;
        names = filter_by (λ e. ltb e.1 start_size) o.names;
      },
    )

-- `DNSOutgoing._write_question`
unfoldable pub write_question : Question → DnsOutgoing → Written (Bool × DnsOutgoing)
unfolding write_name write_short write_record_class check_data_limit_or_rollback
write_question q o = do
  o1 ← write_name q.name o
  o2 ← write_short q.type o1
  o3 ← write_record_class q.entry o2
  ok (check_data_limit_or_rollback (length o.data_) o.size o3)

-- The bytes of the pieces behind an index
unfoldable pub length_behind : ℕ → List Bytes → ℕ
length_behind i chunks = length (concat_all (drop (i + 1) chunks))

-- `DNSOutgoing._write_record` up to the check of the limit
unfoldable pub write_record_body : Record → ℕ → DnsOutgoing → Written DnsOutgoing
unfolding write_name write_short write_record_class write_ttl write_rdata replace_short
    length_behind
write_record_body r now o = do
  o1 ← write_name r.name o
  o2 ← write_short r.type o1
  o3 ← write_record_class r.entry o2
  o4 ← write_ttl r now o3
  o5 ← write_short 0 o4
  o6 ← write_rdata r.rdata o5
  replace_short (length o4.data_) (length_behind (length o4.data_) o6.data_) o6

-- `DNSOutgoing._write_record`
unfoldable pub write_record : Record → ℕ → DnsOutgoing → Written (Bool × DnsOutgoing)
unfolding write_record_body check_data_limit_or_rollback
write_record r now o = do
  o' ← write_record_body r now o
  ok (check_data_limit_or_rollback (length o.data_) o.size o')
