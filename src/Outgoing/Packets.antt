-- ===== src/Outgoing/Packets.antt =====
-- `DNSOutgoing.packets`: the sections are written from offsets, packet after packet.
use lscamoflash.Const.{flags_tc}
use lscamoflash.Dns.{Record}
use lscamoflash.Outgoing.Sections.{write_question, write_record}
use lscamoflash.Outgoing.{
  DnsOutgoing, Written, insert_short_at_start, is_query, reset_for_next_packet, err, ok, ◌>>=◌,
  no_fuel,
}
use lscamoflash.Prelude.{
  ℕ, Bool, Bytes, List, [], concat_all, drop, false, if◌then◌else◌, length, ltb, suc, true, zero,
  ◌%◌, ◌&&◌, ◌++◌, ◌+◌, ◌-◌, ◌/◌, ◌==◌, ◌||◌, ◌∷◌,
}

-- Writes items until one does not fit; counts those that did.
unfoldable pub write_items {ℓ} :
    {X : Type ℓ}
    → (X → DnsOutgoing → Written (Bool × DnsOutgoing))
    → List X
    → DnsOutgoing
    → Written (ℕ × DnsOutgoing)
write_items write [] o = ok (0, o)
write_items write (x ∷ xs) o = do
  (fits, o') ← write x o
  elim fits [ false ↦ ok (0, o') | true ↦ do (n, o'') ← write_items write xs o'; ok (n + 1, o'') ]

-- `_write_questions_from_offset`, `_write_answers_from_offset` and `_write_records_from_offset`
unfoldable pub write_questions_from_offset : ℕ → DnsOutgoing → Written (ℕ × DnsOutgoing)
unfolding write_items write_question
write_questions_from_offset offset o = write_items write_question (drop offset o.questions) o

unfoldable pub write_answers_from_offset : ℕ → DnsOutgoing → Written (ℕ × DnsOutgoing)
unfolding write_items write_record
write_answers_from_offset offset o =
    write_items (λ a. write_record a.0 a.1) (drop offset o.answers) o

unfoldable pub write_records_from_offset : List Record → ℕ → DnsOutgoing → Written (ℕ × DnsOutgoing)
unfolding write_items write_record
write_records_from_offset records offset o =
    write_items (λ r. write_record r 0) (drop offset records) o

-- The offsets of the four sections
pub record Offsets : Type 0 where
  pub questions_offset : ℕ
  pub answer_offset : ℕ
  pub authority_offset : ℕ
  pub additional_offset : ℕ

-- `DNSOutgoing._has_more_to_add`
unfoldable pub has_more_to_add : Offsets → DnsOutgoing → Bool
has_more_to_add s o =
    ltb s.questions_offset (length o.questions)
    || (ltb s.answer_offset (length o.answers)
        || (ltb s.authority_offset (length o.authorities)
            || ltb s.additional_offset (length o.additionals)))

-- The four sections of one packet: the offsets behind what was written, and the object.
unfoldable pub write_sections : Offsets → DnsOutgoing → Written (Offsets × DnsOutgoing)
unfolding write_questions_from_offset write_answers_from_offset write_records_from_offset
write_sections s o = do
  (questions_written, o1) ← write_questions_from_offset s.questions_offset o
  (answers_written, o2) ← write_answers_from_offset s.answer_offset o1
  (authorities_written, o3) ← write_records_from_offset o2.authorities s.authority_offset o2
  (additionals_written, o4) ← write_records_from_offset o3.additionals s.additional_offset o3
  ok (
    record {
      questions_offset = s.questions_offset + questions_written;
      answer_offset = s.answer_offset + answers_written;
      authority_offset = s.authority_offset + authorities_written;
      additional_offset = s.additional_offset + additionals_written;
    },
    o4,
  )

unfoldable pub has_data : List Bytes → Bool
has_data [] = false
has_data (c ∷ cs) = true

-- `flags | _FLAGS_TC`
unfoldable pub with_tc : ℕ → ℕ
with_tc flags = if flags / flags_tc % 2 == 0 then flags + flags_tc else flags

-- The header of one packet, and the packet itself
unfoldable pub finish_packet : Offsets → Offsets → DnsOutgoing → Written DnsOutgoing
unfolding insert_short_at_start has_more_to_add with_tc is_query
finish_packet s s' o = do
  o1 ← insert_short_at_start (s'.additional_offset - s.additional_offset) o
  o2 ← insert_short_at_start (s'.authority_offset - s.authority_offset) o1
  o3 ← insert_short_at_start (s'.answer_offset - s.answer_offset) o2
  o4 ← insert_short_at_start (s'.questions_offset - s.questions_offset) o3
  o5 ←
      insert_short_at_start
        (if has_more_to_add s' o4 && is_query o4 then with_tc o4.flags else o4.flags) o4
  o6 ← insert_short_at_start (if o5.multicast then 0 else o5.id) o5
  ok (record o6 { packets_data = o6.packets_data ++ (concat_all o6.data_ ∷ []) })

-- The loop of `packets`: it ends when nothing is left, or when a round made no progress.
unfoldable pub packets_loop : ℕ → Offsets → DnsOutgoing → Written DnsOutgoing
unfolding write_sections finish_packet has_data has_more_to_add reset_for_next_packet
packets_loop zero s o = err no_fuel
packets_loop (suc fuel) s o = do
  (s', o1) ← write_sections s o
  o2 ← finish_packet s s' o1
  elim (has_data o1.data_ && has_more_to_add s' o2) [
    | false ↦ ok o2
    | true ↦ packets_loop fuel s' (reset_for_next_packet o2)
  ]

unfoldable pub item_count : DnsOutgoing → ℕ
item_count o = length o.questions + length o.answers + length o.authorities + length o.additionals

abbrev pub no_offsets : Offsets
no_offsets = record {
  questions_offset = 0;
  answer_offset = 0;
  authority_offset = 0;
  additional_offset = 0;
}

-- `DNSOutgoing.packets`; each round but the last writes an item, so `item_count` + 1 rounds do.
unfoldable pub packets : DnsOutgoing → Written (List Bytes × DnsOutgoing)
unfolding packets_loop item_count
packets o = elim o.finished [
  | true ↦ ok (o.packets_data, o)
  | false ↦ do
    o' ← packets_loop (item_count o + 1) no_offsets o
    ok (o'.packets_data, record o' { finished = true })
]
