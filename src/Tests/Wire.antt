-- ===== src/Tests/Wire.antt =====
-- Runs of the packet writer and reader.
use lscamoflash.Outgoing.Ends.{IsEnded, packets-IsEnded}
use lscamoflash.Tests.Samples.{http, printer_ptr, looping_query}
use lscamoflash.Outgoing.Packets.{packets}
use lscamoflash.Incoming.Records.{init_incoming, read_answers}
use lscamoflash.Outgoing.Sections.{write_question, write_record}
use lscamoflash.Dns.{
  Record, fast_init_entry, fast_init_record, init_question, is_expired, pointer_of,
}
use lscamoflash.Prelude.Dict.{Dict}
use lscamoflash.Incoming.{DnsIncoming}
use lscamoflash.Outgoing.{DnsOutgoing, Written, add_answer_at_time, add_question, init_outgoing}
use lscamoflash.Prelude.Dict
use lscamoflash.Prelude.{
  Bytes, List, [], join_dots, lower, none, refl, some, split_dots, text_eq, true, utf8_decode,
  utf8_encode, ◌∷◌, ◌≡◌, false,
}

-- All that a run of the writer and the reader computes with
wire : Unit {0}
unfolding packets write_record write_question init_incoming read_answers add_question
    add_answer_at_time text_eq split_dots join_dots utf8_encode utf8_decode lower Dict.get
    Dict.insert fast_init_record pointer_of init_question is_expired
wire = tt

abbrev sent : DnsOutgoing
sent =
    unfold add_question add_answer_at_time is_expired init_question fast_init_entry lower in
    add_answer_at_time (some printer_ptr) 0
      (add_question (init_question http 12 1) (init_outgoing 0x8400 true 0))

out : Written (List Bytes × DnsOutgoing)
unfolding wire
out = packets sent

bytes : Bytes
unfolding wire out
bytes = elim out [ Written.ok (p ∷ ps, o) ↦ p | _ ↦ [] ]

back : List Record × DnsIncoming
unfolding wire bytes
back = read_answers (init_incoming bytes none 1000)

-- A record that is written to a packet is read back.
read_back : back.0 ≡ printer_ptr ∷ []
unfolding back
read_back = refl

-- A name that points to a pointer back to it makes the packet invalid.
looping_is_invalid : (init_incoming looping_query none 1000).valid ≡ false
unfolding wire
looping_is_invalid = refl

packets-IsEnded_example : IsEnded (packets sent)
unfolding wire
packets-IsEnded_example = packets-IsEnded sent refl refl refl refl
