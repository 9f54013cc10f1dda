-- ===== src/Tests/Samples.antt =====
-- The questions, records, answers and packets that the runs use.
use lscamoflash.Services.{ServiceInfo}
use lscamoflash.Queue.{OutgoingQueue}
use lscamoflash.Dns.{Entry, Question, Record, pointer}
use lscamoflash.Answers.{AnswerGroup, AnswerSet}
use lscamoflash.Prelude.{Bytes, Text, [], codes, false, ◌∷◌, some, none}

abbrev pub http : Text
http = codes "_http._tcp.local."

-- The names of a pointer
abbrev pub printer : Text
printer = codes "office._http._tcp.local."

abbrev pub http_entry : Entry
http_entry = record { name = http; key = http; type = 12; class_ = 1; unique = false }

abbrev pub http_question : Question
http_question = record { entry = http_entry }

abbrev pub printer_ptr : Record
printer_ptr = record {
  entry = http_entry;
  ttl = 120;
  created = 1000;
  rdata = pointer printer printer;
}

-- The same record, with half the ttl
abbrev pub shorter : Record
shorter = record printer_ptr { ttl = 60 }

abbrev pub answer_set : AnswerSet
answer_set = (printer_ptr, []) ∷ []

abbrev pub early_group : AnswerGroup
early_group = record { send_after = 1000; send_before = 1500; answers = answer_set }

abbrev pub late_group : AnswerGroup
late_group = record { send_after = 2000; send_before = 2500; answers = answer_set }

abbrev pub two_groups : OutgoingQueue
two_groups = record {
  queue = early_group ∷ late_group ∷ [];
  additional_delay = 0;
  aggregation_delay = 500;
}

-- A query for the addresses of `a.`, which says that more known answers follow
abbrev pub truncated_query : Bytes
truncated_query = 0 ∷ 0 ∷ 2 ∷ 0 ∷ 0 ∷ 1 ∷ 0 ∷ 0 ∷ 0 ∷ 0 ∷ 0 ∷ 0 ∷ 1 ∷ 97 ∷ 0 ∷ 0 ∷ 1 ∷ 0 ∷ 1 ∷ []

-- A header whose question points to a pointer that points back
abbrev pub looping_query : Bytes
looping_query =
    0 ∷ 0 ∷ 0 ∷ 0 ∷ 0 ∷ 1 ∷ 0 ∷ 0 ∷ 0 ∷ 0 ∷ 0 ∷ 0 ∷ 192 ∷ 14 ∷ 192 ∷ 12 ∷ 0 ∷ 1 ∷ 0 ∷ 1 ∷ []

abbrev pub office : ServiceInfo
office = record {
  type = http;
  name = printer;
  key = printer;
  ipv4_addresses = record { packed = 10 ∷ 0 ∷ 0 ∷ 7 ∷ []; scope = none } ∷ [];
  ipv6_addresses = [];
  port = 80;
  weight = 0;
  priority = 0;
  server = some printer;
  server_key = some printer;
  text = [];
  host_ttl = 120;
  other_ttl = 4500;
}
