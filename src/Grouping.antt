-- ===== src/Grouping.antt =====
-- The outgoing queries of SOURCE/src/modules/python/zeroconf/src/zeroconf/_services/browser.py:
-- which questions are asked with which known answers, and how they are grouped into messages.
pub mod Buckets
pub mod Complete
pub mod Shares
pub mod Questions
use lscamoflash.Prelude.Dict.{Dict}
use lscamoflash.History.{QuestionHistory, add_question_at_time, suppresses}
use lscamoflash.Const.{class_in, dns_packet_header_len, max_msg_typical}
use lscamoflash.Cache.{DnsCache, async_all_by_details}
use lscamoflash.Dns.{
  Question, RData, Record, init_question, is_stale, question_eq, question_max_size, pointer,
}
use lscamoflash.Outgoing.{DnsOutgoing, add_answer_at_time, add_question, init_outgoing}
use lscamoflash.Prelude.{
  ℕ, Bool, List, Option, Text, [], false, filter_by, if◌then◌else◌, length, map, none, not, some,
  true, ◌&&◌, ◌+◌, ◌-◌, ◌||◌, ◌∷◌,
}
use lscamoflash.Prelude.Dict
use lscamoflash.Prelude.Int.{ℤ, pos, negsuc, sub_ℕ, leb_ℤ, ◌+ℤ◌}
use lscamoflash.Const.Types

-- `DNSQuestionType`, of _dns.py
pub data QuestionType : Type 0 where
  qu qm : QuestionType

-- The alias of a `DNSPointer`; every cached record of type PTR is one.
unfoldable pub alias_of : RData → Text
alias_of (pointer alias key) = alias
alias_of _ = []

-- `DNSPointer.max_size_compressed`: it is negative where the name is long and the alias short.
unfoldable pub max_size_compressed : Record → ℤ
unfolding alias_of
max_size_compressed r = sub_ℕ (14 + length (alias_of r.rdata)) (length r.name)

unfoldable pub sum_sizes : List Record → ℤ
unfolding max_size_compressed ◌+ℤ◌
sum_sizes [] = pos 0
sum_sizes (r ∷ rs) = max_size_compressed r +ℤ sum_sizes rs

-- A question, its known answers and what `query_by_size` has for it
pub record Query : Type 0 where
  pub question : Question
  pub known_answers : List Record
  pub query_size : ℤ

-- `query_by_size`, with the known answers beside it
unfoldable pub sized_queries : Dict Question (List Record) → List Query
unfolding question_max_size sum_sizes ◌+ℤ◌
sized_queries [] = []
sized_queries ((q, as') ∷ m) =
    record {
      question = q;
      known_answers = as';
      query_size = pos (question_max_size q) +ℤ sum_sizes as';
    }
    ∷ sized_queries m

-- `sorted(..., reverse=True)`: the largest first, equal ones in their old order
unfoldable pub insert_by_size : Query → List Query → List Query
insert_by_size q [] = q ∷ []
insert_by_size q (r ∷ rs) =
    if leb_ℤ r.query_size q.query_size then q ∷ r ∷ rs else r ∷ insert_by_size q rs

unfoldable pub sorted_by_size : List Query → List Query
unfolding insert_by_size
sorted_by_size [] = []
sorted_by_size (q ∷ qs) = insert_by_size q (sorted_by_size qs)

-- `_DNSPointerOutgoingBucket`
pub record Bucket : Type 0 where
  pub now_millis : ℕ
  pub out : DnsOutgoing
  pub bytes : ℤ

abbrev pub new_bucket : ℕ → Bool → Bucket
new_bucket now multicast = record {
  now_millis = now;
  out = init_outgoing 0 multicast 0;
  bytes = pos 0;
}

-- `out.add_answer_at_time(answer, now_millis)` for each answer
unfoldable pub add_answers_at : ℕ → List Record → DnsOutgoing → DnsOutgoing
unfolding add_answer_at_time
add_answers_at now [] o = o
add_answers_at now (r ∷ rs) o = add_answers_at now rs (add_answer_at_time (some r) now o)

-- `_DNSPointerOutgoingBucket.add`
unfoldable pub add_to_bucket : Query → Bucket → Bucket
unfolding add_question add_answers_at ◌+ℤ◌
add_to_bucket q b = record b {
  out = add_answers_at b.now_millis q.known_answers (add_question q.question b.out);
  bytes = b.bytes +ℤ q.query_size;
}

-- `_MAX_MSG_TYPICAL - _DNS_PACKET_HEADER_LEN`
abbrev pub max_bucket_size : ℤ
max_bucket_size = pos (max_msg_typical - dns_packet_header_len)

-- The first bucket with room takes the query, or a new one.
unfoldable pub place : ℕ → Bool → Query → List Bucket → List Bucket
unfolding add_to_bucket ◌+ℤ◌
place now multicast q [] = add_to_bucket q (new_bucket now multicast) ∷ []
place now multicast q (b ∷ bs) =
    if leb_ℤ (b.bytes +ℤ q.query_size) max_bucket_size
    then add_to_bucket q b ∷ bs
    else b ∷ place now multicast q bs

unfoldable pub place_all : ℕ → Bool → List Query → List Bucket → List Bucket
unfolding place
place_all now multicast [] bs = bs
place_all now multicast (q ∷ qs) bs = place_all now multicast qs (place now multicast q bs)

-- The buckets of `_group_ptr_queries_with_known_answers`
unfoldable pub query_buckets : ℕ → Bool → Dict Question (List Record) → List Bucket
unfolding place_all sorted_by_size sized_queries
query_buckets now multicast m = place_all now multicast (sorted_by_size (sized_queries m)) []

-- `_group_ptr_queries_with_known_answers`
unfoldable pub group_ptr_queries : ℕ → Bool → Dict Question (List Record) → List DnsOutgoing
unfolding query_buckets
group_ptr_queries now multicast m = map (λ b. b.out) (query_buckets now multicast m)

-- Whether the questions ask for a unicast answer
unfoldable pub is_qu : Bool → Option QuestionType → Bool
is_qu multicast none = not multicast
is_qu multicast (some qu) = true
is_qu multicast (some qm) = false

-- The question for a type, with the unicast bit set as asked
unfoldable pub type_question : Bool → Text → Question
unfolding init_question
type_question unicast type =
    let q = init_question type Types.ptr class_in in
    record { entry = record q.entry { unique = unicast } }

-- The cached answers to the question for a type that are not stale
unfoldable pub known_pointers : ℕ → Text → DnsCache → List Record
unfolding async_all_by_details is_stale
known_pointers now type c =
    filter_by (λ r. not (is_stale r now)) (async_all_by_details type Types.ptr class_in c)

-- The loop of `generate_service_query` over the types: the questions, and the history.
unfoldable pub collect_questions :
    ℕ
    → Bool
    → List Text
    → DnsCache
    → QuestionHistory
    → Dict Question (List Record)
    → Dict Question (List Record) × QuestionHistory
unfolding type_question known_pointers suppresses add_question_at_time
collect_questions now unicast [] c h m = (m, h)
collect_questions now unicast (t ∷ ts) c h m =
    let q = type_question unicast t in
    let known = known_pointers now t c in
    let skip = not unicast && suppresses q now known h in
    collect_questions now unicast ts c
      (if skip || unicast then h else add_question_at_time q now known h)
      (if skip then m else Dict.insert question_eq q known m)

-- `generate_service_query` of _services/browser.py
unfoldable pub generate_service_query :
    ℕ
    → List Text
    → Bool
    → Option QuestionType
    → DnsCache
    → QuestionHistory
    → List DnsOutgoing × QuestionHistory
unfolding is_qu collect_questions group_ptr_queries
generate_service_query now types multicast question_type c h =
    let (m, h') = collect_questions now (is_qu multicast question_type) types c h [] in
    (group_ptr_queries now multicast m, h')
