-- ===== src/Info/Request.antt =====
-- `ServiceInfo.async_request` and the queries that it sends, of
-- SOURCE/src/modules/python/zeroconf/src/zeroconf/_services/info.py. The coroutine is a sequence of
-- rounds, one for each time it wakes; what it finds then is an argument of the round.
use lscamoflash.Manager.{is_address_type}
use lscamoflash.History.{QuestionHistory, add_question_at_time, is_empty, suppresses}
use lscamoflash.Cache.{DnsCache, async_all_by_details}
use lscamoflash.Const.{class_in, duplicate_question_interval, flags_qr_query, listener_time}
use lscamoflash.Const.Types
use lscamoflash.Prelude.{
  ℕ, Bool, List, Option, Text, [], false, filter_by, if◌then◌else◌, leb, length, ltb, none, not,
  some, true, ◌&&◌, ◌+◌, ◌-◌, ◌==◌, ◌∷◌,
}
use lscamoflash.Dns.{Question, Record, init_question, is_stale}
use lscamoflash.Outgoing.{DnsOutgoing, add_answer_at_time, add_question, init_outgoing}
use lscamoflash.Grouping.{QuestionType, qm, qu}
use lscamoflash.Info.{
  Resolver, address_resolver, address_resolver_ipv4, address_resolver_ipv6, service_info,
  is_complete, load_from_cache,
}
use lscamoflash.Services.{ServiceInfo, or_else}

-- `_query_record_types`
unfoldable pub query_record_types : Resolver → List ℕ
query_record_types service_info = Types.srv ∷ Types.txt ∷ Types.a ∷ Types.aaaa ∷ []
query_record_types address_resolver = Types.a ∷ Types.aaaa ∷ []
query_record_types address_resolver_ipv6 = Types.aaaa ∷ []
query_record_types address_resolver_ipv4 = Types.a ∷ []

unfoldable pub add_known_answers : ℕ → List Record → DnsOutgoing → DnsOutgoing
unfolding add_answer_at_time
add_known_answers now [] o = o
add_known_answers now (r ∷ rs) o = add_known_answers now rs (add_answer_at_time (some r) now o)

-- The cached answers that are not stale
unfoldable pub known_answers : ℕ → Text → ℕ → DnsCache → List Record
unfolding async_all_by_details is_stale
known_answers now name type c =
    filter_by (λ r. not (is_stale r now)) (async_all_by_details name type class_in c)

-- `ServiceInfo._add_question_with_known_answers`, of the class `_CLASS_IN`
unfoldable pub add_question_with_known_answers :
    Bool
    → DnsCache
    → ℕ
    → Text
    → ℕ
    → Bool
    → DnsOutgoing × QuestionHistory
    → DnsOutgoing × QuestionHistory
unfolding known_answers init_question suppresses add_question_at_time add_question add_known_answers
    is_empty
add_question_with_known_answers is_unicast c now name type skip_if_known (out, h) =
    let known = known_answers now name type c in
    let q = init_question name type class_in in
    let unicast : Question = record { entry = record q.entry { unique = true } } in
    if skip_if_known && not (is_empty known)
    then (out, h)
    else if is_unicast
    then (add_known_answers now known (add_question unicast out), h)
    else if suppresses q now known h
    then (out, h)
    else (add_known_answers now known (add_question q out), add_question_at_time q now known h)

-- The question of one type: those for the service and its text are skipped if they are known.
unfoldable pub add_question_of :
    Bool
    → DnsCache
    → ℕ
    → ServiceInfo
    → ℕ
    → DnsOutgoing × QuestionHistory
    → DnsOutgoing × QuestionHistory
unfolding add_question_with_known_answers or_else is_address_type
add_question_of is_unicast c now i type out =
    if is_address_type type
    then add_question_with_known_answers is_unicast c now (or_else i.server i.name) type false out
    else add_question_with_known_answers is_unicast c now i.name type true out

unfoldable pub add_questions_of :
    Bool
    → DnsCache
    → ℕ
    → ServiceInfo
    → List ℕ
    → DnsOutgoing × QuestionHistory
    → DnsOutgoing × QuestionHistory
unfolding add_question_of
add_questions_of is_unicast c now i [] out = out
add_questions_of is_unicast c now i (t ∷ ts) out =
    add_questions_of is_unicast c now i ts (add_question_of is_unicast c now i t out)

unfoldable pub is_qm : QuestionType → Bool
is_qm qu = false
is_qm qm = true

-- `ServiceInfo._generate_request_query`
unfoldable pub generate_request_query :
    Resolver
    → ℕ
    → QuestionType
    → ServiceInfo
    → DnsCache
    → QuestionHistory
    → DnsOutgoing × QuestionHistory
unfolding add_questions_of query_record_types is_qm
generate_request_query resolver now question_type i c h =
    add_questions_of (not (is_qm question_type)) c now i (query_record_types resolver)
      (init_outgoing flags_qr_query true 0, h)

-- What a round of the coroutine finds: the time, the random delay, and what others changed since
pub record Wake : Type 0 where
  pub now : ℕ
  pub random_delay : ℕ
  pub info : ServiceInfo
  pub cache : DnsCache
  pub history : QuestionHistory

-- The local variables of `async_request`
pub record Request : Type 0 where
  pub first_request : Bool
  pub delay : ℕ
  pub next : ℕ
  pub last : ℕ

-- What a round does: the coroutine returns, or it waits, after it has asked or not.
pub data Round : Type 0 where
  returns : Bool → Round
  waits : ℕ → Request → Round
  asks : ℕ → QuestionType → Option DnsOutgoing → QuestionHistory → Request → Round

unfoldable pub smaller : ℕ → ℕ → ℕ
smaller a b = if ltb b a then b else a

-- `question_type or QU_QUESTION if first_request else QM_QUESTION`
unfoldable pub this_question_type : Option QuestionType → Bool → QuestionType
this_question_type none true = qu
this_question_type (some t) true = t
this_question_type o false = qm

-- `if out.questions: zc.async_send(out, ...)`
unfoldable pub if_asked : DnsOutgoing → Option DnsOutgoing
if_asked out = if length out.questions == 0 then none else some out

-- What is left of the request when it has asked; the delay changes behind its use.
unfoldable pub after_ask : QuestionType → Wake → Request → Request
unfolding is_qm
after_ask t w r = record r {
  first_request = false;
  delay =
      if is_qm t && ltb r.delay duplicate_question_interval
      then duplicate_question_interval
      else r.delay;
  next = w.now + r.delay + w.random_delay;
}

-- The branch of a round that asks
unfoldable pub ask : Resolver → Option QuestionType → Wake → Request → Round
unfolding this_question_type generate_request_query if_asked smaller after_ask
ask resolver question_type w r =
    let t = this_question_type question_type r.first_request in
    let (out, h) = generate_request_query resolver w.now t w.info w.cache w.history in
    let r' = after_ask t w r in asks (smaller r'.next r.last - w.now) t (if_asked out) h r'

-- One round of the loop of `async_request`
unfoldable pub request_round : Resolver → Option QuestionType → Wake → Request → Round
unfolding ask smaller is_complete
request_round resolver question_type w r =
    if is_complete resolver w.info
    then returns true
    else if leb r.last w.now
    then returns false
    else if leb r.next w.now
    then ask resolver question_type w r
    else waits (smaller r.next r.last - w.now) r

-- What a request did: when it asked and how, and what it returned, if it did
pub record Outcome : Type 0 where
  pub asked : List (ℕ × QuestionType)
  pub result : Option Bool

-- The loop, over the times at which it wakes
unfoldable pub run_rounds : Resolver → Option QuestionType → List Wake → Request → Outcome
unfolding request_round
run_rounds resolver question_type [] r = record { asked = []; result = none }
run_rounds resolver question_type (w ∷ ws) r = elim (request_round resolver question_type w r) [
  | returns b ↦ record { asked = []; result = some b }
  | waits d r' ↦ run_rounds resolver question_type ws r'
  | asks d t out h r' ↦
      let rest = run_rounds resolver question_type ws r' in
      record { asked = (w.now, t) ∷ rest.asked; result = rest.result }
]

-- `ServiceInfo.async_request`, from a time on, with a timeout
unfoldable pub async_request :
    Resolver → Option QuestionType → ℕ → ℕ → DnsCache → ServiceInfo → List Wake → Outcome
unfolding load_from_cache run_rounds
async_request resolver question_type now timeout c i wakes =
    if (load_from_cache resolver c now i).1
    then record { asked = []; result = some true }
    else run_rounds resolver question_type wakes
        (record { first_request = true; delay = listener_time; next = now; last = now + timeout })
