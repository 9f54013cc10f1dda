-- ===== src/Query.antt =====
-- `QueryHandler` of SOURCE/src/modules/python/zeroconf/src/zeroconf/_handlers/query_handler.py: which
-- records answer a query, and how each is sent.
pub mod Handler
pub mod Answered
pub mod Covered
pub mod Replies
pub mod Response
pub mod Strategies
use lscamoflash.Const.{one_second}
use lscamoflash.Prelude.{true}
use lscamoflash.Const.{service_type_enumeration_name, class_in, dns_other_ttl}
use lscamoflash.Prelude.Dict.{keys}
use lscamoflash.Answers.{AnswerSet, update, QuestionAnswers}
use lscamoflash.Dns.{
  Question, fast_init_record, Record, pointer_of, record_eq, rrset_suppresses, is_recent,
}
use lscamoflash.Cache.{DnsCache, async_get_unique, ◌>>=◌}
use lscamoflash.Services.{
  dns_pointer, set_add, dns_service, set_of, ServiceInfo, dns_text, get_address_and_nsec_records,
}
use lscamoflash.Const.Types
use lscamoflash.Prelude.Dict
use lscamoflash.Prelude.{
  ℕ, Bool, List, Option, Text, [], ◌∷◌, if◌then◌else◌, some, ◌==◌, ◌||◌, false, none, ltb, ◌+◌,
}

-- The strategy types `_ANSWER_STRATEGY_…`, with the types or services that a strategy is made with
pub data Strategy : Type 0 where
  service_type_enumeration : List Text → Strategy
  pointer_strategy : List ServiceInfo → Strategy
  address_strategy : List ServiceInfo → Strategy
  service_strategy : ServiceInfo → Strategy
  text_strategy : ServiceInfo → Strategy

pub record AnswerStrategy : Type 0 where
  pub question : Question
  pub strategy : Strategy

-- `_QueryResponse`; its cache and its time are arguments of the methods.
pub record QueryResponse : Type 0 where
  pub is_probe : Bool
  pub questions : List Question
  pub additionals : AnswerSet
  pub ucast : List Record
  pub mcast_now : List Record
  pub mcast_aggregate : List Record
  pub mcast_aggregate_last_second : List Record

abbrev pub init_response : List Question → Bool → QueryResponse
init_response questions is_probe = record {
  is_probe = is_probe;
  questions = questions;
  additionals = [];
  ucast = [];
  mcast_now = [];
  mcast_aggregate = [];
  mcast_aggregate_last_second = [];
}

-- `_has_mcast_within_one_quarter_ttl`
unfoldable pub has_mcast_within_one_quarter_ttl : DnsCache → ℕ → Record → Bool
has_mcast_within_one_quarter_ttl c now r = elim (async_get_unique r c) [
  | none ↦ false
  | some entry ↦ is_recent entry now
]

-- `_has_mcast_record_in_last_second`
unfoldable pub has_mcast_record_in_last_second : DnsCache → ℕ → Record → Bool
has_mcast_record_in_last_second c now r = elim (async_get_unique r c) [
  | none ↦ false
  | some entry ↦ ltb now (entry.created + one_second)
]

-- One round of `add_qu_question_response`
unfoldable pub add_qu_answer : DnsCache → ℕ → Record × List Record → QueryResponse → QueryResponse
unfolding has_mcast_within_one_quarter_ttl set_add
add_qu_answer c now (r, additionals) p =
    let recent = has_mcast_within_one_quarter_ttl c now r in
    record p {
      additionals = Dict.insert record_eq r additionals p.additionals;
      ucast = if p.is_probe || recent then set_add r p.ucast else p.ucast;
      mcast_now = if recent then p.mcast_now else set_add r p.mcast_now;
    }

unfoldable pub add_qu_question_response : DnsCache → ℕ → AnswerSet → QueryResponse → QueryResponse
unfolding add_qu_answer
add_qu_question_response c now [] p = p
add_qu_question_response c now (a ∷ as') p =
    add_qu_question_response c now as' (add_qu_answer c now a p)

-- `add_ucast_question_response`
unfoldable pub add_ucast_question_response : AnswerSet → QueryResponse → QueryResponse
unfolding update set_of
add_ucast_question_response answers p = record p {
  additionals = update p.additionals answers;
  ucast = set_of (keys answers) p.ucast;
}

-- `_RESPOND_IMMEDIATE_TYPES`
unfoldable pub responds_immediately : List Question → Bool
responds_immediately (q ∷ []) =
    (q.type == Types.nsec)
    || ((q.type == Types.srv) || ((q.type == Types.a) || (q.type == Types.aaaa)))
responds_immediately _ = false

-- One round of `add_mcast_question_response`
unfoldable pub add_mcast_answer : DnsCache → ℕ → Record → QueryResponse → QueryResponse
unfolding has_mcast_record_in_last_second responds_immediately set_add
add_mcast_answer c now r p =
    if p.is_probe
    then record p { mcast_now = set_add r p.mcast_now }
    else if has_mcast_record_in_last_second c now r
    then record p { mcast_aggregate_last_second = set_add r p.mcast_aggregate_last_second }
    else if responds_immediately p.questions
    then record p { mcast_now = set_add r p.mcast_now }
    else record p { mcast_aggregate = set_add r p.mcast_aggregate }

unfoldable pub add_mcast_answers : DnsCache → ℕ → List Record → QueryResponse → QueryResponse
unfolding add_mcast_answer
add_mcast_answers c now [] p = p
add_mcast_answers c now (r ∷ rs) p = add_mcast_answers c now rs (add_mcast_answer c now r p)

-- `add_mcast_question_response`
unfoldable pub add_mcast_question_response :
    DnsCache → ℕ → AnswerSet → QueryResponse → QueryResponse
unfolding add_mcast_answers update
add_mcast_question_response c now answers p =
    add_mcast_answers c now (keys answers) (record p { additionals = update p.additionals answers })

-- `{r: self._additionals[r] for r in records}`; `none` is a KeyError.
unfoldable pub with_additionals : AnswerSet → List Record → Option AnswerSet
with_additionals m [] = some []
with_additionals m (r ∷ rs) =
    let rest = with_additionals m rs in
    elim (Dict.get record_eq r m) [ none ↦ none | some a ↦ rest >>= λ s. some ((r, a) ∷ s) ]

-- `_QueryResponse.answers`
unfoldable pub response_answers : QueryResponse → Option QuestionAnswers
unfolding with_additionals
response_answers p = do
  ucast ← with_additionals p.additionals p.ucast
  mcast_now ← with_additionals p.additionals p.mcast_now
  mcast_aggregate ← with_additionals p.additionals p.mcast_aggregate
  last_second ← with_additionals p.additionals p.mcast_aggregate_last_second
  some (record {
    ucast = ucast;
    mcast_now = mcast_now;
    mcast_aggregate = mcast_aggregate;
    mcast_aggregate_last_second = last_second;
  })

-- `_add_service_type_enumeration_query_answers`
unfoldable pub add_enumeration_answers : ℕ → List Record → List Text → AnswerSet → AnswerSet
unfolding fast_init_record pointer_of rrset_suppresses
add_enumeration_answers now known [] s = s
add_enumeration_answers now known (t ∷ ts) s =
    let r =
      fast_init_record service_type_enumeration_name Types.ptr class_in dns_other_ttl now
        (pointer_of t) in
    add_enumeration_answers now known ts
      (if rrset_suppresses known r then s else Dict.insert record_eq r [] s)

-- `_add_pointer_answers`; `none` is a failed assertion.
unfoldable pub add_pointer_answers :
    ℕ → List Record → List ServiceInfo → AnswerSet → Option AnswerSet
unfolding dns_pointer dns_service dns_text get_address_and_nsec_records rrset_suppresses set_of
add_pointer_answers now known [] s = some s
add_pointer_answers now known (i ∷ is) s =
    let rest = add_pointer_answers now known is in
    let r = dns_pointer none now i in
    elim (rrset_suppresses known r) [
      | true ↦ rest s
      | false ↦ do
        extra ← get_address_and_nsec_records none now i
        rest (
            Dict.insert record_eq r
              (set_of extra (set_of (dns_service none now i ∷ dns_text none now i ∷ []) [])) s)
    ]
