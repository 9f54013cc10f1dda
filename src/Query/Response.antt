-- ===== src/Query/Response.antt =====
-- The reply of `QueryHandler` to a query: `async_response` and `handle_assembled_query`.
use lscamoflash.Prelude.Dict.{keys}
use lscamoflash.Query.Handler.{answer_question}
use lscamoflash.Incoming.{DnsIncoming, is_probe}
use lscamoflash.Const.{mdns_port}
use lscamoflash.Registry.{Registered, ServiceRegistry}
use lscamoflash.Incoming.Records.{read_answers}
use lscamoflash.Dns.{Question, Record, rrset_lookup_from}
use lscamoflash.Outgoing.{DnsOutgoing}
use lscamoflash.History.{QuestionHistory, add_question_at_time}
use lscamoflash.Query.Strategies.{get_answer_strategies}
use lscamoflash.Answers.{
  AnswerSet, QuestionAnswers, construct_outgoing_multicast_answers,
  construct_outgoing_unicast_answers,
}
use lscamoflash.Query.{
  AnswerStrategy, QueryResponse, add_mcast_question_response, add_qu_question_response,
  add_ucast_question_response, init_response, response_answers,
}
use lscamoflash.Cache.{◌>>=◌, DnsCache}
use lscamoflash.Prelude.{
  ℕ, Bool, List, Option, [], any_of, if◌then◌else◌, none, not, some, ◌&&◌, ◌++◌, ◌==◌, ◌∷◌,
}

-- Any exception of the registry
unfoldable pub to_option : {A : Type 0} → Registered A → Option A
to_option (Registered.ok a) = some a
to_option (Registered.err e) = none

unfoldable pub question_strategies : ServiceRegistry → List Question → Option (List AnswerStrategy)
unfolding to_option get_answer_strategies
question_strategies s [] = some []
question_strategies s (q ∷ qs) = do
  here ← to_option (get_answer_strategies s q)
  rest ← question_strategies s qs
  some (here ++ rest)

unfoldable pub message_strategies :
    ServiceRegistry → List DnsIncoming → Option (List AnswerStrategy)
unfolding question_strategies
message_strategies s [] = some []
message_strategies s (m ∷ ms) = do
  here ← question_strategies s m.questions
  rest ← message_strategies s ms
  some (here ++ rest)

-- The known answers of the messages that are no probes
unfoldable pub known_of : List DnsIncoming → List Record
unfolding is_probe read_answers
known_of [] = []
known_of (m ∷ ms) = (if is_probe m then [] else (read_answers m).0) ++ known_of ms

-- The time of the last message
unfoldable pub last_now : DnsIncoming → List DnsIncoming → ℕ
last_now m [] = m.now
last_now m (m' ∷ ms) = last_now m' ms

-- One round of the loop over the strategies
unfoldable pub respond_to :
    DnsCache
    → ℕ
    → List Record
    → Bool
    → AnswerStrategy
    → QuestionHistory × QueryResponse
    → Option (QuestionHistory × QueryResponse)
unfolding add_question_at_time rrset_lookup_from answer_question add_qu_question_response
    add_ucast_question_response add_mcast_question_response
respond_to c now known ucast_source a (h, p) = do
  let is_unicast = a.question.unique
  let h' =
      if is_unicast
      then h
      else add_question_at_time a.question now (keys (rrset_lookup_from [] known)) h
  answers ← answer_question now known a
  some (
      if not ucast_source && is_unicast then (h', add_qu_question_response c now answers p) else (
        h',
        add_mcast_question_response c now answers
            (if ucast_source then add_ucast_question_response answers p else p),
      ))

unfoldable pub respond_all :
    DnsCache
    → ℕ
    → List Record
    → Bool
    → List AnswerStrategy
    → QuestionHistory × QueryResponse
    → Option (QuestionHistory × QueryResponse)
unfolding respond_to
respond_all c now known ucast_source [] s = some s
respond_all c now known ucast_source (a ∷ as') s =
    respond_to c now known ucast_source a s >>= respond_all c now known ucast_source as'

-- What `async_response` returns, and the history that it leaves
abbrev pub Response : Type 0
Response = Option QuestionAnswers × QuestionHistory

unfoldable pub respond_with :
    DnsCache
    → List AnswerStrategy
    → QuestionHistory
    → Bool
    → DnsIncoming
    → List DnsIncoming
    → Option Response
unfolding respond_all known_of last_now response_answers is_probe
respond_with c [] h ucast_source m ms = some (none, h)
respond_with c (a ∷ as') h ucast_source m ms = do
  let probing = any_of is_probe (m ∷ ms)
  (h', p) ←
      respond_all c (last_now m ms) (known_of (m ∷ ms)) ucast_source (a ∷ as')
        (h, init_response m.questions probing)
  answers ← response_answers p
  some (some answers, h')

-- `QueryHandler.async_response`, of the messages `m ∷ ms`
unfoldable pub async_response :
    ServiceRegistry
    → DnsCache
    → QuestionHistory
    → Bool
    → DnsIncoming
    → List DnsIncoming
    → Option Response
unfolding message_strategies respond_with
async_response s c h ucast_source m ms = do
  strategies ← message_strategies s (m ∷ ms)
  respond_with c strategies h ucast_source m ms

-- What `handle_assembled_query` sends and queues
pub data Reply : Type 0 where
  send_unicast : DnsOutgoing → Reply
  send_multicast : DnsOutgoing → Reply
  queue_aggregate : ℕ → AnswerSet → Reply
  queue_delayed : ℕ → AnswerSet → Reply

unfoldable pub unless_empty : AnswerSet → (AnswerSet → Reply) → List Reply
unless_empty [] make = []
unless_empty (a ∷ as') make = make (a ∷ as') ∷ []

unfoldable pub replies_of : Bool → DnsIncoming → Option QuestionAnswers → List Reply
unfolding unless_empty construct_outgoing_unicast_answers construct_outgoing_multicast_answers
replies_of ucast_source first none = []
replies_of ucast_source first (some a) =
    unless_empty a.ucast (λ s.
      send_unicast (construct_outgoing_unicast_answers s ucast_source first.questions first.id))
    ++ (unless_empty a.mcast_now (λ s. send_multicast (construct_outgoing_multicast_answers s))
        ++ (unless_empty a.mcast_aggregate (queue_aggregate first.now)
            ++ unless_empty a.mcast_aggregate_last_second (queue_delayed first.now)))

-- `QueryHandler.handle_assembled_query`
unfoldable pub handle_assembled_query :
    ServiceRegistry
    → DnsCache
    → QuestionHistory
    → ℕ
    → DnsIncoming
    → List DnsIncoming
    → Option (List Reply × QuestionHistory)
unfolding async_response replies_of
handle_assembled_query s c h port m ms = do
  let ucast_source = not (port == mdns_port)
  (answers, h') ← async_response s c h ucast_source m ms
  some (replies_of ucast_source m answers, h')
