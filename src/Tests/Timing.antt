-- ===== src/Tests/Timing.antt =====
-- Runs of the timed parts: expiry, the question history, the outgoing queue and the listener.
use lscamoflash.Listener.Arrivals.{
  QueryEvent, firsts, run_queries, run_queries-batches, arrives, batches, fires,
}
use lscamoflash.Prelude.Dict.{Dict}
use lscamoflash.Incoming.Names.{read_name}
use lscamoflash.Dns.Equality.{hash_input, record_eq_iff}
use lscamoflash.History.{QuestionHistory, add_question_at_time, suppresses}
use lscamoflash.Queue.{async_ready, pop_ready}
use lscamoflash.Incoming.Records.{blank_incoming, initial_parse, read_others, init_incoming}
use lscamoflash.Queue.Timing.{IsAscending, async_add-IsAscending, async_ready-timer}
use lscamoflash.History.Suppression.{IsSubset, get-async_expire, is_old, suppresses-add_question}
use lscamoflash.Dns.Expiry.{expiry_shares}
use lscamoflash.Dns.{
  get_expiration_time, is_expired, is_recent, is_stale, question_eq, record_eq, remaining_ttl_ms,
}
use lscamoflash.Listener.{Listener, datagram_received, deferred_of, init_listener}
use lscamoflash.Tests.Samples.{
  answer_set, http_question, looping_query, printer_ptr, truncated_query, two_groups, shorter,
}
use lscamoflash.Listener.Deferral.{IsArmed, datagram_received-IsArmed}
use lscamoflash.Incoming.Parses.{parse_ends}
use lscamoflash.Prelude.{
  Text, [], arith, codes, false, if◌then◌else◌, none, refl, some, true, ◌+◌, ◌↔◌, ◌∷◌, ◌≡◌, ◌≢◌,
  ◌≤◌, List, ◌*◌, ◌<◌,
}
use lscamoflash.History
use lscamoflash.Incoming.{err, no_fuel}
use lscamoflash.Queue
use lscamoflash.Prelude.Dict

expiry_shares_example :
    ((is_expired printer_ptr 130000 ≡ true) ↔ (remaining_ttl_ms printer_ptr 130000 ≡ 0))
    × ((is_stale printer_ptr 130000 ≡ true)
        ↔ (2 * remaining_ttl_ms printer_ptr 130000 ≤ 1000 * printer_ptr.ttl))
    × ((is_recent printer_ptr 130000 ≡ true)
        ↔ (3 * (1000 * printer_ptr.ttl) < 4 * remaining_ttl_ms printer_ptr 130000))
    × ((is_expired printer_ptr 130000 ≡ true) ↔ (get_expiration_time printer_ptr 100 ≤ 130000))
    × ((is_stale printer_ptr 130000 ≡ true) ↔ (get_expiration_time printer_ptr 50 ≤ 130000))
    × ((is_recent printer_ptr 130000 ≡ true) ↔ (130000 < get_expiration_time printer_ptr 25))
expiry_shares_example = expiry_shares printer_ptr 130000

record_eq_iff_example :
    (record_eq printer_ptr shorter ≡ true) ↔ (hash_input printer_ptr ≡ hash_input shorter)
record_eq_iff_example = record_eq_iff printer_ptr shorter

suppresses-add_question_example :
    (question_eq http_question http_question ≡ true
      → (suppresses http_question 1500 []
            (add_question_at_time http_question 1000 (printer_ptr ∷ []) [])
          ≡ true)
        ↔ ((1500 ≤ 1000 + 999) × IsSubset (printer_ptr ∷ []) []))
    × (question_eq http_question http_question ≡ false
        → suppresses http_question 1500 []
            (add_question_at_time http_question 1000 (printer_ptr ∷ []) [])
          ≡ suppresses http_question 1500 [] [])
suppresses-add_question_example =
    suppresses-add_question http_question http_question 1000 1500 (printer_ptr ∷ []) [] []

abbrev one_asked : QuestionHistory
one_asked = (http_question, (1000, printer_ptr ∷ [])) ∷ []

get-async_expire_example :
    Dict.get question_eq http_question (History.async_expire 2000 one_asked)
    ≡ (elim (Dict.get question_eq http_question one_asked) [
      | none ↦ none
      | some v ↦ if is_old 2000 v then none else some v
    ])
unfolding Dict.get
get-async_expire_example = get-async_expire 2000 http_question one_asked (refl, tt)

two_groups-IsAscending : IsAscending two_groups.queue
two_groups-IsAscending = ((omega arith, tt), (tt, tt))

async_add-IsAscending_example : IsAscending (Queue.async_add 1900 90 answer_set two_groups).0.queue
async_add-IsAscending_example =
    async_add-IsAscending 1900 90 answer_set two_groups two_groups-IsAscending

async_ready-timer_example :
    ((async_ready 1500 two_groups).call_later ≡ none)
    ↔ ((async_ready 1500 two_groups).queue_after ≡ [])
async_ready-timer_example = async_ready-timer 1500 two_groups

init_listener-IsArmed : IsArmed init_listener
unfolding deferred_of Dict.has Dict.get
init_listener-IsArmed addr = refl

abbrev peer : Text
peer = codes "10.0.0.1"

datagram_received-IsArmed_example :
    IsArmed (datagram_received 5000 450 true truncated_query none peer init_listener).0
datagram_received-IsArmed_example =
    datagram_received-IsArmed 5000 450 true truncated_query none peer init_listener
      init_listener-IsArmed

abbrev deferring : Listener
deferring = (datagram_received 5000 450 true truncated_query none peer init_listener).0

-- A truncated query comes twice, and its timer fires.
abbrev two_arrivals : List QueryEvent
two_arrivals =
    arrives 1000 450 (init_incoming truncated_query none 1000) peer
    ∷ arrives 1100 450 (init_incoming truncated_query none 1100) peer
    ∷ fires peer
    ∷ []

nothing_deferred : deferred_of peer init_listener ≡ firsts []
unfolding deferred_of firsts Dict.get
nothing_deferred = refl

run_queries-batches_example :
    run_queries peer two_arrivals init_listener ≡ batches peer [] two_arrivals
run_queries-batches_example =
    run_queries-batches peer two_arrivals [] init_listener nothing_deferred

parse_ends_example :
    ((read_name (blank_incoming looping_query none 1000)).0 ≢ err no_fuel)
    × ((initial_parse (blank_incoming looping_query none 1000)).0 ≢ err no_fuel)
    × ((read_others (blank_incoming looping_query none 1000)).0 ≢ err no_fuel)
parse_ends_example = parse_ends (blank_incoming looping_query none 1000)
