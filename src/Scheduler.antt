-- ===== src/Scheduler.antt =====
-- `QueryScheduler` of SOURCE/src/modules/python/zeroconf/src/zeroconf/_services/browser.py. A
-- scheduled query is shared by the heap and the table of aliases, and is cancelled in place: each has
-- a number, its identity, by which the heap finds it. The heap is the list in the order in which
-- queries are popped. Times are milliseconds; `none` is a KeyError.
pub mod Order
pub mod Live
pub mod Ready
pub mod Rescue
pub mod Due
pub mod Cancelled
pub mod Asked
use lscamoflash.Grouping.{QuestionType, generate_service_query}
use lscamoflash.Prelude.Dict.{Dict}
use lscamoflash.History.{QuestionHistory}
use lscamoflash.Dns.{Record, get_expiration_time}
use lscamoflash.Outgoing.{DnsOutgoing}
use lscamoflash.Prelude.{
  ℕ, Bool, List, Option, Text, [], any_of, false, if◌then◌else◌, leb, ltb, none, some, text_eq,
  true, ◌&&◌, ◌*◌, ◌+◌, ◌==◌, ◌^◌, ◌∷◌,
}
use lscamoflash.Prelude.Dict
use lscamoflash.Cache.{◌>>=◌, DnsCache}

-- `_ScheduledPTRQuery`, with its identity
pub record ScheduledQuery : Type 0 where
  pub id : ℕ
  pub alias : Text
  pub name : Text
  pub ttl : ℕ
  pub cancelled : Bool
  pub expire_time_millis : ℕ
  pub when_millis : ℕ

-- The timer: which method is called next, and when or after how long
pub data NextRun : Type 0 where
  startup_after : ℕ → NextRun
  ready_at : ℕ → NextRun

pub record QueryScheduler : Type 0 where
  pub types : List Text
  pub multicast : Bool
  pub question_type : Option QuestionType
  pub min_time_between_queries_millis : ℕ
  pub clock_resolution_millis : ℕ
  pub startup_queries_sent : ℕ
  pub next_scheduled_for_alias : Dict Text ScheduledQuery
  pub query_heap : List ScheduledQuery
  pub next_id : ℕ
  pub next_run : Option NextRun

-- `QueryScheduler.__init__`
abbrev pub init_scheduler : List Text → Bool → Option QuestionType → ℕ → ℕ → QueryScheduler
init_scheduler types multicast question_type delay resolution = record {
  types = types;
  multicast = multicast;
  question_type = question_type;
  min_time_between_queries_millis = delay;
  clock_resolution_millis = resolution;
  startup_queries_sent = 0;
  next_scheduled_for_alias = [];
  query_heap = [];
  next_id = 0;
  next_run = none;
}

-- `QueryScheduler.start`, with the random delay as an argument
unfoldable pub start : ℕ → QueryScheduler → QueryScheduler
start delay s = record s { next_run = some (startup_after delay) }

-- `QueryScheduler.stop`
unfoldable pub stop : QueryScheduler → QueryScheduler
stop s = record s { next_run = none; next_scheduled_for_alias = []; query_heap = [] }

-- `heappush`
unfoldable pub push_query : ScheduledQuery → List ScheduledQuery → List ScheduledQuery
push_query q [] = q ∷ []
push_query q (r ∷ h) = if ltb q.when_millis r.when_millis then q ∷ r ∷ h else r ∷ push_query q h

-- `query.cancelled = True`, of the object with an identity
unfoldable pub cancel : ℕ → List ScheduledQuery → List ScheduledQuery
cancel n [] = []
cancel n (q ∷ h) = (if q.id == n then record q { cancelled = true } else q) ∷ cancel n h

-- A new `_ScheduledPTRQuery`, put on the heap by `_schedule_ptr_query`
unfoldable pub schedule_ptr_query : Text → Text → ℕ → ℕ → ℕ → QueryScheduler → QueryScheduler
unfolding push_query
schedule_ptr_query alias name ttl expire_time when s =
    let q : ScheduledQuery = record {
      id = s.next_id;
      alias = alias;
      name = name;
      ttl = ttl;
      cancelled = false;
      expire_time_millis = expire_time;
      when_millis = when;
    } in
    record s {
      next_scheduled_for_alias = Dict.insert text_eq alias q s.next_scheduled_for_alias;
      query_heap = push_query q s.query_heap;
      next_id = s.next_id + 1;
    }

-- `QueryScheduler._schedule_ptr_refresh`, of a pointer with its alias
unfoldable pub schedule_ptr_refresh : Record → Text → ℕ → ℕ → QueryScheduler → QueryScheduler
unfolding schedule_ptr_query
schedule_ptr_refresh r alias expire_time refresh_time s =
    schedule_ptr_query alias r.name r.ttl expire_time refresh_time s

-- The scheduled query is cancelled and its alias is free.
unfoldable pub drop_scheduled : Text → ScheduledQuery → QueryScheduler → QueryScheduler
unfolding cancel
drop_scheduled alias q s = record s {
  next_scheduled_for_alias = Dict.delete text_eq alias s.next_scheduled_for_alias;
  query_heap = cancel q.id s.query_heap;
}

-- `QueryScheduler.cancel_ptr_refresh`
unfoldable pub cancel_ptr_refresh : Text → QueryScheduler → QueryScheduler
unfolding drop_scheduled
cancel_ptr_refresh alias s = elim (Dict.get text_eq alias s.next_scheduled_for_alias) [
  | none ↦ s
  | some q ↦ drop_scheduled alias q s
]

-- Whether two times are at most a span apart
unfoldable pub is_near : ℕ → ℕ → ℕ → Bool
is_near span a b = leb b (a + span) && leb a (b + span)

-- `QueryScheduler.reschedule_ptr_first_refresh`
unfoldable pub reschedule_ptr_first_refresh : Record → Text → QueryScheduler → QueryScheduler
unfolding schedule_ptr_refresh get_expiration_time is_near drop_scheduled
reschedule_ptr_first_refresh r alias s =
    let refresh = get_expiration_time r 75 in
    let expire = get_expiration_time r 100 in
    elim (Dict.get text_eq alias s.next_scheduled_for_alias) [
      | none ↦ schedule_ptr_refresh r alias expire refresh s
      | some q ↦
          if is_near s.min_time_between_queries_millis refresh q.when_millis
          then s
          else schedule_ptr_refresh r alias expire refresh (drop_scheduled alias q s)
    ]

-- `QueryScheduler.schedule_rescue_query`, for a tenth of the ttl
unfoldable pub schedule_rescue_query : ScheduledQuery → ℕ → QueryScheduler → QueryScheduler
unfolding schedule_ptr_query
schedule_rescue_query q now s =
    let next_query_time = now + q.ttl * 100 in
    if leb q.expire_time_millis next_query_time
    then s
    else schedule_ptr_query q.alias q.name q.ttl q.expire_time_millis next_query_time s

unfoldable pub schedule_rescues : List ScheduledQuery → ℕ → QueryScheduler → QueryScheduler
unfolding schedule_rescue_query
schedule_rescues [] now s = s
schedule_rescues (q ∷ qs) now s = schedule_rescues qs now (schedule_rescue_query q now s)

-- What the loop of `_process_ready_types` leaves: the table, the heap, the types that are due, the
-- queries to repeat and the one to wait for.
pub record Popped : Type 0 where
  pub table : Dict Text ScheduledQuery
  pub heap : List ScheduledQuery
  pub ready_types : List Text
  pub schedule_rescue : List ScheduledQuery
  pub next_scheduled : Option ScheduledQuery

-- `ready_types.add(name)`
unfoldable pub add_type : Text → List Text → List Text
add_type t ts = if any_of (text_eq t) ts then ts else t ∷ ts

unfoldable pub note_ready : ScheduledQuery → Popped → Popped
unfolding add_type
note_ready q p = record p {
  ready_types = add_type q.name p.ready_types;
  schedule_rescue = q ∷ p.schedule_rescue;
}

-- The loop of `_process_ready_types`; `del` of an alias that is not in the table is a KeyError.
unfoldable pub pop_ready_queries :
    ℕ → Dict Text ScheduledQuery → List ScheduledQuery → Option Popped
unfolding note_ready Dict.has
pop_ready_queries end_ table [] = some (record {
  table = table;
  heap = [];
  ready_types = [];
  schedule_rescue = [];
  next_scheduled = none;
})
pop_ready_queries end_ table (q ∷ h) =
    let skipped = pop_ready_queries end_ table h in
    let popped = pop_ready_queries end_ (Dict.delete text_eq q.alias table) h in
    if q.cancelled
    then skipped
    else if ltb end_ q.when_millis
    then some (record {
      table = table;
      heap = q ∷ h;
      ready_types = [];
      schedule_rescue = [];
      next_scheduled = some q;
    })
    else if Dict.has text_eq q.alias table
    then (popped >>= λ p. some (note_ready q p))
    else none

-- When the timer is set again
unfoldable pub next_time : Option ScheduledQuery → ℕ → ℕ
next_time none earliest = earliest
next_time (some q) earliest = if ltb earliest q.when_millis then q.when_millis else earliest

-- What `_process_ready_types` does to the scheduler of an instance that is not closed, but for the
-- sending, and the types that it sends queries for
unfoldable pub run_ready_types : ℕ → QueryScheduler → Option (QueryScheduler × List Text)
unfolding pop_ready_queries schedule_rescues next_time
run_ready_types now s =
    pop_ready_queries (now + s.clock_resolution_millis) s.next_scheduled_for_alias s.query_heap
    >>= λ p.
        let s' = record s { next_scheduled_for_alias = p.table; query_heap = p.heap } in
        some (
          record (schedule_rescues p.schedule_rescue now s') {
            next_run =
                some
                  (ready_at (next_time p.next_scheduled (now + s.min_time_between_queries_millis)));
          },
          p.ready_types,
        )

-- What `_process_startup_queries` does to the scheduler
unfoldable pub run_startup_queries : ℕ → QueryScheduler → QueryScheduler
run_startup_queries now s =
    let sent = s.startup_queries_sent + 1 in
    record s {
      startup_queries_sent = sent;
      next_run = some (
          if leb 4 sent
          then ready_at (now + s.min_time_between_queries_millis)
          else startup_after (sent * sent * 1000));
    }

-- `QueryScheduler.async_send_ready_queries`: the messages, and the history
unfoldable pub async_send_ready_queries :
    Bool
    → ℕ
    → List Text
    → QueryScheduler
    → DnsCache
    → QuestionHistory
    → List DnsOutgoing × QuestionHistory
unfolding generate_service_query
async_send_ready_queries first_request now ready_types s c h =
    generate_service_query now ready_types s.multicast
      (elim s.question_type [
        | none ↦ if first_request then some QuestionType.qu else none
        | some t ↦ some t
      ])
      c h

-- The types that are due are asked for, if there are any.
unfoldable pub send_ready_types :
    List Text → ℕ → QueryScheduler → DnsCache → QuestionHistory → List DnsOutgoing × QuestionHistory
unfolding async_send_ready_queries
send_ready_types [] now s c h = ([], h)
send_ready_types (t ∷ ts) now s c h = async_send_ready_queries false now (t ∷ ts) s c h

-- `QueryScheduler._process_ready_types`: the scheduler, the messages and the history. `done` is set
-- once the instance is closed.
unfoldable pub process_ready_types :
    Bool
    → ℕ
    → DnsCache
    → QuestionHistory
    → QueryScheduler
    → Option (QueryScheduler × List DnsOutgoing × QuestionHistory)
unfolding run_ready_types send_ready_types
process_ready_types true now c h s = some (s, [], h)
process_ready_types false now c h s = run_ready_types now s >>= λ run.
    let sent = send_ready_types run.1 now run.0 c h in some (run.0, sent.0, sent.1)

-- `QueryScheduler._process_startup_queries`
unfoldable pub process_startup_queries :
    Bool
    → ℕ
    → DnsCache
    → QuestionHistory
    → QueryScheduler
    → QueryScheduler × List DnsOutgoing × QuestionHistory
unfolding run_startup_queries async_send_ready_queries
process_startup_queries true now c h s = (s, [], h)
process_startup_queries false now c h s =
    let (outs, h') = async_send_ready_queries (s.startup_queries_sent == 0) now s.types s c h in
    (run_startup_queries now s, outs, h')
