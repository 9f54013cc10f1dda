-- ===== src/Scheduler/Rescue.antt =====
-- `QueryScheduler._process_ready_types`: the queries that it repeats, and its timer.
use lscamoflash.Outgoing.{DnsOutgoing}
use lscamoflash.History.{QuestionHistory}
use lscamoflash.Cache.{DnsCache}
use lscamoflash.Scheduler.Live.{IsLive, schedule_ptr_query-IsLive}
use lscamoflash.Prelude.Dict.{Dict}
use lscamoflash.Scheduler.Ready.{AreDistinct, AreFree, AreOther, pop_ready_queries-IsPopped}
use lscamoflash.Prelude.{
  ℕ, Bool-cases, List, Option, Text, [], arith, false, inl, inr, leb, none, refl, some, text_eq,
  ◌*◌, ◌+◌, ◌∷◌, ◌≡◌, ◌≤◌, Bool, if◌then◌else◌, true,
}
use lscamoflash.Prelude.Dict
use lscamoflash.Scheduler.{
  QueryScheduler, ScheduledQuery, ready_at, next_time, run_ready_types, schedule_ptr_query,
  schedule_rescue_query, schedule_rescues, process_ready_types, send_ready_types,
}

-- The repeated query keeps another alias free.
schedule_rescue_query_free :
    (q : ScheduledQuery) (x : Text) (now : ℕ) (s : QueryScheduler)
    → text_eq q.alias x ≡ false
    → Dict.get text_eq x s.next_scheduled_for_alias ≡ none
    → Dict.get text_eq x (schedule_rescue_query q now s).next_scheduled_for_alias ≡ none
unfolding schedule_rescue_query schedule_ptr_query
schedule_rescue_query_free q x now s d e =
    elim (Bool-cases (leb q.expire_time_millis (now + q.ttl * 100))) [
      | inl l ↦ rw (schedule_rescue_query, l) e
      | inr l ↦
          rw (schedule_rescue_query, l, schedule_ptr_query, Dict.get-insert_text q.alias x, d) e
    ]

schedule_rescue_query-AreFree :
    (q : ScheduledQuery) (now : ℕ) (s : QueryScheduler) (qs : List ScheduledQuery)
    → AreOther q.alias qs
    → AreFree s.next_scheduled_for_alias qs
    → AreFree (schedule_rescue_query q now s).next_scheduled_for_alias qs
unfolding AreOther
schedule_rescue_query-AreFree q now s [] o f = tt
schedule_rescue_query-AreFree q now s (x ∷ qs) (d, o) (e, f) =
    (schedule_rescue_query_free q x.alias now s d e, schedule_rescue_query-AreFree q now s qs o f)

-- A query is repeated unless it would be too late.
schedule_rescue_query-IsLive :
    (q : ScheduledQuery) (now : ℕ) (s : QueryScheduler)
    → Dict.get text_eq q.alias s.next_scheduled_for_alias ≡ none
    → IsLive s
    → IsLive (schedule_rescue_query q now s)
unfolding schedule_rescue_query
schedule_rescue_query-IsLive q now s e v =
    let next = now + q.ttl * 100 in
    elim (Bool-cases (leb q.expire_time_millis next)) [
      | inl l ↦ rw (schedule_rescue_query, l) v
      | inr l ↦
          rw (schedule_rescue_query, l)
            (schedule_ptr_query-IsLive q.alias q.name q.ttl q.expire_time_millis next s e v)
    ]

schedule_rescues-IsLive :
    (qs : List ScheduledQuery) (now : ℕ) (s : QueryScheduler)
    → AreDistinct qs
    → AreFree s.next_scheduled_for_alias qs
    → IsLive s
    → IsLive (schedule_rescues qs now s)
unfolding schedule_rescues
schedule_rescues-IsLive [] now s d f v = v
schedule_rescues-IsLive (q ∷ qs) now s (o, d) (e, f) v =
    schedule_rescues-IsLive qs now (schedule_rescue_query q now s) d
      (schedule_rescue_query-AreFree q now s qs o f) (schedule_rescue_query-IsLive q now s e v)

next_time_le : (next : Option ScheduledQuery) (earliest : ℕ) → earliest ≤ next_time next earliest
unfolding next_time
next_time_le none earliest = omega arith
next_time_le (some q) earliest = ground arith

pub run_ready_types-IsLive :
    (now : ℕ) (s : QueryScheduler)
    → IsLive s
    → (s' : QueryScheduler) × (ready_types : List Text) × (when : ℕ) × (run_ready_types now s
        ≡ some (s', ready_types))
      × (s'.next_run ≡ some (ready_at when))
      × (now + s.min_time_between_queries_millis ≤ when)
      × IsLive s'
unfolding run_ready_types
run_ready_types-IsLive now s v =
    let (p, f, k) =
      pop_ready_queries-IsPopped (now + s.clock_resolution_millis) s.next_id
        s.next_scheduled_for_alias s.query_heap v.registered v.unique v.made v.sorted in
    let s' : QueryScheduler = record s {
      next_scheduled_for_alias = p.table;
      query_heap = p.heap;
    } in
    let repeated = schedule_rescues p.schedule_rescue now s' in
    let live =
      schedule_rescues-IsLive p.schedule_rescue now s' k.distinct k.free (record {
        registered = k.registered;
        unique = k.unique;
        made = k.made;
        sorted = k.sorted;
      }) in
    let when = next_time p.next_scheduled (now + s.min_time_between_queries_millis) in
    (
      record repeated { next_run = some (ready_at when) },
      p.ready_types,
      when,
      rw f refl,
      refl,
      next_time_le p.next_scheduled (now + s.min_time_between_queries_millis),
      record {
        registered = live.registered;
        unique = live.unique;
        made = live.made;
        sorted = live.sorted;
      },
    )

-- From a scheduler whose table and heap are in step, `_process_ready_types` raises no KeyError and
-- leaves a scheduler in step, whatever the cache and the history. It leaves the timer alone if the
-- instance is closed; otherwise it sets the timer, and no sooner than the least time between queries.
pub process_ready_types-IsLive :
    (closed : Bool) (now : ℕ) (c : DnsCache) (h : QuestionHistory) (s : QueryScheduler)
    → IsLive s
    → (s' : QueryScheduler) × (outs : List DnsOutgoing) × (h' : QuestionHistory) × (when : ℕ)
      × (process_ready_types closed now c h s ≡ some (s', outs, h'))
      × (s'.next_run ≡ (if closed then s.next_run else some (ready_at when)))
      × (now + s.min_time_between_queries_millis ≤ when)
      × IsLive s'
unfolding process_ready_types
process_ready_types-IsLive true now c h s v =
    (s, [], h, now + s.min_time_between_queries_millis, refl, refl, omega arith, v)
process_ready_types-IsLive false now c h s v =
    let (s', ready_types, when, run, timer, le, live) = run_ready_types-IsLive now s v in
    let sent = send_ready_types ready_types now s' c h in
    (s', sent.0, sent.1, when, rw run refl, timer, le, live)
