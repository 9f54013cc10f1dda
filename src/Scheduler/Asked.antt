-- ===== src/Scheduler/Asked.antt =====
-- From the queries of `QueryScheduler` that are due to the questions of the messages.
use lscamoflash.Grouping.Questions.{generate_asked, is_held_back, times_asked}
use lscamoflash.Scheduler.Live.{IsLive}
use lscamoflash.Scheduler.{
  QueryScheduler, ScheduledQuery, async_send_ready_queries, send_ready_types, process_ready_types,
}
use lscamoflash.Scheduler.Due.{AreServed, is_due, is_served, run_ready_types-AreServed}
use lscamoflash.Outgoing.{DnsOutgoing}
use lscamoflash.History.{QuestionHistory}
use lscamoflash.Cache.{DnsCache}
use lscamoflash.Grouping.{QuestionType, generate_service_query, is_qu}
use lscamoflash.Prelude.{
  ℕ, Bool, List, Text, [], arith, false, not, text_eq, true, ◌||◌, ◌∷◌, ◌≡◌, any_of, refl, All,
  Option, leb, none, some, ◌+◌,
}

-- If a query is due, the messages ask for its type, or the question history holds the question back.
unfoldable pub is_asked :
    QueryScheduler → ℕ → DnsCache → QuestionHistory → List DnsOutgoing → ScheduledQuery → Bool
unfolding is_due is_held_back
is_asked s now c h outs q =
    let unicast = is_qu s.multicast s.question_type in
    not (is_due (now + s.clock_resolution_millis) q)
    || (leb 1 (times_asked unicast q.name outs) || is_held_back now unicast c h q.name)

send-asked :
    (ts : List Text) (now : ℕ) (s : QueryScheduler) (c : DnsCache) (h : QuestionHistory) (t : Text)
    → any_of (text_eq t) ts ≡ true
    → (leb 1 (times_asked (is_qu s.multicast s.question_type) t (send_ready_types ts now s c h).0)
        || is_held_back now (is_qu s.multicast s.question_type) c h t)
      ≡ true
unfolding send_ready_types async_send_ready_queries
send-asked [] now s c h t e = absurd (ground (arith, e))
send-asked (u ∷ ts) now s c h t e = go s.question_type
  where
    go :
        (o : Option QuestionType)
        → (leb 1 (
              times_asked
                (is_qu s.multicast o)
                t
                (generate_service_query now
                  (u ∷ ts)
                  s.multicast
                  (elim o [ none ↦ none | some k ↦ some k ])
                  c
                  h).0)
            || is_held_back now (is_qu s.multicast o) c h t)
          ≡ true
    go none = generate_asked now (u ∷ ts) t s.multicast none c h e
    go (some k) = generate_asked now (u ∷ ts) t s.multicast (some k) c h e

served-asked :
    (ts : List Text) (now : ℕ) (s : QueryScheduler) (c : DnsCache) (h : QuestionHistory)
    (qs : List ScheduledQuery)
    → AreServed (now + s.clock_resolution_millis) ts qs
    → All (λ q. is_asked s now c h (send_ready_types ts now s c h).0 q ≡ true) qs
unfolding is_asked is_served
served-asked ts now s c h [] a = tt
served-asked ts now s c h (q ∷ qs) (b, a) =
    (ground (arith, b, send-asked ts now s c h q.name), served-asked ts now s c h qs a)

-- The messages depend on the settings of the scheduler alone.
send-settings :
    (ts : List Text) (now : ℕ) (s s' : QueryScheduler) (c : DnsCache) (h : QuestionHistory)
    → s'.multicast ≡ s.multicast
    → s'.question_type ≡ s.question_type
    → send_ready_types ts now s' c h ≡ send_ready_types ts now s c h
unfolding send_ready_types async_send_ready_queries
send-settings [] now s s' c h a b = refl
send-settings (t ∷ ts) now s s' c h a b = rw (a, b) refl

-- From a scheduler whose table and heap are in step, `_process_ready_types` of an instance that is
-- not closed raises no KeyError, and for each query of the heap that is not cancelled and whose time
-- has come, by the resolution of the clock, its messages ask the question for the type of the query,
-- unless the question is not a unicast one and the question history suppresses it at the beginning.
pub process_ready_types-AreAsked :
    (now : ℕ) (c : DnsCache) (h : QuestionHistory) (s : QueryScheduler)
    → IsLive s
    → (s' : QueryScheduler) × (outs : List DnsOutgoing) × (h' : QuestionHistory)
      × (process_ready_types false now c h s ≡ some (s', outs, h'))
      × All (λ q. is_asked s now c h outs q ≡ true) s.query_heap
unfolding process_ready_types
process_ready_types-AreAsked now c h s v =
    let (s', ts, run, served, a, b) = run_ready_types-AreServed now s v in
    let sent = send_ready_types ts now s c h in
    (
      s',
      sent.0,
      sent.1,
      rw (run, send-settings ts now s s' c h a b) refl,
      served-asked ts now s c h s.query_heap served,
    )
