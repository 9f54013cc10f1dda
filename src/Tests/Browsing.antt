-- ===== src/Tests/Browsing.antt =====
-- Runs of the browser, of its scheduler and of the grouping of questions.
use lscamoflash.History.{QuestionHistory}
use lscamoflash.Scheduler.Asked.{is_asked, process_ready_types-AreAsked}
use lscamoflash.Outgoing.{DnsOutgoing}
use lscamoflash.Grouping.Shares.{query_buckets-IsGrouping}
use lscamoflash.Scheduler.Cancelled.{cancel_ptr_refresh-cancelled, is_cancelled_of}
use lscamoflash.Browser.Precedence.{changes_of, strongest}
use lscamoflash.Scheduler.Rescue.{process_ready_types-IsLive}
use lscamoflash.Cache.{empty_cache}
use lscamoflash.Browser.Announced.{fired-async_update_records}
use lscamoflash.Grouping.Complete.{count_asked, count_asked-group_ptr_queries, count_by}
use lscamoflash.Scheduler.Live.{
  IsLive, reschedule_ptr_first_refresh-IsLive, schedule_ptr_query-IsLive,
}
use lscamoflash.Prelude.Dict.{Dict}
use lscamoflash.Tests.Samples.{http_question, printer_ptr, http, printer}
use lscamoflash.Browser.Events.{
  BrowserEvent, handle_events, new_browser-handle_events, starts, updates, completes, ready_timer,
  cancels, is_orderly, sender_starts,
}
use lscamoflash.Grouping.Buckets.{IsGrouping}
use lscamoflash.Grouping.{group_ptr_queries, query_buckets}
use lscamoflash.Prelude.{
  ℕ, All, List, [], concat_all, false, map, none, refl, some, true, ◌+◌, ◌∷◌, ◌≡◌, ◌≤◌,
  if◌then◌else◌,
}
use lscamoflash.Prelude.Dict
use lscamoflash.Browser.{
  Browser, async_update_records, async_update_records_complete, key_eq, new_browser,
}
use lscamoflash.Manager.{RecordUpdate}
use lscamoflash.Scheduler.{
  QueryScheduler, ready_at, init_scheduler, reschedule_ptr_first_refresh, schedule_ptr_query,
  cancel_ptr_refresh, process_ready_types,
}
use lscamoflash.Dns.{Question, Record}

abbrev http_browser : Browser
http_browser = new_browser (http ∷ []) true none 10000 0

-- The printer appears.
abbrev appeared : RecordUpdate
appeared = record { new = printer_ptr; old = none }

nothing_pending_yet : http_browser.pending_handlers ≡ []
unfolding new_browser
nothing_pending_yet = refl

fired-async_update_records_example :
    let (b', fired) =
      async_update_records_complete
        (async_update_records 1000 empty_cache (appeared ∷ []) http_browser) in
    (Dict.get key_eq (printer, http) fired
      ≡ strongest
          (printer, http)
          (concat_all (map (changes_of 1000 empty_cache http_browser.types) (appeared ∷ []))))
    × (b'.pending_handlers ≡ [])
fired-async_update_records_example =
    fired-async_update_records 1000 empty_cache (appeared ∷ []) http_browser (printer, http)
      nothing_pending_yet

-- The printer appears, its refresh is due, and the browser is cancelled.
abbrev some_events : List BrowserEvent
some_events =
    starts 900 empty_cache
    ∷ sender_starts 20
    ∷ updates 1000 empty_cache (appeared ∷ [])
    ∷ completes
    ∷ ready_timer false 91000 empty_cache []
    ∷ cancels
    ∷ []

new_browser-handle_events_example :
    (b : Browser) × (handle_events some_events (new_browser (http ∷ []) true none 10000 0)
      ≡ (if is_orderly false some_events then some b else none))
    × IsLive b.query_scheduler
new_browser-handle_events_example =
    new_browser-handle_events (http ∷ []) true none 10000 0 some_events

abbrev idle : QueryScheduler
idle = init_scheduler (http ∷ []) true none 10000 0

idle-IsLive : IsLive idle
idle-IsLive = record { registered = tt; unique = tt; made = tt; sorted = tt }

reschedule_ptr_first_refresh-IsLive_example :
    IsLive (reschedule_ptr_first_refresh printer_ptr printer idle)
reschedule_ptr_first_refresh-IsLive_example =
    reschedule_ptr_first_refresh-IsLive printer_ptr printer idle idle-IsLive

abbrev one_scheduled : QueryScheduler
one_scheduled = schedule_ptr_query printer http 120 121000 91000 idle

one_scheduled-IsLive : IsLive one_scheduled
one_scheduled-IsLive =
    schedule_ptr_query-IsLive printer http 120 121000 91000 idle (unfold Dict.get in refl)
      idle-IsLive

process_ready_types-IsLive_example :
    (s' : QueryScheduler) × (outs : List DnsOutgoing) × (h' : QuestionHistory) × (when : ℕ)
    × (process_ready_types false 91000 empty_cache [] one_scheduled ≡ some (s', outs, h'))
    × (s'.next_run ≡ (if false then one_scheduled.next_run else some (ready_at when)))
    × (91000 + one_scheduled.min_time_between_queries_millis ≤ when)
    × IsLive s'
process_ready_types-IsLive_example =
    process_ready_types-IsLive false 91000 empty_cache [] one_scheduled one_scheduled-IsLive

abbrev one_question : Dict Question (List Record)
one_question = (http_question, printer_ptr ∷ []) ∷ []

query_buckets-IsGrouping_example :
    IsGrouping 2000 one_question (query_buckets 2000 true one_question)
query_buckets-IsGrouping_example = query_buckets-IsGrouping 2000 true one_question

count_asked-group_ptr_queries_example :
    count_asked (λ q. q.unique) (group_ptr_queries 2000 true one_question)
    ≡ count_by (λ q. q.unique) (Dict.keys one_question)
count_asked-group_ptr_queries_example =
    count_asked-group_ptr_queries (λ q. q.unique) 2000 true one_question

process_ready_types-AreAsked_example :
    (s' : QueryScheduler) × (outs : List DnsOutgoing) × (h' : QuestionHistory)
    × (process_ready_types false 91000 empty_cache [] one_scheduled ≡ some (s', outs, h'))
    × All (λ q. is_asked one_scheduled 91000 empty_cache [] outs q ≡ true) one_scheduled.query_heap
process_ready_types-AreAsked_example =
    process_ready_types-AreAsked 91000 empty_cache [] one_scheduled one_scheduled-IsLive

cancel_ptr_refresh-cancelled_example :
    All
      (λ q. is_cancelled_of printer q ≡ true)
      (cancel_ptr_refresh printer one_scheduled).query_heap
cancel_ptr_refresh-cancelled_example =
    cancel_ptr_refresh-cancelled printer one_scheduled one_scheduled-IsLive
