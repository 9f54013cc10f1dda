-- ===== src/Browser/Events.antt =====
-- A browser that is called in any order: updates from the record manager, its timers, its start and
-- its cancellation.
use lscamoflash.Browser.Sound.{
  IsSound, async_cancel-IsSound, async_cancel-none, async_start-IsSound,
  async_update_records-IsSound, complete-IsSound, process_startup_queries-IsLive, schedule-IsSound,
  start-IsLive,
}
use lscamoflash.Scheduler.Rescue.{process_ready_types-IsLive}
use lscamoflash.Cache.{◌>>=◌}
use lscamoflash.Cache.{DnsCache}
use lscamoflash.Grouping.{QuestionType}
use lscamoflash.History.{QuestionHistory}
use lscamoflash.Manager.{RecordUpdate}
use lscamoflash.Scheduler.Live.{IsLive}
use lscamoflash.Prelude.{
  ℕ, Bool, List, Option, Text, [], false, none, some, true, ◌∷◌, ◌≡◌, if◌then◌else◌, refl,
}
use lscamoflash.Browser.{
  Browser, async_cancel, async_start_query_sender, async_update_records,
  async_update_records_complete, schedule_with, async_start, new_browser,
}
use lscamoflash.Scheduler.{start, process_ready_types, process_startup_queries}

-- What calls the browser: the event loop's timers bring the time, and whether the instance is closed.
pub data BrowserEvent : Type 0 where
  starts : ℕ → DnsCache → BrowserEvent
  sender_starts : ℕ → BrowserEvent
  updates : ℕ → DnsCache → List RecordUpdate → BrowserEvent
  completes : BrowserEvent
  startup_timer : Bool → ℕ → DnsCache → QuestionHistory → BrowserEvent
  ready_timer : Bool → ℕ → DnsCache → QuestionHistory → BrowserEvent
  cancels : BrowserEvent

-- `none` is a KeyError, or a failed assertion.
unfoldable pub handle_event : BrowserEvent → Browser → Option Browser
unfolding async_start async_start_query_sender process_startup_queries process_ready_types
    async_cancel async_update_records_complete
handle_event (starts now c) b = some (async_start now c b)
handle_event (sender_starts delay) b = some (async_start_query_sender delay b)
handle_event (updates now c us) b = some (async_update_records now c us b)
handle_event completes b = some (async_update_records_complete b).0
handle_event (startup_timer closed now c h) b =
    some (schedule_with (λ s. (process_startup_queries closed now c h s).0) b)
handle_event (ready_timer closed now c h) b =
    process_ready_types closed now c h b.query_scheduler >>= λ sent.
    some (schedule_with (λ s. sent.0) b)
handle_event cancels b = async_cancel b

unfoldable pub handle_events : List BrowserEvent → Browser → Option Browser
unfolding handle_event
handle_events [] b = some b
handle_events (e ∷ es) b = handle_event e b >>= handle_events es

-- Whether the browser is started and not cancelled behind an event, from whether it is before;
-- `none` is a cancellation of a browser that is not.
unfoldable pub runs_after : BrowserEvent → Bool → Option Bool
runs_after (starts now c) l = some true
runs_after (sender_starts delay) l = some l
runs_after (updates now c us) l = some l
runs_after completes l = some l
runs_after (startup_timer closed now c h) l = some l
runs_after (ready_timer closed now c h) l = some l
runs_after cancels l = if l then some false else none

-- Each cancellation comes behind a start, with no other cancellation between.
unfoldable pub is_orderly : Bool → List BrowserEvent → Bool
unfolding runs_after
is_orderly l [] = true
is_orderly l (e ∷ es) = elim (runs_after e l) [ none ↦ false | some l' ↦ is_orderly l' es ]

-- What an event does to a browser, and whether it runs behind it
Handles : Option Bool → Option Browser → Type 0
Handles none o = o ≡ none
Handles (some l) o = (b' : Browser) × (o ≡ some b') × IsSound l l b'

handle_event-Handles :
    (e : BrowserEvent) (l : Bool) (b : Browser)
    → IsSound l l b
    → Handles (runs_after e l) (handle_event e b)
unfolding handle_event runs_after Handles
handle_event-Handles (starts now c) l b v = (_, refl, async_start-IsSound l l now c b v)
handle_event-Handles (sender_starts delay) l b v = (
  _,
  refl,
  unfold async_start_query_sender in
      schedule-IsSound l l (start delay) b (start-IsLive delay b.query_scheduler v.live) v,
)
handle_event-Handles (updates now c us) l b v =
    (_, refl, async_update_records-IsSound l l now c us b v)
handle_event-Handles completes l b v = (_, refl, complete-IsSound l l b v)
handle_event-Handles (startup_timer closed now c h) l b v = (
  _,
  refl,
  schedule-IsSound l l (λ s. (process_startup_queries closed now c h s).0) b
      (process_startup_queries-IsLive closed now c h b.query_scheduler v.live) v,
)
handle_event-Handles (ready_timer closed now c h) l b v =
    let (s', outs, h', when, run, timer, le, live) =
      process_ready_types-IsLive closed now c h b.query_scheduler v.live in
    (schedule_with (λ s. s') b, rw run refl, schedule-IsSound l l (λ s. s') b live v)
handle_event-Handles cancels true b v = async_cancel-IsSound b v
handle_event-Handles cancels false b v = async_cancel-none b v

-- What the events leave of a browser
abbrev Leaves : Bool → List BrowserEvent → Browser → Type 0
Leaves l es b =
    (b' : Browser) × (handle_events es b ≡ (if is_orderly l es then some b' else none))
    × IsLive b'.query_scheduler

cons-Leaves :
    (e : BrowserEvent) (es : List BrowserEvent) (l : Bool) (b : Browser) (o : Option Bool)
    → runs_after e l ≡ o
    → IsSound l l b
    → Handles o (handle_event e b)
    → ((l' : Bool) (b' : Browser) → IsSound l' l' b' → Leaves l' es b')
    → Leaves l (e ∷ es) b
unfolding Handles handle_events is_orderly
cons-Leaves e es l b none f v h k = (b, rw (h, is_orderly, f) refl, v.live)
cons-Leaves e es l b (some l') f v (b1, h, w) k =
    let (b2, g, live) = k l' b1 w in (b2, rw (h, is_orderly, f) g, live)

handle_events-Leaves :
    (es : List BrowserEvent) (l : Bool) (b : Browser) → IsSound l l b → Leaves l es b
unfolding handle_events is_orderly
handle_events-Leaves [] l b v = (b, refl, v.live)
handle_events-Leaves (e ∷ es) l b v =
    cons-Leaves e es l b (runs_after e l) refl v (handle_event-Handles e l b v)
      (λ l' b' w. handle_events-Leaves es l' b' w)

-- A new browser that is called in any order - its start, its sender's, updates, completions, its
-- timers, its cancellations - ends in a KeyError or a failed assertion exactly if some cancellation
-- has no start between it and the cancellation before, or the beginning. Otherwise there is a browser,
-- in which every query of the heap that is not cancelled is the one that the table has for its alias.
pub new_browser-handle_events :
    (types : List Text) (multicast : Bool) (question_type : Option QuestionType)
    (delay resolution : ℕ) (es : List BrowserEvent)
    → (b : Browser) × (handle_events es (new_browser types multicast question_type delay resolution)
        ≡ (if is_orderly false es then some b else none))
      × IsLive b.query_scheduler
unfolding new_browser
new_browser-handle_events types multicast question_type delay resolution es =
    handle_events-Leaves es false (new_browser types multicast question_type delay resolution)
      (record {
        live = record { registered = tt; unique = tt; made = tt; sorted = tt };
        listening = refl;
        sending = refl;
      })
