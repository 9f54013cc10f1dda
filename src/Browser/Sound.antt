-- ===== src/Browser/Sound.antt =====
-- What the methods of a browser keep of its scheduler and of its state as a listener.
use lscamoflash.Prelude.{ℕ}
use lscamoflash.Const.{class_in}
use lscamoflash.Cache.{DnsCache}
use lscamoflash.Grouping.{alias_of}
use lscamoflash.Dns.{Record, is_expired, init_question}
use lscamoflash.History.{QuestionHistory}
use lscamoflash.Manager.{RecordUpdate, matching_records}
use lscamoflash.Scheduler.Live.{
  IsLive, cancel_ptr_refresh-IsLive, reschedule_ptr_first_refresh-IsLive,
}
use lscamoflash.Const.Types
use lscamoflash.Prelude.{
  ℕ, Bool, Bool-cases, List, Option, Text, [], false, inl, inr, none, some, true, ◌==◌, ◌||◌, ◌∷◌,
  ◌≡◌, map, refl,
}
use lscamoflash.Browser.{
  Browser, async_cancel, async_update_records, async_update_records_complete, enqueue_updates,
  is_cached, names_about, names_matching_types, schedule_with, types_of, update_pointer,
  update_pointers, update_record, enqueue, updated, ServiceStateChange, added, async_start, removed,
  tell_new,
}
use lscamoflash.Scheduler.{
  QueryScheduler, start, stop, process_startup_queries, run_startup_queries, cancel_ptr_refresh,
  reschedule_ptr_first_refresh,
}

-- A browser whose scheduler is in step, and that is listening and has a query sender as `l` and
-- `m` say
pub record IsSound (l m : Bool) (b : Browser) : Type 0 where
  pub live : IsLive b.query_scheduler
  pub listening : b.listening ≡ l
  pub sending : b.has_query_sender ≡ m

pub start-IsLive : (delay : ℕ) (s : QueryScheduler) → IsLive s → IsLive (start delay s)
unfolding start
start-IsLive delay s v = record {
  registered = v.registered;
  unique = v.unique;
  made = v.made;
  sorted = v.sorted;
}

stop-IsLive : (s : QueryScheduler) → IsLive (stop s)
unfolding stop
stop-IsLive s = record { registered = tt; unique = tt; made = tt; sorted = tt }

-- What holds of a browser holds when its scheduler is another one in step.
pub schedule-IsSound :
    (l m : Bool) (f : QueryScheduler → QueryScheduler) (b : Browser)
    → IsLive (f b.query_scheduler)
    → IsSound l m b
    → IsSound l m (schedule_with f b)
unfolding schedule_with
schedule-IsSound l m f b live v = record {
  live = live;
  listening = v.listening;
  sending = v.sending;
}

enqueue-IsSound :
    (l m : Bool) (change : ServiceStateChange) (t n : Text) (b : Browser)
    → IsSound l m b
    → IsSound l m (enqueue change t n b)
unfolding enqueue
enqueue-IsSound l m change t n b v = record {
  live = v.live;
  listening = v.listening;
  sending = v.sending;
}

update_pointer-IsSound :
    (l m : Bool) (now : ℕ) (r : Record) (old : Option Record) (alias t : Text) (b : Browser)
    → IsSound l m b
    → IsSound l m (update_pointer now r old alias t b)
unfolding update_pointer
update_pointer-IsSound l m now r none alias t b v =
    let v' = enqueue-IsSound l m added t alias b v in
    schedule-IsSound l m (reschedule_ptr_first_refresh r alias) (enqueue added t alias b)
      (reschedule_ptr_first_refresh-IsLive r alias (enqueue added t alias b).query_scheduler
        v'.live)
      v'
update_pointer-IsSound l m now r (some old) alias t b v = elim (Bool-cases (is_expired r now)) [
  | inl x ↦
      let v' = enqueue-IsSound l m removed t alias b v in
      rw (update_pointer, x)
        (schedule-IsSound l m (cancel_ptr_refresh alias) (enqueue removed t alias b)
          (cancel_ptr_refresh-IsLive alias (enqueue removed t alias b).query_scheduler v'.live) v')
  | inr x ↦
      rw (update_pointer, x)
        (schedule-IsSound l m (reschedule_ptr_first_refresh r alias) b
          (reschedule_ptr_first_refresh-IsLive r alias b.query_scheduler v.live) v)
]

update_pointers-IsSound :
    (l m : Bool) (now : ℕ) (r : Record) (old : Option Record) (ts : List Text) (b : Browser)
    → IsSound l m b
    → IsSound l m (update_pointers now r old ts b)
unfolding update_pointers
update_pointers-IsSound l m now r old [] b v = v
update_pointers-IsSound l m now r old (t ∷ ts) b v =
    update_pointers-IsSound l m now r old ts (update_pointer now r old (alias_of r.rdata) t b)
      (update_pointer-IsSound l m now r old (alias_of r.rdata) t b v)

enqueue_updates-IsSound :
    (l m : Bool) (ps : List (Text × Text)) (b : Browser)
    → IsSound l m b
    → IsSound l m (enqueue_updates ps b)
unfolding enqueue_updates
enqueue_updates-IsSound l m [] b v = v
enqueue_updates-IsSound l m ((t, n) ∷ ps) b v =
    enqueue_updates-IsSound l m ps (enqueue updated t n b) (enqueue-IsSound l m updated t n b v)

update_record-IsSound :
    (l m : Bool) (now : ℕ) (c : DnsCache) (u : RecordUpdate) (b : Browser)
    → IsSound l m b
    → IsSound l m (update_record now c u b)
unfolding update_record
update_record-IsSound l m now c u b v = elim (Bool-cases (u.new.type == Types.ptr)) [
  | inl e ↦
      rw (update_record, e)
        (update_pointers-IsSound l m now u.new u.old (types_of u.new.name b.types) b v)
  | inr e ↦ elim (Bool-cases (is_cached u.old || is_expired u.new now)) [
    | inl x ↦ rw (update_record, e, x) v
    | inr x ↦
        rw (update_record, e, x)
          (enqueue_updates-IsSound l m (names_matching_types b.types (names_about c u.new)) b v)
  ]
]

pub async_update_records-IsSound :
    (l m : Bool) (now : ℕ) (c : DnsCache) (us : List RecordUpdate) (b : Browser)
    → IsSound l m b
    → IsSound l m (async_update_records now c us b)
unfolding async_update_records
async_update_records-IsSound l m now c [] b v = v
async_update_records-IsSound l m now c (u ∷ us) b v =
    async_update_records-IsSound l m now c us (update_record now c u b)
      (update_record-IsSound l m now c u b v)

pub complete-IsSound :
    (l m : Bool) (b : Browser) → IsSound l m b → IsSound l m (async_update_records_complete b).0
unfolding async_update_records_complete
complete-IsSound l m b v = record { live = v.live; listening = v.listening; sending = v.sending }

pub process_startup_queries-IsLive :
    (closed : Bool) (now : ℕ) (c : DnsCache) (h : QuestionHistory) (s : QueryScheduler)
    → IsLive s
    → IsLive (process_startup_queries closed now c h s).0
unfolding process_startup_queries run_startup_queries
process_startup_queries-IsLive true now c h s v = v
process_startup_queries-IsLive false now c h s v = record {
  registered = v.registered;
  unique = v.unique;
  made = v.made;
  sorted = v.sorted;
}

tell_new-IsSound :
    (l m : Bool) (now : ℕ) (c : DnsCache) (rs : List Record) (b : Browser)
    → IsSound l m b
    → IsSound l m (tell_new now c rs b)
unfolding tell_new
tell_new-IsSound l m now c [] b v = v
tell_new-IsSound l m now c (r ∷ rs) b v =
    let us : List RecordUpdate = map (λ x. record { new = x; old = none }) (r ∷ rs) in
    complete-IsSound l m (async_update_records now c us b)
      (async_update_records-IsSound l m now c us b v)

pub async_start-IsSound :
    (l m : Bool) (now : ℕ) (c : DnsCache) (b : Browser)
    → IsSound l m b
    → IsSound true true (async_start now c b)
unfolding async_start
async_start-IsSound l m now c b v =
    let w =
      tell_new-IsSound true m now c
        (matching_records now c (map (λ t. init_question t Types.ptr class_in) b.types))
        (record b { listening = true })
        (record { live = v.live; listening = refl; sending = v.sending }) in
    record { live = w.live; listening = w.listening; sending = refl }

pub async_cancel-IsSound :
    (b : Browser)
    → IsSound true true b
    → (b' : Browser) × (async_cancel b ≡ some b') × IsSound false false b'
unfolding async_cancel schedule_with
async_cancel-IsSound b v =
    let b' = record (schedule_with stop b) {
      done = true;
      listening = false;
      has_query_sender = false;
    } in
    (
      b',
      rw (v.listening, v.sending) refl,
      record { live = stop-IsLive b.query_scheduler; listening = refl; sending = refl },
    )

pub async_cancel-none : (b : Browser) → IsSound false false b → async_cancel b ≡ none
unfolding async_cancel
async_cancel-none b v = rw (v.listening) refl
