-- ===== src/Scheduler/Due.antt =====
-- The queries of `QueryScheduler` that are due, and what `_process_ready_types` asks of them.
use mathlib.Core.Path.{subst}
use lscamoflash.Scheduler.Ready.{pop_ready_queries-IsPopped}
use lscamoflash.Scheduler.Live.{IsLive}
use lscamoflash.Scheduler.Order.{IsSorted}
use lscamoflash.Prelude.Dict.{Dict}
use lscamoflash.Prelude.{
  ℕ, All, Bool, Bool-cases, List, Text, [], any_of, arith, inl, inr, ltb, not, refl, some, text_eq,
  text_eq_iff, true, ◌&&◌, ◌<◌, ◌||◌, ◌∷◌, ◌≡◌, ◌≤◌, ◌+◌, Option-cases, leb, ◌*◌, ◌∙◌,
}
use lscamoflash.Prelude.Dict
use lscamoflash.Scheduler.{
  Popped, QueryScheduler, ScheduledQuery, add_type, pop_ready_queries, note_ready, run_ready_types,
  next_time, schedule_rescues, ready_at, schedule_ptr_query, schedule_rescue_query,
}

-- A query that is not cancelled, and whose time has come
unfoldable pub is_due : ℕ → ScheduledQuery → Bool
is_due end_ q = not q.cancelled && not (ltb end_ q.when_millis)

-- If a query is due, its type is one of those.
unfoldable pub is_served : ℕ → List Text → ScheduledQuery → Bool
unfolding is_due
is_served end_ types q = not (is_due end_ q) || any_of (text_eq q.name) types

abbrev pub AreServed : ℕ → List Text → List ScheduledQuery → Type 0
AreServed end_ types h = All (λ q. is_served end_ types q ≡ true) h

-- Behind a query whose time has not come, none has.
not_due-AreServed :
    (end_ n : ℕ) (types : List Text) (h : List ScheduledQuery)
    → end_ < n
    → All (λ r. n ≤ r.when_millis) h
    → AreServed end_ types h
unfolding is_served is_due
not_due-AreServed end_ n types [] le a = tt
not_due-AreServed end_ n types (q ∷ h) le (b, a) =
    (ground (arith, le, b), not_due-AreServed end_ n types h le a)

any_of-add_type :
    (t x : Text) (ts : List Text)
    → any_of (text_eq x) (add_type t ts) ≡ (text_eq x t || any_of (text_eq x) ts)
unfolding add_type
any_of-add_type t x ts = elim (Bool-cases (any_of (text_eq t) ts)) [
  | inl e ↦ rw e (same_any t x ts e)
  | inr e ↦ rw e refl
]
  where
    same_any :
        (t x : Text) (ts : List Text)
        → any_of (text_eq t) ts ≡ true
        → any_of (text_eq x) ts ≡ (text_eq x t || any_of (text_eq x) ts)
    same_any t x [] e = ground (arith, e)
    same_any t x (s ∷ ts) e =
        ground (arith, e, same_any t x ts, text_eq_iff t s, text_eq_iff x s, text_eq_iff x t)

-- More types serve no fewer queries.
add_type-AreServed :
    (end_ : ℕ) (t : Text) (ts : List Text) (h : List ScheduledQuery)
    → AreServed end_ ts h
    → AreServed end_ (add_type t ts) h
unfolding is_served
add_type-AreServed end_ t ts [] a = tt
add_type-AreServed end_ t ts (q ∷ h) (b, a) =
    (ground (arith, b, any_of-add_type t q.name ts), add_type-AreServed end_ t ts h a)

note_ready-AreServed :
    (end_ : ℕ) (q : ScheduledQuery) (p : Popped) (h : List ScheduledQuery)
    → AreServed end_ p.ready_types h
    → AreServed end_ (note_ready q p).ready_types (q ∷ h)
unfolding note_ready
note_ready-AreServed end_ q p h a = (
  unfold is_served in
      ground (arith, any_of-add_type q.name q.name p.ready_types, text_eq_iff q.name q.name),
  add_type-AreServed end_ q.name p.ready_types h a,
)

pop_ready_queries-AreServed :
    (end_ : ℕ) (table : Dict Text ScheduledQuery) (h : List ScheduledQuery) (p : Popped)
    → IsSorted h
    → pop_ready_queries end_ table h ≡ some p
    → AreServed end_ p.ready_types h
unfolding pop_ready_queries
pop_ready_queries-AreServed end_ table [] p o e = tt
pop_ready_queries-AreServed end_ table (q ∷ h) p (le, o) e = elim (Bool-cases q.cancelled) [
  | inl c ↦ (
    unfold is_served is_due in ground (arith, c),
    pop_ready_queries-AreServed end_ table h p o (ground (arith, c, e)),
  )
  | inr c ↦ elim (Bool-cases (ltb end_ q.when_millis)) [
    | inl l ↦
        not_due-AreServed end_ q.when_millis p.ready_types (q ∷ h) (ground (arith, l))
          (omega arith, le)
    | inr l ↦ elim (Option-cases (pop_ready_queries end_ (Dict.delete text_eq q.alias table) h)) [
      | inl f ↦ absurd (ground (arith, c, l, f, e))
      | inr (p', f) ↦
          let same : note_ready q p' ≡ p = ground (arith, c, l, f, e) in
          subst (λ x. AreServed end_ x.ready_types (q ∷ h)) same
            (note_ready-AreServed end_ q p' h
              (pop_ready_queries-AreServed end_ (Dict.delete text_eq q.alias table) h p' o f))
    ]
  ]
]

rescue-settings :
    (q : ScheduledQuery) (now : ℕ) (s : QueryScheduler)
    → ((schedule_rescue_query q now s).multicast ≡ s.multicast)
      × ((schedule_rescue_query q now s).question_type ≡ s.question_type)
unfolding schedule_rescue_query schedule_ptr_query
rescue-settings q now s = elim (Bool-cases (leb q.expire_time_millis (now + q.ttl * 100))) [
  | inl e ↦ rw (schedule_rescue_query, e) (refl, refl)
  | inr e ↦ rw (schedule_rescue_query, e) (refl, refl)
]

-- The repeated queries leave the settings alone.
schedule_rescues-settings :
    (qs : List ScheduledQuery) (now : ℕ) (s : QueryScheduler)
    → ((schedule_rescues qs now s).multicast ≡ s.multicast)
      × ((schedule_rescues qs now s).question_type ≡ s.question_type)
unfolding schedule_rescues
schedule_rescues-settings [] now s = (refl, refl)
schedule_rescues-settings (q ∷ qs) now s =
    let (a, b) = schedule_rescues-settings qs now (schedule_rescue_query q now s) in
    let (c, d) = rescue-settings q now s in (a ∙ c, b ∙ d)

-- The types that are noted are those of the queries that are due.
pub run_ready_types-AreServed :
    (now : ℕ) (s : QueryScheduler)
    → IsLive s
    → (s' : QueryScheduler) × (ready_types : List Text) × (run_ready_types now s
        ≡ some (s', ready_types))
      × AreServed (now + s.clock_resolution_millis) ready_types s.query_heap
      × (s'.multicast ≡ s.multicast)
      × (s'.question_type ≡ s.question_type)
unfolding run_ready_types
run_ready_types-AreServed now s v =
    let end_ = now + s.clock_resolution_millis in
    let (p, f, k) =
      pop_ready_queries-IsPopped end_ s.next_id s.next_scheduled_for_alias s.query_heap v.registered
        v.unique v.made v.sorted in
    let s' : QueryScheduler = record s {
      next_scheduled_for_alias = p.table;
      query_heap = p.heap;
    } in
    let when = next_time p.next_scheduled (now + s.min_time_between_queries_millis) in
    (
      record (schedule_rescues p.schedule_rescue now s') { next_run = some (ready_at when) },
      p.ready_types,
      rw f refl,
      pop_ready_queries-AreServed end_ s.next_scheduled_for_alias s.query_heap p v.sorted f,
      (schedule_rescues-settings p.schedule_rescue now s').0,
      (schedule_rescues-settings p.schedule_rescue now s').1,
    )
