-- ===== src/Scheduler/Cancelled.antt =====
-- What `QueryScheduler.cancel_ptr_refresh` leaves of an alias.
use lscamoflash.Prelude.Dict.{Dict}
use lscamoflash.Scheduler.Live.{
  AreRegistered, IsLive, cancel_ptr_refresh-IsLive, drop_scheduled_free, is_registered,
}
use lscamoflash.Prelude.{
  All, Bool, Bool-cases, List, Option-cases, Text, [], ap, arith, false, inl, inr, none, not,
  text_eq, text_eq_iff, true, ◌||◌, ◌∙◌, ◌∷◌, ◌≡◌, ◌⊎◌,
}
use lscamoflash.Prelude.Dict
use lscamoflash.Scheduler.{QueryScheduler, ScheduledQuery, cancel_ptr_refresh}

-- A query of an alias is cancelled.
unfoldable pub is_cancelled_of : Text → ScheduledQuery → Bool
is_cancelled_of alias q = not (text_eq q.alias alias) || q.cancelled

-- Of an alias that the table does not have, every query of the heap is cancelled.
unregistered-cancelled :
    (alias : Text) (table : Dict Text ScheduledQuery) (h : List ScheduledQuery)
    → Dict.get text_eq alias table ≡ none
    → AreRegistered table h
    → All (λ q. is_cancelled_of alias q ≡ true) h
unfolding is_registered is_cancelled_of
unregistered-cancelled alias table [] e a = tt
unregistered-cancelled alias table (q ∷ h) e (v, a) =
    (one (Bool-cases (text_eq q.alias alias)), unregistered-cancelled alias table h e a)
  where
    one :
        ((text_eq q.alias alias ≡ true) ⊎ (text_eq q.alias alias ≡ false))
        → is_cancelled_of alias q ≡ true
    one (inr f) = ground (arith, f)
    one (inl f) =
        let same : q.alias ≡ alias = (text_eq_iff q.alias alias).0 f in
        let free : Dict.get text_eq q.alias table ≡ none =
          ap (λ x. Dict.get text_eq x table) same ∙ e in
        ground (arith, f, free, v)

cancel_ptr_refresh_free :
    (alias : Text) (s : QueryScheduler)
    → Dict.get text_eq alias (cancel_ptr_refresh alias s).next_scheduled_for_alias ≡ none
unfolding cancel_ptr_refresh
cancel_ptr_refresh_free alias s =
    elim (Option-cases (Dict.get text_eq alias s.next_scheduled_for_alias)) [
      | inl e ↦ rw (cancel_ptr_refresh, e) e
      | inr (q, e) ↦ rw (cancel_ptr_refresh, e) (drop_scheduled_free alias q s)
    ]

-- When the refresh of a pointer is cancelled in a scheduler that is in step, no query for its alias is
-- left to be asked: each that is in the heap is cancelled.
pub cancel_ptr_refresh-cancelled :
    (alias : Text) (s : QueryScheduler)
    → IsLive s
    → All (λ q. is_cancelled_of alias q ≡ true) (cancel_ptr_refresh alias s).query_heap
cancel_ptr_refresh-cancelled alias s v =
    let t = cancel_ptr_refresh alias s in
    unregistered-cancelled alias t.next_scheduled_for_alias t.query_heap
      (cancel_ptr_refresh_free alias s) (cancel_ptr_refresh-IsLive alias s v).registered
