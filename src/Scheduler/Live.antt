-- ===== src/Scheduler/Live.antt =====
-- The invariant between the table of aliases and the heap of `QueryScheduler`.
use lscamoflash.Scheduler.Order.{IsSorted, cancel-IsSorted, push_query-IsSorted}
use lscamoflash.Dns.{Record, get_expiration_time}
use lscamoflash.Prelude.Dict.{Dict}
use lscamoflash.Scheduler.{
  QueryScheduler, ScheduledQuery, cancel, drop_scheduled, push_query, schedule_ptr_query,
  cancel_ptr_refresh, is_near, reschedule_ptr_first_refresh, schedule_ptr_refresh,
}
use lscamoflash.Prelude.{
  ℕ, All, Bool, Bool-cases, List, Text, [], any_of, arith, false, inl, inr, ltb, none, refl, some,
  text_eq, text_eq_iff, true, ◌+◌, ◌<◌, ◌==◌, ◌||◌, ◌∷◌, ◌≡◌, Option-cases,
}
use lscamoflash.Prelude.Dict

-- Whether a query of the heap is cancelled, or the one that the table has for its alias
unfoldable pub is_registered : Dict Text ScheduledQuery → ScheduledQuery → Bool
is_registered table q =
    q.cancelled || elim (Dict.get text_eq q.alias table) [ none ↦ false | some r ↦ r.id == q.id ]

abbrev pub AreRegistered : Dict Text ScheduledQuery → List ScheduledQuery → Type 0
AreRegistered table h = All (λ q. is_registered table q ≡ true) h

-- No two queries of a heap are the same object.
abbrev pub IsUnique : List ScheduledQuery → Type 0
IsUnique [] = Unit {0}
IsUnique (q ∷ h) = (any_of (λ r. r.id == q.id) h ≡ false) × IsUnique h

-- Every query of the heap that is not cancelled is the one that the table has for its alias; the
-- queries of the heap are different objects, none of them yet to be made, in the order of their
-- times.
pub record IsLive (s : QueryScheduler) : Type 0 where
  pub registered : AreRegistered s.next_scheduled_for_alias s.query_heap
  pub unique : IsUnique s.query_heap
  pub made : All (λ q. q.id < s.next_id) s.query_heap
  pub sorted : IsSorted s.query_heap

-- The table loses the alias of a query that is not in the rest of the heap.
pub AreRegistered-delete :
    (q r : ScheduledQuery) (table : Dict Text ScheduledQuery) (h : List ScheduledQuery)
    → Dict.get text_eq q.alias table ≡ some r
    → r.id ≡ q.id
    → any_of (λ x. x.id == q.id) h ≡ false
    → AreRegistered table h
    → AreRegistered (Dict.delete text_eq q.alias table) h
unfolding is_registered
AreRegistered-delete q r table [] e i u a = tt
AreRegistered-delete q r table (x ∷ h) e i u (v, a) = (
  ground
      (arith, e, i, u, v, text_eq_iff q.alias x.alias, Dict.get-delete_text q.alias x.alias table),
  AreRegistered-delete q r table h e i (ground (arith, u)) a,
)

-- A query for an alias that the table does not have
AreRegistered-insert :
    (alias : Text) (q : ScheduledQuery) (table : Dict Text ScheduledQuery) (h : List ScheduledQuery)
    → Dict.get text_eq alias table ≡ none
    → AreRegistered table h
    → AreRegistered (Dict.insert text_eq alias q table) h
unfolding is_registered
AreRegistered-insert alias q table [] e a = tt
AreRegistered-insert alias q table (x ∷ h) e (v, a) = (
  ground (arith, e, v, text_eq_iff alias x.alias, Dict.get-insert_text alias x.alias q table),
  AreRegistered-insert alias q table h e a,
)

All-push_query :
    (P : ScheduledQuery → Type 0) (q : ScheduledQuery) (h : List ScheduledQuery)
    → P q
    → All P h
    → All P (push_query q h)
unfolding push_query
All-push_query P q [] p a = (p, tt)
All-push_query P q (r ∷ h) p (b, a) = elim (Bool-cases (ltb q.when_millis r.when_millis)) [
  | inl e ↦ rw e (p, (b, a))
  | inr e ↦ rw e (b, All-push_query P q h p a)
]

any_of-push_query :
    (n : ℕ) (q : ScheduledQuery) (h : List ScheduledQuery)
    → any_of (λ r. r.id == n) (push_query q h) ≡ ((q.id == n) || any_of (λ r. r.id == n) h)
unfolding push_query
any_of-push_query n q [] = refl
any_of-push_query n q (r ∷ h) = ground (arith, any_of-push_query n q h)

any_of_made :
    (n : ℕ) (h : List ScheduledQuery) → All (λ q. q.id < n) h → any_of (λ r. r.id == n) h ≡ false
any_of_made n [] a = refl
any_of_made n (q ∷ h) (b, a) = ground (arith, any_of_made n h a)

IsUnique-push_query :
    (q : ScheduledQuery) (h : List ScheduledQuery)
    → any_of (λ r. r.id == q.id) h ≡ false
    → IsUnique h
    → IsUnique (push_query q h)
unfolding push_query
IsUnique-push_query q [] n u = (refl, tt)
IsUnique-push_query q (r ∷ h) n (m, u) =
    ground (arith, IsUnique-push_query q h, any_of-push_query r.id q h)

All-weaken : (n : ℕ) (h : List ScheduledQuery) → All (λ q. q.id < n) h → All (λ q. q.id < n + 1) h
All-weaken n [] a = tt
All-weaken n (q ∷ h) (b, a) = (omega arith, All-weaken n h a)

-- A query for an alias that has none keeps the table and the heap in step.
pub schedule_ptr_query-IsLive :
    (alias name : Text) (ttl expire when : ℕ) (s : QueryScheduler)
    → Dict.get text_eq alias s.next_scheduled_for_alias ≡ none
    → IsLive s
    → IsLive (schedule_ptr_query alias name ttl expire when s)
unfolding schedule_ptr_query
schedule_ptr_query-IsLive alias name ttl expire when s free v =
    let q : ScheduledQuery = record {
      id = s.next_id;
      alias = alias;
      name = name;
      ttl = ttl;
      cancelled = false;
      expire_time_millis = expire;
      when_millis = when;
    } in
    let table = Dict.insert text_eq alias q s.next_scheduled_for_alias in
    record {
      registered =
          All-push_query (λ x. is_registered table x ≡ true) q s.query_heap
            (unfold is_registered in
              ground (
                arith,
                Dict.get-insert_text alias alias q s.next_scheduled_for_alias,
                text_eq_iff alias alias,
              ))
            (AreRegistered-insert alias q s.next_scheduled_for_alias s.query_heap free
              v.registered);
      unique =
          IsUnique-push_query q s.query_heap (any_of_made s.next_id s.query_heap v.made) v.unique;
      made =
          All-push_query (λ x. x.id < s.next_id + 1) q s.query_heap (omega arith)
            (All-weaken s.next_id s.query_heap v.made);
      sorted = push_query-IsSorted q s.query_heap v.sorted;
    }

-- What is left of the heap when a query is cancelled
AreRegistered-cancel :
    (q : ScheduledQuery) (alias : Text) (table : Dict Text ScheduledQuery) (h : List ScheduledQuery)
    → Dict.get text_eq alias table ≡ some q
    → AreRegistered table h
    → AreRegistered (Dict.delete text_eq alias table) (cancel q.id h)
unfolding is_registered cancel
AreRegistered-cancel q alias table [] e a = tt
AreRegistered-cancel q alias table (x ∷ h) e (v, a) = (
  ground (arith, e, v, text_eq_iff alias x.alias, Dict.get-delete_text alias x.alias table),
  AreRegistered-cancel q alias table h e a,
)

any_of-cancel :
    (m n : ℕ) (h : List ScheduledQuery)
    → any_of (λ r. r.id == n) (cancel m h) ≡ any_of (λ r. r.id == n) h
unfolding cancel
any_of-cancel m n [] = refl
any_of-cancel m n (x ∷ h) = ground (arith, any_of-cancel m n h)

IsUnique-cancel : (n : ℕ) (h : List ScheduledQuery) → IsUnique h → IsUnique (cancel n h)
unfolding cancel
IsUnique-cancel n [] u = tt
IsUnique-cancel n (x ∷ h) (m, u) =
    (ground (arith, m, any_of-cancel n x.id h), IsUnique-cancel n h u)

made-cancel :
    (m n : ℕ) (h : List ScheduledQuery) → All (λ q. q.id < n) h → All (λ q. q.id < n) (cancel m h)
unfolding cancel
made-cancel m n [] a = tt
made-cancel m n (x ∷ h) (b, a) = (ground (arith, b), made-cancel m n h a)

pub drop_scheduled-IsLive :
    (alias : Text) (q : ScheduledQuery) (s : QueryScheduler)
    → Dict.get text_eq alias s.next_scheduled_for_alias ≡ some q
    → IsLive s
    → IsLive (drop_scheduled alias q s)
unfolding drop_scheduled
drop_scheduled-IsLive alias q s e v = record {
  registered = AreRegistered-cancel q alias s.next_scheduled_for_alias s.query_heap e v.registered;
  unique = IsUnique-cancel q.id s.query_heap v.unique;
  made = made-cancel q.id s.next_id s.query_heap v.made;
  sorted = cancel-IsSorted q.id s.query_heap v.sorted;
}

-- Cancelling the refresh of an alias keeps the table and the heap in step.
pub cancel_ptr_refresh-IsLive :
    (alias : Text) (s : QueryScheduler) → IsLive s → IsLive (cancel_ptr_refresh alias s)
unfolding cancel_ptr_refresh
cancel_ptr_refresh-IsLive alias s v =
    elim (Option-cases (Dict.get text_eq alias s.next_scheduled_for_alias)) [
      | inl e ↦ rw (cancel_ptr_refresh, e) v
      | inr (q, e) ↦ rw (cancel_ptr_refresh, e) (drop_scheduled-IsLive alias q s e v)
    ]

-- A dropped alias is free.
pub drop_scheduled_free :
    (alias : Text) (q : ScheduledQuery) (s : QueryScheduler)
    → Dict.get text_eq alias (drop_scheduled alias q s).next_scheduled_for_alias ≡ none
unfolding drop_scheduled
drop_scheduled_free alias q s =
    ground
      (arith, Dict.get-delete_text alias alias s.next_scheduled_for_alias, text_eq_iff alias alias)

-- Scheduling the first refresh of a pointer keeps the table and the heap in step.
pub reschedule_ptr_first_refresh-IsLive :
    (r : Record) (alias : Text) (s : QueryScheduler)
    → IsLive s
    → IsLive (reschedule_ptr_first_refresh r alias s)
unfolding reschedule_ptr_first_refresh schedule_ptr_refresh
reschedule_ptr_first_refresh-IsLive r alias s v =
    let refresh = get_expiration_time r 75 in
    let expire = get_expiration_time r 100 in
    elim (Option-cases (Dict.get text_eq alias s.next_scheduled_for_alias)) [
      | inl e ↦
          rw (reschedule_ptr_first_refresh, e)
            (schedule_ptr_query-IsLive alias r.name r.ttl expire refresh s e v)
      | inr (q, e) ↦
          elim (Bool-cases (is_near s.min_time_between_queries_millis refresh q.when_millis)) [
            | inl n ↦ rw (reschedule_ptr_first_refresh, e, n) v
            | inr n ↦
                rw (reschedule_ptr_first_refresh, e, n)
                  (schedule_ptr_query-IsLive alias r.name r.ttl expire refresh
                    (drop_scheduled alias q s) (drop_scheduled_free alias q s)
                    (drop_scheduled-IsLive alias q s e v))
          ]
    ]
