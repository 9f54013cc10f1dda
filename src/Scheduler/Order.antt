-- ===== src/Scheduler/Order.antt =====
-- The order of the heap of `QueryScheduler`, by the times of its queries.
use lscamoflash.Prelude.{ℕ, All, Bool-cases, List, [], arith, inl, inr, ltb, ◌==◌, ◌∷◌, ◌≤◌}
use lscamoflash.Scheduler.{ScheduledQuery, cancel, push_query}

abbrev pub IsSorted : List ScheduledQuery → Type 0
IsSorted [] = Unit {0}
IsSorted (q ∷ h) = All (λ r. q.when_millis ≤ r.when_millis) h × IsSorted h

All-le_trans :
    (m n : ℕ) (h : List ScheduledQuery)
    → m ≤ n
    → All (λ r. n ≤ r.when_millis) h
    → All (λ r. m ≤ r.when_millis) h
All-le_trans m n [] le a = tt
All-le_trans m n (r ∷ h) le (b, a) = (omega (arith, le, b), All-le_trans m n h le a)

All-push_query_le :
    (n : ℕ) (q : ScheduledQuery) (h : List ScheduledQuery)
    → n ≤ q.when_millis
    → All (λ r. n ≤ r.when_millis) h
    → All (λ r. n ≤ r.when_millis) (push_query q h)
unfolding push_query
All-push_query_le n q [] le a = (le, tt)
All-push_query_le n q (r ∷ h) le (b, a) = elim (Bool-cases (ltb q.when_millis r.when_millis)) [
  | inl e ↦ rw e (le, (b, a))
  | inr e ↦ rw e (b, All-push_query_le n q h le a)
]

pub push_query-IsSorted :
    (q : ScheduledQuery) (h : List ScheduledQuery) → IsSorted h → IsSorted (push_query q h)
unfolding push_query
push_query-IsSorted q [] s = (tt, tt)
push_query-IsSorted q (r ∷ h) (a, s) = elim (Bool-cases (ltb q.when_millis r.when_millis)) [
  | inl e ↦
      let le : q.when_millis ≤ r.when_millis = ground (arith, e) in
      rw e ((le, All-le_trans q.when_millis r.when_millis h le a), (a, s))
  | inr e ↦
      rw e (All-push_query_le r.when_millis q h (ground (arith, e)) a, push_query-IsSorted q h s)
]

All-cancel_le :
    (n m : ℕ) (h : List ScheduledQuery)
    → All (λ r. n ≤ r.when_millis) h
    → All (λ r. n ≤ r.when_millis) (cancel m h)
unfolding cancel
All-cancel_le n m [] a = tt
All-cancel_le n m (r ∷ h) (b, a) = (ground (arith, b), All-cancel_le n m h a)

pub cancel-IsSorted : (n : ℕ) (h : List ScheduledQuery) → IsSorted h → IsSorted (cancel n h)
unfolding cancel
cancel-IsSorted n [] s = tt
cancel-IsSorted n (q ∷ h) (a, s) = elim (Bool-cases (q.id == n)) [
  | inl e ↦ rw e (All-cancel_le q.when_millis n h a, cancel-IsSorted n h s)
  | inr e ↦ rw e (All-cancel_le q.when_millis n h a, cancel-IsSorted n h s)
]
