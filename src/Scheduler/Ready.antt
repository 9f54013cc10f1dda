-- ===== src/Scheduler/Ready.antt =====
-- The loop of `QueryScheduler._process_ready_types` over its heap and its table of aliases.
use lscamoflash.Scheduler.Order.{IsSorted}
use lscamoflash.Prelude.Dict.{Dict}
use lscamoflash.Scheduler.Live.{AreRegistered, AreRegistered-delete, IsUnique, is_registered}
use lscamoflash.Prelude.{
  ℕ, All, Bool-cases, List, Option-cases, Text, [], arith, false, inl, inr, ltb, none, refl, some,
  text_eq, text_eq_iff, true, ◌<◌, ◌∷◌, ◌≡◌, Option,
}
use lscamoflash.Prelude.Dict
use lscamoflash.Scheduler.{Popped, ScheduledQuery, note_ready, pop_ready_queries}

-- No alias of a list is that text.
unfoldable pub AreOther : Text → List ScheduledQuery → Type 0
AreOther alias qs = All (λ q. text_eq alias q.alias ≡ false) qs

-- The aliases of a list are different.
abbrev pub AreDistinct : List ScheduledQuery → Type 0
AreDistinct [] = Unit {0}
AreDistinct (q ∷ qs) = AreOther q.alias qs × AreDistinct qs

abbrev pub AreFree : Dict Text ScheduledQuery → List ScheduledQuery → Type 0
AreFree table qs = All (λ q. Dict.get text_eq q.alias table ≡ none) qs

abbrev AreTaken : Dict Text ScheduledQuery → List ScheduledQuery → Type 0
AreTaken table qs = All (λ q. Dict.has text_eq q.alias table ≡ true) qs

-- What the loop leaves of a table and a heap in step
pub record IsPopped (table : Dict Text ScheduledQuery) (n : ℕ) (p : Popped) : Type 0 where
  pub registered : AreRegistered p.table p.heap
  pub unique : IsUnique p.heap
  pub made : All (λ q. q.id < n) p.heap
  pub sorted : IsSorted p.heap
  pub shrunk :
      (alias : Text) → Dict.get text_eq alias table ≡ none → Dict.get text_eq alias p.table ≡ none
  pub free : AreFree p.table p.schedule_rescue
  pub taken : AreTaken table p.schedule_rescue
  pub distinct : AreDistinct p.schedule_rescue

-- What is in a table without an alias is in the table, and is another alias.
has-delete :
    (alias x : Text) (table : Dict Text ScheduledQuery)
    → Dict.has text_eq x (Dict.delete text_eq alias table) ≡ true
    → (Dict.has text_eq x table ≡ true) × (text_eq alias x ≡ false)
unfolding Dict.has
has-delete alias x table h = ground (arith, h, Dict.get-delete_text alias x table)

taken-delete :
    (alias : Text) (table : Dict Text ScheduledQuery) (qs : List ScheduledQuery)
    → AreTaken (Dict.delete text_eq alias table) qs
    → AreTaken table qs
taken-delete alias table [] a = tt
taken-delete alias table (q ∷ qs) (h, a) =
    ((has-delete alias q.alias table h).0, taken-delete alias table qs a)

AreOther-delete :
    (alias : Text) (table : Dict Text ScheduledQuery) (qs : List ScheduledQuery)
    → AreTaken (Dict.delete text_eq alias table) qs
    → AreOther alias qs
unfolding AreOther
AreOther-delete alias table [] a = tt
AreOther-delete alias table (q ∷ qs) (h, a) =
    ((has-delete alias q.alias table h).1, AreOther-delete alias table qs a)

get-delete_self :
    (alias : Text) (table : Dict Text ScheduledQuery)
    → Dict.get text_eq alias (Dict.delete text_eq alias table) ≡ none
get-delete_self alias table =
    ground (arith, Dict.get-delete_text alias alias table, text_eq_iff alias alias)

get-delete-none :
    (alias x : Text) (table : Dict Text ScheduledQuery)
    → Dict.get text_eq x table ≡ none
    → Dict.get text_eq x (Dict.delete text_eq alias table) ≡ none
get-delete-none alias x table e = ground (arith, e, Dict.get-delete_text alias x table)

-- One more query is popped.
note_ready-IsPopped :
    (q : ScheduledQuery) (table : Dict Text ScheduledQuery) (n : ℕ) (p : Popped)
    → Dict.has text_eq q.alias table ≡ true
    → IsPopped (Dict.delete text_eq q.alias table) n p
    → IsPopped table n (note_ready q p)
unfolding note_ready
note_ready-IsPopped q table n p h v = record {
  registered = v.registered;
  unique = v.unique;
  made = v.made;
  sorted = v.sorted;
  shrunk = λ alias e. v.shrunk alias (get-delete-none q.alias alias table e);
  free = (v.shrunk q.alias (get-delete_self q.alias table), v.free);
  taken = (h, taken-delete q.alias table p.schedule_rescue v.taken);
  distinct = (AreOther-delete q.alias table p.schedule_rescue v.taken, v.distinct);
}

-- The first query of the heap, if it is not cancelled, is in the table.
registered-head :
    (q : ScheduledQuery) (table : Dict Text ScheduledQuery)
    → q.cancelled ≡ false
    → is_registered table q ≡ true
    → (r : ScheduledQuery) × (Dict.get text_eq q.alias table ≡ some r) × (r.id ≡ q.id)
unfolding is_registered
registered-head q table c v = elim (Option-cases (Dict.get text_eq q.alias table)) [
  | inl e ↦ ground (arith, c, e, v)
  | inr (r, e) ↦ (r, e, ground (arith, c, e, v))
]

-- Nothing is popped.
abbrev waiting : Dict Text ScheduledQuery → List ScheduledQuery → Option ScheduledQuery → Popped
waiting table h next = record {
  table = table;
  heap = h;
  ready_types = [];
  schedule_rescue = [];
  next_scheduled = next;
}

waiting-IsPopped :
    (n : ℕ) (table : Dict Text ScheduledQuery) (h : List ScheduledQuery)
    (next : Option ScheduledQuery)
    → AreRegistered table h
    → IsUnique h
    → All (λ q. q.id < n) h
    → IsSorted h
    → IsPopped table n (waiting table h next)
waiting-IsPopped n table h next a u m o = record {
  registered = a;
  unique = u;
  made = m;
  sorted = o;
  shrunk = λ alias e. e;
  free = tt;
  taken = tt;
  distinct = tt;
}

pub pop_ready_queries-IsPopped :
    (end_ n : ℕ) (table : Dict Text ScheduledQuery) (h : List ScheduledQuery)
    → AreRegistered table h
    → IsUnique h
    → All (λ q. q.id < n) h
    → IsSorted h
    → (p : Popped) × (pop_ready_queries end_ table h ≡ some p) × IsPopped table n p
unfolding pop_ready_queries
pop_ready_queries-IsPopped end_ n table [] a u m o =
    (waiting table [] none, refl, waiting-IsPopped n table [] none a u m o)
pop_ready_queries-IsPopped end_ n table (q ∷ h) (v, a) (w, u) (b, m) (le, o) =
    elim (Bool-cases q.cancelled) [
      | inl c ↦
          let (p, f, k) = pop_ready_queries-IsPopped end_ n table h a u m o in
          (p, ground (arith, c, f), k)
      | inr c ↦ elim (Bool-cases (ltb end_ q.when_millis)) [
        | inl l ↦ (
          waiting table (q ∷ h) (some q),
          ground (arith, c, l),
          waiting-IsPopped n table (q ∷ h) (some q) (v, a) (w, u) (b, m) (le, o),
        )
        | inr l ↦
            let (r, e, i) = registered-head q table c v in
            let (p, f, k) =
              pop_ready_queries-IsPopped end_ n (Dict.delete text_eq q.alias table) h
                (AreRegistered-delete q r table h e i w a) u m o in
            let has : Dict.has text_eq q.alias table ≡ true = rw (Dict.has, e) refl in
            (note_ready q p, ground (arith, c, l, has, f), note_ready-IsPopped q table n p has k)
      ]
    ]
