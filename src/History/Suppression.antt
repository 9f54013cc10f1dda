-- ===== src/History/Suppression.antt =====
-- When `QuestionHistory` suppresses a question, and what `async_expire` forgets.
use lscamoflash.History.{
  QuestionHistory, add_question_at_time, async_expire, delete_all, difference, expired_questions,
  is_empty, suppresses,
}
use lscamoflash.Prelude.Dict.{Dict}
use lscamoflash.Dns.{Question, Record, entry_matches, question_eq, record_eq}
use lscamoflash.Prelude.Dict
use lscamoflash.Prelude.{
  ℕ, All, Bool, List, Option-cases, Text, [], any_of, arith, false, if◌then◌else◌, inl, inr, ltb,
  none, refl, some, text_eq_iff, true, ◌+◌, ◌↔◌, ◌∷◌, ◌≡◌, ◌≤◌,
}

-- What a question is compared and hashed by
abbrev Asked : Type 0
Asked = Text × ℕ × ℕ

asked : Question → Asked
asked q = (q.key, q.type, q.class_)

question_eq_iff : (a b : Question) → (question_eq a b ≡ true) ↔ (asked a ≡ asked b)
unfolding question_eq entry_matches asked
question_eq_iff a b = ground (arith, text_eq_iff a.key b.key)

pub question_eq_self : (q : Question) → question_eq q q ≡ true
question_eq_self q = ground (arith, question_eq_iff q q)

pub get-insert_by_question :
    {V : Type 0} (k j : Question) (v : V) (m : Dict Question V)
    → Dict.get question_eq j (Dict.insert question_eq k v m)
      ≡ (if question_eq k j then some v else Dict.get question_eq j m)
get-insert_by_question k j v m = Dict.get-insert question_eq asked question_eq_iff k j v m

get-delete_question :
    (k j : Question) (h : QuestionHistory)
    → Dict.get question_eq j (Dict.delete question_eq k h)
      ≡ (if question_eq k j then none else Dict.get question_eq j h)
get-delete_question k j h = Dict.get-delete question_eq asked question_eq_iff k j h

-- Every record of the one list is in the other.
abbrev pub IsSubset : List Record → List Record → Type 0
IsSubset a b = All (λ r. any_of (record_eq r) b ≡ true) a

difference-IsSubset : (a b : List Record) → (is_empty (difference a b) ≡ true) ↔ IsSubset a b
unfolding difference is_empty
difference-IsSubset [] b = ground arith
difference-IsSubset (r ∷ a) b = ground (arith, difference-IsSubset a b)

-- A question that was asked at `than` with known answers is suppressed exactly while at most 999 ms
-- have passed and every known answer of then is known now; another question is judged as before.
pub suppresses-add_question :
    (q q' : Question) (than now : ℕ) (previous known : List Record) (h : QuestionHistory)
    → (question_eq q q' ≡ true
        → (suppresses q' now known (add_question_at_time q than previous h) ≡ true)
          ↔ ((now ≤ than + 999) × IsSubset previous known))
      × (question_eq q q' ≡ false
          → suppresses q' now known (add_question_at_time q than previous h)
            ≡ suppresses q' now known h)
unfolding suppresses add_question_at_time
suppresses-add_question q q' than now previous known h =
    ground
      (arith, get-insert_by_question q q' (than, previous) h, difference-IsSubset previous known)

-- A history with one entry for each question, as a dict has
abbrev pub IsDict : QuestionHistory → Type 0
IsDict [] = Unit {0}
IsDict ((q, v) ∷ h) = (Dict.get question_eq q h ≡ none) × IsDict h

-- Whether an entry is too old to suppress
abbrev pub is_old : ℕ → ℕ × List Record → Bool
is_old now v = ltb (v.0 + 999) now

get-delete_all :
    (qs : List Question) (j : Question) (h : QuestionHistory)
    → Dict.get question_eq j (delete_all qs h)
      ≡ (if any_of (λ q. question_eq q j) qs then none else Dict.get question_eq j h)
unfolding delete_all
get-delete_all [] j h = refl
get-delete_all (q ∷ qs) j h =
    ground (arith, get-delete_all qs j (Dict.delete question_eq q h), get-delete_question q j h)

any_of-expired :
    (now : ℕ) (j : Question) (h : QuestionHistory)
    → IsDict h
    → any_of (λ q. question_eq q j) (expired_questions now h)
      ≡ (elim (Dict.get question_eq j h) [ none ↦ false | some v ↦ is_old now v ])
unfolding expired_questions Dict.get
any_of-expired now j [] d = refl
any_of-expired now j ((q, v) ∷ h) (new, d) = ground (
  arith,
  any_of-expired now j h d,
  Dict.get_congr question_eq asked question_eq_iff q j h,
  question_eq_iff q j,
)

-- `async_expire` forgets exactly the questions that were asked more than 999 ms ago.
pub get-async_expire :
    (now : ℕ) (j : Question) (h : QuestionHistory)
    → IsDict h
    → Dict.get question_eq j (async_expire now h) ≡ (elim (Dict.get question_eq j h) [
      | none ↦ none
      | some v ↦ if is_old now v then none else some v
    ])
unfolding async_expire
get-async_expire now j h d = elim (Option-cases (Dict.get question_eq j h)) [
  | inl e ↦ ground (arith, e, get-delete_all (expired_questions now h) j h)
  | inr (v, e) ↦
      ground (arith, e, get-delete_all (expired_questions now h) j h, any_of-expired now j h d)
]
