-- ===== src/Grouping/Questions.antt =====
-- The questions that `generate_service_query` asks, and those that the question history holds back.
use lscamoflash.Grouping.Complete.{count_asked, count_asked-group_ptr_queries, count_by}
use lscamoflash.Outgoing.{DnsOutgoing}
use lscamoflash.History.{QuestionHistory, add_question_at_time, suppresses}
use lscamoflash.Cache.{DnsCache}
use lscamoflash.Dns.{Question, Record, question_eq}
use lscamoflash.Prelude.Dict.{Dict, keys}
use lscamoflash.Grouping.{
  collect_questions, known_pointers, type_question, QuestionType, generate_service_query, is_qu,
}
use lscamoflash.History.Suppression.{
  suppresses-add_question, get-insert_by_question, question_eq_self,
}
use lscamoflash.Prelude.{
  ℕ, Bool, Bool-cases, List, Text, [], arith, false, inl, inr, not, text_eq, text_eq_iff, true,
  ◌&&◌, ◌||◌, ◌∙◌, ◌∷◌, ◌≡◌, any_of, if◌then◌else◌, refl, Option, leb, ◌≤◌,
}
use lscamoflash.Prelude.Dict

module _ (now : ℕ) (unicast : Bool) (c : DnsCache) where
  -- The question history holds the question for a type back.
  unfoldable pub is_held_back : QuestionHistory → Text → Bool
  unfolding type_question known_pointers suppresses
  is_held_back h t =
      not unicast && suppresses (type_question unicast t) now (known_pointers now t c) h

  unfoldable pub has_question : Dict Question (List Record) → Text → Bool
  unfolding type_question Dict.has
  has_question m t = Dict.has question_eq (type_question unicast t) m

  -- What is held back later was held back at first, or is asked.
  IsHeld : QuestionHistory → Dict Question (List Record) → QuestionHistory → Type 0
  IsHeld first m h =
      (t : Text) → is_held_back h t ≡ true → (has_question m t || is_held_back first t) ≡ true

  has-insert :
      (t u : Text) (known : List Record) (m : Dict Question (List Record))
      → has_question (Dict.insert question_eq (type_question unicast u) known m) t
        ≡ (question_eq (type_question unicast u) (type_question unicast t) || has_question m t)
  unfolding has_question
  has-insert t u known m =
      ground
        (arith, get-insert_by_question (type_question unicast u) (type_question unicast t) known m)

  same_question :
      (t u : Text)
      → text_eq t u ≡ true
      → (t ≡ u) × (question_eq (type_question unicast u) (type_question unicast t) ≡ true)
  same_question t u e =
      let same : t ≡ u = ground (arith, text_eq_iff t u, e) in
      (same, rw same (question_eq_self (type_question unicast u)))

  held-add :
      (t u : Text) (h : QuestionHistory)
      → question_eq (type_question unicast u) (type_question unicast t) ≡ false
      → is_held_back
          (add_question_at_time (type_question unicast u) now (known_pointers now u c) h)
          t
        ≡ is_held_back h t
  unfolding is_held_back
  held-add t u h d = ground (
    arith,
    d,
    (suppresses-add_question (type_question unicast u) (type_question unicast t) now now
        (known_pointers now u c) (known_pointers now t c) h).1,
  )

  -- The dict and the history behind one type
  with_type : QuestionHistory → Dict Question (List Record) → Text → Dict Question (List Record)
  unfolding is_held_back
  with_type h m u =
      if is_held_back h u
      then m
      else Dict.insert question_eq (type_question unicast u) (known_pointers now u c) m

  after_type : QuestionHistory → Text → QuestionHistory
  unfolding is_held_back
  after_type h u =
      if is_held_back h u || unicast
      then h
      else add_question_at_time (type_question unicast u) now (known_pointers now u c) h

  collect_step :
      (u : Text) (ts : List Text) (m : Dict Question (List Record)) (h : QuestionHistory)
      → collect_questions now unicast (u ∷ ts) c h m
        ≡ collect_questions now unicast ts c (after_type h u) (with_type h m u)
  unfolding collect_questions with_type after_type is_held_back
  collect_step u ts m h = refl

  with_type-has :
      (t u : Text) (m : Dict Question (List Record)) (h : QuestionHistory)
      → has_question (with_type h m u) t ≡ (
          if is_held_back h u
          then has_question m t
          else question_eq (type_question unicast u) (type_question unicast t) || has_question m t)
  unfolding with_type
  with_type-has t u m h = ground (arith, has-insert t u (known_pointers now u c) m)

  collect-has :
      (ts : List Text) (t : Text) (m : Dict Question (List Record)) (h : QuestionHistory)
      → has_question m t ≡ true
      → has_question (collect_questions now unicast ts c h m).0 t ≡ true
  collect-has [] t m h e = unfold collect_questions in e
  collect-has (u ∷ ts) t m h e = rw (collect_step u ts m h) (
      collect-has ts t (with_type h m u) (after_type h u)
        (with_type-has t u m h ∙ ground (arith, e)))

  after_type-IsHeld :
      (u : Text) (first : QuestionHistory) (m : Dict Question (List Record)) (h : QuestionHistory)
      → IsHeld first m h
      → IsHeld first (with_type h m u) (after_type h u)
  unfolding IsHeld after_type
  after_type-IsHeld u first m h v t e =
      ground (arith, e, v t, with_type-has t u m h, held-add t u h)

  collect-asked :
      (ts : List Text) (t : Text) (first : QuestionHistory) (m : Dict Question (List Record))
      (h : QuestionHistory)
      → any_of (text_eq t) ts ≡ true
      → IsHeld first m h
      → (has_question (collect_questions now unicast ts c h m).0 t || is_held_back first t) ≡ true
  unfolding IsHeld
  collect-asked [] t first m h e v = ground (arith, e)
  collect-asked (u ∷ ts) t first m h e v = elim (Bool-cases (text_eq t u)) [
    | inl x ↦
        let (same, equal) = same_question t u x in
        elim (Bool-cases (is_held_back h u)) [
          | inl k ↦ elim (Bool-cases (has_question m t)) [
            | inl y ↦ ground (arith, collect-has (u ∷ ts) t m h y)
            | inr y ↦ ground (arith, v t, y, k, same)
          ]
          | inr k ↦
              let here : has_question (with_type h m u) t ≡ true =
                with_type-has t u m h ∙ ground (arith, k, equal) in
              rw (collect_step u ts m h)
                (ground (arith, collect-has ts t (with_type h m u) (after_type h u) here))
        ]
    | inr x ↦ rw (collect_step u ts m h) (
        collect-asked ts t first (with_type h m u) (after_type h u) (ground (arith, e, x))
          (after_type-IsHeld u first m h v))
  ]

  IsHeld-at_first : (h : QuestionHistory) → IsHeld h [] h
  unfolding IsHeld
  IsHeld-at_first h t e = ground (arith, e)

has-count :
    (k : Question) (m : Dict Question (List Record))
    → Dict.has question_eq k m ≡ true
    → 1 ≤ count_by (λ x. question_eq x k) (keys m)
unfolding Dict.has Dict.get count_by
has-count k [] e = ground (arith, e)
has-count k ((q, known) ∷ m) e = ground (arith, e, has-count k m)

-- How many questions of the messages are the one for a type
abbrev pub times_asked : Bool → Text → List DnsOutgoing → ℕ
times_asked unicast t outs = count_asked (λ x. question_eq x (type_question unicast t)) outs

pub generate_asked :
    (now : ℕ) (ts : List Text) (t : Text) (multicast : Bool) (o : Option QuestionType)
    (c : DnsCache) (h : QuestionHistory)
    → any_of (text_eq t) ts ≡ true
    → (leb 1 (times_asked (is_qu multicast o) t (generate_service_query now ts multicast o c h).0)
        || is_held_back now (is_qu multicast o) c h t)
      ≡ true
unfolding generate_service_query has_question
generate_asked now ts t multicast o c h e =
    let unicast = is_qu multicast o in
    let m = (collect_questions now unicast ts c h []).0 in
    ground (
      arith,
      collect-asked now unicast c ts t h [] h e (IsHeld-at_first now unicast c h),
      count_asked-group_ptr_queries (λ x. question_eq x (type_question unicast t)) now multicast m,
      has-count (type_question unicast t) m,
    )
