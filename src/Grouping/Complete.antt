-- ===== src/Grouping/Complete.antt =====
-- The questions of the messages that a grouping of queries makes.
use lscamoflash.Grouping.Buckets.{add_answers_at-questions}
use lscamoflash.Prelude.Dict.{Dict, keys}
use lscamoflash.Grouping.{
  Bucket, Query, add_to_bucket, group_ptr_queries, insert_by_size, max_bucket_size, new_bucket,
  place, place_all, query_buckets, sized_queries, sorted_by_size,
}
use lscamoflash.Outgoing.{DnsOutgoing, add_question}
use lscamoflash.Dns.{Question, Record}
use lscamoflash.Prelude.{
  ℕ, Bool, Bool-cases, List, [], arith, if◌then◌else◌, inl, inr, map, refl, ◌++◌, ◌+◌, ◌∙◌, ◌∷◌,
  ◌≡◌,
}
use lscamoflash.Prelude.Int.{leb_ℤ, ◌+ℤ◌}

-- How many questions of a list meet a test
unfoldable pub count_by : (Question → Bool) → List Question → ℕ
count_by p [] = 0
count_by p (q ∷ qs) = if p q then 1 + count_by p qs else count_by p qs

-- How many questions of all messages do
unfoldable pub count_asked : (Question → Bool) → List DnsOutgoing → ℕ
unfolding count_by
count_asked p [] = 0
count_asked p (o ∷ os) = count_by p o.questions + count_asked p os

count_sized : (Question → Bool) → List Query → ℕ
count_sized p [] = 0
count_sized p (q ∷ qs) = if p q.question then 1 + count_sized p qs else count_sized p qs

abbrev outs_of : List Bucket → List DnsOutgoing
outs_of = map (λ b. b.out)

count_by-snoc :
    (p : Question → Bool) (q : Question) (qs : List Question)
    → count_by p (qs ++ (q ∷ [])) ≡ (if p q then 1 + count_by p qs else count_by p qs)
unfolding count_by
count_by-snoc p q [] = refl
count_by-snoc p q (x ∷ qs) = ground (arith, count_by-snoc p q qs)

count_by-add_to_bucket :
    (p : Question → Bool) (q : Query) (b : Bucket)
    → count_by p (add_to_bucket q b).out.questions
      ≡ (if p q.question then 1 + count_by p b.out.questions else count_by p b.out.questions)
unfolding add_to_bucket add_question
count_by-add_to_bucket p q b =
    rw (add_answers_at-questions b.now_millis q.known_answers (add_question q.question b.out))
      (count_by-snoc p q.question b.out.questions)

none_asked : (p : Question → Bool) → count_by p [] ≡ 0
unfolding count_by
none_asked p = refl

count_asked-place :
    (p : Question → Bool) (now : ℕ) (multicast : Bool) (q : Query) (bs : List Bucket)
    → count_asked p (outs_of (place now multicast q bs))
      ≡ (if p q.question then 1 + count_asked p (outs_of bs) else count_asked p (outs_of bs))
unfolding place count_asked
count_asked-place p now multicast q [] =
    ground (arith, count_by-add_to_bucket p q (new_bucket now multicast), none_asked p)
count_asked-place p now multicast q (b ∷ bs) =
    elim (Bool-cases (leb_ℤ (b.bytes +ℤ q.query_size) max_bucket_size)) [
      | inl e ↦ rw (e, place) (ground (arith, count_by-add_to_bucket p q b))
      | inr e ↦ rw (e, place) (ground (arith, count_asked-place p now multicast q bs))
    ]

count_asked-place_all :
    (p : Question → Bool) (now : ℕ) (multicast : Bool) (qs : List Query) (bs : List Bucket)
    → count_asked p (outs_of (place_all now multicast qs bs))
      ≡ count_sized p qs + count_asked p (outs_of bs)
unfolding place_all count_sized
count_asked-place_all p now multicast [] bs = omega arith
count_asked-place_all p now multicast (q ∷ qs) bs = ground (
  arith,
  count_asked-place_all p now multicast qs (place now multicast q bs),
  count_asked-place p now multicast q bs,
)

count_sized-insert :
    (p : Question → Bool) (q : Query) (qs : List Query)
    → count_sized p (insert_by_size q qs)
      ≡ (if p q.question then 1 + count_sized p qs else count_sized p qs)
unfolding count_sized insert_by_size
count_sized-insert p q [] = refl
count_sized-insert p q (x ∷ qs) = elim (Bool-cases (leb_ℤ x.query_size q.query_size)) [
  | inl e ↦ rw (e, insert_by_size)
  | inr e ↦ rw (e, insert_by_size) (ground (arith, count_sized-insert p q qs))
]

count_sized-sorted :
    (p : Question → Bool) (m : Dict Question (List Record))
    → count_sized p (sorted_by_size (sized_queries m)) ≡ count_by p (keys m)
unfolding count_sized count_by sorted_by_size sized_queries
count_sized-sorted p [] = refl
count_sized-sorted p ((q, as') ∷ m) =
    count_sized-insert p _ (sorted_by_size (sized_queries m))
    ∙ ground (arith, count_sized-sorted p m)

-- The messages of a grouping ask the questions that are given, each as often as it is given: for any
-- test, as many questions of the messages meet it as of the given ones.
pub count_asked-group_ptr_queries :
    (p : Question → Bool) (now : ℕ) (multicast : Bool) (m : Dict Question (List Record))
    → count_asked p (group_ptr_queries now multicast m) ≡ count_by p (keys m)
unfolding group_ptr_queries query_buckets
count_asked-group_ptr_queries p now multicast m =
    count_asked-place_all p now multicast (sorted_by_size (sized_queries m)) []
    ∙ unfold count_asked in omega (arith, count_sized-sorted p m)
