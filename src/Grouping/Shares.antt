-- ===== src/Grouping/Shares.antt =====
-- How a grouping of queries shares the questions out to its buckets.
use lscamoflash.Grouping.Buckets.{
  Asked, Contents, IsGrouping, IsPacked, IsSized, add_to_bucket-IsPacked, all_asked, count_if,
  count_if-append, new-IsPacked, pair_of,
}
use lscamoflash.Prelude.Dict.{Dict}
use lscamoflash.Dns.{Question, Record}
use lscamoflash.Grouping.{
  Query, add_to_bucket, max_bucket_size, new_bucket, place, place_all, query_buckets, sized_queries,
  sorted_by_size, insert_by_size,
}
use lscamoflash.Prelude.{
  ℕ, All, Bool, Bool-cases, List, [], append-nil, arith, inl, inr, map, refl, ◌++◌, ◌∙◌, ◌∷◌, ◌≡◌,
}
use lscamoflash.Prelude.Int.{◌+ℤ◌, leb_ℤ}

place-IsGrouping :
    (now : ℕ) (multicast : Bool) (q : Query) (cs : Contents)
    → IsSized q
    → All (λ x. IsPacked now x.0 x.1) cs
    → IsGrouping now (pair_of q ∷ all_asked cs) (place now multicast q (map (λ x. x.1) cs))
unfolding place count_if
place-IsGrouping now multicast q [] size a = record {
  contents = (pair_of q ∷ [], add_to_bucket q (new_bucket now multicast)) ∷ [];
  made_of = refl;
  packed = (new-IsPacked now multicast q size, tt);
  shared = λ p. refl;
}
place-IsGrouping now multicast q ((qs, b) ∷ cs) size (v, a) =
    elim (Bool-cases (leb_ℤ (b.bytes +ℤ q.query_size) max_bucket_size)) [
      | inl e ↦ record {
        contents = (qs ++ (pair_of q ∷ []), add_to_bucket q b) ∷ cs;
        made_of = rw (place, e) refl;
        packed = (add_to_bucket-IsPacked now q qs b size e v, a);
        shared = λ p. ground (
          arith,
          count_if-append p (qs ++ (pair_of q ∷ [])) (all_asked cs),
          count_if-append p qs (pair_of q ∷ []),
          count_if-append p qs (all_asked cs),
        );
      }
      | inr e ↦
          let w = place-IsGrouping now multicast q cs size a in
          record {
            contents = (qs, b) ∷ w.contents;
            made_of = rw (place, e) (rw (w.made_of) refl);
            packed = (v, w.packed);
            shared = λ p. ground (
              arith,
              count_if-append p qs (all_asked w.contents),
              count_if-append p qs (all_asked cs),
              w.shared p,
            );
          }
    ]

place_all-IsGrouping :
    (now : ℕ) (multicast : Bool) (qs : List Query) (cs : Contents)
    → All IsSized qs
    → All (λ x. IsPacked now x.0 x.1) cs
    → IsGrouping now
        (map pair_of qs ++ all_asked cs)
        (place_all now multicast qs (map (λ x. x.1) cs))
unfolding place_all count_if
place_all-IsGrouping now multicast [] cs s a = record {
  contents = cs;
  made_of = refl;
  packed = a;
  shared = λ p. refl;
}
place_all-IsGrouping now multicast (q ∷ qs) cs (size, s) a =
    let v = place-IsGrouping now multicast q cs size a in
    let w = place_all-IsGrouping now multicast qs v.contents s v.packed in
    record {
      contents = w.contents;
      made_of = w.made_of ∙ rw (v.made_of) refl;
      packed = w.packed;
      shared = λ p. ground (
        arith,
        w.shared p,
        v.shared p,
        count_if-append p (map pair_of qs) (all_asked v.contents),
        count_if-append p (map pair_of qs) (all_asked cs),
      );
    }

insert_by_size-IsSized :
    (q : Query) (qs : List Query) → IsSized q → All IsSized qs → All IsSized (insert_by_size q qs)
unfolding insert_by_size
insert_by_size-IsSized q [] h a = (h, tt)
insert_by_size-IsSized q (r ∷ qs) h (k, a) = elim (Bool-cases (leb_ℤ r.query_size q.query_size)) [
  | inl e ↦ rw (insert_by_size, e) (h, (k, a))
  | inr e ↦ rw (insert_by_size, e) (k, insert_by_size-IsSized q qs h a)
]

sorted-IsSized : (m : List Asked) → All IsSized (sorted_by_size (sized_queries m))
unfolding sorted_by_size sized_queries
sorted-IsSized [] = tt
sorted-IsSized ((q, known) ∷ m) =
    insert_by_size-IsSized _ (sorted_by_size (sized_queries m)) refl (sorted-IsSized m)

count_if-insert :
    (p : Asked → Bool) (q : Query) (qs : List Query)
    → count_if p (map pair_of (insert_by_size q qs)) ≡ count_if p (pair_of q ∷ map pair_of qs)
unfolding count_if insert_by_size
count_if-insert p q [] = refl
count_if-insert p q (r ∷ qs) = elim (Bool-cases (leb_ℤ r.query_size q.query_size)) [
  | inl e ↦ rw (e, insert_by_size) refl
  | inr e ↦ rw (e, insert_by_size) (ground (arith, count_if-insert p q qs))
]

count_if-sorted :
    (p : Asked → Bool) (m : List Asked)
    → count_if p (map pair_of (sorted_by_size (sized_queries m))) ≡ count_if p m
unfolding count_if sorted_by_size sized_queries
count_if-sorted p [] = refl
count_if-sorted p ((q, known) ∷ m) =
    count_if-insert p _ (sorted_by_size (sized_queries m)) ∙ ground (arith, count_if-sorted p m)

-- The buckets of a grouping share out the given questions with their known answers, each as often as
-- it is given. A bucket asks the questions that it is made of and tells their known answers that have
-- not expired, in order; it counts their sizes, and they are within 1448 bytes unless the bucket has
-- one question alone.
pub query_buckets-IsGrouping :
    (now : ℕ) (multicast : Bool) (m : Dict Question (List Record))
    → IsGrouping now m (query_buckets now multicast m)
unfolding query_buckets
query_buckets-IsGrouping now multicast m =
    let qs = sorted_by_size (sized_queries m) in
    let w = place_all-IsGrouping now multicast qs [] (sorted-IsSized m) tt in
    record {
      contents = w.contents;
      made_of = w.made_of;
      packed = w.packed;
      shared = λ p. w.shared p ∙ rw (append-nil (map pair_of qs)) (count_if-sorted p m);
    }
