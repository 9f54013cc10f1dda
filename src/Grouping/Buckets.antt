-- ===== src/Grouping/Buckets.antt =====
-- The buckets of a grouping of queries: what each one asks, tells and counts.
use lscamoflash.Dns.{Question, Record, is_expired, question_max_size}
use lscamoflash.Outgoing.{DnsOutgoing, add_answer_at_time, add_question, init_outgoing}
use lscamoflash.Grouping.{
  Bucket, Query, add_answers_at, add_to_bucket, max_bucket_size, new_bucket, sum_sizes,
}
use lscamoflash.Prelude.{
  ℕ, All, Bool, Bool-cases, List, [], append-nil, append_assoc, arith, if◌then◌else◌, inl, inr,
  length, map, not, refl, some, sym, true, ◌++◌, ◌==◌, ◌||◌, ◌∙◌, ◌∷◌, ◌≡◌, ◌⊎◌, concat_all, ◌+◌,
}
use lscamoflash.Prelude.Int.{pos, ◌≤ℤ◌, ◌+ℤ◌, leb_ℤ, ℤ}

-- A question with its known answers
abbrev pub Asked : Type 0
Asked = Question × List Record

-- The known answers that are sent: those that have not expired
unfoldable pub live : ℕ → List Record → List (Record × ℕ)
live now [] = []
live now (r ∷ rs) =
    if (now == 0) || not (is_expired r now) then (r, now) ∷ live now rs else live now rs

unfoldable pub live_answers : ℕ → List Asked → List (Record × ℕ)
unfolding live
live_answers now [] = []
live_answers now ((q, known) ∷ qs) = live now known ++ live_answers now qs

-- The sizes of the questions and of all their known answers
unfoldable pub total_size : ℤ → List Asked → ℤ
unfolding question_max_size sum_sizes
total_size n [] = n
total_size n ((q, known) ∷ qs) = total_size (n +ℤ (pos (question_max_size q) +ℤ sum_sizes known)) qs

-- A bucket made of some questions and their known answers, in order. It counts their sizes, which are
-- within its limit, unless it has one question.
pub record IsPacked (now : ℕ) (qs : List Asked) (b : Bucket) : Type 0 where
  pub same_time : b.now_millis ≡ now
  pub asks : b.out.questions ≡ map (λ x. x.0) qs
  pub tells : b.out.answers ≡ live_answers now qs
  pub counted : b.bytes ≡ total_size (pos 0) qs
  pub fits : (b.bytes ≤ℤ pos 1448) ⊎ (length qs ≡ 1)

-- How many members of a list meet a test
unfoldable pub count_if : (Asked → Bool) → List Asked → ℕ
count_if p [] = 0
count_if p (x ∷ xs) = if p x then 1 + count_if p xs else count_if p xs

-- What some buckets are made of
abbrev pub Contents : Type 0
Contents = List (List Asked × Bucket)

abbrev pub all_asked : Contents → List Asked
all_asked cs = concat_all (map (λ x. x.0) cs)

-- Some buckets that share out the questions and their known answers: each is in them as often as in
-- the list.
pub record IsGrouping (now : ℕ) (qs : List Asked) (bs : List Bucket) : Type 0 where
  pub contents : Contents
  pub made_of : map (λ x. x.1) contents ≡ bs
  pub packed : All (λ x. IsPacked now x.0 x.1) contents
  pub shared : (p : Asked → Bool) → count_if p (all_asked contents) ≡ count_if p qs

pub add_answers_at-questions :
    (now : ℕ) (rs : List Record) (o : DnsOutgoing)
    → (add_answers_at now rs o).questions ≡ o.questions
unfolding add_answers_at add_answer_at_time
add_answers_at-questions now [] o = refl
add_answers_at-questions now (r ∷ rs) o =
    add_answers_at-questions now rs (add_answer_at_time (some r) now o) ∙ ground arith

add_answers_at-answers :
    (now : ℕ) (rs : List Record) (o : DnsOutgoing)
    → (add_answers_at now rs o).answers ≡ o.answers ++ live now rs
unfolding add_answers_at add_answer_at_time live
add_answers_at-answers now [] o = sym (append-nil o.answers)
add_answers_at-answers now (r ∷ rs) o =
    add_answers_at-answers now rs (add_answer_at_time (some r) now o)
    ∙ elim (Bool-cases ((now == 0) || not (is_expired r now))) [
      | inl e ↦ rw e (append_assoc o.answers ((r, now) ∷ []) (live now rs))
      | inr e ↦ rw e
    ]

map-snoc :
    (qs : List Asked) (q : Asked)
    → map (λ x. x.0) (qs ++ (q ∷ [])) ≡ map (λ x. x.0) qs ++ (q.0 ∷ [])
map-snoc [] q = refl
map-snoc (x ∷ qs) q = rw (map-snoc qs q) refl

live_answers-snoc :
    (now : ℕ) (qs : List Asked) (q : Asked)
    → live_answers now (qs ++ (q ∷ [])) ≡ live_answers now qs ++ live now q.1
unfolding live_answers
live_answers-snoc now [] q = append-nil (live now q.1)
live_answers-snoc now (x ∷ qs) q =
    rw (live_answers-snoc now qs q)
      (sym (append_assoc (live now x.1) (live_answers now qs) (live now q.1)))

total_size-snoc :
    (n : ℤ) (qs : List Asked) (q : Asked)
    → total_size n (qs ++ (q ∷ []))
      ≡ total_size n qs +ℤ (pos (question_max_size q.0) +ℤ sum_sizes q.1)
unfolding total_size
total_size-snoc n [] q = refl
total_size-snoc n (x ∷ qs) q =
    total_size-snoc (n +ℤ (pos (question_max_size x.0) +ℤ sum_sizes x.1)) qs q

pub count_if-append :
    (p : Asked → Bool) (xs ys : List Asked) → count_if p (xs ++ ys) ≡ count_if p xs + count_if p ys
unfolding count_if
count_if-append p [] ys = omega arith
count_if-append p (x ∷ xs) ys = ground (arith, count_if-append p xs ys)

-- A query that has its size
abbrev pub IsSized : Query → Type 0
IsSized q = q.query_size ≡ pos (question_max_size q.question) +ℤ sum_sizes q.known_answers

abbrev pub pair_of : Query → Asked
pair_of q = (q.question, q.known_answers)

-- A query that fits joins the bucket.
pub add_to_bucket-IsPacked :
    (now : ℕ) (q : Query) (qs : List Asked) (b : Bucket)
    → IsSized q
    → leb_ℤ (b.bytes +ℤ q.query_size) max_bucket_size ≡ true
    → IsPacked now qs b
    → IsPacked now (qs ++ (pair_of q ∷ [])) (add_to_bucket q b)
unfolding add_to_bucket add_question
add_to_bucket-IsPacked now q qs b size room v = record {
  same_time = v.same_time;
  asks =
      add_answers_at-questions b.now_millis q.known_answers (add_question q.question b.out)
      ∙ rw (v.asks) (sym (map-snoc qs (pair_of q)));
  tells =
      add_answers_at-answers b.now_millis q.known_answers (add_question q.question b.out)
      ∙ rw (v.tells, v.same_time) (sym (live_answers-snoc now qs (pair_of q)));
  counted = rw (v.counted, size) (sym (total_size-snoc (pos 0) qs (pair_of q)));
  fits = inl (ground (arith, room));
}

pub new-IsPacked :
    (now : ℕ) (multicast : Bool) (q : Query)
    → IsSized q
    → IsPacked now (pair_of q ∷ []) (add_to_bucket q (new_bucket now multicast))
unfolding add_to_bucket add_question live_answers total_size
new-IsPacked now multicast q size =
    let o = add_question q.question (init_outgoing 0 multicast 0) in
    record {
      same_time = refl;
      asks = add_answers_at-questions now q.known_answers o;
      tells =
          add_answers_at-answers now q.known_answers o
          ∙ sym (append-nil (live now q.known_answers));
      counted = rw size refl;
      fits = inr refl;
    }
