-- ===== src/Query/Covered.antt =====
-- The records of a `QueryResponse` that are to be sent, against its additional records.
use lscamoflash.Dns.{Record, record_eq}
use lscamoflash.Cache.{DnsCache}
use lscamoflash.Prelude.Dict.{Dict, keys}
use lscamoflash.Answers.{AnswerSet, QuestionAnswers, update}
use lscamoflash.Services.{set_add, set_of}
use lscamoflash.Query.{
  QueryResponse, add_mcast_answer, add_mcast_answers, add_mcast_question_response, add_qu_answer,
  add_qu_question_response, add_ucast_question_response, has_mcast_record_in_last_second,
  has_mcast_within_one_quarter_ttl, responds_immediately, response_answers, with_additionals,
}
use lscamoflash.Dns.Equality.{hash_input, record_eq_iff}
use lscamoflash.Prelude.{
  ℕ, All, All-snoc, List, [], any_of, arith, false, refl, some, true, ◌||◌, ◌∷◌, ◌≡◌, Bool,
  if◌then◌else◌, ◌++◌,
}
use lscamoflash.Prelude.Dict

-- A record that `_additionals` has
abbrev pub IsKept : AnswerSet → Record → Type 0
IsKept m r = (additionals : List Record) × (Dict.get record_eq r m ≡ some additionals)

pub record IsCovered (p : QueryResponse) : Type 0 where
  pub ucast : All (IsKept p.additionals) p.ucast
  pub mcast_now : All (IsKept p.additionals) p.mcast_now
  pub mcast_aggregate : All (IsKept p.additionals) p.mcast_aggregate
  pub last_second : All (IsKept p.additionals) p.mcast_aggregate_last_second

-- What holds of both branches holds of the test.
pub if-both :
    {A : Type 0} (P : A → Type 0) (b : Bool) (x y : A) → P x → P y → P (if b then x else y)
if-both P true x y p q = p
if-both P false x y p q = q

All-mono :
    {P Q : Record → Type 0} → ((r : Record) → P r → Q r) → (rs : List Record) → All P rs → All Q rs
All-mono f [] a = tt
All-mono f (r ∷ rs) (x, a) = (f r x, All-mono f rs a)

All-set_add :
    (P : Record → Type 0) (r : Record) (s : List Record) → P r → All P s → All P (set_add r s)
unfolding set_add
All-set_add P r s x a =
    if-both (All P) (any_of (record_eq r) s) s (s ++ (r ∷ [])) a (All-snoc P s r a x)

All-set_of : (P : Record → Type 0) (rs s : List Record) → All P rs → All P s → All P (set_of rs s)
unfolding set_of
All-set_of P [] s x a = a
All-set_of P (r ∷ rs) s (x, xs) a = All-set_of P rs (set_add r s) xs (All-set_add P r s x a)

insert-IsKept :
    (k : Record) (v : List Record) (m : AnswerSet) → IsKept (Dict.insert record_eq k v m) k
insert-IsKept k v m = (
  v,
  rw (Dict.get-insert record_eq hash_input record_eq_iff k k v m)
      (ground (arith, record_eq_iff k k)),
)

insert-keeps :
    (k : Record) (v : List Record) (m : AnswerSet) (r : Record)
    → IsKept m r
    → IsKept (Dict.insert record_eq k v m) r
insert-keeps k v m r (x, e) = rw (Dict.get-insert record_eq hash_input record_eq_iff k r v m) (
    if-both (λ o. (y : List Record) × (o ≡ some y)) (record_eq k r) (some v)
      (Dict.get record_eq r m) (v, refl) (x, e))

update-keeps : (m b : AnswerSet) (r : Record) → IsKept m r → IsKept (update m b) r
unfolding update
update-keeps m [] r x = x
update-keeps m ((k, v) ∷ b) r x =
    update-keeps (Dict.insert record_eq k v m) b r (insert-keeps k v m r x)

update-IsKept : (m b : AnswerSet) → All (IsKept (update m b)) (keys b)
unfolding update
update-IsKept m [] = tt
update-IsKept m ((k, v) ∷ b) =
    let m' = Dict.insert record_eq k v m in
    (update-keeps m' b k (insert-IsKept k v m), update-IsKept m' b)

-- `_additionals` grows, and the lists stay.
grow :
    (p : QueryResponse) (m : AnswerSet)
    → ((r : Record) → IsKept p.additionals r → IsKept m r)
    → IsCovered p
    → IsCovered (record p { additionals = m })
grow p m f v = record {
  ucast = All-mono f p.ucast v.ucast;
  mcast_now = All-mono f p.mcast_now v.mcast_now;
  mcast_aggregate = All-mono f p.mcast_aggregate v.mcast_aggregate;
  last_second = All-mono f p.mcast_aggregate_last_second v.last_second;
}

add_qu_answer-IsCovered :
    (c : DnsCache) (now : ℕ) (r : Record) (extra : List Record) (p : QueryResponse)
    → IsCovered p
    → IsCovered (add_qu_answer c now (r, extra) p)
unfolding add_qu_answer
add_qu_answer-IsCovered c now r extra p v =
    let m = Dict.insert record_eq r extra p.additionals in
    let w = grow p m (insert-keeps r extra p.additionals) v in
    let k = insert-IsKept r extra p.additionals in
    record {
      ucast =
          if-both (All (IsKept m)) (p.is_probe || has_mcast_within_one_quarter_ttl c now r)
            (set_add r p.ucast) p.ucast (All-set_add (IsKept m) r p.ucast k w.ucast) w.ucast;
      mcast_now =
          if-both (All (IsKept m)) (has_mcast_within_one_quarter_ttl c now r) p.mcast_now
            (set_add r p.mcast_now) w.mcast_now
            (All-set_add (IsKept m) r p.mcast_now k w.mcast_now);
      mcast_aggregate = w.mcast_aggregate;
      last_second = w.last_second;
    }

pub add_qu_question_response-IsCovered :
    (c : DnsCache) (now : ℕ) (answers : AnswerSet) (p : QueryResponse)
    → IsCovered p
    → IsCovered (add_qu_question_response c now answers p)
unfolding add_qu_question_response
add_qu_question_response-IsCovered c now [] p v = v
add_qu_question_response-IsCovered c now ((r, extra) ∷ as') p v =
    add_qu_question_response-IsCovered c now as' (add_qu_answer c now (r, extra) p)
      (add_qu_answer-IsCovered c now r extra p v)

pub add_ucast_question_response-IsCovered :
    (answers : AnswerSet) (p : QueryResponse)
    → IsCovered p
    → IsCovered (add_ucast_question_response answers p)
unfolding add_ucast_question_response
add_ucast_question_response-IsCovered answers p v =
    let m = update p.additionals answers in
    let w = grow p m (update-keeps p.additionals answers) v in
    record {
      ucast =
          All-set_of (IsKept m) (keys answers) p.ucast (update-IsKept p.additionals answers)
            w.ucast;
      mcast_now = w.mcast_now;
      mcast_aggregate = w.mcast_aggregate;
      last_second = w.last_second;
    }

add_mcast_answer-IsCovered :
    (c : DnsCache) (now : ℕ) (r : Record) (p : QueryResponse)
    → IsKept p.additionals r
    → IsCovered p
    → IsCovered (add_mcast_answer c now r p)
      × ((add_mcast_answer c now r p).additionals ≡ p.additionals)
unfolding add_mcast_answer
add_mcast_answer-IsCovered c now r p k v =
    let add = All-set_add (IsKept p.additionals) r in
    let Q = λ (q : QueryResponse). IsCovered q × (q.additionals ≡ p.additionals) in
    let at_once = record p { mcast_now = set_add r p.mcast_now } in
    let later = record p {
      mcast_aggregate_last_second = set_add r p.mcast_aggregate_last_second;
    } in
    let aggregated = record p { mcast_aggregate = set_add r p.mcast_aggregate } in
    let q_once : Q at_once = (
      record {
        ucast = v.ucast;
        mcast_now = add p.mcast_now k v.mcast_now;
        mcast_aggregate = v.mcast_aggregate;
        last_second = v.last_second;
      },
      refl,
    ) in
    let q_later : Q later = (
      record {
        ucast = v.ucast;
        mcast_now = v.mcast_now;
        mcast_aggregate = v.mcast_aggregate;
        last_second = add p.mcast_aggregate_last_second k v.last_second;
      },
      refl,
    ) in
    let q_aggregated : Q aggregated = (
      record {
        ucast = v.ucast;
        mcast_now = v.mcast_now;
        mcast_aggregate = add p.mcast_aggregate k v.mcast_aggregate;
        last_second = v.last_second;
      },
      refl,
    ) in
    let immediate = responds_immediately p.questions in
    let rest = if immediate then at_once else aggregated in
    let recent = has_mcast_record_in_last_second c now r in
    if-both Q p.is_probe at_once (if recent then later else rest) q_once (
      if-both Q recent later rest q_later
        (if-both Q immediate at_once aggregated q_once q_aggregated))

add_mcast_answers-IsCovered :
    (c : DnsCache) (now : ℕ) (rs : List Record) (p : QueryResponse)
    → All (IsKept p.additionals) rs
    → IsCovered p
    → IsCovered (add_mcast_answers c now rs p)
unfolding add_mcast_answers
add_mcast_answers-IsCovered c now [] p a v = v
add_mcast_answers-IsCovered c now (r ∷ rs) p (k, a) v =
    let (w, e) = add_mcast_answer-IsCovered c now r p k v in
    add_mcast_answers-IsCovered c now rs (add_mcast_answer c now r p) (rw e a) w

pub add_mcast_question_response-IsCovered :
    (c : DnsCache) (now : ℕ) (answers : AnswerSet) (p : QueryResponse)
    → IsCovered p
    → IsCovered (add_mcast_question_response c now answers p)
unfolding add_mcast_question_response
add_mcast_question_response-IsCovered c now answers p v =
    let m = update p.additionals answers in
    add_mcast_answers-IsCovered c now (keys answers) (record p { additionals = m })
      (update-IsKept p.additionals answers) (grow p m (update-keeps p.additionals answers) v)

with_additionals_returns :
    (m : AnswerSet) (rs : List Record)
    → All (IsKept m) rs
    → (s : AnswerSet) × (with_additionals m rs ≡ some s)
unfolding with_additionals
with_additionals_returns m [] a = ([], refl)
with_additionals_returns m (r ∷ rs) ((x, e), a) =
    let (s, f) = with_additionals_returns m rs a in
    ((r, x) ∷ s, rw (e, with_additionals) (rw f refl))

-- Of a response that is covered, `answers` raises no KeyError.
pub response_answers_returns :
    (p : QueryResponse) → IsCovered p → (a : QuestionAnswers) × (response_answers p ≡ some a)
unfolding response_answers
response_answers_returns p v =
    let (u, eu) = with_additionals_returns p.additionals p.ucast v.ucast in
    let (n, en) = with_additionals_returns p.additionals p.mcast_now v.mcast_now in
    let (g, eg) = with_additionals_returns p.additionals p.mcast_aggregate v.mcast_aggregate in
    let (l, el) =
      with_additionals_returns p.additionals p.mcast_aggregate_last_second v.last_second in
    (
      record { ucast = u; mcast_now = n; mcast_aggregate = g; mcast_aggregate_last_second = l },
      rw eu (rw en (rw eg (rw el refl))),
    )
