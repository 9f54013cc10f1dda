-- ===== src/Info/Pacing.antt =====
-- The times at which `ServiceInfo.async_request` asks.
use lscamoflash.Services.{ServiceInfo}
use lscamoflash.Cache.{DnsCache}
use lscamoflash.Const.{listener_time}
use lscamoflash.Info.{Resolver, is_complete, load_from_cache}
use lscamoflash.Prelude.{
  ℕ, Bool, List, Option, [], arith, false, if◌then◌else◌, true, ◌+◌, ◌||◌, ◌∷◌, ◌≤◌, All,
  Bool-cases, inl, inr, leb,
}
use lscamoflash.Grouping.{QuestionType}
use lscamoflash.Info.Request.{
  Request, Wake, is_qm, after_ask, request_round, run_rounds, async_request, this_question_type,
  ask,
}

-- The least time between two questions: the delay and the least random delay, after a multicast
-- question was asked earlier and before
abbrev pub least_gap : Bool → ℕ
least_gap true = 1019
least_gap false = 220

-- Consecutive questions are that far apart, from a time on.
unfoldable pub IsPacedFrom : Bool → ℕ → List (ℕ × QuestionType) → Type 0
IsPacedFrom seen from [] = Unit {0}
IsPacedFrom seen from ((t, q) ∷ qs) =
    (from ≤ t) × IsPacedFrom (seen || is_qm q) (t + least_gap seen) qs

abbrev pub IsPaced : List (ℕ × QuestionType) → Type 0
IsPaced qs = IsPacedFrom false 0 qs

-- The delay of a request is that of the questions that were asked.
abbrev HasDelay : Bool → Request → Type 0
HasDelay seen r = (if seen then 999 else 200) ≤ r.delay

-- A wake after which the least random delay is waited
abbrev pub IsRandom : Wake → Type 0
IsRandom w = 20 ≤ w.random_delay

IsPacedFrom-earlier :
    (seen : Bool) (a b : ℕ) (qs : List (ℕ × QuestionType))
    → a ≤ b
    → IsPacedFrom seen b qs
    → IsPacedFrom seen a qs
unfolding IsPacedFrom
IsPacedFrom-earlier seen a b [] le p = tt
IsPacedFrom-earlier seen a b ((t, q) ∷ qs) le (from, p) = (omega (arith, le, from), p)

after_ask-HasDelay :
    (seen : Bool) (t : QuestionType) (w : Wake) (r : Request)
    → HasDelay seen r
    → HasDelay (seen || is_qm t) (after_ask t w r)
unfolding after_ask is_qm
after_ask-HasDelay seen t w r d = ground (arith, d)

after_ask-next :
    (seen : Bool) (t : QuestionType) (w : Wake) (r : Request)
    → HasDelay seen r
    → IsRandom w
    → w.now + least_gap seen ≤ (after_ask t w r).next
unfolding after_ask
after_ask-next true t w r d l = omega (arith, d, l)
after_ask-next false t w r d l = omega (arith, d, l)

-- Every question of the rounds is asked when it is due, and no earlier than the delays allow.
run_rounds-IsPacedFrom :
    (resolver : Resolver) (question_type : Option QuestionType) (ws : List Wake) (r : Request)
    (seen : Bool)
    → All IsRandom ws
    → HasDelay seen r
    → IsPacedFrom seen r.next (run_rounds resolver question_type ws r).asked
unfolding run_rounds IsPacedFrom
run_rounds-IsPacedFrom resolver o [] r seen a d = tt
run_rounds-IsPacedFrom resolver o (w ∷ ws) r seen (l, a) d =
    elim (Bool-cases (is_complete resolver w.info)) [
      | inl c ↦ rw (run_rounds, request_round, c) tt
      | inr c ↦ elim (Bool-cases (leb r.last w.now)) [
        | inl e ↦ rw (run_rounds, request_round, c, e) tt
        | inr e ↦ elim (Bool-cases (leb r.next w.now)) [
          | inl n ↦
              let t = this_question_type o r.first_request in
              let r' = after_ask t w r in
              rw (run_rounds, request_round, c, e, n, ask)
                (
                  ground (arith, n),
                  IsPacedFrom-earlier (seen || is_qm t) (w.now + least_gap seen) r'.next
                      (run_rounds resolver o ws r').asked (after_ask-next seen t w r d l)
                      (run_rounds-IsPacedFrom resolver o ws r' (seen || is_qm t) a
                        (after_ask-HasDelay seen t w r d)),
                )
          | inr n ↦
              rw (run_rounds, request_round, c, e, n)
                (run_rounds-IsPacedFrom resolver o ws r seen a d)
        ]
      ]
    ]

-- However a request is woken, and whatever others change in between, its questions are at least 220
-- ms apart, and at least 1019 ms apart from the one behind its first multicast question on; the
-- random delays are at least 20 ms.
pub async_request-IsPaced :
    (resolver : Resolver) (question_type : Option QuestionType) (now timeout : ℕ) (c : DnsCache)
    (i : ServiceInfo) (ws : List Wake)
    → All IsRandom ws
    → IsPaced (async_request resolver question_type now timeout c i ws).asked
unfolding async_request
async_request-IsPaced resolver o now timeout c i ws a =
    elim (Bool-cases (load_from_cache resolver c now i).1) [
      | inl e ↦ rw (async_request, e) (unfold IsPacedFrom in tt)
      | inr e ↦
          let r : Request = record {
            first_request = true;
            delay = listener_time;
            next = now;
            last = now + timeout;
          } in
          rw (async_request, e)
            (IsPacedFrom-earlier false 0 now (run_rounds resolver o ws r).asked (omega arith)
              (run_rounds-IsPacedFrom resolver o ws r false a (omega arith)))
    ]
