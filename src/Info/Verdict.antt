-- ===== src/Info/Verdict.antt =====
-- The result of `ServiceInfo.async_request`.
use lscamoflash.Cache.{DnsCache}
use lscamoflash.Info.{Resolver, is_complete, load_from_cache}
use lscamoflash.Services.{ServiceInfo}
use lscamoflash.Prelude.{
  ℕ, Bool-cases, List, Option, [], any_of, arith, if◌then◌else◌, inl, inr, leb, refl, some, true,
  ◌+◌, ◌||◌, ◌∷◌, ◌≡◌,
}
use lscamoflash.Info.Request.{
  Request, Wake, after_ask, async_request, request_round, run_rounds, this_question_type, ask,
}
use lscamoflash.Grouping.{QuestionType}

-- The times at which a request wakes, up to the first one at its end or later
unfoldable pub up_to_end : ℕ → List Wake → List Wake
up_to_end last [] = []
up_to_end last (w ∷ ws) = if leb last w.now then w ∷ [] else w ∷ up_to_end last ws

run_rounds-result :
    (resolver : Resolver) (question_type : Option QuestionType) (ws : List Wake) (r : Request)
    → any_of (λ w. leb r.last w.now) ws ≡ true
    → (run_rounds resolver question_type ws r).result
      ≡ some (any_of (λ w. is_complete resolver w.info) (up_to_end r.last ws))
unfolding run_rounds up_to_end
run_rounds-result resolver o [] r e = absurd (ground (arith, e))
run_rounds-result resolver o (w ∷ ws) r e = elim (Bool-cases (leb r.last w.now)) [
  | inl l ↦ elim (Bool-cases (is_complete resolver w.info)) [
    | inl c ↦ rw (run_rounds, request_round, up_to_end, l, c) refl
    | inr c ↦ rw (run_rounds, request_round, up_to_end, l, c) refl
  ]
  | inr l ↦ elim (Bool-cases (is_complete resolver w.info)) [
    | inl c ↦ rw (run_rounds, request_round, up_to_end, l, c) refl
    | inr c ↦
        let rest : any_of (λ w. leb r.last w.now) ws ≡ true = ground (arith, e, l) in
        elim (Bool-cases (leb r.next w.now)) [
          | inl n ↦
              let r' = after_ask (this_question_type o r.first_request) w r in
              rw (run_rounds, request_round, up_to_end, l, c, n, ask)
                (run_rounds-result resolver o ws r' rest)
          | inr n ↦
              rw (run_rounds, request_round, up_to_end, l, c, n)
                (run_rounds-result resolver o ws r rest)
        ]
  ]
]

-- A request that wakes at its end or later returns, and true exactly when the cache completed the
-- service at its start, or the service was complete at one of the times at which it woke, up to the
-- first one at its end or later; whatever it asked in between.
pub async_request_returns :
    (resolver : Resolver) (question_type : Option QuestionType) (now timeout : ℕ) (c : DnsCache)
    (i : ServiceInfo) (ws : List Wake)
    → any_of (λ w. leb (now + timeout) w.now) ws ≡ true
    → (async_request resolver question_type now timeout c i ws).result
      ≡ some (
          (load_from_cache resolver c now i).1
          || any_of (λ w. is_complete resolver w.info) (up_to_end (now + timeout) ws))
unfolding async_request
async_request_returns resolver o now timeout c i ws e =
    elim (Bool-cases (load_from_cache resolver c now i).1) [
      | inl f ↦ rw (async_request, f) refl
      | inr f ↦ rw (async_request, f) (run_rounds-result resolver o ws _ e)
    ]
