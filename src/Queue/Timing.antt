-- ===== src/Queue/Timing.antt =====
-- When `MulticastOutgoingQueue` sends: the order of the queue, and the timer that drives it.
use lscamoflash.Answers.{AnswerGroup, AnswerSet, update}
use lscamoflash.Queue.{
  OutgoingQueue, add_to_queue, async_add, async_ready, pop_ready, split_last, must_wait, new_group,
  remove_answers_from_queue, send_ready,
}
use lscamoflash.Prelude.{
  ℕ, All, List, [], arith, filter_by, ltb, none, refl, ◌<◌, ◌↔◌, ◌∷◌, ◌≡◌, Option-cases, inl, inr,
  some, ◌≢◌, Bool-cases, leb, Bool, Option, false, length, ◌&&◌,
}

-- The groups stand in the strict order of the times from which they can be sent.
abbrev pub IsAscending : List AnswerGroup → Type 0
IsAscending [] = Unit {0}
IsAscending (g ∷ gs) = All (λ h. g.send_after < h.send_after) gs × IsAscending gs

All-add_to_queue :
    (n : ℕ) (g h : AnswerGroup) (hs : List AnswerGroup)
    → All (λ x. n < x.send_after) (h ∷ hs)
    → All (λ x. n < x.send_after) (add_to_queue g (h ∷ hs))
unfolding add_to_queue split_last
All-add_to_queue n g h [] a = ground (arith, a)
All-add_to_queue n g h (i ∷ hs) (b, a) = ground (arith, b, All-add_to_queue n g i hs a)

add_to_queue_cons :
    (g h i : AnswerGroup) (hs : List AnswerGroup)
    → add_to_queue g (h ∷ i ∷ hs) ≡ h ∷ add_to_queue g (i ∷ hs)
unfolding add_to_queue split_last
add_to_queue_cons g h i hs = elim (Bool-cases (leb g.send_after (split_last i hs).1.send_after)) [
  | inl e ↦ rw e
  | inr e ↦ rw e
]

add_to_queue-IsAscending :
    (g h : AnswerGroup) (hs : List AnswerGroup)
    → IsAscending (h ∷ hs)
    → IsAscending (add_to_queue g (h ∷ hs))
add_to_queue-IsAscending g h [] a = unfold add_to_queue split_last in ground arith
add_to_queue-IsAscending g h (i ∷ hs) (a, o) =
    rw (add_to_queue_cons g h i hs)
      (All-add_to_queue h.send_after g i hs a, add_to_queue-IsAscending g i hs o)

add_new-IsAscending :
    (g : AnswerGroup) (gs : List AnswerGroup) → IsAscending gs → IsAscending (add_to_queue g gs)
unfolding add_to_queue
add_new-IsAscending g [] a = (tt, tt)
add_new-IsAscending g (h ∷ hs) a = add_to_queue-IsAscending g h hs a

-- `async_add` keeps the order of the queue, whatever the delay.
pub async_add-IsAscending :
    (now random_int : ℕ) (answers : AnswerSet) (q : OutgoingQueue)
    → IsAscending q.queue
    → IsAscending (async_add now random_int answers q).0.queue
unfolding async_add
async_add-IsAscending now random_int answers q h =
    add_new-IsAscending (new_group now random_int answers q) q.queue h

-- What `pop_ready` leaves of a queue in order: the groups that cannot be sent yet.
filter_by-waiting :
    (now n : ℕ) (gs : List AnswerGroup)
    → now < n
    → All (λ h. n < h.send_after) gs
    → filter_by (λ h. ltb now h.send_after) gs ≡ gs
filter_by-waiting now n [] le a = refl
filter_by-waiting now n (g ∷ gs) le (b, a) = ground (arith, filter_by-waiting now n gs le a)

-- From a queue in order, the loop of `async_ready` leaves exactly the groups whose time to be sent has
-- not come.
pub pop_ready-left :
    (now : ℕ) (a : AnswerSet) (gs : List AnswerGroup)
    → IsAscending gs
    → (pop_ready now a gs).1 ≡ filter_by (λ h. ltb now h.send_after) gs
unfolding pop_ready
pop_ready-left now a [] h = refl
pop_ready-left now a (g ∷ gs) (b, h) =
    ground
      (arith, pop_ready-left now (update a g.answers) gs h, filter_by-waiting now g.send_after gs)

remove_answers-empty :
    (a : AnswerSet) (gs : List AnswerGroup) → (remove_answers_from_queue a gs ≡ []) ↔ (gs ≡ [])
unfolding remove_answers_from_queue
remove_answers-empty a [] = ground arith
remove_answers-empty a (g ∷ gs) = ground arith

send_ready-timer :
    (now : ℕ) (a : AnswerSet) (gs : List AnswerGroup)
    → ((send_ready now a gs).call_later ≡ none) ↔ ((send_ready now a gs).queue_after ≡ [])
unfolding send_ready remove_answers_from_queue
send_ready-timer now [] [] = ground arith
send_ready-timer now [] (g ∷ gs) = ground arith
send_ready-timer now (x ∷ a) [] = ground arith
send_ready-timer now (x ∷ a) (g ∷ gs) = ground arith

must_wait_empty : (now : ℕ) (gs : List AnswerGroup) (d : ℕ) → must_wait now gs ≡ some d → gs ≢ []
unfolding must_wait
must_wait_empty now [] d e = absurd cc
must_wait_empty now (g ∷ gs) d e = λ k. cc

-- `async_ready` starts a timer exactly when answers are left in the queue; so a queue that is not
-- empty is never forgotten.
pub async_ready-timer :
    (now : ℕ) (q : OutgoingQueue)
    → ((async_ready now q).call_later ≡ none) ↔ ((async_ready now q).queue_after ≡ [])
unfolding async_ready
async_ready-timer now q = elim (Option-cases (must_wait now q.queue)) [
  | inl e ↦
      rw (e, async_ready)
        (send_ready-timer now (pop_ready now [] q.queue).0 (pop_ready now [] q.queue).1)
  | inr (d, e) ↦ rw (e, async_ready) (ground (arith, must_wait_empty now q.queue d e))
]

-- `async_ready` waits: more than one group is queued, and the time by which the first one must be sent
-- has not come.
unfoldable pub is_held : ℕ → List AnswerGroup → Bool
is_held now [] = false
is_held now (g ∷ gs) = ltb 1 (length (g ∷ gs)) && ltb now g.send_before

-- The answers of some groups, those of a later group over those of an earlier one
unfoldable pub gather : AnswerSet → List AnswerGroup → AnswerSet
gather a [] = a
gather a (g ∷ gs) = gather (update a g.answers) gs

unfoldable pub unless_none : AnswerSet → Option AnswerSet
unless_none [] = none
unless_none (x ∷ a) = some (x ∷ a)
