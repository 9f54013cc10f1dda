-- ===== src/Queue.antt =====
-- `MulticastOutgoingQueue` of
-- SOURCE/src/modules/python/zeroconf/src/zeroconf/_handlers/multicast_outgoing_queue.py. The random
-- delay and the time are arguments; a call of the event loop's timer is the delay that is returned.
pub mod Timing
use lscamoflash.Answers.{AnswerGroup, AnswerSet, update}
use lscamoflash.Prelude.Dict.{Dict}
use lscamoflash.Dns.{record_eq}
use lscamoflash.Prelude.Dict
use lscamoflash.Prelude.{
  ℕ, List, Option, [], if◌then◌else◌, leb, ltb, none, some, ◌++◌, ◌+◌, ◌-◌, ◌∷◌,
}

pub record OutgoingQueue : Type 0 where
  pub queue : List AnswerGroup
  pub additional_delay : ℕ
  pub aggregation_delay : ℕ

-- `self.queue[-1]`, and what stands before it
unfoldable pub split_last : AnswerGroup → List AnswerGroup → List AnswerGroup × AnswerGroup
split_last g [] = ([], g)
split_last g (h ∷ hs) = let (front, last) = split_last h hs in (g ∷ front, last)

abbrev pub new_group : ℕ → ℕ → AnswerSet → OutgoingQueue → AnswerGroup
new_group now random_int answers q = record {
  send_after = now + (random_int + q.additional_delay);
  send_before = now + q.aggregation_delay + q.additional_delay;
  answers = answers;
}

unfoldable pub add_to_queue : AnswerGroup → List AnswerGroup → List AnswerGroup
unfolding split_last update
add_to_queue g [] = g ∷ []
add_to_queue g (h ∷ hs) =
    let (front, last) = split_last h hs in
    if leb g.send_after last.send_after
    then front ++ (record last { answers = update last.answers g.answers } ∷ [])
    else (h ∷ hs) ++ (g ∷ [])

-- `MulticastOutgoingQueue.async_add`: the queue, and the delay of the timer if one is started.
unfoldable pub async_add : ℕ → ℕ → AnswerSet → OutgoingQueue → OutgoingQueue × Option ℕ
unfolding add_to_queue
async_add now random_int answers q = (
  record q { queue = add_to_queue (new_group now random_int answers q) q.queue },
  elim q.queue [ [] ↦ some (random_int + q.additional_delay) | g ∷ gs ↦ none ],
)

-- The `while` loop of `async_ready`: the answers that are sent now, and the groups that stay.
unfoldable pub pop_ready : ℕ → AnswerSet → List AnswerGroup → AnswerSet × List AnswerGroup
unfolding update
pop_ready now answers [] = (answers, [])
pop_ready now answers (g ∷ gs) =
    let rest = pop_ready now (update answers g.answers) gs in
    if leb g.send_after now then rest else (answers, g ∷ gs)

-- `pending.answers.pop(record, None)` for each record
unfoldable pub delete_answers : AnswerSet → AnswerSet → AnswerSet
delete_answers [] a = a
delete_answers ((r, rs) ∷ b) a = delete_answers b (Dict.delete record_eq r a)

-- `MulticastOutgoingQueue._remove_answers_from_queue`
unfoldable pub remove_answers_from_queue : AnswerSet → List AnswerGroup → List AnswerGroup
unfolding delete_answers
remove_answers_from_queue answers [] = []
remove_answers_from_queue answers (g ∷ gs) =
    record g { answers = delete_answers answers g.answers } ∷ remove_answers_from_queue answers gs

-- What a call of `async_ready` does: the queue, the delay of a timer that it starts, and the
-- answers that it sends.
pub record Ready : Type 0 where
  pub queue_after : List AnswerGroup
  pub call_later : Option ℕ
  pub sent : Option AnswerSet

unfoldable pub must_wait : ℕ → List AnswerGroup → Option ℕ
must_wait now [] = none
must_wait now (g ∷ []) = none
must_wait now (g ∷ h ∷ gs) = if ltb now g.send_before then some (g.send_before - now) else none

unfoldable pub send_ready : ℕ → AnswerSet → List AnswerGroup → Ready
unfolding remove_answers_from_queue
send_ready now answers left = record {
  queue_after = elim answers [ [] ↦ left | a ∷ as' ↦ remove_answers_from_queue (a ∷ as') left ];
  call_later = elim left [ [] ↦ none | g ∷ gs ↦ some (g.send_after - now) ];
  sent = elim answers [ [] ↦ none | a ∷ as' ↦ some (a ∷ as') ];
}

-- `MulticastOutgoingQueue.async_ready`
unfoldable pub async_ready : ℕ → OutgoingQueue → Ready
unfolding must_wait pop_ready send_ready
async_ready now q = elim (must_wait now q.queue) [
  | some delay ↦ record { queue_after = q.queue; call_later = some delay; sent = none }
  | none ↦ let (answers, left) = pop_ready now [] q.queue in send_ready now answers left
]
