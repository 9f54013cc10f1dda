-- ===== src/Answers.antt =====
-- Groups of answers, of SOURCE/src/modules/python/zeroconf/src/zeroconf/_handlers/answers.py. A set
-- of records is the list of its members, in the order of its iteration.
use lscamoflash.Const.{flags_qr_response_aa}
use lscamoflash.Prelude.Dict.{Dict, keys}
use lscamoflash.Outgoing.{
  DnsOutgoing, add_additional_answer, add_answer_at_time, add_question, init_outgoing,
}
use lscamoflash.Dns.{Question, Record, record_eq}
use lscamoflash.Prelude.Dict
use lscamoflash.Prelude.{
  ℕ, Bool, List, Text, [], any_of, false, if◌then◌else◌, ltb, some, true, ◌&&◌, ◌++◌, ◌==◌, ◌||◌,
  ◌∷◌,
}

-- `_AnswerWithAdditionalsType`: each answer with its additional records
abbrev pub AnswerSet : Type 0
AnswerSet = Dict Record (List Record)

pub record QuestionAnswers : Type 0 where
  pub ucast : AnswerSet
  pub mcast_now : AnswerSet
  pub mcast_aggregate : AnswerSet
  pub mcast_aggregate_last_second : AnswerSet

pub record AnswerGroup : Type 0 where
  pub send_after : ℕ
  pub send_before : ℕ
  pub answers : AnswerSet

-- `a.update(b)`
unfoldable pub update : AnswerSet → AnswerSet → AnswerSet
update a [] = a
update a ((r, rs) ∷ b) = update (Dict.insert record_eq r rs a) b

-- The order of texts by their code points
unfoldable pub text_lt : Text → Text → Bool
text_lt s [] = false
text_lt [] (c ∷ cs) = true
text_lt (b ∷ bs) (c ∷ cs) = ltb b c || ((b == c) && text_lt bs cs)

-- `sorted(answers, key=NAME_GETTER)`, which keeps the order of equal names
unfoldable pub insert_by_name : Record × List Record → AnswerSet → AnswerSet
unfolding text_lt
insert_by_name e [] = e ∷ []
insert_by_name e (e' ∷ es) =
    if text_lt e'.0.name e.0.name then e' ∷ insert_by_name e es else e ∷ e' ∷ es

unfoldable pub sorted_by_name : AnswerSet → AnswerSet
unfolding insert_by_name
sorted_by_name [] = []
sorted_by_name (e ∷ es) = insert_by_name e (sorted_by_name es)

-- The inner loop of `_add_answers_additionals`: `sending` is what the message has already.
unfoldable pub add_additionals : List Record → List Record → DnsOutgoing → List Record × DnsOutgoing
unfolding add_additional_answer
add_additionals [] sending out = (sending, out)
add_additionals (r ∷ rs) sending out =
    let rest = add_additionals rs in
    if any_of (record_eq r) sending
    then rest sending out
    else rest (sending ++ (r ∷ [])) (add_additional_answer r out)

unfoldable pub add_each_answer : AnswerSet → List Record → DnsOutgoing → DnsOutgoing
unfolding add_additionals add_answer_at_time
add_each_answer [] sending out = out
add_each_answer ((r, additionals) ∷ rest) sending out =
    let (sending', out') =
      add_additionals additionals sending (add_answer_at_time (some r) 0 out) in
    add_each_answer rest sending' out'

-- `_add_answers_additionals`
unfoldable pub add_answers_additionals : AnswerSet → DnsOutgoing → DnsOutgoing
unfolding add_each_answer sorted_by_name
add_answers_additionals answers out = add_each_answer (sorted_by_name answers) (keys answers) out

unfoldable pub construct_outgoing_multicast_answers : AnswerSet → DnsOutgoing
unfolding add_answers_additionals
construct_outgoing_multicast_answers answers =
    add_answers_additionals answers (init_outgoing flags_qr_response_aa true 0)

unfoldable pub add_questions : List Question → DnsOutgoing → DnsOutgoing
unfolding add_question
add_questions [] out = out
add_questions (q ∷ qs) out = add_questions qs (add_question q out)

unfoldable pub construct_outgoing_unicast_answers :
    AnswerSet → Bool → List Question → ℕ → DnsOutgoing
unfolding add_answers_additionals add_questions
construct_outgoing_unicast_answers answers ucast_source questions id =
    let out = init_outgoing flags_qr_response_aa false id in
    add_answers_additionals answers (if ucast_source then add_questions questions out else out)
