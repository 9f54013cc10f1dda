-- ===== src/History.antt =====
-- `QuestionHistory` of SOURCE/src/modules/python/zeroconf/src/zeroconf/_history.py. A set of records
-- is the list of its members.
pub mod Suppression
use lscamoflash.Prelude.{
  ℕ, ◌+◌, Bool, true, false, not, none, some, List, [], ◌∷◌, ltb, if◌then◌else◌, any_of, filter_by,
}
use lscamoflash.Prelude.Dict
use lscamoflash.Prelude.Dict.{Dict}
use lscamoflash.Dns.{Question, Record, question_eq, record_eq}
use lscamoflash.Const.{duplicate_question_interval}

-- `_history`: when a question was last asked, and with which known answers.
abbrev pub QuestionHistory : Type 0
QuestionHistory = Dict Question (ℕ × List Record)

-- `a - b` on sets of records
unfoldable pub difference : List Record → List Record → List Record
difference a b = filter_by (λ r. not (any_of (record_eq r) b)) a

unfoldable pub is_empty : List Record → Bool
is_empty [] = true
is_empty (r ∷ rs) = false

-- `QuestionHistory.add_question_at_time`
unfoldable pub add_question_at_time : Question → ℕ → List Record → QuestionHistory → QuestionHistory
add_question_at_time q now known h = Dict.insert question_eq q (now, known) h

-- `QuestionHistory.suppresses`
unfoldable pub suppresses : Question → ℕ → List Record → QuestionHistory → Bool
unfolding difference is_empty
suppresses q now known h = elim (Dict.get question_eq q h) [
  | none ↦ false
  | some (than, previous) ↦
      if ltb (than + duplicate_question_interval) now
      then false
      else is_empty (difference previous known)
]

-- The first loop of `QuestionHistory.async_expire`: the questions to remove.
unfoldable pub expired_questions : ℕ → QuestionHistory → List Question
expired_questions now [] = []
expired_questions now ((q, (than, known)) ∷ h) =
    if ltb (than + duplicate_question_interval) now
    then q ∷ expired_questions now h
    else expired_questions now h

unfoldable pub delete_all : List Question → QuestionHistory → QuestionHistory
delete_all [] h = h
delete_all (q ∷ qs) h = delete_all qs (Dict.delete question_eq q h)

-- `QuestionHistory.async_expire`
unfoldable pub async_expire : ℕ → QuestionHistory → QuestionHistory
unfolding expired_questions delete_all
async_expire now h = delete_all (expired_questions now h) h

-- `QuestionHistory.clear`
unfoldable pub clear : QuestionHistory → QuestionHistory
clear h = []
