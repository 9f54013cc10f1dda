-- ===== src/Query/Handler.antt =====
-- The answers of `QueryHandler` to a question; `none` is a failed assertion.
use lscamoflash.Prelude.Dict.{Dict}
use lscamoflash.Cache.{◌>>=◌}
use lscamoflash.Answers.{AnswerSet}
use lscamoflash.Dns.{Record, rrset_suppresses, record_eq}
use lscamoflash.Query.{
  add_enumeration_answers, add_pointer_answers, AnswerStrategy, service_type_enumeration,
  pointer_strategy, address_strategy, service_strategy, text_strategy,
}
use lscamoflash.Services.{
  dns_addresses, dns_nsec, set_of, ServiceInfo, missing_types, set_add, dns_service, dns_text,
  get_address_and_nsec_records,
}
use lscamoflash.Prelude.Dict
use lscamoflash.Prelude.{
  ℕ, List, Bool, Option, any_of, some, [], none, ◌==◌, ◌∷◌, filter_by, if◌then◌else◌, not, ◌&&◌,
}

-- `_dns_nsec` under the assertion that the server is set
unfoldable pub nsec_with_server : ℕ → List ℕ → ServiceInfo → Option Record
unfolding dns_nsec
nsec_with_server now types i = elim i.server [
  | none ↦ none
  | some s ↦ some (dns_nsec types none now i)
]

unfoldable pub insert_all : List Record → List Record → AnswerSet → AnswerSet
insert_all [] additionals s = s
insert_all (r ∷ rs) additionals s =
    insert_all rs additionals (Dict.insert record_eq r additionals s)

-- The additional records of an address answer: the addresses of another type, and a NSEC record for
-- the types that are missing
unfoldable pub address_additionals : ℕ → List Record → List ℕ → ServiceInfo → Option (List Record)
unfolding nsec_with_server set_of set_add
address_additionals now other [] i = some (set_of other [])
address_additionals now other (t ∷ ts) i =
    nsec_with_server now (t ∷ ts) i >>= λ r. some (set_add r (set_of other []))

unfoldable pub has_type : ℕ → List ℕ → Bool
has_type t ts = any_of (λ u. u == t) ts

-- One round of `_add_address_answers`
unfoldable pub add_address_answer : ℕ → List Record → ℕ → ServiceInfo → AnswerSet → Option AnswerSet
unfolding dns_addresses missing_types rrset_suppresses insert_all address_additionals has_type
    nsec_with_server
add_address_answer now known type i s =
    let addresses = dns_addresses none now i in
    let missing = missing_types addresses in
    let other = filter_by (λ r. not (r.type == type)) addresses in
    let answers = filter_by (λ r. (r.type == type) && not (rrset_suppresses known r)) addresses in
    elim answers [
      | [] ↦
          if has_type type missing
          then (nsec_with_server now missing i >>= λ r. some (Dict.insert record_eq r [] s))
          else some s
      | a ∷ as' ↦ address_additionals now other missing i >>= λ additionals.
          some (insert_all (a ∷ as') additionals s)
    ]

unfoldable pub add_address_answers :
    ℕ → List Record → ℕ → List ServiceInfo → AnswerSet → Option AnswerSet
unfolding add_address_answer
add_address_answers now known type [] s = some s
add_address_answers now known type (i ∷ is) s =
    add_address_answer now known type i s >>= add_address_answers now known type is

-- `QueryHandler._answer_question`
unfoldable pub answer_question : ℕ → List Record → AnswerStrategy → Option AnswerSet
unfolding add_enumeration_answers add_pointer_answers add_address_answers dns_service dns_text
    get_address_and_nsec_records rrset_suppresses
answer_question now known a = elim a.strategy [
  | service_type_enumeration types ↦ some (add_enumeration_answers now known types [])
  | pointer_strategy services ↦ add_pointer_answers now known services []
  | address_strategy services ↦ add_address_answers now known a.question.type services []
  | service_strategy i ↦
      if rrset_suppresses known (dns_service none now i)
      then some []
      else get_address_and_nsec_records none now i >>= λ extra.
          some ((dns_service none now i, extra) ∷ [])
  | text_strategy i ↦
      some (
        if rrset_suppresses known (dns_text none now i) then [] else (dns_text none now i, []) ∷ [])
]
