-- ===== src/Query/Answered.antt =====
-- The run of `async_response` over its strategies: where it returns.
use lscamoflash.Cache.{◌>>=◌}
use lscamoflash.History.{QuestionHistory}
use lscamoflash.Incoming.{DnsIncoming, is_probe}
use lscamoflash.Answers.{AnswerSet}
use lscamoflash.Cache.{DnsCache}
use lscamoflash.Dns.{Question, Record, rrset_suppresses}
use lscamoflash.Query.Handler.{
  add_address_answer, add_address_answers, address_additionals, answer_question, has_type,
  nsec_with_server,
}
use lscamoflash.Query.{
  AnswerStrategy, QueryResponse, Strategy, add_pointer_answers, add_ucast_question_response,
  init_response, address_strategy, pointer_strategy, service_strategy, service_type_enumeration,
  text_strategy,
}
use lscamoflash.Query.Response.{Response, known_of, last_now, respond_all, respond_to, respond_with}
use lscamoflash.Services.{
  ServiceInfo, dns_addresses, dns_pointer, dns_service, get_address_and_nsec_records, missing_types,
}
use lscamoflash.Query.Covered.{
  IsCovered, add_mcast_question_response-IsCovered, add_qu_question_response-IsCovered,
  add_ucast_question_response-IsCovered, if-both, response_answers_returns,
}
use lscamoflash.Prelude.{
  ℕ, All, Bool, List, Option, Text, [], any_of, filter_by, if◌then◌else◌, none, not, refl, some,
  ◌&&◌, ◌==◌, ◌∷◌, ◌≡◌, false, true,
}

-- A result that satisfies `P`, and no exception
abbrev pub Returns : {A : Type 0} → (A → Type 0) → Option A → Type 0
Returns {A = A} P o = (a : A) × (o ≡ some a) × P a

abbrev pub HasServer : ServiceInfo → Type 0
HasServer i = (s : Text) × (i.server ≡ some s)

-- The services whose addresses the strategy reads have a server.
unfoldable pub IsServed : Strategy → Type 0
IsServed (service_type_enumeration types) = Unit
IsServed (pointer_strategy services) = All HasServer services
IsServed (address_strategy services) = All HasServer services
IsServed (service_strategy i) = HasServer i
IsServed (text_strategy i) = Unit

pub bind-Returns :
    {A B : Type 0} {P : A → Type 0} {Q : B → Type 0} (o : Option A) (f : A → Option B)
    → Returns P o
    → ((a : A) → P a → Returns Q (f a))
    → Returns Q (o >>= f)
bind-Returns {Q = Q} o f (a, e, p) g = rw e (g a p)

-- Of a list that may be empty
elim-Returns :
    {A B : Type 0} {Q : B → Type 0} (xs : List A) (o : Option B) (f : A → List A → Option B)
    → Returns Q o
    → ((x : A) (ys : List A) → Returns Q (f x ys))
    → Returns Q (elim xs [ [] ↦ o | x ∷ ys ↦ f x ys ])
elim-Returns [] o f r g = r
elim-Returns (x ∷ xs) o f r g = g x xs

abbrev Done : {A : Type 0} → Option A → Type 0
Done o = Returns (λ a. Unit) o

-- Under the assertion that the server is set
server-Returns :
    {B : Type 0} (o : Option Text) (x : B)
    → (s : Text) × (o ≡ some s)
    → Done (elim o [ none ↦ none | some s ↦ some x ])
server-Returns none x (s, e) = cc
server-Returns (some t) x h = (x, refl, tt)

get_address_and_nsec_records_returns :
    (now : ℕ) (i : ServiceInfo) → HasServer i → Done (get_address_and_nsec_records none now i)
unfolding get_address_and_nsec_records
get_address_and_nsec_records_returns now i h =
    elim-Returns (missing_types (dns_addresses none now i)) _ _ (_, refl, tt)
      (λ t ts. server-Returns i.server _ h)

nsec_with_server_returns :
    (now : ℕ) (types : List ℕ) (i : ServiceInfo) → HasServer i → Done (nsec_with_server now types i)
unfolding nsec_with_server
nsec_with_server_returns now types i h = server-Returns i.server _ h

address_additionals_returns :
    (now : ℕ) (other : List Record) (types : List ℕ) (i : ServiceInfo)
    → HasServer i
    → Done (address_additionals now other types i)
unfolding address_additionals
address_additionals_returns now other [] i h = (_, refl, tt)
address_additionals_returns now other (t ∷ ts) i h =
    bind-Returns (nsec_with_server now (t ∷ ts) i) _ (nsec_with_server_returns now (t ∷ ts) i h)
      (λ r u. (_, refl, tt))

add_address_answer_returns :
    (now : ℕ) (known : List Record) (type : ℕ) (i : ServiceInfo) (s : AnswerSet)
    → HasServer i
    → Done (add_address_answer now known type i s)
unfolding add_address_answer
add_address_answer_returns now known type i s h =
    let addresses = dns_addresses none now i in
    let missing = missing_types addresses in
    let other = filter_by (λ r. not (r.type == type)) addresses in
    let answers = filter_by (λ r. (r.type == type) && not (rrset_suppresses known r)) addresses in
    elim-Returns answers _ _
      (if-both Done (has_type type missing) _ _
        (bind-Returns (nsec_with_server now missing i) _ (nsec_with_server_returns now missing i h)
          (λ r u. (_, refl, tt)))
        (_, refl, tt))
      (λ a as'.
        bind-Returns (address_additionals now other missing i) _
          (address_additionals_returns now other missing i h) (λ x u. (_, refl, tt)))

add_address_answers_returns :
    (now : ℕ) (known : List Record) (type : ℕ) (is : List ServiceInfo) (s : AnswerSet)
    → All HasServer is
    → Done (add_address_answers now known type is s)
unfolding add_address_answers
add_address_answers_returns now known type [] s a = (_, refl, tt)
add_address_answers_returns now known type (i ∷ is) s (h, a) =
    bind-Returns (add_address_answer now known type i s) _
      (add_address_answer_returns now known type i s h)
      (λ s' u. add_address_answers_returns now known type is s' a)

test-Returns :
    {B : Type 0} (b : Bool) (x y : Option B)
    → Done x
    → Done y
    → Done (elim b [ true ↦ x | false ↦ y ])
test-Returns true x y p q = p
test-Returns false x y p q = q

add_pointer_answers_returns :
    (now : ℕ) (known : List Record) (is : List ServiceInfo) (s : AnswerSet)
    → All HasServer is
    → Done (add_pointer_answers now known is s)
unfolding add_pointer_answers
add_pointer_answers_returns now known [] s a = (_, refl, tt)
add_pointer_answers_returns now known (i ∷ is) s (h, a) =
    test-Returns (rrset_suppresses known (dns_pointer none now i)) _ _
      (add_pointer_answers_returns now known is s a)
      (bind-Returns (get_address_and_nsec_records none now i) _
        (get_address_and_nsec_records_returns now i h)
        (λ extra u. add_pointer_answers_returns now known is _ a))

answer_strategy_returns :
    (now : ℕ) (known : List Record) (q : Question) (t : Strategy)
    → IsServed t
    → Done (answer_question now known (record { question = q; strategy = t }))
unfolding answer_question IsServed
answer_strategy_returns now known q (service_type_enumeration types) h = (_, refl, tt)
answer_strategy_returns now known q (pointer_strategy is) h =
    add_pointer_answers_returns now known is [] h
answer_strategy_returns now known q (address_strategy is) h =
    add_address_answers_returns now known q.type is [] h
answer_strategy_returns now known q (service_strategy i) h =
    if-both Done (rrset_suppresses known (dns_service none now i)) _ _ (_, refl, tt)
      (bind-Returns (get_address_and_nsec_records none now i) _
        (get_address_and_nsec_records_returns now i h) (λ extra u. (_, refl, tt)))
answer_strategy_returns now known q (text_strategy i) h = (_, refl, tt)

respond_to-Returns :
    (c : DnsCache) (now : ℕ) (known : List Record) (u : Bool) (a : AnswerStrategy)
    (h : QuestionHistory) (p : QueryResponse)
    → IsServed a.strategy
    → IsCovered p
    → Returns (λ s. IsCovered s.1) (respond_to c now known u a (h, p))
unfolding respond_to
respond_to-Returns c now known u a h p t v =
    bind-Returns (answer_question now known a) _
      (answer_strategy_returns now known a.question a.strategy t)
      (λ answers x.
        if-both (λ o. Returns (λ (s : QuestionHistory × QueryResponse). IsCovered s.1) (some o))
          (not u && a.question.unique) _ _
          (_, refl, add_qu_question_response-IsCovered c now answers p v)
          (
            _,
            refl,
            add_mcast_question_response-IsCovered c now answers
                (if u then add_ucast_question_response answers p else p)
                (if-both IsCovered u (add_ucast_question_response answers p) p
                  (add_ucast_question_response-IsCovered answers p v) v),
          ))

respond_all-Returns :
    (c : DnsCache) (now : ℕ) (known : List Record) (u : Bool) (as' : List AnswerStrategy)
    (h : QuestionHistory) (p : QueryResponse)
    → All (λ a. IsServed a.strategy) as'
    → IsCovered p
    → Returns (λ s. IsCovered s.1) (respond_all c now known u as' (h, p))
unfolding respond_all
respond_all-Returns c now known u [] h p t v = ((h, p), refl, v)
respond_all-Returns c now known u (a ∷ as') h p (t, ts) v =
    bind-Returns (respond_to c now known u a (h, p)) _ (respond_to-Returns c now known u a h p t v)
      (λ s w. respond_all-Returns c now known u as' s.0 s.1 ts w)

-- A query whose strategies read only services that have a server is answered, whatever the cache,
-- the history, the source and the messages: no assertion fails, and each record that is to be
-- sent has its additional records, so that `answers` raises no KeyError.
pub respond_with_returns :
    (c : DnsCache) (as' : List AnswerStrategy) (h : QuestionHistory) (u : Bool) (m : DnsIncoming)
    (ms : List DnsIncoming)
    → All (λ a. IsServed a.strategy) as'
    → (r : Response) × (respond_with c as' h u m ms ≡ some r)
unfolding respond_with
respond_with_returns c [] h u m ms t = (_, refl)
respond_with_returns c (a ∷ as') h u m ms t =
    let (s, e, v) =
      respond_all-Returns c (last_now m ms) (known_of (m ∷ ms)) u (a ∷ as') h
        (init_response m.questions (any_of is_probe (m ∷ ms))) t
        (record { ucast = tt; mcast_now = tt; mcast_aggregate = tt; last_second = tt }) in
    let (x, f) = response_answers_returns s.1 v in ((some x, s.0), rw e (rw f refl))
