-- ===== src/Query/Replies.antt =====
-- `handle_assembled_query` on the services of a registry: where it returns.
use lscamoflash.History.{QuestionHistory}
use lscamoflash.Cache.{DnsCache}
use lscamoflash.Services.{ServiceInfo}
use lscamoflash.Dns.{Question}
use lscamoflash.Query.Strategies.{
  enumeration_strategies, get_answer_strategies, info_strategies, when_some,
}
use lscamoflash.Registry.{ok}
use lscamoflash.Incoming.{DnsIncoming}
use lscamoflash.Query.Covered.{if-both}
use lscamoflash.Const.{mdns_port, service_type_enumeration_name}
use lscamoflash.Registry.Reads.{infos_of-All, listed_at}
use lscamoflash.Registry.Indexes.{IsConsistent, IsIndex, type_key}
use lscamoflash.Prelude.Dict.{Dict}
use lscamoflash.Query.{AnswerStrategy, Strategy, pointer_strategy, address_strategy}
use lscamoflash.Query.Answered.{HasServer, IsServed, Returns, bind-Returns, respond_with_returns}
use lscamoflash.Query.Response.{
  Reply, async_response, handle_assembled_query, message_strategies, question_strategies,
  replies_of, to_option,
}
use lscamoflash.Const.Types
use lscamoflash.Prelude.{
  ℕ, All, List, Option, Text, [], arith, lower, none, not, refl, some, text_eq, ◌&&◌, ◌++◌, ◌==◌,
  ◌||◌, ◌∷◌, ◌≡◌,
}
use lscamoflash.Prelude.Dict
use lscamoflash.Registry.{
  ◌>>=◌, Registered, ServiceRegistry, async_get_by_index, async_get_info_name,
  async_get_infos_server, async_get_infos_type, async_get_types, names_at,
}

-- Every registered service has a server.
abbrev pub HasServers : ServiceRegistry → Type 0
HasServers s = (n : Text) (i : ServiceInfo) → Dict.get text_eq n s.services ≡ some i → HasServer i

-- A result of the registry that satisfies `P`, and no exception
abbrev Finds : {A : Type 0} → (A → Type 0) → Registered A → Type 0
Finds {A = A} P o = (a : A) × (o ≡ ok a) × P a

abbrev AreServed : List AnswerStrategy → Type 0
AreServed as' = All (λ a. IsServed a.strategy) as'

bind-Finds :
    {A B : Type 0} {P : A → Type 0} {Q : B → Type 0} (o : Registered A) (f : A → Registered B)
    → Finds P o
    → ((a : A) → P a → Finds Q (f a))
    → Finds Q (o >>= f)
bind-Finds o f (a, e, p) g = rw e (g a p)

to_option-Finds :
    {A : Type 0} {P : A → Type 0} (o : Registered A) → Finds P o → Returns P (to_option o)
unfolding to_option
to_option-Finds o (a, e, p) = (a, rw e refl, p)

AreServed-append :
    (as' bs : List AnswerStrategy) → AreServed as' → AreServed bs → AreServed (as' ++ bs)
AreServed-append [] bs p q = q
AreServed-append (a ∷ as') bs (x, p) q = (x, AreServed-append as' bs p q)

by_index-Finds :
    (key_of : ServiceInfo → Option Text) (k : Text) (index : Dict Text (List Text))
    (s : ServiceRegistry)
    → IsIndex key_of index s.services
    → HasServers s
    → Finds (All HasServer) (async_get_by_index index k s)
unfolding async_get_by_index
by_index-Finds key_of k index s v w = infos_of-All HasServer (names_at k index) s.services (λ n le.
    let (i, e, g) = listed_at key_of k (Dict.get text_eq n s.services) (omega (arith, le, v k n)) in
    (i, e, w n i e))

when_some-AreServed :
    (q : Question) (make : List ServiceInfo → Strategy) (is : List ServiceInfo)
    → ((js : List ServiceInfo) → All HasServer js → IsServed (make js))
    → All HasServer is
    → AreServed (when_some q make is)
unfolding when_some
when_some-AreServed q make [] f a = tt
when_some-AreServed q make (i ∷ is) f a = (f (i ∷ is) a, tt)

enumeration_strategies-AreServed :
    (q : Question) (ts : List Text) → AreServed (enumeration_strategies q ts)
unfolding enumeration_strategies IsServed
enumeration_strategies-AreServed q [] = tt
enumeration_strategies-AreServed q (t ∷ ts) = (tt, tt)

info_strategies-AreServed :
    (q : Question) (o : Option ServiceInfo)
    → ((i : ServiceInfo) → o ≡ some i → HasServer i)
    → AreServed (info_strategies q o)
unfolding info_strategies IsServed
info_strategies-AreServed q none f = tt
info_strategies-AreServed q (some i) f =
    AreServed-append _ _
      (if-both AreServed ((q.type == Types.srv) || (q.type == Types.any)) _ [] (f i refl, tt) tt)
      (if-both AreServed ((q.type == Types.txt) || (q.type == Types.any)) _ [] (tt, tt) tt)

module _ (s : ServiceRegistry) (v : IsConsistent s) (w : HasServers s) where
  get_answer_strategies-Finds : (q : Question) → Finds AreServed (get_answer_strategies s q)
  unfolding get_answer_strategies async_get_infos_type async_get_infos_server async_get_info_name
      IsServed
  get_answer_strategies-Finds q =
      let name = lower q.name in
      if-both (Finds AreServed)
        ((q.type == Types.ptr) && text_eq name service_type_enumeration_name) _ _
        (_, refl, enumeration_strategies-AreServed q (async_get_types s))
        (bind-Finds _ _
          (if-both (Finds (All HasServer)) ((q.type == Types.ptr) || (q.type == Types.any)) _ _
            (by_index-Finds type_key name s.types s v.by_type w) ([], refl, tt))
          (λ by_type a.
            bind-Finds _ _
              (if-both (Finds (All HasServer))
                ((q.type == Types.a) || ((q.type == Types.aaaa) || (q.type == Types.any))) _ _
                (by_index-Finds (λ i. i.server_key) name s.servers s v.by_server w) ([], refl, tt))
              (λ by_server b. (
                _,
                refl,
                AreServed-append (when_some q pointer_strategy by_type) _
                    (when_some-AreServed q pointer_strategy by_type (λ js x. x) a)
                    (AreServed-append (when_some q address_strategy by_server) _
                      (when_some-AreServed q address_strategy by_server (λ js x. x) b)
                      (if-both AreServed
                        ((q.type == Types.srv) || ((q.type == Types.txt) || (q.type == Types.any)))
                        (info_strategies q (async_get_info_name name s)) []
                        (info_strategies-AreServed q (async_get_info_name name s)
                          (λ i e. w name i e))
                        tt)),
              ))))

  question_strategies-Returns : (qs : List Question) → Returns AreServed (question_strategies s qs)
  unfolding question_strategies
  question_strategies-Returns [] = ([], refl, tt)
  question_strategies-Returns (q ∷ qs) =
      bind-Returns (to_option (get_answer_strategies s q)) _
        (to_option-Finds (get_answer_strategies s q) (get_answer_strategies-Finds q))
        (λ here a.
          bind-Returns (question_strategies s qs) _ (question_strategies-Returns qs)
            (λ rest b. (here ++ rest, refl, AreServed-append here rest a b)))

  message_strategies-Returns : (ms : List DnsIncoming) → Returns AreServed (message_strategies s ms)
  unfolding message_strategies
  message_strategies-Returns [] = ([], refl, tt)
  message_strategies-Returns (m ∷ ms) =
      bind-Returns (question_strategies s m.questions) _ (question_strategies-Returns m.questions)
        (λ here a.
          bind-Returns (message_strategies s ms) _ (message_strategies-Returns ms)
            (λ rest b. (here ++ rest, refl, AreServed-append here rest a b)))

-- Where the indexes of the registry are in step and every registered service has a server,
-- `handle_assembled_query` returns for all messages from any port, whatever the cache and the
-- history: the registry raises nothing, no assertion fails, and each record that is to be sent has
-- its additional records, so that `answers` raises no KeyError.
pub handle_assembled_query_returns :
    (s : ServiceRegistry) (c : DnsCache) (h : QuestionHistory) (port : ℕ) (m : DnsIncoming)
    (ms : List DnsIncoming)
    → IsConsistent s
    → HasServers s
    → (r : List Reply × QuestionHistory) × (handle_assembled_query s c h port m ms ≡ some r)
unfolding handle_assembled_query async_response
handle_assembled_query_returns s c h port m ms v w =
    let (as', e, t) = message_strategies-Returns s v w (m ∷ ms) in
    let u = not (port == mdns_port) in
    let (r, f) = respond_with_returns c as' h u m ms t in
    ((replies_of u m r.0, r.1), rw e (rw f refl))
