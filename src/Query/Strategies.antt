-- ===== src/Query/Strategies.antt =====
-- How `QueryHandler` finds the strategies for a question in the registry.
use lscamoflash.Services.{ServiceInfo}
use lscamoflash.Dns.{Question}
use lscamoflash.Const.{service_type_enumeration_name}
use lscamoflash.Query.{
  AnswerStrategy, Strategy, pointer_strategy, service_strategy, service_type_enumeration,
  address_strategy, text_strategy,
}
use lscamoflash.Const.Types
use lscamoflash.Registry.{
  ◌>>=◌, ok, Registered, ServiceRegistry, async_get_info_name, async_get_infos_server,
  async_get_infos_type, async_get_types,
}
use lscamoflash.Prelude.{
  List, Option, Text, [], if◌then◌else◌, lower, none, some, text_eq, ◌&&◌, ◌++◌, ◌==◌, ◌||◌, ◌∷◌,
}

unfoldable pub when_some :
    Question → (List ServiceInfo → Strategy) → List ServiceInfo → List AnswerStrategy
when_some q make [] = []
when_some q make (i ∷ is) = record { question = q; strategy = make (i ∷ is) } ∷ []

unfoldable pub enumeration_strategies : Question → List Text → List AnswerStrategy
enumeration_strategies q [] = []
enumeration_strategies q (t ∷ ts) =
    record { question = q; strategy = service_type_enumeration (t ∷ ts) } ∷ []

unfoldable pub info_strategies : Question → Option ServiceInfo → List AnswerStrategy
info_strategies q none = []
info_strategies q (some i) =
    (if (q.type == Types.srv) || (q.type == Types.any)
      then record { question = q; strategy = service_strategy i } ∷ []
      else [])
    ++ (if (q.type == Types.txt) || (q.type == Types.any)
        then record { question = q; strategy = text_strategy i } ∷ []
        else [])

-- `QueryHandler._get_answer_strategies`; the registry's KeyError would pass through.
unfoldable pub get_answer_strategies : ServiceRegistry → Question → Registered (List AnswerStrategy)
unfolding async_get_types async_get_infos_type async_get_infos_server async_get_info_name when_some
    enumeration_strategies info_strategies lower
get_answer_strategies s q =
    let name = lower q.name in
    if (q.type == Types.ptr) && text_eq name service_type_enumeration_name
    then ok (enumeration_strategies q (async_get_types s))
    else do
      by_type ←
          (if (q.type == Types.ptr) || (q.type == Types.any)
            then async_get_infos_type name s
            else ok [])
      by_server ←
          (if (q.type == Types.a) || ((q.type == Types.aaaa) || (q.type == Types.any))
            then async_get_infos_server name s
            else ok [])
      ok (
          when_some q pointer_strategy by_type
          ++ (when_some q address_strategy by_server
              ++ (if (q.type == Types.srv) || ((q.type == Types.txt) || (q.type == Types.any))
                  then info_strategies q (async_get_info_name name s)
                  else [])))
