-- ===== src/Tests/Services.antt =====
-- Runs of the service registry.
use lscamoflash.Query.Answered.{HasServer}
use lscamoflash.History.{QuestionHistory}
use lscamoflash.Cache.{DnsCache}
use lscamoflash.Query.Replies.{HasServers, handle_assembled_query_returns}
use lscamoflash.Incoming.Records.{init_incoming}
use lscamoflash.Query.Response.{Reply, handle_assembled_query}
use lscamoflash.Registry.Reads.{async_get_infos-All}
use lscamoflash.Services.{ServiceInfo}
use lscamoflash.Tests.Samples.{office, printer, http, truncated_query}
use lscamoflash.Prelude.Dict.{Dict}
use lscamoflash.Registry.Removal.{async_remove-IsConsistent}
use lscamoflash.Registry.Indexes.{IsConsistent, async_add-IsConsistent, count, listed, type_key}
use lscamoflash.Prelude.Dict
use lscamoflash.Prelude.{
  Text, [], any_of, false, if◌then◌else◌, none, refl, some, text_eq, ◌↔◌, ◌∷◌, ◌≡◌, All, List, Bool,
  Option, true,
}
use lscamoflash.Registry.{
  async_add, async_remove, ok, ServiceRegistry, async_get_info_name, async_get_service_infos,
  empty_registry, names_at, async_get_infos_server, async_get_infos_type,
}

empty_registry-IsConsistent : IsConsistent empty_registry
unfolding names_at count listed Dict.get
empty_registry-IsConsistent = record {
  by_type = λ k n. refl;
  by_server = λ k n. refl;
  has_server = λ n i h. cc;
}

async_add-IsConsistent_example :
    (s' : ServiceRegistry) × (async_add office empty_registry ≡ ok s')
    × IsConsistent s'
    × ((n : Text)
        → async_get_info_name n s'
          ≡ (if text_eq office.key n then some office else async_get_info_name n empty_registry))
async_add-IsConsistent_example =
    async_add-IsConsistent office printer empty_registry empty_registry-IsConsistent refl
      (unfold async_get_info_name Dict.get in refl)

some_registry : (s : ServiceRegistry) × IsConsistent s
some_registry =
    let (s, e, v, left) =
      async_add-IsConsistent office printer empty_registry empty_registry-IsConsistent refl
        (unfold async_get_info_name Dict.get in refl) in
    (s, v)

abbrev registered : ServiceRegistry
registered = some_registry.0

registered-IsConsistent : IsConsistent registered
registered-IsConsistent = some_registry.1

async_remove-IsConsistent_example :
    (s' : ServiceRegistry) × (async_remove (office ∷ []) registered ≡ ok s')
    × IsConsistent s'
    × ((n : Text)
        → async_get_info_name n s' ≡ (
            if any_of (λ i. text_eq i.key n) (office ∷ [])
            then none
            else async_get_info_name n registered))
    × ((s'.has_entries ≡ false) ↔ (async_get_service_infos s' ≡ []))
async_remove-IsConsistent_example =
    async_remove-IsConsistent (office ∷ []) registered registered-IsConsistent

async_get_infos-All_example :
    ((is : List ServiceInfo) × (async_get_infos_type http registered ≡ ok is)
      × All (λ i. type_key i ≡ some http) is)
    × ((is : List ServiceInfo) × (async_get_infos_server http registered ≡ ok is)
        × All (λ i. i.server_key ≡ some http) is)
async_get_infos-All_example = async_get_infos-All http registered registered-IsConsistent

office-HasServer :
    (b : Bool) (o : Option ServiceInfo) (i : ServiceInfo)
    → o ≡ (if b then some office else none)
    → o ≡ some i
    → HasServer i
office-HasServer true o i e g = (printer, cc)
office-HasServer false o i e g = cc

-- A registry of one service, which has a server
served_registry : (s : ServiceRegistry) × IsConsistent s × HasServers s
unfolding async_get_info_name Dict.get
served_registry =
    let (s, e, v, left) =
      async_add-IsConsistent office printer empty_registry empty_registry-IsConsistent refl refl in
    (s, v, λ n i g. office-HasServer (text_eq office.key n) (async_get_info_name n s) i (left n) g)

abbrev empty_cache : DnsCache
empty_cache = record { cache = []; expire_heap = []; expirations = []; service_cache = [] }

handle_assembled_query_returns_example :
    (r : List Reply × QuestionHistory) × (handle_assembled_query served_registry.0 empty_cache []
        5353
        (init_incoming truncated_query none 1000)
        []
      ≡ some r)
handle_assembled_query_returns_example =
    handle_assembled_query_returns served_registry.0 empty_cache [] 5353
      (init_incoming truncated_query none 1000) [] served_registry.1 served_registry.2
