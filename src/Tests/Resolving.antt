-- ===== src/Tests/Resolving.antt =====
-- Runs of a service's properties, of its requests and of its registration, and of the cache as a map.
use lscamoflash.Core.{generate_service_broadcast}
use lscamoflash.Incoming.Records.{init_incoming, read_answers}
use lscamoflash.Outgoing.{DnsOutgoing}
use lscamoflash.Core.Broadcast.{AnswersHaveTtl, generate_service_broadcast-ttl}
use lscamoflash.Incoming.Typed.{IsTyped}
use lscamoflash.Incoming.Classes.{read_answers-IsTyped}
use lscamoflash.Registry
use lscamoflash.Info.{async_update_records}
use lscamoflash.Cache.Lookup.{find_in}
use lscamoflash.Services.{ServiceInfo}
use lscamoflash.Cache.Repeat.{empty_cache-IsCoherent}
use lscamoflash.Info.Verdict.{async_request_returns, up_to_end}
use lscamoflash.Info.Addresses.{IsRepeatless, learned-IsRepeatless}
use lscamoflash.Properties.RoundTrip.{AreDistinct, IsFit, as_bytes, unpack-set_properties, Property}
use lscamoflash.Prelude.Dict.{Dict}
use lscamoflash.Tests.Samples.{office, printer_ptr, http, shorter, truncated_query, printer}
use lscamoflash.Info.Pacing.{IsPaced, async_request-IsPaced}
use lscamoflash.Core.Check.Unique.{IsFound, find_name-IsFound}
use lscamoflash.Prelude.Dict
use lscamoflash.Prelude.{
  ℕ, All, Bytes, List, [], arith, codes, map, none, refl, some, text_eq, true, utf8_encode, ◌||◌,
  ◌∷◌, ◌≡◌, any_of,
}
use lscamoflash.Cache.{DnsCache, async_add, async_get_unique, empty_cache}
use lscamoflash.Cache.Refinement.{
  RecordMap, CacheWrite, Implements, Refines, write_caches, write_caches-Refines, write_maps, adds,
  resets, removes,
}
use lscamoflash.Properties.{
  raw, string, encode_text, property_item, set_properties, unpack_text_into_properties,
}
use lscamoflash.Info.{service_info, load_from_cache, is_complete}
use lscamoflash.Info.Request.{Wake, async_request}
use lscamoflash.Core.Check.{Check, find_name, name_fuel}

-- `{"a": b"x", b"b": None}`
abbrev two_properties : List Property
two_properties = (string (codes "a"), some (raw (120 ∷ []))) ∷ (raw (98 ∷ []), none) ∷ []

two_properties-IsFit : All IsFit two_properties
unfolding encode_text property_item utf8_encode
two_properties-IsFit = (
  record { no_separator = refl; fits = omega arith },
  (record { no_separator = refl; fits = omega arith }, tt),
)

two_properties-AreDistinct : AreDistinct two_properties
unfolding encode_text utf8_encode text_eq
two_properties-AreDistinct = (refl, (refl, tt))

unpack-set_properties_example :
    (text : Bytes) × (set_properties two_properties ≡ some text)
    × (unpack_text_into_properties text ≡ map as_bytes two_properties)
unpack-set_properties_example =
    unpack-set_properties two_properties two_properties-IsFit two_properties-AreDistinct

-- The map that finds nothing
abbrev no_records : RecordMap
no_records = λ q. none

empty-Implements : Implements empty_cache no_records
empty-Implements = record {
  coherent = empty_cache-IsCoherent;
  finds = λ q. unfold async_get_unique Dict.get in refl;
  expires = λ q. unfold Dict.get in refl;
  serves = λ k q. unfold find_in Dict.get in ground arith;
}

abbrev some_writes : List CacheWrite
some_writes = adds printer_ptr ∷ resets printer_ptr 2000 60 ∷ removes shorter ∷ removes shorter ∷ []

write_caches-Refines_example :
    Refines (write_caches some_writes empty_cache) (write_maps some_writes no_records)
write_caches-Refines_example =
    write_caches-Refines some_writes empty_cache no_records empty-Implements

-- The service as it is asked for: nothing is known of it.
abbrev unknown_office : ServiceInfo
unknown_office = record office { ipv4_addresses = []; server = none; server_key = none }

abbrev wake_at : ℕ → Wake
wake_at t = record {
  now = t;
  random_delay = 20;
  info = unknown_office;
  cache = empty_cache;
  history = [];
}

abbrev wakes : List Wake
wakes = wake_at 1000 ∷ wake_at 1220 ∷ wake_at 1440 ∷ wake_at 4000 ∷ []

async_request-IsPaced_example :
    IsPaced (async_request service_info none 1000 3000 empty_cache unknown_office wakes).asked
async_request-IsPaced_example =
    async_request-IsPaced service_info none 1000 3000 empty_cache unknown_office wakes
      (omega arith, (omega arith, (omega arith, (omega arith, tt))))

async_request_returns_example :
    (async_request service_info none 1000 3000 empty_cache unknown_office wakes).result
    ≡ some (
        (load_from_cache service_info empty_cache 1000 unknown_office).1
        || any_of (λ w. is_complete service_info w.info) (up_to_end 4000 wakes))
async_request_returns_example =
    async_request_returns service_info none 1000 3000 empty_cache unknown_office wakes refl

learned-IsRepeatless_example :
    IsRepeatless (load_from_cache service_info empty_cache 1000 office).0
    × IsRepeatless
        (async_update_records empty_cache 1000
          (record { new = printer_ptr; old = none } ∷ [])
          office).0
learned-IsRepeatless_example =
    learned-IsRepeatless service_info empty_cache 1000
      (record { new = printer_ptr; old = none } ∷ []) office
      (record { once_v4 = (refl, tt); once_v6 = tt })

abbrev new_check : Check
new_check = record { info = office; next_instance_number = 2; next_time = 1000; sent = 0 }

abbrev with_printer : DnsCache
with_printer = (async_add printer_ptr empty_cache).0

find_name-IsFound_example :
    IsFound true 1000 with_printer (
      find_name
        (name_fuel http with_printer)
        true
        true
        (codes "office")
        1000
        with_printer
        new_check)
find_name-IsFound_example = find_name-IsFound true true (codes "office") 1000 with_printer new_check

generate_service_broadcast-ttl_example :
    (out : DnsOutgoing) × (generate_service_broadcast office (some 0) true ≡ Registry.ok out)
    × AnswersHaveTtl 0 out
generate_service_broadcast-ttl_example = generate_service_broadcast-ttl office 0 true printer refl

read_answers-IsTyped_example :
    All IsTyped (read_answers (init_incoming truncated_query none 1000)).0
read_answers-IsTyped_example = read_answers-IsTyped truncated_query none 1000
