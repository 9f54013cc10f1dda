-- ===== src/Tests/Caching.antt =====
-- Runs of the cache and of the record manager.
use lscamoflash.Prelude.Dict.{Dict}
use lscamoflash.Cache.Removal.{async_remove-IsCoherent}
use lscamoflash.Manager.Updates.{async_updates-IsCoherent}
use lscamoflash.Cache.Repeat.{async_expire-re_added, empty_cache-IsCoherent, re_added}
use lscamoflash.Cache.Coherent.{
  IsCoherent, async_add-IsCoherent, async_get_unique-async_add, heap_has,
}
use lscamoflash.Cache.{
  DnsCache, async_add, async_get_unique, async_remove, empty_cache, when_of, expires_at, heappush,
}
use lscamoflash.Prelude.{
  List, [], any_of, arith, if◌then◌else◌, none, refl, some, ◌∷◌, ◌≡◌, text_eq,
}
use lscamoflash.Manager.{Event, async_updates_from_response}
use lscamoflash.Cache.Purge.{async_expire_lem}
use lscamoflash.Cache.Expire.{is_due, HasNoRepeat}
use lscamoflash.Dns.{Record, record_eq}
use lscamoflash.Tests.Samples.{printer_ptr, shorter}
use lscamoflash.Cache
use lscamoflash.Prelude.Dict

abbrev one_cached : DnsCache
one_cached = (async_add printer_ptr empty_cache).0

one_cached-IsCoherent : IsCoherent one_cached
one_cached-IsCoherent = async_add-IsCoherent printer_ptr empty_cache empty_cache-IsCoherent

one_cached-HasNoRepeat : HasNoRepeat one_cached.expire_heap
unfolding async_add heappush heap_has expires_at Dict.get
one_cached-HasNoRepeat = (refl, tt)

async_expire_lem_example :
    (c' : DnsCache) × (expired : List Record) × (Cache.async_expire 121000 one_cached
      ≡ some (c', expired))
    × IsCoherent c'
    × ((q : Record) → any_of (λ r. record_eq r q) expired ≡ is_due 121000 q one_cached)
    × ((q : Record)
        → async_get_unique q c'
          ≡ (if is_due 121000 q one_cached then none else async_get_unique q one_cached))
async_expire_lem_example =
    async_expire_lem 121000 one_cached one_cached-IsCoherent one_cached-HasNoRepeat

async_add-IsCoherent_example : IsCoherent (async_add printer_ptr one_cached).0
async_add-IsCoherent_example = async_add-IsCoherent printer_ptr one_cached one_cached-IsCoherent

async_get_unique-async_add_example :
    async_get_unique printer_ptr (async_add printer_ptr one_cached).0 ≡ (
      if record_eq printer_ptr printer_ptr
      then some printer_ptr
      else async_get_unique printer_ptr one_cached)
async_get_unique-async_add_example = async_get_unique-async_add printer_ptr printer_ptr one_cached

one_is_cached : async_get_unique printer_ptr one_cached ≡ some printer_ptr
unfolding async_get_unique async_add record_eq Dict.get Dict.insert text_eq
one_is_cached = refl

async_remove-IsCoherent_example :
    (c' : DnsCache) × (async_remove printer_ptr one_cached ≡ some c')
    × IsCoherent c'
    × ((q : Record)
        → async_get_unique q c'
          ≡ (if record_eq printer_ptr q then none else async_get_unique q one_cached))
async_remove-IsCoherent_example =
    async_remove-IsCoherent printer_ptr printer_ptr one_cached one_cached-IsCoherent one_is_cached

async_updates-IsCoherent_example :
    (c' : DnsCache) × (events : List Event) × (async_updates_from_response
        (printer_ptr ∷ [])
        2000
        one_cached
      ≡ some (c', events))
    × IsCoherent c'
async_updates-IsCoherent_example =
    async_updates-IsCoherent (printer_ptr ∷ []) 2000 one_cached one_cached-IsCoherent

async_expire-re_added_example : Cache.async_expire 200000 (re_added printer_ptr shorter) ≡ none
unfolding record_eq text_eq when_of
async_expire-re_added_example =
    async_expire-re_added 200000 printer_ptr shorter refl (λ p. omega (arith, p)) (omega arith)
      (omega arith)
