-- ===== src/Manager.antt =====
-- `RecordManager` of SOURCE/src/modules/python/zeroconf/src/zeroconf/_handlers/record_manager.py and
-- the clean-up of _engine.py. The listeners are not modelled: what they are told is a list of
-- events, each with the cache that they see then. `none` is a KeyError of the cache.
pub mod Updates
use lscamoflash.History
use lscamoflash.Cache
use lscamoflash.History.{QuestionHistory}
use lscamoflash.Const.{dns_ptr_min_ttl}
use lscamoflash.Services.{set_add}
use lscamoflash.Cache.{
  DnsCache, async_add_records, async_get_unique, async_remove_records, entries_with_name,
  mark_unique, ◌>>=◌,
}
use lscamoflash.Dns.{Question, Record, answered_by, is_expired, set_created_ttl}
use lscamoflash.Const.Types
use lscamoflash.Prelude.{
  ℕ, Bool, List, Option, Text, [], any_of, filter_by, if◌then◌else◌, length, ltb, map, none, not,
  some, text_eq, ◌&&◌, ◌++◌, ◌==◌, ◌||◌, ◌∷◌,
}

-- `RecordUpdate`
pub record RecordUpdate : Type 0 where
  pub new : Record
  pub old : Option Record

pub data Event : Type 0 where
  records_updated : DnsCache → List RecordUpdate → Event
  update_complete : DnsCache → Event
  notify_all : Event

-- The minimum of the ttl of a pointer record
unfoldable pub clamp_ttl : Record → Record
unfolding set_created_ttl
clamp_ttl r =
    if not (r.ttl == 0) && ((r.type == Types.ptr) && ltb r.ttl dns_ptr_min_ttl)
    then set_created_ttl r r.created dns_ptr_min_ttl
    else r

-- The local variables of the loop over the answers
pub record Pending : Type 0 where
  pub updates : List RecordUpdate
  pub address_adds : List Record
  pub other_adds : List Record
  pub removes : List Record
  pub unique_types : List (Text × ℕ × ℕ)

abbrev pub nothing_pending : Pending
nothing_pending = record {
  updates = [];
  address_adds = [];
  other_adds = [];
  removes = [];
  unique_types = [];
}

unfoldable pub type_eq : Text × ℕ × ℕ → Text × ℕ × ℕ → Bool
type_eq (n, t, c) (n', t', c') = text_eq n n' && ((t == t') && (c == c'))

-- `unique_types.add(...)`, of a record with the unique bit
unfoldable pub note_unique : Record → List (Text × ℕ × ℕ) → List (Text × ℕ × ℕ)
unfolding type_eq
note_unique r us =
    if r.unique && not (any_of (type_eq (r.name, r.type, r.class_)) us)
    then us ++ ((r.name, r.type, r.class_) ∷ [])
    else us

unfoldable pub is_address_type : ℕ → Bool
is_address_type t = (t == Types.a) || (t == Types.aaaa)

-- A live record: an update and an add
unfoldable pub note_live : Record → Option Record → Pending → Pending
unfolding is_address_type
note_live r entry p = record p {
  updates = p.updates ++ (record { new = r; old = entry } ∷ []);
  address_adds = if is_address_type r.type then p.address_adds ++ (r ∷ []) else p.address_adds;
  other_adds = if is_address_type r.type then p.other_adds else p.other_adds ++ (r ∷ []);
}

-- An expired record: an update and a removal, if it is cached
unfoldable pub note_expired : Record → Option Record → Pending → Pending
unfolding set_add
note_expired r none p = p
note_expired r (some entry) p = record p {
  updates = p.updates ++ (record { new = r; old = some entry } ∷ []);
  removes = set_add r p.removes;
}

-- One round of the loop over the answers, of a record that has its minimum ttl
unfoldable pub note_answer : DnsCache → ℕ → Record → Pending → Pending
unfolding note_unique note_live note_expired
note_answer c now r p =
    let entry = async_get_unique r c in
    let p' = record p { unique_types = note_unique r p.unique_types } in
    if is_expired r now then note_expired r entry p' else note_live r entry p'

unfoldable pub note_answers : DnsCache → ℕ → List Record → Pending → Pending
unfolding note_answer
note_answers c now [] p = p
note_answers c now (r ∷ rs) p = note_answers c now rs (note_answer c now r p)

unfoldable pub has_updates : Pending → Bool
has_updates p = not (length p.updates == 0)

-- The writes to the cache, behind the first call of the listeners: adds before removals, addresses
-- before other records.
unfoldable pub apply_pending : Pending → DnsCache → Option (DnsCache × Bool)
unfolding async_add_records async_remove_records
apply_pending p c =
    let (c1, new1) = async_add_records p.address_adds c in
    let (c2, new2) = async_add_records p.other_adds c1 in
    async_remove_records p.removes c2 >>= λ c3. some (c3, new1 || new2)

unfoldable pub events_of : Pending → DnsCache → DnsCache → Bool → List Event
unfolding has_updates
events_of p seen after is_new =
    if has_updates p
    then records_updated seen p.updates
      ∷ update_complete after
      ∷ (if is_new then notify_all ∷ [] else [])
    else []

-- `RecordManager.async_updates_from_response`
unfoldable pub async_updates_from_response :
    List Record → ℕ → DnsCache → Option (DnsCache × List Event)
unfolding clamp_ttl note_answers mark_unique apply_pending events_of
async_updates_from_response msg_answers now c = do
  let answers = map clamp_ttl msg_answers
  let p = note_answers c now answers nothing_pending
  let marked = mark_unique p.unique_types answers now c
  (c', is_new) ← apply_pending p marked
  some (c', events_of p marked c' is_new)

unfoldable pub matching_records : ℕ → DnsCache → List Question → List Record
unfolding entries_with_name is_expired answered_by
matching_records now c [] = []
matching_records now c (q ∷ qs) =
    filter_by (λ r. not (is_expired r now) && answered_by q r) (entries_with_name q.name c)
    ++ matching_records now c qs

-- `RecordManager._async_update_matching_records`: what a new listener is told.
unfoldable pub async_update_matching_records : ℕ → DnsCache → List Question → List Event
unfolding matching_records
async_update_matching_records now c questions = elim (matching_records now c questions) [
  | [] ↦ []
  | r ∷ rs ↦
      records_updated c (map (λ x. record { new = x; old = none }) (r ∷ rs))
      ∷ update_complete c
      ∷ notify_all
      ∷ []
]

-- `AsyncEngine._async_cache_cleanup`
unfoldable pub async_cache_cleanup :
    ℕ → QuestionHistory → DnsCache → Option (QuestionHistory × DnsCache × List Event)
unfolding History.async_expire Cache.async_expire
async_cache_cleanup now h c = do
  (c', expired) ← Cache.async_expire now c
  some (
    History.async_expire now h,
    c',
    records_updated c' (map (λ r. record { new = r; old = some r }) expired)
        ∷ update_complete c'
        ∷ [],
  )
