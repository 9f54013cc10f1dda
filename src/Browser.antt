-- ===== src/Browser.antt =====
-- `_ServiceBrowserBase` and `ServiceBrowser` of
-- SOURCE/src/modules/python/zeroconf/src/zeroconf/_services/browser.py, with the state changes and the
-- signal of _services/__init__.py. A set of names or of types is visited in the order in which it was
-- filled. A record of type PTR is a `DNSPointer`, as the code's cast says.
pub mod Precedence
pub mod Announced
pub mod Sound
pub mod Events
use lscamoflash.Const.{class_in}
use lscamoflash.Prelude.Dict.{Dict}
use lscamoflash.Cache.{DnsCache, entries_with_server}
use lscamoflash.Dns.{Record, is_expired, init_question}
use lscamoflash.Manager.{RecordUpdate, is_address_type, matching_records}
use lscamoflash.Scheduler.{
  QueryScheduler, add_type, cancel_ptr_refresh, init_scheduler, reschedule_ptr_first_refresh, start,
  stop,
}
use lscamoflash.ServiceName.{NameError, possible_types, service_type_name}
use lscamoflash.ServiceName
use lscamoflash.Grouping.{QuestionType, alias_of}
use lscamoflash.Const.Types
use lscamoflash.Prelude.{
  ℕ, Bool, List, Option, Text, [], any_of, false, filter_by, if◌then◌else◌, map, none, some,
  text_eq, true, ◌&&◌, ◌++◌, ◌==◌, ◌||◌, ◌∷◌,
}
use lscamoflash.Prelude.Dict

pub data ServiceStateChange : Type 0 where
  added removed updated : ServiceStateChange

unfoldable pub is_added : Option ServiceStateChange → Bool
is_added (some added) = true
is_added _ = false

-- The keys of `_pending_handlers`: a name and a type
abbrev pub Key : Type 0
Key = Text × Text

unfoldable pub key_eq : Key → Key → Bool
key_eq (n, t) (n', t') = text_eq n n' && text_eq t t'

-- `_ServiceBrowserBase`; `listening` says whether the set of the record manager's listeners has the
-- browser, and `has_query_sender` whether `_query_sender_task` is set.
pub record Browser : Type 0 where
  pub types : List Text
  pub pending_handlers : Dict Key ServiceStateChange
  pub query_scheduler : QueryScheduler
  pub done : Bool
  pub listening : Bool
  pub has_query_sender : Bool

-- The checks of the types in `_ServiceBrowserBase.__init__`
unfoldable pub check_types : List Text → ServiceName.Checked (Unit {0})
unfolding service_type_name
check_types [] = ServiceName.ok tt
check_types (t ∷ ts) =
    let rest = check_types ts in
    elim (service_type_name t false) [
      | ServiceName.ok s ↦ rest
      | ServiceName.err e ↦ ServiceName.err e
    ]

-- `set(type_)`
unfoldable pub set_of : List Text → List Text
unfolding add_type
set_of [] = []
set_of (t ∷ ts) = add_type t (set_of ts)

-- The attributes of a new browser
unfoldable pub new_browser : List Text → Bool → Option QuestionType → ℕ → ℕ → Browser
unfolding set_of
new_browser types multicast question_type delay resolution = record {
  types = set_of types;
  pending_handlers = [];
  query_scheduler = init_scheduler (set_of types) multicast question_type delay resolution;
  done = false;
  listening = false;
  has_query_sender = false;
}

-- `_ServiceBrowserBase.__init__`, without the handlers
unfoldable pub init_browser :
    List Text → Bool → Option QuestionType → ℕ → ℕ → ServiceName.Checked Browser
unfolding set_of check_types new_browser
init_browser types multicast question_type delay resolution = elim (check_types (set_of types)) [
  | ServiceName.err e ↦ ServiceName.err e
  | ServiceName.ok u ↦ ServiceName.ok (new_browser types multicast question_type delay resolution)
]

-- `_ServiceBrowserBase._enqueue_callback`
unfoldable pub enqueue_callback :
    ServiceStateChange → Text → Text → Dict Key ServiceStateChange → Dict Key ServiceStateChange
unfolding key_eq is_added Dict.has
enqueue_callback added type name pending = Dict.insert key_eq (name, type) added pending
enqueue_callback removed type name pending =
    if is_added (Dict.get key_eq (name, type) pending)
    then pending
    else Dict.insert key_eq (name, type) removed pending
enqueue_callback updated type name pending =
    if Dict.has key_eq (name, type) pending
    then pending
    else Dict.insert key_eq (name, type) updated pending

-- `self.types.intersection(cached_possible_types(name))`
unfoldable pub types_of : Text → List Text → List Text
unfolding possible_types
types_of name types = filter_by (λ t. any_of (text_eq t) (possible_types name)) types

-- `_ServiceBrowserBase._names_matching_types`: the types and the names
unfoldable pub names_matching_types : List Text → List Text → List (Text × Text)
unfolding types_of
names_matching_types types [] = []
names_matching_types types (n ∷ ns) =
    map (λ t. (t, n)) (types_of n types) ++ names_matching_types types ns

unfoldable pub enqueue : ServiceStateChange → Text → Text → Browser → Browser
unfolding enqueue_callback
enqueue change type name b = record b {
  pending_handlers = enqueue_callback change type name b.pending_handlers;
}

unfoldable pub schedule_with : (QueryScheduler → QueryScheduler) → Browser → Browser
schedule_with f b = record b { query_scheduler = f b.query_scheduler }

-- One round of the loop over the types of a pointer
unfoldable pub update_pointer : ℕ → Record → Option Record → Text → Text → Browser → Browser
unfolding enqueue schedule_with is_expired
update_pointer now r none alias type b =
    schedule_with (reschedule_ptr_first_refresh r alias) (enqueue added type alias b)
update_pointer now r (some old) alias type b =
    if is_expired r now
    then schedule_with (cancel_ptr_refresh alias) (enqueue removed type alias b)
    else schedule_with (reschedule_ptr_first_refresh r alias) b

-- The loop over the types of a pointer
unfoldable pub update_pointers : ℕ → Record → Option Record → List Text → Browser → Browser
unfolding update_pointer alias_of
update_pointers now r old [] b = b
update_pointers now r old (t ∷ ts) b =
    update_pointers now r old ts (update_pointer now r old (alias_of r.rdata) t b)

-- The loops that enqueue an update
unfoldable pub enqueue_updates : List (Text × Text) → Browser → Browser
unfolding enqueue
enqueue_updates [] b = b
enqueue_updates ((t, n) ∷ ps) b = enqueue_updates ps (enqueue updated t n b)

-- `{service.name for service in ...}`
unfoldable pub names_of : List Record → List Text
unfolding add_type
names_of [] = []
names_of (r ∷ rs) = add_type r.name (names_of rs)

-- `old_record is not None`
unfoldable pub is_cached : Option Record → Bool
is_cached none = false
is_cached (some r) = true

-- The names that a record which is no pointer is about: those of the services on its server, or its
-- own
unfoldable pub names_about : DnsCache → Record → List Text
unfolding names_of
names_about c r =
    if is_address_type r.type then names_of (entries_with_server r.name c) else r.name ∷ []

-- One round of `async_update_records`
unfoldable pub update_record : ℕ → DnsCache → RecordUpdate → Browser → Browser
unfolding update_pointers types_of enqueue_updates names_matching_types names_about
update_record now c u b =
    if u.new.type == Types.ptr
    then update_pointers now u.new u.old (types_of u.new.name b.types) b
    else if is_cached u.old || is_expired u.new now
    then b
    else enqueue_updates (names_matching_types b.types (names_about c u.new)) b

-- `_ServiceBrowserBase.async_update_records`
unfoldable pub async_update_records : ℕ → DnsCache → List RecordUpdate → Browser → Browser
unfolding update_record
async_update_records now c [] b = b
async_update_records now c (u ∷ us) b = async_update_records now c us (update_record now c u b)

-- `_ServiceBrowserBase.async_update_records_complete`: what is fired, or put on the queue of the
-- browser's thread
unfoldable pub async_update_records_complete : Browser → Browser × List (Key × ServiceStateChange)
async_update_records_complete b = (record b { pending_handlers = [] }, b.pending_handlers)

-- The calls of a listener by `_on_change_dispatcher`: its method, the type and the name
pub data ListenerCall : Type 0 where
  add_service remove_service update_service : Text → Text → ListenerCall

-- `_fire_service_state_changed_event`, of the handler of a listener
unfoldable pub on_change_dispatcher : Key × ServiceStateChange → ListenerCall
on_change_dispatcher ((name, type), added) = add_service type name
on_change_dispatcher ((name, type), removed) = remove_service type name
on_change_dispatcher ((name, type), updated) = update_service type name

-- `ServiceBrowser.run`, on the queue of its thread, whose `None` is `none`
unfoldable pub run : List (Option (Key × ServiceStateChange)) → List ListenerCall
unfolding on_change_dispatcher
run [] = []
run (none ∷ events) = []
run (some e ∷ events) = on_change_dispatcher e ∷ run events

-- `_ServiceBrowserBase._async_start_query_sender`
unfoldable pub async_start_query_sender : ℕ → Browser → Browser
unfolding schedule_with start
async_start_query_sender delay b = schedule_with (start delay) b

-- What `async_add_listener` tells the new listener
unfoldable pub tell_new : ℕ → DnsCache → List Record → Browser → Browser
unfolding async_update_records async_update_records_complete
tell_new now c [] b = b
tell_new now c (r ∷ rs) b =
    (async_update_records_complete
      (async_update_records now c (map (λ x. record { new = x; old = none }) (r ∷ rs)) b)).0

-- `_ServiceBrowserBase._async_start`
unfoldable pub async_start : ℕ → DnsCache → Browser → Browser
unfolding tell_new matching_records init_question
async_start now c b =
    let questions = map (λ t. init_question t Types.ptr class_in) b.types in
    record (tell_new now c (matching_records now c questions) (record b { listening = true })) {
      has_query_sender = true;
    }

-- `_ServiceBrowserBase._async_cancel`; `none` is the KeyError of a set of listeners that has no such
-- browser, which `async_remove_listener` does not catch, or the failed assertion that there is a
-- query sender.
unfoldable pub async_cancel : Browser → Option Browser
unfolding schedule_with stop
async_cancel b =
    if b.listening && b.has_query_sender
    then some
        (record (schedule_with stop b) { done = true; listening = false; has_query_sender = false })
    else none
