-- ===== src/Listener.antt =====
-- `AsyncListener` of SOURCE/src/modules/python/zeroconf/src/zeroconf/_listener.py: which datagrams
-- are dropped, answered or kept for later. The answers themselves are the reply's; a timer is
-- what the event loop was asked for.
pub mod Deferral
pub mod Arrivals
use lscamoflash.Incoming.Records.{init_incoming}
use lscamoflash.Prelude.Dict.{Dict}
use lscamoflash.Const.{duplicate_packet_suppression_interval, max_msg_absolute}
use lscamoflash.Incoming.{DnsIncoming, is_query, truncated}
use lscamoflash.Prelude.Dict
use lscamoflash.Prelude.{
  ℕ, Bool, Bytes, List, Option, Text, [], any_of, false, if◌then◌else◌, length, ltb, none, not,
  some, text_eq, ◌&&◌, ◌++◌, ◌+◌, ◌∷◌,
}

pub record Listener : Type 0 where
  pub last_data : Option Bytes
  pub last_time : ℕ
  pub last_message : Option DnsIncoming
  pub deferred : Dict Text (List DnsIncoming)
  pub timers : Dict Text ℕ

abbrev pub init_listener : Listener
init_listener = record {
  last_data = none;
  last_time = 0;
  last_message = none;
  deferred = [];
  timers = [];
}

-- What a datagram leads to
pub data Action : Type 0 where
  ignored : Action
  update_records : DnsIncoming → Action
  defer_query : ℕ → Action
  respond : List DnsIncoming → Action

unfoldable pub same_data : Option Bytes → Bytes → Bool
same_data none b = false
same_data (some a) b = text_eq a b

unfoldable pub no_qu_question : Option DnsIncoming → Bool
no_qu_question none = false
no_qu_question (some m) = not m.has_qu_question

-- The guard against duplicate packets
unfoldable pub is_duplicate : ℕ → Bytes → Listener → Bool
unfolding same_data no_qu_question
is_duplicate now b l =
    same_data l.last_data b
    && (ltb now (l.last_time + duplicate_packet_suppression_interval)
        && no_qu_question l.last_message)

unfoldable pub deferred_of : Text → Listener → List DnsIncoming
deferred_of addr l = elim (Dict.get text_eq addr l.deferred) [ none ↦ [] | some ms ↦ ms ]

-- `AsyncListener._cancel_any_timers_for_addr`
unfoldable pub cancel_timers : Text → Listener → Listener
cancel_timers addr l = record l { timers = Dict.delete text_eq addr l.timers }

-- `AsyncListener._respond_query`: the packets that are answered together
unfoldable pub respond_query : Option DnsIncoming → Text → Listener → Listener × List DnsIncoming
unfolding cancel_timers deferred_of
respond_query msg addr l =
    let l' = cancel_timers addr l in
    (
      record l' { deferred = Dict.delete text_eq addr l'.deferred },
      deferred_of addr l ++ elim msg [ none ↦ [] | some m ↦ m ∷ [] ],
    )

-- `AsyncListener.handle_query_or_defer`, with the random delay as an argument
unfoldable pub handle_query_or_defer : ℕ → ℕ → DnsIncoming → Text → Listener → Listener × Action
unfolding truncated respond_query deferred_of cancel_timers
handle_query_or_defer now delay m addr l =
    if not (truncated m)
    then (let (l', ms) = respond_query (some m) addr l in (l', respond ms))
    else if any_of (λ d. text_eq d.data_ m.data_) (deferred_of addr l)
    then (record l { deferred = Dict.insert text_eq addr (deferred_of addr l) l.deferred }, ignored)
    else (
      record (cancel_timers addr l) {
        deferred = Dict.insert text_eq addr (deferred_of addr l ++ (m ∷ [])) l.deferred;
        timers = Dict.insert text_eq addr (now + delay) (cancel_timers addr l).timers;
      },
      defer_query delay,
    )

-- What is done with a message that was decoded
unfoldable pub dispatch : ℕ → ℕ → Bool → DnsIncoming → Text → Listener → Listener × Action
unfolding is_query handle_query_or_defer
dispatch now delay has_entries m addr l =
    if not m.valid
    then (l, ignored)
    else if not (is_query m)
    then (l, update_records m)
    else if not has_entries
    then (l, ignored)
    else handle_query_or_defer now delay m addr l

-- `AsyncListener._process_datagram_at_time`
unfoldable pub process_datagram_at_time :
    ℕ → ℕ → Bool → Bytes → Option ℕ → Text → Listener → Listener × Action
unfolding is_duplicate dispatch init_incoming
process_datagram_at_time now delay has_entries b scope addr l =
    if is_duplicate now b l
    then (l, ignored)
    else let m = init_incoming b scope now in
      dispatch now delay has_entries m addr
        (record l { last_data = some b; last_time = now; last_message = some m })

-- `AsyncListener.datagram_received`
unfoldable pub datagram_received :
    ℕ → ℕ → Bool → Bytes → Option ℕ → Text → Listener → Listener × Action
unfolding process_datagram_at_time
datagram_received now delay has_entries b scope addr l =
    if ltb max_msg_absolute (length b)
    then (l, ignored)
    else process_datagram_at_time now delay has_entries b scope addr l
