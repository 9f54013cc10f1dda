-- ===== src/Listener/Deferral.antt =====
-- The queries that `AsyncListener` defers, and their timers.
use lscamoflash.Const.{max_msg_absolute}
use lscamoflash.Incoming.Records.{init_incoming}
use lscamoflash.Incoming.{DnsIncoming, is_query}
use lscamoflash.Prelude.Dict.{Dict}
use lscamoflash.Listener.{
  Listener, cancel_timers, datagram_received, deferred_of, respond_query, handle_query_or_defer,
  process_datagram_at_time, dispatch, Action, is_duplicate,
}
use lscamoflash.Prelude.Dict
use lscamoflash.Prelude.{
  ℕ, Bool, Bytes, Option, Text, [], if◌then◌else◌, length, none, not, some, text_eq, ◌++◌, ◌==◌,
  ◌∷◌, ◌≡◌, arith, List, false, refl, text_eq_iff, ◌+◌, ltb, true,
}

-- An address has a timer exactly when queries of it are deferred.
abbrev pub IsArmed : Listener → Type 0
IsArmed l = (addr : Text) → Dict.has text_eq addr l.timers ≡ not (length (deferred_of addr l) == 0)

-- `_respond_query` for an address answers its deferred packets in the order of arrival and then the
-- last one, leaves no packet and no timer of the address, and does not touch another address.
pub respond_query_lem :
    (msg : Option DnsIncoming) (addr other : Text) (l : Listener)
    → ((respond_query msg addr l).1
        ≡ deferred_of addr l ++ elim msg [ none ↦ [] | some m ↦ m ∷ [] ])
      × (deferred_of other (respond_query msg addr l).0
          ≡ (if text_eq addr other then [] else deferred_of other l))
      × (Dict.get text_eq other (respond_query msg addr l).0.timers
          ≡ (if text_eq addr other then none else Dict.get text_eq other l.timers))
unfolding respond_query cancel_timers deferred_of
respond_query_lem msg addr other l =
    ground
      (arith, Dict.get-delete_text addr other l.deferred, Dict.get-delete_text addr other l.timers)

length-snoc : (m : DnsIncoming) (ms : List DnsIncoming) → (length (ms ++ (m ∷ [])) == 0) ≡ false
length-snoc m [] = refl
length-snoc m (x ∷ ms) = ground arith

handle-IsArmed :
    (now delay : ℕ) (m : DnsIncoming) (addr : Text) (l : Listener)
    → IsArmed l
    → IsArmed (handle_query_or_defer now delay m addr l).0
unfolding handle_query_or_defer respond_query cancel_timers deferred_of Dict.has
handle-IsArmed now delay m addr l h other = ground (
  arith,
  h other,
  text_eq_iff addr other,
  length-snoc m (deferred_of addr l),
  Dict.get-delete_text addr other l.deferred,
  Dict.get-delete_text addr other l.timers,
  Dict.get-insert_text addr other (now + delay) (Dict.delete text_eq addr l.timers),
  Dict.get-insert_text addr other (deferred_of addr l) l.deferred,
  Dict.get-insert_text addr other (deferred_of addr l ++ (m ∷ [])) l.deferred,
)

if-IsArmed :
    (b : Bool) (x y : Listener × Action)
    → IsArmed x.0
    → IsArmed y.0
    → IsArmed (if b then x else y).0
if-IsArmed true x y h k = h
if-IsArmed false x y h k = k

dispatch-IsArmed :
    (now delay : ℕ) (has_entries : Bool) (m : DnsIncoming) (addr : Text) (l : Listener)
    → IsArmed l
    → IsArmed (dispatch now delay has_entries m addr l).0
unfolding dispatch
dispatch-IsArmed now delay has_entries m addr l h = if-IsArmed (not m.valid) _ _ h (
    if-IsArmed (not (is_query m)) _ _ h
      (if-IsArmed (not has_entries) _ _ h (handle-IsArmed now delay m addr l h)))

-- Every datagram keeps it: an address has a timer exactly when queries of it are deferred.
pub datagram_received-IsArmed :
    (now delay : ℕ) (has_entries : Bool) (b : Bytes) (scope : Option ℕ) (addr : Text) (l : Listener)
    → IsArmed l
    → IsArmed (datagram_received now delay has_entries b scope addr l).0
unfolding datagram_received process_datagram_at_time
datagram_received-IsArmed now delay has_entries b scope addr l h =
    let m = init_incoming b scope now in
    let l' = record l { last_data = some b; last_time = now; last_message = some m } in
    if-IsArmed (ltb max_msg_absolute (length b)) _ _ h (
      if-IsArmed (is_duplicate now b l) _ _ h
        (dispatch-IsArmed now delay has_entries m addr l' (unfold deferred_of in h)))
