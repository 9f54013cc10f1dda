-- ===== src/Core.antt =====
-- The services that an instance registers: `Zeroconf` of
-- SOURCE/src/modules/python/zeroconf/src/zeroconf/_core.py. What is sent is a list of messages, each
-- with the time that passes before it; sockets, threads and the wait for the start are not modelled.
pub mod Check
pub mod Broadcast
use lscamoflash.Const.{class_in_unique, flags_qr_response_aa, register_time, unregister_time}
use lscamoflash.Dns.{Record, init_question}
use lscamoflash.Const.Types
use lscamoflash.Prelude.{ℕ, Bool, List, Option, [], false, if◌then◌else◌, none, some, true, ◌∷◌}
use lscamoflash.Services.{
  ServiceInfo, dns_pointer, dns_service, dns_text, get_address_and_nsec_records,
  set_server_if_missing,
}
use lscamoflash.Registry.{
  async_add, async_remove, Registered, ServiceRegistry, err, ok, ◌>>=◌, async_get_infos_server,
  async_get_service_infos, async_update, assertion_error,
}
use lscamoflash.Outgoing.{
  DnsOutgoing, add_answer_at_time, add_authorative_answer, add_question, init_outgoing,
}

-- `_FLAGS_QR_QUERY | _FLAGS_AA`
abbrev pub flags_qr_query_aa : ℕ
flags_qr_query_aa = 0x0400

unfoldable pub add_records : List Record → DnsOutgoing → DnsOutgoing
unfolding add_answer_at_time
add_records [] out = out
add_records (r ∷ rs) out = add_records rs (add_answer_at_time (some r) 0 out)

-- `Zeroconf._add_broadcast_answer`; `assertion_error` where the server is not set.
unfoldable pub add_broadcast_answer :
    ServiceInfo → Option ℕ → Bool → DnsOutgoing → Registered DnsOutgoing
unfolding add_records dns_pointer dns_service dns_text get_address_and_nsec_records
add_broadcast_answer i ttl false out =
    ok (add_records (dns_pointer ttl 0 i ∷ dns_service ttl 0 i ∷ dns_text ttl 0 i ∷ []) out)
add_broadcast_answer i ttl true out = elim (get_address_and_nsec_records ttl 0 i) [
  | none ↦ err assertion_error
  | some rs ↦
      ok (add_records (dns_pointer ttl 0 i ∷ dns_service ttl 0 i ∷ dns_text ttl 0 i ∷ rs) out)
]

-- `Zeroconf.generate_service_broadcast`
unfoldable pub generate_service_broadcast : ServiceInfo → Option ℕ → Bool → Registered DnsOutgoing
unfolding add_broadcast_answer
generate_service_broadcast i ttl broadcast_addresses =
    add_broadcast_answer i ttl broadcast_addresses (init_outgoing flags_qr_response_aa true 0)

-- `Zeroconf.generate_service_query`: the question has the unicast bit.
unfoldable pub generate_service_query : ServiceInfo → DnsOutgoing
unfolding add_question add_authorative_answer init_question dns_pointer
generate_service_query i = add_authorative_answer (dns_pointer none 0 i) (
    add_question (init_question i.type Types.ptr class_in_unique)
      (init_outgoing flags_qr_query_aa true 0))

-- `Zeroconf._async_broadcast_service`, of a service that does not change meanwhile
unfoldable pub async_broadcast_service :
    ServiceInfo → ℕ → Option ℕ → Bool → Registered (List (ℕ × DnsOutgoing))
unfolding generate_service_broadcast
async_broadcast_service i interval ttl broadcast_addresses = do
  out ← generate_service_broadcast i ttl broadcast_addresses
  ok ((0, out) ∷ (interval, out) ∷ (interval, out) ∷ [])

-- The `ttl` argument of `async_register_service`
unfoldable pub override_ttls : Option ℕ → ServiceInfo → ServiceInfo
override_ttls none i = i
override_ttls (some t) i = record i { host_ttl = t; other_ttl = t }

-- `Zeroconf.async_register_service` behind the check of the name, whose outcome is the service
unfoldable pub register_checked :
    ServiceInfo → ServiceRegistry → Registered (ServiceRegistry × List (ℕ × DnsOutgoing))
unfolding async_add async_broadcast_service
register_checked i s = do
  s' ← async_add i s
  sent ← async_broadcast_service i register_time none true
  ok (s', sent)

-- `Zeroconf.async_update_service`
unfoldable pub async_update_service :
    ServiceInfo → ServiceRegistry → Registered (ServiceRegistry × List (ℕ × DnsOutgoing))
unfolding async_update async_broadcast_service
async_update_service i s = do
  s' ← async_update i s
  sent ← async_broadcast_service i register_time none true
  ok (s', sent)

unfoldable pub is_none_left : List ServiceInfo → Bool
is_none_left [] = true
is_none_left (i ∷ is) = false

-- The goodbye of `async_unregister_service`: without the addresses if another service has them
unfoldable pub goodbye : ServiceInfo → ServiceRegistry → Registered (List (ℕ × DnsOutgoing))
unfolding async_get_infos_server is_none_left async_broadcast_service
goodbye i s = elim i.server_key [
  | none ↦ err assertion_error
  | some key ↦ do
    entries ← async_get_infos_server key s
    async_broadcast_service i unregister_time (some 0) (is_none_left entries)
]

-- `Zeroconf.async_unregister_service`
unfoldable pub async_unregister_service :
    ServiceInfo → ServiceRegistry → Registered (ServiceRegistry × List (ℕ × DnsOutgoing))
unfolding set_server_if_missing async_remove goodbye
async_unregister_service i s = do
  s' ← async_remove (set_server_if_missing i ∷ []) s
  sent ← goodbye (set_server_if_missing i) s'
  ok (s', sent)

unfoldable pub add_goodbyes : List ServiceInfo → DnsOutgoing → Registered DnsOutgoing
unfolding add_broadcast_answer
add_goodbyes [] out = ok out
add_goodbyes (i ∷ is) out = do out' ← add_broadcast_answer i (some 0) true out; add_goodbyes is out'

-- `Zeroconf.generate_unregister_all_services`: no message if no service is registered
unfoldable pub generate_unregister_all_services :
    ServiceRegistry → Registered (ServiceRegistry × Option DnsOutgoing)
unfolding async_get_service_infos is_none_left add_goodbyes async_remove
generate_unregister_all_services s =
    let infos = async_get_service_infos s in
    if is_none_left infos then ok (s, none) else do
      out ← add_goodbyes infos (init_outgoing flags_qr_response_aa true 0)
      s' ← async_remove infos s
      ok (s', some out)
