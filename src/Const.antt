-- ===== src/Const.antt =====
-- The constants of SOURCE/src/modules/python/zeroconf/src/zeroconf/const.py that the model uses.
pub mod Types
use Prim.Native.Nat.{ℕ}
use lscamoflash.Prelude.{Text, codes}

abbrev pub duplicate_question_interval : ℕ
duplicate_question_interval = 999

abbrev pub duplicate_packet_suppression_interval : ℕ
duplicate_packet_suppression_interval = 1000

abbrev pub unregister_time : ℕ
unregister_time = 125

abbrev pub check_time : ℕ
check_time = 175

abbrev pub register_time : ℕ
register_time = 225

abbrev pub listener_time : ℕ
listener_time = 200

abbrev pub flags_qr_query : ℕ
flags_qr_query = 0

abbrev pub one_second : ℕ
one_second = 1000

abbrev pub mdns_port : ℕ
mdns_port = 5353

abbrev pub dns_host_ttl : ℕ
dns_host_ttl = 120

abbrev pub dns_other_ttl : ℕ
dns_other_ttl = 4500

-- `_DNS_OTHER_TTL / 4`
abbrev pub dns_ptr_min_ttl : ℕ
dns_ptr_min_ttl = 1125

abbrev pub dns_packet_header_len : ℕ
dns_packet_header_len = 12

abbrev pub max_msg_typical : ℕ
max_msg_typical = 1460

abbrev pub max_msg_absolute : ℕ
max_msg_absolute = 8966

abbrev pub flags_qr_mask : ℕ
flags_qr_mask = 0x8000

abbrev pub flags_tc : ℕ
flags_tc = 0x0200

-- `_FLAGS_QR_RESPONSE | _FLAGS_AA`
abbrev pub flags_qr_response_aa : ℕ
flags_qr_response_aa = 0x8400

abbrev pub class_in : ℕ
class_in = 1

-- `_CLASS_IN | _CLASS_UNIQUE`
abbrev pub class_in_unique : ℕ
class_in_unique = 0x8001

abbrev pub class_unique : ℕ
class_unique = 0x8000

abbrev pub local_trailer : Text
local_trailer = codes ".local."

abbrev pub tcp_protocol_local_trailer : Text
tcp_protocol_local_trailer = codes "._tcp.local."

abbrev pub nontcp_protocol_local_trailer : Text
nontcp_protocol_local_trailer = codes "._udp.local."

abbrev pub service_type_enumeration_name : Text
service_type_enumeration_name = codes "_services._dns-sd._udp.local."
