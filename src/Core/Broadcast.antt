-- ===== src/Core/Broadcast.antt =====
-- The time to live of what `Zeroconf` broadcasts.
use lscamoflash.Const.{flags_qr_response_aa}
use lscamoflash.Services.{set_of}
use lscamoflash.Core.{add_broadcast_answer, add_records, generate_service_broadcast}
use lscamoflash.Prelude.{
  ℕ, All, All-snoc, Bool, Bool-cases, List, Option, Text, [], any_of, false, inl, inr, map, none,
  refl, some, true, ◌++◌, ◌∷◌, ◌≡◌,
}
use lscamoflash.Dns.{Record, fast_init_record, record_eq}
use lscamoflash.Services.{
  ServiceInfo, dns_addresses, dns_nsec, dns_pointer, dns_service, dns_text,
  get_address_and_nsec_records, missing_types, set_add, ttl_or,
}
use lscamoflash.Outgoing.{DnsOutgoing, add_answer_at_time, init_outgoing}
use lscamoflash.IpAddress.{IpAddress}
use lscamoflash.Registry.{ok}

abbrev HaveTtl : ℕ → List Record → Type 0
HaveTtl t rs = All (λ r. r.ttl ≡ t) rs

-- Every answer of a message has a time to live.
abbrev pub AnswersHaveTtl : ℕ → DnsOutgoing → Type 0
AnswersHaveTtl t out = All (λ a. a.0.ttl ≡ t) out.answers

add_records-AnswersHaveTtl :
    (t : ℕ) (rs : List Record) (out : DnsOutgoing)
    → HaveTtl t rs
    → AnswersHaveTtl t out
    → AnswersHaveTtl t (add_records rs out)
unfolding add_records add_answer_at_time
add_records-AnswersHaveTtl t [] out a o = o
add_records-AnswersHaveTtl t (r ∷ rs) out (b, a) o =
    add_records-AnswersHaveTtl t rs (add_answer_at_time (some r) 0 out) a
      (All-snoc (λ x. x.0.ttl ≡ t) out.answers (r, 0) o b)

HaveTtl-append : (t : ℕ) (xs ys : List Record) → HaveTtl t xs → HaveTtl t ys → HaveTtl t (xs ++ ys)
HaveTtl-append t [] ys a b = b
HaveTtl-append t (x ∷ xs) ys (h, a) b = (h, HaveTtl-append t xs ys a b)

HaveTtl-map :
    (t : ℕ) (f : IpAddress → Record) (l : List IpAddress)
    → ((a : IpAddress) → (f a).ttl ≡ t)
    → HaveTtl t (map f l)
HaveTtl-map t f [] h = tt
HaveTtl-map t f (a ∷ l) h = (h a, HaveTtl-map t f l h)

dns_addresses-HaveTtl : (t now : ℕ) (i : ServiceInfo) → HaveTtl t (dns_addresses (some t) now i)
unfolding dns_addresses ttl_or fast_init_record
dns_addresses-HaveTtl t now i = HaveTtl-map t _ (i.ipv4_addresses ++ i.ipv6_addresses) (λ a. refl)

set_add-HaveTtl :
    (t : ℕ) (r : Record) (s : List Record) → r.ttl ≡ t → HaveTtl t s → HaveTtl t (set_add r s)
unfolding set_add
set_add-HaveTtl t r s e a = elim (Bool-cases (any_of (record_eq r) s)) [
  | inl f ↦ rw f a
  | inr f ↦ rw f (All-snoc (λ x. x.ttl ≡ t) s r a e)
]

set_of-HaveTtl : (t : ℕ) (rs s : List Record) → HaveTtl t rs → HaveTtl t s → HaveTtl t (set_of rs s)
unfolding set_of
set_of-HaveTtl t [] s a b = b
set_of-HaveTtl t (r ∷ rs) s (e, a) b =
    set_of-HaveTtl t rs (set_add r s) a (set_add-HaveTtl t r s e b)

-- The addresses, and the record of the types that are missing, where the server is set
with_missing-HaveTtl :
    (t : ℕ) (o : Option Text) (server : Text) (addresses : List Record)
    (missing : ℕ → List ℕ → Record) (ts : List ℕ)
    → o ≡ some server
    → ((x : ℕ) (xs : List ℕ) → (missing x xs).ttl ≡ t)
    → HaveTtl t addresses
    → (rs : List Record) × (elim ts as (λ x. Option (List Record)) [
      | [] ↦ some addresses
      | x ∷ xs ↦ elim o [ none ↦ none | some s ↦ some (set_add (missing x xs) addresses) ]
    ]
        ≡ some rs)
      × HaveTtl t rs
with_missing-HaveTtl t o server addresses missing [] e h a = (addresses, refl, a)
with_missing-HaveTtl t o server addresses missing (x ∷ xs) e h a = (
  set_add (missing x xs) addresses,
  rw e refl,
  set_add-HaveTtl t (missing x xs) addresses (h x xs) a,
)

dns_nsec-ttl : (t now : ℕ) (i : ServiceInfo) (ts : List ℕ) → (dns_nsec ts (some t) now i).ttl ≡ t
unfolding dns_nsec ttl_or fast_init_record
dns_nsec-ttl t now i ts = refl

get_address_records-HaveTtl :
    (t now : ℕ) (i : ServiceInfo) (server : Text)
    → i.server ≡ some server
    → (rs : List Record) × (get_address_and_nsec_records (some t) now i ≡ some rs) × HaveTtl t rs
unfolding get_address_and_nsec_records
get_address_records-HaveTtl t now i server e =
    let addresses = dns_addresses (some t) now i in
    with_missing-HaveTtl t i.server server (set_of addresses [])
      (λ x xs. dns_nsec (x ∷ xs) (some t) now i) (missing_types addresses) e
      (λ x xs. dns_nsec-ttl t now i (x ∷ xs))
      (set_of-HaveTtl t addresses [] (dns_addresses-HaveTtl t now i) tt)

generate_service_broadcast_lem :
    (i : ServiceInfo) (ttl : Option ℕ) (rs : List Record)
    → get_address_and_nsec_records ttl 0 i ≡ some rs
    → generate_service_broadcast i ttl true
      ≡ ok (
          add_records
            (dns_pointer ttl 0 i ∷ dns_service ttl 0 i ∷ dns_text ttl 0 i ∷ rs)
            (init_outgoing flags_qr_response_aa true 0))
unfolding generate_service_broadcast add_broadcast_answer
generate_service_broadcast_lem i ttl rs e = rw (add_broadcast_answer, e) refl

-- A broadcast of a service whose server is set is made, with its addresses or without, and when it
-- is given a time to live, all its records have it: those of a goodbye have 0.
pub generate_service_broadcast-ttl :
    (i : ServiceInfo) (t : ℕ) (broadcast_addresses : Bool) (server : Text)
    → i.server ≡ some server
    → (out : DnsOutgoing) × (generate_service_broadcast i (some t) broadcast_addresses ≡ ok out)
      × AnswersHaveTtl t out
unfolding generate_service_broadcast add_broadcast_answer dns_pointer dns_service dns_text ttl_or
    fast_init_record
generate_service_broadcast-ttl i t false server e = (
  _,
  refl,
  add_records-AnswersHaveTtl t
      (dns_pointer (some t) 0 i ∷ dns_service (some t) 0 i ∷ dns_text (some t) 0 i ∷ [])
      (init_outgoing flags_qr_response_aa true 0) (refl, (refl, (refl, tt))) tt,
)
generate_service_broadcast-ttl i t true server e =
    let (rs, f, a) = get_address_records-HaveTtl t 0 i server e in
    (
      add_records (dns_pointer (some t) 0 i ∷ dns_service (some t) 0 i ∷ dns_text (some t) 0 i ∷ rs)
          (init_outgoing flags_qr_response_aa true 0),
      generate_service_broadcast_lem i (some t) rs f,
      add_records-AnswersHaveTtl t
          (dns_pointer (some t) 0 i ∷ dns_service (some t) 0 i ∷ dns_text (some t) 0 i ∷ rs)
          (init_outgoing flags_qr_response_aa true 0) (refl, (refl, (refl, a))) tt,
    )
