-- ===== src/Core/Check.antt =====
-- `Zeroconf.async_check_service` of
-- SOURCE/src/modules/python/zeroconf/src/zeroconf/_core.py: the search for a name that nobody has. The
-- coroutine is a sequence of iterations of its loop, each with the time and the cache that it finds;
-- one that sends is followed by one that finds the same.
pub mod Names
pub mod Unique
use lscamoflash.Const.{check_time}
use lscamoflash.Cache.{DnsCache, current_entry_with_name_and_alias, entries_with_name}
use lscamoflash.Prelude.{
  ℕ, Bool, List, Option, Text, [], false, if◌then◌else◌, leb, length, lower, ltb, none, not, some,
  suc, take, true, zero, ◌%◌, ◌++◌, ◌+◌, ◌-◌, ◌/◌, ◌∷◌,
}
use lscamoflash.Services.{ServiceInfo}
use lscamoflash.ServiceName.{NameError, service_type_name, strip_suffix}
use lscamoflash.ServiceName
use lscamoflash.Outgoing.{DnsOutgoing}
use lscamoflash.Core.{generate_service_query}

-- What the check raises. `no_fuel` is the model's own: the loop over the names ran out of fuel.
pub data CheckError : Type 0 where
  bad_name : NameError → CheckError
  bad_type_in_name : CheckError
  non_unique_name : CheckError
  no_fuel : CheckError

pub data Checking {ℓ} (A : Type ℓ) : Type ℓ where
  ok : A → Checking A
  err : CheckError → Checking A

infixl 5 ◌>>=◌
abbrev pub ◌>>=◌ {ℓ κ} : {A : Type ℓ} {B : Type κ} → Checking A → (A → Checking B) → Checking B
ok a >>= f = f a
err e >>= f = err e

unfoldable pub check_name : Text → Bool → Checking Text
unfolding service_type_name
check_name name strict = elim (service_type_name name strict) [
  | ServiceName.ok t ↦ ok t
  | ServiceName.err e ↦ err (bad_name e)
]

-- `instance_name_from_service_info` of _services/info.py
unfoldable pub instance_name_from_service_info : ServiceInfo → Bool → Checking Text
unfolding check_name strip_suffix
instance_name_from_service_info i strict = check_name i.name strict >>= λ service_name.
    elim (strip_suffix service_name i.type) [
      | none ↦ err bad_type_in_name
      | some front ↦ ok (take (length i.name - (length service_name + 1)) i.name)
    ]

-- The digits of a number in base 10, as `str` writes them
unfoldable pub digits_from : ℕ → ℕ → Text
digits_from zero n = []
digits_from (suc fuel) n =
    let front = digits_from fuel (n / 10) in
    if ltb n 10 then (48 + n) ∷ [] else front ++ ((48 + n % 10) ∷ [])

unfoldable pub digits : ℕ → Text
unfolding digits_from
digits n = digits_from (suc n) n

-- `f"{instance_name}-{next_instance_number}.{info.type}"`
unfoldable pub next_name : Text → ℕ → Text → Text
unfolding digits
next_name instance_name n type = instance_name ++ (b'-' ∷ digits n ++ (b'.' ∷ type))

-- The local variables of `async_check_service`
pub record Check : Type 0 where
  pub info : ServiceInfo
  pub next_instance_number : ℕ
  pub next_time : ℕ
  pub sent : ℕ

-- `self.cache.current_entry_with_name_and_alias(info.type, info.name)`
unfoldable pub is_taken : ℕ → Text → Text → DnsCache → Bool
unfolding current_entry_with_name_and_alias
is_taken now type name c = elim (current_entry_with_name_and_alias now type name c) [
  | none ↦ false
  | some r ↦ true
]

-- `info.name = name`, which sets the key too
unfoldable pub set_name : Text → ServiceInfo → ServiceInfo
set_name name i = record i { name = name; key = lower name }

-- The inner loop: another name while the name is taken
unfoldable pub find_name : ℕ → Bool → Bool → Text → ℕ → DnsCache → Check → Checking Check
unfolding is_taken next_name check_name set_name
find_name zero allow_name_change strict instance_name now c k = err no_fuel
find_name (suc fuel) allow_name_change strict instance_name now c k =
    let name = next_name instance_name k.next_instance_number k.info.type in
    let k' : Check = record {
      info = set_name name k.info;
      next_instance_number = k.next_instance_number + 1;
      next_time = now;
      sent = 0;
    } in
    let rest = find_name fuel allow_name_change strict instance_name now c k' in
    if not (is_taken now k.info.type k.info.name c)
    then ok k
    else if not allow_name_change
    then err non_unique_name
    else check_name name strict >>= λ t. rest

-- Fuel for the first name, for every name that can be taken, and one more
unfoldable pub name_fuel : Text → DnsCache → ℕ
unfolding entries_with_name
name_fuel type c = length (entries_with_name type c) + 2

-- What an iteration does: the check is over, or it waits, or it has sent a query.
pub data Iteration : Type 0 where
  is_unique : ServiceInfo → Iteration
  waits : ℕ → Check → Iteration
  sends : DnsOutgoing → Check → Iteration

-- One iteration of the outer loop, behind the test of its head
unfoldable pub send_or_wait : ℕ → Check → Iteration
unfolding generate_service_query
send_or_wait now k =
    if ltb now k.next_time
    then waits (k.next_time - now) k
    else sends (generate_service_query k.info)
        (record k { next_time = k.next_time + check_time; sent = k.sent + 1 })

unfoldable pub check_iteration : Bool → Bool → Text → ℕ → DnsCache → Check → Checking Iteration
unfolding find_name name_fuel send_or_wait
check_iteration allow_name_change strict instance_name now c k =
    if leb 3 k.sent
    then ok (is_unique k.info)
    else find_name (name_fuel k.info.type c) allow_name_change strict instance_name now c k
      >>= λ k'. ok (send_or_wait now k')

-- The iterations, with what each finds: what was sent and when, and the service, once it is over
unfoldable pub check_iterations :
    Bool
    → Bool
    → Text
    → List (ℕ × DnsCache)
    → Check
    → Checking (List (ℕ × DnsOutgoing) × Option ServiceInfo)
unfolding check_iteration
check_iterations allow strict instance_name [] k = ok ([], none)
check_iterations allow strict instance_name ((now, c) ∷ rounds) k =
    check_iteration allow strict instance_name now c k >>= λ iteration. elim iteration [
      | is_unique i ↦ ok ([], some i)
      | waits d k' ↦ check_iterations allow strict instance_name rounds k'
      | sends out k' ↦ check_iterations allow strict instance_name rounds k' >>= λ rest.
          ok ((now, out) ∷ rest.0, rest.1)
    ]

-- `Zeroconf.async_check_service`, from a time on
unfoldable pub async_check_service :
    Bool
    → Bool
    → Bool
    → ℕ
    → List (ℕ × DnsCache)
    → ServiceInfo
    → Checking (List (ℕ × DnsOutgoing) × Option ServiceInfo)
unfolding instance_name_from_service_info check_iterations
async_check_service allow_name_change cooperating_responders strict now rounds i =
    instance_name_from_service_info i strict >>= λ instance_name.
    if cooperating_responders
    then ok ([], some i)
    else check_iterations allow_name_change strict instance_name rounds
        (record { info = i; next_instance_number = 2; next_time = now; sent = 0 })
