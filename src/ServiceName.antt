-- ===== src/ServiceName.antt =====
-- `service_type_name` and `possible_types` of
-- SOURCE/src/modules/python/zeroconf/src/zeroconf/_utils/name.py.
use lscamoflash.Const.{local_trailer, nontcp_protocol_local_trailer, tcp_protocol_local_trailer}
use lscamoflash.Prelude.{
  ℕ, Bool, List, Option, Text, [], any_of, codes, drop, false, if◌then◌else◌, join_dots, leb,
  length, ltb, none, not, some, split_dots, suc, take, text_eq, true, utf8_encode, zero, ◌&&◌, ◌++◌,
  ◌+◌, ◌-◌, ◌==◌, ◌||◌, ◌∷◌,
}

pub data NameError : Type 0 where
  too_long_name bad_trailer no_service_name starts_with_dot no_underscore : NameError
  too_long_service double_hyphen edge_hyphen no_letter bad_character : NameError
  no_subtype too_long_instance control_character : NameError
  index_error : NameError

pub data Checked {ℓ} (A : Type ℓ) : Type ℓ where
  ok : A → Checked A
  err : NameError → Checked A

infixl 5 ◌>>=◌ ◌>>◌
abbrev pub ◌>>=◌ {ℓ κ} : {A : Type ℓ} {B : Type κ} → Checked A → (A → Checked B) → Checked B
ok a >>= f = f a
err e >>= f = err e

abbrev pub ◌>>◌ {ℓ} : {B : Type ℓ} → Checked (Unit {0}) → Checked B → Checked B
m >> k = m >>= λ _. k

-- `if bad: raise error`
abbrev pub reject : Bool → NameError → Checked (Unit {0})
reject true e = err e
reject false e = ok tt

-- `text.endswith(suffix)`: what stands before the suffix
unfoldable pub strip_suffix : Text → Text → Option Text
strip_suffix suffix t =
    let n = length t - length suffix in
    if leb (length suffix) (length t) && text_eq (drop n t) suffix then some (take n t) else none

-- The last label, and those before it
unfoldable pub pop_label : Text → List Text → List Text × Text
pop_label l [] = ([], l)
pop_label l (l' ∷ ls) = let (front, last) = pop_label l' ls in (l ∷ front, last)

unfoldable pub is_letter : ℕ → Bool
is_letter c = (leb b'A' c && leb c b'Z') || (leb b'a' c && leb c b'z')

-- The classes of `_HAS_ONLY_A_TO_Z_NUM_HYPHEN` and `_HAS_ONLY_A_TO_Z_NUM_HYPHEN_UNDERSCORE`
unfoldable pub is_allowed : Bool → ℕ → Bool
unfolding is_letter
is_allowed strict c =
    is_letter c || ((leb b'0' c && leb c b'9') || ((c == b'-') || (not strict && (c == b'_'))))

-- A match of `^[…]+$`, whose `$` also stands before a newline at the end
unfoldable pub all_allowed : Bool → Text → Bool
unfolding is_allowed
all_allowed strict [] = false
all_allowed strict (c ∷ []) = is_allowed strict c
all_allowed strict (c ∷ d ∷ []) = is_allowed strict c && (is_allowed strict d || (d == 10))
all_allowed strict (c ∷ d ∷ e ∷ cs) = is_allowed strict c && all_allowed strict (d ∷ e ∷ cs)

unfoldable pub has_double_hyphen : Text → Bool
has_double_hyphen [] = false
has_double_hyphen (c ∷ []) = false
has_double_hyphen (c ∷ d ∷ cs) = ((c == b'-') && (d == b'-')) || has_double_hyphen (d ∷ cs)

unfoldable pub last_char : ℕ → Text → ℕ
last_char c [] = c
last_char c (d ∷ cs) = last_char d cs

unfoldable pub is_control : ℕ → Bool
is_control c = ltb c 0x20 || (c == 0x7F)

-- The checks of the service name behind its underscore; an empty one is an IndexError.
unfoldable pub check_service : Bool → Text → Checked (Unit {0})
unfolding has_double_hyphen last_char is_letter all_allowed
check_service strict t = do
  reject (strict && ltb 15 (length t)) too_long_service
  reject (has_double_hyphen t) double_hyphen
  edges ← elim t [ [] ↦ err index_error | c ∷ cs ↦ ok ((c == b'-') || (last_char c cs == b'-')) ]
  reject edges edge_hyphen
  reject (not (any_of is_letter t)) no_letter
  reject (not (all_allowed strict t)) bad_character

-- `len(remaining) == 1 and len(remaining[0]) == 0`
unfoldable pub is_only_empty : List Text → Bool
is_only_empty ([] ∷ []) = true
is_only_empty _ = false

-- The block of `service_type_name` on the service name, the last label of `remaining`
unfoldable pub check_labels : Bool → List Text → Text → Checked (Unit {0})
unfolding is_only_empty check_service
check_labels strict front [] = err no_service_name
check_labels strict front (c ∷ t) = do
  reject (is_only_empty front) starts_with_dot
  reject (not (c == b'_')) no_underscore
  check_service strict t

-- `if remaining and remaining[-1] == "_sub"`: the labels without it
unfoldable pub pop_sub : List Text → Checked (List Text)
unfolding pop_label
pop_sub [] = ok []
pop_sub (l ∷ ls) =
    let (front, last) = pop_label l ls in
    if text_eq last (codes "_sub")
    then elim front [
      | [] ↦ err no_subtype
      | l' ∷ ls' ↦ elim l' [ [] ↦ err no_subtype | c ∷ cs ↦ ok ((c ∷ cs) ∷ ls') ]
    ]
    else ok (l ∷ ls)

-- The checks of the instance name, the labels that remain joined
unfoldable pub check_instance : List Text → Checked (Unit {0})
unfolding is_control utf8_encode join_dots
check_instance [] = ok tt
check_instance (l ∷ ls) = do
  reject (ltb 63 (length (utf8_encode (join_dots (l ∷ ls))))) too_long_instance
  reject (any_of is_control (join_dots (l ∷ ls))) control_character

-- The trailer, what stands before it, and whether it names a protocol
unfoldable pub find_trailer : Bool → Text → Checked (Text × Text × Bool)
unfolding strip_suffix
find_trailer strict t = elim (strip_suffix tcp_protocol_local_trailer t) [
  | some front ↦ ok (front, tcp_protocol_local_trailer, true)
  | none ↦ elim (strip_suffix nontcp_protocol_local_trailer t) [
    | some front ↦ ok (front, nontcp_protocol_local_trailer, true)
    | none ↦ if strict then err bad_trailer else elim (strip_suffix local_trailer t) [
      | some front ↦ ok (front, codes "local.", false)
      | none ↦ err bad_trailer
    ]
  ]
]

unfoldable pub check_service_name : Bool → List Text → Checked (List Text × Text)
unfolding pop_label check_labels
check_service_name strict [] = err index_error
check_service_name strict (l ∷ ls) = do
  let popped = pop_label l ls
  check_labels strict popped.0 popped.1
  ok popped

-- `service_type_name`
unfoldable pub service_type_name : Text → Bool → Checked Text
unfolding find_trailer split_dots check_service_name pop_sub check_instance
service_type_name type strict = do
  reject (ltb 256 (length type)) too_long_name
  (front, trailer, has_protocol) ← find_trailer strict type
  (remaining, service_name) ←
      (if strict || has_protocol
        then check_service_name strict (split_dots front)
        else ok (split_dots front, []))
  instance_labels ← pop_sub remaining
  check_instance instance_labels
  ok (service_name ++ trailer)

unfoldable pub starts_with_underscore : Text → Bool
starts_with_underscore [] = false
starts_with_underscore (c ∷ cs) = c == b'_'

-- `possible_types`: `labels[label_count - count - 4 :]` while its first label starts with `_`. A
-- negative index counts from the end.
unfoldable pub parts_at : ℕ → List Text → List Text
parts_at count labels =
    let n = length labels in
    if leb (count + 4) n
    then drop (n - (count + 4)) labels
    else if leb (count + 4 - n) n
    then drop (n - (count + 4 - n)) labels
    else labels

unfoldable pub possible_types_from : ℕ → ℕ → List Text → List Text
unfolding parts_at starts_with_underscore join_dots
possible_types_from zero count labels = []
possible_types_from (suc left) count labels =
    let rest = possible_types_from left (count + 1) labels in
    elim (parts_at count labels) [
      | [] ↦ []
      | p ∷ ps ↦ if starts_with_underscore p then join_dots (p ∷ ps) ∷ rest else []
    ]

unfoldable pub possible_types : Text → List Text
unfolding possible_types_from split_dots
possible_types name = let labels = split_dots name in possible_types_from (length labels) 0 labels
