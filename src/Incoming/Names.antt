-- ===== src/Incoming/Names.antt =====
-- Reading of names in `DNSIncoming`: labels and compression pointers.
use lscamoflash.Prelude.Dict.{Dict}
use lscamoflash.Incoming.{
  DecodeError, DnsIncoming, Reader, get_offset, slice, view, err, ◌>>=◌, incoming_decode_error,
  no_fuel, ok, ◌>>◌, modify, return,
}
use lscamoflash.Prelude.Dict
use lscamoflash.Prelude.{
  ℕ, List, Text, [], any_of, get_elem?, if◌then◌else◌, join_dots, length, ltb, none, some, suc,
  utf8_decode, zero, ◌%◌, ◌*◌, ◌++◌, ◌+◌, ◌==◌, ◌||◌, ◌∷◌, Bool,
}

abbrev pub raise : {A : Type 0} → DecodeError → Reader A
raise e m = (err e, m)

abbrev pub max_dns_labels : ℕ
max_dns_labels = 128

abbrev pub max_name_length : ℕ
max_name_length = 253

-- `self._name_cache.get(link)`, where an empty list of labels counts as missing
unfoldable pub cached_labels : ℕ → DnsIncoming → List Text
cached_labels link m = elim (Dict.get ◌==◌ link m.name_cache) [ none ↦ [] | some ls ↦ ls ]

unfoldable pub cache_labels : ℕ → List Text → DnsIncoming → DnsIncoming
cache_labels link labels m = record m { name_cache = Dict.insert ◌==◌ link labels m.name_cache }

-- The labels at the target of a pointer, from the cache or decoded and cached
unfoldable pub linked_labels :
    (ℕ → List ℕ → Reader (ℕ × List Text)) → ℕ → List ℕ → Reader (List Text)
unfolding cached_labels cache_labels
linked_labels follow link seen m = elim (cached_labels link m) [
  | [] ↦
      (do
        (end_, labels) ← follow link (link ∷ seen)
        modify (cache_labels link labels)
        return labels)
        m
  | l ∷ ls ↦ (ok (l ∷ ls), m)
]

-- Behind the checks of a pointer: its labels are added to those before it.
unfoldable pub follow_link :
    (ℕ → List ℕ → Reader (ℕ × List Text)) → ℕ → ℕ → List Text → List ℕ → Reader (ℕ × List Text)
unfolding linked_labels
follow_link follow link off labels seen = do
  linked ← linked_labels follow link seen
  let all_labels = labels ++ linked
  if ltb max_dns_labels (length all_labels)
      then raise incoming_decode_error
      else return (off + 2, all_labels)

-- A target beyond the data, the pointer itself, or a target that was met before
unfoldable pub is_bad_link : ℕ → ℕ → List ℕ → DnsIncoming → Bool
is_bad_link link off seen m =
    ltb (length m.data_) link || ((link == off) || any_of (λ s. s == link) seen)

-- A compression pointer with its first byte at `off`
unfoldable pub decode_pointer :
    (ℕ → List ℕ → Reader (ℕ × List Text)) → ℕ → ℕ → List Text → List ℕ → Reader (ℕ × List Text)
unfolding view follow_link is_bad_link
decode_pointer follow off first labels seen = do
  link_data ← view (off + 1)
  let link = first % 0x40 * 256 + link_data
  λ m.
      if is_bad_link link off seen m
      then raise incoming_decode_error m
      else follow_link follow link off labels seen m

-- One round of the loop of `_decode_labels_at_offset`, over the next round and the recursive call
unfoldable pub decode_at :
    (ℕ → List Text → Reader (ℕ × List Text))
    → (ℕ → List ℕ → Reader (ℕ × List Text))
    → ℕ
    → List Text
    → List ℕ
    → Reader (ℕ × List Text)
unfolding slice decode_pointer
decode_at next follow off labels seen m = elim (get_elem? m.data_ off) [
  | none ↦ (err incoming_decode_error, m)
  | some b ↦
      if b == 0
      then (ok (off + 1, labels), m)
      else if ltb b 0x40
      then next (off + 1 + b) (labels ++ (utf8_decode (slice (off + 1) b m.data_) ∷ [])) m
      else if ltb b 0xC0
      then (err incoming_decode_error, m)
      else decode_pointer follow off b labels seen m
]

-- `DNSIncoming._decode_labels_at_offset`. The first number bounds the pointers that are followed
-- inside one another, the second the rounds of this loop, the third those of the loops inside.
unfoldable pub decode_labels_at_offset : ℕ → ℕ → ℕ → ℕ → List Text → List ℕ → Reader (ℕ × List Text)
unfolding decode_at
decode_labels_at_offset zero rounds n off labels seen m = (err no_fuel, m)
decode_labels_at_offset (suc depth) zero n off labels seen m = (err no_fuel, m)
decode_labels_at_offset (suc depth) (suc rounds) n off labels seen m =
    decode_at (λ off' labels'. decode_labels_at_offset (suc depth) rounds n off' labels' seen)
      (λ link seen'. decode_labels_at_offset depth n n link [] seen') off labels seen m

-- The fuel: no pointer target is met twice, and each is at most the length of the data; a round
-- moves the offset on.
unfoldable pub decode_labels : ℕ → Reader (ℕ × List Text)
unfolding decode_labels_at_offset
decode_labels off m =
    decode_labels_at_offset (length m.data_ + 2) (length m.data_ + 1) (length m.data_ + 1) off [] []
      m

-- `DNSIncoming._read_name`
unfoldable pub read_name : Reader Text
unfolding decode_labels cache_labels
read_name = do
  original_offset ← get_offset
  (off, labels) ← decode_labels original_offset
  modify (λ m. record m { offset = off })
  modify (cache_labels original_offset labels)
  let name = join_dots labels ++ (b'.' ∷ [])
  if ltb max_name_length (length name) then raise incoming_decode_error else return name
