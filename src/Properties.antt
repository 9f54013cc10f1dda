-- ===== src/Properties.antt =====
-- The properties of a `ServiceInfo` and the text that carries them: `_set_properties`, `_set_text` and
-- `_unpack_text_into_properties` of SOURCE/src/modules/python/zeroconf/src/zeroconf/_services/info.py.
-- What a text is decoded to is decoded anew at each reading; a dict that is kept as it was given is
-- `kept_properties`.
pub mod RoundTrip
use lscamoflash.Prelude.Dict.{Dict}
use lscamoflash.Prelude.{
  ℕ, Bytes, List, Option, Text, [], drop, if◌then◌else◌, length, ltb, map, none, some, suc, take,
  text_eq, utf8_encode, zero, ◌++◌, ◌==◌, ◌∷◌,
}
use lscamoflash.Prelude.Dict

-- A key or a value that a caller passes: a `str`, or a `bytes`
pub data PropertyText : Type 0 where
  string : Text → PropertyText
  raw : Bytes → PropertyText

-- `.encode("utf-8")` of a `str`
unfoldable pub encode_text : PropertyText → Bytes
unfolding utf8_encode
encode_text (string t) = utf8_encode t
encode_text (raw b) = b

-- The list item of a key and its value
unfoldable pub property_item : PropertyText × Option PropertyText → Bytes
unfolding encode_text
property_item (key, none) = encode_text key
property_item (key, some value) = encode_text key ++ (b'=' ∷ encode_text value)

-- The second loop of `_set_properties`: `bytes((n,))` of a length above 255 is a ValueError.
unfoldable pub join_items : List Bytes → Option Bytes
join_items [] = some []
join_items (item ∷ items) =
    let rest = join_items items in
    if ltb 255 (length item)
    then none
    else elim rest [ none ↦ none | some text ↦ some (length item ∷ item ++ text) ]

-- The text that `ServiceInfo._set_properties` makes, or a ValueError
unfoldable pub set_properties : List (PropertyText × Option PropertyText) → Option Bytes
unfolding property_item join_items
set_properties properties = join_items (map property_item properties)

-- A dict of `bytes` alone, which `_set_properties` keeps as it is: an empty value of it stays empty,
-- where the text reads it as None.
unfoldable pub kept_properties :
    List (PropertyText × Option PropertyText) → Option (Dict Bytes (Option Bytes))
kept_properties [] = some []
kept_properties ((raw key, none) ∷ ps) = elim (kept_properties ps) [
  | none ↦ none
  | some m ↦ some ((key, none) ∷ m)
]
kept_properties ((raw key, some (raw value)) ∷ ps) = elim (kept_properties ps) [
  | none ↦ none
  | some m ↦ some ((key, some value) ∷ m)
]
kept_properties ((raw key, some (string value)) ∷ ps) = none
kept_properties ((string key, value) ∷ ps) = none

-- `key_value.partition(b"=")`, without the separator
unfoldable pub partition : Bytes → Bytes × Bytes
partition [] = ([], [])
partition (c ∷ cs) = if c == b'=' then ([], cs) else (c ∷ (partition cs).0, (partition cs).1)

-- `value or None`
unfoldable pub value_or_none : Bytes → Option Bytes
value_or_none [] = none
value_or_none (c ∷ cs) = some (c ∷ cs)

-- `if key not in properties: properties[key] = value`
unfoldable pub put_first : Bytes × Bytes → Dict Bytes (Option Bytes) → Dict Bytes (Option Bytes)
unfolding value_or_none Dict.has
put_first (key, value) m =
    if Dict.has text_eq key m then m else Dict.insert text_eq key (value_or_none value) m

-- The loop of `_unpack_text_into_properties`, on what is left of the text; each round takes at least
-- one byte of it.
unfoldable pub unpack_items : ℕ → Bytes → Dict Bytes (Option Bytes) → Dict Bytes (Option Bytes)
unfolding put_first partition
unpack_items fuel [] m = m
unpack_items zero (n ∷ text) m = m
unpack_items (suc fuel) (n ∷ text) m =
    unpack_items fuel (drop n text) (put_first (partition (take n text)) m)

-- `ServiceInfo._unpack_text_into_properties`
unfoldable pub unpack_text_into_properties : Bytes → Dict Bytes (Option Bytes)
unfolding unpack_items
unpack_text_into_properties text = unpack_items (length text) text []
