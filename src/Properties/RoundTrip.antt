-- ===== src/Properties/RoundTrip.antt =====
-- The text of the properties of a `ServiceInfo`, written and read.
use lscamoflash.Prelude.Dict.{Dict}
use lscamoflash.Prelude.{
  ℕ, All, Bytes, List, Option, [], any_of, ap, arith, drop, false, length, none, refl, some, take,
  text_eq, text_eq_iff, ◌++◌, ◌==◌, ◌||◌, ◌∷◌, ◌≡◌, ◌≤◌, append-nil, append_assoc, length-append,
  map, suc, sym, zero, ◌∙◌,
}
use lscamoflash.Prelude.Dict
use lscamoflash.Properties.{
  PropertyText, encode_text, partition, property_item, put_first, value_or_none, join_items,
  set_properties, unpack_items, unpack_text_into_properties,
}

abbrev pub Property : Type 0
Property = PropertyText × Option PropertyText

-- A key and a value as bytes; an empty value reads back as none.
unfoldable pub as_bytes : Property → Bytes × Option Bytes
as_bytes (key, none) = (encode_text key, none)
as_bytes (key, some value) = (encode_text key, value_or_none (encode_text value))

-- The keys are different once encoded.
abbrev pub AreDistinct : List Property → Type 0
AreDistinct [] = Unit {0}
AreDistinct (p ∷ ps) =
    (any_of (λ q. text_eq (encode_text q.0) (encode_text p.0)) ps ≡ false) × AreDistinct ps

-- A key has no `=`, and the item has at most 255 bytes.
pub record IsFit (p : Property) : Type 0 where
  pub no_separator : any_of (λ c. c == b'=') (encode_text p.0) ≡ false
  pub fits : length (property_item p) ≤ 255

partition_key :
    (key value : Bytes)
    → any_of (λ c. c == b'=') key ≡ false
    → partition (key ++ (b'=' ∷ value)) ≡ (key, value)
unfolding partition
partition_key [] value e = refl
partition_key (c ∷ key) value e = ground (arith, e, partition_key key value)

partition_all : (key : Bytes) → any_of (λ c. c == b'=') key ≡ false → partition key ≡ (key, [])
unfolding partition
partition_all [] e = refl
partition_all (c ∷ key) e = ground (arith, e, partition_all key)

-- What an item reads as
read_item :
    (p : Property)
    → IsFit p
    → ((partition (property_item p)).0, value_or_none (partition (property_item p)).1) ≡ as_bytes p
unfolding property_item as_bytes value_or_none
read_item (key, none) f = rw (partition_all (encode_text key) f.no_separator) refl
read_item (key, some value) f =
    rw (partition_key (encode_text key) (encode_text value) f.no_separator) refl

take-append : (xs ys : Bytes) → take (length xs) (xs ++ ys) ≡ xs
take-append [] ys = refl
take-append (x ∷ xs) ys = ap (λ l. x ∷ l) (take-append xs ys)

drop-append : (xs ys : Bytes) → drop (length xs) (xs ++ ys) ≡ ys
drop-append [] ys = refl
drop-append (x ∷ xs) ys = drop-append xs ys

-- A new key goes to the end of a dict.
insert_new :
    (k : Bytes) (v : Option Bytes) (m : Dict Bytes (Option Bytes))
    → Dict.has text_eq k m ≡ false
    → Dict.insert text_eq k v m ≡ m ++ ((k, v) ∷ [])
unfolding Dict.has Dict.insert Dict.get
insert_new k v [] e = refl
insert_new k v ((j, w) ∷ m) e = ground (arith, e, insert_new k v m)

has-insert_text :
    (k j : Bytes) (v : Option Bytes) (m : Dict Bytes (Option Bytes))
    → Dict.has text_eq j (Dict.insert text_eq k v m) ≡ (text_eq k j || Dict.has text_eq j m)
unfolding Dict.has
has-insert_text k j v m = ground (arith, Dict.get-insert_text k j v m)

-- The keys of some properties are not in a dict.
AreNew : Dict Bytes (Option Bytes) → List Property → Type 0
AreNew m ps = All (λ p. Dict.has text_eq (encode_text p.0) m ≡ false) ps

nothing_there : (ps : List Property) → AreNew [] ps
unfolding AreNew Dict.has
nothing_there [] = tt
nothing_there (p ∷ ps) = (refl, nothing_there ps)

AreNew-insert :
    (k : Bytes) (v : Option Bytes) (m : Dict Bytes (Option Bytes)) (ps : List Property)
    → any_of (λ q. text_eq (encode_text q.0) k) ps ≡ false
    → AreNew m ps
    → AreNew (Dict.insert text_eq k v m) ps
unfolding AreNew
AreNew-insert k v m [] d a = tt
AreNew-insert k v m (p ∷ ps) d (e, a) = (
  ground (
    arith,
    d,
    e,
    has-insert_text k (encode_text p.0) v m,
    text_eq_iff (encode_text p.0) k,
    text_eq_iff k (encode_text p.0),
  ),
  AreNew-insert k v m ps (ground (arith, d)) a,
)

as_bytes-key : (p : Property) → (as_bytes p).0 ≡ encode_text p.0
unfolding as_bytes
as_bytes-key (key, none) = refl
as_bytes-key (key, some value) = refl

put_first_new :
    (p : Property) (m : Dict Bytes (Option Bytes))
    → IsFit p
    → Dict.has text_eq (encode_text p.0) m ≡ false
    → put_first (partition (property_item p)) m
      ≡ Dict.insert text_eq (encode_text p.0) (as_bytes p).1 m
unfolding put_first
put_first_new p m f e =
    let key = ap (λ x. x.0) (read_item p f) ∙ as_bytes-key p in
    let value = ap (λ x. x.1) (read_item p f) in rw (put_first, key, value, e) refl

-- The text of properties whose items fit
abbrev property_text : List Property → Bytes
property_text [] = []
property_text (p ∷ ps) = length (property_item p) ∷ property_item p ++ property_text ps

join_items_fit :
    (ps : List Property)
    → All IsFit ps
    → join_items (map property_item ps) ≡ some (property_text ps)
unfolding join_items
join_items_fit [] a = refl
join_items_fit (p ∷ ps) (f, a) = ground (arith, f.fits, join_items_fit ps a)

as_bytes_eta : (p : Property) → (encode_text p.0, (as_bytes p).1) ≡ as_bytes p
unfolding as_bytes
as_bytes_eta (key, none) = refl
as_bytes_eta (key, some value) = refl

unpack_items-cons :
    (fuel n : ℕ) (text : Bytes) (m : Dict Bytes (Option Bytes))
    → unpack_items (suc fuel) (n ∷ text) m
      ≡ unpack_items fuel (drop n text) (put_first (partition (take n text)) m)
unfolding unpack_items
unpack_items-cons fuel n text m = refl

unpack_items-property_text :
    (ps : List Property) (fuel : ℕ) (m : Dict Bytes (Option Bytes))
    → All IsFit ps
    → AreDistinct ps
    → AreNew m ps
    → length (property_text ps) ≤ fuel
    → unpack_items fuel (property_text ps) m ≡ m ++ map as_bytes ps
unfolding AreNew
unpack_items-property_text [] fuel m a d n le = unfold unpack_items in sym (append-nil m)
unpack_items-property_text (p ∷ ps) zero m a d n le = absurd (omega (arith, le))
unpack_items-property_text (p ∷ ps) (suc fuel) m (f, a) (u, d) (e, n) le =
    let item = property_item p in
    let key = encode_text p.0 in
    let m' = Dict.insert text_eq key (as_bytes p).1 m in
    let rest =
      unpack_items-property_text ps fuel m' a d (AreNew-insert key (as_bytes p).1 m ps u n)
        (omega (arith, le, length-append item (property_text ps))) in
    unpack_items-cons fuel (length item) (item ++ property_text ps) m
    ∙ rw
        (
          take-append item (property_text ps),
          drop-append item (property_text ps),
          put_first_new p m f e,
          rest,
          insert_new key (as_bytes p).1 m e,
          as_bytes_eta p,
          append_assoc m (as_bytes p ∷ []) (map as_bytes ps),
        )
        refl

-- Properties whose keys are different once encoded and have no `=`, each with its value in at most
-- 255 bytes, have a text, and what is unpacked from it are the same properties in the same order,
-- as bytes; a value that is empty is read as none.
pub unpack-set_properties :
    (ps : List Property)
    → All IsFit ps
    → AreDistinct ps
    → (text : Bytes) × (set_properties ps ≡ some text)
      × (unpack_text_into_properties text ≡ map as_bytes ps)
unfolding set_properties unpack_text_into_properties
unpack-set_properties ps a d = (
  property_text ps,
  join_items_fit ps a,
  unpack_items-property_text ps (length (property_text ps)) [] a d (nothing_there ps) (omega arith),
)
