-- ===== src/Cache/Lookup.antt =====
-- What can be read from the buckets after a write, over shut definitions.
use lscamoflash.Prelude.{
  true, ◌&&◌, Option, none, some, [], ◌∷◌, Text, text_eq, text_eq_iff, ◌≡◌, arith, ◌∙◌,
  if◌then◌else◌, Option-cases, inl, inr,
}
use lscamoflash.Prelude.Dict
use lscamoflash.Prelude.Dict.{Dict}
use lscamoflash.Dns.{Record, record_eq}
use lscamoflash.Dns.Equality.{hash_input, record_eq_iff}
use lscamoflash.Cache.{Store, store_of, put_record, put_rest, remove_key}

-- A record in the bucket of a key.
unfoldable pub find_in : Text → Record → Dict Text Store → Option Record
unfolding store_of
find_in key r m = Dict.get record_eq r (store_of key m)

pub get-insert_record :
    {V : Type 0} (k j : Record) (v : V) (m : Dict Record V)
    → Dict.get record_eq j (Dict.insert record_eq k v m)
      ≡ (if record_eq k j then some v else Dict.get record_eq j m)
get-insert_record k j v m = Dict.get-insert record_eq hash_input record_eq_iff k j v m

pub get-delete_record :
    {V : Type 0} (k j : Record) (m : Dict Record V)
    → Dict.get record_eq j (Dict.delete record_eq k m)
      ≡ (if record_eq k j then none else Dict.get record_eq j m)
get-delete_record k j m = Dict.get-delete record_eq hash_input record_eq_iff k j m

pub get_congr_record :
    {V : Type 0} (k j : Record) (m : Dict Record V)
    → record_eq k j ≡ true
    → Dict.get record_eq k m ≡ Dict.get record_eq j m
get_congr_record k j m e =
    Dict.get_congr record_eq hash_input record_eq_iff k j m ((record_eq_iff k j).0 e)

pub get-insert_text :
    {V : Type 0} (k j : Text) (v : V) (m : Dict Text V)
    → Dict.get text_eq j (Dict.insert text_eq k v m)
      ≡ (if text_eq k j then some v else Dict.get text_eq j m)
get-insert_text k j v m = Dict.get-insert text_eq (λ t. t) text_eq_iff k j v m

pub get-delete_text :
    {V : Type 0} (k j : Text) (m : Dict Text V)
    → Dict.get text_eq j (Dict.delete text_eq k m)
      ≡ (if text_eq k j then none else Dict.get text_eq j m)
get-delete_text k j m = Dict.get-delete text_eq (λ t. t) text_eq_iff k j m

pub find_in-put_record :
    (k j : Text) (r q : Record) (m : Dict Text Store)
    → find_in j q (put_record k r m)
      ≡ (if text_eq k j && record_eq r q then some r else find_in j q m)
unfolding find_in put_record
find_in-put_record k j r q m = ground (
  arith,
  text_eq_iff k j,
  get-insert_text k j (Dict.insert record_eq r r (store_of k m)) m,
  get-insert_record r q r (store_of k m),
)

pub find_in-put_rest :
    (k j : Text) (q : Record) (s : Store) (m : Dict Text Store)
    → find_in j q (put_rest k s m) ≡ (if text_eq k j then Dict.get record_eq q s else find_in j q m)
unfolding find_in put_rest Dict.get
find_in-put_rest k j q [] m = ground (arith, get-delete_text k j m)
find_in-put_rest k j q (e ∷ s) m = ground (arith, get-insert_text k j (e ∷ s) m)

find_in-some :
    (k : Text) (r old : Record) (m : Dict Text Store)
    → find_in k r m ≡ some old
    → (s : Store) × (Dict.get text_eq k m ≡ some s)
      × (Dict.get record_eq r s ≡ some old)
      × (store_of k m ≡ s)
unfolding find_in store_of
find_in-some k r old m h = elim (Option-cases (Dict.get text_eq k m)) [
  | inl e ↦ absurd (unfold Dict.get in ground arith)
  | inr (s, e) ↦ (s, e, ground arith, ground arith)
]

-- `_remove_key` succeeds on a record that is there, and then only that record is gone.
pub remove_key-find_in :
    (k : Text) (r old : Record) (m : Dict Text Store)
    → find_in k r m ≡ some old
    → (m' : Dict Text Store) × (remove_key m k r ≡ some m')
      × ((j : Text) (q : Record)
          → find_in j q m' ≡ (if text_eq k j && record_eq r q then none else find_in j q m))
unfolding remove_key
remove_key-find_in k r old m h =
    let (s, found, stored, store) = find_in-some k r old m h in
    (
      put_rest k (Dict.delete record_eq r s) m,
      rw (found, stored),
      λ j q.
          find_in-put_rest k j q (Dict.delete record_eq r s) m
          ∙ unfold find_in in ground (arith, text_eq_iff k j, get-delete_record r q s, store),
    )

pub remove_key_missing :
    (k : Text) (r : Record) (m : Dict Text Store) → find_in k r m ≡ none → remove_key m k r ≡ none
unfolding remove_key find_in Dict.get
remove_key_missing k r m h = ground arith

-- Equal records have one key, and one server key.
pub record_eq-key : (a b : Record) → record_eq a b ≡ true → a.key ≡ b.key
unfolding record_eq
record_eq-key a b e = ground (arith, text_eq_iff a.key b.key)
