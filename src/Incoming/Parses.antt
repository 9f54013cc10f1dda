-- ===== src/Incoming/Parses.antt =====
-- The fuel of the whole parser of `DNSIncoming`.
use lscamoflash.Incoming.Names.{read_name}
use lscamoflash.Dns.{Record}
use lscamoflash.Incoming.Records.{
  read_service, initial_parse, read_address, read_bitmap, read_bitmap_to, read_hinfo, read_nsec,
  read_other, read_others, read_pointer, read_question, read_questions, read_rdata, read_record,
  read_text, repeat_read, skip_on_error, skip_rdata,
}
use lscamoflash.Incoming.{
  DnsIncoming, Reader, advance, get_offset, read_character_string, read_string, view_long,
  view_short, modify, ok, return, view, ◌>>=◌, err, no_fuel, Decoded, read_header, index_error,
  read_field,
}
use lscamoflash.Incoming.Total.{
  IsTotal, bind_read-EndsWell, read_name-IsTotal, view-IsTotal, EndsWell,
}
use lscamoflash.Prelude.{
  ℕ, arith, ◌*◌, ◌+◌, ◌≡◌, Bool-cases, List, Option, Option-cases, Text, [], get_elem?, inl, inr,
  ltb, none, suc, zero, ◌<◌, Bool, false, if◌then◌else◌, true, ◌==◌, ◌≢◌,
}

bind-IsTotal :
    {A B : Type 0} (r : Reader A) (f : A → Reader B)
    → IsTotal r
    → ((a : A) → IsTotal (f a))
    → IsTotal (r >>= f)
bind-IsTotal r f h k m = bind_read-EndsWell (r m) f (h m) k

return-IsTotal : {A : Type 0} (a : A) → IsTotal (return a)
return-IsTotal a m = λ (p : ok a ≡ err no_fuel). cc

modify-IsTotal : (f : DnsIncoming → DnsIncoming) → IsTotal (modify f)
modify-IsTotal f m = ground arith

advance-IsTotal : (n : ℕ) → IsTotal (advance n)
unfolding advance
advance-IsTotal n m = λ (p : ok m.offset ≡ err no_fuel). cc

view_short-IsTotal : (i : ℕ) → IsTotal (view_short i)
unfolding view_short
view_short-IsTotal i =
    bind-IsTotal (view i) _ (view-IsTotal i) (λ a.
      bind-IsTotal (view (i + 1)) _ (view-IsTotal (i + 1)) (λ b. return-IsTotal (a * 256 + b)))

view_long-IsTotal : (i : ℕ) → IsTotal (view_long i)
unfolding view_long
view_long-IsTotal i = bind-IsTotal (view_short i) _ (view_short-IsTotal i) (λ a.
    bind-IsTotal (view_short (i + 2)) _ (view_short-IsTotal (i + 2))
      (λ b. return-IsTotal (a * 65536 + b)))

read_string-IsTotal : (n : ℕ) → IsTotal (read_string n)
unfolding read_string
read_string-IsTotal n m = ground arith

get_offset-IsTotal : IsTotal get_offset
get_offset-IsTotal m = λ (p : ok m.offset ≡ err no_fuel). cc

-- The rules for a straight-line reader
ruleset reads = (
  bind-IsTotal, return-IsTotal, modify-IsTotal, advance-IsTotal, view-IsTotal, view_short-IsTotal,
  view_long-IsTotal, read_string-IsTotal, get_offset-IsTotal, read_name-IsTotal,
)

read_character_string-IsTotal : IsTotal read_character_string
unfolding read_character_string
read_character_string-IsTotal = search reads depth 12

read_service-IsTotal : IsTotal read_service
unfolding read_service
read_service-IsTotal = search reads depth 12

read_address-IsTotal : (n : ℕ) (s : Option ℕ) → IsTotal (read_address n s)
unfolding read_address
read_address-IsTotal n s = search reads depth 12

read_pointer-IsTotal : IsTotal read_pointer
unfolding read_pointer
read_pointer-IsTotal = search reads depth 12

read_text-IsTotal : (n : ℕ) → IsTotal (read_text n)
unfolding read_text
read_text-IsTotal n = search reads depth 12

read_hinfo-IsTotal : IsTotal read_hinfo
unfolding read_hinfo
read_hinfo-IsTotal = search (reads, read_character_string-IsTotal) depth 12

skip_rdata-IsTotal : (n : ℕ) → IsTotal (skip_rdata n)
unfolding skip_rdata
skip_rdata-IsTotal n = search reads depth 12

index-EndsWell : {A : Type 0} (m : DnsIncoming) → EndsWell {A = A} (err index_error, m)
index-EndsWell m = ground arith

-- A round of the bitmap loop moves the offset on by two at least.
read_bitmap-EndsWell :
    (rounds end_ : ℕ) (types : List ℕ) (m : DnsIncoming)
    → 0 < rounds
    → end_ < rounds + m.offset
    → EndsWell (read_bitmap rounds end_ types m)
unfolding read_bitmap
read_bitmap-EndsWell zero end_ types m h k = absurd (omega arith)
read_bitmap-EndsWell (suc rounds) end_ types m h k = elim (Bool-cases (ltb m.offset end_)) [
  | inr e ↦ rw (e, read_bitmap) (return-IsTotal types m)
  | inl e ↦
      rw (e, read_bitmap)
        (elim (Option-cases (get_elem? m.data_ m.offset)) [
          | inl f ↦ rw (f, view) (index-EndsWell m)
          | inr (w, f) ↦
              rw (f, view)
                (elim (Option-cases (get_elem? m.data_ (m.offset + 1))) [
                  | inl g ↦ rw (g, view) (index-EndsWell m)
                  | inr (n, g) ↦
                      rw (g, view)
                        (read_bitmap-EndsWell rounds end_ _
                          (record m { offset = m.offset + (2 + n) }) (ground arith) (ground arith))
                ])
        ])
]

read_bitmap_to-IsTotal : (end_ : ℕ) → IsTotal (read_bitmap_to end_)
unfolding read_bitmap_to
read_bitmap_to-IsTotal end_ m =
    read_bitmap-EndsWell (end_ + 1) end_ [] m (omega arith) (omega arith)

read_nsec-IsTotal : (n : ℕ) → IsTotal (read_nsec n)
unfolding read_nsec
read_nsec-IsTotal n = search (reads, read_bitmap_to-IsTotal) depth 12

if-EndsWell :
    {A : Type 0} (b : Bool) (x y : Decoded A × DnsIncoming)
    → EndsWell x
    → EndsWell y
    → EndsWell (if b then x else y)
if-EndsWell true x y h k = h
if-EndsWell false x y h k = k

read_rdata-IsTotal : (type n : ℕ) → IsTotal (read_rdata type n)
unfolding read_rdata
read_rdata-IsTotal type n m = if-EndsWell _ _ _ (read_address-IsTotal 4 none m) (
    if-EndsWell _ _ _ (read_pointer-IsTotal m) (
      if-EndsWell _ _ _ (read_text-IsTotal n m) (
        if-EndsWell _ _ _ (read_service-IsTotal m) (
          if-EndsWell _ _ _ (read_hinfo-IsTotal m) (
            if-EndsWell _ _ _ (read_address-IsTotal 16 m.scope_id m)
              (if-EndsWell _ _ _ (read_nsec-IsTotal n m) (skip_rdata-IsTotal n m)))))))

read_record-IsTotal :
    (domain : Text) (type class_ ttl n : ℕ) → IsTotal (read_record domain type class_ ttl n)
unfolding read_record
read_record-IsTotal domain type class_ ttl n m =
    bind_read-EndsWell (read_rdata type n m) _ (read_rdata-IsTotal type n m) (λ d m'. ground arith)

skip_on_error-EndsWell :
    (end_ : ℕ) (r : Decoded (Option Record) × DnsIncoming)
    → EndsWell r
    → EndsWell (skip_on_error end_ r)
unfolding skip_on_error
skip_on_error-EndsWell end_ r h = ground arith

guarded-IsTotal :
    (domain : Text) (type class_ ttl n : ℕ)
    → IsTotal (λ m. skip_on_error (m.offset + n) (read_record domain type class_ ttl n m))
guarded-IsTotal domain type class_ ttl n m =
    skip_on_error-EndsWell (m.offset + n) _ (read_record-IsTotal domain type class_ ttl n m)

read_other-IsTotal : IsTotal read_other
unfolding read_other
read_other-IsTotal = search (reads, guarded-IsTotal) depth 30 fits 20000

repeat_read-IsTotal : (n : ℕ) (r : Reader (Unit {0})) → IsTotal r → IsTotal (repeat_read n r)
unfolding repeat_read
repeat_read-IsTotal zero r h m = ground arith
repeat_read-IsTotal (suc n) r h m =
    bind_read-EndsWell (r m) _ (h m) (λ u. repeat_read-IsTotal n r h)

-- `_read_others` ends on every packet, from every state.
pub read_others-IsTotal : IsTotal read_others
unfolding read_others
read_others-IsTotal m =
    repeat_read-IsTotal (m.num_answers + m.num_authorities + m.num_additionals) read_other
      read_other-IsTotal (record m { did_read_others = true })

read_question-IsTotal : IsTotal read_question
unfolding read_question
read_question-IsTotal = search reads depth 12

read_questions-IsTotal : IsTotal read_questions
unfolding read_questions
read_questions-IsTotal m = repeat_read-IsTotal m.num_questions read_question read_question-IsTotal m

read_field-IsTotal : (i : ℕ) (f : ℕ → DnsIncoming → DnsIncoming) → IsTotal (read_field i f)
unfolding read_field
read_field-IsTotal i f =
    bind-IsTotal (view_short i) _ (view_short-IsTotal i) (λ v. modify-IsTotal (f v))

read_header-IsTotal : IsTotal read_header
unfolding read_header
read_header-IsTotal = search (bind-IsTotal, advance-IsTotal, read_field-IsTotal) depth 16 fits 20000

others-IsTotal : IsTotal (λ m. if m.num_questions == 0 then read_others m else (ok tt, m))
others-IsTotal m = if-EndsWell _ _ _ (read_others-IsTotal m) (return-IsTotal tt m)

-- The parse of a packet ends on every sequence of bytes: none of its loops runs out of fuel.
pub initial_parse-IsTotal : IsTotal initial_parse
unfolding initial_parse
initial_parse-IsTotal =
    search (reads, read_header-IsTotal, read_questions-IsTotal, others-IsTotal) depth 12

-- The parser ends on every sequence of bytes and from every state of the reader: none of the loops
-- over names, bitmaps and records runs out of fuel, neither in a name nor in the first parse of a
-- packet nor in the parse of its records.
pub parse_ends :
    (m : DnsIncoming)
    → ((read_name m).0 ≢ err no_fuel)
      × ((initial_parse m).0 ≢ err no_fuel)
      × ((read_others m).0 ≢ err no_fuel)
parse_ends m = (read_name-IsTotal m, initial_parse-IsTotal m, read_others-IsTotal m)
