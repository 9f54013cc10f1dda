-- ===== src/Incoming/Classes.antt =====
-- The classes of the answers of a packet, through the loops of `DNSIncoming`.
use lscamoflash.Incoming.Names.{read_name}
use lscamoflash.Incoming.Records.{
  add_read_question, add_record, blank_incoming, init_incoming, initial_parse, make_record,
  read_answers, read_other, read_others, read_question, read_questions, read_rdata, read_record,
  repeat_read, skip_on_error,
}
use lscamoflash.Incoming.Typed.{IsTyped, ReadsAt, read_rdata-ReadsAt}
use lscamoflash.Prelude.{
  ℕ, All, All-snoc, Bool-cases, Bytes, List, Option, Text, arith, inl, inr, none, refl, some, suc,
  true, zero, ◌+◌, ◌==◌, ◌≡◌, if◌then◌else◌,
}
use lscamoflash.Dns.{RData, Record, fast_init_entry, fast_init_record}
use lscamoflash.Incoming.{
  Decoded, DnsIncoming, Reader, err, no_fuel, ok, ◌>>=◌, modify, bind_read, read_field, read_header,
  view_long, view_short, advance, return,
}
use lscamoflash.Incoming.Keeps.{Keeps, read_name-Keeps, view_long-Keeps, view_short-Keeps}

-- A reader keeps the answers typed.
abbrev Preserves : {A : Type 0} → Reader A → Type 0
Preserves r = (m : DnsIncoming) → All IsTyped m.answers → All IsTyped (r m).1.answers

-- A record that was read, if one was
abbrev Made : Decoded (Option Record) → Type 0
Made (ok none) = Unit {0}
Made (ok (some r)) = IsTyped r
Made (err e) = Unit {0}

-- What one read of a record leaves and gives
abbrev MakesAt : List Record → Decoded (Option Record) × DnsIncoming → Type 0
MakesAt l x = (x.1.answers ≡ l) × Made x.0

make-MakesAt :
    (domain : Text) (t class_ ttl : ℕ) (l : List Record) (x : Decoded (Option RData) × DnsIncoming)
    → ReadsAt t l x
    → MakesAt l (
        bind_read x
          (λ rdata. elim rdata [ none ↦ return none | some d ↦ make_record domain t class_ ttl d ]))
unfolding make_record fast_init_record fast_init_entry
make-MakesAt domain t class_ ttl l (ok none, m) (e, g) = (e, tt)
make-MakesAt domain t class_ ttl l (ok (some d), m) (e, g) = (e, g)
make-MakesAt domain t class_ ttl l (err d, m) (e, g) = (e, tt)

read_record-MakesAt :
    (domain : Text) (t class_ ttl len : ℕ) (m : DnsIncoming)
    → MakesAt m.answers (read_record domain t class_ ttl len m)
unfolding read_record
read_record-MakesAt domain t class_ ttl len m =
    make-MakesAt domain t class_ ttl m.answers (read_rdata t len m) (read_rdata-ReadsAt t len m)

skip_on_error-MakesAt :
    (end_ : ℕ) (l : List Record) (x : Decoded (Option Record) × DnsIncoming)
    → MakesAt l x
    → MakesAt l (skip_on_error end_ x)
unfolding skip_on_error
skip_on_error-MakesAt end_ l (ok r, m) h = h
skip_on_error-MakesAt end_ l (err no_fuel, m) (e, g) = (e, tt)
skip_on_error-MakesAt end_ l (err d, m) (e, g) = ground (arith, e)

-- The record is added to the answers.
add-IsTyped :
    (l : List Record) (x : Decoded (Option Record) × DnsIncoming)
    → All IsTyped l
    → MakesAt l x
    → All IsTyped (bind_read x (λ rec. modify (add_record rec))).1.answers
unfolding add_record
add-IsTyped l (ok none, m) a (e, g) = rw e a
add-IsTyped l (ok (some r), m) a (e, g) = rw e (All-snoc IsTyped l r a g)
add-IsTyped l (err d, m) a (e, g) = rw e a

Keeps-Preserves : {A : Type 0} (r : Reader A) → Keeps r → Preserves r
Keeps-Preserves r k m a = rw (k m) a

bind_read-Preserves :
    {A B : Type 0} (x : Decoded A × DnsIncoming) (f : A → Reader B)
    → All IsTyped x.1.answers
    → ((a : A) → Preserves (f a))
    → All IsTyped (bind_read x f).1.answers
bind_read-Preserves (ok a, m) f h k = k a m h
bind_read-Preserves (err e, m) f h k = h

bind-Preserves :
    {A B : Type 0} (r : Reader A) (f : A → Reader B)
    → Preserves r
    → ((a : A) → Preserves (f a))
    → Preserves (r >>= f)
bind-Preserves r f h k m a = bind_read-Preserves (r m) f (h m a) k

keep-Preserves :
    {A B : Type 0} (r : Reader A) (f : A → Reader B)
    → Keeps r
    → ((a : A) → Preserves (f a))
    → Preserves (r >>= f)
keep-Preserves r f k = bind-Preserves r f (Keeps-Preserves r k)

read_other-Preserves : Preserves read_other
unfolding read_other advance
read_other-Preserves = keep-Preserves {B = Unit {0}} read_name _ read_name-Keeps (λ domain m.
    let offset = m.offset in
    keep-Preserves {B = Unit {0}} (view_short offset) _ (view_short-Keeps offset)
      (λ type.
        keep-Preserves {B = Unit {0}} (view_short (offset + 2)) _ (view_short-Keeps (offset + 2))
          (λ class_.
            keep-Preserves {B = Unit {0}} (view_long (offset + 4)) _ (view_long-Keeps (offset + 4))
              (λ ttl.
                keep-Preserves {B = Unit {0}} (view_short (offset + 8)) _
                  (view_short-Keeps (offset + 8))
                  (λ len m' a.
                    add-IsTyped m'.answers
                      (skip_on_error (m'.offset + len) (read_record domain type class_ ttl len m'))
                      a
                      (skip_on_error-MakesAt (m'.offset + len) m'.answers
                        (read_record domain type class_ ttl len m')
                        (read_record-MakesAt domain type class_ ttl len m'))))))
      (record m { offset = offset + 10 }))

repeat_read-Preserves : (n : ℕ) (r : Reader (Unit {0})) → Preserves r → Preserves (repeat_read n r)
unfolding repeat_read
repeat_read-Preserves zero r p m a = a
repeat_read-Preserves (suc n) r p m a =
    bind_read-Preserves (r m) _ (p m a) (λ u. repeat_read-Preserves n r p)

read_others-Preserves : Preserves read_others
unfolding read_others
read_others-Preserves m a =
    repeat_read-Preserves (m.num_answers + m.num_authorities + m.num_additionals) read_other
      read_other-Preserves (record m { did_read_others = true }) a

read_question-Preserves : Preserves read_question
unfolding read_question add_read_question advance
read_question-Preserves = keep-Preserves {B = Unit {0}} read_name _ read_name-Keeps (λ name m.
    keep-Preserves {B = Unit {0}} (view_short m.offset) _ (view_short-Keeps m.offset)
      (λ type.
        keep-Preserves {B = Unit {0}} (view_short (m.offset + 2)) _
          (view_short-Keeps (m.offset + 2)) (λ class_ m' a. a))
      (record m { offset = m.offset + 4 }))

read_field-Preserves :
    (i : ℕ) (set : ℕ → DnsIncoming → DnsIncoming)
    → ((v : ℕ) (m : DnsIncoming) → (set v m).answers ≡ m.answers)
    → Preserves (read_field i set)
unfolding read_field
read_field-Preserves i set h =
    keep-Preserves {B = Unit {0}} (view_short i) _ (view_short-Keeps i) (λ v m a. rw (h v m) a)

read_header-Preserves : Preserves read_header
unfolding read_header advance
read_header-Preserves m =
    let offset = m.offset in
    bind-Preserves {B = Unit {0}} (read_field offset (λ v m. record m { id = v })) _
      (read_field-Preserves offset _ (λ v m. refl))
      (λ u1.
        bind-Preserves {B = Unit {0}} (read_field (offset + 2) (λ v m. record m { flags = v })) _
          (read_field-Preserves (offset + 2) _ (λ v m. refl))
          (λ u2.
            bind-Preserves {B = Unit {0}}
              (read_field (offset + 4) (λ v m. record m { num_questions = v })) _
              (read_field-Preserves (offset + 4) _ (λ v m. refl))
              (λ u3.
                bind-Preserves {B = Unit {0}}
                  (read_field (offset + 6) (λ v m. record m { num_answers = v })) _
                  (read_field-Preserves (offset + 6) _ (λ v m. refl))
                  (λ u4.
                    bind-Preserves {B = Unit {0}}
                      (read_field (offset + 8) (λ v m. record m { num_authorities = v })) _
                      (read_field-Preserves (offset + 8) _ (λ v m. refl))
                      (λ u5. read_field-Preserves (offset + 10) _ (λ v m. refl))))))
      (record m { offset = offset + 12 })

-- The records that come with no question are read at once.
read_now-Preserves : Preserves (λ m. if m.num_questions == 0 then read_others m else (ok tt, m))
read_now-Preserves m a = elim (Bool-cases (m.num_questions == 0)) [
  | inl e ↦ rw e (read_others-Preserves m a)
  | inr e ↦ rw e a
]

initial_parse-Preserves : Preserves initial_parse
unfolding initial_parse read_questions
initial_parse-Preserves = bind-Preserves {B = Unit {0}} read_header _ read_header-Preserves (λ u1.
    bind-Preserves {B = Unit {0}} read_questions _
      (λ m. repeat_read-Preserves m.num_questions read_question read_question-Preserves m)
      (λ u2.
        bind-Preserves {B = Unit {0}}
          (λ m. if m.num_questions == 0 then read_others m else (ok tt, m)) _ read_now-Preserves
          (λ u3 m a. a)))

-- Every answer that a packet gives, whatever its bytes, is of the class that its type says: an
-- address for the types A and AAAA, a pointer for PTR and CNAME, and so on for each of the classes.
pub read_answers-IsTyped :
    (b : Bytes) (scope_id : Option ℕ) (now : ℕ)
    → All IsTyped (read_answers (init_incoming b scope_id now)).0
unfolding read_answers init_incoming
read_answers-IsTyped b scope_id now =
    let m = (initial_parse (blank_incoming b scope_id now)).1 in
    let typed = initial_parse-Preserves (blank_incoming b scope_id now) tt in
    elim (Bool-cases m.did_read_others) [
      | inl e ↦ rw e typed
      | inr e ↦ rw e (read_others-Preserves m typed)
    ]
