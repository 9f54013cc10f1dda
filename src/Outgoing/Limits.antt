-- ===== src/Outgoing/Limits.antt =====
-- One question or record in a packet, against the limit of its length.
use lscamoflash.Const.{max_msg_absolute, max_msg_typical}
use lscamoflash.Outgoing.Growth.{
  Grows, Keeps, bind-Keeps, if-Keeps, write_byte-Keeps, write_character_string-Keeps,
  write_int-Keeps, write_name-Keeps, write_short-Keeps, write_string-Grows, total, IsSame,
  Keeps-after,
}
use lscamoflash.Outgoing.Sections.{
  nsec_bitmap, write_bitmap, write_rdata, write_record_class, write_ttl,
  check_data_limit_or_rollback, length_behind, write_question, write_record, write_record_body,
}
use lscamoflash.Dns.{Entry, RData, Record, address, hinfo, nsec, pointer, service, text, Question}
use lscamoflash.Prelude.{
  ℕ, Bool-cases, Bytes, List, Text, [], arith, inl, inr, length, ltb, refl, replicate, set_at, take,
  utf8_encode, ◌%◌, ◌&&◌, ◌++◌, ◌/◌, ◌∷◌, ◌≡◌, Bool, false, if◌then◌else◌, leb, true, ◌+◌, ◌≢◌, ◌≤◌,
  append_assoc,
}
use lscamoflash.Outgoing.{
  no_fuel, ◌>>=◌, value_error, DnsOutgoing, Written, append_chunk, get_short, replace_short,
  struct_error, err, ok, write_byte, write_name, write_short, write_string,
}

nsec-Keeps :
    (o : DnsOutgoing) (ts : List ℕ) (bitmap : Bytes) (n : ℕ) (f : Bytes × ℕ → Written DnsOutgoing)
    → ((r : Bytes × ℕ) → Keeps o (f r))
    → Keeps o (nsec_bitmap ts bitmap n >>= f)
unfolding nsec_bitmap
nsec-Keeps o [] bitmap n f k = k (bitmap, n)
nsec-Keeps o (t ∷ ts) bitmap n f k = elim (Bool-cases (ltb 255 t)) [
  | inl e ↦ rw (e, nsec_bitmap) (λ (p : value_error ≡ no_fuel). cc)
  | inr e ↦ rw (e, nsec_bitmap) (nsec-Keeps o ts _ _ f k)
]

write_bitmap-Keeps : (name : Text) (b : Bytes) (o : DnsOutgoing) → Keeps o (write_bitmap name b o)
unfolding write_bitmap
write_bitmap-Keeps name [] o = λ (p : value_error ≡ no_fuel). cc
write_bitmap-Keeps name (b ∷ bs) o = bind-Keeps o _ _ (write_name-Keeps name o) (λ o1.
    bind-Keeps o1 (write_byte 0 o1) _ (write_byte-Keeps 0 o1) (λ o2.
      bind-Keeps o2 (write_byte (length (b ∷ bs)) o2) (λ o3. ok (write_string (b ∷ bs) o3))
        (write_byte-Keeps (length (b ∷ bs)) o2) (λ o3. write_string-Grows (b ∷ bs) o3)))

write_rdata-Keeps : (d : RData) (o : DnsOutgoing) → Keeps o (write_rdata d o)
unfolding write_rdata
write_rdata-Keeps (address a s) o = write_string-Grows a o
write_rdata-Keeps (hinfo cpu os) o =
    bind-Keeps o _ _ (write_character_string-Keeps (utf8_encode cpu) o)
      (λ o'. write_character_string-Keeps (utf8_encode os) o')
write_rdata-Keeps (pointer alias k) o = write_name-Keeps alias o
write_rdata-Keeps (text t) o = write_string-Grows t o
write_rdata-Keeps (service priority weight port server k) o =
    bind-Keeps o _ _ (write_short-Keeps priority o) (λ o1.
      bind-Keeps o1 _ _ (write_short-Keeps weight o1)
        (λ o2. bind-Keeps o2 _ _ (write_short-Keeps port o2) (λ o3. write_name-Keeps server o3)))
write_rdata-Keeps (nsec next_name rdtypes) o =
    nsec-Keeps o rdtypes (replicate 32 0) 0 _ (λ r. write_bitmap-Keeps next_name (take r.1 r.0) o)

write_record_class-Keeps : (e : Entry) (o : DnsOutgoing) → Keeps o (write_record_class e o)
unfolding write_record_class
write_record_class-Keeps e o =
    if-Keeps o (e.unique && o.multicast) _ _ (write_short-Keeps _ o) (write_short-Keeps _ o)

write_ttl-Keeps : (r : Record) (now : ℕ) (o : DnsOutgoing) → Keeps o (write_ttl r now o)
unfolding write_ttl
write_ttl-Keeps r now o = write_int-Keeps _ o

set_at_middle :
    (cs : List Bytes) (c d : Bytes) (ds : List Bytes)
    → set_at (cs ++ (c ∷ ds)) (length cs) d ≡ cs ++ (d ∷ ds)
set_at_middle [] c d ds = refl
set_at_middle (b ∷ cs) c d ds = rw (set_at_middle cs c d ds) refl

take-append : (cs ds : List Bytes) → take (length cs) (cs ++ ds) ≡ cs
take-append [] ds = refl
take-append (c ∷ cs) ds = rw (take-append cs ds) refl

-- The length of the data of a record takes the place of the two bytes that were written for it.
replace-Keeps :
    (v : ℕ) (o o' : DnsOutgoing)
    → Grows (append_chunk (0 ∷ 0 ∷ []) 2 o) o'
    → Keeps o (replace_short (length o.data_) v o')
unfolding replace_short get_short append_chunk total
replace-Keeps v o o' g = elim (Bool-cases (ltb v 0x10000)) [
  | inr e ↦ rw e (λ (p : struct_error ≡ no_fuel). cc)
  | inl e ↦ rw e (record {
    chunks = ((v / 256) ∷ (v % 256) ∷ []) ∷ g.chunks;
    data_grown =
        rw (g.data_grown, append_assoc o.data_ ((0 ∷ 0 ∷ []) ∷ []) g.chunks)
          (set_at_middle o.data_ (0 ∷ 0 ∷ []) ((v / 256) ∷ (v % 256) ∷ []) g.chunks);
    size_grown = omega (arith, g.size_grown);
    limit_same = g.limit_same;
    same = g.same;
  })
]

replaced-Keeps :
    (v : DnsOutgoing → ℕ) (o : DnsOutgoing) (w : Written DnsOutgoing)
    → Keeps (append_chunk (0 ∷ 0 ∷ []) 2 o) w
    → Keeps o (w >>= λ o'. replace_short (length o.data_) (v o') o')
replaced-Keeps v o (err e) h = h
replaced-Keeps v o (ok o') h = replace-Keeps (v o') o o' h

placeholder : (o : DnsOutgoing) → write_short 0 o ≡ ok (append_chunk (0 ∷ 0 ∷ []) 2 o)
unfolding write_short get_short
placeholder o = refl

data-Keeps :
    (d : RData) (o : DnsOutgoing)
    → Keeps o (
        write_short 0 o >>= λ o5. write_rdata d o5 >>= λ o6.
        replace_short (length o.data_) (length_behind (length o.data_) o6.data_) o6)
data-Keeps d o = rw (placeholder o) (
    replaced-Keeps (λ o6. length_behind (length o.data_) o6.data_) o
      (write_rdata d (append_chunk (0 ∷ 0 ∷ []) 2 o))
      (write_rdata-Keeps d (append_chunk (0 ∷ 0 ∷ []) 2 o)))

write_record_body-Keeps :
    (r : Record) (now : ℕ) (o : DnsOutgoing) → Keeps o (write_record_body r now o)
unfolding write_record_body
write_record_body-Keeps r now o = bind-Keeps o _ _ (write_name-Keeps r.name o) (λ o1.
    bind-Keeps o1 (write_short r.type o1) _ (write_short-Keeps r.type o1) (λ o2.
      bind-Keeps o2 (write_record_class r.entry o2) _ (write_record_class-Keeps r.entry o2) (λ o3.
        bind-Keeps o3 (write_ttl r now o3) _ (write_ttl-Keeps r now o3)
          (λ o4. data-Keeps r.rdata o4))))

-- A question or a record in a packet: all of it, within the limit, or nothing.
pub record Steps (o : DnsOutgoing) (fits : Bool) (o' : DnsOutgoing) : Type 0 where
  pub written :
      fits ≡ true
      → (chunks : List Bytes) × (o'.data_ ≡ o.data_ ++ chunks)
        × (o'.size ≡ o.size + total chunks)
        × (o'.size ≤ (if o.allow_long then 8966 else 1460))
  pub rolled_back : fits ≡ false → (o'.data_ ≡ o.data_) × (o'.size ≡ o.size)
  pub long_used : o'.allow_long ≡ false
  pub step_same : IsSame o o'

abbrev pub Tries : DnsOutgoing → Written (Bool × DnsOutgoing) → Type 0
Tries o (ok (fits, o')) = Steps o fits o'
Tries o (err e) = e ≢ no_fuel

check-Steps :
    (o o' : DnsOutgoing)
    → Grows o o'
    → Steps o
        (check_data_limit_or_rollback (length o.data_) o.size o').0
        (check_data_limit_or_rollback (length o.data_) o.size o').1
unfolding check_data_limit_or_rollback
check-Steps o o' g =
    let limit = if o'.allow_long then max_msg_absolute else max_msg_typical in
    elim (Bool-cases (leb o'.size limit)) [
      | inl e ↦ rw e (record {
        written = λ t. (g.chunks, g.data_grown, g.size_grown, within o o' g.limit_same e);
        rolled_back = λ (f : true ≡ false). absurd cc;
        long_used = refl;
        step_same = g.same;
      })
      | inr e ↦ rw e (record {
        written = λ (f : false ≡ true). absurd cc;
        rolled_back = λ t. (rw (g.data_grown) (take-append o.data_ g.chunks), refl);
        long_used = refl;
        step_same = g.same;
      })
    ]
  where
    within :
        (o o' : DnsOutgoing)
        → o'.allow_long ≡ o.allow_long
        → leb o'.size (if o'.allow_long then 8966 else 1460) ≡ true
        → o'.size ≤ (if o.allow_long then 8966 else 1460)
    within o o' a e = ground (arith, a, e)

checked-Tries :
    (o : DnsOutgoing) (w : Written DnsOutgoing)
    → Keeps o w
    → Tries o (w >>= λ o'. ok (check_data_limit_or_rollback (length o.data_) o.size o'))
checked-Tries o (err e) h = h
checked-Tries o (ok o') g = check-Steps o o' g

pub write_record-Tries : (r : Record) (now : ℕ) (o : DnsOutgoing) → Tries o (write_record r now o)
unfolding write_record
write_record-Tries r now o =
    checked-Tries o (write_record_body r now o) (write_record_body-Keeps r now o)

next-Tries :
    (o : DnsOutgoing) (w : Written DnsOutgoing) (f : DnsOutgoing → Written (Bool × DnsOutgoing))
    → Keeps o w
    → ((o' : DnsOutgoing) → Grows o o' → Tries o (f o'))
    → Tries o (w >>= f)
next-Tries o (err e) f h k = h
next-Tries o (ok o') f h k = k o' h

pub write_question-Tries : (q : Question) (o : DnsOutgoing) → Tries o (write_question q o)
unfolding write_question
write_question-Tries q o =
    next-Tries o (write_name q.name o) _ (write_name-Keeps q.name o) (λ o1 g1.
      next-Tries o (write_short q.type o1) _ (Keeps-after o o1 _ g1 (write_short-Keeps q.type o1))
        (λ o2 g2.
          next-Tries o (write_record_class q.entry o2) _
            (Keeps-after o o2 _ g2 (write_record_class-Keeps q.entry o2))
            (λ o3 g3. check-Steps o o3 g3)))
