-- ===== src/Outgoing/Growth.antt =====
-- What the write methods of `DNSOutgoing` change, and their fuel.
use lscamoflash.Prelude.{
  ℕ, Bool, Bool-cases, Bytes, List, Text, [], arith, bit_or, false, if◌then◌else◌, inl, inr,
  join_dots, length, ltb, refl, sym, true, utf8_encode, ◌%◌, ◌++◌, ◌+◌, ◌/◌, ◌==◌, ◌∙◌, ◌∷◌, ◌≡◌,
  ◌≢◌, split_dots, append-nil, append_assoc,
}
use lscamoflash.Outgoing.{
  ok, err, no_fuel, ◌>>=◌, DnsOutgoing, Written, append_chunk, get_short, name_index, note_name,
  strip_dot, write_byte, write_character_string, write_first, write_int, write_labels,
  write_link_to_name, write_name, write_short, write_string, write_utf, index_error,
  name_part_too_long, struct_error,
}

-- The bytes of some pieces
unfoldable pub total : List Bytes → ℕ
total [] = 0
total (c ∷ cs) = length c + total cs

pub total-append : (cs ds : List Bytes) → total (cs ++ ds) ≡ total cs + total ds
unfolding total
total-append [] ds = omega arith
total-append (c ∷ cs) ds = omega (arith, total-append cs ds)

-- What a write leaves alone
abbrev pub IsSame : DnsOutgoing → DnsOutgoing → Type 0
IsSame o o' =
    (o'.questions ≡ o.questions)
    × (o'.answers ≡ o.answers)
    × (o'.authorities ≡ o.authorities)
    × (o'.additionals ≡ o.additionals)
    × (o'.packets_data ≡ o.packets_data)

pub record Grows (o o' : DnsOutgoing) : Type 0 where
  pub chunks : List Bytes
  pub data_grown : o'.data_ ≡ o.data_ ++ chunks
  pub size_grown : o'.size ≡ o.size + total chunks
  pub limit_same : o'.allow_long ≡ o.allow_long
  pub same : IsSame o o'

pub IsSame-trans : (a b c : DnsOutgoing) → IsSame a b → IsSame b c → IsSame a c
IsSame-trans a b c (q, n, u, d, p) (q', n', u', d', p') = (q' ∙ q, n' ∙ n, u' ∙ u, d' ∙ d, p' ∙ p)

pub Grows-trans : (a b c : DnsOutgoing) → Grows a b → Grows b c → Grows a c
Grows-trans a b c g h = record {
  chunks = g.chunks ++ h.chunks;
  data_grown = h.data_grown ∙ rw (g.data_grown) (append_assoc a.data_ g.chunks h.chunks);
  size_grown = omega (arith, h.size_grown, g.size_grown, total-append g.chunks h.chunks);
  limit_same = h.limit_same ∙ g.limit_same;
  same = IsSame-trans a b c g.same h.same;
}

-- A write that returns an object has grown it, and one that raises has not run out of fuel.
abbrev pub Keeps : DnsOutgoing → Written DnsOutgoing → Type 0
Keeps o (ok o') = Grows o o'
Keeps o (err e) = e ≢ no_fuel

pub Keeps-after :
    (o o' : DnsOutgoing) (w : Written DnsOutgoing) → Grows o o' → Keeps o' w → Keeps o w
Keeps-after o o' (err e) g h = h
Keeps-after o o' (ok o'') g h = Grows-trans o o' o'' g h

pub bind-Keeps :
    (o : DnsOutgoing) (w : Written DnsOutgoing) (f : DnsOutgoing → Written DnsOutgoing)
    → Keeps o w
    → ((o' : DnsOutgoing) → Keeps o' (f o'))
    → Keeps o (w >>= f)
bind-Keeps o (err e) f h k = h
bind-Keeps o (ok o') f h k = Keeps-after o o' (f o') h (k o')

append_chunk-Grows :
    (c : Bytes) (n : ℕ) (o : DnsOutgoing) → n ≡ length c → Grows o (append_chunk c n o)
unfolding append_chunk total
append_chunk-Grows c n o e = record {
  chunks = c ∷ [];
  data_grown = refl;
  size_grown = omega (arith, e);
  limit_same = refl;
  same = (refl, refl, refl, refl, refl);
}

pub if-Keeps :
    (o : DnsOutgoing) (b : Bool) (x y : Written DnsOutgoing)
    → Keeps o x
    → Keeps o y
    → Keeps o (if b then x else y)
if-Keeps o true x y h k = h
if-Keeps o false x y h k = k

pub write_byte-Keeps : (v : ℕ) (o : DnsOutgoing) → Keeps o (write_byte v o)
unfolding write_byte
write_byte-Keeps v o =
    if-Keeps o (ltb v 256) _ _ (append_chunk-Grows (v ∷ []) 1 o refl)
      (λ (p : index_error ≡ no_fuel). cc)

pub write_short-Keeps : (v : ℕ) (o : DnsOutgoing) → Keeps o (write_short v o)
unfolding write_short get_short
write_short-Keeps v o = elim (Bool-cases (ltb v 0x10000)) [
  | inl e ↦ rw e (append_chunk-Grows ((v / 256) ∷ (v % 256) ∷ []) 2 o refl)
  | inr e ↦ rw e (λ (p : struct_error ≡ no_fuel). cc)
]

pub write_int-Keeps : (v : ℕ) (o : DnsOutgoing) → Keeps o (write_int v o)
unfolding write_int
write_int-Keeps v o =
    if-Keeps o (ltb v 0x1_0000_0000) _ _ (append_chunk-Grows _ 4 o refl)
      (λ (p : struct_error ≡ no_fuel). cc)

pub write_string-Grows : (v : Bytes) (o : DnsOutgoing) → Grows o (write_string v o)
unfolding write_string
write_string-Grows v o = append_chunk-Grows v (length v) o refl

pub write_utf-Keeps : (s : Text) (o : DnsOutgoing) → Keeps o (write_utf s o)
unfolding write_utf
write_utf-Keeps s o =
    if-Keeps o (ltb 64 (length (utf8_encode s))) _ _ (λ (p : name_part_too_long ≡ no_fuel). cc)
      (bind-Keeps o _ _ (write_byte-Keeps (length (utf8_encode s)) o)
        (λ o'. write_string-Grows (utf8_encode s) o'))

pub write_character_string-Keeps :
    (v : Bytes) (o : DnsOutgoing) → Keeps o (write_character_string v o)
unfolding write_character_string
write_character_string-Keeps v o =
    if-Keeps o (ltb 256 (length v)) _ _ (λ (p : name_part_too_long ≡ no_fuel). cc)
      (bind-Keeps o _ _ (write_byte-Keeps (length v) o) (λ o'. write_string-Grows v o'))

write_link_to_name-Keeps : (i : ℕ) (o : DnsOutgoing) → Keeps o (write_link_to_name i o)
unfolding write_link_to_name
write_link_to_name-Keeps i o =
    bind-Keeps o _ _ (write_byte-Keeps (bit_or (i / 256) 0xC0) o)
      (λ o'. write_byte-Keeps (i % 256) o')

note_name-Grows : (name : Text) (i : ℕ) (o : DnsOutgoing) → Grows o (note_name name i o)
unfolding note_name total
note_name-Grows name i o = record {
  chunks = [];
  data_grown = sym (append-nil o.data_);
  size_grown = omega arith;
  limit_same = refl;
  same = (refl, refl, refl, refl, refl);
}

noted-Keeps : (s name : Text) (i : ℕ) (o : DnsOutgoing) → Keeps o (write_utf s (note_name name i o))
noted-Keeps s name i o =
    bind-Keeps o (ok (note_name name i o)) (write_utf s) (note_name-Grows name i o)
      (write_utf-Keeps s)

write_labels-Keeps :
    (end_ : ℕ) (ls : List Text) (o : DnsOutgoing) → Keeps o (write_labels end_ ls o)
unfolding write_labels
write_labels-Keeps end_ [] o = write_byte-Keeps 0 o
write_labels-Keeps end_ (l ∷ ls) o = elim (Bool-cases (name_index (join_dots (l ∷ ls)) o == 0)) [
  | inl e ↦
      rw (e, write_labels)
        (bind-Keeps o _ _ (noted-Keeps l _ _ o) (λ o'. write_labels-Keeps end_ ls o'))
  | inr e ↦ rw (e, write_labels) (write_link_to_name-Keeps (name_index (join_dots (l ∷ ls)) o) o)
]

write_first-Keeps :
    (name : Text) (ls : List Text) (o : DnsOutgoing) → Keeps o (write_first name ls o)
unfolding write_first
write_first-Keeps name [] o = λ (p : index_error ≡ no_fuel). cc
write_first-Keeps name (l ∷ ls) o =
    bind-Keeps o _ _ (noted-Keeps l name o.size o) (λ o'. write_labels-Keeps _ ls o')

pub write_name-Keeps : (name : Text) (o : DnsOutgoing) → Keeps o (write_name name o)
unfolding write_name
write_name-Keeps name o = elim (Bool-cases (name_index (strip_dot name) o == 0)) [
  | inl e ↦ rw (e, write_name) (write_first-Keeps (strip_dot name) (split_dots (strip_dot name)) o)
  | inr e ↦ rw (e, write_name) (write_link_to_name-Keeps (name_index (strip_dot name) o) o)
]
