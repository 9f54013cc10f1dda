-- ===== src/Incoming/Total.antt =====
-- The fuel of the reader of names of `DNSIncoming`, against the targets of the pointers and the offset.
use lscamoflash.Incoming.{
  Decoded, DnsIncoming, Reader, bind_read, view, err, modify, no_fuel, ok, return, ◌>>=◌,
  incoming_decode_error, index_error, slice,
}
use lscamoflash.Incoming.Names.{
  cache_labels, cached_labels, decode_pointer, linked_labels, decode_at, decode_labels,
  decode_labels_at_offset, follow_link, is_bad_link, read_name,
}
use lscamoflash.Prelude.{
  ℕ, List, Text, [], any_of, arith, false, if◌then◌else◌, length, refl, suc, zero, ◌+◌, ◌<◌, ◌==◌,
  ◌∷◌, ◌≡◌, ◌≢◌, ◌≤◌, Bool-cases, Option-cases, dec_lt, get_elem?, get_elem?-some, inl, inr,
  utf8_decode, ◌%◌, ◌*◌, ◌++◌,
}

-- What a reader gives is a value or an exception of the source.
abbrev pub EndsWell : {A : Type 0} → Decoded A × DnsIncoming → Type 0
EndsWell r = r.0 ≢ err no_fuel

-- A reader that ends so from every state
abbrev pub IsTotal : {A : Type 0} → Reader A → Type 0
IsTotal {A} r = (m : DnsIncoming) → EndsWell (r m)

pub bind_read-EndsWell :
    {A B : Type 0} (x : Decoded A × DnsIncoming) (f : A → Reader B)
    → EndsWell x
    → ((a : A) (m : DnsIncoming) → EndsWell (f a m))
    → EndsWell (bind_read x f)
bind_read-EndsWell (ok a, m) f h k = k a m
bind_read-EndsWell (err e, m) f h k = λ p. h (cc)

pub view-IsTotal : (i : ℕ) → IsTotal (view i)
unfolding view
view-IsTotal i m = ground arith

-- The numbers below a bound that are not in a list
unfoldable unseen : ℕ → List ℕ → ℕ
unseen zero seen = 0
unseen (suc n) seen = (if any_of (λ s. s == n) seen then 0 else 1) + unseen n seen

unseen-nil : (n : ℕ) → unseen n [] ≡ n
unfolding unseen
unseen-nil zero = refl
unseen-nil (suc n) = omega (arith, unseen-nil n)

unseen-above : (n link : ℕ) (seen : List ℕ) → n ≤ link → unseen n (link ∷ seen) ≡ unseen n seen
unfolding unseen
unseen-above zero link seen h = refl
unseen-above (suc n) link seen h = ground (arith, unseen-above n link seen)

unseen-cons :
    (n link : ℕ) (seen : List ℕ)
    → link < n
    → any_of (λ s. s == link) seen ≡ false
    → unseen n (link ∷ seen) + 1 ≡ unseen n seen
unfolding unseen
unseen-cons zero link seen h new = absurd (omega arith)
unseen-cons (suc n) link seen h new = elim (dec_lt link n) [
  | yes p ↦ ground (arith, unseen-cons n link seen p new)
  | no p ↦ let e : link ≡ n = omega arith in ground (arith, e, unseen-above n link seen)
]

ok-EndsWell : {A : Type 0} (a : A) (m : DnsIncoming) → EndsWell {A = A} (ok a, m)
ok-EndsWell a m = λ (p : ok a ≡ err no_fuel). cc

linked_labels-EndsWell :
    (follow : ℕ → List ℕ → Reader (ℕ × List Text)) (link : ℕ) (seen : List ℕ) (m : DnsIncoming)
    → EndsWell (follow link (link ∷ seen) m)
    → EndsWell (linked_labels follow link seen m)
unfolding linked_labels
linked_labels-EndsWell follow link seen m h = go (cached_labels link m)
  where
    go :
        (c : List Text)
        → EndsWell {A = List Text} (elim c [
          | [] ↦
              bind_read
                (follow link (link ∷ seen) m)
                (λ r. modify (cache_labels link r.1) >>= λ u. return r.1)
          | l ∷ ls ↦ (ok (l ∷ ls), m)
        ])
    go [] =
        bind_read-EndsWell (follow link (link ∷ seen) m) _ h
          (λ a m'. ok-EndsWell a.1 (cache_labels link a.1 m'))
    go (l ∷ ls) = ok-EndsWell (l ∷ ls) m

follow_link-EndsWell :
    (follow : ℕ → List ℕ → Reader (ℕ × List Text)) (link off : ℕ) (labels : List Text)
    (seen : List ℕ) (m : DnsIncoming)
    → EndsWell (follow link (link ∷ seen) m)
    → EndsWell (follow_link follow link off labels seen m)
unfolding follow_link
follow_link-EndsWell follow link off labels seen m h =
    bind_read-EndsWell (linked_labels follow link seen m) _
      (linked_labels-EndsWell follow link seen m h) (λ a m'. ground arith)

decode_pointer-EndsWell :
    (follow : ℕ → List ℕ → Reader (ℕ × List Text)) (off first : ℕ) (labels : List Text)
    (seen : List ℕ) (m : DnsIncoming)
    → ((link : ℕ)
        → link ≤ length m.data_
        → any_of (λ s. s == link) seen ≡ false
        → EndsWell (follow link (link ∷ seen) m))
    → EndsWell (decode_pointer follow off first labels seen m)
unfolding decode_pointer
decode_pointer-EndsWell follow off first labels seen m h =
    elim (Option-cases (get_elem? m.data_ (off + 1))) [
      | inl e ↦ rw (e, view) (λ (p : err index_error ≡ err no_fuel). cc)
      | inr (d, e) ↦
          let link = first % 0x40 * 256 + d in
          rw (e, view)
            (elim (Bool-cases (is_bad_link link off seen m)) [
              | inl bad ↦ rw bad (λ (p : err incoming_decode_error ≡ err no_fuel). cc)
              | inr good ↦ rw good (
                  follow_link-EndsWell follow link off labels seen m
                    (h link (ground arith) (ground arith)))
            ])
    ]

decode_at-EndsWell :
    (next : ℕ → List Text → Reader (ℕ × List Text)) (follow : ℕ → List ℕ → Reader (ℕ × List Text))
    (off : ℕ) (labels : List Text) (seen : List ℕ) (m : DnsIncoming)
    → ((off' : ℕ) (labels' : List Text)
        → off < off'
        → off < length m.data_
        → EndsWell (next off' labels' m))
    → ((link : ℕ)
        → link ≤ length m.data_
        → any_of (λ s. s == link) seen ≡ false
        → EndsWell (follow link (link ∷ seen) m))
    → EndsWell (decode_at next follow off labels seen m)
unfolding decode_at
decode_at-EndsWell next follow off labels seen m hn hf =
    elim (Option-cases (get_elem? m.data_ off)) [
      | inl e ↦ rw (e, decode_at) (λ (p : err incoming_decode_error ≡ err no_fuel). cc)
      | inr (b, e) ↦
          rw (e, decode_at)
            (ground (
              arith,
              hn (off + 1 + b) (labels ++ (utf8_decode (slice (off + 1) b m.data_) ∷ []))
                  (omega arith) (get_elem?-some m.data_ off b e),
              decode_pointer-EndsWell follow off b labels seen m hf,
            ))
    ]

decode_labels_at_offset-EndsWell :
    (depth rounds n off : ℕ) (labels : List Text) (seen : List ℕ) (m : DnsIncoming)
    → length m.data_ + 1 ≡ n
    → unseen n seen < depth
    → 0 < rounds
    → n ≤ rounds + off
    → EndsWell (decode_labels_at_offset depth rounds n off labels seen m)
unfolding decode_labels_at_offset
decode_labels_at_offset-EndsWell zero rounds n off labels seen m hn hd hr ho = absurd (omega arith)
decode_labels_at_offset-EndsWell (suc depth) zero n off labels seen m hn hd hr ho =
    absurd (omega arith)
decode_labels_at_offset-EndsWell (suc depth) (suc rounds) n off labels seen m hn hd hr ho =
    decode_at-EndsWell
      (λ off' labels'. decode_labels_at_offset (suc depth) rounds n off' labels' seen)
      (λ link seen'. decode_labels_at_offset depth n n link [] seen') off labels seen m
      (λ off' labels' lt within.
        decode_labels_at_offset-EndsWell (suc depth) rounds n off' labels' seen m hn hd
          (omega arith) (omega arith))
      (λ link le new.
        decode_labels_at_offset-EndsWell depth n n link [] (link ∷ seen) m hn
          (omega (arith, unseen-cons n link seen (omega arith) new)) (omega arith) (omega arith))

decode_labels-EndsWell : (off : ℕ) → IsTotal (decode_labels off)
unfolding decode_labels
decode_labels-EndsWell off m =
    decode_labels_at_offset-EndsWell (length m.data_ + 2) (length m.data_ + 1) (length m.data_ + 1)
      off [] [] m refl (omega (arith, unseen-nil (length m.data_ + 1))) (omega arith) (omega arith)

-- `_read_name` ends on every packet, from every state: with a name or an exception of the source.
pub read_name-IsTotal : IsTotal read_name
unfolding read_name
read_name-IsTotal m =
    bind_read-EndsWell (decode_labels m.offset m) _ (decode_labels-EndsWell m.offset m)
      (λ a m'. ground arith)
