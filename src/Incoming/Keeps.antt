-- ===== src/Incoming/Keeps.antt =====
-- The readers of a packet that leave the answers alone which were read before.
use lscamoflash.Incoming.Names.{
  cache_labels, cached_labels, decode_at, decode_labels, decode_labels_at_offset, decode_pointer,
  follow_link, is_bad_link, linked_labels, read_name,
}
use lscamoflash.Prelude.{
  ℕ, Bool-cases, List, Option-cases, Text, [], arith, get_elem?, inl, inr, length, refl, suc,
  utf8_decode, zero, ◌%◌, ◌*◌, ◌++◌, ◌+◌, ◌∙◌, ◌∷◌, ◌≡◌,
}
use lscamoflash.Dns.{Record}
use lscamoflash.Incoming.{
  Decoded, DnsIncoming, Reader, err, ok, advance, bind_read, read_character_string, read_string,
  return, view, view_long, view_short, ◌>>=◌, modify, slice,
}

-- A reader adds no answer, also where it raises.
abbrev pub Keeps : {A : Type 0} → Reader A → Type 0
Keeps r = (m : DnsIncoming) → (r m).1.answers ≡ m.answers

pub bind_read-answers :
    {A B : Type 0} (x : Decoded A × DnsIncoming) (f : A → Reader B) (l : List Record)
    → x.1.answers ≡ l
    → ((a : A) → Keeps (f a))
    → (bind_read x f).1.answers ≡ l
bind_read-answers (ok a, m) f l e k = k a m ∙ e
bind_read-answers (err d, m) f l e k = e

pub bind-Keeps :
    {A B : Type 0} (r : Reader A) (f : A → Reader B)
    → Keeps r
    → ((a : A) → Keeps (f a))
    → Keeps (r >>= f)
bind-Keeps r f h k m = bind_read-answers (r m) f m.answers (h m) k

pub return-Keeps : {A : Type 0} (a : A) → Keeps (return a)
return-Keeps a m = refl

pub view-Keeps : (i : ℕ) → Keeps (view i)
unfolding view
view-Keeps i m = ground arith

pub advance-Keeps : (n : ℕ) → Keeps (advance n)
unfolding advance
advance-Keeps n m = refl

pub view_short-Keeps : (i : ℕ) → Keeps (view_short i)
unfolding view_short
view_short-Keeps i =
    bind-Keeps (view i) _ (view-Keeps i)
      (λ a. bind-Keeps (view (i + 1)) _ (view-Keeps (i + 1)) (λ b. return-Keeps (a * 256 + b)))

pub view_long-Keeps : (i : ℕ) → Keeps (view_long i)
unfolding view_long
view_long-Keeps i = bind-Keeps (view_short i) _ (view_short-Keeps i) (λ a.
    bind-Keeps (view_short (i + 2)) _ (view_short-Keeps (i + 2))
      (λ b. return-Keeps (a * 65536 + b)))

pub read_string-Keeps : (n : ℕ) → Keeps (read_string n)
unfolding read_string
read_string-Keeps n m = refl

pub read_character_string-Keeps : Keeps read_character_string
unfolding read_character_string
read_character_string-Keeps m =
    bind_read-answers (view m.offset m) _ m.answers (view-Keeps m.offset m)
      (λ n m'. unfold read_string in refl)

linked_labels-Keeps :
    (follow : ℕ → List ℕ → Reader (ℕ × List Text)) (link : ℕ) (seen : List ℕ)
    → Keeps (follow link (link ∷ seen))
    → Keeps (linked_labels follow link seen)
unfolding linked_labels cache_labels
linked_labels-Keeps follow link seen h m = go (cached_labels link m)
  where
    go :
        (c : List Text)
        → (elim c as (λ x. Decoded (List Text) × DnsIncoming) [
          | [] ↦
              bind_read
                (follow link (link ∷ seen) m)
                (λ r. modify (cache_labels link r.1) >>= λ u. return r.1)
          | l ∷ ls ↦ (ok (l ∷ ls), m)
        ]).1.answers
          ≡ m.answers
    go [] = bind_read-answers (follow link (link ∷ seen) m) _ m.answers (h m) (λ a m'. refl)
    go (l ∷ ls) = refl

follow_link-Keeps :
    (follow : ℕ → List ℕ → Reader (ℕ × List Text)) (link off : ℕ) (labels : List Text)
    (seen : List ℕ)
    → Keeps (follow link (link ∷ seen))
    → Keeps (follow_link follow link off labels seen)
unfolding follow_link
follow_link-Keeps follow link off labels seen h m =
    bind_read-answers (linked_labels follow link seen m) _ m.answers
      (linked_labels-Keeps follow link seen h m) (λ a m'. ground arith)

decode_pointer-Keeps :
    (follow : ℕ → List ℕ → Reader (ℕ × List Text)) (off first : ℕ) (labels : List Text)
    (seen : List ℕ)
    → ((link : ℕ) → Keeps (follow link (link ∷ seen)))
    → Keeps (decode_pointer follow off first labels seen)
unfolding decode_pointer
decode_pointer-Keeps follow off first labels seen h =
    bind-Keeps (view (off + 1)) _ (view-Keeps (off + 1)) (λ d m.
      let link = first % 0x40 * 256 + d in
      elim (Bool-cases (is_bad_link link off seen m)) [
        | inl bad ↦ rw bad refl
        | inr good ↦ rw good (follow_link-Keeps follow link off labels seen (h link) m)
      ])

decode_at-Keeps :
    (next : ℕ → List Text → Reader (ℕ × List Text)) (follow : ℕ → List ℕ → Reader (ℕ × List Text))
    (off : ℕ) (labels : List Text) (seen : List ℕ)
    → ((off' : ℕ) (labels' : List Text) → Keeps (next off' labels'))
    → ((link : ℕ) (seen' : List ℕ) → Keeps (follow link seen'))
    → Keeps (decode_at next follow off labels seen)
unfolding decode_at
decode_at-Keeps next follow off labels seen hn hf m = elim (Option-cases (get_elem? m.data_ off)) [
  | inl e ↦ rw (e, decode_at) refl
  | inr (b, e) ↦
      rw (e, decode_at)
        (ground (
          arith,
          hn (off + 1 + b) (labels ++ (utf8_decode (slice (off + 1) b m.data_) ∷ [])) m,
          decode_pointer-Keeps follow off b labels seen (λ link. hf link (link ∷ seen)) m,
        ))
]

decode_labels_at_offset-Keeps :
    (depth rounds n off : ℕ) (labels : List Text) (seen : List ℕ)
    → Keeps (decode_labels_at_offset depth rounds n off labels seen)
unfolding decode_labels_at_offset
decode_labels_at_offset-Keeps zero rounds n off labels seen m = refl
decode_labels_at_offset-Keeps (suc depth) zero n off labels seen m = refl
decode_labels_at_offset-Keeps (suc depth) (suc rounds) n off labels seen m =
    decode_at-Keeps (λ off' labels'. decode_labels_at_offset (suc depth) rounds n off' labels' seen)
      (λ link seen'. decode_labels_at_offset depth n n link [] seen') off labels seen
      (λ off' labels'. decode_labels_at_offset-Keeps (suc depth) rounds n off' labels' seen)
      (λ link seen'. decode_labels_at_offset-Keeps depth n n link [] seen') m

pub read_name-Keeps : Keeps read_name
unfolding read_name decode_labels cache_labels
read_name-Keeps m =
    bind_read-answers
      (decode_labels_at_offset (length m.data_ + 2) (length m.data_ + 1) (length m.data_ + 1)
        m.offset [] [] m)
      _ m.answers
      (decode_labels_at_offset-Keeps (length m.data_ + 2) (length m.data_ + 1) (length m.data_ + 1)
        m.offset [] [] m)
      (λ a m'. ground arith)
