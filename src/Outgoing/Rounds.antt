-- ===== src/Outgoing/Rounds.antt =====
-- The rounds of the loop of `packets`.
use lscamoflash.Outgoing.Sections.{write_question, write_record}
use lscamoflash.Outgoing.Limits.{Steps, Tries, write_question-Tries, write_record-Tries}
use lscamoflash.Outgoing.Packets.{
  write_items, Offsets, write_answers_from_offset, write_questions_from_offset,
  write_records_from_offset, write_sections,
}
use lscamoflash.Outgoing.Growth.{IsSame, IsSame-trans, total-append, total}
use lscamoflash.Prelude.{
  ℕ, Bool, List, [], arith, false, length, refl, suc, true, ◌+◌, ◌∙◌, ◌∷◌, ◌≡◌, ◌≢◌, ◌≤◌, drop,
  length-drop,
}
use lscamoflash.Outgoing.{ok, err, no_fuel, ◌>>=◌, DnsOutgoing, Written}

-- The count of bytes stands for the header and the pieces, within the absolute limit.
pub record IsSized (o : DnsOutgoing) : Type 0 where
  pub counted : o.size ≡ 12 + total o.data_
  pub bounded : o.size ≤ 8966

-- What the items of one section do: `n` of at most `most` are written.
record Wrote (most : ℕ) (o : DnsOutgoing) (n : ℕ) (o' : DnsOutgoing) : Type 0 where
  within : n ≤ most
  idle : n ≡ 0 → o'.data_ ≡ o.data_
  sized : IsSized o → IsSized o'
  wrote_same : IsSame o o'

abbrev Writes : ℕ → DnsOutgoing → Written (ℕ × DnsOutgoing) → Type 0
Writes most o (ok (n, o')) = Wrote most o n o'
Writes most o (err e) = e ≢ no_fuel

pub IsSame-refl : (o : DnsOutgoing) → IsSame o o
IsSame-refl o = (refl, refl, refl, refl, refl)

Steps-IsSized : (fits : Bool) (o o' : DnsOutgoing) → Steps o fits o' → IsSized o → IsSized o'
Steps-IsSized true o o' s v =
    let (cs, d, n, le) = s.written refl in
    record {
      counted = rw d (omega (arith, n, v.counted, total-append o.data_ cs));
      bounded = ground (arith, le);
    }
Steps-IsSized false o o' s v =
    let (d, n) = s.rolled_back refl in
    record { counted = rw d (n ∙ v.counted); bounded = omega (arith, n, v.bounded) }

module _ {X : Type 0} (write : X → DnsOutgoing → Written (Bool × DnsOutgoing))
    (tries : (x : X) (o : DnsOutgoing) → Tries o (write x o)) where
  more-Writes :
      (most : ℕ) (o o' : DnsOutgoing) (w : Written (ℕ × DnsOutgoing))
      → Steps o true o'
      → Writes most o' w
      → Writes (suc most) o (w >>= λ (n, o''). ok (n + 1, o''))
  more-Writes most o o' (err e) s h = h
  more-Writes most o o' (ok (n, o'')) s h = record {
    within = omega (arith, h.within);
    idle = λ z. absurd (omega (arith, z));
    sized = λ v. h.sized (Steps-IsSized true o o' s v);
    wrote_same = IsSame-trans o o' o'' s.step_same h.wrote_same;
  }

  first-Writes :
      (xs : List X) (o : DnsOutgoing) (w : Written (Bool × DnsOutgoing))
      → ((o' : DnsOutgoing) → Writes (length xs) o' (write_items write xs o'))
      → Tries o w
      → Writes (suc (length xs)) o (
          w >>= λ (fits, o'). elim fits [
            | false ↦ ok (0, o')
            | true ↦ write_items write xs o' >>= λ (n, o''). ok (n + 1, o'')
          ])
  first-Writes xs o (err e) k h = h
  first-Writes xs o (ok (true, o')) k h = more-Writes (length xs) o o' _ h (k o')
  first-Writes xs o (ok (false, o')) k h = record {
    within = omega arith;
    idle = λ z. (h.rolled_back refl).0;
    sized = Steps-IsSized false o o' h;
    wrote_same = h.step_same;
  }

  write_items-Writes :
      (xs : List X) (o : DnsOutgoing) → Writes (length xs) o (write_items write xs o)
  unfolding write_items
  write_items-Writes [] o = record {
    within = omega arith;
    idle = λ z. refl;
    sized = λ v. v;
    wrote_same = IsSame-refl o;
  }
  write_items-Writes (x ∷ xs) o = first-Writes xs o (write x o) (write_items-Writes xs) (tries x o)

-- The offsets lie within the sections.
pub record IsWithin (s : Offsets) (o : DnsOutgoing) : Type 0 where
  pub questions_within : s.questions_offset ≤ length o.questions
  pub answers_within : s.answer_offset ≤ length o.answers
  pub authorities_within : s.authority_offset ≤ length o.authorities
  pub additionals_within : s.additional_offset ≤ length o.additionals

-- The items that were written before the offsets
unfoldable pub done : Offsets → ℕ
done s = s.questions_offset + s.answer_offset + s.authority_offset + s.additional_offset

-- What one round does to the offsets and the object
pub record Rounds (s : Offsets) (o : DnsOutgoing) (s' : Offsets) (o' : DnsOutgoing) : Type 0 where
  pub round_within : IsWithin s' o'
  pub ahead : done s ≤ done s'
  pub round_idle : done s' ≡ done s → o'.data_ ≡ o.data_
  pub round_sized : IsSized o → IsSized o'
  pub round_same : IsSame o o'

abbrev pub RoundOf : Offsets → DnsOutgoing → Written (Offsets × DnsOutgoing) → Type 0
RoundOf s o (ok (s', o')) = Rounds s o s' o'
RoundOf s o (err e) = e ≢ no_fuel

-- A section at a time: `f` makes the rest of the round from the count of items that were written.
next-RoundOf :
    (most : ℕ) (s : Offsets) (o o1 : DnsOutgoing) (w : Written (ℕ × DnsOutgoing))
    (f : ℕ × DnsOutgoing → Written (Offsets × DnsOutgoing))
    → Writes most o1 w
    → ((n : ℕ) (o2 : DnsOutgoing) → Wrote most o1 n o2 → RoundOf s o (f (n, o2)))
    → RoundOf s o (w >>= f)
next-RoundOf most s o o1 (err e) f h k = h
next-RoundOf most s o o1 (ok (n, o2)) f h k = k n o2 h

round_of :
    (s : Offsets) (o : DnsOutgoing)
    → IsWithin s o
    → (q a u d : ℕ) (o1 o2 o3 o4 : DnsOutgoing)
    → Wrote (length (drop s.questions_offset o.questions)) o q o1
    → Wrote (length (drop s.answer_offset o1.answers)) o1 a o2
    → Wrote (length (drop s.authority_offset o2.authorities)) o2 u o3
    → Wrote (length (drop s.additional_offset o3.additionals)) o3 d o4
    → Rounds s o
        (record {
          questions_offset = s.questions_offset + q;
          answer_offset = s.answer_offset + a;
          authority_offset = s.authority_offset + u;
          additional_offset = s.additional_offset + d;
        })
        o4
unfolding done
round_of s o v q a u d o1 o2 o3 o4 w1 w2 w3 w4 =
    let same2 = IsSame-trans o o1 o2 w1.wrote_same w2.wrote_same in
    let same3 = IsSame-trans o o2 o3 same2 w3.wrote_same in
    let same4 = IsSame-trans o o3 o4 same3 w4.wrote_same in
    record {
      round_within = record {
        questions_within = rw (same4.0) (
            omega
              (arith, w1.within, v.questions_within, length-drop s.questions_offset o.questions));
        answers_within = rw (same4.1) (
            omega (
              arith,
              rw (w1.wrote_same.1) at (w2.within),
              v.answers_within,
              length-drop s.answer_offset o.answers,
            ));
        authorities_within = rw (same4.2) (
            omega (
              arith,
              rw (same2.2) at (w3.within),
              v.authorities_within,
              length-drop s.authority_offset o.authorities,
            ));
        additionals_within = rw (same4.3) (
            omega (
              arith,
              rw (same3.3) at (w4.within),
              v.additionals_within,
              length-drop s.additional_offset o.additionals,
            ));
      };
      ahead = omega arith;
      round_idle = λ z.
          w4.idle (omega (arith, z))
          ∙ w3.idle (omega (arith, z))
          ∙ w2.idle (omega (arith, z))
          ∙ w1.idle (omega (arith, z));
      round_sized = λ i. w4.sized (w3.sized (w2.sized (w1.sized i)));
      round_same = same4;
    }

pub write_sections-RoundOf :
    (s : Offsets) (o : DnsOutgoing) → IsWithin s o → RoundOf s o (write_sections s o)
unfolding write_sections write_questions_from_offset write_answers_from_offset
    write_records_from_offset
write_sections-RoundOf s o v =
    next-RoundOf _ s o o _ _
      (write_items-Writes write_question write_question-Tries (drop s.questions_offset o.questions)
        o)
      (λ q o1 w1.
        next-RoundOf _ s o o1 _ _
          (write_items-Writes (λ a. write_record a.0 a.1) (λ a. write_record-Tries a.0 a.1)
            (drop s.answer_offset o1.answers) o1)
          (λ a o2 w2.
            next-RoundOf _ s o o2 _ _
              (write_items-Writes (λ r. write_record r 0) (λ r. write_record-Tries r 0)
                (drop s.authority_offset o2.authorities) o2)
              (λ u o3 w3.
                next-RoundOf _ s o o3 _ _
                  (write_items-Writes (λ r. write_record r 0) (λ r. write_record-Tries r 0)
                    (drop s.additional_offset o3.additionals) o3)
                  (λ d o4 w4. round_of s o v q a u d o1 o2 o3 o4 w1 w2 w3 w4))))
