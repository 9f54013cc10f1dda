-- ===== src/Outgoing/Ends.antt =====
-- `packets` as a whole: its fuel, and the lengths of the packets.
use lscamoflash.Outgoing.Rounds.{
  IsSized, IsSame-refl, IsWithin, RoundOf, Rounds, write_sections-RoundOf, done,
}
use lscamoflash.Outgoing.Packets.{
  Offsets, finish_packet, has_data, item_count, has_more_to_add, packets_loop, write_sections,
  with_tc, no_offsets, packets,
}
use lscamoflash.Outgoing.Growth.{IsSame, total}
use lscamoflash.Prelude.{
  ℕ, Bool-cases, Bytes, List, [], arith, concat_all, inl, inr, length, length-append, ltb, refl,
  ◌+◌, ◌∙◌, ◌∷◌, ◌≡◌, ◌≢◌, ◌≤◌, All, All-snoc, suc, true, ◌++◌, ◌<◌, false, zero, ◌&&◌,
  if◌then◌else◌, ◌-◌, Bool,
}
use lscamoflash.Outgoing.{
  is_query, ok, err, no_fuel, ◌>>=◌, struct_error, DnsOutgoing, Written, get_short,
  insert_short_at_start, reset_for_next_packet,
}

length-concat_all : (cs : List Bytes) → length (concat_all cs) ≡ total cs
unfolding total
length-concat_all [] = refl
length-concat_all (c ∷ cs) = length-append c (concat_all cs) ∙ omega (arith, length-concat_all cs)

-- Numbers that are put before the pieces: two bytes each
abbrev Heads : ℕ → DnsOutgoing → Written DnsOutgoing → Type 0
Heads n o (ok o') = IsSame o o' × (total o'.data_ ≡ n + total o.data_)
Heads n o (err e) = e ≢ no_fuel

insert-Heads :
    (v n : ℕ) (o o1 : DnsOutgoing)
    → IsSame o o1
    → total o1.data_ ≡ n + total o.data_
    → Heads (n + 2) o (insert_short_at_start v o1)
unfolding insert_short_at_start get_short total
insert-Heads v n o o1 s e = elim (Bool-cases (ltb v 0x10000)) [
  | inl t ↦ rw t (s, omega (arith, e))
  | inr t ↦ rw t (λ (p : struct_error ≡ no_fuel). cc)
]

-- All packets made so far are within the limit.
abbrev pub IsShort : Bytes → Type 0
IsShort b = length b ≤ 8966

abbrev SameItems : DnsOutgoing → DnsOutgoing → Type 0
SameItems o o' =
    (o'.questions ≡ o.questions)
    × (o'.answers ≡ o.answers)
    × (o'.authorities ≡ o.authorities)
    × (o'.additionals ≡ o.additionals)

abbrev Finishes : DnsOutgoing → Written DnsOutgoing → Type 0
Finishes o (ok o') =
    SameItems o o' × (IsSized o → All IsShort o.packets_data → All IsShort o'.packets_data)
Finishes o (err e) = e ≢ no_fuel

-- The packet whose pieces stand behind their header
packet-Finishes :
    (o o6 : DnsOutgoing)
    → IsSame o o6
    → total o6.data_ ≡ 12 + total o.data_
    → Finishes o (ok (record o6 { packets_data = o6.packets_data ++ (concat_all o6.data_ ∷ []) }))
packet-Finishes o o6 s e = (
  (s.0, s.1, s.2, s.3),
  λ v a.
      All-snoc IsShort o6.packets_data (concat_all o6.data_) (rw (s.4) a)
        (omega (arith, length-concat_all o6.data_, e, v.counted, v.bounded)),
)

insert-Finishes :
    (v n : ℕ) (o o1 : DnsOutgoing) (f : DnsOutgoing → Written DnsOutgoing)
    → IsSame o o1
    → total o1.data_ ≡ n + total o.data_
    → ((o2 : DnsOutgoing)
        → IsSame o o2
        → total o2.data_ ≡ n + 2 + total o.data_
        → Finishes o (f o2))
    → Finishes o (insert_short_at_start v o1 >>= f)
insert-Finishes v n o o1 f s e k = go (insert_short_at_start v o1) (insert-Heads v n o o1 s e)
  where
    go : (w : Written DnsOutgoing) → Heads (n + 2) o w → Finishes o (w >>= f)
    go (err e) h = h
    go (ok o2) (s2, e2) = k o2 s2 e2

finish_packet-Finishes : (s s' : Offsets) (o : DnsOutgoing) → Finishes o (finish_packet s s' o)
unfolding finish_packet
finish_packet-Finishes s s' o =
    insert-Finishes (s'.additional_offset - s.additional_offset) 0 o o _ (IsSame-refl o)
      (omega arith)
      (λ o1 t1 e1.
        insert-Finishes (s'.authority_offset - s.authority_offset) 2 o o1 _ t1 (omega (arith, e1))
          (λ o2 t2 e2.
            insert-Finishes (s'.answer_offset - s.answer_offset) 4 o o2 _ t2 (omega (arith, e2))
              (λ o3 t3 e3.
                insert-Finishes (s'.questions_offset - s.questions_offset) 6 o o3 _ t3
                  (omega (arith, e3))
                  (λ o4 t4 e4.
                    insert-Finishes
                      (if has_more_to_add s' o4 && is_query o4 then with_tc o4.flags else o4.flags)
                      8 o o4 _ t4 (omega (arith, e4))
                      (λ o5 t5 e5.
                        insert-Finishes (if o5.multicast then 0 else o5.id) 10 o o5
                          (λ o6. ok (record o6 {
                            packets_data = o6.packets_data ++ (concat_all o6.data_ ∷ []);
                          }))
                          t5 (omega (arith, e5))
                          (λ o6 t6 e6. packet-Finishes o o6 t6 (omega (arith, e6))))))))

-- A run that ends: with short packets, or with an exception of the source
abbrev pub Ends : Written DnsOutgoing → Type 0
Ends (ok o') = All IsShort o'.packets_data
Ends (err e) = e ≢ no_fuel

-- What the loop needs at the start of each round
record Starts (fuel : ℕ) (s : Offsets) (o : DnsOutgoing) : Type 0 where
  start_within : IsWithin s o
  start_sized : IsSized o
  start_empty : o.data_ ≡ []
  start_short : All IsShort o.packets_data
  enough : item_count o < fuel + done s

grew : (d : List Bytes) (m n : ℕ) → has_data d ≡ true → (n ≡ m → d ≡ []) → m ≤ n → m < n
unfolding has_data
grew [] m n h k le = absurd cc
grew (c ∷ cs) m n h k le = ground (arith, h, k, le)

next-Starts :
    (fuel : ℕ) (s s' : Offsets) (o o1 o2 : DnsOutgoing)
    → Starts (suc fuel) s o
    → Rounds s o s' o1
    → Finishes o1 (ok o2)
    → has_data o1.data_ ≡ true
    → Starts fuel s' (reset_for_next_packet o2)
unfolding reset_for_next_packet has_data item_count total
next-Starts fuel s s' o o1 o2 v r (t, short) h = record {
  start_within = record {
    questions_within = rw (t.0) r.round_within.questions_within;
    answers_within = rw (t.1) r.round_within.answers_within;
    authorities_within = rw (t.2) r.round_within.authorities_within;
    additionals_within = rw (t.3) r.round_within.additionals_within;
  };
  start_sized = record { counted = omega arith; bounded = omega arith };
  start_empty = refl;
  start_short = short (r.round_sized v.start_sized) (rw (r.round_same.4) v.start_short);
  enough =
      rw (t.0, t.1, t.2, t.3, r.round_same.0, r.round_same.1, r.round_same.2, r.round_same.3)
        (omega (
          arith,
          v.enough,
          grew o1.data_ (done s) (done s') h (λ z. r.round_idle z ∙ v.start_empty) r.ahead,
        ));
}

elim-Ends :
    (b : Bool) (x y : Written DnsOutgoing)
    → (b ≡ false → Ends x)
    → (b ≡ true → Ends y)
    → Ends (elim b [ false ↦ x | true ↦ y ])
elim-Ends true x y h k = k refl
elim-Ends false x y h k = h refl

loop-Ends :
    (fuel : ℕ) (s : Offsets) (o : DnsOutgoing) → Starts fuel s o → Ends (packets_loop fuel s o)
unfolding packets_loop
loop-Ends zero s o v = absurd (
    unfold done item_count in
    omega (
      arith, v.enough, v.start_within.questions_within, v.start_within.answers_within,
      v.start_within.authorities_within, v.start_within.additionals_within,
    ))
loop-Ends (suc fuel) s o v =
    round (write_sections s o) (write_sections-RoundOf s o v.start_within) (loop-Ends fuel)
  where
    continue :
        (s' : Offsets) (o1 : DnsOutgoing) (w : Written DnsOutgoing)
        → Rounds s o s' o1
        → Finishes o1 w
        → ((t : Offsets) (p : DnsOutgoing) → Starts fuel t p → Ends (packets_loop fuel t p))
        → Ends (
            w >>= λ o2. elim (has_data o1.data_ && has_more_to_add s' o2) [
              | false ↦ ok o2
              | true ↦ packets_loop fuel s' (reset_for_next_packet o2)
            ])
    continue s' o1 (err e) r f ih = f
    continue s' o1 (ok o2) r f ih =
        elim-Ends (has_data o1.data_ && has_more_to_add s' o2) _ _
          (λ e. f.1 (r.round_sized v.start_sized) (rw (r.round_same.4) v.start_short))
          (λ e. ih s' _ (next-Starts fuel s s' o o1 o2 v r f (ground (arith, e))))

    round :
        (w : Written (Offsets × DnsOutgoing))
        → RoundOf s o w
        → ((t : Offsets) (p : DnsOutgoing) → Starts fuel t p → Ends (packets_loop fuel t p))
        → Ends (
            w >>= λ (s', o1). finish_packet s s' o1 >>= λ o2.
            elim (has_data o1.data_ && has_more_to_add s' o2) [
              | false ↦ ok o2
              | true ↦ packets_loop fuel s' (reset_for_next_packet o2)
            ])
    round (err e) h ih = h
    round (ok (s', o1)) h ih =
        continue s' o1 (finish_packet s s' o1) h (finish_packet-Finishes s s' o1) ih

-- A run of `packets` that ends with packets of at most 8966 bytes, or with an exception of the source
abbrev pub IsEnded : Written (List Bytes × DnsOutgoing) → Type 0
IsEnded (ok (ps, o)) = All IsShort ps
IsEnded (err e) = e ≢ no_fuel

finished-IsEnded :
    (w : Written DnsOutgoing)
    → Ends w
    → IsEnded (w >>= λ o. ok (o.packets_data, record o { finished = true }))
finished-IsEnded (err e) h = h
finished-IsEnded (ok o) h = h

-- `packets` of a message to which nothing was written yet ends: its loop does not run out of fuel,
-- whatever the questions and records, and each of the packets that it returns has at most 8966 bytes.
pub packets-IsEnded :
    (o : DnsOutgoing)
    → o.finished ≡ false
    → o.data_ ≡ []
    → o.size ≡ 12
    → o.packets_data ≡ []
    → IsEnded (packets o)
unfolding packets done item_count total
packets-IsEnded o f d n p =
    rw (f, packets)
      (finished-IsEnded (packets_loop (item_count o + 1) no_offsets o) (
        loop-Ends (item_count o + 1) no_offsets o (record {
          start_within = record {
            questions_within = omega arith;
            answers_within = omega arith;
            authorities_within = omega arith;
            additionals_within = omega arith;
          };
          start_sized = record { counted = rw d n; bounded = omega (arith, n) };
          start_empty = d;
          start_short = rw p tt;
          enough = omega arith;
        })))
