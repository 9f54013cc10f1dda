-- ===== src/Core/Check/Names.antt =====
-- The names that `Zeroconf.async_check_service` tries.
use lscamoflash.Core.Check.{digits, digits_from, next_name}
use lscamoflash.Prelude.{
  ℕ, Bool-cases, Text, [], ap, arith, inl, inr, ltb, refl, suc, sym, zero, ◌%◌, ◌*◌, ◌++◌, ◌+◌, ◌-◌,
  ◌/◌, ◌<◌, ◌∙◌, ◌∷◌, ◌≡◌, length, length-append,
}

-- The number that digits write, behind one that is read already
read_digits : ℕ → Text → ℕ
read_digits acc [] = acc
read_digits acc (c ∷ cs) = read_digits (acc * 10 + (c - 48)) cs

read_digits-snoc :
    (acc : ℕ) (cs : Text) (c : ℕ)
    → read_digits acc (cs ++ (c ∷ [])) ≡ read_digits acc cs * 10 + (c - 48)
unfolding read_digits
read_digits-snoc acc [] c = refl
read_digits-snoc acc (d ∷ cs) c = read_digits-snoc (acc * 10 + (d - 48)) cs c

read-digits_from : (fuel n : ℕ) → n < fuel → read_digits 0 (digits_from fuel n) ≡ n
unfolding digits_from
read-digits_from zero n le = absurd (omega (arith, le))
read-digits_from (suc fuel) n le = elim (Bool-cases (ltb n 10)) [
  | inl e ↦ rw (digits_from, e) (unfold read_digits in omega arith)
  | inr e ↦
      rw
        (
          digits_from,
          e,
          read_digits-snoc 0 (digits_from fuel (n / 10)) (48 + n % 10),
          read-digits_from fuel (n / 10) (ground (arith, le, e)),
        )
        (omega arith)
]

-- Different numbers have different digits.
digits_inj : (m n : ℕ) → digits m ≡ digits n → m ≡ n
unfolding digits
digits_inj m n e =
    sym (read-digits_from (suc m) m (omega arith))
    ∙ ap (read_digits 0) e
    ∙ read-digits_from (suc n) n (omega arith)

append_cancel : (xs ys zs : Text) → xs ++ ys ≡ xs ++ zs → ys ≡ zs
append_cancel [] ys zs e = e
append_cancel (x ∷ xs) ys zs e = append_cancel xs ys zs cc

append_cancel_back : (xs ys zs : Text) → length xs ≡ length ys → xs ++ zs ≡ ys ++ zs → xs ≡ ys
append_cancel_back [] [] zs l e = refl
append_cancel_back [] (y ∷ ys) zs l e = absurd (omega (arith, l))
append_cancel_back (x ∷ xs) [] zs l e = absurd (omega (arith, l))
append_cancel_back (x ∷ xs) (y ∷ ys) zs l e =
    let heads : x ≡ y = cc in let tails = append_cancel_back xs ys zs (omega (arith, l)) cc in cc

lengths : (xs ys zs : Text) → xs ++ zs ≡ ys ++ zs → length xs ≡ length ys
lengths xs ys zs e = omega (arith, length-append xs zs, length-append ys zs, ap length e)

-- Different numbers make different names.
pub next_name_inj :
    (instance_name type : Text) (m n : ℕ)
    → next_name instance_name m type ≡ next_name instance_name n type
    → m ≡ n
unfolding next_name
next_name_inj instance_name type m n e =
    let tail = b'.' ∷ type in
    let numbered : digits m ++ tail ≡ digits n ++ tail =
      let dashed =
        append_cancel instance_name (b'-' ∷ digits m ++ tail) (b'-' ∷ digits n ++ tail) e in
      cc in
    digits_inj m n (
      append_cancel_back (digits m) (digits n) tail (lengths (digits m) (digits n) tail numbered)
        numbered)
