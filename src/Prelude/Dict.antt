-- ===== src/Prelude/Dict.antt =====
-- A Python dict as the list of its items, oldest first. The keys are compared by `beq`, which
-- holds of two keys exactly when they have the same `ident`.
use mathlib.Core.List.{List, [], ◌∷◌}
use mathlib.Core.Option.{Option, none, some}
use mathlib.Core.Bool.{Bool, true, false}
use mathlib.Core.Logic.{◌↔◌}
use mathlib.Core.Path.{◌≡◌, refl}
use native.Mathlib.Omega.{arith}
use lscamoflash.Prelude.Strings.{Text, text_eq, text_eq_iff}
use lscamoflash.Prelude.Tests.{if◌then◌else◌}

abbrev pub Dict : Type 0 → Type 0 → Type 0
Dict K V = List (K × V)

abbrev pub values {ℓ} : {K V : Type ℓ} → List (K × V) → List V
values [] = []
values ((k, v) ∷ m) = v ∷ values m

abbrev pub keys {ℓ} : {K V : Type ℓ} → List (K × V) → List K
keys [] = []
keys ((k, v) ∷ m) = k ∷ keys m

module _ {K V : Type 0} (beq : K → K → Bool) where
  -- `m.get(k)`
  unfoldable pub get : K → Dict K V → Option V
  get k [] = none
  get k ((j, v) ∷ m) = if beq j k then some v else get k m

  -- `m[k] = v`: an equal key keeps its place and its key object.
  unfoldable pub insert : K → V → Dict K V → Dict K V
  insert k v [] = (k, v) ∷ []
  insert k v ((j, w) ∷ m) = if beq j k then (j, v) ∷ m else (j, w) ∷ insert k v m

  -- `del m[k]`, of a key that is there; a dict holds no two equal keys.
  unfoldable pub delete : K → Dict K V → Dict K V
  delete k [] = []
  delete k ((j, w) ∷ m) = if beq j k then delete k m else (j, w) ∷ delete k m

  -- `k in m`
  unfoldable pub has : K → Dict K V → Bool
  unfolding get
  has k m = elim (get k m) [ none ↦ false | some v ↦ true ]

module _ {K V I : Type 0} (beq : K → K → Bool) (ident : K → I)
    (beq_iff : (a b : K) → (beq a b ≡ true) ↔ (ident a ≡ ident b)) where
  pub get-insert :
      (k j : K) (v : V) (m : Dict K V)
      → get beq j (insert beq k v m) ≡ (if beq k j then some v else get beq j m)
  unfolding get insert
  get-insert k j v [] = refl
  get-insert k j v ((i, w) ∷ m) =
      ground (arith, beq_iff k j, beq_iff i k, beq_iff i j, get-insert k j v m)

  pub get-delete :
      (k j : K) (m : Dict K V)
      → get beq j (delete beq k m) ≡ (if beq k j then none else get beq j m)
  unfolding get delete
  get-delete k j [] = ground arith
  get-delete k j ((i, w) ∷ m) =
      ground (arith, beq_iff k j, beq_iff i k, beq_iff i j, get-delete k j m)

  -- Equal keys read the same.
  pub get_congr : (k j : K) (m : Dict K V) → ident k ≡ ident j → get beq k m ≡ get beq j m
  unfolding get
  get_congr k j [] e = refl
  get_congr k j ((i, w) ∷ m) e = ground (arith, beq_iff i k, beq_iff i j, get_congr k j m e)

-- The dicts whose keys are text
pub get-insert_text :
    {V : Type 0} (k j : Text) (v : V) (m : Dict Text V)
    → get text_eq j (insert text_eq k v m) ≡ (if text_eq k j then some v else get text_eq j m)
get-insert_text k j v m = get-insert text_eq (λ x. x) text_eq_iff k j v m

pub get-delete_text :
    {V : Type 0} (k j : Text) (m : Dict Text V)
    → get text_eq j (delete text_eq k m) ≡ (if text_eq k j then none else get text_eq j m)
get-delete_text k j m = get-delete text_eq (λ x. x) text_eq_iff k j m
