-- ===== src/Base/Sorting.antt =====
-- Insertion sort by a Boolean comparison, for `ORDER BY` and `Array.prototype.sort`: stable, and
-- ascending where the comparison is transitive and total.
use mathlib.Core.Path.{◌≡◌, refl}
use mathlib.Core.Bool.{Bool, true, false, ◌||◌}
use mathlib.Core.List.{List, [], ◌∷◌, ◌++◌}
use mathlib.Core.Logic.{inl, inr}
use native.Mathlib.Omega.{arith}
use plastic_wan.Base.Tests.{if◌then◌else◌, Bool-cases}
use plastic_wan.Base.Lists.{any, All}

module _ {ℓ} {A : Type ℓ} (before : A → A → Bool) where
  -- Each element comes before all that follow it.
  abbrev pub IsOrdered : List A → Type 0
  IsOrdered [] = Unit
  IsOrdered (x ∷ xs) = All (λ y. before x y ≡ true) xs × IsOrdered xs

  pub IsOrdered-append_right : (xs ys : List A) → IsOrdered (xs ++ ys) → IsOrdered ys
  IsOrdered-append_right [] ys h = h
  IsOrdered-append_right (x ∷ xs) ys (h, hs) = IsOrdered-append_right xs ys hs

module _ {ℓ} {A : Type ℓ} (before : A → A → Bool) where
  -- A new element goes behind those that do not come after it.
  unfoldable pub insert_sorted : A → List A → List A
  insert_sorted x [] = x ∷ []
  insert_sorted x (y ∷ ys) =
      let later = y ∷ insert_sorted x ys in if before x y then x ∷ y ∷ ys else later

  unfoldable pub sort : List A → List A
  unfolding insert_sorted
  sort [] = []
  sort (x ∷ xs) = insert_sorted x (sort xs)

  pub any-insert_sorted :
      (p : A → Bool) (x : A) (xs : List A) → any p (insert_sorted x xs) ≡ (p x || any p xs)
  unfolding insert_sorted
  any-insert_sorted p x [] = refl
  any-insert_sorted p x (y ∷ ys) = ground (arith, any-insert_sorted p x ys)

  pub any-sort : (p : A → Bool) (xs : List A) → any p (sort xs) ≡ any p xs
  unfolding sort
  any-sort p [] = refl
  any-sort p (x ∷ xs) = ground (arith, any-insert_sorted p x (sort xs), any-sort p xs)

  pub All-insert_sorted {κ} :
      (P : A → Type κ) (x : A) (xs : List A) → P x → All P xs → All P (insert_sorted x xs)
  unfolding insert_sorted
  All-insert_sorted P x [] h hs = (h, hs)
  All-insert_sorted P x (y ∷ ys) h (k, ks) = elim (Bool-cases (before x y)) [
    | inl e ↦ rw e (h, (k, ks))
    | inr e ↦ rw e (k, All-insert_sorted P x ys h ks)
  ]

  pub All-sort {κ} : (P : A → Type κ) (xs : List A) → All P xs → All P (sort xs)
  unfolding sort
  All-sort P [] h = h
  All-sort P (x ∷ xs) (h, hs) = All-insert_sorted P x (sort xs) h (All-sort P xs hs)

  module _ (total : (x y : A) → before x y ≡ false → before y x ≡ true)
      (trans : (x y z : A) → before x y ≡ true → before y z ≡ true → before x z ≡ true) where
    All-before :
        (x y : A) (zs : List A)
        → before x y ≡ true
        → All (λ z. before y z ≡ true) zs
        → All (λ z. before x z ≡ true) zs
    All-before x y [] h k = tt
    All-before x y (z ∷ zs) h (k, ks) = (trans x y z h k, All-before x y zs h ks)

    pub insert_sorted-IsOrdered :
        (x : A) (xs : List A) → IsOrdered before xs → IsOrdered before (insert_sorted x xs)
    unfolding insert_sorted
    insert_sorted-IsOrdered x [] h = (tt, tt)
    insert_sorted-IsOrdered x (y ∷ ys) (h, hs) = elim (Bool-cases (before x y)) [
      | inl e ↦ rw e ((e, All-before x y ys e h), (h, hs))
      | inr e ↦ rw e (
        All-insert_sorted (λ z. before y z ≡ true) x ys (total x y e) h,
        insert_sorted-IsOrdered x ys hs,
      )
    ]

    pub sort-IsOrdered : (xs : List A) → IsOrdered before (sort xs)
    unfolding sort
    sort-IsOrdered [] = tt
    sort-IsOrdered (x ∷ xs) = insert_sorted-IsOrdered x (sort xs) (sort-IsOrdered xs)
