-- ===== src/Base/Lists.antt =====
-- Lists measured by native numbers and filtered by Boolean tests, with the lemmas on them.
use Prim.Native.Nat.{ℕ, zero, suc, ◌+◌, ◌≤◌}
use mathlib.Core.Path.{◌≡◌, refl}
use mathlib.Core.Logic.{◌↔◌, inl, inr}
use mathlib.Core.Bool.{Bool, true, false, ◌||◌}
use mathlib.Core.Option.{Option, none, some}
use mathlib.Core.List.{List, [], ◌∷◌, ◌++◌, Memᴰ, reverse, reverse-cons}
use native.Mathlib.Omega.{arith}
use plastic_wan.Base.Tests.{if◌then◌else◌, Bool-cases}

module _ {ℓ} {A : Type ℓ} where
  abbrev pub length : List A → ℕ
  length [] = 0
  length (x ∷ xs) = suc (length xs)

  abbrev pub is_empty : List A → Bool
  is_empty [] = true
  is_empty (x ∷ xs) = false

  abbrev pub drop : ℕ → List A → List A
  drop zero xs = xs
  drop (suc n) [] = []
  drop (suc n) (x ∷ xs) = drop n xs

  abbrev pub get_elem? : List A → ℕ → Option A
  get_elem? [] i = none
  get_elem? (x ∷ xs) zero = some x
  get_elem? (x ∷ xs) (suc i) = get_elem? xs i

  abbrev pub filter : (A → Bool) → List A → List A
  filter p [] = []
  filter p (x ∷ xs) = let rest = filter p xs in if p x then x ∷ rest else rest

  abbrev pub any : (A → Bool) → List A → Bool
  any p [] = false
  any p (x ∷ xs) = p x || any p xs

  -- `Array.prototype.find`
  abbrev pub find? : (A → Bool) → List A → Option A
  find? p [] = none
  find? p (x ∷ xs) = let later = find? p xs in if p x then some x else later

  abbrev pub count : (A → Bool) → List A → ℕ
  count p [] = 0
  count p (x ∷ xs) = let rest = count p xs in if p x then suc rest else rest

  abbrev pub sum_by : (A → ℕ) → List A → ℕ
  sum_by f [] = 0
  sum_by f (x ∷ xs) = f x + sum_by f xs

  -- `UPDATE ... SET ... WHERE test`, on the rows of a table.
  abbrev pub update_where : (A → Bool) → (A → A) → List A → List A
  update_where p f [] = []
  update_where p f (x ∷ xs) = let rest = update_where p f xs in if p x then f x ∷ rest else x ∷ rest

  pub length-append : (xs ys : List A) → length (xs ++ ys) ≡ length xs + length ys
  length-append [] ys = omega arith
  length-append (x ∷ xs) ys = omega (arith, length-append xs ys)

  pub count-length-filter : (p : A → Bool) (xs : List A) → length (filter p xs) ≡ count p xs
  count-length-filter p [] = refl
  count-length-filter p (x ∷ xs) = ground (arith, count-length-filter p xs)

module _ {ℓ κ} {A : Type ℓ} (P : A → Type κ) where
  abbrev pub All : List A → Type κ
  All [] = Unit
  All (x ∷ xs) = P x × All xs

  pub All-append : (xs ys : List A) → All xs → All ys → All (xs ++ ys)
  All-append [] ys hx hy = hy
  All-append (x ∷ xs) ys hx hy = (hx.0, All-append xs ys hx.1 hy)

  pub All-filter : (p : A → Bool) (xs : List A) → All xs → All (filter p xs)
  All-filter p [] h = tt
  All-filter p (x ∷ xs) (h, hs) = ground (arith, All-filter p xs hs)

  pub All-append_right : (xs ys : List A) → All (xs ++ ys) → All ys
  All-append_right [] ys h = h
  All-append_right (x ∷ xs) ys (h, hs) = All-append_right xs ys hs

  pub All-reverse : (xs : List A) → All xs → All (reverse xs)
  All-reverse [] h = tt
  All-reverse (x ∷ xs) (h, hs) =
      rw (reverse-cons x xs) (All-append (reverse xs) (x ∷ []) (All-reverse xs hs) (h, tt))

  -- What `find` returns passes its test, and has what all members have.
  pub find?-All :
      (p : A → Bool) (xs : List A) {a : A} → All xs → find? p xs ≡ some a → P a × (p a ≡ true)
  find?-All p [] h e = cc
  find?-All p (x ∷ xs) {a} (h, hs) e = elim (Bool-cases (p x)) [
    | inl t ↦ let same : x ≡ a = ground arith in rw (← same) (h, t)
    | inr f ↦ find?-All p xs hs (ground arith)
  ]

module _ {ℓ} {A : Type ℓ} where
  pub All-filter_self : (p : A → Bool) (xs : List A) → All (λ x. p x ≡ true) (filter p xs)
  All-filter_self p [] = tt
  All-filter_self p (x ∷ xs) = elim (Bool-cases (p x)) [
    | inl e ↦ rw e (e, All-filter_self p xs)
    | inr e ↦ rw e (All-filter_self p xs)
  ]

  -- A filter by a stronger test keeps no more.
  pub length-filter_le :
      (p q : A → Bool) (xs : List A)
      → ((x : A) → p x ≡ true → q x ≡ true)
      → length (filter p xs) ≤ length (filter q xs)
  length-filter_le p q [] h = omega arith
  length-filter_le p q (x ∷ xs) h = ground (arith, length-filter_le p q xs h, h x)

  pub sum_by-filter_le :
      (f : A → ℕ) (p q : A → Bool) (xs : List A)
      → ((x : A) → p x ≡ true → q x ≡ true)
      → sum_by f (filter p xs) ≤ sum_by f (filter q xs)
  sum_by-filter_le f p q [] h = omega arith
  sum_by-filter_le f p q (x ∷ xs) h = ground (arith, sum_by-filter_le f p q xs h, h x)

  pub length-filter_le_length : (p : A → Bool) (xs : List A) → length (filter p xs) ≤ length xs
  length-filter_le_length p [] = omega arith
  length-filter_le_length p (x ∷ xs) = ground (arith, length-filter_le_length p xs)

  pub sum_by-filter_le_sum_by :
      (f : A → ℕ) (p : A → Bool) (xs : List A) → sum_by f (filter p xs) ≤ sum_by f xs
  sum_by-filter_le_sum_by f p [] = omega arith
  sum_by-filter_le_sum_by f p (x ∷ xs) = ground (arith, sum_by-filter_le_sum_by f p xs)

  All-Memᴰ_of : (xs ys : List A) → ((x : A) → Memᴰ x ys → Memᴰ x xs) → All (λ x. Memᴰ x xs) ys
  All-Memᴰ_of xs [] h = tt
  All-Memᴰ_of xs (y ∷ ys) h = (h y (Memᴰ.head refl), All-Memᴰ_of xs ys (λ x m. h x (Memᴰ.tail m)))

  pub All-Memᴰ : (xs : List A) → All (λ x. Memᴰ x xs) xs
  All-Memᴰ xs = All-Memᴰ_of xs xs (λ x m. m)

  pub All-at {κ} : (P : A → Type κ) (xs : List A) {x : A} → All P xs → Memᴰ x xs → P x
  All-at P [] h m = elim m [ ]
  All-at P (y ∷ xs) (h, hs) (Memᴰ.head e) = rw e h
  All-at P (y ∷ xs) (h, hs) (Memᴰ.tail m) = All-at P xs hs m

  -- A search finds something exactly when a member passes the test.
  pub any_iff :
      (p : A → Bool) (xs : List A) → (any p xs ≡ true) ↔ ((x : A) × Memᴰ x xs × (p x ≡ true))
  any_iff p xs = (found p xs, λ (x, m, e). present p xs m e)
    where
      found : (p : A → Bool) (xs : List A) → any p xs ≡ true → (x : A) × Memᴰ x xs × (p x ≡ true)
      found p [] e = cc
      found p (y ∷ xs) e = elim (Bool-cases (p y)) [
        | inl e1 ↦ (y, Memᴰ.head refl, e1)
        | inr e0 ↦ let (x, m, h) = found p xs (ground arith) in (x, Memᴰ.tail m, h)
      ]

      present : (p : A → Bool) (xs : List A) {x : A} → Memᴰ x xs → p x ≡ true → any p xs ≡ true
      present p [] m e = elim m [ ]
      present p (y ∷ xs) (Memᴰ.head h) e = ground arith
      present p (y ∷ xs) (Memᴰ.tail m) e = ground (arith, present p xs m e)
