-- ===== src/Base/Tests.antt =====
-- Boolean tests, the conditional, the result type, and the case lemmas on computed values.
use Prim.Native.Nat.{ℕ, ◌≤◌, ◌<◌, compare, Ordering}
use mathlib.Core.Path.{◌≡◌, refl, subst}
use mathlib.Core.Logic.{◌↔◌, ◌⊎◌, inl, inr}
use mathlib.Core.Bool.{Bool, true, false, ◌&&◌}
use mathlib.Core.Option.{Option, none, some}
use native.Mathlib.Omega.{arith}

abbrev pub ltb : ℕ → ℕ → Bool
ltb a b = elim (compare a b) [ Ordering.lt ↦ true | _ ↦ false ]

abbrev pub leb : ℕ → ℕ → Bool
leb a b = elim (compare a b) [ Ordering.gt ↦ false | _ ↦ true ]

infix 50 ◌==◌
abbrev pub ◌==◌ : ℕ → ℕ → Bool
a == b = elim (compare a b) [ Ordering.eq ↦ true | _ ↦ false ]

infix 1 if◌then◌else◌
abbrev pub if◌then◌else◌ {ℓ} : {A : Type ℓ} → Bool → A → A → A
if true then x else y = x
if false then x else y = y

pub Bool-cases : (b : Bool) → (b ≡ true) ⊎ (b ≡ false)
Bool-cases true = inl refl
Bool-cases false = inr refl

pub Option-cases {ℓ} : {A : Type ℓ} (o : Option A) → (o ≡ none) ⊎ ((a : A) × (o ≡ some a))
Option-cases none = inl refl
Option-cases (some a) = inr (a, refl)

pub ltb_iff : (a b : ℕ) → (ltb a b ≡ true) ↔ (a < b)
ltb_iff a b = ground arith

pub leb_iff : (a b : ℕ) → (leb a b ≡ true) ↔ (a ≤ b)
leb_iff a b = ground arith

pub ==_iff : (a b : ℕ) → ((a == b) ≡ true) ↔ (a ≡ b)
==_iff a b = ground arith

pub ==_refl : (a : ℕ) → (a == a) ≡ true
==_refl a = ground arith

pub and_true : (a b : Bool) → (a && b) ≡ true → (a ≡ true) × (b ≡ true)
and_true a b h = ground arith

abbrev pub is_some {ℓ} : {A : Type ℓ} → Option A → Bool
is_some none = false
is_some (some _) = true

-- A value or a thrown error.
pub data Result {ℓ κ} (E : Type ℓ) (A : Type κ) : Type (ℓ ⊔ κ) where
  ok : A → Result E A
  err : E → Result E A

pub Result-cases {ℓ κ} :
    {E : Type ℓ} {A : Type κ} (r : Result E A) → ((a : A) × (r ≡ ok a)) ⊎ ((e : E) × (r ≡ err e))
Result-cases (ok a) = inl (a, refl)
Result-cases (err e) = inr (e, refl)

-- A step of a `do` block: what follows a thrown error does not run.
infixl 5 ◌>>=◌
abbrev pub ◌>>=◌ {ℓ κ ι} :
    {E : Type ℓ} {A : Type κ} {B : Type ι} (step : Result E A) (rest : A → Result E B) → Result E B
err thrown >>= rest = err thrown
ok value >>= rest = rest value

-- A chain that returned a value ran each of its steps.
pub >>=-eq-ok {ℓ κ ι} :
    {E : Type ℓ} {A : Type κ} {B : Type ι} (step : Result E A) (rest : A → Result E B) {b : B}
    → (step >>= rest) ≡ ok b
    → (a : A) × (step ≡ ok a) × (rest a ≡ ok b)
>>=-eq-ok (err thrown) rest h = cc
>>=-eq-ok (ok value) rest h = (value, refl, h)

infixl 5 ◌>>◌
abbrev pub ◌>>◌ {ℓ κ} :
    {E : Type ℓ} {B : Type κ} (step : Result E (Unit {0})) (rest : Result E B) → Result E B
err thrown >> rest = err thrown
ok _ >> rest = rest

-- `if (!test) throw error`
abbrev pub require {ℓ} : {E : Type ℓ} → Bool → E → Result E (Unit {0})
require false thrown = err thrown
require true thrown = ok tt

pub require-eq-ok {ℓ} :
    {E : Type ℓ} (b : Bool) (e : E) {u : Unit {0}} → require b e ≡ ok u → b ≡ true
require-eq-ok false e h = cc
require-eq-ok true e h = refl

-- A value that is returned has a property; a thrown error has none to show.
abbrev pub Ensures {ℓ κ ι} : {E : Type ℓ} {A : Type κ} → (A → Type ι) → Result E A → Type ι
Ensures P (ok a) = P a
Ensures P (err e) = Unit

pub Ensures->>= {ℓ κ ι η θ} :
    {E : Type ℓ} {A : Type κ} {B : Type ι} (P : A → Type η) (Q : B → Type θ) (step : Result E A)
    (rest : A → Result E B)
    → Ensures P step
    → ((a : A) → P a → Ensures Q (rest a))
    → Ensures Q (step >>= rest)
Ensures->>= P Q (ok a) rest h k = k a h
Ensures->>= P Q (err e) rest h k = tt

pub Ensures-map {ℓ κ ι η} :
    {E : Type ℓ} {A : Type κ} (P : A → Type ι) (Q : A → Type η) (r : Result E A)
    → Ensures P r
    → ((a : A) → P a → Q a)
    → Ensures Q r
Ensures-map P Q (ok a) h k = k a h
Ensures-map P Q (err e) h k = tt

pub Ensures-both {ℓ κ ι η} :
    {E : Type ℓ} {A : Type κ} (P : A → Type ι) (Q : A → Type η) (r : Result E A)
    → Ensures P r
    → Ensures Q r
    → Ensures (λ a. P a × Q a) r
Ensures-both P Q (ok a) p q = (p, q)
Ensures-both P Q (err e) p q = tt

pub Ensures-ok {ℓ κ ι} :
    {E : Type ℓ} {A : Type κ} (P : A → Type ι) (r : Result E A) {a : A}
    → Ensures P r
    → r ≡ ok a
    → P a
Ensures-ok P (ok b) {a = a} h e = let same : b ≡ a = cc in subst P same h
Ensures-ok P (err x) h e = cc

-- A value is returned, and has a property.
abbrev pub Succeeds {ℓ κ ι} :
    {E : Type ℓ} {A : Type κ} → (A → Type ι) → Result E A → Type (ℓ ⊔ κ ⊔ ι)
Succeeds {A = A} P r = (a : A) × (r ≡ ok a) × P a

pub Succeeds->>= {ℓ κ ι η θ} :
    {E : Type ℓ} {A : Type κ} {B : Type ι} (P : A → Type η) (Q : B → Type θ) (step : Result E A)
    (rest : A → Result E B)
    → Succeeds P step
    → ((a : A) → P a → Succeeds Q (rest a))
    → Succeeds Q (step >>= rest)
Succeeds->>= P Q step rest (a, e, h) k = rw e (k a h)
