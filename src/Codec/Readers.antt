-- ===== src/Codec/Readers.antt =====
-- Readers that succeed on the values of a schema, for the casts of src/context/context-codec.ts.
use Prim.Native.String.{String}
use text.Mathlib.TextEquality.{eq_iff}
use text.Mathlib.TextPositions.{eq_refl}
use plastic_wan.Base.{
  ◌≡◌, refl, Bool, true, false, Option-cases, inl, inr, none, some, Result, ok, ◌>>=◌, arith,
}
use plastic_wan.Codec.Json.{Value, boolean, number, string, array, object, Values, Fields, get}
use plastic_wan.Codec.Schemas.{
  Schema, literal, any_string, any_number, any_boolean, any_record, array_of, conforms, every,
}
use plastic_wan.Codec.View.{
  Mismatch, as_string, as_boolean, as_number, as_record, as_items, as_any, required, possible,
  expect,
}

-- A reading that succeeds.
abbrev pub IsRead : {A : Type 0} → Result Mismatch A → Type 0
IsRead {A = A} r = (a : A) × (r ≡ ok a)

and_then :
    {A B : Type 0} (r : Result Mismatch A) (rest : A → Result Mismatch B)
    → IsRead r
    → ((a : A) → IsRead (rest a))
    → IsRead (r >>= rest)
and_then r rest (a, e) k = rw e (k a)

module _ {N : Type 0} where
  -- A reader that succeeds on the values of a schema.
  abbrev pub Reads : {A : Type 0} → Schema → (Value N → Result Mismatch A) → Type 0
  Reads s read = (v : Value N) → conforms s v ≡ true → IsRead (read v)

  pub string-Reads : Reads any_string as_string
  string-Reads (string s) h = (s, refl)
  string-Reads v h = ground arith

  pub number-Reads : Reads any_number as_number
  number-Reads (number n) h = (n, refl)
  number-Reads v h = ground arith

  pub boolean-Reads : Reads any_boolean as_boolean
  boolean-Reads (boolean b) h = (b, refl)
  boolean-Reads v h = ground arith

  pub record-Reads : Reads any_record as_record
  record-Reads (object fs) h = (fs, refl)
  record-Reads v h = ground arith

  -- Whether the value of a key, if there is one, is of a schema.
  abbrev pub has : Bool → String → Schema → Fields N → Bool
  has o key s fs = elim (get key fs) [ none ↦ o | some v ↦ conforms s v ]

  pub required-Reads :
      {A : Type 0} (key : String) (s : Schema) (read : Value N → Result Mismatch A)
      → Reads s read
      → (fs : Fields N) → has false key s fs ≡ true
      → IsRead (required key read fs)
  required-Reads key s read reads fs h = elim (Option-cases (get key fs)) [
    | inl e ↦ ground arith
    | inr (v, e) ↦ rw (e, required) (reads v (ground arith))
  ]

  pub possible-Reads :
      {A : Type 0} (key : String) (s : Schema) (read : Value N → Result Mismatch A)
      → Reads s read
      → (fs : Fields N) → has true key s fs ≡ true
      → IsRead (possible key read fs)
  possible-Reads key s read reads fs h = elim (Option-cases (get key fs)) [
    | inl e ↦ (none, rw (e, possible) refl)
    | inr (v, e) ↦
        rw (e, possible)
          (and_then (read v) (λ a. ok (some a)) (reads v (ground arith)) (λ a. (some a, refl)))
  ]

  pub any-Reads : (s : Schema) → Reads s as_any
  any-Reads s v h = (v, refl)

  -- The items of a key, and what they are read as.
  pub items-IsRead :
      {A : Type 0} (key : String) (s : Schema) (read : Values N → Result Mismatch A)
      → ((vs : Values N) → every (conforms s) vs ≡ true → IsRead (read vs))
      → (fs : Fields N) → has false key (array_of s) fs ≡ true
      → (vs : Values N) × (required key as_items fs ≡ ok vs) × IsRead (read vs)
  items-IsRead key s read reads fs h = elim (Option-cases (get key fs)) [
    | inl e ↦ ground arith
    | inr (v, e) ↦ go v e (ground arith)
  ]
    where
      go :
          (v : Value N)
          → get key fs ≡ some v
          → conforms (array_of s) v ≡ true
          → (vs : Values N) × (required key as_items fs ≡ ok vs) × IsRead (read vs)
      go (array vs) e h = (vs, rw (e, required) refl, reads vs h)
      go v e h = ground arith

  pub literal-string :
      (k : String) (v : Value N) → conforms (literal k) v ≡ true → as_string v ≡ ok k
  literal-string k (string s) h = let same : s ≡ k = (eq_iff s k).0 h in rw same refl
  literal-string k v h = ground arith

  pub expect-Reads :
      (key k : String) (fs : Fields N)
      → has false key (literal k) fs ≡ true
      → expect key k (ok fs) ≡ ok fs
  expect-Reads key k fs h = elim (Option-cases (get key fs)) [
    | inl e ↦ ground arith
    | inr (v, e) ↦
        let here = literal-string k v (ground arith) in rw (e, required, here, eq_refl k) refl
  ]
