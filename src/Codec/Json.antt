-- ===== src/Codec/Json.antt =====
-- JSON data as the codec (src/context/context-codec.ts) writes and reads it. A number is a finite
-- number of a type N.
use Prim.Native.String.{String}
use text.Mathlib.Text.{◌==◌ as str_eq}
use plastic_wan.Base.{Bool, if◌then◌else◌, Option, none, some}

mutual
  pub data Value (N : Type 0) : Type 0 where
    null : Value N
    boolean : Bool → Value N
    number : N → Value N
    string : String → Value N
    array : Values N → Value N
    object : Fields N → Value N

  pub data Values (N : Type 0) : Type 0 where
    nil : Values N
    cons : Value N → Values N → Values N

  pub data Fields (N : Type 0) : Type 0 where
    end : Fields N
    field : String → Value N → Fields N → Fields N

-- A key with its value, where there is one.
abbrev pub optional : {N A : Type 0} → String → (A → Value N) → Option A → Fields N → Fields N
optional key wrap none rest = rest
optional key wrap (some a) rest = field key (wrap a) rest

abbrev pub get : {N : Type 0} → String → Fields N → Option (Value N)
get key end = none
get key (field k v rest) = let found = get key rest in if str_eq k key then some v else found
