-- ===== src/Codec/Tests.antt =====
-- The codec over texts in postfix notation, which a machine with a stack reads back.
use Prim.Native.String.{String}
use text.Mathlib.Text.{◌==◌ as str_eq}
use Prim.Native.Char.{Char, code}
use plastic_wan.Base.{
  ℕ, zero, suc, ◌≡◌, ◌==◌, ◌||◌, refl, Bool, true, false, if◌then◌else◌, Option, none, some, List,
  [], ◌∷◌, ok, ◌∙◌,
}
use plastic_wan.Codec.Json.{
  Value, null, boolean, number, string, array, object, Values, nil, cons, Fields, end, field,
}
use plastic_wan.Codec.Schemas.{conforms}
use plastic_wan.Codec.Encode.{
  assistant, text_block, thinking_block, tool_call, AgentMessage, assistant_message, encode_user,
  encode_assistant, encode_value,
}
use plastic_wan.Codec.Decode.{
  Libraries, encode_context_message, check_message, decode_context_message,
}
use plastic_wan.Codec.View.{read_message, without_images}
use plastic_wan.Codec.RoundTrip.{decode-encode}
use plastic_wan.Codec.Typed.{decode-reads}

abbrev print_number : ℕ → String → String
print_number zero rest = String.◌∷◌ "0" rest
print_number (suc n) rest = print_number n (String.◌∷◌ "+" rest)

abbrev print_string : String → String → String
print_string String.[] rest = String.◌∷◌ "e" rest
print_string (String.◌∷◌ c s) rest = print_string s (String.◌∷◌ "q" (String.◌∷◌ c rest))

abbrev mutual
  print : Value ℕ → String → String
  print null rest = String.◌∷◌ "n" rest
  print (boolean true) rest = String.◌∷◌ "t" rest
  print (boolean false) rest = String.◌∷◌ "f" rest
  print (number n) rest = print_number n rest
  print (string s) rest = print_string s (String.◌∷◌ "s" rest)
  print (array vs) rest = print_values vs (String.◌∷◌ "A" rest)
  print (object fs) rest = print_fields fs (String.◌∷◌ "M" rest)

  print_values : Values ℕ → String → String
  print_values nil rest = String.◌∷◌ "a" rest
  print_values (cons v vs) rest = print_values vs (print v (String.◌∷◌ "c" rest))

  print_fields : Fields ℕ → String → String
  print_fields end rest = String.◌∷◌ "m" rest
  print_fields (field k v fs) rest =
      print_fields fs (print_string k (print v (String.◌∷◌ "d" rest)))

data Item : Type 0 where
  value : Value ℕ → Item
  letters : String → Item
  items : Values ℕ → Item
  members : Fields ℕ → Item

abbrev increment : List Item → List Item
increment (value (number n) ∷ st) = value (number (suc n)) ∷ st
increment st = st

abbrev join : List Item → List Item
join (value v ∷ items vs ∷ st) = items (cons v vs) ∷ st
join (value v ∷ letters k ∷ members fs ∷ st) = members (field k v fs) ∷ st
join st = st

abbrev close : List Item → List Item
close (letters s ∷ st) = value (string s) ∷ st
close (items vs ∷ st) = value (array vs) ∷ st
close (members fs ∷ st) = value (object fs) ∷ st
close st = st

abbrev spell : Char → List Item → List Item
spell c (letters s ∷ st) = letters (String.◌∷◌ c s) ∷ st
spell c st = st

-- What a character does to the stack.
abbrev act : Char → List Item → List Item
act c st =
    let k = code c in
    if k == b'n'
    then value null ∷ st
    else if k == b't'
    then value (boolean true) ∷ st
    else if k == b'f'
    then value (boolean false) ∷ st
    else if k == b'0'
    then value (number 0) ∷ st
    else if k == b'+'
    then increment st
    else if k == b'e'
    then letters String.[] ∷ st
    else if k == b'q'
    then st
    else if k == b'a'
    then items nil ∷ st
    else if k == b'm'
    then members end ∷ st
    else if k == b'c' || k == b'd'
    then join st
    else close st

-- The stack after a text; a character after a "q" is spelt.
abbrev scan : Bool → String → List Item → List Item
scan q String.[] st = st
scan true (String.◌∷◌ c s) st = scan false s (spell c st)
scan false (String.◌∷◌ c s) st = scan (code c == b'q') s (act c st)

abbrev top : List Item → Option (Value ℕ)
top (value v ∷ []) = some v
top st = none

scan-print_number :
    (n : ℕ) (rest : String) (st : List Item)
    → scan false (print_number n rest) st ≡ scan false rest (value (number n) ∷ st)
scan-print_number zero rest st = refl
scan-print_number (suc n) rest st = scan-print_number n (String.◌∷◌ "+" rest) st

scan-print_string :
    (s rest : String) (st : List Item)
    → scan false (print_string s rest) st ≡ scan false rest (letters s ∷ st)
scan-print_string String.[] rest st = refl
scan-print_string (String.◌∷◌ c s) rest st =
    scan-print_string s (String.◌∷◌ "q" (String.◌∷◌ c rest)) st

mutual
  scan-print :
      (v : Value ℕ) (rest : String) (st : List Item)
      → scan false (print v rest) st ≡ scan false rest (value v ∷ st)
  scan-print null rest st = refl
  scan-print (boolean true) rest st = refl
  scan-print (boolean false) rest st = refl
  scan-print (number n) rest st = scan-print_number n rest st
  scan-print (string s) rest st = scan-print_string s (String.◌∷◌ "s" rest) st
  scan-print (array vs) rest st = scan-print_values vs (String.◌∷◌ "A" rest) st
  scan-print (object fs) rest st = scan-print_fields fs (String.◌∷◌ "M" rest) st

  scan-print_values :
      (vs : Values ℕ) (rest : String) (st : List Item)
      → scan false (print_values vs rest) st ≡ scan false rest (items vs ∷ st)
  scan-print_values nil rest st = refl
  scan-print_values (cons v vs) rest st =
      scan-print_values vs (print v (String.◌∷◌ "c" rest)) st
      ∙ scan-print v (String.◌∷◌ "c" rest) (items vs ∷ st)

  scan-print_fields :
      (fs : Fields ℕ) (rest : String) (st : List Item)
      → scan false (print_fields fs rest) st ≡ scan false rest (members fs ∷ st)
  scan-print_fields end rest st = refl
  scan-print_fields (field k v fs) rest st =
      scan-print_fields fs (print_string k (print v (String.◌∷◌ "d" rest))) st
      ∙ scan-print_string k (print v (String.◌∷◌ "d" rest)) (members fs ∷ st)
      ∙ scan-print v (String.◌∷◌ "d" rest) (letters k ∷ members fs ∷ st)

abbrev postfix : Libraries ℕ
postfix = record {
  stringify = λ v. print v "";
  parse = λ s. top (scan false s []);
  parse-stringify = λ v. rw (scan-print v "" []) refl;
  is_blank = λ s. str_eq s "";
  check = conforms;
  check-conforms = λ s v. refl;
}

abbrev usage : Value ℕ
usage = object (
    field "input" (number 3) (
      field "output" (number 2) (
        field "cacheRead" (number 0) (
          field "cacheWrite" (number 0) (
            field "totalTokens" (number 5) (
              field "cost"
                (object (
                  field "input" (number 1) (
                    field "output" (number 1) (
                      field "cacheRead" (number 0)
                        (field "cacheWrite" (number 0) (field "total" (number 2) end))))))
                end))))))

abbrev answer : AgentMessage ℕ
answer = assistant_message (record {
  content =
      thinking_block "so" (some "x") none
      ∷ text_block "hi" none
      ∷ tool_call "1" "f" (field "a" null end) none none
      ∷ [];
  api = "a";
  provider = "p";
  model = "m";
  response_model = none;
  response_id = some "r";
  usage = usage;
  stop_reason = "stop";
  error_message = none;
  timestamp = 4;
})

abbrev stored_value : Value ℕ
stored_value = elim (encode_value postfix.is_blank answer) [ none ↦ null | some r ↦ r.1 ]

decode-encode_example :
    (v : Value ℕ) × (decode_context_message postfix (print stored_value "") ≡ ok (assistant, v))
    × (read_message assistant v ≡ ok (without_images answer))
unfolding encode_context_message encode_value encode_user encode_assistant
decode-encode_example = decode-encode postfix answer assistant (print stored_value "") refl refl

decode-reads_example : (m : AgentMessage ℕ) × (read_message assistant stored_value ≡ ok m)
unfolding decode_context_message check_message encode_value encode_user encode_assistant
decode-reads_example = decode-reads postfix (print stored_value "") assistant stored_value refl
