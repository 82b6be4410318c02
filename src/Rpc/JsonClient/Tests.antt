-- ===== src/Rpc/JsonClient/Tests.antt =====
-- Rpc/JsonClient at a small JSON library, with a call of "add" that the kernel cuts.
use tudou.Prelude.{
  ℕ, ◌≡◌, refl, ap, Bool, true, false, List, [], ◌∷◌, ◌++◌, Option, none, some, if◌then◌else◌, Text,
  text, text_eq, text_key, lookup, insert, arith,
}
use tudou.Rpc.Lines.{split_line, serve_lines, on_lines, is_empty}
use tudou.Rpc.JsonRouter.{JsonLibrary, returned, JsonRpcRouter, dispatch, dispatch_single}
use tudou.Rpc.JsonClient.{
  JsonNumbers, returns, throws, connection_closed, SocketWrite, writes, write_interrupted,
  SocketRead, reads, read_interrupted, send_request, receive_line, call,
}
use tudou.Rpc.JsonClient.Remote.{call_answers}
use tudou.Rpc.JsonClient.Laws.{JsonLaws, assigned}
use tudou.Rpc.JsonClient.Wire.{has_line_end}

mutual
  data Value : Type 0 where
    null_value : Value
    string_value : Text → Value
    number_value negative_value : ℕ → Value
    array_value : Values → Value
    object_value : Fields → Value

  data Values : Type 0 where
    no_values : Values
    more_values : Value → Values → Values

  data Fields : Type 0 where
    no_fields : Fields
    more_fields : Text → Value → Fields → Fields

abbrev fields_of : List (Text × Value) → Fields
fields_of [] = no_fields
fields_of ((key, v) ∷ more) = more_fields key v (fields_of more)

abbrev find : Text → Fields → Option Value
find key no_fields = none
find key (more_fields k v more) = if text_eq k key then some v else find key more

abbrev values_of : List Value → Values
values_of [] = no_values
values_of (v ∷ more) = more_values v (values_of more)

abbrev list_of : Values → List Value
list_of no_values = []
list_of (more_values v more) = v ∷ list_of more

abbrev small_field : Value → Text → Option Value
small_field (object_value fields) key = find key fields
small_field null_value key = none
small_field (string_value s) key = none
small_field (number_value k) key = none
small_field (negative_value k) key = none
small_field (array_value vs) key = none

find-fields_of :
    (fields : List (Text × Value)) (key : Text) → find key (fields_of fields) ≡ lookup key fields
unfolding lookup
find-fields_of [] key = refl
find-fields_of ((k, v) ∷ fields) key =
    ap (λ o. if text_eq k key then some v else o) (find-fields_of fields key)

abbrev small_is_object : Value → Bool
small_is_object (object_value _) = true
small_is_object null_value = false
small_is_object (string_value s) = false
small_is_object (number_value k) = false
small_is_object (negative_value k) = false
small_is_object (array_value vs) = false

abbrev small_is_null : Value → Bool
small_is_null null_value = true
small_is_null (object_value _) = false
small_is_null (string_value s) = false
small_is_null (number_value k) = false
small_is_null (negative_value k) = false
small_is_null (array_value vs) = false

abbrev small_number : Value → Option ℕ
small_number (number_value k) = some k
small_number null_value = none
small_number (object_value _) = none
small_number (string_value s) = none
small_number (negative_value k) = none
small_number (array_value vs) = none

abbrev small_elements : Value → Option (List Value)
small_elements (array_value vs) = some (list_of vs)
small_elements null_value = none
small_elements (object_value _) = none
small_elements (string_value s) = none
small_elements (number_value k) = none
small_elements (negative_value k) = none

abbrev small_string : Value → Option Text
small_string (string_value s) = some s
small_string null_value = none
small_string (object_value _) = none
small_string (number_value k) = none
small_string (negative_value k) = none
small_string (array_value vs) = none

abbrev is_some : Option Value → Bool
is_some none = false
is_some (some v) = true

-- The request and the response of the call, which are told apart by one letter.
abbrev add_request : Value
add_request = object_value (
    fields_of (
      (text "jsonrpc", string_value (text "2.0"))
      ∷ (text "method", string_value (text "add"))
      ∷ (text "params", array_value (more_values (number_value 2) no_values))
      ∷ (text "id", number_value 7)
      ∷ []))

abbrev add_response : Value
add_response = object_value (
    fields_of (
      (text "jsonrpc", string_value (text "2.0"))
      ∷ (text "result", number_value 5)
      ∷ (text "id", number_value 7)
      ∷ []))

abbrev small_dump : Value → Text
small_dump v = if is_some (small_field v (text "method")) then text "{q}" else text "{r}"

abbrev small_parse : Text → Option Value
small_parse bytes =
    if text_eq bytes (text "{q}")
    then some add_request
    else if text_eq bytes (text "{r}")
    then some add_response
    else none

abbrev small_json : JsonLibrary
small_json = record {
  Json = Value;
  parse = small_parse;
  dump = small_dump;
  elements = small_elements;
  field = small_field;
  as_string = small_string;
  is_object = small_is_object;
  is_number = λ v. elim (small_number v) [ none ↦ false | some k ↦ true ];
  is_null = small_is_null;
  null = null_value;
  string = string_value;
  negative = negative_value;
  array = λ vs. array_value (values_of vs);
  object = λ fields. object_value (fields_of (assigned [] fields));
}

abbrev small_numbers : JsonNumbers small_json
small_numbers = record { number = number_value; get_uint64 = small_number }

small_laws : JsonLaws small_json small_numbers
small_laws = record {
  field-object = λ fields key. find-fields_of (assigned [] fields) key;
  object_is_object = λ f fields. refl;
  object_not_array = λ f fields. refl;
  object_not_null = λ f fields. refl;
  as_string-string = λ s. refl;
  is_number-number = λ k. refl;
  number_not_string = λ k. refl;
  number_not_null = λ k. refl;
  get_uint64-number = λ k bound. refl;
  dump_is_line = λ v. dumped (is_some (small_field v (text "method")));
  dump_not_empty = λ v. filled (is_some (small_field v (text "method")));
}
  where
    dumped : (b : Bool) → has_line_end (if b then text "{q}" else text "{r}") ≡ false
    dumped true = refl
    dumped false = refl

    filled : (b : Bool) → is_empty (if b then text "{q}" else text "{r}") ≡ false
    filled true = refl
    filled false = refl

abbrev adding : JsonRpcRouter small_json
adding = record { methods = (text "add", λ params. returned (number_value 5)) ∷ [] }

abbrev params : Value
params = array_value (more_values (number_value 2) no_values)

-- Two writes and two reads, one of each interrupted.
abbrev cut_writes : List SocketWrite
cut_writes = writes 1 ∷ write_interrupted ∷ writes 3 ∷ []

abbrev cut_reads : List SocketRead
cut_reads = reads (text "{") ∷ read_interrupted ∷ reads (text "r}" ++ 10 ∷ []) ∷ []

call_answers_example :
    (call small_json small_numbers
      (record { next_sequence_id = 7 })
      (text "add")
      params
      cut_writes
      cut_reads).2
    ≡ returns (number_value 5)
unfolding send_request on_lines serve_lines split_line lookup insert text_eq dispatch
    dispatch_single call
call_answers_example =
    call_answers small_json small_numbers (record { next_sequence_id = 7 }) (text "add") params
      cut_writes cut_reads adding (λ es. false) 1 [] [] small_laws (omega arith) refl refl
      (λ es. refl) refl refl refl

-- The server closes the connection before the line ends.
closed_connection :
    (call small_json small_numbers
      (record { next_sequence_id = 7 })
      (text "add")
      params
      cut_writes
      (reads (text "{r") ∷ reads [] ∷ [])).2
    ≡ throws connection_closed
unfolding send_request receive_line split_line lookup insert text_eq call
closed_connection = refl
