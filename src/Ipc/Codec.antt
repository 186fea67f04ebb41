-- ===== src/Ipc/Codec.antt =====
-- The envelopes of common/include/sw/ipc/codec.hpp, and `encode_*`, `detect` and `decode_*` of codec.cpp.
pub mod RoundTrip
use Prim.Native.String.{◌++◌ as text_append}
use scatter_web_project.Common.{
  ℕ, Bytes, String, Bool, true, false, Option, none, some, Result, ok, err, if◌then◌else◌,
}
use scatter_web_project.Fallible.{◌>>=◌}
use scatter_web_project.Int.{ℤ, pos, as_uint64, as_int32}
use scatter_web_project.Cbor.{Item, Libcbor}
use scatter_web_project.Ipc.Value.{
  Value, Fields, from_bool, from_uint, from_int, from_string, from_map, no_fields, put, find_field,
  item_to_value, map_to_item,
}

pub record Request : Type 0 where
  pub id : ℕ
  pub caller : String
  pub method : String
  pub params : Fields

pub record ResponseError : Type 0 where
  pub code : ℤ
  pub message : String

pub record Response : Type 0 where
  pub id : ℕ
  pub ok : Bool
  pub result : Fields
  pub error : ResponseError

pub record Push : Type 0 where
  pub event : String
  pub payload : Fields

pub data MsgType : Type 0 where
  request response push unknown : MsgType

abbrev pub no_error : ResponseError
no_error = record { code = pos 0; message = "" }

-- What a call that returned, and one that threw, is answered with.
abbrev pub answered : ℕ → Fields → Response
answered id m = record { id = id; ok = true; result = m; error = no_error }

abbrev pub failed : ℕ → ℤ → String → Response
failed id code message = record {
  id = id;
  ok = false;
  result = no_fields;
  error = record { code = code; message = message };
}

-- The maps are filled in the order of the source's assignments.
unfoldable pub request_map : Request → Fields
request_map req = put "params" (from_map req.params) (
    put "method" (from_string req.method)
      (put "caller" (from_string req.caller) (put "id" (from_uint req.id) no_fields)))

unfoldable pub error_map : ResponseError → Fields
error_map e =
    put "message" (from_string e.message) (put "code" (from_uint (as_uint64 e.code)) no_fields)

unfoldable pub response_map : Response → Fields
response_map resp =
    let m = put "ok" (from_bool resp.ok) (put "id" (from_uint resp.id) no_fields) in
    if resp.ok
    then put "result" (from_map resp.result) m
    else put "error" (from_map (error_map resp.error)) m

unfoldable pub push_map : Push → Fields
push_map p = put "payload" (from_map p.payload) (put "event" (from_string p.event) no_fields)

-- CborValue::as_map
unfoldable pub as_map : Value → Result Fields
as_map (from_map fs) = ok fs
as_map _ = err "std::get: wrong index for variant"

required_string : String → Option Value → Result String
required_string key (some (from_string s)) = ok s
required_string key _ = err (text_append "Missing/invalid field: " key)

required_uint : String → Option Value → Result ℕ
required_uint key (some (from_uint n)) = ok n
required_uint key _ = err (text_append "Missing/invalid field: " key)

unfoldable pub require_string : Fields → String → Result String
unfolding required_string
require_string m key = required_string key (find_field key m)

unfoldable pub require_uint : Fields → String → Result ℕ
unfolding required_uint
require_uint m key = required_uint key (find_field key m)

unfoldable pub require_ok : Option Value → Result Bool
require_ok (some (from_bool b)) = ok b
require_ok _ = err "Response missing 'ok' bool"

-- A field that is a map is taken, and else the struct keeps its empty map.
unfoldable pub optional_map : Option Value → Fields
optional_map (some (from_map fs)) = fs
optional_map _ = no_fields

unfoldable pub code_of : Option Value → ℤ
code_of (some (from_uint n)) = as_int32 n
code_of (some (from_int z)) = as_int32 (as_uint64 z)
code_of _ = pos 0

unfoldable pub error_message_of : Option Value → String
error_message_of (some (from_string s)) = s
error_message_of _ = ""

unfoldable pub error_of : Option Value → ResponseError
error_of (some (from_map em)) = record {
  code = code_of (find_field "code" em);
  message = error_message_of (find_field "message" em);
}
error_of _ = no_error

unfoldable pub response_of : ℕ → Bool → Fields → Response
response_of id true m = record {
  id = id;
  ok = true;
  result = optional_map (find_field "result" m);
  error = no_error;
}
response_of id false m = record {
  id = id;
  ok = false;
  result = no_fields;
  error = error_of (find_field "error" m);
}

is_some : Option Value → Bool
is_some none = false
is_some (some v) = true

unfoldable pub kind_of : Fields → MsgType
unfolding is_some
kind_of m =
    if is_some (find_field "method" m)
    then request
    else if is_some (find_field "ok" m)
    then response
    else if is_some (find_field "event" m)
    then push
    else unknown

module _ (lib : Libcbor) where
  unfoldable pub encode_request : Request → Bytes
  encode_request req = lib.serialize (map_to_item lib (request_map req))

  unfoldable pub encode_response : Response → Bytes
  encode_response resp = lib.serialize (map_to_item lib (response_map resp))

  unfoldable pub encode_push : Push → Bytes
  encode_push p = lib.serialize (map_to_item lib (push_map p))

  loaded : Option Item → Result Fields
  loaded none = err "CBOR parse error"
  loaded (some (Item.dict ps)) = item_to_value (Item.dict ps) >>= as_map
  loaded (some _) = err "Expected top-level CBOR map"

  unfoldable pub parse_top_map : Bytes → Result Fields
  unfolding loaded
  parse_top_map bytes = loaded (lib.load bytes)

  unfoldable pub detect : Bytes → MsgType
  detect bytes = elim (parse_top_map bytes) [ ok m ↦ kind_of m | err e ↦ unknown ]

  unfoldable pub decode_request : Bytes → Result Request
  decode_request bytes = do
    m ← parse_top_map bytes
    id ← require_uint m "id"
    caller ← require_string m "caller"
    method ← require_string m "method"
    ok (record {
      id = id;
      caller = caller;
      method = method;
      params = optional_map (find_field "params" m);
    })

  unfoldable pub decode_response : Bytes → Result Response
  decode_response bytes = do
    m ← parse_top_map bytes
    id ← require_uint m "id"
    good ← require_ok (find_field "ok" m)
    ok (response_of id good m)

  unfoldable pub decode_push : Bytes → Result Push
  decode_push bytes = do
    m ← parse_top_map bytes
    event ← require_string m "event"
    ok (record { event = event; payload = optional_map (find_field "payload" m) })
