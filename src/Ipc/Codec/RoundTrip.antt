-- ===== src/Ipc/Codec/RoundTrip.antt =====
-- `decode_*` of codec.cpp undoes `encode_*`, and `detect` picks the decoder.
use scatter_web_project.Common.{ℕ, ◌≡◌, refl, String, ok, string_eq}
use scatter_web_project.Int.{ℤ, IsInt32, as_int32-as_uint64}
use scatter_web_project.Cbor.{Libcbor, IsDefinite, Loads, c_str}
use scatter_web_project.Ipc.Value.{Fields, from_map, put, find_field, value_to_item, map_to_item}
use scatter_web_project.Ipc.Value.RoundTrip.{IsPlain, FieldsArePlain, value_read}
use scatter_web_project.Ipc.Codec.{
  Request, Push, answered, failed, request, response, push, request_map, error_map, response_map,
  push_map, as_map, require_string, require_uint, require_ok, optional_map, code_of,
  error_message_of, error_of, response_of, kind_of, encode_request, encode_response, encode_push,
  parse_top_map, detect, decode_request, decode_response, decode_push,
}

module _ (lib : Libcbor) where
  parse-map :
      (m : Fields)
      → IsDefinite lib
      → IsPlain (from_map m)
      → Loads lib (map_to_item lib m)
      → parse_top_map lib (lib.serialize (map_to_item lib m)) ≡ ok m
  unfolding parse_top_map map_to_item value_to_item as_map
  parse-map m definite plain loads = rw (loads, value_read lib (from_map m) definite plain) refl

  -- An encoded request is taken for a request, and decoded as it was, when its texts hold no
  -- NUL, its parameters are values that CBOR keeps apart, and libcbor loads what it wrote.
  pub request_decodes :
      (req : Request)
      → IsDefinite lib
      → c_str req.caller ≡ req.caller
      → c_str req.method ≡ req.method
      → IsPlain (from_map req.params)
      → Loads lib (map_to_item lib (request_map req))
      → (detect lib (encode_request lib req) ≡ request)
        × (decode_request lib (encode_request lib req) ≡ ok req)
  unfolding encode_request decode_request detect request_map put IsPlain FieldsArePlain find_field
      kind_of require_uint require_string optional_map c_str
  request_decodes req definite caller method params loads =
      let parsed =
        parse-map (request_map req) definite
          (
            (refl, caller, (refl, tt, (refl, method, (refl, params, tt)))),
            (tt, ((refl, tt), ((refl, (refl, tt)), ((refl, (refl, (refl, tt))), tt)))),
          )
          loads in
      (rw (parsed, detect) refl, rw parsed refl)

  pub push_decodes :
      (p : Push)
      → IsDefinite lib
      → c_str p.event ≡ p.event
      → IsPlain (from_map p.payload)
      → Loads lib (map_to_item lib (push_map p))
      → (detect lib (encode_push lib p) ≡ push) × (decode_push lib (encode_push lib p) ≡ ok p)
  unfolding encode_push decode_push detect push_map put IsPlain FieldsArePlain find_field kind_of
      require_string optional_map c_str
  push_decodes p definite event payload loads =
      let parsed =
        parse-map (push_map p) definite ((refl, event, (refl, payload, tt)), (tt, ((refl, tt), tt)))
          loads in
      (rw (parsed, detect) refl, rw parsed refl)

  pub answer_decodes :
      (id : ℕ) (m : Fields)
      → IsDefinite lib
      → IsPlain (from_map m)
      → Loads lib (map_to_item lib (response_map (answered id m)))
      → (detect lib (encode_response lib (answered id m)) ≡ response)
        × (decode_response lib (encode_response lib (answered id m)) ≡ ok (answered id m))
  unfolding encode_response decode_response detect response_map put IsPlain FieldsArePlain
      find_field kind_of require_uint require_ok response_of optional_map c_str
  answer_decodes id m definite plain loads =
      let parsed =
        parse-map (response_map (answered id m)) definite
          ((refl, tt, (refl, tt, (refl, plain, tt))), (tt, ((refl, tt), ((refl, (refl, tt)), tt))))
          loads in
      (rw (parsed, detect) refl, rw parsed refl)

  -- An encoded error is taken for a response, and decoded with its id, its code, negative or
  -- not, and its text, when the code is an int, the text holds no NUL, and libcbor loads what it
  -- wrote.
  pub error_decodes :
      (id : ℕ) (code : ℤ) (message : String)
      → IsDefinite lib
      → IsInt32 code
      → c_str message ≡ message
      → Loads lib (map_to_item lib (response_map (failed id code message)))
      → (detect lib (encode_response lib (failed id code message)) ≡ response)
        × (decode_response lib (encode_response lib (failed id code message))
            ≡ ok (failed id code message))
  unfolding encode_response decode_response detect response_map error_map put IsPlain FieldsArePlain
      find_field kind_of require_uint require_ok response_of error_of code_of error_message_of c_str
  error_decodes id code message definite small whole loads =
      let parsed =
        parse-map (response_map (failed id code message)) definite
          (
            (
              refl,
              ((refl, tt, (refl, whole, tt)), (tt, ((refl, tt), tt))),
              (refl, tt, (refl, tt, tt)),
            ),
            (tt, ((refl, tt), ((refl, (refl, tt)), tt))),
          )
          loads in
      (rw (parsed, detect) refl, rw (parsed, as_int32-as_uint64 code small) refl)
