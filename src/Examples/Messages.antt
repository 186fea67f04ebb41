-- ===== src/Examples/Messages.antt =====
-- The theorems on the IPC messages and their frames at concrete values.
use scatter_web_project.Common.{◌≡◌, refl, true, some, [], ◌∷◌, ok, string_eq, arith}
use scatter_web_project.Int.{negsuc}
use scatter_web_project.Hex.{hex_digit}
use scatter_web_project.Toy.{fixed, fixed-IsDefinite}
use scatter_web_project.Cbor.{Libcbor, Loads, null, c_str, add_pairs}
use scatter_web_project.Ipc.Value.{
  from_bool, from_string, no_fields, field, put, map_to_item, value_to_item, field_entries,
}
use scatter_web_project.Ipc.Value.RoundTrip.{IsPlain, FieldsArePlain}
use scatter_web_project.Ipc.Codec.{
  Request, Response, request, response, failed, request_map, response_map, error_map,
  encode_request, encode_response, detect, decode_request, decode_response,
}
use scatter_web_project.Ipc.Codec.RoundTrip.{request_decodes, error_decodes}
use scatter_web_project.Ipc.Framing.{length_header, frame, receive, to_string, write_frame, sent}
use scatter_web_project.Ipc.Framing.Stream.{receive-frames}
use scatter_web_project.Ipc.Framing.Writing.{write_frame_ends}

to_string_test : to_string 67108865 ≡ "67108865"
unfolding to_string hex_digit
to_string_test = refl

abbrev ping : Request
ping = record {
  id = 7;
  caller = "cli";
  method = "inbox.get";
  params = field "deep" (from_bool true) (field "message_id" (from_string "ab") no_fields);
}

abbrev ping_lib : Libcbor
ping_lib = fixed (map_to_item (fixed null) (request_map ping))

ping-Loads : Loads ping_lib (map_to_item ping_lib (request_map ping))
unfolding map_to_item value_to_item field_entries request_map put add_pairs
ping-Loads = refl

request_decodes_example :
    (detect ping_lib (encode_request ping_lib ping) ≡ request)
    × (decode_request ping_lib (encode_request ping_lib ping) ≡ ok ping)
unfolding IsPlain FieldsArePlain c_str
request_decodes_example =
    request_decodes ping_lib ping (fixed-IsDefinite (map_to_item (fixed null) (request_map ping)))
      refl refl ((refl, tt, (refl, refl, tt)), (tt, ((refl, tt), tt))) ping-Loads

abbrev refusal : Response
refusal = failed 7 (negsuc 0) "disconnected"

abbrev refusal_lib : Libcbor
refusal_lib = fixed (map_to_item (fixed null) (response_map refusal))

refusal-Loads : Loads refusal_lib (map_to_item refusal_lib (response_map refusal))
unfolding map_to_item value_to_item field_entries response_map error_map put add_pairs
refusal-Loads = refl

error_decodes_example :
    (detect refusal_lib (encode_response refusal_lib refusal) ≡ response)
    × (decode_response refusal_lib (encode_response refusal_lib refusal) ≡ ok refusal)
unfolding c_str
error_decodes_example =
    error_decodes refusal_lib 7 (negsuc 0) "disconnected"
      (fixed-IsDefinite (map_to_item (fixed null) (response_map refusal))) (omega arith) refl
      refusal-Loads

-- Two messages, cut in the middle of a header and of a payload.
receive-frames_example :
    receive 3 ((0 ∷ 0 ∷ []) ∷ (0 ∷ 2 ∷ 8 ∷ []) ∷ (9 ∷ 0 ∷ 0 ∷ 0 ∷ 1 ∷ 7 ∷ []) ∷ [])
    ≡ (8 ∷ 9 ∷ []) ∷ (7 ∷ []) ∷ []
unfolding frame length_header
receive-frames_example =
    receive-frames ((8 ∷ 9 ∷ []) ∷ (7 ∷ []) ∷ [])
      ((0 ∷ 0 ∷ []) ∷ (0 ∷ 2 ∷ 8 ∷ []) ∷ (9 ∷ 0 ∷ 0 ∷ 0 ∷ 1 ∷ 7 ∷ []) ∷ []) 3
      ((omega arith, omega arith), ((omega arith, omega arith), tt))
      (omega arith, (omega arith, (omega arith, tt))) refl (omega arith)

write_frame_ends_example :
    write_frame (8 ∷ 9 ∷ []) (some 3 ∷ some 4 ∷ []) ≡ (frame (8 ∷ 9 ∷ []), sent)
unfolding frame length_header
write_frame_ends_example = write_frame_ends (8 ∷ 9 ∷ []) (some 3 ∷ some 4 ∷ []) (omega arith)
