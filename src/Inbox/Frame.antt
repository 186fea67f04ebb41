-- ===== src/Inbox/Frame.antt =====
-- `parse_frame_header` of inbox/src/frame_parser.cpp, and what inbox.cpp reads of a frame's map.
use scatter_web_project.Common.{
  Bytes, String, ◌||◌, Option, none, some, length, string_eq, nat_beq, ◌==◌, if◌then◌else◌, ◌&&◌,
}
use scatter_web_project.Hex.{to_hex}
use scatter_web_project.Cbor.{Item, Pairs, Libcbor, bytestring, text, dict, stop, pair}

pub record FrameHeader : Type 0 where
  pub message_id : String
  pub sender_id : String
  pub persistence : String

abbrev pub empty_header : FrameHeader
empty_header = record { message_id = ""; sender_id = ""; persistence = "" }

-- One pair of the frame's map.
unfoldable pub read_header_field : String → Item → FrameHeader → FrameHeader
read_header_field k (bytestring b) hdr =
    if k == "message_id" && nat_beq (length b) 16
    then record hdr { message_id = to_hex b }
    else if k == "sender_id" && nat_beq (length b) 32
    then record hdr { sender_id = to_hex b }
    else hdr
read_header_field k (text s) hdr =
    if k == "persistence" then record hdr { persistence = s } else hdr
read_header_field k _ hdr = hdr

unfoldable pub header_fields : Pairs → FrameHeader → FrameHeader
header_fields stop hdr = hdr
header_fields (pair (text k) v r) hdr = header_fields r (read_header_field k v hdr)
header_fields (pair _ v r) hdr = header_fields r hdr

unfoldable pub complete_header : FrameHeader → Option FrameHeader
complete_header hdr = if hdr.message_id == "" || hdr.sender_id == "" then none else some hdr

header_of : Option Item → Option FrameHeader
header_of (some (dict ps)) = complete_header (header_fields ps empty_header)
header_of _ = none

-- `none` where the source returns false.
unfoldable pub parse_frame_header : Libcbor → Bytes → Option FrameHeader
unfolding header_of
parse_frame_header lib delivery_frame = header_of (lib.load delivery_frame)

-- The first text under the key "type", and else an empty one.
unfoldable pub frame_type : Pairs → String
frame_type stop = ""
frame_type (pair (text k) (text s) r) = let rest = frame_type r in if k == "type" then s else rest
frame_type (pair _ v r) = frame_type r

-- The frame and the id in a sibling's wrapper: of each the last that is there.
unfoldable pub replicated_frame : Pairs → Bytes → Bytes
replicated_frame stop inner = inner
replicated_frame (pair (text k) (bytestring b) r) inner =
    replicated_frame r (if k == "delivery_frame" then b else inner)
replicated_frame (pair _ v r) inner = replicated_frame r inner

unfoldable pub replicated_id : Pairs → String → String
replicated_id stop id = id
replicated_id (pair (text k) (text s) r) id = replicated_id r (if k == "message_id" then s else id)
replicated_id (pair _ v r) id = replicated_id r id
