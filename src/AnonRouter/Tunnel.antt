-- ===== src/AnonRouter/Tunnel.antt =====
-- anonrouter/src/tunnel.cpp and tunnel.hpp: recruited tunnels, and the recruitment payloads.
pub mod Recruit
use scatter_web_project.Common.{
  ℕ, Bytes, String, Bool, true, false, ◌&&◌, not, Option, none, some, List, [], ◌∷◌, length, lookup,
  assign, erase, string_eq, nat_eq, ◌==◌, if◌then◌else◌,
}
use scatter_web_project.Int.{ℤ, pos, as_int64, as_uint64}
use scatter_web_project.AnonRouter.Guard.{
  GuardType, inbound_public, inbound_private, outbound, rendezvous,
}
use scatter_web_project.Hex.{to_hex}
use scatter_web_project.Cbor.{
  Item, Pairs, bytestring, text, dict, boolean, stop, pair, Libcbor, uint64, safe_cbor_uint,
  get_bytes, add_pairs, c_str,
}
use scatter_web_project.AnonRouter.Cell.{cell_size, cell_session_tok}
use scatter_web_project.AnonRouter.Tft.{record_used_from}
use scatter_web_project.AnonRouter.Node.{Node, TunnelInfo, transmit}

-- add_inbound and add_outbound
unfoldable pub add_tunnel : TunnelInfo → Node → Node
add_tunnel info n = record n { tunnels = assign (to_hex info.session_tok) info n.tunnels }

unfoldable pub remove_tunnel : Bytes → Node → Node
remove_tunnel tok n = record n { tunnels = erase (to_hex tok) n.tunnels }

unfoldable pub find_tunnel : Bytes → Node → Option TunnelInfo
find_tunnel tok n = lookup (to_hex tok) n.tunnels

unfoldable pub forward_to_guard : Option TunnelInfo → Bytes → Node → Node
forward_to_guard none cell n = n
forward_to_guard (some info) cell n =
    let m = transmit info.guard_endpoint cell n in
    record m { tft = record_used_from info.guard_node_id (pos cell_size) m.tft }

unfoldable pub forward_via_outbound : Bytes → Bytes → Node → Node
unfolding forward_to_guard
forward_via_outbound out_tok cell n = forward_to_guard (find_tunnel out_tok n) cell n

pub record RecruitResult : Type 0 where
  pub succeeded : Bool
  pub session_tok_hex : String
  pub reason : String
  pub retry_after : ℤ

-- The pairs of `build_response`, in the order of the calls.
unfoldable pub response_entries : Bytes → Option String → ℤ → List (String × Item)
response_entries tok none retry_after =
    ("ok", boolean true) ∷ ("session_token", bytestring tok) ∷ []
response_entries tok (some reason) retry_after =
    ("ok", boolean false)
    ∷ ("session_token", bytestring tok)
    ∷ ("reason", text reason)
    ∷ ("retry_after", uint64 (as_uint64 retry_after))
    ∷ []

abbrev pub response_pairs : Option String → ℕ
response_pairs none = 2
response_pairs (some reason) = 4

take_ok : Item → RecruitResult → RecruitResult
take_ok (boolean b) r = record r { succeeded = b }
take_ok _ r = record r { succeeded = false }

take_reason : Item → RecruitResult → RecruitResult
take_reason (text s) r = record r { reason = s }
take_reason _ r = r

take_token : Item → RecruitResult → RecruitResult
take_token (bytestring b) r = if length b == 32 then record r { session_tok_hex = to_hex b } else r
take_token _ r = r

abbrev pub no_result : RecruitResult
no_result = record { succeeded = false; session_tok_hex = ""; reason = ""; retry_after = pos 0 }

-- The enumerators of `GuardType`, in order.
guard_type_value : GuardType → ℕ
guard_type_value inbound_public = 0
guard_type_value inbound_private = 1
guard_type_value outbound = 2
guard_type_value rendezvous = 3

-- The pairs of `build_recruit_in_payload`, in the order of the calls.
unfoldable pub recruit_in_entries : Bytes → String → GuardType → ℕ → List (String × Item)
unfolding guard_type_value
recruit_in_entries session_tok deliver_to guard_type ttl_seconds =
    ("session_token", bytestring session_tok)
    ∷ ("deliver_to", text (c_str deliver_to))
    ∷ ("guard_type", uint64 (guard_type_value guard_type))
    ∷ ("ttl", uint64 ttl_seconds)
    ∷ []

unfoldable pub recruit_out_entries : Bytes → String → ℕ → List (String × Item)
recruit_out_entries session_tok forward_to ttl_seconds =
    ("session_token", bytestring session_tok)
    ∷ ("forward_to", text (c_str forward_to))
    ∷ ("ttl", uint64 ttl_seconds)
    ∷ []

module _ (lib : Libcbor) where
  unfoldable pub build_recruit_in_payload : Bytes → String → GuardType → ℕ → Bytes
  build_recruit_in_payload session_tok deliver_to guard_type ttl_seconds = lib.serialize (
      dict
        (add_pairs lib 4 (recruit_in_entries session_tok deliver_to guard_type ttl_seconds) stop))

  unfoldable pub build_recruit_out_payload : Bytes → String → ℕ → Bytes
  build_recruit_out_payload session_tok forward_to ttl_seconds =
      lib.serialize
        (dict (add_pairs lib 3 (recruit_out_entries session_tok forward_to ttl_seconds) stop))

  -- `build_response`: without a reason the map has room for two pairs, else for four.
  unfoldable pub response_item : Bytes → Option String → ℤ → Item
  response_item tok reason retry_after =
      dict (add_pairs lib (response_pairs reason) (response_entries tok reason retry_after) stop)

  unfoldable pub build_response : Bytes → Option String → ℤ → Bytes
  build_response tok reason retry_after = lib.serialize (response_item tok reason retry_after)

  unfoldable pub build_recruit_ok : Bytes → Bytes
  build_recruit_ok tok = build_response tok none (pos 0)

  unfoldable pub build_recruit_full : Bytes → Bytes
  build_recruit_full tok = build_response tok (some "guard_capacity_full") (pos 0)

  unfoldable pub build_recruit_choked : Bytes → ℤ → Bytes
  build_recruit_choked tok retry_after =
      build_response tok (some "bandwidth_credit_insufficient") retry_after

  -- One round of the loop of `parse_recruit_response`.
  take_field : String → Item → RecruitResult → RecruitResult
  unfolding take_ok take_reason take_token
  take_field k v r =
      if k == "ok"
      then take_ok v r
      else if k == "reason"
      then take_reason v r
      else if k == "retry_after"
      then record r { retry_after = as_int64 (safe_cbor_uint lib v) }
      else if k == "session_token"
      then take_token v r
      else r

  -- cbor_string_handle of a key that is no text reads the item as it lies in memory; such a key
  -- matches none of the names.
  take_fields : Pairs → RecruitResult → RecruitResult
  unfolding take_field
  take_fields stop r = r
  take_fields (pair (text k) v ps) r = take_fields ps (take_field k v r)
  take_fields (pair _ v ps) r = take_fields ps r

  recruit_result : Option Item → RecruitResult
  unfolding take_fields
  recruit_result (some (dict ps)) = take_fields ps no_result
  recruit_result _ = no_result

  unfoldable pub parse_recruit_response : Bytes → RecruitResult
  unfolding recruit_result
  parse_recruit_response payload = recruit_result (lib.load payload)
