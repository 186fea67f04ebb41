-- ===== src/AnonRouter/Node.antt =====
-- The state that the parts of the router share (anonrouter/src/router.hpp), and their effects.
-- The managers hold references to one transport and to one another, so they act on one `Node`. A
-- datagram goes to the end of `sent`, an IPC push to the end of `pushed`. The two callbacks that the
-- router installs in the channel manager are `state_changed` and `frame_received`.
use scatter_web_project.Common.{
  ℕ, Bytes, String, Option, none, some, List, [], ◌∷◌, ◌++◌, Assoc, lookup, string_eq,
}
use scatter_web_project.Int.{ℤ}
use scatter_web_project.Hex.{to_hex}
use scatter_web_project.AnonRouter.Guard.{GuardTable}
use scatter_web_project.AnonRouter.Tft.{TftEngine}

-- The enumerations of channel.hpp over uint8_t are their bytes: `static_cast` lets every byte in.
abbrev pub anon_level_direct : ℕ
anon_level_direct = 0

abbrev pub mode_datagram : ℕ
mode_datagram = 0

abbrev pub mode_message : ℕ
mode_message = 1

abbrev pub mode_stream : ℕ
mode_stream = 2

pub data ChannelState : Type 0 where
  opening open_state upgrading closed : ChannelState

pub record GuardRef : Type 0 where
  pub node_id : String
  pub session_tok : Bytes

pub record ChannelInfo : Type 0 where
  pub channel_id : Bytes
  pub remote_pubkey_hex : String
  pub anon_level : ℕ
  pub mode : ℕ
  pub state : ChannelState
  pub channel_key : Bytes
  pub send_seq : ℕ
  pub recv_seq : ℕ
  pub rtt_ms : ℤ
  pub peer_addr : String
  pub my_inbound_guard : Option GuardRef
  pub remote_inbound_guard : Option GuardRef

pub data TunnelType : Type 0 where
  inbound_public inbound_private outbound : TunnelType

pub record TunnelInfo : Type 0 where
  pub session_tok : Bytes
  pub guard_endpoint : String
  pub guard_node_id : String
  pub link_key : Bytes
  pub tunnel_type : TunnelType
  pub created_at_s : ℤ
  pub forward_to : String

-- `push_channel_incoming` and `push_frame_recv` of router.cpp.
pub data Push : Type 0 where
  channel_incoming : ChannelInfo → Push
  frame_recv : Bytes → Bytes → Push

pub record Node : Type 0 where
  pub guards : GuardTable
  pub tft : TftEngine
  pub tunnels : Assoc String TunnelInfo
  pub channels : Assoc String ChannelInfo
  pub sent : List (String × Bytes)
  pub pushed : List Push

-- transport_.send
unfoldable pub transmit : String → Bytes → Node → Node
transmit addr bytes n = record n { sent = n.sent ++ (addr, bytes) ∷ [] }

unfoldable pub push : Push → Node → Node
push e n = record n { pushed = n.pushed ++ e ∷ [] }

-- ChannelManager::get
unfoldable pub get_channel : Bytes → Node → Option ChannelInfo
get_channel id n = lookup (to_hex id) n.channels

unfoldable pub push_incoming : Option ChannelInfo → Node → Node
push_incoming none n = n
push_incoming (some ci) n = push (channel_incoming ci) n

-- The state callback that `Router::Router` installs: only OPENING is reported.
unfoldable pub state_changed : Bytes → ChannelState → Node → Node
unfolding push_incoming
state_changed id opening n = push_incoming (get_channel id n) n
state_changed id _ n = n

-- The frame callback.
unfoldable pub frame_received : Bytes → Bytes → Node → Node
frame_received id frame n = push (frame_recv id frame) n
