-- ===== src/AnonRouter/Handshake.antt =====
-- The direct-channel handshake: `send_chan_open`, `send_chan_accept`, `on_chan_open_cell` and
-- `on_chan_accept_cell` of anonrouter/src/router.cpp, and `on_chan_accept` of
-- anonrouter/src/channel.cpp. Log lines are left out.
pub mod Exchange
pub mod Incoming
use scatter_web_project.Common.{
  ℕ, ◌+◌, ◌%◌, ◌^◌, Bytes, String, Bool, true, false, Option, none, some, List, [], ◌∷◌, Result, ok,
  err, Exec, ◌>>=◌, pure, lift, modify, length, replicate, string_eq, nat_eq, ◌==◌, ltb,
  if◌then◌else◌,
}
use scatter_web_project.Crypto.{Provider}
use scatter_web_project.Cbor.{
  Item, Pairs, bytestring, text, uint, dict, stop, pair, Libcbor, uint64, safe_cbor_uint, add_pairs,
}
use scatter_web_project.AnonRouter.Cell.{
  CellHeader, DecodedCell, default_header, cell_type_chan_open, cell_type_chan_accept,
  cell_plaintext_size, cell_build, cell_decode,
}
use scatter_web_project.AnonRouter.Channel.{put_channel, default_channel, register_incoming}
use scatter_web_project.AnonRouter.Node.{Node, ChannelInfo, open_state, get_channel, transmit}

-- All zeros.
unfoldable pub handshake_key : Bytes
handshake_key = replicate 32 0

-- What the loops over a CHAN_OPEN map collect.
pub record OpenFields : Type 0 where
  pub channel_id : Bytes
  pub anon_level : ℕ
  pub mode : ℕ

-- What the loops over a CHAN_ACCEPT map collect; `got_key` says that a key was present.
pub record AcceptFields : Type 0 where
  pub channel_id : Bytes
  pub channel_key : Bytes
  pub got_key : Bool

-- `memcpy` of a byte string of the wanted length; anything else leaves the default.
take_bytes : ℕ → Item → Bytes → Bytes
take_bytes n (bytestring b) default = if length b == n then b else default
take_bytes n _ default = default

accept_key : Item → AcceptFields → AcceptFields
accept_key (bytestring b) f =
    if length b == 32 then record f { channel_key = b; got_key = true } else f
accept_key _ f = f

accept_field : String → Item → AcceptFields → AcceptFields
unfolding take_bytes accept_key
accept_field k v f =
    if k == "channel_id"
    then record f { channel_id = take_bytes 16 v f.channel_id }
    else if k == "channel_key"
    then accept_key v f
    else f

abbrev no_accept : AcceptFields
no_accept = record { channel_id = replicate 16 0; channel_key = replicate 32 0; got_key = false }

-- A key that is no text matches none of the names.
unfoldable pub accept_fields : Pairs → AcceptFields → AcceptFields
unfolding accept_field
accept_fields stop f = f
accept_fields (pair (text k) v r) f = accept_fields r (accept_field k v f)
accept_fields (pair _ v r) f = accept_fields r f

-- An enumeration over uint8_t keeps the low byte.
small_uint : Item → ℕ → ℕ
small_uint (uint w n) default = n % 2 ^ 8
small_uint _ default = default

open_field : String → Item → OpenFields → OpenFields
unfolding take_bytes small_uint
open_field k v f =
    if k == "channel_id"
    then record f { channel_id = take_bytes 16 v f.channel_id }
    else if k == "anon_level"
    then record f { anon_level = small_uint v f.anon_level }
    else if k == "mode"
    then record f { mode = small_uint v f.mode }
    else f

-- The loop of `Router::on_chan_open_cell`.
unfoldable pub open_fields : Pairs → OpenFields → OpenFields
unfolding open_field
open_fields stop f = f
open_fields (pair (text k) v r) f = open_fields r (open_field k v f)
open_fields (pair _ v r) f = open_fields r f

abbrev no_open : OpenFields
no_open = record { channel_id = replicate 16 0; anon_level = 0; mode = 1 }

unfoldable pub open_entries : Bytes → ℕ → ℕ → List (String × Item)
open_entries id anon_level mode =
    ("channel_id", bytestring id) ∷ ("anon_level", uint64 anon_level) ∷ ("mode", uint64 mode) ∷ []

unfoldable pub accept_entries : Bytes → Bytes → List (String × Item)
accept_entries id key = ("channel_id", bytestring id) ∷ ("channel_key", bytestring key) ∷ []

unfoldable pub handshake_header : ℕ → Bytes → CellHeader
handshake_header cell_type payload = record default_header {
  cell_type = cell_type;
  garlic_len = length payload % 2 ^ 16;
}

install_key : AcceptFields → Option ChannelInfo → Node → Node
install_key f none n = n
install_key f (some ci) n =
    put_channel f.channel_id (record ci { channel_key = f.channel_key; state = open_state }) n

module _ (lib : Libcbor) where
  -- `ChannelManager::on_chan_accept`; it reads the payload once more. A root that is a map is
  -- taken also beside an error code, which libcbor does not give.
  accept_loaded : Option Item → Node → Node
  unfolding install_key
  accept_loaded (some (dict ps)) n =
      let f = accept_fields ps no_accept in install_key f (get_channel f.channel_id n) n
  accept_loaded _ n = n

  unfoldable pub on_chan_accept : Bytes → Node → Node
  unfolding accept_loaded
  on_chan_accept payload n = accept_loaded (lib.load payload) n

  -- The rest of `Router::on_chan_accept_cell`, once the cell is opened.
  accept_payload : Bytes → Option Item → Node → Node
  accept_payload payload (some (dict ps)) n =
      if (accept_fields ps no_accept).got_key then on_chan_accept payload n else n
  accept_payload payload _ n = n

  -- The rest of `Router::on_chan_open_cell`.
  open_payload : String → Option Item → Node → Node
  open_payload peer_addr (some (dict ps)) n =
      let f = open_fields ps no_open in
      register_incoming f.channel_id peer_addr f.anon_level f.mode n
  open_payload peer_addr _ n = n

  module _ (p : Provider) where
    accept_decoded : Result DecodedCell → Node → Node
    unfolding accept_payload
    accept_decoded (ok dc) n = accept_payload dc.garlic_data (lib.load dc.garlic_data) n
    accept_decoded (err e) n = n

    unfoldable pub on_chan_accept_cell : Bytes → Node → Node
    unfolding accept_decoded
    on_chan_accept_cell cell n = accept_decoded (cell_decode p cell handshake_key) n

    open_decoded : String → Result DecodedCell → Node → Node
    unfolding open_payload
    open_decoded peer_addr (ok dc) n = open_payload peer_addr (lib.load dc.garlic_data) n
    open_decoded peer_addr (err e) n = n

    unfoldable pub on_chan_open_cell : String → Bytes → Node → Node
    unfolding open_decoded
    on_chan_open_cell peer_addr cell n = open_decoded peer_addr (cell_decode p cell handshake_key) n

    -- A payload that does not fit a cell is dropped.
    send_handshake : ℕ → Bytes → String → Bytes → Exec Node (Unit {0})
    send_handshake cell_type payload peer_addr nonce n =
        if ltb cell_plaintext_size (length payload)
        then (ok tt, n)
        else (do
          cell ←
              lift (cell_build p (handshake_header cell_type payload) handshake_key payload nonce)
          modify (transmit peer_addr cell))
            n

    unfoldable pub send_chan_open : Bytes → ℕ → ℕ → String → Bytes → Exec Node (Unit {0})
    unfolding send_handshake
    send_chan_open id anon_level mode peer_addr nonce =
        send_handshake cell_type_chan_open
          (lib.serialize (dict (add_pairs lib 3 (open_entries id anon_level mode) stop))) peer_addr
          nonce

    unfoldable pub send_chan_accept : Bytes → Bytes → String → Bytes → Exec Node (Unit {0})
    unfolding send_handshake
    send_chan_accept id key peer_addr nonce =
        send_handshake cell_type_chan_accept
          (lib.serialize (dict (add_pairs lib 2 (accept_entries id key) stop))) peer_addr nonce
