-- ===== src/Examples/Routers.antt =====
-- The theorems on channel.cpp and router.cpp at concrete nodes, with the computable provider.
use scatter_web_project.Common.{
  ◌≡◌, refl, Bytes, String, true, false, none, some, [], ◌∷◌, ◌++◌, ok, length, replicate, lookup,
  string_eq, nat_eq, bytes_eq, bytes_beq, arith,
}
use scatter_web_project.Int.{pos}
use scatter_web_project.Hex.{to_hex}
use scatter_web_project.Crypto.{AesEncrypted, aes_encrypt, aes_encrypt-CanSeal}
use scatter_web_project.Toy.{toy, toy-IsSound, toy-CanSeal, fixed, fixed-IsDefinite}
use scatter_web_project.Cbor.{Libcbor, null, Loads, add_pairs}
use scatter_web_project.AnonRouter.Cell.{
  cell_size, byte_at, cell_session_tok, cell_type_chan_accept,
}
use scatter_web_project.AnonRouter.Garlic.{garlic_item, garlic_encode}
use scatter_web_project.AnonRouter.Guard.{GuardEntry, outbound, find_guard}
use scatter_web_project.AnonRouter.Tft.{TftConfig, new_engine}
use scatter_web_project.AnonRouter.Channel.{
  default_channel, put_channel, first_match, cell_matches, is_open, SendCoins, data_clove, accept,
  upgrade, close_channel, send,
}
use scatter_web_project.AnonRouter.Channel.States.{IsId, OthersKept, close_channel_final}
use scatter_web_project.AnonRouter.Handshake.{on_chan_accept_cell, send_chan_accept}
use scatter_web_project.AnonRouter.Handshake.Exchange.{
  open_item, accept_item, opened_under, chan_accept_opens,
}
use scatter_web_project.AnonRouter.Node.{
  Node, ChannelInfo, open_state, get_channel, transmit, frame_received,
}
use scatter_web_project.AnonRouter.Router.{on_datagram}
use scatter_web_project.AnonRouter.Router.Relay.{IsData, IsUnknown, Relayed, data_cell-Relayed}
use scatter_web_project.AnonRouter.Router.Delivery.{direct_token, Sealed, direct_payload_arrives}

abbrev an_id : Bytes
an_id = replicate 16 7

an_id-IsId : IsId an_id
an_id-IsId = record { bytes = ground arith; size = refl }

abbrev a_config : TftConfig
a_config = record {
  unchoke_slots = 2;
  max_debt_bytes = pos 1000;
  new_peer_balance = pos 100;
  opt_unchoke_interval = pos 3;
  decay = λ c. c;
  credit_prune_min_bytes = pos 10;
}

abbrev a_guard : GuardEntry
a_guard = record {
  session_tok = replicate 32 9;
  forward_addr = "10.0.0.2:9000";
  recruiter_node_id = "b";
  guard_type = outbound;
  bytes_fwd = pos 0;
  created_at_s = pos 1000;
  ttl_s = pos 60;
}

-- A node that relays for one guard and has one open direct channel.
abbrev a_channel : ChannelInfo
a_channel = record default_channel {
  channel_id = an_id;
  anon_level = 0;
  state = open_state;
  channel_key = replicate 32 5;
  peer_addr = "10.0.0.3:9000";
}

abbrev a_node : Node
a_node = record {
  guards = record { max_slots = 4; table = (to_hex (replicate 32 9), a_guard) ∷ [] };
  tft = new_engine a_config;
  tunnels = [];
  channels = (to_hex an_id, a_channel) ∷ [];
  sent = [];
  pushed = [];
}

a_channel_found : get_channel an_id a_node ≡ some a_channel
unfolding get_channel lookup to_hex
a_channel_found = refl

abbrev some_coins : SendCoins
some_coins = record { payload_nonce = replicate 12 1; cell_nonce = replicate 12 2 }

close_channel_final_example :
    let m = close_channel an_id a_node in
    (get_channel an_id m ≡ none)
    × (send toy (fixed null) an_id (1 ∷ []) some_coins m ≡ (ok false, m))
    × (accept an_id (replicate 32 1) m ≡ (none, m))
    × (upgrade an_id 2 (replicate 32 1) m ≡ (false, m))
    × (close_channel an_id m ≡ m)
    × (m.sent ≡ a_node.sent)
    × (m.pushed ≡ a_node.pushed)
    × OthersKept an_id a_node m
close_channel_final_example =
    close_channel_final toy (fixed null) an_id (1 ∷ []) (replicate 32 1) 2 some_coins a_node
      an_id-IsId

abbrev open_lib : Libcbor
open_lib = fixed (open_item (fixed null) an_id 0 1)

abbrev accept_lib : Libcbor
accept_lib = fixed (accept_item (fixed null) an_id (replicate 32 6))

accept-Loads : Loads accept_lib (accept_item accept_lib an_id (replicate 32 6))
unfolding accept_item add_pairs
accept-Loads = refl

chan_accept_opens_example :
    (cell : Bytes) × (send_chan_accept accept_lib toy an_id (replicate 32 6) "x:1" [] a_node
      ≡ (ok tt, transmit "x:1" cell a_node))
    × (length cell ≡ cell_size)
    × (byte_at cell 1 ≡ cell_type_chan_accept)
    × ((b : Node)
        → on_chan_accept_cell accept_lib toy cell b
          ≡ opened_under an_id (replicate 32 6) (get_channel an_id b) b)
chan_accept_opens_example =
    chan_accept_opens toy accept_lib an_id (replicate 32 6) [] "x:1" a_node toy-IsSound toy-CanSeal
      (fixed-IsDefinite _) refl refl accept-Loads (omega arith)

abbrev relay_cell_bytes : Bytes
relay_cell_bytes = 1 ∷ 3 ∷ replicate 32 9 ++ replicate 523 0

relay_cell-IsData : IsData relay_cell_bytes
unfolding byte_at
relay_cell-IsData = record { size = refl; no_open = refl; no_accept = refl }

guard_found : find_guard (cell_session_tok relay_cell_bytes) a_node.guards ≡ some a_guard
unfolding find_guard cell_session_tok lookup to_hex
guard_found = refl

data_cell-Relayed_example :
    (m : Node) × (on_datagram toy (fixed null) "x:1" relay_cell_bytes a_node ≡ (ok tt, m))
    × Relayed a_guard relay_cell_bytes a_node m
data_cell-Relayed_example =
    data_cell-Relayed toy (fixed null) "x:1" relay_cell_bytes a_node a_guard relay_cell-IsData
      guard_found

abbrev stray_bytes : Bytes
stray_bytes = 1 ∷ 3 ∷ replicate 32 8 ++ replicate 523 0

stray-IsUnknown : IsUnknown stray_bytes a_node
unfolding byte_at find_guard cell_session_tok lookup to_hex first_match cell_matches is_open
    bytes_beq
stray-IsUnknown = record {
  plain = record { size = refl; no_open = refl; no_accept = refl };
  no_guard = refl;
  no_channel = refl;
}

-- The token of the channel, and a body that nobody sealed.
abbrev forged_cell : Bytes
forged_cell = 1 ∷ 3 ∷ replicate 16 7 ++ replicate 16 0 ++ replicate 507 0 ++ replicate 16 1

abbrev sealed_frame :
    (e : AesEncrypted) × (aes_encrypt toy a_channel.channel_key (1 ∷ 2 ∷ []) [] (replicate 12 1)
      ≡ ok e)
sealed_frame =
    aes_encrypt-CanSeal toy a_channel.channel_key (1 ∷ 2 ∷ []) [] (replicate 12 1) toy-CanSeal

abbrev frame_lib : Libcbor
frame_lib = fixed (garlic_item (data_clove an_id sealed_frame.0 ∷ []))

frame-Sealed : Sealed toy frame_lib a_channel an_id (1 ∷ 2 ∷ []) some_coins sealed_frame.0
unfolding garlic_encode
frame-Sealed = record {
  sealed = sealed_frame.1;
  nonce = refl;
  id_length = refl;
  some_payload = omega arith;
  some_garlic = omega arith;
  fits = omega arith;
  loads = refl;
}

direct_no_guard : find_guard (direct_token an_id) a_node.guards ≡ none
unfolding find_guard direct_token lookup to_hex
direct_no_guard = refl

direct_found : first_match (direct_token an_id) a_node.channels ≡ some a_channel
unfolding direct_token first_match cell_matches is_open bytes_beq
direct_found = refl

channel_is_open : is_open a_channel.state ≡ true
unfolding is_open
channel_is_open = refl

direct_payload_arrives_example :
    (cell : Bytes) × (send toy frame_lib an_id (1 ∷ 2 ∷ []) some_coins a_node ≡ (
      ok true,
      transmit "10.0.0.3:9000" cell (put_channel an_id (record a_channel { send_seq = 1 }) a_node),
    ))
    × ((peer : String)
        → on_datagram toy frame_lib peer cell a_node
          ≡ (ok tt, frame_received an_id (1 ∷ 2 ∷ []) a_node))
direct_payload_arrives_example =
    direct_payload_arrives toy frame_lib toy-IsSound an_id (1 ∷ 2 ∷ []) some_coins sealed_frame.0
      a_node a_node a_channel a_channel toy-CanSeal a_channel_found
      (record {
        opened = channel_is_open;
        direct = refl;
        addressed = refl;
        unguarded = refl;
        id = refl;
        seq = omega arith;
      })
      (record { unguarded = direct_no_guard; found = direct_found; same_key = refl }) frame-Sealed
