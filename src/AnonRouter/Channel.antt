-- ===== src/AnonRouter/Channel.antt =====
-- anonrouter/src/channel.cpp and channel.hpp: the channel manager. Each stretch that the source runs
-- under the manager's mutex is one step. The order of the list of channels is the iteration order of
-- the unordered_map. Random bytes are arguments.
pub mod States
use scatter_web_project.Common.{
  ℕ, suc, ◌+◌, ◌%◌, ◌^◌, ◌-◌, Bytes, String, Bool, true, false, ◌&&◌, ◌||◌, not, Option, none, some,
  List, [], ◌∷◌, ◌++◌, Result, ok, err, Exec, ◌>>=◌, ◌>>◌, pure, lift, modify, length, take, drop,
  replicate, Assoc, lookup, assign, erase, string_eq, bytes_eq, nat_eq, ◌==◌, ltb, leb,
  if◌then◌else◌,
}
use scatter_web_project.Int.{pos}
use scatter_web_project.Hex.{to_hex}
use scatter_web_project.Crypto.{Provider, AesEncrypted, aes_encrypt, aes_decrypt}
use scatter_web_project.Cbor.{
  Item, Pairs, bytestring, text, dict, stop, pair, Libcbor, safe_cbor_uint,
}
use scatter_web_project.AnonRouter.Cell.{
  CellHeader, DecodedCell, default_header, cell_type_data, cell_plaintext_size, cell_session_tok,
  cell_build, cell_decode,
}
use scatter_web_project.AnonRouter.Garlic.{Clove, clove_type_data, garlic_encode, garlic_decode}
use scatter_web_project.AnonRouter.Tunnel.{forward_via_outbound}
use scatter_web_project.AnonRouter.Node.{
  Node, ChannelInfo, ChannelState, opening, open_state, upgrading, closed, GuardRef,
  anon_level_direct, get_channel, transmit, state_changed, frame_received,
}

abbrev pub put_channel : Bytes → ChannelInfo → Node → Node
put_channel id ci n = record n { channels = assign (to_hex id) ci n.channels }

-- `ChannelInfo ci;`
abbrev pub default_channel : ChannelInfo
default_channel = record {
  channel_id = replicate 16 0;
  remote_pubkey_hex = "";
  anon_level = 2;
  mode = 1;
  state = opening;
  channel_key = replicate 32 0;
  send_seq = 0;
  recv_seq = 0;
  rtt_ms = pos 0;
  peer_addr = "";
  my_inbound_guard = none;
  remote_inbound_guard = none;
}

-- `open`, with the random id and temporary key.
unfoldable pub open_channel : String → ℕ → ℕ → String → Bytes → Bytes → Node → Bytes × Node
open_channel remote_pubkey_hex anon_level mode peer_addr id key n = (
  id,
  put_channel id
      (record default_channel {
        channel_id = id;
        remote_pubkey_hex = remote_pubkey_hex;
        anon_level = anon_level;
        mode = mode;
        state = opening;
        peer_addr = peer_addr;
        channel_key = key;
      })
      n,
)

unfoldable pub register_incoming : Bytes → String → ℕ → ℕ → Node → Node
register_incoming id peer_addr anon_level mode n = state_changed id opening (
    put_channel id
      (record default_channel {
        channel_id = id;
        peer_addr = peer_addr;
        anon_level = anon_level;
        mode = mode;
        state = opening;
      })
      n)

unfoldable pub accept_found : Bytes → Bytes → Option ChannelInfo → Node → Option Bytes × Node
accept_found id key none n = (none, n)
accept_found id key (some ci) n =
    (some key, put_channel id (record ci { channel_key = key; state = open_state }) n)

-- `accept`, with the random channel key; the key goes back to the initiator.
unfoldable pub accept : Bytes → Bytes → Node → Option Bytes × Node
unfolding accept_found
accept id key n = accept_found id key (get_channel id n) n

-- `close`, which `reject` calls.
unfoldable pub close_channel : Bytes → Node → Node
close_channel id n = state_changed id closed (record n { channels = erase (to_hex id) n.channels })

unfoldable pub upgrade_found : Bytes → ℕ → Bytes → Option ChannelInfo → Node → Bool × Node
upgrade_found id new_mode csk none n = (false, n)
upgrade_found id new_mode csk (some ci) n =
    (true, put_channel id (record ci { mode = new_mode; channel_key = csk; state = open_state }) n)

unfoldable pub upgrade : Bytes → ℕ → Bytes → Node → Bool × Node
unfolding upgrade_found
upgrade id new_mode csk n = upgrade_found id new_mode csk (get_channel id n) n

unfoldable pub is_open : ChannelState → Bool
is_open open_state = true
is_open _ = false

guard_token : Option GuardRef → Bytes → Bytes
guard_token none otherwise = otherwise
guard_token (some g) otherwise = g.session_tok

-- The routing token of an outgoing cell.
unfoldable pub outgoing_token : ChannelInfo → Bytes
unfolding guard_token
outgoing_token ci =
    guard_token ci.my_inbound_guard (
      if ci.anon_level == anon_level_direct
      then ci.channel_id ++ replicate 16 0
      else replicate 32 0)

-- The blob in a DATA clove: nonce, tag and ciphertext.
unfoldable pub frame_blob : AesEncrypted → Bytes
frame_blob e = e.nonce ++ (e.tag ++ e.ciphertext)

unfoldable pub data_clove : Bytes → AesEncrypted → Clove
data_clove id e = record {
  clove_type = clove_type_data;
  channel_id = id;
  frag = none;
  payload = frame_blob e;
}

abbrev pub min_len : ℕ → ℕ → ℕ
min_len a b = if ltb b a then b else a

-- The header of an outgoing DATA cell.
unfoldable pub data_header : ChannelInfo → Bytes → CellHeader
data_header ci garlic = record default_header {
  cell_type = cell_type_data;
  session_tok = outgoing_token ci;
  seq_num = ci.send_seq;
  garlic_len = min_len (length garlic) cell_plaintext_size % 2 ^ 16;
}

forward_remote : Option GuardRef → Bytes → Node → Node
forward_remote none cell n = n
forward_remote (some g) cell n = forward_via_outbound g.session_tok cell n

-- Where a finished cell goes.
unfoldable pub dispatch_cell : ChannelInfo → Bytes → Node → Node
unfolding forward_remote
dispatch_cell ci cell n =
    if ci.anon_level == anon_level_direct && not (ci.peer_addr == "")
    then transmit ci.peer_addr cell n
    else forward_remote ci.remote_inbound_guard cell n

-- The random bytes of one `send`: the payload's nonce, and the one that `cell_build` throws away.
pub record SendCoins : Type 0 where
  pub payload_nonce : Bytes
  pub cell_nonce : Bytes

-- The test of the loop of `on_cell`.
unfoldable pub cell_matches : Bytes → ChannelInfo → Bool
cell_matches tok ci =
    (elim ci.my_inbound_guard [ none ↦ false | some g ↦ g.session_tok == tok ])
    || (ci.anon_level == anon_level_direct && (is_open ci.state && (ci.channel_id == take 16 tok)))

unfoldable pub first_match : Bytes → Assoc String ChannelInfo → Option ChannelInfo
first_match tok [] = none
first_match tok ((k, ci) ∷ r) =
    let rest = first_match tok r in if cell_matches tok ci then some ci else rest

module _ (p : Provider) (lib : Libcbor) where
  unfoldable pub send_open : ChannelInfo → Bytes → Bytes → SendCoins → Exec Node Bool
  send_open ci id payload coins = do
    enc ← lift (aes_encrypt p ci.channel_key payload [] coins.payload_nonce)
    let garlic = garlic_encode lib (data_clove id enc ∷ [])
    if length garlic == 0 then pure false else (do
      let hdr = data_header ci garlic
      modify (λ n. put_channel id (record ci { send_seq = (ci.send_seq + 1) % 2 ^ 32 }) n)
      cell ← lift (cell_build p hdr ci.channel_key (take hdr.garlic_len garlic) coins.cell_nonce)
      modify (dispatch_cell ci cell)
      pure true)

  unfoldable pub send_found : Option ChannelInfo → Bytes → Bytes → SendCoins → Exec Node Bool
  unfolding send_open
  send_found none id payload coins n = (ok false, n)
  send_found (some ci) id payload coins n =
      if is_open ci.state then send_open ci id payload coins n else (ok false, n)

  -- `send`. Between its two locked stretches the model lets no other call in.
  unfoldable pub send : Bytes → Bytes → SendCoins → Exec Node Bool
  unfolding send_found
  send id payload coins n = send_found (get_channel id n) id payload coins n

  -- A payload that does not open is passed over (`catch (...) {}`).
  unfoldable pub opened_frame : ChannelInfo → Result Bytes → Node → Node
  opened_frame ci (ok plain) n = frame_received ci.channel_id plain n
  opened_frame ci (err e) n = n

  unfoldable pub deliver_clove : ChannelInfo → Clove → Node → Node
  unfolding opened_frame
  deliver_clove ci c n =
      if c.clove_type == clove_type_data && ltb 28 (length c.payload)
      then opened_frame ci
          (aes_decrypt p ci.channel_key (take 12 c.payload) (drop 28 c.payload)
            (take 16 (drop 12 c.payload)) [])
          n
      else n

  unfoldable pub deliver_cloves : ChannelInfo → List Clove → Node → Node
  deliver_cloves ci [] n = n
  deliver_cloves ci (c ∷ cs) n = deliver_cloves ci cs (deliver_clove ci c n)

  unfoldable pub receive_cell : Bytes → Option ChannelInfo → Exec Node (Unit {0})
  receive_cell cell none n = (ok tt, n)
  receive_cell cell (some ci) n =
      (do
        dc ← lift (cell_decode p cell ci.channel_key)
        modify (deliver_cloves ci (garlic_decode lib dc.garlic_data)))
        n

  unfoldable pub on_cell : Bytes → Exec Node (Unit {0})
  unfolding first_match receive_cell deliver_cloves deliver_clove
  on_cell cell n = receive_cell cell (first_match (cell_session_tok cell) n.channels) n
