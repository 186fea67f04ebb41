-- ===== src/AnonRouter/Handshake/Incoming.antt =====
-- `ChannelManager::on_chan_open` of anonrouter/src/channel.cpp, which reads a CHAN_OPEN payload and
-- leaves the callback to its caller; the router registers by `register_incoming` instead. Also `list`
-- and `reject` of the same file.
use native.Mathlib.Nat.{mod-eq_of_lt}
use scatter_web_project.Common.{
  ℕ, ◌%◌, ◌^◌, ◌<◌, ◌≡◌, refl, ap, ◌∙◌, take, Bytes, String, Option, some, List, [], ◌∷◌, Assoc,
  length, nat_eq, string_eq, ◌==◌, if◌then◌else◌,
}
use scatter_web_project.Cbor.{
  Item, Pairs, bytestring, text, dict, stop, pair, Libcbor, IsDefinite, Loads, safe_cbor_uint,
  add_pairs-take, pairs_of,
}
use scatter_web_project.AnonRouter.Channel.{put_channel, default_channel, close_channel}
use scatter_web_project.AnonRouter.Channel.States.{
  IsId, OthersKept, waiting, get-put, put-OthersKept,
}
use scatter_web_project.AnonRouter.Node.{Node, ChannelInfo, get_channel}
use scatter_web_project.AnonRouter.Handshake.{open_entries}
use scatter_web_project.AnonRouter.Handshake.Exchange.{open_item}

unfoldable pub reject : Bytes → Node → Node
reject id n = close_channel id n

infos : Assoc String ChannelInfo → List ChannelInfo
infos [] = []
infos ((k, ci) ∷ r) = ci ∷ infos r

-- `list`
unfoldable pub list_channels : Node → List ChannelInfo
unfolding infos
list_channels n = infos n.channels

id_field : Item → ChannelInfo → ChannelInfo
id_field (bytestring b) ci = if length b == 16 then record ci { channel_id = b } else ci
id_field _ ci = ci

pubkey_field : Item → ChannelInfo → ChannelInfo
pubkey_field (text s) ci = record ci { remote_pubkey_hex = s }
pubkey_field _ ci = ci

module _ (lib : Libcbor) where
  channel_field : String → Item → ChannelInfo → ChannelInfo
  unfolding id_field pubkey_field
  channel_field k v ci =
      if k == "channel_id"
      then id_field v ci
      else if k == "remote_pubkey"
      then pubkey_field v ci
      else if k == "anon_level"
      then record ci { anon_level = safe_cbor_uint lib v % 2 ^ 8 }
      else if k == "mode"
      then record ci { mode = safe_cbor_uint lib v % 2 ^ 8 }
      else ci

  -- A key that is no text matches none of the names.
  unfoldable pub channel_fields : Pairs → ChannelInfo → ChannelInfo
  unfolding channel_field
  channel_fields stop ci = ci
  channel_fields (pair (text k) v r) ci = channel_fields r (channel_field k v ci)
  channel_fields (pair _ v r) ci = channel_fields r ci

  enter_channel : ChannelInfo → Node → Node
  enter_channel ci n = put_channel ci.channel_id ci n

  open_loaded : Option Item → Node → Node
  unfolding enter_channel
  open_loaded (some (dict ps)) n = enter_channel (channel_fields ps default_channel) n
  open_loaded _ n = n

  unfoldable pub on_chan_open : Bytes → Node → Node
  unfolding open_loaded
  on_chan_open payload n = open_loaded (lib.load payload) n

  fields_read :
      (id : Bytes) (anon_level mode : ℕ)
      → length id ≡ 16
      → anon_level < 2 ^ 8
      → mode < 2 ^ 8
      → channel_fields (pairs_of (take 3 (open_entries id anon_level mode))) default_channel
        ≡ waiting id "" anon_level mode
  unfolding channel_fields open_entries safe_cbor_uint
  fields_read id anon_level mode h l m = rw (h, mod-eq_of_lt l, mod-eq_of_lt m) refl

  channel_entered :
      (payload : Bytes) (ps : Pairs) (ci : ChannelInfo) (n : Node)
      → lib.load payload ≡ some (dict ps)
      → channel_fields ps default_channel ≡ ci
      → on_chan_open payload n ≡ put_channel ci.channel_id ci n
  unfolding on_chan_open open_loaded enter_channel
  channel_entered payload ps ci n loaded read =
      rw (loaded, open_loaded) (ap (λ (c : ChannelInfo). enter_channel c n) read)

  -- The payload that `send_chan_open` writes leaves a channel that waits, without an address; nothing
  -- is sent or pushed, and the other channels stay as they were.
  pub on_chan_open_waits :
      (id : Bytes) (anon_level mode : ℕ) (n : Node)
      → IsDefinite lib
      → IsId id
      → anon_level < 2 ^ 8
      → mode < 2 ^ 8
      → Loads lib (open_item lib id anon_level mode)
      → let m = on_chan_open (lib.serialize (open_item lib id anon_level mode)) n in
        (get_channel id m ≡ some (waiting id "" anon_level mode))
        × (m.sent ≡ n.sent)
        × (m.pushed ≡ n.pushed)
        × OthersKept id n m
  unfolding open_item
  on_chan_open_waits id anon_level mode n definite is_id l k loads =
      let entered : on_chan_open (lib.serialize (open_item lib id anon_level mode)) n
          ≡ put_channel id (waiting id "" anon_level mode) n =
        channel_entered _ _ (waiting id "" anon_level mode) n loads (
          ap (λ (ps : Pairs). channel_fields ps default_channel)
            (add_pairs-take lib 3 (open_entries id anon_level mode) definite)
          ∙ fields_read id anon_level mode is_id.size l k) in
      rw entered (get-put id _ n, refl, refl, put-OthersKept id _ n is_id)
