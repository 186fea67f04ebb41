-- ===== src/AnonRouter/Channel/States.antt =====
-- The life of a channel in the channel manager: registered, accepted, upgraded, closed.
use scatter_web_project.Common.{
  ℕ, ◌≡◌, ◌≢◌, refl, sym, ◌∙◌, length, Bytes, String, true, false, none, some, [], ◌∷◌, ◌++◌, ok,
  AreBytes, lookup-assign_self, lookup-assign_ne, lookup-erase_self, lookup-erase_ne, Assoc, ap,
  erase, erase-eq_of_none, string_eq,
}
use scatter_web_project.Hex.{to_hex, to_hex-injective}
use scatter_web_project.Crypto.{Provider}
use scatter_web_project.Cbor.{Libcbor}
use scatter_web_project.AnonRouter.Channel.{
  put_channel, default_channel, SendCoins, register_incoming, accept, accept_found, upgrade,
  upgrade_found, close_channel, send, send_found,
}
use scatter_web_project.AnonRouter.Node.{
  Node, ChannelInfo, opening, open_state, channel_incoming, get_channel, state_changed,
  push_incoming, push,
}

-- A `MessageId`: sixteen bytes.
pub record IsId (id : Bytes) : Type 0 where
  pub bytes : AreBytes id
  pub size : length id ≡ 16

key-ne : (id other : Bytes) → IsId id → IsId other → other ≢ id → to_hex id ≢ to_hex other
key-ne id other b c ne same =
    ne (to_hex-injective other id c.bytes b.bytes (c.size ∙ sym b.size) (sym same))

-- Every channel but one is as it was.
unfoldable pub OthersKept : Bytes → Node → Node → Type 0
OthersKept id n m =
    (other : Bytes) → IsId other → other ≢ id → get_channel other m ≡ get_channel other n

pub get-put :
    (id : Bytes) (ci : ChannelInfo) (n : Node) → get_channel id (put_channel id ci n) ≡ some ci
unfolding get_channel
get-put id ci n = lookup-assign_self (to_hex id) ci n.channels

pub put-OthersKept :
    (id : Bytes) (ci : ChannelInfo) (n : Node) → IsId id → OthersKept id n (put_channel id ci n)
unfolding OthersKept get_channel
put-OthersKept id ci n b other c ne =
    lookup-assign_ne (to_hex id) (to_hex other) ci n.channels (key-ne id other b c ne)

-- A channel that waits to be accepted.
abbrev pub waiting : Bytes → String → ℕ → ℕ → ChannelInfo
waiting id peer_addr anon_level mode = record default_channel {
  channel_id = id;
  peer_addr = peer_addr;
  anon_level = anon_level;
  mode = mode;
  state = opening;
}

-- A CHAN_OPEN leaves a channel that waits, under the sender's id, level and mode, and tells the
-- client of it once.
pub incoming_waits :
    (id : Bytes) (peer_addr : String) (anon_level mode : ℕ) (n : Node)
    → IsId id
    → (get_channel id (register_incoming id peer_addr anon_level mode n)
        ≡ some (waiting id peer_addr anon_level mode))
      × ((register_incoming id peer_addr anon_level mode n).pushed
          ≡ n.pushed ++ channel_incoming (waiting id peer_addr anon_level mode) ∷ [])
      × ((register_incoming id peer_addr anon_level mode n).sent ≡ n.sent)
      × OthersKept id n (register_incoming id peer_addr anon_level mode n)
unfolding register_incoming state_changed push_incoming push get_channel OthersKept
incoming_waits id peer_addr anon_level mode n b =
    let found = get-put id (waiting id peer_addr anon_level mode) n in
    (
      rw (found, push_incoming) found,
      rw (found, push_incoming) refl,
      rw (found, push_incoming) refl,
      rw (found, push_incoming) (put-OthersKept id (waiting id peer_addr anon_level mode) n b),
    )

-- `accept` and `upgrade` of a channel that is there leave it open under the key that they were given;
-- `accept` hands the key back, `upgrade` also sets the mode, and the other channels stay as they were.
pub accept-upgrade_exact :
    (id key : Bytes) (mode : ℕ) (n : Node) (ci : ChannelInfo)
    → IsId id
    → get_channel id n ≡ some ci
    → ((accept id key n).0 ≡ some key)
      × (get_channel id (accept id key n).1
          ≡ some (record ci { channel_key = key; state = open_state }))
      × OthersKept id n (accept id key n).1
      × ((upgrade id mode key n).0 ≡ true)
      × (get_channel id (upgrade id mode key n).1
          ≡ some (record ci { mode = mode; channel_key = key; state = open_state }))
      × OthersKept id n (upgrade id mode key n).1
unfolding accept accept_found upgrade upgrade_found
accept-upgrade_exact id key mode n ci b h = (
  rw h refl,
  rw h (get-put id _ n),
  rw h (put-OthersKept id _ n b),
  rw h refl,
  rw h (get-put id _ n),
  rw h (put-OthersKept id _ n b),
)

-- Whatever state a channel was in, closing it removes it for good: `send` afterwards returns false,
-- `accept` no key and `upgrade` false, and none of them changes anything. Closing itself sends
-- nothing, tells the client nothing, and leaves the other channels as they were.
pub close_channel_final :
    (p : Provider) (lib : Libcbor) (id payload key : Bytes) (mode : ℕ) (coins : SendCoins)
    (n : Node)
    → IsId id
    → let m = close_channel id n in
      (get_channel id m ≡ none)
      × (send p lib id payload coins m ≡ (ok false, m))
      × (accept id key m ≡ (none, m))
      × (upgrade id mode key m ≡ (false, m))
      × (close_channel id m ≡ m)
      × (m.sent ≡ n.sent)
      × (m.pushed ≡ n.pushed)
      × OthersKept id n m
unfolding close_channel state_changed send send_found accept accept_found upgrade upgrade_found
    OthersKept get_channel
close_channel_final p lib id payload key mode coins n b =
    let gone = lookup-erase_self (to_hex id) n.channels in
    (
      gone,
      rw gone refl,
      rw gone refl,
      rw gone refl,
      ap (λ (cs : Assoc String ChannelInfo). record n { channels = cs })
          (erase-eq_of_none (to_hex id) (erase (to_hex id) n.channels) gone),
      refl,
      refl,
      λ other c ne. lookup-erase_ne (to_hex id) (to_hex other) n.channels (key-ne id other b c ne),
    )
