-- ===== src/AnonRouter/Handshake/Exchange.antt =====
-- The direct-channel handshake from one router to the other.
use native.Mathlib.Nat.{mod-eq_of_lt}
use scatter_web_project.Common.{
  Option, none, ℕ, ◌≤◌, ◌≡◌, refl, ap, ◌∙◌, Bytes, String, true, some, ok, length, take, nat_eq,
  string_eq, le→ltb_false, if◌then◌else◌, arith,
}
use scatter_web_project.Crypto.{Provider, IsSound, CanSeal}
use scatter_web_project.Cbor.{
  Item, Pairs, dict, stop, Libcbor, IsDefinite, Loads, add_pairs, add_pairs-take, pairs_of,
}
use scatter_web_project.AnonRouter.Cell.{
  cell_type_chan_accept, cell_size, byte_at, cell_build, cell_decode,
}
use scatter_web_project.AnonRouter.Cell.Layout.{IsHeader}
use scatter_web_project.AnonRouter.Cell.Sealing.{
  cell_build_fits, length-cell_build, type-cell_build, cell_decode-build,
}
use scatter_web_project.AnonRouter.Channel.{put_channel}
use scatter_web_project.AnonRouter.Node.{Node, ChannelInfo, open_state, get_channel, transmit}
use scatter_web_project.AnonRouter.Handshake.{
  handshake_key, AcceptFields, accept_fields, no_accept, open_entries, accept_entries,
  handshake_header, on_chan_accept_cell, on_chan_accept, accept_decoded, accept_payload,
  accept_loaded, install_key, send_chan_accept,
}

-- The map of a CHAN_OPEN cell, and that of a CHAN_ACCEPT cell.
unfoldable pub open_item : Libcbor → Bytes → ℕ → ℕ → Item
open_item lib id anon_level mode = dict (add_pairs lib 3 (open_entries id anon_level mode) stop)

unfoldable pub accept_item : Libcbor → Bytes → Bytes → Item
accept_item lib id key = dict (add_pairs lib 2 (accept_entries id key) stop)

-- A node whose channel, if it has it, is open under the key.
unfoldable pub opened_under : Bytes → Bytes → Option ChannelInfo → Node → Node
opened_under id key none n = n
opened_under id key (some ci) n =
    put_channel id (record ci { channel_key = key; state = open_state }) n

read_accept :
    (id key : Bytes)
    → length id ≡ 16
    → length key ≡ 32
    → accept_fields (pairs_of (take 2 (accept_entries id key))) no_accept
      ≡ record { channel_id = id; channel_key = key; got_key = true }
unfolding accept_fields accept_entries
read_accept id key h k = rw (h, k) refl

module _ (p : Provider) (lib : Libcbor) where
  -- A handshake cell on the wire, and what the other end makes of it.
  record Handshaken (cell_type : ℕ) (payload nonce cell : Bytes) : Type 0 where
    built : cell_build p (handshake_header cell_type payload) handshake_key payload nonce ≡ ok cell
    size : length cell ≡ cell_size
    kind : byte_at cell 1 ≡ cell_type
    opened :
        cell_decode p cell handshake_key
        ≡ ok (record { header = handshake_header cell_type payload; garlic_data = payload })

  handshaken :
      (cell_type : ℕ) (payload nonce : Bytes)
      → IsSound p
      → CanSeal p
      → length payload ≤ 496
      → (cell : Bytes) × Handshaken cell_type payload nonce cell
  unfolding handshake_header
  handshaken cell_type payload nonce sound can fits =
      let hdr = handshake_header cell_type payload in
      let len : hdr.garlic_len ≡ length payload = mod-eq_of_lt (omega arith) in
      let header : IsHeader hdr = record {
        token = refl;
        seq_num = omega arith;
        send_ts_ms = omega arith;
        garlic_len = omega (arith, len);
      } in
      let (cell, built) = (cell_build_fits p hdr handshake_key payload nonce can).0 fits in
      (
        cell,
        record {
          built = built;
          size = length-cell_build p sound hdr handshake_key payload nonce cell refl built;
          kind = type-cell_build p hdr handshake_key payload nonce cell refl built;
          opened = cell_decode-build p sound hdr handshake_key payload nonce cell header len built;
        },
      )

  installed :
      (id key : Bytes) (o : Option ChannelInfo) (b : Node)
      → install_key (record { channel_id = id; channel_key = key; got_key = true }) o b
        ≡ opened_under id key o b
  unfolding install_key opened_under
  installed id key none b = refl
  installed id key (some ci) b = refl

  key_installed :
      (payload id key : Bytes) (ps : Pairs) (b : Node)
      → lib.load payload ≡ some (dict ps)
      → accept_fields ps no_accept ≡ record { channel_id = id; channel_key = key; got_key = true }
      → on_chan_accept lib payload b ≡ opened_under id key (get_channel id b) b
  unfolding on_chan_accept accept_loaded
  key_installed payload id key ps b loaded read =
      rw (loaded, accept_loaded)
        (ap (λ (f : AcceptFields). install_key f (get_channel f.channel_id b) b) read
          ∙ installed id key (get_channel id b) b)

  payload_accepted :
      (payload id key : Bytes) (ps : Pairs) (b : Node)
      → lib.load payload ≡ some (dict ps)
      → accept_fields ps no_accept ≡ record { channel_id = id; channel_key = key; got_key = true }
      → accept_payload lib payload (lib.load payload) b ≡ opened_under id key (get_channel id b) b
  unfolding accept_payload
  payload_accepted payload id key ps b loaded read =
      rw (loaded, accept_payload)
        (ap (λ (f : AcceptFields). if f.got_key then on_chan_accept lib payload b else b) read
          ∙ key_installed payload id key ps b loaded read)

  -- A CHAN_ACCEPT that is sent opens the channel of that id at the other router, in whatever state
  -- it was, under exactly the key that was sent; a router without such a channel stays as it was.
  pub chan_accept_opens :
      (id key nonce : Bytes) (addr : String) (a : Node)
      → IsSound p
      → CanSeal p
      → IsDefinite lib
      → length id ≡ 16
      → length key ≡ 32
      → Loads lib (accept_item lib id key)
      → length (lib.serialize (accept_item lib id key)) ≤ 496
      → (cell : Bytes) × (send_chan_accept lib p id key addr nonce a
          ≡ (ok tt, transmit addr cell a))
        × (length cell ≡ cell_size)
        × (byte_at cell 1 ≡ cell_type_chan_accept)
        × ((b : Node) → on_chan_accept_cell lib p cell b ≡ opened_under id key (get_channel id b) b)
  unfolding send_chan_accept accept_item on_chan_accept_cell accept_decoded
  chan_accept_opens id key nonce addr a sound can definite h k loads fits =
      let (cell, done) =
        handshaken cell_type_chan_accept (lib.serialize (accept_item lib id key)) nonce sound can
          fits in
      let fields = add_pairs-take lib 2 (accept_entries id key) definite in
      (
        cell,
        rw (le→ltb_false 496 _ fits, done.built) refl,
        done.size,
        done.kind,
        λ b.
            rw (done.opened, accept_decoded)
              (payload_accepted _ id key _ b loads
                (ap (λ (ps : Pairs). accept_fields ps no_accept) fields ∙ read_accept id key h k)),
      )
