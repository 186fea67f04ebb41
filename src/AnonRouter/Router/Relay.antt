-- ===== src/AnonRouter/Router/Relay.antt =====
-- What becomes of a datagram in `Router::on_datagram`: relayed or passed over.
use scatter_web_project.Common.{
  ◌≡◌, refl, ◌⊎◌, inl, inr, Bytes, String, true, false, none, some, [], ◌∷◌, ◌++◌, ok, length,
  lookup-assign_self, string_eq, nat_eq, ◌==◌, if◌then◌else◌, arith,
}
use scatter_web_project.Hex.{to_hex}
use scatter_web_project.Int.{pos, ◌+ℤ◌}
use scatter_web_project.Crypto.{Provider}
use scatter_web_project.Cbor.{Libcbor}
use scatter_web_project.AnonRouter.Cell.{
  cell_size, cell_session_tok, byte_at, cell_type_chan_open, cell_type_chan_accept,
}
use scatter_web_project.AnonRouter.Guard.{GuardEntry, find_guard, add_forwarded}
use scatter_web_project.AnonRouter.Tft.{TftEngine, record_forwarded_for}
use scatter_web_project.AnonRouter.Channel.{on_cell, first_match, receive_cell}
use scatter_web_project.AnonRouter.Node.{Node, transmit}
use scatter_web_project.AnonRouter.Router.{
  credit_recruiter, relay_to, relay_cell, for_token, on_typed_cell, on_datagram,
}

-- A datagram of a cell's size whose type is no handshake.
pub record IsData (cell : Bytes) : Type 0 where
  pub size : (length cell == cell_size) ≡ true
  pub no_open : (byte_at cell 1 == cell_type_chan_open) ≡ false
  pub no_accept : (byte_at cell 1 == cell_type_chan_accept) ≡ false

-- A data cell whose token this node does not know.
pub record IsUnknown (cell : Bytes) (n : Node) : Type 0 where
  pub plain : IsData cell
  pub no_guard : find_guard (cell_session_tok cell) n.guards ≡ none
  pub no_channel : first_match (cell_session_tok cell) n.channels ≡ none

-- The ledger after a relayed cell.
unfoldable pub credited : GuardEntry → TftEngine → TftEngine
credited e t =
    if e.recruiter_node_id == ""
    then t
    else record_forwarded_for e.recruiter_node_id (pos cell_size) t

-- What a relayed cell changes, and what it leaves.
pub record Relayed (e : GuardEntry) (cell : Bytes) (n m : Node) : Type 0 where
  pub sent : m.sent ≡ n.sent ++ (e.forward_addr, cell) ∷ []
  pub counted :
      find_guard (cell_session_tok cell) m.guards
      ≡ some (record e { bytes_fwd = e.bytes_fwd +ℤ pos cell_size })
  pub slots : m.guards.max_slots ≡ n.guards.max_slots
  pub ledger : m.tft ≡ credited e n.tft
  pub channels : m.channels ≡ n.channels
  pub tunnels : m.tunnels ≡ n.tunnels
  pub pushed : m.pushed ≡ n.pushed

relay_cell-Relayed :
    (e : GuardEntry) (cell : Bytes) (n : Node)
    → find_guard (cell_session_tok cell) n.guards ≡ some e
    → Relayed e cell n (relay_cell cell n)
unfolding relay_cell relay_to credit_recruiter credited transmit find_guard add_forwarded
relay_cell-Relayed e cell n h = record {
  sent = ground arith;
  counted = ground (
    arith,
    lookup-assign_self (to_hex (cell_session_tok cell))
        (record e { bytes_fwd = e.bytes_fwd +ℤ pos cell_size }) n.guards.table,
  );
  slots = ground arith;
  ledger = ground arith;
  channels = ground arith;
  tunnels = ground arith;
  pushed = ground arith;
}

module _ (p : Provider) (lib : Libcbor) where
  -- A data cell whose token is in the guard table is sent on, byte for byte and once, to the
  -- guard's address. The guard's counter and, where the guard names a recruiter, its credit grow by
  -- one cell; channels, tunnels and the client see nothing of it.
  pub data_cell-Relayed :
      (peer_addr : String) (cell : Bytes) (n : Node) (e : GuardEntry)
      → IsData cell
      → find_guard (cell_session_tok cell) n.guards ≡ some e
      → (m : Node) × (on_datagram p lib peer_addr cell n ≡ (ok tt, m)) × Relayed e cell n m
  unfolding on_datagram on_typed_cell for_token
  data_cell-Relayed peer_addr cell n e plain h = (
    relay_cell cell n,
    rw (plain.size, plain.no_open, plain.no_accept, h) refl,
    relay_cell-Relayed e cell n h,
  )

  -- A datagram of another size changes nothing, and neither does a data cell whose token belongs to
  -- no guard and no channel.
  pub stray_datagram_ignored :
      (peer_addr : String) (bytes : Bytes) (n : Node)
      → ((length bytes == cell_size) ≡ false) ⊎ IsUnknown bytes n
      → on_datagram p lib peer_addr bytes n ≡ (ok tt, n)
  unfolding on_datagram on_typed_cell for_token on_cell receive_cell
  stray_datagram_ignored peer_addr bytes n (inl h) = rw h refl
  stray_datagram_ignored peer_addr bytes n (inr h) =
      rw (h.plain.size, h.plain.no_open, h.plain.no_accept, h.no_guard, h.no_channel) refl
