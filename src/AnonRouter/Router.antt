-- ===== src/AnonRouter/Router.antt =====
-- anonrouter/src/router.cpp: what a router does with a datagram, and its periodic work.
pub mod Relay
pub mod Refusal
pub mod Delivery
use scatter_web_project.Common.{
  ℕ, suc, ◌%◌, Bytes, String, Bool, true, false, Option, none, some, [], ◌∷◌, ok, Exec, length,
  string_eq, nat_eq, ◌==◌, if◌then◌else◌,
}
use scatter_web_project.Int.{ℤ, pos}
use scatter_web_project.Crypto.{Provider}
use scatter_web_project.Cbor.{Libcbor}
use scatter_web_project.AnonRouter.Cell.{
  cell_size, cell_session_tok, byte_at, cell_type_chan_open, cell_type_chan_accept,
}
use scatter_web_project.AnonRouter.Guard.{GuardEntry, find_guard, add_forwarded, evict_expired}
use scatter_web_project.AnonRouter.Tft.{record_forwarded_for, run_round, decay_credits}
use scatter_web_project.AnonRouter.Channel.{on_cell}
use scatter_web_project.AnonRouter.Handshake.{on_chan_open_cell, on_chan_accept_cell}
use scatter_web_project.AnonRouter.Node.{Node, transmit}

-- The credit for a relayed cell.
unfoldable pub credit_recruiter : GuardEntry → Node → Node
credit_recruiter e n =
    if e.recruiter_node_id == ""
    then n
    else record n { tft = record_forwarded_for e.recruiter_node_id (pos cell_size) n.tft }

unfoldable pub relay_to : Option GuardEntry → Bytes → Node → Node
relay_to none cell n = n
relay_to (some e) cell n =
    let m = transmit e.forward_addr cell n in
    credit_recruiter e
      (record m { guards = add_forwarded (cell_session_tok cell) (pos cell_size) m.guards })

unfoldable pub relay_cell : Bytes → Node → Node
unfolding relay_to
relay_cell cell n = relay_to (find_guard (cell_session_tok cell) n.guards) cell n

-- One round of `tft_loop`: credits decay on every `rounds_per_decay`-th round, by the count before it;
-- the source divides by zero where `rounds_per_decay` is 0.
unfoldable pub tft_tick : ℕ → ℕ → Node → ℕ × Node
tft_tick rounds_per_decay round_count n =
    let t = run_round n.tft in
    (
      suc round_count,
      record n { tft = if suc round_count % rounds_per_decay == 0 then decay_credits t else t },
    )

-- One round of `evict_loop`.
unfoldable pub evict_tick : ℤ → Node → Node
evict_tick now n = record n { guards = (evict_expired now n.guards).1 }

module _ (p : Provider) (lib : Libcbor) where
  -- A cell that is not for a guard goes through `TunnelManager::on_inbound_cell`, which hands it to
  -- the channel manager. A throw of `on_cell` leaves `on_datagram`.
  unfoldable pub for_token : Option GuardEntry → Bytes → Exec Node (Unit {0})
  for_token (some e) cell n = (ok tt, relay_cell cell n)
  for_token none cell n = on_cell p lib cell n

  unfoldable pub on_typed_cell : String → Bytes → Exec Node (Unit {0})
  unfolding for_token
  on_typed_cell peer_addr cell n =
      if byte_at cell 1 == cell_type_chan_open
      then (ok tt, on_chan_open_cell lib p peer_addr cell n)
      else if byte_at cell 1 == cell_type_chan_accept
      then (ok tt, on_chan_accept_cell lib p cell n)
      else for_token (find_guard (cell_session_tok cell) n.guards) cell n

  -- A datagram of another size is dropped.
  unfoldable pub on_datagram : String → Bytes → Exec Node (Unit {0})
  unfolding on_typed_cell
  on_datagram peer_addr bytes n =
      if length bytes == cell_size then on_typed_cell peer_addr bytes n else (ok tt, n)
