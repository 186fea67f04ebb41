-- ===== src/AnonRouter/Router/Refusal.antt =====
-- The datagrams that make `Router::on_datagram` throw.
use scatter_web_project.Common.{
  ◌≡◌, ◌⊎◌, Bytes, none, some, ◌<◌, ◌+◌, take, drop, string_eq, nat_eq,
}
use scatter_web_project.Crypto.{Provider}
use scatter_web_project.Cbor.{Libcbor}
use scatter_web_project.AnonRouter.Cell.{
  cell_header_size, cell_plaintext_size, cell_session_tok, cell_nonce, cell_read_header,
}
use scatter_web_project.AnonRouter.Guard.{find_guard}
use scatter_web_project.AnonRouter.Channel.{first_match}
use scatter_web_project.AnonRouter.Node.{Node, ChannelInfo}
use scatter_web_project.AnonRouter.Router.Relay.{IsData}

module _ (p : Provider) (lib : Libcbor) where
  -- The cell does not authenticate under the key, or has a length that no cell holds.
  unfoldable pub IsUnreadable : (cell key : Bytes) → Type 0
  IsUnreadable cell key =
      (p.aead_decrypt key
          (cell_nonce (cell_read_header cell).session_tok (cell_read_header cell).seq_num)
          (take cell_plaintext_size (drop cell_header_size cell))
          (drop (cell_header_size + cell_plaintext_size) cell) (take cell_header_size cell)
        ≡ none)
      ⊎ (cell_plaintext_size < (cell_read_header cell).garlic_len)

  -- A data cell whose token belongs to no guard but to a channel, which cannot read it.
  pub record IsForged (cell : Bytes) (n : Node) : Type 0 where
    pub plain : IsData cell
    pub no_guard : find_guard (cell_session_tok cell) n.guards ≡ none
    pub channel : ChannelInfo
    pub found : first_match (cell_session_tok cell) n.channels ≡ some channel
    pub unreadable : IsUnreadable cell channel.channel_key
