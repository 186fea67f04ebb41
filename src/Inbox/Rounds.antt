-- ===== src/Inbox/Rounds.antt =====
-- What the inbox of inbox/src/inbox.cpp does of itself: the polls and announcements of `start` and
-- the rounds of `maintenance_loop`.
use scatter_web_project.Common.{
  Bytes, Bool, true, false, ◌&&◌, Option, none, some, List, [], ◌∷◌, Result, Exec, ◌>>=◌, ◌>>◌,
  pure, modify, take, string_eq, if◌then◌else◌,
}
use scatter_web_project.Int.{pos, ltb_ℤ}
use scatter_web_project.Hex.{to_hex}
use scatter_web_project.Cbor.{bytestring, text, dict, stop, Libcbor, add_pairs}
use scatter_web_project.Ipc.Value.{Fields}
use scatter_web_project.Inbox.Store.{
  StoredMessage, KnownOutbox, DhtCredentials, get_pending, delete_expired,
}
use scatter_web_project.Inbox.Node.{Inbox, Call, attempt, announce, send_frame, ensure_channel}
use scatter_web_project.Inbox.Delivery.{Clock, replicate_to_siblings}

-- An outbox that a poll leaves out.
unfoldable pub is_stale : Clock → KnownOutbox → Bool
is_stale clock ob = ltb_ℤ (pos 0) ob.expires_at && ltb_ℤ ob.expires_at (pos clock.now_s)

module _ (lib : Libcbor) (reply : List Call → Result Fields) where
  unfoldable pub poll_bytes : Bytes → Bytes
  poll_bytes key_c_pubkey = lib.serialize (
      dict (
        add_pairs lib 3
          (("type", text "outbox_poll")
            ∷ ("inbox_key_c_pubkey", bytestring key_c_pubkey)
            ∷ ("nonce", bytestring (take 8 key_c_pubkey))
            ∷ [])
          stop))

  unfoldable pub poll_outbox : Bytes → KnownOutbox → Exec Inbox Fields
  poll_outbox key_c_pubkey ob = do
    chan ← ensure_channel reply (to_hex ob.key_c_pubkey)
    send_frame reply chan (poll_bytes key_c_pubkey)

  unfoldable pub poll_each : Clock → Bytes → List KnownOutbox → Exec Inbox (Unit {0})
  unfolding poll_outbox
  poll_each clock key_c_pubkey [] = pure tt
  poll_each clock key_c_pubkey (ob ∷ r) =
      (if is_stale clock ob then pure tt else attempt (poll_outbox key_c_pubkey ob))
      >> poll_each clock key_c_pubkey r

  unfoldable pub poll_as : Clock → Option DhtCredentials → Exec Inbox (Unit {0})
  poll_as clock none = pure tt
  poll_as clock (some creds) = λ s. poll_each clock creds.key_c_pubkey s.store.known_outboxes s

  unfoldable pub poll_known_outboxes : Clock → Exec Inbox (Unit {0})
  poll_known_outboxes clock s = poll_as clock s.store.dht_credentials s

  unfoldable pub announce_each : List StoredMessage → Inbox → Inbox
  announce_each [] s = s
  announce_each (m ∷ ms) s = announce_each ms (announce m.message_id m.sender_id s)

  -- What `start` does once its threads and sockets are there.
  unfoldable pub start : Clock → Exec Inbox (Unit {0})
  start clock =
      attempt (poll_known_outboxes clock)
      >> modify (λ s. announce_each (get_pending s.store true) s)

  unfoldable pub retry_each : List StoredMessage → Exec Inbox (Unit {0})
  retry_each [] = pure tt
  retry_each (m ∷ ms) =
      (if m.replicated then pure tt else replicate_to_siblings lib reply m.message_id)
      >> retry_each ms

  -- One round of `maintenance_loop`.
  unfoldable pub maintenance_round : Clock → Exec Inbox (Unit {0})
  maintenance_round clock = attempt (
      modify (λ s. record s { store = delete_expired clock.now_s s.store })
      >> (λ s. retry_each (get_pending s.store false) s))
