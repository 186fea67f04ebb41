-- ===== src/Inbox/Delivery.antt =====
-- The handlers of inbox/src/inbox.cpp for what the router pushes.
use scatter_web_project.Common.{
  ℕ, ◌+◌, Bytes, String, Bool, true, false, not, ◌||◌, Option, none, some, List, [], ◌∷◌, Result,
  ok, Exec, ◌>>=◌, ◌>>◌, pure, modify, length, leb, nat_beq, string_eq, ◌==◌, if◌then◌else◌,
}
use scatter_web_project.Int.{ℤ, pos}
use scatter_web_project.Hex.{to_hex}
use scatter_web_project.Cbor.{
  Item, Items, Pairs, bytestring, text, array, dict, stop, nil, cons, Libcbor, c_str, add_pairs,
}
use scatter_web_project.Ipc.Value.{Value, Fields, from_string, from_bytes, find_field}
use scatter_web_project.Inbox.Store.{
  StoredMessage, SiblingInbox, DhtCredentials, message_exists, insert_message, get_message,
  get_pending, list_siblings, set_sibling_replicated, is_allowed_sender, cr_guard_count_this_hour,
  cr_guard_record,
}
use scatter_web_project.Inbox.Frame.{
  FrameHeader, parse_frame_header, frame_type, replicated_frame, replicated_id,
}
use scatter_web_project.Inbox.Node.{
  Inbox, Call, Config, on_store, attempt, announce, send_frame, ensure_channel,
}

-- What the clock shows during one call of a handler.
pub record Clock : Type 0 where
  pub now_s : ℕ
  pub now_ms : ℕ

-- The test for a contact-request guard is not written yet.
abbrev pub is_cr_guard : Bool
is_cr_guard = false

unfoldable pub default_persistence : String → String
default_persistence p = if p == "" then "store" else p

abbrev pub pass_through : String
pass_through = "pass_through"

unfoldable pub expiry : Config → Clock → String → ℤ
expiry cfg clock persistence =
    if persistence == pass_through then pos (clock.now_s + cfg.passthrough_timeout_s) else pos 0

unfoldable pub received : Config → Clock → FrameHeader → Bytes → StoredMessage
received cfg clock hdr body = record {
  message_id = hdr.message_id;
  sender_id = hdr.sender_id;
  delivery_frame = body;
  persistence = default_persistence hdr.persistence;
  delivered_to_client = false;
  replicated = false;
  received_at_ms = pos clock.now_ms;
  expires_at = expiry cfg clock (default_persistence hdr.persistence);
}

unfoldable pub replica : Clock → FrameHeader → Bytes → StoredMessage
replica clock hdr inner = record {
  message_id = hdr.message_id;
  sender_id = hdr.sender_id;
  delivery_frame = inner;
  persistence = default_persistence hdr.persistence;
  delivered_to_client = false;
  replicated = true;
  received_at_ms = pos clock.now_ms;
  expires_at = pos 0;
}

-- The test of the sender: whether the frame is processed further.
unfoldable pub admit : Config → Clock → String → Exec Inbox Bool
admit cfg clock sender_id s =
    if is_allowed_sender s.store sender_id
    then (ok true, s)
    else if not is_cr_guard
    then (ok false, s)
    else if leb cfg.cr_guard_rate_limit_hour (cr_guard_count_this_hour s.store clock.now_s)
    then (ok false, s)
    else (ok true, record s { store = cr_guard_record clock.now_s s.store })

unfoldable pub pending_entries : Libcbor → List StoredMessage → Items
pending_entries lib [] = nil
pending_entries lib (m ∷ ms) =
    cons
      (dict (
        add_pairs lib 2
          (("message_id", text (c_str m.message_id))
            ∷ ("delivery_frame", bytestring m.delivery_frame)
            ∷ [])
          stop))
      (pending_entries lib ms)

module _ (lib : Libcbor) (reply : List Call → Result Fields) where
  unfoldable pub ack_bytes : String → DhtCredentials → Bytes
  ack_bytes message_id creds = lib.serialize (
      dict (
        add_pairs lib 3
          (("type", text "delivery_ack")
            ∷ ("message_id", text (c_str message_id))
            ∷ ("inbox_key_c_pubkey", bytestring creds.key_c_pubkey)
            ∷ [])
          stop))

  unfoldable pub ack_as : String → String → Option DhtCredentials → Exec Inbox (Unit {0})
  ack_as channel_id message_id none = pure tt
  ack_as channel_id message_id (some creds) =
      attempt (send_frame reply channel_id (ack_bytes message_id creds))

  unfoldable pub send_ack : String → String → Exec Inbox (Unit {0})
  send_ack channel_id message_id s = ack_as channel_id message_id s.store.dht_credentials s

  unfoldable pub replication_bytes : String → Bytes → Bytes
  replication_bytes message_id delivery_frame = lib.serialize (
      dict (
        add_pairs lib 3
          (("type", text "inbox_replication_frame")
            ∷ ("message_id", text (c_str message_id))
            ∷ ("delivery_frame", bytestring delivery_frame)
            ∷ [])
          stop))

  unfoldable pub replicate_to : String → Bytes → SiblingInbox → Exec Inbox (Unit {0})
  replicate_to message_id delivery_frame sib = do
    chan ← ensure_channel reply (to_hex sib.key_c_pubkey)
    sent ← send_frame reply chan (replication_bytes message_id delivery_frame)
    modify (λ s. record s { store = set_sibling_replicated message_id sib.device_id s.store })

  unfoldable pub replicate_each : String → Bytes → List SiblingInbox → Exec Inbox (Unit {0})
  unfolding replicate_to
  replicate_each message_id delivery_frame [] = pure tt
  replicate_each message_id delivery_frame (sib ∷ r) =
      attempt (replicate_to message_id delivery_frame sib)
      >> replicate_each message_id delivery_frame r

  unfoldable pub replicate_found : String → Option StoredMessage → Exec Inbox (Unit {0})
  replicate_found message_id none = pure tt
  replicate_found message_id (some msg) =
      λ s. replicate_each message_id msg.delivery_frame (list_siblings s.store) s

  unfoldable pub replicate_to_siblings : String → Exec Inbox (Unit {0})
  replicate_to_siblings message_id s = replicate_found message_id (get_message s.store message_id) s

  -- A pass_through message is not replicated.
  unfoldable pub accept_rest : FrameHeader → Exec Inbox (Unit {0})
  accept_rest hdr =
      if default_persistence hdr.persistence == pass_through
      then pure tt
      else replicate_to_siblings hdr.message_id

  -- What follows the insertion of a new message.
  unfoldable pub accept_message : String → FrameHeader → Exec Inbox (Unit {0})
  accept_message channel_id hdr = do
    acked ← send_ack channel_id hdr.message_id
    announced ← modify (announce hdr.message_id hdr.sender_id)
    accept_rest hdr

  unfoldable pub store_new : Config → Clock → String → Bytes → FrameHeader → Exec Inbox (Unit {0})
  store_new cfg clock channel_id body hdr = do
    inserted ← on_store (insert_message (received cfg clock hdr body))
    if inserted then accept_message channel_id hdr else pure tt

  unfoldable pub deduplicate : Config → Clock → String → Bytes → FrameHeader → Exec Inbox (Unit {0})
  deduplicate cfg clock channel_id body hdr s =
      if message_exists s.store hdr.message_id
      then send_ack channel_id hdr.message_id s
      else store_new cfg clock channel_id body hdr s

  -- The part of `process_delivery_frame` behind `parse_frame_header`.
  unfoldable pub process_header :
      Config → Clock → String → Bytes → FrameHeader → Exec Inbox (Unit {0})
  process_header cfg clock channel_id body hdr = do
    admitted ← admit cfg clock hdr.sender_id
    if admitted then deduplicate cfg clock channel_id body hdr else pure tt

  unfoldable pub process_found :
      Config → Clock → String → Bytes → Option FrameHeader → Exec Inbox (Unit {0})
  process_found cfg clock channel_id body none = pure tt
  process_found cfg clock channel_id body (some hdr) = process_header cfg clock channel_id body hdr

  unfoldable pub store_replica : Clock → Bytes → Option FrameHeader → Exec Inbox (Unit {0})
  store_replica clock inner none = pure tt
  store_replica clock inner (some hdr) = do
    inserted ← on_store (insert_message (replica clock hdr inner))
    modify (announce hdr.message_id hdr.sender_id)

  unfoldable pub handle_replication_frame : Clock → Pairs → Exec Inbox (Unit {0})
  handle_replication_frame clock ps s =
      let inner = replicated_frame ps [] in
      if nat_beq (length inner) 0 || message_exists s.store (replicated_id ps "")
      then (ok tt, s)
      else store_replica clock inner (parse_frame_header lib inner) s

  unfoldable pub poll_response : List StoredMessage → Bytes
  poll_response pending = lib.serialize (
      dict (
        add_pairs lib 2
          (("type", text "outbox_poll_response")
            ∷ ("messages", array (pending_entries lib pending))
            ∷ [])
          stop))

  -- The key in the poll is read and not used.
  unfoldable pub handle_outbox_poll : String → Exec Inbox (Unit {0})
  handle_outbox_poll channel_id s =
      attempt (send_frame reply channel_id (poll_response (get_pending s.store true))) s

  -- The handlers of single types read the frame again and find the same item.
  unfoldable pub route_frame : Config → Clock → String → Bytes → Pairs → Exec Inbox (Unit {0})
  route_frame cfg clock channel_id body ps =
      if frame_type ps == "inbox_replication_frame"
      then handle_replication_frame clock ps
      else if frame_type ps == "outbox_poll"
      then handle_outbox_poll channel_id
      else if frame_type ps == "inbox_replicate_ack"
          || (frame_type ps == "outbox_poll_ack" || frame_type ps == "outbox_poll_response")
      then pure tt
      else process_found cfg clock channel_id body (parse_frame_header lib body)

  unfoldable pub process_item :
      Config → Clock → String → Bytes → Option Item → Exec Inbox (Unit {0})
  process_item cfg clock channel_id body (some (dict ps)) = route_frame cfg clock channel_id body ps
  -- An item that is no map has no header either.
  process_item cfg clock channel_id body _ = pure tt

  unfoldable pub process_delivery_frame : Config → Clock → String → Bytes → Exec Inbox (Unit {0})
  unfolding process_item
  process_delivery_frame cfg clock channel_id body =
      process_item cfg clock channel_id body (lib.load body)

  unfoldable pub received_frame :
      Config → Clock → Option Value → Option Value → Exec Inbox (Unit {0})
  received_frame cfg clock (some (from_string channel_id)) (some (from_bytes body)) =
      process_delivery_frame cfg clock channel_id body
  received_frame cfg clock _ _ = pure tt

  unfoldable pub on_ar_push : Config → Clock → String → Fields → Exec Inbox (Unit {0})
  unfolding received_frame
  on_ar_push cfg clock event payload =
      if event == "frame.recv"
      then received_frame cfg clock (find_field "channel_id" payload) (find_field "payload" payload)
      else pure tt
