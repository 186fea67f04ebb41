-- ===== src/Outbox/Delivery.antt =====
-- What the outbox of outbox/src/outbox.cpp does with the frames that arrive: acknowledgements of
-- inboxes and their polls.
use scatter_web_project.Common.{
  Bytes, String, ◌||◌, Option, some, List, [], ◌∷◌, Result, ok, Exec, pure, modify, length, nat_beq,
  string_eq, ◌==◌, if◌then◌else◌,
}
use scatter_web_project.Cbor.{
  Item, Items, Pairs, bytestring, text, array, dict, stop, pair, nil, cons, Libcbor, c_str,
  add_pairs,
}
use scatter_web_project.Ipc.Value.{Value, Fields, from_string, from_bytes, find_field}
use scatter_web_project.Inbox.Frame.{frame_type, replicated_id}
use scatter_web_project.Inbox.Node.{Call}
use scatter_web_project.Outbox.Store.{
  QueuedMessage, OutboxStore, delivered, rows_where, list_pending, set_status,
  is_valid_recipient_inbox,
}
use scatter_web_project.Outbox.Node.{Outbox, announce_delivered, send_payload}

-- The last byte string under this key.
unfoldable pub key_field : Pairs → Bytes → Bytes
key_field stop key = key
key_field (pair (text k) (bytestring b) r) key =
    key_field r (if k == "inbox_key_c_pubkey" then b else key)
key_field (pair _ v r) key = key_field r key

unfoldable pub deliver : String → Outbox → Outbox
deliver id s = announce_delivered id (record s { store = set_status id delivered s.store })

unfoldable pub handle_delivery_ack : Pairs → Outbox → Outbox
handle_delivery_ack ps s =
    let id = replicated_id ps "" in
    let key = key_field ps [] in
    if id == "" || nat_beq (length key) 0
    then s
    else if is_valid_recipient_inbox s.store id key
    then deliver id s
    else s

unfoldable pub deliver_each : Items → Outbox → Outbox
deliver_each nil s = s
deliver_each (cons (text id) r) s = deliver_each r (deliver id s)
deliver_each (cons _ r) s = deliver_each r s

unfoldable pub handle_poll_ack : Pairs → Outbox → Outbox
handle_poll_ack stop s = s
handle_poll_ack (pair (text k) (array items) r) s =
    handle_poll_ack r (if k == "message_ids" then deliver_each items s else s)
handle_poll_ack (pair _ v r) s = handle_poll_ack r s

unfoldable pub queued_entries : Libcbor → List QueuedMessage → Items
queued_entries lib [] = nil
queued_entries lib (m ∷ ms) =
    cons
      (dict (
        add_pairs lib 2
          (("message_id", text (c_str m.message_id))
            ∷ ("delivery_frame", bytestring m.delivery_frame)
            ∷ [])
          stop))
      (queued_entries lib ms)

-- The pending messages of which this inbox is a recipient.
unfoldable pub messages_for : OutboxStore → Bytes → List QueuedMessage
messages_for st key =
    rows_where (λ m. is_valid_recipient_inbox st m.message_id key) (list_pending st)

module _ (lib : Libcbor) (reply : List Call → Result Fields) where
  unfoldable pub queued_bytes : List QueuedMessage → Bytes
  queued_bytes messages = lib.serialize (
      dict (
        add_pairs lib 2
          (("type", text "outbox_poll_response")
            ∷ ("messages", array (queued_entries lib messages))
            ∷ [])
          stop))

  unfoldable pub answer_poll : String → Pairs → Exec Outbox (Unit {0})
  answer_poll channel_id ps s =
      let key = key_field ps [] in
      if nat_beq (length key) 0
      then (ok tt, s)
      else (ok tt, (send_payload reply channel_id (queued_bytes (messages_for s.store key)) s).1)

  unfoldable pub route_outbox_frame : String → Pairs → Exec Outbox (Unit {0})
  route_outbox_frame channel_id ps =
      if frame_type ps == "delivery_ack"
      then modify (handle_delivery_ack ps)
      else if frame_type ps == "outbox_poll"
      then answer_poll channel_id ps
      else if frame_type ps == "outbox_poll_ack"
      then modify (handle_poll_ack ps)
      else pure tt

  on_item : String → Option Item → Exec Outbox (Unit {0})
  on_item channel_id (some (dict ps)) = route_outbox_frame channel_id ps
  on_item channel_id _ = pure tt

  unfoldable pub on_frame : String → Bytes → Exec Outbox (Unit {0})
  unfolding on_item
  on_frame channel_id body = on_item channel_id (lib.load body)

  pushed_frame : Option Value → Option Value → Exec Outbox (Unit {0})
  pushed_frame (some (from_string channel_id)) (some (from_bytes body)) = on_frame channel_id body
  pushed_frame _ _ = pure tt

  unfoldable pub on_router_push : String → Fields → Exec Outbox (Unit {0})
  unfolding pushed_frame
  on_router_push event payload =
      if event == "frame.recv"
      then pushed_frame (find_field "channel_id" payload) (find_field "payload" payload)
      else pure tt
