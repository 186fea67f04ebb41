-- ===== src/Outbox/Retries.antt =====
-- The attempts of outbox/src/outbox.cpp to deliver the queued messages, and when they are repeated.
-- The product of the window and 1000 is taken without the wrap-around of an int32_t.
pub mod Schedule
use scatter_web_project.Common.{
  ℕ, suc, ◌+◌, ◌-◌, ◌*◌, ◌^◌, Bytes, String, Bool, true, false, ◌||◌, not, Option, none, some, List,
  [], ◌∷◌, Result, ok, err, Exec, ◌>>=◌, ◌>>◌, pure, modify, ltb, leb, if◌then◌else◌,
}
use scatter_web_project.Int.{as_uint64}
use scatter_web_project.Hex.{to_hex}
use scatter_web_project.Cbor.{
  Item, Items, bytestring, text, array, dict, stop, nil, cons, uint64, Libcbor, c_str, add_pairs,
}
use scatter_web_project.Ipc.Value.{Fields}
use scatter_web_project.Inbox.Node.{Call}
use scatter_web_project.Outbox.Store.{
  QueuedMessage, RecipientInbox, SiblingOutbox, OutboxStore, is_pending, get_queued, list_pending,
  list_due, update_attempt, get_recipient_inboxes, expire_messages,
}
use scatter_web_project.Outbox.Node.{Outbox, RetryConfig, send_payload, outbox_ensure_channel}

-- std::min
unfoldable pub min : ℕ → ℕ → ℕ
min a b = if ltb b a then b else a

-- 60 s, 120 s, 240 s and so on, in milliseconds, for an attempt of this number.
unfoldable pub retry_delay : ℕ → ℕ
retry_delay count = 60 * 2 ^ min (count - 1) 4 * 1000

-- Whether the message then only waits to be polled for.
unfoldable pub gives_up : RetryConfig → (elapsed_from since now_ms count : ℕ) → Bool
gives_up cfg elapsed_from since now_ms count =
    ltb (since + cfg.retry_window_s * 1000) (now_ms + elapsed_from) || leb cfg.max_retries count

module _ (reply : List Call → Result Fields) where
  unfoldable pub deliver_to : QueuedMessage → RecipientInbox → Exec Outbox Fields
  deliver_to msg ri = do
    chan ← outbox_ensure_channel reply (to_hex ri.key_c_pubkey)
    send_payload reply chan msg.delivery_frame

  unfoldable pub returned : {A : Type 0} → Result A × Outbox → Bool × Outbox
  returned (ok a, s) = (true, s)
  returned (err e, s) = (false, s)

  -- False where the source catches an exception.
  unfoldable pub attempt_delivery : QueuedMessage → RecipientInbox → Outbox → Bool × Outbox
  unfolding deliver_to returned
  attempt_delivery msg ri s = returned (deliver_to msg ri s)

  -- The inboxes in turn, until one takes the message.
  unfoldable pub attempt_each : QueuedMessage → List RecipientInbox → Outbox → Bool × Outbox
  attempt_each msg [] s = (false, s)
  attempt_each msg (ri ∷ rs) s =
      let (taken, t) = attempt_delivery msg ri s in
      let rest = attempt_each msg rs t in if taken then (true, t) else rest

  unfoldable pub attempt_message : QueuedMessage → Outbox → Bool × Outbox
  attempt_message msg s = attempt_each msg (get_recipient_inboxes s.store msg.message_id) s

  unfoldable pub startup_burst : List QueuedMessage → Outbox → Outbox
  startup_burst [] s = s
  startup_burst (m ∷ ms) s = startup_burst ms (attempt_message m s).1

  -- What a failed attempt of `retry_loop` leaves in the queue.
  unfoldable pub reschedule : RetryConfig → ℕ → QueuedMessage → Outbox → Outbox
  reschedule cfg now_ms msg s =
      let count = suc msg.attempt_count in
      record s {
        store =
            update_attempt msg.message_id count
              (if gives_up cfg 0 msg.enqueued_at_ms now_ms count
                then 0
                else now_ms + retry_delay count)
              s.store;
      }

  unfoldable pub retry_message : RetryConfig → ℕ → QueuedMessage → Outbox → Outbox
  retry_message cfg now_ms msg s =
      let (taken, t) = attempt_message msg s in if taken then t else reschedule cfg now_ms msg t

  unfoldable pub retry_messages : RetryConfig → ℕ → List QueuedMessage → Outbox → Outbox
  retry_messages cfg now_ms [] s = s
  retry_messages cfg now_ms (m ∷ ms) s = retry_messages cfg now_ms ms (retry_message cfg now_ms m s)

  -- One round of `retry_loop`, with one reading of the clock.
  unfoldable pub retry_round : RetryConfig → ℕ → Outbox → Outbox
  retry_round cfg now_ms s = retry_messages cfg now_ms (list_due now_ms s.store) s

  -- `immediate_attempt` counts the coming delay into the window.
  reschedule_first : RetryConfig → ℕ → QueuedMessage → Outbox → Outbox
  reschedule_first cfg now_ms msg s =
      let count = suc msg.attempt_count in
      let delay = retry_delay count in
      record s {
        store =
            update_attempt msg.message_id count
              (if gives_up cfg delay msg.enqueued_at_ms now_ms count then 0 else now_ms + delay)
              s.store;
      }

  unfoldable pub first_attempt : RetryConfig → ℕ → QueuedMessage → Outbox → Outbox
  unfolding reschedule_first
  first_attempt cfg now_ms msg s =
      let (taken, t) = attempt_message msg s in
      if taken then t else reschedule_first cfg now_ms msg t

  unfoldable pub recipient_entries : Libcbor → List RecipientInbox → Items
  recipient_entries lib [] = nil
  recipient_entries lib (ri ∷ rs) =
      cons
        (dict (
          add_pairs lib 2
            (("inbox_key_c_pubkey", bytestring ri.key_c_pubkey)
              ∷ ("auth_cert", bytestring ri.auth_cert)
              ∷ [])
            stop))
        (recipient_entries lib rs)

  unfoldable pub copy_bytes : Libcbor → QueuedMessage → List RecipientInbox → String → Bytes
  copy_bytes lib msg inboxes message_id = lib.serialize (
      dict (
        add_pairs lib 5
          (("type", text "outbox_replication_frame")
            ∷ ("message_id", text (c_str message_id))
            ∷ ("delivery_frame", bytestring msg.delivery_frame)
            ∷ ("expires_at", uint64 (as_uint64 msg.expires_at_ms))
            ∷ ("recipient_inboxes", array (recipient_entries lib inboxes))
            ∷ [])
          stop))

  copy_to : Bytes → SiblingOutbox → Exec Outbox Fields
  copy_to payload sib = do
    chan ← outbox_ensure_channel reply (to_hex sib.key_c_pubkey)
    send_payload reply chan payload

  -- An exception of one sibling does not stop the others.
  unfoldable pub copy_each : Bytes → List SiblingOutbox → Outbox → Outbox
  unfolding copy_to
  copy_each payload [] s = s
  copy_each payload (sib ∷ r) s = copy_each payload r (copy_to payload sib s).1

  unfoldable pub copy_to_siblings : Libcbor → String → Option QueuedMessage → Outbox → Outbox
  copy_to_siblings lib message_id none s = s
  copy_to_siblings lib message_id (some msg) s =
      copy_each (copy_bytes lib msg (get_recipient_inboxes s.store message_id) message_id)
        s.store.sibling_outboxes s

  attempt_found : Libcbor → RetryConfig → ℕ → String → Option QueuedMessage → Outbox → Outbox
  attempt_found lib cfg now_ms message_id none s = s
  attempt_found lib cfg now_ms message_id (some msg) s =
      let t = first_attempt cfg now_ms msg s in
      let copied = copy_to_siblings lib message_id (get_queued t.store message_id) t in
      if is_pending msg then copied else s

  -- What follows an enqueue.
  unfoldable pub immediate_attempt : Libcbor → RetryConfig → ℕ → String → Outbox → Outbox
  unfolding attempt_found
  immediate_attempt lib cfg now_ms message_id s =
      attempt_found lib cfg now_ms message_id (get_queued s.store message_id) s

  -- What `start` does once its threads and sockets are there.
  unfoldable pub start_burst : Outbox → Outbox
  start_burst s = startup_burst (list_pending s.store) s

-- One round of `maintenance_loop`.
unfoldable pub outbox_maintenance : ℕ → Outbox → Outbox
outbox_maintenance now_ms s = record s { store = expire_messages now_ms s.store }
