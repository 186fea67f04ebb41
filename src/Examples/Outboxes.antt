-- ===== src/Examples/Outboxes.antt =====
-- The theorems on the outbox at a queue with one message.
use scatter_web_project.Common.{
  ℕ, arith, ◌≤◌, ◌<◌, ◌≡◌, ◌⊎◌, refl, true, false, some, List, [], ◌∷◌, Result, ok, err, string_eq,
  bytes_eq,
}
use mathlib.Core.List.Memᴰ.{Memᴰ, head}
use scatter_web_project.Cbor.{c_str}
use scatter_web_project.Int.{pos}
use scatter_web_project.Ipc.Value.{Fields, from_string, no_fields, field, put, find_field}
use scatter_web_project.Inbox.Node.{Call, listed_channels, opened_channel}
use scatter_web_project.Outbox.Store.{
  QueuedMessage, pending, queued, get_recipient_inboxes, rows_where, is_due, is_pending, list_due,
  row_to_msg,
}
use scatter_web_project.Outbox.Node.{
  Outbox, RetryConfig, call_router, send_payload, open_new, reuse_or_open, outbox_channel,
  outbox_ensure_channel,
}
use scatter_web_project.Outbox.Retries.{
  deliver_to, returned, attempt_delivery, attempt_each, attempt_message, retry_message,
}
use scatter_web_project.Outbox.Requests.{broadcast_delivered, broadcast_delivered_none}
use scatter_web_project.Outbox.Retries.Schedule.{sent_stays_due, failed_rescheduled}

abbrev letter : QueuedMessage
letter = record {
  message_id = "m";
  recipient_key_b_kem_pubkey_hex = "aa";
  delivery_frame = 1 ∷ [];
  priority = pos 0;
  enqueued_at_ms = 1000;
  expires_at_ms = pos 604801000;
  status = pending;
  attempt_count = 1;
  next_attempt_at = 61000;
}

abbrev queue : Outbox
queue = record {
  store = record {
    queued_messages = letter ∷ [];
    recipient_inboxes = record { message_id = "m"; key_c_pubkey = 7 ∷ []; auth_cert = 8 ∷ [] } ∷ [];
    sibling_outboxes = [];
  };
  calls = [];
  pushed = [];
}

abbrev retries : RetryConfig
retries = record { retry_window_s = 600; max_retries = 3 }

abbrev willing : List Call → Result Fields
willing calls = ok (field "channel_id" (from_string "c") no_fields)

abbrev absent_router : List Call → Result Fields
absent_router calls = err "IPC client not connected: channel.list"

letter_taken : (attempt_message willing letter queue).0 ≡ true
unfolding attempt_message attempt_each attempt_delivery deliver_to returned get_recipient_inboxes
    rows_where outbox_ensure_channel reuse_or_open open_new outbox_channel listed_channels
    opened_channel send_payload call_router find_field put
letter_taken = refl

letter_refused : (attempt_message absent_router letter queue).0 ≡ false
unfolding attempt_message attempt_each attempt_delivery deliver_to returned get_recipient_inboxes
    rows_where outbox_ensure_channel call_router
letter_refused = refl

letter_due : Memᴰ letter (list_due 61000 queue.store)
unfolding list_due rows_where is_due row_to_msg is_pending c_str
letter_due = head refl

sent_stays_due_example :
    ((retry_message willing retries 61000 letter queue).store ≡ queue.store)
    × Memᴰ letter (list_due 66000 (retry_message willing retries 61000 letter queue).store)
sent_stays_due_example =
    sent_stays_due willing retries 61000 66000 letter queue (omega arith) letter_due letter_taken

letter_there : queued letter.message_id queue.store.queued_messages ≡ some letter
unfolding queued
letter_there = refl

failed_rescheduled_example :
    (next : ℕ) × (queued "m"
        (retry_message absent_router retries 61000 letter queue).store.queued_messages
      ≡ some (record letter { attempt_count = 2; next_attempt_at = next }))
    × ((next ≡ 0) ⊎ (121000 ≤ next) × (next ≤ 1021000) × (2 < 3))
failed_rescheduled_example =
    failed_rescheduled absent_router retries 61000 letter letter queue letter_refused letter_there

broadcast_delivered_none_example : broadcast_delivered queue.store "m" ≡ 0
broadcast_delivered_none_example = broadcast_delivered_none queue.store "m"
