-- ===== src/Outbox/Store.antt =====
-- The queue of outbox/src/store.cpp: messages, their recipients' inboxes and the sibling outboxes.
-- A table is its rows in the order of insertion, as in Inbox/Store. The tables of hints and of the
-- configuration are not modelled, and neither is the insertion of messages.
use scatter_web_project.Common.{
  ℕ, Bytes, String, Bool, true, false, ◌&&◌, ◌||◌, Option, none, some, List, [], ◌∷◌, map,
  string_eq, bytes_eq, ◌==◌, ltb, leb, if◌then◌else◌,
}
use scatter_web_project.Int.{ℤ, pos, ltb_ℤ}
use scatter_web_project.Cbor.{c_str}

pub data MsgStatus : Type 0 where
  pending delivered expired cancelled : MsgStatus

-- Times are readings of the clock, in milliseconds; an expiry may be any int64_t. The time of the
-- next attempt is 0 while the message waits for a poll.
pub record QueuedMessage : Type 0 where
  pub message_id : String
  pub recipient_key_b_kem_pubkey_hex : String
  pub delivery_frame : Bytes
  pub priority : ℤ
  pub enqueued_at_ms : ℕ
  pub expires_at_ms : ℤ
  pub status : MsgStatus
  pub attempt_count : ℕ
  pub next_attempt_at : ℕ

pub record RecipientInbox : Type 0 where
  pub message_id : String
  pub key_c_pubkey : Bytes
  pub auth_cert : Bytes

pub record SiblingOutbox : Type 0 where
  pub device_id : String
  pub key_c_pubkey : Bytes
  pub auth_cert : Bytes
  pub channel_id : String
  pub last_seen_ms : ℤ

pub record OutboxStore : Type 0 where
  pub queued_messages : List QueuedMessage
  pub recipient_inboxes : List RecipientInbox
  pub sibling_outboxes : List SiblingOutbox

abbrev pub pending_status : MsgStatus → Bool
pending_status pending = true
pending_status delivered = false
pending_status expired = false
pending_status cancelled = false

-- status=0
unfoldable pub is_pending : QueuedMessage → Bool
is_pending m = pending_status m.status

unfoldable pub is_due : ℕ → QueuedMessage → Bool
is_due now_ms m = is_pending m && (ltb 0 m.next_attempt_at && leb m.next_attempt_at now_ms)

unfoldable pub rows_where : {A : Type 0} → (A → Bool) → List A → List A
rows_where test [] = []
rows_where test (m ∷ ms) = let rest = rows_where test ms in if test m then m ∷ rest else rest

unfoldable pub row_to_msg : QueuedMessage → QueuedMessage
row_to_msg m = record m {
  message_id = c_str m.message_id;
  recipient_key_b_kem_pubkey_hex = c_str m.recipient_key_b_kem_pubkey_hex;
}

unfoldable pub queued : String → List QueuedMessage → Option QueuedMessage
queued id [] = none
queued id (m ∷ ms) = if m.message_id == id then some m else queued id ms

row_read : Option QueuedMessage → Option QueuedMessage
row_read none = none
row_read (some m) = some (row_to_msg m)

unfoldable pub get_queued : OutboxStore → String → Option QueuedMessage
unfolding row_read
get_queued st id = row_read (queued id st.queued_messages)

unfoldable pub list_pending : OutboxStore → List QueuedMessage
list_pending st = map row_to_msg (rows_where is_pending st.queued_messages)

unfoldable pub list_due : ℕ → OutboxStore → List QueuedMessage
list_due now_ms st = map row_to_msg (rows_where (is_due now_ms) st.queued_messages)

-- UPDATE queued_messages SET ... WHERE message_id=?
unfoldable pub update_rows :
    String → (QueuedMessage → QueuedMessage) → List QueuedMessage → List QueuedMessage
update_rows id change [] = []
update_rows id change (m ∷ ms) =
    (if m.message_id == id then change m else m) ∷ update_rows id change ms

unfoldable pub set_status : String → MsgStatus → OutboxStore → OutboxStore
set_status id status st = record st {
  queued_messages = update_rows id (λ m. record m { status = status }) st.queued_messages;
}

unfoldable pub update_attempt : String → ℕ → ℕ → OutboxStore → OutboxStore
update_attempt id attempt_count next_at st = record st {
  queued_messages =
      update_rows id (λ m. record m { attempt_count = attempt_count; next_attempt_at = next_at })
        st.queued_messages;
}

expired_row : ℕ → QueuedMessage → QueuedMessage
expired_row now_ms m =
    if is_pending m && (ltb_ℤ (pos 0) m.expires_at_ms && ltb_ℤ m.expires_at_ms (pos now_ms))
    then record m { status = expired }
    else m

unfoldable pub expire_messages : ℕ → OutboxStore → OutboxStore
unfolding expired_row
expire_messages now_ms st = record st {
  queued_messages = map (expired_row now_ms) st.queued_messages;
}

recipient_row : RecipientInbox → RecipientInbox
recipient_row r = record r { message_id = c_str r.message_id }

unfoldable pub get_recipient_inboxes : OutboxStore → String → List RecipientInbox
unfolding recipient_row
get_recipient_inboxes st id =
    map recipient_row (rows_where (λ r. r.message_id == id) st.recipient_inboxes)

unfoldable pub known_recipient : String → Bytes → List RecipientInbox → Bool
known_recipient id key [] = false
known_recipient id key (r ∷ rs) =
    r.message_id == id && r.key_c_pubkey == key || known_recipient id key rs

unfoldable pub is_valid_recipient_inbox : OutboxStore → String → Bytes → Bool
is_valid_recipient_inbox st id key = known_recipient id key st.recipient_inboxes
