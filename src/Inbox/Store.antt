-- ===== src/Inbox/Store.antt =====
-- The tables of inbox/src/store.cpp and the statements on them.
-- SQLite is not in the repository. A table is its rows in the order in which they were inserted,
-- the order in which a scan returns them; `INSERT OR REPLACE` deletes the old row and inserts the
-- new one at the end. A statement that breaks a constraint throws and changes nothing, and a
-- transaction that throws is rolled back. An empty vector has no data pointer, so that `bind_blob`
-- of it binds NULL, which no blob column takes. `require_text` reads a text up to its first NUL.
use scatter_web_project.Common.{
  ℕ, suc, ◌/◌, Bytes, String, Bool, true, false, not, ◌&&◌, ◌||◌, Option, none, some, List, [], ◌∷◌,
  ◌++◌, map, ok, err, Exec, Assoc, erase, string_eq, bytes_eq, ◌==◌, ltb, nat_beq, if◌then◌else◌,
}
use scatter_web_project.Int.{ℤ, pos, ltb_ℤ}
use scatter_web_project.Cbor.{c_str}
use scatter_web_project.Ipc.Framing.{to_string}

pub record StoredMessage : Type 0 where
  pub message_id : String
  pub sender_id : String
  pub delivery_frame : Bytes
  pub persistence : String
  pub delivered_to_client : Bool
  pub replicated : Bool
  pub received_at_ms : ℤ
  pub expires_at : ℤ

pub record SiblingInbox : Type 0 where
  pub device_id : String
  pub key_c_pubkey : Bytes
  pub auth_cert : Bytes
  pub channel_id : String
  pub last_seen_ms : ℤ

pub record KnownOutbox : Type 0 where
  pub key_c_pubkey : Bytes
  pub auth_cert : Bytes
  pub expires_at : ℤ

pub record DhtCredentials : Type 0 where
  pub key_c_pubkey : Bytes
  pub key_c_privkey : Bytes
  pub auth_cert : Bytes
  pub delegation_cert : Bytes

-- One field for each table, and `retention_days_`. `replication_status` holds the keys of the rows
-- of sibling_replication_status, whose flag is always 1.
pub record InboxStore : Type 0 where
  pub stored_messages : List StoredMessage
  pub sibling_inboxes : List SiblingInbox
  pub replication_status : List (String × String)
  pub dht_credentials : Option DhtCredentials
  pub known_outboxes : List KnownOutbox
  pub allowed_senders : List String
  pub cr_guard_rate_limit : List (ℕ × ℕ)
  pub inbox_config : Assoc String String
  pub retention_days : ℕ

-- SQLITE_CONSTRAINT
abbrev pub constraint_error : String
constraint_error = "sqlite3_step failed: 19"

abbrev pub is_empty : Bytes → Bool
is_empty [] = true
is_empty (b ∷ bs) = false

-- The rows with another message id, and the change of those with this one.
unfoldable pub has_message : String → List StoredMessage → Bool
has_message id [] = false
has_message id (m ∷ ms) = m.message_id == id || has_message id ms

unfoldable pub find_message : String → List StoredMessage → Option StoredMessage
find_message id [] = none
find_message id (m ∷ ms) = if m.message_id == id then some m else find_message id ms

unfoldable pub select : (StoredMessage → Bool) → List StoredMessage → List StoredMessage
select test [] = []
select test (m ∷ ms) = let rest = select test ms in if test m then m ∷ rest else rest

-- What the `require_*` calls make of a row.
unfoldable pub row_of : StoredMessage → StoredMessage
row_of m = record m {
  message_id = c_str m.message_id;
  sender_id = c_str m.sender_id;
  persistence = c_str m.persistence;
}

unfoldable pub message_exists : InboxStore → String → Bool
message_exists st id = has_message id st.stored_messages

unfoldable pub insert_message : StoredMessage → Exec InboxStore Bool
insert_message msg st =
    if message_exists st msg.message_id
    then (ok false, st)
    else if is_empty msg.delivery_frame
    then (err constraint_error, st)
    else (ok true, record st { stored_messages = st.stored_messages ++ (msg ∷ []) })

row_found : Option StoredMessage → Option StoredMessage
row_found none = none
row_found (some m) = some (row_of m)

unfoldable pub get_message : InboxStore → String → Option StoredMessage
unfolding row_found
get_message st id = row_found (find_message id st.stored_messages)

unfoldable pub get_pending : InboxStore → Bool → List StoredMessage
get_pending st undelivered_only =
    map row_of (select (λ m. not undelivered_only || not m.delivered_to_client) st.stored_messages)

unfoldable pub delivered_row : String → ℤ → StoredMessage → StoredMessage
delivered_row id expires_at m =
    if m.message_id == id
    then record m { delivered_to_client = true; expires_at = expires_at }
    else m

unfoldable pub mark_delivered : String → ℤ → InboxStore → InboxStore
unfolding delivered_row
mark_delivered id expires_at st = record st {
  stored_messages = map (delivered_row id expires_at) st.stored_messages;
}

unfoldable pub delete_message : String → InboxStore → InboxStore
delete_message id st = record st {
  stored_messages = select (λ m. not (m.message_id == id)) st.stored_messages;
}

-- expires_at>0 AND expires_at<now_s
unfoldable pub has_expired : ℕ → StoredMessage → Bool
has_expired now_s m = ltb_ℤ (pos 0) m.expires_at && ltb_ℤ m.expires_at (pos now_s)

unfoldable pub delete_expired : ℕ → InboxStore → InboxStore
delete_expired now_s st = record st {
  stored_messages = select (λ m. not (has_expired now_s m)) st.stored_messages;
}

unfoldable pub other_siblings : String → List SiblingInbox → List SiblingInbox
other_siblings id [] = []
other_siblings id (s ∷ r) =
    let rest = other_siblings id r in if s.device_id == id then rest else s ∷ rest

unfoldable pub upsert_sibling : SiblingInbox → Exec InboxStore (Unit {0})
unfolding other_siblings
upsert_sibling sib st =
    if is_empty sib.key_c_pubkey || is_empty sib.auth_cert then (err constraint_error, st) else (
      ok tt,
      record st { sibling_inboxes = other_siblings sib.device_id st.sibling_inboxes ++ (sib ∷ []) },
    )

unfoldable pub remove_sibling : String → InboxStore → InboxStore
unfolding other_siblings
remove_sibling id st = record st { sibling_inboxes = other_siblings id st.sibling_inboxes }

sibling_row : SiblingInbox → SiblingInbox
sibling_row s = record s { device_id = c_str s.device_id; channel_id = c_str s.channel_id }

unfoldable pub list_siblings : InboxStore → List SiblingInbox
unfolding sibling_row
list_siblings st = map sibling_row st.sibling_inboxes

sibling_channel : String → String → SiblingInbox → SiblingInbox
sibling_channel device_id channel_id s =
    if s.device_id == device_id then record s { channel_id = channel_id } else s

unfoldable pub set_sibling_channel : String → String → InboxStore → InboxStore
unfolding sibling_channel
set_sibling_channel device_id channel_id st = record st {
  sibling_inboxes = map (sibling_channel device_id channel_id) st.sibling_inboxes;
}

other_statuses : String → String → List (String × String) → List (String × String)
other_statuses id device [] = []
other_statuses id device ((i, d) ∷ r) =
    let rest = other_statuses id device r in if i == id && d == device then rest else (i, d) ∷ rest

unfoldable pub set_sibling_replicated : String → String → InboxStore → InboxStore
unfolding other_statuses
set_sibling_replicated id device st = record st {
  replication_status = other_statuses id device st.replication_status ++ ((id, device) ∷ []);
}

-- The column delegation_cert has a default, which stands in for NULL and reads as an empty blob.
unfoldable pub set_dht_credentials : DhtCredentials → Exec InboxStore (Unit {0})
set_dht_credentials creds st =
    if is_empty creds.key_c_pubkey || (is_empty creds.key_c_privkey || is_empty creds.auth_cert)
    then (err constraint_error, st)
    else (ok tt, record st { dht_credentials = some creds })

known_key : Bytes → List KnownOutbox → Bool
known_key k [] = false
known_key k (o ∷ r) = o.key_c_pubkey == k || known_key k r

-- The inserts of `replace_known_outboxes`, behind those already made.
unfoldable pub insert_outboxes : List KnownOutbox → List KnownOutbox → Option (List KnownOutbox)
unfolding known_key
insert_outboxes rows [] = some rows
insert_outboxes rows (o ∷ r) =
    let rest = insert_outboxes (rows ++ (o ∷ [])) r in
    if known_key o.key_c_pubkey rows || (is_empty o.key_c_pubkey || is_empty o.auth_cert)
    then none
    else rest

unfoldable pub replace_known_outboxes : List KnownOutbox → Exec InboxStore (Unit {0})
unfolding insert_outboxes
replace_known_outboxes list st = elim (insert_outboxes [] list) [
  | none ↦ (err constraint_error, st)
  | some rows ↦ (ok tt, record st { known_outboxes = rows })
]

unfoldable pub has_sender : String → List String → Bool
has_sender id [] = false
has_sender id (i ∷ r) = i == id || has_sender id r

-- The inserts of `replace_allowed_senders`.
unfoldable pub insert_senders : List String → List String → Option (List String)
insert_senders rows [] = some rows
insert_senders rows (id ∷ r) =
    let rest = insert_senders (rows ++ (id ∷ [])) r in if has_sender id rows then none else rest

unfoldable pub replace_allowed_senders : List String → Exec InboxStore (Unit {0})
replace_allowed_senders ids st = elim (insert_senders [] ids) [
  | none ↦ (err constraint_error, st)
  | some rows ↦ (ok tt, record st { allowed_senders = rows })
]

unfoldable pub is_allowed_sender : InboxStore → String → Bool
is_allowed_sender st id = has_sender id st.allowed_senders

bucket_count : ℕ → List (ℕ × ℕ) → ℕ
bucket_count bucket [] = 0
bucket_count bucket ((b, n) ∷ r) = if nat_beq b bucket then n else bucket_count bucket r

unfoldable pub cr_guard_count_this_hour : InboxStore → ℕ → ℕ
unfolding bucket_count
cr_guard_count_this_hour st now_s = bucket_count (now_s / 3600) st.cr_guard_rate_limit

recent_buckets : ℕ → List (ℕ × ℕ) → List (ℕ × ℕ)
recent_buckets bucket [] = []
recent_buckets bucket ((b, n) ∷ r) =
    let rest = recent_buckets bucket r in if ltb b bucket then rest else (b, n) ∷ rest

count_in : ℕ → List (ℕ × ℕ) → List (ℕ × ℕ)
count_in bucket [] = (bucket, 1) ∷ []
count_in bucket ((b, n) ∷ r) =
    if nat_beq b bucket then (b, suc n) ∷ r else (b, n) ∷ count_in bucket r

unfoldable pub cr_guard_record : ℕ → InboxStore → InboxStore
unfolding recent_buckets count_in
cr_guard_record now_s st = record st {
  cr_guard_rate_limit =
      count_in (now_s / 3600) (recent_buckets (now_s / 3600) st.cr_guard_rate_limit);
}

-- The only caller has checked that `days` is from 1 to 365.
unfoldable pub set_retention_days : ℕ → InboxStore → InboxStore
set_retention_days days st = record st {
  retention_days = days;
  inbox_config =
      erase "retention_days" st.inbox_config ++ (("retention_days", to_string days) ∷ []);
}
