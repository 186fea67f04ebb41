-- ===== src/Inbox/Requests.antt =====
-- The requests that the inbox answers to its client: inbox/src/ipc_handler.cpp.
use Prim.Native.String.{◌++◌ as text_append}
use scatter_web_project.Common.{
  ℕ, ◌+◌, ◌*◌, Bytes, String, Bool, true, false, ◌||◌, Option, none, some, List, [], ◌∷◌, length,
  Result, ok, err, Exec, ◌>>=◌, pure, throw, lift, modify, string_eq, ◌==◌, ltb, if◌then◌else◌,
}
use scatter_web_project.Int.{ℤ, pos, as_int32, as_int64}
use scatter_web_project.Ipc.Value.{
  Value, Values, Fields, from_bool, from_uint, from_string, from_bytes, from_array, from_map,
  no_values, value, no_fields, field, put, find_field,
}
use scatter_web_project.Inbox.Store.{
  StoredMessage, SiblingInbox, KnownOutbox, DhtCredentials, InboxStore, get_message, get_pending,
  mark_delivered, delete_message, upsert_sibling, remove_sibling, set_dht_credentials,
  replace_known_outboxes, replace_allowed_senders, set_retention_days,
}
use scatter_web_project.Inbox.Node.{Inbox, Call, on_store, guard_info}

text_of : String → Option Value → Result String
text_of k (some (from_string s)) = ok s
text_of k _ = err (text_append "missing param: " k)

bytes_of : String → Option Value → Result Bytes
bytes_of k (some (from_bytes b)) = ok b
bytes_of k _ = err (text_append "missing param: " k)

unfoldable pub req_string : Fields → String → Result String
unfolding text_of
req_string p k = text_of k (find_field k p)

unfoldable pub req_bytes : Fields → String → Result Bytes
unfolding bytes_of
req_bytes p k = bytes_of k (find_field k p)

-- {"ok", true}
abbrev pub done : Fields
done = field "ok" (from_bool true) no_fields

unfoldable pub message_ids : List StoredMessage → Values
message_ids [] = no_values
message_ids (m ∷ ms) = value (from_string m.message_id) (message_ids ms)

unfoldable pub get_pending_request : Exec Inbox Fields
get_pending_request s =
    (ok (put "message_ids" (from_array (message_ids (get_pending s.store true))) no_fields), s)

unfoldable pub found_message : String → Option StoredMessage → Result StoredMessage
found_message id none = err (text_append "message not found: " id)
found_message id (some m) = ok m

unfoldable pub message_fields : StoredMessage → Fields
message_fields m = put "persistence" (from_string m.persistence) (
    put "delivery_frame" (from_bytes m.delivery_frame) (
      put "sender_id" (from_string m.sender_id)
        (put "message_id" (from_string m.message_id) no_fields)))

unfoldable pub get_message_request : Fields → Exec Inbox Fields
unfolding found_message
get_message_request p = do
  id ← lift (req_string p "message_id")
  msg ← (λ s. (found_message id (get_message s.store id), s))
  pure (message_fields msg)

-- What an acknowledged message becomes: a pass_through one goes, the others are kept for the
-- retention time.
unfoldable pub acknowledge : ℕ → String → StoredMessage → InboxStore → InboxStore
acknowledge now_s id msg st =
    if msg.persistence == "pass_through"
    then delete_message id st
    else mark_delivered id (pos (now_s + st.retention_days * 86400)) st

unfoldable pub ack : ℕ → Fields → Exec Inbox Fields
unfolding found_message
ack now_s p = do
  id ← lift (req_string p "message_id")
  msg ← (λ s. (found_message id (get_message s.store id), s))
  changed ← modify (λ s. record s { store = acknowledge now_s id msg s.store })
  pure (put "ok" (from_bool true) (put "message_id" (from_string id) no_fields))

unfoldable pub update_dht_delegation : Fields → Exec Inbox Fields
update_dht_delegation p = do
  public ← lift (req_bytes p "key_c_pubkey")
  private ← lift (req_bytes p "key_c_privkey")
  auth_cert ← lift (req_bytes p "auth_cert")
  delegation_cert ← lift (req_bytes p "delegation_cert")
  set ← on_store (
      set_dht_credentials (record {
        key_c_pubkey = public;
        key_c_privkey = private;
        auth_cert = auth_cert;
        delegation_cert = delegation_cert;
      }))
  pure done

expires_of : Option Value → ℤ
expires_of (some (from_uint n)) = as_int64 n
expires_of _ = pos 0

-- An entry without both byte strings is left out.
outbox_of : Option Value → Option Value → Option Value → Option KnownOutbox
unfolding expires_of
outbox_of (some (from_bytes k)) (some (from_bytes a)) e =
    some (record { key_c_pubkey = k; auth_cert = a; expires_at = expires_of e })
outbox_of _ _ e = none

listed : Option KnownOutbox → List KnownOutbox → List KnownOutbox
listed none r = r
listed (some o) r = o ∷ r

unfoldable pub outboxes_of : Values → List KnownOutbox
unfolding outbox_of listed
outboxes_of no_values = []
outboxes_of (value (from_map m) r) =
    listed
      (outbox_of (find_field "key_c_pubkey" m) (find_field "auth_cert" m)
        (find_field "expires_at" m))
      (outboxes_of r)
outboxes_of (value _ r) = outboxes_of r

unfoldable pub array_param : String → Option Value → Result Values
array_param text (some (from_array vs)) = ok vs
array_param text _ = err text

unfoldable pub update_contact_outboxes : Fields → Exec Inbox Fields
update_contact_outboxes p = do
  arr ← lift (array_param "outboxes must be an array" (find_field "outboxes" p))
  set ← on_store (replace_known_outboxes (outboxes_of arr))
  pure done

unfoldable pub texts_of : Values → List String
texts_of no_values = []
texts_of (value (from_string s) r) = s ∷ texts_of r
texts_of (value _ r) = texts_of r

unfoldable pub update_sender_allowlist : Fields → Exec Inbox Fields
update_sender_allowlist p = do
  arr ← lift (array_param "sender_ids must be an array" (find_field "sender_ids" p))
  set ← on_store (replace_allowed_senders (texts_of arr))
  pure done

optional_text : Option Value → String
optional_text (some (from_string s)) = s
optional_text _ = ""

-- The device id is taken as it is given.
unfoldable pub new_sibling : Fields → Bytes → Bytes → SiblingInbox
unfolding optional_text
new_sibling p public auth_cert = record {
  device_id = optional_text (find_field "device_id" p);
  key_c_pubkey = public;
  auth_cert = auth_cert;
  channel_id = "";
  last_seen_ms = pos 0;
}

unfoldable pub add_sibling : Fields → Exec Inbox Fields
add_sibling p = do
  public ← lift (req_bytes p "key_c_pubkey")
  auth_cert ← lift (req_bytes p "auth_cert")
  set ← on_store (upsert_sibling (new_sibling p public auth_cert))
  pure done

unfoldable pub remove_sibling_request : Fields → Exec Inbox Fields
remove_sibling_request p = do
  id ← lift (req_string p "device_id")
  removed ← modify (λ s. record s { store = remove_sibling id s.store })
  pure done

unfoldable pub days_of : Option Value → Result ℤ
days_of (some (from_uint n)) = ok (as_int32 n)
days_of _ = err "days must be uint"

unfoldable pub in_range : ℤ → Result ℕ
in_range (pos n) = if ltb n 1 || ltb 365 n then err "days out of range" else ok n
in_range _ = err "days out of range"

unfoldable pub set_retention_days_request : Fields → Exec Inbox Fields
unfolding days_of in_range
set_retention_days_request p = do
  given ← lift (days_of (find_field "days" p))
  days ← lift (in_range given)
  set ← modify (λ s. record s { store = set_retention_days days s.store })
  pure done

has_credentials : Option DhtCredentials → Bool
has_credentials none = false
has_credentials (some creds) = true

unfoldable pub status : Exec Inbox Fields
unfolding has_credentials
status s = (
  ok (
      put "renewal_needed" (from_bool false) (
        put "has_credentials" (from_bool (has_credentials s.store.dht_credentials))
          (put "pending_count" (from_uint (length (get_pending s.store true))) no_fields))),
  s,
)

unfoldable pub handle : (List Call → Result Fields) → ℕ → String → Fields → Exec Inbox Fields
handle reply now_s method params =
    if method == "inbox.get_pending"
    then get_pending_request
    else if method == "inbox.get"
    then get_message_request params
    else if method == "inbox.ack"
    then ack now_s params
    else if method == "inbox.guard_info"
    then (λ s. (ok (guard_info reply s).0, (guard_info reply s).1))
    else if method == "inbox.update_dht_delegation"
    then update_dht_delegation params
    else if method == "inbox.update_contact_outboxes"
    then update_contact_outboxes params
    else if method == "inbox.update_sender_allowlist"
    then update_sender_allowlist params
    else if method == "inbox.add_sibling"
    then add_sibling params
    else if method == "inbox.remove_sibling"
    then remove_sibling_request params
    else if method == "inbox.set_retention_days"
    then set_retention_days_request params
    else if method == "inbox.status"
    then status
    else throw (text_append "unknown method: " method)
