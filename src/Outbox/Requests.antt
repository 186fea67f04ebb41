-- ===== src/Outbox/Requests.antt =====
-- The requests of outbox/src/ipc_handler.cpp that read the queue, and `cancel`. Enqueueing is not
-- modelled.
use Prim.Native.Char.{code}
use scatter_web_project.Common.{
  ℕ, suc, ◌≡◌, refl, String, Bool, true, false, ◌&&◌, Option, none, some, List, [], ◌∷◌, map, inl,
  inr, Result, ok, err, Exec, ◌>>=◌, pure, lift, modify, length, string_eq, nat_eq, ◌==◌,
  if◌then◌else◌, Bool-cases, arith,
}
use scatter_web_project.Cbor.{c_str}
use scatter_web_project.Int.{as_uint64}
use scatter_web_project.Ipc.Value.{
  Values, Fields, from_bool, from_uint, from_string, from_array, from_map, no_values, value,
  no_fields, put,
}
use scatter_web_project.Inbox.Requests.{req_string}
use scatter_web_project.Outbox.Store.{
  MsgStatus, pending, delivered, expired, cancelled, QueuedMessage, OutboxStore, pending_status,
  is_pending, rows_where, row_to_msg, queued, get_queued, list_pending, set_status,
}
use scatter_web_project.Outbox.Node.{Outbox}

unfoldable pub status_text : MsgStatus → String
status_text pending = "pending"
status_text delivered = "delivered"
status_text expired = "expired"
status_text cancelled = "cancelled"

status_of : String → Option QueuedMessage → Result Fields
status_of id none = err "MESSAGE_NOT_FOUND"
status_of id (some m) = ok (
    put "attempt_count" (from_uint m.attempt_count) (
      put "status" (from_string (status_text m.status))
        (put "message_id" (from_string id) no_fields)))

unfoldable pub queue_status : Fields → Exec Outbox Fields
unfolding status_of
queue_status p = do
  id ← lift (req_string p "message_id")
  λ s. (status_of id (get_queued s.store id), s)

-- m.message_id.rfind(base_id, 0) == 0
unfoldable pub starts_with : String → String → Bool
starts_with String.[] s = true
starts_with (String.◌∷◌ c base) String.[] = false
starts_with (String.◌∷◌ c base) (String.◌∷◌ d s) = code c == code d && starts_with base s

abbrev delivered_status : MsgStatus → Bool
delivered_status pending = false
delivered_status delivered = true
delivered_status expired = false
delivered_status cancelled = false

unfoldable pub is_delivered : QueuedMessage → Bool
is_delivered m = delivered_status m.status

unfoldable pub count_where : (QueuedMessage → Bool) → List QueuedMessage → ℕ
count_where test [] = 0
count_where test (m ∷ ms) = let rest = count_where test ms in if test m then suc rest else rest

unfoldable pub broadcast_delivered : OutboxStore → String → ℕ
broadcast_delivered st base_id =
    count_where (λ m. starts_with base_id m.message_id && is_delivered m) (list_pending st)

unfoldable pub broadcast_status : Fields → Exec Outbox Fields
broadcast_status p = do
  base_id ← lift (req_string p "message_id")
  λ s. (
    ok (
        put "delivered" (from_uint (broadcast_delivered s.store base_id)) (
          put "total"
            (from_uint (count_where (λ m. starts_with base_id m.message_id) (list_pending s.store)))
            (put "message_id" (from_string base_id) no_fields))),
    s,
  )

found_queued : Option QueuedMessage → Result (Unit {0})
found_queued none = err "MESSAGE_NOT_FOUND"
found_queued (some m) = ok tt

unfoldable pub cancel : Fields → Exec Outbox Fields
unfolding found_queued
cancel p = do
  id ← lift (req_string p "message_id")
  there ← (λ (s : Outbox). (found_queued (queued id s.store.queued_messages), s))
  changed ← modify (λ s. record s { store = set_status id cancelled s.store })
  pure (put "ok" (from_bool true) (put "message_id" (from_string id) no_fields))

unfoldable pub pending_fields : List QueuedMessage → Values
pending_fields [] = no_values
pending_fields (m ∷ ms) =
    value
      (from_map (
        put "expires_at_ms" (from_uint (as_uint64 m.expires_at_ms)) (
          put "attempt_count" (from_uint m.attempt_count)
            (put "message_id" (from_string m.message_id) no_fields))))
      (pending_fields ms)

unfoldable pub list_pending_request : Exec Outbox Fields
list_pending_request s =
    (ok (put "messages" (from_array (pending_fields (list_pending s.store))) no_fields), s)

unfoldable pub stats : Exec Outbox Fields
stats s = (ok (put "pending_count" (from_uint (length (list_pending s.store))) no_fields), s)

apart : (status : MsgStatus) → pending_status status ≡ true → delivered_status status ≡ false
apart pending h = refl
apart delivered h = absurd (cc)
apart expired h = refl
apart cancelled h = refl

not_delivered :
    (m : QueuedMessage) (b : Bool)
    → is_pending m ≡ true
    → (b && is_delivered (row_to_msg m)) ≡ false
unfolding is_pending is_delivered row_to_msg
not_delivered m b h = rw (apart m.status h) (ground arith)

none_delivered :
    (base_id : String) (ms : List QueuedMessage)
    → count_where
        (λ m. starts_with base_id m.message_id && is_delivered m)
        (map row_to_msg (rows_where is_pending ms))
      ≡ 0
unfolding count_where rows_where row_to_msg
none_delivered base_id [] = refl
none_delivered base_id (m ∷ ms) = elim (Bool-cases (is_pending m)) [
  | inl waits ↦ rw waits (
      rw (not_delivered m (starts_with base_id (c_str m.message_id)) waits)
        (none_delivered base_id ms))
  | inr other ↦ rw other (none_delivered base_id ms)
]

-- Whatever is in the queue, `outbox.broadcast_status` counts no delivered message.
pub broadcast_delivered_none :
    (st : OutboxStore) (base_id : String) → broadcast_delivered st base_id ≡ 0
unfolding broadcast_delivered list_pending
broadcast_delivered_none st base_id = none_delivered base_id st.queued_messages
