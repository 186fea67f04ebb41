-- ===== src/Inbox/Node.antt =====
-- The state of class `Inbox` (inbox/src/inbox.hpp) and its calls of the router.
-- The router is another process: what `ar_client_.call` returns or throws is the parameter
-- `reply`, a function of all the calls so far, the last one included. A call goes to the end of
-- `calls` and an event for the client to the end of `pushed`. The clock's readings are arguments.
use scatter_web_project.Common.{
  ℕ, Bytes, String, Bool, true, false, Option, none, some, List, [], ◌∷◌, ◌++◌, Result, ok, err,
  Exec, ◌>>=◌, lift, string_eq, ◌==◌, ◌&&◌, if◌then◌else◌,
}
use scatter_web_project.Ipc.Value.{
  Value, Values, Fields, from_uint, from_string, from_bytes, from_array, from_map, no_values, value,
  no_fields, put, find_field,
}
use scatter_web_project.Inbox.Store.{InboxStore}

pub record Call : Type 0 where
  pub method : String
  pub params : Fields

pub record Inbox : Type 0 where
  pub store : InboxStore
  pub calls : List Call
  pub pushed : List (String × Fields)

-- The settings that the daemon reads.
pub record Config : Type 0 where
  pub passthrough_timeout_s : ℕ
  pub cr_guard_rate_limit_hour : ℕ

-- A statement on the database.
unfoldable pub on_store : {A : Type 0} → Exec InboxStore A → Exec Inbox A
on_store f s = let done = f s.store in (done.0, record s { store = done.1 })

-- try { ... } catch (...) {}
unfoldable pub attempt : {A : Type 0} → Exec Inbox A → Exec Inbox (Unit {0})
attempt f s = (ok tt, (f s).1)

-- ipc_server_.push
unfoldable pub push : String → Fields → Inbox → Inbox
push event payload s = record s { pushed = s.pushed ++ ((event, payload) ∷ []) }

-- What the client is told of a message.
unfoldable pub announcement : String → String → String × Fields
announcement message_id sender_id = (
  "inbox.message_available",
  put "sender_id" (from_string sender_id) (put "message_id" (from_string message_id) no_fields),
)

unfoldable pub announce : String → String → Inbox → Inbox
announce message_id sender_id s =
    push (announcement message_id sender_id).0 (announcement message_id sender_id).1 s

-- An open channel to this key; `as_string` of another value throws.
unfoldable pub channel_id_of : Option Value → Result String
channel_id_of (some (from_string s)) = ok s
channel_id_of _ = err "std::get: wrong index for variant"

is_text : String → Option Value → Bool
is_text wanted (some (from_string s)) = s == wanted
is_text wanted _ = false

is_there : Option Value → Bool
is_there none = false
is_there (some v) = true

unfoldable pub matching_channel : String → Values → Option (Result String)
unfolding is_text is_there
matching_channel key no_values = none
matching_channel key (value (from_map m) r) =
    let rest = matching_channel key r in
    if is_text key (find_field "remote_pubkey" m)
      && (is_text "open" (find_field "state" m) && is_there (find_field "channel_id" m))
    then some (channel_id_of (find_field "channel_id" m))
    else rest
matching_channel key (value _ r) = matching_channel key r

unfoldable pub listed_channels : Option Value → Values
listed_channels (some (from_array vs)) = vs
listed_channels _ = no_values

unfoldable pub opened_channel : Option Value → Result String
opened_channel (some (from_string s)) = ok s
opened_channel _ = err "channel.open failed"

module _ (reply : List Call → Result Fields) where
  -- ar_client_.call
  unfoldable pub call : String → Fields → Exec Inbox Fields
  call method params s =
      let made = s.calls ++ (record { method = method; params = params } ∷ []) in
      (reply made, record s { calls = made })

  unfoldable pub send_frame : String → Bytes → Exec Inbox Fields
  send_frame channel_id payload =
      call "frame.send"
        (put "payload" (from_bytes payload) (put "channel_id" (from_string channel_id) no_fields))

  unfoldable pub new_call : String → Exec Inbox Fields
  new_call key = call "channel.open" (
      put "mode" (from_string "message")
        (put "anon_level" (from_uint 2) (put "remote_pubkey" (from_string key) no_fields)))

  unfoldable pub new_channel : String → Exec Inbox String
  new_channel key = do r ← new_call key; lift (opened_channel (find_field "channel_id" r))

  unfoldable pub use_channel : String → Option (Result String) → Exec Inbox String
  use_channel key none = new_channel key
  use_channel key (some found) = lift found

  unfoldable pub ensure_channel : String → Exec Inbox String
  ensure_channel key = do
    result ← call "channel.list" no_fields
    use_channel key (matching_channel key (listed_channels (find_field "channels" result)))

  -- What `guard_info` answers when the router does not.
  unfoldable pub guard_info : Inbox → Fields × Inbox
  guard_info s =
      let done = call "channel.list" no_fields s in
      (
        elim (done.0) [
          | ok m ↦ m
          | err e ↦ put "error" (from_string "anonrouter unavailable") no_fields
        ],
        done.1,
      )
