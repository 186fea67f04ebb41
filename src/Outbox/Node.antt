-- ===== src/Outbox/Node.antt =====
-- The state of class `Outbox` (outbox/src/outbox.hpp) and its calls of the router, whose answers are a
-- function of all the calls so far, as in Inbox/Node.
use scatter_web_project.Common.{
  ℕ, Bytes, String, Bool, true, false, Option, none, some, List, [], ◌∷◌, ◌++◌, Result, ok, err,
  Exec, ◌>>=◌, lift, string_eq, ◌==◌, if◌then◌else◌,
}
use scatter_web_project.Ipc.Value.{
  Value, Values, Fields, from_uint, from_string, from_bytes, from_map, no_values, value, no_fields,
  put, find_field,
}
use scatter_web_project.Inbox.Node.{Call, channel_id_of, listed_channels, opened_channel}
use scatter_web_project.Outbox.Store.{OutboxStore}

pub record Outbox : Type 0 where
  pub store : OutboxStore
  pub calls : List Call
  pub pushed : List (String × Fields)

pub record RetryConfig : Type 0 where
  pub retry_window_s : ℕ
  pub max_retries : ℕ

-- outbox.status_update: what the client is told of a delivered message.
unfoldable pub announce_delivered : String → Outbox → Outbox
announce_delivered id s = record s {
  pushed =
      s.pushed
      ++ ((
        "outbox.status_update",
        put "status" (from_string "delivered") (put "message_id" (from_string id) no_fields),
      )
          ∷ []);
}

is_key : String → Option Value → Bool
is_key key (some (from_string s)) = s == key
is_key key _ = false

is_there : Option Value → Bool
is_there none = false
is_there (some v) = true

-- `state` is read as a text without a test, and another value throws.
entry_open : Option Value → Result Bool
entry_open none = ok false
entry_open (some (from_string s)) = ok (s == "open")
entry_open (some _) = err "std::get: wrong index for variant"

found_entry : Result Bool → Option Value → Option (Result String) → Option (Result String)
found_entry (err e) id rest = some (err e)
found_entry (ok true) (some v) rest = some (channel_id_of (some v))
found_entry (ok _) id rest = rest

unfoldable pub outbox_channel : String → Values → Option (Result String)
unfolding is_key entry_open found_entry
outbox_channel key no_values = none
outbox_channel key (value (from_map m) r) =
    let rest = outbox_channel key r in
    if is_key key (find_field "remote_pubkey" m)
    then found_entry (entry_open (find_field "state" m)) (find_field "channel_id" m) rest
    else rest
outbox_channel key (value _ r) = outbox_channel key r

module _ (reply : List Call → Result Fields) where
  unfoldable pub call_router : String → Fields → Exec Outbox Fields
  call_router method params s =
      let made = s.calls ++ (record { method = method; params = params } ∷ []) in
      (reply made, record s { calls = made })

  unfoldable pub send_payload : String → Bytes → Exec Outbox Fields
  send_payload channel_id payload =
      call_router "frame.send"
        (put "payload" (from_bytes payload) (put "channel_id" (from_string channel_id) no_fields))

  unfoldable pub open_new : String → Exec Outbox String
  open_new key = do
    r ← call_router "channel.open" (
        put "mode" (from_string "message")
          (put "anon_level" (from_uint 2) (put "remote_pubkey" (from_string key) no_fields)))
    lift (opened_channel (find_field "channel_id" r))

  unfoldable pub reuse_or_open : String → Option (Result String) → Exec Outbox String
  reuse_or_open key none = open_new key
  reuse_or_open key (some found) = lift found

  unfoldable pub outbox_ensure_channel : String → Exec Outbox String
  outbox_ensure_channel key = do
    result ← call_router "channel.list" no_fields
    reuse_or_open key (outbox_channel key (listed_channels (find_field "channels" result)))
