-- ===== src/Examples/Inboxes.antt =====
-- The theorems on the inbox at concrete frames and stores.
use scatter_web_project.Common.{
  ◌≡◌, refl, true, false, none, some, List, [], ◌∷◌, Result, ok, err, string_eq, ◌==◌, nat_beq,
  if◌then◌else◌, replicate, arith,
}
use scatter_web_project.Hex.{to_hex, hex_digit}
use scatter_web_project.Toy.{fixed}
use scatter_web_project.Cbor.{Item, Pairs, Libcbor, pair, text, bytestring, dict, stop}
use scatter_web_project.Ipc.Value.{Fields}
use scatter_web_project.Inbox.Store.{
  StoredMessage, DhtCredentials, InboxStore, has_message, find_message, delete_expired, has_sender,
  is_allowed_sender, replace_allowed_senders, constraint_error,
}
use scatter_web_project.Inbox.Frame.{
  FrameHeader, parse_frame_header, header_fields, read_header_field, complete_header, frame_type,
  replicated_frame, replicated_id,
}
use scatter_web_project.Inbox.Node.{Inbox, Call, Config, announce, announcement}
use scatter_web_project.Inbox.Delivery.{
  Clock, received, replica, default_persistence, ack_bytes, process_delivery_frame,
}
use scatter_web_project.Inbox.Requests.{acknowledge}
use scatter_web_project.Inbox.Told.{IsSound}
use scatter_web_project.Inbox.Events.{started, maintenance, run, run-IsSound}
use scatter_web_project.Inbox.Arrivals.{
  IsDelivery, sending, new_message_stored, duplicate_acked, replica_stored,
}
use scatter_web_project.Inbox.Keeping.{
  acknowledged_retained, repeats, replace_allowed_senders_exact,
}

-- A sender, a frame of his and an inbox that lets him in.
abbrev frame_item : Item
frame_item = dict (
    pair (text "type") (text "delivery_frame") (
      pair (text "message_id") (bytestring (replicate 16 1))
        (pair (text "sender_id") (bytestring (replicate 32 2)) stop)))

abbrev frame_lib : Libcbor
frame_lib = fixed frame_item

abbrev header : FrameHeader
header = record {
  message_id = to_hex (replicate 16 1);
  sender_id = to_hex (replicate 32 2);
  persistence = "";
}

frame-IsDelivery : IsDelivery frame_lib (1 ∷ []) header
unfolding frame_type parse_frame_header header_fields read_header_field complete_header to_hex
    hex_digit
frame-IsDelivery = record {
  pairs = pair (text "type") (text "delivery_frame") (
      pair (text "message_id") (bytestring (replicate 16 1))
        (pair (text "sender_id") (bytestring (replicate 32 2)) stop));
  loads = refl;
  delivery = refl;
  parses = refl;
}

abbrev credentials : DhtCredentials
credentials = record {
  key_c_pubkey = 3 ∷ [];
  key_c_privkey = 4 ∷ [];
  auth_cert = 5 ∷ [];
  delegation_cert = [];
}

abbrev store_with : List StoredMessage → InboxStore
store_with messages = record {
  stored_messages = messages;
  sibling_inboxes = [];
  replication_status = [];
  dht_credentials = some credentials;
  known_outboxes = [];
  allowed_senders = to_hex (replicate 32 2) ∷ [];
  cr_guard_rate_limit = [];
  inbox_config = [];
  retention_days = 7;
}

abbrev inbox_with : List StoredMessage → Inbox
inbox_with messages = record { store = store_with messages; calls = []; pushed = [] }

abbrev silent : List Call → Result Fields
silent calls = err "IPC client not connected: frame.send"

abbrev settings : Config
settings = record { passthrough_timeout_s = 60; cr_guard_rate_limit_hour = 20 }

abbrev clock : Clock
clock = record { now_s = 100; now_ms = 100000 }

abbrev stored : StoredMessage
stored = received settings clock header (1 ∷ [])

sender_allowed : is_allowed_sender (store_with []) header.sender_id ≡ true
unfolding is_allowed_sender has_sender to_hex hex_digit
sender_allowed = refl

new_message_stored_example :
    let t =
      (process_delivery_frame frame_lib silent settings clock "c" (1 ∷ []) (inbox_with [])).1 in
    (t.store.stored_messages ≡ stored ∷ [])
    × (t.pushed ≡ announcement header.message_id header.sender_id ∷ [])
unfolding has_message
new_message_stored_example =
    new_message_stored frame_lib silent settings clock "c" (1 ∷ []) header (inbox_with [])
      frame-IsDelivery sender_allowed refl refl

stored_there : has_message header.message_id (stored ∷ []) ≡ true
unfolding has_message received to_hex hex_digit
stored_there = refl

duplicate_acked_example :
    process_delivery_frame frame_lib silent settings clock "c" (1 ∷ []) (inbox_with (stored ∷ []))
    ≡ (
      ok tt,
      record (inbox_with (stored ∷ [])) {
        calls = sending "c" (ack_bytes frame_lib silent header.message_id credentials) ∷ [];
      },
    )
unfolding is_allowed_sender
duplicate_acked_example =
    duplicate_acked frame_lib silent settings clock "c" (1 ∷ []) header credentials
      (inbox_with (stored ∷ [])) frame-IsDelivery sender_allowed stored_there refl

run-IsSound_example :
    IsSound (run frame_lib silent settings (started clock ∷ maintenance clock ∷ []) (inbox_with []))
run-IsSound_example =
    run-IsSound frame_lib silent settings (started clock ∷ maintenance clock ∷ []) (inbox_with [])
      (record { distinct = tt; told = tt })

-- A wrapper that holds the frame of a sender whom nobody allowed.
abbrev wrapper : Pairs
wrapper = pair (text "type") (text "inbox_replication_frame") (
    pair (text "message_id") (text "w") (pair (text "delivery_frame") (bytestring (116 ∷ [])) stop))

abbrev stranger_lib : Libcbor
stranger_lib = record frame_lib {
  load = λ b. elim b [
    | [] ↦ none
    | n ∷ r ↦ if nat_beq n 116 then some frame_item else some (dict wrapper)
  ];
}

abbrev stranger_inbox : Inbox
stranger_inbox = record (inbox_with []) { store = record (store_with []) { allowed_senders = [] } }

stranger-parses : parse_frame_header stranger_lib (replicated_frame wrapper []) ≡ some header
unfolding parse_frame_header replicated_frame header_fields read_header_field complete_header to_hex
    hex_digit
stranger-parses = refl

replica_stored_example :
    process_delivery_frame stranger_lib silent settings clock "c" (2 ∷ []) stranger_inbox ≡ (
      ok tt,
      announce header.message_id header.sender_id (record stranger_inbox {
        store = record stranger_inbox.store {
          stored_messages = replica clock header (replicated_frame wrapper []) ∷ [];
        };
      }),
    )
unfolding frame_type replicated_frame replicated_id has_message
replica_stored_example =
    replica_stored stranger_lib silent settings clock "c" (2 ∷ []) wrapper header stranger_inbox
      refl refl refl refl stranger-parses refl

stored_kept : (stored.persistence == "pass_through") ≡ false
unfolding received default_persistence
stored_kept = refl

stored_found : find_message header.message_id (stored ∷ []) ≡ some stored
unfolding find_message received to_hex hex_digit
stored_found = refl

acknowledged_retained_example :
    find_message header.message_id
      (delete_expired 604901
        (acknowledge 100 header.message_id stored (store_with (stored ∷ [])))).stored_messages
    ≡ none
unfolding has_message
acknowledged_retained_example =
    acknowledged_retained 100 604901 header.message_id stored (store_with (stored ∷ [])) (refl, tt)
      stored_found stored_kept (omega arith)

replace_allowed_senders_exact_example :
    replace_allowed_senders ("a" ∷ "b" ∷ "a" ∷ []) (store_with [])
    ≡ (err constraint_error, store_with [])
unfolding repeats has_sender
replace_allowed_senders_exact_example =
    replace_allowed_senders_exact ("a" ∷ "b" ∷ "a" ∷ []) (store_with [])
