-- ===== src/Inbox/Arrivals.antt =====
-- What a delivery frame does, by its sender and its id.
use scatter_web_project.Common.{
  ◌≡◌, refl, ap, ◌∙◌, Bytes, String, true, false, some, List, [], ◌∷◌, ◌++◌, Result, ok, string_eq,
  length, nat_beq, arith,
}
use scatter_web_project.Cbor.{Libcbor, Pairs, dict}
use scatter_web_project.Ipc.Value.{Fields, from_string, from_bytes, no_fields, put}
use scatter_web_project.Inbox.Store.{
  DhtCredentials, has_message, message_exists, insert_message, is_empty, is_allowed_sender,
  get_pending,
}
use scatter_web_project.Inbox.Frame.{
  FrameHeader, parse_frame_header, frame_type, replicated_frame, replicated_id,
}
use scatter_web_project.Inbox.Node.{
  Inbox, Call, Config, on_store, attempt, call, send_frame, announcement, announce, push,
}
use scatter_web_project.Inbox.Delivery.{
  Clock, received, replica, admit, ack_as, ack_bytes, send_ack, accept_message, store_new,
  deduplicate, process_header, process_found, store_replica, handle_replication_frame,
  handle_outbox_poll, poll_response, route_frame, process_item, process_delivery_frame,
}
use scatter_web_project.Inbox.Quiet.{send_ack-IsQuiet}
use scatter_web_project.Inbox.Invariant.{send_ack_returns, accept_rest-IsQuiet}

-- The body is a frame of another type than those with a handler of their own, with this header.
pub record IsDelivery (lib : Libcbor) (body : Bytes) (hdr : FrameHeader) : Type 0 where
  pub pairs : Pairs
  pub loads : lib.load body ≡ some (dict pairs)
  pub delivery : frame_type pairs ≡ "delivery_frame"
  pub parses : parse_frame_header lib body ≡ some hdr

-- The call that sends these bytes on a channel.
abbrev pub sending : String → Bytes → Call
sending channel_id payload = record {
  method = "frame.send";
  params = put "payload" (from_bytes payload) (put "channel_id" (from_string channel_id) no_fields);
}

length-nonempty : (b : Bytes) → is_empty b ≡ false → nat_beq (length b) 0 ≡ false
length-nonempty [] h = absurd (cc)
length-nonempty (x ∷ b) h = ground arith

module _ (lib : Libcbor) (reply : List Call → Result Fields) (cfg : Config) (clock : Clock) where
  delivery_processed :
      (channel_id : String) (body : Bytes) (hdr : FrameHeader)
      → IsDelivery lib body hdr
      → process_delivery_frame lib reply cfg clock channel_id body
        ≡ process_header lib reply cfg clock channel_id body hdr
  unfolding process_delivery_frame process_item route_frame process_found
  delivery_processed channel_id body hdr d = rw d.loads (rw (d.delivery, d.parses) refl)

  accept_message_leaves :
      (channel_id : String) (hdr : FrameHeader) (t : Inbox)
      → ((accept_message lib reply channel_id hdr t).1.store.stored_messages
          ≡ t.store.stored_messages)
        × ((accept_message lib reply channel_id hdr t).1.pushed
            ≡ t.pushed ++ (announcement hdr.message_id hdr.sender_id ∷ []))
  unfolding accept_message announce push
  accept_message_leaves channel_id hdr t =
      let quiet = send_ack-IsQuiet lib reply channel_id hdr.message_id t in
      let rest = accept_rest-IsQuiet lib reply hdr (
        announce hdr.message_id hdr.sender_id (send_ack lib reply channel_id hdr.message_id t).1) in
      rw (send_ack_returns lib reply channel_id hdr.message_id t) (
        rest.0 ∙ quiet.0,
        rest.1
            ∙ ap
                (λ (p : List (String × Fields)).
                  p ++ (announcement hdr.message_id hdr.sender_id ∷ []))
                quiet.1,
      )

  -- Of a sender who is not allowed: nothing happens.
  pub stranger_dropped :
      (channel_id : String) (body : Bytes) (hdr : FrameHeader) (s : Inbox)
      → IsDelivery lib body hdr
      → is_allowed_sender s.store hdr.sender_id ≡ false
      → process_delivery_frame lib reply cfg clock channel_id body s ≡ (ok tt, s)
  unfolding process_header admit
  stranger_dropped channel_id body hdr s d stranger =
      rw (delivery_processed channel_id body hdr d) (rw stranger refl)

  -- A delivery frame of an allowed sender whose message is stored already is acknowledged on its
  -- channel with the key of the credentials that are there; nothing is stored, and the client is
  -- told nothing.
  pub duplicate_acked :
      (channel_id : String) (body : Bytes) (hdr : FrameHeader) (creds : DhtCredentials) (s : Inbox)
      → IsDelivery lib body hdr
      → is_allowed_sender s.store hdr.sender_id ≡ true
      → has_message hdr.message_id s.store.stored_messages ≡ true
      → s.store.dht_credentials ≡ some creds
      → process_delivery_frame lib reply cfg clock channel_id body s ≡ (
        ok tt,
        record s {
          calls = s.calls ++ (sending channel_id (ack_bytes lib reply hdr.message_id creds) ∷ []);
        },
      )
  unfolding process_header admit deduplicate message_exists send_ack ack_as attempt send_frame call
  duplicate_acked channel_id body hdr creds s d allowed stored known =
      rw (delivery_processed channel_id body hdr d) (rw (allowed, stored, known) refl)

  -- A delivery frame of an allowed sender, with at least one byte, whose id is not stored:
  -- exactly its message is added behind the stored ones, and the client is told of it once,
  -- whatever the router answers to the calls that follow.
  pub new_message_stored :
      (channel_id : String) (body : Bytes) (hdr : FrameHeader) (s : Inbox)
      → IsDelivery lib body hdr
      → is_allowed_sender s.store hdr.sender_id ≡ true
      → has_message hdr.message_id s.store.stored_messages ≡ false
      → is_empty body ≡ false
      → let t = (process_delivery_frame lib reply cfg clock channel_id body s).1 in
        (t.store.stored_messages ≡ s.store.stored_messages ++ (received cfg clock hdr body ∷ []))
        × (t.pushed ≡ s.pushed ++ (announcement hdr.message_id hdr.sender_id ∷ []))
  unfolding process_header admit deduplicate message_exists store_new on_store insert_message
      received
  new_message_stored channel_id body hdr s d allowed new whole =
      rw (delivery_processed channel_id body hdr d) (
        rw (allowed, new, whole)
          (accept_message_leaves channel_id hdr (record s {
            store = record s.store {
              stored_messages = s.store.stored_messages ++ (received cfg clock hdr body ∷ []);
            };
          })))

  -- A wrapped frame is stored, and the client is told of it, whoever its sender is and on whatever
  -- channel the wrapper came, when neither the wrapper's id nor the frame's is stored.
  pub replica_stored :
      (channel_id : String) (body : Bytes) (ps : Pairs) (hdr : FrameHeader) (s : Inbox)
      → lib.load body ≡ some (dict ps)
      → frame_type ps ≡ "inbox_replication_frame"
      → is_empty (replicated_frame ps []) ≡ false
      → has_message (replicated_id ps "") s.store.stored_messages ≡ false
      → parse_frame_header lib (replicated_frame ps []) ≡ some hdr
      → has_message hdr.message_id s.store.stored_messages ≡ false
      → process_delivery_frame lib reply cfg clock channel_id body s ≡ (
        ok tt,
        announce hdr.message_id hdr.sender_id (record s {
          store = record s.store {
            stored_messages =
                s.store.stored_messages ++ (replica clock hdr (replicated_frame ps []) ∷ []);
          };
        }),
      )
  unfolding process_delivery_frame process_item route_frame handle_replication_frame store_replica
      message_exists on_store insert_message replica
  replica_stored channel_id body ps hdr s loads kind whole fresh parses new = rw loads (
      rw (kind, length-nonempty (replicated_frame ps []) whole, fresh, parses)
        (rw (new, whole) refl))

  -- A poll on any channel, of whatever content, is answered with every message that was not
  -- delivered to the client yet.
  pub poll_answered :
      (channel_id : String) (body : Bytes) (ps : Pairs) (s : Inbox)
      → lib.load body ≡ some (dict ps)
      → frame_type ps ≡ "outbox_poll"
      → process_delivery_frame lib reply cfg clock channel_id body s ≡ (
        ok tt,
        record s {
          calls =
              s.calls
              ++ (sending channel_id (poll_response lib reply (get_pending s.store true)) ∷ []);
        },
      )
  unfolding process_delivery_frame process_item route_frame handle_outbox_poll attempt send_frame
      call
  poll_answered channel_id body ps s loads kind = rw loads (rw kind refl)
