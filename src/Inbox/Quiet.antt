-- ===== src/Inbox/Quiet.antt =====
-- The calls of inbox.cpp that change neither the stored messages nor what the client was told.
use scatter_web_project.Common.{
  ◌≡◌, refl, ◌∙◌, Bytes, String, Bool, true, false, Option, none, some, List, [], ◌∷◌, Result, ok,
  err, Exec, continue, ◌>>=◌, lift, pure, if◌then◌else◌,
}
use scatter_web_project.Hex.{to_hex}
use scatter_web_project.Cbor.{Libcbor}
use scatter_web_project.Ipc.Value.{Fields, no_fields, find_field}
use scatter_web_project.Inbox.Store.{
  StoredMessage, SiblingInbox, KnownOutbox, DhtCredentials, set_sibling_replicated, get_message,
  get_pending, list_siblings,
}
use scatter_web_project.Inbox.Node.{
  Inbox, Call, attempt, call, send_frame, ensure_channel, new_channel, new_call, use_channel,
  opened_channel, matching_channel, listed_channels, guard_info,
}
use scatter_web_project.Inbox.Delivery.{
  Clock, ack_bytes, ack_as, send_ack, replication_bytes, replicate_to, replicate_found,
  replicate_each, replicate_to_siblings, handle_outbox_poll, poll_response,
}
use scatter_web_project.Inbox.Rounds.{
  poll_bytes, poll_outbox, poll_as, poll_each, poll_known_outboxes, retry_each, is_stale,
}

-- Messages and announcements are the same.
abbrev pub Keeps : Inbox → Inbox → Type 0
Keeps s t = (t.store.stored_messages ≡ s.store.stored_messages) × (t.pushed ≡ s.pushed)

abbrev pub IsQuiet : {A : Type 0} → Exec Inbox A → Type 0
IsQuiet f = (s : Inbox) → Keeps s (f s).1

Keeps-trans : (s t u : Inbox) → Keeps s t → Keeps t u → Keeps s u
Keeps-trans s t u h k = (k.0 ∙ h.0, k.1 ∙ h.1)

continue-IsQuiet :
    {A B : Type 0} (r : Result A) (f : A → Exec Inbox B)
    → ((a : A) → IsQuiet (f a))
    → IsQuiet (continue r f)
continue-IsQuiet (ok a) f quiet s = quiet a s
continue-IsQuiet (err e) f quiet s = (refl, refl)

pub bind-IsQuiet :
    {A B : Type 0} (m : Exec Inbox A) (f : A → Exec Inbox B)
    → IsQuiet m
    → ((a : A) → IsQuiet (f a))
    → IsQuiet (m >>= f)
bind-IsQuiet m f quiet then_quiet s =
    Keeps-trans s (m s).1 ((m >>= f) s).1 (quiet s) (continue-IsQuiet (m s).0 f then_quiet (m s).1)

attempt-IsQuiet : {A : Type 0} (f : Exec Inbox A) → IsQuiet f → IsQuiet (attempt f)
unfolding attempt
attempt-IsQuiet f quiet s = quiet s

pub if-IsQuiet :
    {A : Type 0} (b : Bool) (f g : Exec Inbox A)
    → IsQuiet f
    → IsQuiet g
    → IsQuiet (if b then f else g)
if-IsQuiet true f g quiet quiet' = quiet
if-IsQuiet false f g quiet quiet' = quiet'

pub pure-IsQuiet : IsQuiet (pure tt)
pure-IsQuiet s = (refl, refl)

module _ (lib : Libcbor) (reply : List Call → Result Fields) where
  send_frame-IsQuiet :
      (channel_id : String) (payload : Bytes) → IsQuiet (send_frame reply channel_id payload)
  unfolding send_frame call
  send_frame-IsQuiet channel_id payload s = (refl, refl)

  pub lift-IsQuiet : {A : Type 0} (r : Result A) → IsQuiet (lift r)
  lift-IsQuiet r s = (refl, refl)

  call-IsQuiet : (method : String) (params : Fields) → IsQuiet (call reply method params)
  unfolding call
  call-IsQuiet method params s = (refl, refl)

  new_channel-IsQuiet : (key : String) → IsQuiet (new_channel reply key)
  unfolding new_channel new_call call
  new_channel-IsQuiet key =
      bind-IsQuiet (new_call reply key) _ (λ s. (refl, refl))
        (λ r. lift-IsQuiet (opened_channel (find_field "channel_id" r)))

  use_channel-IsQuiet :
      (key : String) (o : Option (Result String)) → IsQuiet (use_channel reply key o)
  unfolding use_channel
  use_channel-IsQuiet key none = new_channel-IsQuiet key
  use_channel-IsQuiet key (some found) = lift-IsQuiet found

  ensure_channel-IsQuiet : (key : String) → IsQuiet (ensure_channel reply key)
  unfolding ensure_channel
  ensure_channel-IsQuiet key =
      bind-IsQuiet (call reply "channel.list" no_fields) _ (call-IsQuiet "channel.list" no_fields)
        (λ result.
          use_channel-IsQuiet key
            (matching_channel key (listed_channels (find_field "channels" result))))

  ack_as-IsQuiet :
      (channel_id message_id : String) (creds : Option DhtCredentials)
      → IsQuiet (ack_as lib reply channel_id message_id creds)
  unfolding ack_as
  ack_as-IsQuiet channel_id message_id none = pure-IsQuiet
  ack_as-IsQuiet channel_id message_id (some creds) =
      attempt-IsQuiet (send_frame reply channel_id (ack_bytes lib reply message_id creds))
        (send_frame-IsQuiet channel_id (ack_bytes lib reply message_id creds))

  pub send_ack-IsQuiet :
      (channel_id message_id : String) → IsQuiet (send_ack lib reply channel_id message_id)
  unfolding send_ack
  send_ack-IsQuiet channel_id message_id s =
      ack_as-IsQuiet channel_id message_id s.store.dht_credentials s

  replicate_to-IsQuiet :
      (message_id : String) (frame : Bytes) (sib : SiblingInbox)
      → IsQuiet (replicate_to lib reply message_id frame sib)
  unfolding replicate_to set_sibling_replicated
  replicate_to-IsQuiet message_id frame sib =
      bind-IsQuiet (ensure_channel reply (to_hex sib.key_c_pubkey)) _
        (ensure_channel-IsQuiet (to_hex sib.key_c_pubkey))
        (λ chan.
          bind-IsQuiet (send_frame reply chan (replication_bytes lib reply message_id frame)) _
            (send_frame-IsQuiet chan (replication_bytes lib reply message_id frame))
            (λ sent s. (refl, refl)))

  replicate_each-IsQuiet :
      (message_id : String) (frame : Bytes) (siblings : List SiblingInbox)
      → IsQuiet (replicate_each lib reply message_id frame siblings)
  unfolding replicate_each
  replicate_each-IsQuiet message_id frame [] = pure-IsQuiet
  replicate_each-IsQuiet message_id frame (sib ∷ r) =
      bind-IsQuiet (attempt (replicate_to lib reply message_id frame sib)) _
        (attempt-IsQuiet (replicate_to lib reply message_id frame sib)
          (replicate_to-IsQuiet message_id frame sib))
        (λ done. replicate_each-IsQuiet message_id frame r)

  replicate_found-IsQuiet :
      (message_id : String) (found : Option StoredMessage)
      → IsQuiet (replicate_found lib reply message_id found)
  unfolding replicate_found
  replicate_found-IsQuiet message_id none s = (refl, refl)
  replicate_found-IsQuiet message_id (some msg) s =
      replicate_each-IsQuiet message_id msg.delivery_frame (list_siblings s.store) s

  pub replicate_to_siblings-IsQuiet :
      (message_id : String) → IsQuiet (replicate_to_siblings lib reply message_id)
  unfolding replicate_to_siblings
  replicate_to_siblings-IsQuiet message_id s =
      replicate_found-IsQuiet message_id (get_message s.store message_id) s

  pub handle_outbox_poll-IsQuiet :
      (channel_id : String) → IsQuiet (handle_outbox_poll lib reply channel_id)
  unfolding handle_outbox_poll attempt
  handle_outbox_poll-IsQuiet channel_id s =
      send_frame-IsQuiet channel_id (poll_response lib reply (get_pending s.store true)) s

  poll_outbox-IsQuiet : (key : Bytes) (ob : KnownOutbox) → IsQuiet (poll_outbox lib reply key ob)
  unfolding poll_outbox
  poll_outbox-IsQuiet key ob =
      bind-IsQuiet (ensure_channel reply (to_hex ob.key_c_pubkey)) _
        (ensure_channel-IsQuiet (to_hex ob.key_c_pubkey))
        (λ chan. send_frame-IsQuiet chan (poll_bytes lib reply key))

  poll_each-IsQuiet :
      (clock : Clock) (key : Bytes) (outboxes : List KnownOutbox)
      → IsQuiet (poll_each lib reply clock key outboxes)
  unfolding poll_each
  poll_each-IsQuiet clock key [] = pure-IsQuiet
  poll_each-IsQuiet clock key (ob ∷ r) =
      bind-IsQuiet (if is_stale clock ob then pure tt else attempt (poll_outbox lib reply key ob)) _
        (if-IsQuiet (is_stale clock ob) (pure tt) (attempt (poll_outbox lib reply key ob))
          pure-IsQuiet
          (attempt-IsQuiet (poll_outbox lib reply key ob) (poll_outbox-IsQuiet key ob)))
        (λ done. poll_each-IsQuiet clock key r)

  poll_as-IsQuiet :
      (clock : Clock) (creds : Option DhtCredentials) → IsQuiet (poll_as lib reply clock creds)
  unfolding poll_as
  poll_as-IsQuiet clock none s = (refl, refl)
  poll_as-IsQuiet clock (some creds) s =
      poll_each-IsQuiet clock creds.key_c_pubkey s.store.known_outboxes s

  pub poll_known_outboxes-IsQuiet : (clock : Clock) → IsQuiet (poll_known_outboxes lib reply clock)
  unfolding poll_known_outboxes
  poll_known_outboxes-IsQuiet clock s = poll_as-IsQuiet clock s.store.dht_credentials s

  pub retry_each-IsQuiet : (messages : List StoredMessage) → IsQuiet (retry_each lib reply messages)
  unfolding retry_each
  retry_each-IsQuiet [] = pure-IsQuiet
  retry_each-IsQuiet (m ∷ ms) =
      bind-IsQuiet (if m.replicated then pure tt else replicate_to_siblings lib reply m.message_id)
        _
        (if-IsQuiet m.replicated (pure tt) (replicate_to_siblings lib reply m.message_id)
          pure-IsQuiet (replicate_to_siblings-IsQuiet m.message_id))
        (λ done. retry_each-IsQuiet ms)

pub guard_info-Keeps :
    (reply : List Call → Result Fields) (s : Inbox) → Keeps s (guard_info reply s).1
unfolding guard_info call
guard_info-Keeps reply s = (refl, refl)
