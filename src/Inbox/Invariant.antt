-- ===== src/Inbox/Invariant.antt =====
-- Every event that the inbox handles keeps its invariant.
use scatter_web_project.Common.{
  ◌≡◌, refl, ◌∙◌, ◌⊎◌, inl, inr, Bytes, String, Bool, true, false, ◌||◌, Option, none, some, List,
  [], ◌∷◌, ◌++◌, Result, ok, err, Exec, continue, ◌>>=◌, pure, string_eq, ◌==◌, nat_beq, length,
  if◌then◌else◌, Bool-cases,
}
use scatter_web_project.Cbor.{Pairs, Libcbor}
use scatter_web_project.Ipc.Value.{Fields}
use scatter_web_project.Inbox.Store.{
  StoredMessage, InboxStore, has_message, message_exists, insert_message, is_empty,
  is_allowed_sender, constraint_error, DhtCredentials, cr_guard_record,
}
use scatter_web_project.Inbox.Frame.{
  FrameHeader, parse_frame_header, frame_type, replicated_frame, replicated_id,
}
use scatter_web_project.Inbox.Node.{Inbox, Call, Config, on_store, attempt, announce}
use scatter_web_project.Inbox.Delivery.{
  Clock, received, replica, admit, ack_as, send_ack, accept_rest, accept_message, store_new,
  deduplicate, process_header, process_found, store_replica, handle_replication_frame,
  handle_outbox_poll, route_frame, replicate_to_siblings, default_persistence, pass_through,
}
use scatter_web_project.Inbox.Quiet.{
  IsQuiet, if-IsQuiet, pure-IsQuiet, send_ack-IsQuiet, replicate_to_siblings-IsQuiet,
  handle_outbox_poll-IsQuiet,
}
use scatter_web_project.Inbox.Told.{IsSound, Keeps-IsSound, announce-IsSound, announced-IsSound}

-- The three ends of `insert_message`.
pub insert_message-cases :
    (m : StoredMessage) (st : InboxStore)
    → (insert_message m st ≡ (ok false, st))
      ⊎ (insert_message m st ≡ (err constraint_error, st))
      ⊎ (has_message m.message_id st.stored_messages ≡ false)
        × (insert_message m st
            ≡ (ok true, record st { stored_messages = st.stored_messages ++ (m ∷ []) }))
unfolding insert_message message_exists
insert_message-cases m st = elim (Bool-cases (has_message m.message_id st.stored_messages)) [
  | inl stored ↦ inl (rw stored refl)
  | inr new ↦ elim (Bool-cases (is_empty m.delivery_frame)) [
    | inl none_there ↦ inr (inl (rw (new, none_there) refl))
    | inr frame ↦ inr (inr (new, rw (new, frame) refl))
  ]
]

abbrev pub IsSafe : {A : Type 0} → Exec Inbox A → Type 0
IsSafe f = (s : Inbox) → IsSound s → IsSound (f s).1

pub quiet-IsSafe : {A : Type 0} (f : Exec Inbox A) → IsQuiet f → IsSafe f
quiet-IsSafe f quiet s sound = Keeps-IsSound s (f s).1 (quiet s) sound

continue-IsSafe :
    {A B : Type 0} (r : Result A) (f : A → Exec Inbox B)
    → ((a : A) → IsSafe (f a))
    → IsSafe (continue r f)
continue-IsSafe (ok a) f safe s sound = safe a s sound
continue-IsSafe (err e) f safe s sound = sound

pub bind-IsSafe :
    {A B : Type 0} (m : Exec Inbox A) (f : A → Exec Inbox B)
    → IsSafe m
    → ((a : A) → IsSafe (f a))
    → IsSafe (m >>= f)
bind-IsSafe m f safe then_safe s sound = continue-IsSafe (m s).0 f then_safe (m s).1 (safe s sound)

pub if-IsSafe :
    {A : Type 0} (b : Bool) (f g : Exec Inbox A) → IsSafe f → IsSafe g → IsSafe (if b then f else g)
if-IsSafe true f g safe safe' = safe
if-IsSafe false f g safe safe' = safe'

pub pure-IsSafe : {A : Type 0} (a : A) → IsSafe (pure a)
pure-IsSafe a s sound = sound

admit-IsSafe : (cfg : Config) (clock : Clock) (sender : String) → IsSafe (admit cfg clock sender)
unfolding admit cr_guard_record
admit-IsSafe cfg clock sender s sound = elim (Bool-cases (is_allowed_sender s.store sender)) [
  | inl allowed ↦ rw allowed sound
  | inr stranger ↦ rw stranger sound
]

module _ (lib : Libcbor) (reply : List Call → Result Fields) where
  ack_as_returns :
      (channel_id id : String) (creds : Option DhtCredentials) (s : Inbox)
      → (ack_as lib reply channel_id id creds s).0 ≡ ok tt
  unfolding ack_as attempt
  ack_as_returns channel_id id none s = refl
  ack_as_returns channel_id id (some creds) s = refl

  pub send_ack_returns :
      (channel_id id : String) (s : Inbox) → (send_ack lib reply channel_id id s).0 ≡ ok tt
  unfolding send_ack
  send_ack_returns channel_id id s = ack_as_returns channel_id id s.store.dht_credentials s

  pub accept_rest-IsQuiet : (hdr : FrameHeader) → IsQuiet (accept_rest lib reply hdr)
  unfolding accept_rest
  accept_rest-IsQuiet hdr =
      if-IsQuiet (default_persistence hdr.persistence == pass_through) (pure tt)
        (replicate_to_siblings lib reply hdr.message_id) pure-IsQuiet
        (replicate_to_siblings-IsQuiet lib reply hdr.message_id)

  accept_rest-IsSafe : (hdr : FrameHeader) → IsSafe (accept_rest lib reply hdr)
  accept_rest-IsSafe hdr = quiet-IsSafe (accept_rest lib reply hdr) (accept_rest-IsQuiet hdr)

  accept_message-IsSound :
      (cfg : Config) (clock : Clock) (channel_id : String) (body : Bytes) (hdr : FrameHeader)
      (s t : Inbox)
      → has_message hdr.message_id s.store.stored_messages ≡ false
      → t.store.stored_messages ≡ s.store.stored_messages ++ (received cfg clock hdr body ∷ [])
      → t.pushed ≡ s.pushed
      → IsSound s
      → IsSound (accept_message lib reply channel_id hdr t).1
  unfolding accept_message received
  accept_message-IsSound cfg clock channel_id body hdr s t new rows events sound =
      let acked = send_ack lib reply channel_id hdr.message_id t in
      let quiet = send_ack-IsQuiet lib reply channel_id hdr.message_id t in
      let told =
        announced-IsSound (received cfg clock hdr body) s acked.1 new (quiet.0 ∙ rows)
          (quiet.1 ∙ events) sound in
      rw (send_ack_returns channel_id hdr.message_id t)
        (accept_rest-IsSafe hdr (announce hdr.message_id hdr.sender_id acked.1) told)

  store_new-IsSafe :
      (cfg : Config) (clock : Clock) (channel_id : String) (body : Bytes) (hdr : FrameHeader)
      → IsSafe (store_new lib reply cfg clock channel_id body hdr)
  unfolding store_new on_store received
  store_new-IsSafe cfg clock channel_id body hdr s sound =
      elim (insert_message-cases (received cfg clock hdr body) s.store) [
        | inl stored ↦ rw stored sound
        | inr (inl refused) ↦ rw refused sound
        | inr (inr (new, inserted)) ↦ rw inserted (
            accept_message-IsSound cfg clock channel_id body hdr s
              (record s {
                store = record s.store {
                  stored_messages = s.store.stored_messages ++ (received cfg clock hdr body ∷ []);
                };
              })
              new refl refl sound)
      ]

  deduplicate-IsSafe :
      (cfg : Config) (clock : Clock) (channel_id : String) (body : Bytes) (hdr : FrameHeader)
      → IsSafe (deduplicate lib reply cfg clock channel_id body hdr)
  unfolding deduplicate
  deduplicate-IsSafe cfg clock channel_id body hdr s sound =
      elim (Bool-cases (message_exists s.store hdr.message_id)) [
        | inl stored ↦ rw stored (
            quiet-IsSafe (send_ack lib reply channel_id hdr.message_id)
              (send_ack-IsQuiet lib reply channel_id hdr.message_id) s sound)
        | inr new ↦ rw new (store_new-IsSafe cfg clock channel_id body hdr s sound)
      ]

  process_header-IsSafe :
      (cfg : Config) (clock : Clock) (channel_id : String) (body : Bytes) (hdr : FrameHeader)
      → IsSafe (process_header lib reply cfg clock channel_id body hdr)
  unfolding process_header
  process_header-IsSafe cfg clock channel_id body hdr =
      bind-IsSafe (admit cfg clock hdr.sender_id) _ (admit-IsSafe cfg clock hdr.sender_id)
        (λ admitted.
          if-IsSafe admitted (deduplicate lib reply cfg clock channel_id body hdr) (pure tt)
            (deduplicate-IsSafe cfg clock channel_id body hdr) (pure-IsSafe tt))

  process_found-IsSafe :
      (cfg : Config) (clock : Clock) (channel_id : String) (body : Bytes)
      (found : Option FrameHeader)
      → IsSafe (process_found lib reply cfg clock channel_id body found)
  unfolding process_found
  process_found-IsSafe cfg clock channel_id body none = pure-IsSafe tt
  process_found-IsSafe cfg clock channel_id body (some hdr) =
      process_header-IsSafe cfg clock channel_id body hdr

  store_replica-IsSafe :
      (clock : Clock) (inner : Bytes) (found : Option FrameHeader)
      → IsSafe (store_replica lib reply clock inner found)
  unfolding store_replica on_store replica
  store_replica-IsSafe clock inner none s sound = sound
  store_replica-IsSafe clock inner (some hdr) s sound =
      elim (insert_message-cases (replica clock hdr inner) s.store) [
        | inl stored ↦ rw stored (announce-IsSound hdr.message_id hdr.sender_id s sound)
        | inr (inl refused) ↦ rw refused sound
        | inr (inr (new, inserted)) ↦ rw inserted (
            announced-IsSound (replica clock hdr inner) s
              (record s {
                store = record s.store {
                  stored_messages = s.store.stored_messages ++ (replica clock hdr inner ∷ []);
                };
              })
              new refl refl sound)
      ]

  handle_replication_frame-IsSafe :
      (clock : Clock) (ps : Pairs) → IsSafe (handle_replication_frame lib reply clock ps)
  unfolding handle_replication_frame
  handle_replication_frame-IsSafe clock ps s sound =
      let inner = replicated_frame ps [] in
      elim (Bool-cases (nat_beq (length inner) 0 || message_exists s.store (replicated_id ps ""))) [
        | inl skip ↦ rw skip sound
        | inr new ↦ rw new (store_replica-IsSafe clock inner (parse_frame_header lib inner) s sound)
      ]

  pub route_frame-IsSafe :
      (cfg : Config) (clock : Clock) (channel_id : String) (body : Bytes) (ps : Pairs)
      → IsSafe (route_frame lib reply cfg clock channel_id body ps)
  unfolding route_frame
  route_frame-IsSafe cfg clock channel_id body ps =
      if-IsSafe (frame_type ps == "inbox_replication_frame") _ _
        (handle_replication_frame-IsSafe clock ps)
        (if-IsSafe (frame_type ps == "outbox_poll") _ _
          (quiet-IsSafe (handle_outbox_poll lib reply channel_id)
            (handle_outbox_poll-IsQuiet lib reply channel_id))
          (if-IsSafe
            (frame_type ps == "inbox_replicate_ack"
              || (frame_type ps == "outbox_poll_ack" || frame_type ps == "outbox_poll_response"))
            _ _ (pure-IsSafe tt)
            (process_found-IsSafe cfg clock channel_id body (parse_frame_header lib body))))
