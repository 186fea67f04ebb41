-- ===== src/Inbox/Serving.antt =====
-- The requests of ipc_handler.cpp keep the invariant of the inbox.
use scatter_web_project.Common.{
  ℕ, ◌+◌, ◌*◌, ◌≡◌, refl, inl, inr, String, not, ◌||◌, List, [], Result, Exec, ◌>>=◌, pure, lift,
  string_eq, ◌==◌, Bool-cases, Option-cases,
}
use scatter_web_project.Int.{pos}
use scatter_web_project.Ipc.Value.{Fields, find_field}
use scatter_web_project.Inbox.Store.{
  StoredMessage, SiblingInbox, KnownOutbox, DhtCredentials, InboxStore, get_message, mark_delivered,
  delete_message, is_empty, upsert_sibling, remove_sibling, set_dht_credentials, insert_outboxes,
  replace_known_outboxes, insert_senders, replace_allowed_senders, set_retention_days,
}
use scatter_web_project.Inbox.Node.{Inbox, Call, on_store, guard_info}
use scatter_web_project.Inbox.Requests.{
  get_pending_request, get_message_request, ack, acknowledge, update_dht_delegation,
  update_contact_outboxes, update_sender_allowlist, add_sibling, remove_sibling_request,
  set_retention_days_request, status, handle, req_string, req_bytes, found_message, array_param,
  new_sibling, outboxes_of, texts_of, days_of, in_range, done,
}
use scatter_web_project.Inbox.Quiet.{IsQuiet, bind-IsQuiet, guard_info-Keeps}
use scatter_web_project.Inbox.Told.{IsSound, Keeps-IsSound, select-IsSound, delivered-IsSound}
use scatter_web_project.Inbox.Invariant.{IsSafe, quiet-IsSafe, bind-IsSafe, if-IsSafe}

-- A statement that leaves the messages alone, whatever it does.
abbrev pub IsApart : {A : Type 0} → Exec InboxStore A → Type 0
IsApart f = (st : InboxStore) → (f st).1.stored_messages ≡ st.stored_messages

on_store-IsQuiet : {A : Type 0} (f : Exec InboxStore A) → IsApart f → IsQuiet (on_store f)
unfolding on_store
on_store-IsQuiet f apart s = (apart s.store, refl)

set_dht_credentials-IsApart : (creds : DhtCredentials) → IsApart (set_dht_credentials creds)
unfolding set_dht_credentials
set_dht_credentials-IsApart creds st =
    elim (Bool-cases
      (is_empty creds.key_c_pubkey || (is_empty creds.key_c_privkey || is_empty creds.auth_cert))) [
        | inl short ↦ rw short refl
        | inr whole ↦ rw whole refl
      ]

upsert_sibling-IsApart : (sib : SiblingInbox) → IsApart (upsert_sibling sib)
unfolding upsert_sibling
upsert_sibling-IsApart sib st =
    elim (Bool-cases (is_empty sib.key_c_pubkey || is_empty sib.auth_cert)) [
      | inl short ↦ rw short refl
      | inr whole ↦ rw whole refl
    ]

replace_known_outboxes-IsApart : (list : List KnownOutbox) → IsApart (replace_known_outboxes list)
unfolding replace_known_outboxes
replace_known_outboxes-IsApart list st = elim (Option-cases (insert_outboxes [] list)) [
  | inl refused ↦ rw (refused, replace_known_outboxes) refl
  | inr (rows, inserted) ↦ rw (inserted, replace_known_outboxes) refl
]

replace_allowed_senders-IsApart : (ids : List String) → IsApart (replace_allowed_senders ids)
unfolding replace_allowed_senders
replace_allowed_senders-IsApart ids st = elim (Option-cases (insert_senders [] ids)) [
  | inl refused ↦ rw (refused, replace_allowed_senders) refl
  | inr (rows, inserted) ↦ rw (inserted, replace_allowed_senders) refl
]

-- A request that reads its parameters and then runs one statement.
step :
    {A : Type 0} (r : Result A) (f : A → Exec Inbox Fields)
    → ((a : A) → IsQuiet (f a))
    → IsQuiet (lift r >>= f)
step r f quiet = bind-IsQuiet (lift r) f (λ s. (refl, refl)) quiet

then_done :
    {A : Type 0} (f : Exec InboxStore A) → IsApart f → IsQuiet (on_store f >>= λ a. pure done)
then_done f apart =
    bind-IsQuiet (on_store f) (λ a. pure done) (on_store-IsQuiet f apart) (λ a s. (refl, refl))

update_dht_delegation-IsQuiet : (p : Fields) → IsQuiet (update_dht_delegation p)
unfolding update_dht_delegation
update_dht_delegation-IsQuiet p = step (req_bytes p "key_c_pubkey") _ (λ public.
    step (req_bytes p "key_c_privkey") _ (λ private. step (req_bytes p "auth_cert") _ (λ auth_cert.
      step (req_bytes p "delegation_cert") _ (λ delegation_cert.
        then_done
          (set_dht_credentials (record {
            key_c_pubkey = public;
            key_c_privkey = private;
            auth_cert = auth_cert;
            delegation_cert = delegation_cert;
          }))
          (set_dht_credentials-IsApart (record {
            key_c_pubkey = public;
            key_c_privkey = private;
            auth_cert = auth_cert;
            delegation_cert = delegation_cert;
          }))))))

update_contact_outboxes-IsQuiet : (p : Fields) → IsQuiet (update_contact_outboxes p)
unfolding update_contact_outboxes
update_contact_outboxes-IsQuiet p =
    step (array_param "outboxes must be an array" (find_field "outboxes" p)) _ (λ arr.
      then_done (replace_known_outboxes (outboxes_of arr))
        (replace_known_outboxes-IsApart (outboxes_of arr)))

update_sender_allowlist-IsQuiet : (p : Fields) → IsQuiet (update_sender_allowlist p)
unfolding update_sender_allowlist
update_sender_allowlist-IsQuiet p =
    step (array_param "sender_ids must be an array" (find_field "sender_ids" p)) _ (λ arr.
      then_done (replace_allowed_senders (texts_of arr))
        (replace_allowed_senders-IsApart (texts_of arr)))

add_sibling-IsQuiet : (p : Fields) → IsQuiet (add_sibling p)
unfolding add_sibling
add_sibling-IsQuiet p = step (req_bytes p "key_c_pubkey") _ (λ public.
    step (req_bytes p "auth_cert") _ (λ auth_cert.
      then_done (upsert_sibling (new_sibling p public auth_cert))
        (upsert_sibling-IsApart (new_sibling p public auth_cert))))

remove_sibling_request-IsQuiet : (p : Fields) → IsQuiet (remove_sibling_request p)
unfolding remove_sibling_request remove_sibling
remove_sibling_request-IsQuiet p = step (req_string p "device_id") _ (λ id s. (refl, refl))

set_retention_days_request-IsQuiet : (p : Fields) → IsQuiet (set_retention_days_request p)
unfolding set_retention_days_request set_retention_days
set_retention_days_request-IsQuiet p =
    step (days_of (find_field "days" p)) _
      (λ given. step (in_range given) _ (λ days s. (refl, refl)))

get_message_request-IsQuiet : (p : Fields) → IsQuiet (get_message_request p)
unfolding get_message_request
get_message_request-IsQuiet p = step (req_string p "message_id") _ (λ id.
    bind-IsQuiet (λ (s : Inbox). (found_message id (get_message s.store id), s)) _
      (λ s. (refl, refl)) (λ msg s. (refl, refl)))

acknowledge-IsSound :
    (now_s : ℕ) (id : String) (msg : StoredMessage) (s : Inbox)
    → IsSound s
    → IsSound (record s { store = acknowledge now_s id msg s.store })
unfolding acknowledge delete_message mark_delivered
acknowledge-IsSound now_s id msg s sound = elim (Bool-cases (msg.persistence == "pass_through")) [
  | inl passing ↦ rw passing (
      select-IsSound (λ m. not (m.message_id == id)) s
        (record s { store = delete_message id s.store }) refl refl sound)
  | inr kept ↦ rw kept (
      delivered-IsSound id (pos (now_s + s.store.retention_days * 86400)) s
        (record s {
          store = mark_delivered id (pos (now_s + s.store.retention_days * 86400)) s.store;
        })
        refl refl sound)
]

ack-IsSafe : (now_s : ℕ) (p : Fields) → IsSafe (ack now_s p)
unfolding ack
ack-IsSafe now_s p =
    bind-IsSafe (lift (req_string p "message_id")) _ (λ s sound. sound)
      (λ id.
        bind-IsSafe (λ (s : Inbox). (found_message id (get_message s.store id), s)) _
          (λ s sound. sound) (λ msg s sound. acknowledge-IsSound now_s id msg s sound))

pub handle-IsSafe :
    (reply : List Call → Result Fields) (now_s : ℕ) (method : String) (params : Fields)
    → IsSafe (handle reply now_s method params)
unfolding handle get_pending_request status
handle-IsSafe reply now_s method params =
    if-IsSafe (method == "inbox.get_pending") _ _ (λ s sound. sound)
      (if-IsSafe (method == "inbox.get") _ _
        (quiet-IsSafe (get_message_request params) (get_message_request-IsQuiet params))
        (if-IsSafe (method == "inbox.ack") _ _ (ack-IsSafe now_s params) (
          if-IsSafe (method == "inbox.guard_info") _ _
            (λ s sound. Keeps-IsSound s (guard_info reply s).1 (guard_info-Keeps reply s) sound)
            (if-IsSafe (method == "inbox.update_dht_delegation") _ _
              (quiet-IsSafe (update_dht_delegation params) (update_dht_delegation-IsQuiet params))
              (if-IsSafe (method == "inbox.update_contact_outboxes") _ _
                (quiet-IsSafe (update_contact_outboxes params)
                  (update_contact_outboxes-IsQuiet params))
                (if-IsSafe (method == "inbox.update_sender_allowlist") _ _
                  (quiet-IsSafe (update_sender_allowlist params)
                    (update_sender_allowlist-IsQuiet params))
                  (if-IsSafe (method == "inbox.add_sibling") _ _
                    (quiet-IsSafe (add_sibling params) (add_sibling-IsQuiet params))
                    (if-IsSafe (method == "inbox.remove_sibling") _ _
                      (quiet-IsSafe (remove_sibling_request params)
                        (remove_sibling_request-IsQuiet params))
                      (if-IsSafe (method == "inbox.set_retention_days") _ _
                        (quiet-IsSafe (set_retention_days_request params)
                          (set_retention_days_request-IsQuiet params))
                        (if-IsSafe (method == "inbox.status") _ _ (λ s sound. sound)
                          (λ s sound. sound)))))))))))
