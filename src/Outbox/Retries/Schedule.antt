-- ===== src/Outbox/Retries/Schedule.antt =====
-- When `retry_loop` of outbox/src/outbox.cpp tries a message again.
use scatter_web_project.Common.{
  ℕ, zero, suc, ◌+◌, ◌-◌, ◌^◌, ◌≤◌, ◌<◌, ◌≡◌, refl, sym, ap, ◌∙◌, ◌⊎◌, inl, inr, String, true,
  false, Option, none, some, List, [], ◌∷◌, Bool, Result, ok, err, Exec, continue, ◌>>=◌, string_eq,
  ◌==◌, if◌then◌else◌, Bool-cases, arith, map,
}
use mathlib.Core.List.Memᴰ.{Memᴰ, head, tail}
use scatter_web_project.Hex.{to_hex}
use scatter_web_project.Ipc.Value.{Fields, find_field, no_fields}
use scatter_web_project.Inbox.Node.{Call, listed_channels}
use scatter_web_project.Outbox.Store.{
  QueuedMessage, RecipientInbox, OutboxStore, queued, update_rows, update_attempt, is_due,
  rows_where, row_to_msg, list_due, get_recipient_inboxes,
}
use scatter_web_project.Outbox.Node.{
  Outbox, RetryConfig, call_router, send_payload, open_new, reuse_or_open, outbox_channel,
  outbox_ensure_channel,
}
use scatter_web_project.Outbox.Retries.{
  min, retry_delay, gives_up, deliver_to, returned, attempt_delivery, attempt_each, attempt_message,
  reschedule, retry_message,
}

-- The call leaves the database alone.
abbrev IsRemote : {A : Type 0} → Exec Outbox A → Type 0
IsRemote f = (s : Outbox) → (f s).1.store ≡ s.store

continue-IsRemote :
    {A B : Type 0} (r : Result A) (f : A → Exec Outbox B)
    → ((a : A) → IsRemote (f a))
    → IsRemote (continue r f)
continue-IsRemote (ok a) f remote s = remote a s
continue-IsRemote (err e) f remote s = refl

bind-IsRemote :
    {A B : Type 0} (m : Exec Outbox A) (f : A → Exec Outbox B)
    → IsRemote m
    → ((a : A) → IsRemote (f a))
    → IsRemote (m >>= f)
bind-IsRemote m f remote then_remote s = continue-IsRemote (m s).0 f then_remote (m s).1 ∙ remote s

abbrev changed : (QueuedMessage → QueuedMessage) → Option QueuedMessage → Option QueuedMessage
changed change none = none
changed change (some m) = some (change m)

min_bound : (a : ℕ) → min a 4 ≤ 4
unfolding min
min_bound a = ground arith

power_bounds : (k : ℕ) → k ≤ 4 → (1 ≤ 2 ^ k) × (2 ^ k ≤ 16)
power_bounds zero h = (omega arith, omega arith)
power_bounds (suc zero) h = (omega arith, omega arith)
power_bounds (suc (suc zero)) h = (omega arith, omega arith)
power_bounds (suc (suc (suc zero))) h = (omega arith, omega arith)
power_bounds (suc (suc (suc (suc zero)))) h = (omega arith, omega arith)
power_bounds (suc (suc (suc (suc (suc k))))) h = absurd (omega arith)

due_later :
    {now_ms later_ms : ℕ} (m : QueuedMessage)
    → now_ms ≤ later_ms
    → is_due now_ms m ≡ true
    → is_due later_ms m ≡ true
unfolding is_due
due_later m ordered due = ground arith

kept-Memᴰ :
    {m : QueuedMessage} (n : QueuedMessage) (ms ns : List QueuedMessage) (now later : Bool)
    → (now ≡ true → later ≡ true)
    → (Memᴰ m (map row_to_msg ms) → Memᴰ m (map row_to_msg ns))
    → Memᴰ m (map row_to_msg (if now then n ∷ ms else ms))
    → Memᴰ m (map row_to_msg (if later then n ∷ ns else ns))
kept-Memᴰ n ms ns true true stays rest (head this) = head this
kept-Memᴰ n ms ns true true stays rest (tail listed) = tail (rest listed)
kept-Memᴰ n ms ns true false stays rest listed = let bad : false ≡ true = stays refl in absurd (cc)
kept-Memᴰ n ms ns false true stays rest listed = tail (rest listed)
kept-Memᴰ n ms ns false false stays rest listed = rest listed

due-Memᴰ :
    {now_ms later_ms : ℕ}
    → now_ms ≤ later_ms
    → (m : QueuedMessage) (ms : List QueuedMessage)
    → Memᴰ m (map row_to_msg (rows_where (is_due now_ms) ms))
    → Memᴰ m (map row_to_msg (rows_where (is_due later_ms) ms))
unfolding rows_where
due-Memᴰ ordered m [] h = h
due-Memᴰ {now_ms} {later_ms} ordered m (n ∷ ms) h =
    kept-Memᴰ n _ _ (is_due now_ms n) (is_due later_ms n) (due_later n ordered)
      (due-Memᴰ ordered m ms) h

module _ (reply : List Call → Result Fields) where
  call_router-IsRemote :
      (method : String) (params : Fields) → IsRemote (call_router reply method params)
  unfolding call_router
  call_router-IsRemote method params s = refl

  open_new-IsRemote : (key : String) → IsRemote (open_new reply key)
  unfolding open_new
  open_new-IsRemote key =
      bind-IsRemote (call_router reply "channel.open" _) _ (call_router-IsRemote "channel.open" _)
        (λ r s. refl)

  reuse_or_open-IsRemote :
      (key : String) (found : Option (Result String)) → IsRemote (reuse_or_open reply key found)
  unfolding reuse_or_open
  reuse_or_open-IsRemote key none = open_new-IsRemote key
  reuse_or_open-IsRemote key (some found) = λ s. refl

  deliver_to-IsRemote :
      (msg : QueuedMessage) (ri : RecipientInbox) → IsRemote (deliver_to reply msg ri)
  unfolding deliver_to outbox_ensure_channel send_payload
  deliver_to-IsRemote msg ri =
      bind-IsRemote (outbox_ensure_channel reply (to_hex ri.key_c_pubkey)) _
        (bind-IsRemote (call_router reply "channel.list" no_fields) _
          (call_router-IsRemote "channel.list" no_fields)
          (λ result. reuse_or_open-IsRemote (to_hex ri.key_c_pubkey) (
            outbox_channel (to_hex ri.key_c_pubkey)
              (listed_channels (find_field "channels" result)))))
        (λ chan. call_router-IsRemote "frame.send" _)

  returned_store : {A : Type 0} (r : Result A × Outbox) → (returned reply r).1.store ≡ r.1.store
  unfolding returned
  returned_store (ok a, s) = refl
  returned_store (err e, s) = refl

  attempt_delivery-store :
      (msg : QueuedMessage) (ri : RecipientInbox) (s : Outbox)
      → (attempt_delivery reply msg ri s).1.store ≡ s.store
  unfolding attempt_delivery
  attempt_delivery-store msg ri s =
      returned_store (deliver_to reply msg ri s) ∙ deliver_to-IsRemote msg ri s

  attempt_each-store :
      (msg : QueuedMessage) (rs : List RecipientInbox) (s : Outbox)
      → (attempt_each reply msg rs s).1.store ≡ s.store
  unfolding attempt_each
  attempt_each-store msg [] s = refl
  attempt_each-store msg (ri ∷ rs) s =
      let t = (attempt_delivery reply msg ri s).1 in
      elim (Bool-cases (attempt_delivery reply msg ri s).0) [
        | inl taken ↦ rw taken (attempt_delivery-store msg ri s)
        | inr refused ↦ rw refused (attempt_each-store msg rs t ∙ attempt_delivery-store msg ri s)
      ]

  attempt_message-store :
      (msg : QueuedMessage) (s : Outbox) → (attempt_message reply msg s).1.store ≡ s.store
  unfolding attempt_message
  attempt_message-store msg s =
      attempt_each-store msg (get_recipient_inboxes s.store msg.message_id) s

  -- A due message that an inbox took: the store stays exactly as it was, and the message is listed as
  -- due at every later time.
  pub sent_stays_due :
      (cfg : RetryConfig) (now_ms later_ms : ℕ) (msg : QueuedMessage) (s : Outbox)
      → now_ms ≤ later_ms
      → Memᴰ msg (list_due now_ms s.store)
      → (attempt_message reply msg s).0 ≡ true
      → ((retry_message reply cfg now_ms msg s).store ≡ s.store)
        × Memᴰ msg (list_due later_ms (retry_message reply cfg now_ms msg s).store)
  unfolding retry_message list_due
  sent_stays_due cfg now_ms later_ms msg s ordered listed taken =
      let same : (retry_message reply cfg now_ms msg s).store ≡ s.store =
        rw taken (attempt_message-store msg s) in
      (same, rw same (due-Memᴰ ordered msg s.store.queued_messages listed))

  queued-update :
      (id : String) (change : QueuedMessage → QueuedMessage) (ms : List QueuedMessage)
      (m : QueuedMessage)
      → ((n : QueuedMessage) → (change n).message_id ≡ n.message_id)
      → queued id ms ≡ some m
      → queued id (update_rows id change ms) ≡ some (change m)
  unfolding queued update_rows
  queued-update id change [] m keeps h = absurd (cc)
  queued-update id change (n ∷ ms) m keeps h = elim (Bool-cases (n.message_id == id)) [
    | inl this ↦
        let seen : some n ≡ some m = sym (rw this refl) ∙ h in
        let test : ((change n).message_id == id) ≡ true = ap (λ i. i == id) (keeps n) ∙ this in
        rw this (rw test (ap (changed change) seen))
    | inr other ↦ rw other (rw other (queued-update id change ms m keeps (sym (rw other refl) ∙ h)))
  ]

  next_lem :
      (cfg : RetryConfig) (since now_ms attempts : ℕ)
      → let next =
          if gives_up cfg 0 since now_ms (suc attempts)
          then 0
          else now_ms + retry_delay (suc attempts) in
        (next ≡ 0)
        ⊎ (now_ms + 60000 ≤ next) × (next ≤ now_ms + 960000) × (suc attempts < cfg.max_retries)
  unfolding gives_up retry_delay
  next_lem cfg since now_ms attempts =
      let (low, high) = power_bounds (min (suc attempts - 1) 4) (min_bound (suc attempts - 1)) in
      elim (Bool-cases (gives_up cfg 0 since now_ms (suc attempts))) [
        | inl over ↦ rw over (inl refl)
        | inr goes_on ↦ rw goes_on (inr (omega arith, omega arith, ground arith))
      ]

  -- A message whose attempts all fail is found in the queue with one attempt more; it either waits for
  -- a poll or is tried again after at least one minute and at most sixteen, the latter only while
  -- the number of attempts is below the limit.
  pub failed_rescheduled :
      (cfg : RetryConfig) (now_ms : ℕ) (msg row : QueuedMessage) (s : Outbox)
      → (attempt_message reply msg s).0 ≡ false
      → queued msg.message_id s.store.queued_messages ≡ some row
      → (next : ℕ) × (queued msg.message_id
            (retry_message reply cfg now_ms msg s).store.queued_messages
          ≡ some (record row { attempt_count = suc msg.attempt_count; next_attempt_at = next }))
        × ((next ≡ 0)
            ⊎ (now_ms + 60000 ≤ next)
              × (next ≤ now_ms + 960000)
              × (suc msg.attempt_count < cfg.max_retries))
  unfolding retry_message reschedule update_attempt
  failed_rescheduled cfg now_ms msg row s failed found = (
    if gives_up cfg 0 msg.enqueued_at_ms now_ms (suc msg.attempt_count)
        then 0
        else now_ms + retry_delay (suc msg.attempt_count),
    rw failed (
        queued-update msg.message_id _ (attempt_message reply msg s).1.store.queued_messages row
          (λ n. refl)
          (ap (λ (st : OutboxStore). queued msg.message_id st.queued_messages)
              (attempt_message-store msg s)
            ∙ found)),
    next_lem cfg msg.enqueued_at_ms now_ms msg.attempt_count,
  )
