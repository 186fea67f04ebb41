-- ===== src/Inbox/Keeping.antt =====
-- What becomes of stored messages: acknowledgement by the client, expiry, and the lists of senders.
use text.Mathlib.TextEquality.{eq_iff}
use scatter_web_project.Common.{
  ℕ, ◌+◌, ◌*◌, ◌≡◌, refl, ap, subst, ◌∙◌, sym, inl, inr, String, Bool, true, false, not, ◌||◌,
  Option, none, some, List, [], ◌∷◌, ◌++◌, append-nil, append_assoc, map, ok, err, string_eq, ◌==◌,
  if◌then◌else◌, beq_refl, Bool-cases, Option-cases, ltb, ◌<◌, arith,
}
use scatter_web_project.Int.{ℤ, pos}
use scatter_web_project.Inbox.Store.{
  StoredMessage, InboxStore, has_message, find_message, select, mark_delivered, delivered_row,
  delete_message, has_expired, delete_expired, constraint_error, has_sender, insert_senders,
  replace_allowed_senders,
}
use scatter_web_project.Inbox.Requests.{acknowledge}
use scatter_web_project.Inbox.Told.{IsDistinct, select-IsDistinct, delivered-IsDistinct}

-- The message of this id, when it passes the test.
abbrev passing : (StoredMessage → Bool) → Option StoredMessage → Option StoredMessage
passing test none = none
passing test (some m) = if test m then some m else none

abbrev pub after : (StoredMessage → StoredMessage) → Option StoredMessage → Option StoredMessage
after f none = none
after f (some m) = some (f m)

find_none :
    (id : String) (ms : List StoredMessage) → has_message id ms ≡ false → find_message id ms ≡ none
unfolding has_message find_message
find_none id [] h = refl
find_none id (m ∷ ms) h = ground (arith, find_none id ms)

has_message-select :
    (id : String) (test : StoredMessage → Bool) (ms : List StoredMessage)
    → has_message id ms ≡ false
    → has_message id (select test ms) ≡ false
unfolding has_message select
has_message-select id test [] h = refl
has_message-select id test (m ∷ ms) h = ground (arith, has_message-select id test ms)

find-select :
    (id : String) (test : StoredMessage → Bool) (ms : List StoredMessage)
    → IsDistinct ms
    → find_message id (select test ms) ≡ passing test (find_message id ms)
unfolding find_message select
find-select id test [] d = refl
find-select id test (m ∷ ms) d = elim (Bool-cases (m.message_id == id)) [
  | inl this ↦ elim (Bool-cases (test m)) [
    | inl kept ↦ rw (kept, this) (rw kept refl)
    | inr left ↦ rw left (
        rw this (
          rw left (
            find_none id (select test ms) (
              has_message-select id test ms
                (subst (λ i. has_message i ms ≡ false) ((eq_iff m.message_id id).0 this) d.0)))))
  ]
  | inr other ↦ elim (Bool-cases (test m)) [
    | inl kept ↦ rw kept (rw other (find-select id test ms d.1))
    | inr left ↦ rw left (rw other (find-select id test ms d.1))
  ]
]

find-delivered :
    (i id : String) (expires_at : ℤ) (ms : List StoredMessage)
    → find_message i (map (delivered_row id expires_at) ms)
      ≡ after (delivered_row id expires_at) (find_message i ms)
unfolding find_message delivered_row
find-delivered i id expires_at [] = refl
find-delivered i id expires_at (m ∷ ms) = elim (Bool-cases (m.message_id == id)) [
  | inl this ↦ elim (Bool-cases (m.message_id == i)) [
    | inl found ↦ rw (this, found) (rw this refl)
    | inr other ↦ rw (this, other) (find-delivered i id expires_at ms)
  ]
  | inr that ↦ elim (Bool-cases (m.message_id == i)) [
    | inl found ↦ rw (that, found) (rw that refl)
    | inr other ↦ rw (that, other) (find-delivered i id expires_at ms)
  ]
]

found_id :
    (id : String) (ms : List StoredMessage) (m : StoredMessage)
    → find_message id ms ≡ some m
    → m.message_id ≡ id
unfolding find_message
found_id id [] m h = absurd (cc)
found_id id (n ∷ ms) m h = elim (Bool-cases (n.message_id == id)) [
  | inl this ↦ ground (arith, eq_iff n.message_id id)
  | inr other ↦ found_id id ms m (sym (rw other refl) ∙ h)
]

-- What `inbox.ack` makes of a message that is not passed through.
abbrev pub kept_until : ℤ → StoredMessage → StoredMessage
kept_until expires_at m = record m { delivered_to_client = true; expires_at = expires_at }

delivered_one :
    (i id : String) (expires_at : ℤ) (m : StoredMessage)
    → m.message_id ≡ i
    → some (delivered_row id expires_at m)
      ≡ (if i == id then some (kept_until expires_at m) else some m)
unfolding delivered_row
delivered_one i id expires_at m same = rw (sym same) (ground arith)

delivered_found :
    (i id : String) (expires_at : ℤ) (ms : List StoredMessage)
    → after (delivered_row id expires_at) (find_message i ms)
      ≡ (if i == id then after (kept_until expires_at) (find_message i ms) else find_message i ms)
delivered_found i id expires_at ms = elim (Option-cases (find_message i ms)) [
  | inl missing ↦ rw missing (ground arith)
  | inr (m, found) ↦ rw found (delivered_one i id expires_at m (found_id i ms m found))
]

others_found :
    (i id : String) (ms : List StoredMessage)
    → passing (λ m. not (m.message_id == id)) (find_message i ms)
      ≡ (if i == id then none else find_message i ms)
others_found i id ms = elim (Option-cases (find_message i ms)) [
  | inl missing ↦ rw missing (ground arith)
  | inr (m, found) ↦ rw (found, found_id i ms m found) (ground arith)
]

-- `inbox.ack` of a message changes what is found under its id and nothing else: a pass_through
-- message is gone, another is marked as delivered, with an expiry after the retention time. The
-- ids of the stored messages are distinct.
pub acknowledge_exact :
    (now_s : ℕ) (id : String) (msg : StoredMessage) (st : InboxStore) (i : String)
    → IsDistinct st.stored_messages
    → find_message i (acknowledge now_s id msg st).stored_messages ≡ (
        if i == id
        then (if msg.persistence == "pass_through"
            then none
            else after
                (kept_until (pos (now_s + st.retention_days * 86400)))
                (find_message i st.stored_messages))
        else find_message i st.stored_messages)
unfolding acknowledge delete_message mark_delivered
acknowledge_exact now_s id msg st i d = elim (Bool-cases (msg.persistence == "pass_through")) [
  | inl gone ↦ rw gone (
      find-select i (λ m. not (m.message_id == id)) st.stored_messages d
      ∙ others_found i id st.stored_messages)
  | inr kept ↦ rw kept (
      find-delivered i id (pos (now_s + st.retention_days * 86400)) st.stored_messages
      ∙ delivered_found i id (pos (now_s + st.retention_days * 86400)) st.stored_messages)
]

acknowledge-IsDistinct :
    (now_s : ℕ) (id : String) (msg : StoredMessage) (st : InboxStore)
    → IsDistinct st.stored_messages
    → IsDistinct (acknowledge now_s id msg st).stored_messages
unfolding acknowledge delete_message mark_delivered
acknowledge-IsDistinct now_s id msg st d = elim (Bool-cases (msg.persistence == "pass_through")) [
  | inl gone ↦ rw gone (select-IsDistinct (λ m. not (m.message_id == id)) st.stored_messages d)
  | inr kept ↦
      rw kept
        (delivered-IsDistinct id (pos (now_s + st.retention_days * 86400)) st.stored_messages d)
]

-- An acknowledged message that is not passed through is there for the whole retention time, and a
-- round of maintenance after it removes the message. The ids of the stored messages are distinct.
pub acknowledged_retained :
    (now_s later_s : ℕ) (id : String) (msg : StoredMessage) (st : InboxStore)
    → IsDistinct st.stored_messages
    → find_message id st.stored_messages ≡ some msg
    → (msg.persistence == "pass_through") ≡ false
    → 0 < now_s + st.retention_days * 86400
    → find_message id (delete_expired later_s (acknowledge now_s id msg st)).stored_messages ≡ (
        if ltb (now_s + st.retention_days * 86400) later_s
        then none
        else some (kept_until (pos (now_s + st.retention_days * 86400)) msg))
unfolding delete_expired has_expired
acknowledged_retained now_s later_s id msg st d found kept positive =
    find-select id (λ m. not (has_expired later_s m)) (acknowledge now_s id msg st).stored_messages
      (acknowledge-IsDistinct now_s id msg st d)
    ∙ rw (acknowledge_exact now_s id msg st id d, kept, found) (rw (beq_refl id) (ground arith))

-- An id stands twice.
unfoldable pub repeats : List String → Bool
repeats [] = false
repeats (i ∷ r) = has_sender i r || repeats r

-- An id of the list stands among the rows.
clashes : List String → List String → Bool
clashes rows [] = false
clashes rows (i ∷ r) = has_sender i rows || clashes rows r

has_sender-append :
    (j i : String) (rows : List String)
    → has_sender j (rows ++ (i ∷ [])) ≡ has_sender j rows || (i == j)
unfolding has_sender
has_sender-append j i [] = ground arith
has_sender-append j i (k ∷ rows) = ground (arith, has_sender-append j i rows)

clashes-append :
    (rows : List String) (i : String) (ids : List String)
    → clashes (rows ++ (i ∷ [])) ids ≡ clashes rows ids || has_sender i ids
unfolding clashes has_sender
clashes-append rows i [] = refl
clashes-append rows i (j ∷ ids) =
    ground (arith, clashes-append rows i ids, has_sender-append j i rows, eq_iff i j, eq_iff j i)

insert_senders-exact :
    (rows ids : List String)
    → insert_senders rows ids
      ≡ (if clashes rows ids || repeats ids then none else some (rows ++ ids))
unfolding insert_senders clashes repeats
insert_senders-exact rows [] = ap some (sym (append-nil rows))
insert_senders-exact rows (i ∷ r) = ground (
  arith,
  insert_senders-exact (rows ++ (i ∷ [])) r,
  clashes-append rows i r,
  append_assoc rows (i ∷ []) r,
)

clashes_none : (ids : List String) → clashes [] ids ≡ false
unfolding clashes has_sender
clashes_none [] = refl
clashes_none (i ∷ r) = clashes_none r

inserted_senders :
    (ids : List String) → insert_senders [] ids ≡ (if repeats ids then none else some ids)
inserted_senders ids = insert_senders-exact [] ids ∙ rw (clashes_none ids) refl

-- A list of senders in which no id stands twice replaces the old list; any other list makes the
-- call throw, and the old one stays.
pub replace_allowed_senders_exact :
    (ids : List String) (st : InboxStore)
    → replace_allowed_senders ids st ≡ (
        if repeats ids
        then (err constraint_error, st)
        else (ok tt, record st { allowed_senders = ids }))
unfolding replace_allowed_senders
replace_allowed_senders_exact ids st = elim (Bool-cases (repeats ids)) [
  | inl twice ↦ rw (inserted_senders ids, replace_allowed_senders) (rw twice refl)
  | inr once ↦ rw (inserted_senders ids, replace_allowed_senders) (rw once refl)
]
