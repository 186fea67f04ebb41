-- ===== src/Inbox/Told.antt =====
-- The invariant of the inbox: no message id is stored twice, and the client was told of every stored
-- message. The changes of store.cpp and of `announce` keep it.
use text.Mathlib.TextEquality.{eq_iff}
use scatter_web_project.Common.{
  ◌≡◌, refl, ◌⊎◌, inl, inr, String, Bool, false, List, [], ◌∷◌, ◌++◌, map, All, string_eq, ◌==◌,
  Bool-cases, arith,
}
use scatter_web_project.Int.{ℤ}
use scatter_web_project.Ipc.Value.{Fields}
use scatter_web_project.Inbox.Store.{StoredMessage, has_message, select, delivered_row}
use scatter_web_project.Inbox.Node.{Inbox, announcement, announce, push}
use scatter_web_project.Inbox.Quiet.{Keeps}

abbrev pub IsDistinct : List StoredMessage → Type 0
IsDistinct [] = Unit
IsDistinct (m ∷ ms) = (has_message m.message_id ms ≡ false) × IsDistinct ms

abbrev pub IsIn : String × Fields → List (String × Fields) → Type 0
IsIn event [] = ⊥
IsIn event (e ∷ es) = (e ≡ event) ⊎ IsIn event es

-- The client was told of this message.
abbrev pub IsTold : List (String × Fields) → StoredMessage → Type 0
IsTold pushed m = IsIn (announcement m.message_id m.sender_id) pushed

pub record IsSound (s : Inbox) : Type 0 where
  pub distinct : IsDistinct s.store.stored_messages
  pub told : All (IsTold s.pushed) s.store.stored_messages

told_before : (e : String × Fields) (xs ys : List (String × Fields)) → IsIn e xs → IsIn e (xs ++ ys)
told_before e [] ys h = absurd h
told_before e (x ∷ xs) ys (inl h) = inl h
told_before e (x ∷ xs) ys (inr h) = inr (told_before e xs ys h)

told_last : (e : String × Fields) (xs : List (String × Fields)) → IsIn e (xs ++ (e ∷ []))
told_last e [] = inl refl
told_last e (x ∷ xs) = inr (told_last e xs)

All-IsTold :
    (ms : List StoredMessage) (xs ys : List (String × Fields))
    → All (IsTold xs) ms
    → All (IsTold (xs ++ ys)) ms
All-IsTold [] xs ys h = tt
All-IsTold (m ∷ ms) xs ys h =
    (told_before (announcement m.message_id m.sender_id) xs ys h.0, All-IsTold ms xs ys h.1)

All-append :
    (P : StoredMessage → Type 0) (ms : List StoredMessage) (m : StoredMessage)
    → All P ms
    → P m
    → All P (ms ++ (m ∷ []))
All-append P [] m h k = (k, tt)
All-append P (n ∷ ms) m h k = (h.0, All-append P ms m h.1 k)

has_message-append :
    (id : String) (ms : List StoredMessage) (m : StoredMessage)
    → has_message id ms ≡ false
    → (m.message_id == id) ≡ false
    → has_message id (ms ++ (m ∷ [])) ≡ false
unfolding has_message
has_message-append id [] m h k = rw k refl
has_message-append id (n ∷ ms) m h k = ground (arith, has_message-append id ms m)

flip : (i j : String) → (j == i) ≡ false → (i == j) ≡ false
flip i j h = ground (arith, eq_iff i j, eq_iff j i)

append-IsDistinct :
    (ms : List StoredMessage) (m : StoredMessage)
    → IsDistinct ms
    → has_message m.message_id ms ≡ false
    → IsDistinct (ms ++ (m ∷ []))
unfolding has_message
append-IsDistinct [] m d new = (refl, tt)
append-IsDistinct (n ∷ ms) m d new = (
  has_message-append n.message_id ms m d.0 (flip m.message_id n.message_id (ground arith)),
  append-IsDistinct ms m d.1 (ground arith),
)

has_message-select :
    (id : String) (test : StoredMessage → Bool) (ms : List StoredMessage)
    → has_message id ms ≡ false
    → has_message id (select test ms) ≡ false
unfolding has_message select
has_message-select id test [] h = refl
has_message-select id test (m ∷ ms) h = ground (arith, has_message-select id test ms)

pub select-IsDistinct :
    (test : StoredMessage → Bool) (ms : List StoredMessage)
    → IsDistinct ms
    → IsDistinct (select test ms)
unfolding select
select-IsDistinct test [] d = tt
select-IsDistinct test (m ∷ ms) d =
    ground (arith, select-IsDistinct test ms d.1, has_message-select m.message_id test ms d.0)

All-select :
    (P : StoredMessage → Type 0) (test : StoredMessage → Bool) (ms : List StoredMessage)
    → All P ms
    → All P (select test ms)
unfolding select
All-select P test [] h = tt
All-select P test (m ∷ ms) h = elim (Bool-cases (test m)) [
  | inl kept ↦ rw kept (h.0, All-select P test ms h.1)
  | inr left ↦ rw left (All-select P test ms h.1)
]

-- `mark_delivered` changes neither ids nor senders.
has_message-delivered :
    (i id : String) (expires_at : ℤ) (ms : List StoredMessage)
    → has_message i (map (delivered_row id expires_at) ms) ≡ has_message i ms
unfolding has_message delivered_row
has_message-delivered i id expires_at [] = refl
has_message-delivered i id expires_at (m ∷ ms) =
    ground (arith, has_message-delivered i id expires_at ms)

pub delivered-IsDistinct :
    (id : String) (expires_at : ℤ) (ms : List StoredMessage)
    → IsDistinct ms
    → IsDistinct (map (delivered_row id expires_at) ms)
unfolding delivered_row
delivered-IsDistinct id expires_at [] d = tt
delivered-IsDistinct id expires_at (m ∷ ms) d = ground (
  arith,
  delivered-IsDistinct id expires_at ms d.1,
  has_message-delivered m.message_id id expires_at ms,
)

delivered-IsTold :
    (id : String) (expires_at : ℤ) (m : StoredMessage) (pushed : List (String × Fields))
    → IsTold pushed m
    → IsTold pushed (delivered_row id expires_at m)
unfolding delivered_row
delivered-IsTold id expires_at m pushed h = elim (Bool-cases (m.message_id == id)) [
  | inl this ↦ rw this h
  | inr other ↦ rw other h
]

All-delivered :
    (id : String) (expires_at : ℤ) (ms : List StoredMessage) (pushed : List (String × Fields))
    → All (IsTold pushed) ms
    → All (IsTold pushed) (map (delivered_row id expires_at) ms)
All-delivered id expires_at [] pushed h = tt
All-delivered id expires_at (m ∷ ms) pushed h =
    (delivered-IsTold id expires_at m pushed h.0, All-delivered id expires_at ms pushed h.1)

-- Where both are unchanged the invariant is.
pub Keeps-IsSound : (s t : Inbox) → Keeps s t → IsSound s → IsSound t
Keeps-IsSound s t k sound = record {
  distinct = rw k.0 sound.distinct;
  told = rw (k.0, k.1) sound.told;
}

pub announce-IsSound : (id sender : String) (s : Inbox) → IsSound s → IsSound (announce id sender s)
unfolding announce push
announce-IsSound id sender s sound = record {
  distinct = sound.distinct;
  told = All-IsTold s.store.stored_messages s.pushed (announcement id sender ∷ []) sound.told;
}

pub select-IsSound :
    (test : StoredMessage → Bool) (s t : Inbox)
    → t.store.stored_messages ≡ select test s.store.stored_messages
    → t.pushed ≡ s.pushed
    → IsSound s
    → IsSound t
select-IsSound test s t rows events sound = record {
  distinct = rw rows (select-IsDistinct test s.store.stored_messages sound.distinct);
  told = rw (rows, events) (All-select (IsTold s.pushed) test s.store.stored_messages sound.told);
}

pub delivered-IsSound :
    (id : String) (expires_at : ℤ) (s t : Inbox)
    → t.store.stored_messages ≡ map (delivered_row id expires_at) s.store.stored_messages
    → t.pushed ≡ s.pushed
    → IsSound s
    → IsSound t
delivered-IsSound id expires_at s t rows events sound = record {
  distinct = rw rows (delivered-IsDistinct id expires_at s.store.stored_messages sound.distinct);
  told =
      rw (rows, events) (All-delivered id expires_at s.store.stored_messages s.pushed sound.told);
}

-- A new message, and the announcement that follows it.
pub announced-IsSound :
    (m : StoredMessage) (s t : Inbox)
    → has_message m.message_id s.store.stored_messages ≡ false
    → t.store.stored_messages ≡ s.store.stored_messages ++ (m ∷ [])
    → t.pushed ≡ s.pushed
    → IsSound s
    → IsSound (announce m.message_id m.sender_id t)
unfolding announce push
announced-IsSound m s t new rows events sound = record {
  distinct = rw rows (append-IsDistinct s.store.stored_messages m sound.distinct new);
  told =
      rw (rows, events)
        (All-append (IsTold (s.pushed ++ (announcement m.message_id m.sender_id ∷ [])))
          s.store.stored_messages m
          (All-IsTold s.store.stored_messages s.pushed (announcement m.message_id m.sender_id ∷ [])
            sound.told)
          (told_last (announcement m.message_id m.sender_id) s.pushed));
}
