-- ===== src/Client/RatchetManager/Specification.antt =====
-- What the manager of ratchet_manager.cpp promises. For each conversation there is the ratchet of the
-- running program, if it was used since the start, and what a new start of the program finds.
use Prim.Native.String.{◌++◌ as text_append}
use scatter_web_project.Common.{
  ◌≡◌, Bytes, String, Option, none, some, List, [], ◌∷◌, ◌++◌, Result, ok, err, Exec, string_eq,
  ◌==◌, if◌then◌else◌, lookup,
}
use scatter_web_project.Crypto.{Provider}
use scatter_web_project.Cbor.{Libcbor, Loads, c_str}
use scatter_web_project.Ratchet.{
  State, Message, Coins, encrypt, decrypt, init_as_sender, init_as_receiver,
}
use scatter_web_project.Ratchet.Storage.{IsSized, stored_item, deserialize}
use scatter_web_project.Client.RatchetManager.{
  Manager, get_ratchet_state, ratchet_manager, manager_encrypt, manager_decrypt,
  manager_init_as_sender, manager_init_as_receiver,
}

-- `saved` is an error where what is stored cannot be read.
pub record Kept : Type 0 where
  pub running : Option State
  pub saved : Option (Result State)

abbrev pub World : Type 0
World = String → Kept

-- A call of the manager, or a new start of the program, which makes a new manager.
pub data Operation : Type 0 where
  start_sender : String → Bytes → Bytes → Bytes → Coins → Operation
  start_receiver : String → Bytes → Bytes → Bytes → Bytes → Bytes → Bytes → Operation
  seal : String → Bytes → Coins → Operation
  open_message : String → Message → Operation
  restart : Operation

pub data Output : Type 0 where
  prekey_sent : Bytes → Output
  ready : Output
  sealed : Result Message → Output
  opened : Result Bytes → Output

-- The id of the conversation holds no NUL.
abbrev pub HasWholeId : Operation → Type 0
HasWholeId (start_sender id a b c coins) = c_str id ≡ id
HasWholeId (start_receiver id a b c d e coins) = c_str id ≡ id
HasWholeId (seal id plaintext coins) = c_str id ≡ id
HasWholeId (open_message id msg) = c_str id ≡ id
HasWholeId restart = Unit

unfoldable pub no_state : String → String
no_state id = text_append "no ratchet state for conversation: " id

abbrev pub with_kept : String → Kept → World → World
with_kept id k w = λ j. if id == j then k else w j

-- What survives a new start: all but the keys of the messages that were skipped.
abbrev pub forgetful : State → State
forgetful st = record st { skipped_keys = [] }

abbrev pub stored_now : State → Kept
stored_now st = record { running = some st; saved = some (ok (forgetful st)) }

-- The ratchet that a call works on.
unfoldable pub current : String → Option State → Option (Result State) → Result State
current id (some st) saved = ok st
current id none (some r) = r
current id none none = err (no_state id)

-- A call that fails is not saved.
unfoldable pub after_call : {A : Type 0} → Result A → State → Option (Result State) → Kept
after_call (ok a) st saved = stored_now st
after_call (err e) st saved = record { running = some st; saved = saved }

unfoldable pub ratchet_step :
    {A : Type 0} → String → Exec State A → Result State → World → Result A × World
ratchet_step id f (err e) w = (err e, w)
ratchet_step id f (ok st) w = ((f st).0, with_kept id (after_call (f st).0 (f st).1 (w id).saved) w)

-- The states that the call saves.
unfoldable pub saves_after : {A : Type 0} → Result A → State → List State
saves_after (ok a) st = st ∷ []
saves_after (err e) st = []

unfoldable pub step_saves : {A : Type 0} → Exec State A → Result State → List State
step_saves f (err e) = []
step_saves f (ok st) = saves_after (f st).0 (f st).1

abbrev pub now_current : String → World → Result State
now_current id w = current id (w id).running (w id).saved

module _ (p : Provider) (lib : Libcbor) where
  unfoldable pub specified : Operation → World → Output × World
  specified (start_sender id prekey mine theirs coins) w =
      let result = init_as_sender p prekey mine theirs coins in
      (prekey_sent result.prekey_ct, with_kept id (stored_now result.state) w)
  specified (start_receiver id private ct theirs mine ratchet coins) w =
      (ready, with_kept id (stored_now (init_as_receiver p private ct theirs mine ratchet coins)) w)
  specified (seal id plaintext coins) w =
      let done = ratchet_step id (encrypt p plaintext coins) (now_current id w) w in
      (sealed done.0, done.1)
  specified (open_message id msg) w =
      let done = ratchet_step id (decrypt p msg) (now_current id w) w in (opened done.0, done.1)
  specified restart w = (ready, λ id. record { running = none; saved = (w id).saved })

  unfoldable pub specified_all : List Operation → World → List Output
  specified_all [] w = []
  specified_all (o ∷ os) w = (specified o w).0 ∷ specified_all os (specified o w).1

  unfoldable pub saves : Operation → World → List State
  saves (start_sender id prekey mine theirs coins) w =
      (init_as_sender p prekey mine theirs coins).state ∷ []
  saves (start_receiver id private ct theirs mine ratchet coins) w =
      init_as_receiver p private ct theirs mine ratchet coins ∷ []
  saves (seal id plaintext coins) w = step_saves (encrypt p plaintext coins) (now_current id w)
  saves (open_message id msg) w = step_saves (decrypt p msg) (now_current id w)
  saves restart w = []

  -- Every state that is saved on the way.
  unfoldable pub saves_all : List Operation → World → List State
  saves_all [] w = []
  saves_all (o ∷ os) w = saves o w ++ saves_all os (specified o w).1

  -- The code.
  unfoldable pub performed : Operation → Manager → Output × Manager
  performed (start_sender id prekey mine theirs coins) m =
      let done = manager_init_as_sender p lib id prekey mine theirs coins m in
      (prekey_sent done.0, done.1)
  performed (start_receiver id private ct theirs mine ratchet coins) m =
      (ready, manager_init_as_receiver p lib id private ct theirs mine ratchet coins m)
  performed (seal id plaintext coins) m =
      let done = manager_encrypt p lib id plaintext coins m in (sealed done.0, done.1)
  performed (open_message id msg) m =
      let done = manager_decrypt p lib id msg m in (opened done.0, done.1)
  performed restart m = (ready, ratchet_manager m.key_e_ratchet)

  unfoldable pub performed_all : List Operation → Manager → List Output
  performed_all [] m = []
  performed_all (o ∷ os) m = (performed o m).0 ∷ performed_all os (performed o m).1

module _ (lib : Libcbor) where
  -- What a new start makes of the bytes in the table.
  unfoldable pub read_blob : Bytes → Option (Result State)
  read_blob [] = none
  read_blob (b ∷ bs) = some (deserialize lib (b ∷ bs))

  -- The world that a manager stands for.
  unfoldable pub world_of : Manager → World
  world_of m id = record { running = lookup id m.cache; saved = read_blob (get_ratchet_state m id) }

  -- A state whose fields have the sizes of their C++ types, and that libcbor reads back.
  pub record IsStorable (st : State) : Type 0 where
    pub sized : IsSized lib st
    pub loads : Loads lib (stored_item lib st)
