-- ===== src/Client/RatchetManager.antt =====
-- client/src/ratchet_manager.cpp, with the table key_e_ratchet of client/src/keystore.cpp.
-- The table is the blob of each id, and a text binds up to its first NUL (`c_str`, -1). A statement
-- that fails is not noticed: an empty blob binds NULL and leaves the table as it is.
pub mod Refinement
pub mod Representation
pub mod Specification
use Prim.Native.String.{◌++◌ as text_append}
use scatter_web_project.Common.{
  ℕ, Bytes, String, Bool, true, false, ◌||◌, Option, none, some, List, [], ◌∷◌, Result, ok, err,
  Exec, ◌>>=◌, ◌>>◌, pure, modify, Assoc, lookup, assign, string_eq,
}
use scatter_web_project.Crypto.{Provider}
use scatter_web_project.Cbor.{Libcbor, c_str}
use scatter_web_project.Ratchet.{
  State, Message, Coins, encrypt, decrypt, init_as_sender, init_as_receiver,
}
use scatter_web_project.Ratchet.Storage.{serialize, deserialize}

pub record Manager : Type 0 where
  pub cache : Assoc String State
  pub key_e_ratchet : Assoc String Bytes

-- The constructor, over the table that is there.
unfoldable pub ratchet_manager : Assoc String Bytes → Manager
ratchet_manager key_e_ratchet = record { cache = []; key_e_ratchet = key_e_ratchet }

blob_of : Option Bytes → Bytes
blob_of none = []
blob_of (some data_) = data_

unfoldable pub get_ratchet_state : Manager → String → Bytes
unfolding blob_of
get_ratchet_state m conv_id = blob_of (lookup (c_str conv_id) m.key_e_ratchet)

unfoldable pub stored_blob : String → Bytes → Assoc String Bytes → Assoc String Bytes
stored_blob key [] rows = rows
stored_blob key (b ∷ bs) rows = assign key (b ∷ bs) rows

unfoldable pub set_ratchet_state : String → Bytes → Manager → Manager
unfolding stored_blob
set_ratchet_state conv_id state m = record m {
  key_e_ratchet = stored_blob (c_str conv_id) state m.key_e_ratchet;
}

is_there : {A : Type 0} → Option A → Bool
is_there none = false
is_there (some a) = true

unfoldable pub has_state : Manager → String → Bool
unfolding is_there
has_state m conv_id =
    is_there (lookup conv_id m.cache) || is_there (lookup (c_str conv_id) m.key_e_ratchet)

-- cache_[conv_id] = st
unfoldable pub set_cached : String → State → Manager → Manager
set_cached conv_id st m = record m { cache = assign conv_id st m.cache }

module _ (p : Provider) (lib : Libcbor) where
  unfoldable pub persist : String → State → Manager → Manager
  persist conv_id st m = set_ratchet_state conv_id (serialize lib st) m

  unfoldable pub loaded_state : String → Result State → Exec Manager State
  loaded_state conv_id (err e) m = (err e, m)
  loaded_state conv_id (ok st) m = (ok st, set_cached conv_id st m)

  unfoldable pub load_blob : String → Bytes → Exec Manager State
  unfolding loaded_state
  load_blob conv_id [] m = (err (text_append "no ratchet state for conversation: " conv_id), m)
  load_blob conv_id (b ∷ bs) m = loaded_state conv_id (deserialize lib (b ∷ bs)) m

  unfoldable pub load_cached : String → Option State → Exec Manager State
  unfolding load_blob
  load_cached conv_id (some st) m = (ok st, m)
  load_cached conv_id none m = load_blob conv_id (get_ratchet_state m conv_id) m

  unfoldable pub load : String → Exec Manager State
  unfolding load_cached
  load conv_id m = load_cached conv_id (lookup conv_id m.cache) m

  -- The call on `State& st`, which is the entry of the cache: what it wrote stays there, and is
  -- persisted only when it returned.
  unfoldable pub finish_step : {A : Type 0} → String → Result A → State → Exec Manager A
  finish_step conv_id (err e) st m = (err e, set_cached conv_id st m)
  finish_step conv_id (ok a) st m = (ok a, persist conv_id st (set_cached conv_id st m))

  unfoldable pub on_state : {A : Type 0} → String → Exec State A → Exec Manager A
  unfolding finish_step
  on_state conv_id f = load conv_id >>= λ st. finish_step conv_id (f st).0 (f st).1

  unfoldable pub manager_encrypt : String → Bytes → Coins → Exec Manager Message
  manager_encrypt conv_id plaintext coins = on_state conv_id (encrypt p plaintext coins)

  unfoldable pub manager_decrypt : String → Message → Exec Manager Bytes
  manager_decrypt conv_id msg = on_state conv_id (decrypt p msg)

  unfoldable pub manager_init_as_sender :
      String
      → (peer_prekey_pub my_key_b_pub peer_key_b_pub : Bytes) → Coins
      → Manager
      → Bytes × Manager
  manager_init_as_sender conv_id peer_prekey_pub my_key_b_pub peer_key_b_pub coins m =
      let result = init_as_sender p peer_prekey_pub my_key_b_pub peer_key_b_pub coins in
      (result.prekey_ct, persist conv_id result.state (set_cached conv_id result.state m))

  unfoldable pub manager_init_as_receiver :
      String
      → (my_prekey_priv prekey_ct sender_key_b_pub my_key_b_pub sender_ratchet_pub : Bytes) → Bytes
      → Manager
      → Manager
  manager_init_as_receiver conv_id my_prekey_priv prekey_ct sender_key_b_pub my_key_b_pub
        sender_ratchet_pub coins m =
      let st =
        init_as_receiver p my_prekey_priv prekey_ct sender_key_b_pub my_key_b_pub sender_ratchet_pub
          coins in
      persist conv_id st (set_cached conv_id st m)
