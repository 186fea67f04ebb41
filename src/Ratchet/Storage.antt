-- ===== src/Ratchet/Storage.antt =====
-- `serialize` and `deserialize` of ratchet.cpp: the ratchet state as a CBOR map.
use scatter_web_project.Common.{
  ℕ, ◌%◌, ◌^◌, ◌<◌, ◌≡◌, refl, Bytes, String, Bool, false, Option, none, some, List, [], ◌∷◌,
  Result, ok, err, length, take, Assoc, assign, nat_eq, if◌then◌else◌, ◌==◌, arith, string_eq,
}
use Prim.Native.String.{◌++◌}
use scatter_web_project.Fallible.{◌>>=◌}
use scatter_web_project.Cbor.{
  Item, Items, Pairs, bytestring, array, dict, boolean, nil, cons, stop, Libcbor, IsDefinite, Loads,
  uint64, find_pair, get_uint64, get_bytes, add_pairs, pairs_of, add_pairs-take,
}
use scatter_web_project.Ratchet.{State}

abbrev pub pubkey_bytes : ℕ
pubkey_bytes = 1184

abbrev pub privkey_bytes : ℕ
privkey_bytes = 2400

-- An array of [packed, key] pairs, in the map's order.
unfoldable pub skipped_items : Assoc ℕ Bytes → Items
skipped_items [] = nil
skipped_items ((packed, mk) ∷ r) =
    cons (array (cons (uint64 packed) (cons (bytestring mk) nil))) (skipped_items r)

-- The pairs in the order in which `serialize` adds them.
unfoldable pub state_entries : State → List (String × Item)
state_entries s =
    ("root_key", bytestring s.root_key)
    ∷ ("send_chain", bytestring s.send_chain_key)
    ∷ ("recv_chain", bytestring s.recv_chain_key)
    ∷ ("send_epoch", uint64 s.send_epoch)
    ∷ ("recv_epoch", uint64 s.recv_epoch)
    ∷ ("send_msg_num", uint64 s.send_msg_num)
    ∷ ("recv_msg_num", uint64 s.recv_msg_num)
    ∷ ("prev_send_count", uint64 s.prev_send_count)
    ∷ ("need_kem_step", boolean s.need_kem_step)
    ∷ ("my_ratchet_pub", bytestring s.my_ratchet_kem.public)
    ∷ ("my_ratchet_priv", bytestring s.my_ratchet_kem.private)
    ∷ ("peer_ratchet_pub", bytestring s.peer_ratchet_pub)
    ∷ ("skipped_keys", array (skipped_items s.skipped_keys))
    ∷ []

copied : String → ℕ → Bytes → Result Bytes
copied key expected b = if length b == expected then ok b else err ("wrong size for " ++ key)

-- The lambda `get_bstr`, on what the search for the key found.
take_bstr : String → ℕ → Option Item → Result Bytes
unfolding copied
take_bstr key expected (some (bytestring b)) = copied key expected b
take_bstr key expected (some item) = err ("expected bstr for " ++ key)
take_bstr key expected none = err ("missing key: " ++ key)

-- The lambda `get_bool`.
take_bool : String → Option Item → Result Bool
take_bool key (some (boolean b)) = ok b
take_bool key (some item) = ok false
take_bool key none = err ("missing key: " ++ key)

-- `static_cast<uint32_t>`
abbrev u32 : ℕ → ℕ
u32 n = n % 2 ^ 32

module _ (lib : Libcbor) where
  take_uint : String → Option Item → Result ℕ
  take_uint key (some item) = ok (get_uint64 lib item)
  take_uint key none = err ("missing key: " ++ key)

  -- One element of the stored array; what is no pair of a number and 32 bytes is passed over.
  load_skipped : Items → Assoc ℕ Bytes → Assoc ℕ Bytes
  load_skipped nil m = m
  load_skipped (cons (array (cons packed (cons mk more))) r) m = load_skipped r (
      if length (get_bytes lib mk) == 32
      then assign (get_uint64 lib packed) (get_bytes lib mk) m
      else m)
  load_skipped (cons _ r) m = load_skipped r m

  skipped_of : Option Item → Assoc ℕ Bytes
  unfolding load_skipped
  skipped_of (some (array items)) = load_skipped items []
  skipped_of _ = []

  state_of : Pairs → Result State
  unfolding take_bstr take_bool take_uint skipped_of
  state_of ps = do
    root ← take_bstr "root_key" 32 (find_pair "root_key" ps)
    send ← take_bstr "send_chain" 32 (find_pair "send_chain" ps)
    recv ← take_bstr "recv_chain" 32 (find_pair "recv_chain" ps)
    send_epoch ← take_uint "send_epoch" (find_pair "send_epoch" ps)
    recv_epoch ← take_uint "recv_epoch" (find_pair "recv_epoch" ps)
    send_num ← take_uint "send_msg_num" (find_pair "send_msg_num" ps)
    recv_num ← take_uint "recv_msg_num" (find_pair "recv_msg_num" ps)
    prev ← take_uint "prev_send_count" (find_pair "prev_send_count" ps)
    need ← take_bool "need_kem_step" (find_pair "need_kem_step" ps)
    public ← take_bstr "my_ratchet_pub" pubkey_bytes (find_pair "my_ratchet_pub" ps)
    private ← take_bstr "my_ratchet_priv" privkey_bytes (find_pair "my_ratchet_priv" ps)
    peer ← take_bstr "peer_ratchet_pub" pubkey_bytes (find_pair "peer_ratchet_pub" ps)
    ok (record {
      root_key = root;
      send_chain_key = send;
      recv_chain_key = recv;
      send_epoch = u32 send_epoch;
      recv_epoch = u32 recv_epoch;
      send_msg_num = u32 send_num;
      recv_msg_num = u32 recv_num;
      prev_send_count = u32 prev;
      need_kem_step = need;
      my_ratchet_kem = record { public = public; private = private };
      peer_ratchet_pub = peer;
      skipped_keys = skipped_of (find_pair "skipped_keys" ps);
    })

  -- The map is allocated for 12 pairs.
  unfoldable pub stored_item : State → Item
  stored_item s = dict (add_pairs lib 12 (state_entries s) stop)

  unfoldable pub serialize : State → Bytes
  unfolding stored_item
  serialize s = lib.serialize (stored_item s)

  state_of_item : Option Item → Result State
  unfolding state_of
  state_of_item none = err "ratchet::deserialize: CBOR parse error"
  state_of_item (some (dict ps)) = state_of ps
  state_of_item (some item) = err "ratchet::deserialize: expected map"

  unfoldable pub deserialize : Bytes → Result State
  unfolding state_of_item
  deserialize bytes = state_of_item (lib.load bytes)

  -- There is no CBOR item in no bytes.
  pub deserialize-nil :
      lib.load [] ≡ none → deserialize [] ≡ err "ratchet::deserialize: CBOR parse error"
  unfolding deserialize state_of_item
  deserialize-nil wants = rw wants refl

  -- The sizes and ranges that the C++ types give to the fields.
  pub record IsSized (s : State) : Type 0 where
    pub root : length s.root_key ≡ 32
    pub send : length s.send_chain_key ≡ 32
    pub recv : length s.recv_chain_key ≡ 32
    pub public : length s.my_ratchet_kem.public ≡ pubkey_bytes
    pub private : length s.my_ratchet_kem.private ≡ privkey_bytes
    pub peer : length s.peer_ratchet_pub ≡ pubkey_bytes
    pub send_epoch : s.send_epoch < 2 ^ 32
    pub recv_epoch : s.recv_epoch < 2 ^ 32
    pub send_msg_num : s.send_msg_num < 2 ^ 32
    pub recv_msg_num : s.recv_msg_num < 2 ^ 32
    pub prev_send_count : s.prev_send_count < 2 ^ 32

  deserialize_lem :
      (s : State)
      → IsSized s
      → state_of (pairs_of (take 12 (state_entries s))) ≡ ok (record s { skipped_keys = [] })
  unfolding state_of state_entries find_pair get_uint64
  deserialize_lem s sized = ground arith

  -- A state that is stored and loaded comes back with every field but the cached message keys:
  -- the cache comes back empty, whatever it held.
  pub deserialize-serialize :
      (s : State)
      → IsDefinite lib
      → IsSized s
      → Loads lib (stored_item s)
      → deserialize (serialize s) ≡ ok (record s { skipped_keys = [] })
  unfolding deserialize serialize stored_item state_of_item
  deserialize-serialize s definite sized loads =
      rw (loads, state_of_item)
        (rw (add_pairs-take lib 12 (state_entries s) definite) (deserialize_lem s sized))
