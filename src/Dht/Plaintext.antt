-- ===== src/Dht/Plaintext.antt =====
-- `GuardPlaintext` of record.hpp, `encode_plaintext` and `decode_plaintext` of record.cpp.
use scatter_web_project.Common.{
  ℕ, ◌≡◌, refl, Bytes, String, Bool, false, Option, some, List, [], ◌∷◌, Result, ok, err, length,
  take, string_eq, nat_eq,
}
use scatter_web_project.Fallible.{◌>>=◌}
use scatter_web_project.Cbor.{
  Item, Pairs, bytestring, text, uint, boolean, dict, stop, Libcbor, IsDefinite, Loads, uint64,
  find_pair, c_str, get_uint64, add_pairs, pairs_of, add_pairs-take,
}
use scatter_web_project.Dht.{load_map, map_root, bstr_or_throw, of_size}

pub record GuardPlaintext : Type 0 where
  pub guard_node_id : Bytes
  pub guard_endpoint : String
  pub session_token : Bytes
  pub prekey_available : Bool
  pub inbox_auth_key : Bytes
  pub inbox_auth_expiry : ℕ

unfoldable pub plaintext_entries : GuardPlaintext → List (String × Item)
plaintext_entries g =
    ("guard_node_id", bytestring g.guard_node_id)
    ∷ ("guard_endpoint", text (c_str g.guard_endpoint))
    ∷ ("session_token", bytestring g.session_token)
    ∷ ("prekey_available", boolean g.prekey_available)
    ∷ ("inbox_auth_key", bytestring g.inbox_auth_key)
    ∷ ("inbox_auth_expiry", uint64 g.inbox_auth_expiry)
    ∷ []

endpoint_of : Option Item → Result String
endpoint_of (some (text s)) = ok s
endpoint_of _ = err "Missing guard_endpoint"

is_set : Option Item → Bool
is_set (some (boolean b)) = b
is_set _ = false

auth_key_of : Option Item → Bytes
auth_key_of (some (bytestring b)) = b
auth_key_of _ = []

module _ (lib : Libcbor) where
  unfoldable pub plaintext_item : GuardPlaintext → Item
  plaintext_item g = dict (add_pairs lib 6 (plaintext_entries g) stop)

  unfoldable pub encode_plaintext : GuardPlaintext → Bytes
  encode_plaintext g = lib.serialize (plaintext_item g)

  -- A field that is not there stays uninitialised: `unset` is what it then holds.
  expiry_of : ℕ → Option Item → ℕ
  expiry_of unset (some (uint w n)) = get_uint64 lib (uint w n)
  expiry_of unset _ = unset

  unfoldable pub plaintext_of : ℕ → Pairs → Result GuardPlaintext
  unfolding endpoint_of is_set auth_key_of expiry_of
  plaintext_of unset ps = do
    node_id ← bstr_or_throw "guard_node_id" (find_pair "guard_node_id" ps)
    endpoint ← endpoint_of (find_pair "guard_endpoint" ps)
    bytes ← bstr_or_throw "session_token" (find_pair "session_token" ps)
    token ← of_size 32 "session_token must be 32 bytes" bytes
    ok (record {
      guard_node_id = node_id;
      guard_endpoint = endpoint;
      session_token = token;
      prekey_available = is_set (find_pair "prekey_available" ps);
      inbox_auth_key = auth_key_of (find_pair "inbox_auth_key" ps);
      inbox_auth_expiry = expiry_of unset (find_pair "inbox_auth_expiry" ps);
    })

  unfoldable pub decode_plaintext : ℕ → Bytes → Result GuardPlaintext
  decode_plaintext unset b = do ps ← load_map lib b; plaintext_of unset ps

  -- What a caller must give: a token of 32 bytes, and an endpoint without a NUL.
  pub record IsPlaintext (g : GuardPlaintext) : Type 0 where
    pub token : length g.session_token ≡ 32
    pub endpoint : c_str g.guard_endpoint ≡ g.guard_endpoint

  entries_read :
      (unset : ℕ) (g : GuardPlaintext)
      → IsPlaintext g
      → plaintext_of unset (pairs_of (take 6 (plaintext_entries g))) ≡ ok g
  unfolding plaintext_of plaintext_entries find_pair get_uint64 bstr_or_throw of_size
  entries_read unset g h = rw (h.token, h.endpoint) refl

  pub decode_plaintext-encode :
      (unset : ℕ) (g : GuardPlaintext)
      → IsDefinite lib
      → IsPlaintext g
      → Loads lib (plaintext_item g)
      → decode_plaintext unset (encode_plaintext g) ≡ ok g
  unfolding decode_plaintext encode_plaintext plaintext_item load_map map_root
  decode_plaintext-encode unset g definite h loads =
      rw (loads, map_root)
        (rw (add_pairs-take lib 6 (plaintext_entries g) definite) (entries_read unset g h))
