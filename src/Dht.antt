-- ===== src/Dht.antt =====
-- common/src/dht/record.cpp: the records that a node publishes in the DHT. This file has what all of
-- them share: keys, the reading of a map, and byte order. `std::time` and random bytes are arguments.
pub mod Plaintext
pub mod Delegation
pub mod Guards
pub mod Prekeys
use Prim.Native.String.{◌++◌}
use scatter_web_project.Common.{
  ℕ, ◌*◌, ◌/◌, ◌%◌, ◌^◌, Bytes, String, Option, none, some, [], ◌∷◌, Result, ok, err, length,
  nat_eq, ◌==◌, if◌then◌else◌,
}
use scatter_web_project.Crypto.{Provider, ascii, sha3_256, shake256_32}
use scatter_web_project.Cbor.{Item, Pairs, bytestring, dict, Libcbor}

-- A uint64_t, most significant byte first.
unfoldable pub be64 : ℕ → Bytes
be64 n =
    (n / 2 ^ 56 % 256)
    ∷ (n / 2 ^ 48 % 256)
    ∷ (n / 2 ^ 40 % 256)
    ∷ (n / 2 ^ 32 % 256)
    ∷ (n / 2 ^ 24 % 256)
    ∷ (n / 2 ^ 16 % 256)
    ∷ (n / 2 ^ 8 % 256)
    ∷ (n % 256)
    ∷ []

-- `load_map`, on what `cbor_load` gave.
unfoldable pub map_root : Option Item → Result Pairs
map_root none = err "CBOR parse error"
map_root (some (dict ps)) = ok ps
map_root (some item) = err "Expected top-level map"

unfoldable pub load_map : Libcbor → Bytes → Result Pairs
unfolding map_root
load_map lib b = map_root (lib.load b)

unfoldable pub bstr_or_throw : String → Option Item → Result Bytes
bstr_or_throw field (some (bytestring b)) = ok b
bstr_or_throw field _ = err ("Missing/invalid bstr: " ++ field)

-- A byte string that is copied into a fixed array after a test of its length.
unfoldable pub of_size : ℕ → String → Bytes → Result Bytes
of_size n text b = if length b == n then ok b else err text

-- `if (!item) throw`
unfoldable pub require : String → Option Item → Result Item
require text none = err text
require text (some item) = ok item

module _ (p : Provider) where
  unfoldable pub guard_dht_key : Bytes → ℕ → Bytes
  guard_dht_key key_b timeslot = sha3_256 p (key_b ∷ be64 timeslot ∷ [])

  -- The key of a version 1 record; version 2 uses another label.
  unfoldable pub guard_aead_key : Bytes → ℕ → Bytes
  guard_aead_key key_b timeslot = shake256_32 p (key_b ∷ be64 timeslot ∷ ascii "guard_record" ∷ [])

  unfoldable pub inbox_aead_key : Bytes → ℕ → Bytes
  inbox_aead_key key_b timeslot =
      shake256_32 p (key_b ∷ be64 timeslot ∷ ascii "inbox_dht_record" ∷ [])

  unfoldable pub prekey_dht_key : Bytes → Bytes
  prekey_dht_key key_b = sha3_256 p (ascii "prekeys" ∷ key_b ∷ [])
