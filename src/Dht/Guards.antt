-- ===== src/Dht/Guards.antt =====
-- The guard records of record.cpp, of both versions: `build_guard_record_v1`, `build_guard_record_v2`
-- and `parse_guard_record`.
pub mod Reading
pub mod Authentic
use scatter_web_project.Common.{
  ℕ, Bytes, String, Bool, true, false, Option, none, some, List, [], ◌∷◌, ◌++◌, Result, ok, err,
  nat_eq, ◌==◌, if◌then◌else◌,
}
use scatter_web_project.Fallible.{◌>>=◌}
use scatter_web_project.Crypto.{
  Provider, AesEncrypted, aes_encrypt, aes_decrypt, mldsa_sign, mldsa_verify, dsa_sig_bytes,
}
use scatter_web_project.Cbor.{
  Item, Pairs, bytestring, text, uint, dict, stop, Libcbor, uint64, find_pair, get_uint64,
  add_pairs,
}
use scatter_web_project.Dht.{
  be64, guard_aead_key, inbox_aead_key, load_map, bstr_or_throw, of_size, require,
}
use scatter_web_project.Dht.Plaintext.{GuardPlaintext, encode_plaintext, decode_plaintext}
use scatter_web_project.Dht.Delegation.{verify_delegation_cert}

unfoldable pub sign_payload_v1 : ℕ → ℕ → Bytes → Bytes → Bytes → Bytes
sign_payload_v1 timeslot timestamp iv ct tag =
    be64 timeslot ++ (be64 timestamp ++ (iv ++ (ct ++ tag)))

unfoldable pub sign_payload_v2 : ℕ → ℕ → Bytes → Bytes → Bytes → Bytes → Bytes
sign_payload_v2 timeslot timestamp key_b iv ct tag =
    be64 timeslot ++ (be64 timestamp ++ (key_b ++ (iv ++ (ct ++ tag))))

-- The payload that a reader rebuilds: every version but 1 is read as version 2.
unfoldable pub signed_payload : ℕ → ℕ → ℕ → Bytes → Bytes → Bytes → Bytes → Bytes
signed_payload version timeslot timestamp key_b iv ct tag =
    if version == 1
    then sign_payload_v1 timeslot timestamp iv ct tag
    else sign_payload_v2 timeslot timestamp key_b iv ct tag

unfoldable pub sealed_entries : AesEncrypted → List (String × Item)
sealed_entries e =
    ("iv", bytestring e.nonce)
    ∷ ("ciphertext", bytestring e.ciphertext)
    ∷ ("tag", bytestring e.tag)
    ∷ []

unfoldable pub ciphertext_map : Option Item → Result Pairs
ciphertext_map (some (dict ps)) = ok ps
ciphertext_map _ = err "Missing ciphertext map"

unfoldable pub check : Bool → String → Result (Unit {0})
check true error = ok tt
check false error = err error

-- The random bytes of one build: the nonce's and the signature's.
pub record BuildCoins : Type 0 where
  pub nonce : Bytes
  pub signature : Bytes

-- The part of a record that is read before its signature is checked.
pub record Sealed : Type 0 where
  pub version : ℕ
  pub timestamp : ℕ
  pub iv : Bytes
  pub ciphertext : Bytes
  pub tag : Bytes
  pub signature : Bytes

module _ (lib : Libcbor) where
  unfoldable pub sealed_item : AesEncrypted → Item
  sealed_item e = dict (add_pairs lib 3 (sealed_entries e) stop)

  unfoldable pub entries_v1 : ℕ → ℕ → AesEncrypted → Bytes → List (String × Item)
  entries_v1 timeslot timestamp e sig =
      ("version", uint64 1)
      ∷ ("timeslot", uint64 timeslot)
      ∷ ("timestamp", uint64 timestamp)
      ∷ ("ciphertext", sealed_item e)
      ∷ ("signature", bytestring sig)
      ∷ []

  unfoldable pub entries_v2 : ℕ → ℕ → Bytes → AesEncrypted → Bytes → Bytes → List (String × Item)
  entries_v2 timeslot timestamp key_b e sig cert =
      ("version", uint64 2)
      ∷ ("timeslot", uint64 timeslot)
      ∷ ("timestamp", uint64 timestamp)
      ∷ ("target_key_b_pubkey", bytestring key_b)
      ∷ ("ciphertext", sealed_item e)
      ∷ ("signature", bytestring sig)
      ∷ ("dht_delegation_cert", bytestring cert)
      ∷ []

  unfoldable pub item_v1 : ℕ → ℕ → AesEncrypted → Bytes → Item
  item_v1 timeslot timestamp e sig =
      dict (add_pairs lib 5 (entries_v1 timeslot timestamp e sig) stop)

  unfoldable pub item_v2 : ℕ → ℕ → Bytes → AesEncrypted → Bytes → Bytes → Item
  item_v2 timeslot timestamp key_b e sig cert =
      dict (add_pairs lib 7 (entries_v2 timeslot timestamp key_b e sig cert) stop)

  unfoldable pub version_of : Option Item → Result ℕ
  version_of (some (uint w n)) = ok (get_uint64 lib (uint w n))
  version_of _ = err "Guard record missing version"

  unfoldable pub timestamp_of : Option Item → ℕ
  timestamp_of none = 0
  timestamp_of (some item) = get_uint64 lib item

  -- `parse_guard_record` up to the signature's length.
  unfoldable pub read_sealed : ℕ → Pairs → Result Sealed
  read_sealed timeslot ps = do
    version ← version_of (find_pair "version" ps)
    slot ← require "Missing timeslot" (find_pair "timeslot" ps)
    same ← check (get_uint64 lib slot == timeslot) "Guard record timeslot mismatch"
    cts ← ciphertext_map (find_pair "ciphertext" ps)
    iv_bytes ← bstr_or_throw "iv" (find_pair "iv" cts)
    iv ← of_size 12 "iv must be 12 bytes" iv_bytes
    ct ← bstr_or_throw "ciphertext" (find_pair "ciphertext" cts)
    tag_bytes ← bstr_or_throw "tag" (find_pair "tag" cts)
    tag ← of_size 16 "tag must be 16 bytes" tag_bytes
    sig_bytes ← bstr_or_throw "signature" (find_pair "signature" ps)
    sig ← of_size dsa_sig_bytes "Bad signature length" sig_bytes
    ok (record {
      version = version;
      timestamp = timestamp_of (find_pair "timestamp" ps);
      iv = iv;
      ciphertext = ct;
      tag = tag;
      signature = sig;
    })

  module _ (p : Provider) where
    unfoldable pub build_guard_record_v1 :
        Bytes → ℕ → GuardPlaintext → Bytes → ℕ → BuildCoins → Result Bytes
    build_guard_record_v1 key_b timeslot g key_a_private now coins = do
      e ← aes_encrypt p (guard_aead_key p key_b timeslot) (encode_plaintext lib g) [] coins.nonce
      sig ←
          mldsa_sign p key_a_private (sign_payload_v1 timeslot now e.nonce e.ciphertext e.tag)
            coins.signature
      ok (lib.serialize (item_v1 timeslot now e sig))

    unfoldable pub build_guard_record_v2 :
        Bytes → ℕ → GuardPlaintext → Bytes → Bytes → ℕ → BuildCoins → Result Bytes
    build_guard_record_v2 key_b timeslot g key_c_private cert now coins = do
      e ← aes_encrypt p (inbox_aead_key p key_b timeslot) (encode_plaintext lib g) [] coins.nonce
      sig ←
          mldsa_sign p key_c_private (sign_payload_v2 timeslot now key_b e.nonce e.ciphertext e.tag)
            coins.signature
      ok (lib.serialize (item_v2 timeslot now key_b e sig cert))

    -- Who must have signed: for version 2, the key that the certificate delegates to.
    unfoldable pub signing_key : ℕ → Bytes → ℕ → Pairs → Result Bytes
    signing_key version key_a now ps =
        if version == 2
        then (do
          cert ← bstr_or_throw "dht_delegation_cert" (find_pair "dht_delegation_cert" ps)
          verify_delegation_cert p lib cert key_a now)
        else ok key_a

    unfoldable pub record_key : ℕ → Bytes → ℕ → Bytes
    record_key version key_b timeslot =
        if version == 1 then guard_aead_key p key_b timeslot else inbox_aead_key p key_b timeslot

    -- The rest of `parse_guard_record`.
    unfoldable pub open_sealed : ℕ → Bytes → ℕ → Bytes → Sealed → Result GuardPlaintext
    open_sealed unset key_b timeslot signer s = do
      good ←
          check
            (mldsa_verify p signer
              (signed_payload s.version timeslot s.timestamp key_b s.iv s.ciphertext s.tag)
              s.signature)
            "Guard record signature invalid"
      plain ← aes_decrypt p (record_key s.version key_b timeslot) s.iv s.ciphertext s.tag []
      decode_plaintext lib unset plain

    unfoldable pub parse_pairs : ℕ → Bytes → Bytes → ℕ → ℕ → Pairs → Result GuardPlaintext
    parse_pairs unset key_b key_a timeslot now ps = do
      s ← read_sealed timeslot ps
      signer ← signing_key s.version key_a now ps
      open_sealed unset key_b timeslot signer s

    unfoldable pub parse_guard_record : ℕ → Bytes → Bytes → Bytes → ℕ → ℕ → Result GuardPlaintext
    parse_guard_record unset rec key_b key_a timeslot now = do
      ps ← load_map lib rec
      parse_pairs unset key_b key_a timeslot now ps
