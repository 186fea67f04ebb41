-- ===== src/Examples/Records.antt =====
-- The theorems on the DHT records of record.cpp at concrete records.
use scatter_web_project.Common.{
  ℕ, ◌≡◌, refl, Bytes, true, Option, none, some, [], ◌∷◌, ok, replicate, length-replicate, nat_beq,
  if◌then◌else◌,
}
use scatter_web_project.Crypto.{AesEncrypted, aes_encrypt, aes_encrypt-CanSeal, mldsa_sign}
use scatter_web_project.Toy.{
  toy, toy-IsSound, toy-CanSeal, lettered, lettered-IsDefinite, mldsa_sign-toy,
}
use scatter_web_project.Cbor.{Item, Libcbor, Loads, c_str, add_pairs}
use scatter_web_project.Dht.{guard_aead_key, inbox_aead_key}
use scatter_web_project.Dht.Plaintext.{
  GuardPlaintext, IsPlaintext, plaintext_item, plaintext_entries, encode_plaintext,
}
use scatter_web_project.Dht.Delegation.{
  DelegationCert, IsCert, cert_item, cert_entries, delegation_sign_payload, build_delegation_cert,
}
use scatter_web_project.Dht.Guards.{
  BuildCoins, sign_payload_v1, sign_payload_v2, sealed_item, sealed_entries, entries_v1, entries_v2,
  item_v1, item_v2, build_guard_record_v1, build_guard_record_v2, parse_guard_record,
}
use scatter_web_project.Dht.Guards.Reading.{
  parse-build_guard_record_v1, parse-build_guard_record_v2,
}
use scatter_web_project.Dht.Guards.Authentic.{Origin, parse_guard_record-Origin}
use scatter_web_project.Dht.Prekeys.{
  PrekeyRecord, prekey_items, prekey_item, prekey_entries, prekey_sign_payload, build_prekey_record,
  parse_prekey_record, parse-build_prekey_record,
}

abbrev no_table : ℕ → Option Item
no_table n = none

abbrev blank : Libcbor
blank = lettered no_table

abbrev guard : GuardPlaintext
guard = record {
  guard_node_id = 1 ∷ 2 ∷ [];
  guard_endpoint = "10.0.0.1:9";
  session_token = replicate 32 5;
  prekey_available = true;
  inbox_auth_key = [];
  inbox_auth_expiry = 7;
}

abbrev coins : BuildCoins
coins = record { nonce = replicate 12 3; signature = [] }

abbrev key_a_seed : Bytes
key_a_seed = replicate 1952 1

sealed_v1 :
    (e : AesEncrypted) × (aes_encrypt toy (guard_aead_key toy (4 ∷ []) 6) (103 ∷ []) [] coins.nonce
      ≡ ok e)
sealed_v1 =
    aes_encrypt-CanSeal toy (guard_aead_key toy (4 ∷ []) 6) (103 ∷ []) [] coins.nonce toy-CanSeal

signed_v1 :
    (sig : Bytes) × (mldsa_sign toy key_a_seed
        (sign_payload_v1 6 8 sealed_v1.0.nonce sealed_v1.0.ciphertext sealed_v1.0.tag)
        coins.signature
      ≡ ok sig)
signed_v1 =
    mldsa_sign-toy key_a_seed
      (sign_payload_v1 6 8 sealed_v1.0.nonce sealed_v1.0.ciphertext sealed_v1.0.tag) coins.signature

-- The letters are g for the plaintext and v for the record.
abbrev table_v1 : ℕ → Option Item
table_v1 n =
    if nat_beq n 103
    then some (plaintext_item blank guard)
    else if nat_beq n 118
    then some (item_v1 blank 6 8 sealed_v1.0 signed_v1.0)
    else none

abbrev lib_v1 : Libcbor
lib_v1 = lettered table_v1

guard-IsPlaintext : IsPlaintext lib_v1 guard
unfolding c_str
guard-IsPlaintext = record { token = refl; endpoint = refl }

plaintext-Loads : Loads lib_v1 (plaintext_item lib_v1 guard)
unfolding plaintext_item plaintext_entries add_pairs
plaintext-Loads = refl

record_v1-Loads : Loads lib_v1 (item_v1 lib_v1 6 8 sealed_v1.0 signed_v1.0)
unfolding item_v1 entries_v1 sealed_item sealed_entries add_pairs
record_v1-Loads = refl

parse-build_guard_record_v1_example :
    (rec : Bytes) × (build_guard_record_v1 lib_v1 toy (4 ∷ []) 6 guard key_a_seed 8 coins ≡ ok rec)
    × (parse_guard_record lib_v1 toy 0 rec (4 ∷ []) key_a_seed 6 9 ≡ ok guard)
unfolding encode_plaintext plaintext_item plaintext_entries add_pairs
parse-build_guard_record_v1_example =
    parse-build_guard_record_v1 lib_v1 (lettered-IsDefinite table_v1) toy toy-IsSound 0 6 8 9
      (4 ∷ []) key_a_seed signed_v1.0 guard coins sealed_v1.0 guard-IsPlaintext refl sealed_v1.1
      signed_v1.1 plaintext-Loads record_v1-Loads

-- The record of the example, as a record that parses.
published : (rec : Bytes) × (parse_guard_record lib_v1 toy 0 rec (4 ∷ []) key_a_seed 6 9 ≡ ok guard)
unfolding encode_plaintext plaintext_item plaintext_entries add_pairs
published =
    let (rec, built, parsed) =
      parse-build_guard_record_v1 lib_v1 (lettered-IsDefinite table_v1) toy toy-IsSound 0 6 8 9
        (4 ∷ []) key_a_seed signed_v1.0 guard coins sealed_v1.0 guard-IsPlaintext refl sealed_v1.1
        signed_v1.1 plaintext-Loads record_v1-Loads in
    (rec, parsed)

parse_guard_record-Origin_example : Origin lib_v1 toy 0 (4 ∷ []) key_a_seed 6 9 guard
parse_guard_record-Origin_example =
    parse_guard_record-Origin lib_v1 toy 0 6 9 published.0 (4 ∷ []) key_a_seed guard published.1

abbrev key_c_seed : Bytes
key_c_seed = replicate 1952 2

abbrev cert : DelegationCert
cert = record { key_c = key_c_seed; owner_key_a = key_a_seed; issued_at = 5; expires_at = 10 }

cert_signed :
    (sig : Bytes) × (mldsa_sign toy key_a_seed
        (delegation_sign_payload cert.key_c cert.owner_key_a 5 10)
        []
      ≡ ok sig)
cert_signed =
    mldsa_sign-toy key_a_seed (delegation_sign_payload cert.key_c cert.owner_key_a 5 10) []

sealed_v2 :
    (e : AesEncrypted) × (aes_encrypt toy (inbox_aead_key toy (4 ∷ []) 6) (103 ∷ []) [] coins.nonce
      ≡ ok e)
sealed_v2 =
    aes_encrypt-CanSeal toy (inbox_aead_key toy (4 ∷ []) 6) (103 ∷ []) [] coins.nonce toy-CanSeal

signed_v2 :
    (sig : Bytes) × (mldsa_sign toy key_c_seed
        (sign_payload_v2 6 8 (4 ∷ []) sealed_v2.0.nonce sealed_v2.0.ciphertext sealed_v2.0.tag)
        coins.signature
      ≡ ok sig)
signed_v2 =
    mldsa_sign-toy key_c_seed
      (sign_payload_v2 6 8 (4 ∷ []) sealed_v2.0.nonce sealed_v2.0.ciphertext sealed_v2.0.tag)
      coins.signature

-- The letter k is the certificate's.
abbrev table_v2 : ℕ → Option Item
table_v2 n =
    if nat_beq n 103
    then some (plaintext_item blank guard)
    else if nat_beq n 107
    then some (cert_item toy blank cert cert_signed.0)
    else if nat_beq n 118
    then some (item_v2 blank 6 8 (4 ∷ []) sealed_v2.0 signed_v2.0 (107 ∷ []))
    else none

abbrev lib_v2 : Libcbor
lib_v2 = lettered table_v2

guard_v2-IsPlaintext : IsPlaintext lib_v2 guard
unfolding c_str
guard_v2-IsPlaintext = record { token = refl; endpoint = refl }

plaintext_v2-Loads : Loads lib_v2 (plaintext_item lib_v2 guard)
unfolding plaintext_item plaintext_entries add_pairs
plaintext_v2-Loads = refl

cert-Loads : Loads lib_v2 (cert_item toy lib_v2 cert cert_signed.0)
unfolding cert_item cert_entries add_pairs
cert-Loads = refl

record_v2-Loads : Loads lib_v2 (
    item_v2 lib_v2 6 8
      (4 ∷ [])
      sealed_v2.0
      signed_v2.0
      (lib_v2.serialize (cert_item toy lib_v2 cert cert_signed.0)))
unfolding item_v2 entries_v2 sealed_item sealed_entries cert_item cert_entries add_pairs
record_v2-Loads = refl

cert-IsCert : IsCert toy lib_v2 cert key_a_seed
cert-IsCert = record {
  key_c_size = length-replicate {A = ℕ} 1952 2;
  key_a_size = length-replicate {A = ℕ} 1952 1;
  owner = refl;
}

parse-build_guard_record_v2_example :
    (cert_bytes rec : Bytes) × (build_delegation_cert toy lib_v2 cert key_a_seed [] ≡ ok cert_bytes)
    × (build_guard_record_v2 lib_v2 toy (4 ∷ []) 6 guard key_c_seed cert_bytes 8 coins ≡ ok rec)
    × (parse_guard_record lib_v2 toy 0 rec (4 ∷ []) key_a_seed 6 9 ≡ ok guard)
unfolding encode_plaintext plaintext_item plaintext_entries add_pairs
parse-build_guard_record_v2_example =
    parse-build_guard_record_v2 lib_v2 (lettered-IsDefinite table_v2) toy toy-IsSound 0 6 8 9
      (4 ∷ []) key_a_seed [] cert_signed.0 key_c_seed signed_v2.0 cert guard coins sealed_v2.0
      guard_v2-IsPlaintext cert-IsCert refl refl cert_signed.1 sealed_v2.1 signed_v2.1
      plaintext_v2-Loads cert-Loads record_v2-Loads

abbrev prekeys : PrekeyRecord
prekeys = record { timestamp = 6; prekeys = replicate 1184 8 ∷ [] }

prekeys_signed :
    (sig : Bytes) × (mldsa_sign toy key_a_seed
        (prekey_sign_payload toy blank 6 (prekey_items prekeys.prekeys))
        []
      ≡ ok sig)
prekeys_signed =
    mldsa_sign-toy key_a_seed (prekey_sign_payload toy blank 6 (prekey_items prekeys.prekeys)) []

-- The letter t is the prekey record's.
abbrev table_prekeys : ℕ → Option Item
table_prekeys n =
    if nat_beq n 116 then some (prekey_item toy blank prekeys prekeys_signed.0) else none

abbrev lib_prekeys : Libcbor
lib_prekeys = lettered table_prekeys

prekeys-Loads : Loads lib_prekeys (prekey_item toy lib_prekeys prekeys prekeys_signed.0)
unfolding prekey_item prekey_entries add_pairs
prekeys-Loads = refl

parse-build_prekey_record_example :
    (rec : Bytes) × (build_prekey_record toy lib_prekeys prekeys key_a_seed [] ≡ ok rec)
    × (parse_prekey_record toy lib_prekeys rec key_a_seed ≡ ok prekeys)
unfolding prekey_sign_payload
parse-build_prekey_record_example =
    parse-build_prekey_record toy lib_prekeys prekeys key_a_seed [] prekeys_signed.0 toy-IsSound
      (lettered-IsDefinite table_prekeys) (length-replicate {A = ℕ} 1184 8, tt) prekeys_signed.1
      prekeys-Loads
