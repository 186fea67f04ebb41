-- ===== src/Dht/Guards/Reading.antt =====
-- What `build_guard_record_v1` and `build_guard_record_v2` of record.cpp publish, `parse_guard_record`
-- reads.
use scatter_web_project.Common.{
  ℕ, ◌≡◌, refl, ap, ◌∙◌, beq_refl, sym, subst, Bytes, String, Bool, true, false, [], Result, ok,
  err, length, take, string_eq, nat_eq, ltb, if◌then◌else◌,
}
use scatter_web_project.Fallible.{◌>>=◌}
use scatter_web_project.Crypto.{
  Provider, IsSound, AesEncrypted, aes_encrypt, aes_decrypt, aes_decrypt-encrypt, aes_encrypt-sizes,
  mldsa_sign, mldsa_verify, mldsa_sign_lem, dsa_sig_bytes,
}
use scatter_web_project.Cbor.{
  Libcbor, IsDefinite, Loads, find_pair, get_uint64, pairs_of, add_pairs-take,
}
use scatter_web_project.Dht.{
  guard_aead_key, inbox_aead_key, load_map, map_root, bstr_or_throw, of_size, require,
}
use scatter_web_project.Dht.Plaintext.{
  GuardPlaintext, IsPlaintext, plaintext_item, encode_plaintext, decode_plaintext-encode,
}
use scatter_web_project.Dht.Delegation.{
  DelegationCert, IsCert, cert_item, delegation_sign_payload, build_delegation_cert,
  verify-build_delegation_cert,
}
use scatter_web_project.Dht.Guards.{
  sign_payload_v1, sign_payload_v2, signed_payload, sealed_entries, sealed_item, ciphertext_map,
  check, BuildCoins, entries_v1, entries_v2, item_v1, item_v2, version_of, timestamp_of,
  read_sealed, build_guard_record_v1, build_guard_record_v2, signing_key, record_key, open_sealed,
  parse_pairs, parse_guard_record,
}

-- A chain behind a test.
bind_if :
    {A B : Type 0} (b : Bool) (a : A) (e : String) (f : A → Result B) (r : Result B)
    → f a ≡ r
    → ((if b then err e else ok a) >>= f) ≡ (if b then err e else r)
bind_if true a e f r h = refl
bind_if false a e f r h = h

module _ (lib : Libcbor) (definite : IsDefinite lib) where
  read_v1 :
      (timeslot now : ℕ) (e : AesEncrypted) (sig : Bytes)
      → length e.nonce ≡ 12
      → length e.tag ≡ 16
      → length sig ≡ dsa_sig_bytes
      → read_sealed lib timeslot (pairs_of (take 5 (entries_v1 lib timeslot now e sig)))
        ≡ ok (record {
          version = 1;
          timestamp = now;
          iv = e.nonce;
          ciphertext = e.ciphertext;
          tag = e.tag;
          signature = sig;
        })
  unfolding read_sealed entries_v1 sealed_item find_pair version_of get_uint64 require check
      ciphertext_map bstr_or_throw of_size timestamp_of sealed_entries
  read_v1 timeslot now e sig n t s =
      rw (add_pairs-take lib 3 (sealed_entries e) definite, beq_refl timeslot, n, t, s) refl

  read_v2 :
      (timeslot now : ℕ) (key_b : Bytes) (e : AesEncrypted) (sig cert : Bytes)
      → length e.nonce ≡ 12
      → length e.tag ≡ 16
      → length sig ≡ dsa_sig_bytes
      → read_sealed lib timeslot (pairs_of (take 7 (entries_v2 lib timeslot now key_b e sig cert)))
        ≡ ok (record {
          version = 2;
          timestamp = now;
          iv = e.nonce;
          ciphertext = e.ciphertext;
          tag = e.tag;
          signature = sig;
        })
  unfolding read_sealed entries_v2 sealed_item find_pair version_of get_uint64 require check
      ciphertext_map bstr_or_throw of_size timestamp_of sealed_entries
  read_v2 timeslot now key_b e sig cert n t s =
      rw (add_pairs-take lib 3 (sealed_entries e) definite, beq_refl timeslot, n, t, s) refl

  module _ (p : Provider) (sound : IsSound p) where
    -- A published record of version 1, for the key and the timeslot that it was published for,
    -- yields exactly the plaintext.
    pub parse-build_guard_record_v1 :
        (unset timeslot now later : ℕ) (key_b seed sig : Bytes) (g : GuardPlaintext)
        (coins : BuildCoins) (e : AesEncrypted)
        → IsPlaintext lib g
        → length coins.nonce ≡ 12
        → aes_encrypt p (guard_aead_key p key_b timeslot) (encode_plaintext lib g) [] coins.nonce
          ≡ ok e
        → mldsa_sign p
            (p.dsa_keypair seed).1
            (sign_payload_v1 timeslot now e.nonce e.ciphertext e.tag)
            coins.signature
          ≡ ok sig
        → Loads lib (plaintext_item lib g)
        → Loads lib (item_v1 lib timeslot now e sig)
        → (rec : Bytes) × (build_guard_record_v1 lib p key_b timeslot g
              (p.dsa_keypair seed).1
              now
              coins
            ≡ ok rec)
          × (parse_guard_record lib p unset rec key_b (p.dsa_keypair seed).0 timeslot later ≡ ok g)
    unfolding build_guard_record_v1 parse_guard_record parse_pairs load_map map_root item_v1
        signing_key open_sealed signed_payload record_key check
    parse-build_guard_record_v1 unset timeslot now later key_b seed sig g coins e plain n sealed
          signed inner outer =
        let (len, good) =
          mldsa_sign_lem p seed (sign_payload_v1 timeslot now e.nonce e.ciphertext e.tag)
            coins.signature sig sound signed in
        let (nonce, tag, text) =
          aes_encrypt-sizes p (guard_aead_key p key_b timeslot) (encode_plaintext lib g) []
            coins.nonce e sound sealed in
        let opened =
          aes_decrypt-encrypt p (guard_aead_key p key_b timeslot) (encode_plaintext lib g) []
            coins.nonce e sound sealed in
        let fields = add_pairs-take lib 5 (entries_v1 lib timeslot now e sig) definite in
        (
          lib.serialize (item_v1 lib timeslot now e sig),
          rw (sealed, signed) refl,
          rw (outer, map_root)
              (rw (fields, read_v1 timeslot now e sig (ap length nonce ∙ n) tag len, good, opened)
                (decode_plaintext-encode lib unset g definite plain inner)),
        )

    opened_v2 :
        (unset timeslot now : ℕ) (key_b : Bytes) (e : AesEncrypted) (sig signer : Bytes)
        (g : GuardPlaintext)
        → IsPlaintext lib g
        → Loads lib (plaintext_item lib g)
        → aes_decrypt p (inbox_aead_key p key_b timeslot) e.nonce e.ciphertext e.tag []
          ≡ ok (encode_plaintext lib g)
        → mldsa_verify p signer (sign_payload_v2 timeslot now key_b e.nonce e.ciphertext e.tag) sig
          ≡ true
        → open_sealed lib p unset key_b timeslot signer (record {
          version = 2;
          timestamp = now;
          iv = e.nonce;
          ciphertext = e.ciphertext;
          tag = e.tag;
          signature = sig;
        })
          ≡ ok g
    unfolding open_sealed signed_payload record_key check
    opened_v2 unset timeslot now key_b e sig signer g plain inner opened good =
        rw (good, opened) (decode_plaintext-encode lib unset g definite plain inner)

    -- A published record of version 2, whose certificate Key A issued for the Key C that signed it,
    -- yields exactly the plaintext until the certificate expires, and is refused afterwards.
    pub parse-build_guard_record_v2 :
        (unset timeslot now later : ℕ) (key_b seed_a coins_a sig_a seed_c sig : Bytes)
        (c : DelegationCert) (g : GuardPlaintext) (coins : BuildCoins) (e : AesEncrypted)
        → IsPlaintext lib g
        → IsCert p lib c (p.dsa_keypair seed_a).0
        → c.key_c ≡ (p.dsa_keypair seed_c).0
        → length coins.nonce ≡ 12
        → mldsa_sign p
            (p.dsa_keypair seed_a).1
            (delegation_sign_payload c.key_c c.owner_key_a c.issued_at c.expires_at)
            coins_a
          ≡ ok sig_a
        → aes_encrypt p (inbox_aead_key p key_b timeslot) (encode_plaintext lib g) [] coins.nonce
          ≡ ok e
        → mldsa_sign p
            (p.dsa_keypair seed_c).1
            (sign_payload_v2 timeslot now key_b e.nonce e.ciphertext e.tag)
            coins.signature
          ≡ ok sig
        → Loads lib (plaintext_item lib g)
        → Loads lib (cert_item p lib c sig_a)
        → Loads lib (item_v2 lib timeslot now key_b e sig (lib.serialize (cert_item p lib c sig_a)))
        → (cert rec : Bytes) × (build_delegation_cert p lib c (p.dsa_keypair seed_a).1 coins_a
            ≡ ok cert)
          × (build_guard_record_v2 lib p key_b timeslot g (p.dsa_keypair seed_c).1 cert now coins
              ≡ ok rec)
          × (parse_guard_record lib p unset rec key_b (p.dsa_keypair seed_a).0 timeslot later
              ≡ (if ltb c.expires_at later then err "Delegation cert expired" else ok g))
    unfolding build_guard_record_v2 parse_guard_record parse_pairs load_map map_root item_v2
        entries_v2 find_pair bstr_or_throw signing_key
    parse-build_guard_record_v2 unset timeslot now later key_b seed_a coins_a sig_a seed_c sig c g
          coins e plain is_cert same n certified sealed signed inner middle outer =
        let cert = lib.serialize (cert_item p lib c sig_a) in
        let (len, good) =
          mldsa_sign_lem p seed_c (sign_payload_v2 timeslot now key_b e.nonce e.ciphertext e.tag)
            coins.signature sig sound signed in
        let (nonce, tag, text) =
          aes_encrypt-sizes p (inbox_aead_key p key_b timeslot) (encode_plaintext lib g) []
            coins.nonce e sound sealed in
        let opened =
          aes_decrypt-encrypt p (inbox_aead_key p key_b timeslot) (encode_plaintext lib g) []
            coins.nonce e sound sealed in
        let (built, verdict) =
          verify-build_delegation_cert p lib c seed_a coins_a sig_a later sound definite is_cert
            certified middle in
        let fields = add_pairs-take lib 7 (entries_v2 lib timeslot now key_b e sig cert) definite in
        (
          cert,
          lib.serialize (item_v2 lib timeslot now key_b e sig cert),
          built,
          rw (sealed, signed) refl,
          rw (outer, map_root)
              (rw
                (
                  fields,
                  read_v2 timeslot now key_b e sig cert (ap length nonce ∙ n) tag len,
                  verdict,
                )
                (bind_if (ltb c.expires_at later) c.key_c _ _ (ok g) (
                  opened_v2 unset timeslot now key_b e sig c.key_c g plain inner opened (
                    subst
                      (λ (k : Bytes).
                        mldsa_verify p k
                          (sign_payload_v2 timeslot now key_b e.nonce e.ciphertext e.tag) sig
                        ≡ true)
                      (sym same) good)))),
        )
