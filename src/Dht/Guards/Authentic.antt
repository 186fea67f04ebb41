-- ===== src/Dht/Guards/Authentic.antt =====
-- What a guard record that `parse_guard_record` of record.cpp accepts must have been: signed by Key A,
-- or by a Key C that Key A delegated to, for the reader's own timeslot.
use scatter_web_project.Common.{
  ℕ, ◌≡◌, ◌⊎◌, inl, inr, Bytes, String, Bool, true, ok, [], nat_eq, ◌==◌, Bool-cases, arith,
}
use scatter_web_project.Fallible.{◌>>=◌, bind-ok}
use scatter_web_project.Crypto.{Provider, aes_decrypt, mldsa_verify}
use scatter_web_project.Cbor.{Pairs, Libcbor, find_pair}
use scatter_web_project.Dht.{load_map, bstr_or_throw}
use scatter_web_project.Dht.Plaintext.{GuardPlaintext, decode_plaintext}
use scatter_web_project.Dht.Delegation.{
  Delegated, verify_delegation_cert, verify_delegation_cert-Delegated,
}
use scatter_web_project.Dht.Guards.{
  signed_payload, check, Sealed, read_sealed, signing_key, record_key, open_sealed, parse_pairs,
  parse_guard_record,
}

check-ok : (b : Bool) (error : String) (u : Unit {0}) → check b error ≡ ok u → b ≡ true
unfolding check
check-ok b error u h = ground arith

module _ (lib : Libcbor) (p : Provider) where
  -- `signer` is Key A itself, or Key A delegated to it.
  abbrev pub Authority : Bytes → ℕ → Bytes → Type 0
  Authority key_a now signer = (signer ≡ key_a) ⊎ Delegated p lib key_a signer now

  -- The origin of a plaintext: the signature over what was read with it, and the sealed bytes that it
  -- was decoded from.
  pub record Origin (unset : ℕ) (key_b key_a : Bytes) (timeslot now : ℕ) (g : GuardPlaintext)
      : Type 0 where
    pub contents : Sealed
    pub signer : Bytes
    pub authority : Authority key_a now signer
    pub verified :
        mldsa_verify p signer
          (signed_payload contents.version timeslot contents.timestamp key_b contents.iv
            contents.ciphertext contents.tag)
          contents.signature
        ≡ true
    pub plain : Bytes
    pub opened :
        aes_decrypt p
          (record_key lib p contents.version key_b timeslot)
          contents.iv
          contents.ciphertext
          contents.tag
          []
        ≡ ok plain
    pub decoded : decode_plaintext lib unset plain ≡ ok g

  signing_key-Authority :
      (version : ℕ) (key_a signer : Bytes) (now : ℕ) (ps : Pairs)
      → signing_key lib p version key_a now ps ≡ ok signer
      → Authority key_a now signer
  unfolding signing_key
  signing_key-Authority version key_a signer now ps h = elim (Bool-cases (version == 2)) [
    | inl two ↦
        let h1 : (bstr_or_throw "dht_delegation_cert" (find_pair "dht_delegation_cert" ps)
              >>= λ (cert : Bytes). verify_delegation_cert p lib cert key_a now)
            ≡ ok signer =
          rw two at h in
        let (cert, e, h2) =
          bind-ok (bstr_or_throw "dht_delegation_cert" (find_pair "dht_delegation_cert" ps)) _
            signer h1 in
        inr (verify_delegation_cert-Delegated p lib cert key_a signer now h2)
    | inr other ↦ inl (ground arith)
  ]

  open_sealed-Origin :
      (unset timeslot now : ℕ) (key_b key_a signer : Bytes) (s : Sealed) (g : GuardPlaintext)
      → Authority key_a now signer
      → open_sealed lib p unset key_b timeslot signer s ≡ ok g
      → Origin unset key_b key_a timeslot now g
  unfolding open_sealed
  open_sealed-Origin unset timeslot now key_b key_a signer s g authority h =
      let test =
        mldsa_verify p signer
          (signed_payload s.version timeslot s.timestamp key_b s.iv s.ciphertext s.tag)
          s.signature in
      let (good, e1, h1) = bind-ok (check test "Guard record signature invalid") _ g h in
      let (plain, e2, h2) =
        bind-ok
          (aes_decrypt p (record_key lib p s.version key_b timeslot) s.iv s.ciphertext s.tag []) _ g
          h1 in
      record {
        contents = s;
        signer = signer;
        authority = authority;
        verified = check-ok test _ good e1;
        plain = plain;
        opened = e2;
        decoded = h2;
      }

  -- Whatever bytes the DHT returns, a plaintext that `parse_guard_record` accepts comes from sealed
  -- bytes whose signature, over the reader's own timeslot, verifies under Key A, or under a key that
  -- Key A delegated to until a time that has not passed; they open under the record's own key.
  pub parse_guard_record-Origin :
      (unset timeslot now : ℕ) (rec key_b key_a : Bytes) (g : GuardPlaintext)
      → parse_guard_record lib p unset rec key_b key_a timeslot now ≡ ok g
      → Origin unset key_b key_a timeslot now g
  unfolding parse_guard_record parse_pairs
  parse_guard_record-Origin unset timeslot now rec key_b key_a g h =
      let (ps, e1, h1) = bind-ok (load_map lib rec) _ g h in
      let (s, e2, h2) = bind-ok (read_sealed lib timeslot ps) _ g h1 in
      let (signer, e3, h3) = bind-ok (signing_key lib p s.version key_a now ps) _ g h2 in
      open_sealed-Origin unset timeslot now key_b key_a signer s g
        (signing_key-Authority s.version key_a signer now ps e3) h3
