-- ===== src/Dht/Delegation.antt =====
-- The delegation certificate of record.cpp: Key A lets Key C sign records.
use scatter_web_project.Common.{
  ℕ, ◌≡◌, ◌≤◌, refl, subst, Bytes, String, Bool, true, false, Option, some, List, [], ◌∷◌, ◌++◌,
  Result, ok, err, length, take, string_eq, nat_eq, ◌==◌, ltb, if◌then◌else◌, arith,
}
use scatter_web_project.Fallible.{◌>>=◌, bind-ok}
use scatter_web_project.Crypto.{
  Provider, IsSound, ascii, mldsa_sign, mldsa_verify, mldsa_sign_lem, dsa_pubkey_bytes,
  dsa_sig_bytes,
}
use scatter_web_project.Cbor.{
  Item, Pairs, bytestring, text, dict, stop, Libcbor, IsDefinite, Loads, uint64, find_pair,
  get_uint64, add_pairs, pairs_of, add_pairs-take,
}
use scatter_web_project.Dht.{be64, load_map, map_root, bstr_or_throw, of_size}

pub record DelegationCert : Type 0 where
  pub key_c : Bytes
  pub owner_key_a : Bytes
  pub issued_at : ℕ
  pub expires_at : ℕ

unfoldable pub delegation_sign_payload : Bytes → Bytes → ℕ → ℕ → Bytes
delegation_sign_payload key_c key_a issued_at expires_at =
    key_c ++ (key_a ++ (ascii "inbox" ++ (be64 issued_at ++ be64 expires_at)))

unfoldable pub cert_entries : DelegationCert → Bytes → List (String × Item)
cert_entries c sig =
    ("key_c_pubkey", bytestring c.key_c)
    ∷ ("owner_key_a_pubkey", bytestring c.owner_key_a)
    ∷ ("scope", text "inbox")
    ∷ ("issued_at", uint64 c.issued_at)
    ∷ ("expires_at", uint64 c.expires_at)
    ∷ ("signature", bytestring sig)
    ∷ []

unfoldable pub scope_of : Option Item → Result (Unit {0})
scope_of (some (text s)) =
    if s == "inbox" then ok tt else err "Delegation cert scope must be 'inbox'"
scope_of _ = err "Missing scope"

-- `if (!issued || !expires) throw`
unfoldable pub both : Option Item → Option Item → Result (Item × Item)
both (some i) (some e) = ok (i, e)
both _ _ = err "Missing issued_at/expires_at"

-- The last two tests of `verify_delegation_cert`.
unfoldable pub cert_verdict : Bool → ℕ → ℕ → Bytes → Result Bytes
cert_verdict false expires_at now key_c = err "Delegation cert signature invalid"
cert_verdict true expires_at now key_c =
    if ltb expires_at now then err "Delegation cert expired" else ok key_c

module _ (p : Provider) (lib : Libcbor) where
  unfoldable pub cert_item : DelegationCert → Bytes → Item
  cert_item c sig = dict (add_pairs lib 6 (cert_entries c sig) stop)

  unfoldable pub build_delegation_cert : DelegationCert → Bytes → Bytes → Result Bytes
  build_delegation_cert c key_a_private coins = do
    sig ←
        mldsa_sign p key_a_private
          (delegation_sign_payload c.key_c c.owner_key_a c.issued_at c.expires_at) coins
    ok (lib.serialize (cert_item c sig))

  -- The payload is built from the owner's key that the caller holds; the key in the certificate is
  -- only measured.
  unfoldable pub cert_key : Bytes → ℕ → Pairs → Result Bytes
  cert_key key_a now ps = do
    kc_bytes ← bstr_or_throw "key_c_pubkey" (find_pair "key_c_pubkey" ps)
    key_c ← of_size dsa_pubkey_bytes "Bad key_c_pubkey size" kc_bytes
    ka_bytes ← bstr_or_throw "owner_key_a_pubkey" (find_pair "owner_key_a_pubkey" ps)
    owner ← of_size dsa_pubkey_bytes "Bad owner_key_a_pubkey size" ka_bytes
    scope ← scope_of (find_pair "scope" ps)
    times ← both (find_pair "issued_at" ps) (find_pair "expires_at" ps)
    sig_bytes ← bstr_or_throw "signature" (find_pair "signature" ps)
    sig ← of_size dsa_sig_bytes "Bad delegation cert signature size" sig_bytes
    cert_verdict
        (mldsa_verify p key_a
          (delegation_sign_payload key_c key_a (get_uint64 lib times.0) (get_uint64 lib times.1))
          sig)
        (get_uint64 lib times.1) now key_c

  unfoldable pub verify_delegation_cert : Bytes → Bytes → ℕ → Result Bytes
  verify_delegation_cert cert key_a now = do ps ← load_map lib cert; cert_key key_a now ps

  -- A certificate's keys have the right size.
  pub record IsCert (c : DelegationCert) (key_a : Bytes) : Type 0 where
    pub key_c_size : length c.key_c ≡ dsa_pubkey_bytes
    pub key_a_size : length key_a ≡ dsa_pubkey_bytes
    pub owner : c.owner_key_a ≡ key_a

  cert_read :
      (c : DelegationCert) (key_a sig : Bytes) (now : ℕ)
      → IsCert c key_a
      → length sig ≡ dsa_sig_bytes
      → mldsa_verify p key_a (delegation_sign_payload c.key_c key_a c.issued_at c.expires_at) sig
        ≡ true
      → cert_key key_a now (pairs_of (take 6 (cert_entries c sig)))
        ≡ (if ltb c.expires_at now then err "Delegation cert expired" else ok c.key_c)
  unfolding cert_key cert_entries find_pair bstr_or_throw of_size scope_of both get_uint64
      cert_verdict
  cert_read c key_a sig now h len good = rw (h.key_c_size, h.owner, h.key_a_size, len, good) refl

  -- A certificate that Key A signed and that names Key A as its owner yields its Key C until it
  -- expires, and is refused afterwards.
  pub verify-build_delegation_cert :
      (c : DelegationCert) (seed coins sig : Bytes) (now : ℕ)
      → IsSound p
      → IsDefinite lib
      → IsCert c (p.dsa_keypair seed).0
      → mldsa_sign p
          (p.dsa_keypair seed).1
          (delegation_sign_payload c.key_c c.owner_key_a c.issued_at c.expires_at)
          coins
        ≡ ok sig
      → Loads lib (cert_item c sig)
      → (build_delegation_cert c (p.dsa_keypair seed).1 coins
          ≡ ok (lib.serialize (cert_item c sig)))
        × (verify_delegation_cert (lib.serialize (cert_item c sig)) (p.dsa_keypair seed).0 now
            ≡ (if ltb c.expires_at now then err "Delegation cert expired" else ok c.key_c))
  unfolding build_delegation_cert verify_delegation_cert load_map map_root cert_item
  verify-build_delegation_cert c seed coins sig now sound definite h signed loads =
      let (len, good) =
        mldsa_sign_lem p seed
          (delegation_sign_payload c.key_c c.owner_key_a c.issued_at c.expires_at) coins sig sound
          signed in
      (
        rw signed refl,
        rw (loads, map_root)
            (rw (add_pairs-take lib 6 (cert_entries c sig) definite) (
              cert_read c (p.dsa_keypair seed).0 sig now h len (
                subst
                  (λ (a : Bytes).
                    mldsa_verify p (p.dsa_keypair seed).0
                      (delegation_sign_payload c.key_c a c.issued_at c.expires_at) sig
                    ≡ true)
                  h.owner good))),
      )

  -- What a returned key stands on.
  pub record Delegated (key_a key_c : Bytes) (now : ℕ) : Type 0 where
    pub issued_at : ℕ
    pub expires_at : ℕ
    pub signature : Bytes
    pub verified :
        mldsa_verify p key_a (delegation_sign_payload key_c key_a issued_at expires_at) signature
        ≡ true
    pub in_time : now ≤ expires_at

  verdict-ok :
      (b : Bool) (expires_at now : ℕ) (key_c k : Bytes)
      → cert_verdict b expires_at now key_c ≡ ok k
      → (b ≡ true) × (now ≤ expires_at) × (key_c ≡ k)
  unfolding cert_verdict
  verdict-ok b expires_at now key_c k h = (ground arith, ground arith, ground arith)

  verdict-Delegated :
      (key_a key_c k sig : Bytes) (issued_at expires_at now : ℕ)
      → cert_verdict
          (mldsa_verify p key_a (delegation_sign_payload key_c key_a issued_at expires_at) sig)
          expires_at
          now
          key_c
        ≡ ok k
      → Delegated key_a k now
  verdict-Delegated key_a key_c k sig issued_at expires_at now h =
      let (good, in_time, same) = verdict-ok _ expires_at now key_c k h in
      record {
        issued_at = issued_at;
        expires_at = expires_at;
        signature = sig;
        verified =
            subst
              (λ (c : Bytes).
                mldsa_verify p key_a (delegation_sign_payload c key_a issued_at expires_at) sig
                ≡ true)
              same good;
        in_time = in_time;
      }

  cert_key-Delegated :
      (key_a k : Bytes) (now : ℕ) (ps : Pairs)
      → cert_key key_a now ps ≡ ok k
      → Delegated key_a k now
  unfolding cert_key
  cert_key-Delegated key_a k now ps h =
      let (kc_bytes, e1, h1) =
        bind-ok (bstr_or_throw "key_c_pubkey" (find_pair "key_c_pubkey" ps)) _ k h in
      let (key_c, e2, h2) =
        bind-ok (of_size dsa_pubkey_bytes "Bad key_c_pubkey size" kc_bytes) _ k h1 in
      let (ka_bytes, e3, h3) =
        bind-ok (bstr_or_throw "owner_key_a_pubkey" (find_pair "owner_key_a_pubkey" ps)) _ k h2 in
      let (owner, e4, h4) =
        bind-ok (of_size dsa_pubkey_bytes "Bad owner_key_a_pubkey size" ka_bytes) _ k h3 in
      let (scope, e5, h5) = bind-ok (scope_of (find_pair "scope" ps)) _ k h4 in
      let (times, e6, h6) =
        bind-ok (both (find_pair "issued_at" ps) (find_pair "expires_at" ps)) _ k h5 in
      let (sig_bytes, e7, h7) =
        bind-ok (bstr_or_throw "signature" (find_pair "signature" ps)) _ k h6 in
      let (sig, e8, h8) =
        bind-ok (of_size dsa_sig_bytes "Bad delegation cert signature size" sig_bytes) _ k h7 in
      verdict-Delegated key_a key_c k sig (get_uint64 lib times.0) (get_uint64 lib times.1) now h8

  -- A key that `verify_delegation_cert` returns was signed by Key A, for a time that has not passed.
  pub verify_delegation_cert-Delegated :
      (cert key_a k : Bytes) (now : ℕ)
      → verify_delegation_cert cert key_a now ≡ ok k
      → Delegated key_a k now
  unfolding verify_delegation_cert
  verify_delegation_cert-Delegated cert key_a k now h =
      let (ps, e, h1) = bind-ok (load_map lib cert) _ k h in cert_key-Delegated key_a k now ps h1
