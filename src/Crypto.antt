-- ===== src/Crypto.antt =====
-- The cryptographic layer of common/src/crypto: aes_gcm.cpp, kdf.cpp and mlkem.cpp.
-- libsodium, OpenSSL and liboqs are not in the repository. Their functions are the fields of
-- `Provider`, and `IsSound` says what their documentation promises. Random bytes are arguments.
-- The digests and ML-KEM are taken to return: they fail only when memory runs out.

use Prim.Native.Char.{code}
use scatter_web_project.Common.{
  ℕ, Bytes, String, ◌≡◌, refl, Bool, true, Option, none, some, List, [], ◌∷◌, ◌++◌, Result, ok, err,
  length, nat_eq, ◌==◌, if◌then◌else◌, arith,
}

pub record Provider : Type 0 where
  -- crypto_aead_aes256gcm_is_available
  pub aes_available : Bool
  -- crypto_aead_aes256gcm_encrypt_detached: ciphertext and tag, `none` for a code other than 0
  pub aead_encrypt : (key nonce plaintext ad : Bytes) → Option (Bytes × Bytes)
  -- crypto_aead_aes256gcm_decrypt_detached
  pub aead_decrypt : (key nonce ciphertext tag ad : Bytes) → Option Bytes
  -- EVP_shake256 over all that was fed to it, with the wanted length
  pub xof : Bytes → ℕ → Bytes
  -- OQS_KEM_keypair, from its random bytes: public and private key
  pub kem_keypair : Bytes → Bytes × Bytes
  -- OQS_KEM_encaps, for a public key and random bytes: ciphertext and shared secret
  pub kem_encaps : Bytes → Bytes → Bytes × Bytes
  -- OQS_KEM_decaps, for a private key and a ciphertext
  pub kem_decaps : Bytes → Bytes → Bytes
  -- EVP_sha3_256
  pub sha3 : Bytes → Bytes
  -- OQS_SIG_keypair, from its random bytes: public and private key
  pub dsa_keypair : Bytes → Bytes × Bytes
  -- OQS_SIG_sign, for a private key, a message and random bytes, `none` for a code other than success
  pub dsa_sign : Bytes → Bytes → Bytes → Option Bytes
  -- OQS_SIG_verify, for a public key, a message and a signature
  pub dsa_verify : Bytes → Bytes → Bytes → Bool

pub record IsSound (p : Provider) : Type 0 where
  -- What was sealed opens under the same key, nonce and additional data.
  pub opens :
      (key nonce plain ad ct tag : Bytes)
      → p.aead_encrypt key nonce plain ad ≡ some (ct, tag)
      → p.aead_decrypt key nonce ct tag ad ≡ some plain
  pub ciphertext_length :
      (key nonce plain ad ct tag : Bytes)
      → p.aead_encrypt key nonce plain ad ≡ some (ct, tag)
      → length ct ≡ length plain
  pub tag_length :
      (key nonce plain ad ct tag : Bytes)
      → p.aead_encrypt key nonce plain ad ≡ some (ct, tag)
      → length tag ≡ 16
  pub plaintext_length :
      (key nonce ct tag ad plain : Bytes)
      → p.aead_decrypt key nonce ct tag ad ≡ some plain
      → length plain ≡ length ct
  -- Both ends of an encapsulation hold one secret.
  pub agrees :
      (seed coins : Bytes)
      → p.kem_decaps (p.kem_keypair seed).1 (p.kem_encaps (p.kem_keypair seed).0 coins).0
        ≡ (p.kem_encaps (p.kem_keypair seed).0 coins).1
  -- What was signed verifies under the public key of the pair.
  pub verifies :
      (seed msg coins sig : Bytes)
      → p.dsa_sign (p.dsa_keypair seed).1 msg coins ≡ some sig
      → p.dsa_verify (p.dsa_keypair seed).0 msg sig ≡ true

-- The processor has AES instructions, and no call to seal is refused.
pub record CanSeal (p : Provider) : Type 0 where
  pub available : p.aes_available ≡ true
  pub seals :
      (key nonce plain ad : Bytes)
      → (out : Bytes × Bytes) × (p.aead_encrypt key nonce plain ad ≡ some out)

-- `as_bytes` of a string literal.
abbrev pub ascii : String → Bytes
ascii String.[] = []
ascii (String.◌∷◌ c s) = code c ∷ ascii s

pub record AesEncrypted : Type 0 where
  pub ciphertext : Bytes
  pub tag : Bytes
  pub nonce : Bytes

abbrev pub unavailable : String
unavailable = "AES-256-GCM not available (no hardware AES-NI)"

sealed_result : Bytes → Option (Bytes × Bytes) → Result AesEncrypted
sealed_result nonce none = err "AES-256-GCM encrypt failed"
sealed_result nonce (some (ct, tag)) = ok (record { ciphertext = ct; tag = tag; nonce = nonce })

opened_result : Option Bytes → Result Bytes
opened_result none = err "AES-256-GCM authentication failed"
opened_result (some plain) = ok plain

abbrev pub dsa_pubkey_bytes : ℕ
dsa_pubkey_bytes = 1952

abbrev pub dsa_sig_bytes : ℕ
dsa_sig_bytes = 3309

-- The length is checked after the call.
signed_result : Option Bytes → Result Bytes
signed_result none = err "ML-DSA-65 sign failed"
signed_result (some sig) =
    if length sig == dsa_sig_bytes then ok sig else err "ML-DSA-65 unexpected signature length"

module _ (p : Provider) where
  unfoldable pub mldsa_sign : (private msg coins : Bytes) → Result Bytes
  unfolding signed_result
  mldsa_sign private msg coins = signed_result (p.dsa_sign private msg coins)

  abbrev pub mldsa_verify : (public msg sig : Bytes) → Bool
  mldsa_verify public msg sig = p.dsa_verify public msg sig

  -- What `mldsa_sign` returned has the length of a `DsaSig` and verifies.
  pub mldsa_sign_lem :
      (seed msg coins sig : Bytes)
      → IsSound p
      → mldsa_sign (p.dsa_keypair seed).1 msg coins ≡ ok sig
      → (length sig ≡ dsa_sig_bytes) × (mldsa_verify (p.dsa_keypair seed).0 msg sig ≡ true)
  unfolding mldsa_sign
  mldsa_sign_lem seed msg coins sig sound h =
      (ground arith, ground (arith, sound.verifies seed msg coins sig))

  -- The nonce is the twelve bytes that `aes_random_nonce` draws.
  unfoldable pub aes_encrypt : (key plaintext ad nonce : Bytes) → Result AesEncrypted
  unfolding sealed_result
  aes_encrypt key plaintext ad nonce =
      if p.aes_available
      then sealed_result nonce (p.aead_encrypt key nonce plaintext ad)
      else err unavailable

  unfoldable pub aes_decrypt : (key nonce ciphertext tag ad : Bytes) → Result Bytes
  unfolding opened_result
  aes_decrypt key nonce ciphertext tag ad =
      if p.aes_available
      then opened_result (p.aead_decrypt key nonce ciphertext tag ad)
      else err unavailable

  concat : List Bytes → Bytes
  concat [] = []
  concat (part ∷ parts) = part ++ concat parts

  -- sha3_256 of several parts
  unfoldable pub sha3_256 : List Bytes → Bytes
  unfolding concat
  sha3_256 parts = p.sha3 (concat parts)

  -- shake256_32 of several parts: each part is fed to the digest in turn
  unfoldable pub shake256_32 : List Bytes → Bytes
  unfolding concat
  shake256_32 parts = p.xof (concat parts) 32

  -- Decryption undoes encryption whenever encryption returned.
  pub aes_decrypt-encrypt :
      (key plain ad nonce : Bytes) (e : AesEncrypted)
      → IsSound p
      → aes_encrypt key plain ad nonce ≡ ok e
      → aes_decrypt key e.nonce e.ciphertext e.tag ad ≡ ok plain
  unfolding aes_encrypt aes_decrypt
  aes_decrypt-encrypt key plain ad nonce e sound h =
      ground (arith, sound.opens key nonce plain ad e.ciphertext e.tag)

  pub aes_encrypt-CanSeal :
      (key plain ad nonce : Bytes)
      → CanSeal p
      → (e : AesEncrypted) × (aes_encrypt key plain ad nonce ≡ ok e)
  unfolding aes_encrypt
  aes_encrypt-CanSeal key plain ad nonce can =
      let (out, sealed) = can.seals key nonce plain ad in
      (record { ciphertext = out.0; tag = out.1; nonce = nonce }, rw (can.available, sealed) refl)

  pub aes_encrypt-sizes :
      (key plain ad nonce : Bytes) (e : AesEncrypted)
      → IsSound p
      → aes_encrypt key plain ad nonce ≡ ok e
      → (e.nonce ≡ nonce) × (length e.tag ≡ 16) × (length e.ciphertext ≡ length plain)
  unfolding aes_encrypt
  aes_encrypt-sizes key plain ad nonce e sound h = (
    ground arith,
    ground (arith, sound.tag_length key nonce plain ad e.ciphertext e.tag),
    ground (arith, sound.ciphertext_length key nonce plain ad e.ciphertext e.tag),
  )
