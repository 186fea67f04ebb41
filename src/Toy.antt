-- ===== src/Toy.antt =====
-- A cryptographic provider that can be computed: it shows that `IsSound` can be met, and serves
-- the examples. Nothing is secret here: the tag is a prefix of what it authenticates.
use scatter_web_project.Common.{
  ℕ, Bytes, String, ◌≡◌, refl, true, ok, Option, none, some, ◌++◌, length, take, replicate,
  length-append, length-take, length-replicate, ◌∷◌, [], ltb, lt→ltb, le→ltb_false, if◌then◌else◌,
  arith, ◌==◌, bytes_eq, beq_refl,
}
use scatter_web_project.Crypto.{dsa_sig_bytes, mldsa_sign, Provider, IsSound, CanSeal}
use Prim.Native.Char.{code}
use scatter_web_project.Cbor.{Item, dict, text, pair, Libcbor, IsDefinite, count_pairs, add_last}

abbrev toy_tag : Bytes → Bytes → Bytes → Bytes → Bytes
toy_tag key nonce plain ad = take 16 (plain ++ (nonce ++ (key ++ (ad ++ replicate 16 0))))

abbrev toy_open : Bytes → Bytes → Bytes → Bytes → Bytes → Option Bytes
toy_open key nonce ct tag ad = if tag == toy_tag key nonce ct ad then some ct else none

-- A signature of the fixed length that starts with what it signs.
unfoldable pub toy_sign : Bytes → Bytes → Bytes
toy_sign key msg = take dsa_sig_bytes (key ++ (msg ++ replicate dsa_sig_bytes 0))

length-toy_sign : (key msg : Bytes) → length (toy_sign key msg) ≡ dsa_sig_bytes
unfolding toy_sign
length-toy_sign key msg =
    length-take dsa_sig_bytes (key ++ (msg ++ replicate dsa_sig_bytes 0))
      (simp (length-append, length-replicate) (omega arith))

abbrev pub toy : Provider
toy = record {
  aes_available = true;
  aead_encrypt = λ key nonce plain ad. some (plain, toy_tag key nonce plain ad);
  aead_decrypt = toy_open;
  xof = λ input n. take n (input ++ replicate n 0);
  kem_keypair = λ seed. (seed, seed);
  kem_encaps = λ public coins. (coins, public ++ coins);
  kem_decaps = λ private ct. private ++ ct;
  sha3 = λ input. take 32 (input ++ replicate 32 0);
  dsa_keypair = λ seed. (seed, seed);
  dsa_sign = λ private msg coins. some (toy_sign private msg);
  dsa_verify = λ public msg sig. sig == toy_sign public msg;
}

length-toy_tag : (key nonce plain ad : Bytes) → length (toy_tag key nonce plain ad) ≡ 16
length-toy_tag key nonce plain ad =
    length-take 16 (plain ++ (nonce ++ (key ++ (ad ++ replicate 16 0))))
      (simp length-append (omega arith))

toy_opens :
    (key nonce plain ad ct tag : Bytes)
    → toy.aead_encrypt key nonce plain ad ≡ some (ct, tag)
    → toy.aead_decrypt key nonce ct tag ad ≡ some plain
toy_opens key nonce plain ad ct tag h = ground (arith, beq_refl (toy_tag key nonce plain ad))

pub toy-IsSound : IsSound toy
toy-IsSound = record {
  opens = toy_opens;
  ciphertext_length = λ key nonce plain ad ct tag h. ground arith;
  tag_length = λ key nonce plain ad ct tag h. ground (arith, length-toy_tag key nonce plain ad);
  plaintext_length = λ key nonce ct tag ad plain h. ground arith;
  agrees = λ seed coins. refl;
  verifies = λ seed msg coins sig h. ground (arith, beq_refl (toy_sign seed msg));
}

pub toy-CanSeal : CanSeal toy
toy-CanSeal = record {
  available = refl;
  seals = λ key nonce plain ad. ((plain, toy_tag key nonce plain ad), refl);
}

-- A CBOR library that loads one item, whatever it is given: it shows that `Loads` and `IsDefinite` can
-- hold together.
abbrev pub fixed : Item → Libcbor
fixed item = record {
  load = λ b. some item;
  serialize = λ i. 1 ∷ [];
  map_add = λ allocated ps k v. if ltb (count_pairs ps) allocated then add_last ps k v else ps;
  stray_uint64 = λ i. 0;
  stray_uint = λ i. 0;
  stray_bytes = λ i. [];
}

pub fixed-IsDefinite : (item : Item) → IsDefinite (fixed item)
fixed-IsDefinite item = record {
  adds = λ allocated ps k v h. rw (lt→ltb (count_pairs ps) allocated h) refl;
  refuses = λ allocated ps k v h. rw (le→ltb_false (count_pairs ps) allocated h) refl;
}

pub mldsa_sign-toy :
    (private msg coins : Bytes) → (sig : Bytes) × (mldsa_sign toy private msg coins ≡ ok sig)
unfolding mldsa_sign
mldsa_sign-toy private msg coins =
    (toy_sign private msg, ground (arith, length-toy_sign private msg))

-- The first letter of a map's first key, and 0 for any other item.
abbrev first_letter : Item → ℕ
first_letter (dict (pair (text (String.◌∷◌ c s)) v r)) = code c
first_letter _ = 0

-- A CBOR library whose serialised maps are the first letter of their first key, and load what the
-- table has for it.
abbrev pub lettered : (ℕ → Option Item) → Libcbor
lettered table = record {
  load = λ b. elim b [ [] ↦ none | n ∷ r ↦ table n ];
  serialize = λ i. first_letter i ∷ [];
  map_add = λ allocated ps k v. if ltb (count_pairs ps) allocated then add_last ps k v else ps;
  stray_uint64 = λ i. 0;
  stray_uint = λ i. 0;
  stray_bytes = λ i. [];
}

pub lettered-IsDefinite : (table : ℕ → Option Item) → IsDefinite (lettered table)
lettered-IsDefinite table = record {
  adds = λ allocated ps k v h. rw (lt→ltb (count_pairs ps) allocated h) refl;
  refuses = λ allocated ps k v h. rw (le→ltb_false (count_pairs ps) allocated h) refl;
}
