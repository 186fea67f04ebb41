-- ===== src/Dht/Prekeys.antt =====
-- The prekey records of record.cpp: `build_prekey_record` and `parse_prekey_record`.
use scatter_web_project.Common.{
  ℕ, ◌≡◌, refl, Bytes, String, Option, some, List, [], ◌∷◌, ◌++◌, All, Result, ok, err, length,
  string_eq, nat_eq, ◌==◌, if◌then◌else◌,
}
use scatter_web_project.Fallible.{◌>>=◌}
use scatter_web_project.Crypto.{
  Provider, IsSound, mldsa_sign, mldsa_verify, mldsa_sign_lem, dsa_sig_bytes,
}
use scatter_web_project.Cbor.{
  Item, Items, Pairs, bytestring, array, dict, stop, nil, cons, Libcbor, IsDefinite, Loads, uint64,
  find_pair, get_uint64, add_pairs, add_pairs-take,
}
use scatter_web_project.Dht.{be64, load_map, map_root, bstr_or_throw, of_size, require}
use scatter_web_project.Dht.Guards.{check}

pub record PrekeyRecord : Type 0 where
  pub timestamp : ℕ
  pub prekeys : List Bytes

abbrev pub kem_pubkey_bytes : ℕ
kem_pubkey_bytes = 1184

unfoldable pub prekey_items : List Bytes → Items
prekey_items [] = nil
prekey_items (k ∷ ks) = cons (bytestring k) (prekey_items ks)

unfoldable pub prekey_entries : PrekeyRecord → Bytes → List (String × Item)
prekey_entries r sig =
    ("timestamp", uint64 r.timestamp)
    ∷ ("prekeys", array (prekey_items r.prekeys))
    ∷ ("signature", bytestring sig)
    ∷ []

unfoldable pub array_of : Option Item → Result Items
array_of (some (array items)) = ok items
array_of _ = err "Missing prekeys array"

sized_key : Item → Result Bytes
sized_key (bytestring b) = if length b == kem_pubkey_bytes then ok b else err "Invalid prekey size"
sized_key _ = err "Invalid prekey size"

-- The last loop: one key of another size refuses the whole record.
unfoldable pub prekeys_of : Items → Result (List Bytes)
unfolding sized_key
prekeys_of nil = ok []
prekeys_of (cons item r) = do k ← sized_key item; ks ← prekeys_of r; ok (k ∷ ks)

module _ (p : Provider) (lib : Libcbor) where
  -- The array is serialised on its own, behind the time.
  unfoldable pub prekey_sign_payload : ℕ → Items → Bytes
  prekey_sign_payload timestamp items = be64 timestamp ++ lib.serialize (array items)

  unfoldable pub prekey_item : PrekeyRecord → Bytes → Item
  prekey_item r sig = dict (add_pairs lib 3 (prekey_entries r sig) stop)

  unfoldable pub build_prekey_record : PrekeyRecord → Bytes → Bytes → Result Bytes
  build_prekey_record r key_a_private coins = do
    sig ←
        mldsa_sign p key_a_private (prekey_sign_payload r.timestamp (prekey_items r.prekeys)) coins
    ok (lib.serialize (prekey_item r sig))

  unfoldable pub prekeys_from : Bytes → Pairs → Result PrekeyRecord
  prekeys_from key_a ps = do
    time ← require "Missing timestamp" (find_pair "timestamp" ps)
    items ← array_of (find_pair "prekeys" ps)
    sig_bytes ← bstr_or_throw "signature" (find_pair "signature" ps)
    sig ← of_size dsa_sig_bytes "Bad sig len" sig_bytes
    good ←
        check (mldsa_verify p key_a (prekey_sign_payload (get_uint64 lib time) items) sig)
          "Prekey record signature invalid"
    keys ← prekeys_of items
    ok (record { timestamp = get_uint64 lib time; prekeys = keys })

  unfoldable pub parse_prekey_record : Bytes → Bytes → Result PrekeyRecord
  parse_prekey_record rec key_a = do ps ← load_map lib rec; prekeys_from key_a ps

  prekeys_of-items :
      (ks : List Bytes)
      → All (λ k. length k ≡ kem_pubkey_bytes) ks
      → prekeys_of (prekey_items ks) ≡ ok ks
  unfolding prekeys_of prekey_items
  prekeys_of-items [] h = refl
  prekeys_of-items (k ∷ ks) h = rw (h.0, prekeys_of-items ks h.1) refl

  -- A published prekey record yields its time and exactly its keys, in order.
  pub parse-build_prekey_record :
      (r : PrekeyRecord) (seed coins sig : Bytes)
      → IsSound p
      → IsDefinite lib
      → All (λ k. length k ≡ kem_pubkey_bytes) r.prekeys
      → mldsa_sign p
          (p.dsa_keypair seed).1
          (prekey_sign_payload r.timestamp (prekey_items r.prekeys))
          coins
        ≡ ok sig
      → Loads lib (prekey_item r sig)
      → (rec : Bytes) × (build_prekey_record r (p.dsa_keypair seed).1 coins ≡ ok rec)
        × (parse_prekey_record rec (p.dsa_keypair seed).0 ≡ ok r)
  unfolding build_prekey_record parse_prekey_record prekeys_from prekey_item prekey_entries load_map
      map_root require array_of bstr_or_throw of_size check find_pair get_uint64
  parse-build_prekey_record r seed coins sig sound definite sizes signed loads =
      let (len, good) =
        mldsa_sign_lem p seed (prekey_sign_payload r.timestamp (prekey_items r.prekeys)) coins sig
          sound signed in
      (
        lib.serialize (prekey_item r sig),
        rw signed refl,
        rw (loads, map_root)
            (rw
              (
                add_pairs-take lib 3 (prekey_entries r sig) definite,
                len,
                good,
                prekeys_of-items r.prekeys sizes,
              )
              refl),
      )
