-- ===== src/AnonRouter/Cell/Nonce.antt =====
-- `cell_nonce` of cell.cpp: which pairs of token and sequence number share an AES-GCM nonce.
use scatter_web_project.Common.{
  ℕ, ◌+◌, ◌*◌, ◌^◌, ◌<◌, ◌≡◌, sym, ap, ap₂, ◌∙◌, ◌↔◌, Bytes, ◌++◌, length, take, drop, arith,
  take-append, drop-append, length-take,
}
use scatter_web_project.AnonRouter.Cell.{cell_nonce, be32, byte_at}
use scatter_web_project.AnonRouter.Cell.Layout.{from_be32}

be32_value :
    (x : ℕ)
    → x < 2 ^ 32
    → byte_at (be32 x) 0 * 2 ^ 24
        + byte_at (be32 x) 1 * 2 ^ 16
        + byte_at (be32 x) 2 * 2 ^ 8
        + byte_at (be32 x) 3
      ≡ x
unfolding be32 byte_at
be32_value x h = from_be32 x h

be32-injective : (x y : ℕ) → x < 2 ^ 32 → y < 2 ^ 32 → be32 x ≡ be32 y → x ≡ y
be32-injective x y h k e =
    sym (be32_value x h)
    ∙ ap
        (λ (b : Bytes).
          byte_at b 0 * 2 ^ 24 + byte_at b 1 * 2 ^ 16 + byte_at b 2 * 2 ^ 8 + byte_at b 3)
        e
    ∙ be32_value y k

-- Two nonces are equal exactly when the sequence numbers are and the tokens begin with the same
-- eight bytes; the other 24 bytes of a token do not matter.
pub cell_nonce_iff :
    (t u : Bytes) (m n : ℕ)
    → length t ≡ 32
    → length u ≡ 32
    → m < 2 ^ 32
    → n < 2 ^ 32
    → (cell_nonce t m ≡ cell_nonce u n) ↔ ((take 8 t ≡ take 8 u) × (m ≡ n))
unfolding cell_nonce
cell_nonce_iff t u m n ht hu hm hn =
    let lt : length (take 8 t) ≡ 8 = length-take 8 t (omega arith) in
    let lu : length (take 8 u) ≡ 8 = length-take 8 u (omega arith) in
    (
      λ e. (
        sym (take-append 8 (take 8 t) (be32 m) lt)
            ∙ ap (take 8) e
            ∙ take-append 8 (take 8 u) (be32 n) lu,
        be32-injective m n hm hn (
            sym (drop-append 8 (take 8 t) (be32 m) lt)
            ∙ ap (drop 8) e
            ∙ drop-append 8 (take 8 u) (be32 n) lu),
      ),
      λ e. ap₂ (λ (b : Bytes) (k : ℕ). b ++ be32 k) e.0 e.1,
    )
