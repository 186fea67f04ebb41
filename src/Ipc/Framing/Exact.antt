-- ===== src/Ipc/Framing/Exact.antt =====
-- What `read_exact` of codec.cpp does on a socket that has enough bytes.
use scatter_web_project.Common.{
  ℕ, zero, suc, ◌-◌, ◌≤◌, ◌<◌, ◌≡◌, refl, sym, ap, ◌∙◌, inl, inr, Bytes, some, [], ◌∷◌, ◌++◌, All,
  length, take, drop, length-append, length-drop, ltb, Bool-cases, ltb→lt, arith,
}
use scatter_web_project.Ipc.Framing.{Socket, prepend, read_exact}

-- All the bytes that are still to come.
abbrev pub joined : Socket → Bytes
joined [] = []
joined (piece ∷ s) = piece ++ joined s

-- No read ends the file before the last byte.
abbrev pub IsOpen : Socket → Type 0
IsOpen = All (λ piece. 0 < length piece)

take_short : (n : ℕ) (xs ys : Bytes) → n ≤ length xs → take n (xs ++ ys) ≡ take n xs
take_short zero xs ys h = refl
take_short (suc n) [] ys h = absurd (omega arith)
take_short (suc n) (x ∷ xs) ys h = ap (◌∷◌ x) (take_short n xs ys (omega arith))

drop_short : (n : ℕ) (xs ys : Bytes) → n ≤ length xs → drop n (xs ++ ys) ≡ drop n xs ++ ys
drop_short zero xs ys h = refl
drop_short (suc n) [] ys h = absurd (omega arith)
drop_short (suc n) (x ∷ xs) ys h = drop_short n xs ys (omega arith)

take_long :
    (xs : Bytes) (n : ℕ) (ys : Bytes)
    → length xs ≤ n
    → take n (xs ++ ys) ≡ xs ++ take (n - length xs) ys
take_long [] n ys h = ap (λ k. take k ys) (omega arith)
take_long (x ∷ xs) zero ys h = absurd (omega arith)
take_long (x ∷ xs) (suc n) ys h =
    ap (◌∷◌ x) (take_long xs n ys (omega arith) ∙ ap (λ k. xs ++ take k ys) (omega arith))

drop_long :
    (xs : Bytes) (n : ℕ) (ys : Bytes) → length xs ≤ n → drop n (xs ++ ys) ≡ drop (n - length xs) ys
drop_long [] n ys h = ap (λ k. drop k ys) (omega arith)
drop_long (x ∷ xs) zero ys h = absurd (omega arith)
drop_long (x ∷ xs) (suc n) ys h =
    drop_long xs n ys (omega arith) ∙ ap (λ k. drop k ys) (omega arith)

-- The next n bytes were read, and the others are still there.
abbrev pub Reads : ℕ → Socket → Type 0
Reads n s =
    (s' : Socket) × (read_exact n s ≡ (some (take n (joined s)), s'))
    × IsOpen s'
    × (joined s' ≡ drop n (joined s))

step_none : (piece : Bytes) (s : Socket) → IsOpen (piece ∷ s) → Reads 0 (piece ∷ s)
unfolding read_exact prepend
step_none piece s whole = (piece ∷ s, refl, whole, refl)

step_within :
    (n : ℕ) (piece : Bytes) (s : Socket)
    → IsOpen (piece ∷ s)
    → 0 < n
    → n < length piece
    → Reads n (piece ∷ s)
unfolding read_exact prepend
step_within n piece s whole positive within = (
  drop n piece ∷ s,
  rw (take_short n piece (joined s) (omega arith)) (ground arith),
  (omega (arith, length-drop n piece), whole.1),
  sym (drop_short n piece (joined s) (omega arith)),
)

step_through :
    (n : ℕ) (piece : Bytes) (s : Socket)
    → IsOpen (piece ∷ s)
    → length piece ≤ n
    → Reads (n - length piece) s
    → Reads n (piece ∷ s)
unfolding read_exact prepend
step_through n piece s whole through (s', reads, still, left) = (
  s',
  rw (take_long piece n (joined s) through) (ground (arith, reads)),
  still,
  left ∙ sym (drop_long piece n (joined s) through),
)

pub read_exact-Reads : (s : Socket) (n : ℕ) → IsOpen s → n ≤ length (joined s) → Reads n s
unfolding read_exact
read_exact-Reads [] zero whole enough = ([], refl, tt, refl)
read_exact-Reads [] (suc n) whole enough = absurd (omega arith)
read_exact-Reads (piece ∷ s) zero whole enough = step_none piece s whole
read_exact-Reads (piece ∷ s) (suc n) whole enough = elim (Bool-cases (ltb (suc n) (length piece))) [
  | inl within ↦
      step_within (suc n) piece s whole (omega arith) (ltb→lt (suc n) (length piece) within)
  | inr through ↦ step_through (suc n) piece s whole (ground arith) (
      read_exact-Reads s (suc n - length piece) whole.1
        (omega (arith, length-append piece (joined s))))
]
