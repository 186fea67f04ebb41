-- ===== src/Hex.antt =====
-- The hexadecimal texts that the program keys its tables by: `key` of guard.cpp, `hex` of dht.cpp,
-- `to_hex` of channel.cpp and tunnel.cpp, `chan_id_hex` of router.cpp, which all print each byte as
-- two digits.
use Prim.Native.Char.{Char, code}
use scatter_web_project.Common.{
  ℕ, zero, suc, ◌+◌, ◌/◌, ◌%◌, ◌<◌, ◌≡◌, refl, sym, ap, ap₂, ◌∙◌, Bytes, String, Bool, true, ◌&&◌,
  [], ◌∷◌, AreBytes, length, nat_beq, nat_beq_iff, ltb, if◌then◌else◌, arith,
}

unfoldable pub hex_digit : ℕ → Char
hex_digit n =
    if nat_beq n 0
    then "0"
    else if nat_beq n 1
    then "1"
    else if nat_beq n 2
    then "2"
    else if nat_beq n 3
    then "3"
    else if nat_beq n 4
    then "4"
    else if nat_beq n 5
    then "5"
    else if nat_beq n 6
    then "6"
    else if nat_beq n 7
    then "7"
    else if nat_beq n 8
    then "8"
    else if nat_beq n 9
    then "9"
    else if nat_beq n 10
    then "a"
    else if nat_beq n 11
    then "b"
    else if nat_beq n 12
    then "c"
    else if nat_beq n 13
    then "d"
    else if nat_beq n 14
    then "e"
    else "f"

unfoldable pub to_hex : Bytes → String
unfolding hex_digit
to_hex [] = String.[]
to_hex (b ∷ bs) = String.◌∷◌ (hex_digit (b / 16)) (String.◌∷◌ (hex_digit (b % 16)) (to_hex bs))

digit_code : ℕ → ℕ
digit_code n = if ltb n 10 then 48 + n else 87 + n

-- Every number under the bound passes.
passes : (ℕ → Bool) → ℕ → Bool
passes test zero = true
passes test (suc bound) = passes test bound && test bound

passes_each : (test : ℕ → Bool) (bound k : ℕ) → passes test bound ≡ true → k < bound → test k ≡ true
unfolding passes
passes_each test zero k all below = absurd (omega arith)
passes_each test (suc bound) k all below = ground (arith, passes_each test bound k)

code-hex_digit : (n : ℕ) → n < 16 → code (hex_digit n) ≡ digit_code n
unfolding hex_digit digit_code passes
code-hex_digit n h =
    (nat_beq_iff (code (hex_digit n)) (digit_code n)).0
      (passes_each (λ x. nat_beq (code (hex_digit x)) (digit_code x)) 16 n refl h)

digit_code-injective : (m n : ℕ) → m < 16 → n < 16 → digit_code m ≡ digit_code n → m ≡ n
unfolding digit_code
digit_code-injective m n hm hn e = ground arith

hex_digit-injective : (m n : ℕ) → m < 16 → n < 16 → hex_digit m ≡ hex_digit n → m ≡ n
hex_digit-injective m n hm hn e =
    digit_code-injective m n hm hn (sym (code-hex_digit m hm) ∙ ap code e ∙ code-hex_digit n hn)

first_char : String → Char
first_char String.[] = "0"
first_char (String.◌∷◌ c s) = c

rest_chars : String → String
rest_chars String.[] = String.[]
rest_chars (String.◌∷◌ c s) = s

-- Distinct byte strings of one length have distinct texts.
pub to_hex-injective :
    (xs ys : Bytes)
    → AreBytes xs
    → AreBytes ys
    → length xs ≡ length ys
    → to_hex xs ≡ to_hex ys
    → xs ≡ ys
unfolding to_hex first_char rest_chars
to_hex-injective [] [] hx hy l e = refl
to_hex-injective [] (y ∷ ys) hx hy l e = absurd (omega arith)
to_hex-injective (x ∷ xs) [] hx hy l e = absurd (omega arith)
to_hex-injective (x ∷ xs) (y ∷ ys) hx hy l e =
    let high =
      hex_digit-injective (x / 16) (y / 16) (omega arith) (omega arith) (ap first_char e) in
    let low =
      hex_digit-injective (x % 16) (y % 16) (omega arith) (omega arith)
        (ap (λ (s : String). first_char (rest_chars s)) e) in
    ap₂ ◌∷◌ (omega (arith, high, low)) (
      to_hex-injective xs ys hx.1 hy.1 (omega arith)
        (ap (λ (s : String). rest_chars (rest_chars s)) e))
