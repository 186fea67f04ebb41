-- ===== src/AnonRouter/Tft/Sorting.antt =====
-- The sort of tft.cpp: the order of its result, and which peers are in it.
use text.Mathlib.TextEquality.{eq_iff}
use scatter_web_project.Common.{
  ℕ, zero, suc, ◌≡◌, refl, ap, ◌∙◌, String, true, false, Option, none, some, List, [], ◌∷◌, length,
  take, All, string_eq, ◌==◌, if◌then◌else◌, arith,
}
use scatter_web_project.Int.{ℤ, ◌≤ℤ◌}
use scatter_web_project.AnonRouter.Tft.{less, sorted_insert, sort, peers, contains}

-- The credits that a list of pairs gives to a peer.
unfoldable pub find_credit : String → List (ℤ × String) → Option ℤ
find_credit x [] = none
find_credit x ((c, y) ∷ r) = if y == x then some c else find_credit x r

-- No peer stands twice.
abbrev pub Distinct : List (ℤ × String) → Type 0
Distinct [] = Unit
Distinct ((c, y) ∷ r) = (find_credit y r ≡ none) × Distinct r

abbrev AllFrom : ℤ → List (ℤ × String) → Type 0
AllFrom c = All (λ (y : ℤ × String). c ≤ℤ y.0)

-- Credits rise along the list.
abbrev pub Ordered : List (ℤ × String) → Type 0
Ordered [] = Unit
Ordered (x ∷ r) = AllFrom x.0 r × Ordered r

AllFrom-mono : (c d : ℤ) (r : List (ℤ × String)) → c ≤ℤ d → AllFrom d r → AllFrom c r
AllFrom-mono c d [] h a = tt
AllFrom-mono c d (y ∷ r) h a = (omega arith, AllFrom-mono c d r h a.1)

AllFrom-insert :
    (c : ℤ) (x : ℤ × String) (r : List (ℤ × String))
    → c ≤ℤ x.0
    → AllFrom c r
    → AllFrom c (sorted_insert x r)
unfolding sorted_insert
AllFrom-insert c x [] h a = (h, tt)
AllFrom-insert c x (y ∷ r) h a = ground (arith, AllFrom-insert c x r h a.1)

less-le : (x y : ℤ × String) → less y x ≡ true → y.0 ≤ℤ x.0
unfolding less
less-le x y h = ground arith

not_less-le : (x y : ℤ × String) → less y x ≡ false → x.0 ≤ℤ y.0
unfolding less
not_less-le x y h = ground arith

insert-Ordered : (x : ℤ × String) (r : List (ℤ × String)) → Ordered r → Ordered (sorted_insert x r)
unfolding sorted_insert
insert-Ordered x [] o = (tt, tt)
insert-Ordered x (y ∷ r) o = ground (
  arith,
  insert-Ordered x r o.1,
  AllFrom-insert y.0 x r,
  less-le x y,
  not_less-le x y,
  AllFrom-mono x.0 y.0 r,
  o.0,
)

pub sort-Ordered : (xs : List (ℤ × String)) → Ordered (sort xs)
unfolding sort
sort-Ordered [] = tt
sort-Ordered (x ∷ xs) = insert-Ordered x (sort xs) (sort-Ordered xs)

find_credit-insert :
    (z : String) (c : ℤ) (x : String) (r : List (ℤ × String))
    → find_credit x r ≡ none
    → find_credit z (sorted_insert (c, x) r) ≡ (if x == z then some c else find_credit z r)
unfolding find_credit sorted_insert
find_credit-insert z c x [] h = refl
find_credit-insert z c x ((d, y) ∷ r) h =
    ground (arith, find_credit-insert z c x r, eq_iff x z, eq_iff y z, eq_iff y x)

-- Sorting keeps every peer's credits.
pub find_credit-sort :
    (z : String) (xs : List (ℤ × String)) → Distinct xs → find_credit z (sort xs) ≡ find_credit z xs
unfolding find_credit sort
find_credit-sort z [] d = refl
find_credit-sort z ((c, x) ∷ xs) d = ground (
  arith,
  find_credit-insert z c x (sort xs),
  find_credit-sort x xs d.1,
  find_credit-sort z xs d.1,
  d.0,
)

length-insert :
    (x : ℤ × String) (r : List (ℤ × String)) → length (sorted_insert x r) ≡ suc (length r)
unfolding sorted_insert
length-insert x [] = refl
length-insert x (y ∷ r) = ground (arith, length-insert x r)

pub length-sort : (xs : List (ℤ × String)) → length (sort xs) ≡ length xs
unfolding sort
length-sort [] = refl
length-sort (x ∷ xs) = length-insert x (sort xs) ∙ ap suc (length-sort xs)

pub contains-peers :
    (z : String) (xs : List (ℤ × String))
    → contains z (peers xs) ≡ (elim (find_credit z xs) [ none ↦ false | some c ↦ true ])
unfolding contains peers find_credit
contains-peers z [] = refl
contains-peers z ((c, y) ∷ xs) = ground (arith, contains-peers z xs)

AllFrom-find :
    (c : ℤ) (y : String) (b : ℤ) (xs : List (ℤ × String))
    → AllFrom c xs
    → find_credit y xs ≡ some b
    → c ≤ℤ b
unfolding find_credit
AllFrom-find c y b [] h k = cc
AllFrom-find c y b ((d, z) ∷ xs) h k = ground (arith, AllFrom-find c y b xs h.1)

-- The first entries of an ordered list are the lowest.
pub take-lowest :
    (n : ℕ) (xs : List (ℤ × String)) (x y : String) (a b : ℤ)
    → Ordered xs
    → find_credit x (take n xs) ≡ some a
    → find_credit y (take n xs) ≡ none
    → find_credit y xs ≡ some b
    → a ≤ℤ b
unfolding find_credit
take-lowest zero xs x y a b o h k l = cc
take-lowest (suc n) [] x y a b o h k l = cc
take-lowest (suc n) ((c, z) ∷ xs) x y a b o h k l =
    ground (arith, take-lowest n xs x y a b o.1, AllFrom-find c y b xs o.0)

pub find_credit-take :
    (n : ℕ) (xs : List (ℤ × String)) (x : String) (a : ℤ)
    → find_credit x (take n xs) ≡ some a
    → find_credit x xs ≡ some a
unfolding find_credit
find_credit-take zero xs x a h = cc
find_credit-take (suc n) [] x a h = cc
find_credit-take (suc n) ((c, z) ∷ xs) x a h = ground (arith, find_credit-take n xs x a)
