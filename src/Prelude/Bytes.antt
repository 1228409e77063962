-- ===== src/Prelude/Bytes.antt =====
-- Byte strings, and the number that a fixed number of bytes spells, most significant byte first.
use Prim.Native.Nat.{ℕ, zero, suc, ◌+◌, ◌*◌, ◌/◌, ◌%◌, ◌^◌, ◌≤◌, ◌<◌, ◌-◌}
use mathlib.Core.Path.{◌≡◌, refl, sym, ap, ◌∙◌}
use mathlib.Core.List.{List, [], ◌∷◌, ◌++◌, append-nil, append_assoc}
use native.Mathlib.Omega.{arith}
use native.Mathlib.Numerals.{unary_clauses}
use nero_consensus.Prelude.Lists.{length, take, All, length-append, All-append}

abbrev pub Bytes : Type 0
Bytes = List ℕ

-- Each of them is a `u8`.
abbrev pub AreBytes : Bytes → Type 0
AreBytes = All (λ b. b < 256)

-- The `width` bytes of a number.
unfoldable pub to_bytes : ℕ → ℕ → Bytes
to_bytes zero n = []
to_bytes (suc width) n = to_bytes width (n / 256) ++ n % 256 ∷ []

unfoldable pub read_bytes : ℕ → Bytes → ℕ
read_bytes n [] = n
read_bytes n (b ∷ bytes) = read_bytes (n * 256 + b) bytes

abbrev pub of_bytes : Bytes → ℕ
of_bytes = read_bytes 0

abbrev pub drop {ℓ} : {A : Type ℓ} → ℕ → List A → List A
drop zero xs = xs
drop (suc n) [] = []
drop (suc n) (x ∷ xs) = drop n xs

pub length-to_bytes : (width n : ℕ) → length (to_bytes width n) ≡ width
unfolding to_bytes
length-to_bytes zero n = refl
length-to_bytes (suc width) n = omega (
  arith,
  length-append (to_bytes width (n / 256)) (n % 256 ∷ []),
  length-to_bytes width (n / 256),
)

pub to_bytes-AreBytes : (width n : ℕ) → AreBytes (to_bytes width n)
unfolding to_bytes
to_bytes-AreBytes zero n = tt
to_bytes-AreBytes (suc width) n =
    All-append _ (to_bytes width (n / 256)) (n % 256 ∷ []) (to_bytes-AreBytes width (n / 256))
      (omega arith, tt)

read_bytes-append :
    (n b : ℕ) (bytes : Bytes) → read_bytes n (bytes ++ b ∷ []) ≡ read_bytes n bytes * 256 + b
unfolding read_bytes
read_bytes-append n b [] = refl
read_bytes-append n b (c ∷ bytes) = read_bytes-append (n * 256 + c) b bytes

-- A number that fits is read back from its bytes.
pub of_bytes-to_bytes : (width n : ℕ) → n < 256 ^ width → of_bytes (to_bytes width n) ≡ n
unfolding to_bytes read_bytes
of_bytes-to_bytes zero n fits = omega arith
of_bytes-to_bytes (suc width) n fits = omega (
  arith,
  read_bytes-append 0 (n % 256) (to_bytes width (n / 256)),
  of_bytes-to_bytes width (n / 256) (omega (arith, simp unary_clauses at fits)),
)

to_bytes-read_bytes :
    (width n : ℕ) (bytes : Bytes)
    → AreBytes bytes
    → to_bytes (width + length bytes) (read_bytes n bytes) ≡ to_bytes width n ++ bytes
unfolding to_bytes read_bytes
to_bytes-read_bytes width n [] h =
    ap (λ w. to_bytes w n) (plain width) ∙ sym (append-nil (to_bytes width n))
  where
    plain : (w : ℕ) → w + 0 ≡ w
    plain w = omega arith
to_bytes-read_bytes width n (b ∷ bytes) h =
    ap (λ w. to_bytes w (read_bytes (n * 256 + b) bytes)) (shift width (length bytes))
    ∙ to_bytes-read_bytes (suc width) (n * 256 + b) bytes h.1
    ∙ rw (high n b h.0, low n b h.0) (append_assoc (to_bytes width n) (b ∷ []) bytes)
  where
    shift : (w l : ℕ) → w + suc l ≡ suc w + l
    shift w l = omega arith

    high : (n b : ℕ) → b < 256 → (n * 256 + b) / 256 ≡ n
    high n b h = omega arith

    low : (n b : ℕ) → b < 256 → (n * 256 + b) % 256 ≡ b
    low n b h = omega arith

-- Bytes are the bytes of the number that they spell.
pub to_bytes-of_bytes :
    (bytes : Bytes) → AreBytes bytes → to_bytes (length bytes) (of_bytes bytes) ≡ bytes
unfolding to_bytes
to_bytes-of_bytes bytes h =
    ap (λ w. to_bytes w (of_bytes bytes)) (plain (length bytes)) ∙ to_bytes-read_bytes 0 0 bytes h
  where
    plain : (l : ℕ) → l ≡ 0 + l
    plain l = omega arith

-- Bytes of the front, and what is behind them.
pub take-append : (n : ℕ) (xs ys : Bytes) → length xs ≡ n → take n (xs ++ ys) ≡ xs
take-append zero [] ys h = refl
take-append zero (x ∷ xs) ys h = absurd (omega (arith, h))
take-append (suc n) [] ys h = absurd (omega (arith, h))
take-append (suc n) (x ∷ xs) ys h = ap (λ l. x ∷ l) (take-append n xs ys (omega (arith, h)))

pub take-drop : (n : ℕ) (xs : Bytes) → take n xs ++ drop n xs ≡ xs
take-drop zero xs = refl
take-drop (suc n) [] = refl
take-drop (suc n) (x ∷ xs) = ap (λ l. x ∷ l) (take-drop n xs)

pub length-take : (n : ℕ) (xs : Bytes) → n ≤ length xs → length (take n xs) ≡ n
length-take zero xs h = refl
length-take (suc n) [] h = absurd (omega (arith, h))
length-take (suc n) (x ∷ xs) h = ap suc (length-take n xs (omega (arith, h)))

pub length-drop : (n : ℕ) (xs : Bytes) → length (drop n xs) ≡ length xs - n
length-drop zero xs = omega arith
length-drop (suc n) [] = omega arith
length-drop (suc n) (x ∷ xs) = omega (arith, length-drop n xs)

pub take-AreBytes : (n : ℕ) (xs : Bytes) → AreBytes xs → AreBytes (take n xs)
take-AreBytes zero xs h = tt
take-AreBytes (suc n) [] h = tt
take-AreBytes (suc n) (x ∷ xs) h = (h.0, take-AreBytes n xs h.1)

pub drop-AreBytes : (n : ℕ) (xs : Bytes) → AreBytes xs → AreBytes (drop n xs)
drop-AreBytes zero xs h = h
drop-AreBytes (suc n) [] h = tt
drop-AreBytes (suc n) (x ∷ xs) h = drop-AreBytes n xs h.1

pub take_all : (n : ℕ) (xs : Bytes) → length xs ≡ n → take n xs ≡ xs
take_all zero [] h = refl
take_all zero (x ∷ xs) h = absurd (omega (arith, h))
take_all (suc n) [] h = refl
take_all (suc n) (x ∷ xs) h = ap (λ l. x ∷ l) (take_all n xs (omega (arith, h)))
