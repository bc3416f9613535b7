-- ===== src/Base/Bytes.antt =====
-- Python's bytes, as lists of numbers below 256.
use Prim.Native.Nat.{ℕ, zero, suc, ◌+◌, ◌*◌, ◌/◌, ◌%◌, ◌≤◌, ◌<◌, ◌-◌}
use Prim.Native.String.{String}
use mathlib.Core.Path.{◌≡◌, refl}
use mathlib.Core.List.{List, [], ◌∷◌, ◌++◌}
use native.Mathlib.Omega.{arith}
use net_lanvas.Base.Lists.{length, take}
use net_lanvas.Base.Text.{append}
use net_lanvas.Base.Number.{pick, show}

module _ {ℓ} {A : Type ℓ} where
  -- xs[n:]
  abbrev pub skip : ℕ → List A → List A
  skip zero xs = xs
  skip (suc n) [] = []
  skip (suc n) (x ∷ xs) = skip n xs

  -- xs[i:j]
  abbrev pub slice : ℕ → ℕ → List A → List A
  slice i j xs = take (j - i) (skip i xs)

  pub length-skip_le : (n : ℕ) (xs : List A) → length (skip n xs) ≤ length xs
  length-skip_le zero xs = omega arith
  length-skip_le (suc n) [] = omega arith
  length-skip_le (suc n) (x ∷ xs) = omega (arith, length-skip_le n xs)

  -- Cut where two parts meet.
  pub take-append : (n : ℕ) (xs ys : List A) → length xs ≡ n → take n (xs ++ ys) ≡ xs
  take-append zero [] ys e = refl
  take-append zero (x ∷ xs) ys e = absurd (omega arith)
  take-append (suc n) [] ys e = absurd (omega arith)
  take-append (suc n) (x ∷ xs) ys e = ground (arith, take-append n xs ys)

  pub skip-append : (n : ℕ) (xs ys : List A) → length xs ≡ n → skip n (xs ++ ys) ≡ ys
  skip-append zero [] ys e = refl
  skip-append zero (x ∷ xs) ys e = absurd (omega arith)
  skip-append (suc n) [] ys e = absurd (omega arith)
  skip-append (suc n) (x ∷ xs) ys e = ground (arith, skip-append n xs ys)

  pub skip-past : (n k : ℕ) (xs ys : List A) → length xs + n ≡ k → skip k (xs ++ ys) ≡ skip n ys
  skip-past n k [] ys e = let same : k ≡ n = omega arith in rw same refl
  skip-past n zero (x ∷ xs) ys e = absurd (omega arith)
  skip-past n (suc k) (x ∷ xs) ys e = skip-past n k xs ys (omega arith)

  pub take-past :
      (n k : ℕ) (xs ys : List A) → length xs + n ≡ k → take k (xs ++ ys) ≡ xs ++ take n ys
  take-past n k [] ys e = let same : k ≡ n = omega arith in rw same refl
  take-past n zero (x ∷ xs) ys e = absurd (omega arith)
  take-past n (suc k) (x ∷ xs) ys e = ground (arith, take-past n k xs ys)

-- xs[i], where it is in range
abbrev pub at : ℕ → List ℕ → ℕ
at i [] = 0
at zero (x ∷ xs) = x
at (suc i) (x ∷ xs) = at i xs

pub at-append : (i : ℕ) (xs ys : List ℕ) → i < length xs → at i (xs ++ ys) ≡ at i xs
at-append i [] ys h = absurd (omega arith)
at-append zero (x ∷ xs) ys h = refl
at-append (suc i) (x ∷ xs) ys h = ground (arith, at-append i xs ys)

-- int.from_bytes of two bytes, and struct.pack(">H", n)
abbrev pub u16 : ℕ → ℕ → ℕ
u16 high low = high * 256 + low

abbrev pub pack_u16 : ℕ → List ℕ
pack_u16 n = n / 256 % 256 ∷ n % 256 ∷ []

abbrev pub hex_char : ℕ → String
hex_char d =
    pick d "f"
      ("0" ∷ "1" ∷ "2" ∷ "3" ∷ "4" ∷ "5" ∷ "6" ∷ "7" ∷ "8" ∷ "9" ∷ "a" ∷ "b" ∷ "c" ∷ "d" ∷ "e" ∷ [])

-- f"{b:02x}"
abbrev pub hex_byte : ℕ → String
hex_byte b = append (hex_char (b / 16)) (hex_char (b % 16))

-- sep.join(f"{b:02x}" for b in bytes)
unfoldable pub join_hex : String → List ℕ → String
join_hex sep [] = ""
join_hex sep (b ∷ []) = hex_byte b
join_hex sep (b ∷ c ∷ rest) = append (hex_byte b) (append sep (join_hex sep (c ∷ rest)))

-- ".".join(str(b) for b in bytes)
unfoldable pub join_dec : List ℕ → String
join_dec [] = ""
join_dec (b ∷ []) = show b
join_dec (b ∷ c ∷ rest) = append (show b) (append "." (join_dec (c ∷ rest)))

join_hex_example : join_hex ":" (0 ∷ 171 ∷ 255 ∷ []) ≡ "00:ab:ff"
unfolding join_hex
join_hex_example = refl
