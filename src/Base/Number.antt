-- ===== src/Base/Number.antt =====
-- Numbers in texts: decimal printing, and the reading of decimal and hexadecimal digits.
use Prim.Native.Nat.{ℕ, zero, suc, ◌+◌, ◌-◌, ◌*◌, ◌/◌, ◌%◌}
use Prim.Native.Char.{Char, code}
use Prim.Native.String.{String}
use mathlib.Core.Path.{◌≡◌, refl}
use mathlib.Core.Bool.{Bool, false, ◌&&◌, ◌||◌, not}
use mathlib.Core.Option.{Option, none, some}
use mathlib.Core.List.{List, [], ◌∷◌}
use net_lanvas.Base.Tests.{leb, ltb, nat_eq, if◌then◌else◌}
use net_lanvas.Base.Text.{append, len, split_on, any_char}

-- texts[n], where it is in range
abbrev pub pick : ℕ → String → List String → String
pick n last [] = last
pick zero last (s ∷ texts) = s
pick (suc n) last (s ∷ texts) = pick n last texts

abbrev pub digit : ℕ → String
digit d = pick d "9" ("0" ∷ "1" ∷ "2" ∷ "3" ∷ "4" ∷ "5" ∷ "6" ∷ "7" ∷ "8" ∷ [])

-- The fuel `suc n` is enough for `n`, since each round divides by ten.
show_digits : ℕ → ℕ → String → String
show_digits zero n out = out
show_digits (suc fuel) n out =
    let rest = show_digits fuel (n / 10) (append (digit (n % 10)) out) in
    if ltb n 10 then append (digit n) out else rest

-- str(n)
unfoldable pub show : ℕ → String
unfolding show_digits
show n = show_digits (suc n) n ""

abbrev is_digit : Char → Bool
is_digit c = leb b'0' (code c) && leb (code c) b'9'

abbrev dec_value : ℕ → String → ℕ
dec_value n String.[] = n
dec_value n (String.◌∷◌ c s) = dec_value (n * 10 + (code c - b'0')) s

-- int(s), where s is all ASCII digits; `none` stands for ValueError
unfoldable pub parse_int : String → Option ℕ
parse_int s =
    if nat_eq (len s) 0 || any_char (λ c. not (is_digit c)) s then none else some (dec_value 0 s)

abbrev leading_zero : String → Bool
leading_zero (String.◌∷◌ c (String.◌∷◌ d s)) = nat_eq (code c) b'0'
leading_zero _ = false

-- One part of a dotted quad, as the `ipaddress` module reads it.
parse_octet : String → Option ℕ
unfolding parse_int
parse_octet s = elim (parse_int s) [
  | none ↦ none
  | some n ↦ if ltb 3 (len s) || leading_zero s || ltb 255 n then none else some n
]

pub record Ipv4 : Type 0 where
  pub a : ℕ
  pub b : ℕ
  pub c : ℕ
  pub d : ℕ

abbrev octets : List (Option ℕ) → Option Ipv4
octets (some a ∷ some b ∷ some c ∷ some d ∷ []) = some (record { a = a; b = b; c = c; d = d })
octets _ = none

abbrev map_octet : List String → List (Option ℕ)
map_octet [] = []
map_octet (s ∷ rest) = parse_octet s ∷ map_octet rest

-- ipaddress.IPv4Address(s); `none` stands for ValueError
unfoldable pub parse_ipv4 : String → Option Ipv4
unfolding parse_octet split_on
parse_ipv4 s = octets (map_octet (split_on b'.' s))

hex_digit : ℕ → Option ℕ
hex_digit k =
    if leb b'0' k && leb k b'9'
    then some (k - b'0')
    else if leb b'a' k && leb k b'f'
    then some (k - b'a' + 10)
    else if leb b'A' k && leb k b'F'
    then some (k - b'A' + 10)
    else none

hex_from : ℕ → String → Option ℕ
unfolding hex_digit
hex_from n String.[] = some n
hex_from n (String.◌∷◌ c s) = elim (hex_digit (code c)) [
  | none ↦ none
  | some d ↦ hex_from (n * 16 + d) s
]

-- int(s, 16), where s is all hexadecimal digits; `none` stands for ValueError
unfoldable pub parse_hex : String → Option ℕ
unfolding hex_from
parse_hex s = if nat_eq (len s) 0 then none else hex_from 0 s

show_example : show 1800 ≡ "1800"
unfolding show
show_example = refl

parse_ipv4_example : parse_ipv4 "172.17.0.2" ≡ some (record { a = 172; b = 17; c = 0; d = 2 })
unfolding parse_ipv4
parse_ipv4_example = refl

parse_hex_example : parse_hex "04f4bc" ≡ some 324796
unfolding parse_hex
parse_hex_example = refl
