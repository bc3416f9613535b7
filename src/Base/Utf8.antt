-- ===== src/Base/Utf8.antt =====
-- bytes.decode("utf-8", errors="ignore"), on bytes as numbers below 256.
use Prim.Native.Nat.{ℕ, zero, suc, ◌+◌, ◌-◌, ◌*◌, ◌<◌, Ordering, compare}
use Prim.Native.Char.{Char, char, code, IsLt, IsScalar}
use Prim.Native.String.{String}
use mathlib.Core.Path.{◌≡◌, refl, ap}
use mathlib.Core.Bool.{Bool, ◌&&◌}
use mathlib.Core.Option.{Option, none, some}
use mathlib.Core.List.{List, [], ◌∷◌}
use native.Mathlib.Omega.{arith}
use net_lanvas.Base.Tests.{leb, ltb, if◌then◌else◌}

-- The three comparisons of `IsScalar n`, as a type, to decide it.
abbrev BothLt : Ordering → Ordering → Type 0
BothLt Ordering.lt o = IsLt o
BothLt Ordering.eq _ = ⊥
BothLt Ordering.gt _ = ⊥

abbrev Scalar : Ordering → Ordering → Ordering → Type 0
Scalar Ordering.lt _ _ = Unit
Scalar Ordering.eq o p = BothLt o p
Scalar Ordering.gt o p = BothLt o p

abbrev decide_both : (o p : Ordering) → Option (BothLt o p)
decide_both Ordering.lt Ordering.lt = some tt
decide_both Ordering.lt _ = none
decide_both Ordering.eq _ = none
decide_both Ordering.gt _ = none

abbrev decide : (o p q : Ordering) → Option (Scalar o p q)
decide Ordering.lt _ _ = some tt
decide Ordering.eq p q = decide_both p q
decide Ordering.gt p q = decide_both p q

abbrev tagged : (n : ℕ) → Option (IsScalar n) → Option Char
tagged n none = none
tagged n (some p) = some (char n p)

-- chr(n), where `n` is a Unicode scalar value
abbrev pub chr : ℕ → Option Char
chr n = tagged n (decide (compare n 55296) (compare 57343 n) (compare n 1114112))

-- b in range(low, high + 1)
abbrev within : ℕ → ℕ → ℕ → Bool
within low high b = leb low b && leb b high

-- the code point of a sequence of two, three or four bytes, and the number of bytes after the first
abbrev two : ℕ → List ℕ → Option (ℕ × ℕ)
two b (c ∷ _) = if within 0x80 0xbf c then some ((b - 0xc0) * 64 + (c - 0x80), 1) else none
two b [] = none

abbrev three : ℕ → ℕ → ℕ → List ℕ → Option (ℕ × ℕ)
three low high b (c ∷ d ∷ _) =
    if within low high c && within 0x80 0xbf d
    then some ((b - 0xe0) * 4096 + (c - 0x80) * 64 + (d - 0x80), 2)
    else none
three low high b _ = none

abbrev four : ℕ → ℕ → ℕ → List ℕ → Option (ℕ × ℕ)
four low high b (c ∷ d ∷ e ∷ _) =
    if within low high c && within 0x80 0xbf d && within 0x80 0xbf e
    then some ((b - 0xf0) * 262144 + (c - 0x80) * 4096 + (d - 0x80) * 64 + (e - 0x80), 3)
    else none
four low high b _ = none

-- the well-formed sequence that begins with the byte `b`, if one does
abbrev sequence : ℕ → List ℕ → Option (ℕ × ℕ)
sequence b rest =
    if ltb b 0x80
    then some (b, 0)
    else if within 0xc2 0xdf b
    then two b rest
    else if within 0xe0 0xe0 b
    then three 0xa0 0xbf b rest
    else if within 0xed 0xed b
    then three 0x80 0x9f b rest
    else if within 0xe1 0xef b
    then three 0x80 0xbf b rest
    else if within 0xf0 0xf0 b
    then four 0x90 0xbf b rest
    else if within 0xf4 0xf4 b
    then four 0x80 0x8f b rest
    else if within 0xf1 0xf3 b
    then four 0x80 0xbf b rest
    else none

abbrev pub cons_chr : ℕ → String → String
cons_chr n s = elim (chr n) [ none ↦ s | some c ↦ String.◌∷◌ c s ]

-- `pending` bytes belong to the character before. A byte that begins no sequence is left out, and
-- so is a continuation byte that follows one.
utf8_from : ℕ → List ℕ → String
utf8_from pending [] = String.[]
utf8_from (suc pending) (b ∷ rest) = utf8_from pending rest
utf8_from zero (b ∷ rest) = elim (sequence b rest) [
  | none ↦ utf8_from 0 rest
  | some (n, extra) ↦ cons_chr n (utf8_from extra rest)
]

unfoldable pub decode_utf8 : List ℕ → String
unfolding utf8_from
decode_utf8 bytes = utf8_from 0 bytes

-- how many of the bytes after a first byte belong to the well-formed part of its broken sequence
abbrev good_part : ℕ → ℕ → ℕ → List ℕ → ℕ
good_part zero low high rest = 0
good_part (suc n) low high [] = 0
good_part (suc n) low high (c ∷ rest) =
    let more = good_part n 0x80 0xbf rest in if within low high c then suc more else 0

abbrev broken_part : ℕ → List ℕ → ℕ
broken_part b rest =
    if within 0xe0 0xe0 b
    then good_part 2 0xa0 0xbf rest
    else if within 0xed 0xed b
    then good_part 2 0x80 0x9f rest
    else if within 0xe1 0xef b
    then good_part 2 0x80 0xbf rest
    else if within 0xf0 0xf0 b
    then good_part 3 0x90 0xbf rest
    else if within 0xf4 0xf4 b
    then good_part 3 0x80 0x8f rest
    else if within 0xf1 0xf3 b
    then good_part 3 0x80 0xbf rest
    else 0

utf8_replaced : ℕ → List ℕ → String
utf8_replaced pending [] = String.[]
utf8_replaced (suc pending) (b ∷ rest) = utf8_replaced pending rest
utf8_replaced zero (b ∷ rest) = elim (sequence b rest) [
  | none ↦ cons_chr 0xfffd (utf8_replaced (broken_part b rest) rest)
  | some (n, extra) ↦ cons_chr n (utf8_replaced extra rest)
]

-- bytes.decode("utf-8", errors="replace"): a broken sequence is one U+FFFD
unfoldable pub decode_replace : List ℕ → String
unfolding utf8_replaced
decode_replace bytes = utf8_replaced 0 bytes

-- bytes.decode("ascii", errors="replace"): another byte is U+FFFD
unfoldable pub decode_ascii : List ℕ → String
decode_ascii [] = String.[]
decode_ascii (b ∷ rest) =
    let text = decode_ascii rest in cons_chr (if ltb b 128 then b else 0xfffd) text

-- text.encode("ascii")
abbrev pub encode_ascii : String → List ℕ
encode_ascii String.[] = []
encode_ascii (String.◌∷◌ c s) = code c ∷ encode_ascii s

decide_complete : (o p q : Ordering) (x : Scalar o p q) → decide o p q ≡ some x
decide_complete Ordering.lt p q x = refl
decide_complete Ordering.eq Ordering.lt Ordering.lt x = refl
decide_complete Ordering.eq Ordering.lt Ordering.eq x = absurd x
decide_complete Ordering.eq Ordering.lt Ordering.gt x = absurd x
decide_complete Ordering.eq Ordering.eq q x = absurd x
decide_complete Ordering.eq Ordering.gt q x = absurd x
decide_complete Ordering.gt Ordering.lt Ordering.lt x = refl
decide_complete Ordering.gt Ordering.lt Ordering.eq x = absurd x
decide_complete Ordering.gt Ordering.lt Ordering.gt x = absurd x
decide_complete Ordering.gt Ordering.eq q x = absurd x
decide_complete Ordering.gt Ordering.gt q x = absurd x

chr-code : (c : Char) → chr (code c) ≡ some c
chr-code (char n p) =
    ap (tagged n) (decide_complete (compare n 55296) (compare 57343 n) (compare n 1114112) p)

abbrev pub IsAscii : String → Type 0
IsAscii String.[] = Unit
IsAscii (String.◌∷◌ c s) = (code c < 128) × IsAscii s

pub decode_utf8-encode_ascii : (s : String) → IsAscii s → decode_utf8 (encode_ascii s) ≡ s
unfolding decode_utf8 utf8_from
decode_utf8-encode_ascii String.[] h = refl
decode_utf8-encode_ascii (String.◌∷◌ c s) (small, h) =
    ground (arith, chr-code c, decode_utf8-encode_ascii s h)

pub decode_ascii-encode_ascii : (s : String) → IsAscii s → decode_ascii (encode_ascii s) ≡ s
unfolding decode_ascii
decode_ascii-encode_ascii String.[] h = refl
decode_ascii-encode_ascii (String.◌∷◌ c s) (small, h) =
    ground (arith, chr-code c, decode_ascii-encode_ascii s h)

replaces : decode_replace (0x6e ∷ 0xff ∷ 0xe2 ∷ 0x82 ∷ 0x61 ∷ 0xc3 ∷ []) ≡ "n��a�"
unfolding decode_replace
replaces = refl

decodes : decode_utf8 (0x6e ∷ 0xff ∷ 0xc3 ∷ 0xa9 ∷ 0xe2 ∷ 0x82 ∷ 0x61 ∷ []) ≡ "néa"
unfolding decode_utf8
decodes = refl
