-- ===== src/Base/Text.antt =====
-- Python's str methods that the program uses, on texts as sequences of code points.
use Prim.Native.Nat.{ℕ, zero, suc, ◌+◌}
use Prim.Native.Char.{Char, code}
use Prim.Native.String.{String}
use mathlib.Core.Path.{ap}
use mathlib.Core.Logic.{◌≢◌}
use mathlib.Core.Bool.{Bool, true, false, ◌&&◌, ◌||◌}
use mathlib.Core.List.{List, [], ◌∷◌}
use net_lanvas.Base.Tests.{leb, nat_eq, eq_String, if◌then◌else◌}

-- s + t
abbrev pub append : String → String → String
append String.[] t = t
append (String.◌∷◌ c s) t = String.◌∷◌ c (append s t)

-- len(s)
abbrev pub len : String → ℕ
len String.[] = 0
len (String.◌∷◌ c s) = suc (len s)

-- the characters of which str.isspace() is true
abbrev pub is_space : Char → Bool
is_space c =
    let k = code c in
    (leb 9 k && leb k 13)
    || (leb 28 k && leb k 32)
    || nat_eq k 0x85
    || nat_eq k 0xa0
    || nat_eq k 0x1680
    || (leb 0x2000 k && leb k 0x200a)
    || nat_eq k 0x2028
    || nat_eq k 0x2029
    || nat_eq k 0x202f
    || nat_eq k 0x205f
    || nat_eq k 0x3000

-- s.lstrip()
unfoldable pub lstrip : String → String
lstrip String.[] = String.[]
lstrip (String.◌∷◌ c s) = if is_space c then lstrip s else String.◌∷◌ c s

abbrev pub cons_unless_space : Char → String → String
cons_unless_space c String.[] = if is_space c then String.[] else String.◌∷◌ c String.[]
cons_unless_space c (String.◌∷◌ d s) = String.◌∷◌ c (String.◌∷◌ d s)

-- s.rstrip()
unfoldable pub rstrip : String → String
rstrip String.[] = String.[]
rstrip (String.◌∷◌ c s) = cons_unless_space c (rstrip s)

-- s.strip()
unfoldable pub strip : String → String
unfolding lstrip rstrip
strip s = rstrip (lstrip s)

-- f on the first part of a text that was split
abbrev pub on_first : (String → String) → List String → List String
on_first f [] = f String.[] ∷ []
on_first f (s ∷ rest) = f s ∷ rest

-- s.split(sep), for a separator of one character, given by its code point
unfoldable pub split_on : ℕ → String → List String
split_on sep String.[] = String.[] ∷ []
split_on sep (String.◌∷◌ c s) =
    let rest = split_on sep s in
    if nat_eq (code c) sep then String.[] ∷ rest else on_first (String.◌∷◌ c) rest

-- s.startswith(t)
unfoldable pub starts_with : String → String → Bool
starts_with s String.[] = true
starts_with String.[] (String.◌∷◌ d t) = false
starts_with (String.◌∷◌ c s) (String.◌∷◌ d t) =
    let rest = starts_with s t in nat_eq (code c) (code d) && rest

-- s[n:]
unfoldable pub drop : ℕ → String → String
drop zero s = s
drop (suc n) String.[] = String.[]
drop (suc n) (String.◌∷◌ c s) = drop n s

-- any(p(ch) for ch in s)
abbrev pub any_char : (Char → Bool) → String → Bool
any_char p String.[] = false
any_char p (String.◌∷◌ c s) = p c || any_char p s

-- the code point of ch.lower(), where it is below 128
abbrev pub lower_code : ℕ → ℕ
lower_code k = if leb b'A' k && leb k b'Z' then k + 32 else if nat_eq k 0x212a then b'k' else k

abbrev pub codes : String → List ℕ
codes String.[] = []
codes (String.◌∷◌ c s) = code c ∷ codes s

-- s.lower() as code points. The result is exact where it is ASCII, which is where the program
-- compares it with an ASCII text.
abbrev pub lower : String → List ℕ
lower String.[] = []
lower (String.◌∷◌ c s) = lower_code (code c) ∷ lower s

abbrev pub codes_eq : List ℕ → List ℕ → Bool
codes_eq [] [] = true
codes_eq [] (y ∷ ys) = false
codes_eq (x ∷ xs) [] = false
codes_eq (x ∷ xs) (y ∷ ys) = nat_eq x y && codes_eq xs ys

-- `if not s`
abbrev pub is_blank : String → Bool
is_blank String.[] = true
is_blank (String.◌∷◌ c s) = false

-- texts of different lengths differ
pub differ : (s t : String) → len s ≢ len t → s ≢ t
differ s t h e = h (ap len e)
