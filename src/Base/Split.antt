-- ===== src/Base/Split.antt =====
-- More of Python's str methods: how a text is cut.
use Prim.Native.Nat.{ℕ}
use Prim.Native.Char.{Char, code}
use Prim.Native.String.{String}
use mathlib.Core.Path.{◌≡◌, refl}
use mathlib.Core.Bool.{◌&&◌}
use mathlib.Core.Option.{Option, none, some}
use mathlib.Core.List.{List, [], ◌∷◌}
use net_lanvas.Base.Tests.{nat_eq, if◌then◌else◌}
use net_lanvas.Base.Text.{append, len, drop, starts_with, is_space, on_first}

-- xs[0] of a list that split() returns
abbrev pub first_text : List String → String
first_text [] = ""
first_text (s ∷ rest) = s

-- xs[-1], or "" where there is none
abbrev pub last_text : List String → String
last_text [] = ""
last_text (s ∷ []) = s
last_text (s ∷ t ∷ rest) = last_text (t ∷ rest)

-- s.split("\r\n")
unfoldable pub split_crlf : String → List String
split_crlf String.[] = String.[] ∷ []
split_crlf (String.◌∷◌ c String.[]) = String.◌∷◌ c String.[] ∷ []
split_crlf (String.◌∷◌ c (String.◌∷◌ d s)) =
    let cut = split_crlf s in
    let kept = split_crlf (String.◌∷◌ d s) in
    if nat_eq (code c) 13 && nat_eq (code d) 10
    then String.[] ∷ cut
    else on_first (String.◌∷◌ c) kept

abbrev end_word : String → List String → List String
end_word String.[] rest = rest
end_word (String.◌∷◌ c s) rest = String.◌∷◌ c s ∷ rest

-- s.split(), where `word` is what was read of the word at hand
words_from : String → String → List String
words_from word String.[] = end_word word []
words_from word (String.◌∷◌ c s) =
    let next = words_from String.[] s in
    let more = words_from (append word (String.◌∷◌ c String.[])) s in
    if is_space c then end_word word next else more

unfoldable pub words : String → List String
unfolding words_from
words s = words_from String.[] s

-- s.split(sep, 1) for a separator of one character, where it is in the text
unfoldable pub cut_at : ℕ → String → Option (String × String)
cut_at sep String.[] = none
cut_at sep (String.◌∷◌ c s) =
    let rest = cut_at sep s in
    if nat_eq (code c) sep
    then some (String.[], s)
    else elim rest [ none ↦ none | some (before, after) ↦ some (String.◌∷◌ c before, after) ]

-- s.split(t, 1)[1], where `t` is in the text
unfoldable pub after_text : String → String → Option String
after_text t String.[] = if nat_eq (len t) 0 then some String.[] else none
after_text t (String.◌∷◌ c s) =
    let rest = after_text t s in
    if starts_with (String.◌∷◌ c s) t then some (drop (len t) (String.◌∷◌ c s)) else rest

-- s.strip(c) for one character, given by its code point
unfoldable pub lstrip_char : ℕ → String → String
lstrip_char k String.[] = String.[]
lstrip_char k (String.◌∷◌ c s) = if nat_eq (code c) k then lstrip_char k s else String.◌∷◌ c s

abbrev cons_unless : ℕ → Char → String → String
cons_unless k c String.[] = if nat_eq (code c) k then String.[] else String.◌∷◌ c String.[]
cons_unless k c (String.◌∷◌ d s) = String.◌∷◌ c (String.◌∷◌ d s)

unfoldable pub rstrip_char : ℕ → String → String
rstrip_char k String.[] = String.[]
rstrip_char k (String.◌∷◌ c s) = cons_unless k c (rstrip_char k s)

unfoldable pub strip_char : ℕ → String → String
unfolding lstrip_char rstrip_char
strip_char k s = rstrip_char k (lstrip_char k s)

words_example : words "  Unix/4  GS308Ev4/V1.0 " ≡ "Unix/4" ∷ "GS308Ev4/V1.0" ∷ []
unfolding words
words_example = refl

after_text_example : after_text "uuid:" "x uuid:12:3" ≡ some "12:3"
unfolding after_text starts_with drop
after_text_example = refl

split_crlf_example : split_crlf "a\r\nb\r\n" ≡ "a" ∷ "b" ∷ "" ∷ []
unfolding split_crlf
split_crlf_example = refl
