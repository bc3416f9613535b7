-- ===== src/Net/Pseudo.antt =====
-- The stand-ins for unmanaged switches: how their addresses are made from a switch and a port
-- (src/engine/inference_engine.py, src/engine/unification.py).
use net_lanvas.Base.{
  ℕ, ◌+◌, ◌*◌, ◌-◌, String, Option, none, some, List, [], ◌∷◌, Bool, ◌&&◌, leb, if◌then◌else◌, elem,
  not, eq_String,
}
use net_lanvas.Base.Text.{append, split_on}
use net_lanvas.Base.Number.{show, parse_int}
use Prim.Native.Char.{code}

abbrev pub pseudo_mac_prefix : String
pseudo_mac_prefix = "02:ff:"

-- local_port NOT IN ('WLAN', '0', 'Bridge')
abbrev pub is_physical : String → Bool
is_physical port = not (elem port ("WLAN" ∷ "0" ∷ "Bridge" ∷ []))

cast_from : ℕ → String → ℕ
cast_from n String.[] = n
cast_from n (String.◌∷◌ c s) =
    let rest = cast_from (n * 10 + (code c - b'0')) s in
    if leb b'0' (code c) && leb (code c) b'9' then rest else n

-- CAST(text AS INTEGER): the number that the first digits make. No text has a sign or a blank
-- before them.
unfoldable pub cast_int : String → ℕ
unfolding cast_from
cast_int text = cast_from 0 text

abbrev pub pseudo_from : List String → Option ℕ → Option String
pseudo_from (a ∷ b ∷ c ∷ d ∷ []) (some port) = elim (parse_int d) [
  | none ↦ none
  | some last ↦ some (
      append a
        (append "." (append b (append "." (append c (append "." (show (last * 1000 + port))))))))
]
pseudo_from _ _ = none

-- `none` where the address has not four parts, or where a part is not a number (ValueError)
unfoldable pub pseudo_ip : String → String → Option String
pseudo_ip switch_ip port = pseudo_from (split_on b'.' switch_ip) (parse_int port)
