-- ===== src/Inference/Dark/Identity.antt =====
-- The addresses of a stand-in (src/engine/inference_engine.py: run_dark_matter_detection).
use net_lanvas.Base.{
  ℕ, zero, suc, ◌+◌, ◌/◌, ◌%◌, String, Option, none, some, List, [], ◌∷◌, Bool, true, false, ltb,
  if◌then◌else◌, eq_ℕ, eq_String, eq_pair,
}
use net_lanvas.Base.Bytes.{hex_byte, hex_char}
use net_lanvas.Base.Text.{append, split_on}
use net_lanvas.Base.Number.{show, parse_int}
use net_lanvas.Net.Pseudo.{pseudo_mac_prefix, pseudo_ip}
use net_lanvas.Inference.Dark.{Port}

-- f"{n:02x}"; the fuel `n` is enough, since each round divides by 16
hex_digits : ℕ → ℕ → String
hex_digits zero n = hex_byte n
hex_digits (suc fuel) n =
    let rest = hex_digits fuel (n / 16) in
    if ltb n 256 then hex_byte n else append rest (hex_char (n % 16))

unfoldable pub hex2 : ℕ → String
unfolding hex_digits
hex2 n = hex_digits n n

-- the addresses of a stand-in, and its prefix in oui_index
pub record Identity : Type 0 where
  pub mac : String
  pub ip : String
  pub oui : String

abbrev pub joined_hex : String → String → String → String → String
joined_hex b c d port =
    append pseudo_mac_prefix
      (append b (append ":" (append c (append ":" (append d (append ":" port))))))

abbrev pub numbers : List String → List (Option ℕ)
numbers [] = []
numbers (s ∷ rest) = parse_int s ∷ numbers rest

abbrev pub quad : List (Option ℕ) → ℕ → Option String → Option Identity
quad (some a ∷ some b ∷ some c ∷ some d ∷ []) port (some ip) = some (record {
  mac = joined_hex (hex2 b) (hex2 c) (hex2 d) (hex2 (port % 256));
  ip = ip;
  oui = append "02ff" (hex2 b);
})
quad _ port _ = none

abbrev pub is_quad : List String → Bool
is_quad (a ∷ b ∷ c ∷ d ∷ []) = true
is_quad _ = false

-- `none` stands for ValueError
unfoldable pub identity : Port → Option Identity
identity (switch_ip, port) = elim (parse_int port) [
  | none ↦ none
  | some n ↦
      if is_quad (split_on b'.' switch_ip)
      then quad (numbers (split_on b'.' switch_ip)) n (pseudo_ip switch_ip port)
      else some (record {
        mac = joined_hex "00" "00" "00" (hex2 (n % 256));
        ip = append "127.0.0." (show (1000 + n));
        oui = "02ff00";
      })
]
