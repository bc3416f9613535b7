-- ===== src/Sniffer/Caps.antt =====
-- How many names the sniffer writes (src/pollers/dhcp_sniffer.py: _handle_packet).
use net_lanvas.Base.{
  ℕ, zero, suc, ◌+◌, ◌*◌, ◌/◌, ◌%◌, ◌≤◌, ◌<◌, String, Option, none, some, List, [], ◌∷◌, Bool, true,
  false, not, nat_eq, ltb, eq_ℕ, eq_String, ◌||◌, if◌then◌else◌, ◌≡◌, ◌≢◌, refl, arith, length,
  take, All, all, is_empty, Bool-cases, inl, inr, ap, ◌∙◌,
}
use net_lanvas.Base.Bytes.{skip, slice, join_hex, hex_byte, hex_char}
use net_lanvas.Base.Number.{pick}
use net_lanvas.Base.Text.{append, len, codes_eq}
use net_lanvas.RateLimit.{Attempts, is_rate_limited, record_attempt}
use net_lanvas.RateLimit.Counts.{
  fresh_at, fresh_at-check, fresh_at-attempt, fresh_at-passed, fresh_at-other_check,
  fresh_at-other_attempt, same_key-apart,
}
use net_lanvas.Net.{Net}
use net_lanvas.Hostname.{is_usable_hostname}
use net_lanvas.Sniffer.{
  Sniffer, Options, parse_bootp_dhcp, parse_options, chaddr_of, handle_packet, handle_parsed,
  admit_name, store_name, rate_bucket, hostname_of, global_window_seconds, global_max_per_window,
  per_mac_window_seconds, dhcp_magic_cookie,
}
use Prim.Native.Char.{Char}

pick-len :
    (n : ℕ) (last : String) (texts : List String)
    → len last ≡ 1
    → All (λ s. len s ≡ 1) texts
    → len (pick n last texts) ≡ 1
pick-len n last [] h k = h
pick-len zero last (s ∷ texts) h (e, k) = e
pick-len (suc n) last (s ∷ texts) h (e, k) = pick-len n last texts h k

hex_char-len : (d : ℕ) → len (hex_char d) ≡ 1
hex_char-len d =
    pick-len d "f"
      ("0" ∷ "1" ∷ "2" ∷ "3" ∷ "4" ∷ "5" ∷ "6" ∷ "7" ∷ "8" ∷ "9" ∷ "a" ∷ "b" ∷ "c" ∷ "d" ∷ "e" ∷ [])
      refl
      (
        refl,
        (
          refl,
          (
            refl,
            (
              refl,
              (
                refl,
                (refl, (refl, (refl, (refl, (refl, (refl, (refl, (refl, (refl, (refl, tt)))))))))),
              ),
            ),
          ),
        ),
      )

append-len : (s t : String) → len (append s t) ≡ len s + len t
append-len String.[] t = omega arith
append-len (String.◌∷◌ c s) t = omega (arith, append-len s t)

hex_byte-len : (b : ℕ) → len (hex_byte b) ≡ 2
hex_byte-len b = omega (
  arith,
  append-len (hex_char (b / 16)) (hex_char (b % 16)),
  hex_char-len (b / 16),
  hex_char-len (b % 16),
)

join_hex-len : (b : ℕ) (rest : List ℕ) → suc (len (join_hex ":" (b ∷ rest))) ≡ 3 * length (b ∷ rest)
unfolding join_hex
join_hex-len b [] = omega (arith, hex_byte-len b)
join_hex-len b (c ∷ rest) = omega (
  arith,
  append-len (hex_byte b) (append ":" (join_hex ":" (c ∷ rest))),
  hex_byte-len b,
  join_hex-len c rest,
)

-- the identifier of the global cap is no MAC address
join_hex-apart : (bytes : List ℕ) → join_hex ":" bytes ≢ "global"
unfolding join_hex
join_hex-apart [] e = let same : len "" ≡ len "global" = ap len e in omega (arith, same)
join_hex-apart (b ∷ rest) e =
    let same : len (join_hex ":" (b ∷ rest)) ≡ len "global" = ap len e in
    omega (arith, same, join_hex-len b rest)

-- A result that passed three guards.
abbrev guarded :
    Bool
    → Bool
    → Bool
    → String
    → (Options → Option String)
    → Option Options
    → Option (String × Option String)
guarded a b c mac name options =
    if a
    then none
    else if b
    then none
    else if c
    then none
    else elim options [ none ↦ none | some options ↦ some (mac, name options) ]

guarded-mac :
    (a b c : Bool) (own mac : String) (name : Options → Option String) (options : Option Options)
    (o : Option String)
    → guarded a b c own name options ≡ some (mac, o)
    → own ≡ mac
guarded-mac true b c own mac name options o e = absurd (ground arith)
guarded-mac false true c own mac name options o e = absurd (ground arith)
guarded-mac false false true own mac name options o e = absurd (ground arith)
guarded-mac false false false own mac name none o e = absurd (ground arith)
guarded-mac false false false own mac name (some options) o e = ground arith

parse_bootp_dhcp-apart :
    (is_printable : Char → Bool) (bytes : List ℕ) (mac : String) (o : Option String)
    → parse_bootp_dhcp is_printable bytes ≡ some (mac, o)
    → mac ≢ "global"
unfolding parse_bootp_dhcp
parse_bootp_dhcp-apart is_printable bytes mac o e =
    let chaddr = chaddr_of bytes in
    let own =
      guarded-mac (ltb (length bytes) 240) (is_empty chaddr || all (λ b. nat_eq b 0) chaddr)
        (not (codes_eq (slice 236 240 bytes) dhcp_magic_cookie)) (join_hex ":" (take 6 chaddr)) mac
        (hostname_of is_printable) (parse_options (suc (length bytes)) (skip 240 bytes) []) o e in
    λ same. join_hex-apart (take 6 chaddr) (own ∙ same)

-- the failures of the global cap that count at the time `last`
abbrev tally : ℕ → Attempts → ℕ
tally last attempts = fresh_at "global" rate_bucket global_window_seconds last attempts

abbrev pub as_number : Bool → ℕ
as_number wrote = if wrote then 1 else 0

as_number_le : (b : Bool) → as_number b ≤ 1
as_number_le true = omega arith
as_number_le false = omega arith

-- Either the packet is not counted, and writes nothing, or the count rises by one to 50 at most.
abbrev IsCapped : ℕ → Attempts → Bool × Sniffer → Type 0
IsCapped last attempts answer =
    (as_number answer.0 + tally last attempts ≤ tally last answer.1.attempts)
    × (tally last attempts ≤ 50 → tally last answer.1.attempts ≤ 50)

module _ (now last : ℕ) (early : now ≤ last) (soon : last < now + global_window_seconds) where
  store_name-attempts :
      (mac hostname : String) (attempts : Attempts) (o : Option Net)
      → (store_name mac hostname attempts o).1.attempts ≡ attempts
  store_name-attempts mac hostname attempts none = refl
  store_name-attempts mac hostname attempts (some net) = refl

  admit_name-IsCapped :
      (mac hostname : String) (s : Sniffer)
      → mac ≢ "global"
      → IsCapped last s.attempts (admit_name now mac hostname s)
  unfolding admit_name
  admit_name-IsCapped mac hostname s apart =
      let checked =
        (is_rate_limited "global" rate_bucket global_max_per_window global_window_seconds now
          s.attempts).1 in
      let passed = (is_rate_limited mac rate_bucket 1 per_mac_window_seconds now checked).1 in
      let counted = record_attempt "global" rate_bucket global_window_seconds now passed in
      let key = same_key-apart "global" mac rate_bucket apart in
      let after = record_attempt mac rate_bucket per_mac_window_seconds now counted in
      let e1 =
        fresh_at-check "global" rate_bucket global_window_seconds now last s.attempts early
          global_max_per_window in
      let e2 =
        fresh_at-other_check "global" mac rate_bucket global_window_seconds per_mac_window_seconds
          now last checked key 1 in
      let e3 =
        fresh_at-attempt "global" rate_bucket global_window_seconds now last passed early soon in
      let e4 =
        fresh_at-other_attempt "global" mac rate_bucket global_window_seconds per_mac_window_seconds
          now last counted key in
      elim (Bool-cases
        (is_rate_limited "global" rate_bucket global_max_per_window global_window_seconds now
          s.attempts).0) [
            | inl p ↦ rw p (omega (arith, e1), λ k. omega (arith, e1, k))
            | inr p ↦
                elim (Bool-cases
                  (is_rate_limited mac rate_bucket 1 per_mac_window_seconds now checked).0) [
                    | inl q ↦ rw (p, q) (omega (arith, e1, e2), λ k. omega (arith, e1, e2, k))
                    | inr q ↦
                        let room =
                          fresh_at-passed "global" rate_bucket global_window_seconds now last
                            s.attempts early global_max_per_window p in
                        rw (p, q, store_name-attempts mac hostname after s.network)
                          (
                            omega (
                              arith,
                              e1,
                              e2,
                              e3,
                              e4,
                              as_number_le (store_name mac hostname after s.network).0,
                            ),
                            λ k. omega (arith, e1, e2, e3, e4, room),
                          )
                  ]
          ]

  handle_parsed-IsCapped :
      (o : Option (String × Option String)) (s : Sniffer)
      → ((mac : String) (name : Option String) → o ≡ some (mac, name) → mac ≢ "global")
      → IsCapped last s.attempts (handle_parsed now o s)
  handle_parsed-IsCapped none s h = (omega arith, λ k. k)
  handle_parsed-IsCapped (some (mac, none)) s h = (omega arith, λ k. k)
  handle_parsed-IsCapped (some (mac, some hostname)) s h =
      elim (Bool-cases (is_usable_hostname hostname)) [
        | inl q ↦ rw q (admit_name-IsCapped mac hostname s (h mac (some hostname) refl))
        | inr q ↦ rw q (omega arith, λ k. k)
      ]

  handle_packet-IsCapped :
      (is_printable : Char → Bool) (bytes : List ℕ) (s : Sniffer)
      → IsCapped last s.attempts (handle_packet is_printable now bytes s)
  unfolding handle_packet
  handle_packet-IsCapped is_printable bytes s =
      handle_parsed-IsCapped (parse_bootp_dhcp is_printable bytes) s
        (parse_bootp_dhcp-apart is_printable bytes)

-- Packets with the times of their handling.
unfoldable pub handle_all : (Char → Bool) → List (ℕ × List ℕ) → Sniffer → Sniffer
handle_all is_printable [] s = s
handle_all is_printable ((now, bytes) ∷ packets) s =
    handle_all is_printable packets (handle_packet is_printable now bytes s).1

-- How many of them write a name into the database.
unfoldable pub names_written : (Char → Bool) → List (ℕ × List ℕ) → Sniffer → ℕ
names_written is_printable [] s = 0
names_written is_printable ((now, bytes) ∷ packets) s =
    let (wrote, after) = handle_packet is_printable now bytes s in
    as_number wrote + names_written is_printable packets after

abbrev pub IsWithin : ℕ → ℕ → List (ℕ × List ℕ) → Type 0
IsWithin first last [] = Unit
IsWithin first last ((now, bytes) ∷ packets) =
    (first ≤ now) × (now ≤ last) × IsWithin first last packets

-- Whatever arrives on the segment within ten seconds, in any number and from any number of
-- hardware addresses, at most 50 names are written. At most 50 packets of those ten seconds may
-- count before the first.
pub names_written_le :
    (is_printable : Char → Bool) (first last : ℕ) (packets : List (ℕ × List ℕ)) (s : Sniffer)
    → last < first + global_window_seconds
    → IsWithin first last packets
    → fresh_at "global" rate_bucket global_window_seconds last s.attempts ≤ 50
    → names_written is_printable packets s
        + fresh_at "global" rate_bucket global_window_seconds last s.attempts
      ≤ 50
unfolding names_written
names_written_le is_printable first last [] s short h few = omega (arith, few)
names_written_le is_printable first last ((now, bytes) ∷ packets) s short (late, early, h) few =
    let step = handle_packet-IsCapped now last early (omega arith) is_printable bytes s in
    omega (
      arith,
      step.0,
      names_written_le is_printable first last packets (handle_packet is_printable now bytes s).1
          short h (step.1 few),
    )
