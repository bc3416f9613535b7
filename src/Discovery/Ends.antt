-- ===== src/Discovery/Ends.antt =====
-- The loops of the PTR parser end (src/pollers/hostname_discovery.py: _parse_ptr_hostname).
use net_lanvas.Base.{
  ℕ, zero, suc, ◌+◌, ◌≤◌, ◌<◌, String, Option, none, some, List, [], ◌∷◌, ◌≡◌, ◌≢◌, refl, arith,
  length, Option-cases, inl, inr,
}
use net_lanvas.Base.Bytes.{slice}
use net_lanvas.Base.Utf8.{decode_utf8}
use net_lanvas.Discovery.{
  byte_at, skip_name, read_rdata, Looped, returned, raised, out_of_fuel, looped, add_label,
}

byte_at-out : (pos : ℕ) (bytes : List ℕ) → length bytes ≤ pos → byte_at pos bytes ≡ none
unfolding byte_at
byte_at-out pos [] h = refl
byte_at-out zero (b ∷ rest) h = absurd (omega arith)
byte_at-out (suc pos) (b ∷ rest) h = byte_at-out pos rest (omega arith)

module _ (bytes : List ℕ) where
  -- `n` rounds are enough from the position on
  skip_name-same :
      (n f g pos : ℕ)
      → length bytes ≤ pos + n
      → n < f
      → n < g
      → skip_name f pos bytes ≡ skip_name g pos bytes
  unfolding skip_name
  skip_name-same n zero g pos h k l = absurd (omega arith)
  skip_name-same n (suc f) zero pos h k l = absurd (omega arith)
  skip_name-same zero (suc f) (suc g) pos h k l = ground (arith, byte_at-out pos bytes)
  skip_name-same (suc n) (suc f) (suc g) pos h k l = elim (Option-cases (byte_at pos bytes)) [
    | inl e ↦ ground arith
    | inr (b, e) ↦ ground (arith, skip_name-same n f g (pos + b + 1))
  ]

  read_rdata-same :
      (n f g pos last : ℕ)
      → length bytes ≤ pos + n
      → n < f
      → n < g
      → read_rdata f pos last bytes ≡ read_rdata g pos last bytes
  unfolding read_rdata
  read_rdata-same n zero g pos last h k l = absurd (omega arith)
  read_rdata-same n (suc f) zero pos last h k l = absurd (omega arith)
  read_rdata-same zero (suc f) (suc g) pos last h k l = ground (arith, byte_at-out pos bytes)
  read_rdata-same (suc n) (suc f) (suc g) pos last h k l = elim (Option-cases (byte_at pos bytes)) [
    | inl e ↦ ground arith
    | inr (b, e) ↦ ground (arith, read_rdata-same n f g (pos + 1 + b) last)
  ]

  skip_name_ends :
      (f pos : ℕ) → length bytes < pos + f → zero < f → skip_name f pos bytes ≢ out_of_fuel
  unfolding skip_name
  skip_name_ends zero pos h k = absurd (omega arith)
  skip_name_ends (suc zero) pos h k = ground (arith, byte_at-out pos bytes)
  skip_name_ends (suc (suc f)) pos h k = elim (Option-cases (byte_at pos bytes)) [
    | inl e ↦ ground arith
    | inr (b, e) ↦ ground (arith, skip_name_ends (suc f) (pos + b + 1))
  ]

  add_label_ends :
      (label : String) (rest : Looped (List String))
      → rest ≢ out_of_fuel
      → add_label label rest ≢ out_of_fuel
  add_label_ends label (returned labels) h = λ e. ground arith
  add_label_ends label raised h = λ e. ground arith
  add_label_ends label out_of_fuel h = λ e. h refl

  looped_ends : (o : Option (List String)) → looped o ≢ out_of_fuel
  looped_ends none = λ e. ground arith
  looped_ends (some labels) = λ e. ground arith

  read_rdata_ends :
      (f pos last : ℕ)
      → length bytes < pos + f
      → zero < f
      → read_rdata f pos last bytes ≢ out_of_fuel
  unfolding read_rdata
  read_rdata_ends zero pos last h k = absurd (omega arith)
  read_rdata_ends (suc zero) pos last h k = ground (arith, byte_at-out pos bytes)
  read_rdata_ends (suc (suc f)) pos last h k = elim (Option-cases (byte_at pos bytes)) [
    | inl e ↦ ground (arith)
    | inr (b, e) ↦
        let rest = read_rdata_ends (suc f) (pos + 1 + b) last (omega (arith, h)) (omega arith) in
        let more =
          add_label_ends (decode_utf8 (slice (pos + 1) (pos + 1 + b) bytes))
            (read_rdata (suc f) (pos + 1 + b) last bytes) rest in
        grind (arith, more, looped_ends)
  ]

  -- One round more than the packet has bytes is enough for both loops: with that fuel or more
  -- neither runs out of it, from any position and whatever the bytes are, so that each returns or
  -- raises, and what comes out does not depend on the fuel.
  pub ptr_loops_end :
      (fuel pos last : ℕ)
      → length bytes < fuel
      → ((skip_name fuel pos bytes ≢ out_of_fuel)
          × (skip_name fuel pos bytes ≡ skip_name (suc (length bytes)) pos bytes))
        × ((read_rdata fuel pos last bytes ≢ out_of_fuel)
            × (read_rdata fuel pos last bytes ≡ read_rdata (suc (length bytes)) pos last bytes))
  ptr_loops_end fuel pos last h = (
    (
      skip_name_ends fuel pos (omega (arith, h)) (omega (arith, h)),
      skip_name-same (length bytes) fuel (suc (length bytes)) pos (omega arith) h (omega arith),
    ),
    (
      read_rdata_ends fuel pos last (omega (arith, h)) (omega (arith, h)),
      read_rdata-same (length bytes) fuel (suc (length bytes)) pos last (omega arith) h
          (omega arith),
    ),
  )
