-- ===== src/Discovery/Tests.antt =====
-- Runs of the hostname discovery.
use net_lanvas.Base.{ℕ, some, [], ◌∷◌, ◌++◌, List, ◌≡◌, ◌≢◌, refl, arith, eq_ℕ}
use net_lanvas.Base.Utf8.{decode_utf8, encode_ascii}
use net_lanvas.Base.Text.{strip, lstrip, rstrip}
use net_lanvas.Net.{Node, Net}
use net_lanvas.Inference.Tests.{tables}
use net_lanvas.Hostname.Tests.{node}
use net_lanvas.Discovery.{
  Probe, parse_ptr_hostname, parse_nbstat_name, skip_name, read_rdata, read_labels_at,
  first_nbstat_name, decode_known, byte_at, out_of_fuel,
}
use net_lanvas.Discovery.Ends.{ptr_loops_end}

-- One answer, whose name is a pointer and whose data are the labels "tv" and "local".
abbrev ptr_answer : List ℕ
ptr_answer =
    (0 ∷ 0 ∷ 0x84 ∷ 0 ∷ 0 ∷ 0 ∷ 0 ∷ 1 ∷ 0 ∷ 0 ∷ 0 ∷ 0 ∷ [])
    ++ ((0xc0 ∷ 12 ∷ 0 ∷ 12 ∷ 0 ∷ 1 ∷ 0 ∷ 0 ∷ 0 ∷ 10 ∷ 0 ∷ 10 ∷ [])
        ++ ((2 ∷ encode_ascii "tv") ++ ((5 ∷ encode_ascii "local") ++ 0 ∷ [])))

reads_ptr : parse_ptr_hostname ptr_answer ≡ some "tv"
unfolding parse_ptr_hostname read_rdata decode_utf8 byte_at
reads_ptr = refl

-- A pointer that points to itself ends after 20 rounds, with no labels.
loops : read_labels_at 20 0 (0xc0 ∷ 0 ∷ []) ≡ some []
unfolding read_labels_at byte_at
loops = refl

-- The first name is a group's, the second the host's.
abbrev nbstat_answer : List ℕ
nbstat_answer =
    (0 ∷ 0 ∷ 0x84 ∷ 0 ∷ 0 ∷ 0 ∷ 0 ∷ 1 ∷ 0 ∷ 0 ∷ 0 ∷ 0 ∷ [])
    ++ ((0xc0 ∷ 12 ∷ 0 ∷ 0x21 ∷ 0 ∷ 1 ∷ 0 ∷ 0 ∷ 0 ∷ 0 ∷ 0 ∷ 37 ∷ 2 ∷ [])
        ++ (encode_ascii "WORKGROUP      "
            ++ (0 ∷ 0x84 ∷ 0 ∷ (encode_ascii "NAS-01         " ++ 0 ∷ 4 ∷ 0 ∷ []))))

reads_nbstat : parse_nbstat_name nbstat_answer ≡ some "NAS-01"
unfolding parse_nbstat_name first_nbstat_name decode_known strip lstrip rstrip byte_at
reads_nbstat = refl

ptr_loops_end_example :
    ((skip_name 100 0 (3 ∷ 97 ∷ []) ≢ out_of_fuel)
      × (skip_name 100 0 (3 ∷ 97 ∷ []) ≡ skip_name 3 0 (3 ∷ 97 ∷ [])))
    × ((read_rdata 100 0 9 (3 ∷ 97 ∷ []) ≢ out_of_fuel)
        × (read_rdata 100 0 9 (3 ∷ 97 ∷ []) ≡ read_rdata 3 0 9 (3 ∷ 97 ∷ [])))
ptr_loops_end_example = ptr_loops_end (3 ∷ 97 ∷ []) 100 0 9 (omega arith)

abbrev probe : Probe
probe = record { ip = "10.0.0.5"; mdns_name = some "tv"; nb_name = some "TV" }

abbrev named : Node
named = record node { id = 5; hostname_source_priority = 40 }

abbrev known : Net
known = record tables { logical_nodes = named ∷ [] }
