-- ===== src/Sniffer/Packet.antt =====
-- A whole DHCP packet, built and read again (src/pollers/dhcp_sniffer.py: _parse_bootp_dhcp).
use net_lanvas.Base.{
  ℕ, suc, ◌+◌, some, List, [], ◌∷◌, ◌++◌, Bool, true, false, nat_eq, eq_ℕ, ltb, ◌||◌, ◌≡◌, refl, ap,
  ◌∙◌, arith, length, length-append, take, All, all, is_empty,
}
use net_lanvas.Base.Bytes.{
  skip, slice, at, join_hex, skip-append, take-append, skip-past, take-past, at-append,
}
use net_lanvas.Base.Text.{codes_eq}
use net_lanvas.Sniffer.{
  Options, parse_options, parse_bootp_dhcp, chaddr_of, hostname_of, dhcp_magic_cookie,
}
use net_lanvas.Sniffer.Options.{encode, put_all, IsOption, parse_options-encode}
use Prim.Native.Char.{Char}

-- The parts of a packet before the options: the hardware address with its padding, and what
-- stands before and after it.
pub record Header : Type 0 where
  pub head : List ℕ
  pub chaddr : List ℕ
  pub padding : List ℕ
  pub middle : List ℕ

pub record IsHeader (h : Header) : Type 0 where
  pub head : length h.head ≡ 28
  pub hlen : at 2 h.head ≡ 6
  pub chaddr : length h.chaddr ≡ 6
  pub padding : length h.padding ≡ 10
  pub middle : length h.middle ≡ 192

abbrev pub packet : Header → List (ℕ × List ℕ) → List ℕ → List ℕ
packet h os tail =
    h.head ++ (h.chaddr ++ (h.padding ++ (h.middle ++ (dhcp_magic_cookie ++ encode os tail))))

parse_bootp_dhcp-parts :
    (is_printable : Char → Bool) (bytes chaddr : List ℕ) (options : Options)
    → chaddr_of bytes ≡ chaddr
    → ltb (length bytes) 240 ≡ false
    → is_empty chaddr || all (λ b. nat_eq b 0) chaddr ≡ false
    → codes_eq (slice 236 240 bytes) dhcp_magic_cookie ≡ true
    → parse_options (suc (length bytes)) (skip 240 bytes) [] ≡ some options
    → parse_bootp_dhcp is_printable bytes
      ≡ some (join_hex ":" (take 6 chaddr), hostname_of is_printable options)
unfolding parse_bootp_dhcp
parse_bootp_dhcp-parts is_printable bytes chaddr options address long given cookie e =
    rw (address, long, given, cookie, e)
      (ap (λ c. some (join_hex ":" (take 6 c), hostname_of is_printable options)) address)

is_empty-length : (xs : List ℕ) → length xs ≡ 6 → is_empty xs ≡ false
is_empty-length [] e = absurd (omega arith)
is_empty-length (x ∷ xs) e = refl

module _ (h : Header) (os : List (ℕ × List ℕ)) (tail : List ℕ) (ok : IsHeader h) where
  abbrev after_head : List ℕ
  after_head = h.chaddr ++ (h.padding ++ (h.middle ++ (dhcp_magic_cookie ++ encode os tail)))

  rest : List ℕ
  rest = h.padding ++ (h.middle ++ (dhcp_magic_cookie ++ encode os tail))

  chaddr_of-packet : chaddr_of (packet h os tail) ≡ h.chaddr
  unfolding rest chaddr_of
  chaddr_of-packet = ground (
    arith,
    is_sized,
    at-append 2 h.head after_head,
    skip-append 28 h.head after_head,
    take-past 10 16 h.chaddr rest,
    take-append 6 h.chaddr (take 10 rest),
  )
    where
      is_sized : (length h.head ≡ 28) × (at 2 h.head ≡ 6) × (length h.chaddr ≡ 6)
      is_sized = (ok.head, ok.hlen, ok.chaddr)

  skip-236 : skip 236 (packet h os tail) ≡ dhcp_magic_cookie ++ encode os tail
  skip-236 =
      skip-past 208 236 h.head after_head (omega (arith, ok.head))
      ∙ skip-past 202 208 h.chaddr
          (h.padding ++ (h.middle ++ (dhcp_magic_cookie ++ encode os tail)))
          (omega (arith, ok.chaddr))
      ∙ skip-past 192 202 h.padding (h.middle ++ (dhcp_magic_cookie ++ encode os tail))
          (omega (arith, ok.padding))
      ∙ skip-append 192 h.middle (dhcp_magic_cookie ++ encode os tail) ok.middle

  skip-240 : skip 240 (packet h os tail) ≡ encode os tail
  skip-240 =
      skip-past 212 240 h.head after_head (omega (arith, ok.head))
      ∙ skip-past 206 212 h.chaddr
          (h.padding ++ (h.middle ++ (dhcp_magic_cookie ++ encode os tail)))
          (omega (arith, ok.chaddr))
      ∙ skip-past 196 206 h.padding (h.middle ++ (dhcp_magic_cookie ++ encode os tail))
          (omega (arith, ok.padding))
      ∙ skip-past 4 196 h.middle (dhcp_magic_cookie ++ encode os tail) (omega (arith, ok.middle))

  length-packet : length (packet h os tail) ≡ 240 + length (encode os tail)
  length-packet = omega (
    arith,
    length-append h.head after_head,
    length-append h.chaddr (h.padding ++ (h.middle ++ (dhcp_magic_cookie ++ encode os tail))),
    length-append h.padding (h.middle ++ (dhcp_magic_cookie ++ encode os tail)),
    length-append h.middle (dhcp_magic_cookie ++ encode os tail),
    ok.head,
    ok.chaddr,
    ok.padding,
    ok.middle,
  )

  -- What a client writes is read: for a packet with a 6-byte hardware address that is not all
  -- zeros and the end mark after options of any number, order and length, the MAC address is the
  -- hardware address and the hostname comes from the options, where a later option of a type
  -- replaces an earlier one. What follows the end mark does not matter.
  pub parse_bootp_dhcp-packet :
      (is_printable : Char → Bool)
      → All IsOption os
      → all (λ b. nat_eq b 0) h.chaddr ≡ false
      → parse_bootp_dhcp is_printable (packet h os tail)
        ≡ some (join_hex ":" (take 6 h.chaddr), hostname_of is_printable (put_all os []))
  parse_bootp_dhcp-packet is_printable h-os given =
      parse_bootp_dhcp-parts is_printable (packet h os tail) h.chaddr (put_all os [])
        chaddr_of-packet (ground (arith, length-packet))
        (rw (is_empty-length h.chaddr ok.chaddr) given) (rw skip-236 refl)
        (rw skip-240 (
          parse_options-encode (suc (length (packet h os tail))) os tail [] h-os
            (omega (arith, length-packet))))
