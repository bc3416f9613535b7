-- ===== src/SmartSwitch/Nsdp/Replies.antt =====
-- A reply of a switch, built and read again (src/engine/smart_switch_pipeline.py:
-- _parse_nsdp_response).
use net_lanvas.Base.{
  ℕ, suc, ◌+◌, some, List, [], ◌++◌, true, false, ltb, ◌≡◌, refl, ap, ◌∙◌, arith, length,
  length-append, take, All,
}
use net_lanvas.Base.Bytes.{skip, slice, at, skip-past, skip-append, take-append, at-append}
use net_lanvas.SmartSwitch.{walk}
use net_lanvas.SmartSwitch.Walk.{encode, fold, IsField, walk-encode}
use net_lanvas.SmartSwitch.Nsdp.{
  Fields, nsdp_signature, nsdp_field, nsdp_device, is_nsdp_response, parse_nsdp_response,
}

-- The parts of a reply before its fields.
pub record Header : Type 0 where
  pub head : List ℕ
  pub mac : List ℕ
  pub middle : List ℕ
  pub trailer : List ℕ

-- A read response has the opcode 2.
pub record IsHeader (h : Header) : Type 0 where
  pub head : length h.head ≡ 14
  pub opcode : at 1 h.head ≡ 2
  pub mac : length h.mac ≡ 6
  pub middle : length h.middle ≡ 4
  pub trailer : length h.trailer ≡ 4

abbrev pub reply : Header → List (ℕ × List ℕ) → List ℕ → List ℕ
reply h fields tail =
    h.head ++ (h.mac ++ (h.middle ++ (nsdp_signature ++ (h.trailer ++ encode fields tail))))

parse_nsdp_response-parts :
    (bytes mac : List ℕ) (fields : Fields)
    → is_nsdp_response bytes ≡ true
    → slice 14 20 bytes ≡ mac
    → walk (λ n. n) nsdp_field (suc (length bytes)) (skip 32 bytes) [] ≡ some fields
    → parse_nsdp_response bytes ≡ some (nsdp_device mac fields)
unfolding parse_nsdp_response
parse_nsdp_response-parts bytes mac fields kind address e =
    rw (kind, e) (ap (λ m. some (nsdp_device m fields)) address)

module _ (h : Header) (fields : List (ℕ × List ℕ)) (tail : List ℕ) (ok : IsHeader h) where
  after_signature : List ℕ
  after_signature = h.trailer ++ encode fields tail

  after_mac : List ℕ
  unfolding after_signature
  after_mac = h.middle ++ (nsdp_signature ++ after_signature)

  length-reply : length (reply h fields tail) ≡ 32 + length (encode fields tail)
  unfolding after_mac
  length-reply = omega (
    arith,
    length-append h.head (h.mac ++ after_mac),
    length-append h.mac after_mac,
    length-append h.middle (nsdp_signature ++ after_signature),
    length-append h.trailer (encode fields tail),
    ok.head,
    ok.mac,
    ok.middle,
    ok.trailer,
  )

  slice-mac : slice 14 20 (reply h fields tail) ≡ h.mac
  unfolding after_mac
  slice-mac =
      ap (take 6) (skip-append 14 h.head (h.mac ++ after_mac) ok.head)
      ∙ take-append 6 h.mac after_mac ok.mac

  slice-signature : slice 24 28 (reply h fields tail) ≡ nsdp_signature
  unfolding after_mac
  slice-signature = ap (take 4) (
      skip-past 10 24 h.head (h.mac ++ after_mac) (omega (arith, ok.head))
      ∙ skip-past 4 10 h.mac after_mac (omega (arith, ok.mac))
      ∙ skip-append 4 h.middle (nsdp_signature ++ after_signature) ok.middle)

  skip-32 : skip 32 (reply h fields tail) ≡ encode fields tail
  unfolding after_mac
  skip-32 =
      skip-past 18 32 h.head (h.mac ++ after_mac) (omega (arith, ok.head))
      ∙ skip-past 12 18 h.mac after_mac (omega (arith, ok.mac))
      ∙ skip-past 8 12 h.middle (nsdp_signature ++ after_signature) (omega (arith, ok.middle))
      ∙ skip-append 4 h.trailer (encode fields tail) ok.trailer

  is_nsdp_response-reply : is_nsdp_response (reply h fields tail) ≡ true
  unfolding is_nsdp_response after_mac
  is_nsdp_response-reply =
      let opcode : at 1 (reply h fields tail) ≡ 2 =
        at-append 1 h.head (h.mac ++ after_mac) (omega (arith, ok.head)) ∙ ok.opcode in
      let long : ltb (length (reply h fields tail)) 32 ≡ false = ground (arith, length-reply) in
      rw (long, slice-signature, opcode) refl

  -- What a switch writes is read: for a read response with its parts of the right lengths, whose
  -- fields have any types but the end mark's, any values and any order, the device has the values
  -- that the fields give one after the other, and the header's MAC address where they give none.
  -- What follows the end mark does not matter.
  pub parse_nsdp_response-reply :
      All IsField fields
      → parse_nsdp_response (reply h fields tail)
        ≡ some (nsdp_device h.mac (fold nsdp_field fields []))
  parse_nsdp_response-reply h-fields =
      parse_nsdp_response-parts (reply h fields tail) h.mac (fold nsdp_field fields [])
        is_nsdp_response-reply slice-mac
        (rw skip-32 (
          walk-encode nsdp_field (suc (length (reply h fields tail))) fields tail [] h-fields
            (omega (arith, length-reply))))
