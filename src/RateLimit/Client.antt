-- ===== src/RateLimit/Client.antt =====
-- The address that requests are counted under (`get_client_ip`).
use Prim.Native.Char.{Char, code}
use net_lanvas.Base.{
  String, Option, some, List, [], ◌∷◌, ◌++◌, Bool, false, ◌||◌, ◌≡◌, refl, arith, ap, is_empty,
  Bool-cases, inl, inr, nat_eq,
}
use mathlib.Core.List.{map-append}
use net_lanvas.Base.Table.{select, select-append}
use net_lanvas.Base.Text.{
  append, strip, lstrip, rstrip, split_on, on_first, is_space, is_blank, any_char,
  cons_unless_space,
}
use net_lanvas.RateLimit.{get_client_ip, forwarded_parts, last}

-- a header value that the proxy extends: what the client sent, a comma and a space, the address
abbrev pub extended : String → String → String
extended sent ip = append sent (append ", " ip)

abbrev pub is_separator : Char → Bool
is_separator c = nat_eq (code c) b',' || is_space c

-- an address: no comma and no blank in it, and not empty
pub record IsAddress (ip : String) : Type 0 where
  pub solid : any_char is_separator ip ≡ false
  pub present : is_blank ip ≡ false

on_first-append :
    (f : String → String) (xs ys : List String)
    → is_empty xs ≡ false
    → on_first f (xs ++ ys) ≡ on_first f xs ++ ys
on_first-append f [] ys h = cc
on_first-append f (x ∷ xs) ys h = refl

is_empty-on_first : (f : String → String) (xs : List String) → is_empty (on_first f xs) ≡ false
is_empty-on_first f [] = refl
is_empty-on_first f (x ∷ xs) = refl

is_empty-split_on : (s : String) → is_empty (split_on b',' s) ≡ false
unfolding split_on
is_empty-split_on String.[] = refl
is_empty-split_on (String.◌∷◌ c s) = elim (Bool-cases (nat_eq (code c) b',')) [
  | inl e ↦ rw e
  | inr e ↦ rw e (is_empty-on_first (String.◌∷◌ c) (split_on b',' s))
]

split_on-extended :
    (sent rest : String)
    → split_on b',' (append sent (append "," rest)) ≡ split_on b',' sent ++ split_on b',' rest
unfolding split_on
split_on-extended String.[] rest = refl
split_on-extended (String.◌∷◌ c sent) rest = ground (
  arith,
  split_on-extended sent rest,
  on_first-append (String.◌∷◌ c) (split_on b',' sent) (split_on b',' rest),
  is_empty-split_on sent,
)

split_on_solid : (s : String) → any_char is_separator s ≡ false → split_on b',' s ≡ s ∷ []
unfolding split_on
split_on_solid String.[] h = refl
split_on_solid (String.◌∷◌ c s) h = ground (arith, split_on_solid s)

rstrip_solid : (s : String) → any_char is_separator s ≡ false → rstrip s ≡ s
unfolding rstrip
rstrip_solid String.[] h = refl
rstrip_solid (String.◌∷◌ c String.[]) h = ground arith
rstrip_solid (String.◌∷◌ c (String.◌∷◌ d s)) h =
    ap (cons_unless_space c) (rstrip_solid (String.◌∷◌ d s) (ground arith))

lstrip_solid : (s : String) → any_char is_separator s ≡ false → lstrip s ≡ s
unfolding lstrip
lstrip_solid String.[] h = refl
lstrip_solid (String.◌∷◌ c s) h = ground arith

last-append : (xs : List String) (y : String) → last (xs ++ y ∷ []) ≡ some y
last-append [] y = refl
last-append (x ∷ []) y = refl
last-append (x ∷ z ∷ xs) y = last-append (z ∷ xs) y

strip-address : (ip : String) → IsAddress ip → strip (append " " ip) ≡ ip
unfolding strip
strip-address ip h = rw (lstrip_solid ip h.solid, rstrip_solid ip h.solid)

-- A blank before an address goes away, and the address is one part with its text unchanged.
forwarded_parts-address : (ip : String) → IsAddress ip → forwarded_parts (append " " ip) ≡ ip ∷ []
unfolding forwarded_parts split_on select
forwarded_parts-address ip h = rw (split_on_solid ip h.solid, strip-address ip h, h.present)

forwarded_parts-extended :
    (sent ip : String)
    → forwarded_parts (extended sent ip) ≡ forwarded_parts sent ++ forwarded_parts (append " " ip)
unfolding forwarded_parts
forwarded_parts-extended sent ip =
    rw (split_on-extended sent (append " " ip), map-append, select-append)

get_client_ip-last :
    (forwarded ip : String) (client : Option String)
    → last (forwarded_parts forwarded) ≡ some ip
    → get_client_ip (some forwarded) client ≡ ip
unfolding get_client_ip
get_client_ip-last forwarded ip client h = ground arith

-- The proxy appends the peer's address to whatever X-Forwarded-For the client sent. Then the
-- address that the limiter counts under is the peer's, whatever the client sent, where that
-- address is not empty and has no comma or blank in it.
pub get_client_ip-extended :
    (sent ip : String) (client : Option String)
    → IsAddress ip
    → get_client_ip (some (extended sent ip)) client ≡ ip
get_client_ip-extended sent ip client h = get_client_ip-last (extended sent ip) ip client (
    rw (forwarded_parts-extended sent ip, forwarded_parts-address ip h)
      (last-append (forwarded_parts sent) ip))
