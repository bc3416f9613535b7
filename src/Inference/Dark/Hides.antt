-- ===== src/Inference/Dark/Hides.antt =====
-- A stand-in hides its own port (src/engine/inference_engine.py: run_dark_matter_detection).
use net_lanvas.Base.{
  String, some, List, [], ◌∷◌, ◌++◌, Bool, true, false, any, eq_String, ◌≡◌, refl, arith,
  Bool-cases, inl, inr, eq_iff, nat_eq_iff,
}
use net_lanvas.Base.Table.{update, select}
use net_lanvas.Net.{Link, Net}
use net_lanvas.Net.Pseudo.{cast_int}
use net_lanvas.Inference.Dark.{in_group, explains, is_real_end, is_anomaly}
use net_lanvas.Inference.Dark.Links.{is_at, link, uplink, uplink_row, uplinked}

any-update_hit :
    (q p : Link → Bool) (f : Link → Link) (links : List Link)
    → ((l : Link) → p l ≡ true → q (f l) ≡ true)
    → any p links ≡ true
    → any q (update p f links) ≡ true
unfolding update
any-update_hit q p f [] hit h = cc
any-update_hit q p f (l ∷ links) hit h = ground (arith, hit l, any-update_hit q p f links hit)

any-append_last :
    (q : Link → Bool) (links : List Link) (row : Link)
    → q row ≡ true
    → any q (links ++ row ∷ []) ≡ true
any-append_last q [] row h = ground arith
any-append_last q (l ∷ links) row h = ground (arith, any-append_last q links row h)

-- A row that is upserted is there.
link-any :
    (q : Link → Bool) (row : Link) (f : Link → Link) (net : Net)
    → q row ≡ true
    → ((l : Link) → is_at row.local_switch_ip row.local_port l ≡ true → q (f l) ≡ true)
    → any q (link row f net).infrastructure_links ≡ true
unfolding link
link-any q row f net here hit =
    elim (Bool-cases (any (is_at row.local_switch_ip row.local_port) net.infrastructure_links)) [
      | inl e ↦
          rw (link, e)
            (any-update_hit q (is_at row.local_switch_ip row.local_port) f net.infrastructure_links
              hit e)
      | inr e ↦ rw (link, e) (any-append_last q net.infrastructure_links row here)
    ]

-- A port that has been linked to a stand-in, and is not ambiguous, is no anomaly in any tables whose
-- links are still those that the linking left, whatever is found at the port besides: the
-- test that is to look past a stand-in's link compares the text of a MAC address with the link's
-- end, which is an IP address, so that the stand-in itself is taken to explain the port.
pub uplink-is_anomaly :
    (switch_ip port ip : String) (net later : Net)
    → is_real_end (some ip) ≡ true
    → later.infrastructure_links ≡ (uplink (switch_ip, port) ip false net).infrastructure_links
    → is_anomaly later (switch_ip, port) ≡ false
unfolding is_anomaly
uplink-is_anomaly switch_ip port ip net later real kept =
    let at_port = select (in_group (switch_ip, port)) net.endpoint_locations in
    let known =
      link-any (explains (switch_ip, port)) (uplink_row (switch_ip, port) ip false at_port)
        (uplinked ip false at_port) net
        (ground (arith, eq_iff switch_ip switch_ip, nat_eq_iff (cast_int port) (cast_int port)))
        (λ l at. ground (arith, at, real)) in
    rw (kept, known) refl
