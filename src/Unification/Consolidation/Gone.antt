-- ===== src/Unification/Consolidation/Gone.antt =====
-- Nothing is left of a stand-in that was replaced (src/engine/unification.py:
-- run_verified_switch_consolidation_pass).
use net_lanvas.Base.{
  ℕ, String, Option, none, some, List, [], ◌∷◌, Bool, true, false, any, eq_ℕ, eq_String, ◌≡◌, ◌≢◌,
  refl, arith, eq_iff, ◌∙◌, subst,
}
use net_lanvas.Base.Table.{update}
use net_lanvas.Base.Keyed.{find_key, delete_key, find_key-delete_key, delete-absent}
use net_lanvas.Net.{Interface, Binding, Link, Net}
use net_lanvas.Unification.{node_of_mac, delete_node}
use net_lanvas.Unification.Consolidation.{
  leads_to, starts_at, delete_interface, delete_found, replaced, replace,
}

any-update :
    (q p : Link → Bool) (f : Link → Link) (links : List Link)
    → ((l : Link) → p l ≡ true → q (f l) ≡ false)
    → ((l : Link) → p l ≡ false → q l ≡ false)
    → any q (update p f links) ≡ false
unfolding update
any-update q p f [] hit miss = refl
any-update q p f (l ∷ links) hit miss =
    ground (arith, hit l, miss l, any-update q p f links hit miss)

any-update_same :
    (q p : Link → Bool) (f : Link → Link) (links : List Link)
    → ((l : Link) → q (f l) ≡ q l)
    → any q (update p f links) ≡ any q links
unfolding update
any-update_same q p f [] same = refl
any-update_same q p f (l ∷ links) same = ground (arith, same l, any-update_same q p f links same)

-- No row refers to the stand-in.
pub record IsGone (ip mac : String) (net : Net) : Type 0 where
  pub no_start : any (starts_at ip) net.infrastructure_links ≡ false
  pub no_end : any (leads_to ip) net.infrastructure_links ≡ false
  pub no_binding : find_key Binding.ip_address ip net.l3_bindings ≡ none
  pub no_interface : find_key Interface.mac_address mac net.l2_interfaces ≡ none

delete_found-IsGone :
    (ip mac : String) (o : Option ℕ) (net : Net)
    → IsGone ip mac net
    → IsGone ip mac (delete_found o net)
unfolding delete_node
delete_found-IsGone ip mac none net g = g
delete_found-IsGone ip mac (some id) net g = record {
  no_start = g.no_start;
  no_end = g.no_end;
  no_binding = delete-absent Binding.ip_address ip _ net.l3_bindings g.no_binding;
  no_interface = delete-absent Interface.mac_address mac _ net.l2_interfaces g.no_interface;
}

replaced-IsGone :
    (ip mac real_ip : String) (net : Net)
    → real_ip ≢ ip
    → IsGone ip mac (replaced ip mac real_ip net)
unfolding replaced delete_interface delete_key
replaced-IsGone ip mac real_ip net apart =
    let moved =
      update (starts_at ip) (λ l. record l { local_switch_ip = real_ip })
        net.infrastructure_links in
    delete_found-IsGone ip mac (node_of_mac net mac) _ (record {
      no_start =
          any-update_same (starts_at ip) (leads_to ip)
            (λ l. record l { remote_system_name = some real_ip }) moved (λ l. refl)
          ∙ any-update (starts_at ip) (starts_at ip) (λ l. record l { local_switch_ip = real_ip })
              net.infrastructure_links (λ l p. ground (arith, eq_iff real_ip ip)) (λ l p. p);
      no_end =
          any-update (leads_to ip) (leads_to ip)
            (λ l. record l { remote_system_name = some real_ip }) moved
            (λ l p. ground (arith, eq_iff real_ip ip)) (λ l p. p);
      no_binding =
          delete-absent Binding.ip_address ip _ (delete_key Binding.ip_address ip net.l3_bindings) (
            ground
              (arith, find_key-delete_key Binding.ip_address ip ip net.l3_bindings, eq_iff ip ip));
      no_interface = ground (
        arith,
        find_key-delete_key Interface.mac_address mac mac net.l2_interfaces,
        eq_iff mac mac,
      );
    })

-- Once a verified switch with an address of its own has replaced a stand-in, no link starts at the
-- stand-in's address or leads to it, and neither its binding nor its interface is left.
pub replace-IsGone :
    (ip mac real_ip : String) (net : Net) {net' : Net}
    → replace ip mac real_ip net ≡ some net'
    → real_ip ≢ ip
    → IsGone ip mac net'
replace-IsGone ip mac real_ip net {net'} e apart =
    let same : replaced ip mac real_ip net ≡ net' = ground arith in
    subst (IsGone ip mac) same (replaced-IsGone ip mac real_ip net apart)
