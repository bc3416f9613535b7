-- ===== src/SmartSwitch/Pipeline.antt =====
-- One run of the steps, in ascending order of their ids (src/engine/smart_switch_pipeline.py:
-- run_smart_switch_pipeline). A step's result is `none` where the step raises.
use net_lanvas.Base.{
  ℕ, String, Option, none, some, List, [], ◌∷◌, ◌++◌, Bool, false, is_some, eq_String, ◌==◌, ◌||◌,
  if◌then◌else◌, ◌≡◌, ◌≢◌, refl, sym, ap, ◌∙◌, arith, eq_iff,
}
use net_lanvas.Base.Text.{is_blank}
use net_lanvas.Base.Dict.{Dict, get, put, get-put}
use net_lanvas.Base.Table.{find}
use net_lanvas.SmartSwitch.{Device}
use net_lanvas.SmartSwitch.Nsdp.{step_10_nsdp}
use net_lanvas.SmartSwitch.Escp.{step_20_tplink, step_25_tplink_http}
use net_lanvas.SmartSwitch.Ddp.{step_30_dlink_ddp}
use net_lanvas.SmartSwitch.Ssdp.{step_05_ssdp}

abbrev pub Found : Type 0
Found = Dict String Device

-- `if mac not in found: found[mac] = entry`, for an entry with a MAC address
abbrev pub merge_entry : Device → Found → Found
merge_entry entry found =
    if is_blank entry.mac || is_some (get entry.mac found) then found else put entry.mac entry found

unfoldable pub merge_entries : List Device → Found → Found
merge_entries [] found = found
merge_entries (entry ∷ entries) found = merge_entries entries (merge_entry entry found)

unfoldable pub run_steps : List (Option (List Device)) → Found → Found
run_steps [] found = found
run_steps (none ∷ results) found = run_steps results found
run_steps (some entries ∷ results) found = run_steps results (merge_entries entries found)

-- What the sockets, the database and the HTTP requests of a run give, `none` where one raises; a
-- page is `none` besides where its request raises a RequestException, which the step catches.
pub record Heard : Type 0 where
  pub ssdp : Option (List (List ℕ × String))
  pub nsdp : Option (List (List ℕ × String))
  pub tplink : Option (List (List ℕ × String))
  pub candidates : List (String × String)
  pub page : Option (String → Option String)
  pub ddp : Option (List (List ℕ × String))

abbrev result :
    (List (List ℕ × String) → List Device) → Option (List (List ℕ × String)) → Option (List Device)
result step none = none
result step (some replies) = some (step replies)

abbrev http_result : List (String × String) → Option (String → Option String) → Option (List Device)
http_result candidates none = none
http_result candidates (some page) = some (step_25_tplink_http page candidates)

-- the steps in the order of their ids
unfoldable pub step_results : Heard → List (Option (List Device))
step_results heard =
    result step_05_ssdp heard.ssdp
    ∷ result step_10_nsdp heard.nsdp
    ∷ result step_20_tplink heard.tplink
    ∷ http_result heard.candidates heard.page
    ∷ result step_30_dlink_ddp heard.ddp
    ∷ []

unfoldable pub run_smart_switch_pipeline : Heard → Found
run_smart_switch_pipeline heard = run_steps (step_results heard) []

abbrev or_else : Option Device → Option Device → Option Device
or_else none p = p
or_else (some d) p = some d

abbrev pub all_entries : List (Option (List Device)) → List Device
all_entries [] = []
all_entries (none ∷ results) = all_entries results
all_entries (some entries ∷ results) = entries ++ all_entries results

abbrev pub has_mac : String → Device → Bool
has_mac mac d = d.mac == mac

or_else_assoc : (a b c : Option Device) → or_else (or_else a b) c ≡ or_else a (or_else b c)
or_else_assoc none b c = refl
or_else_assoc (some d) b c = refl

or_else-none : (a : Option Device) → or_else a none ≡ a
or_else-none none = refl
or_else-none (some d) = refl

find-append :
    (mac : String) (xs ys : List Device)
    → find (has_mac mac) (xs ++ ys) ≡ or_else (find (has_mac mac) xs) (find (has_mac mac) ys)
unfolding find
find-append mac [] ys = refl
find-append mac (x ∷ xs) ys = ground (arith, find-append mac xs ys)

is_blank-no : (s : String) → s ≢ "" → is_blank s ≡ false
is_blank-no String.[] h = absurd (h refl)
is_blank-no (String.◌∷◌ c s) h = refl

module _ (mac : String) (given : mac ≢ "") where
  get-merge_entry :
      (d : Device) (found : Found)
      → get mac (merge_entry d found)
        ≡ or_else (get mac found) (if has_mac mac d then some d else none)
  get-merge_entry d found =
      ground (arith, get-put d.mac mac d found, eq_iff d.mac mac, is_blank-no mac given)

  get-merge_entries :
      (es : List Device) (found : Found)
      → get mac (merge_entries es found) ≡ or_else (get mac found) (find (has_mac mac) es)
  unfolding merge_entries find
  get-merge_entries [] found = ground (arith, or_else-none (get mac found))
  get-merge_entries (e ∷ es) found =
      ground (arith, get-merge_entries es (merge_entry e found), get-merge_entry e found)

  get-run_steps :
      (results : List (Option (List Device))) (found : Found)
      → get mac (run_steps results found)
        ≡ or_else (get mac found) (find (has_mac mac) (all_entries results))
  unfolding run_steps find
  get-run_steps [] found = sym (or_else-none (get mac found))
  get-run_steps (none ∷ results) found = get-run_steps results found
  get-run_steps (some es ∷ results) found =
      get-run_steps results (merge_entries es found)
      ∙ ap (λ o. or_else o (find (has_mac mac) (all_entries results))) (get-merge_entries es found)
      ∙ or_else_assoc (get mac found) (find (has_mac mac) es)
          (find (has_mac mac) (all_entries results))
      ∙ ap (or_else (get mac found)) (sym (find-append mac es (all_entries results)))

  -- The device under a MAC address is the first that any step reports with it, in the order of
  -- the steps and within a step in the order of its report: no later step replaces it, a step
  -- that raises takes nothing from the others, and an address that no step reports is not found.
  -- The address must not be empty.
  pub run_smart_switch_pipeline_first :
      (heard : Heard)
      → get mac (run_smart_switch_pipeline heard)
        ≡ find (has_mac mac) (all_entries (step_results heard))
  unfolding run_smart_switch_pipeline get
  run_smart_switch_pipeline_first heard = get-run_steps (step_results heard) []
