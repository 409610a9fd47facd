-- ===== src/Examples/Organisation.antt =====
-- The pages of the organisation and the devices at concrete inputs.
use nexus_mini.Prelude.{
  String, not, ◌==◌, Bool, false, ◌≡◌, refl, ◌↔◌, ◌⊎◌, ◌≤◌, ℕ, true, [], ◌∷◌, none, some, In,
}
use nexus_mini.Runtime.{ok}
use nexus_mini.Ui.Offers.{Offers}
use nexus_mini.Departments.{Dept, flatten}
use nexus_mini.Departments.Tree.{Lies}
use nexus_mini.Departments.Register.{Page, add, edit, view}
use nexus_mini.Departments.Register.Offered.{IsDeptAction, offered-view_departments_iff}
use nexus_mini.Departments.DeptDialog.{parents, none_value}
use nexus_mini.Departments.DeptDialog.Choice.{IsOther, In-parents_iff}
use nexus_mini.Devices.{
  Device, active, own, initial, edit as edit_device, Page as DevicesPage, view as devices_view,
}
use nexus_mini.Devices.Table.{IsClearing, IsAdding, IsDeviceAction, offered-view_devices_iff}
use nexus_mini.Devices.Search.{happens, opened, type_search, timer_fires, answered, late_devices}

abbrev dept : String → Dept
dept id = record {
  id = id;
  code = id;
  name = id;
  parent_id = none;
  manager_membership_id = none;
  manager_name = "";
  active = true;
  people = 0;
}

abbrev page : Page
page = record {
  depts = some (dept "hr" ∷ dept "it" ∷ []);
  people = [];
  load_err = "";
  form = none;
  removing = none;
}

abbrev same : String → String
same s = s

offered-view_departments_iff_example : Offers (edit (dept "it")) (view same true page) ↔ (
    (true ≡ true)
    × ((add ≡ edit (dept "it"))
        ⊎ IsDeptAction same true (edit (dept "it")) (dept "hr" ∷ dept "it" ∷ [])))
offered-view_departments_iff_example =
    offered-view_departments_iff same true (edit (dept "it")) page (dept "hr" ∷ dept "it" ∷ []) refl
      refl

In-parents_iff_example :
    let o : String × String = ("it", "it") in
    In o (parents same (some "hr") (flatten (dept "hr" ∷ dept "it" ∷ []))) ↔ (
      ((none_value, same "— байхгүй (дээд түвшин) —") ≡ o)
      ⊎ ((d : Dept) × (n : ℕ) × Lies (dept "hr" ∷ dept "it" ∷ []) d n
          × (n ≤ 32)
          × IsOther (some "hr") d
          × ((d.id, d.name) ≡ o)))
In-parents_iff_example = In-parents_iff same (some "hr") (dept "hr" ∷ dept "it" ∷ []) ("it", "it")

abbrev device : String → Device
device id = record {
  id = id;
  name = id;
  kind = "";
  serial = "";
  status = active;
  note = "";
  created_by = "u1";
  owner_name = "";
  created_at = "";
}

abbrev devices_page : DevicesPage
devices_page = record initial { devices = some (device "d1" ∷ []) }

-- The clearing of a field is drawn while it has a text.
abbrev is_text : String → Bool
is_text q = not (q == "")

offered-view_devices_iff_example :
    Offers (edit_device (device "d1")) (devices_view same (some own) "u2" is_text devices_page) ↔ (
      IsClearing same (some own) "u2" (edit_device (device "d1")) false
      ⊎ (IsAdding same (some own) "u2" (edit_device (device "d1")) (some own)
          ⊎ IsDeviceAction same (some own) "u2" (edit_device (device "d1")) (device "d1" ∷ [])))
offered-view_devices_iff_example =
    offered-view_devices_iff same (some own) "u2" (edit_device (device "d1")) is_text devices_page
      (device "d1" ∷ []) refl refl

late_devices_example :
    let s = happens opened (
      type_search "a"
      ∷ timer_fires
      ∷ type_search "ab"
      ∷ timer_fires
      ∷ answered 0 (ok [])
      ∷ answered 0 (ok (device "d1" ∷ []))
      ∷ []) in
    (s.page.q ≡ "ab") × (s.page.devices ≡ some (device "d1" ∷ [])) × (s.waiting ≡ [])
late_devices_example = late_devices "a" "ab" (device "d1" ∷ []) [] refl refl
