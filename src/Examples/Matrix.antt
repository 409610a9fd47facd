-- ===== src/Examples/Matrix.antt =====
-- The roles page at concrete inputs.
use nexus_mini.Prelude.{String, ◌≡◌, refl, ◌≢◌, ◌↔◌, Bool, true, false, [], ◌∷◌, some, In}
use nexus_mini.Runtime.{api_error, ok, fail, Server, asked, did, run}
use nexus_mini.Examples.Literals.{literals_ne}
use nexus_mini.Ui.{offered}
use nexus_mini.Roles.{
  all, own, Role, Permission, Page, Request, Reply, load_all, put_grants, toast, lookup, cycled,
  cycle, cycle_cell, view,
}
use nexus_mini.Roles.Grants.{lookup-cycled, cycle_outcome}
use nexus_mini.Roles.Matrix.{IsOpenCell, offered-view_iff}

abbrev role : String → Role
role code' = record {
  id = "r1";
  code = code';
  name = "";
  implies = "";
  active = true;
  grants = ("devices.read", all) ∷ [];
}

abbrev permission : Permission
permission = record {
  code = "devices.read";
  module_id = "devices";
  name = "";
  description = "";
  own_scope = true;
}

abbrev page : Page
page = record {
  roles = some (role "user" ∷ []);
  perms = permission ∷ [];
  err = "";
  creating = false;
}

abbrev same : String → String
same s = s

-- A server that has taken a change or not, and that refuses them all.
abbrev taking : Server Request Reply Bool
taking w load_all = (ok (role "user" ∷ [], permission ∷ []), w)
taking w (put_grants id grants) = (ok tt, true)

abbrev refusing : Server Request Reply Bool
refusing w load_all = (ok (role "user" ∷ [], permission ∷ []), w)
refusing w (put_grants id grants) = (fail (api_error 409 "no"), w)

user_ne_admin : (role "user").code ≢ "admin"
user_ne_admin = literals_ne "user" "admin" refl

lookup-cycled_example : lookup "devices.read" (cycled (role "user") permission) ≡ some own
unfolding lookup
lookup-cycled_example = lookup-cycled (role "user") permission "devices.read"

cycle_outcome_example : run taking (cycle same (role "user") permission) false page ≡ record {
  value = tt;
  world = true;
  state = page;
  log =
      asked (put_grants "r1" (cycled (role "user") permission))
      ∷ did (toast "Оноолт хадгалагдлаа")
      ∷ asked load_all
      ∷ [];
}
cycle_outcome_example =
    cycle_outcome taking same (role "user") permission false true true page (ok tt)
      (ok (role "user" ∷ [], permission ∷ [])) user_ne_admin refl refl

offered-view_iff_example :
    In (cycle_cell (role "user") permission) (offered (view same page))
    ↔ IsOpenCell same page (role "user") permission
offered-view_iff_example = offered-view_iff same page (role "user") permission
