-- ===== src/Examples/Panel.antt =====
-- The console of the platform's administrators at concrete inputs.
use nexus_mini.Prelude.{String, ◌≡◌, refl, ◌↔◌, true, false, not, [], ◌∷◌, some, In}
use nexus_mini.Runtime.{ok, Server, run}
use nexus_mini.Form.{opened}
use nexus_mini.Ui.Offers.{Offers}
use nexus_mini.Console.{Me, initial, receive, screen, workspace}
use nexus_mini.Console.Start.{receive-workspace_iff}
use nexus_mini.Console.Login.{Credentials, Request, Reply, post_login, get_me, post_logout, submit}
use nexus_mini.Console.Login.Entry.{after_login, submit_admitted}
use nexus_mini.Console.Tenants.{Row}
use nexus_mini.Console.Tenants.StateDialog.{state_of, schedule, confirm, view as state_view}
use nexus_mini.Console.Tenants.Changes.{IsPossible, offered-view_state_iff}
use nexus_mini.Console.Tenants.MembersDialog.{
  Member, Members, initial as members_initial, set_target, view as members_view,
}
use nexus_mini.Console.Tenants.MembersDialog.Impersonation.{offered-view_impersonation_iff}

abbrev same : String → String
same s = s

abbrev me : Me
me = record { user = record { id = "u"; name = "Bat"; email = "b@x.mn"; platform_admin = false } }

receive-workspace_iff_example :
    (screen (receive true (ok me) initial) ≡ workspace me) ↔ ((ok me ≡ ok me) × (false ≡ true))
receive-workspace_iff_example = receive-workspace_iff (ok me) me

abbrev credentials : Credentials
credentials = record { email = "b@x.mn"; password = "p" }

abbrev letting_in : Server Request Reply (Unit {0})
letting_in w (post_login c) = (ok tt, w)
letting_in w get_me = (ok me, w)
letting_in w post_logout = (ok tt, w)

submit_admitted_example :
    run letting_in (submit same credentials) tt (opened credentials)
    ≡ after_login same (opened credentials) (ok tt) tt (ok me) tt (ok tt) tt
submit_admitted_example =
    submit_admitted letting_in same (opened credentials) tt tt tt tt (ok tt) (ok me) (ok tt) refl
      refl refl

abbrev tenant : Row
tenant = record {
  id = "t1";
  slug = "bold";
  name = "Bold";
  created_at = "";
  suspended = false;
  reason = "";
  read_only = false;
  deletion_at = some "2026-12-01";
  members = 1;
  apps = 0;
}

offered-view_state_iff_example :
    Offers (confirm schedule) (state_view same same tenant (opened (state_of tenant)))
    ↔ IsPossible schedule (some "2026-12-01")
offered-view_state_iff_example =
    offered-view_state_iff same same schedule tenant (opened (state_of tenant))

abbrev member : Member
member = record { id = "m"; name = "Dorj"; email = "d@x.mn"; platform_admin = false; roles = [] }

abbrev dialog : Members
dialog = record members_initial { members = some (member ∷ []) }

offered-view_impersonation_iff_example :
    Offers (set_target member) (members_view same tenant dialog)
    ↔ (In member (member ∷ []) × (not false ≡ true))
offered-view_impersonation_iff_example =
    offered-view_impersonation_iff same tenant member dialog (member ∷ []) refl
