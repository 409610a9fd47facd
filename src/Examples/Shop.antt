-- ===== src/Examples/Shop.antt =====
-- The store page at concrete inputs.
use nexus_mini.Prelude.{String, ◌↔◌, true, [], ◌∷◌, none, In}
use nexus_mini.Runtime.{ok, Server}
use nexus_mini.Resource.{loaded}
use nexus_mini.Ui.{offered}
use nexus_mini.Store.{StoreApp, disabled, enable, Page, Request, Reply, post_action, act_on, view}
use nexus_mini.Store.Cards.{IsOpenAction, offered-view_store_iff}

abbrev app : StoreApp
app = record {
  id = "devices";
  short_id = "devices";
  name = "Devices";
  version = "1.0";
  description = "";
  publisher = "";
  go_module = "";
  compiled = true;
  status = disabled;
  installed_version = "1.0";
}

abbrev page : Page
page = record { err = "old"; busy = ""; history_for = none }

abbrev same : String → String
same s = s

abbrev taking : Server Request Reply (Unit {0})
taking w (post_action id action) = (ok tt, w)

offered-view_store_iff_example :
    In (act_on app enable) (offered (view same true page (loaded (app ∷ []))))
    ↔ (In app (app ∷ []) × IsOpenAction true "" app enable)
offered-view_store_iff_example = offered-view_store_iff same true page (app ∷ []) app enable
