-- ===== src/Examples/Entrance.antt =====
-- The signup, the setup, the password gate, the consent and the settings at concrete inputs.
use nexus_mini.Prelude.{arith, ◌≤◌, length, String, ◌≡◌, refl, ◌↔◌, true, false, [], ◌∷◌, some, In}
use nexus_mini.Text.{Text, codes}
use nexus_mini.Slug.{slugify}
use nexus_mini.Slug.Shape.{IsSlug}
use nexus_mini.Runtime.{ok, fail, api_error, Server, asked, did, run}
use nexus_mini.Form.{opened}
use nexus_mini.Signup.{Signup, initial, type_tenant_name, type_tenant_slug, typings}
use nexus_mini.Slug.Accepted.{IsAccepted}
use nexus_mini.Signup.Slugs.{typings-IsNamed}
use nexus_mini.PasswordGate.{
  Passwords, Request as GateRequest, Reply as GateReply, post_password, post_logout,
  submit as gate_submit,
}
use nexus_mini.PasswordGate.Sending.{asked-submit_gate_iff}
use nexus_mini.Setup.{
  Page as SetupPage, initial as setup_initial, Request as SetupRequest, Reply as SetupReply,
  get_setup_status, post_setup, submit as setup_submit, screen, ask_token,
}
use nexus_mini.Setup.Screens.{settled, submit-screen}
use nexus_mini.Consent.{
  Info, Request as ConsentRequest, Reply as ConsentReply, get_consent, post_consent,
  initial as consent_initial, mount as consent_mount, decide, query_of, location_assign, approve,
}
use nexus_mini.Consent.Deciding.{decide_after_mount}
use nexus_mini.Settings.{
  Profile, Key, phone, get_key, Request as SettingsRequest, Reply as SettingsReply, get_profile,
  put_profile, initial as settings_initial, save_profile, toast, refresh,
}
use nexus_mini.Settings.Saving.{changes, last_typed, save_after_changes}

abbrev same : String → String
same s = s

abbrev kept : Text → Text
kept s = s

none_is_none : slugify kept [] ≡ []
unfolding slugify
none_is_none = refl

typings-IsNamed_example :
    let s =
      typings kept
        (type_tenant_name (codes "Гэрэгэ") ∷ type_tenant_slug (codes "a--") ∷ [])
        initial in
    IsSlug s.form.tenant_slug
    × (IsAccepted s.form.tenant_slug ↔ (2 ≤ length s.form.tenant_slug))
    × (s.slug_touched ≡ false → s.form.tenant_slug ≡ slugify kept s.form.tenant_name)
typings-IsNamed_example =
    typings-IsNamed kept (type_tenant_name (codes "Гэрэгэ") ∷ type_tenant_slug (codes "a--") ∷ [])
      none_is_none

abbrev with_slug : Signup
with_slug = record initial { form = record (initial.form) { tenant_slug = codes "ab" } }

abbrev gate : Server GateRequest GateReply (Unit {0})
gate w (post_password a b) = (ok tt, w)
gate w post_logout = (ok tt, w)

abbrev passwords : Passwords
passwords = record { current = "old"; next = "new"; again = "new" }

asked-submit_gate_iff_example :
    In
      (asked (post_password "old" "new"))
      (run gate (gate_submit same passwords) tt (opened passwords)).log
    ↔ ((passwords.next ≡ passwords.again) × (post_password "old" "new" ≡ post_password "old" "new"))
asked-submit_gate_iff_example =
    asked-submit_gate_iff gate same (opened passwords) tt (post_password "old" "new")

abbrev setting_up : Server SetupRequest SetupReply (Unit {0})
setting_up w get_setup_status = (ok (record { required = true; armed = true }), w)
setting_up w (post_setup admin org token) = (fail (api_error 404 "not found"), w)

abbrev setup_page : SetupPage
setup_page = record setup_initial {
  status = some (record { required = true; armed = true });
  address_read = true;
  token = codes "t0k";
}

submit-screen_example :
    let r = run setting_up (setup_submit same setup_page) tt setup_page in
    (screen r.state ≡ ask_token)
    × (r.state ≡ settled setting_up same (fail (api_error 404 "not found")) setup_page)
    × (r.log ≡ (asked (post_setup setup_page.admin setup_page.org setup_page.token) ∷ []))
submit-screen_example =
    submit-screen setting_up same setup_page (record { required = true; armed = true }) tt tt
      (fail (api_error 404 "not found")) refl refl refl refl refl refl refl refl

abbrev info : Info
info = record { client_name = "ERP"; tenant_name = "Bold"; scopes = []; redirect_host = "erp.mn" }

abbrev consenting : Server ConsentRequest ConsentReply (Unit {0})
consenting w (get_consent q) = (ok info, w)
consenting w (post_consent approved q) = (ok "https://erp.mn/cb", w)

decide_after_mount_example :
    let m = run consenting (consent_mount (codes "?client_id=1")) tt consent_initial in
    let d = run consenting (decide same true m.state.query) m.world m.state in
    (m.log ≡ (asked (get_consent (query_of (codes "?client_id=1"))) ∷ []))
    × (d ≡ record {
      value = tt;
      world = tt;
      state = record {
        query = query_of (codes "?client_id=1");
        info = some info;
        err = "";
        busy = true;
      };
      log =
          asked (post_consent true (query_of (codes "?client_id=1")))
          ∷ did (location_assign "https://erp.mn/cb")
          ∷ [];
    })
decide_after_mount_example =
    decide_after_mount consenting same (codes "?client_id=1") tt tt tt info approve
      (ok "https://erp.mn/cb") refl refl

abbrev profile : Profile
profile = record {
  slug = "bold";
  name = "Bold";
  legal_name = "";
  registration_number = "";
  tax_number = "";
  address = "";
  phone = "";
  email = "";
  website = "";
}

abbrev saving : Server SettingsRequest SettingsReply (Unit {0})
saving w get_profile = (ok profile, w)
saving w (put_profile p) = (ok tt, w)

save_after_changes_example :
    let p' = changes ((phone, "1") ∷ (phone, "12") ∷ []) profile in
    ((j : Key)
      → get_key j p' ≡ last_typed j ((phone, "1") ∷ (phone, "12") ∷ []) (get_key j profile))
    × (p'.slug ≡ "bold")
    × (run saving (save_profile same (some p')) tt settings_initial ≡ record {
      value = tt;
      world = tt;
      state = record settings_initial { err = ""; busy = false };
      log = asked (put_profile p') ∷ did (toast "Хадгалагдлаа") ∷ did refresh ∷ [];
    })
save_after_changes_example =
    save_after_changes saving same ((phone, "1") ∷ (phone, "12") ∷ []) profile settings_initial tt
      tt (ok tt) refl

-- The name `A` gives a slug of one unit, which the form sends and the server refuses.
one_unit_refused :
    ¬ IsAccepted (typings kept (type_tenant_name (codes "A") ∷ []) initial).form.tenant_slug
unfolding typings slugify
one_unit_refused h = absurd (ground arith)
