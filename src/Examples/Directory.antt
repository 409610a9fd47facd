-- ===== src/Examples/Directory.antt =====
-- The members page at concrete inputs.
use nexus_mini.Prelude.{String, ◌≡◌, refl, ◌↔◌, ◌⊎◌, true, false, [], ◌∷◌, none, some, In}
use nexus_mini.Text.{codes}
use nexus_mini.Runtime.{api_error, ok, fail, Server}
use nexus_mini.Ui.{offered}
use nexus_mini.Members.{
  Member, Page, Request, Reply, get_members_and_roles, get_members, put_roles, del_member,
  start_adding, toggle_role, role_codes, view,
}
use nexus_mini.Members.Table.{IsRowAction, offered-view_members_iff}
use nexus_mini.Members.Adding.{
  Found, opened, type_email, timer_fires, answered, happens, email_ok, is_email, is_closed,
}
use nexus_mini.Members.Adding.Email.{IsEmail, is_email_iff}
use nexus_mini.Members.Adding.Lookup.{IsAsking, happens-IsAsking, late_answer}

abbrev member : Member
member = record {
  membership_id = "m1";
  user_id = "u1";
  name = "A";
  email = "a@x.y";
  roles = "user" ∷ [];
}

abbrev page : Page
page = record {
  members = some (member ∷ []);
  roles = [];
  load_err = "";
  adding = false;
  removing = none;
}

abbrev same : String → String
same s = s

-- A server that refuses every change.
abbrev refusing : Server Request Reply (Unit {0})
refusing w get_members_and_roles = (ok (member ∷ [], []), w)
refusing w get_members = (ok (member ∷ []), w)
refusing w (put_roles id roles) = (fail (api_error 409 "no"), w)
refusing w (del_member id) = (fail (api_error 409 "no"), w)

offered-view_members_iff_example :
    In (toggle_role member "admin" true) (offered (view same "u2" page)) ↔ (
      (start_adding ≡ toggle_role member "admin" true)
      ⊎ IsRowAction same "u2" (role_codes []) (member ∷ []) (toggle_role member "admin" true))
offered-view_members_iff_example =
    offered-view_members_iff same "u2" page (member ∷ []) (toggle_role member "admin" true) refl
      refl

is_email_iff_example : (is_email (codes "a@b.c.d") ≡ true) ↔ IsEmail (codes "a@b.c.d")
is_email_iff_example = is_email_iff (codes "a@b.c.d")

emails_test :
    (is_email (codes "a@b.c") ≡ true)
    × (is_email (codes "a@b@c.d") ≡ false)
    × (is_email (codes "a@b.") ≡ false)
unfolding is_email
emails_test = (refl, refl, refl)

happens-IsAsking_example : IsAsking (happens opened (type_email (codes "a@b.c") ∷ timer_fires ∷ []))
happens-IsAsking_example = happens-IsAsking (type_email (codes "a@b.c") ∷ timer_fires ∷ [])

abbrev known : Found
known = record { exists' = true; name = "A"; member = false }

first_ok : email_ok (codes "a@b.c") ≡ true
unfolding email_ok
first_ok = refl

late_answer_example :
    let d = happens opened (
      type_email (codes "a@b.c")
      ∷ timer_fires
      ∷ type_email (codes "a@b")
      ∷ answered 0 (ok known)
      ∷ []) in
    (d.email ≡ codes "a@b") × (d.found ≡ some known) × (is_closed d.found ≡ false)
late_answer_example = late_answer (codes "a@b.c") (codes "a@b") known first_ok refl
