-- ===== src/Members/Adding/Form.antt =====
-- What `AddMemberDialog` of frontend/app/(portal)/members/page.tsx draws.
use nexus_mini.Prelude.{String, false, not, ◌||◌, List, [], ◌∷◌, ◌++◌, Option, none, some}
use nexus_mini.Ui.{
  checked, email_type, is_required, min_length, View, text, area, field, readonly_field, alert,
  button, when, each,
}
use nexus_mini.Form.{error_alert}
use nexus_mini.Members.{includes}
use nexus_mini.Members.Adding.{
  Dialog, DialogEvent, Found, type_email, type_name, type_password, toggle_code, email_ok, hint,
  is_closed,
}

pub data Action : Type 0 where
  on_dialog : DialogEvent → Action
  submit_now close : Action

module _ (t : String → String) where
  -- The error of the email's field.
  abbrev pub member_error : Option Found → View Action
  member_error none = []
  member_error (some f) =
      when f.member (alert "danger" (t "Аль хэдийн энэ байгууллагын гишүүн") ∷ [])

  -- The name of a user who is there already, or the two fields of a new one.
  abbrev pub found_fields : Dialog → Option Found → View Action
  found_fields d none = []
  found_fields d (some f) =
      when f.exists' (readonly_field (t "Нэр") f.name ∷ [])
      ++ when (not f.exists') (
          checked (is_required ∷ []) (field (t "Нэр") d.name (λ v. on_dialog (type_name v)))
          ∷ checked (is_required ∷ min_length 8 ∷ [])
              (field (t "Түр нууц үг") d.password (λ v. on_dialog (type_password v)))
          ∷ [])

  abbrev role_toggle : List String → String → View Action
  role_toggle roles code' =
      button code' false (on_dialog (toggle_code code' (not (includes code' roles)))) ∷ []

  unfoldable pub view : List String → Dialog → View Action
  unfolding email_ok hint
  view role_codes d =
      text (t "Гишүүн нэмэх") ∷ error_alert d.message
      ++ (checked (email_type ∷ is_required ∷ [])
              (area (t "Имэйл") d.email (λ v. on_dialog (type_email v)))
            ∷ text (hint t (email_ok d.email) d.found)
            ∷ member_error d.found
          ++ (found_fields d d.found
              ++ (text "Role" ∷ each (role_toggle d.roles) role_codes
                  ++ (button (t "Болих") false close
                      ∷ button (t "Нэмэх") (d.busy || is_closed d.found) submit_now
                      ∷ []))))
