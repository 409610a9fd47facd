-- ===== src/Setup/Screens.antt =====
-- The screens of the setup (frontend/app/setup/page.tsx).
use nexus_mini.Prelude.{
  String, ◌≡◌, refl, ap, ◌∙◌, inl, inr, Bool-cases, true, false, [], ◌∷◌, Option, none, some, ◌==◌,
  is_empty, if◌then◌else◌,
}
use nexus_mini.Text.{Text}
use nexus_mini.Login.{SetupStatus}
use nexus_mini.Runtime.{Answer, ok, fail, Server, asked, run, has_status, msg}
use nexus_mini.Setup.{
  Page, initial, Request, Reply, get_setup_status, post_setup, Done, mount, refused, answered,
  submit, screen, finished, configured, ask_token, setup_form, or_empty, not_armed,
}

module _ {W : Type 0} (server : Server Request Reply W) (t : String → String) where
  -- How the page opens, by the answer to the one request of it: a wizard that is required and armed
  -- asks for the token if the address has none and shows its form if it has one; any error, such as
  -- that of a network that is down, is told as an installation that is configured already.
  pub mount-screen :
      (param : Option Text) (w w' : W) (a : Answer SetupStatus)
      → server w get_setup_status ≡ (a, w')
      → screen (run server (mount param) w initial).state ≡ elim a [
        | ok st ↦
            if st.required
            then if st.armed
              then if is_empty (or_empty param) then ask_token else setup_form
              else not_armed
            else configured
        | fail e ↦ configured
      ]
  unfolding mount screen
  mount-screen param w w' (ok st) e = rw e refl
  mount-screen param w w' (fail f) e = rw e refl

  -- The page after the answer to its form.
  abbrev pub settled : Answer Done → Page → Page
  settled (ok out) s = record s { err = ""; busy = true; done = some out }
  settled (fail e) s =
      if has_status 404 e
      then record s {
        err = t "Энэ холбоос хүчингүй болсон — API-ийн логоос шинэ холбоосыг ав.";
        busy = false;
        token = [];
      }
      else record s { err = msg e (t "Алдаа гарлаа"); busy = false }

  submit_lem :
      (s : Page) (w w' : W) (a : Answer Done)
      → (s.admin.password == s.again) ≡ true
      → server w (post_setup s.admin s.org s.token) ≡ (a, w')
      → run server (submit t s) w s ≡ record {
        value = tt;
        world = w';
        state = settled a s;
        log = asked (post_setup s.admin s.org s.token) ∷ [];
      }
  unfolding submit refused answered
  submit_lem s w w' (ok out) same e = rw (same, e) refl
  submit_lem s w w' (fail f) same e = elim (Bool-cases (has_status 404 f)) [
    | inl k ↦ rw (same, e) (rw k refl)
    | inr k ↦ rw (same, e) (rw k refl)
  ]

  settled-screen :
      (s : Page) (st : SetupStatus) (a : Answer Done)
      → s.status ≡ some st
      → s.address_read ≡ true
      → st.required ≡ true
      → st.armed ≡ true
      → s.done ≡ none
      → is_empty s.token ≡ false
      → screen (settled a s) ≡ elim a [
        | ok out ↦ finished out
        | fail e ↦ if has_status 404 e then ask_token else setup_form
      ]
  unfolding screen
  settled-screen s st (ok out) stat read req armed unset token = rw (stat, read) refl
  settled-screen s st (fail f) stat read req armed unset token =
      elim (Bool-cases (has_status 404 f)) [
        | inl k ↦ rw k (rw (stat, read, unset, req, armed) refl)
        | inr k ↦ rw k (rw (stat, read, unset, req, armed, token) refl)
      ]

  -- Sending the form, on a page that shows it and whose two passwords agree: it is sent once, with the
  -- token of the address; on success the page shows the end of the setup; a 404 takes the token away,
  -- so that the page asks for a new one under a message; any other error is shown over the form. What
  -- was typed is kept in all cases, and after an error the button can be used again.
  pub submit-screen :
      (s : Page) (st : SetupStatus) (w w' : W) (a : Answer Done)
      → s.status ≡ some st
      → s.address_read ≡ true
      → st.required ≡ true
      → st.armed ≡ true
      → s.done ≡ none
      → is_empty s.token ≡ false
      → (s.admin.password == s.again) ≡ true
      → server w (post_setup s.admin s.org s.token) ≡ (a, w')
      → let r = run server (submit t s) w s in
        (screen r.state ≡ elim a [
          | ok out ↦ finished out
          | fail e ↦ if has_status 404 e then ask_token else setup_form
        ])
        × (r.state ≡ settled a s)
        × (r.log ≡ (asked (post_setup s.admin s.org s.token) ∷ []))
  submit-screen s st w w' a stat read req armed unset token same e =
      let all' = submit_lem s w w' a same e in
      (
        ap (λ r. screen r.state) all' ∙ settled-screen s st a stat read req armed unset token,
        ap (λ r. r.state) all',
        ap (λ r. r.log) all',
      )
