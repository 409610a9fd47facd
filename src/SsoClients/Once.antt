-- ===== src/SsoClients/Once.antt =====
-- The secret of a new client (frontend/app/(portal)/sso-clients/page.tsx).
use nexus_mini.Prelude.{String, ◌≡◌, refl, true, false, List, [], ◌∷◌, Option, none, some}
use nexus_mini.Runtime.{Answer, ok, fail, ret, Server, asked, did, run, msg}
use nexus_mini.Runtime.Keeping.{Keeps, Keeps->>=, run-Keeps}
use nexus_mini.Form.{Dialog, given, save}
use nexus_mini.SsoClients.{
  Page, Client, Action, add, copy, edit, remove, forget_secret, ClientForm, Request, Reply, load,
  on_saved, confirm_removal, removed, press,
}
use nexus_mini.SsoClients.ClientDialog.{
  Request as DialogRequest, Reply as DialogReply, Created, body_of, secret_of, submit, post_client,
  toast as dialog_toast, on_saved as reports,
}

module _ {W : Type 0} (server : Server DialogRequest DialogReply W) (t : String → String) where
  -- Saving the form of a new client sends what the form holds, once. On success the visitor is told,
  -- and the page is handed the secret if the server sent one that is not empty; on a refusal the
  -- dialog stays, not busy, with the error and with the form as it was.
  pub submit_new :
      (w w' : W) (d : Dialog ClientForm) (a : Answer Created)
      → given d.form.id ≡ none
      → server w (post_client (body_of d.form)) ≡ (a, w')
      → run server (submit t d.form) w d ≡ elim a [
        | ok r ↦ record {
          value = tt;
          world = w';
          state = record d { err = ""; busy = true };
          log =
              asked (post_client (body_of d.form))
              ∷ did (dialog_toast (t "Клиент үүслээ"))
              ∷ did (reports (secret_of r))
              ∷ [];
        }
        | fail e ↦ record {
          value = tt;
          world = w';
          state = record d { err = msg e (t "Алдаа гарлаа"); busy = false };
          log = asked (post_client (body_of d.form)) ∷ [];
        }
      ]
  unfolding submit save
  submit_new w w' d (ok r) new e = rw new (rw e refl)
  submit_new w w' d (fail f) new e = rw new (rw e refl)

-- What happens on the page with no new client: a click, a loading, a removal, and a dialog that
-- reports no secret.
pub data Quiet : Type 0 where
  pressed : Action → Quiet
  loads closed : Quiet
  removes : Option Client → Quiet

abbrev pub IsHidden : Page → Type 0
IsHidden s = s.secret ≡ none

module _ (t : String → String) where
  load-Keeps : Keeps IsHidden (load t)
  unfolding load
  load-Keeps (ok (clients, issuer)) = (λ s h. h, (λ s h. h, tt))
  load-Keeps (fail e) = (λ s h. h, tt)

  press-Keeps : (a : Action) → Keeps IsHidden (press t a)
  unfolding press
  press-Keeps add = (λ s h. h, tt)
  press-Keeps (copy x) = tt
  press-Keeps (edit c) = (λ s h. h, tt)
  press-Keeps (remove c) = (λ s h. h, tt)
  press-Keeps forget_secret = (λ s h. refl, tt)

  removed-Keeps : (r : Answer (Unit {0})) → Keeps IsHidden (removed t r)
  removed-Keeps (ok u) = Keeps->>= IsHidden (load t) (λ v. ret (ok tt)) load-Keeps (λ v. tt)
  removed-Keeps (fail e) = tt

  removal-Keeps : (c : Option Client) → Keeps IsHidden (confirm_removal t c)
  unfolding confirm_removal
  removal-Keeps none = tt
  removal-Keeps (some c) = removed-Keeps

  closed-Keeps : Keeps IsHidden (on_saved t none)
  unfolding on_saved
  closed-Keeps = (λ s h. h, load-Keeps)

module _ {W : Type 0} (server : Server Request Reply W) (t : String → String) where
  abbrev quiet : Quiet → W → Page → W × Page
  quiet (pressed a) w s = let r = run server (press t a) w s in (r.world, r.state)
  quiet loads w s = let r = run server (load t) w s in (r.world, r.state)
  quiet closed w s = let r = run server (on_saved t none) w s in (r.world, r.state)
  quiet (removes c) w s = let r = run server (confirm_removal t c) w s in (r.world, r.state)

  pub quiets : List Quiet → W → Page → W × Page
  quiets [] w s = (w, s)
  quiets (q ∷ qs) w s = let (w', s') = quiet q w s in quiets qs w' s'

  quiet-IsHidden : (q : Quiet) (w : W) (s : Page) → IsHidden s → IsHidden (quiet q w s).1
  quiet-IsHidden (pressed a) w s h = run-Keeps IsHidden server (press t a) w s (press-Keeps t a) h
  quiet-IsHidden loads w s h = run-Keeps IsHidden server (load t) w s (load-Keeps t) h
  quiet-IsHidden closed w s h = run-Keeps IsHidden server (on_saved t none) w s (closed-Keeps t) h
  quiet-IsHidden (removes c) w s h =
      run-Keeps IsHidden server (confirm_removal t c) w s (removal-Keeps t c) h

  quiets-IsHidden : (qs : List Quiet) (w : W) (s : Page) → IsHidden s → IsHidden (quiets qs w s).1
  unfolding quiets
  quiets-IsHidden [] w s h = h
  quiets-IsHidden (q ∷ qs) w s h =
      quiets-IsHidden qs (quiet q w s).0 (quiet q w s).1 (quiet-IsHidden q w s h)

  -- Once the dialog with a secret has been left, the secret is gone from the page, and
  -- no clicks, loadings, removals and savings without a new secret, in whatever order and whatever
  -- the server answers, bring one back.
  pub secret_shown_once :
      (qs : List Quiet) (w : W) (s : Page)
      → let r = run server (press t forget_secret) w s in IsHidden (quiets qs r.world r.state).1
  unfolding press
  secret_shown_once qs w s = quiets-IsHidden qs w (record s { secret = none }) refl
