-- ===== src/Console/Login/Entry.antt =====
-- Who gets through the login of the console (admin/app/login/page.tsx).
use nexus_mini.Prelude.{
  String, ◌≡◌, refl, inl, inr, true, false, List, [], ◌∷◌, Bool-cases, if◌then◌else◌,
}
use nexus_mini.Runtime.{Answer, ok, fail, Server, Run, Trace, asked, did, run, msg}
use nexus_mini.Form.{Dialog}
use nexus_mini.Console.{Me}
use nexus_mini.Console.Login.{
  Credentials, Request, Reply, post_login, get_me, post_logout, Effect, router_replace, refused,
  logged_out, known, logged_in, submit,
}

module _ {W : Type 0} (t : String → String) (d : Dialog Credentials) where
  -- What a login leaves behind it when an error ends it.
  abbrev pub stopped :
      W
      → String
      → List (Trace Request Effect)
      → Run Request Effect W (Dialog Credentials) (Unit {0})
  stopped w err log = record {
    value = tt;
    world = w;
    state = record d { err = err; busy = false };
    log = log;
  }

  -- The run of a login, by the answers to its three requests and the server after each.
  abbrev pub after_login :
      Answer (Unit {0})
      → W
      → Answer Me
      → W
      → Answer (Unit {0})
      → W
      → Run Request Effect W (Dialog Credentials) (Unit {0})
  after_login (fail e) w1 b w2 c w3 =
      stopped w1 (msg e (t "Алдаа гарлаа")) (asked (post_login d.form) ∷ [])
  after_login (ok u) w1 (fail e) w2 c w3 =
      stopped w2 (msg e (t "Алдаа гарлаа")) (asked (post_login d.form) ∷ asked get_me ∷ [])
  after_login (ok u) w1 (ok me) w2 c w3 =
      if me.user.platform_admin
      then record {
        value = tt;
        world = w2;
        state = record d { err = ""; busy = true };
        log = asked (post_login d.form) ∷ asked get_me ∷ did (router_replace "/") ∷ [];
      }
      else stopped w3
          (elim c [
            | ok u ↦ t "Энэ систем зөвхөн платформын админд зориулагдсан"
            | fail e ↦ msg e (t "Алдаа гарлаа")
          ])
          (asked (post_login d.form) ∷ asked get_me ∷ asked post_logout ∷ [])

-- The whole run of a login, whatever the server answers. A refused login ends with its error. After an
-- accepted one the page asks who the visitor is: an administrator of the platform goes to the console,
-- and anybody else is logged out, never sent on, and told so, or told the error of the logout. If the
-- question who it is fails, its error is shown and no logout is asked for, so the accepted login stays.
pub submit_admitted :
    {W : Type 0} (server : Server Request Reply W) (t : String → String) (d : Dialog Credentials)
    (w w1 w2 w3 : W) (a : Answer (Unit {0})) (b : Answer Me) (c : Answer (Unit {0}))
    → server w (post_login d.form) ≡ (a, w1)
    → server w1 get_me ≡ (b, w2)
    → server w2 post_logout ≡ (c, w3)
    → run server (submit t d.form) w d ≡ after_login t d a w1 b w2 c w3
unfolding submit logged_in known logged_out refused
submit_admitted server t d w w1 w2 w3 (fail x) b c e f g = rw e refl
submit_admitted server t d w w1 w2 w3 (ok u) (fail x) c e f g = rw (e, f) refl
submit_admitted server t d w w1 w2 w3 (ok u) (ok me) (ok v) e f g =
    elim (Bool-cases me.user.platform_admin) [
      | inl p ↦ rw (e, f) (rw p refl)
      | inr p ↦ rw (e, f) (rw p (rw g refl))
    ]
submit_admitted server t d w w1 w2 w3 (ok u) (ok me) (fail x) e f g =
    elim (Bool-cases me.user.platform_admin) [
      | inl p ↦ rw (e, f) (rw p refl)
      | inr p ↦ rw (e, f) (rw p (rw g refl))
    ]
