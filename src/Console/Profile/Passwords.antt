-- ===== src/Console/Profile/Passwords.antt =====
-- The change of an administrator's password (admin/app/(panel)/profile/page.tsx).
use nexus_mini.Prelude.{
  String, ◌≡◌, refl, inl, inr, Bool-cases, false, [], ◌∷◌, ◌==◌, if◌then◌else◌,
}
use nexus_mini.Runtime.{Answer, ok, fail, Server, asked, did, run, msg}
use nexus_mini.Console.Profile.{
  Page, no_password, Request, Reply, post_password, Effect, toast, save_password,
}

-- The page after the answer to a new password, and its toast.
abbrev pub changed_page : Answer (Unit {0}) → Page → Page
changed_page (ok u) s = record s { confirm_err = ""; busy = false; pw = no_password }
changed_page (fail e) s = record s { confirm_err = ""; busy = false }

abbrev pub changed_toast : (String → String) → Answer (Unit {0}) → Effect
changed_toast t (ok u) =
    toast "success" (t "Нууц үг солигдлоо — бусад төхөөрөмжийн нэвтрэлт хаагдсан")
changed_toast t (fail e) = toast "danger" (msg e (t "Алдаа гарлаа"))

module _ {W : Type 0} (server : Server Request Reply W) (t : String → String) where
  -- A new password whose repetition differs is not sent: nothing changes but the error under the
  -- repetition. One that agrees is sent once with the current one; the entries are emptied exactly
  -- on success, and either way the button can be used again and a toast tells how it ended.
  pub save_password_outcome :
      (s : Page) (w w' : W) (a : Answer (Unit {0}))
      → server w (post_password s.pw.current_password s.pw.new_password) ≡ (a, w')
      → run server (save_password t s.pw) w s ≡ (
          if s.pw.new_password == s.pw.confirm
          then record {
            value = tt;
            world = w';
            state = changed_page a s;
            log =
                asked (post_password s.pw.current_password s.pw.new_password)
                ∷ did (changed_toast t a)
                ∷ [];
          }
          else record {
            value = tt;
            world = w;
            state = record s { confirm_err = t "Шинэ нууц үг давталттайгаа таарахгүй байна" };
            log = [];
          })
  unfolding save_password
  save_password_outcome s w w' (ok u) e = elim (Bool-cases (s.pw.new_password == s.pw.confirm)) [
    | inl k ↦ rw k (rw e refl)
    | inr k ↦ rw k refl
  ]
  save_password_outcome s w w' (fail f) e = elim (Bool-cases (s.pw.new_password == s.pw.confirm)) [
    | inl k ↦ rw k (rw e refl)
    | inr k ↦ rw k refl
  ]
