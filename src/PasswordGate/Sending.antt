-- ===== src/PasswordGate/Sending.antt =====
-- When a new password is sent (frontend/components/password-gate.tsx).
use nexus_mini.Prelude.{String, ◌≡◌, ◌↔◌, inl, inr, In, ◌==◌, eq_iff, Bool-cases}
use nexus_mini.Runtime.{Server, asked, run}
use nexus_mini.Form.{Dialog}
use nexus_mini.Form.Saving.{asked-save_iff}
use nexus_mini.PasswordGate.{Passwords, Request, Reply, post_password, on_done, submit}

-- The gate sends a password exactly if the two entries of the new one are the same, and then it is the
-- current one and this new one that it sends, and nothing else.
pub asked-submit_gate_iff :
    {W : Type 0} (server : Server Request Reply W) (t : String → String) (d : Dialog Passwords)
    (w : W) (q : Request)
    → In (asked q) (run server (submit t d.form) w d).log
      ↔ ((d.form.next ≡ d.form.again) × (post_password d.form.current d.form.next ≡ q))
unfolding submit
asked-submit_gate_iff server t d w q = elim (Bool-cases (d.form.next == d.form.again)) [
  | inl e ↦
      let same = (eq_iff d.form.next d.form.again).0 e in
      let sent =
        asked-save_iff server (t "Алдаа гарлаа") (post_password d.form.current d.form.next) on_done
          w d q in
      rw e (λ h. (same, sent.0 h), λ h. sent.1 h.1)
  | inr e ↦
      rw e (λ h. absurd h, λ h. absurd (let f = (eq_iff d.form.next d.form.again).1 h.0 in cc))
]
