-- ===== src/Form/Saving.antt =====
-- How saving a form ends.
use mathlib.Core.Path.{subst}
use nexus_mini.Prelude.{sym, String, ◌≡◌, ◌↔◌, inl, inr, In, refl, true, false, [], ◌∷◌}
use nexus_mini.Runtime.{Answer, ok, fail, Server, Proc, Run, effect, asked, did, run, msg}
use nexus_mini.Form.{Dialog, save}

no_did : {Q E : Type 0} {e : E} {p : Q} → did e ≡ asked p → ⊥
no_did h = let k = h in cc

module _ {Q : Type 0} {R : Q → Type 0} {E F W : Type 0} (server : Server Q R W) where
  -- What is left after the answer.
  abbrev pub saved :
      (fallback : String) (q : Q) (done : R q → Proc Q R E (Dialog F) (Unit {0})) (d : Dialog F)
      → Answer (R q)
      → W
      → Run Q E W (Dialog F) (Unit {0})
  saved fallback q done d (ok x) w' =
      let rest = run server (done x) w' (record d { err = ""; busy = true }) in
      record rest { log = asked q ∷ rest.log }
  saved fallback q done d (fail e) w' = record {
    value = tt;
    world = w';
    state = record d { err = msg e fallback; busy = false };
    log = asked q ∷ [];
  }

  pub save_lem :
      (fallback : String) (q : Q) (done : R q → Proc Q R E (Dialog F) (Unit {0})) (w w' : W)
      (d : Dialog F) (a : Answer (R q))
      → server w q ≡ (a, w')
      → run server (save fallback q done) w d ≡ saved fallback q done d a w'
  unfolding save
  save_lem fallback q done w w' d (ok x) e = rw e refl
  save_lem fallback q done w w' d (fail f) e = rw e refl

  -- A form whose success is one effect asks for one thing only.
  pub asked-save_iff :
      (fallback : String) (q : Q) (e : E) (w : W) (d : Dialog F) (p : Q)
      → In (asked p) (run server (save fallback q (λ r. effect e)) w d).log ↔ (q ≡ p)
  unfolding save
  asked-save_iff fallback q e w d p =
      subst (λ r. In (asked p) r.log ↔ (q ≡ p))
        (sym (save_lem fallback q (λ r. effect e) w (server w q).1 d (server w q).0 refl))
        (go (server w q))
    where
      go :
          (a : Answer (R q) × W)
          → In (asked p) (saved fallback q (λ r. effect e) d a.0 a.1).log ↔ (q ≡ p)
      go (ok x, w') = (
        λ h. elim h [
          | inl k ↦ cc
          | inr k ↦ elim k [ inl n ↦ absurd (no_did n) | inr n ↦ absurd n ]
        ],
        λ k. inl (rw k refl),
      )
      go (fail f, w') = (λ h. elim h [ inl k ↦ cc | inr n ↦ absurd n ], λ k. inl (rw k refl))
