-- ===== src/Members/Adding/Lookup.antt =====
-- What the dialog for a new member knows of an email, and when
-- (frontend/app/(portal)/members/page.tsx).
use nexus_mini.Prelude.{
  ℕ, zero, suc, ◌≡◌, refl, inl, inr, true, false, List, [], ◌∷◌, Option, none, some, Bool-cases,
  All,
}
use nexus_mini.Text.{Text, text_eq}
use nexus_mini.Runtime.{ok}
use nexus_mini.Members.Adding.{
  Found, Dialog, DialogEvent, type_email, type_name, type_password, toggle_code, timer_fires,
  answered, opened, look_up, send, happen, happens, email_ok, trim, is_closed, is_email, is_waiting,
  without,
}

-- The running timer is for the email that stands in the field, which is well-formed.
abbrev pub IsTimed : Option Text → Text → Type 0
IsTimed none email = Unit
IsTimed (some x) email = (x ≡ trim email) × (email_ok email ≡ true)

abbrev pub IsAsked : Text → Type 0
IsAsked x = is_email x ≡ true

pub record IsAsking (d : Dialog) : Type 0 where
  pub timed : IsTimed d.timer d.email
  pub asked : All IsAsked d.waiting

look_up-IsAsking : (d : Dialog) → All IsAsked d.waiting → IsAsking (look_up d)
unfolding look_up
look_up-IsAsking d h = elim (Bool-cases (email_ok d.email)) [
  | inl e ↦ rw e (record { timed = (refl, e); asked = h })
  | inr e ↦ rw e (record { timed = tt; asked = h })
]

ok-IsAsked : (email x : Text) → x ≡ trim email → email_ok email ≡ true → IsAsked x
unfolding email_ok
ok-IsAsked email x e h = rw e h

send-IsAsking :
    (o : Option Text) (d : Dialog) → IsTimed o d.email → IsAsking d → IsAsking (send o d)
send-IsAsking none d t h = h
send-IsAsking (some x) d (e, good) h = record {
  timed = tt;
  asked = (ok-IsAsked d.email x e good, h.asked);
}

without-IsAsked : (n : ℕ) (xs : List Text) → All IsAsked xs → All IsAsked (without n xs)
without-IsAsked n [] h = tt
without-IsAsked zero (x ∷ xs) h = h.1
without-IsAsked (suc n) (x ∷ xs) h = (h.0, without-IsAsked n xs h.1)

happen-IsAsking : (d : Dialog) (e : DialogEvent) → IsAsking d → IsAsking (happen d e)
unfolding happen
happen-IsAsking d (type_email e) h = elim (Bool-cases (text_eq e d.email)) [
  | inl same ↦ rw same h
  | inr other ↦ rw other (look_up-IsAsking (record d { email = e }) h.asked)
]
happen-IsAsking d (type_name n) h = record { timed = h.timed; asked = h.asked }
happen-IsAsking d (type_password p) h = record { timed = h.timed; asked = h.asked }
happen-IsAsking d (toggle_code c on) h = record { timed = h.timed; asked = h.asked }
happen-IsAsking d timer_fires h = send-IsAsking d.timer d h.timed h
happen-IsAsking d (answered n a) h = elim (Bool-cases (is_waiting n d.waiting)) [
  | inl e ↦ rw e (record { timed = h.timed; asked = without-IsAsked n d.waiting h.asked })
  | inr e ↦ rw e h
]

happens-IsAsking_from : (d : Dialog) (es : List DialogEvent) → IsAsking d → IsAsking (happens d es)
unfolding happens
happens-IsAsking_from d [] h = h
happens-IsAsking_from d (e ∷ es) h = happens-IsAsking_from (happen d e) es (happen-IsAsking d e h)

-- From the opened dialog on, whatever is typed, clicked and answered in whatever order: the timer
-- that runs is for the trimmed email that stands in the field, and every request that is not
-- answered is for a well-formed email. So nothing is looked up for a half-typed or an older email
-- once another one is typed before the timer runs out.
pub happens-IsAsking : (es : List DialogEvent) → IsAsking (happens opened es)
happens-IsAsking es = happens-IsAsking_from opened es (record { timed = tt; asked = tt })

opened_empty : email_ok [] ≡ false
unfolding email_ok
opened_empty = refl

typed : (a : Text) → email_ok a ≡ true → text_eq a [] ≡ false
typed [] h = absurd (let e : false ≡ true = rw opened_empty at h in cc)
typed (c ∷ s) h = refl

-- An answer is not told apart by the email that it is for: if a well-formed email is typed and asked
-- for, and the field is changed to any other text before the answer, then the answer for the first
-- email is what the dialog has found for the second, a malformed one included, and the button that
-- adds the second is open if the first has no member.
pub late_answer :
    (a b : Text) (f : Found)
    → email_ok a ≡ true
    → text_eq b a ≡ false
    → let d = happens opened (type_email a ∷ timer_fires ∷ type_email b ∷ answered 0 (ok f) ∷ []) in
      (d.email ≡ b) × (d.found ≡ some f) × (is_closed d.found ≡ f.member)
unfolding happens look_up
late_answer a b f good other = rw (typed a good) (
    rw good (
      rw other (elim (Bool-cases (email_ok b)) [
        | inl e ↦ rw e (refl, refl, refl)
        | inr e ↦ rw e (refl, refl, refl)
      ])))
