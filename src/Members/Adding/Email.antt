-- ===== src/Members/Adding/Email.antt =====
-- Which emails the dialog for a new member takes as well-formed (frontend/app/(portal)/members/page.tsx).
use nexus_mini.Prelude.{
  ◌≡◌, refl, ap, ◌∙◌, ◌≢◌, ◌↔◌, inl, inr, Bool, true, false, ◌&&◌, ◌||◌, [], ◌∷◌, ◌++◌, arith,
  nat_eq, Bool-cases,
}
use nexus_mini.Text.{Text}
use nexus_mini.Members.Adding.{
  is_plain, all_plain, ends_plain, after_host, domain, after_local, is_email,
}

-- A text of units that are neither spaces nor `@`, with at least one.
pub record IsWord (s : Text) : Type 0 where
  pub plain : all_plain s ≡ true
  pub some_unit : s ≢ []

-- The three words of an email: `a@b.c`.
pub record IsEmail (s : Text) : Type 0 where
  pub local : Text
  pub host : Text
  pub top : Text
  pub split : s ≡ local ++ (b'@' ∷ host ++ (b'.' ∷ top))
  pub words : IsWord local × IsWord host × IsWord top

or_right : (a b : Bool) → a ≡ false → (a || b) ≡ true → b ≡ true
or_right true b e h = absurd (cc)
or_right false b e h = h

and_both : (a b : Bool) → (a && b) ≡ true → (a ≡ true) × (b ≡ true)
and_both true b h = (refl, h)
and_both false b h = absurd (cc)

and_true : (a b : Bool) → a ≡ true → b ≡ true → (a && b) ≡ true
and_true true b e h = h
and_true false b e h = absurd (cc)

ends_plain_sound : (s : Text) → ends_plain s ≡ true → IsWord s
ends_plain_sound [] h = absurd (cc)
ends_plain_sound (c ∷ s) h = record { plain = h; some_unit = λ e. cc }

ends_plain_complete : (s : Text) → IsWord s → ends_plain s ≡ true
ends_plain_complete [] w = absurd (w.some_unit refl)
ends_plain_complete (c ∷ s) w = w.plain

after_host_sound :
    (s : Text)
    → after_host s ≡ true
    → (host : Text) × (top : Text) × (s ≡ host ++ (b'.' ∷ top))
      × (all_plain host ≡ true)
      × IsWord top
unfolding after_host all_plain
after_host_sound [] h = absurd (cc)
after_host_sound (c ∷ s) h = elim (Bool-cases (nat_eq c b'.' && ends_plain s)) [
  | inl e ↦
      let dot : c ≡ b'.' = ground arith in
      ([], s, ap (λ x. x ∷ s) dot, refl, ends_plain_sound s (ground arith))
  | inr e ↦
      let (here, later) = and_both (is_plain c) (after_host s) (or_right _ _ e h) in
      let (host, top, split, plain, w) = after_host_sound s later in
      (c ∷ host, top, ap (λ x. c ∷ x) split, and_true _ _ here plain, w)
]

after_host_complete :
    (host top : Text)
    → all_plain host ≡ true
    → IsWord top
    → after_host (host ++ (b'.' ∷ top)) ≡ true
unfolding after_host all_plain
after_host_complete [] top h w = ground (arith, ends_plain_complete top w)
after_host_complete (c ∷ host) top h w = ground (arith, after_host_complete host top)

domain_sound :
    (s : Text)
    → domain s ≡ true
    → (host : Text) × (top : Text) × (s ≡ host ++ (b'.' ∷ top)) × IsWord host × IsWord top
unfolding domain all_plain
domain_sound [] h = absurd (cc)
domain_sound (c ∷ s) h =
    let (host, top, split, plain, w) = after_host_sound s (ground arith) in
    (c ∷ host, top, ap (λ x. c ∷ x) split, record { plain = ground arith; some_unit = λ e. cc }, w)

domain_complete :
    (host top : Text) → IsWord host → IsWord top → domain (host ++ (b'.' ∷ top)) ≡ true
unfolding domain all_plain
domain_complete [] top h w = absurd (h.some_unit refl)
domain_complete (c ∷ host) top h w = ground (arith, h.plain, after_host_complete host top)

after_local_sound :
    (s : Text)
    → after_local s ≡ true
    → (local : Text) × (rest : Text) × (s ≡ local ++ (b'@' ∷ rest))
      × (all_plain local ≡ true)
      × (domain rest ≡ true)
unfolding after_local all_plain
after_local_sound [] h = absurd (cc)
after_local_sound (c ∷ s) h = elim (Bool-cases (nat_eq c b'@' && domain s)) [
  | inl e ↦ let at : c ≡ b'@' = ground arith in ([], s, ap (λ x. x ∷ s) at, refl, ground arith)
  | inr e ↦
      let (here, later) = and_both (is_plain c) (after_local s) (or_right _ _ e h) in
      let (local, rest, split, plain, d) = after_local_sound s later in
      (c ∷ local, rest, ap (λ x. c ∷ x) split, and_true _ _ here plain, d)
]

after_local_complete :
    (local rest : Text)
    → all_plain local ≡ true
    → domain rest ≡ true
    → after_local (local ++ (b'@' ∷ rest)) ≡ true
unfolding after_local all_plain
after_local_complete [] rest h d = ground arith
after_local_complete (c ∷ local) rest h d = ground (arith, after_local_complete local rest)

-- A text is taken as an email exactly if it consists of a word, `@`, a word, a dot and a word, where
-- a word is not empty and has neither spaces nor an `@`.
pub is_email_iff : (s : Text) → (is_email s ≡ true) ↔ IsEmail s
is_email_iff s = (
  sound s,
  λ e.
      rw (e.split)
        (complete e.local _ e.words.0 (domain_complete e.host e.top e.words.1 e.words.2)),
)
  where
    sound : (s : Text) → is_email s ≡ true → IsEmail s
    sound [] h = unfold is_email in absurd (cc)
    sound (c ∷ s) h =
        unfold is_email in
        let (local, rest, split, plain, d) = after_local_sound s (ground arith) in
        let (host, top, split', hw, tw) = domain_sound rest d in
        record {
          local = c ∷ local;
          host = host;
          top = top;
          split = ap (λ x. c ∷ x) (split ∙ ap (λ x. local ++ (b'@' ∷ x)) split');
          words =
              (record { plain = unfold all_plain in ground arith; some_unit = λ e. cc }, hw, tw);
        }

    complete :
        (local rest : Text)
        → IsWord local
        → domain rest ≡ true
        → is_email (local ++ (b'@' ∷ rest)) ≡ true
    complete [] rest w d = absurd (w.some_unit refl)
    complete (c ∷ local) rest w d =
        unfold is_email all_plain in ground (arith, w.plain, after_local_complete local rest)
