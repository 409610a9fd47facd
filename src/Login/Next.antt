-- ===== src/Login/Next.antt =====
-- Where the login leads (frontend/app/login/page.tsx), and how browsers read
-- such an address (the URL standard).
use nexus_mini.Prelude.{
  ℕ, ◌⊎◌, ◌↔◌, ◌≡◌, ◌≢◌, inl, inr, Bool, ◌||◌, ◌∷◌, [], ◌++◌, Option, none, some, arith, nat_eq,
  if◌then◌else◌, Bool-cases,
}
use nexus_mini.Text.{Text, codes}
use nexus_mini.Middleware.{slash}
use nexus_mini.Login.{choose_next, no_slash_slash}

-- A path of this site as the check means it: one slash, then something else or nothing.
abbrev pub IsLocal : Text → Type 0
IsLocal [] = ⊥
IsLocal (c ∷ []) = c ≡ slash
IsLocal (c ∷ d ∷ s) = (c ≡ slash) × (d ≢ slash)

-- Whatever the address says, the page to go on to is local if the page's state was: it begins with
-- a slash that no second one follows.
pub choose_next-IsLocal :
    (current : Text) (param : Option Text) → IsLocal current → IsLocal (choose_next current param)
unfolding choose_next
choose_next-IsLocal current none h = h
choose_next-IsLocal current (some []) h = h
choose_next-IsLocal current (some (c ∷ [])) h = elim (Bool-cases (no_slash_slash (c ∷ []))) [
  | inl e ↦ rw e (ground arith)
  | inr e ↦ rw e h
]
choose_next-IsLocal current (some (c ∷ d ∷ s)) h = elim (Bool-cases (no_slash_slash (c ∷ d ∷ s))) [
  | inl e ↦ rw e (ground arith)
  | inr e ↦ rw e h
]

pub choose_next_of_IsLocal : (current n : Text) → IsLocal n → choose_next current (some n) ≡ n
unfolding choose_next
choose_next_of_IsLocal current [] h = absurd h
choose_next_of_IsLocal current (c ∷ []) h = ground arith
choose_next_of_IsLocal current (c ∷ d ∷ s) h = ground arith

pub IsLocal-append :
    (path search : Text) → IsLocal path → path ≢ codes "/" → IsLocal (path ++ search)
IsLocal-append [] search h n = absurd h
IsLocal-append (c ∷ []) search h n = absurd (n (ground arith))
IsLocal-append (c ∷ d ∷ s) search h n = h

-- Browsers read `\` as `/` in the address of a page.
abbrev pub IsSlash : ℕ → Type 0
IsSlash c = (c ≡ slash) ⊎ (c ≡ b'\\')

-- A tab or one of the two units of a line end: browsers take them out of an address before they read
-- it.
pub is_break : ℕ → Bool
is_break c = nat_eq c 9 || (nat_eq c 10 || nat_eq c 13)

unfoldable pub without_breaks : Text → Text
unfolding is_break
without_breaks [] = []
without_breaks (c ∷ s) = let rest = without_breaks s in if is_break c then rest else c ∷ rest

abbrev pub StartsWithSlash : Text → Type 0
StartsWithSlash [] = ⊥
StartsWithSlash (c ∷ s) = IsSlash c

-- An address that begins with a slash, and that a browser reads a host from: behind the first slash
-- comes, tabs and line ends apart, a slash of either kind. Any other address that begins with a slash
-- is a path of the same site.
abbrev pub NamesHost : Text → Type 0
NamesHost [] = ⊥
NamesHost (c ∷ s) = (c ≡ slash) × StartsWithSlash (without_breaks s)

-- The parameter begins with a slash and then goes on with something else than a slash, and nonetheless
-- the first unit behind, tabs and line ends apart, is a slash of either kind.
abbrev pub IsDisguised : Text → Type 0
IsDisguised [] = ⊥
IsDisguised (c ∷ []) = ⊥
IsDisguised (c ∷ d ∷ s) = (c ≡ slash) × (d ≢ slash) × StartsWithSlash (without_breaks (d ∷ s))

abbrev pub BeginsWithSlash : Text → Type 0
BeginsWithSlash [] = ⊥
BeginsWithSlash (c ∷ s) = c ≡ slash

-- If the page's state begins with a slash and names no host, then the page to go on to begins with a
-- slash, and it names a host exactly if the parameter `next` of the address begins with a slash,
-- another unit than a slash follows, and the first unit behind the slash that is no tab and of no line
-- end is a slash or a backslash: the check lets these through.
pub choose_next-NamesHost_iff :
    (current n : Text)
    → BeginsWithSlash current
    → ¬ NamesHost current
    → BeginsWithSlash (choose_next current (some n))
      × (NamesHost (choose_next current (some n)) ↔ IsDisguised n)
unfolding choose_next without_breaks
choose_next-NamesHost_iff current [] path stays = (path, (λ h. absurd (stays h), λ h. absurd h))
choose_next-NamesHost_iff current (c ∷ []) path stays =
    elim (Bool-cases (no_slash_slash (c ∷ []))) [
      | inl e ↦ rw e (ground arith, (λ h. absurd h.1, λ h. absurd h))
      | inr e ↦ rw e (path, (λ h. absurd (stays h), λ h. absurd h))
    ]
choose_next-NamesHost_iff current (c ∷ d ∷ s) path stays =
    elim (Bool-cases (no_slash_slash (c ∷ d ∷ s))) [
      | inl e ↦ rw e (ground arith, (λ (i, k). (i, ground arith, k), λ (i, o, k). (i, k)))
      | inr e ↦ rw e (path, (λ h. absurd (stays h), λ (i, o, k). absurd (ground arith)))
    ]
