-- ===== src/Console/Start.antt =====
-- Who gets into the console (admin/components/shell.tsx).
use nexus_mini.Prelude.{
  ◌≡◌, refl, sym, ap, ◌∙◌, ◌↔◌, inl, inr, Bool, true, false, some, Bool-cases, if◌then◌else◌,
}
use nexus_mini.Runtime.{Answer, ok, fail, has_status}
use nexus_mini.Console.{
  Me, accepted, denied, Page, initial, receive, screen, workspace, Bar, read_collapsed,
  on_collapsed_change,
}

-- The two ends of an answer that is no error.
abbrev settled : Bool → Me → Page
settled b n =
    if b
    then record initial { me = some n; status = accepted }
    else record initial { status = denied }

settled_iff :
    (b : Bool) (n m : Me)
    → n.user.platform_admin ≡ b
    → (screen (settled b n) ≡ workspace m) ↔ ((ok n ≡ ok m) × (m.user.platform_admin ≡ true))
unfolding screen
settled_iff true n m e = (
  λ h. let same : n ≡ m = cc in (ap ok same, ap (λ x. x.user.platform_admin) (sym same) ∙ e),
  λ (f, g). let same : n ≡ m = cc in ap workspace same,
)
settled_iff false n m e = (
  λ h. absurd (let k = h in cc),
  λ (f, g).
      let same : n ≡ m = cc in
      absurd
        (let k : true ≡ false = sym g ∙ (ap (λ x. x.user.platform_admin) (sym same) ∙ e) in cc),
)

-- The console shows its workspace after the answer to its one request exactly if the answer says that
-- the visitor is an administrator of the platform, and then for this visitor.
pub receive-workspace_iff :
    (a : Answer Me) (m : Me)
    → (screen (receive true a initial) ≡ workspace m)
      ↔ ((a ≡ ok m) × (m.user.platform_admin ≡ true))
unfolding screen receive
receive-workspace_iff (ok n) m = settled_iff n.user.platform_admin n m refl
receive-workspace_iff (fail f) m = elim (Bool-cases (has_status 401 f)) [
  | inl e ↦ rw e (λ h. absurd (let k = h in cc), λ (k, l). absurd (let g = k in cc))
  | inr e ↦ rw e (λ h. absurd (let k = h in cc), λ (k, l). absurd (let g = k in cc))
]

-- A page that is drawn anew shows the side bar as it was left last, unless the storage throws.
pub read_collapsed-change :
    (next : Bool) (b c : Bar)
    → b.storage.throws ≡ false
    → c.storage ≡ (on_collapsed_change next b).storage
    → (read_collapsed c).collapsed ≡ next
unfolding read_collapsed on_collapsed_change
read_collapsed-change true b c works same = rw (same, works) refl
read_collapsed-change false b c works same = rw (same, works) refl
