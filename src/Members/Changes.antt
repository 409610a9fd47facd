-- ===== src/Members/Changes.antt =====
-- What a click on a role of a member changes (frontend/app/(portal)/members/page.tsx).
use nexus_mini.Prelude.{
  String, ◌≡◌, refl, Bool, true, false, not, List, [], ◌∷◌, ◌++◌, some, arith, ◌==◌, eq_iff, filter,
  if◌then◌else◌,
}
use nexus_mini.Runtime.{Answer, ok, Server, asked, did, run}
use nexus_mini.Roles.{Role}
use nexus_mini.Members.{
  Member, Page, Request, Reply, get_members_and_roles, put_roles, includes, next_roles,
  set_member_roles, told, load,
}

includes-append_one :
    (x c : String) (rs : List String)
    → includes x (rs ++ (c ∷ [])) ≡ (if c == x then true else includes x rs)
includes-append_one x c [] = ground arith
includes-append_one x c (r ∷ rs) = ground (arith, includes-append_one x c rs)

includes-filter :
    (x c : String) (rs : List String)
    → includes x (filter (λ r. not (r == c)) rs) ≡ (if c == x then false else includes x rs)
includes-filter x c [] = ground arith
includes-filter x c (r ∷ rs) =
    ground (arith, includes-filter x c rs, eq_iff c x, eq_iff r c, eq_iff r x)

-- A click on a role asks for roles that have this one exactly if the member did not have it, and
-- every other one exactly if the member had it.
pub includes-next_roles :
    (rs : List String) (c x : String)
    → includes x (next_roles rs c (not (includes c rs)))
      ≡ (if c == x then not (includes c rs) else includes x rs)
unfolding next_roles
includes-next_roles rs c x = ground (arith, includes-append_one x c rs, includes-filter x c rs)

module _ {W : Type 0} (server : Server Request Reply W) (t : String → String) where
  -- Whether the server takes a change of roles or refuses it, the visitor is told so once, and the
  -- members and roles are asked for again: the page's lists are then the server's, not what the click
  -- asked for, while an error of an earlier loading stays.
  pub set_member_roles_reloads :
      (m : Member) (c : String) (on : Bool) (w w' w'' : W) (s : Page) (a : Answer (Unit {0}))
      (members : List Member) (roles : List Role)
      → server w (put_roles m.membership_id (next_roles m.roles c on)) ≡ (a, w')
      → server w' get_members_and_roles ≡ (ok (members, roles), w'')
      → run server (set_member_roles t true m c on) w s ≡ record {
        value = tt;
        world = w'';
        state = record s { members = some members; roles = roles };
        log =
            asked (put_roles m.membership_id (next_roles m.roles c on))
            ∷ did (told t a)
            ∷ asked get_members_and_roles
            ∷ [];
      }
  unfolding set_member_roles load
  set_member_roles_reloads m c on w w' w'' s a members roles e f = rw e (rw f refl)
