-- ===== src/Roles/Grants.antt =====
-- What a click on a cell of the matrix changes (frontend/app/(portal)/roles/page.tsx).
use nexus_mini.Prelude.{
  String, ◌≡◌, refl, ◌≢◌, Bool, true, false, List, [], ◌∷◌, Option, none, some, arith, ◌==◌, eq_iff,
  if◌then◌else◌,
}
use nexus_mini.Runtime.{Answer, Server, ok, fail, Fault, asked, did, run, msg}
use nexus_mini.Roles.{
  Scope, all, own, Grants, Role, Permission, Page, Request, Reply, put_grants, load_all, toast,
  lookup, set_grant, delete_grant, next_scope, put_scope, cycled, load, cycle,
}

lookup-set_grant :
    (c j : String) (v : Scope) (g : Grants)
    → lookup j (set_grant c v g) ≡ (if c == j then some v else lookup j g)
unfolding lookup set_grant
lookup-set_grant c j v [] = refl
lookup-set_grant c j v ((k, w) ∷ g) =
    ground (arith, eq_iff c j, eq_iff k c, eq_iff k j, lookup-set_grant c j v g)

lookup-delete_grant :
    (c j : String) (g : Grants)
    → lookup j (delete_grant c g) ≡ (if c == j then none else lookup j g)
unfolding lookup delete_grant
lookup-delete_grant c j [] = ground arith
lookup-delete_grant c j ((k, w) ∷ g) =
    ground (arith, eq_iff c j, eq_iff k c, eq_iff k j, lookup-delete_grant c j g)

lookup-put_scope :
    (c j : String) (o : Option Scope) (g : Grants)
    → lookup j (put_scope c o g) ≡ (if c == j then o else lookup j g)
lookup-put_scope c j none g = lookup-delete_grant c j g
lookup-put_scope c j (some v) g = lookup-set_grant c j v g

lookup-cycled_any :
    (role : Role) (p : Permission) (j : String)
    → lookup j (cycled role p) ≡ (
        if p.code == j
        then next_scope p.own_scope (lookup p.code role.grants)
        else lookup j role.grants)
unfolding cycled
lookup-cycled_any role p j =
    lookup-put_scope p.code j (next_scope p.own_scope (lookup p.code role.grants)) role.grants

next_scope_cases :
    (own_scope : Bool) (o : Option Scope)
    → next_scope own_scope o ≡ elim o [
      | none ↦ some all
      | some v ↦ elim v [ all ↦ if own_scope then some own else none | own ↦ none ]
    ]
unfolding next_scope
next_scope_cases own_scope none = refl
next_scope_cases own_scope (some all) = refl
next_scope_cases own_scope (some own) = refl

-- The grants that a click asks for are the role's, but for the clicked permission, which has the
-- next scope: after none comes `all`, after `all` comes `own` if the permission has an own scope
-- and else none, and after `own` comes none.
pub lookup-cycled :
    (role : Role) (p : Permission) (j : String)
    → lookup j (cycled role p) ≡ (
        if p.code == j
        then elim (lookup p.code role.grants) [
          | none ↦ some all
          | some v ↦ elim v [ all ↦ if p.own_scope then some own else none | own ↦ none ]
        ]
        else lookup j role.grants)
lookup-cycled role p j =
    rw (← next_scope_cases p.own_scope (lookup p.code role.grants)) (lookup-cycled_any role p j)

abbrev after : Role → Permission → Role
after role p = record role { grants = cycled role p }

next_scope_thrice : (o : Option Scope) → next_scope true (next_scope true (next_scope true o)) ≡ o
unfolding next_scope
next_scope_thrice none = refl
next_scope_thrice (some all) = refl
next_scope_thrice (some own) = refl

next_scope_twice : (o : Option Scope) → o ≢ some own → next_scope false (next_scope false o) ≡ o
unfolding next_scope
next_scope_twice none h = refl
next_scope_twice (some all) h = refl
next_scope_twice (some own) h = absurd (h refl)

lookup-cycled_self :
    (role : Role) (p : Permission)
    → lookup p.code (cycled role p) ≡ next_scope p.own_scope (lookup p.code role.grants)
lookup-cycled_self role p = rw lookup-cycled_any (ground (arith, eq_iff p.code p.code))

-- Three saved clicks on the cell of a permission with an own scope bring every permission's scope
-- back.
pub cycled_thrice :
    (role : Role) (p : Permission) (j : String)
    → p.own_scope ≡ true
    → lookup j (cycled (after (after role p) p) p) ≡ lookup j role.grants
cycled_thrice role p j h = ground (
  arith,
  eq_iff p.code j,
  next_scope_thrice (lookup p.code role.grants),
  lookup-cycled_any (after (after role p) p) p j,
  lookup-cycled_any (after role p) p j,
  lookup-cycled_any role p j,
  lookup-cycled_self role p,
  lookup-cycled_self (after role p) p,
)

module _ {W : Type 0} (server : Server Request Reply W) (t : String → String) where
  cycle_refused :
      (role : Role) (p : Permission) (w w' : W) (s : Page) (e : Fault)
      → role.code ≢ "admin"
      → server w (put_grants role.id (cycled role p)) ≡ (fail e, w')
      → run server (cycle t role p) w s ≡ record {
        value = tt;
        world = w';
        state = record s { err = msg e (t "Алдаа гарлаа") };
        log = asked (put_grants role.id (cycled role p)) ∷ [];
      }
  unfolding cycle
  cycle_refused role p w w' s e h a =
      let other : (role.code == "admin") ≡ false = ground (arith, eq_iff role.code "admin") in
      rw (other) (rw a refl)

  -- The page after its lists were loaded again, by the answer.
  abbrev pub reloaded : Answer (List Role × List Permission) → Page → Page
  reloaded (ok (roles, perms)) s = record s { roles = some roles; perms = perms }
  reloaded (fail e) s = record s { roles = some []; err = msg e (t "Алдаа гарлаа") }

  cycle_saved :
      (role : Role) (p : Permission) (w w' w'' : W) (s : Page)
      (b : Answer (List Role × List Permission))
      → role.code ≢ "admin"
      → server w (put_grants role.id (cycled role p)) ≡ (ok tt, w')
      → server w' load_all ≡ (b, w'')
      → run server (cycle t role p) w s ≡ record {
        value = tt;
        world = w'';
        state = reloaded b s;
        log =
            asked (put_grants role.id (cycled role p))
            ∷ did (toast (t "Оноолт хадгалагдлаа"))
            ∷ asked load_all
            ∷ [];
      }
  unfolding cycle load
  cycle_saved role p w w' w'' s (ok (roles, perms)) h a b =
      let other : (role.code == "admin") ≡ false = ground (arith, eq_iff role.code "admin") in
      rw other (rw a (rw b refl))
  cycle_saved role p w w' w'' s (fail e) h a b =
      let other : (role.code == "admin") ≡ false = ground (arith, eq_iff role.code "admin") in
      rw other (rw a (rw b refl))

  -- A click on a cell of another role than `admin` asks for the next grants once. If the server takes
  -- them, the visitor is told and both lists are loaded again: the page shows what they then are, or,
  -- if they cannot be loaded, that error over an empty matrix. If the server refuses the grants, the
  -- error is shown, the matrix is as it was, and nothing is loaded again.
  pub cycle_outcome :
      (role : Role) (p : Permission) (w w' w'' : W) (s : Page) (a : Answer (Unit {0}))
      (b : Answer (List Role × List Permission))
      → role.code ≢ "admin"
      → server w (put_grants role.id (cycled role p)) ≡ (a, w')
      → server w' load_all ≡ (b, w'')
      → run server (cycle t role p) w s ≡ elim a [
        | ok u ↦ record {
          value = tt;
          world = w'';
          state = reloaded b s;
          log =
              asked (put_grants role.id (cycled role p))
              ∷ did (toast (t "Оноолт хадгалагдлаа"))
              ∷ asked load_all
              ∷ [];
        }
        | fail e ↦ record {
          value = tt;
          world = w';
          state = record s { err = msg e (t "Алдаа гарлаа") };
          log = asked (put_grants role.id (cycled role p)) ∷ [];
        }
      ]
  cycle_outcome role p w w' w'' s (ok u) b h e f = cycle_saved role p w w' w'' s b h e f
  cycle_outcome role p w w' w'' s (fail x) b h e f = cycle_refused role p w w' s x h e
