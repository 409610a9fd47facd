-- ===== src/Examples/Site.antt =====
-- The login, the redirects to it and the slug at concrete inputs.
use nexus_mini.Prelude.{
  String, ◌≡◌, refl, ◌≢◌, ◌↔◌, inl, inr, true, false, [], ◌∷◌, Option, none, some, arith,
}
use nexus_mini.Text.{Text, codes, strip_prefix}
use nexus_mini.Slug.{slugify}
use nexus_mini.Slug.Shape.{IsSlug, slugify-IsSlug, EndsWithWord}
use nexus_mini.Middleware.{
  NextRequest, redirect, next, is_public, matcher, middleware, serve, is_truthy, policy,
}
use nexus_mini.Middleware.Guard.{IsGuestAtGuarded, serve-redirect_iff, serve-api_prefix}
use nexus_mini.Middleware.Policy.{Carries, middleware-Carries}
use nexus_mini.Runtime.{api_error, ok, fail, Server, run}
use nexus_mini.Login.{
  Request, Reply, get_setup_status, get_providers, get_me, post_login, initial, choose_next,
  read_address,
}
use nexus_mini.Login.Form.{set_email}
use nexus_mini.Login.Return.{IsSent, typings, submit-serve}
use nexus_mini.Login.Next.{
  IsLocal, BeginsWithSlash, NamesHost, IsDisguised, without_breaks, choose_next-NamesHost_iff,
}

-- The transliteration of the source's own example.
slugify_test : slugify (λ s. s) (codes "--гэрэгэ  системс!!") ≡ codes "gerege-sistyems"
unfolding slugify
slugify_test = refl

slugify-IsSlug_example : IsSlug (slugify (λ s. s) (codes "Гэрэгэ систем"))
slugify-IsSlug_example = slugify-IsSlug (λ s. s) (codes "Гэрэгэ систем")

abbrev plain_slug : Text
plain_slug = codes "ab-1"

plain_slug-IsSlug : IsSlug plain_slug
plain_slug-IsSlug = slugify-IsSlug_plain (slugify-IsSlug (λ s. s) plain_slug)
  where
    slugify-IsSlug_plain : IsSlug (slugify (λ s. s) plain_slug) → IsSlug plain_slug
    slugify-IsSlug_plain h = unfold slugify in h

plain_slug_ends : EndsWithWord plain_slug
plain_slug_ends = unfold slugify in refl

-- A guest's request for a page of the workspace, with a query.
abbrev members_request : NextRequest
members_request = record {
  pathname = codes "/members";
  search = codes "?q=1";
  session = false;
  rsc = none;
  headers = ("x-nonce", codes "forged") ∷ [];
}

abbrev at : String → NextRequest
at path = record members_request { pathname = codes path }

-- An encoding that changes nothing, and the decoding of the parameter `next` of a query.
abbrev identity : Text → Text
identity s = s

abbrev get_next : Text → Option Text
get_next query = strip_prefix (codes "?next=") query

members_covered : matcher (codes "/members") ≡ true
unfolding matcher
members_covered = refl

members_guarded : is_public (codes "/members") ≡ false
unfolding is_public
members_guarded = refl

members_not_root : codes "/members" ≢ codes "/"
members_not_root h = cc

members-IsGuestAtGuarded : IsGuestAtGuarded members_request
members-IsGuestAtGuarded = record {
  guest = refl;
  not_root = members_not_root;
  not_public = members_guarded;
}

serve-redirect_iff_example :
    (serve identity false (codes "n") members_request
      ≡ redirect (codes "/login") (codes "?next=/members?q=1"))
    ↔ IsGuestAtGuarded members_request
serve-redirect_iff_example =
    serve-redirect_iff identity false (codes "n") members_request members_covered

serve-api_prefix_example :
    serve identity false (codes "n") (at "/apiary") ≡ next (("x-nonce", codes "forged") ∷ []) none
serve-api_prefix_example =
    serve-api_prefix identity false (codes "n") (at "/apiary") (codes "ary") refl

-- The same request of a visitor who has a session.
abbrev member_request : NextRequest
member_request = record members_request { session = true; headers = [] }

abbrev member_policy : Text
member_policy = policy false (codes "n")

not_rsc : is_truthy none ≡ false
unfolding is_truthy
not_rsc = refl

let_through :
    middleware identity false (codes "n") member_request
    ≡ next
        (("x-nonce", codes "n") ∷ ("content-security-policy", member_policy) ∷ [])
        (some member_policy)
unfolding middleware is_public
let_through = refl

middleware-Carries_example :
    Carries false
      (codes "n")
      (("x-nonce", codes "n") ∷ ("content-security-policy", member_policy) ∷ [])
      (some member_policy)
middleware-Carries_example =
    middleware-Carries identity false (codes "n") member_request
      (("x-nonce", codes "n") ∷ ("content-security-policy", member_policy) ∷ [])
      (some member_policy) not_rsc let_through

slash_then_letter : IsLocal (codes "/members")
slash_then_letter = (refl, λ h. absurd (ground arith))

-- A server that lets everybody in.
abbrev letting_in : Server Request Reply (Unit {0})
letting_in w get_setup_status = (ok (record { required = false; armed = false }), w)
letting_in w get_providers = (ok [], w)
letting_in w get_me = (fail (api_error 401 "no"), w)
letting_in w (post_login email password) = (ok tt, w)

abbrev plain : String → String
plain s = s

submit-serve_example :
    (query : Text) × (serve identity false (codes "n") members_request
      ≡ redirect (codes "/login") query)
    × (let opened = run letting_in (read_address (get_next query) none) tt initial in
        IsSent letting_in plain
          (typings (set_email "b@x.mn" ∷ []) opened.state)
          opened.world
          (codes "/members?q=1"))
submit-serve_example =
    submit-serve letting_in identity get_next false (codes "n") members_request refl members_covered
      members-IsGuestAtGuarded slash_then_letter refl plain none (set_email "b@x.mn" ∷ []) tt
      initial

dashboard_names_none : ¬ NamesHost (codes "/dashboard")
unfolding without_breaks
dashboard_names_none (a, inl e) = absurd (ground arith)
dashboard_names_none (a, inr e) = absurd (ground arith)

choose_next-NamesHost_iff_example :
    BeginsWithSlash (choose_next (codes "/dashboard") (some (codes "/\t/evil.example")))
    × (NamesHost (choose_next (codes "/dashboard") (some (codes "/\t/evil.example")))
        ↔ IsDisguised (codes "/\t/evil.example"))
choose_next-NamesHost_iff_example =
    choose_next-NamesHost_iff (codes "/dashboard") (codes "/\t/evil.example") refl
      dashboard_names_none

-- The tab is let through, and the address then names a host.
tab-IsDisguised : IsDisguised (codes "/\t/evil.example")
unfolding without_breaks
tab-IsDisguised = (refl, λ h. absurd (ground arith), inl refl)
