-- ===== src/Middleware/Policy.antt =====
-- The policy that frontend/middleware.ts puts on a page, and its nonce.
use nexus_mini.Prelude.{
  String, ◌≡◌, refl, ap, true, ◌++◌, inl, inr, Bool, false, List, [], ◌∷◌, Option, none, some,
  arith, ◌==◌, eq_iff, eq_refl, if◌then◌else◌, Bool-cases,
}
use nexus_mini.Text.{Text, codes}
use nexus_mini.Middleware.{
  NextRequest, next, join, policy, set_header, middleware, must_login, is_truthy,
}

-- `headers.get(name)`
pub get_header : String → List (String × Text) → Option Text
get_header name [] = none
get_header name ((k, v) ∷ rest) = if k == name then some v else get_header name rest

get_header-set_header :
    (name j : String) (value : Text) (headers : List (String × Text))
    → get_header j (set_header name value headers)
      ≡ (if name == j then some value else get_header j headers)
unfolding get_header set_header
get_header-set_header name j value [] = refl
get_header-set_header name j value ((k, v) ∷ rest) =
    ground
      (arith, eq_iff name j, eq_iff k name, eq_iff k j, get_header-set_header name j value rest)

-- The policy as one text, with the nonce among the sources of scripts; a development build may use
-- `eval`, and any other asks for https.
abbrev pub written : Bool → Text → Text
written true nonce =
    codes "default-src 'self'; script-src 'self' 'nonce-"
    ++ (nonce
        ++ codes
            "' 'strict-dynamic' 'unsafe-eval'; style-src 'self' 'unsafe-inline'; img-src 'self' data:; font-src 'self'; connect-src 'self'; form-action 'self'; frame-ancestors 'none'; frame-src 'none'; base-uri 'self'; object-src 'none'")
written false nonce =
    codes "default-src 'self'; script-src 'self' 'nonce-"
    ++ (nonce
        ++ codes
            "' 'strict-dynamic'; style-src 'self' 'unsafe-inline'; img-src 'self' data:; font-src 'self'; connect-src 'self'; form-action 'self'; frame-ancestors 'none'; frame-src 'none'; base-uri 'self'; object-src 'none'; upgrade-insecure-requests")

++_assoc : (a b c : Text) → (a ++ b) ++ c ≡ a ++ (b ++ c)
++_assoc [] b c = refl
++_assoc (x ∷ a) b c = ap (λ s. x ∷ s) (++_assoc a b c)

policy-written : (dev : Bool) (nonce : Text) → policy dev nonce ≡ written dev nonce
unfolding policy join
policy-written true nonce =
    ap (λ s. codes "default-src 'self'; script-src 'self' 'nonce-" ++ s) (++_assoc nonce _ _)
policy-written false nonce =
    ap (λ s. codes "default-src 'self'; script-src 'self' 'nonce-" ++ s) (++_assoc nonce _ _)

-- What a page request hands on: the response's policy, and the nonce that the policy names.
pub record Carries (dev : Bool) (nonce : Text) (headers : List (String × Text)) (csp : Option Text)
    : Type 0 where
  pub response : csp ≡ some (written dev nonce)
  pub request : get_header "content-security-policy" headers ≡ csp
  pub drawn : get_header "x-nonce" headers ≡ some nonce

-- A document request that is let through carries one policy on both sides: the response has the
-- policy that `written` spells out, with the drawn nonce among the sources of scripts, the request's
-- headers have the same policy, from which the framework reads the nonce, and `x-nonce` is that nonce;
-- what the visitor sent under these names is replaced.
pub middleware-Carries :
    (encode : Text → Text) (dev : Bool) (nonce : Text) (req : NextRequest)
    (headers : List (String × Text)) (csp : Option Text)
    → is_truthy req.rsc ≡ false
    → middleware encode dev nonce req ≡ next headers csp
    → Carries dev nonce headers csp
unfolding middleware
middleware-Carries encode dev nonce req headers csp document e =
    elim (Bool-cases (must_login req)) [
      | inl guest ↦ absurd (ground arith)
      | inr let_through ↦
          let same_headers : set_header "content-security-policy" (policy dev nonce)
                (set_header "x-nonce" nonce req.headers)
              ≡ headers =
            ground arith in
          record {
            response = rw (← policy-written dev nonce) (ground arith);
            request = rw (← same_headers) (rw get_header-set_header (ground arith));
            drawn = rw (← same_headers) (
                rw get_header-set_header
                  (rw get_header-set_header (ground (arith, eq_refl "x-nonce"))));
          }
    ]
