-- ===== src/Settings/Saving.antt =====
-- How the settings are changed and saved (frontend/app/(portal)/settings/page.tsx).
use nexus_mini.Prelude.{
  String, ◌≡◌, refl, ap, ◌∙◌, arith, Bool, true, false, List, [], ◌∷◌, some, if◌then◌else◌,
}
use nexus_mini.Runtime.{Answer, ok, fail, Server, asked, did, run, msg}
use nexus_mini.Settings.{
  Profile, Key, name, legal_name, registration_number, tax_number, address, phone, email, website,
  get_key, set_key, Page, Request, Reply, put_profile, toast, refresh, save_profile,
}

abbrev pub same_key : Key → Key → Bool
same_key name name = true
same_key legal_name legal_name = true
same_key registration_number registration_number = true
same_key tax_number tax_number = true
same_key address address = true
same_key phone phone = true
same_key email email = true
same_key website website = true
same_key _ _ = false

get_key-set_key :
    (j k : Key) (v : String) (p : Profile)
    → get_key j (set_key k v p) ≡ (if same_key j k then v else get_key j p)
unfolding get_key set_key
get_key-set_key j k v p = ground arith

slug-set_key : (k : Key) (v : String) (p : Profile) → (set_key k v p).slug ≡ p.slug
unfolding set_key
slug-set_key k v p = ground arith

-- The inputs are changed one after the other.
pub changes : List (Key × String) → Profile → Profile
changes [] p = p
changes ((k, v) ∷ es) p = changes es (set_key k v p)

-- What was typed last into an input, or what it held.
pub last_typed : Key → List (Key × String) → String → String
last_typed j [] old = old
last_typed j ((k, v) ∷ es) old = last_typed j es (if same_key j k then v else old)

changes_lem :
    (j : Key) (es : List (Key × String)) (p : Profile)
    → (get_key j (changes es p) ≡ last_typed j es (get_key j p)) × ((changes es p).slug ≡ p.slug)
unfolding changes last_typed
changes_lem j [] p = (refl, refl)
changes_lem j ((k, v) ∷ es) p =
    let (there, slug) = changes_lem j es (set_key k v p) in
    (there ∙ ap (last_typed j es) (get_key-set_key j k v p), slug ∙ slug-set_key k v p)

module _ {W : Type 0} (server : Server Request Reply W) (t : String → String) where
  -- Saving after any changes of the inputs sends one profile: under each input what was typed into it
  -- last or what it held before, and the slug as it was. Afterwards the page is not busy; on success the
  -- visitor is told and the shell is refreshed, and on a refusal the error is shown.
  pub save_after_changes :
      (es : List (Key × String)) (p : Profile) (s : Page) (w w' : W) (a : Answer (Unit {0}))
      → let p' = changes es p in
        server w (put_profile p') ≡ (a, w')
        → ((j : Key) → get_key j p' ≡ last_typed j es (get_key j p))
          × (p'.slug ≡ p.slug)
          × (run server (save_profile t (some p')) w s ≡ record {
            value = tt;
            world = w';
            state = record s {
              err = elim a [ ok u ↦ "" | fail e ↦ msg e (t "Алдаа гарлаа") ];
              busy = false;
            };
            log =
                asked (put_profile p')
                ∷ elim a [ ok u ↦ did (toast (t "Хадгалагдлаа")) ∷ did refresh ∷ [] | fail e ↦ [] ];
          })
  unfolding save_profile
  save_after_changes es p s w w' (ok u) e =
      ((λ j. (changes_lem j es p).0), (changes_lem name es p).1, rw e refl)
  save_after_changes es p s w w' (fail x) e =
      ((λ j. (changes_lem j es p).0), (changes_lem name es p).1, rw e refl)
