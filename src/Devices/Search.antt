-- ===== src/Devices/Search.antt =====
-- The search of backend/apps/devices/ui/pages/page.tsx as a machine of events. Each change of the
-- search drops the running timer and starts a new one; a timer that runs out asks for the devices,
-- and so do a saved dialog and a device that was removed, at once. Requests are answered in any order.
use nexus_mini.Prelude.{
  ℕ, zero, suc, String, ◌≡◌, refl, Bool, true, false, List, [], ◌∷◌, Option, none, some, ◌==◌,
  if◌then◌else◌,
}
use nexus_mini.Runtime.{Answer, ok}
use nexus_mini.Devices.{Page, Device, initial, loaded}

pub record Search : Type 0 where
  pub page : Page
  pub timer : Option String
  pub waiting : List String

-- The first effect starts a timer for the empty search.
abbrev pub opened : Search
opened = record { page = initial; timer = some ""; waiting = [] }

pub data SearchEvent : Type 0 where
  type_search : String → SearchEvent
  timer_fires saves deletes : SearchEvent
  answered : ℕ → Answer (List Device) → SearchEvent

abbrev pub send : Option String → Search → Search
send none s = s
send (some query) s = record s { timer = none; waiting = query ∷ s.waiting }

-- The requests without the n-th newest.
abbrev pub without : ℕ → List String → List String
without n [] = []
without zero (x ∷ xs) = xs
without (suc n) (x ∷ xs) = x ∷ without n xs

abbrev pub is_waiting : ℕ → List String → Bool
is_waiting n [] = false
is_waiting zero (x ∷ xs) = true
is_waiting (suc n) (x ∷ xs) = is_waiting n xs

unfoldable pub happen : Search → SearchEvent → Search
unfolding loaded
happen s (type_search q) =
    if q == s.page.q then s else record s { page = record (s.page) { q = q }; timer = some q }
happen s timer_fires = send s.timer s
happen s saves = record s { page = record (s.page) { form = none }; waiting = s.page.q ∷ s.waiting }
happen s deletes = record s { waiting = s.page.q ∷ s.waiting }
happen s (answered n a) =
    if is_waiting n s.waiting
    then record s { page = loaded a s.page; waiting = without n s.waiting }
    else s

unfoldable pub happens : Search → List SearchEvent → Search
unfolding happen
happens s [] = s
happens s (e ∷ es) = happens (happen s e) es

-- Two searches are asked for, the second before the first is answered. If the second is answered
-- first, then in the end the page shows the devices of the first under the text of the second.
pub late_devices :
    (a b : String) (xs ys : List Device)
    → (a == "") ≡ false
    → (b == a) ≡ false
    → let s = happens opened (
        type_search a
        ∷ timer_fires
        ∷ type_search b
        ∷ timer_fires
        ∷ answered 0 (ok ys)
        ∷ answered 0 (ok xs)
        ∷ []) in
      (s.page.q ≡ b) × (s.page.devices ≡ some xs) × (s.waiting ≡ [])
unfolding happens
late_devices a b xs ys e f = rw e (rw f (refl, refl, refl))
