-- ===== src/Addresses/Forms.antt =====
-- The two forms of provena-web/src/app/account/addresses/page.tsx over histories of events.
use provena.Base.{
  ℕ, suc, ◌+◌, ◌≤◌, String, Bool, true, false, ◌&&◌, not, Option, none, some, List, [], ◌∷◌, ◌≡◌,
  ◌≢◌, inl, inr, refl, sym, ap, subst, arith, ◌==◌, string_eq, nat_eq, eq_iff, if_cases, All, Any,
  keep, length, is_empty, Bool-cases, if◌then◌else◌,
}
use provena.Types.Address.{Address}
use provena.Addresses.{
  AddressesPage, initial, Event, press_add, press_first, cancel_add, created, cancel_edit, updated,
  press_edit, fill_add, fill_edit, listed, on_event, is_edited, offers_add, offers_first, is_given,
}

unfoldable pub run : List Event → AddressesPage → AddressesPage
run [] p = p
run (ev ∷ evs) p = run evs (on_event ev p)

-- No two addresses have the same identifier.
abbrev pub Distinct : List Address → Type 0
Distinct [] = Unit
Distinct (addr ∷ addresses) = All (λ (b : Address). b.id ≢ addr.id) addresses × Distinct addresses

abbrev pub HasEdited : Option Address → List Address → Type 0
HasEdited none addresses = Unit
HasEdited (some e) addresses = Any (λ (addr : Address). addr.id ≡ e.id) addresses

-- What can happen to a page: a button is pressed only where it is, and an answer has the addresses
-- once each, with the one that is edited.
abbrev pub Possible : Event → AddressesPage → Type 0
Possible press_add p = offers_add p ≡ true
Possible press_first p =
    (p.is_pending ≡ false) × (is_empty p.addresses ≡ true) × (p.show_form ≡ false)
Possible (press_edit addr) p = (p.is_pending ≡ false) × Any (λ a. a ≡ addr) p.addresses
Possible (listed addresses) p = Distinct addresses × HasEdited p.editing addresses
Possible cancel_add p = Unit
Possible created p = Unit
Possible cancel_edit p = Unit
Possible updated p = Unit
Possible (fill_add key value) p = Unit
Possible (fill_edit key value) p = Unit

abbrev pub Course : List Event → AddressesPage → Type 0
Course [] p = Unit
Course (ev ∷ evs) p = Possible ev p × Course evs (on_event ev p)

-- The forms that the page shows: the one for a new address, and those in the list.
unfoldable pub open_forms : AddressesPage → ℕ
open_forms p =
    (if p.show_form then 1 else 0)
    + (if p.is_pending then 0 else length (keep (is_edited p.editing) p.addresses))

abbrev Alone : Bool → Option Address → Bool → List Address → Type 0
Alone show none pending addresses = Unit
Alone show (some e) pending addresses =
    (show ≡ false) × (pending ≡ false) × Any (λ (addr : Address). addr.id ≡ e.id) addresses

abbrev Sound : AddressesPage → Type 0
Sound p = Distinct p.addresses × Alone p.show_form p.editing p.is_pending p.addresses

Any-ids :
    (addr : Address) (l : List Address)
    → Any (λ a. a ≡ addr) l
    → Any (λ (a : Address). a.id ≡ addr.id) l
Any-ids addr [] h = h
Any-ids addr (a ∷ l) (inl e) = inl (ap (λ (b : Address). b.id) e)
Any-ids addr (a ∷ l) (inr h) = inr (Any-ids addr l h)

none_edited :
    (show pending : Bool) (editing : Option Address) (l l' : List Address)
    → Alone show editing pending l
    → Distinct l'
    → HasEdited editing l'
    → Alone show editing false l'
none_edited show pending none l l' h d k = tt
none_edited show pending (some e) l l' (s, pend, m) d k = (s, refl, k)

Alone-empty :
    (show pending : Bool) (editing : Option Address) (l : List Address)
    → Alone show editing pending l
    → is_empty l ≡ true
    → Alone true editing pending l
Alone-empty show pending none l h e = tt
Alone-empty show pending (some a) [] (s, p, m) e = elim m [ ]
Alone-empty show pending (some a) (b ∷ l) h e = ground (arith, e)

Alone-add :
    (show pending : Bool) (editing : Option Address) (l : List Address)
    → not show && not (is_given editing) ≡ true
    → Alone true editing pending l
Alone-add show pending none l e = tt
Alone-add show pending (some a) l e = ground (arith, e)

Alone-close :
    (show pending : Bool) (editing : Option Address) (l : List Address)
    → Alone show editing pending l
    → Alone false editing pending l
Alone-close show pending none l h = tt
Alone-close show pending (some a) l (s, loaded, m) = (refl, loaded, m)

on_event-Sound : (ev : Event) (p : AddressesPage) → Possible ev p → Sound p → Sound (on_event ev p)
unfolding on_event offers_add
on_event-Sound press_add p can (d, h) =
    (d, Alone-add p.show_form p.is_pending p.editing p.addresses can)
on_event-Sound press_first p (loaded, empty, shut) (d, h) =
    (d, Alone-empty p.show_form p.is_pending p.editing p.addresses h empty)
on_event-Sound (press_edit addr) p (loaded, m) (d, h) =
    (d, (refl, loaded, Any-ids addr p.addresses m))
on_event-Sound (listed l) p (d', k) (d, h) =
    (d', none_edited p.show_form p.is_pending p.editing p.addresses l h d' k)
on_event-Sound cancel_add p can (d, h) =
    (d, Alone-close p.show_form p.is_pending p.editing p.addresses h)
on_event-Sound created p can (d, h) =
    (d, Alone-close p.show_form p.is_pending p.editing p.addresses h)
on_event-Sound cancel_edit p can (d, h) = (d, tt)
on_event-Sound updated p can (d, h) = (d, tt)
on_event-Sound (fill_add key value) p can h = h
on_event-Sound (fill_edit key value) p can h = h

run-Sound : (evs : List Event) (p : AddressesPage) → Course evs p → Sound p → Sound (run evs p)
unfolding run
run-Sound [] p c h = h
run-Sound (ev ∷ evs) p (can, c) h = run-Sound evs (on_event ev p) c (on_event-Sound ev p can h)

edited_none :
    (id : String) (l : List Address)
    → All (λ (b : Address). b.id ≢ id) l
    → length (keep (λ (a : Address). id == a.id) l) ≡ 0
edited_none id [] h = refl
edited_none id (a ∷ l) (ne, h) = ground (arith, edited_none id l h, eq_iff id a.id)

All-not-Any :
    (id : String) (l : List Address)
    → All (λ (b : Address). b.id ≢ id) l
    → ¬ Any (λ (b : Address). b.id ≡ id) l
All-not-Any id [] h m = m
All-not-Any id (a ∷ l) (ne, h) (inl e) = ne e
All-not-Any id (a ∷ l) (ne, h) (inr m) = All-not-Any id l h m

edited_once :
    (e : Address) (l : List Address)
    → Distinct l
    → Any (λ (a : Address). a.id ≡ e.id) l
    → length (keep (is_edited (some e)) l) ≡ 1
edited_once e [] d m = elim m [ ]
edited_once e (a ∷ l) (ne, d) (inl same) =
    let others = subst (λ id. All (λ (b : Address). b.id ≢ id) l) same ne in
    rw ((eq_iff e.id a.id).1 (sym same)) (ap suc (edited_none e.id l others))
edited_once e (a ∷ l) (ne, d) (inr m) =
    if_cases (λ k. length k ≡ 1) (e.id == a.id)
      (λ same. absurd (
        All-not-Any a.id l ne
          (subst (λ id. Any (λ (b : Address). b.id ≡ id) l) ((eq_iff e.id a.id).0 same) m)))
      (λ other. edited_once e l d m)

edited_nobody : (l : List Address) → length (keep (is_edited none) l) ≡ 0
edited_nobody [] = refl
edited_nobody (a ∷ l) = edited_nobody l

counted :
    (show pending : Bool) (editing : Option Address) (l : List Address)
    → Distinct l
    → Alone show editing pending l
    → ((if show then 1 else 0) + (if pending then 0 else length (keep (is_edited editing) l)) ≤ 1)
      × ((not show && not (is_given editing)) ≡ (
          (if show then 1 else 0) + (if pending then 0 else length (keep (is_edited editing) l))
          == 0))
counted show pending none l d h = ground (arith, edited_nobody l)
counted show pending (some e) l d (shut, loaded, m) =
    ground (arith, shut, loaded, edited_once e l d m)

-- After any history of events in which a button is pressed only where it is, and every answer with
-- the list has each address once and the one that is edited, the page shows one form at most, and
-- the header's button for a new address is there exactly when it shows none.
pub run-open_forms :
    (evs : List Event)
    → Course evs initial
    → (open_forms (run evs initial) ≤ 1)
      × (offers_add (run evs initial) ≡ (open_forms (run evs initial) == 0))
unfolding open_forms offers_add
run-open_forms evs c =
    let p = run evs initial in
    let (d, h) = run-Sound evs initial c (tt, tt) in
    counted p.show_form p.is_pending p.editing p.addresses d h

-- Whoever edits an address whose deletion is on its way is left, once the list comes without it,
-- with no form and without the header's button for a new address; the button for a first address is
-- there exactly when no other address is left.
pub edit_deleted :
    (addr : Address) (addresses : List Address) (p : AddressesPage)
    → All (λ (b : Address). b.id ≢ addr.id) addresses
    → (open_forms (run (press_edit addr ∷ listed addresses ∷ []) p) ≡ 0)
      × (offers_add (run (press_edit addr ∷ listed addresses ∷ []) p) ≡ false)
      × (offers_first (run (press_edit addr ∷ listed addresses ∷ []) p) ≡ is_empty addresses)
unfolding open_forms offers_add offers_first run on_event
edit_deleted addr addresses p h = (
  ground (arith, edited_none addr.id addresses h),
  refl,
  ground (arith, Bool-cases (is_empty addresses)),
)
