-- ===== src/Shell/Links.antt =====
-- The links of the bar and of the areas against the gate of provena-web/src/middleware.ts.
use provena.Base.{
  ℕ, String, Bool, true, false, Option, none, some, List, [], ◌∷◌, ◌++◌, ◌≡◌, refl, All, All-append,
  ltb, if_cases, if◌then◌else◌, is_empty, take, sym, ap, subst,
}
use provena.Types.Auth.{supplier, admin, role_text, UserProfile}
use provena.Types.Notice.{Notification}
use provena.Orders.Card.{DateParser}
use provena.Markup.{Part, text, number, link, button, field, when, hrefs}
use provena.Session.Gate.{Cookies, Outcome, next, middleware, role_area, session_area}
use provena.SignIn.Guard.Agreement.{cookies_for, cookies_with, answer_with}
use provena.Shell.Nav.{
  Bell, Age, just_now, minutes, hours, days, not_a_date, age_parts, notification_parts, list_parts,
  bell_view, count_badge, nav_view, menu_view, bell_for, time_ago, account_name,
}
use provena.Shell.Areas.{
  NavItem, admin_items, supplier_items, items_view, badge_parts, admin_view, supplier_view, Counts,
  admin_badge, supplier_badge, admin_name, email_of, supplier_name,
}

hrefs-append : (ps qs : List Part) → hrefs (ps ++ qs) ≡ hrefs ps ++ hrefs qs
hrefs-append [] qs = refl
hrefs-append (text s ∷ ps) qs = hrefs-append ps qs
hrefs-append (number n ∷ ps) qs = hrefs-append ps qs
hrefs-append (link href label ∷ ps) qs = ap (◌∷◌ href) (hrefs-append ps qs)
hrefs-append (button label disabled ∷ ps) qs = hrefs-append ps qs
hrefs-append (field label value ∷ ps) qs = hrefs-append ps qs

-- Every address that the parts link to has the same answer from the gate.
abbrev pub Answered : Outcome → Cookies → List Part → Type 0
Answered o c parts = All (λ h. middleware c h ≡ o) (hrefs parts)

module _ (o : Outcome) (c : Cookies) where
  Answered-append :
      (ps qs : List Part) → Answered o c ps → Answered o c qs → Answered o c (ps ++ qs)
  Answered-append ps qs h k =
      subst (All (λ h. middleware c h ≡ o)) (sym (hrefs-append ps qs))
        (All-append (λ h. middleware c h ≡ o) (hrefs ps) (hrefs qs) h k)

  Answered-when : (test : Bool) (ps : List Part) → Answered o c ps → Answered o c (when test ps)
  Answered-when true ps h = h
  Answered-when false ps h = tt

  Answered-badge : (n : ℕ) → Answered o c (count_badge n)
  unfolding count_badge
  Answered-badge n =
      Answered-when (ltb 0 n) _
        (if_cases (λ p. Answered o c (p ∷ [])) (ltb 9 n) (λ _. tt) (λ _. tt))

  Answered-age : (a : Age) → Answered o c (age_parts a)
  unfolding age_parts
  Answered-age just_now = tt
  Answered-age (minutes n) = tt
  Answered-age (hours n) = tt
  Answered-age (days n) = tt
  Answered-age not_a_date = tt

  Answered-list :
      (parse : DateParser) (now : ℕ) (ns : List Notification)
      → Answered o c (list_parts parse now ns)
  unfolding list_parts notification_parts
  Answered-list parse now [] = tt
  Answered-list parse now (n ∷ ns) =
      let age = age_parts (time_ago parse now n.created_at) in
      let dismiss = button "Dismiss notification" false ∷ [] in
      Answered-append (notification_parts parse now n) (list_parts parse now ns)
        (Answered-append age dismiss (Answered-age (time_ago parse now n.created_at)) tt)
        (Answered-list parse now ns)

  Answered-bell :
      (parse : DateParser) (now : ℕ) (b : Bell)
      → middleware c "/account/notifications" ≡ o
      → Answered o c (bell_view parse now b)
  unfolding bell_view
  Answered-bell parse now b h =
      let all = button "Mark all as read" b.mark_all_pending ∷ [] in
      let empty = text "No notifications yet." ∷ [] in
      let shown = list_parts parse now (take 15 b.notifications) in
      let body = if is_empty b.notifications then empty else shown in
      let settings = link "/account/notifications" "Notification settings" ∷ [] in
      let open_parts = text "Notifications" ∷ when (ltb 0 b.unread_count) all ++ body ++ settings in
      Answered-append (count_badge b.unread_count) (when b.open_ open_parts)
        (Answered-badge b.unread_count)
        (Answered-when b.open_ open_parts (
          Answered-append (when (ltb 0 b.unread_count) all ++ body) settings
            (Answered-append (when (ltb 0 b.unread_count) all) body
              (Answered-when (ltb 0 b.unread_count) all tt)
              (if_cases (Answered o c) (is_empty b.notifications) (λ _. tt)
                (λ _. Answered-list parse now (take 15 b.notifications))))
            (h, tt)))

  no_links : (n : Option ℕ) → Answered o c (badge_parts n)
  unfolding badge_parts
  no_links none = tt
  no_links (some n) = Answered-when (ltb 0 n) (number n ∷ []) tt

  Answered-items :
      (badge : String → Option ℕ) (is : List NavItem)
      → All (λ (i : NavItem). middleware c i.href ≡ o) is
      → Answered o c (items_view badge is)
  unfolding items_view
  Answered-items badge [] h = tt
  Answered-items badge (i ∷ is) (own, h) = (
    own,
    Answered-append (badge_parts (badge i.href)) (items_view badge is) (no_links (badge i.href))
        (Answered-items badge is h),
  )

-- The pages of the menu, for anyone who is signed in.
for_session : (user : UserProfile) → Answered next (cookies_for (some user)) (menu_view (some user))
unfolding menu_view middleware session_area
for_session user = (refl, (refl, (refl, (refl, tt))))

-- Whoever is signed in, or nobody, and whatever is open: with the cookies of that user the gate
-- serves every page that the bar links to.
pub nav_view-Answered :
    (parse : DateParser) (now : ℕ) (user : Option UserProfile) (b : Bell) (open_ : Bool)
    (cart_count : ℕ)
    → Answered next (cookies_for user) (nav_view parse now user b open_ cart_count)
unfolding nav_view bell_for middleware session_area menu_view
nav_view-Answered parse now none b open_ cart_count =
    let c = cookies_for none in
    let menu = menu_view none in
    let rest = button "Cart" false ∷ count_badge cart_count in
    (
      refl,
      Answered-append next c (when open_ menu) rest (Answered-when next c open_ menu (refl, tt))
          (Answered-badge next c cart_count),
    )
nav_view-Answered parse now (some user) b open_ cart_count =
    let c = cookies_for (some user) in
    let menu = menu_view (some user) in
    let rest = button "Cart" false ∷ count_badge cart_count in
    let top = bell_view parse now b ++ button (account_name (some user)) false ∷ when open_ menu in
    (
      refl,
      Answered-append next c top rest
          (Answered-append next c (bell_view parse now b)
            (button (account_name (some user)) false ∷ when open_ menu)
            (Answered-bell next c parse now b refl)
            (Answered-when next c open_ menu (for_session user)))
          (Answered-badge next c cart_count),
    )

admin_items_answered :
    (t : Bool)
    → All (λ (i : NavItem). middleware (cookies_with admin t) i.href ≡ answer_with t) admin_items
unfolding middleware role_area role_text
admin_items_answered true = (
  refl,
  (
    refl,
    (refl, (refl, (refl, (refl, (refl, (refl, (refl, (refl, (refl, (refl, (refl, tt))))))))))),
  ),
)
admin_items_answered false = (
  refl,
  (
    refl,
    (refl, (refl, (refl, (refl, (refl, (refl, (refl, (refl, (refl, (refl, (refl, tt))))))))))),
  ),
)

supplier_items_answered :
    (t : Bool)
    → All
        (λ (i : NavItem). middleware (cookies_with supplier t) i.href ≡ answer_with t)
        supplier_items
unfolding middleware role_area role_text
supplier_items_answered true = (refl, (refl, (refl, (refl, (refl, (refl, (refl, tt)))))))
supplier_items_answered false = (refl, (refl, (refl, (refl, (refl, (refl, (refl, tt)))))))

-- The navigation of an area links only to pages that the gate serves to a user of the area's role
-- with two-factor authentication on; with it off, the gate sends each of them to the security page.
pub areas-Answered :
    (trim : String → String) (user : Option UserProfile) (counts : Counts) (pending_returns : ℕ)
    (t : Bool)
    → Answered (answer_with t) (cookies_with admin t) (admin_view trim user counts)
      × Answered (answer_with t) (cookies_with supplier t) (supplier_view user pending_returns)
unfolding admin_view supplier_view
areas-Answered trim user counts pending_returns t =
    let o = answer_with t in
    let foot = text (admin_name trim user) ∷ text (email_of user) ∷ button "Sign out" false ∷ [] in
    let foot' = text (supplier_name user) ∷ text (email_of user) ∷ button "Sign out" false ∷ [] in
    (
      (
        (admin_items_answered t).0,
        Answered-append o (cookies_with admin t) (items_view (admin_badge counts) admin_items) foot
            (Answered-items o (cookies_with admin t) (admin_badge counts) admin_items
              (admin_items_answered t))
            tt,
      ),
      (
        (supplier_items_answered t).0,
        Answered-append o (cookies_with supplier t)
            (items_view (supplier_badge pending_returns) supplier_items) foot'
            (Answered-items o (cookies_with supplier t) (supplier_badge pending_returns)
              supplier_items (supplier_items_answered t))
            tt,
      ),
    )

-- Of the fixed links of the three navigations: whoever is signed in, or nobody, and whatever is open,
-- with the cookies of that user the gate serves every page that the bar links to.
-- The navigation of an area links only to pages that the gate serves to a user of the area's role
-- with two-factor authentication on; with it off, the gate sends each of them to the security page.
pub links-Answered :
    (parse : DateParser) (now : ℕ) (user : Option UserProfile) (b : Bell) (open_ : Bool)
    (cart_count : ℕ) (trim : String → String) (counts : Counts) (pending_returns : ℕ) (t : Bool)
    → Answered next (cookies_for user) (nav_view parse now user b open_ cart_count)
      × Answered (answer_with t) (cookies_with admin t) (admin_view trim user counts)
      × Answered (answer_with t) (cookies_with supplier t) (supplier_view user pending_returns)
links-Answered parse now user b open_ cart_count trim counts pending_returns t =
    let (of_admin, of_supplier) = areas-Answered trim user counts pending_returns t in
    (nav_view-Answered parse now user b open_ cart_count, of_admin, of_supplier)
