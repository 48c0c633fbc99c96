-- ===== src/Session/Store/Agreement.antt =====
-- The store of provena-web/src/store/auth.ts and the cookies that its calls leave: the two agree.
use provena.Base.{
  String, Bool, true, false, Option, none, some, List, [], ◌∷◌, ◌≡◌, sym, subst, ◌∙◌, ap, is_blank,
  if◌then◌else◌,
}
use provena.Types.Auth.{UserProfile}
use provena.Session.Gate.{Cookies}
use provena.Session.Sync.{MeAnswer, Request, post, delete, proto}
use provena.Session.Sync.Bearer.{bearer, NoLeadingSpace, strip_bearer-bearer}
use provena.Session.Sync.Verified.{signed_out, verdict, Honest, cookies-post, cookies-delete}
use provena.Session.Jar.{CookieJar, store_all, cookies_of}
use provena.Session.Store.{
  AuthState, initial, Call, sync_session_cookies, clear_session_cookies, login, logout,
  set_access_token, set_user, initialise, resync,
}

-- A token as the API issues them.
abbrev pub IsToken : String → Type 0
IsToken token = (is_blank token ≡ false) × NoLeadingSpace token

abbrev pub Owned : Option String → Type 0
Owned none = Unit
Owned (some token) = IsToken token

-- The browser, the API's answer to each token, and what the server sees of the page's address.
module _ (browser : CookieJar) (me : String → MeAnswer) (page : Request) (secure_page : Bool) where
  open browser use {Jar}

  -- `fetch('/session-sync', …)`, where it gets through. Where it throws, which the store ignores, the
  -- cookies stay as they are; that case is left out.
  pub perform : Call → Jar → Jar
  perform (sync_session_cookies token) jar =
      store_all browser secure_page
        (post me (record page { authorization = some (bearer token) })).cookies jar
  perform clear_session_cookies jar = store_all browser secure_page delete.cookies jar

  unfoldable pub perform_all : List Call → Jar → Jar
  perform_all [] jar = jar
  perform_all (call ∷ calls) jar = perform_all calls (perform call jar)

  -- The cookies that the API's answer to the store's token asks for.
  abbrev pub expected : Option String → Cookies
  expected none = signed_out
  expected (some token) = verdict (me token)

  pub perform-clear :
      (jar : Jar) → cookies_of browser (perform clear_session_cookies jar) ≡ signed_out
  unfolding perform
  perform-clear jar = cookies-delete browser jar secure_page

  pub perform-sync :
      (token : String) (jar : Jar)
      → Honest page secure_page
      → IsToken token
      → cookies_of browser (perform (sync_session_cookies token) jar) ≡ verdict (me token)
  unfolding perform proto
  perform-sync token jar h (full, plain) =
      cookies-post browser jar secure_page me (record page { authorization = some (bearer token) })
        h
      ∙ ap (λ t. if is_blank t then signed_out else verdict (me t))
          (strip_bearer-bearer token plain)
      ∙ ap (λ b. if b then signed_out else verdict (me token)) full

-- A token is issued for an account, and the API answers it with the account's profile. A browser, what
-- the server sees of the page's address, and the issuing of tokens.
module _ (browser : CookieJar) (page : Request) (secure_page : Bool) {Account : Type 0}
    (account : String → Account) where
  open browser use {Jar}

  -- The API's profiles; they change.
  abbrev pub Profiles : Type 0
  Profiles = Account → MeAnswer

  abbrev pub me_of : Profiles → String → MeAnswer
  me_of profiles token = profiles (account token)

  -- The store, the browser's cookies and the API's profiles.
  pub record World : Type 0 where
    pub store : AuthState
    pub jar : Jar
    pub profiles : Profiles

  -- A method of the store, run in a browser whose calls of `/session-sync` get through.
  abbrev pub settle : AuthState × List Call → Jar → Profiles → World
  settle (s, calls) jar profiles = record {
    store = s;
    jar = perform_all browser (me_of profiles) page secure_page calls jar;
    profiles = profiles;
  }

  -- What can happen once the store is initialised. A token is refreshed for the same account; the API
  -- changes profiles, and then a page calls `setUser`.
  pub data Step (w : World) : World → Type 0 where
    logs_in :
        (user : UserProfile) (token : String)
        → IsToken token
        → Step w (settle (login true user token w.store) w.jar w.profiles)
    logs_out : Step w (settle (logout true w.store) w.jar w.profiles)
    refreshes :
        (old token : String)
        → w.store.access_token ≡ some old
        → IsToken token
        → account token ≡ account old
        → Step w (record w { store = set_access_token token w.store })
    sets_user :
        (user : UserProfile) (profiles : Profiles)
        → Step w (settle (set_user true user w.store) w.jar profiles)

  pub data Reach (w : World) : World → Type 0 where
    here : Reach w w
    step : {u v : World} → Reach w u → Step u v → Reach w v

  -- The cookies that the API's answer to the store's token asks for now.
  abbrev pub wanted : World → Cookies
  wanted w = expected browser (me_of w.profiles) page secure_page w.store.access_token

  pub record Inv (w : World) : Type 0 where
    pub agrees : cookies_of browser w.jar ≡ wanted w
    pub owned : Owned w.store.access_token

  module _ (honest : Honest page secure_page) where
    -- Syncing again after a change of profiles.
    resync-expected :
        (token : Option String) (jar : Jar) (before after : Profiles)
        → cookies_of browser jar ≡ expected browser (me_of before) page secure_page token
        → Owned token
        → cookies_of browser (perform_all browser (me_of after) page secure_page (resync token) jar)
          ≡ expected browser (me_of after) page secure_page token
    unfolding resync perform_all
    resync-expected none jar before after e h = e
    resync-expected (some token) jar before after e h =
        rw (h.0) (perform-sync browser (me_of after) page secure_page token jar honest h)

    Step-Inv : (w : World) {v : World} → Step w v → Inv w → Inv v
    unfolding login logout set_access_token set_user perform_all
    Step-Inv w (logs_in user token h) v = record {
      agrees = perform-sync browser (me_of w.profiles) page secure_page token w.jar honest h;
      owned = h;
    }
    Step-Inv w logs_out v = record {
      agrees = perform-clear browser (me_of w.profiles) page secure_page w.jar;
      owned = tt;
    }
    Step-Inv w (refreshes old token e h same) v = record {
      agrees =
          subst
            (λ o. cookies_of browser w.jar ≡ expected browser (me_of w.profiles) page secure_page o)
            e v.agrees
          ∙ ap (λ a. verdict (w.profiles a)) (sym same);
      owned = h;
    }
    Step-Inv w (sets_user user profiles) v = record {
      agrees = resync-expected w.store.access_token w.jar w.profiles profiles v.agrees v.owned;
      owned = v.owned;
    }

    Reach-Inv : {w v : World} → Reach w v → Inv w → Inv v
    Reach-Inv here i = i
    Reach-Inv (step {u} r s) i = Step-Inv u s (Reach-Inv r i)

    -- However the store is initialised, it starts with cookies that agree with it.
    initialise-Inv :
        (refreshed : Option String) (profile : String → Option UserProfile) (jar : Jar)
        (profiles : Profiles)
        → Owned refreshed
        → Inv (settle (initialise true refreshed profile initial) jar profiles)
    unfolding initialise perform_all
    initialise-Inv none profile jar profiles h = record {
      agrees = perform-clear browser (me_of profiles) page secure_page jar;
      owned = tt;
    }
    initialise-Inv (some access) profile jar profiles h = by_profile (profile access)
      where
        by_profile :
            (answer : Option UserProfile)
            → Inv (
                settle
                  (elim answer [
                    | none ↦ (record initial { is_initialised = true }, clear_session_cookies ∷ [])
                    | some user ↦ (
                      record {
                        user = some user;
                        access_token = some access;
                        is_initialised = true;
                      },
                      sync_session_cookies access ∷ [],
                    )
                  ])
                  jar
                  profiles)
        by_profile none = record {
          agrees = perform-clear browser (me_of profiles) page secure_page jar;
          owned = tt;
        }
        by_profile (some user) = record {
          agrees = perform-sync browser (me_of profiles) page secure_page access jar honest h;
          owned = h;
        }

    -- After any history that begins with `initialise` and goes on with sign-ins, sign-outs, refreshed
    -- tokens and changes of the API's profiles that are each followed by `setUser`, the gate's cookies
    -- are those of the store's token: none if it has none, and otherwise what the API now says of
    -- it. A refreshed token, which is not synced, is one for the same account, the API answers a
    -- token by its account, every call of `/session-sync` gets through and is finished, and the
    -- browser holds whatever cookies at the start.
    pub Reach-initialise :
        (refreshed : Option String) (profile : String → Option UserProfile) (jar : Jar)
        (profiles : Profiles) (w : World)
        → Owned refreshed
        → Reach (settle (initialise true refreshed profile initial) jar profiles) w
        → cookies_of browser w.jar ≡ wanted w
    Reach-initialise refreshed profile jar profiles w h r =
        (Reach-Inv r (initialise-Inv refreshed profile jar profiles h)).agrees
