-- ===== src/Web/Login/Outcome.antt =====
-- What a login of internal/web/authn.go answers.
use Prim.Native.String.{String}
use swosh.Common.Text.{or_empty}
use swosh.Common.{
  ◌+◌, ◌≡◌, refl, ◌⊎◌, inl, inr, true, some, ◌||◌, [], ◌∷◌, ◌==◌, if◌then◌else◌, Bool-cases, Result,
  ok, err,
}
use swosh.Db.{User}
use swosh.World.Store
use swosh.World.{World, now, nonce}
use swosh.Auth.Session
use swosh.Auth.Session.{Session}
use swosh.Auth.Users
use swosh.Auth.Users.{LoginError, bad_credentials, database}
use swosh.Auth.Users.Laws.{Passes, login_iff}
use swosh.Web.Http.{Page, header_of, Request, Response, http_error, redirect_to, same_origin}
use swosh.Web.Server.{Server, request_lang, request_theme, render_status}
use swosh.Web.Authn.Genuine.{SameTables, get_user_sound}
use swosh.Web.Login.{session_ttl, session_cookie_of, no_store, logged_in, login, local_path}
use swosh.Web.Login.Local.{IsOnSite}
use swosh.Web.Login.Moved.{next-IsOnSite}
use swosh.Common.Text.Location.{location}

-- The page that a login asks for, or the admin pages.
abbrev pub sent_on : Request → String
sent_on r =
    let next = local_path (or_empty (r.post_form "next")) in if next == "" then "/admin" else next

module _ (s : Server) where
  -- The answer to a login that succeeds: the cookie of a new session of the user, which ends
  -- twelve hours after the time of the request, and a redirect on this site.
  pub record IsLoggedIn (r : Request) (w : World) (resp : Response) : Type 0 where
    pub user : User
    pub passes :
        Passes s.outside s.bcrypt
          (or_empty (r.post_form "username"))
          (or_empty (r.post_form "password"))
          w
          user
    pub origin : same_origin r ≡ true
    pub cookie :
        resp.cookies
        ≡ session_cookie_of s
            (Session.encode s.crypto s.key (
              Session.new_session s.crypto s.key user.username user.password
                (s.outside.clock w.readings + session_ttl)
                (s.outside.rand_nonce w.draws)))
            (Session.new_session s.crypto s.key user.username user.password
              (s.outside.clock w.readings + session_ttl)
              (s.outside.rand_nonce w.draws)).expires
          ∷ []
    pub status : resp.status ≡ 303
    pub place : header_of "Location" resp.headers ≡ some (location (sent_on r))
    pub on_site : IsOnSite (location (sent_on r))

  -- No cookie is set, and the answer is an error.
  pub record IsTurnedAway (resp : Response) : Type 0 where
    pub cookies : resp.cookies ≡ []
    pub status : (resp.status ≡ 401) ⊎ (resp.status ≡ 403) ⊎ (resp.status ≡ 500)

  abbrev pub LoginOutcome : Request → World → Response × World → Type 0
  LoginOutcome r w outcome =
      (IsLoggedIn r w outcome.0 ⊎ IsTurnedAway outcome.0) × SameTables w outcome.1

  bad_login-IsTurnedAway :
      (r : Request) (p : Page) → IsTurnedAway (render_status s r 401 p (no_store s))
  unfolding render_status http_error
  bad_login-IsTurnedAway r p =
      elim (Bool-cases (s.executes (request_lang s r) (request_theme r) p)) [
        | inl shown ↦ rw shown (record { cookies = refl; status = inl refl })
        | inr fails ↦ rw fails (record { cookies = refl; status = inr (inr refl) })
      ]

  login-SameTables :
      (name password : String) (w : World)
      → SameTables w (Users.login s.outside s.bcrypt name password w).1
  unfolding Users.login
  login-SameTables name password w = get_user_sound s.outside name w

  login-readings :
      (name password : String) (w : World)
      → ((Users.login s.outside s.bcrypt name password w).1.readings ≡ w.readings)
        × ((Users.login s.outside s.bcrypt name password w).1.draws ≡ w.draws)
  unfolding Users.login Store.get_user_by_username
  login-readings name password w = elim (Bool-cases (s.outside.down w.statements)) [
    | inl fails ↦ rw fails (refl, refl)
    | inr runs ↦ rw runs (refl, refl)
  ]

  logged_in-IsLoggedIn :
      (r : Request) (w w' : World) (u : User)
      → same_origin r ≡ true
      → w'.readings ≡ w.readings
      → w'.draws ≡ w.draws
      → Passes s.outside s.bcrypt
          (or_empty (r.post_form "username"))
          (or_empty (r.post_form "password"))
          w
          u
      → (here : IsLoggedIn r w
          (logged_in s r (local_path (or_empty (r.post_form "next"))) (ok u) w').0)
        × (here.user ≡ u)
  unfolding now nonce redirect_to
  logged_in-IsLoggedIn r w w' u origin clock draws passes = (
    record {
      user = u;
      passes = passes;
      origin = origin;
      cookie = rw (← clock) (rw (← draws) refl);
      status = refl;
      place = elim (Bool-cases (r.method == "GET" || r.method == "HEAD")) [
        | inl typed ↦ rw typed refl
        | inr plain ↦ rw plain refl
      ];
      on_site = next-IsOnSite (or_empty (r.post_form "next"));
    },
    refl,
  )

  logged_in-Outcome :
      (r : Request) (w w' : World) (o : Result LoginError User)
      → same_origin r ≡ true
      → SameTables w w'
      → w'.readings ≡ w.readings
      → w'.draws ≡ w.draws
      → ((u : User)
          → o ≡ ok u
          → Passes s.outside s.bcrypt
              (or_empty (r.post_form "username"))
              (or_empty (r.post_form "password"))
              w
              u)
      → LoginOutcome r w (logged_in s r (local_path (or_empty (r.post_form "next"))) o w')
  unfolding now nonce redirect_to http_error render_status
  logged_in-Outcome r w w' (err bad_credentials) origin same clock draws passes =
      (inr (bad_login-IsTurnedAway r _), same)
  logged_in-Outcome r w w' (err (database e)) origin same clock draws passes =
      (inr (record { cookies = refl; status = inr (inr refl) }), same)
  logged_in-Outcome r w w' (ok u) origin same clock draws passes = (
    inl (logged_in-IsLoggedIn r w w' u origin clock draws (passes u refl)).0,
    record { links = same.links; users = same.users },
  )

  pub login-Outcome : (r : Request) (w : World) → LoginOutcome r w (login s r w)
  unfolding login http_error
  login-Outcome r w = elim (Bool-cases (same_origin r)) [
    | inr cross ↦
        rw (cross, login)
          (
            inr (record { cookies = refl; status = inr (inl refl) }),
            record { links = refl; users = refl },
          )
    | inl origin ↦
        rw (origin, login)
          (logged_in-Outcome r w _ _ origin
            (login-SameTables (or_empty (r.post_form "username"))
              (or_empty (r.post_form "password")) w)
            (login-readings (or_empty (r.post_form "username")) (or_empty (r.post_form "password"))
              w).0
            (login-readings (or_empty (r.post_form "username")) (or_empty (r.post_form "password"))
              w).1
            (λ u e. (login_iff s.outside s.bcrypt _ _ w u).0 e))
  ]

  -- A same-origin login that `Login` accepts is answered as one.
  pub login-IsLoggedIn :
      (r : Request) (w : World) (u : User)
      → same_origin r ≡ true
      → (Users.login s.outside s.bcrypt
          (or_empty (r.post_form "username"))
          (or_empty (r.post_form "password"))
          w).0
        ≡ ok u
      → (here : IsLoggedIn r w (login s r w).0) × (here.user ≡ u)
  unfolding login
  login-IsLoggedIn r w u origin accepted =
      let name = or_empty (r.post_form "username") in
      let password = or_empty (r.post_form "password") in
      let (clock, draws) = login-readings name password w in
      rw (origin, login)
        (rw accepted (
          logged_in-IsLoggedIn r w (Users.login s.outside s.bcrypt name password w).1 u origin clock
            draws ((login_iff s.outside s.bcrypt name password w u).0 accepted)))
