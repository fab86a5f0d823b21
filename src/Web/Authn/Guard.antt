-- ===== src/Web/Authn/Guard.antt =====
-- What `admin` of internal/web/authn.go has established when it lets a request through.
use swosh.Common.{
  ℕ, code, String, ◌≡◌, refl, ◌⊎◌, inl, inr, true, not, ◌&&◌, ◌||◌, Option, none, some, arith, ◌==◌,
  eq_iff, Bool-cases, Result, ok, err, contains,
}
use swosh.World.{World}
use swosh.Auth.Session
use swosh.Auth.Session.{Session}
use swosh.Auth.Users.{LoginError, bad_credentials, database, role_admin}
use swosh.Web.Http.{
  Request, Response, new_response, set_header, http_error, redirect_to, is_safe_method, same_origin,
}
use swosh.Web.Server.{Server}
use swosh.Web.Authn.{
  Principal, authenticate, challenge, login_required, sent_token, AdminHandler, admit, admin, has,
}
use swosh.Web.Authn.Genuine.{SameTables, IsUser, authenticate-SameTables, authenticate_sound}
use swosh.Web.Authn.{csrf_ok}

module _ (s : Server) where
  -- What holds of a request that an admin handler is run for.
  pub record IsAdmitted (authority : String) (r : Request) (w : World) (p : Principal)
      : Type 0 where
    pub origin : same_origin r ≡ true
    pub user : IsUser s r w p
    pub role : contains p.authorities role_admin ≡ true
    pub allowed : (authority ≡ "") ⊎ (contains p.authorities authority ≡ true)
    pub csrf :
        (p.session ≡ none)
        ⊎ (is_safe_method r.method ≡ true)
        ⊎ ((sess : Session) × (p.session ≡ some sess)
            × (Session.check_csrf_token s.crypto s.key sess (sent_token s r) ≡ true))

  csrf_ok_sound :
      (r : Request) (o : Option Session)
      → csrf_ok s r o ≡ true
      → (o ≡ none)
        ⊎ (is_safe_method r.method ≡ true)
        ⊎ ((sess : Session) × (o ≡ some sess)
            × (Session.check_csrf_token s.crypto s.key sess (sent_token s r) ≡ true))
  csrf_ok_sound r none h = inl refl
  csrf_ok_sound r (some sess) h = elim (Bool-cases (is_safe_method r.method)) [
    | inl safe ↦ inr (inl safe)
    | inr unsafe ↦ inr (inr (sess, refl, rw unsafe at h))
  ]

  -- The status codes of a request that is turned away.
  abbrev pub IsRefusal : ℕ → Type 0
  IsRefusal code = (code ≡ 302) ⊎ (code ≡ 401) ⊎ (code ≡ 403) ⊎ (code ≡ 500)

  -- Either the handler runs for an admitted request, in a world with the same tables, or the
  -- request is turned away and the tables stay as they are.
  abbrev pub Guarded :
      String → AdminHandler s → Request → World → Response → Response × World → Type 0
  Guarded authority h r w base outcome =
      ((p : Principal) × (w' : World) × SameTables w w'
        × IsAdmitted authority r w p
        × (outcome ≡ h base r p w'))
      ⊎ (IsRefusal outcome.0.status × SameTables w outcome.1)

  refused :
      (authority : String) (h : AdminHandler s) (r : Request) (w w' : World)
      (base response : Response)
      → IsRefusal response.status
      → SameTables w w'
      → Guarded authority h r w base (response, w')
  refused authority h r w w' base response code same = inr (code, same)

  admit-Guarded :
      (authority : String) (h : AdminHandler s) (r : Request) (w w' : World) (base : Response)
      (o : Result LoginError (Option Principal))
      → same_origin r ≡ true
      → SameTables w w'
      → ((p : Principal) → o ≡ ok (some p) → IsUser s r w p)
      → Guarded authority h r w base (admit s authority h r base o w')
  unfolding http_error login_required challenge redirect_to
  admit-Guarded authority h r w w' base (err bad_credentials) origin same user =
      refused authority h r w w' base _ (ground arith) same
  admit-Guarded authority h r w w' base (err (database e)) origin same user =
      refused authority h r w w' base _ (ground arith) same
  admit-Guarded authority h r w w' base (ok none) origin same user =
      refused authority h r w w' base _ (ground arith) same
  admit-Guarded authority h r w w' base (ok (some p)) origin same user =
      elim (Bool-cases (not (has p role_admin) || not (authority == "") && not (has p authority))) [
        | inl lacks ↦ rw lacks (inr (ground arith, same))
        | inr may ↦ rw may (elim (Bool-cases (csrf_ok s r p.session)) [
          | inr forged ↦ rw forged (inr (ground arith, same))
          | inl fine ↦ rw fine (
              inl (
                p,
                w',
                same,
                record {
                  origin = origin;
                  user = user p refl;
                  role = ground arith;
                  allowed = ground (arith, eq_iff authority "");
                  csrf = csrf_ok_sound r p.session fine;
                },
                refl,
              ))
        ])
      ]

  -- For every handler and authority, `admin` either runs the handler, in a world with the same
  -- tables, for a same-origin request of a genuine, enabled user who has ROLE_ADMIN and the
  -- authority unless that is empty, and who, if the request is made in a session and its method is
  -- not a safe one, has sent the session's CSRF token; or it answers 302, 401, 403 or 500 and
  -- leaves the tables as they are.
  pub admin-Guarded :
      (authority : String) (h : AdminHandler s) (r : Request) (w : World)
      → Guarded authority h r w
          (set_header "Cache-Control" "no-store" new_response)
          (admin s authority h r w)
  unfolding admin
  admin-Guarded authority h r w = elim (Bool-cases (same_origin r)) [
    | inr cross ↦ rw (cross, admin) (inr (ground arith, record { links = refl; users = refl }))
    | inl origin ↦
        rw (origin, admin)
          (admit-Guarded authority h r w (authenticate s r w).1 _ (authenticate s r w).0 origin
            (authenticate-SameTables s r w) (authenticate_sound s r w))
  ]
