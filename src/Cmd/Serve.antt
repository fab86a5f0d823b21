-- ===== src/Cmd/Serve.antt =====
-- The site that cmd/swosh/cmd_serve.go's `serve` makes of its configuration, with `newServer` of
-- internal/web/web.go, and that the admin it provisions can log in.
use swosh.Common.{
  ◌+◌, String, ◌≡◌, sym, ap, ◌∙◌, inl, inr, true, false, none, some, if◌then◌else◌, Result, ok, err,
}
use swosh.Config.{Config}
use swosh.Db.{find_user}
use swosh.World.{World}
use swosh.Auth.Users.{admin_authorities, provision}
use swosh.Auth.Users.Laws.{login-provision}
use swosh.Web.Http.{Request, same_origin}
use swosh.Web.Server.{Server}
use swosh.Web.Login.{login}
use swosh.Web.Login.Outcome.{IsLoggedIn, login-IsLoggedIn}
use swosh.Cmd.{Machine, StartError, Started, is_nil, start}
use swosh.Cmd.Start.{Schema, Starts, start-Starts}

-- `newServer`, with what `serve` gives it; `lib` stands for the libraries that the site uses.
unfoldable pub new_server : Server → Machine → Config → Started → Server
new_server lib m c st = record lib {
  scheme = c.scheme;
  hostname = c.hostname;
  key = if is_nil st.session_key then m.random_key else st.session_key;
  outside = m.outside;
  bcrypt = m.bcrypt;
}

module _ (lib : Server) (m : Machine) (c : Config) where
  start-provision :
      (w : World) (d : Schema m c) (st : Started)
      → c.provision_users ≡ true
      → (start m c w d).0 ≡ ok st
      → (start m c w d).1 ≡ (provision m.outside m.bcrypt c.admin_username c.admin_password w).1
  start-provision w d st wanted e = of_outcome (start m c w d) e (start-Starts m c w d)
    where
      of_outcome :
          (o : Result StartError Started × World × Schema m c)
          → o.0 ≡ ok st
          → Starts m c w d o
          → o.1 ≡ (provision m.outside m.bcrypt c.admin_username c.admin_password w).1
      of_outcome (err x, w', d') e starts = cc
      of_outcome (ok t, w', d') e (migrated, reached, inl (unwanted, same), schema) =
          absurd (cc (wanted, unwanted))
      of_outcome (ok t, w', d') e (migrated, reached, inr p, schema) = ap (λ x. x.1) (sym p)

  -- After a start of `serve` that goes well and provisions the admin under a name that was free, a
  -- same-origin login with the configured name and password, if it comes next, answers 303 and
  -- sets the cookie of a session of a user with the admin authorities, if bcrypt makes a hash of
  -- the password and takes the password for it, and neither statement fails.
  pub start-login :
      (w : World) (d : Schema m c) (st : Started) (h : String) (r : Request)
      → c.provision_users ≡ true
      → (start m c w d).0 ≡ ok st
      → find_user c.admin_username w.users ≡ none
      → m.bcrypt.generate w.draws c.admin_password ≡ some h
      → m.bcrypt.matches h c.admin_password ≡ true
      → m.outside.down w.statements ≡ false
      → m.outside.down (w.statements + 1) ≡ false
      → same_origin r ≡ true
      → r.post_form "username" ≡ some c.admin_username
      → r.post_form "password" ≡ some c.admin_password
      → (here : IsLoggedIn
          (new_server lib m c st)
          r
          (start m c w d).1
          (login (new_server lib m c st) r (start m c w d).1).0)
        × (here.user.authorities ≡ admin_authorities)
  unfolding new_server
  start-login w d st h r wanted e free made fits up up' origin name password =
      let (u, accepted, authorities) =
        login-provision m.outside m.bcrypt c.admin_username c.admin_password h w made fits free up
          up' in
      let there = start-provision w d st wanted e in
      let (here, same) =
        login-IsLoggedIn (new_server lib m c st) r (start m c w d).1 u origin
          (rw (name, password, there) accepted) in
      (here, ap (λ v. v.authorities) same ∙ authorities)
