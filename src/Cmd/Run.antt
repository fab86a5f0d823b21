-- ===== src/Cmd/Run.antt =====
-- cmd/swosh/cmd_serve.go: the running of the two servers and of the expiry job, and their end.
pub mod Ends
pub mod Outcome
use swosh.Common.{
  ℕ, zero, suc, ◌+◌, ◌-◌, ◌*◌, ◌/◌, ◌%◌, ◌^◌, ◌≤◌, ◌<◌, Char, code, String, len, ◌≡◌, refl, sym, ap,
  ◌∙◌, subst, ◌≢◌, ◌↔◌, ◌⊎◌, inl, inr, Bool, true, false, not, ◌&&◌, ◌||◌, Option, none, some, List,
  [], ◌∷◌, ◌++◌, map, arith, ◌==◌, eq_iff, eq_refl, ltb, leb, eqb, if◌then◌else◌, ltb→lt, lt→ltb,
  leb→le, eqb_iff, Bool-cases, is_some, Option-cases, Result, ok, err, Result-cases, length, get_or,
  all, length-append, All, contains,
}
use swosh.World.{World}
use swosh.Expiry.{sweep}
use swosh.Swish.Qr.{Lru, Swish}
use swosh.Web.Http.{Request, Response}
use swosh.Web.Server.{Server}
use swosh.Web.Routes.{Site}
use swosh.Web.Mux.{respond}

-- What `runServer` wraps: the error of `Listen`, of `Serve` or of `Shutdown`.
pub data ServeError : Type 0 where
  listen_failed serve_failed shutdown_failed : ServeError

-- Where a call of `runServer` stands. While it serves and while it stops, `errc` may already hold
-- an error other than `ErrServerClosed`, with which `Serve` has ended by itself.
pub data Phase : Type 0 where
  listening : Phase
  serving stopping : (broken : Bool) → Phase
  returned : Option ServeError → Phase

abbrev pub is_returned : Phase → Bool
is_returned (returned e) = true
is_returned p = false

-- What `runServer` does next, given whether its context is cancelled. With both channels of its
-- `select` ready it takes either. As documented, `Serve` gives `ErrServerClosed` after a shutdown
-- if it has not ended before.
pub data ServerStep (cancelled : Bool) : Phase → Phase → Type 0 where
  listen_fails : ServerStep cancelled listening (returned (some listen_failed))
  listens : ServerStep cancelled listening (serving false)
  serve_fails :
      {b : Bool} → b ≡ true → ServerStep cancelled (serving b) (returned (some serve_failed))
  stops : {b : Bool} → cancelled ≡ true → ServerStep cancelled (serving b) (stopping b)
  shutdown_fails : {b : Bool} → ServerStep cancelled (stopping b) (returned (some shutdown_failed))
  closes_badly :
      {b : Bool} → b ≡ true → ServerStep cancelled (stopping b) (returned (some serve_failed))
  closes : {b : Bool} → b ≡ false → ServerStep cancelled (stopping b) (returned none)

-- `Serve` ends by itself, as when its listener fails.
pub data Breaks : Phase → Phase → Type 0 where
  serving_breaks : {b : Bool} → Breaks (serving b) (serving true)
  stopping_breaks : {b : Bool} → Breaks (stopping b) (stopping true)

-- Whether handlers of a server may run: a server that failed may still have requests open, and
-- one that `Shutdown` has closed has none.
abbrev pub is_open : Phase → Bool
is_open listening = false
is_open (serving b) = true
is_open (stopping b) = true
is_open (returned none) = false
is_open (returned (some listen_failed)) = false
is_open (returned (some e)) = true

-- errgroup's group: what a function of it returned is noted, its context may be cancelled, and
-- `Wait` has an error or none.
pub record Group : Type 1 where
  pub State : Type 0
  pub new : State
  pub note : Option ServeError → State → State
  pub cancelled : State → Bool
  pub wait : State → Option ServeError

abbrev pub first_error : Option ServeError → Option ServeError → Option ServeError
first_error none e = e
first_error (some e) later = some e

-- As documented: the first error cancels the context and is the one that `Wait` returns.
pub record IsGroup (g : Group) : Type 0 where
  pub wait-new : g.wait g.new ≡ none
  pub wait-note :
      (e : Option ServeError) (t : g.State) → g.wait (g.note e t) ≡ first_error (g.wait t) e
  pub cancelled-new : g.cancelled g.new ≡ false
  pub cancelled-note :
      (e : Option ServeError) (t : g.State)
      → g.cancelled (g.note e t) ≡ (g.cancelled t || is_some e)

module _ (s : Server) (l : Lru) (swish : Swish) (files : Request → Response) (g : Group) where
  -- The three functions of the group, whether the command was interrupted, and the site.
  pub record Running : Type 0 where
    pub public : Phase
    pub actuator : Phase
    pub has_job : Bool
    pub interrupted : Bool
    pub group : g.State
    pub site : Site s l swish

  abbrev pub is_cancelled : Running → Bool
  is_cancelled r = r.interrupted || g.cancelled r.group

  -- The group notes what a function has returned.
  abbrev pub noted : Phase → g.State → g.State
  noted (returned e) t = g.note e t
  noted p t = t

  -- `serve`, once the group runs
  abbrev pub launched : Site s l swish → Running
  launched site = record {
    public = listening;
    actuator = listening;
    has_job = true;
    interrupted = false;
    group = g.new;
    site = site;
  }

  -- One of the group's functions goes on to return.
  pub data Move : Running → Running → Type 0 where
    public_moves :
        (r : Running) (p : Phase)
        → ServerStep (is_cancelled r) r.public p
        → Move r (record r { public = p; group = noted p r.group })
    actuator_moves :
        (r : Running) (p : Phase)
        → ServerStep (is_cancelled r) r.actuator p
        → Move r (record r { actuator = p; group = noted p r.group })
    job_stops :
        (r : Running)
        → r.has_job ≡ true
        → is_cancelled r ≡ true
        → Move r (record r { has_job = false; group = g.note none r.group })

  -- A request is answered, the timer of the expiry job ticks, a listener fails, or the command is
  -- interrupted.
  pub data Event : Running → Running → Type 0 where
    answered :
        (r : Running) (q : Request)
        → is_open r.public ≡ true
        → Event r (record r { site = (respond s l swish files q r.site).0.1 })
    ticked :
        (r : Running)
        → r.has_job ≡ true
        → Event r (record r { site = ((sweep s.outside r.site.0).1, r.site.1) })
    public_breaks :
        (r : Running) (p : Phase) → Breaks r.public p → Event r (record r { public = p })
    actuator_breaks :
        (r : Running) (p : Phase) → Breaks r.actuator p → Event r (record r { actuator = p })
    interrupt : (r : Running) → Event r (record r { interrupted = true })

  -- With the number of moves.
  pub data Run (a : Running) : ℕ → Running → Type 0 where
    start : Run a zero a
    moved : {n : ℕ} {b c : Running} → Run a n b → Move b c → Run a (suc n) c
    passed : {n : ℕ} {b c : Running} → Run a n b → Event b c → Run a n c

  -- `g.Wait` returns.
  abbrev pub is_over : Running → Bool
  is_over r = is_returned r.public && is_returned r.actuator && not r.has_job
