-- ===== src/Tests/Serving.antt =====
-- The theorems on a server's start, run and end, at the small machine.
use swosh.Common.{
  ℕ, ◌+◌, ◌≤◌, ◌≡◌, refl, ◌⊎◌, Bool, true, false, ◌||◌, Option, none, some, ◌==◌, if◌then◌else◌,
  is_some,
}
use swosh.Auth.Users.{admin_authorities}
use swosh.Web.Http.{Request, Response}
use swosh.Web.Login.{login}
use swosh.Web.Login.Outcome.{IsLoggedIn}
use swosh.Cmd.{started, start}
use swosh.Cmd.Serve.{new_server, start-login}
use swosh.Cmd.Run.{
  ServeError, Phase, listening, serving, stopping, returned, listens, stops, closes, Group,
  first_error, IsGroup, Running, launched, Move, public_moves, actuator_moves, job_stops, interrupt,
  Run, moved, passed, is_over,
}
use swosh.Cmd.Run.Ends.{shutdown-terminates}
use swosh.Cmd.Run.Outcome.{Ended, run-Ended, run-IsQuiet}
use swosh.Tests.{server, world, request}
use swosh.Tests.Pages.{lru, swish, site}
use swosh.Tests.Whole.{files}
use swosh.Tests.Commands.{config, machine, machine_starts}

abbrev sign_in : Request
sign_in = record request {
  method = "POST";
  path = "/login";
  basic_auth = none;
  post_form = λ name. if name == "next" then none else some "admin";
}

start-login_example :
    (here : IsLoggedIn
      (new_server server machine config (started machine config))
      sign_in
      (start machine config world false).1
      (login
        (new_server server machine config (started machine config))
        sign_in
        (start machine config world false).1).0)
    × (here.user.authorities ≡ admin_authorities)
unfolding swosh.Db.find_user swosh.Web.Http.same_origin
start-login_example =
    start-login server machine config world false (started machine config) "h:admin" sign_in refl
      machine_starts refl refl refl refl refl refl refl refl

-- A group that holds the first error.
abbrev group : Group
group = record {
  State = Option ServeError;
  new = none;
  note = λ e t. first_error t e;
  cancelled = λ t. is_some t;
  wait = λ t. t;
}

cancelled-note : (e t : Option ServeError) → is_some (first_error t e) ≡ (is_some t || is_some e)
cancelled-note e none = refl
cancelled-note e (some x) = refl

group-IsGroup : IsGroup group
group-IsGroup = record {
  wait-new = refl;
  wait-note = λ e t. refl;
  cancelled-new = refl;
  cancelled-note = cancelled-note;
}

abbrev State : Type 0
State = Running server lru swish files group

abbrev state_at : Phase → Phase → Bool → Bool → State
state_at p q job stop = record {
  public = p;
  actuator = q;
  has_job = job;
  interrupted = stop;
  group = none;
  site = site;
}

-- Both servers listen, and the command is interrupted.
interrupted_run :
    Run server lru swish files group
      (launched server lru swish files group site)
      2
      (state_at (serving false) (serving false) true true)
interrupted_run =
    passed
      (moved
        (moved Run.start
          (public_moves (state_at listening listening true false) (serving false) listens))
        (actuator_moves (state_at (serving false) listening true false) (serving false) listens))
      (interrupt (state_at (serving false) (serving false) true false))

shutdown-terminates_example :
    (2 ≤ 7)
    × ((is_over server lru swish files group (state_at (serving false) (serving false) true true)
          ≡ true)
        ⊎ ((c : State) × Move server lru swish files group
              (state_at (serving false) (serving false) true true)
              c))
    × ((m : ℕ) × (c : State) × Run server lru swish files group
          (state_at (serving false) (serving false) true true)
          m
          c
        × (is_over server lru swish files group c ≡ true)
        × (2 + m ≤ 7))
shutdown-terminates_example =
    shutdown-terminates server lru swish files group group-IsGroup site 2
      (state_at (serving false) (serving false) true true) interrupted_run refl

full_run :
    Run server lru swish files group
      (launched server lru swish files group site)
      7
      (state_at (returned none) (returned none) false true)
full_run =
    moved
      (moved
        (moved
          (moved
            (moved interrupted_run (
              public_moves (state_at (serving false) (serving false) true true) (stopping false)
                (stops refl)))
            (actuator_moves (state_at (stopping false) (serving false) true true) (stopping false)
              (stops refl)))
          (job_stops (state_at (stopping false) (stopping false) true true) refl refl))
        (public_moves (state_at (stopping false) (stopping false) false true) (returned none)
          (closes refl)))
      (actuator_moves (state_at (returned none) (stopping false) false true) (returned none)
        (closes refl))

abbrev over : State
over = state_at (returned none) (returned none) false true

run-Ended_example : Ended server lru swish files group group-IsGroup none over
run-Ended_example = run-Ended server lru swish files group group-IsGroup site 7 over full_run refl

run-IsQuiet_example : over.site ≡ over.site
run-IsQuiet_example =
    run-IsQuiet server lru swish files group group-IsGroup site 7 0 over over full_run refl refl
      (passed Run.start (interrupt over))
