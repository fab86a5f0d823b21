-- ===== src/Cmd/Execute/Health.antt =====
-- The command `healthcheck` of cmd/swosh against the handler of `serve`.
use swosh.Common.{
  ℕ, ◌≡◌, refl, sym, ap, ◌∙◌, subst, ◌↔◌, Bool, true, false, Option, some, List, arith, ok,
}
use Prim.Native.String.{String}
use swosh.Config.{Config, load_from}
use swosh.World.{World}
use swosh.Cmd.{Machine, health, check_health}
use swosh.Cmd.Execute.{
  healthcheck, Shell, checked, health_url, run_command, configured, with_hook, run, exit_code,
  Schema,
}

module _ (m : Machine) (sh : Shell) where
  answered_iff :
      (pings : Bool)
      → (exit_code m sh (checked m sh (check_health true (some (health pings).0))) ≡ 0)
        ↔ (pings ≡ true)
  unfolding check_health health
  answered_iff true = (λ _. refl, λ _. refl)
  answered_iff false = (λ e. absurd (omega arith), λ e. cc)

  -- If the configuration is accepted and the URL that `swosh healthcheck` asks is answered by the
  -- handler of the health of the server, the command exits with 0 exactly if the database answers
  -- that handler's ping; it leaves the tables as they are.
  pub healthcheck_iff :
      (args : List String) (c : Config) (pings : Bool) (w : World) (d : Schema m sh)
      → sh.parse args ≡ some healthcheck
      → load_from sh.process sh.env ≡ ok c
      → sh.asks (health_url m sh c) ≡ (true, some (health pings).0)
      → ((exit_code m sh (run m sh args w d).0 ≡ 0) ↔ (pings ≡ true)) × ((run m sh args w d).1 ≡ w)
  unfolding run with_hook configured run_command
  healthcheck_iff args c pings w d parsed accepted answer =
      let e : run m sh args w d ≡ run_command m sh healthcheck c w d =
        ap (λ x. with_hook m sh x w d) parsed
        ∙ ap (λ x. configured m sh healthcheck x w d) accepted in
      (
        subst (λ x. (exit_code m sh x.0 ≡ 0) ↔ (pings ≡ true)) (sym e)
            (subst
              (λ (a : Bool × Option ℕ).
                (exit_code m sh (checked m sh (check_health a.0 a.1)) ≡ 0) ↔ (pings ≡ true))
              (sym answer) (answered_iff pings)),
        ap (λ x. x.1) e,
      )
