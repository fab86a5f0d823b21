-- ===== src/Cmd/Run/Ends.antt =====
-- The servers and the expiry job of cmd/swosh/cmd_serve.go end when their context is cancelled.
use swosh.Common.{
  ℕ, zero, suc, ◌+◌, ◌≤◌, ◌<◌, ◌≡◌, refl, ◌∙◌, ◌⊎◌, inl, inr, Bool, true, false, Option, none, some,
  arith, Bool-cases,
}
use swosh.Swish.Qr.{Lru, Swish}
use swosh.Web.Http.{Request, Response}
use swosh.Web.Server.{Server}
use swosh.Web.Routes.{Site}
use swosh.Cmd.Run.{
  ServeError, Phase, listening, serving, stopping, returned, ServerStep, listen_fails, listens,
  serve_fails, stops, shutdown_fails, closes_badly, closes, Group, IsGroup, Running, is_cancelled,
  noted, launched, Move, public_moves, actuator_moves, job_stops, Event, answered, ticked,
  public_breaks, actuator_breaks, interrupt, Breaks, serving_breaks, stopping_breaks, serve_failed,
  Run, start, moved, passed, is_returned, is_over,
}

-- The steps that a call of `runServer` has at most before it.
abbrev rank : Phase → ℕ
rank listening = 3
rank (serving b) = 2
rank (stopping b) = 1
rank (returned e) = 0

abbrev job_rank : Bool → ℕ
job_rank true = 1
job_rank false = 0

ServerStep-rank : {c : Bool} {p q : Phase} → ServerStep c p q → rank q < rank p
ServerStep-rank listen_fails = omega arith
ServerStep-rank listens = omega arith
ServerStep-rank (serve_fails e) = omega arith
ServerStep-rank (stops e) = omega arith
ServerStep-rank shutdown_fails = omega arith
ServerStep-rank (closes_badly e) = omega arith
ServerStep-rank (closes e) = omega arith

Breaks-rank : {p q : Phase} → Breaks p q → rank q ≡ rank p
Breaks-rank serving_breaks = refl
Breaks-rank stopping_breaks = refl

-- A call that has not returned can go on.
next :
    {c : Bool} → c ≡ true → (p : Phase) → (is_returned p ≡ true) ⊎ ((q : Phase) × ServerStep c p q)
next e listening = inr (serving false, listens)
next e (serving b) = inr (stopping b, stops e)
next e (stopping false) = inr (returned none, closes refl)
next e (stopping true) = inr (returned (some serve_failed), closes_badly refl)
next e (returned r) = inl refl

module _ (s : Server) (l : Lru) (swish : Swish) (files : Request → Response) (g : Group) where
  abbrev total : Running s l swish files g → ℕ
  total r = rank r.public + rank r.actuator + job_rank r.has_job

  Move-total : {a b : Running s l swish files g} → Move s l swish files g a b → total b < total a
  Move-total (public_moves r p step) = omega (arith, ServerStep-rank step)
  Move-total (actuator_moves r p step) = omega (arith, ServerStep-rank step)
  Move-total (job_stops r has cancelled) = rw has (omega arith)

  Event-total : {a b : Running s l swish files g} → Event s l swish files g a b → total b ≡ total a
  Event-total (answered r q h) = refl
  Event-total (ticked r h) = refl
  Event-total (public_breaks r p e) = omega (arith, Breaks-rank e)
  Event-total (actuator_breaks r p e) = omega (arith, Breaks-rank e)
  Event-total (interrupt r) = refl

  Run-total :
      {a : Running s l swish files g} {n : ℕ} {b : Running s l swish files g}
      → Run s l swish files g a n b
      → n + total b ≤ total a
  Run-total start = omega arith
  Run-total (moved run move) = omega (arith, Run-total run, Move-total move)
  Run-total (passed run event) = omega (arith, Run-total run, Event-total event)

  -- Either everything has returned, or something can go on.
  progress :
      (a : Running s l swish files g)
      → is_cancelled s l swish files g a ≡ true
      → (is_over s l swish files g a ≡ true)
        ⊎ ((b : Running s l swish files g) × Move s l swish files g a b)
  progress a e = elim (next e a.public) [
    | inr (p, step) ↦ inr (_, public_moves a p step)
    | inl done ↦ elim (next e a.actuator) [
      | inr (p, step) ↦ inr (_, actuator_moves a p step)
      | inl shut ↦ elim (Bool-cases a.has_job) [
        | inl runs ↦ inr (_, job_stops a runs e)
        | inr stopped ↦ inl (rw (done, shut, stopped) refl)
      ]
    ]
  ]

  module _ (h : IsGroup g) where
    note-cancelled :
        (e : Option ServeError) (t : g.State)
        → g.cancelled t ≡ true
        → g.cancelled (g.note e t) ≡ true
    note-cancelled e t c = h.cancelled-note e t ∙ rw c refl

    noted-cancelled :
        (p : Phase) (t : g.State)
        → g.cancelled t ≡ true
        → g.cancelled (noted s l swish files g p t) ≡ true
    noted-cancelled (returned e) t c = note-cancelled e t c
    noted-cancelled listening t c = c
    noted-cancelled (serving b) t c = c
    noted-cancelled (stopping b) t c = c

    Move-is_cancelled :
        {a b : Running s l swish files g}
        → Move s l swish files g a b
        → is_cancelled s l swish files g a ≡ true
        → is_cancelled s l swish files g b ≡ true
    Move-is_cancelled (public_moves r p step) c = ground (arith, noted-cancelled p r.group)
    Move-is_cancelled (actuator_moves r p step) c = ground (arith, noted-cancelled p r.group)
    Move-is_cancelled (job_stops r has e) c = ground (arith, note-cancelled none r.group)

    finish :
        {a : Running s l swish files g} (k : ℕ) (n : ℕ) (b : Running s l swish files g)
        → Run s l swish files g a n b
        → total b ≤ k
        → is_cancelled s l swish files g b ≡ true
        → (m : ℕ) × (c : Running s l swish files g) × Run s l swish files g a m c
          × (is_over s l swish files g c ≡ true)
    finish zero n b run few c = elim (progress b c) [
      | inl over ↦ (n, b, run, over)
      | inr (b', move) ↦ absurd (omega (arith, Move-total move))
    ]
    finish (suc k) n b run few c = elim (progress b c) [
      | inl over ↦ (n, b, run, over)
      | inr (b', move) ↦
          finish k (suc n) b' (moved run move) (omega (arith, Move-total move))
            (Move-is_cancelled move c)
    ]

    -- Whatever happens, the servers and the expiry job take at most seven steps of their own from
    -- the launch; once their context is cancelled, one of them can go on as long as not all have
    -- returned, without a listener that fails, and there is a way to the return of all of them
    -- within the seven steps, if the group behaves as documented.
    pub shutdown-terminates :
        (site : Site s l swish) (n : ℕ) (b : Running s l swish files g)
        → Run s l swish files g (launched s l swish files g site) n b
        → is_cancelled s l swish files g b ≡ true
        → (n ≤ 7)
          × ((is_over s l swish files g b ≡ true)
              ⊎ ((c : Running s l swish files g) × Move s l swish files g b c))
          × ((m : ℕ) × (c : Running s l swish files g) × Run s l swish files g b m c
              × (is_over s l swish files g c ≡ true)
              × (n + m ≤ 7))
    shutdown-terminates site n b run c =
        let (m, d, rest, over) = finish (total b) zero b start (omega arith) c in
        (
          omega (arith, Run-total run),
          progress b c,
          (m, d, rest, over, omega (arith, Run-total run, Run-total rest)),
        )
