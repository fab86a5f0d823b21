-- ===== src/Cmd/Run/Outcome.antt =====
-- What cmd/swosh/cmd_serve.go's `serve` has come to when the group's `Wait` returns.
use swosh.Common.{
  ℕ, ◌≡◌, refl, sym, ap, ◌∙◌, subst, ◌≢◌, ◌⊎◌, inl, inr, Bool, true, false, ◌||◌, Option, none,
  some, arith, is_some,
}
use swosh.Swish.Qr.{Lru, Swish}
use swosh.Web.Http.{Request, Response}
use swosh.Web.Server.{Server}
use swosh.Web.Routes.{Site}
use swosh.Cmd.Run.{
  ServeError, Phase, listening, serving, stopping, returned, ServerStep, listen_fails, listens,
  serve_fails, stops, shutdown_fails, closes_badly, closes, is_open, Group, first_error, IsGroup,
  Running, is_cancelled, noted, launched, Move, public_moves, actuator_moves, job_stops, Event,
  answered, ticked, public_breaks, actuator_breaks, interrupt, Breaks, serving_breaks,
  stopping_breaks, Run, start, moved, passed, is_returned, is_over,
}

-- A server that has not failed.
abbrev is_fine : Phase → Bool
is_fine (returned (some e)) = false
is_fine p = true

-- A server that was told to stop.
abbrev was_told : Phase → Bool
was_told (stopping b) = true
was_told (returned none) = true
was_told p = false

-- An error that the group holds is of a server, and without one no server has failed.
abbrev Explains : Option ServeError → Phase → Phase → Type 0
Explains none p q = (is_fine p ≡ true) × (is_fine q ≡ true)
Explains (some e) p q = (p ≡ returned (some e)) ⊎ (q ≡ returned (some e))

Explains-swap : (w : Option ServeError) (p q : Phase) → Explains w p q → Explains w q p
Explains-swap none p q (a, b) = (b, a)
Explains-swap (some e) p q (inl a) = inr a
Explains-swap (some e) p q (inr b) = inl b

abbrev held : Phase → Option ServeError → Option ServeError
held (returned e) w = first_error w e
held p w = w

Explains-step :
    {c : Bool} {p q : Phase} (w : Option ServeError) (a : Phase)
    → ServerStep c p q
    → Explains w p a
    → Explains (held q w) q a
Explains-step none a listen_fails h = inl refl
Explains-step none a listens h = (refl, h.1)
Explains-step none a (serve_fails e) h = inl refl
Explains-step none a (stops e) h = (refl, h.1)
Explains-step none a shutdown_fails h = inl refl
Explains-step none a (closes_badly e) h = inl refl
Explains-step none a (closes e) h = (refl, h.1)
Explains-step (some e) a listen_fails h = ground arith
Explains-step (some e) a listens h = ground arith
Explains-step (some e) a (serve_fails t) h = ground arith
Explains-step (some e) a (stops t) h = ground arith
Explains-step (some e) a shutdown_fails h = ground arith
Explains-step (some e) a (closes_badly t) h = ground arith
Explains-step (some e) a (closes t) h = ground arith

Breaks-Explains :
    {p q : Phase} (w : Option ServeError) (a : Phase) → Breaks p q → Explains w p a → Explains w q a
Breaks-Explains none a serving_breaks h = h
Breaks-Explains none a stopping_breaks h = h
Breaks-Explains (some e) a serving_breaks h = ground arith
Breaks-Explains (some e) a stopping_breaks h = ground arith

Breaks-was_told : {p q : Phase} → Breaks p q → was_told q ≡ was_told p
Breaks-was_told serving_breaks = refl
Breaks-was_told stopping_breaks = refl

Breaks-returned : {p q : Phase} → Breaks p q → p ≢ returned none
Breaks-returned serving_breaks e = cc
Breaks-returned stopping_breaks e = cc

first_error-none : (w : Option ServeError) → first_error w none ≡ w
first_error-none none = refl
first_error-none (some e) = refl

told-step :
    {c : Bool} {p q : Phase}
    → ServerStep c p q
    → (was_told p ≡ true → c ≡ true)
    → was_told q ≡ true
    → c ≡ true
told-step listen_fails h t = cc
told-step listens h t = cc
told-step (serve_fails e) h t = cc
told-step (stops e) h t = e
told-step shutdown_fails h t = cc
told-step (closes_badly e) h t = cc
told-step (closes e) h t = h refl

module _ (s : Server) (l : Lru) (swish : Swish) (files : Request → Response) (g : Group)
    (law : IsGroup g) where
  record IsConsistent (r : Running s l swish files g) : Type 0 where
    explains : Explains (g.wait r.group) r.public r.actuator
    cancelled : g.cancelled r.group ≡ is_some (g.wait r.group)
    public_told : was_told r.public ≡ true → is_cancelled s l swish files g r ≡ true
    actuator_told : was_told r.actuator ≡ true → is_cancelled s l swish files g r ≡ true

  launched-IsConsistent : (site : Site s l swish) → IsConsistent (launched s l swish files g site)
  launched-IsConsistent site = record {
    explains = rw law.wait-new (refl, refl);
    cancelled = law.cancelled-new ∙ rw law.wait-new refl;
    public_told = λ t. cc;
    actuator_told = λ t. cc;
  }

  wait-noted : (p : Phase) (t : g.State) → g.wait (noted s l swish files g p t) ≡ held p (g.wait t)
  wait-noted listening t = refl
  wait-noted (serving b) t = refl
  wait-noted (stopping b) t = refl
  wait-noted (returned e) t = law.wait-note e t

  is_some-first_error :
      (a b : Option ServeError) → (is_some a || is_some b) ≡ is_some (first_error a b)
  is_some-first_error none b = refl
  is_some-first_error (some a) b = refl

  note-cancelled :
      (e : Option ServeError) (t : g.State)
      → g.cancelled t ≡ is_some (g.wait t)
      → g.cancelled (g.note e t) ≡ is_some (g.wait (g.note e t))
  note-cancelled e t h =
      law.cancelled-note e t
      ∙ (rw h (is_some-first_error (g.wait t) e) ∙ ap is_some (sym (law.wait-note e t)))

  noted-cancelled :
      (p : Phase) (t : g.State)
      → g.cancelled t ≡ is_some (g.wait t)
      → g.cancelled (noted s l swish files g p t) ≡ is_some (g.wait (noted s l swish files g p t))
  noted-cancelled listening t h = h
  noted-cancelled (serving b) t h = h
  noted-cancelled (stopping b) t h = h
  noted-cancelled (returned e) t h = note-cancelled e t h

  stays-cancelled :
      (b : Bool) (p : Phase) (t : g.State)
      → (b || g.cancelled t) ≡ true
      → (b || g.cancelled (noted s l swish files g p t)) ≡ true
  stays-cancelled b listening t h = h
  stays-cancelled b (serving d) t h = h
  stays-cancelled b (stopping d) t h = h
  stays-cancelled b (returned e) t h = ground (arith, law.cancelled-note e t)

  Move-IsConsistent :
      {a b : Running s l swish files g}
      → Move s l swish files g a b
      → IsConsistent a
      → IsConsistent b
  Move-IsConsistent (public_moves r p step) h = record {
    explains =
        rw (wait-noted p r.group) (Explains-step (g.wait r.group) r.actuator step h.explains);
    cancelled = noted-cancelled p r.group h.cancelled;
    public_told = λ t. stays-cancelled r.interrupted p r.group (told-step step h.public_told t);
    actuator_told = λ t. stays-cancelled r.interrupted p r.group (h.actuator_told t);
  }
  Move-IsConsistent (actuator_moves r p step) h = record {
    explains = rw (wait-noted p r.group) (
        Explains-swap _ p r.public (
          Explains-step (g.wait r.group) r.public step
            (Explains-swap _ r.public r.actuator h.explains)));
    cancelled = noted-cancelled p r.group h.cancelled;
    public_told = λ t. stays-cancelled r.interrupted p r.group (h.public_told t);
    actuator_told = λ t. stays-cancelled r.interrupted p r.group (told-step step h.actuator_told t);
  }
  Move-IsConsistent (job_stops r has e) h = record {
    explains = rw (law.wait-note none r.group, first_error-none (g.wait r.group)) h.explains;
    cancelled = note-cancelled none r.group h.cancelled;
    public_told = λ t. stays-cancelled r.interrupted (returned none) r.group (h.public_told t);
    actuator_told = λ t. stays-cancelled r.interrupted (returned none) r.group (h.actuator_told t);
  }

  Event-IsConsistent :
      {a b : Running s l swish files g}
      → Event s l swish files g a b
      → IsConsistent a
      → IsConsistent b
  Event-IsConsistent (answered r q o) h = record {
    explains = h.explains;
    cancelled = h.cancelled;
    public_told = h.public_told;
    actuator_told = h.actuator_told;
  }
  Event-IsConsistent (ticked r o) h = record {
    explains = h.explains;
    cancelled = h.cancelled;
    public_told = h.public_told;
    actuator_told = h.actuator_told;
  }
  Event-IsConsistent (public_breaks r p e) h = record {
    explains = Breaks-Explains (g.wait r.group) r.actuator e h.explains;
    cancelled = h.cancelled;
    public_told = λ t. h.public_told (sym (Breaks-was_told e) ∙ t);
    actuator_told = h.actuator_told;
  }
  Event-IsConsistent (actuator_breaks r p e) h = record {
    explains = Explains-swap _ p r.public (
        Breaks-Explains (g.wait r.group) r.public e
          (Explains-swap _ r.public r.actuator h.explains));
    cancelled = h.cancelled;
    public_told = h.public_told;
    actuator_told = λ t. h.actuator_told (sym (Breaks-was_told e) ∙ t);
  }
  Event-IsConsistent (interrupt r) h = record {
    explains = h.explains;
    cancelled = h.cancelled;
    public_told = λ t. refl;
    actuator_told = λ t. refl;
  }

  Run-IsConsistent :
      {a : Running s l swish files g} {n : ℕ} {b : Running s l swish files g}
      → Run s l swish files g a n b
      → IsConsistent a
      → IsConsistent b
  Run-IsConsistent start h = h
  Run-IsConsistent (moved run move) h = Move-IsConsistent move (Run-IsConsistent run h)
  Run-IsConsistent (passed run event) h = Event-IsConsistent event (Run-IsConsistent run h)

  -- What the command has done, by what `Wait` returns.
  abbrev pub Ended : Option ServeError → Running s l swish files g → Type 0
  Ended none r = (r.interrupted ≡ true) × (r.public ≡ returned none) × (r.actuator ≡ returned none)
  Ended (some e) r = (r.public ≡ returned (some e)) ⊎ (r.actuator ≡ returned (some e))

  returned_fine : (p : Phase) → is_returned p ≡ true → is_fine p ≡ true → p ≡ returned none
  returned_fine (returned none) r f = refl
  returned_fine (returned (some e)) r f = cc
  returned_fine listening r f = cc
  returned_fine (serving b) r f = cc
  returned_fine (stopping b) r f = cc

  over-Ended :
      (r : Running s l swish files g) (w : Option ServeError)
      → g.wait r.group ≡ w
      → is_over s l swish files g r ≡ true
      → IsConsistent r
      → Ended w r
  over-Ended r (some e) waits over h = subst (λ w. Explains w r.public r.actuator) waits h.explains
  over-Ended r none waits over h =
      let (p, a) = subst (λ w. Explains w r.public r.actuator) waits h.explains in
      let shut = returned_fine r.public (ground arith) p in
      let told = h.public_told (ap was_told shut) in
      let going : g.cancelled r.group ≡ false = h.cancelled ∙ ap is_some waits in
      (ground arith, shut, returned_fine r.actuator (ground arith) a)

  -- When both servers and the expiry job have returned, either `Wait` has an error and one of the
  -- servers has returned it, or it has none, and then the command was interrupted and both servers
  -- were shut down without an error, if the group behaves as documented.
  pub run-Ended :
      (site : Site s l swish) (n : ℕ) (b : Running s l swish files g)
      → Run s l swish files g (launched s l swish files g site) n b
      → is_over s l swish files g b ≡ true
      → Ended (g.wait b.group) b
  run-Ended site n b run over =
      over-Ended b (g.wait b.group) refl over (Run-IsConsistent run (launched-IsConsistent site))

  -- Nothing is left that changes the tables.
  record IsQuiet (site : Site s l swish) (r : Running s l swish files g) : Type 0 where
    public_closed : r.public ≡ returned none
    job_gone : r.has_job ≡ false
    same : r.site ≡ site

  closed-stays : {c : Bool} {p q : Phase} → ServerStep c p q → p ≡ returned none → q ≡ returned none
  closed-stays listen_fails e = cc
  closed-stays listens e = cc
  closed-stays (serve_fails t) e = cc
  closed-stays (stops t) e = cc
  closed-stays shutdown_fails e = cc
  closed-stays (closes_badly t) e = cc
  closed-stays (closes t) e = cc

  Run-IsQuiet :
      {a : Running s l swish files g} {n : ℕ} {b : Running s l swish files g}
      → Run s l swish files g a n b
      → (site : Site s l swish) → IsQuiet site a
      → IsQuiet site b
  Run-IsQuiet start site h = h
  Run-IsQuiet (moved run move) site h = by_move move (Run-IsQuiet run site h)
    where
      by_move :
          {a b : Running s l swish files g}
          → Move s l swish files g a b
          → IsQuiet site a
          → IsQuiet site b
      by_move (public_moves r p step) h = record {
        public_closed = closed-stays step h.public_closed;
        job_gone = h.job_gone;
        same = h.same;
      }
      by_move (actuator_moves r p step) h = record {
        public_closed = h.public_closed;
        job_gone = h.job_gone;
        same = h.same;
      }
      by_move (job_stops r has e) h = cc (has, h.job_gone)
  Run-IsQuiet (passed run event) site h = by_event event (Run-IsQuiet run site h)
    where
      by_event :
          {a b : Running s l swish files g}
          → Event s l swish files g a b
          → IsQuiet site a
          → IsQuiet site b
      by_event (answered r q o) h = absurd (cc (o, ap is_open h.public_closed))
      by_event (ticked r o) h = absurd (cc (o, h.job_gone))
      by_event (public_breaks r p e) h = absurd (Breaks-returned e h.public_closed)
      by_event (actuator_breaks r p e) h = record {
        public_closed = h.public_closed;
        job_gone = h.job_gone;
        same = h.same;
      }
      by_event (interrupt r) h = record {
        public_closed = h.public_closed;
        job_gone = h.job_gone;
        same = h.same;
      }

  -- When both servers and the expiry job have returned and `Wait` has no error, nothing changes
  -- the tables or the cache of QR codes any more, so that the pool can be closed, if the group
  -- behaves as documented.
  pub run-IsQuiet :
      (site : Site s l swish) (n m : ℕ) (b c : Running s l swish files g)
      → Run s l swish files g (launched s l swish files g site) n b
      → is_over s l swish files g b ≡ true
      → g.wait b.group ≡ none
      → Run s l swish files g b m c
      → c.site ≡ b.site
  run-IsQuiet site n m b c run over clean later =
      let ended =
        over-Ended b none clean over (Run-IsConsistent run (launched-IsConsistent site)) in
      let quiet =
        Run-IsQuiet later b.site
          (record { public_closed = ended.1; job_gone = ground arith; same = refl }) in
      quiet.same
