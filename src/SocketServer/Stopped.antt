-- ===== src/SocketServer/Stopped.antt =====
-- What a server still does behind server_stop.
use cs162hw.Base.{
  ℤ, ℕ, ◌+◌, ◌≤◌, ◌≡◌, ◌∙◌, refl, sym, subst, ap, Bool, true, false, Option, some, List, [], ◌∷◌,
  ◌++◌, length, length-append, if◌then◌else◌, arith,
}
use cs162hw.Queue
use cs162hw.Queue.{DlList, Queue, Popped, waits, crashes, returns}
use cs162hw.SocketServer.{
  Worker, tests_loop, pops_job, serves, closes, leaves, Acceptor, tests_listening, accepts, offers,
  ends, Shared, Running, handle, accept_step, above_zero, server_stop, Moves, here, there, Step,
  worker_runs, acceptor_runs, stops, Steps, done, next,
}
use cs162hw.SocketServer.Kept.{no_step, same_step}

-- The workers that are in wq_pop, and the thread that is in accept.
abbrev pub pops_one : Worker → ℕ
pops_one pops_job = 1
pops_one _ = 0

abbrev pub popping : List Worker → ℕ
popping [] = 0
popping (w ∷ ws) = pops_one w + popping ws

abbrev pub accepting : Acceptor → ℕ
accepting accepts = 1
accepting _ = 0

popping-move :
    {w w' : Worker} (ws ws' : List Worker)
    → Moves w w' ws ws'
    → popping ws + pops_one w' ≡ popping ws' + pops_one w
popping-move _ _ here = omega arith
popping-move _ _ (there {ws = ws} {ws' = ws'} m) = omega (arith, popping-move ws ws' m)

module _ {L F : Type 0} (dl : DlList ℤ) where
  -- A step of a worker of a server that is stopped.
  record Drains (w : Worker) (s : Shared L F dl) (w' : Worker) (s' : Shared L F dl) : Type 0 where
    stopped : s'.listening ≡ false
    one_less : length s'.taken + pops_one w' ≡ length s.taken + pops_one w
    same_accepted : s'.accepted ≡ s.accepted

  along :
      (w : Worker) (s : Shared L F dl) (x y : Worker × Shared L F dl)
      → ◌≡◌ {A = Option (Worker × Shared L F dl)} (some x) (some y)
      → Drains w s x.0 x.1
      → Drains w s y.0 y.1
  along w s x y eq d = subst (λ z. Drains w s z.0 z.1) (same_step dl x y eq) d

  -- A step of the thread of server_run.
  record Refuses (a : Acceptor) (s : Shared L F dl) (a' : Acceptor) (s' : Shared L F dl)
      : Type 0 where
    stopped : s'.listening ≡ false
    same_taken : s'.taken ≡ s.taken
    one_at_most : length s'.accepted + accepting a' ≤ length s.accepted + accepting a

  got-Refuses :
      (c : ℤ) (s : Shared L F dl) (b : Bool)
      → s.listening ≡ false
      → let to : Acceptor × Shared L F dl =
          if b
          then (offers c, record s { accepted = s.accepted ++ c ∷ [] })
          else (tests_listening, s) in
        Refuses accepts s to.0 to.1
  got-Refuses c s true off = record {
    stopped = off;
    same_taken = refl;
    one_at_most = omega (arith, length-append s.accepted (c ∷ []));
  }
  got-Refuses c s false off = record { stopped = off; same_taken = refl; one_at_most = omega arith }

  accept-Refuses :
      (c : ℤ) (a : Acceptor) (s : Shared L F dl)
      → s.listening ≡ false
      → Refuses a s (accept_step dl c a s).0 (accept_step dl c a s).1
  unfolding accept_step
  accept-Refuses c tests_listening s off =
      subst (λ b. Refuses tests_listening s (if b then accepts else ends) s) (sym off)
        (record { stopped = off; same_taken = refl; one_at_most = omega arith })
  accept-Refuses c accepts s off = got-Refuses c s (above_zero c) off
  accept-Refuses c (offers x) s off = record {
    stopped = off;
    same_taken = refl;
    one_at_most = omega arith;
  }
  accept-Refuses c ends s off = record {
    stopped = off;
    same_taken = refl;
    one_at_most = omega arith;
  }

module _ {L F I : Type 0} (tpcleader_handle : L → I → L) (kvserver_handle : F → I → F)
    (dl : DlList ℤ) where
  take-Drains :
      (i : I) (y : Worker × Shared L F dl) (s : Shared L F dl) (p : Popped ℤ (Queue dl))
      → s.listening ≡ false
      → Queue.pop dl s.wq ≡ p
      → handle tpcleader_handle kvserver_handle dl i pops_job s ≡ some y
      → Drains dl pops_job s y.0 y.1
  unfolding handle
  take-Drains i y s waits off is eq = absurd (no_step dl y (sym (rw (is, handle) refl) ∙ eq))
  take-Drains i y s crashes off is eq = absurd (no_step dl y (sym (rw (is, handle) refl) ∙ eq))
  take-Drains i y s (returns x q) off is eq =
      along dl pops_job s (serves x, record s { wq = q; taken = s.taken ++ x ∷ [] }) y
        (sym (rw (is, handle) refl) ∙ eq)
        (record {
          stopped = off;
          one_less = omega (arith, length-append s.taken (x ∷ []));
          same_accepted = refl;
        })

  worker-Drains :
      (i : I) (w : Worker) (s : Shared L F dl) (y : Worker × Shared L F dl)
      → s.listening ≡ false
      → handle tpcleader_handle kvserver_handle dl i w s ≡ some y
      → Drains dl w s y.0 y.1
  unfolding handle
  worker-Drains i tests_loop s y off eq =
      along dl tests_loop s (leaves, s) y (sym (rw off refl) ∙ eq)
        (record { stopped = off; one_less = refl; same_accepted = refl })
  worker-Drains i pops_job s y off eq = take-Drains i y s (Queue.pop dl s.wq) off refl eq
  worker-Drains i (serves x) s y off eq =
      along dl (serves x) s _ y eq (record { stopped = off; one_less = refl; same_accepted = refl })
  worker-Drains i (closes x) s y off eq =
      along dl (closes x) s _ y eq (record { stopped = off; one_less = refl; same_accepted = refl })
  worker-Drains i leaves s y off eq = absurd (no_step dl y eq)

  -- What any number of steps of a stopped server do.
  pub record Finishes (r r' : Running L F dl) : Type 0 where
    pub stopped : r'.shared.listening ≡ false
    pub taken_exact :
        length r'.shared.taken + popping r'.workers ≡ length r.shared.taken + popping r.workers
    pub one_accepted :
        length r'.shared.accepted + accepting r'.acceptor
        ≤ length r.shared.accepted + accepting r.acceptor

  Step-Finishes :
      (r r' : Running L F dl)
      → Step tpcleader_handle kvserver_handle dl r r'
      → r.shared.listening ≡ false
      → Finishes r r'
  unfolding server_stop
  Step-Finishes _ _ (worker_runs {s = s} {s' = s'} {w = w} {w' = w'} {ws = ws} {ws' = ws'} i eq m)
        off =
      let d = worker-Drains i w s (w', s') off eq in
      record {
        stopped = d.stopped;
        taken_exact = omega (arith, d.one_less, popping-move ws ws' m);
        one_accepted = omega (arith, ap length d.same_accepted);
      }
  Step-Finishes _ _ (acceptor_runs {s = s} {s' = s'} {a = a} {a' = a'} c eq) off =
      let d =
        subst (λ (x : Acceptor × Shared L F dl). Refuses dl a s x.0 x.1) eq
          (accept-Refuses dl c a s off) in
      record {
        stopped = d.stopped;
        taken_exact = omega (arith, ap length d.same_taken);
        one_accepted = d.one_at_most;
      }
  Step-Finishes _ _ stops off = record {
    stopped = refl;
    taken_exact = refl;
    one_accepted = omega arith;
  }

  -- Once server_stop has been called, the flag stays off, and whatever the order of the steps, each
  -- worker that is in wq_pop at that moment takes at most one more connection, and no other worker
  -- takes one: what is in the queue beyond that is never taken. At most one more connection is
  -- accepted, and that only if the thread of server_run is in accept.
  pub Steps-Finishes :
      (r r' : Running L F dl)
      → r.shared.listening ≡ false
      → Steps tpcleader_handle kvserver_handle dl r r'
      → Finishes r r'
  Steps-Finishes r _ off done = record {
    stopped = off;
    taken_exact = refl;
    one_accepted = omega arith;
  }
  Steps-Finishes r _ off (next {r' = r'} {r'' = r''} run step) =
      let before = Steps-Finishes r r' off run in
      let after = Step-Finishes r' r'' step before.stopped in
      record {
        stopped = after.stopped;
        taken_exact = after.taken_exact ∙ before.taken_exact;
        one_accepted = omega (arith, after.one_accepted, before.one_accepted);
      }
