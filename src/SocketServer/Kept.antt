-- ===== src/SocketServer/Kept.antt =====
-- What each step of a worker of a server keeps.
use cs162hw.Base.{
  ◌≢◌, ℤ, ℕ, ◌+◌, ◌≡◌, ◌∙◌, refl, ap, sym, subst, Bool, inl, inr, Option, none, some, List, [], ◌∷◌,
  ◌++◌, length, arith, Bool-cases,
}
use cs162hw.Queue
use cs162hw.Queue.{DlList, Queue, Reaches, starts, pushes, pops, waits, crashes, returns, Popped}
use cs162hw.SocketServer.{
  ServerKind, Worker, tests_loop, pops_job, serves, closes, leaves, Acceptor, Shared, Running,
  handle, Moves,
}
use cs162hw.SocketServer.History.{
  tally, served, closing, offered, all_of, tally-append, tally-move, length-move,
}

module _ {L F : Type 0} (dl : DlList ℤ) where
  -- The invariant of the steps: the queue is in a state that its calls reach.
  pub record Kept (r : Running L F dl) (max_threads : ℕ) : Type 0 where
    pub pushed : List ℤ
    pub reached : Reaches dl r.shared.wq pushed r.shared.taken
    pub offer : r.shared.accepted ≡ pushed ++ offered r.acceptor
    pub handled_once :
        (p : ℤ → Bool)
        → tally p r.shared.taken ≡ tally p r.shared.handled + tally p (all_of served r.workers)
    pub closed_once :
        (p : ℤ → Bool)
        → tally p r.shared.handled ≡ tally p r.shared.closed + tally p (all_of closing r.workers)
    pub threads : length r.workers ≡ max_threads

  -- A step of a worker from a state that is kept, by where the worker is.
  unfoldable pub StepKeeps : Worker → Shared L F dl → Worker → Shared L F dl → Type 0
  StepKeeps w s w' s' =
      (a : Acceptor)
      → (ws ws' : List Worker) → (n : ℕ) → Moves w w' ws ws'
      → Kept (record { shared = s; acceptor = a; workers = ws }) n
      → Kept (record { shared = s'; acceptor = a; workers = ws' }) n

  idle_keeps :
      (w w' : Worker) (s : Shared L F dl)
      → served w ≡ served w'
      → closing w ≡ closing w'
      → StepKeeps w s w' s
  unfolding StepKeeps
  idle_keeps w w' s same_served same_closing a ws ws' n m k = record {
    pushed = k.pushed;
    reached = k.reached;
    offer = k.offer;
    handled_once = λ p.
        omega (arith, k.handled_once p, tally-move p served ws ws' m, ap (tally p) same_served);
    closed_once = λ p.
        omega (arith, k.closed_once p, tally-move p closing ws ws' m, ap (tally p) same_closing);
    threads = length-move ws ws' m ∙ k.threads;
  }

  pop_keeps :
      (s : Shared L F dl) (x : ℤ) (q : Queue dl)
      → Queue.pop dl s.wq ≡ returns x q
      → StepKeeps pops_job s (serves x) (record s { wq = q; taken = s.taken ++ x ∷ [] })
  unfolding StepKeeps
  pop_keeps s x q eq a ws ws' n m k = record {
    pushed = k.pushed;
    reached = pops x k.reached eq;
    offer = k.offer;
    handled_once = λ p.
        omega
          (arith, k.handled_once p, tally-move p served ws ws' m, tally-append p s.taken (x ∷ []));
    closed_once = λ p. omega (arith, k.closed_once p, tally-move p closing ws ws' m);
    threads = length-move ws ws' m ∙ k.threads;
  }

  serve_keeps :
      (s : Shared L F dl) (x : ℤ) (kind : ServerKind L F)
      → StepKeeps (serves x) s (closes x) (record s { kind = kind; handled = s.handled ++ x ∷ [] })
  unfolding StepKeeps
  serve_keeps s x kind a ws ws' n m k = record {
    pushed = k.pushed;
    reached = k.reached;
    offer = k.offer;
    handled_once = λ p.
        omega (
          arith,
          k.handled_once p,
          tally-move p served ws ws' m,
          tally-append p s.handled (x ∷ []),
        );
    closed_once = λ p.
        omega (
          arith,
          k.closed_once p,
          tally-move p closing ws ws' m,
          tally-append p s.handled (x ∷ []),
        );
    threads = length-move ws ws' m ∙ k.threads;
  }

  close_keeps :
      (s : Shared L F dl) (x : ℤ)
      → StepKeeps (closes x) s tests_loop (record s { closed = s.closed ++ x ∷ [] })
  unfolding StepKeeps
  close_keeps s x a ws ws' n m k = record {
    pushed = k.pushed;
    reached = k.reached;
    offer = k.offer;
    handled_once = λ p. omega (arith, k.handled_once p, tally-move p served ws ws' m);
    closed_once = λ p.
        omega
          (arith, k.closed_once p, tally-move p closing ws ws' m, tally-append p s.closed (x ∷ []));
    threads = length-move ws ws' m ∙ k.threads;
  }

  pub same_step :
      (x y : Worker × Shared L F dl)
      → ◌≡◌ {A = Option (Worker × Shared L F dl)} (some x) (some y)
      → x ≡ y
  same_step x y eq = cc

  pub no_step :
      (x : Worker × Shared L F dl) → ◌≢◌ {A = Option (Worker × Shared L F dl)} none (some x)
  no_step x eq = cc

  along :
      (w : Worker) (s : Shared L F dl) (x : Worker × Shared L F dl) (w' : Worker)
      (s' : Shared L F dl)
      → ◌≡◌ {A = Option (Worker × Shared L F dl)} (some x) (some (w', s'))
      → StepKeeps w s x.0 x.1
      → StepKeeps w s w' s'
  along w s x w' s' eq keeps = subst (λ y. StepKeeps w s y.0 y.1) (same_step x (w', s') eq) keeps

module _ {L F I : Type 0} (tpcleader_handle : L → I → L) (kvserver_handle : F → I → F)
    (dl : DlList ℤ) where
  take_keeps :
      (i : I) (w' : Worker) (s s' : Shared L F dl) (p : Popped ℤ (Queue dl))
      → Queue.pop dl s.wq ≡ p
      → handle tpcleader_handle kvserver_handle dl i pops_job s ≡ some (w', s')
      → StepKeeps dl pops_job s w' s'
  unfolding handle
  take_keeps i w' s s' waits is eq = absurd (no_step dl (w', s') (sym (rw (is, handle) refl) ∙ eq))
  take_keeps i w' s s' crashes is eq =
      absurd (no_step dl (w', s') (sym (rw (is, handle) refl) ∙ eq))
  take_keeps i w' s s' (returns x q) is eq =
      along dl pops_job s (serves x, record s { wq = q; taken = s.taken ++ x ∷ [] }) w' s'
        (sym (rw (is, handle) refl) ∙ eq) (pop_keeps dl s x q is)

  pub worker_keeps :
      (i : I) (w w' : Worker) (s s' : Shared L F dl)
      → handle tpcleader_handle kvserver_handle dl i w s ≡ some (w', s')
      → StepKeeps dl w s w' s'
  unfolding handle
  worker_keeps i tests_loop w' s s' eq = elim (Bool-cases s.listening) [
    | inl on ↦
        along dl tests_loop s (pops_job, s) w' s' (sym (rw on refl) ∙ eq)
          (idle_keeps dl tests_loop pops_job s refl refl)
    | inr off ↦
        along dl tests_loop s (leaves, s) w' s' (sym (rw off refl) ∙ eq)
          (idle_keeps dl tests_loop leaves s refl refl)
  ]
  worker_keeps i pops_job w' s s' eq = take_keeps i w' s s' (Queue.pop dl s.wq) refl eq
  worker_keeps i (serves x) w' s s' eq = along dl (serves x) s _ w' s' eq (serve_keeps dl s x _)
  worker_keeps i (closes x) w' s s' eq = along dl (closes x) s _ w' s' eq (close_keeps dl s x)
  worker_keeps i leaves w' s s' eq = absurd (no_step dl (w', s') eq)
