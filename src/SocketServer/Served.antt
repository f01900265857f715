-- ===== src/SocketServer/Served.antt =====
-- Every connection that server_run accepts is handled once and closed once, in any order of the
-- threads.
use cs162hw.Base.{
  ℤ, ℕ, ◌+◌, ◌≡◌, ◌∙◌, refl, ap, sym, subst, Bool, true, false, inl, inr, ◌⊎◌, Option, none, some,
  List, [], ◌∷◌, ◌++◌, length, if◌then◌else◌, arith,
}
use cs162hw.Queue.{DlList, Reaches, starts}
use cs162hw.Queue.Fifo.{Reaches-IsFifo}
use cs162hw.SocketServer.{
  ServerKind, Worker, tests_loop, pops_job, serves, closes, leaves, Shared, Running, handle,
  server_run, new_server, Setup, Steps,
}
use cs162hw.SocketServer.History.{
  tally, served, closing, offered, all_of, none_busy, length-new_workers,
}
use cs162hw.SocketServer.Kept.{Kept, no_step}
use cs162hw.SocketServer.Accepting.{Steps-Kept}

module _ {L F : Type 0} (dl : DlList ℤ) where
  pub record IsServed (r : Running L F dl) : Type 0 where
    pub order :
        r.shared.accepted ≡ (r.shared.taken ++ dl.items r.shared.wq.list) ++ offered r.acceptor
    pub handled_once :
        (p : ℤ → Bool)
        → tally p r.shared.taken ≡ tally p r.shared.handled + tally p (all_of served r.workers)
    pub closed_once :
        (p : ℤ → Bool)
        → tally p r.shared.handled ≡ tally p r.shared.closed + tally p (all_of closing r.workers)

  new_server-Kept : (n : ℕ) (kind : ServerKind L F) → Kept dl (new_server dl n kind) n
  unfolding new_server
  new_server-Kept n kind = record {
    pushed = [];
    reached = starts;
    offer = refl;
    handled_once = λ p. omega (arith, ap (tally p) (none_busy served n refl));
    closed_once = λ p. omega (arith, ap (tally p) (none_busy closing n refl));
    threads = length-new_workers n;
  }

  start_lem : (b : Bool) (r r' : Running L F dl) → (if b then none else some r) ≡ some r' → r ≡ r'
  start_lem true r r' eq = cc
  start_lem false r r' eq = cc

  Kept-IsServed : (r : Running L F dl) (n : ℕ) → Kept dl r n → IsServed r
  Kept-IsServed r n k = record {
    order =
        k.offer
        ∙ ap (λ l. l ++ offered r.acceptor)
            (Reaches-IsFifo dl r.shared.wq k.pushed r.shared.taken k.reached).0.order;
    handled_once = k.handled_once;
    closed_once = k.closed_once;
  }

  -- Where a worker makes no step.
  Stuck : Worker → Shared L F dl → Type 0
  Stuck w s = (w ≡ leaves) ⊎ ((w ≡ pops_job) × (dl.items s.wq.list ≡ []))

  some-is-step :
      {A : Type 0} (x : Worker × Shared L F dl)
      → ◌≡◌ {A = Option (Worker × Shared L F dl)} (some x) none
      → A
  some-is-step x eq = absurd (no_step dl x (sym eq))

  tested_goes :
      {A : Type 0} (b : Bool) (x y : Worker × Shared L F dl)
      → ◌≡◌ {A = Option (Worker × Shared L F dl)} (if b then some x else some y) none
      → A
  tested_goes true x y eq = some-is-step x eq
  tested_goes false x y eq = some-is-step y eq

module _ {L F I : Type 0} (tpcleader_handle : L → I → L) (kvserver_handle : F → I → F)
    (dl : DlList ℤ) where
  run-Kept :
      (calls : Setup) (n : ℕ) (kind : ServerKind L F) (r r' : Running L F dl)
      → server_run dl calls n kind ≡ some r
      → Steps tpcleader_handle kvserver_handle dl r r'
      → Kept dl r' n
  unfolding server_run
  run-Kept calls n kind r r' eq run = Steps-Kept tpcleader_handle kvserver_handle dl r r' n run (
      subst (λ x. Kept dl x n) (start_lem dl _ (new_server dl n kind) r eq)
        (new_server-Kept dl n kind))

  worker-Stuck :
      (s : Shared L F dl) (pushed : List ℤ)
      → Reaches dl s.wq pushed s.taken
      → (i : I) (w : Worker) → handle tpcleader_handle kvserver_handle dl i w s ≡ none
      → Stuck dl w s
  unfolding handle Stuck
  worker-Stuck s pushed reached i tests_loop eq =
      tested_goes dl s.listening (pops_job, s) (leaves, s) eq
  worker-Stuck s pushed reached i pops_job eq =
      elim (Reaches-IsFifo dl s.wq pushed s.taken reached).1 [
        | inl (empty, _) ↦ inr (refl, empty)
        | inr (x, xs, q, _, popped) ↦
            some-is-step dl (serves x, record s { wq = q; taken = s.taken ++ x ∷ [] })
              (sym (rw (popped, handle) refl) ∙ eq)
      ]
  worker-Stuck s pushed reached i (serves x) eq = some-is-step dl _ eq
  worker-Stuck s pushed reached i (closes x) eq = some-is-step dl _ eq
  worker-Stuck s pushed reached i leaves eq = inl refl

  -- A server that server_run has started hands every connection that accept returned to one call of
  -- the handler and one call of close, whatever the order of the steps of its threads, and whether
  -- it is stopped or not: the connections accepted are those taken from the queue, in the same
  -- order, followed by those in the queue and the one in front of it; those taken are those handled
  -- and those that a worker is in the handler with; those handled are those closed and those that a
  -- worker is about to close. The number of workers stays max_threads, so that at most as many
  -- connections are handled at a time. A worker is stuck only behind its loop, or in wq_pop while
  -- the queue is empty.
  pub Steps-IsServed :
      (calls : Setup) (max_threads : ℕ) (kind : ServerKind L F) (r r' : Running L F dl)
      → server_run dl calls max_threads kind ≡ some r
      → Steps tpcleader_handle kvserver_handle dl r r'
      → IsServed dl r'
        × (length r'.workers ≡ max_threads)
        × ((i : I) (w : Worker)
            → handle tpcleader_handle kvserver_handle dl i w r'.shared ≡ none
            → (w ≡ leaves) ⊎ ((w ≡ pops_job) × (dl.items r'.shared.wq.list ≡ [])))
  unfolding Stuck
  Steps-IsServed calls n kind r r' eq run =
      let k = run-Kept calls n kind r r' eq run in
      (Kept-IsServed dl r' n k, k.threads, worker-Stuck r'.shared k.pushed k.reached)
