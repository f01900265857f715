-- ===== src/SocketServer/Accepting.antt =====
-- What each step of the loop of server_run keeps, and any number of steps of all threads.
use cs162hw.Base.{
  ℤ, ℕ, ◌≡◌, ◌∙◌, refl, ap, sym, subst, Bool, true, false, List, [], ◌∷◌, ◌++◌, append-nil,
  if◌then◌else◌, arith,
}
use cs162hw.Queue.{DlList, Reaches, pushes}
use cs162hw.SocketServer.{
  Worker, Acceptor, tests_listening, accepts, offers, ends, Shared, Running, accept_step,
  above_zero, server_stop, Step, worker_runs, acceptor_runs, stops, Steps, done, next,
}
use cs162hw.SocketServer.History.{tally, offered}
use cs162hw.SocketServer.Kept.{Kept, StepKeeps, worker_keeps}

module _ {L F : Type 0} (dl : DlList ℤ) where
  -- The same for the thread of server_run.
  AcceptKeeps : Acceptor → Shared L F dl → Acceptor → Shared L F dl → Type 0
  AcceptKeeps a s a' s' =
      (ws : List Worker)
      → (n : ℕ) → Kept dl (record { shared = s; acceptor = a; workers = ws }) n
      → Kept dl (record { shared = s'; acceptor = a'; workers = ws }) n

  offer_keeps :
      (a a' : Acceptor) (s s' : Shared L F dl)
      → ((pushed : List ℤ)
          → Reaches dl s.wq pushed s.taken
          → s.accepted ≡ pushed ++ offered a
          → (pushed' : List ℤ) × Reaches dl s'.wq pushed' s'.taken
            × (s'.accepted ≡ pushed' ++ offered a'))
      → s'.taken ≡ s.taken
      → s'.handled ≡ s.handled
      → s'.closed ≡ s.closed
      → AcceptKeeps a s a' s'
  unfolding AcceptKeeps
  offer_keeps a a' s s' moved same_taken same_handled same_closed ws n k =
      let queue = moved k.pushed k.reached k.offer in
      record {
        pushed = queue.0;
        reached = queue.1;
        offer = queue.2;
        handled_once = λ p.
            omega (arith, k.handled_once p, ap (tally p) same_taken, ap (tally p) same_handled);
        closed_once = λ p.
            omega (arith, k.closed_once p, ap (tally p) same_handled, ap (tally p) same_closed);
        threads = k.threads;
      }

  stay : (a a' : Acceptor) (s : Shared L F dl) → offered a ≡ offered a' → AcceptKeeps a s a' s
  stay a a' s same =
      offer_keeps a a' s s
        (λ pushed reached offer. (pushed, reached, offer ∙ ap (λ x. pushed ++ x) same)) refl refl
        refl

  tested_keeps :
      (s : Shared L F dl) (b : Bool) → AcceptKeeps tests_listening s (if b then accepts else ends) s
  tested_keeps s true = stay tests_listening accepts s refl
  tested_keeps s false = stay tests_listening ends s refl

  accepted_keeps :
      (c : ℤ) (s : Shared L F dl) (b : Bool)
      → let to : Acceptor × Shared L F dl =
          if b
          then (offers c, record s { accepted = s.accepted ++ c ∷ [] })
          else (tests_listening, s) in
        AcceptKeeps accepts s to.0 to.1
  accepted_keeps c s true =
      offer_keeps accepts (offers c) s _
        (λ pushed reached offer.
          (pushed, reached, ap (λ l. l ++ c ∷ []) (offer ∙ append-nil pushed)))
        refl refl refl
  accepted_keeps c s false = stay accepts tests_listening s refl

  accept_keeps :
      (c : ℤ) (a : Acceptor) (s : Shared L F dl)
      → AcceptKeeps a s (accept_step dl c a s).0 (accept_step dl c a s).1
  unfolding accept_step
  accept_keeps c tests_listening s = tested_keeps s s.listening
  accept_keeps c accepts s = accepted_keeps c s (above_zero c)
  accept_keeps c (offers x) s =
      offer_keeps (offers x) tests_listening s _
        (λ pushed reached offer.
          (pushed ++ x ∷ [], pushes x reached, offer ∙ sym (append-nil (pushed ++ x ∷ []))))
        refl refl refl
  accept_keeps c ends s = stay ends ends s refl

  stop_keeps : (a : Acceptor) (s : Shared L F dl) → AcceptKeeps a s a (server_stop dl s)
  unfolding server_stop
  stop_keeps a s =
      offer_keeps a a s _ (λ pushed reached offer. (pushed, reached, offer)) refl refl refl

module _ {L F I : Type 0} (tpcleader_handle : L → I → L) (kvserver_handle : F → I → F)
    (dl : DlList ℤ) where
  Step-Kept :
      (r r' : Running L F dl) (n : ℕ)
      → Step tpcleader_handle kvserver_handle dl r r'
      → Kept dl r n
      → Kept dl r' n
  unfolding StepKeeps AcceptKeeps
  Step-Kept _ _ n
        (worker_runs {s = s} {s' = s'} {a = a} {w = w} {w' = w'} {ws = ws} {ws' = ws'} i eq m) k =
      worker_keeps tpcleader_handle kvserver_handle dl i w w' s s' eq a ws ws' n m k
  Step-Kept _ _ n (acceptor_runs {s = s} {s' = s'} {a = a} {a' = a'} {ws = ws} c eq) k =
      subst
        (λ (x : Acceptor × Shared L F dl).
          Kept dl (record { shared = x.1; acceptor = x.0; workers = ws }) n)
        eq (accept_keeps dl c a s ws n k)
  Step-Kept _ _ n (stops {s = s} {a = a} {ws = ws}) k = stop_keeps dl a s ws n k

  pub Steps-Kept :
      (r r' : Running L F dl) (n : ℕ)
      → Steps tpcleader_handle kvserver_handle dl r r'
      → Kept dl r n
      → Kept dl r' n
  Steps-Kept _ _ n done k = k
  Steps-Kept r _ n (next {r' = r'} {r'' = r''} run step) k =
      Step-Kept r' r'' n step (Steps-Kept r r' n run k)
