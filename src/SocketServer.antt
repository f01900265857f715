-- ===== src/SocketServer.antt =====
-- hw4/src/socket_server.c: the thread of server_run, which accepts connections, the threads that
-- take them from the work queue, and server_stop. The handler of the leader or of the follower that
-- a server stands for is a parameter, as are the macros of utlist.h; `I` is what a connection sends.
-- One run of a handler is one step.
pub mod History
pub mod Kept
pub mod Accepting
pub mod Served
pub mod Stopped
mod Tests
use cs162hw.Base.{
  ℤ, pos, negsuc, ℕ, zero, suc, Bool, true, false, Option, none, some, List, [], ◌∷◌, ◌++◌, ◌≡◌,
  ◌==◌, ◌||◌, if◌then◌else◌,
}
use cs162hw.Queue
use cs162hw.Queue.{DlList, Queue, waits, crashes, returns}

-- The union of server_t, with the flag `leader`.
pub data ServerKind (L F : Type 0) : Type 0 where
  is_leader : L → ServerKind L F
  is_follower : F → ServerKind L F

-- Where a thread of `handle` is: at the test of the loop, in wq_pop, in the handler of a connection,
-- in close, or behind the loop.
pub data Worker : Type 0 where
  tests_loop : Worker
  pops_job : Worker
  serves : ℤ → Worker
  closes : ℤ → Worker
  leaves : Worker

-- Where server_run is: at the test of its loop, in accept, in wq_push, or behind the loop.
pub data Acceptor : Type 0 where
  tests_listening : Acceptor
  accepts : Acceptor
  offers : ℤ → Acceptor
  ends : Acceptor

module _ (L F : Type 0) (dl : DlList ℤ) where
  -- The fields of server_t that the threads share; and the connections accepted, taken from the
  -- queue, handled and closed so far.
  pub record Shared : Type 0 where
    pub listening : Bool
    pub wq : Queue dl
    pub kind : ServerKind L F
    pub accepted : List ℤ
    pub taken : List ℤ
    pub handled : List ℤ
    pub closed : List ℤ

  -- A server: what its threads share, the thread of server_run, and its workers.
  pub record Running : Type 0 where
    pub shared : Shared
    pub acceptor : Acceptor
    pub workers : List Worker

module _ {L F I : Type 0} (tpcleader_handle : L → I → L) (kvserver_handle : F → I → F)
    (dl : DlList ℤ) where
  -- The handler that `handle` chooses.
  unfoldable pub run_handler : ServerKind L F → I → ServerKind L F
  run_handler (is_leader l) i = is_leader (tpcleader_handle l i)
  run_handler (is_follower f) i = is_follower (kvserver_handle f i)

  -- The next step of a thread of `handle`; `none` where it waits, faults or is done.
  unfoldable pub handle : I → Worker → Shared L F dl → Option (Worker × Shared L F dl)
  handle i tests_loop s = if s.listening then some (pops_job, s) else some (leaves, s)
  handle i pops_job s = elim (Queue.pop dl s.wq) [
    | waits ↦ none
    | crashes ↦ none
    | returns sockfd wq ↦ some (serves sockfd, record s { wq = wq; taken = s.taken ++ sockfd ∷ [] })
  ]
  handle i (serves sockfd) s =
      some (
        closes sockfd,
        record s { kind = run_handler s.kind i; handled = s.handled ++ sockfd ∷ [] },
      )
  handle i (closes sockfd) s = some (tests_loop, record s { closed = s.closed ++ sockfd ∷ [] })
  handle i leaves s = none

-- `client_sock > 0`.
unfoldable pub above_zero : ℤ → Bool
above_zero (pos zero) = false
above_zero (pos (suc n)) = true
above_zero (negsuc n) = false

module _ {L F : Type 0} (dl : DlList ℤ) where
  -- The next step of the loop of server_run, given what accept returns.
  unfoldable pub accept_step : ℤ → Acceptor → Shared L F dl → Acceptor × Shared L F dl
  accept_step client_sock tests_listening s = (if s.listening then accepts else ends, s)
  accept_step client_sock accepts s =
      if above_zero client_sock
      then (offers client_sock, record s { accepted = s.accepted ++ client_sock ∷ [] })
      else (tests_listening, s)
  accept_step client_sock (offers sockfd) s =
      (tests_listening, record s { wq = Queue.push dl s.wq sockfd })
  accept_step client_sock ends s = (ends, s)

  -- server_stop, but for the socket that it shuts.
  unfoldable pub server_stop : Shared L F dl → Shared L F dl
  server_stop s = record s { listening = false }

-- What the calls of server_run return before its loop.
pub record Setup : Type 0 where
  pub socket : ℤ
  pub setsockopt : ℤ
  pub bind : ℤ
  pub listen : ℤ

-- `== -1`.
abbrev pub is_failure : ℤ → Bool
is_failure (pos n) = false
is_failure (negsuc n) = n == 0

unfoldable pub new_workers : ℕ → List Worker
new_workers zero = []
new_workers (suc n) = tests_loop ∷ new_workers n

-- The server in front of the loop of server_run.
unfoldable pub new_server : {L F : Type 0} (dl : DlList ℤ) → ℕ → ServerKind L F → Running L F dl
new_server dl max_threads kind = record {
  shared = record {
    listening = true;
    wq = Queue.init dl;
    kind = kind;
    accepted = [];
    taken = [];
    handled = [];
    closed = [];
  };
  acceptor = tests_listening;
  workers = new_workers max_threads;
}

-- server_run up to its loop; `none` where it exits.
unfoldable pub server_run :
    {L F : Type 0} (dl : DlList ℤ) → Setup → ℕ → ServerKind L F → Option (Running L F dl)
server_run dl calls max_threads kind =
    if is_failure calls.socket
      || is_failure calls.setsockopt
      || is_failure calls.bind
      || is_failure calls.listen
    then none
    else some (new_server dl max_threads kind)

-- One worker of a list moves.
pub data Moves (w w' : Worker) : List Worker → List Worker → Type 0 where
  here : {ws : List Worker} → Moves w w' (w ∷ ws) (w' ∷ ws)
  there : {v : Worker} {ws ws' : List Worker} → Moves w w' ws ws' → Moves w w' (v ∷ ws) (v ∷ ws')

module _ {L F I : Type 0} (tpcleader_handle : L → I → L) (kvserver_handle : F → I → F)
    (dl : DlList ℤ) where
  -- One thread makes a step.
  pub data Step : Running L F dl → Running L F dl → Type 0 where
    worker_runs :
        {s s' : Shared L F dl} {a : Acceptor} {w w' : Worker} {ws ws' : List Worker} (i : I)
        → handle tpcleader_handle kvserver_handle dl i w s ≡ some (w', s')
        → Moves w w' ws ws'
        → Step
            (record { shared = s; acceptor = a; workers = ws })
            (record { shared = s'; acceptor = a; workers = ws' })
    acceptor_runs :
        {s s' : Shared L F dl} {a a' : Acceptor} {ws : List Worker} (client_sock : ℤ)
        → accept_step dl client_sock a s ≡ (a', s')
        → Step
            (record { shared = s; acceptor = a; workers = ws })
            (record { shared = s'; acceptor = a'; workers = ws })
    stops :
        {s : Shared L F dl} {a : Acceptor} {ws : List Worker}
        → Step
            (record { shared = s; acceptor = a; workers = ws })
            (record { shared = server_stop dl s; acceptor = a; workers = ws })

  -- Any number of steps, in any order of the threads.
  pub data Steps : Running L F dl → Running L F dl → Type 0 where
    done : {r : Running L F dl} → Steps r r
    next : {r r' r'' : Running L F dl} → Steps r r' → Step r' r'' → Steps r r''
