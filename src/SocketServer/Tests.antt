-- ===== src/SocketServer/Tests.antt =====
-- The theorems of the socket server at a concrete run, with plain lists for utlist.h, and a leader
-- that counts.
use cs162hw.Base.{
  ℤ, pos, ℕ, suc, ◌≡◌, refl, ap, ◌⊎◌, Option, none, some, List, [], ◌∷◌, ◌++◌, length, true, false,
}
use cs162hw.Queue
use cs162hw.Queue.{DlList, Queue, Popped}
use cs162hw.SocketServer.{
  is_leader, Worker, tests_loop, pops_job, serves, leaves, tests_listening, accepts, offers, Shared,
  Running, handle, accept_step, above_zero, server_stop, server_run, new_server, Setup, new_workers,
  here, Step, worker_runs, acceptor_runs, Steps, done, next,
}
use cs162hw.SocketServer.Served.{IsServed, Steps-IsServed}
use cs162hw.SocketServer.Stopped.{Finishes, Steps-Finishes}

abbrev first_of : List ℤ → Option ℤ
first_of [] = none
first_of (x ∷ xs) = some x

abbrev behind_first : List ℤ → List ℤ
behind_first [] = []
behind_first (x ∷ xs) = xs

abbrev plain : DlList ℤ
plain = record {
  Carrier = List ℤ;
  items = λ l. l;
  empty = [];
  append = λ l x. l ++ x ∷ [];
  head = first_of;
  delete_head = behind_first;
  items-empty = refl;
  items-append = λ l x. refl;
  head-some = λ l x xs is. ap first_of is;
  items-delete_head = λ l x xs is. ap behind_first is;
}

-- Either handler counts the connections.
abbrev counts_one : ℕ → ℕ → ℕ
counts_one n input = suc n

abbrev Server : Type 0
Server = Running ℕ ℕ plain

abbrev good_calls : Setup
good_calls = record { socket = pos 3; setsockopt = pos 0; bind = pos 0; listen = pos 0 }

abbrev new_one : Server
new_one = new_server plain 1 (is_leader 0)

abbrev state_with : Queue plain → List ℤ → List ℤ → Shared ℕ ℕ plain
state_with q accepted taken = record {
  listening = true;
  wq = q;
  kind = is_leader 0;
  accepted = accepted;
  taken = taken;
  handled = [];
  closed = [];
}

abbrev client : ℤ
client = pos 7

abbrev queue_of : List ℤ → Queue plain
queue_of l = record { size = length l; list = l }

abbrev accepting_one : Server
accepting_one = record {
  shared = state_with (queue_of []) [] [];
  acceptor = accepts;
  workers = tests_loop ∷ [];
}

abbrev offering_one : Server
offering_one = record {
  shared = state_with (queue_of []) (client ∷ []) [];
  acceptor = offers client;
  workers = tests_loop ∷ [];
}

abbrev pushed_one : Server
pushed_one = record {
  shared = state_with (queue_of (client ∷ [])) (client ∷ []) [];
  acceptor = tests_listening;
  workers = tests_loop ∷ [];
}

abbrev popping_one : Server
popping_one = record {
  shared = state_with (queue_of (client ∷ [])) (client ∷ []) [];
  acceptor = tests_listening;
  workers = pops_job ∷ [];
}

abbrev serving_one : Server
serving_one = record {
  shared = state_with (queue_of []) (client ∷ []) (client ∷ []);
  acceptor = tests_listening;
  workers = serves client ∷ [];
}

abbrev StepOf : Server → Server → Type 0
StepOf r r' = Step {I = ℕ} counts_one counts_one plain r r'

abbrev RunOf : Server → Server → Type 0
RunOf r r' = Steps {I = ℕ} counts_one counts_one plain r r'

test_step : StepOf new_one accepting_one
unfolding new_server new_workers Queue.init accept_step
test_step = acceptor_runs (pos 0) refl

accept_one : StepOf accepting_one offering_one
unfolding accept_step above_zero
accept_one = acceptor_runs client refl

push_step : StepOf offering_one pushed_one
unfolding accept_step Queue.push
push_step = acceptor_runs (pos 0) refl

work_step : StepOf pushed_one popping_one
unfolding handle
work_step = worker_runs 0 refl here

pop_step : StepOf popping_one serving_one
unfolding handle Queue.pop
pop_step = worker_runs 0 refl here

one_served : RunOf new_one serving_one
one_served = next (next (next (next (next done test_step) accept_one) push_step) work_step) pop_step

started : server_run plain good_calls 1 (is_leader 0) ≡ some new_one
unfolding server_run
started = refl

Steps-IsServed_example :
    IsServed plain serving_one
    × (length serving_one.workers ≡ 1)
    × ((i : ℕ) (w : Worker)
        → handle counts_one counts_one plain i w serving_one.shared ≡ none
        → (w ≡ leaves) ⊎ ((w ≡ pops_job) × (plain.items serving_one.shared.wq.list ≡ [])))
Steps-IsServed_example =
    Steps-IsServed counts_one counts_one plain good_calls 1 (is_leader 0) new_one serving_one
      started one_served

-- A worker is in wq_pop when the server is stopped, and takes the connection all the same.
abbrev stopped_with : Shared ℕ ℕ plain → List Worker → Server
stopped_with s ws = record {
  shared = server_stop plain s;
  acceptor = tests_listening;
  workers = ws;
}

late_step :
    StepOf
      (stopped_with popping_one.shared (pops_job ∷ []))
      (stopped_with serving_one.shared (serves client ∷ []))
unfolding handle Queue.pop server_stop
late_step = worker_runs 0 refl here

is_off : (s : Shared ℕ ℕ plain) → (server_stop plain s).listening ≡ false
unfolding server_stop
is_off s = refl

Steps-Finishes_example :
    Finishes counts_one counts_one plain
      (stopped_with popping_one.shared (pops_job ∷ []))
      (stopped_with serving_one.shared (serves client ∷ []))
Steps-Finishes_example =
    Steps-Finishes counts_one counts_one plain (stopped_with popping_one.shared (pops_job ∷ []))
      (stopped_with serving_one.shared (serves client ∷ [])) (is_off popping_one.shared)
      (next done late_step)
