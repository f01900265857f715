-- ===== src/SocketServer/History.antt =====
-- The connections that the threads of a server hold.
use cs162hw.Base.{
  ℤ, ℕ, zero, suc, ◌+◌, ◌≡◌, refl, ap, Bool, List, [], ◌∷◌, ◌++◌, length, if◌then◌else◌, arith,
}
use cs162hw.SocketServer.{
  Worker, tests_loop, serves, closes, Acceptor, offers, new_workers, Moves, here, there,
}

-- How many of a list pass a test.
abbrev pub tally : (ℤ → Bool) → List ℤ → ℕ
tally p [] = 0
tally p (x ∷ xs) = (if p x then 1 else 0) + tally p xs

-- The connections that workers handle, those that they close, and the one in front of the queue.
abbrev pub served : Worker → List ℤ
served (serves x) = x ∷ []
served _ = []

abbrev pub closing : Worker → List ℤ
closing (closes x) = x ∷ []
closing _ = []

abbrev pub offered : Acceptor → List ℤ
offered (offers x) = x ∷ []
offered _ = []

abbrev pub all_of : (Worker → List ℤ) → List Worker → List ℤ
all_of f [] = []
all_of f (w ∷ ws) = f w ++ all_of f ws

pub tally-append : (p : ℤ → Bool) (xs ys : List ℤ) → tally p (xs ++ ys) ≡ tally p xs + tally p ys
tally-append p [] ys = omega arith
tally-append p (x ∷ xs) ys = omega (arith, tally-append p xs ys)

module _ (p : ℤ → Bool) (f : Worker → List ℤ) {w w' : Worker} where
  pub tally-move :
      (ws ws' : List Worker)
      → Moves w w' ws ws'
      → tally p (all_of f ws) + tally p (f w') ≡ tally p (all_of f ws') + tally p (f w)
  tally-move _ _ (here {ws = ws}) =
      omega (arith, tally-append p (f w) (all_of f ws), tally-append p (f w') (all_of f ws))
  tally-move _ _ (there {v = v} {ws = ws} {ws' = ws'} m) = omega (
    arith,
    tally-append p (f v) (all_of f ws),
    tally-append p (f v) (all_of f ws'),
    tally-move ws ws' m,
  )

pub length-move :
    {w w' : Worker} (ws ws' : List Worker) → Moves w w' ws ws' → length ws' ≡ length ws
length-move _ _ here = refl
length-move _ _ (there {ws = ws} {ws' = ws'} m) = ap suc (length-move ws ws' m)

pub none_busy : (f : Worker → List ℤ) (n : ℕ) → f tests_loop ≡ [] → all_of f (new_workers n) ≡ []
unfolding new_workers
none_busy f zero free = refl
none_busy f (suc n) free = rw (free, none_busy f n free) refl

pub length-new_workers : (n : ℕ) → length (new_workers n) ≡ n
unfolding new_workers
length-new_workers zero = refl
length-new_workers (suc n) = ap suc (length-new_workers n)
