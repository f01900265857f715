-- ===== src/Queue/Tests.antt =====
-- The theorem of the queue at a concrete input, with a plain list for utlist.h.
use cs162hw.Base.{ℕ, ◌≡◌, refl, ap, ◌⊎◌, Option, none, some, List, [], ◌∷◌, ◌++◌}
use cs162hw.Queue.{DlList, Queue, init, push, pop, waits, returns, starts, pushes}
use cs162hw.Queue.Fifo.{IsFifo, Reaches-IsFifo}

abbrev first_of : List ℕ → Option ℕ
first_of [] = none
first_of (x ∷ xs) = some x

abbrev behind_first : List ℕ → List ℕ
behind_first [] = []
behind_first (x ∷ xs) = xs

abbrev plain : DlList ℕ
plain = record {
  Carrier = List ℕ;
  items = λ l. l;
  empty = [];
  append = λ l x. l ++ x ∷ [];
  head = first_of;
  delete_head = behind_first;
  items-empty = refl;
  items-append = λ l x. refl;
  head-some = λ l x xs is. ap first_of is;
  items-delete_head = λ l x xs is. ap behind_first is;
}

abbrev one : Queue plain
one = push plain (init plain) 5

Reaches-IsFifo_example :
    IsFifo plain one (5 ∷ []) []
    × (((plain.items one.list ≡ []) × (pop plain one ≡ waits))
        ⊎ ((x : ℕ) × (xs : List ℕ) × (q' : Queue plain) × (plain.items one.list ≡ x ∷ xs)
            × (pop plain one ≡ returns x q')))
Reaches-IsFifo_example = Reaches-IsFifo plain one (5 ∷ []) [] (pushes 5 starts)
