-- ===== src/Queue.antt =====
-- hw4/src/wq.c: the work queue. Its mutex makes each call one step; a pop on an empty queue waits
-- on the condition variable and does nothing. The macros of utlist.h (a copy of another project)
-- are a parameter.
pub mod Fifo
mod Tests
use cs162hw.Base.{ℕ, suc, ◌-◌, ◌≡◌, Option, none, some, List, [], ◌∷◌, ◌++◌, ◌==◌, if◌then◌else◌}

-- What wq.c uses of utlist.h: a list with the item of its head, DL_APPEND, and DL_DELETE of the
-- head; `items` is the list that it stands for.
pub record DlList (A : Type 0) : Type 1 where
  pub Carrier : Type 0
  pub items : Carrier → List A
  pub empty : Carrier
  pub append : Carrier → A → Carrier
  pub head : Carrier → Option A
  pub delete_head : Carrier → Carrier
  pub items-empty : items empty ≡ []
  pub items-append : (l : Carrier) (x : A) → items (append l x) ≡ items l ++ x ∷ []
  pub head-some : (l : Carrier) (x : A) (xs : List A) → items l ≡ x ∷ xs → head l ≡ some x
  pub items-delete_head :
      (l : Carrier) (x : A) (xs : List A) → items l ≡ x ∷ xs → items (delete_head l) ≡ xs

module _ {A : Type 0} (dl : DlList A) where
  -- wq_t
  pub record Queue : Type 0 where
    pub size : ℕ
    pub list : dl.Carrier

  -- wq_init
  unfoldable pub init : Queue
  init = record { size = 0; list = dl.empty }

  -- wq_push
  unfoldable pub push : Queue → A → Queue
  push q x = record { size = suc q.size; list = dl.append q.list x }

-- What a call of wq_pop does: it waits, or it reads `wq->head` through NULL, or it returns an item.
pub data Popped (A Q : Type 0) : Type 0 where
  waits crashes : Popped A Q
  returns : A → Q → Popped A Q

module _ {A : Type 0} (dl : DlList A) where
  -- wq_pop
  unfoldable pub pop : Queue dl → Popped A (Queue dl)
  pop q = if q.size == 0 then waits else elim (dl.head q.list) [
    | none ↦ crashes
    | some x ↦ returns x (record { size = q.size - 1; list = dl.delete_head q.list })
  ]

  -- Any interleaving of calls, with the items pushed and the items returned so far.
  pub data Reaches : Queue dl → List A → List A → Type 0 where
    starts : Reaches (init dl) [] []
    pushes :
        {q : Queue dl} {ins outs : List A} (x : A)
        → Reaches q ins outs
        → Reaches (push dl q x) (ins ++ x ∷ []) outs
    pops :
        {q q' : Queue dl} {ins outs : List A} (x : A)
        → Reaches q ins outs
        → pop q ≡ returns x q'
        → Reaches q' ins (outs ++ x ∷ [])
