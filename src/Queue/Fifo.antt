-- ===== src/Queue/Fifo.antt =====
-- The work queue is first in, first out, for any interleaving of pushes and pops.
use cs162hw.Base.{
  ℕ, suc, ◌-◌, ◌≡◌, ◌∙◌, refl, ap, sym, subst, ◌≢◌, ◌⊎◌, inl, inr, List, [], ◌∷◌, ◌++◌, length,
  length-append, append_assoc, ◌==◌, arith, false,
}
use cs162hw.Queue.{
  DlList, Queue, init, push, pop, Popped, waits, returns, Reaches, starts, pushes, pops,
}

module _ {A : Type 0} (dl : DlList A) where
  pub record IsFifo (q : Queue dl) (ins outs : List A) : Type 0 where
    pub order : ins ≡ outs ++ dl.items q.list
    pub counted : q.size ≡ length (dl.items q.list)

  -- What a pop does, by the items of the queue.
  pop-empty :
      (q : Queue dl) → q.size ≡ length (dl.items q.list) → dl.items q.list ≡ [] → pop dl q ≡ waits
  unfolding pop
  pop-empty q counted none_left = rw (counted, none_left) refl

  pop-cons :
      (q : Queue dl) (x : A) (xs : List A)
      → q.size ≡ length (dl.items q.list)
      → dl.items q.list ≡ x ∷ xs
      → pop dl q ≡ returns x (record { size = q.size - 1; list = dl.delete_head q.list })
  unfolding pop
  pop-cons q x xs counted is =
      rw (test q.size (counted ∙ ap length is), dl.head-some q.list x xs is) refl
    where
      test : (n : ℕ) → n ≡ suc (length xs) → (n == 0) ≡ false
      test n eq = ground arith

  same_item : (x y : A) (q q' : Queue dl) → returns x q ≡ returns y q' → x ≡ y
  same_item x y q q' eq = cc

  same_queue : (x y : A) (q q' : Queue dl) → returns x q ≡ returns y q' → q ≡ q'
  same_queue x y q q' eq = cc

  waits-ne-returns : (x : A) (q : Queue dl) → ◌≢◌ {A = Popped A (Queue dl)} waits (returns x q)
  waits-ne-returns x q eq = cc

  -- The queue behind a pop.
  popped-IsFifo :
      (q q' : Queue dl) (ins outs : List A) (x : A) (items : List A)
      → IsFifo q ins outs
      → dl.items q.list ≡ items
      → pop dl q ≡ returns x q'
      → IsFifo q' ins (outs ++ x ∷ [])
  popped-IsFifo q q' ins outs x [] inv is eq =
      absurd (waits-ne-returns x q' (sym (pop-empty q inv.counted is) ∙ eq))
  popped-IsFifo q q' ins outs x (y ∷ ys) inv is eq =
      let got = sym (pop-cons q y ys inv.counted is) ∙ eq in
      let rest = dl.items-delete_head q.list y ys is in
      subst (λ r. IsFifo r ins (outs ++ x ∷ [])) (same_queue y x _ q' got)
        (record {
          order =
              inv.order
              ∙ ap (λ l. outs ++ l) (is ∙ ap (λ z. z ∷ ys) (same_item y x _ q' got))
              ∙ sym (append_assoc outs (x ∷ []) ys)
              ∙ ap (λ l. (outs ++ x ∷ []) ++ l) (sym rest);
          counted = omega (arith, inv.counted, ap length is, ap length rest);
        })

  all_reached : (q : Queue dl) (ins outs : List A) → Reaches dl q ins outs → IsFifo q ins outs
  unfolding init push
  all_reached _ _ _ starts = record {
    order = sym dl.items-empty;
    counted = ap length (sym dl.items-empty);
  }
  all_reached _ _ _ (pushes {q = q} {ins = ins} {outs = outs} x run) =
      let inv = all_reached q ins outs run in
      let grown = dl.items-append q.list x in
      record {
        order =
            ap (λ l. l ++ x ∷ []) inv.order
            ∙ append_assoc outs (dl.items q.list) (x ∷ [])
            ∙ ap (λ l. outs ++ l) (sym grown);
        counted =
            omega (arith, inv.counted, ap length grown, length-append (dl.items q.list) (x ∷ []));
      }
  all_reached _ _ _ (pops {q = q} {q' = q'} {ins = ins} {outs = outs} x run eq) =
      popped-IsFifo q q' ins outs x (dl.items q.list) (all_reached q ins outs run) refl eq

  next_pop :
      (q : Queue dl) (items : List A)
      → q.size ≡ length (dl.items q.list)
      → dl.items q.list ≡ items
      → ((dl.items q.list ≡ []) × (pop dl q ≡ waits))
        ⊎ ((x : A) × (xs : List A) × (q' : Queue dl) × (dl.items q.list ≡ x ∷ xs)
            × (pop dl q ≡ returns x q'))
  next_pop q [] counted is = inl (is, pop-empty q counted is)
  next_pop q (x ∷ xs) counted is = inr (x, xs, _, is, pop-cons q x xs counted is)

  -- In every state that calls can reach, the items pushed are those returned, followed by those in
  -- the queue, in the same order, and the size is exact; so a pop waits exactly where the queue is
  -- empty, and otherwise returns the oldest item: it never reads through NULL.
  pub Reaches-IsFifo :
      (q : Queue dl) (ins outs : List A)
      → Reaches dl q ins outs
      → IsFifo q ins outs
        × (((dl.items q.list ≡ []) × (pop dl q ≡ waits))
            ⊎ ((x : A) × (xs : List A) × (q' : Queue dl) × (dl.items q.list ≡ x ∷ xs)
                × (pop dl q ≡ returns x q')))
  Reaches-IsFifo q ins outs run =
      let inv = all_reached q ins outs run in (inv, next_pop q (dl.items q.list) inv.counted refl)
