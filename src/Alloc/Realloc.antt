-- ===== src/Alloc/Realloc.antt =====
-- What a caller of mm_realloc gets.
use cs162hw.Base.{
  ℕ, suc, ◌+◌, ◌≤◌, ◌<◌, ◌≡◌, ◌≢◌, ◌∙◌, refl, ap, sym, true, false, Option, none, some, List, [],
  ◌∷◌, Option-cases, inl, inr, ◌⊎◌, leb, ltb, ◌==◌, ◌&&◌, arith, if◌then◌else◌, ◌>>=◌,
}
use cs162hw.Alloc.{
  Slot, Heap, slot_size, copy, find_data, find_list_elem, grow, mm_malloc, mm_free, mm_realloc,
}
use cs162hw.Alloc.Tiles.{Tile, IsHeap, Has, Has-above}
use cs162hw.Alloc.Calls.{malloc-IsHeap, free-IsHeap}
use cs162hw.Alloc.Block.{Block, malloc-Block, malloc-grow, malloc-found}
use cs162hw.Alloc.Freed.{Kept, free-Kept}

-- In a tiled heap the search by address finds the slot.
find_data-Has :
    (ss : List Slot) (u : Slot) (a end : ℕ)
    → Tile a ss end
    → Has u ss
    → find_data (u.addr + slot_size) ss ≡ some u
unfolding find_data
find_data-Has [] u a end tile has = elim has [ ]
find_data-Has (t ∷ ss) u a end tile (inl same) = rw same (ground arith)
find_data-Has (t ∷ ss) u a end tile (inr there) =
    let above = Has-above ss u _ end tile.1 there in
    let other : (t.addr + slot_size == u.addr + slot_size) ≡ false =
      ground (arith, above, tile.0) in
    rw other (find_data-Has ss u _ end tile.1 there)

same_slot : (u v : Slot) → ◌≡◌ {A = Option Slot} (some u) (some v) → u ≡ v
same_slot u v eq = cc

same-addr :
    (ss : List Slot) (u v : Slot) (a end : ℕ)
    → Tile a ss end
    → Has u ss
    → Has v ss
    → u.addr ≡ v.addr
    → u ≡ v
same-addr ss u v a end tile hu hv same = same_slot u v (
    sym (find_data-Has ss u a end tile hu)
    ∙ ap (λ x. find_data (x + slot_size) ss) same
    ∙ find_data-Has ss v a end tile hv)

grow-is_init : (h : Heap) (size : ℕ) → (grow h size).1.is_init ≡ h.is_init
unfolding grow
grow-is_init h size = ground arith

grow-none : (h : Heap) (size : ℕ) → (grow h size).0 ≡ none → grow h size ≡ (none, h)
unfolding grow
grow-none h size fails = ground arith

module _ (h : Heap) (size : ℕ) (there : h.is_init ≡ true) (some_size : 0 < size)
    (small : size + 36 < 9223372036854775808) where
  malloc-is_init : (mm_malloc h size).1.is_init ≡ true
  malloc-is_init = elim (Option-cases (find_list_elem size h.slots)) [
    | inl gone ↦ rw (malloc-grow h size there some_size small gone) (grow-is_init h size ∙ there)
    | inr (s, found) ↦ rw (malloc-found h size there some_size s found) there
  ]

  -- A call that fails changes nothing.
  malloc-none : (mm_malloc h size).0 ≡ none → mm_malloc h size ≡ (none, h)
  malloc-none fails = elim (Option-cases (find_list_elem size h.slots)) [
    | inl gone ↦
        let eq = malloc-grow h size there some_size small gone in
        eq ∙ grow-none h size (ap (λ r. r.0) (sym eq) ∙ fails)
    | inr (s, found) ↦ absurd (cc (malloc-found h size there some_size s found, fails))
  ]

-- The block at `q` of `g`, which `u` of the heap `h` has moved to: a used slot of at least the size,
-- with the bytes of `u`, as many as fit, and 0 behind them; the other blocks that were in use are
-- kept.
abbrev pub Moved : Heap → Slot → ℕ → ℕ → Heap → Type 0
Moved h u size q g =
    ((s : Slot) × Has s g.slots × (s.is_free ≡ false) × (s.addr + slot_size ≡ q) × (size ≤ s.size))
    × ((x : ℕ) → x < size → x < u.size → g.memory (q + x) ≡ h.memory (u.addr + slot_size + x))
    × ((x : ℕ) → x < size → u.size ≤ x → g.memory (q + x) ≡ 0)
    × ((v : Slot) → Has v h.slots → v.is_free ≡ false → v.addr ≢ u.addr → Kept h g v)

abbrev moved : Slot → ℕ → ℕ
moved u size = if leb u.size size then u.size else size

copy_in : (q p n : ℕ) (memory : ℕ → ℕ) (x : ℕ) → x < n → copy q p n memory (q + x) ≡ memory (p + x)
copy_in q p n memory x lt =
    let inside : (leb q (q + x) && ltb (q + x) (q + n)) ≡ true = ground arith in
    rw inside (ap (λ y. memory (p + y)) (omega arith))

copy_out :
    (q p n : ℕ) (memory : ℕ → ℕ) (x : ℕ) → (x < q) ⊎ (q + n ≤ x) → copy q p n memory x ≡ memory x
copy_out q p n memory x out = ground (arith, out)

-- The copy and the release of the old block, behind a call of mm_malloc that has succeeded.
module _ (h g : Heap) (u : Slot) (size q : ℕ) (inv : IsHeap h) (inv' : IsHeap g)
    (there : h.is_init ≡ true) (there' : g.is_init ≡ true) (has : Has u h.slots)
    (used : u.is_free ≡ false) (some_size : 0 < size) (block : Block h size q g) where
  abbrev filled : Heap
  filled = record g { memory = copy q (u.addr + slot_size) (moved u size) g.memory }

  -- The new block is another one.
  apart : q ≢ u.addr + slot_size
  apart eq =
      let ((s, is, _, at, le), _, old) = block in
      let (stays, away, _) = old u has used in
      let tile = inv'.tile there' in
      let same =
        same-addr g.slots s u (g.head + slot_size) g.brk tile is stays (omega (arith, at, eq)) in
      let large = ap (λ x. x.size) same in
      elim away [
        | inl below ↦ omega (arith, below, large, le, eq, some_size)
        | inr above ↦ omega (arith, above, eq, some_size)
      ]

  copy-Moved :
      (f : Heap)
      → ((v : Slot)
          → Has v g.slots
          → v.is_free ≡ false
          → v.addr + slot_size ≢ u.addr + slot_size
          → Kept filled f v)
      → Moved h u size q f
  copy-Moved f kept =
      let ((s, is, su, at, le), zero, old) = block in
      let (stays, away, same) = old u has used in
      let (is', same_s) = kept s is su (λ e. apart (sym at ∙ e)) in
      (
        (s, is', su, at, le),
        (λ x lt lt'.
            same_s (q + x) (omega (arith, at)) (omega (arith, at, le))
            ∙ copy_in q (u.addr + slot_size) (moved u size) g.memory x (ground arith)
            ∙ same (u.addr + slot_size + x) (omega arith) (omega arith)),
        (λ x lt ge.
            same_s (q + x) (omega (arith, at)) (omega (arith, at, le))
            ∙ copy_out q (u.addr + slot_size) (moved u size) g.memory (q + x) (inr (ground arith))
            ∙ zero (q + x) (omega arith) (omega arith)),
        λ v hv vu ne.
            let (vs, va, same_v) = old v hv vu in
            let (vs', kept_v) = kept v vs vu (λ e. ne (omega (arith, e))) in
            (
              vs',
              λ x from to.
                  kept_v x from to
                  ∙ copy_out q (u.addr + slot_size) (moved u size) g.memory x (elim va [
                    | inl below ↦ inl (omega (arith, below))
                    | inr above ↦ inr (ground (arith, above))
                  ])
                  ∙ same_v x from to,
            ),
      )

realloc-none :
    (h : Heap) (p n : ℕ)
    → mm_malloc h (suc n) ≡ (none, h)
    → mm_realloc h (some p) (suc n) ≡ some (none, h)
unfolding mm_realloc
realloc-none h p n eq = rw (ap (λ r. r.0) eq, mm_realloc, ap (λ r. r.1) eq) refl

realloc-some :
    (h g f : Heap) (u : Slot) (q n : ℕ)
    → mm_malloc h (suc n) ≡ (some q, g)
    → find_data (u.addr + slot_size) g.slots ≡ some u
    → mm_free
        (record g { memory = copy q (u.addr + slot_size) (moved u (suc n)) g.memory })
        (some (u.addr + slot_size))
      ≡ some f
    → mm_realloc h (some (u.addr + slot_size)) (suc n) ≡ some (some q, f)
unfolding mm_realloc
realloc-some h g f u q n eq found freed =
    rw (ap (λ r. r.0) eq, mm_realloc, ap (λ r. r.1) eq, found, ◌>>=◌, freed) refl

pair_eq : (r : Option ℕ × Heap) (o : Option ℕ) → r.0 ≡ o → r ≡ (o, r.1)
pair_eq r o eq = λ i. (eq i, r.1)

-- On a heap that is set up and well-formed, mm_realloc of a used slot, to a size that is not 0 and
-- whose sum with the header and the least rest is below 2^63, either returns NULL and changes
-- nothing, or a pointer to a used slot with at least that many bytes: it has the bytes of the old
-- block, as many as both sizes allow, and 0 behind them. Every other slot that was in use is still
-- there with its bytes, and the slots tile the heap.
pub realloc-Moved :
    (h : Heap) (u : Slot) (n : ℕ)
    → IsHeap h
    → h.is_init ≡ true
    → Has u h.slots
    → u.is_free ≡ false
    → suc n + 36 < 9223372036854775808
    → (mm_realloc h (some (u.addr + slot_size)) (suc n) ≡ some (none, h))
      ⊎ ((q : ℕ) × (g : Heap) × (mm_realloc h (some (u.addr + slot_size)) (suc n)
            ≡ some (some q, g))
          × IsHeap g
          × Moved h u (suc n) q g)
realloc-Moved h u n inv there has used small =
    let g = (mm_malloc h (suc n)).1 in
    let some_size : 0 < suc n = omega arith in
    elim (malloc-Block h (suc n) inv there some_size small) [
      | inl fails ↦ inl (
          realloc-none h (u.addr + slot_size) n (malloc-none h (suc n) there some_size small fails))
      | inr (q, is, block) ↦
          let inv' = (malloc-IsHeap h (suc n) inv small).0 in
          let there' = malloc-is_init h (suc n) there some_size small in
          let (stays, _, _) = block.2 u has used in
          let full = filled h g u (suc n) q inv inv' there there' has used some_size block in
          let inv_full : IsHeap full = record { tile = inv'.tile } in
          let (f, freed, kept) = free-Kept full u (u.addr + slot_size) inv_full there' stays refl in
          let found = find_data-Has g.slots u (g.head + slot_size) g.brk (inv'.tile there') stays in
          inr (
            q,
            f,
            realloc-some h g f u q n (pair_eq (mm_malloc h (suc n)) (some q) is) found freed,
            (free-IsHeap full f (some (u.addr + slot_size)) inv_full freed).0,
            copy-Moved h g u (suc n) q inv inv' there there' has used some_size block f kept,
          )
    ]
