-- ===== src/Alloc/Calls.antt =====
-- The calls of the allocator keep the heap well-formed.
use cs162hw.Base.{
  ℕ, ◌+◌, ◌<◌, ◌≡◌, ◌≢◌, ◌∙◌, refl, ap, sym, subst, true, false, Option, none, some, List, [], ◌∷◌,
  Bool-cases, Option-cases, inl, inr, ◌==◌, arith,
}
use cs162hw.Alloc.{
  Slot, Heap, slot_size, clear, init_malloc, find_list_elem, split_slot, extend, grow, malloc_ready,
  ready, mm_malloc, absorb, merge_before, rejoin, free_at, mm_free,
}
use cs162hw.Alloc.Tiles.{
  Tile, IsHeap, find-Has, replace-Tile, split_slot-Tile, extend-grow, extend-Tile, absorb-Tile,
}
use cs162hw.Alloc.Joins.{rejoin-Tile, merge_before-Tile}

ready-Tile : (h : Heap) → IsHeap h → Tile ((ready h).head + slot_size) (ready h).slots (ready h).brk
unfolding init_malloc
ready-Tile h inv = elim (Bool-cases h.is_init) [
  | inl there ↦ simp there (inv.tile there)
  | inr new ↦ simp new refl
]

extend-head : (h : Heap) (size : ℕ) → (extend h size).1.head ≡ h.head
unfolding extend grow
extend-head h size = ground arith

extend-crashed :
    (h : Heap) (size : ℕ) → size + 36 < 9223372036854775808 → (extend h size).1.crashed ≡ h.crashed
unfolding grow
extend-crashed h size small = rw (extend-grow h size small) (ground arith)

ready-crashed : (h : Heap) → (ready h).crashed ≡ h.crashed
unfolding init_malloc
ready-crashed h = ground arith

pub malloc-IsHeap :
    (h : Heap) (size : ℕ)
    → IsHeap h
    → size + 36 < 9223372036854775808
    → IsHeap (mm_malloc h size).1 × ((mm_malloc h size).1.crashed ≡ h.crashed)
unfolding mm_malloc malloc_ready
malloc-IsHeap h size inv small =
    let g = ready h in
    let tile = ready-Tile h inv in
    elim (Bool-cases (size == 0)) [
      | inl nothing ↦ rw nothing (record { tile = λ there. tile }, ready-crashed h)
      | inr some_size ↦ rw some_size (elim (Option-cases (find_list_elem size g.slots)) [
        | inl gone ↦ rw gone (
          record {
            tile = λ there.
                subst (λ a. Tile (a + slot_size) (extend g size).1.slots (extend g size).1.brk)
                  (sym (extend-head g size))
                  (extend-Tile g size (g.head + slot_size) small gone tile);
          },
          extend-crashed g size small ∙ ready-crashed h,
        )
        | inr (s, found) ↦ rw found (
          record {
            tile = λ there.
                replace-Tile g.slots s (split_slot size s) (g.head + slot_size) g.brk
                  (find-Has size g.slots s found) tile
                  (split_slot-Tile size s (omega (arith, small)));
          },
          ready-crashed h,
        )
      ])
    ]

-- One step of the search of mm_free.
module _ (t : Slot) (rest before : List Slot) (p : ℕ) where
  abbrev pub merged : List Slot × Slot
  merged = merge_before before (absorb (record t { is_free = true }) rest).0

  pub free_at-other :
      (t.addr + slot_size == p) ≡ false → free_at before p (t ∷ rest) ≡ free_at (t ∷ before) p rest
  unfolding free_at
  free_at-other other = rw other refl

  pub free_at-here :
      (t.addr + slot_size == p) ≡ true
      → free_at before p (t ∷ rest)
        ≡ some
            (merged.1, rejoin merged.0 (merged.1 ∷ (absorb (record t { is_free = true }) rest).1))
  unfolding free_at
  free_at-here here = rw here refl

some_same : (h g : Heap) → ◌≡◌ {A = Option Heap} (some h) (some g) → h ≡ g
some_same h g eq = cc

same_list :
    (s s' : Slot) (ss ss' : List Slot)
    → ◌≡◌ {A = Option (Slot × List Slot)} (some (s, ss)) (some (s', ss'))
    → ss ≡ ss'
same_list s s' ss ss' eq = cc

pub free_at-Tile :
    (ss before : List Slot) (p a end : ℕ) (s : Slot) (slots : List Slot)
    → free_at before p ss ≡ some (s, slots)
    → Tile a (rejoin before ss) end
    → Tile a slots end
unfolding free_at
free_at-Tile [] before p a end s slots run tile = cc
free_at-Tile (t ∷ rest) before p a end s slots run tile =
    elim (Bool-cases (t.addr + slot_size == p)) [
      | inr other ↦
          free_at-Tile rest (t ∷ before) p a end s slots
            (sym (free_at-other t rest before p other) ∙ run) (unfold rejoin in tile)
      | inl here ↦
          let freed : Slot = record t { is_free = true } in
          let taken = absorb freed rest in
          let tile1 =
            rejoin-Tile before (t ∷ rest) (taken.0 ∷ taken.1) a end
              (λ m u. absorb-Tile rest freed m end u) tile in
          let tile2 = merge_before-Tile before taken.1 taken.0 a end tile1 in
          subst (λ x. Tile a x end)
            (same_list _ s _ slots (sym (free_at-here t rest before p here) ∙ run)) tile2
    ]

free-none : (h : Heap) (p : ℕ) → free_at [] p h.slots ≡ none → mm_free h (some p) ≡ none
unfolding mm_free
free-none h p gone = rw (gone, mm_free) refl

pub free-some :
    (h : Heap) (p : ℕ) (s : Slot) (slots : List Slot)
    → free_at [] p h.slots ≡ some (s, slots)
    → mm_free h (some p)
      ≡ some (record h { slots = slots; memory = clear (s.addr + slot_size) s.size h.memory })
unfolding mm_free
free-some h p s slots found = rw (found, mm_free) refl

not_some : (h : Heap) → ◌≢◌ {A = Option Heap} none (some h)
not_some h eq = cc

-- mm_free of a pointer to a slot, or of NULL, keeps the slots tiling the heap, and never moves the
-- break.
pub free-IsHeap :
    (h h' : Heap) (p : Option ℕ) → IsHeap h → mm_free h p ≡ some h' → IsHeap h' × (h'.brk ≡ h.brk)
free-IsHeap h h' none inv run =
    unfold mm_free in
    (subst IsHeap (some_same h h' run) inv, ap (λ g. g.brk) (sym (some_same h h' run)))
free-IsHeap h h' (some p) inv run = elim (Option-cases (free_at [] p h.slots)) [
  | inl gone ↦ absurd (not_some h' (sym (free-none h p gone) ∙ run))
  | inr ((s, slots), found) ↦
      let eq = some_same _ h' (sym (free-some h p s slots found) ∙ run) in
      (
        subst IsHeap eq (record {
          tile = λ there.
              free_at-Tile h.slots [] p (h.head + slot_size) h.brk s slots found
                (unfold rejoin in inv.tile there);
        }),
        ap (λ g. g.brk) (sym eq),
      )
]
