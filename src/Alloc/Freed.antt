-- ===== src/Alloc/Freed.antt =====
-- What mm_free leaves to the other blocks.
use cs162hw.Base.{
  ℕ, ◌+◌, ◌≤◌, ◌<◌, ◌≡◌, ◌≢◌, ◌∙◌, refl, ap, sym, subst, true, false, Option, some, List, [], ◌∷◌,
  Bool-cases, inl, inr, ◌⊎◌, ◌==◌, arith, if◌then◌else◌,
}
use cs162hw.Alloc.{Slot, Heap, slot_size, absorb, merge_before, rejoin, free_at, mm_free}
use cs162hw.Alloc.Tiles.{IsHeap, Has}
use cs162hw.Alloc.Joins.{merge_before-free, merge_before-used}
use cs162hw.Alloc.Calls.{merged, free_at-other, free_at-here, free-some, free_at-Tile}
use cs162hw.Alloc.Overlap.{disjoint, clear_out}

absorb-free :
    (s t : Slot) (rest : List Slot)
    → t.is_free ≡ true
    → absorb s (t ∷ rest) ≡ absorb (record s { size = s.size + (t.size + slot_size) }) rest
unfolding absorb
absorb-free s t rest free =
    ap
      (λ x.
        if x
        then absorb (record s { size = s.size + (t.size + slot_size) }) rest
        else (s, t ∷ rest))
      free

absorb-used :
    (s t : Slot) (rest : List Slot) → t.is_free ≡ false → absorb s (t ∷ rest) ≡ (s, t ∷ rest)
unfolding absorb
absorb-used s t rest used =
    ap
      (λ x.
        if x
        then absorb (record s { size = s.size + (t.size + slot_size) }) rest
        else (s, t ∷ rest))
      used

Has-used : (u t : Slot) → u.is_free ≡ false → t.is_free ≡ true → u ≢ t
Has-used u t used free same = ground (arith, ap (λ x. x.is_free) same)

module _ (u : Slot) (used : u.is_free ≡ false) where
  -- Only free slots are taken in.
  absorb-Has : (rest : List Slot) (s : Slot) → Has u rest → Has u (absorb s rest).1
  absorb-Has [] s has = elim has [ ]
  absorb-Has (t ∷ rest) s has = elim (Bool-cases t.is_free) [
    | inr other ↦ subst (λ r. Has u r.1) (sym (absorb-used s t rest other)) has
    | inl free ↦
        subst (λ r. Has u r.1) (sym (absorb-free s t rest free))
          (elim has [
            | inl same ↦ absurd (Has-used u t used free same)
            | inr there ↦ absorb-Has rest (record s { size = s.size + (t.size + slot_size) }) there
          ])
  ]

  merge_before-Has :
      (before : List Slot) (s : Slot) → Has u before → Has u (merge_before before s).0
  merge_before-Has [] s has = elim has [ ]
  merge_before-Has (b ∷ before) s has = elim (Bool-cases b.is_free) [
    | inr other ↦ subst (λ r. Has u r.0) (sym (merge_before-used b before s other)) has
    | inl free ↦
        subst (λ r. Has u r.0) (sym (merge_before-free b before s free))
          (elim has [
            | inl same ↦ absurd (Has-used u b used free same)
            | inr there ↦
                merge_before-Has before (record b { size = b.size + (s.size + slot_size) }) there
          ])
  ]

pub rejoin-Has :
    (u : Slot) (before ss : List Slot) → Has u before ⊎ Has u ss → Has u (rejoin before ss)
unfolding rejoin
rejoin-Has u [] ss (inl has) = elim has [ ]
rejoin-Has u [] ss (inr has) = has
rejoin-Has u (b ∷ before) ss (inl (inl same)) = rejoin-Has u before (b ∷ ss) (inr (inl same))
rejoin-Has u (b ∷ before) ss (inl (inr has)) = rejoin-Has u before (b ∷ ss) (inl has)
rejoin-Has u (b ∷ before) ss (inr has) = rejoin-Has u before (b ∷ ss) (inr (inr has))

-- What takes in other slots stays free.
absorb-is_free : (rest : List Slot) (s : Slot) → s.is_free ≡ true → (absorb s rest).0.is_free ≡ true
unfolding absorb
absorb-is_free [] s free = free
absorb-is_free (t ∷ rest) s free = elim (Bool-cases t.is_free) [
  | inr other ↦ subst (λ r. r.0.is_free ≡ true) (sym (absorb-used s t rest other)) free
  | inl taken ↦
      subst (λ r. r.0.is_free ≡ true) (sym (absorb-free s t rest taken))
        (absorb-is_free rest (record s { size = s.size + (t.size + slot_size) }) free)
]

merge_before-is_free :
    (before : List Slot) (s : Slot) → s.is_free ≡ true → (merge_before before s).1.is_free ≡ true
unfolding merge_before
merge_before-is_free [] s free = free
merge_before-is_free (b ∷ before) s free = elim (Bool-cases b.is_free) [
  | inr other ↦ subst (λ r. r.1.is_free ≡ true) (sym (merge_before-used b before s other)) free
  | inl taken ↦
      subst (λ r. r.1.is_free ≡ true) (sym (merge_before-free b before s taken))
        (merge_before-is_free before (record b { size = b.size + (s.size + slot_size) }) taken)
]

abbrev Found : Type 0
Found = Option (Slot × List Slot)

-- The search of mm_free finds the slot of the pointer; what comes of it is a free slot of the new
-- list, in which the other used slots are still there.
free_at-found :
    (ss before : List Slot) (p : ℕ) (t : Slot)
    → Has t ss
    → t.addr + slot_size ≡ p
    → (s : Slot) × (slots : List Slot) × (free_at before p ss ≡ some (s, slots))
free_at-found [] before p t has at = elim has [ ]
free_at-found (r ∷ ss) before p t has at = elim (Bool-cases (r.addr + slot_size == p)) [
  | inl here ↦ (_, _, free_at-here r ss before p here)
  | inr other ↦ rw (free_at-other r ss before p other) (elim has [
    | inl same ↦ absurd (ground (arith, ap (λ x. x.addr) same, at, other))
    | inr there ↦ free_at-found ss (r ∷ before) p t there at
  ])
]

parts :
    (s s' : Slot) (ss ss' : List Slot)
    → ◌≡◌ {A = Found} (some (s, ss)) (some (s', ss'))
    → (s ≡ s') × (ss ≡ ss')
parts s s' ss ss' eq = (cc, cc)

free_at-new :
    (ss before : List Slot) (p : ℕ) (s : Slot) (slots : List Slot)
    → free_at before p ss ≡ some (s, slots)
    → Has s slots × (s.is_free ≡ true)
unfolding free_at
free_at-new [] before p s slots run = cc
free_at-new (t ∷ rest) before p s slots run = elim (Bool-cases (t.addr + slot_size == p)) [
  | inr other ↦
      free_at-new rest (t ∷ before) p s slots (sym (free_at-other t rest before p other) ∙ run)
  | inl here ↦
      let m = merged t rest before p in
      let (es, el) = parts m.1 s _ slots (sym (free_at-here t rest before p here) ∙ run) in
      rw (← es, ← el)
        (
          rejoin-Has m.1 m.0 (m.1 ∷ _) (inr (inl refl)),
          merge_before-is_free before (absorb (record t { is_free = true }) rest).0
              (absorb-is_free rest (record t { is_free = true }) refl),
        )
]

free_at-Has :
    (ss before : List Slot) (p : ℕ) (s u : Slot) (slots : List Slot)
    → free_at before p ss ≡ some (s, slots)
    → u.is_free ≡ false
    → u.addr + slot_size ≢ p
    → Has u before ⊎ Has u ss
    → Has u slots
unfolding free_at
free_at-Has [] before p s u slots run used ne has = cc
free_at-Has (t ∷ rest) before p s u slots run used ne has =
    elim (Bool-cases (t.addr + slot_size == p)) [
      | inr other ↦
          free_at-Has rest (t ∷ before) p s u slots
            (sym (free_at-other t rest before p other) ∙ run) used ne
            (elim has [
              | inl old ↦ inl (inr old)
              | inr (inl same) ↦ inl (inl same)
              | inr (inr there) ↦ inr there
            ])
      | inl here ↦
          let m = merged t rest before p in
          let freed : Slot = record t { is_free = true } in
          let (es, el) = parts m.1 s _ slots (sym (free_at-here t rest before p here) ∙ run) in
          rw (← el) (
            rejoin-Has u m.0 (m.1 ∷ (absorb freed rest).1) (elim has [
              | inl old ↦ inl (merge_before-Has u used before (absorb freed rest).0 old)
              | inr (inl same) ↦ absurd (ne (ap (λ x. x.addr + slot_size) same ∙ ground arith))
              | inr (inr there) ↦ inr (inr (absorb-Has u used rest freed there))
            ]))
    ]

-- A slot that is in a later heap too, with the bytes that it had.
abbrev pub Kept : Heap → Heap → Slot → Type 0
Kept h g u =
    Has u g.slots
    × ((x : ℕ)
        → u.addr + slot_size ≤ x
        → x < u.addr + (slot_size + u.size)
        → g.memory x ≡ h.memory x)

-- mm_free of a pointer to a slot succeeds, and keeps the other used slots.
pub free-Kept :
    (h : Heap) (t : Slot) (p : ℕ)
    → IsHeap h
    → h.is_init ≡ true
    → Has t h.slots
    → t.addr + slot_size ≡ p
    → (g : Heap) × (mm_free h (some p) ≡ some g)
      × ((u : Slot) → Has u h.slots → u.is_free ≡ false → u.addr + slot_size ≢ p → Kept h g u)
free-Kept h t p inv there has at =
    let (s, slots, run) = free_at-found h.slots [] p t has at in
    let tile =
      free_at-Tile h.slots [] p (h.head + slot_size) h.brk s slots run
        (unfold rejoin in inv.tile there) in
    let (new, free) = free_at-new h.slots [] p s slots run in
    (
      _,
      free-some h p s slots run,
      λ u hu used ne.
          let stays = free_at-Has h.slots [] p s u slots run used ne (inr hu) in
          (
            stays,
            λ x from to.
                clear_out (s.addr + slot_size) s.size h.memory x
                  (elim (disjoint slots u s (h.head + slot_size) h.brk tile stays new used free) [
                    | inl below ↦ inl (omega (arith, below))
                    | inr above ↦ inr (omega (arith, above))
                  ]),
          ),
    )
