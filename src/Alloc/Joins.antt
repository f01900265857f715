-- ===== src/Alloc/Joins.antt =====
-- What joining slots that are next to each other does to the tiling of the heap.
use cs162hw.Base.{
  ℕ, ◌+◌, ◌≡◌, ap, sym, subst, true, false, List, [], ◌∷◌, Bool-cases, inl, inr, arith,
  if◌then◌else◌,
}
use cs162hw.Alloc.{Slot, slot_size, merge_before, rejoin}
use cs162hw.Alloc.Tiles.{Tile}

pub rejoin-Tile :
    (before ss ts : List Slot) (a end : ℕ)
    → ((m : ℕ) → Tile m ss end → Tile m ts end)
    → Tile a (rejoin before ss) end
    → Tile a (rejoin before ts) end
unfolding rejoin
rejoin-Tile [] ss ts a end same tile = same a tile
rejoin-Tile (b ∷ before) ss ts a end same tile =
    rejoin-Tile before (b ∷ ss) (b ∷ ts) a end (λ m t. (t.0, same _ t.1)) tile

pub merge_before-free :
    (b : Slot) (before : List Slot) (s : Slot)
    → b.is_free ≡ true
    → merge_before (b ∷ before) s
      ≡ merge_before before (record b { size = b.size + (s.size + slot_size) })
unfolding merge_before
merge_before-free b before s free =
    ap
      (λ x.
        if x
        then merge_before before (record b { size = b.size + (s.size + slot_size) })
        else (b ∷ before, s))
      free

pub merge_before-used :
    (b : Slot) (before : List Slot) (s : Slot)
    → b.is_free ≡ false
    → merge_before (b ∷ before) s ≡ (b ∷ before, s)
unfolding merge_before
merge_before-used b before s used =
    ap
      (λ x.
        if x
        then merge_before before (record b { size = b.size + (s.size + slot_size) })
        else (b ∷ before, s))
      used

pub merge_before-Tile :
    (before rest : List Slot) (s : Slot) (a end : ℕ)
    → Tile a (rejoin before (s ∷ rest)) end
    → Tile a (rejoin (merge_before before s).0 ((merge_before before s).1 ∷ rest)) end
unfolding merge_before
merge_before-Tile [] rest s a end tile = tile
merge_before-Tile (b ∷ before) rest s a end tile = elim (Bool-cases b.is_free) [
  | inr used ↦
      subst (λ r. Tile a (rejoin r.0 (r.1 ∷ rest)) end) (sym (merge_before-used b before s used))
        tile
  | inl free ↦
      subst (λ r. Tile a (rejoin r.0 (r.1 ∷ rest)) end) (sym (merge_before-free b before s free))
        (merge_before-Tile before rest (record b { size = b.size + (s.size + slot_size) }) a end
          (rejoin-Tile before (b ∷ s ∷ rest) _ a end
            (λ m t. (t.0, subst (λ x. Tile x rest end) (omega arith) t.1.1))
            (unfold rejoin in tile)))
]
