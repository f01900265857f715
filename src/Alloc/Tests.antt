-- ===== src/Alloc/Tests.antt =====
-- The theorems of the allocator at concrete inputs: a used slot of 8 bytes and a free one of 100.
use cs162hw.Base.{ℕ, ◌≡◌, refl, ◌⊎◌, inl, true, false, none, some, [], ◌∷◌, arith}
use cs162hw.Alloc
use cs162hw.Alloc.{
  Slot, Heap, slot_size, mm_malloc, mm_free, mm_realloc, free_at, absorb, merge_before, rejoin,
}
use cs162hw.Alloc.Tiles.{IsHeap}
use cs162hw.Alloc.Calls.{free-IsHeap}
use cs162hw.Alloc.Block.{Block, malloc-Block}
use cs162hw.Alloc.Realloc.{Moved, realloc-Moved}

abbrev used : Slot
used = record { addr = 32; is_free = false; size = 8 }

abbrev free : Slot
free = record { addr = 72; is_free = true; size = 100 }

abbrev heap : Heap
heap = record {
  is_init = true;
  head = 0;
  slots = used ∷ free ∷ [];
  brk = 204;
  limit = 1000;
  floor = 0;
  crashed = false;
  memory = λ x. 7;
}

heap-IsHeap : IsHeap heap
heap-IsHeap = record { tile = λ there. (refl, (refl, refl)) }

malloc-Block_example :
    ((mm_malloc heap 20).0 ≡ none)
    ⊎ ((q : ℕ) × ((mm_malloc heap 20).0 ≡ some q) × Block heap 20 q (mm_malloc heap 20).1)
malloc-Block_example = malloc-Block heap 20 heap-IsHeap refl (omega arith) (omega arith)

-- The used slot is merged with the free one behind it.
abbrev merged : Heap
merged = record heap {
  slots = record { addr = 32; is_free = true; size = 140 } ∷ [];
  memory = Alloc.clear 64 140 (λ x. 7);
}

free-IsHeap_example : IsHeap merged × (merged.brk ≡ heap.brk)
free-IsHeap_example =
    free-IsHeap heap merged (some 64) heap-IsHeap
      (unfold mm_free free_at absorb merge_before rejoin in refl)

realloc-Moved_example :
    (mm_realloc heap (some 64) 20 ≡ some (none, heap))
    ⊎ ((q : ℕ) × (g : Heap) × (mm_realloc heap (some 64) 20 ≡ some (some q, g))
        × IsHeap g
        × Moved heap used 20 q g)
realloc-Moved_example = realloc-Moved heap used 19 heap-IsHeap refl (inl refl) refl (omega arith)
