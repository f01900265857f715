-- ===== src/Base/Dict.antt =====
-- A finite dictionary, as the files of a directory: association lists over keys with a Boolean
-- equality.
use Prim.Native.Nat.{ℕ, zero, suc, ◌≤◌, ◌<◌}
use mathlib.Core.Path.{◌≡◌}
use mathlib.Core.Logic.{◌↔◌}
use mathlib.Core.Bool.{Bool, true, ◌&&◌}
use mathlib.Core.Option.{Option, none, some}
use mathlib.Core.List.{List, [], ◌∷◌}
use native.Mathlib.Omega.{arith}
use cs162hw.Base.Tests.{◌==◌, ==_iff, if◌then◌else◌, is_some}
use cs162hw.Base.Lists.{length}

pub record Eq {ℓ} (A : Type ℓ) : Type ℓ where
  pub beq : A → A → Bool
  pub beq_iff : (a b : A) → (beq a b ≡ true) ↔ (a ≡ b)

instance abbrev pub nat_eq : Eq ℕ
nat_eq = record { beq = ◌==◌; beq_iff = ==_iff }

-- The number of a file within its chain, behind the number of the chain.
abbrev pub pair_eq : ℕ × ℕ → ℕ × ℕ → Bool
pair_eq (a, b) (c, d) = a == c && b == d

pub pair_eq_iff : (p q : ℕ × ℕ) → (pair_eq p q ≡ true) ↔ (p ≡ q)
pair_eq_iff (a, b) (c, d) = ground arith

instance abbrev pub pair_inst : Eq (ℕ × ℕ)
pair_inst = record { beq = pair_eq; beq_iff = pair_eq_iff }

abbrev pub Dict {ℓ κ} : Type ℓ → Type κ → Type (ℓ ⊔ κ)
Dict K V = List (K × V)

module _ {ℓ κ} {K : Type ℓ} {V : Type κ} ⦃e : Eq K⦄ where
  unfoldable pub get : Dict K V → K → Option V
  get [] k = none
  get ((j, v) ∷ d) k = if e.beq j k then some v else get d k

  unfoldable pub remove : Dict K V → K → Dict K V
  remove [] k = []
  remove ((j, v) ∷ d) k = let rest = remove d k in if e.beq j k then rest else (j, v) ∷ rest

  unfoldable pub put : Dict K V → K → V → Dict K V
  unfolding remove
  put d k v = (k, v) ∷ remove d k

  pub get-remove :
      (d : Dict K V) (k j : K) → get (remove d k) j ≡ (if e.beq k j then none else get d j)
  unfolding get remove
  get-remove [] k j = ground arith
  get-remove ((i, v) ∷ d) k j =
      ground (arith, get-remove d k j, e.beq_iff i k, e.beq_iff i j, e.beq_iff k j)

  pub get-put :
      (d : Dict K V) (k j : K) (v : V) → get (put d k v) j ≡ (if e.beq k j then some v else get d j)
  unfolding get put
  get-put d k j v = ground (arith, get-remove d k j)

  -- Removing a key that is there makes the dictionary shorter.
  pub length-remove :
      (d : Dict K V) (k : K)
      → (length (remove d k) ≤ length d)
        × (is_some (get d k) ≡ true → length (remove d k) < length d)
  unfolding get remove
  length-remove [] k = ground arith
  length-remove ((j, v) ∷ d) k = ground (arith, length-remove d k)

  -- Distinct keys that are all present are no more than the dictionary is long.
  pub pigeonhole :
      (name : ℕ → K)
      → ((i j : ℕ) → e.beq (name i) (name j) ≡ true → i ≡ j)
      → (n : ℕ) (d : Dict K V) → ((i : ℕ) → i < n → is_some (get d (name i)) ≡ true)
      → n ≤ length d
  pigeonhole name inj zero d all = omega arith
  pigeonhole name inj (suc n) d all =
      let shorter = (length-remove d (name n)).1 (all n (omega arith)) in
      let kept =
        pigeonhole name inj n (remove d (name n))
          (λ i lt. ground (arith, get-remove d (name n) (name i), inj n i, all i)) in
      omega arith

pub ruleset dict_laws = (get-put, get-remove)
