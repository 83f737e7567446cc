-- ===== src/Prelude/Keys.antt =====
-- Types whose values Go compares by `==`: the keys of its maps.
use Prim.Native.Nat.{ℕ}
use mathlib.Core.Path.{◌≡◌, refl}
use mathlib.Core.Logic.{◌↔◌}
use mathlib.Core.Bool.{Bool, true, false, ◌&&◌}
use mathlib.Core.List.{[], ◌∷◌}
use native.Mathlib.Omega.{arith}
use kafka_minion.Prelude.Lists.{Bytes}
use kafka_minion.Prelude.Tests.{eqb, eqb_iff}

pub record Comparable {ℓ} (K : Type ℓ) : Type ℓ where
  pub equal : K → K → Bool
  pub equal_iff : (j k : K) → (equal j k ≡ true) ↔ (j ≡ k)

module _ {ℓ} {K : Type ℓ} ⦃c : Comparable K⦄ where
  infix 50 ◌==◌
  abbrev pub ◌==◌ : K → K → Bool
  j == k = c.equal j k

  pub ==_iff : (j k : K) → ((j == k) ≡ true) ↔ (j ≡ k)
  ==_iff j k = c.equal_iff j k

  pub ==_refl : (k : K) → (k == k) ≡ true
  ==_refl k = (==_iff k k).1 refl

instance abbrev pub nat_eq : Comparable ℕ
nat_eq = record { equal = eqb; equal_iff = eqb_iff }

-- `==` of two Go strings.
abbrev pub beq_bytes : Bytes → Bytes → Bool
beq_bytes [] [] = true
beq_bytes (x ∷ xs) (y ∷ ys) = eqb x y && beq_bytes xs ys
beq_bytes _ _ = false

pub beq_bytes_iff : (a b : Bytes) → (beq_bytes a b ≡ true) ↔ (a ≡ b)
beq_bytes_iff (x ∷ xs) (y ∷ ys) = ground (arith, beq_bytes_iff xs ys)
beq_bytes_iff _ _ = ground arith

instance abbrev pub bytes_eq : Comparable Bytes
bytes_eq = record { equal = beq_bytes; equal_iff = beq_bytes_iff }
