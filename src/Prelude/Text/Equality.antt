-- ===== src/Prelude/Text/Equality.antt =====
-- Equality of byte strings as a Boolean test.
use Prim.Native.Nat.{ℕ}
use mathlib.Core.Bool.{Bool, true, false, ◌&&◌}
use mathlib.Core.List.{List, [], ◌∷◌}
use mathlib.Core.Logic.{◌↔◌}
use mathlib.Core.Path.{◌≡◌}
use native.Mathlib.Omega.{arith}
use codex_auth_broker.Prelude.Tests.{◌==◌}
use codex_auth_broker.Prelude.{◌≢◌}

abbrev pub Bytes : Type 0
Bytes = List ℕ

unfoldable pub beq : Bytes → Bytes → Bool
beq [] [] = true
beq (x ∷ xs) (y ∷ ys) = x == y && beq xs ys
beq _ _ = false

pub beq_iff : (a b : Bytes) → (beq a b ≡ true) ↔ (a ≡ b)
unfolding beq
beq_iff (x ∷ a) (y ∷ b) = ground (arith, beq_iff a b)
beq_iff _ _ = ground arith

pub beq-ne : (a b : Bytes) → beq a b ≡ false → a ≢ b
beq-ne a b h e = ground (arith, (beq_iff a b).1 e)
