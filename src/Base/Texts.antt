-- ===== src/Base/Texts.antt =====
-- `String` as the list of its characters' code points.
use Prim.Native.Nat.{ℕ}
use mathlib.Core.Path.{◌≡◌}
use mathlib.Core.Logic.{◌↔◌}
use mathlib.Core.Bool.{Bool, true, false, ◌&&◌}
use mathlib.Core.List.{List, [], ◌∷◌}
use native.Mathlib.Omega.{arith}
use reactive_graph_experimen.Base.Tests.{Eq, nat_beq}

abbrev pub Text : Type 0
Text = List ℕ

unfoldable pub text_beq : Text → Text → Bool
text_beq [] [] = true
text_beq [] (d ∷ ds) = false
text_beq (c ∷ cs) [] = false
text_beq (c ∷ cs) (d ∷ ds) = nat_beq c d && text_beq cs ds

pub text_beq_iff : (s t : Text) → (text_beq s t ≡ true) ↔ (s ≡ t)
unfolding text_beq
text_beq_iff [] [] = ground arith
text_beq_iff [] (d ∷ ds) = ground arith
text_beq_iff (c ∷ cs) [] = ground arith
text_beq_iff (c ∷ cs) (d ∷ ds) = let k = text_beq_iff cs ds in ground (arith, k)

instance abbrev pub text_eq : Eq Text
text_eq = record { beq = text_beq; beq_iff = text_beq_iff }
