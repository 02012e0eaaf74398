-- ===== src/Prelude/Bits.antt =====
-- Facts about bytes by evaluation over all of them.
use Prim.Native.Nat.{ℕ, zero, suc, ◌<◌}
use mathlib.Core.Path.{◌≡◌}
use mathlib.Core.Bool.{Bool, true, false}
use native.Mathlib.Omega.{arith}
use polymorph_os.Prelude.Tests.{if◌then◌else◌}

-- Whether a test passes at every number under a bound.
unfoldable pub passes_under : (ℕ → Bool) → ℕ → Bool
passes_under test zero = true
passes_under test (suc m) = if passes_under test m then test m else false

pub passes_under-at :
    (test : ℕ → Bool) (bound : ℕ)
    → passes_under test bound ≡ true
    → (k : ℕ) → k < bound
    → test k ≡ true
unfolding passes_under
passes_under-at test zero ok k under = elim under [ ]
passes_under-at test (suc m) ok k under =
    ground (arith, λ (e : passes_under test m ≡ true). passes_under-at test m e k)
