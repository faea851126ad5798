-- ===== src/Base/Ratios.antt =====
-- A ratio of two counts, in place of the double that the source divides out, compared by cross
-- multiplication.
use Prim.Native.Nat.{ℕ, ◌*◌, ◌-◌}
use mathlib.Core.Bool.{Bool}
use jin_core.Base.Tests.{ltb, leb, if◌then◌else◌}

pub record Ratio : Type 0 where
  pub num : ℕ
  pub den : ℕ

-- `a < b` and `a >= b`
abbrev pub ratio_lt : Ratio → Ratio → Bool
ratio_lt a b = ltb (a.num * b.den) (b.num * a.den)

abbrev pub ratio_ge : Ratio → Ratio → Bool
ratio_ge a b = leb (b.num * a.den) (a.num * b.den)

-- `Math.max(a, b)`
abbrev pub ratio_max : Ratio → Ratio → Ratio
ratio_max a b = if ratio_lt a b then b else a

-- `Math.max(0, 1 - r)`
abbrev pub rest_of_one : Ratio → Ratio
rest_of_one r = record { num = r.den - r.num; den = r.den }
