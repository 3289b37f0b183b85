-- ===== src/Base/Float.antt =====
-- Go's float64 as an interface: the operations that the cost code uses, with no law assumed.
use Prim.Native.String.{String}
use mathlib.Core.Bool.{Bool}
use ronak_agentk_runtime.Base.Int.{ℤ}

pub record Float64 : Type 1 where
  pub Float : Type 0
  pub of_int : ℤ → Float
  pub mul : Float → Float → Float
  pub div : Float → Float → Float
  -- `a > b` and `a <= b`, which are both false at a NaN
  pub gt : Float → Float → Bool
  pub le : Float → Float → Bool
  -- math.Round
  pub round : Float → Float
  -- fmt's %.2f
  pub format_2 : Float → String
  -- strconv.ParseFloat(s, 64): the value, which an error may leave infinite, and whether there is
  -- no error
  pub parse : String → Float × Bool
  -- the constants 0.90, 0.80 and 0.70
  pub nine_tenths : Float
  pub eight_tenths : Float
  pub seven_tenths : Float
