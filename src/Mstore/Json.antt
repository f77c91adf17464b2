-- ===== src/Mstore/Json.antt =====
-- Floats and JSON values, as mstore/server.py gets them from json.loads.
use npb.Prelude.{
  ℕ, ◌+◌, ◌-◌, ◌*◌, ◌/◌, ◌%◌, ◌^◌, String, ◌≡◌, Bool, true, false, arith, ltb, leb, ◌==◌,
  if◌then◌else◌, ℤ,
}

-- A float is its IEEE 754 bit pattern.
abbrev pub Float : Type 0
Float = ℕ

abbrev pub infinity : Float
infinity = 2047 * 2 ^ 52

abbrev pub magnitude : Float → ℕ
magnitude f = f % 2 ^ 63

unfoldable pub is_nan : Float → Bool
is_nan f = ltb infinity (magnitude f)

-- Where a float stands among the others. The two zeros stand at one place.
unfoldable pub rank : Float → ℕ
rank f = if f / 2 ^ 63 % 2 == 1 then 2 ^ 63 - magnitude f else 2 ^ 63 + magnitude f

-- f <= g
unfoldable pub float_le : Float → Float → Bool
float_le f g = if is_nan f then false else if is_nan g then false else leb (rank f) (rank g)

-- f < g
unfoldable pub float_lt : Float → Float → Bool
float_lt f g = if is_nan f then false else if is_nan g then false else ltb (rank f) (rank g)

-- min(f, g)
unfoldable pub float_min : Float → Float → Float
unfolding float_lt
float_min f g = if float_lt g f then g else f

pub float_le_trans :
    (f g h : Float) → float_le f g ≡ true → float_le g h ≡ true → float_le f h ≡ true
unfolding float_le
float_le_trans f g h a b = ground arith

-- The second argument bounds the minimum, unless the first is no number.
pub float_min_bounded :
    (f g : Float) → is_nan f ≡ false → is_nan g ≡ false → float_le (float_min f g) g ≡ true
unfolding float_le float_min float_lt
float_min_bounded f g a b = ground arith

mutual
  pub data Json : Type 0 where
    null : Json
    boolean : Bool → Json
    integer : ℤ → Json
    real : Float → Json
    text : String → Json
    array : Items → Json
    object : Members → Json

  pub data Items : Type 0 where
    nil : Items
    cons : Json → Items → Items

  pub data Members : Type 0 where
    end : Members
    member : String → Json → Members → Members
