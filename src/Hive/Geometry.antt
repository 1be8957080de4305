-- ===== src/Hive/Geometry.antt =====
-- exercise11/task3/beehive.c, `calculate_positions`: the four neighbours by column and row.
use native.Mathlib.Nat.{div-add-mod, mod-eq_of_lt, mul-add-mod_self_right}
use ps_os.Base.{
  ℕ, zero, suc, ◌+◌, ◌-◌, ◌*◌, ◌%◌, ◌/◌, ◌^◌, ◌≤◌, ◌<◌, ◌≡◌, ◌∷◌, [], refl, ◌∙◌, arith, ltb, leb,
  if◌then◌else◌, Bool-cases, inl, inr, false,
}
use ps_os.Hive.{FieldGeometry, IsField, calculate_positions, error_value, size}

-- The position of the flower in column `x` and row `y`.
abbrev pub position_of : FieldGeometry → ℕ → ℕ → ℕ
position_of d x y = y * d.width + x

-- The four neighbours of a flower in reading order of the source: the error value stands for the
-- border of the field.
abbrev pub above : FieldGeometry → ℕ → ℕ → ℕ
above d x zero = error_value
above d x (suc y) = position_of d x y

abbrev pub below : FieldGeometry → ℕ → ℕ → ℕ
below d x y = if ltb (y + 1) d.height then position_of d x (y + 1) else error_value

abbrev pub before : FieldGeometry → ℕ → ℕ → ℕ
before d zero y = error_value
before d (suc x) y = position_of d x y

abbrev pub after : FieldGeometry → ℕ → ℕ → ℕ
after d x y = if ltb (x + 1) d.width then position_of d (x + 1) y else error_value

pub position_of-lt :
    (d : FieldGeometry) (x y : ℕ)
    → x < d.width
    → y < d.height
    → position_of d x y < d.width * d.height
position_of-lt d x y p q = grind arith

column : (w x y : ℕ) → x < w → (y * w + x) % w ≡ x
column w x y h = mul-add-mod_self_right y w x ∙ mod-eq_of_lt h

-- The width is small, since the field has a row.
width-le : (d : FieldGeometry) → IsField d → d.width ≤ d.width * d.height
width-le d is = grind arith

top_lem :
    (d : FieldGeometry) (x y : ℕ)
    → x < d.width
    → (if leb d.width (position_of d x y) then position_of d x y - d.width else error_value)
      ≡ above d x y
top_lem d x zero lt = ground arith
top_lem d x (suc y) lt = ground arith

bottom_lem :
    (d : FieldGeometry) (x y : ℕ)
    → IsField d
    → x < d.width
    → y < d.height
    → (if ltb (size (position_of d x y + d.width)) (size (d.width * d.height))
        then size (position_of d x y + d.width)
        else error_value)
      ≡ below d x y
bottom_lem d x y is in_x in_y = elim (Bool-cases (ltb (y + 1) d.height)) [
  | inl more ↦
      ground (arith, position_of-lt d x (y + 1) in_x, position_of-lt d x y in_x, width-le d is)
  | inr last ↦ ground (arith, position_of-lt d x y in_x, width-le d is, last_row last)
]
  where
    last_row : ltb (y + 1) d.height ≡ false → d.width * d.height ≤ position_of d x y + d.width
    last_row last = let e : d.height ≡ y + 1 = ground arith in rw e (omega arith)

left_lem :
    (d : FieldGeometry) (x y : ℕ)
    → x < d.width
    → (if ltb 0 (position_of d x y % d.width) then position_of d x y - 1 else error_value)
      ≡ before d x y
left_lem d zero y lt = rw (column d.width zero y lt) refl
left_lem d (suc x) y lt = rw (column d.width (suc x) y lt) (ground arith)

right_lem :
    (d : FieldGeometry) (x y : ℕ)
    → IsField d
    → x < d.width
    → y < d.height
    → (if ltb (position_of d x y % d.width) (size (d.width + 2 ^ 64 - 1))
        then size (position_of d x y + 1)
        else error_value)
      ≡ after d x y
right_lem d x y is in_x in_y =
    rw (column d.width x y in_x) (ground (arith, position_of-lt d x y in_x in_y, width-le d is))

-- For a flower inside the field the four results are its neighbours above, below, on the left and
-- on the right, with the error value beyond each border.
pub calculate_positions-neighbours :
    (d : FieldGeometry) (x y : ℕ)
    → IsField d
    → x < d.width
    → y < d.height
    → calculate_positions (position_of d x y) d
      ≡ above d x y ∷ below d x y ∷ before d x y ∷ after d x y ∷ []
unfolding calculate_positions
calculate_positions-neighbours d x y is in_x in_y = rw (
  top_lem d x y in_x,
  bottom_lem d x y is in_x in_y,
  left_lem d x y in_x,
  right_lem d x y is in_x in_y,
)

-- Every flower has a column and a row.
pub column_row :
    (d : FieldGeometry) (p : ℕ)
    → IsField d
    → p < d.width * d.height
    → (x y : ℕ) × (x < d.width) × (y < d.height) × (p ≡ position_of d x y)
column_row d p is lt =
    (p % d.width, p / d.width, omega arith, row_lt, omega (arith, div-add-mod p d.width))
  where
    row_lt : p / d.width < d.height
    row_lt = grind arith
