-- ===== src/Loop/Sizes.antt =====
-- `OptSizes::product`, `hasNullOpts`, `allNullOpts` and `getInnerSizes`. `strtoll` of the C library
-- is a parameter: on a text it gives the bit pattern of the number read, as a 64-bit word, and
-- whether the text goes on behind it (`*p`).
pub mod Choice
pub mod Defined
use occa_transpiler.Base.{
  ℕ, ◌+◌, ◌-◌, ◌*◌, ◌/◌, ◌%◌, ◌^◌, Bool, true, false, ◌&&◌, ◌||◌, Option, none, some, ltb, ◌==◌,
  if◌then◌else◌, get_or, is_some, not,
}
use occa_transpiler.Ast.{Bytes}
use occa_transpiler.Result.{Result, ok, err, undefined_behaviour, ◌>>=◌}
use occa_transpiler.Loop.{
  LoopType, inner, regular, type_eq, Axis, x, y, z, auto, OptSizes, LoopInfo, Loop, Loops, node,
  nil, cons, no_loops, has, is_regular, is_tiled, is_one,
}

-- The values of `size_t` and of `long long` as a bit pattern.
abbrev pub word : ℕ
word = 2 ^ 64

abbrev value_or_one : Option ℕ → ℕ
value_or_one none = 1
value_or_one (some n) = n

unfoldable pub product : OptSizes → ℕ
product s =
    ((1 * value_or_one s.size_x % word) * value_or_one s.size_y % word)
    * value_or_one s.size_z
    % word

unfoldable pub has_null_opts : OptSizes → Bool
has_null_opts s = not (is_some s.size_x) || not (is_some s.size_y) || not (is_some s.size_z)

unfoldable pub all_null_opts : OptSizes → Bool
all_null_opts s = not (is_some s.size_x) && not (is_some s.size_y) && not (is_some s.size_z)

abbrev pub ones : OptSizes
ones = record { size_x = some 1; size_y = some 1; size_z = some 1 }

-- `ret[static_cast<size_t>(axis)] = n`; the index of `Axis::Auto` is out of the array.
unfoldable pub set_size : OptSizes → Axis → Option ℕ → Result OptSizes
set_size s x n = ok (record s { size_x = n })
set_size s y n = ok (record s { size_y = n })
set_size s z n = ok (record s { size_z = n })
set_size s auto n = err undefined_behaviour

-- `range.size == 0 ? std::nullopt : std::make_optional(range.size)`
abbrev pub known : ℕ → Option ℕ
known n = if n == 0 then none else some n

-- `*p || range.size == 0 ? nullopt : 1 + ((range.size - 1) / tileSizeLL)`, in `size_t`.
unfoldable pub tiles : ℕ × Bool → ℕ → Result (Option ℕ)
tiles (tile, rest) range_size =
    if rest || range_size == 0
    then ok none
    else if tile == 0
    then err undefined_behaviour
    else ok (some ((1 + (range_size - 1) / tile) % word))

abbrev axis_at : LoopInfo → ℕ → Axis
axis_at i n = get_or i.axis n auto

-- The `Tiled loop` branch.
tiled_sizes : ℕ × Bool → LoopInfo → OptSizes → Result OptSizes
unfolding tiles set_size
tiled_sizes (tile, rest) i ret = do
  second ←
      if type_eq (get_or i.type 1 regular) inner
      then set_size ret (axis_at i 1) (if rest then none else some tile)
      else ok ret
  if type_eq (get_or i.type 0 regular) inner
      then (do n ← tiles (tile, rest) i.range_size; set_size second (axis_at i 0) n)
      else ok second

module _ (strtoll : Bytes → ℕ × Bool) where
  -- What the loop itself adds to the sizes of its children.
  unfoldable pub own_sizes : LoopInfo → OptSizes → Result OptSizes
  unfolding tiled_sizes
  own_sizes i ret =
      if has inner i.type
      then (if is_one inner i.type
          then set_size ret (axis_at i 0) (known i.range_size)
          else if is_tiled i.type
          then tiled_sizes (strtoll i.tile_size) i ret
          else ok ret)
      else ok ret

  unfoldable mutual
    pub get_inner_sizes : Loop → Result OptSizes
    get_inner_sizes (node i cs) = elim i.overriden_inner_sizes [
      | some s ↦ ok s
      | none ↦
          if is_regular i.type && no_loops cs
          then ok ones
          else (do ret ← children_sizes 0 ones cs; own_sizes i ret)
    ]

    -- `for (auto& child : children)`, with `prevProd` and `ret`.
    pub children_sizes : ℕ → OptSizes → Loops → Result OptSizes
    children_sizes prev ret nil = ok ret
    children_sizes prev ret (cons c cs) = do
      curr ← get_inner_sizes c
      let prod = product curr
      children_sizes prod (if ltb prev prod then curr else ret) cs
