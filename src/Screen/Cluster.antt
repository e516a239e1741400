-- ===== src/Screen/Cluster.antt =====
-- src/screen.rs: `Cluster`, `ClusterIter` and `Line::cluster`: a line cut into runs of cells that
-- are drawn alike.
use picocalc_wezterm.Prelude.{
  ℕ, zero, suc, ◌+◌, ◌-◌, Bool, true, false, not, ◌&&◌, Option, none, some, List, [], ◌∷◌, Outcome,
  ok, out_of_fuel, ◌>>=◌, ◌>>◌, require, length, take, drop, leb, ◌==◌, zip,
}
use native.Mathlib.Decide.{ℕ_discrete}
use picocalc_wezterm.Screen.Model.{Attributes, Line, attributes_none, max_cols}

pub record Cluster : Type 0 where
  pub text : List ℕ
  pub attributes : Attributes
  pub color : ℕ
  pub start_col : ℕ
  pub end_col : ℕ

-- The attributes and the color of a cell.
abbrev pub Style : Type 0
Style = Attributes × ℕ

pub Attributes-discrete : Discrete Attributes
Attributes-discrete = hlevel

pub Style-discrete : Discrete Style
Style-discrete = hlevel (ℕ_discrete, Attributes-discrete)

-- `attr_iter` is what the iterator has left, and `idx` the index of its first element.
pub record ClusterIter : Type 0 where
  pub line : Line
  pub last_attr : Style
  pub start_idx : Option ℕ
  pub idx : ℕ
  pub attr_iter : List Style
  pub cursor_x : Option ℕ

abbrev pub toggle_reverse : Style → Style
toggle_reverse (a, k) = (record a { reverse = not a.reverse }, k)

-- `&bytes[a..b]`. The text of a line is ASCII, which `from_utf8` accepts.
unfoldable pub slice : List ℕ → ℕ → ℕ → Outcome (List ℕ)
slice bytes a b = require (leb a b && leb b (length bytes)) >> ok (take (b - a) (drop a bytes))

unfoldable pub take_current : ClusterIter → ℕ → Outcome (Option Cluster × ClusterIter)
take_current it end_col = elim it.start_idx [
  | none ↦ ok (none, it)
  | some start_col ↦ slice it.line.ascii start_col end_col >>= λ text. ok (
    some (record {
      text = text;
      attributes = it.last_attr.0;
      color = it.last_attr.1;
      start_col = start_col;
      end_col = end_col;
    }),
    record it { start_idx = none },
  )
]

-- `self.cursor_x` is the index that the iterator would give next.
abbrev pub is_at : Option ℕ → ℕ → Bool
is_at none i = false
is_at (some x) i = i == x

abbrev pub at_cursor : Option ℕ → ℕ → List Style → Bool
at_cursor cursor_x i [] = false
at_cursor cursor_x i (a ∷ rest) = is_at cursor_x i

-- The second half of the loop's body, on `attr_iter`; `again` is the loop.
unfoldable pub advance :
    (ClusterIter → Outcome (Option Cluster × ClusterIter))
    → ClusterIter
    → List Style
    → Outcome (Option Cluster × ClusterIter)
unfolding take_current
advance again it [] = take_current it (max_cols - 1)
advance again it (a ∷ rest) =
    let it' = record it { idx = it.idx + 1; attr_iter = rest } in
    elim it.start_idx [
      | none ↦ again (record it' { start_idx = some it.idx; last_attr = a })
      | some start_col ↦ elim (Style-discrete a it.last_attr) [
        | yes same ↦ again it'
        | no other ↦ take_current it' it.idx >>= λ (cluster, it'').
            ok (cluster, record it'' { last_attr = a; start_idx = some it.idx })
      ]
    ]

-- The cell under the cursor is taken from the iterator and staged with its video reversed.
unfoldable pub stage_cursor : ClusterIter → List Style → ClusterIter
stage_cursor it [] = it
stage_cursor it (a ∷ rest) = record it {
  idx = it.idx + 1;
  attr_iter = rest;
  last_attr = toggle_reverse a;
  start_idx = some it.idx;
}

-- The `loop` of `next`.
unfoldable pub next_loop : ℕ → ClusterIter → Outcome (Option Cluster × ClusterIter)
unfolding advance stage_cursor take_current
next_loop zero it = out_of_fuel
next_loop (suc fuel) it = elim (at_cursor it.cursor_x it.idx it.attr_iter) [
  | false ↦ advance (next_loop fuel) it it.attr_iter
  | true ↦ elim it.start_idx [
    | some start_col ↦ take_current it it.idx
    | none ↦
        advance (next_loop fuel) (stage_cursor it it.attr_iter)
          (stage_cursor it it.attr_iter).attr_iter
  ]
]

-- Each round but the last takes an element.
unfoldable pub next : ClusterIter → Outcome (Option Cluster × ClusterIter)
unfolding next_loop
next it = next_loop (length it.attr_iter + 1) it

-- `Line::cluster`
unfoldable pub cluster : Line → Option ℕ → ClusterIter
cluster line cursor_x = record {
  line = line;
  last_attr = (attributes_none, 0);
  start_idx = none;
  idx = 0;
  attr_iter = zip line.attributes line.colors;
  cursor_x = cursor_x;
}

-- `for cluster in …`
unfoldable pub collect : ℕ → ClusterIter → Outcome (List Cluster)
unfolding next
collect zero it = out_of_fuel
collect (suc fuel) it = next it >>= λ (found, it'). elim found [
  | none ↦ ok []
  | some c ↦ collect fuel it' >>= λ rest. ok (c ∷ rest)
]

-- There is a cluster for each cell at most.
unfoldable pub clusters : Line → Option ℕ → Outcome (List Cluster)
unfolding cluster collect
clusters line cursor_x = collect (max_cols + 1) (cluster line cursor_x)
