-- ===== src/Screen/ClusterCells.antt =====
-- src/screen.rs: the cells of a line, and the cells that clusters stand for.
use picocalc_wezterm.Prelude.{
  ℕ, zero, suc, ◌+◌, ◌≡◌, refl, ap, ◌∙◌, Option, List, [], ◌∷◌, ◌++◌, length, take, drop, arith,
  if◌then◌else◌, subst, zip,
}
use picocalc_wezterm.Screen.Model.{Line}
use picocalc_wezterm.Screen.Cluster.{Cluster, Style, toggle_reverse, is_at}

-- A cell as it is drawn: its column, its byte and its style.
abbrev pub Shown : Type 0
Shown = ℕ × ℕ × Style

abbrev pub cells_at : ℕ → List ℕ → Style → List Shown
cells_at col [] s = []
cells_at col (b ∷ bs) s = (col, b, s) ∷ cells_at (col + 1) bs s

abbrev pub cells_of : Cluster → List Shown
cells_of c = cells_at c.start_col c.text (c.attributes, c.color)

abbrev pub drawn : List Cluster → List Shown
drawn [] = []
drawn (c ∷ cs) = cells_of c ++ drawn cs

-- The cells of a line from a column on, the one under the cursor with its video reversed.
abbrev pub shown_from : Option ℕ → ℕ → List ℕ → List Style → List Shown
shown_from cursor i [] ss = []
shown_from cursor i (b ∷ bs) [] = []
shown_from cursor i (b ∷ bs) (s ∷ ss) =
    (i, b, if is_at cursor i then toggle_reverse s else s) ∷ shown_from cursor (i + 1) bs ss

pub cells_at-append :
    (col : ℕ) (xs ys : List ℕ) (s : Style)
    → cells_at col (xs ++ ys) s ≡ cells_at col xs s ++ cells_at (col + length xs) ys s
cells_at-append col [] ys s = ap (λ n. cells_at n ys s) (omega arith)
cells_at-append col (x ∷ xs) ys s =
    ap (λ t. (col, x, s) ∷ t)
      (cells_at-append (col + 1) xs ys s
        ∙ ap (λ n. cells_at (col + 1) xs s ++ cells_at n ys s) (omega arith))

pub take-append {ℓ} : {A : Type ℓ} (xs ys : List A) → take (length xs) (xs ++ ys) ≡ xs
take-append [] ys = refl
take-append (x ∷ xs) ys = rw (take-append xs ys)

pub drop-suc : (i b : ℕ) (xs q : List ℕ) → drop i xs ≡ b ∷ q → drop (i + 1) xs ≡ q
drop-suc zero b [] q h = cc
drop-suc zero b (x ∷ xs) q h = cc
drop-suc (suc i) b [] q h = cc
drop-suc (suc i) b (x ∷ xs) q h =
    let e : suc (i + 1) ≡ suc i + 1 = omega arith in
    subst (λ n. drop n (x ∷ xs) ≡ q) e (drop-suc i b xs q h)

pub unsnoc : (n : ℕ) (p : List ℕ) → length p ≡ suc n → (x : ℕ) × (p ≡ take n p ++ (x ∷ []))
unsnoc zero [] h = absurd (omega arith)
unsnoc zero (x ∷ []) h = (x, refl)
unsnoc zero (x ∷ y ∷ p) h = absurd (omega arith)
unsnoc (suc n) [] h = absurd (omega arith)
unsnoc (suc n) (x ∷ p) h = let (z, e) = unsnoc n p (omega arith) in (z, ap (λ t. x ∷ t) e)

pub length-cells_at : (col : ℕ) (bs : List ℕ) (s : Style) → length (cells_at col bs s) ≡ length bs
length-cells_at col [] s = refl
length-cells_at col (b ∷ bs) s = ap suc (length-cells_at (col + 1) bs s)

pub length-shown_from :
    (cursor : Option ℕ) (i : ℕ) (bs : List ℕ) (ss : List Style)
    → length bs ≡ length ss
    → length (shown_from cursor i bs ss) ≡ length bs
length-shown_from cursor i [] ss h = refl
length-shown_from cursor i (b ∷ bs) [] h = absurd (omega arith)
length-shown_from cursor i (b ∷ bs) (s ∷ ss) h =
    ap suc (length-shown_from cursor (i + 1) bs ss (omega arith))

pub length-zip {ℓ κ} :
    {A : Type ℓ} {B : Type κ} (xs : List A) (ys : List B)
    → length xs ≡ length ys
    → length (zip xs ys) ≡ length xs
length-zip [] ys h = refl
length-zip (x ∷ xs) [] h = absurd (omega arith)
length-zip (x ∷ xs) (y ∷ ys) h = ap suc (length-zip xs ys (omega arith))

-- The cells of a line, with the cursor's.
abbrev pub shown_cells : Line → Option ℕ → List Shown
shown_cells line cursor_x = shown_from cursor_x 0 line.ascii (zip line.attributes line.colors)
