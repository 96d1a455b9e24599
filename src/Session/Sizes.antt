-- ===== src/Session/Sizes.antt =====
-- The size of the terminal among the sizes of the attached clients.
use shelly.Prelude.{◌≤◌, ◌≡◌, some, List, [], ◌∷◌, arith, All, subst}
use shelly.Session.{ClientSize, min_from, min_client_size, smaller}

-- A terminal of size `a` fits into a client of size `b`.
pub Fits : ClientSize → ClientSize → Type 0
Fits a b = (a.cols ≤ b.cols) × (a.rows ≤ b.rows)

min_from-Fits :
    (least : ClientSize) (sizes : List ClientSize)
    → Fits (min_from least sizes) least × All (Fits (min_from least sizes)) sizes
unfolding min_from Fits
min_from-Fits least [] = ((omega arith, omega arith), tt)
min_from-Fits least (size ∷ sizes) =
    let ((cols, rows), rest) = min_from-Fits (smaller least size) sizes in
    ((omega (arith, cols), omega (arith, rows)), ((omega (arith, cols), omega (arith, rows)), rest))

min_from_greatest :
    (other least : ClientSize) (sizes : List ClientSize)
    → Fits other least
    → All (Fits other) sizes
    → Fits other (min_from least sizes)
unfolding min_from Fits
min_from_greatest other least [] fits all_fit = fits
min_from_greatest other least (size ∷ sizes) (cols, rows) ((cols', rows'), all_fit) =
    min_from_greatest other (smaller least size) sizes
      (omega (arith, cols, cols'), omega (arith, rows, rows')) all_fit

-- The terminal gets the greatest size that fits every attached client.
pub min_client_size_greatest :
    (sizes : List ClientSize) (least other : ClientSize)
    → min_client_size sizes ≡ some least
    → All (Fits least) sizes × (All (Fits other) sizes → Fits other least)
unfolding min_client_size
min_client_size_greatest [] least other h = absurd (cc h)
min_client_size_greatest (size ∷ sizes) least other h =
    let same : min_from size sizes ≡ least = cc h in
    subst (λ m. All (Fits m) (size ∷ sizes) × (All (Fits other) (size ∷ sizes) → Fits other m)) same
      (min_from-Fits size sizes, λ (fits, all_fit). min_from_greatest other size sizes fits all_fit)
