-- ===== src/Sources/Pages.antt =====
-- api/services/extraction.py, `_join_pages`: the text of a PDF and where its pages start.
use synapse_canvas.Base.{
  ℕ, zero, suc, ◌+◌, ◌-◌, ◌≤◌, ◌<◌, ◌≡◌, refl, ap, ◌∙◌, Bool, true, false, some, List, [], ◌∷◌,
  ◌++◌, leb, if◌then◌else◌, length, get_elem?, count_if, arith,
}
use synapse_canvas.ProseMirror.Utf16.{Text}
use synapse_canvas.Chunking.Packing.{page_of}

-- `PAGE_BREAK`
abbrev pub page_break : Text
page_break = 10 ∷ 10 ∷ []

-- The text and the starts from a position on; `started` tells that a page lies before.
unfoldable pub join_from : Bool → ℕ → List Text → Text × List ℕ
join_from started position [] = ([], [])
join_from started position (page ∷ pages) =
    let gap = if started then page_break else [] in
    let start = position + length gap in
    let (text, starts) = join_from true (start + length page) pages in
    (gap ++ (page ++ text), start ∷ starts)

unfoldable pub join_pages : List Text → Text × List ℕ
unfolding join_from
join_pages pages = join_from false 0 pages

get_elem?-append_lt :
    (i : ℕ) (xs ys : Text) → i < length xs → get_elem? (xs ++ ys) i ≡ get_elem? xs i
get_elem?-append_lt i [] ys h = absurd (omega arith)
get_elem?-append_lt zero (x ∷ xs) ys h = refl
get_elem?-append_lt (suc i) (x ∷ xs) ys h = get_elem?-append_lt i xs ys (omega arith)

get_elem?-append_ge :
    (i j : ℕ) (xs ys : Text) → i ≡ length xs + j → get_elem? (xs ++ ys) i ≡ get_elem? ys j
get_elem?-append_ge i j [] ys h = let same : i ≡ j = omega arith in ap (get_elem? ys) same
get_elem?-append_ge zero j (x ∷ xs) ys h = absurd (omega arith)
get_elem?-append_ge (suc i) j (x ∷ xs) ys h = get_elem?-append_ge i j xs ys (omega arith)

-- Pages that follow others start behind them, after a gap.
starts_later :
    (position at : ℕ) (pages : List Text)
    → at < position + 2
    → count_if (λ q. leb q at) (join_from true position pages).1 ≡ 0
unfolding join_from
starts_later position at [] h = refl
starts_later position at (page ∷ pages) h =
    ground (arith, starts_later (position + 2 + length page) at pages)

-- Where the text of a page is found, from a position on.
abbrev IsPlaced : Bool → ℕ → List Text → ℕ → ℕ → Text → ℕ → Type 0
IsPlaced started position pages i j page start =
    (get_elem? (join_from started position pages).1 i ≡ some start)
    × (position ≤ start)
    × (get_elem? (join_from started position pages).0 (start - position + j) ≡ get_elem? page j)
    × (count_if (λ q. leb q (start + j)) (join_from started position pages).1 ≡ i + 1)

join_from-IsPlaced :
    (started : Bool) (position : ℕ) (pages : List Text) (i j : ℕ) (page : Text)
    → get_elem? pages i ≡ some page
    → j < length page
    → (start : ℕ) × IsPlaced started position pages i j page start
unfolding join_from
join_from-IsPlaced started position [] i j page at h = absurd (ground arith)
join_from-IsPlaced started position (p ∷ ps) zero j page at h =
    let gap = if started then page_break else [] in
    let start = position + length gap in
    let rest = (join_from true (start + length p) ps).0 in
    let same : p ≡ page = ground arith in
    let measured = ap length same in
    (
      start,
      (
        refl,
        omega arith,
        get_elem?-append_ge (start - position + j) j gap (p ++ rest) (omega arith)
            ∙ (get_elem?-append_lt j p rest (omega arith) ∙ ap (λ t. get_elem? t j) same),
        ground (arith, starts_later (start + length p) (start + j) ps),
      ),
    )
join_from-IsPlaced started position (p ∷ ps) (suc i) j page at h =
    let gap = if started then page_break else [] in
    let first = position + length gap in
    let rest = (join_from true (first + length p) ps).0 in
    let (start, (found, low, there, count)) =
      join_from-IsPlaced true (first + length p) ps i j page at h in
    let inner = start - (first + length p) + j in
    (
      start,
      (
        found,
        omega arith,
        get_elem?-append_ge (start - position + j) (length p + inner) gap (p ++ rest) (omega arith)
            ∙ (get_elem?-append_ge (length p + inner) inner p rest refl ∙ there),
        ground arith,
      ),
    )

some_first :
    (starts : List ℕ) (i start : ℕ)
    → get_elem? starts i ≡ some start
    → (at : ℕ) → page_of starts at ≡ some (count_if (λ q. leb q at) starts)
some_first [] i start h at = absurd (ground arith)
some_first (p ∷ ps) i start h at = refl

-- Every character of a page is read back from the joined text, behind the start that is kept for its
-- page; and a passage that starts at it is given the number of that page, from 1, empty pages counted.
pub join_pages-page_of :
    (pages : List Text) (i j : ℕ) (page : Text)
    → get_elem? pages i ≡ some page
    → j < length page
    → (start : ℕ) × (get_elem? (join_pages pages).1 i ≡ some start)
      × (get_elem? (join_pages pages).0 (start + j) ≡ get_elem? page j)
      × (page_of (join_pages pages).1 (start + j) ≡ some (i + 1))
unfolding join_pages
join_pages-page_of pages i j page at h =
    let (start, (found, low, there, count)) = join_from-IsPlaced false 0 pages i j page at h in
    (
      start,
      found,
      ap (get_elem? (join_from false 0 pages).0) (omega arith) ∙ there,
      some_first (join_from false 0 pages).1 i start found (start + j) ∙ ap some count,
    )
