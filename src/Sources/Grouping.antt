-- ===== src/Sources/Grouping.antt =====
-- api/services/ingestion.py: drafts grouped by content and sent in batches.
use synapse_canvas.Base.{
  ℕ, zero, suc, ◌+◌, ◌≤◌, ◌<◌, ◌≡◌, refl, sym, ap, ◌∙◌, Bool, true, List, [], ◌∷◌, ◌++◌, ◌==◌,
  if◌then◌else◌, find, count_if, length, take, drop, arith, length-drop, take-append-drop,
  append_assoc,
}
use synapse_canvas.Base.Counts.{first_of, count_if-append, find-none, find-append}
use synapse_canvas.Chunking.Packing.{ChunkDraft, enumerate_from}
use synapse_canvas.Sources.Ingestion.{has_index}
use synapse_canvas.Sources.Batching.{batches, Group, add_to_group, group_from, drafts_of_batch}

concat_batches : List (List Group) → List Group
concat_batches [] = []
concat_batches (b ∷ bs) = b ++ concat_batches bs

drafts_of_batch-append :
    (xs ys : List Group) → drafts_of_batch (xs ++ ys) ≡ drafts_of_batch xs ++ drafts_of_batch ys
drafts_of_batch-append [] ys = refl
drafts_of_batch-append (x ∷ xs) ys =
    ap (λ r. x.1 ++ r) (drafts_of_batch-append xs ys)
    ∙ sym (append_assoc x.1 (drafts_of_batch xs) (drafts_of_batch ys))

-- The drafts that are sent, batch after batch.
unfoldable pub sent : List (List Group) → List ChunkDraft
sent [] = []
sent (b ∷ bs) = drafts_of_batch b ++ sent bs

pub sent-batches :
    (fuel size : ℕ) (groups : List Group)
    → 0 < size
    → length groups ≤ fuel
    → sent (batches fuel size groups) ≡ drafts_of_batch groups
unfolding sent batches
sent-batches zero size [] h le = refl
sent-batches zero size (g ∷ gs) h le = absurd (omega arith)
sent-batches (suc fuel) size [] h le = refl
sent-batches (suc fuel) size (g ∷ gs) h le =
    let shorter : length (drop size (g ∷ gs)) ≤ fuel = omega (arith, length-drop size (g ∷ gs)) in
    rw (sent-batches fuel size (drop size (g ∷ gs)) h shorter) (
      sym (drafts_of_batch-append (take size (g ∷ gs)) (drop size (g ∷ gs)))
      ∙ ap drafts_of_batch (take-append-drop size (g ∷ gs)))

pub count_if-add :
    (p : ChunkDraft → Bool) (d : ChunkDraft) (groups : List Group)
    → count_if p (drafts_of_batch (add_to_group d groups))
      ≡ (if p d then 1 else 0) + count_if p (drafts_of_batch groups)
unfolding add_to_group
count_if-add p d [] = omega arith
count_if-add p d (g ∷ gs) = ground (
  arith,
  count_if-add p d gs,
  count_if-append p g.1 (d ∷ []),
  count_if-append p (g.1 ++ (d ∷ [])) (drafts_of_batch gs),
  count_if-append p g.1 (drafts_of_batch gs),
  count_if-append p g.1 (drafts_of_batch (add_to_group d gs)),
)

-- Grouping keeps how many drafts pass a test.
pub count_if-group_from :
    (p : ChunkDraft → Bool) (groups : List Group) (ds : List ChunkDraft)
    → count_if p (drafts_of_batch (group_from groups ds))
      ≡ count_if p (drafts_of_batch groups) + count_if p ds
unfolding group_from
count_if-group_from p groups [] = omega arith
count_if-group_from p groups (d ∷ ds) =
    omega (arith, count_if-group_from p (add_to_group d groups) ds, count_if-add p d groups)

-- No index is used twice.
abbrev pub Distinct : List ChunkDraft → Type 0
Distinct ds = (i : ℕ) → count_if (has_index i) ds ≤ 1

find-add :
    (i : ℕ) (d : ChunkDraft) (groups : List Group)
    → ((d.index == i) ≡ true → count_if (has_index i) (drafts_of_batch groups) ≡ 0)
    → find (has_index i) (drafts_of_batch (add_to_group d groups))
      ≡ first_of (find (has_index i) (drafts_of_batch groups)) (find (has_index i) (d ∷ []))
unfolding add_to_group
find-add i d [] fresh = refl
find-add i d (g ∷ gs) fresh = ground (
  arith,
  find-add i d gs,
  find-append (has_index i) g.1 (d ∷ []),
  find-append (has_index i) (g.1 ++ (d ∷ [])) (drafts_of_batch gs),
  find-append (has_index i) g.1 (drafts_of_batch gs),
  find-append (has_index i) g.1 (drafts_of_batch (add_to_group d gs)),
  count_if-append (has_index i) g.1 (drafts_of_batch gs),
  find-none (has_index i) (drafts_of_batch gs),
)

pub find-group_from :
    (i : ℕ) (groups : List Group) (ds : List ChunkDraft)
    → Distinct (drafts_of_batch groups ++ ds)
    → find (has_index i) (drafts_of_batch (group_from groups ds))
      ≡ first_of (find (has_index i) (drafts_of_batch groups)) (find (has_index i) ds)
unfolding group_from
find-group_from i groups [] h = ground arith
find-group_from i groups (d ∷ ds) h = ground (
  arith,
  find-group_from i (add_to_group d groups) ds λ j. omega (
    arith,
    h j,
    count_if-append (has_index j) (drafts_of_batch (add_to_group d groups)) ds,
    count_if-append (has_index j) (drafts_of_batch groups) (d ∷ ds),
    count_if-add (has_index j) d groups,
  ),
  find-add i d groups
      λ same. ground (arith, h i, count_if-append (has_index i) (drafts_of_batch groups) (d ∷ ds)),
)

enumerate_from-low :
    (i index : ℕ) (ds : List ChunkDraft)
    → i < index
    → count_if (has_index i) (enumerate_from index ds) ≡ 0
enumerate_from-low i index [] h = omega arith
enumerate_from-low i index (d ∷ ds) h = ground (arith, enumerate_from-low i (index + 1) ds)

pub enumerate_from-Distinct :
    (index : ℕ) (ds : List ChunkDraft) → Distinct (enumerate_from index ds)
enumerate_from-Distinct index [] i = omega arith
enumerate_from-Distinct index (d ∷ ds) i =
    ground (arith, enumerate_from-Distinct (index + 1) ds i, enumerate_from-low i (index + 1) ds)
