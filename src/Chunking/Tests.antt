-- ===== src/Chunking/Tests.antt =====
-- The chunker run on short texts, a token being a character.
use synapse_canvas.Base.{
  ◌≡◌, refl, [], ◌∷◌, ◌-◌, true, length, List, map, arith, any, All, length-take, drop,
}
use synapse_canvas.ProseMirror.Utf16.{Text}
use synapse_canvas.ProseMirror.Edit.Inline.{is_space}
use synapse_canvas.Chunking.{
  slice, match_at, scan_matches, finditer, trim_start, trim_end, trimmed, pieces_from, pieces,
  bisect, cut, fit, units_of_text, sentence_end, TextUnit,
}
use synapse_canvas.Chunking.Cut.{Longest, Monotone, cut-Longest}
use synapse_canvas.Chunking.Passages.{IsPassage, chunk_text-IsPassage}
use synapse_canvas.Chunking.Coverage.{covers, chunk_text-covers}
use synapse_canvas.Chunking.Packing.{
  more_units, step_back, spans_from, draft_of, verified, chunk_text, drafts_of, ChunkDraft,
}

-- `"Go." Hi.`
abbrev quoted : Text
quoted = b'"' ∷ b'G' ∷ b'o' ∷ b'.' ∷ b'"' ∷ b' ' ∷ b'H' ∷ b'i' ∷ b'.' ∷ []

-- The quotation mark that closes the first sentence is part of the break.
quoted-sentences : pieces quoted 0 9 sentence_end ≡ (0, 4) ∷ (6, 9) ∷ []
unfolding pieces pieces_from finditer scan_matches match_at slice trimmed trim_start trim_end
    is_space
quoted-sentences = refl

abbrev contents : List ChunkDraft → List Text
contents ds = map (λ d. d.content) ds

quoted-chunks :
    contents (chunk_text quoted [] length 5 0 5)
    ≡ (b'"' ∷ b'G' ∷ b'o' ∷ b'.' ∷ []) ∷ (b'H' ∷ b'i' ∷ b'.' ∷ []) ∷ []
unfolding chunk_text drafts_of spans_from more_units step_back verified draft_of units_of_text fit
    cut bisect pieces pieces_from finditer scan_matches match_at slice trimmed trim_start trim_end
    is_space
quoted-chunks = refl

chunk_text-IsPassage_example :
    All (IsPassage length 5 quoted) (chunk_text quoted (0 ∷ []) length 5 2 5)
chunk_text-IsPassage_example = chunk_text-IsPassage quoted (0 ∷ []) length 5 2 5

abbrev second : TextUnit
second = record { start = 6; stop = 9; tokens = 3 }

chunk_text-covers_example : any (covers second) (chunk_text quoted (0 ∷ []) length 5 2 5) ≡ true
unfolding units_of_text fit cut bisect pieces pieces_from finditer scan_matches match_at slice
    trimmed trim_start trim_end is_space
chunk_text-covers_example = chunk_text-covers quoted (0 ∷ []) length 5 2 5 1 second refl

length-Monotone : (text : Text) → Monotone length 2 text
unfolding slice
length-Monotone text start x y h =
    omega
      (arith, length-take (x - start) (drop start text), length-take (y - start) (drop start text))

cut-Longest_example : Longest length 2 quoted 0 (cut length 2 quoted (9 - 0) 0 9) 9
cut-Longest_example = cut-Longest length 2 quoted (length-Monotone quoted) 0 9 (omega arith)
