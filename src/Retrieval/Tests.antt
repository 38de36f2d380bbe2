-- ===== src/Retrieval/Tests.antt =====
-- Two ready passages that say the same, one of another source, and one of a source that failed.
use synapse_canvas.Base.{
  ℕ, ◌+◌, ◌-◌, ◌≤◌, ◌≡◌, refl, true, false, Option, none, some, List, [], ◌∷◌, length, arith, All,
  leb, ◌&&◌, if◌then◌else◌, any, count_if,
}
use synapse_canvas.ProseMirror.Edit.Inline.{is_space, lstrip}
use synapse_canvas.Retrieval.Requests.{Limits, Provider, Call, query, raises, embed, WithinDays}
use synapse_canvas.Retrieval.Attempts.{EndsWith, embed-WithinDays}
use synapse_canvas.Retrieval.Citations.{
  more_digits, number, group, find_numbers, once_each, cited_markers, resolve, cites, is_number,
  IsOf, resolve-IsOf,
}
use synapse_canvas.Base.Dict.{Dict}
use synapse_canvas.ProseMirror.Utf16.{Text}
use synapse_canvas.Sources.{Source, SourceChunk, SourceStatus, ready, failed}
use synapse_canvas.Retrieval.{
  Row, Search, to_row, retrieve, candidates, choose, is_searched, searchable_model, near_identical,
}
use synapse_canvas.Retrieval.Choice.{Selects, IsFound, retrieve-IsFound}
use synapse_canvas.Retrieval.Loop.{tokens_of, Pairwise, Differs}

abbrev source_with : SourceStatus → Source
source_with status = record {
  workspace_id = 1;
  uploaded_by = 2;
  filename = [];
  content_type = 0;
  size_bytes = 7;
  storage_path = (1, 3);
  checksum = [];
  status = status;
  error_code = none;
  page_count = none;
  chunk_count = 0;
  processed_at = none;
  updated_at = 6;
}

abbrev chunk : ℕ → ℕ → Text → SourceChunk
chunk source_id index content = record {
  source_id = source_id;
  workspace_id = 1;
  chunk_index = index;
  content = content;
  embedding = [];
  embedding_model = 1;
  embedding_dimension = 2;
  page_number = none;
  char_start = 0;
  char_end = 1;
  token_count = 5;
}

abbrev table : Dict Source
table = (3, source_with ready) ∷ (4, source_with failed) ∷ (5, source_with ready) ∷ []

abbrev stored : List SourceChunk
stored =
    chunk 3 0 (b'a' ∷ b'b' ∷ [])
    ∷ chunk 4 0 (b'a' ∷ [])
    ∷ chunk 3 1 (b'a' ∷ b'b' ∷ [])
    ∷ chunk 5 0 (b'a' ∷ b'b' ∷ [])
    ∷ []

abbrev search : Search
search = record {
  model = 1;
  dimension = 2;
  top_k = 3;
  one = 100;
  floor = 60;
  token_budget = 12;
  words = λ content. content;
  distance = λ c. 10;
  nearest = λ limit rows. rows;
}

abbrev answer : List Row
answer =
    to_row search (chunk 3 0 (b'a' ∷ b'b' ∷ [])) ∷ to_row search (chunk 5 0 (b'a' ∷ b'b' ∷ [])) ∷ []

retrieve-IsFound_example :
    All (IsFound search 1 table) answer
    × (length answer ≤ 3)
    × (tokens_of answer ≤ 12)
    × Pairwise (Differs search) answer
unfolding Selects retrieve candidates choose is_searched searchable_model near_identical
retrieve-IsFound_example =
    retrieve-IsFound search 1 table stored answer (λ P limit rows h. h) (omega arith) refl

abbrev ascii_digit : ℕ → Option ℕ
ascii_digit c = if leb b'0' c && leb c b'9' then some (c - 48) else none

-- `[2; 7][2]`, with two passages sent.
abbrev cited : Text
cited =
    b'[' ∷ b'2' ∷ b';' ∷ b' ' ∷ b'7' ∷ b']' ∷ b'[' ∷ b'2' ∷ b']' ∷ b'[' ∷ b'1' ∷ b' ' ∷ b']' ∷ []

cited-markers : cited_markers ascii_digit cited ≡ 2 ∷ 7 ∷ []
unfolding cited_markers find_numbers group number more_digits once_each lstrip is_space
cited-markers = refl

resolve-IsOf_example :
    All (IsOf answer) (resolve ascii_digit cited answer)
    × ((m : ℕ)
        → count_if (cites m) (resolve ascii_digit cited answer) ≡ (
            if leb 1 m
              && leb m 2
              && any (is_number m) (find_numbers ascii_digit (length cited) cited)
            then 1
            else 0))
resolve-IsOf_example = resolve-IsOf ascii_digit cited answer

abbrev two_a_day : Limits
two_a_day = record { daily_request_limit = 2; max_retries = 3 }

abbrev provider : Provider
provider = record { model = 1; metered = true; count_tokens = length }

abbrev question : Call
question = record { workspace_id = 1; source_id = none; purpose = query; texts = [] ∷ [] }

-- An outage that lasts: two requests are sent, and the limit ends the call.
embed-WithinDays_example :
    WithinDays 2 (embed two_a_day provider question (λ k. k) (λ k. raises true false) []).rows
    × (length (embed two_a_day provider question (λ k. k) (λ k. raises true false) []).rows
        ≡ 0 + (embed two_a_day provider question (λ k. k) (λ k. raises true false) []).sent)
    × ((embed two_a_day provider question (λ k. k) (λ k. raises true false) []).sent ≤ 4)
    × EndsWith two_a_day question
        (λ k. k)
        (λ k. raises true false)
        0
        (embed two_a_day provider question (λ k. k) (λ k. raises true false) [])
unfolding WithinDays
embed-WithinDays_example =
    embed-WithinDays two_a_day provider question (λ k. k) (λ k. raises true false) [] refl
      (omega arith) (λ w day. omega arith)
