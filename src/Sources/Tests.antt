-- ===== src/Sources/Tests.antt =====
-- A source uploaded, embedded in batches of one text, and read back.
use synapse_canvas.Base.{
  ◌+◌, List, get_elem?, ℕ, ◌≡◌, refl, true, false, none, some, [], ◌∷◌, length, arith, ap,
}
use synapse_canvas.Base.Texts.{text_eq}
use synapse_canvas.Base.Dict.{lookup}
use synapse_canvas.Sources.Pages.{join_pages, join_pages-page_of}
use synapse_canvas.ProseMirror.Utf16.{Text}
use synapse_canvas.ProseMirror.Edit.Inline.{is_space}
use synapse_canvas.Chunking.{
  slice, match_at, scan_matches, finditer, trim_start, trim_end, trimmed, pieces_from, pieces,
  bisect, cut, fit, units_of_text,
}
use synapse_canvas.Chunking.Packing.{
  page_of, more_units, step_back, spans_from, draft_of, verified, chunk_text, drafts_of,
}
use synapse_canvas.Sources.{
  Source, SourceChunk, Tables, ok, set_source, storage_used, find_duplicate, Measured, Conditions,
  upload, commit_upload, pending, ready,
}
use synapse_canvas.Sources.Ingestion.{
  store_text, is_identical, is_reusable, keep_reusable, finish_source, drafts_for, embed_missing,
  conclude, read_file, work, process,
}
use synapse_canvas.Sources.Batching.{
  Worker, Extracted, embedded, reported, batches, add_to_group, group_from, from_keys, vector_of,
  new_chunks, insert_chunks, store_batch, after_wait, settle, embed_batch, embed_batches,
}
use synapse_canvas.Sources.Stored.{Injective, process_stores}
use synapse_canvas.Sources.Sending.{stored_passage, drafted_passage}
use synapse_canvas.Sources.Ready.{AnswersAll, process_ends}
use synapse_canvas.Sources.Quota.{WithinQuota, uploads, works, begins, continues, Reach-WithinQuota}

-- `Go. Hi.`
abbrev greeting : Text
greeting = b'G' ∷ b'o' ∷ b'.' ∷ b' ' ∷ b'H' ∷ b'i' ∷ b'.' ∷ []

abbrev worker : Worker
worker = record {
  settings = record {
    chunk_target_tokens = 3;
    chunk_overlap_tokens = 0;
    chunk_max_tokens = 4;
    embedding_batch_size = 1;
  };
  provider = record { model = 1; dimension = 2; max_input_tokens = 5; count_tokens = length };
  digest = λ content. content;
  extract = λ bytes kind. ok (record { text = bytes; page_starts = [] });
  embed = λ texts. embedded false 8 texts;
  started_at = 7;
  finished_at = 9;
}

abbrev file : Measured
file = record { name = []; content_type = 0; size = 7; checksum = 5 ∷ []; bytes = greeting }

abbrev nothing_stored : Tables
nothing_stored = record { sources = []; chunks = []; texts = []; files = []; jobs = [] }

abbrev at_six : Conditions
at_six = record { quota = 10; now = 6; source_id = 3; commit_succeeds = true; queue_up = true }

unfoldable uploaded : Tables
unfolding upload commit_upload
uploaded = (upload at_six 1 2 (ok file) nothing_stored nothing_stored).0

abbrev stored_source : Source
stored_source = record {
  workspace_id = 1;
  uploaded_by = 2;
  filename = [];
  content_type = 0;
  size_bytes = 7;
  storage_path = (1, 3);
  checksum = 5 ∷ [];
  status = pending;
  error_code = none;
  page_count = none;
  chunk_count = 0;
  processed_at = none;
  updated_at = 6;
}

-- A left-over passage of another text, and one that the run reuses.
abbrev leftover : ℕ → Text → SourceChunk
leftover index content = record {
  source_id = 3;
  workspace_id = 1;
  chunk_index = index;
  content = content;
  embedding = 4 ∷ [];
  embedding_model = 1;
  embedding_dimension = 2;
  page_number = none;
  char_start = 0;
  char_end = 3;
  token_count = 3;
}

unfoldable half_done : Tables
unfolding uploaded
half_done = record uploaded {
  chunks = leftover 0 (b'G' ∷ b'o' ∷ b'.' ∷ []) ∷ leftover 1 (b'?' ∷ []) ∷ [];
}

process_ends_example :
    (t' : Tables) × (row : Source) × (process worker 3 uploaded ≡ (t', reported ready none))
    × (lookup 3 t'.sources ≡ some row)
    × (row.status ≡ ready)
    × (row.chunk_count ≡ length (drafts_for worker (record { text = greeting; page_starts = [] })))
unfolding uploaded upload commit_upload AnswersAll read_file find_duplicate storage_used
process_ends_example =
    process_ends worker 3 stored_source greeting (record { text = greeting; page_starts = [] })
      uploaded (λ texts. (8, texts, refl, refl)) (omega arith) (λ s i. omega arith) refl refl refl
      refl

half_done-runs : (process worker 3 half_done).1 ≡ reported ready none
unfolding half_done uploaded upload commit_upload process work read_file drafts_for store_text
    set_source embed_missing keep_reusable is_reusable is_identical text_eq group_from add_to_group
    batches embed_batches embed_batch from_keys settle after_wait new_chunks vector_of store_batch
    insert_chunks conclude finish_source find_duplicate storage_used chunk_text drafts_of spans_from
    more_units step_back verified draft_of units_of_text fit cut bisect pieces pieces_from finditer
    scan_matches match_at slice trimmed trim_start trim_end is_space
half_done-runs = refl

process_stores_example :
    (bytes : Text) × (e : Extracted) × (read_file (1, 3) half_done.files ≡ some bytes)
    × (worker.extract bytes 0 ≡ ok e)
    × (lookup 3 (process worker 3 half_done).0.texts
        ≡ some (record { text = e.text; page_starts = e.page_starts }))
    × ((i : ℕ)
        → stored_passage 3 i (process worker 3 half_done).0.chunks
          ≡ drafted_passage worker.provider i (drafts_for worker e))
unfolding half_done uploaded upload commit_upload find_duplicate storage_used Injective
process_stores_example =
    process_stores worker 3 stored_source half_done (process worker 3 half_done).0
      (λ a b same. same) (omega arith) refl refl
      (ap (λ o. ((process worker 3 half_done).0, o)) half_done-runs)

Reach-WithinQuota_example : WithinQuota 10 (process worker 3 uploaded).0
unfolding WithinQuota uploaded storage_used
Reach-WithinQuota_example =
    Reach-WithinQuota 10 nothing_stored
      ((λ positive w. omega arith), (λ w c. omega arith), (λ s i. omega arith))
      (continues
        (continues begins (uploads at_six 1 2 (ok file) nothing_stored nothing_stored refl))
        (works worker 3 uploaded))

-- Three pages, the second one empty.
abbrev three_pages : List Text
three_pages = (b'a' ∷ []) ∷ [] ∷ (b'b' ∷ b'c' ∷ []) ∷ []

join_pages-page_of_example :
    (start : ℕ) × (get_elem? (join_pages three_pages).1 2 ≡ some start)
    × (get_elem? (join_pages three_pages).0 (start + 1) ≡ some b'c')
    × (page_of (join_pages three_pages).1 (start + 1) ≡ some 3)
join_pages-page_of_example =
    join_pages-page_of three_pages 2 1 (b'b' ∷ b'c' ∷ []) refl (omega arith)
