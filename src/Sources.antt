-- ===== src/Sources.antt =====
-- api/services/sources.py with the rows of api/models/source.py, source_chunk.py and source_text.py:
-- uploads within the quota of a workspace, retries and deletions.
pub mod Batching
pub mod Ingestion
pub mod Grouping
pub mod Sending
pub mod KeptText
pub mod Stored
pub mod Progress
pub mod Room
pub mod Ready
pub mod Bytes
pub mod Keeps
pub mod Quota
pub mod Pages
mod Tests
use synapse_canvas.Base.{
  ℕ, ◌+◌, Bool, true, false, not, ◌&&◌, ◌||◌, Option, none, some, List, [], ◌∷◌, ◌++◌, ltb, ◌==◌,
  if◌then◌else◌, find, keep, map,
}
use synapse_canvas.Base.Texts.{text_eq}
use synapse_canvas.Base.Dict.{Dict, lookup, erase}
use synapse_canvas.ProseMirror.Utf16.{Text}

pub data SourceStatus : Type 0 where
  pending processing ready failed : SourceStatus

pub data ErrorCode : Type 0 where
  source_parse_failed source_no_text source_encrypted source_empty : ErrorCode
  source_too_large source_unsupported_type source_storage_quota : ErrorCode
  source_not_found source_chunk_not_found source_not_failed : ErrorCode
  embedding_failed embedding_quota_exhausted embedding_daily_limit : ErrorCode
  embedding_input_too_long embedding_invalid_key embedding_unavailable : ErrorCode
  server_error : ErrorCode

pub data Result (A : Type 0) : Type 0 where
  ok : A → Result A
  err : ErrorCode → Result A

-- `f"{workspace_id}/{source_id}"`, by the two ids.
abbrev pub StorageKey : Type 0
StorageKey = ℕ × ℕ

pub record Source : Type 0 where
  pub workspace_id : ℕ
  pub uploaded_by : ℕ
  pub filename : Text
  pub content_type : ℕ
  pub size_bytes : ℕ
  pub storage_path : StorageKey
  pub checksum : Text
  pub status : SourceStatus
  pub error_code : Option ErrorCode
  pub page_count : Option ℕ
  pub chunk_count : ℕ
  pub processed_at : Option ℕ
  pub updated_at : ℕ

-- Machine floats by their bits.
abbrev pub Vector : Type 0
Vector = List ℕ

pub record SourceChunk : Type 0 where
  pub source_id : ℕ
  pub workspace_id : ℕ
  pub chunk_index : ℕ
  pub content : Text
  pub embedding : Vector
  pub embedding_model : ℕ
  pub embedding_dimension : ℕ
  pub page_number : Option ℕ
  pub char_start : ℕ
  pub char_end : ℕ
  pub token_count : ℕ

pub record SourceText : Type 0 where
  pub text : Text
  pub page_starts : List ℕ

-- The rows, the files in storage and the jobs that wait for the worker.
pub record Tables : Type 0 where
  pub sources : Dict Source
  pub chunks : List SourceChunk
  pub texts : Dict SourceText
  pub files : List (StorageKey × Text)
  pub jobs : List ℕ

-- `update(Source).where(Source.id == key)`, or a change of the attributes of that row.
unfoldable pub set_source : ℕ → (Source → Source) → Dict Source → Dict Source
set_source key f [] = []
set_source key f (first ∷ others) =
    (first.0, if first.0 == key then f first.1 else first.1) ∷ set_source key f others

abbrev pub is_key : StorageKey → StorageKey × Text → Bool
is_key key file = (file.0.0 == key.0) && (file.0.1 == key.1)

abbrev pub remove_file : StorageKey → List (StorageKey × Text) → List (StorageKey × Text)
remove_file key files = keep (λ file. not (is_key key file)) files

abbrev pub is_failed : SourceStatus → Bool
is_failed failed = true
is_failed _ = false

abbrev pub is_permanent : ErrorCode → Bool
is_permanent source_parse_failed = true
is_permanent source_no_text = true
is_permanent source_encrypted = true
is_permanent source_empty = true
is_permanent embedding_input_too_long = true
is_permanent _ = false

abbrev pub in_permanent_failures : Option ErrorCode → Bool
in_permanent_failures none = false
in_permanent_failures (some code) = is_permanent code

unfoldable pub is_retryable : Source → Bool
is_retryable source = is_failed source.status && not (in_permanent_failures source.error_code)

-- The bytes that the sources of a workspace take.
unfoldable pub storage_used : ℕ → Dict Source → ℕ
storage_used workspace [] = 0
storage_used workspace (row ∷ rows) =
    (if row.1.workspace_id == workspace then row.1.size_bytes else 0) + storage_used workspace rows

abbrev pub is_copy : ℕ → Text → ℕ × Source → Bool
is_copy workspace checksum row =
    (row.1.workspace_id == workspace) && text_eq row.1.checksum checksum

unfoldable pub find_duplicate : ℕ → Text → Dict Source → Option (ℕ × Source)
find_duplicate workspace checksum sources = find (is_copy workspace checksum) sources

-- What `sanitize_filename`, `measure` and `sniff` find.
pub record Measured : Type 0 where
  pub name : Text
  pub content_type : ℕ
  pub size : ℕ
  pub checksum : Text
  pub bytes : Text

pub record Upload : Type 0 where
  pub source : ℕ
  pub created : Bool

-- The queue can be down: the row stays pending.
abbrev pub enqueue : Bool → ℕ → List ℕ → List ℕ
enqueue queue_up source_id jobs = if queue_up then jobs ++ (source_id ∷ []) else jobs

abbrev pub new_source : ℕ → ℕ → ℕ → ℕ → Measured → Source
new_source workspace_id user_id source_id now measured = record {
  workspace_id = workspace_id;
  uploaded_by = user_id;
  filename = measured.name;
  content_type = measured.content_type;
  size_bytes = measured.size;
  storage_path = (workspace_id, source_id);
  checksum = measured.checksum;
  status = pending;
  error_code = none;
  page_count = none;
  chunk_count = 0;
  processed_at = none;
  updated_at = now;
}

-- What a call of `upload` meets: the setting, the clock, the id of `uuid4`, and whether the commit
-- and the queue answer.
pub record Conditions : Type 0 where
  pub quota : ℕ
  pub now : ℕ
  pub source_id : ℕ
  pub commit_succeeds : Bool
  pub queue_up : Bool

-- The file saved and the row written, or the file taken back when the commit fails.
unfoldable pub commit_upload : Conditions → ℕ → ℕ → Measured → Tables → Tables × Result Upload
unfolding find_duplicate
commit_upload at workspace_id user_id measured t =
    let key : StorageKey = (workspace_id, at.source_id) in
    let saved = remove_file key t.files ++ ((key, measured.bytes) ∷ []) in
    let row = new_source workspace_id user_id at.source_id at.now measured in
    elim (find_duplicate workspace_id measured.checksum t.sources) [
      | some existing ↦ (
        record t { files = remove_file key saved },
        ok (record { source = existing.0; created = false }),
      )
      | none ↦
          if at.commit_succeeds
          then (
            record t {
              sources = t.sources ++ ((at.source_id, row) ∷ []);
              files = saved;
              jobs = enqueue at.queue_up at.source_id t.jobs;
            },
            ok (record { source = at.source_id; created = true }),
          )
          else (record t { files = remove_file key saved }, err server_error)
    ]

-- `before` is what the first query saw, `t` the tables when the lock is held.
unfoldable pub upload :
    Conditions → ℕ → ℕ → Result Measured → Tables → Tables → Tables × Result Upload
unfolding find_duplicate storage_used commit_upload
upload at workspace_id user_id (err code) before t = (t, err code)
upload at workspace_id user_id (ok measured) before t =
    elim (find_duplicate workspace_id measured.checksum before.sources) [
      | some existing ↦ (t, ok (record { source = existing.0; created = false }))
      | none ↦
          if ltb 0 at.quota && ltb at.quota (storage_used workspace_id t.sources + measured.size)
          then (t, err source_storage_quota)
          else commit_upload at workspace_id user_id measured t
    ]

abbrev pub in_workspace : ℕ → Source → Result Source
in_workspace workspace_id source =
    if source.workspace_id == workspace_id then ok source else err source_not_found

unfoldable pub get_source : ℕ → ℕ → Tables → Result Source
get_source workspace_id source_id t = elim (lookup source_id t.sources) [
  | none ↦ err source_not_found
  | some source ↦ in_workspace workspace_id source
]

-- The rows of chunks and of the text go by ON DELETE CASCADE; storage may fail to remove the file.
unfoldable pub delete_source : ℕ → Source → Bool → Tables → Tables
delete_source source_id source storage_up t = record {
  sources = erase source_id t.sources;
  chunks = keep (λ c. not (c.source_id == source_id)) t.chunks;
  texts = erase source_id t.texts;
  files = if storage_up then remove_file source.storage_path t.files else t.files;
  jobs = t.jobs;
}

unfoldable pub retry_source : ℕ → ℕ → Source → Bool → Tables → Tables × Result Unit
unfolding set_source
retry_source now source_id source queue_up t =
    if is_failed source.status
    then (
      record t {
        sources =
            set_source source_id
              (λ s. record s { status = pending; error_code = none; updated_at = now }) t.sources;
        jobs = enqueue queue_up source_id t.jobs;
      },
      ok tt,
    )
    else (t, err source_not_failed)

unfoldable pub delete_workspace_files : ℕ → Bool → Tables → Tables
delete_workspace_files workspace_id storage_up t = record t {
  files = if storage_up then keep (λ file. not (file.0.0 == workspace_id)) t.files else t.files;
}
