-- ===== src/Providers/Downloads/Transfer.antt =====
-- providers/brouter_downloads.py: the download of one tile, `_download_one`. A directory is its files by
-- name; what the source and the file system answer is a parameter.
use py_bike_router.Base.{
  ℕ, ◌+◌, ◌-◌, ◌*◌, String, Option, none, some, List, [], ◌∷◌, ◌++◌, Bool, true, false, not, ◌&&◌,
  all, is_empty, length, leb, ltb, ◌==◌, lookup, insert, remove, if◌then◌else◌, Result, ok, err,
}
use py_bike_router.Base.Text.{codes, concat}

-- 200 * 1024 * 1024
abbrev pub disk_margin : ℕ
disk_margin = 209_715_200

pub data SegmentState : Type 0 where
  pending downloading done present failed : SegmentState

-- Why a download fails, in place of the messages. `cancelled` is a CancelledError, which is a
-- BaseException but no Exception.
pub data DownloadError : Type 0 where
  answered : (status : ℕ) → DownloadError
  size_unknown : DownloadError
  over_limit no_space : (total : ℕ) → DownloadError
  sent_more : DownloadError
  incomplete : (bytes total : ℕ) → DownloadError
  raised : String → DownloadError
  cancelled : DownloadError
  not_downloaded : DownloadError

pub record SegmentProgress : Type 0 where
  pub name : String
  pub state : SegmentState
  pub bytes : ℕ
  pub total_bytes : Option ℕ
  pub error : Option DownloadError

abbrev pub Content : Type 0
Content = List ℕ

abbrev pub Files : Type 0
Files = List (String × Content)

-- What may be raised where the code awaits the source.
pub data Fault : Type 0 where
  exception : String → Fault
  cancellation : Fault

abbrev pub error_of : Fault → DownloadError
error_of (exception e) = DownloadError.raised e
error_of cancellation = DownloadError.cancelled

-- response.aiter_bytes: chunks, and then the end or an exception.
pub data Stream : Type 0 where
  end : Stream
  broken : Fault → Stream
  chunk : Content → Stream → Stream

pub record Response : Type 0 where
  pub status_code : ℕ
  pub content_length : Option String
  pub stream : Stream

-- What the source and the file system answer while a job runs: exceptions are their texts.
pub record World : Type 0 where
  pub open_ : String → Result Fault Response
  pub free_bytes : Files → ℕ
  pub open_error : String → Option String
  pub write_error : String → (written : ℕ) → Option String
  pub sync_error : String → Option String
  pub replace_error : String → Option String
  pub unlink_fails : String → Bool

abbrev pub tile_file : String → String
tile_file name = concat name ".rd5"

abbrev pub part_file : String → String
part_file name = concat name ".rd5.part"

abbrev pub is_present : Files → String → Bool
is_present files name = elim (lookup (tile_file name) files) [ none ↦ false | some c ↦ true ]

-- str.isdigit and int, for ASCII text
abbrev is_digit : ℕ → Bool
is_digit c = leb b'0' c && leb c b'9'

abbrev number_from : ℕ → List ℕ → ℕ
number_from n [] = n
number_from n (c ∷ cs) = number_from (10 * n + (c - b'0')) cs

-- `none` where the header is missing, empty or no number.
abbrev pub announced : Option String → Option ℕ
announced none = none
announced (some s) =
    if not (is_empty (codes s)) && all is_digit (codes s)
    then some (number_from 0 (codes s))
    else none

-- The variables of `_download_one` when it leaves its `try` block.
pub record Attempt : Type 0 where
  pub files : Files
  pub bytes : ℕ
  pub total : Option ℕ
  pub failure : Option DownloadError

module _ (w : World) (max_bytes : ℕ) where
  abbrev pub enough_space : Files → (total : ℕ) → Result DownloadError ℕ
  enough_space files total =
      if ltb max_bytes total
      then err (DownloadError.over_limit total)
      else if ltb (w.free_bytes files) (total + disk_margin)
      then err (DownloadError.no_space total)
      else ok total

  -- The tests on the response's head: the size of the tile.
  abbrev pub size_of : Files → Response → Result DownloadError ℕ
  size_of files r =
      if not (r.status_code == 200)
      then err (DownloadError.answered r.status_code)
      else elim (announced r.content_length) [
        | none ↦ err DownloadError.size_unknown
        | some total ↦ enough_space files total
      ]

  -- The loop over the chunks: what the file holds, how much was counted, and an exception.
  abbrev pub receive :
      (part : String)
      → (total : ℕ) → Stream
      → Content
      → (bytes : ℕ) → Content × ℕ × Option DownloadError
  receive part total end content bytes = (content, bytes, none)
  receive part total (broken e) content bytes = (content, bytes, some (error_of e))
  receive part total (chunk c rest) content bytes =
      let more = receive part total rest (content ++ c) (bytes + length c) in
      elim (w.write_error part bytes) [
        | some e ↦ (content, bytes, some (DownloadError.raised e))
        | none ↦
            if ltb total (bytes + length c)
            then (content ++ c, bytes + length c, some DownloadError.sent_more)
            else more
      ]

  -- os.replace(part, target)
  abbrev pub moved : Files → String → Content → Files
  moved files name content = insert (tile_file name) content (remove (part_file name) files)

  abbrev pub synced : Files → String → ℕ → Content → ℕ → Option DownloadError
  synced files name total content bytes = elim (w.sync_error (part_file name)) [
    | some e ↦ some (DownloadError.raised e)
    | none ↦
        if bytes == total
        then elim (w.replace_error (tile_file name)) [
          | some e ↦ some (DownloadError.raised e)
          | none ↦ none
        ]
        else some (DownloadError.incomplete bytes total)
  ]

  abbrev pub replaced : Files → String → ℕ → Content → ℕ → Option DownloadError → Attempt
  replaced files name total content bytes none = record {
    files = moved (insert (part_file name) content files) name content;
    bytes = bytes;
    total = some total;
    failure = none;
  }
  replaced files name total content bytes (some e) = record {
    files = insert (part_file name) content files;
    bytes = bytes;
    total = some total;
    failure = some e;
  }

  abbrev pub received : Files → String → ℕ → Content × ℕ × Option DownloadError → Attempt
  received files name total (content, bytes, some e) =
      replaced files name total content bytes (some e)
  received files name total (content, bytes, none) =
      replaced files name total content bytes (synced files name total content bytes)

  abbrev pub refused : Files → ℕ → Option ℕ → DownloadError → Attempt
  refused files bytes total e = record {
    files = files;
    bytes = bytes;
    total = total;
    failure = some e;
  }

  abbrev pub opened : Files → String → ℕ → Stream → ℕ → Option String → Attempt
  opened files name total stream bytes (some e) =
      refused files bytes (some total) (DownloadError.raised e)
  opened files name total stream bytes none =
      received files name total (receive (part_file name) total stream [] bytes)

  abbrev pub sized : Files → String → Stream → SegmentProgress → Result DownloadError ℕ → Attempt
  sized files name stream p (err e) = refused files p.bytes p.total_bytes e
  sized files name stream p (ok total) =
      opened files name total stream p.bytes (w.open_error (part_file name))

  abbrev pub responded : Files → SegmentProgress → Result Fault Response → Attempt
  responded files p (err e) = refused files p.bytes p.total_bytes (error_of e)
  responded files p (ok r) = sized files p.name r.stream p (size_of files r)

  -- with contextlib.suppress(OSError): part.unlink()
  abbrev pub unlinked : Files → String → Files
  unlinked files part = if w.unlink_fails part then files else remove part files

  -- What the `except` block does, where an exception arrives there.
  abbrev pub settle_one :
      SegmentProgress
      → Attempt
      → Option DownloadError
      → Files × SegmentProgress × Option DownloadError
  settle_one p a none = (
    a.files,
    record p { state = SegmentState.done; bytes = a.bytes; total_bytes = a.total },
    none,
  )
  settle_one p a (some e) = (
    unlinked a.files (part_file p.name),
    record p {
      state = SegmentState.failed;
      bytes = a.bytes;
      total_bytes = a.total;
      error = some e;
    },
    some e,
  )

  -- The files, the progress, and the exception that `_download_one` raises.
  unfoldable pub download_one :
      Files → SegmentProgress → Files × SegmentProgress × Option DownloadError
  download_one files p = let a = responded files p (w.open_ p.name) in settle_one p a a.failure
