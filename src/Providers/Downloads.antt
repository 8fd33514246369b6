-- ===== src/Providers/Downloads.antt =====
-- providers/brouter_downloads.py: map tiles are downloaded into a directory, one job at a time.
-- One download is in Transfer. The job's coroutine is modelled as one step: `start` refuses while it
-- runs, so that nothing else of this class writes to the directory in between.
pub mod Transfer
pub mod Tiles
pub mod Jobs
pub mod Starts
mod Tests
use py_bike_router.Base.{
  ℕ, zero, suc, ◌+◌, ◌-◌, ◌*◌, String, Option, none, some, List, [], ◌∷◌, ◌++◌, Bool, true, false,
  not, ◌&&◌, ◌||◌, map, all, filter, is_empty, length, drop, leb, ltb, ◌==◌, str_eq, unique, lookup,
  insert, remove, if◌then◌else◌, Result, ok, err, ◌>>=◌,
}
use py_bike_router.Base.Text.{codes, concat}
use py_bike_router.Providers.Downloads.Transfer.{
  disk_margin, SegmentState, DownloadError, SegmentProgress, Content, Files, Stream, Response,
  World, tile_file, part_file, is_present, announced, Attempt, enough_space, size_of, receive,
  moved, synced, replaced, received, refused, opened, sized, responded, unlinked, settle_one,
  download_one,
}

abbrev pub max_segments_per_job : ℕ
max_segments_per_job = 4

pub data JobState : Type 0 where
  running done failed : JobState

pub record DownloadJob : Type 0 where
  pub id : String
  pub state : JobState
  pub segments : List SegmentProgress
  pub error : Option DownloadError

module _ (w : World) (max_bytes : ℕ) where
  abbrev pub is_open : SegmentState → Bool
  is_open SegmentState.pending = true
  is_open SegmentState.downloading = true
  is_open _ = false

  abbrev pub or_else : Option DownloadError → DownloadError → DownloadError
  or_else none e = e
  or_else (some d) e = d

  -- A segment that the job did not come to.
  abbrev pub give_up : SegmentProgress → SegmentProgress
  give_up p =
      if is_open p.state
      then record p {
        state = SegmentState.failed;
        error = some (or_else p.error DownloadError.not_downloaded);
      }
      else p

  abbrev pub is_there : SegmentState → Bool
  is_there SegmentState.present = true
  is_there _ = false

  abbrev pub after :
      SegmentProgress
      → Files × List SegmentProgress × Option DownloadError
      → Files × List SegmentProgress × Option DownloadError
  after p (files, ps, e) = (files, p ∷ ps, e)

  -- `others` is what the loop does with `ps` in the files that this download leaves.
  abbrev pub downloaded :
      List SegmentProgress
      → Files × SegmentProgress × Option DownloadError
      → Files × List SegmentProgress × Option DownloadError
      → Files × List SegmentProgress × Option DownloadError
  downloaded ps (files, p, some e) others = (files, p ∷ ps, some e)
  downloaded ps (files, p, none) others = after p others

  -- The loop over the segments: it stops at the first exception.
  unfoldable pub download_all :
      Files → List SegmentProgress → Files × List SegmentProgress × Option DownloadError
  unfolding download_one
  download_all files [] = (files, [], none)
  download_all files (p ∷ ps) =
      let skip = after p (download_all files ps) in
      let one = download_one w max_bytes files p in
      let more = downloaded ps one (download_all one.0 ps) in
      if is_there p.state then skip else more

  abbrev pub is_cancelled : DownloadError → Bool
  is_cancelled DownloadError.cancelled = true
  is_cancelled e = false

  -- A cancellation is no Exception: it leaves the job as it is, with its segments.
  abbrev pub finished :
      DownloadJob → Files × List SegmentProgress × Option DownloadError → Files × DownloadJob
  finished job (files, ps, none) = (files, record job { state = JobState.done; segments = ps })
  finished job (files, ps, some e) =
      if is_cancelled e then (files, record job { segments = ps }) else (
        files,
        record job { state = JobState.failed; segments = map give_up ps; error = some e },
      )

  unfoldable pub run : Files → DownloadJob → Files × DownloadJob
  unfolding download_all
  run files job = finished job (download_all files job.segments)

-- `is_running` is whether the last task is still running.
pub record Downloader : Type 0 where
  pub jobs : List (String × DownloadJob)
  pub is_running : Bool

abbrev pub put_back : DownloadJob → List (String × DownloadJob) → List (String × DownloadJob)
put_back job [] = []
put_back job ((id, old) ∷ jobs) =
    if str_eq id job.id then (id, job) ∷ jobs else (id, old) ∷ put_back job jobs

-- The task runs to its end: the job that the history shows is the one that the task changes.
unfoldable pub complete : World → ℕ → Files → Downloader → DownloadJob → Files × Downloader
unfolding run
complete w max_bytes files d job =
    let r = run w max_bytes files job in
    (r.0, record { jobs = put_back r.1 d.jobs; is_running = false })

pub data StartError : Type 0 where
  bad_names : List String → StartError
  bad_count : StartError
  busy : StartError

-- `is_name` is the regular expression SEGMENT_NAME_RE.
module _ (is_name : String → Bool) where
  unfoldable pub valid : List String → Result StartError (List String)
  unfolding unique
  valid names =
      let distinct = unique names in
      let bad = filter (λ n. not (is_name n)) distinct in
      if not (is_empty bad)
      then err (StartError.bad_names bad)
      else if leb 1 (length distinct) && leb (length distinct) max_segments_per_job
      then ok distinct
      else err StartError.bad_count

  abbrev pub new_segment : Files → String → SegmentProgress
  new_segment files name = record {
    name = name;
    state = if is_present files name then SegmentState.present else SegmentState.pending;
    bytes = 0;
    total_bytes = none;
    error = none;
  }

  abbrev pub new_job : Files → String → List String → DownloadJob
  new_job files id names = record {
    id = id;
    state = JobState.running;
    segments = map (new_segment files) names;
    error = none;
  }

  -- for old in list(self._jobs)[:-5]: del self._jobs[old]
  abbrev pub last_five : List (String × DownloadJob) → List (String × DownloadJob)
  last_five jobs = drop (length jobs - 5) jobs

  -- `id` is the new identifier.
  unfoldable pub start :
      Files
      → Downloader
      → (id : String) → List String
      → Result StartError (Downloader × DownloadJob)
  unfolding valid
  start files d id names = do
    chosen ← valid names
    (if d.is_running
        then err StartError.busy
        else ok (
          record d {
            jobs = last_five (insert id (new_job files id chosen) d.jobs);
            is_running = true;
          },
          new_job files id chosen,
        ))
