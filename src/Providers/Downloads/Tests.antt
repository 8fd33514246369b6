-- ===== src/Providers/Downloads/Tests.antt =====
-- The theorems on map downloads at a source with two small tiles.
use py_bike_router.Base.{
  ◌≤◌, ◌≡◌, refl, String, none, some, [], ◌∷◌, true, false, all, length, map, unique, str_eq,
  if◌then◌else◌, Result, ok, All,
}
use py_bike_router.Providers.Downloads.Transfer.{
  SegmentState, SegmentProgress, Files, Stream, Fault, Response, World, download_one,
}
use py_bike_router.Providers.Downloads.{
  JobState, DownloadJob, Downloader, start, max_segments_per_job,
}
use py_bike_router.Providers.Downloads.Tiles.{Installs, download_one-Installs}
use py_bike_router.Providers.Downloads.Jobs.{Fresh}
use py_bike_router.Providers.Downloads.Starts.{start-ok}

-- The first tile comes in two chunks, and the second breaks off.
abbrev respond : String → Result Fault Response
respond name =
    if str_eq name "E10_N50"
    then ok (record {
      status_code = 200;
      content_length = some "3";
      stream = Stream.chunk (1 ∷ 2 ∷ []) (Stream.chunk (3 ∷ []) Stream.end);
    })
    else ok (record {
      status_code = 200;
      content_length = some "4";
      stream = Stream.chunk (1 ∷ []) (Stream.broken (Fault.exception "reset"));
    })

abbrev world : World
world = record {
  open_ = respond;
  free_bytes = λ files. 1_000_000_000;
  open_error = λ part. none;
  write_error = λ part n. none;
  sync_error = λ part. none;
  replace_error = λ target. none;
  unlink_fails = λ part. false;
}

abbrev segment : String → SegmentProgress
segment name = record {
  name = name;
  state = SegmentState.pending;
  bytes = 0;
  total_bytes = none;
  error = none;
}

abbrev job : DownloadJob
job = record {
  id = "j1";
  state = JobState.running;
  segments = segment "E10_N50" ∷ segment "E5_N50" ∷ [];
  error = none;
}

abbrev old_files : Files
old_files = ("E0_N45.rd5", 9 ∷ []) ∷ []

abbrev idle : Downloader
idle = record { jobs = []; is_running = false }

abbrev busy : Downloader
busy = record { jobs = ("j1", job) ∷ []; is_running = true }

download_one-Installs_example :
    Installs world 100 old_files
      (segment "E10_N50")
      (download_one world 100 old_files (segment "E10_N50"))
download_one-Installs_example = download_one-Installs world 100 old_files (segment "E10_N50") refl

start-job :
    start (λ n. true) old_files idle "j1" ("E10_N50" ∷ "E5_N50" ∷ "E10_N50" ∷ []) ≡ ok (busy, job)
unfolding start
start-job = refl

start-ok_example :
    (idle.is_running ≡ false)
    × (busy.is_running ≡ true)
    × (length busy.jobs ≤ 5)
    × All Fresh job.segments
    × (1 ≤ length job.segments)
    × (length job.segments ≤ max_segments_per_job)
    × (all (λ n. true) (unique ("E10_N50" ∷ "E5_N50" ∷ "E10_N50" ∷ [])) ≡ true)
    × (map (λ p. p.name) job.segments ≡ unique ("E10_N50" ∷ "E5_N50" ∷ "E10_N50" ∷ []))
start-ok_example =
    start-ok (λ n. true) old_files idle busy "j1" ("E10_N50" ∷ "E5_N50" ∷ "E10_N50" ∷ []) job
      start-job
