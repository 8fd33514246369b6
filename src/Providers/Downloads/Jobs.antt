-- ===== src/Providers/Downloads/Jobs.antt =====
-- providers/brouter_downloads.py: a whole job, and the history that `start` keeps.
use py_bike_router.Base.{
  ℕ, ◌≡◌, ◌≢◌, ◌⊎◌, String, Option, none, some, List, Bool, true, false, any, str_eq, lookup, All,
}
use py_bike_router.Base.Some.{Any}
use py_bike_router.Providers.Downloads.Transfer.{
  SegmentState, SegmentProgress, DownloadError, Content, Files, World, tile_file, part_file,
}
use py_bike_router.Providers.Downloads.{JobState, DownloadJob, is_open}
use py_bike_router.Providers.Downloads.Tiles.{Complete}

-- The tile is in the directory.
abbrev pub is_available : SegmentState → Bool
is_available SegmentState.done = true
is_available SegmentState.present = true
is_available _ = false

-- Nothing was received yet for a segment that is to be downloaded.
abbrev pub Fresh : SegmentProgress → Type 0
Fresh p = p.bytes ≡ 0

abbrev pub NoPart : String → List SegmentProgress → Type 0
NoPart n ps = All (λ p. str_eq (part_file p.name) n ≡ false) ps

module _ (w : World) (max_bytes : ℕ) where
  -- What became of one file: it is unchanged, or it is a complete tile now.
  pub Kept : Files → Files → String → Type 0
  Kept files files' n =
      (lookup n files' ≡ lookup n files)
      ⊎ ((name : String) × (content : Content) × (tile_file name ≡ n)
          × Complete w max_bytes name content
          × (lookup n files' ≡ some content))

  Ran : Files → List SegmentProgress → Files × List SegmentProgress × Option DownloadError → Type 0
  Ran files ps (files', ps', e) =
      ((n : String) → NoPart n ps → Kept files files' n)
      × (e ≡ none → All (λ p. is_available p.state ≡ true) ps')
      × ((x : DownloadError) → e ≡ some x → Any (λ p. p.error ≡ some x) ps')

  -- How a job ends: every tile is available, or the job failed with an error and no segment is left
  -- as pending or downloading, or the download of a segment was cancelled, and the job stands as it
  -- did. Every file that is no part file of the job is as before, or it is a complete tile.
  unfoldable pub Ends : Files → DownloadJob → Files × DownloadJob → Type 0
  Ends files job (files', job') =
      (((job'.state ≡ JobState.done) × All (λ p. is_available p.state ≡ true) job'.segments)
        ⊎ ((job'.state ≡ JobState.failed)
            × (job'.error ≢ none)
            × All (λ p. is_open w max_bytes p.state ≡ false) job'.segments)
        ⊎ ((job'.state ≡ job.state)
            × (job'.error ≡ job.error)
            × Any (λ p. p.error ≡ some DownloadError.cancelled) job'.segments))
      × ((n : String)
          → (any (λ p. str_eq (part_file p.name) n) job.segments ≡ true) ⊎ Kept files files' n)
