-- ===== src/Providers/Downloads/Starts.antt =====
-- providers/brouter_downloads.py `start`: when a job begins, and what it begins with.
use py_bike_router.Base.{
  ℕ, zero, suc, ◌-◌, ◌≤◌, ◌≡◌, refl, sym, ◌∙◌, ap, subst, String, List, [], ◌∷◌, Bool, true, false,
  not, arith, length, drop, map, unique, is_empty, filter, all, All, ok, >>=-eq-ok, insert,
}
use py_bike_router.Providers.Downloads.Transfer.{Files}
use py_bike_router.Providers.Downloads.{
  DownloadJob, Downloader, valid, new_segment, new_job, last_five, start, max_segments_per_job,
}
use py_bike_router.Providers.Downloads.Jobs.{Fresh}

length-drop {ℓ} : {A : Type ℓ} (n : ℕ) (xs : List A) → length (drop n xs) ≡ length xs - n
length-drop zero xs = omega arith
length-drop (suc n) [] = omega arith
length-drop (suc n) (x ∷ xs) = omega (arith, length-drop n xs)

module _ (is_name : String → Bool) where
  all-names :
      (ns : List String)
      → is_empty (filter (λ n. not (is_name n)) ns) ≡ true
      → all is_name ns ≡ true
  all-names [] h = refl
  all-names (n ∷ ns) h = ground (arith, all-names ns)

  valid-ok :
      (names chosen : List String)
      → valid is_name names ≡ ok chosen
      → (chosen ≡ unique names)
        × (all is_name chosen ≡ true)
        × (1 ≤ length chosen)
        × (length chosen ≤ max_segments_per_job)
  unfolding valid
  valid-ok names chosen h = ground (arith, all-names (unique names))

  new-Fresh : (files : Files) (ns : List String) → All Fresh (map (new_segment is_name files) ns)
  new-Fresh files [] = tt
  new-Fresh files (n ∷ ns) = (refl, new-Fresh files ns)

  length-segments :
      (files : Files) (ns : List String) → length (map (new_segment is_name files) ns) ≡ length ns
  length-segments files [] = refl
  length-segments files (n ∷ ns) = ap suc (length-segments files ns)

  names-segments :
      (files : Files) (ns : List String)
      → map (λ p. p.name) (map (new_segment is_name files) ns) ≡ ns
  names-segments files [] = refl
  names-segments files (n ∷ ns) = ap (λ l. n ∷ l) (names-segments files ns)

  -- A job begins only while no other runs. It has between one and four segments, one for each distinct
  -- name, all of them names of tiles; nothing was received for them yet; and the history holds five
  -- jobs at most.
  pub start-ok :
      (files : Files) (d d' : Downloader) (id : String) (names : List String) (job : DownloadJob)
      → start is_name files d id names ≡ ok (d', job)
      → (d.is_running ≡ false)
        × (d'.is_running ≡ true)
        × (length d'.jobs ≤ 5)
        × All Fresh job.segments
        × (1 ≤ length job.segments)
        × (length job.segments ≤ max_segments_per_job)
        × (all is_name (unique names) ≡ true)
        × (map (λ p. p.name) job.segments ≡ unique names)
  unfolding start
  start-ok files d d' id names job h =
      let (chosen, v, begun) = >>=-eq-ok (valid is_name names) _ h in
      let (same, right, least, most) = valid-ok names chosen v in
      let segments : map (new_segment is_name files) chosen ≡ job.segments =
        ground (arith, begun) in
      let jobs' : last_five is_name (insert id (new_job is_name files id chosen) d.jobs) ≡ d'.jobs =
        ground (arith, begun) in
      let counted : length job.segments ≡ length chosen =
        ap length (sym segments) ∙ length-segments files chosen in
      (
        ground (arith, begun),
        ground (arith, begun),
        omega (
          arith,
          ap length jobs',
          length-drop (length (insert id (new_job is_name files id chosen) d.jobs) - 5)
              (insert id (new_job is_name files id chosen) d.jobs),
        ),
        subst (All Fresh) segments (new-Fresh files chosen),
        omega (arith, counted, least),
        omega (arith, counted, most),
        ap (all is_name) (sym same) ∙ right,
        ap (map (λ p. p.name)) (sym segments) ∙ names-segments files chosen ∙ same,
      )
