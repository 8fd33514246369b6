-- ===== src/Providers/Downloads/Tiles.antt =====
-- providers/brouter_downloads.py `_download_one`: a tile appears when it is complete, and not before.
use mathlib.Core.List.{append-nil, append_assoc}
use py_bike_router.Base.{
  eq_iff, ℕ, ◌+◌, ◌≤◌, ◌≡◌, refl, sym, ◌∙◌, ap, subst, ◌⊎◌, inl, inr, Bool-cases, Option-cases,
  String, Option, none, some, [], ◌++◌, true, false, arith, length, length-append, str_eq, lookup,
  insert, remove, lookup-insert, lookup-remove, if◌then◌else◌, Result, ok, err,
}
use py_bike_router.Providers.Downloads.Transfer.{
  SegmentState, SegmentProgress, DownloadError, Content, Files, Stream, Response, World, end, Fault,
  broken, chunk, tile_file, part_file, announced, Attempt, size_of, receive, synced, replaced,
  received, refused, opened, sized, responded, settle_one, download_one,
}

-- What a stream sends, where it comes to its end.
abbrev pub body : Stream → Option Content
body end = some []
body (broken e) = none
body (chunk c rest) = elim (body rest) [ none ↦ none | some b ↦ some (c ++ b) ]

module _ (w : World) (max_bytes : ℕ) where
  -- A complete tile: the source announced its size and sent this content to the end.
  pub record Complete (name : String) (content : Content) : Type 0 where
    pub response : Response
    pub answered : w.open_ name ≡ ok response
    pub success : response.status_code ≡ 200
    pub size : announced response.content_length ≡ some (length content)
    pub whole : body response.stream ≡ some content
    pub within : length content ≤ max_bytes

  receive-chunk :
      (part : String) (total : ℕ) (c : Content) (rest : Stream) (before : Content) (bytes : ℕ)
      → (receive w max_bytes part total (chunk c rest) before bytes).2 ≡ none
      → receive w max_bytes part total (chunk c rest) before bytes
        ≡ receive w max_bytes part total rest (before ++ c) (bytes + length c)
  receive-chunk part total c rest before bytes h = elim (Option-cases (w.write_error part bytes)) [
    | inr (e, eq) ↦ ground (arith, eq, h)
    | inl eq ↦ ground (arith, eq, h)
  ]

  -- The loop over a stream that ends without an exception has written all that was sent.
  receive-end :
      (part : String) (total : ℕ) (s : Stream) (before : Content) (bytes : ℕ)
      → (receive w max_bytes part total s before bytes).2 ≡ none
      → (b : Content) × (body s ≡ some b)
        × ((receive w max_bytes part total s before bytes).0 ≡ before ++ b)
        × ((receive w max_bytes part total s before bytes).1 ≡ bytes + length b)
  receive-end part total end before bytes h = ([], refl, sym (append-nil before), omega arith)
  receive-end part total (broken e) before bytes h = cc
  receive-end part total (chunk c rest) before bytes h =
      let same = receive-chunk part total c rest before bytes h in
      let (b, sent, content, counted) =
        receive-end part total rest (before ++ c) (bytes + length c)
          (ap (λ r. r.2) (sym same) ∙ h) in
      (
        c ++ b,
        rw sent refl,
        ap (λ r. r.0) same ∙ content ∙ append_assoc before c b,
        ap (λ r. r.1) same ∙ counted ∙ omega (arith, length-append c b),
      )

  -- What a download did: it installed a complete tile, or it left every file but the part file alone.
  unfoldable pub Installs :
      Files → SegmentProgress → Files × SegmentProgress × Option DownloadError → Type 0
  Installs files p (files', p', none) =
      (content : Content) × Complete p.name content
      × (p'.state ≡ SegmentState.done)
      × ((n : String)
          → lookup n files' ≡ (
              if str_eq (tile_file p.name) n
              then some content
              else if str_eq (part_file p.name) n
              then none
              else lookup n files))
  Installs files p (files', p', some e) =
      (p'.state ≡ SegmentState.failed)
      × (p'.error ≡ some e)
      × ((n : String) → (str_eq (part_file p.name) n ≡ true) ⊎ (lookup n files' ≡ lookup n files))
      × ((w.unlink_fails (part_file p.name) ≡ true) ⊎ (lookup (part_file p.name) files' ≡ none))

  -- An attempt that fails touched the part file alone.
  Touches : Files → String → Attempt → Type 0
  Touches files name a =
      (n : String) → str_eq (part_file name) n ≡ false → lookup n a.files ≡ lookup n files

  settle-failure :
      (files : Files) (p : SegmentProgress) (a : Attempt) (e : DownloadError)
      → Touches files p.name a
      → Installs files p (settle_one w max_bytes p a (some e))
  unfolding Installs Touches
  settle-failure files p a e t = (
    refl,
    refl,
    λ n. elim (Bool-cases (str_eq (part_file p.name) n)) [
      | inl e ↦ inl e
      | inr d ↦ inr (ground (arith, t n d, d, lookup-remove (part_file p.name) n a.files))
    ],
    elim (Bool-cases (w.unlink_fails (part_file p.name))) [
      | inl e ↦ inl e
      | inr h ↦ inr (
          ground (
            arith,
            h,
            eq_iff (part_file p.name) (part_file p.name),
            lookup-remove (part_file p.name) (part_file p.name) a.files,
          ))
    ],
  )

  Settled : Files → SegmentProgress → Attempt → Type 0
  Settled files p a = Installs files p (settle_one w max_bytes p a a.failure)

  replaced-Settled :
      (files : Files) (p : SegmentProgress) (total : ℕ) (content : Content) (bytes : ℕ)
      (o : Option DownloadError)
      → (o ≡ none → Complete p.name content)
      → Settled files p (replaced w max_bytes files p.name total content bytes o)
  unfolding Settled Installs Touches
  replaced-Settled files p total content bytes none complete = (
    content,
    complete refl,
    refl,
    λ n. ground (
      arith,
      lookup-insert (tile_file p.name) n content
          (remove (part_file p.name) (insert (part_file p.name) content files)),
      lookup-remove (part_file p.name) n (insert (part_file p.name) content files),
      lookup-insert (part_file p.name) n content files,
    ),
  )
  replaced-Settled files p total content bytes (some e) complete =
      settle-failure files p (replaced w max_bytes files p.name total content bytes (some e)) e
        (λ n d. ground (arith, d, lookup-insert (part_file p.name) n content files))

  synced-counted :
      (files : Files) (name : String) (total : ℕ) (content : Content) (bytes : ℕ)
      → synced w max_bytes files name total content bytes ≡ none
      → bytes ≡ total
  synced-counted files name total content bytes h = ground arith

  received-Settled :
      (files : Files) (p : SegmentProgress) (total : ℕ) (x : Content × ℕ × Option DownloadError)
      → (x.2 ≡ none → x.1 ≡ total → Complete p.name x.0)
      → Settled files p (received w max_bytes files p.name total x)
  unfolding Settled
  received-Settled files p total (content, bytes, some e) complete =
      replaced-Settled files p total content bytes (some e) (λ h. cc)
  received-Settled files p total (content, bytes, none) complete =
      replaced-Settled files p total content bytes _
        (λ h. complete refl (synced-counted files p.name total content bytes h))

  refused-Settled :
      (files : Files) (p : SegmentProgress) (bytes : ℕ) (total : Option ℕ) (e : DownloadError)
      → Settled files p (refused w max_bytes files bytes total e)
  unfolding Settled Touches
  refused-Settled files p bytes total e =
      settle-failure files p (refused w max_bytes files bytes total e) e (λ n d. refl)

  size_of-ok :
      (files : Files) (r : Response) (total : ℕ)
      → size_of w max_bytes files r ≡ ok total
      → (r.status_code ≡ 200) × (announced r.content_length ≡ some total) × (total ≤ max_bytes)
  size_of-ok files r total h = ground arith

  opened-Settled :
      (files : Files) (p : SegmentProgress) (r : Response) (total : ℕ)
      → w.open_ p.name ≡ ok r
      → p.bytes ≡ 0
      → size_of w max_bytes files r ≡ ok total
      → (o : Option String)
      → Settled files p (opened w max_bytes files p.name total r.stream p.bytes o)
  opened-Settled files p r total o200 fresh size (some e) = refused-Settled files p _ _ _
  opened-Settled files p r total o200 fresh size none =
      received-Settled files p total _ (λ ended counted.
        let (b, sent, content, bytes) =
          receive-end (part_file p.name) total r.stream [] p.bytes ended in
        let (success, announced_total, within) = size_of-ok files r total size in
        let sized_right : length b ≡ total = omega (arith, bytes, counted, fresh) in
        subst (Complete p.name) (sym content) (record {
          response = r;
          answered = o200;
          success = success;
          size = rw sized_right announced_total;
          whole = sent;
          within = omega (arith, within, sized_right);
        }))

  sized-Settled :
      (files : Files) (p : SegmentProgress) (r : Response)
      → w.open_ p.name ≡ ok r
      → p.bytes ≡ 0
      → (x : Result DownloadError ℕ) → size_of w max_bytes files r ≡ x
      → Settled files p (sized w max_bytes files p.name r.stream p x)
  sized-Settled files p r o200 fresh (err e) size = refused-Settled files p _ _ e
  sized-Settled files p r o200 fresh (ok total) size =
      opened-Settled files p r total o200 fresh size (w.open_error (part_file p.name))

  responded-Settled :
      (files : Files) (p : SegmentProgress)
      → p.bytes ≡ 0
      → (x : Result Fault Response) → w.open_ p.name ≡ x
      → Settled files p (responded w max_bytes files p x)
  responded-Settled files p fresh (err e) h = refused-Settled files p _ _ _
  responded-Settled files p fresh (ok r) h =
      sized-Settled files p r h fresh (size_of w max_bytes files r) refl

  -- A download of a segment that nothing was received for yet either ends with an exception or
  -- installs a complete tile: the source announced the size of what it sent, sent all of it, and the
  -- size is within the limit. Then the tile's file holds exactly this content, its part file is gone,
  -- and no other file changed. With an exception the segment is marked as failed with it, no file but
  -- the part file changed, and the part file is gone unless it cannot be removed.
  pub download_one-Installs :
      (files : Files) (p : SegmentProgress)
      → p.bytes ≡ 0
      → Installs files p (download_one w max_bytes files p)
  unfolding download_one Settled
  download_one-Installs files p fresh = responded-Settled files p fresh (w.open_ p.name) refl
