-- ===== src/Media/Downloads.antt =====
-- internal/service/media.go: an upload that is downloaded again.
use mathlib.Core.Path.{subst}
use meshserver.Base.{ℕ, ◌≡◌, refl, sym, ap, ◌∙◌, Bool, List, ◌==◌}
use meshserver.Base.Tables.{find}
use meshserver.Base.Text.{Text}
use meshserver.Base.Errors.{Error}
use meshserver.Base.Exec.{
  Result, ok, err, or_err, reads, value, and_then, continue, and_then-ok, ◌>>=◌, and_then-inv,
}
use meshserver.Model.Rows.{Blob, MediaObject}
use meshserver.Service.Channels.{get_media_by_id}
use meshserver.Store.Media.{get_by_sha256, create_media, CreateMediaInput}
use meshserver.Media.{
  Tools, Disk, Store, Ids, PutBlobInput, PutBlobResult, is_at, open_file, on_tables, read_payload,
  store_blob, mime_or_detected, media_input, cid_of, put, is_ok, download_media_by_id,
}
use meshserver.Media.Addressed.{Separates, IsAddressed}
use meshserver.Media.Uploads.{store_blob-Addressed}
use meshserver.Media.Kept.{Kept, store_blob-Kept, create_media-shows}

module _ (tools : Tools) (max_upload_bytes now : ℕ) (ids : Ids) (apart : Separates tools) where
  -- What a download finds after the media object's row is written.
  Found : Text → MediaObject → Disk → Type 0
  Found sha o d =
      (content : List ℕ) × (download_media_by_id tools o.media_id d ≡ (ok (o, content), d))
      × (tools.sha_hex content ≡ sha)

  media-Found :
      (payload : List ℕ) (in_ : CreateMediaInput) (b : Blob) (d : Disk) {o : MediaObject}
      → in_.blob_id ≡ b.id
      → Kept tools (tools.sha_hex payload) b d
      → IsAddressed tools d
      → (create_media now in_ d.db).0 ≡ ok o
      → Found (tools.sha_hex payload) o (record d { db = (create_media now in_ d.db).1 })
  unfolding Found download_media_by_id open_file or_err ◌>>=◌
  media-Found payload in_ b d {o} same (row, (f, file)) (files, blobs, small) done = go (
      create_media-shows tools max_upload_bytes now ids apart in_ b d.db same
        (blobs (tools.sha_hex payload) b row).1 done)
    where
      last : Disk
      last = record d { db = (create_media now in_ d.db).1 }

      go :
          (o.media_id ≡ in_.media_id)
            × (o.blob_id ≡ b.id)
            × (get_media_by_id in_.media_id last.db ≡ ok o)
            × (last.db.blobs ≡ d.db.blobs)
          → Found (tools.sha_hex payload) o last
      go (mid, bid, got, rows) = (
        f.content,
        and_then-ok (reads (λ d. get_media_by_id o.media_id d.db)) _ last
              (ap (λ q. (q, last)) (ap (λ i. get_media_by_id i last.db) mid ∙ got))
            ∙ and_then-ok
                (reads (λ d. or_err (find (λ b. b.id == o.blob_id) d.db.blobs) Error.not_found)) _
                last
                (ap (λ q. (or_err q Error.not_found, last))
                  (ap (λ i. find (λ (x : Blob). x.id == i) last.db.blobs) bid
                    ∙ ap (λ (l : List Blob). find (λ (x : Blob). x.id == b.id) l) rows
                    ∙ (blobs (tools.sha_hex payload) b row).1))
            ∙ and_then-ok (reads (λ d. open_file tools b.storage_path d.files)) _ last
                (ap (λ q. (or_err q Error.blob_missing >>= (λ f. ok f.content), last)) file),
        files payload f (
            ap (λ p. find (is_at tools p) d.files) (sym (blobs (tools.sha_hex payload) b row).0)
            ∙ file),
      )

  -- An upload that succeeded can be downloaded under its new id: the media object comes back, with
  -- content of the same hash, and without a write.
  pub put-download :
      (r : List ℕ) (meta : PutBlobInput) (d : Disk) {payload : List ℕ} {res : PutBlobResult}
      → IsAddressed tools d
      → read_payload tools max_upload_bytes now ids r ≡ ok payload
      → (put tools max_upload_bytes now ids r meta d).0 ≡ ok res
      → (content : List ℕ) × (download_media_by_id tools res.media.media_id
            (put tools max_upload_bytes now ids r meta d).1
          ≡ (ok (res.media, content), (put tools max_upload_bytes now ids r meta d).1))
        × (tools.sha_hex content ≡ tools.sha_hex payload)
  unfolding put Found
  put-download r meta d {payload} {res} h read done = stored (
      and_then-inv (store_blob tools max_upload_bytes now ids payload mime (get_by_sha256 sha d.db))
        media d (ap (λ (q : Result PutBlobResult × Disk). q.0) (sym begun) ∙ done))
    where
      sha : Text
      sha = tools.sha_hex payload

      mime : Text
      mime = mime_or_detected tools max_upload_bytes now ids meta payload

      in_ : Blob → Text → CreateMediaInput
      in_ b cid = media_input tools max_upload_bytes now ids meta payload b cid

      hit : Bool
      hit = is_ok tools max_upload_bytes now ids (get_by_sha256 sha d.db)

      finish : Blob → MediaObject → Store PutBlobResult
      finish b o = value (record { blob = b; media = o; dedup_hit = hit })

      media : Blob → Store PutBlobResult
      media b =
          and_then (reads (λ d. cid_of tools max_upload_bytes now ids meta payload))
            (λ cid. and_then (on_tables (create_media now (in_ b cid))) (finish b))

      begun :
          put tools max_upload_bytes now ids r meta d
          ≡ and_then
              (store_blob tools max_upload_bytes now ids payload mime (get_by_sha256 sha d.db))
              media
              d
      begun =
          and_then-ok (reads (λ d. read_payload tools max_upload_bytes now ids r)) _ d
            (ap (λ q. (q, d)) read)

      Goal : Type 0
      Goal = Found sha res.media (put tools max_upload_bytes now ids r meta d).1

      ended :
          (b : Blob) (t : Disk) (cid : Text) (o : MediaObject) (t' : Disk)
          → store_blob tools max_upload_bytes now ids payload mime (get_by_sha256 sha d.db) d
            ≡ (ok b, t)
          → cid_of tools max_upload_bytes now ids meta payload ≡ ok cid
          → on_tables (create_media now (in_ b cid)) t ≡ (ok o, t')
          → (finish b o t').0 ≡ ok res
          → Goal
      ended b t cid o t' e1 e2 e3 last =
          subst (λ (x : Disk). Found sha res.media x)
            (sym (ap (λ (q : Result PutBlobResult × Disk). q.1) ran))
            (subst (λ (x : MediaObject). Found sha x t') {x = o} {y = res.media}
              (ap (λ (x : PutBlobResult). x.media) {x = made} {y = res} (cc last))
              (subst (λ (x : Disk). Found sha o x) (ap (λ (q : Result MediaObject × Disk). q.1) e3)
                (media-Found payload (in_ b cid) b t refl kept placed
                  (ap (λ (q : Result MediaObject × Disk). q.0) e3))))
        where
          made : PutBlobResult
          made = record { blob = b; media = o; dedup_hit = hit }

          ran : put tools max_upload_bytes now ids r meta d ≡ (ok made, t')
          ran =
              begun
              ∙ and_then-ok
                  (store_blob tools max_upload_bytes now ids payload mime (get_by_sha256 sha d.db))
                  media d e1
              ∙ and_then-ok (reads (λ d. cid_of tools max_upload_bytes now ids meta payload)) _ t
                  (ap (λ q. (q, t)) e2)
              ∙ and_then-ok (on_tables (create_media now (in_ b cid))) (finish b) t e3

          kept : Kept tools sha b t
          kept =
              subst (λ (x : Disk). Kept tools sha b x) (ap (λ (q : Result Blob × Disk). q.1) e1)
                (store_blob-Kept tools max_upload_bytes now ids apart payload mime
                  (get_by_sha256 sha d.db) d refl h (ap (λ (q : Result Blob × Disk). q.0) e1))

          placed : IsAddressed tools t
          placed =
              subst (λ (x : Disk). IsAddressed tools x) (ap (λ (q : Result Blob × Disk). q.1) e1)
                (store_blob-Addressed tools max_upload_bytes now ids apart payload mime
                  (get_by_sha256 sha d.db) d refl h)

      stored :
          (b : Blob) × (t : Disk) × (store_blob tools max_upload_bytes now ids payload mime
                (get_by_sha256 sha d.db)
                d
              ≡ (ok b, t))
            × ((media b t).0 ≡ ok res)
          → Goal
      stored (b, t, e1, rest) =
          with_cid (cid_of tools max_upload_bytes now ids meta payload) refl rest
        where
          with_cid :
              (q : Result Text)
              → cid_of tools max_upload_bytes now ids meta payload ≡ q
              → (continue
                  (λ cid. and_then (on_tables (create_media now (in_ b cid))) (finish b))
                  q
                  t).0
                ≡ ok res
              → Goal
          with_cid (ok cid) e2 rest =
              written (and_then-inv (on_tables (create_media now (in_ b cid))) (finish b) t rest)
            where
              written :
                  (o : MediaObject) × (t' : Disk) × (on_tables (create_media now (in_ b cid)) t
                      ≡ (ok o, t'))
                    × ((finish b o t').0 ≡ ok res)
                  → Goal
              written (o, t', e3, last) = ended b t cid o t' e1 e2 e3 last
          with_cid (err e) e2 rest = cc
