-- ===== src/Media/Uploads.antt =====
-- internal/media/blob_service.go: what an upload leaves.
use mathlib.Core.Path.{subst}
use meshserver.Base.{ℕ, ◌≡◌, refl, sym, ap, Option, none, some, List}
use meshserver.Base.Tables.{find}
use meshserver.Base.Text.{Text}
use meshserver.Base.Errors.{Error}
use meshserver.Base.Exec.{Result, ok, err, or_err, reads, value, and_then, continue, and_then-keeps}
use meshserver.Model.Rows.{Blob}
use meshserver.Store.Media.{has_sha256, get_by_sha256, create_media}
use meshserver.Media.{
  Tools, Disk, Store, Ids, PutBlobInput, PutBlobResult, write_file, path_of, on_tables,
  read_payload, blob_input, store_blob, mime_or_detected, media_input, cid_of, put, is_ok,
}
use meshserver.Media.Addressed.{
  Separates, IsAddressed, FilesAddressed, write_file-Addressed, create_blob-Addressed,
  create_media-Addressed,
}

module _ (tools : Tools) (max_upload_bytes now : ℕ) (ids : Ids) (apart : Separates tools) where
  pub store_blob-Addressed :
      (payload : List ℕ) (mime : Text) (found : Result Blob) (d : Disk)
      → get_by_sha256 (tools.sha_hex payload) d.db ≡ found
      → IsAddressed tools d
      → IsAddressed tools (store_blob tools max_upload_bytes now ids payload mime found d).1
  unfolding store_blob get_by_sha256 or_err
  store_blob-Addressed payload mime (err e) d known (f, b, l) =
      create_blob-Addressed tools now (blob_input tools max_upload_bytes now ids payload mime)
        (record d {
          files = write_file tools (path_of tools (tools.sha_hex payload)) payload d.files;
        })
        refl (write_file-Addressed tools apart payload d.files f, b, l)
  store_blob-Addressed payload mime (ok x) d known (f, b, l) = (
    subst (λ (p : Text). FilesAddressed tools (write_file tools p payload d.files))
        (sym
          (b (tools.sha_hex payload) x
            (found-row (find (has_sha256 (tools.sha_hex payload)) d.db.blobs) known)).0)
        (write_file-Addressed tools apart payload d.files f),
    b,
    l,
  )
    where
      found-row : (o : Option Blob) → or_err o Error.not_found ≡ ok x → o ≡ some x
      found-row none h = cc
      found-row (some y) h = ap some (cc h)

  -- Every upload, on each of its branches, keeps each file at the place of its content's hash.
  pub put-IsAddressed :
      (r : List ℕ) (meta : PutBlobInput) (d : Disk)
      → IsAddressed tools d
      → IsAddressed tools (put tools max_upload_bytes now ids r meta d).1
  unfolding put
  put-IsAddressed r meta d h = go (read_payload tools max_upload_bytes now ids r)
    where
      later : List ℕ → Store PutBlobResult
      later payload =
          and_then (reads (λ d. ok (get_by_sha256 (tools.sha_hex payload) d.db))) (λ found.
            and_then
              (store_blob tools max_upload_bytes now ids payload
                (mime_or_detected tools max_upload_bytes now ids meta payload) found)
              (λ b.
                and_then (reads (λ d. cid_of tools max_upload_bytes now ids meta payload)) (λ cid.
                  and_then
                    (on_tables (
                      create_media now
                        (media_input tools max_upload_bytes now ids meta payload b cid)))
                    (λ o. value (record {
                      blob = b;
                      media = o;
                      dedup_hit = is_ok tools max_upload_bytes now ids found;
                    })))))

      go : (q : Result (List ℕ)) → IsAddressed tools (continue later q d).1
      go (err e) = h
      go (ok payload) =
          and_then-keeps (IsAddressed tools)
            (store_blob tools max_upload_bytes now ids payload
              (mime_or_detected tools max_upload_bytes now ids meta payload)
              (get_by_sha256 (tools.sha_hex payload) d.db))
            _ d (store_blob-Addressed payload _ _ d refl h)
            (λ b t kept.
              and_then-keeps (IsAddressed tools)
                (reads (λ d. cid_of tools max_upload_bytes now ids meta payload)) _ t kept
                (λ cid t' kept'.
                  and_then-keeps (IsAddressed tools)
                    (on_tables (
                      create_media now
                        (media_input tools max_upload_bytes now ids meta payload b cid)))
                    _ t'
                    (create_media-Addressed tools now
                      (media_input tools max_upload_bytes now ids meta payload b cid) t' kept')
                    (λ o t'' last. last)))
