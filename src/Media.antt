-- ===== src/Media.antt =====
-- internal/media/blob_service.go, internal/storage/local.go and internal/service/media.go: uploads, with
-- the hash, the detection of types, the CIDs and the names of files as parameters.
pub mod Addressed
pub mod Uploads
pub mod Kept
pub mod Downloads
use meshserver.Base.{
  ℕ, ◌+◌, Bool, true, false, not, Option, none, some, List, [], ◌∷◌, ◌++◌, length, take, drop, leb,
  ltb, ◌==◌, if◌then◌else◌,
}
use meshserver.Base.Tables.{find, insert}
use meshserver.Store.Direct.Conversations.{is_some}
use meshserver.Base.Text.{Text, text_eq, is_empty, trim_space, codes}
use meshserver.Base.Errors.{Error}
use meshserver.Base.Exec.{Result, ok, err, guard, ◌>>=◌, ◌>>◌, or_err, Exec, reads, value, and_then}
use meshserver.Model.Rows.{Blob, MediaObject}
use meshserver.Model.Database.{Database}
use meshserver.Store.Media.{
  get_by_sha256, CreateBlobInput, create_blob, CreateMediaInput, create_media,
}
use meshserver.Service.Channels.{get_media_by_id}

-- `sha_hex` is the hexadecimal SHA-256, `detect_mime` http.DetectContentType, `file_cid` the import of
-- ComputeUnixFSFileCID for content that is not empty, and `full_path` filepath.Join of the root and the
-- cleaned path.
pub record Tools : Type 0 where
  pub sha_hex : List ℕ → Text
  pub detect_mime : List ℕ → Text
  pub file_cid : List ℕ → Result Text
  pub full_path : Text → Text

-- A file has its full path and its content. Writing and reading a file never fail otherwise.
pub record File : Type 0 where
  pub path : Text
  pub content : List ℕ

pub record Disk : Type 0 where
  pub db : Database
  pub files : List File

module _ (tools : Tools) where
  abbrev pub is_at : Text → File → Bool
  is_at path f = text_eq f.path (tools.full_path path)

  unfoldable pub exists_file : Text → List File → Bool
  exists_file path files = is_some (find (is_at path) files)

  -- A file that is there is left as it is.
  unfoldable pub write_file : Text → List ℕ → List File → List File
  write_file path content files =
      if exists_file path files
      then files
      else insert (record { path = tools.full_path path; content = content }) files

  unfoldable pub open_file : Text → List File → Result (List ℕ)
  open_file path files = or_err (find (is_at path) files) Error.blob_missing >>= λ f. ok f.content

  -- filepath.Join(shaHex[0:2], shaHex[2:4], shaHex)
  unfoldable pub path_of : Text → Text
  path_of sha = take 2 sha ++ codes "/" ++ take 2 (drop 2 sha) ++ codes "/" ++ sha

abbrev pub Store : Type 0 → Type 0
Store A = Exec Disk A

abbrev pub on_tables : {A : Type 0} → Exec Database A → Store A
on_tables m disk = let r = m disk.db in (r.0, record disk { db = r.1 })

abbrev pub on_files : (List File → List File) → Store (Unit {0})
on_files f disk = (ok tt, record disk { files = f disk.files })

pub record PutBlobInput : Type 0 where
  pub is_image : Bool
  pub original_name : Text
  pub mime_type : Text
  pub created_by : ℕ

pub record PutBlobResult : Type 0 where
  pub blob : Blob
  pub media : MediaObject
  pub dedup_hit : Bool

-- What an upload draws at random.
pub record Ids : Type 0 where
  pub blob_id : Text
  pub media_id : Text

module _ (tools : Tools) (max_upload_bytes now : ℕ) (ids : Ids) where
  -- One byte more than is allowed is read, and no more.
  unfoldable pub read_payload : List ℕ → Result (List ℕ)
  read_payload r =
      let payload = take (max_upload_bytes + 1) r in
      if length payload == 0
      then err Error.empty_blob
      else if ltb max_upload_bytes (length payload)
      then err Error.blob_too_large
      else ok payload

  abbrev pub blob_input : List ℕ → Text → CreateBlobInput
  blob_input payload mime_type = record {
    blob_id = ids.blob_id;
    sha256 = tools.sha_hex payload;
    size = length payload;
    mime_type = mime_type;
    storage_path = path_of tools (tools.sha_hex payload);
    ref_count = 0;
  }

  -- The blob of the content: a new file and a new row, or the row that is there, whose file is written
  -- again if it is lost.
  unfoldable pub store_blob : List ℕ → Text → Result Blob → Store Blob
  store_blob payload mime_type (err e) =
      and_then (on_files (write_file tools (path_of tools (tools.sha_hex payload)) payload))
        (λ u. on_tables (create_blob now (blob_input payload mime_type)))
  store_blob payload mime_type (ok b) =
      and_then (on_files (write_file tools b.storage_path payload)) (λ u. value b)

  abbrev pub is_ok : {A : Type 0} → Result A → Bool
  is_ok (ok a) = true
  is_ok (err e) = false

  unfoldable pub mime_or_detected : PutBlobInput → List ℕ → Text
  mime_or_detected meta payload =
      let given = trim_space meta.mime_type in
      if is_empty given then tools.detect_mime payload else given

  abbrev pub media_input : PutBlobInput → List ℕ → Blob → Text → CreateMediaInput
  media_input meta payload b cid = record {
    media_id = ids.media_id;
    blob_id = b.id;
    is_image = meta.is_image;
    original_name = meta.original_name;
    mime_type = mime_or_detected meta payload;
    size = length payload;
    created_by = meta.created_by;
    file_cid = cid;
  }

  unfoldable pub cid_of : PutBlobInput → List ℕ → Result Text
  cid_of meta payload = if meta.is_image then ok [] else tools.file_cid payload

  unfoldable pub put : List ℕ → PutBlobInput → Store PutBlobResult
  put r meta = and_then (reads (λ d. read_payload r)) (λ payload.
      and_then (reads (λ d. ok (get_by_sha256 (tools.sha_hex payload) d.db))) (λ found.
        and_then (store_blob payload (mime_or_detected meta payload) found) (λ b.
          and_then (reads (λ d. cid_of meta payload)) (λ cid.
            and_then (on_tables (create_media now (media_input meta payload b cid)))
              (λ o. value (record { blob = b; media = o; dedup_hit = is_ok found }))))))

  unfoldable pub save_uploaded_blob : List ℕ → PutBlobInput → Store MediaObject
  save_uploaded_blob content meta = and_then (put content meta) (λ r. value r.media)

module _ (tools : Tools) where
  -- The join with the blob's row gives the path.
  unfoldable pub download_media_by_id : Text → Store (MediaObject × List ℕ)
  download_media_by_id media_id = and_then (reads (λ d. get_media_by_id media_id d.db)) (λ o.
      and_then (reads (λ d. or_err (find (λ b. b.id == o.blob_id) d.db.blobs) Error.not_found))
        (λ b.
          and_then (reads (λ d. open_file tools b.storage_path d.files))
            (λ content. value (o, content))))
