-- ===== src/Store/Media.antt =====
-- internal/repository/mysql/blob.go: the rows of blobs and media objects.
use meshserver.Base.{ℕ, ◌+◌, Bool, ◌||◌, ◌==◌, if◌then◌else◌}
use meshserver.Base.Tables.{find, update_where, insert}
use meshserver.Store.Direct.Conversations.{is_some}
use meshserver.Base.Text.{Text, text_eq}
use meshserver.Base.Errors.{Error}
use meshserver.Base.Exec.{Result, err, or_err, Exec}
use meshserver.Model.Rows.{Blob, MediaObject}
use meshserver.Model.Database.{Database}
use meshserver.Service.Channels.{get_media_by_id}

abbrev pub has_sha256 : Text → Blob → Bool
has_sha256 sha256 b = text_eq b.sha256 sha256

unfoldable pub get_by_sha256 : Text → Database → Result Blob
get_by_sha256 sha256 db = or_err (find (has_sha256 sha256) db.blobs) Error.not_found

pub record CreateBlobInput : Type 0 where
  pub blob_id : Text
  pub sha256 : Text
  pub size : ℕ
  pub mime_type : Text
  pub storage_path : Text
  pub ref_count : ℕ

abbrev pub new_blob : ℕ → ℕ → CreateBlobInput → Blob
new_blob now id in_ = record {
  id = id;
  blob_id = in_.blob_id;
  sha256 = in_.sha256;
  size = in_.size;
  mime_type = in_.mime_type;
  storage_path = in_.storage_path;
  ref_count = in_.ref_count;
  created_at = now;
}

abbrev pub has_blob_id : Text → Blob → Bool
has_blob_id blob_id b = text_eq b.blob_id blob_id

abbrev pub insert_blob : ℕ → CreateBlobInput → Database → Database
insert_blob now in_ db = record db {
  blobs = insert (new_blob now db.next_blob_id in_) db.blobs;
  next_blob_id = db.next_blob_id + 1;
}

-- The keys of the table are the id, the external id and the hash.
unfoldable pub create_blob : ℕ → CreateBlobInput → Exec Database Blob
create_blob now in_ db =
    if is_some (find (has_blob_id in_.blob_id) db.blobs)
      || is_some (find (has_sha256 in_.sha256) db.blobs)
    then (err Error.duplicate_key, db)
    else (get_by_sha256 in_.sha256 (insert_blob now in_ db), insert_blob now in_ db)

unfoldable pub inc_ref : ℕ → Database → Database
inc_ref blob_id db = record db {
  blobs =
      update_where (λ b. b.id == blob_id) (λ b. record b { ref_count = b.ref_count + 1 }) db.blobs;
}

pub record CreateMediaInput : Type 0 where
  pub media_id : Text
  pub blob_id : ℕ
  pub is_image : Bool
  pub original_name : Text
  pub mime_type : Text
  pub size : ℕ
  pub created_by : ℕ
  pub file_cid : Text

abbrev pub new_media : ℕ → ℕ → CreateMediaInput → MediaObject
new_media now id in_ = record {
  id = id;
  media_id = in_.media_id;
  blob_id = in_.blob_id;
  is_image = in_.is_image;
  original_name = in_.original_name;
  mime_type = in_.mime_type;
  file_cid = in_.file_cid;
  size = in_.size;
  created_by = in_.created_by;
  created_at = now;
}

abbrev pub has_media_id : Text → MediaObject → Bool
has_media_id media_id o = text_eq o.media_id media_id

abbrev pub insert_media : ℕ → CreateMediaInput → Database → Database
insert_media now in_ db = record db {
  media_objects = insert (new_media now db.next_media_id in_) db.media_objects;
  next_media_id = db.next_media_id + 1;
}

unfoldable pub create_media : ℕ → CreateMediaInput → Exec Database MediaObject
create_media now in_ db =
    if is_some (find (has_media_id in_.media_id) db.media_objects)
    then (err Error.duplicate_key, db)
    else (get_media_by_id in_.media_id (insert_media now in_ db), insert_media now in_ db)
