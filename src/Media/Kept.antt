-- ===== src/Media/Kept.antt =====
-- internal/media/blob_service.go: the rows and the file of an upload.
use mathlib.Core.Path.{subst}
use meshserver.Base.{
  ℕ, ◌≡◌, refl, sym, ap, ◌∙◌, Bool, true, false, ◌&&◌, ◌||◌, Option, none, some, List, [], ◌∷◌,
  ◌==◌, if◌then◌else◌, arith,
}
use meshserver.Base.Tables.{find, insert, or_else, find-insert}
use meshserver.Base.Text.{Text, text_eq_refl}
use meshserver.Base.Errors.{Error}
use meshserver.Base.Exec.{Result, ok, err, or_err}
use meshserver.Model.Rows.{Blob, MediaObject}
use meshserver.Model.Database.{Database}
use meshserver.Service.Channels.{get_media_by_id}
use meshserver.Store.Direct.Conversations.{is_some}
use meshserver.Store.Media.{
  has_sha256, has_blob_id, has_media_id, get_by_sha256, create_blob, CreateBlobInput, insert_blob,
  create_media, CreateMediaInput, new_media, insert_media,
}
use meshserver.Media.{
  Tools, File, Disk, Ids, is_at, exists_file, write_file, path_of, blob_input, store_blob,
}
use meshserver.Media.Addressed.{Separates, IsAddressed}
use meshserver.Media.Uploads.{store_blob-Addressed}

or_err-some : {A : Type 0} (o : Option A) (e : Error) {a : A} → or_err o e ≡ ok a → o ≡ some a
unfolding or_err
or_err-some none e h = cc
or_err-some (some y) e h = ap some (cc h)

-- A row that also meets another condition is not there either.
pub find-stronger :
    {A : Type 0} (p q : A → Bool) (xs : List A)
    → find p xs ≡ none
    → find (λ x. p x && q x) xs ≡ none
unfolding find
find-stronger p q [] h = refl
find-stronger p q (x ∷ xs) h = ground (arith, find-stronger p q xs, h)

module _ (tools : Tools) where
  pub write_file-is_there :
      (path : Text) (content : List ℕ) (files : List File)
      → (f : File) × (find (is_at tools path) (write_file tools path content files) ≡ some f)
  unfolding write_file exists_file
  write_file-is_there path content files = go (find (is_at tools path) files) refl
    where
      fresh : File
      fresh = record { path = tools.full_path path; content = content }

      go :
          (o : Option File)
          → find (is_at tools path) files ≡ o
          → (f : File) × (find (is_at tools path) (if is_some o then files else insert fresh files)
              ≡ some f)
      go (some f) e = (f, e)
      go none e = (
        fresh,
        find-insert (is_at tools path) fresh files
            ∙ ap (λ o. or_else o (if is_at tools path fresh then some fresh else none)) e
            ∙ ap (λ b. if b then some fresh else none) (text_eq_refl (tools.full_path path)),
      )

  -- The blob's row, and its file.
  abbrev pub Held : Text → List File → Type 0
  Held path files = (f : File) × (find (is_at tools path) files ≡ some f)

  abbrev pub Kept : Text → Blob → Disk → Type 0
  Kept sha b d = (find (has_sha256 sha) d.db.blobs ≡ some b) × Held b.storage_path d.files

  module _ (max_upload_bytes now : ℕ) (ids : Ids) (apart : Separates tools) where
    pub store_blob-Kept :
        (payload : List ℕ) (mime : Text) (found : Result Blob) (d : Disk) {b : Blob}
        → get_by_sha256 (tools.sha_hex payload) d.db ≡ found
        → IsAddressed tools d
        → (store_blob tools max_upload_bytes now ids payload mime found d).0 ≡ ok b
        → Kept
            (tools.sha_hex payload)
            b
            (store_blob tools max_upload_bytes now ids payload mime found d).1
    unfolding store_blob get_by_sha256 create_blob
    store_blob-Kept payload mime (ok x) d {b} known h done = (
      or_err-some (find (has_sha256 (tools.sha_hex payload)) d.db.blobs) Error.not_found known
          ∙ ap some (cc done),
      subst
          (λ (y : Blob).
            (f : File) × (find (is_at tools y.storage_path)
                (write_file tools x.storage_path payload d.files)
              ≡ some f))
          {x = x} {y = b} (cc done) (write_file-is_there x.storage_path payload d.files),
    )
    store_blob-Kept payload mime (err e) d {b} known h done = (
      row,
      subst
          (λ (p : Text).
            (f : File) × (find (is_at tools p)
                (write_file tools (path_of tools (tools.sha_hex payload)) payload d.files)
              ≡ some f))
          (sym
            ((store_blob-Addressed tools max_upload_bytes now ids apart payload mime (err e) d known
                h).1
              (tools.sha_hex payload) b row).0)
          (write_file-is_there (path_of tools (tools.sha_hex payload)) payload d.files),
    )
      where
        in_ : CreateBlobInput
        in_ = blob_input tools max_upload_bytes now ids payload mime

        after : Bool → Result Blob × Database
        after clash =
            if clash
            then (err Error.duplicate_key, d.db)
            else (get_by_sha256 in_.sha256 (insert_blob now in_ d.db), insert_blob now in_ d.db)

        inserted :
            (clash : Bool)
            → (after clash).0 ≡ ok b
            → find (has_sha256 (tools.sha_hex payload)) (after clash).1.blobs ≡ some b
        inserted true no_row = cc
        inserted false got =
            or_err-some (find (has_sha256 in_.sha256) (insert_blob now in_ d.db).blobs)
              Error.not_found got

        row : find (has_sha256 (tools.sha_hex payload)) (create_blob now in_ d.db).1.blobs ≡ some b
        row =
            inserted
              (is_some (find (has_blob_id in_.blob_id) d.db.blobs)
                || is_some (find (has_sha256 in_.sha256) d.db.blobs))
              done

    pub create_media-shows :
        (in_ : CreateMediaInput) (b : Blob) (db : Database) {o : MediaObject}
        → in_.blob_id ≡ b.id
        → find (λ (x : Blob). x.id == b.id) db.blobs ≡ some b
        → (create_media now in_ db).0 ≡ ok o
        → (o.media_id ≡ in_.media_id)
          × (o.blob_id ≡ b.id)
          × (get_media_by_id in_.media_id (create_media now in_ db).1 ≡ ok o)
          × ((create_media now in_ db).1.blobs ≡ db.blobs)
    unfolding create_media get_media_by_id or_err
    create_media-shows in_ b db {o} same there done =
        go (find (has_media_id in_.media_id) db.media_objects) refl done
      where
        new : MediaObject
        new = new_media now db.next_media_id in_

        after : Option MediaObject → Result MediaObject × Database
        after clash =
            if is_some clash
            then (err Error.duplicate_key, db)
            else (get_media_by_id in_.media_id (insert_media now in_ db), insert_media now in_ db)

        joined : MediaObject → Bool
        joined o = is_some (find (λ b. b.id == o.blob_id) db.blobs)

        shown :
            find (has_media_id in_.media_id) db.media_objects ≡ none
            → get_media_by_id in_.media_id (insert_media now in_ db) ≡ ok new
        shown e =
            ap (λ o. or_err o Error.not_found)
              (find-insert (λ x. has_media_id in_.media_id x && joined x) new db.media_objects
                ∙ ap
                    (λ o.
                      or_else o
                        (if has_media_id in_.media_id new && joined new then some new else none))
                    (find-stronger (has_media_id in_.media_id) joined db.media_objects e)
                ∙ ap (λ t. if t && joined new then some new else none) (text_eq_refl in_.media_id)
                ∙ ap (λ t. if t then some new else none)
                    (ap (λ i. is_some (find (λ (x : Blob). x.id == i) db.blobs)) same
                      ∙ ap is_some there))

        go :
            (clash : Option MediaObject)
            → find (has_media_id in_.media_id) db.media_objects ≡ clash
            → (after clash).0 ≡ ok o
            → (o.media_id ≡ in_.media_id)
              × (o.blob_id ≡ b.id)
              × (get_media_by_id in_.media_id (after clash).1 ≡ ok o)
              × ((after clash).1.blobs ≡ db.blobs)
        go (some x) e fails = cc
        go none e got =
            subst
              (λ (y : MediaObject).
                (y.media_id ≡ in_.media_id)
                × (y.blob_id ≡ b.id)
                × (get_media_by_id in_.media_id (insert_media now in_ db) ≡ ok y)
                × (db.blobs ≡ db.blobs))
              {x = new} {y = o} (cc (sym (shown e) ∙ got)) (refl, same, shown e, refl)
