-- ===== src/Media/Addressed.antt =====
-- internal/media: a file lies where the hash of its content says, and the table of blobs knows the place.
use meshserver.Base.{
  ℕ, ◌+◌, ◌<◌, ◌≡◌, refl, sym, ap, ◌∙◌, Bool, true, false, ◌||◌, Option, none, some, List, [], ◌∷◌,
  ◌==◌, if◌then◌else◌, All, All-append, All-mono, arith, ==_refl,
}
use mathlib.Core.Path.{subst}
use meshserver.Base.Tables.{find, insert, or_else, find-insert}
use meshserver.Base.Text.{Text, text_eq, text_eq→eq}
use meshserver.Base.Errors.{Error}
use meshserver.Base.Exec.{Result, err}
use meshserver.Model.Rows.{Blob, MediaObject}
use meshserver.Model.Database.{Database}
use meshserver.Store.Direct.Conversations.{is_some}
use meshserver.Store.Media.{
  has_sha256, has_blob_id, has_media_id, get_by_sha256, CreateBlobInput, create_blob, new_blob,
  insert_blob, CreateMediaInput, create_media, insert_media,
}
use meshserver.Service.Channels.{get_media_by_id}
use meshserver.Media.{Tools, File, Disk, is_at, exists_file, write_file, path_of, on_tables}

-- No row has an id that is greater than all of them.
pub find-above :
    (n : ℕ) (blobs : List Blob)
    → All (λ (b : Blob). b.id < n) blobs
    → find (λ (b : Blob). b.id == n) blobs ≡ none
unfolding find
find-above n [] h = refl
find-above n (b ∷ bs) h = ground (arith, find-above n bs h.1, h)

-- Different hashes have different paths after filepath has cleaned and joined them.
abbrev pub Separates : Tools → Type 0
Separates tools =
    (a b : List ℕ)
    → text_eq (tools.full_path (path_of tools (tools.sha_hex a)))
        (tools.full_path (path_of tools (tools.sha_hex b)))
      ≡ true
    → tools.sha_hex a ≡ tools.sha_hex b

module _ (tools : Tools) where
  abbrev pub FilesAddressed : List File → Type 0
  FilesAddressed files =
      (c : List ℕ) (f : File)
      → find (is_at tools (path_of tools (tools.sha_hex c))) files ≡ some f
      → tools.sha_hex f.content ≡ tools.sha_hex c

  abbrev pub BlobsAddressed : List Blob → Type 0
  BlobsAddressed blobs =
      (s : Text) (b : Blob)
      → find (has_sha256 s) blobs ≡ some b
      → (b.storage_path ≡ path_of tools s) × (find (λ x. x.id == b.id) blobs ≡ some b)

  -- A file at the path of a hash has that hash, a blob's row has the path of its hash, and is the only
  -- one with its id, and ids that the table has not given yet are greater.
  abbrev pub IsAddressed : Disk → Type 0
  IsAddressed d =
      FilesAddressed d.files
      × BlobsAddressed d.db.blobs
      × All (λ (b : Blob). b.id < d.db.next_blob_id) d.db.blobs

  pub write_file-Addressed :
      Separates tools
      → (payload : List ℕ) (files : List File) → FilesAddressed files
      → FilesAddressed (write_file tools (path_of tools (tools.sha_hex payload)) payload files)
  unfolding write_file
  write_file-Addressed apart payload files h =
      go (exists_file tools (path_of tools (tools.sha_hex payload)) files)
    where
      path : Text
      path = path_of tools (tools.sha_hex payload)

      fresh : File
      fresh = record { path = tools.full_path path; content = payload }

      added :
          (c : List ℕ) (f : File)
          → find (is_at tools (path_of tools (tools.sha_hex c))) (insert fresh files) ≡ some f
          → tools.sha_hex f.content ≡ tools.sha_hex c
      added c f found =
          cases (find (is_at tools (path_of tools (tools.sha_hex c))) files) refl
            (sym (find-insert (is_at tools (path_of tools (tools.sha_hex c))) fresh files) ∙ found)
        where
          here :
              (b : Bool)
              → is_at tools (path_of tools (tools.sha_hex c)) fresh ≡ b
              → (if b then some fresh else none) ≡ some f
              → tools.sha_hex f.content ≡ tools.sha_hex c
          here true e same =
              ap (λ (g : File). tools.sha_hex g.content) {x = f} {y = fresh} (cc same)
              ∙ apart payload c e
          here false e same = cc

          cases :
              (o : Option File)
              → find (is_at tools (path_of tools (tools.sha_hex c))) files ≡ o
              → or_else o
                  (if is_at tools (path_of tools (tools.sha_hex c)) fresh then some fresh else none)
                ≡ some f
              → tools.sha_hex f.content ≡ tools.sha_hex c
          cases (some g) e same = h c f (e ∙ same)
          cases none e same = here (is_at tools (path_of tools (tools.sha_hex c)) fresh) refl same

      go : (b : Bool) → FilesAddressed (if b then files else insert fresh files)
      go true = h
      go false = added

  -- The row of a new hash, behind the rows that are there.
  module _ (blobs : List Blob) (new : Blob) (next : ℕ) where
    insert-BlobsAddressed :
        new.storage_path ≡ path_of tools new.sha256
        → new.id ≡ next
        → All (λ (b : Blob). b.id < next) blobs
        → BlobsAddressed blobs
        → BlobsAddressed (insert new blobs)
    insert-BlobsAddressed placed fresh small h s b found =
        cases (find (has_sha256 s) blobs) refl (sym (find-insert (has_sha256 s) new blobs) ∙ found)
      where
        Good : Type 0
        Good =
            (b.storage_path ≡ path_of tools s)
            × (find (λ x. x.id == b.id) (insert new blobs) ≡ some b)

        old :
            (find (λ x. x.id == b.id) blobs ≡ some b)
            → find (λ x. x.id == b.id) (insert new blobs) ≡ some b
        old e =
            find-insert (λ (x : Blob). x.id == b.id) new blobs
            ∙ ap (λ o. or_else o (if new.id == b.id then some new else none)) e

        here : (t : Bool) → has_sha256 s new ≡ t → (if t then some new else none) ≡ some b → Good
        here true e same =
            subst
              (λ (x : Blob).
                (x.storage_path ≡ path_of tools s)
                × (find (λ y. y.id == x.id) (insert new blobs) ≡ some x))
              {x = new} {y = b} (cc same)
              (
                placed ∙ ap (path_of tools) (text_eq→eq new.sha256 s e),
                find-insert (λ (y : Blob). y.id == new.id) new blobs
                    ∙ ap (λ o. or_else o (if new.id == new.id then some new else none))
                        (find-above new.id blobs
                          (All-mono (λ x l. omega (arith, l, fresh)) blobs small))
                    ∙ ap (λ t. if t then some new else none) (==_refl new.id),
              )
        here false e same = cc

        cases :
            (o : Option Blob)
            → find (has_sha256 s) blobs ≡ o
            → or_else o (if has_sha256 s new then some new else none) ≡ some b
            → Good
        cases (some g) e same = ((h s b (e ∙ same)).0, old (h s b (e ∙ same)).1)
        cases none e same = here (has_sha256 s new) refl same

    insert-small :
        new.id ≡ next
        → All (λ (b : Blob). b.id < next) blobs
        → All (λ (b : Blob). b.id < next + 1) (insert new blobs)
    insert-small fresh small =
        All-append (λ (b : Blob). b.id < next + 1) blobs (new ∷ [])
          (All-mono (λ b l. omega (arith, l)) blobs small) (omega (arith, fresh), tt)

  pub create_blob-Addressed :
      (now : ℕ) (in_ : CreateBlobInput) (d : Disk)
      → in_.storage_path ≡ path_of tools in_.sha256
      → IsAddressed d
      → IsAddressed (on_tables (create_blob now in_) d).1
  unfolding create_blob
  create_blob-Addressed now in_ d placed (f, b, l) = go (
      is_some (find (has_blob_id in_.blob_id) d.db.blobs)
      || is_some (find (has_sha256 in_.sha256) d.db.blobs))
    where
      new : Blob
      new = new_blob now d.db.next_blob_id in_

      after : Bool → Result Blob × Database
      after clash =
          if clash
          then (err Error.duplicate_key, d.db)
          else (get_by_sha256 in_.sha256 (insert_blob now in_ d.db), insert_blob now in_ d.db)

      go : (clash : Bool) → IsAddressed (record d { db = (after clash).1 })
      go true = (f, b, l)
      go false = (
        f,
        insert-BlobsAddressed d.db.blobs new d.db.next_blob_id placed refl l b,
        insert-small d.db.blobs new d.db.next_blob_id refl l,
      )

  pub create_media-Addressed :
      (now : ℕ) (in_ : CreateMediaInput) (d : Disk)
      → IsAddressed d
      → IsAddressed (on_tables (create_media now in_) d).1
  unfolding create_media
  create_media-Addressed now in_ d h =
      go (is_some (find (has_media_id in_.media_id) d.db.media_objects))
    where
      after : Bool → Result MediaObject × Database
      after clash =
          if clash
          then (err Error.duplicate_key, d.db)
          else (get_media_by_id in_.media_id (insert_media now in_ d.db), insert_media now in_ d.db)

      go : (clash : Bool) → IsAddressed (record d { db = (after clash).1 })
      go true = h
      go false = h
