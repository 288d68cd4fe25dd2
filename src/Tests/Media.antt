-- ===== src/Tests/Media.antt =====
-- An upload of two bytes, with a hash that ends in the content and a path that ends in the hash.
use meshserver.Base.{ℕ, ◌≡◌, refl, true, false, List, [], ◌∷◌, drop}
use meshserver.Base.Tables.{find}
use meshserver.Base.Text.{codes, text_eq, text_eq→eq, trim_space, trim_left, is_space}
use meshserver.Base.Exec.{ok, or_err}
use meshserver.Service.Channels.{get_media_by_id}
use meshserver.Store.Media.{get_by_sha256, create_blob, create_media}
use meshserver.Media.{
  Tools, Disk, Ids, PutBlobInput, PutBlobResult, path_of, read_payload, store_blob,
  mime_or_detected, cid_of, put, download_media_by_id,
}
use meshserver.Media.Addressed.{Separates, IsAddressed}
use meshserver.Media.Uploads.{put-IsAddressed}
use meshserver.Media.Downloads.{put-download}
use meshserver.Tests.Data.{empty}

abbrev tools : Tools
tools = record {
  sha_hex = λ content. 1 ∷ 2 ∷ 3 ∷ 4 ∷ content;
  detect_mime = λ content. codes "text/plain";
  file_cid = λ content. ok (codes "cid");
  full_path = λ path. drop 6 path;
}

tools-Separates : Separates tools
unfolding path_of
tools-Separates a b h = text_eq→eq _ _ h

-- Nothing is stored yet.
abbrev bare : Disk
bare = record { db = empty; files = [] }

bare-IsAddressed : IsAddressed tools bare
unfolding find
bare-IsAddressed = (λ c f h. cc h, λ s b h. cc h, tt)

abbrev ids : Ids
ids = record { blob_id = codes "b"; media_id = codes "m" }

abbrev picture : PutBlobInput
picture = record {
  is_image = true;
  original_name = codes "p";
  mime_type = codes "image/png";
  created_by = 1;
}

put-IsAddressed_example : IsAddressed tools (put tools 3 9 ids (7 ∷ 8 ∷ []) picture bare).1
put-IsAddressed_example =
    put-IsAddressed tools 3 9 ids tools-Separates (7 ∷ 8 ∷ []) picture bare bare-IsAddressed

abbrev stored : PutBlobResult
stored = record {
  blob = record {
    id = 1;
    blob_id = codes "b";
    sha256 = tools.sha_hex (7 ∷ 8 ∷ []);
    size = 2;
    mime_type = codes "image/png";
    storage_path = path_of tools (tools.sha_hex (7 ∷ 8 ∷ []));
    ref_count = 0;
    created_at = 9;
  };
  media = record {
    id = 1;
    media_id = codes "m";
    blob_id = 1;
    is_image = true;
    original_name = codes "p";
    mime_type = codes "image/png";
    file_cid = [];
    size = 2;
    created_by = 1;
    created_at = 9;
  };
  dedup_hit = false;
}

first_upload : (put tools 3 9 ids (7 ∷ 8 ∷ []) picture bare).0 ≡ ok stored
unfolding put read_payload store_blob mime_or_detected cid_of get_by_sha256 create_blob create_media
    get_media_by_id find trim_space trim_left is_space or_err text_eq path_of
first_upload = refl

put-download_example :
    (content : List ℕ) × (download_media_by_id tools
        (codes "m")
        (put tools 3 9 ids (7 ∷ 8 ∷ []) picture bare).1
      ≡ (ok (stored.media, content), (put tools 3 9 ids (7 ∷ 8 ∷ []) picture bare).1))
    × (tools.sha_hex content ≡ tools.sha_hex (7 ∷ 8 ∷ []))
unfolding read_payload
put-download_example =
    put-download tools 3 9 ids tools-Separates (7 ∷ 8 ∷ []) picture bare bare-IsAddressed refl
      first_upload
