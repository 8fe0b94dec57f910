-- ===== src/Scan.antt =====
-- A scan of a library, backend/internal/scanner/service.go with queue.go, audiotags.go and
-- backend/internal/store/scan.go: files are found, staged in the job's list in DragonflyDB, and
-- flushed from it in batches into the table scan_files.
--
-- DragonflyDB's list is a list (RPUSH adds at its end, LPOP with a count takes from its front); what
-- is pushed is read back as it was. A path's directory is taken as clean.
pub mod Stage
pub mod Upserts
pub mod Flushed
pub mod Whole
pub mod Lost
use vorn_media_server.Prelude.{
  ℕ, zero, suc, ◌+◌, ◌-◌, Bool, true, false, not, ◌&&◌, ◌||◌, Option, none, some, List, [], ◌∷◌,
  ◌++◌, map, Text, codes, text_eq, to_lower, is_empty, ltb, any, keep, length, take, drop, find,
  ◌==◌, if◌then◌else◌,
}
use vorn_media_server.Filename.{
  split_last, base_name, stem, clean_title, ParsedFile, ParsedKind, parse_filename,
  is_probable_hash,
}
use vorn_media_server.Store.{Kind, NzbFile, NzbDownload, Shared}
use vorn_media_server.Store.Find.{like}
use vorn_media_server.Store.Media.{eq_id}

pub record QueuedFile : Type 0 where
  pub path : Text
  pub size_bytes : ℕ
  pub modified_at : ℕ

-- A row of scan_files.
pub record ScanFile : Type 0 where
  pub library_id : ℕ
  pub scan_job_id : ℕ
  pub path : Text
  pub size_bytes : ℕ
  pub modified_at : ℕ
  pub guessed_kind : Kind
  pub guessed_title : Text
  pub guessed_year : Option ℕ
  pub season_number : Option ℕ
  pub episode_number : Option ℕ
  pub guessed_artist : Text
  pub guessed_album : Text
  pub media_item_id : Option ℕ

-- What the tag library reads from an audio file.
pub record Tags : Type 0 where
  pub title : Text
  pub artist : Text
  pub album_artist : Text
  pub album : Text
  pub track : ℕ

pub record ParsedAudio : Type 0 where
  pub kind : Kind
  pub title : Text
  pub artist : Text
  pub album : Text
  pub track_number : ℕ

abbrev pub or_text : Text → Text → Text
or_text [] t = t
or_text (c ∷ s) t = c ∷ s

-- filepath.Base(filepath.Dir(path))
abbrev pub dir_base : Text → Text
dir_base path = elim (split_last b'/' path) [
  | none ↦ codes "."
  | some (before, behind) ↦ if is_empty before then codes "/" else base_name before
]

abbrev pub untagged : Kind → Text → ParsedAudio
untagged kind path = record {
  kind = kind;
  title = clean_title (stem (base_name path));
  artist = codes "Unknown Artist";
  album = dir_base path;
  track_number = 0;
}

abbrev pub with_tags : ParsedAudio → Option Tags → ParsedAudio
with_tags out none = out
with_tags out (some m) = record out {
  title = or_text m.title out.title;
  artist = or_text m.artist (or_text m.album_artist out.artist);
  album = or_text m.album out.album;
  track_number = m.track;
}

-- The library types that scanning tells apart.
pub data LibraryType : Type 0 where
  video music audiobook : LibraryType

abbrev pub audio_kind : LibraryType → Kind
audio_kind audiobook = Kind.chapter
audio_kind music = Kind.track
audio_kind video = Kind.track

-- What a scan asks of what is outside: the tags in a file, and the NZB file of its size.
pub record Sources : Type 0 where
  pub library_id : ℕ
  pub library_type : LibraryType
  pub job_id : ℕ
  pub tags : Text → Option Tags
  pub shared : Shared

abbrev pub parse_audio_file : Sources → Text → ParsedAudio
parse_audio_file src path = with_tags (untagged (audio_kind src.library_type) path) (src.tags path)

-- filepath.Ext
abbrev pub extension : Text → Text
extension path =
    elim (split_last b'.'
      (elim (split_last b'/' path) [ none ↦ path | some (before, behind) ↦ behind ])) [
        | none ↦ []
        | some (before, behind) ↦ b'.' ∷ behind
      ]

abbrev pub in_library : ℕ → List NzbDownload → NzbFile → Bool
in_library library ds f = any (λ d. d.id == f.nzb_download_id && eq_id d.library_id library) ds

-- FindNZBFileBySize. The rows stand in the order of the query, latest id first.
unfoldable pub find_nzb_file_by_size : ℕ → ℕ → Text → Shared → Option NzbFile
find_nzb_file_by_size library size ext s =
    find
      (λ f.
        f.size_bytes == size
        && (in_library library s.nzb_downloads f
            && (is_empty ext || like (b'%' ∷ map to_lower ext) (map to_lower f.name))))
      s.nzb_files

abbrev pub starts_http : Text → Bool
starts_http path = text_eq (take 4 path) (codes "http")

abbrev pub real_name : Text → Option NzbFile → Text
real_name path none = path
real_name path (some nf) = if is_empty nf.name then path else nf.name

unfoldable pub resolve_webdav_name : Sources → Text → ℕ → Text
unfolding find_nzb_file_by_size
resolve_webdav_name src path size =
    if starts_http path
    then real_name path (find_nzb_file_by_size src.library_id size (extension path) src.shared)
    else path

abbrev pub is_audio : LibraryType → Bool
is_audio video = false
is_audio music = true
is_audio audiobook = true

abbrev pub positive : ℕ → Option ℕ
positive zero = none
positive (suc n) = some (suc n)

abbrev pub blank_file : Sources → QueuedFile → ScanFile
blank_file src f = record {
  library_id = src.library_id;
  scan_job_id = src.job_id;
  path = f.path;
  size_bytes = f.size_bytes;
  modified_at = f.modified_at;
  guessed_kind = Kind.movie;
  guessed_title = [];
  guessed_year = none;
  season_number = none;
  episode_number = none;
  guessed_artist = [];
  guessed_album = [];
  media_item_id = none;
}

abbrev pub audio_row : Sources → QueuedFile → ParsedAudio → ScanFile
audio_row src f parsed = record (blank_file src f) {
  guessed_kind = parsed.kind;
  guessed_title = parsed.title;
  guessed_artist = parsed.artist;
  guessed_album = parsed.album;
  episode_number = positive parsed.track_number;
}

abbrev pub video_row_of : ParsedKind → Sources → QueuedFile → ParsedFile → ScanFile
video_row_of ParsedKind.movie src f parsed = record (blank_file src f) {
  guessed_kind = Kind.movie;
  guessed_title = parsed.title;
  guessed_year = positive parsed.year;
}
video_row_of ParsedKind.episode src f parsed = record (blank_file src f) {
  guessed_kind = Kind.episode;
  guessed_title = parsed.title;
  season_number = some parsed.season_number;
  episode_number = some parsed.episode_number;
}

-- The body of flushBatch's loop: the row for a file, or none for a name that looks like a hash.
unfoldable pub to_insert : Sources → QueuedFile → Option ScanFile
unfolding resolve_webdav_name
to_insert src f =
    let name = resolve_webdav_name src f.path f.size_bytes in
    let parsed = parse_filename name in
    let video_insert = video_row_of parsed.kind src f parsed in
    let audio_insert = audio_row src f (parse_audio_file src name) in
    if is_probable_hash name
    then none
    else some (if is_audio src.library_type then audio_insert else video_insert)

abbrev pub keep_some : Option ScanFile → List ScanFile → List ScanFile
keep_some none rest = rest
keep_some (some row) rest = row ∷ rest

unfoldable pub inserts : Sources → List QueuedFile → List ScanFile
unfolding to_insert
inserts src [] = []
inserts src (f ∷ fs) = keep_some (to_insert src f) (inserts src fs)
