-- ===== src/Metadata.antt =====
-- The metadata sync of a library: backend/internal/metadata/sync.go, with its statements of
-- backend/internal/store/metadata_jobs.go.
--
-- What the services answer is part of a turn, since their clients may be swapped while a sync runs;
-- a date is parsed as in acquisition, and a rating is the text that is stored.
pub mod Sync
pub mod Counts
pub mod Locked
use vorn_media_server.Prelude.{
  ℕ, ◌+◌, Bool, true, false, not, ◌&&◌, ◌||◌, Option, none, some, List, [], ◌∷◌, ◌++◌, map, Text,
  codes, is_empty, any, keep, ◌==◌, if◌then◌else◌,
}
use vorn_media_server.Store.{Kind, Date}
use vorn_media_server.Store.Media.{coalesce}
use vorn_media_server.Acquire.Tree.{parse_date}
use vorn_media_server.Scan.{or_text}

pub record CastMember : Type 0 where
  pub name : Text
  pub character : Text
  pub photo_url : Text

pub record SimilarTitle : Type 0 where
  pub tmdb_id : ℕ
  pub title : Text
  pub overview : Text
  pub release_date : Text
  pub poster_url : Text
  pub rating : Text

-- A key of the JSON column with its value.
pub data Entry : Type 0 where
  poster_url backdrop_url trailer_url external_id rating_tmdb author : Text → Entry
  logo_url rating_imdb rating_rotten_tomatoes : Text → Entry
  cast : List CastMember → Entry
  directors : List Text → Entry
  similar : List SimilarTitle → Entry

abbrev pub key : Entry → ℕ
key (poster_url t) = 0
key (backdrop_url t) = 1
key (trailer_url t) = 2
key (external_id t) = 3
key (rating_tmdb t) = 4
key (author t) = 5
key (logo_url t) = 6
key (rating_imdb t) = 7
key (rating_rotten_tomatoes t) = 8
key (cast cs) = 9
key (directors ds) = 10
key (similar ss) = 11

abbrev pub has_key : ℕ → List Entry → Bool
has_key k = any (λ e. key e == k)

-- The columns of media_items that a sync uses.
pub record Item : Type 0 where
  pub id : ℕ
  pub library_id : ℕ
  pub parent_id : Option ℕ
  pub kind : Kind
  pub title : Text
  pub overview : Text
  pub release_date : Option Date
  pub tmdb_id : Option ℕ
  pub metadata : List Entry
  pub metadata_locked : Bool

pub record MetadataUpdate : Type 0 where
  pub tmdb_id : Option ℕ
  pub external_id : Option Text
  pub title : Text
  pub overview : Text
  pub release_date : Option Date
  pub poster_url : Text
  pub backdrop_url : Text
  pub trailer_url : Text
  pub author : Text
  pub logo_url : Text
  pub rating_imdb : Text
  pub rating_rotten_tomatoes : Text
  pub cast : List CastMember
  pub directors : List Text
  pub similar : List SimilarTitle
  pub rating : Text

abbrev pub blank_update : MetadataUpdate
blank_update = record {
  tmdb_id = none;
  external_id = none;
  title = [];
  overview = [];
  release_date = none;
  poster_url = [];
  backdrop_url = [];
  trailer_url = [];
  author = [];
  logo_url = [];
  rating_imdb = [];
  rating_rotten_tomatoes = [];
  cast = [];
  directors = [];
  similar = [];
  rating = [];
}

-- An entry, unless its value is empty.
abbrev pub entry {ℓ} : {A : Type ℓ} → (List A → Entry) → List A → List Entry
entry c [] = []
entry c (x ∷ xs) = c (x ∷ xs) ∷ []

abbrev pub external : Option Text → List Entry
external none = []
external (some t) = external_id t ∷ []

abbrev pub metadata_json : MetadataUpdate → List Entry
metadata_json u =
    entry poster_url u.poster_url
    ++ (entry backdrop_url u.backdrop_url
        ++ (entry trailer_url u.trailer_url
            ++ (external u.external_id
                ++ (entry cast u.cast
                    ++ (entry directors u.directors
                        ++ (entry similar u.similar
                            ++ (entry rating_tmdb u.rating
                                ++ (entry author u.author
                                    ++ (entry logo_url u.logo_url
                                        ++ (entry rating_imdb u.rating_imdb
                                            ++ entry rating_rotten_tomatoes
                                                u.rating_rotten_tomatoes))))))))))

-- The operator || of jsonb.
abbrev pub merge : List Entry → List Entry → List Entry
merge old new = keep (λ e. not (has_key (key e) new)) old ++ new

abbrev pub with_update : MetadataUpdate → Bool → Item → Item
with_update u lock m = record m {
  title = or_text u.title m.title;
  overview = or_text u.overview m.overview;
  release_date = coalesce u.release_date m.release_date;
  tmdb_id = coalesce u.tmdb_id m.tmdb_id;
  metadata = merge m.metadata (metadata_json u);
  metadata_locked = m.metadata_locked || lock;
}

-- ApplyMetadata: the rows after it.
unfoldable pub apply_metadata : ℕ → MetadataUpdate → Bool → List Item → List Item
apply_metadata id u lock = map (λ m. if m.id == id then with_update u lock m else m)

abbrev pub is_top : Option ℕ → Bool
is_top none = true
is_top (some id) = false

abbrev pub is_video : Kind → Bool
is_video Kind.movie = true
is_video Kind.series = true
is_video _ = false

abbrev pub is_book : Kind → Bool
is_book Kind.book = true
is_book Kind.audiobook = true
is_book _ = false

abbrev pub is_album : Kind → Bool
is_album Kind.album = true
is_album _ = false

abbrev pub is_null : Option ℕ → Bool
is_null none = true
is_null (some n) = false

unfoldable pub needs_metadata : ℕ → Item → Bool
needs_metadata library m =
    (m.library_id == library && not m.metadata_locked)
    && ((is_top m.parent_id && (is_video m.kind && is_null m.tmdb_id))
        || ((is_top m.parent_id && (is_book m.kind && not (has_key 3 m.metadata)))
            || (is_album m.kind && not (has_key 3 m.metadata))))

unfoldable pub needs_cast : ℕ → Item → Bool
needs_cast library m =
    (m.library_id == library && not m.metadata_locked)
    && (is_top m.parent_id
        && (is_video m.kind && (not (is_null m.tmdb_id) && not (has_key 9 m.metadata))))
