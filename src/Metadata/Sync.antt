-- ===== src/Metadata/Sync.antt =====
-- One sync, backend/internal/metadata/sync.go: the items that need metadata are listed once, matched
-- one by one, and then those that lack a cast are filled in.
use vorn_media_server.Prelude.{
  ℕ, zero, suc, ◌+◌, Bool, true, false, Option, none, some, List, [], ◌∷◌, ◌++◌, Text, codes,
  is_empty, find, keep, length, ◌==◌, if◌then◌else◌,
}
use vorn_media_server.Store.{Kind, Date}
use vorn_media_server.Acquire.Tree.{parse_date}
use vorn_media_server.Scan.{or_text}
use vorn_media_server.Metadata.{
  CastMember, SimilarTitle, Item, MetadataUpdate, blank_update, apply_metadata, needs_metadata,
  needs_cast, author, Entry,
}

-- An error, no match, or one.
pub data Answer {ℓ} (A : Type ℓ) : Type ℓ where
  failed nothing : Answer A
  found : A → Answer A

pub record Match : Type 0 where
  pub provider_id : ℕ
  pub title : Text
  pub overview : Text
  pub release_date : Text
  pub poster_url : Text
  pub backdrop_url : Text
  pub trailer_url : Text
  pub imdb_id : Text
  pub tvdb_id : ℕ
  pub logo_url : Text
  pub rating_imdb : Text
  pub rating_rotten_tomatoes : Text
  pub cast : List CastMember
  pub directors : List Text
  pub similar : List SimilarTitle
  pub rating : Text

-- MusicMatch and BookMatch, as far as they are used; an album's author is empty.
pub record OtherMatch : Type 0 where
  pub external_id : Text
  pub title : Text
  pub release_date : Text
  pub poster_url : Text
  pub author : Text

-- What TMDb has on an id: cast, directors, similar titles, rating.
pub record Extras : Type 0 where
  pub cast : List CastMember
  pub directors : List Text
  pub similar : List SimilarTitle
  pub rating : Text

-- `extras` is there where the provider is TMDb's.
pub record Provider : Type 0 where
  pub match_movie : Text → ℕ → Answer Match
  pub match_series : Text → Answer Match
  pub extras : Option (Kind → ℕ → Extras)

-- Poster, backdrop and logo, or an error.
pub record Fanart : Type 0 where
  pub movie_art : ℕ → Option (Text × Text × Text)
  pub series_art : ℕ → Option (Text × Text × Text)

-- The clients in force: the provider bundle, and the two that need no credentials, where enabled.
pub record Bundle : Type 0 where
  pub provider : Option Provider
  pub fallback_series_provider : Option (Text → Answer Match)
  pub fanart : Option Fanart
  pub omdb : Option (Text → Option (Text × Text))
  pub music_provider : Option (Text → Text → Answer OtherMatch)
  pub audiobook_provider : Option (Text → Text → Answer OtherMatch)

abbrev pub series_art : Fanart → ℕ → Option (Text × Text × Text)
series_art f zero = some ([], [], [])
series_art f (suc id) = f.series_art (suc id)

abbrev pub movie_art : Fanart → ℕ → Option (Text × Text × Text)
movie_art f zero = some ([], [], [])
movie_art f (suc id) = f.movie_art (suc id)

abbrev pub with_art : Match → Option (Text × Text × Text) → Match
with_art m none = m
with_art m (some (poster, backdrop, logo)) = record m {
  poster_url = or_text poster m.poster_url;
  backdrop_url = or_text backdrop m.backdrop_url;
  logo_url = logo;
}

abbrev pub add_art : Bool → Option Fanart → Match → Match
add_art series none m = m
add_art series (some f) m =
    with_art m (if series then series_art f m.tvdb_id else movie_art f m.provider_id)

abbrev pub with_ratings : Match → Option (Text × Text) → Match
with_ratings m none = m
with_ratings m (some (imdb, rotten)) = record m {
  rating_imdb = imdb;
  rating_rotten_tomatoes = rotten;
}

abbrev pub add_ratings : Option (Text → Option (Text × Text)) → Match → Match
add_ratings none m = m
add_ratings (some ratings) m = if is_empty m.imdb_id then m else with_ratings m (ratings m.imdb_id)

unfoldable pub enrich : Bool → Bundle → Match → Match
enrich series b m = add_ratings b.omdb (add_art series b.fanart m)

abbrev pub tmdb_id_of : ℕ → Option ℕ
tmdb_id_of zero = none
tmdb_id_of (suc id) = some (suc id)

-- What applyTMDbMatch writes, and applyMusicMatch and applyBookMatch.
unfoldable pub tmdb_update : Match → MetadataUpdate
tmdb_update m = record blank_update {
  title = m.title;
  overview = m.overview;
  poster_url = m.poster_url;
  backdrop_url = m.backdrop_url;
  trailer_url = m.trailer_url;
  logo_url = m.logo_url;
  rating_imdb = m.rating_imdb;
  rating_rotten_tomatoes = m.rating_rotten_tomatoes;
  cast = m.cast;
  directors = m.directors;
  similar = m.similar;
  rating = m.rating;
  tmdb_id = tmdb_id_of m.provider_id;
  release_date = parse_date m.release_date;
}

abbrev pub or_date : Option Date → Option Date → Option Date
or_date none d = d
or_date (some e) d = some e

unfoldable pub parse_partial_date : Text → Option Date
unfolding parse_date
parse_partial_date t =
    or_date (parse_date t)
      (or_date (parse_date (t ++ codes "-01")) (parse_date (t ++ codes "-01-01")))

unfoldable pub other_update : OtherMatch → MetadataUpdate
unfolding parse_partial_date
other_update m = record blank_update {
  external_id = some m.external_id;
  title = m.title;
  poster_url = m.poster_url;
  author = m.author;
  release_date = parse_partial_date m.release_date;
}

abbrev pub updates {ℓ} : {A : Type ℓ} → (A → MetadataUpdate) → Answer A → Answer MetadataUpdate
updates f failed = failed
updates f nothing = nothing
updates f (found a) = found (f a)

abbrev pub year_of : Option Date → ℕ
year_of none = 0
year_of (some d) = d.year

abbrev pub by_movie : Option Provider → Item → Answer Match
by_movie none m = nothing
by_movie (some p) m = p.match_movie m.title (year_of m.release_date)

abbrev pub by_series : Option Provider → Item → Answer Match
by_series none m = nothing
by_series (some p) m = p.match_series m.title

abbrev pub fallback : Option (Text → Answer Match) → Item → Answer Match → Answer Match
fallback f m failed = failed
fallback f m (found match) = found match
fallback none m nothing = nothing
fallback (some f) m nothing = f m.title

abbrev pub author_of : List Entry → Text
author_of [] = []
author_of (author t ∷ es) = t
author_of (e ∷ es) = author_of es

-- GetMediaItem of the parent, where it may fail.
abbrev pub by_artist :
    Option (Text → Text → Answer OtherMatch) → Item → Option Item → Answer OtherMatch
by_artist none m parent = nothing
by_artist (some match_album) m none = failed
by_artist (some match_album) m (some artist) = match_album artist.title m.title

abbrev pub by_album :
    Option (Text → Text → Answer OtherMatch) → Item → Option ℕ → List Item → Answer OtherMatch
by_album p m none items = nothing
by_album p m (some id) items = by_artist p m (find (λ a. a.id == id) items)

abbrev pub by_book : Option (Text → Text → Answer OtherMatch) → Item → Answer OtherMatch
by_book none m = nothing
by_book (some match_book) m = match_book m.title (author_of m.metadata)

abbrev pub process_kind : Kind → Bundle → Item → List Item → Answer MetadataUpdate
process_kind Kind.movie b m items =
    updates (λ x. tmdb_update (enrich false b x)) (by_movie b.provider m)
process_kind Kind.series b m items =
    updates (λ x. tmdb_update (enrich true b x))
      (fallback b.fallback_series_provider m (by_series b.provider m))
process_kind Kind.album b m items =
    updates other_update (by_album b.music_provider m m.parent_id items)
process_kind Kind.book b m items = updates other_update (by_book b.audiobook_provider m)
process_kind Kind.audiobook b m items = updates other_update (by_book b.audiobook_provider m)
process_kind _ b m items = nothing

-- processItem, up to the statement that writes what it has found.
unfoldable pub process_item : Bundle → Item → List Item → Answer MetadataUpdate
unfolding enrich tmdb_update other_update
process_item b m items = process_kind m.kind b m items

abbrev pub extras_of : Option (Kind → ℕ → Extras) → Item → Option ℕ → Answer MetadataUpdate
extras_of none m id = nothing
extras_of (some f) m none = nothing
extras_of (some f) m (some id) =
    let x = f m.kind id in
    found (record blank_update {
      cast = x.cast;
      directors = x.directors;
      similar = x.similar;
      rating = x.rating;
    })

abbrev pub by_extras : Option Provider → Item → Answer MetadataUpdate
by_extras none m = nothing
by_extras (some p) m = extras_of p.extras m m.tmdb_id

-- backfillCastAndSimilar, up to its statement.
unfoldable pub backfill : Bundle → Item → List Item → Answer MetadataUpdate
backfill b m items = by_extras b.provider m

-- What happens around one item: how the others have changed the rows when a parent is looked up (no
-- rows, where the look-up fails) and when the match is written, the clients in force, and what the
-- database refuses.
pub record Turn : Type 0 where
  pub seen : List Item → List Item
  pub others : List Item → List Item
  pub bundle : Bundle
  pub fails_apply : Bool
  pub fails_count : Bool

pub data JobStatus : Type 0 where
  running completed failed : JobStatus

-- The rows, and what was written to the job's row: the pairs of items found and matched, latest
-- first, and its status.
pub record Sync : Type 0 where
  pub items : List Item
  pub counts : List (ℕ × ℕ)
  pub status : JobStatus

abbrev pub set_counts : Bool → ℕ → ℕ → Sync → Sync
set_counts fails total matched s =
    if fails then s else record s { counts = (total, matched) ∷ s.counts }

-- The clause of the second pass that counts an item although there was nothing to write is `true`.
abbrev pub apply_answer : Bool → Turn → ℕ → Item → ℕ → Answer MetadataUpdate → Sync → ℕ × Sync
apply_answer counted t total m matched Answer.failed s = (matched, s)
apply_answer counted t total m matched nothing s =
    if counted then (suc matched, set_counts t.fails_count total (suc matched) s) else (matched, s)
apply_answer counted t total m matched (found u) s = if t.fails_apply then (matched, s) else (
  suc matched,
  set_counts t.fails_count total (suc matched)
      (record s { items = apply_metadata m.id u false s.items }),
)

unfoldable pub one_item :
    Bool
    → (Bundle → Item → List Item → Answer MetadataUpdate)
    → Turn
    → ℕ
    → Item
    → ℕ
    → Sync
    → ℕ × Sync
unfolding apply_metadata
one_item counted process t total m matched s =
    let s' = record s { items = t.others s.items } in
    apply_answer counted t total m matched (process t.bundle m (t.seen s.items)) s'

-- One of the two loops of run: a turn for each item.
unfoldable pub each :
    Bool
    → (Bundle → Item → List Item → Answer MetadataUpdate)
    → (ℕ → Turn)
    → ℕ
    → List Item
    → ℕ
    → Sync
    → ℕ × Sync
unfolding one_item
each counted process turns total [] matched s = (matched, s)
each counted process turns total (m ∷ ms) matched s =
    let (matched', s') = one_item counted process (turns m.id) total m matched s in
    each counted process turns total ms matched' s'

-- The library of a run, and what happens around it: before each list is read, around each item of the two loops, and which
-- of its own statements the database refuses.
pub record Course : Type 0 where
  pub library_id : ℕ
  pub before_list : List Item → List Item
  pub before_cast : List Item → List Item
  pub fails_list : Bool
  pub fails_count : Bool
  pub fails_cast_list : Bool
  pub fails_cast_count : Bool
  pub fails_finish : Bool
  pub first : ℕ → Turn
  pub second : ℕ → Turn

abbrev pub finish : Bool → JobStatus → Sync → Sync
finish fails status s = if fails then s else record s { status = status }

abbrev pub found_more : Course → List Item → ℕ → ℕ → Sync → Sync
found_more c [] total matched s = s
found_more c (m ∷ ms) total matched s = set_counts c.fails_cast_count total matched s

-- The items that lack a cast; a list that cannot be read is empty.
unfoldable pub cast_items : Course → Sync → List Item
unfolding needs_cast
cast_items c s = if c.fails_cast_list then [] else keep (needs_cast c.library_id) s.items

-- The second pass of run, from the items found and matched in the first.
unfoldable pub second_pass : Course → ℕ → ℕ × Sync → Sync
unfolding cast_items each backfill
second_pass c listed (matched, s0) =
    let s = record s0 { items = c.before_cast s0.items } in
    let items = cast_items c s in
    let total = listed + length items in
    (each true backfill c.second total items matched (found_more c items total matched s)).1

unfoldable pub run : Course → Sync → Sync
unfolding needs_metadata each process_item second_pass
run c s0 =
    let s = record s0 { items = c.before_list s0.items } in
    let items = keep (needs_metadata c.library_id) s.items in
    let total = length items in
    if c.fails_list
    then finish c.fails_finish JobStatus.failed s
    else finish c.fails_finish JobStatus.completed (
        second_pass c total
          (each false process_item c.first total items 0 (set_counts c.fails_count total 0 s)))
