-- ===== src/Promote.antt =====
-- Turning a finished resolve into the file of a media item, backend/internal/debrid/promote.go and
-- backend/internal/nzb/promote.go.
pub mod Top
pub mod Debrid
pub mod Nzb
use vorn_media_server.Prelude.{
  ℕ, ◌+◌, Bool, true, false, not, ◌&&◌, ◌||◌, Option, none, some, List, [], ◌∷◌, ◌++◌, Text,
  is_empty, ltb, ◌==◌, if◌then◌else◌, keep, take, length,
}
use mathlib.Core.List.{reverse}
use vorn_media_server.Filename.{is_video_file}
use vorn_media_server.Store.{MediaItem, DebridFile, NzbFile}

-- The inner loop: `x` moves left past what is smaller; the prefix is kept nearest first.
module _ {ℓ} {A : Type ℓ} (size : A → ℕ) where
  pub move_left : A → List A → List A
  move_left x [] = x ∷ []
  move_left x (y ∷ prefix) =
      let rest = move_left x prefix in if ltb (size y) (size x) then y ∷ rest else x ∷ y ∷ prefix

  pub insertion_loop : List A → List A → List A
  unfolding move_left
  insertion_loop prefix [] = prefix
  insertion_loop prefix (x ∷ xs) = insertion_loop (move_left x prefix) xs

  -- `for i := 1; i < len(video); i++`
  unfoldable pub insertion_sort : List A → List A
  unfolding insertion_loop
  insertion_sort xs = reverse (insertion_loop [] xs)

abbrev pub debrid_size : DebridFile → ℕ
debrid_size f = f.size_bytes

abbrev pub nzb_size : NzbFile → ℕ
nzb_size f = f.size_bytes

unfoldable pub top_video_files : List DebridFile → ℕ → List DebridFile
top_video_files files n =
    take n (insertion_sort debrid_size (keep (λ f. is_video_file f.name) files))

unfoldable pub top_video_nzb_files : List NzbFile → ℕ → List NzbFile
top_video_nzb_files files n =
    take n (insertion_sort nzb_size (keep (λ f. is_video_file f.name) files))

-- `best == nil || f.SizeBytes > best.SizeBytes`
abbrev pub larger_video : Option DebridFile → DebridFile → Option DebridFile
larger_video none f = some f
larger_video (some best) f = if ltb best.size_bytes f.size_bytes then some f else some best

abbrev pub largest_from : Option DebridFile → List DebridFile → Option DebridFile
largest_from best [] = best
largest_from best (f ∷ files) =
    largest_from (if is_video_file f.name then larger_video best f else best) files

unfoldable pub largest_video_file : List DebridFile → Option DebridFile
largest_video_file files = largest_from none files

-- The stable WebDAV URL if one was matched.
abbrev pub best_path : NzbFile → Text
best_path f = if not (is_empty f.webdav_url) then f.webdav_url else f.stream_url

-- A loop over a map keyed by episode number: the value of the last entry with the key.
abbrev pub last_numbered : ℕ → List MediaItem → Option MediaItem
last_numbered n [] = none
last_numbered n (m ∷ ms) = elim (last_numbered n ms) [
  | some found ↦ some found
  | none ↦ elim m.episode_number [ none ↦ none | some k ↦ if k == n then some m else none ]
]

-- bestPerEpisode: the first of the largest files of each episode, in order of first sight. Go
-- ranges over the map in an order of its own.
module _ {ℓ} {F : Type ℓ} (size : F → ℕ) where
  abbrev pub keep_larger : ℕ → F → List (ℕ × F) → List (ℕ × F)
  keep_larger n f [] = (n, f) ∷ []
  keep_larger n f ((k, g) ∷ best) =
      let later = (k, g) ∷ keep_larger n f best in
      if k == n then (if ltb (size g) (size f) then (k, f) ∷ best else (k, g) ∷ best) else later
