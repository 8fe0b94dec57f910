-- ===== src/Store.antt =====
-- The tables that acquisition reads and writes, backend/internal/store: rows as records, ids
-- (UUIDs that Postgres draws) as numbers, SQL NULL as `none`, times as numbers.
pub mod Prog
pub mod Keeps
pub mod Starting
pub mod Closed
pub mod Claims
pub mod BothTiers
pub mod Resets
pub mod Again
pub mod Messages
pub mod Media
pub mod Find
pub mod Lookups
pub mod Promoted
pub mod Debrid
pub mod Nzb
use vorn_media_server.Prelude.{ℕ, Bool, true, false, Option, none, some, List, Text}
use vorn_media_server.Quality.{QualityProfile}

pub data Kind : Type 0 where
  movie series season episode artist album track audiobook book chapter : Kind

-- media_items.acquisition_status
pub data Status : Type 0 where
  owned placeholder searching acquiring error : Status

pub record Date : Type 0 where
  pub year : ℕ
  pub month : ℕ
  pub day : ℕ

-- The columns of media_items that acquisition uses.
pub record MediaItem : Type 0 where
  pub id : ℕ
  pub library_id : ℕ
  pub parent_id : Option ℕ
  pub kind : Kind
  pub title : Text
  pub sort_title : Text
  pub overview : Text
  pub season_number : Option ℕ
  pub episode_number : Option ℕ
  pub release_date : Option Date
  pub path : Option Text
  pub tmdb_id : Option ℕ
  pub updated_at : ℕ
  pub poster_url : Text
  pub backdrop_url : Text
  pub acquisition_status : Status
  pub acquisition_error : Text
  pub active_debrid_item_id : Option ℕ
  pub active_nzb_download_id : Option ℕ
  pub monitored : Bool
  pub current_release_title : Text
  pub runtime_minutes : Option ℕ
  pub imdb_id : Option Text
  pub tvdb_id : Option ℕ
  pub metadata_locked : Bool

pub data Provider : Type 0 where
  realdebrid torbox alldebrid premiumize debridlink unknown_provider : Provider

pub record DebridAccount : Type 0 where
  pub id : ℕ
  pub provider : Provider
  pub enabled : Bool
  pub created_at : ℕ

pub data DebridStatus : Type 0 where
  resolving ready failed removed : DebridStatus

pub record DebridItem : Type 0 where
  pub id : ℕ
  pub library_id : Option ℕ
  pub account_id : Option ℕ
  pub source_ref : Text
  pub name : Text
  pub status : DebridStatus
  pub error : Text
  pub promoted : Bool
  pub added_at : ℕ
  pub media_item_id : Option ℕ
  pub provider_ref : Text

pub record DebridFile : Type 0 where
  pub debrid_item_id : ℕ
  pub name : Text
  pub size_bytes : ℕ
  pub stream_url : Text

pub data NzbStatus : Type 0 where
  downloading repairing completed failed removed : NzbStatus

pub record NzbDownload : Type 0 where
  pub id : ℕ
  pub library_id : Option ℕ
  pub media_item_id : Option ℕ
  pub name : Text
  pub status : NzbStatus
  pub error : Text
  pub promoted : Bool

pub record NzbFile : Type 0 where
  pub nzb_download_id : ℕ
  pub name : Text
  pub size_bytes : ℕ
  pub stream_url : Text
  pub webdav_url : Text

pub record WebdavFolder : Type 0 where
  pub library_id : ℕ
  pub enabled : Bool
  pub url : Text

pub record Library : Type 0 where
  pub id : ℕ
  pub kind : Kind
  pub is_4k : Bool
  pub default_request_target : Bool

pub record Fulfillment : Type 0 where
  pub request_id : ℕ
  pub library_id : ℕ
  pub media_item_id : ℕ

pub data Source : Type 0 where
  torrent nzb : Source

pub record Upgrade : Type 0 where
  pub item_id : ℕ
  pub title : Text
  pub old_release : Text
  pub new_release : Text
  pub source : Source

-- What the goroutines of one process share: the tables, the database's clock, and the URLs that the
-- NZB failure cache holds at present.
pub record Shared : Type 0 where
  pub media_items : List MediaItem
  pub debrid_accounts : List DebridAccount
  pub debrid_items : List DebridItem
  pub debrid_files : List DebridFile
  pub nzb_downloads : List NzbDownload
  pub nzb_files : List NzbFile
  pub webdav_folders : List WebdavFolder
  pub libraries : List Library
  pub quality_profiles : List (ℕ × QualityProfile)
  pub fulfillments : List Fulfillment
  pub upgrades : List Upgrade
  pub failed_urls : List Text
  pub next_id : ℕ
  pub now : ℕ

abbrev pub empty_shared : Shared
empty_shared = record {
  media_items = List.[];
  debrid_accounts = List.[];
  debrid_items = List.[];
  debrid_files = List.[];
  nzb_downloads = List.[];
  nzb_files = List.[];
  webdav_folders = List.[];
  libraries = List.[];
  quality_profiles = List.[];
  fulfillments = List.[];
  upgrades = List.[];
  failed_urls = List.[];
  next_id = 1;
  now = 0;
}
