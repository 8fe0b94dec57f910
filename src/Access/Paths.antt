-- ===== src/Access/Paths.antt =====
-- The routes of backend/internal/httpapi/server.go whose handlers are not modelled, by the names of
-- their handlers, each with the guard that it is registered with.

-- withAuth and withAdmin.
pub data Guard : Type 0 where
  auth admin : Guard

-- The routes that are for admins.
pub data AdminPath : Type 0 where
  create_library reorder_libraries update_library delete_library browse_filesystem : AdminPath
  start_library_scan list_webdav_folders create_webdav_folder update_webdav_folder : AdminPath
  delete_webdav_folder list_scan_jobs get_scan_job synthetic_scan server_stats : AdminPath
  system_stats currently_watching get_quality_profile update_quality_profile : AdminPath
  list_admin_content_requests get_request_settings update_request_settings : AdminPath
  decide_content_request admin_delete_content_request start_metadata_sync : AdminPath
  get_metadata_job update_item_metadata magnet_from_file magnet_from_url : AdminPath
  torrent_search list_torrent_indexers create_torrent_indexer test_torrent_indexer : AdminPath
  update_torrent_indexer delete_torrent_indexer list_nzb_downloads add_nzb remove_nzb : AdminPath
  nzb_events trigger_nzb_sync nzb_search add_nzb_from_url list_nzb_indexers : AdminPath
  create_nzb_indexer test_nzb_indexer update_nzb_indexer delete_nzb_indexer : AdminPath
  list_usenet_servers create_usenet_server test_usenet_server update_usenet_server : AdminPath
  delete_usenet_server list_debrid_accounts create_debrid_account test_debrid_account : AdminPath
  delete_debrid_account list_debrid_items add_debrid_link remove_debrid_item : AdminPath
  list_debrid_files admin_logs_stream clear_scan_cache clear_transcode_cache : AdminPath
  subtitles_quota get_server_settings update_server_settings get_integration_settings : AdminPath
  update_integration_settings check_for_update apply_update restart_server : AdminPath
  download_backup get_backup_settings update_backup_settings get_notification_settings : AdminPath
  update_notification_settings test_notification list_auto_backups : AdminPath
  download_auto_backup delete_auto_backup list_upgrades : AdminPath

unfoldable pub admin_guard : AdminPath → Guard
admin_guard create_library = admin
admin_guard reorder_libraries = admin
admin_guard update_library = admin
admin_guard delete_library = admin
admin_guard browse_filesystem = admin
admin_guard start_library_scan = admin
admin_guard list_webdav_folders = admin
admin_guard create_webdav_folder = admin
admin_guard update_webdav_folder = admin
admin_guard delete_webdav_folder = admin
admin_guard list_scan_jobs = admin
admin_guard get_scan_job = admin
admin_guard synthetic_scan = admin
admin_guard server_stats = admin
admin_guard system_stats = admin
admin_guard currently_watching = admin
admin_guard get_quality_profile = admin
admin_guard update_quality_profile = admin
admin_guard list_admin_content_requests = admin
admin_guard get_request_settings = admin
admin_guard update_request_settings = admin
admin_guard decide_content_request = admin
admin_guard admin_delete_content_request = admin
admin_guard start_metadata_sync = admin
admin_guard get_metadata_job = admin
admin_guard update_item_metadata = admin
admin_guard magnet_from_file = admin
admin_guard magnet_from_url = admin
admin_guard torrent_search = admin
admin_guard list_torrent_indexers = admin
admin_guard create_torrent_indexer = admin
admin_guard test_torrent_indexer = admin
admin_guard update_torrent_indexer = admin
admin_guard delete_torrent_indexer = admin
admin_guard list_nzb_downloads = admin
admin_guard add_nzb = admin
admin_guard remove_nzb = admin
admin_guard nzb_events = admin
admin_guard trigger_nzb_sync = admin
admin_guard nzb_search = admin
admin_guard add_nzb_from_url = admin
admin_guard list_nzb_indexers = admin
admin_guard create_nzb_indexer = admin
admin_guard test_nzb_indexer = admin
admin_guard update_nzb_indexer = admin
admin_guard delete_nzb_indexer = admin
admin_guard list_usenet_servers = admin
admin_guard create_usenet_server = admin
admin_guard test_usenet_server = admin
admin_guard update_usenet_server = admin
admin_guard delete_usenet_server = admin
admin_guard list_debrid_accounts = admin
admin_guard create_debrid_account = admin
admin_guard test_debrid_account = admin
admin_guard delete_debrid_account = admin
admin_guard list_debrid_items = admin
admin_guard add_debrid_link = admin
admin_guard remove_debrid_item = admin
admin_guard list_debrid_files = admin
admin_guard admin_logs_stream = admin
admin_guard clear_scan_cache = admin
admin_guard clear_transcode_cache = admin
admin_guard subtitles_quota = admin
admin_guard get_server_settings = admin
admin_guard update_server_settings = admin
admin_guard get_integration_settings = admin
admin_guard update_integration_settings = admin
admin_guard check_for_update = admin
admin_guard apply_update = admin
admin_guard restart_server = admin
admin_guard download_backup = admin
admin_guard get_backup_settings = admin
admin_guard update_backup_settings = admin
admin_guard get_notification_settings = admin
admin_guard update_notification_settings = admin
admin_guard test_notification = admin
admin_guard list_auto_backups = admin
admin_guard download_auto_backup = admin
admin_guard delete_auto_backup = admin
admin_guard list_upgrades = admin

-- The routes that are for any user.
pub data UserPath : Type 0 where
  list_library_items get_item set_item_monitored update_progress : UserPath
  update_progress_by_post get_progress continue_watching search discover_search : UserPath
  browse_catalog open_catalog_entry create_content_request list_my_content_requests : UserPath
  delete_content_request transcode_capabilities play_item direct_stream session_file : UserPath
  artwork stop_session get_subtitles : UserPath

unfoldable pub user_guard : UserPath → Guard
user_guard list_library_items = auth
user_guard get_item = auth
user_guard set_item_monitored = auth
user_guard update_progress = auth
user_guard update_progress_by_post = auth
user_guard get_progress = auth
user_guard continue_watching = auth
user_guard search = auth
user_guard discover_search = auth
user_guard browse_catalog = auth
user_guard open_catalog_entry = auth
user_guard create_content_request = auth
user_guard list_my_content_requests = auth
user_guard delete_content_request = auth
user_guard transcode_capabilities = auth
user_guard play_item = auth
user_guard direct_stream = auth
user_guard session_file = auth
user_guard artwork = auth
user_guard stop_session = auth
user_guard get_subtitles = auth
