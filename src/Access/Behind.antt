-- ===== src/Access/Behind.antt =====
-- Every route of backend/internal/httpapi/server.go that is for admins, or for users, stands behind its
-- guard.
use vorn_media_server.Prelude.{◌≡◌, refl}
use vorn_media_server.Access.Paths.{auth, admin, AdminPath, admin_guard, UserPath, user_guard}

pub admin_guard-admin : (p : AdminPath) → admin_guard p ≡ admin
unfolding admin_guard
admin_guard-admin AdminPath.create_library = refl
admin_guard-admin AdminPath.reorder_libraries = refl
admin_guard-admin AdminPath.update_library = refl
admin_guard-admin AdminPath.delete_library = refl
admin_guard-admin AdminPath.browse_filesystem = refl
admin_guard-admin AdminPath.start_library_scan = refl
admin_guard-admin AdminPath.list_webdav_folders = refl
admin_guard-admin AdminPath.create_webdav_folder = refl
admin_guard-admin AdminPath.update_webdav_folder = refl
admin_guard-admin AdminPath.delete_webdav_folder = refl
admin_guard-admin AdminPath.list_scan_jobs = refl
admin_guard-admin AdminPath.get_scan_job = refl
admin_guard-admin AdminPath.synthetic_scan = refl
admin_guard-admin AdminPath.server_stats = refl
admin_guard-admin AdminPath.system_stats = refl
admin_guard-admin AdminPath.currently_watching = refl
admin_guard-admin AdminPath.get_quality_profile = refl
admin_guard-admin AdminPath.update_quality_profile = refl
admin_guard-admin AdminPath.list_admin_content_requests = refl
admin_guard-admin AdminPath.get_request_settings = refl
admin_guard-admin AdminPath.update_request_settings = refl
admin_guard-admin AdminPath.decide_content_request = refl
admin_guard-admin AdminPath.admin_delete_content_request = refl
admin_guard-admin AdminPath.start_metadata_sync = refl
admin_guard-admin AdminPath.get_metadata_job = refl
admin_guard-admin AdminPath.update_item_metadata = refl
admin_guard-admin AdminPath.magnet_from_file = refl
admin_guard-admin AdminPath.magnet_from_url = refl
admin_guard-admin AdminPath.torrent_search = refl
admin_guard-admin AdminPath.list_torrent_indexers = refl
admin_guard-admin AdminPath.create_torrent_indexer = refl
admin_guard-admin AdminPath.test_torrent_indexer = refl
admin_guard-admin AdminPath.update_torrent_indexer = refl
admin_guard-admin AdminPath.delete_torrent_indexer = refl
admin_guard-admin AdminPath.list_nzb_downloads = refl
admin_guard-admin AdminPath.add_nzb = refl
admin_guard-admin AdminPath.remove_nzb = refl
admin_guard-admin AdminPath.nzb_events = refl
admin_guard-admin AdminPath.trigger_nzb_sync = refl
admin_guard-admin AdminPath.nzb_search = refl
admin_guard-admin AdminPath.add_nzb_from_url = refl
admin_guard-admin AdminPath.list_nzb_indexers = refl
admin_guard-admin AdminPath.create_nzb_indexer = refl
admin_guard-admin AdminPath.test_nzb_indexer = refl
admin_guard-admin AdminPath.update_nzb_indexer = refl
admin_guard-admin AdminPath.delete_nzb_indexer = refl
admin_guard-admin AdminPath.list_usenet_servers = refl
admin_guard-admin AdminPath.create_usenet_server = refl
admin_guard-admin AdminPath.test_usenet_server = refl
admin_guard-admin AdminPath.update_usenet_server = refl
admin_guard-admin AdminPath.delete_usenet_server = refl
admin_guard-admin AdminPath.list_debrid_accounts = refl
admin_guard-admin AdminPath.create_debrid_account = refl
admin_guard-admin AdminPath.test_debrid_account = refl
admin_guard-admin AdminPath.delete_debrid_account = refl
admin_guard-admin AdminPath.list_debrid_items = refl
admin_guard-admin AdminPath.add_debrid_link = refl
admin_guard-admin AdminPath.remove_debrid_item = refl
admin_guard-admin AdminPath.list_debrid_files = refl
admin_guard-admin AdminPath.admin_logs_stream = refl
admin_guard-admin AdminPath.clear_scan_cache = refl
admin_guard-admin AdminPath.clear_transcode_cache = refl
admin_guard-admin AdminPath.subtitles_quota = refl
admin_guard-admin AdminPath.get_server_settings = refl
admin_guard-admin AdminPath.update_server_settings = refl
admin_guard-admin AdminPath.get_integration_settings = refl
admin_guard-admin AdminPath.update_integration_settings = refl
admin_guard-admin AdminPath.check_for_update = refl
admin_guard-admin AdminPath.apply_update = refl
admin_guard-admin AdminPath.restart_server = refl
admin_guard-admin AdminPath.download_backup = refl
admin_guard-admin AdminPath.get_backup_settings = refl
admin_guard-admin AdminPath.update_backup_settings = refl
admin_guard-admin AdminPath.get_notification_settings = refl
admin_guard-admin AdminPath.update_notification_settings = refl
admin_guard-admin AdminPath.test_notification = refl
admin_guard-admin AdminPath.list_auto_backups = refl
admin_guard-admin AdminPath.download_auto_backup = refl
admin_guard-admin AdminPath.delete_auto_backup = refl
admin_guard-admin AdminPath.list_upgrades = refl

pub user_guard-auth : (p : UserPath) → user_guard p ≡ auth
unfolding user_guard
user_guard-auth UserPath.list_library_items = refl
user_guard-auth UserPath.get_item = refl
user_guard-auth UserPath.set_item_monitored = refl
user_guard-auth UserPath.update_progress = refl
user_guard-auth UserPath.update_progress_by_post = refl
user_guard-auth UserPath.get_progress = refl
user_guard-auth UserPath.continue_watching = refl
user_guard-auth UserPath.search = refl
user_guard-auth UserPath.discover_search = refl
user_guard-auth UserPath.browse_catalog = refl
user_guard-auth UserPath.open_catalog_entry = refl
user_guard-auth UserPath.create_content_request = refl
user_guard-auth UserPath.list_my_content_requests = refl
user_guard-auth UserPath.delete_content_request = refl
user_guard-auth UserPath.transcode_capabilities = refl
user_guard-auth UserPath.play_item = refl
user_guard-auth UserPath.direct_stream = refl
user_guard-auth UserPath.session_file = refl
user_guard-auth UserPath.artwork = refl
user_guard-auth UserPath.stop_session = refl
user_guard-auth UserPath.get_subtitles = refl
