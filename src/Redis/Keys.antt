-- ===== src/Redis/Keys.antt =====
-- The names of keys in redis.
use singal.Common.{String}
use singal.Redis.{◌<>◌}

unfoldable pub get_media_center_set_key : String
get_media_center_set_key = "mediacenter:set"

unfoldable pub get_media_center_status_key : String → String
get_media_center_status_key mc_id = "mediacenterstatus:" <> mc_id

unfoldable pub get_media_center_task_set_key : String
get_media_center_task_set_key = "mediacenter:taskSet"

unfoldable pub get_media_center_task_key : String → String
get_media_center_task_key taskname = "mediacenter:task:" <> taskname

unfoldable pub get_await_task_set_key : String
get_await_task_set_key = "mediacenter:awaitTaskSet"

unfoldable pub get_media_center_tasks_key : String → String
get_media_center_tasks_key mc_id = "mediacenter:tasks:" <> mc_id

unfoldable pub get_zlm_tasks_key : String → String
get_zlm_tasks_key zlm_id = "mediacenter:zlmtasks:" <> zlm_id

unfoldable pub get_media_center_zlm_status_key : String → String
get_media_center_zlm_status_key zlm_id = "mediacenter:zlmstatus:" <> zlm_id

unfoldable pub get_media_center_zlm_push_stream_nums_key : String → String
get_media_center_zlm_push_stream_nums_key zlm_id = "mediacenter:zlmPushStreamNums:" <> zlm_id

unfoldable pub get_media_center_zlm_bandwidth_usage_key : String → String
get_media_center_zlm_bandwidth_usage_key zlm_id = "mediacenter:zlmBandwidthUsage:" <> zlm_id

unfoldable pub get_media_center_allocate_node_key : String → String
get_media_center_allocate_node_key device_id = "mediacenter:zlmAllocateNode:" <> device_id
