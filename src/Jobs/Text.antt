-- ===== src/Jobs/Text.antt =====
-- The texts that the queue of packages/core/src/reference-job-queue.ts writes.
use Prim.Native.String.{slice, ◌++◌}
use access_kit.Prelude.{String}

abbrev pub lost_message : String → String
lost_message expired_at = "Worker lease expired at " ++ expired_at ++ "; job returned to queue."

abbrev pub queue_id : String → String
queue_id digest = "queue:" ++ slice digest 0 24

abbrev pub backup_location : String → String → String
backup_location location id = location ++ "#backup:" ++ id
