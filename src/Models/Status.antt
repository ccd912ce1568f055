-- ===== src/Models/Status.antt =====
-- The status constants of stores/main.go.
use bridge_core.Prelude.{String}

abbrev pub pending : String
pending = "pending"

abbrev pub failed : String
failed = "failed"

abbrev pub processing : String
processing = "processing"

abbrev pub done : String
done = "done"

abbrev pub processed : String
processed = "processed"
