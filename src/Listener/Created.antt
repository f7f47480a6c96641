-- ===== src/Listener/Created.antt =====
-- Which runs of the pipeline a new rule takes part in.
use celine_grid.Prelude.{text_eq}
