-- ===== src/Listener/Networks.antt =====
-- The networks that a run is evaluated for.
use celine_grid.Prelude.{text_eq}
