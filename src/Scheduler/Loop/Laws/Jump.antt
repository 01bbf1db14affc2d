-- ===== src/Scheduler/Loop/Laws/Jump.antt =====
-- The rebuilding of the graph.
use hydra_forge.Prelude.{List}
use hydra_forge.Prelude.Text.{Text, text_eq}
use hydra_forge.Scheduler.Node.{Node}
