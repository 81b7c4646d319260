-- ===== src/Generate/Walked.antt =====
-- The scan of the API packages finds exactly those that are there.
use provider_k3s.Base.{text_eq}
use provider_k3s.Generate.Tree.{Tree}
use provider_k3s.Generate.Found.{Found}
