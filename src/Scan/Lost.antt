-- ===== src/Scan/Lost.antt =====
-- A batch that holds one file twice.
use vorn_media_server.Prelude.{false, List, [], ◌∷◌}
use vorn_media_server.Scan.{QueuedFile}
use vorn_media_server.Scan.Stage.{Scan, Happening, discovered}

abbrev pub found_all : List QueuedFile → List Happening
found_all [] = []
found_all (f ∷ fs) = discovered f false ∷ found_all fs
