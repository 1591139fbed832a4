-- ===== src/Manager/Listing/Last.antt =====
-- The last identifier of a page (`List`, pkg/fleetmanager/manager.go).
use nakama_playflow.Base.{List, [], ◌∷◌, Text}

unfoldable pub last : List Text → Text
last [] = []
last (i ∷ []) = i
last (i ∷ j ∷ ids) = last (j ∷ ids)
