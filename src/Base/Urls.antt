-- ===== src/Base/Urls.antt =====
-- What the program reads of a URL that `url.Parse` has taken apart.
use nakama_playflow.Base.Strings.{Text}
use mathlib.Core.Bool.{Bool}

-- `hostname` is the host without its port.
pub record Url : Type 0 where
  pub scheme : Text
  pub opaque : Text
  pub has_user : Bool
  pub host : Text
  pub hostname : Text
  pub path : Text
  pub raw_path : Text
  pub raw_query : Text
  pub fragment : Text
