-- ===== src/Router/Message.antt =====
-- `Message` of router/types.go, and what the program reads of a `docker.Container`.
use logspout.Prelude.{Bool, List, Option, Text, Result}
use logspout.Prelude.Int.{ℤ}
use logspout.Map.{Map}

-- A `docker.Container`, of which only these fields are read.
pub record Container : Type 0 where
  pub id : Text
  pub name : Text
  pub image : Text
  pub created : Text
  pub node : Option Text
  pub running : Bool
  pub log_driver : Text
  pub tty : Bool
  pub env : List Text
  pub labels : Map Text Text
  pub config_image : Text
  pub cmd : List Text

-- Times are nanoseconds.
pub record Message : Type 0 where
  pub container : Container
  pub source : Text
  pub text : Text
  pub time : ℤ

-- An executed `text/template`.
abbrev pub Template : Type 0
Template = Message → Result Text
