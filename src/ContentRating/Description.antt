-- ===== src/ContentRating/Description.antt =====
-- src/as-content-rating.c: the rows of the descriptions of ratings.
pub mod First
pub mod Second
pub mod Lookup
use Prim.Native.String.{String}
use appstream.Base.{Option, Bytes}

pub record Description : Type 0 where
  pub id : Bytes
  pub desc_none : String
  pub desc_mild : Option String
  pub desc_moderate : Option String
  pub desc_intense : Option String
