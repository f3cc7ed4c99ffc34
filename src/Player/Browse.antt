-- ===== src/Player/Browse.antt =====
-- Media browsing, custom_components/cast/media_player.py: `async_browse_media` and
-- `_async_root_payload`.
use ha_int_gcast.Base.{
  String, Bool, true, false, Option, none, some, List, [], ◌∷◌, ◌++◌, if◌then◌else◌,
}
use ha_int_gcast.Base.Result.{Result, returned, raised}
use ha_int_gcast.Player.Attributes.{is_audio_type}
use text.Mathlib.Text.{starts_with, is_le}
use Prim.Native.String.{compare}

-- `BrowseMedia`; `is_directory` stands for the media class, and `can_play` goes with it.
mutual
  pub data BrowseMedia : Type 0 where
    browse_media :
        (title content_type content_id : String) (is_directory can_play can_expand : Bool)
        → Children
        → BrowseMedia

  pub data Children : Type 0 where
    no_children : Children
    child : BrowseMedia → Children → Children

abbrev pub listed : Children → List BrowseMedia
listed no_children = []
listed (child item items) = item ∷ listed items

abbrev pub children_from : List BrowseMedia → Children
children_from [] = no_children
children_from (item ∷ items) = child item (children_from items)

abbrev pub title_of : BrowseMedia → String
title_of (browse_media title content_type content_id directory play expand cs) = title

-- How browsing fails: no chromecast, BrowseError, or another exception by its name.
pub data BrowseFailure : Type 0 where
  no_chromecast browse_error : BrowseFailure
  other_failure : String → BrowseFailure

-- The cast platforms, and Home Assistant's media sources for a content filter; each platform gives its
-- root objects and, for a content, an answer or None.
pub record Platform : Type 0 where
  pub root_objects : String → List BrowseMedia
  pub browse : String → String → String → Result BrowseFailure (Option BrowseMedia)

pub record Sources : Type 0 where
  pub browse_source : Option String → Option (String → Bool) → Result BrowseFailure BrowseMedia

-- `audio_content_filter`, on the content type of an item
abbrev audio_only : String → Bool
audio_only content_type = starts_with content_type "audio/"

unfoldable pub content_filter : String → Option (String → Bool)
content_filter cast_type = if is_audio_type cast_type then some audio_only else none

unfoldable pub root_objects_of : List Platform → String → List BrowseMedia
root_objects_of [] cast_type = []
root_objects_of (p ∷ ps) cast_type = p.root_objects cast_type ++ root_objects_of ps cast_type

-- `sorted(children, key=lambda c: c.title)`, which keeps the order of equal titles
unfoldable pub insert_by_title : BrowseMedia → List BrowseMedia → List BrowseMedia
insert_by_title item [] = item ∷ []
insert_by_title item (other ∷ others) =
    let later = insert_by_title item others in
    if is_le (compare (title_of item) (title_of other))
    then item ∷ other ∷ others
    else other ∷ later

unfoldable pub sorted_by_title : List BrowseMedia → List BrowseMedia
sorted_by_title [] = []
sorted_by_title (item ∷ items) = insert_by_title item (sorted_by_title items)

abbrev children_of : BrowseMedia → List BrowseMedia
children_of (browse_media title content_type content_id directory play expand cs) = listed cs

-- The children from the platforms with those from the media sources; a BrowseError matters only if
-- there are no others.
abbrev pub with_sources :
    List BrowseMedia → Result BrowseFailure BrowseMedia → Result BrowseFailure (List BrowseMedia)
with_sources children (returned root) = returned (children ++ children_of root)
with_sources [] (raised e) = raised e
with_sources (c ∷ cs) (raised browse_error) = returned (c ∷ cs)
with_sources (c ∷ cs) (raised e) = raised e

abbrev or_next :
    Result BrowseFailure (Option BrowseMedia)
    → Result BrowseFailure (Option BrowseMedia)
    → Result BrowseFailure (Option BrowseMedia)
or_next (returned none) next = next
or_next r next = r

-- The platforms in order, until one answers
unfoldable pub browse_platforms :
    List Platform → String → String → String → Result BrowseFailure (Option BrowseMedia)
browse_platforms [] content_type content_id cast_type = returned none
browse_platforms (p ∷ ps) content_type content_id cast_type =
    or_next (p.browse content_type content_id cast_type)
      (browse_platforms ps content_type content_id cast_type)

module _ (platforms : List Platform) (sources : Sources) where
  abbrev or_source :
      String → String → Result BrowseFailure (Option BrowseMedia) → Result BrowseFailure BrowseMedia
  or_source content_id cast_type (returned (some item)) = returned item
  or_source content_id cast_type (returned none) =
      sources.browse_source (some content_id) (content_filter cast_type)
  or_source content_id cast_type (raised e) = raised e

  -- `async_browse_media` with a content id
  unfoldable pub browse_content : String → String → String → Result BrowseFailure BrowseMedia
  browse_content cast_type content_type content_id =
      or_source content_id cast_type (browse_platforms platforms content_type content_id cast_type)

  abbrev directory : List BrowseMedia → BrowseMedia
  directory children =
      browse_media "Cast" "" "" true false true (children_from (sorted_by_title children))

  -- The root: its only source if there is one that expands, or a directory of all of them
  abbrev pub payload_of : String → List BrowseMedia → Result BrowseFailure BrowseMedia
  payload_of cast_type (browse_media title content_type content_id is_directory play true cs ∷ []) =
      browse_content cast_type content_type content_id
  payload_of cast_type children = returned (directory children)

  abbrev payload_with :
      String → Result BrowseFailure (List BrowseMedia) → Result BrowseFailure BrowseMedia
  payload_with cast_type (raised e) = raised e
  payload_with cast_type (returned children) = payload_of cast_type children

  -- `_async_root_payload`
  unfoldable pub root_payload : String → Result BrowseFailure BrowseMedia
  root_payload cast_type = payload_with cast_type (
      with_sources (root_objects_of platforms cast_type)
        (sources.browse_source none (content_filter cast_type)))

  -- `async_browse_media`, by the cast type of the chromecast
  unfoldable pub async_browse_media :
      Option String → String → Option String → Result BrowseFailure BrowseMedia
  async_browse_media none content_type content_id = raised no_chromecast
  async_browse_media (some cast_type) content_type none = root_payload cast_type
  async_browse_media (some cast_type) content_type (some content_id) =
      browse_content cast_type content_type content_id
