-- ===== src/Channels/Manager.antt =====
-- `get_channel_by_name` of `ChannelManager` (queue_job/jobrunner/channels.py). A name is the list of
-- its parts between the dots, and no name is the empty list; a path is a name without the leading
-- `root`. The tree of channels holds what `_channels_by_name` refers to.
pub mod Names
pub mod Notify
pub mod Entries
pub mod Index
use Prim.Native.String.{String}
use text.Mathlib.Text.{◌==◌ as str_eq}
use others_addons.Base.{
  ℕ, zero, suc, Bool, true, false, not, ◌&&◌, List, [], ◌∷◌, ◌++◌, Option, none, some,
  if◌then◌else◌, length,
}
use others_addons.Channels.Channel.{Channel, create}
use others_addons.Channels.Tree.{Tree, Children, node, leaf, child, root_of}

-- `_channels_by_name`
unfoldable mutual
  pub find_at : List String → Tree → Option Channel
  find_at path (node c children) = elim path [
    | [] ↦ some c
    | name ∷ rest ↦ find_below name rest children
  ]

  pub find_below : String → List String → Children → Option Channel
  find_below name rest leaf = none
  find_below name rest (child t others) =
      let here = find_at rest t in
      let there = find_below name rest others in
      if str_eq (root_of t).name name then here else there

-- New channels below each other, without a limit of their capacity.
unfoldable pub create_path : String → List String → Tree
create_path name [] = node (create name none false 0) leaf
create_path name (next ∷ rest) =
    node (create name none false 0) (child (create_path next rest) leaf)

-- The last loop: it goes down a path, and creates the channels that are missing.
unfoldable mutual
  unfolding create_path

  pub ensure_at : List String → Tree → Tree
  ensure_at path (node c children) = elim path [
    | [] ↦ node c children
    | name ∷ rest ↦ node c (ensure_below name rest children)
  ]

  pub ensure_below : String → List String → Children → Children
  ensure_below name rest leaf = child (create_path name rest) leaf
  ensure_below name rest (child t others) =
      let here = ensure_at rest t in
      let there = ensure_below name rest others in
      if str_eq (root_of t).name name then child here others else child t there

-- The tests and the prefix at the head: the path that a name means.
unfoldable pub path_of : List String → List String
path_of [] = []
path_of (name ∷ rest) = if str_eq name "root" then rest else name ∷ rest

-- `rsplit(".", 1)[:-1][0]`
unfoldable pub parent_path : List String → List String
parent_path [] = []
parent_path (name ∷ rest) =
    let parent = parent_path rest in elim rest [ [] ↦ [] | _ ∷ _ ↦ name ∷ parent ]

-- The loop of `parent_fallback`: the nearest parent that exists, the
-- root channel, which always does, at last. The fuel is the length of the path.
unfoldable pub fallback : ℕ → List String → Tree → List String
unfolding find_at parent_path
fallback zero path t = []
fallback (suc fuel) path t =
    let parent = parent_path path in
    let further = fallback fuel parent t in
    elim (find_at parent t) [ some c ↦ parent | none ↦ further ]

pub data Lookup : Type 0 where
  found : (path : List String) (t : Tree) → Lookup
  not_found : Lookup

-- The names of the subchannels are looked up from the parent on, all of them.
unfoldable pub get_channel_by_name : Bool → Bool → List String → Tree → Lookup
unfolding fallback path_of find_at ensure_at
get_channel_by_name autocreate parent_fallback name t =
    let path = path_of name in
    let parent = if parent_fallback then fallback (length path) path t else [] in
    elim (find_at path t) [
      | some c ↦ found path t
      | none ↦
          if not autocreate && not parent_fallback
          then not_found
          else found (parent ++ path) (ensure_at (parent ++ path) t)
    ]
