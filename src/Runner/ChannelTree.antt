-- ===== src/Runner/ChannelTree.antt =====
-- The channels by name, as `ChannelManager` of integration_queue_job/jobrunner/channels.py finds and
-- makes them. A channel is found by the names on the way from the root to it; `_channels_by_name`
-- maps the dotted names of all channels to them.
use integration_queue.Prelude.{
  Bool, true, false, not, ◌&&◌, List, [], ◌∷◌, ◌++◌, reverse, none, if◌then◌else◌, Text, text,
  text_eq, split, starts_with, join,
}
use integration_queue.Runner.Errors.{Result, ok, err, channel_not_found}
use integration_queue.Runner.Channel
use integration_queue.Runner.Channel.{Channel, Tree, Forest, node, nil, child}

abbrev pub ChannelPath : Type 0
ChannelPath = List Text

unfoldable pub path_eq : ChannelPath → ChannelPath → Bool
path_eq [] [] = true
path_eq (x ∷ p) (y ∷ q) = text_eq x y && path_eq p q
path_eq _ _ = false

unfoldable pub tree_name : Tree → Text
tree_name (node c children) = c.name

unfoldable pub extend : Channel → List Channel → List Channel
extend c [] = []
extend c (d ∷ line) = c ∷ d ∷ line

-- The channels from the root down to the one at the path; `[]` if there is none.
unfoldable mutual
  unfolding tree_name extend

  pub line_at : ChannelPath → Tree → List Channel
  line_at [] (node c children) = c ∷ []
  line_at (x ∷ p) (node c children) = extend c (line_in x p children)

  pub line_in : Text → ChannelPath → Forest → List Channel
  line_in x p nil = []
  line_in x p (child t children) =
      if text_eq (tree_name t) x then line_at p t else line_in x p children

-- The tree with other channels along the path.
unfoldable mutual
  unfolding tree_name

  pub put_line : List Channel → ChannelPath → Tree → Tree
  put_line [] p t = t
  put_line (d ∷ line) [] (node c children) = node d children
  put_line (d ∷ line) (x ∷ p) (node c children) = node d (put_in line x p children)

  pub put_in : List Channel → Text → ChannelPath → Forest → Forest
  put_in line x p nil = nil
  put_in line x p (child t children) =
      if text_eq (tree_name t) x
      then child (put_line line p t) children
      else child t (put_in line x p children)

-- `Channel(subchannel_name, parent, capacity=None)` for each name of the path.
unfoldable pub new_line : Text → ChannelPath → Tree
new_line x [] = node (Channel.new x none) nil
new_line x (y ∷ p) = node (Channel.new x none) (child (new_line y p) nil)

-- The loop over the names: missing channels are made on the way.
unfoldable mutual
  unfolding tree_name new_line

  pub ensure : ChannelPath → Tree → Tree
  ensure [] (node c children) = node c children
  ensure (x ∷ p) (node c children) = node c (ensure_in x p children)

  pub ensure_in : Text → ChannelPath → Forest → Forest
  ensure_in x p nil = child (new_line x p) nil
  ensure_in x p (child t children) =
      if text_eq (tree_name t) x
      then child (ensure p t) children
      else child t (ensure_in x p children)

unfoldable pub no_channel : List Channel → Bool
no_channel [] = true
no_channel (c ∷ line) = false

-- `channel_name in self._channels_by_name`
unfoldable pub exists_at : ChannelPath → Tree → Bool
unfolding no_channel
exists_at p t = not (no_channel (line_at p t))

-- The loop over `parent_name`, from the longest name down; the names stand in reverse.
unfoldable pub fallback_from : ChannelPath → Tree → ChannelPath
fallback_from [] t = []
fallback_from (x ∷ names) t =
    let shorter = fallback_from names t in
    if exists_at (reverse names) t then reverse names else shorter

abbrev pub root_name : Text
root_name = text "root"

unfoldable pub drop_first : List Text → List Text
drop_first [] = []
drop_first (x ∷ xs) = xs

-- The names below the root of a channel name, with or without the prefix `root.`; `[]` is the root.
unfoldable pub path_of : Text → ChannelPath
unfolding drop_first
path_of [] = []
path_of (c ∷ name) =
    if text_eq (c ∷ name) root_name
    then []
    else if starts_with (root_name ++ b'.' ∷ []) (c ∷ name)
    then drop_first (split b'.' (c ∷ name))
    else split b'.' (c ∷ name)

-- The channel's path, and the tree with the channels that were made.
unfoldable pub get_channel_by_name : Bool → Bool → Text → Tree → Result (ChannelPath × Tree)
get_channel_by_name autocreate parent_fallback name t =
    let p = path_of name in
    if exists_at p t
    then ok (p, t)
    else if not autocreate && not parent_fallback
    then err channel_not_found
    else (let parent = if parent_fallback then fallback_from (reverse p) t else [] in
        ok (parent ++ p, ensure (parent ++ p) t))

-- An operation on the channel at the path and its parents.
unfoldable pub on_channel : (List Channel → List Channel) → ChannelPath → Tree → Tree
on_channel f p t = put_line (reverse (f (reverse (line_at p t)))) p t

unfoldable pub fullname : ChannelPath → Text
fullname p = join b'.' (root_name ∷ p)
