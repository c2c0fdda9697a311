-- ===== src/Runner/Config.antt =====
-- `split_strip` and `ChannelManager.parse_simple_config` of
-- integration_queue_job/jobrunner/channels.py.
use integration_queue.Prelude.{
  ℕ, Bool, true, false, List, [], ◌∷◌, ◌++◌, map, Option, none, some, if◌then◌else◌, ℤ, pos, Text,
  text, text_eq, split, strip, replace_char, parse_int,
}
use integration_queue.Runner.Errors.{Result, ok, err, value_error, ◌>>=◌}

-- The value of a key: `True` where no value is given, or a text.
pub data Value : Type 0 where
  flag : Value
  given : Text → Value

-- A configuration dictionary: its `name`, its `capacity`, and the other keys in order.
pub record Config : Type 0 where
  pub name : Text
  pub capacity : ℤ
  pub keys : List (Text × Value)

unfoldable pub split_strip : ℕ → Text → List Text
split_strip sep s = map strip (split sep s)

unfoldable pub lookup : Text → List (Text × Value) → Option Value
lookup k [] = none
lookup k ((j, v) ∷ rest) = if text_eq j k then some v else lookup k rest

-- `k in config`
unfoldable pub has_key : Text → Config → Bool
unfolding lookup
has_key k config =
    if text_eq k (text "name")
    then true
    else if text_eq k (text "capacity")
    then true
    else elim (lookup k config.keys) [ none ↦ false | some v ↦ true ]

-- `kv = split_strip(config_item, "=")` and its three cases.
unfoldable pub key_value : List Text → Result (Text × Value)
key_value (k ∷ []) = ok (k, flag)
key_value (k ∷ v ∷ []) = ok (k, given v)
key_value _ = err value_error

unfoldable pub add_item : Text → Config → Result Config
unfolding split_strip key_value has_key
add_item item config = do
  (k, v) ← key_value (split_strip b'=' item)
  if has_key k config
      then err value_error
      else ok (record config { keys = config.keys ++ (k, v) ∷ [] })

unfoldable pub add_items : List Text → Config → Result Config
unfolding add_item
add_items [] config = ok config
add_items (item ∷ items) config = do config' ← add_item item config; add_items items config'

unfoldable pub parse_capacity : Text → Result ℤ
parse_capacity s = elim (parse_int s) [ none ↦ err value_error | some n ↦ ok n ]

-- The configuration of one channel, from its items.
unfoldable pub parse_channel : List Text → Result Config
unfolding parse_capacity add_items
parse_channel [] = err value_error
parse_channel ([] ∷ items) = err value_error
parse_channel ((c ∷ name) ∷ []) = ok (record { name = c ∷ name; capacity = pos 1; keys = [] })
parse_channel ((c ∷ name) ∷ capacity ∷ items) = do
  n ← parse_capacity capacity
  add_items items (record { name = c ∷ name; capacity = n; keys = [] })

unfoldable pub parse_entries : List Text → Result (List Config)
unfolding parse_channel split_strip
parse_entries [] = ok []
parse_entries ([] ∷ entries) = parse_entries entries
parse_entries ((c ∷ entry) ∷ entries) = do
  config ← parse_channel (split_strip b':' (c ∷ entry))
  rest ← parse_entries entries
  ok (config ∷ rest)

unfoldable pub parse_simple_config : Text → Result (List Config)
unfolding parse_entries split_strip
parse_simple_config config_string =
    parse_entries (split_strip b',' (replace_char 10 b',' config_string))
