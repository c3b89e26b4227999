-- ===== src/Channels/Config.antt =====
-- `parse_simple_config`, `simple_configure` and `get_channel_from_config` of `ChannelManager`, and
-- `Channel.configure` (queue_job/jobrunner/channels.py). The assertion at the head of `configure`
-- holds, as the channel is the one that was looked up by the name.
pub mod Text
pub mod Sequential
pub mod Entries
use Prim.Native.String.{String}
use text.Mathlib.Text.{◌==◌ as str_eq}
use others_addons.Base.{
  ℕ, zero, suc, Bool, true, false, not, ◌&&◌, ◌||◌, List, [], ◌∷◌, ◌++◌, Option, none, some, ℤ, pos,
  negsuc, if◌then◌else◌,
}
use others_addons.Channels.Channel.{Channel, create}
use others_addons.Channels.Tree.{Tree, node, leaf, apply_at}
use others_addons.Channels.Manager.{get_channel_by_name, found, not_found, find_at}
use others_addons.Channels.Config.Text.{is_empty_text, split, split_strip, replace_newlines, int}

-- What is wrong with an entry of a configuration.
pub data Problem : Type 0 where
  missing_name : Problem
  invalid_capacity : String → Problem
  incorrect_item : String → Problem
  duplicate_key : String → Problem

-- The `ValueError`s, by their texts; those of the parser quote the configuration, and `int` has one of its own.
pub data ConfigError : Type 0 where
  invalid_config : (config_string : String) → Problem → ConfigError
  not_an_int : String → ConfigError
  capacity_must_be_1 : ConfigError

-- A throttle below 0, which `int` gives, is outside the model: a channel's throttle is a natural number.
pub data Result (E A : Type 0) : Type 0 where
  raised : E → Result E A
  outside : ℕ → Result E A
  returned : A → Result E A

infixl 1 ◌>>=◌
abbrev pub ◌>>=◌ : {E A B : Type 0} → Result E A → (A → Result E B) → Result E B
raised e >>= f = raised e
outside n >>= f = outside n
returned a >>= f = f a

-- The value of a key: a text, or `True`.
pub data Value : Type 0 where
  word : String → Value
  present : Value

-- `config`: its name, its capacity, and the other keys.
pub record Config : Type 0 where
  pub name : String
  pub capacity : ℤ
  pub items : List (String × Value)

unfoldable pub get_item : String → List (String × Value) → Option Value
get_item key [] = none
get_item key ((k, v) ∷ items) =
    let rest = get_item key items in if str_eq k key then some v else rest

abbrev is_some : Option Value → Bool
is_some none = false
is_some (some v) = true

-- `k in config`
unfoldable pub has_item : String → List (String × Value) → Bool
unfolding get_item
has_item k items = str_eq k "name" || str_eq k "capacity" || is_some (get_item k items)

abbrev pub item_of : List String → Option (String × Value)
item_of (k ∷ []) = some (k, present)
item_of (k ∷ v ∷ []) = some (k, word v)
item_of parts = none

-- One round of the loop over `config_items[2:]`.
unfoldable pub parse_item : String → List (String × Value) → Result Problem (List (String × Value))
unfolding split_strip has_item
parse_item config_item items = elim (item_of (split_strip 61 config_item)) [
  | none ↦ raised (incorrect_item config_item)
  | some (k, v) ↦
      if has_item k items then raised (duplicate_key k) else returned (items ++ (k, v) ∷ [])
]

unfoldable pub parse_items :
    List String → List (String × Value) → Result Problem (List (String × Value))
unfolding parse_item
parse_items [] items = returned items
parse_items (config_item ∷ rest) items = do
  more ← parse_item config_item items
  parse_items rest more

-- What stands behind the name.
unfoldable pub parse_settings : String → List String → Result Problem Config
unfolding parse_items int
parse_settings name [] = returned (record { name = name; capacity = pos 1; items = [] })
parse_settings name (capacity ∷ config_items) = elim (int capacity) [
  | none ↦ raised (invalid_capacity capacity)
  | some n ↦
      parse_items config_items []
      >>= (λ items. returned (record { name = name; capacity = n; items = items }))
]

-- The config of one entry; `split` gives one part at least.
unfoldable pub parse_parts : List String → Result Problem Config
unfolding parse_settings
parse_parts [] = raised missing_name
parse_parts (name ∷ config_items) =
    if is_empty_text name then raised missing_name else parse_settings name config_items

-- The loop over the entries.
unfoldable pub parse_entries : List String → Result Problem (List Config)
unfolding parse_parts split_strip
parse_entries [] = returned []
parse_entries (entry ∷ entries) =
    let rest = parse_entries entries in
    let parsed =
      parse_parts (split_strip 58 entry)
      >>= (λ config. rest >>= (λ configs. returned (config ∷ configs))) in
    if is_empty_text entry then rest else parsed

-- The message of an error has the configuration with commas for its line breaks.
abbrev pub quoting : {A : Type 0} → String → Result Problem A → Result ConfigError A
quoting config_string (raised problem) = raised (invalid_config config_string problem)
quoting config_string (outside n) = outside n
quoting config_string (returned a) = returned a

unfoldable pub parse_simple_config : String → Result ConfigError (List Config)
unfolding parse_entries replace_newlines
parse_simple_config config_string =
    let replaced = replace_newlines config_string in
    quoting replaced (parse_entries (split_strip 44 replaced))

-- `bool`
abbrev pub truth : Option Value → Bool
truth none = false
truth (some present) = true
truth (some (word t)) = not (is_empty_text t)

abbrev to_throttle : String → Option ℤ → Result ConfigError ℕ
to_throttle t none = raised (not_an_int t)
to_throttle t (some (pos n)) = returned n
to_throttle t (some (negsuc n)) = outside n

-- `int(config.get("throttle", 0))`
unfoldable pub throttle_of : Option Value → Result ConfigError ℕ
unfolding int
throttle_of none = returned 0
throttle_of (some present) = returned 1
throttle_of (some (word t)) = to_throttle t (int t)

abbrev pub is_1 : ℤ → Bool
is_1 (pos (suc zero)) = true
is_1 (pos zero) = false
is_1 (pos (suc (suc n))) = false
is_1 (negsuc n) = false

-- `Channel.configure`
unfoldable pub configure : Config → Channel → Result ConfigError Channel
unfolding throttle_of get_item
configure config c = do
  throttle ← throttle_of (get_item "throttle" config.items)
  let sequential = truth (get_item "sequential" config.items)
  let configured : Channel = record c {
    capacity = some config.capacity;
    queue = record (c.queue) { sequential = sequential };
    throttle = throttle;
  }
  if sequential && not (is_1 config.capacity)
      then raised capacity_must_be_1
      else returned configured

abbrev pub set_head : Channel → List Channel → List Channel
set_head c [] = []
set_head c (old ∷ above) = c ∷ above

-- The channel at a path with its configuration; a lookup that creates gives a path that exists.
unfoldable pub configure_at : List String → Config → Tree → Result ConfigError Tree
unfolding configure find_at apply_at
configure_at path config t = elim (find_at path t) [
  | none ↦ returned t
  | some c ↦
      configure config c >>= (λ configured. returned (apply_at path (set_head configured) t []).0)
]

unfoldable pub get_channel_from_config : Config → Tree → Result ConfigError Tree
unfolding configure_at get_channel_by_name split
get_channel_from_config config t = elim (get_channel_by_name true false (split 46 config.name) t) [
  | not_found ↦ returned t
  | found path with_channel ↦ configure_at path config with_channel
]

unfoldable pub configure_each : List Config → Tree → Result ConfigError Tree
unfolding get_channel_from_config
configure_each [] t = returned t
configure_each (config ∷ configs) t = get_channel_from_config config t >>= configure_each configs

unfoldable pub simple_configure : String → Tree → Result ConfigError Tree
unfolding parse_simple_config configure_each
simple_configure config_string t = do
  configs ← parse_simple_config config_string
  configure_each configs t

-- The channels of a new `ChannelManager`.
abbrev pub new_channels : Tree
new_channels = node (create "root" (some (pos 1)) false 0) leaf
