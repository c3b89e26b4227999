-- ===== src/Channels/Tests/Configs.antt =====
-- Configurations of channels (queue_job/jobrunner/channels.py).
use Prim.Native.Char.{char}
use Prim.Native.String.{◌∷◌ as char_then, ◌++◌ as str_append}
use others_addons.Base.{◌≡◌, refl, inr, [], ◌∷◌, none, some, pos, negsuc, arith}
use others_addons.Channels.Tree.{Tree}
use others_addons.Channels.Config.{
  ConfigError, invalid_config, Result, raised, returned, duplicate_key, missing_name,
  capacity_must_be_1, word, parse_simple_config, simple_configure, new_channels,
}
use others_addons.Channels.Config.Sequential.{IsSingle, simple_configure-AllTree}
use others_addons.Channels.Config.Entries.{both, requoting, parse_simple_config-append}
use others_addons.Channels.Tree.Capacity.{AllTree}
use others_addons.Channels.Config.Text.{split, int, replace_newlines}

parts : split 44 "a,b," ≡ "a" ∷ "b" ∷ "" ∷ []
unfolding split
parts = refl

numbers : (int " -12 " ≡ some (negsuc 11)) × (int "1_0" ≡ some (pos 10)) × (int "1__0" ≡ none)
unfolding int
numbers = (refl, refl, refl)

documented :
    parse_simple_config "\n root : 4\n foo bar:1: k=va lue\n baz\n"
    ≡ returned (
        record { name = "root"; capacity = pos 4; items = [] }
        ∷ record { name = "foo bar"; capacity = pos 1; items = ("k", word "va lue") ∷ [] }
        ∷ record { name = "baz"; capacity = pos 1; items = [] }
        ∷ [])
unfolding parse_simple_config
documented = refl

no_name : parse_simple_config "root:4, :2" ≡ raised (invalid_config "root:4, :2" missing_name)
unfolding parse_simple_config
no_name = refl

capacity_twice :
    parse_simple_config "root:4:capacity=5"
    ≡ raised (invalid_config "root:4:capacity=5" (duplicate_key "capacity"))
unfolding parse_simple_config
capacity_twice = refl

abbrev configured : Result ConfigError Tree → Tree
configured (returned t) = t
configured r = new_channels

abbrev three_channels : Tree
three_channels = configured (simple_configure "root:4,autosub.sub:2,seq:1:sequential" new_channels)

sequential_of_2 : simple_configure "sub:2:sequential" new_channels ≡ raised capacity_must_be_1
unfolding simple_configure parse_simple_config
sequential_of_2 = refl

-- A text is true unless it is empty.
sequential_false :
    simple_configure "sub:2:sequential=false" new_channels ≡ raised capacity_must_be_1
unfolding simple_configure parse_simple_config
sequential_false = refl

simple_configure-AllTree_example : AllTree IsSingle three_channels
unfolding simple_configure parse_simple_config
simple_configure-AllTree_example =
    simple_configure-AllTree "root:4,autosub.sub:2,seq:1:sequential" new_channels three_channels
      refl ((λ e. absurd (ground (arith, e))), tt)

parse_simple_config-append_example :
    parse_simple_config (str_append "root:4" (char_then (char 10 tt) "sub:2:sequential"))
    ≡ requoting "root:4,sub:2:sequential"
        (both (parse_simple_config "root:4") (parse_simple_config "sub:2:sequential"))
unfolding replace_newlines
parse_simple_config-append_example =
    parse_simple_config-append "root:4" "sub:2:sequential" (char 10 tt) (inr refl)
