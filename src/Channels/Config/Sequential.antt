-- ===== src/Channels/Config/Sequential.antt =====
-- The channels of a configured manager: a sequential channel has a capacity of 1
-- (queue_job/jobrunner/channels.py).
use Prim.Native.String.{String}
use text.Mathlib.Text.{◌==◌ as str_eq}
use others_addons.Base.{
  zero, suc, ◌≡◌, refl, ap, subst, ◌∙◌, sym, inl, inr, Bool, true, false, not, ◌&&◌, List, [], ◌∷◌,
  none, some, ℤ, pos, negsuc, if◌then◌else◌, if_true, if_false, arith, Bool-cases, Option-cases,
}
use others_addons.Channels.Channel.{Channel}
use others_addons.Channels.Tree.{
  Tree, Children, node, leaf, child, root_of, put_back, apply_at, apply_below,
}
use others_addons.Channels.Tree.Capacity.{AllTree, AllChildren}
use others_addons.Channels.Manager.{
  get_channel_by_name, found, not_found, Lookup, find_at, create_path, ensure_at, ensure_below,
  path_of,
}
use others_addons.Channels.Config.{
  ConfigError, Result, raised, outside, returned, ◌>>=◌, Config, get_item, truth,
  capacity_must_be_1, throttle_of, is_1, configure, set_head, configure_at, get_channel_from_config,
  configure_each, parse_simple_config, simple_configure,
}
use others_addons.Channels.Config.Text.{split}

-- A sequential channel runs one job at a time.
abbrev pub IsSingle : Channel → Type 0
IsSingle c = c.queue.sequential ≡ true → c.capacity ≡ some (pos 1)

create_path-AllTree :
    (name : String) (path : List String) → AllTree IsSingle (create_path name path)
unfolding create_path
create_path-AllTree name [] = (λ e. absurd (ground (arith, e)), tt)
create_path-AllTree name (next ∷ path) =
    (λ e. absurd (ground (arith, e)), (create_path-AllTree next path, tt))

mutual
  unfolding ensure_at

  ensure_at-AllTree :
      (path : List String) (t : Tree) → AllTree IsSingle t → AllTree IsSingle (ensure_at path t)
  ensure_at-AllTree [] (node c children) all = all
  ensure_at-AllTree (name ∷ rest) (node c children) (here, below) =
      (here, ensure_below-AllChildren name rest children below)

  ensure_below-AllChildren :
      (name : String) (rest : List String) (children : Children)
      → AllChildren IsSingle children
      → AllChildren IsSingle (ensure_below name rest children)
  ensure_below-AllChildren name rest leaf all = (create_path-AllTree name rest, tt)
  ensure_below-AllChildren name rest (child t others) (first, all) =
      elim (Bool-cases (str_eq (root_of t).name name)) [
        | inl same ↦
            subst (AllChildren IsSingle) (sym (if_true _ _ _ same))
              (ensure_at-AllTree rest t first, all)
        | inr other ↦
            subst (AllChildren IsSingle) (sym (if_false _ _ _ other))
              (first, ensure_below-AllChildren name rest others all)
      ]

module _ (new : Channel) (single : IsSingle new) where
  put_back-AllTree :
      (chain : List Channel) (c : Channel) (children : Children) (above : List Channel)
      → chain ≡ c ∷ above
      → IsSingle c
      → AllChildren IsSingle children
      → (AllTree IsSingle (put_back chain c children above).0)
        × ((put_back chain c children above).1 ≡ above)
  put_back-AllTree chain c children above same here below = rw same ((here, below), refl)

  mutual
    unfolding apply_at apply_below

    apply_at-AllTree :
        (path : List String) (t : Tree) (above : List Channel)
        → AllTree IsSingle t
        → (AllTree IsSingle (apply_at path (set_head new) t above).0)
          × ((apply_at path (set_head new) t above).1 ≡ above)
    apply_at-AllTree [] (node c children) above (here, below) = ((single, below), refl)
    apply_at-AllTree (name ∷ rest) (node c children) above (here, below) =
        let (all, same) = apply_below-AllChildren name rest children (c ∷ above) below in
        put_back-AllTree (apply_below name rest (set_head new) children (c ∷ above)).1 c _ above
          same here all

    apply_below-AllChildren :
        (name : String) (path : List String) (children : Children) (above : List Channel)
        → AllChildren IsSingle children
        → (AllChildren IsSingle (apply_below name path (set_head new) children above).0)
          × ((apply_below name path (set_head new) children above).1 ≡ above)
    apply_below-AllChildren name path leaf above all = (tt, refl)
    apply_below-AllChildren name path (child t rest) above (first, all) =
        let (t_all, t_same) = apply_at-AllTree path t above first in
        let (rest_all, rest_same) = apply_below-AllChildren name path rest above all in
        elim (Bool-cases (str_eq (root_of t).name name)) [
          | inl same ↦ rw same ((t_all, all), t_same)
          | inr other ↦ rw other ((first, rest_all), rest_same)
        ]

abbrev or_value : {E A : Type 0} → A → Result E A → A
or_value a (raised e) = a
or_value a (outside n) = a
or_value a (returned b) = b

returned-injective : {E A : Type 0} (a b : A) → Path (Result E A) (returned a) (returned b) → a ≡ b
returned-injective a b h = ap (or_value a) h

bind-returned :
    {E A B : Type 0} (r : Result E A) (next : A → Result E B) (b : B)
    → (r >>= next) ≡ returned b
    → (a : A) × (r ≡ returned a) × (next a ≡ returned b)
bind-returned (raised e) next b h = absurd (ground (arith, h))
bind-returned (outside n) next b h = absurd (ground (arith, h))
bind-returned (returned a) next b h = (a, refl, h)

is_1-pos : (z : ℤ) → is_1 z ≡ true → some z ≡ some (pos 1)
is_1-pos (pos zero) h = absurd (ground (arith, h))
is_1-pos (pos (suc zero)) h = refl
is_1-pos (pos (suc (suc n))) h = absurd (ground (arith, h))
is_1-pos (negsuc n) h = absurd (ground (arith, h))

checked-IsSingle :
    (sequential : Bool) (z : ℤ) (c configured : Channel)
    → c.queue.sequential ≡ sequential
    → c.capacity ≡ some z
    → (if sequential && not (is_1 z) then raised capacity_must_be_1 else returned c)
      ≡ returned configured
    → IsSingle configured
checked-IsSingle sequential z c configured s k h = elim (Bool-cases (sequential && not (is_1 z))) [
  | inl wrong ↦ absurd (ground (arith, sym (if_true _ _ _ wrong) ∙ h))
  | inr right ↦
      subst IsSingle (returned-injective c configured (sym (if_false _ _ _ right) ∙ h))
        (λ on. k ∙ is_1-pos z (ground (arith, s, on, right)))
]

configure-IsSingle :
    (config : Config) (c configured : Channel)
    → configure config c ≡ returned configured
    → IsSingle configured
unfolding configure
configure-IsSingle config c configured h =
    let (throttle, e, h2) =
      bind-returned (throttle_of (get_item "throttle" config.items)) _ configured h in
    checked-IsSingle (truth (get_item "sequential" config.items)) config.capacity _ configured refl
      refl h2

configure_at-none :
    (path : List String) (config : Config) (t : Tree)
    → find_at path t ≡ none
    → configure_at path config t ≡ returned t
unfolding configure_at
configure_at-none path config t e = rw (e, configure_at) refl

configure_at-some :
    (path : List String) (config : Config) (t : Tree) (c : Channel)
    → find_at path t ≡ some c
    → configure_at path config t ≡ (
        configure config c
        >>= (λ configured. returned (apply_at path (set_head configured) t []).0))
unfolding configure_at
configure_at-some path config t c e = rw (e, configure_at) refl

configure_at-AllTree :
    (path : List String) (config : Config) (t after : Tree)
    → configure_at path config t ≡ returned after
    → AllTree IsSingle t
    → AllTree IsSingle after
configure_at-AllTree path config t after h all = elim (Option-cases (find_at path t)) [
  | inl missing ↦
      subst (AllTree IsSingle)
        (returned-injective t after (sym (configure_at-none path config t missing) ∙ h)) all
  | inr (c, e) ↦
      let (configured, made, h2) =
        bind-returned (configure config c) _ after
          (sym (configure_at-some path config t c e) ∙ h) in
      subst (AllTree IsSingle) (returned-injective _ after h2)
        (apply_at-AllTree configured (configure-IsSingle config c configured made) path t [] all).0
]

configure_found :
    (config : Config) (t after : Tree) (lookup : Lookup)
    → ((path : List String) (with_channel : Tree)
        → lookup ≡ found path with_channel
        → AllTree IsSingle with_channel)
    → (elim lookup as (λ l. Result ConfigError Tree) [
      | not_found ↦ returned t
      | found path with_channel ↦ configure_at path config with_channel
    ])
      ≡ returned after
    → AllTree IsSingle t
    → AllTree IsSingle after
configure_found config t after not_found kept h all =
    subst (AllTree IsSingle) (returned-injective t after h) all
configure_found config t after (found path with_channel) kept h all =
    configure_at-AllTree path config with_channel after h (kept path with_channel refl)

abbrev tree_of : Tree → Lookup → Tree
tree_of t not_found = t
tree_of t (found path with_channel) = with_channel

tree_of-get_channel_by_name :
    (name : List String) (t : Tree)
    → AllTree IsSingle t
    → AllTree IsSingle (tree_of t (get_channel_by_name true false name t))
unfolding get_channel_by_name
tree_of-get_channel_by_name name t all = elim (Option-cases (find_at (path_of name) t)) [
  | inl missing ↦ rw (missing, get_channel_by_name) (ensure_at-AllTree (path_of name) t all)
  | inr (c, e) ↦ rw (e, get_channel_by_name) all
]

get_channel_from_config-AllTree :
    (config : Config) (t after : Tree)
    → get_channel_from_config config t ≡ returned after
    → AllTree IsSingle t
    → AllTree IsSingle after
unfolding get_channel_from_config
get_channel_from_config-AllTree config t after h all =
    configure_found config t after (get_channel_by_name true false (split 46 config.name) t)
      (λ path with_channel e.
        subst (AllTree IsSingle) (ap (tree_of t) e)
          (tree_of-get_channel_by_name (split 46 config.name) t all))
      h all

configure_each-AllTree :
    (configs : List Config) (t after : Tree)
    → configure_each configs t ≡ returned after
    → AllTree IsSingle t
    → AllTree IsSingle after
unfolding configure_each
configure_each-AllTree [] t after h all =
    subst (AllTree IsSingle) (returned-injective t after h) all
configure_each-AllTree (config ∷ configs) t after h all =
    let (next, e, h2) = bind-returned (get_channel_from_config config t) _ after h in
    configure_each-AllTree configs next after h2
      (get_channel_from_config-AllTree config t next e all)

-- When `simple_configure` ends without an error on channels of which each sequential one has a
-- capacity of 1, as those of a new manager, then this holds of all channels behind it, also of those that it created.
pub simple_configure-AllTree :
    (config_string : String) (t after : Tree)
    → simple_configure config_string t ≡ returned after
    → AllTree IsSingle t
    → AllTree IsSingle after
unfolding simple_configure
simple_configure-AllTree config_string t after h all =
    let (configs, e, h2) = bind-returned (parse_simple_config config_string) _ after h in
    configure_each-AllTree configs t after h2 all
