-- ===== src/Channels/Manager/Names.antt =====
-- Looking channels up by name (queue_job/jobrunner/channels.py, `get_channel_by_name`).
use Prim.Native.String.{String}
use text.Mathlib.Text.{◌==◌ as str_eq}
use text.Mathlib.TextPositions.{eq_refl}
use others_addons.Base.{
  ℕ, zero, suc, ◌≡◌, refl, inl, inr, Bool, true, false, not, ◌&&◌, List, [], ◌∷◌, ◌++◌, Option,
  none, some, if◌then◌else◌, length, Bool-cases, Option-cases,
}
use others_addons.Channels.Channel.{Channel, create}
use others_addons.Channels.Tree.{Tree, Children, node, leaf, child, root_of}
use others_addons.Channels.Manager.{
  find_at, find_below, create_path, ensure_at, ensure_below, path_of, parent_path, fallback, Lookup,
  found, not_found, get_channel_by_name,
}

IsFound : Option Channel → Type 0
IsFound o = (c : Channel) × (o ≡ some c)

name-root_of-create_path :
    (name : String) (rest : List String) → (root_of (create_path name rest)).name ≡ name
unfolding create_path
name-root_of-create_path name [] = refl
name-root_of-create_path name (next ∷ rest) = refl

find_at-create_path :
    (name : String) (rest : List String)
    → (c : Channel) × (find_at rest (create_path name rest) ≡ some c)
unfolding find_at create_path
find_at-create_path name [] = (create name none false 0, refl)
find_at-create_path name (next ∷ rest) =
    let (c, e) = find_at-create_path next rest in
    (c, rw (name-root_of-create_path next rest, eq_refl next) e)

name-root_of-ensure_at : (path : List String) (t : Tree) → root_of (ensure_at path t) ≡ root_of t
unfolding ensure_at
name-root_of-ensure_at [] (node c children) = refl
name-root_of-ensure_at (name ∷ rest) (node c children) = refl

mutual
  unfolding find_at find_below ensure_at ensure_below

  find_at-ensure_at :
      (t : Tree) (path : List String) → (c : Channel) × (find_at path (ensure_at path t) ≡ some c)
  find_at-ensure_at (node c children) [] = (c, refl)
  find_at-ensure_at (node c children) (name ∷ rest) = find_below-ensure_below children name rest

  find_below-ensure_below :
      (children : Children) (name : String) (rest : List String)
      → (c : Channel) × (find_below name rest (ensure_below name rest children) ≡ some c)
  find_below-ensure_below leaf name rest =
      let (c, e) = find_at-create_path name rest in
      (c, rw (name-root_of-create_path name rest, eq_refl name) e)
  find_below-ensure_below (child t others) name rest =
      elim (Bool-cases (str_eq (root_of t).name name)) [
        | inl here ↦
            let (c, e) = find_at-ensure_at t rest in
            (c, rw (here, ensure_below) (rw (name-root_of-ensure_at rest t, here) e))
        | inr away ↦
            let (c, e) = find_below-ensure_below others name rest in
            (c, rw (away, ensure_below) (rw (away, find_below) e))
      ]

-- What is found before the loop is found after it, unchanged.
mutual
  unfolding find_at find_below ensure_at ensure_below

  kept_at :
      (t : Tree) (path other : List String) (c : Channel)
      → find_at other t ≡ some c
      → find_at other (ensure_at path t) ≡ some c
  kept_at (node d children) [] other c e = e
  kept_at (node d children) (name ∷ rest) [] c e = e
  kept_at (node d children) (name ∷ rest) (name' ∷ rest') c e =
      kept_below children name rest name' rest' c e

  kept_below :
      (children : Children) (name : String) (rest : List String) (name' : String)
      (rest' : List String) (c : Channel)
      → find_below name' rest' children ≡ some c
      → find_below name' rest' (ensure_below name rest children) ≡ some c
  kept_below leaf name rest name' rest' c e = absurd (cc)
  kept_below (child t others) name rest name' rest' c e =
      elim (Bool-cases (str_eq (root_of t).name name)) [
        | inl here ↦ elim (Bool-cases (str_eq (root_of t).name name')) [
          | inl same ↦
              rw (here, ensure_below)
                (rw (name-root_of-ensure_at rest t, same) (kept_at t rest rest' c (rw same at e)))
          | inr other ↦
              rw (here, ensure_below) (rw (name-root_of-ensure_at rest t, other) (rw other at e))
        ]
        | inr away ↦ elim (Bool-cases (str_eq (root_of t).name name')) [
          | inl same ↦ rw (away, ensure_below) (rw (same, find_below) (rw same at e))
          | inr other ↦
              rw (away, ensure_below)
                (rw (other, find_below) (kept_below others name rest name' rest' c (rw other at e)))
        ]
      ]

-- What a lookup gives: a path to a channel, in a tree that still has every channel as it was.
pub record Finds (t : Tree) (path : List String) (t' : Tree) : Type 0 where
  pub channel : Channel
  pub at : find_at path t' ≡ some channel
  pub kept :
      (other : List String) (c : Channel) → find_at other t ≡ some c → find_at other t' ≡ some c

ensure_at-Finds : (t : Tree) (path : List String) → Finds t path (ensure_at path t)
ensure_at-Finds t path = record {
  channel = (find_at-ensure_at t path).0;
  at = (find_at-ensure_at t path).1;
  kept = kept_at t path;
}

-- The nearest parent that exists does exist.
find_at-fallback :
    (fuel : ℕ) (path : List String) (t : Tree)
    → (c : Channel) × (find_at (fallback fuel path t) t ≡ some c)
unfolding fallback find_at
find_at-fallback zero path (node c children) = (c, refl)
find_at-fallback (suc fuel) path t = elim (Option-cases (find_at (parent_path path) t)) [
  | inl missing ↦ rw (missing, fallback) (find_at-fallback fuel (parent_path path) t)
  | inr (c, here) ↦ (c, rw (here, fallback) here)
]

pub data Answers (autocreate parent_fallback : Bool) (path parent : List String) (t : Tree)
    : Lookup → Type 0 where
  exists_already :
      (c : Channel)
      → find_at path t ≡ some c
      → Answers autocreate parent_fallback path parent t (found path t)
  fails :
      find_at path t ≡ none
      → autocreate ≡ false
      → parent_fallback ≡ false
      → Answers autocreate parent_fallback path parent t not_found
  creates :
      (t' : Tree)
      → find_at path t ≡ none
      → autocreate ≡ true
      → parent_fallback ≡ false
      → Finds t path t'
      → Answers autocreate parent_fallback path parent t (found path t')
  falls_back :
      (c : Channel) (t' : Tree)
      → find_at path t ≡ none
      → parent_fallback ≡ true
      → find_at parent t ≡ some c
      → Finds t (parent ++ path) t'
      → Answers autocreate parent_fallback path parent t (found (parent ++ path) t')

missing-Answers :
    (autocreate parent_fallback : Bool) (path : List String) (t : Tree)
    → find_at path t ≡ none
    → (let parent = if parent_fallback then fallback (length path) path t else [] in
        Answers autocreate parent_fallback path (fallback (length path) path t) t (
          if not autocreate && not parent_fallback
          then not_found
          else found (parent ++ path) (ensure_at (parent ++ path) t)))
missing-Answers false false path t missing = fails missing refl refl
missing-Answers true false path t missing =
    creates (ensure_at path t) missing refl refl (ensure_at-Finds t path)
missing-Answers false true path t missing =
    let parent = fallback (length path) path t in
    let (c, at) = find_at-fallback (length path) path t in
    falls_back c (ensure_at (parent ++ path) t) missing refl at (ensure_at-Finds t (parent ++ path))
missing-Answers true true path t missing =
    let parent = fallback (length path) path t in
    let (c, at) = find_at-fallback (length path) path t in
    falls_back c (ensure_at (parent ++ path) t) missing refl at (ensure_at-Finds t (parent ++ path))

-- A channel that exists is found by its name, and nothing is created. A name of no channel is an
-- error without `autocreate` and `parent_fallback`. With `autocreate` alone the channel of the name
-- exists afterwards. With `parent_fallback` the whole path of the name exists afterwards below a
-- parent that existed, and that is what is returned, not the parent. Every channel that existed is
-- still there, as it was.
pub get_channel_by_name-Answers :
    (autocreate parent_fallback : Bool) (name : List String) (t : Tree)
    → (let path = path_of name in
        Answers autocreate parent_fallback path
          (fallback (length path) path t)
          t
          (get_channel_by_name autocreate parent_fallback name t))
unfolding get_channel_by_name
get_channel_by_name-Answers autocreate parent_fallback name t =
    elim (Option-cases (find_at (path_of name) t)) [
      | inr (c, here) ↦ rw (here, get_channel_by_name) (exists_already c here)
      | inl missing ↦
          rw (missing, get_channel_by_name)
            (missing-Answers autocreate parent_fallback (path_of name) t missing)
    ]

-- With `parent_fallback` a lookup always finds a channel.
pub get_channel_by_name-found :
    (name : List String) (t : Tree)
    → (path : List String) × (t' : Tree) × (get_channel_by_name false true name t ≡ found path t')
unfolding get_channel_by_name
get_channel_by_name-found name t = elim (Option-cases (find_at (path_of name) t)) [
  | inr (c, here) ↦ (path_of name, t, rw (here, get_channel_by_name) refl)
  | inl missing ↦
      let path = path_of name in
      let target = fallback (length path) path t ++ path in
      (target, ensure_at target t, rw (missing, get_channel_by_name) refl)
]
