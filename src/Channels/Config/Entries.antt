-- ===== src/Channels/Config/Entries.antt =====
-- The entries of a configuration (queue_job/jobrunner/channels.py).
use Prim.Native.Char.{Char, char, code}
use Prim.Native.String.{String, [] as end, ◌∷◌ as char_then, ◌++◌ as str_append}
use text.Mathlib.TextLemmas.{nil-append, cons-append}
use mathlib.Core.List.{map-append}
use others_addons.Base.{
  ℕ, ◌≡◌, refl, ap, ◌∙◌, sym, ◌⊎◌, inl, inr, true, List, [], ◌∷◌, ◌++◌, map, if_true, if_false,
  arith, Bool-cases, ◌==◌,
}
use others_addons.Channels.Config.{
  Problem, ConfigError, invalid_config, not_an_int, capacity_must_be_1, quoting, Result, raised,
  outside, returned, ◌>>=◌, Config, parse_parts, parse_entries, parse_simple_config,
}
use others_addons.Channels.Config.Text.{
  push, split, strip, split_strip, as_comma, replace_newlines, is_empty_text,
}

replace_newlines-append :
    (s t : String)
    → replace_newlines (str_append s t) ≡ str_append (replace_newlines s) (replace_newlines t)
unfolding replace_newlines
replace_newlines-append end t =
    ap replace_newlines (nil-append t) ∙ sym (nil-append (replace_newlines t))
replace_newlines-append (char_then c s) t =
    ap replace_newlines (cons-append c s t)
    ∙ ap (char_then (as_comma c)) (replace_newlines-append s t)
    ∙ sym (cons-append (as_comma c) (replace_newlines s) (replace_newlines t))

push-cons : (c : Char) (l : List String) → (p : String) × (ps : List String) × (push c l ≡ p ∷ ps)
push-cons c [] = (_, _, refl)
push-cons c (part ∷ parts) = (_, _, refl)

split-cons : (sep : ℕ) (s : String) → (p : String) × (ps : List String) × (split sep s ≡ p ∷ ps)
unfolding split
split-cons sep end = (_, _, refl)
split-cons sep (char_then c s) = elim (Bool-cases (code c == sep)) [
  | inl separates ↦ (_, _, if_true _ _ _ separates)
  | inr other ↦ let (p, ps, e) = push-cons c (split sep s) in (p, ps, if_false _ _ _ other ∙ e)
]

push-append :
    (c : Char) (l more : List String) (p : String) (ps : List String)
    → l ≡ p ∷ ps
    → push c (l ++ more) ≡ push c l ++ more
push-append c l more p ps e = rw e refl

split-append :
    (sep : ℕ) (c : Char) (s t : String)
    → (code c == sep) ≡ true
    → split sep (str_append s (char_then c t)) ≡ split sep s ++ split sep t
unfolding split
split-append sep c end t e = ap (split sep) (nil-append (char_then c t)) ∙ if_true _ _ _ e
split-append sep c (char_then d s) t e =
    let (p, ps, parts) = split-cons sep s in
    ap (split sep) (cons-append d s (char_then c t)) ∙ elim (Bool-cases (code d == sep)) [
      | inl separates ↦
          if_true _ _ _ separates
          ∙ ap (λ l. end ∷ l) (split-append sep c s t e)
          ∙ ap (λ l. l ++ split sep t) (sym (if_true _ _ _ separates))
      | inr other ↦
          if_false _ _ _ other
          ∙ ap (push d) (split-append sep c s t e)
          ∙ push-append d (split sep s) (split sep t) p ps parts
          ∙ ap (λ l. l ++ split sep t) (sym (if_false _ _ _ other))
    ]

-- Both lists, or the first error.
abbrev pub both :
    {E : Type 0} → Result E (List Config) → Result E (List Config) → Result E (List Config)
both first second = first >>= (λ l. second >>= (λ more. returned (l ++ more)))

both-nil : (r : Result Problem (List Config)) → r ≡ both (returned []) r
both-nil (raised e) = refl
both-nil (outside n) = refl
both-nil (returned l) = refl

both-cons :
    (parsed : Result Problem Config) (r s : Result Problem (List Config))
    → (parsed >>= (λ config. both r s >>= (λ l. returned (config ∷ l))))
      ≡ both (parsed >>= (λ config. r >>= (λ l. returned (config ∷ l)))) s
both-cons (raised e) r s = refl
both-cons (outside n) r s = refl
both-cons (returned config) (raised e) s = refl
both-cons (returned config) (outside n) s = refl
both-cons (returned config) (returned l) (raised e) = refl
both-cons (returned config) (returned l) (outside n) = refl
both-cons (returned config) (returned l) (returned more) = refl

parse_entries-append :
    (l more : List String) → parse_entries (l ++ more) ≡ both (parse_entries l) (parse_entries more)
unfolding parse_entries
parse_entries-append [] more = both-nil (parse_entries more)
parse_entries-append (entry ∷ entries) more = elim (Bool-cases (is_empty_text entry)) [
  | inl empty ↦
      if_true _ _ _ empty
      ∙ parse_entries-append entries more
      ∙ ap (λ r. both r (parse_entries more)) (sym (if_true _ _ _ empty))
  | inr given ↦
      if_false _ _ _ given
      ∙ ap
          (λ r.
            parse_parts (split_strip 58 entry) >>= (λ config. r >>= (λ l. returned (config ∷ l))))
          (parse_entries-append entries more)
      ∙ both-cons (parse_parts (split_strip 58 entry)) (parse_entries entries) (parse_entries more)
      ∙ ap (λ r. both r (parse_entries more)) (sym (if_false _ _ _ given))
]

-- An error of the parser with another quotation.
abbrev pub requoting : String → Result ConfigError (List Config) → Result ConfigError (List Config)
requoting config_string (raised (invalid_config other problem)) =
    raised (invalid_config config_string problem)
requoting config_string (raised (not_an_int t)) = raised (not_an_int t)
requoting config_string (raised capacity_must_be_1) = raised capacity_must_be_1
requoting config_string (outside n) = outside n
requoting config_string (returned configs) = returned configs

quoting-both :
    (whole first second : String) (r s : Result Problem (List Config))
    → quoting whole (both r s) ≡ requoting whole (both (quoting first r) (quoting second s))
quoting-both whole first second (raised e) s = refl
quoting-both whole first second (outside n) s = refl
quoting-both whole first second (returned l) (raised e) = refl
quoting-both whole first second (returned l) (outside n) = refl
quoting-both whole first second (returned l) (returned more) = refl

-- A configuration of two parts with a comma or a line break between them gives the configs of the first part
-- and then those of the second, or the first error of the two, whose message quotes the whole configuration,
-- with commas for its line breaks, instead of the part.
pub parse_simple_config-append :
    (s t : String) (c : Char)
    → (code c ≡ 44) ⊎ (code c ≡ 10)
    → parse_simple_config (str_append s (char_then c t))
      ≡ requoting
          (replace_newlines (str_append s (char_then c t)))
          (both (parse_simple_config s) (parse_simple_config t))
unfolding parse_simple_config split_strip replace_newlines
parse_simple_config-append s t c separates =
    let comma : (code (as_comma c) == 44) ≡ true = elim separates [
      | inl here ↦
          ap (λ d. code d == 44) (if_false (code c == 10) (char 44 tt) c (ground (arith, here)))
          ∙ ground (arith, here)
      | inr line ↦
          ap (λ d. code d == 44) (if_true (code c == 10) (char 44 tt) c (ground (arith, line)))
    ] in
    let whole = replace_newlines (str_append s (char_then c t)) in
    let first = replace_newlines s in
    let second = replace_newlines t in
    ap (quoting whole) (
      ap (λ l. parse_entries (map strip (split 44 l))) (replace_newlines-append s (char_then c t))
      ∙ ap (λ l. parse_entries (map strip l)) (split-append 44 (as_comma c) first second comma)
      ∙ ap parse_entries (map-append strip (split 44 first) (split 44 second))
      ∙ parse_entries-append (split_strip 44 first) (split_strip 44 second))
    ∙ quoting-both whole first second (parse_entries (split_strip 44 first))
        (parse_entries (split_strip 44 second))
