-- ===== src/NightlyGate/Diff.antt =====
-- scripts/nlp_nightly_gate.py: the changed files, as git gives them.
use request_o_matic.Base.{
  ℕ, Bool, false, not, ◌&&◌, ◌||◌, Option, none, some, List, [], ◌∷◌, ◌++◌, ◌==◌, is_nil, between,
  if◌then◌else◌,
}
use request_o_matic.Base.Int.{ℤ, pos}
use request_o_matic.Text.{Text, text, text_eq, strip, starts_with, contains}
use request_o_matic.Text.Case.{lower}

-- What `subprocess.run` returns of one call of git, whose arguments are given.
pub record Completed : Type 0 where
  pub returncode : ℤ
  pub stdout : Text

abbrev pub Git : Type 0
Git = List Text → Completed

-- The characters that end a line for `str.splitlines`.
abbrev is_line_end : ℕ → Bool
is_line_end c = between 10 13 c || between 28 30 c || c == 133 || between 8232 8233 c

abbrev starts_feed : Text → Bool
starts_feed [] = false
starts_feed (c ∷ s) = c == 10

abbrev pub to_first : ℕ → List Text → List Text
to_first c [] = (c ∷ []) ∷ []
to_first c (l ∷ ls) = (c ∷ l) ∷ ls

-- `s.splitlines()`: a carriage return before a line feed ends no line of its own, and no line
-- follows the last end.
unfoldable pub splitlines : Text → List Text
splitlines [] = []
splitlines (c ∷ s) =
    let rest = splitlines s in
    if c == 13 && starts_feed s then rest else if is_line_end c then [] ∷ rest else to_first c rest

abbrev is_zero : ℤ → Bool
is_zero (pos n) = n == 0
is_zero z = false

-- `returncode != 0`
abbrev pub failed : Completed → Bool
failed run = not (is_zero run.returncode)

-- A line of a diff that adds or removes something and mentions the word, which is in lower case.
unfoldable pub mentions : Text → Text → Bool
unfolding starts_with contains
mentions needle line =
    if starts_with (text "+++") line
      || (starts_with (text "---") line
          || not (starts_with (text "+") line || starts_with (text "-") line))
    then false
    else contains needle (lower line)

abbrev pub any_line : (Text → Bool) → List Text → Bool
any_line p [] = false
any_line p (l ∷ ls) = p l || any_line p ls

unfoldable pub hunk_mentions : Text → Text → Bool
unfolding splitlines mentions
hunk_mentions diff_text keyword = any_line (mentions (lower keyword)) (splitlines diff_text)

-- `[line.strip() for line in … if line.strip()]`
unfoldable pub stripped_lines : List Text → List Text
unfolding strip
stripped_lines [] = []
stripped_lines (l ∷ ls) =
    let rest = stripped_lines ls in if is_nil (strip l) then rest else strip l ∷ rest

-- `KEYWORD_WATCHED.get(path)`
unfoldable pub keyword_of : Text → Option Text
keyword_of path =
    if text_eq path (text "core/dependencies.py") || text_eq path (text "config/settings.py")
    then some (text "groq")
    else none

module _ (git : Git) where
  abbrev pub cat_file : Text → Completed
  cat_file base = git (text "git" ∷ text "cat-file" ∷ text "-e" ∷ (base ++ text "^{commit}") ∷ [])

  abbrev pub name_diff : Text → Text → Completed
  name_diff base head = git (text "git" ∷ text "diff" ∷ text "--name-only" ∷ base ∷ head ∷ [])

  unfoldable pub resolve_changed_files : Text → Text → Option (List Text)
  unfolding stripped_lines splitlines
  resolve_changed_files base head =
      if is_nil base
      then none
      else if failed (cat_file base)
      then none
      else if failed (name_diff base head)
      then none
      else some (stripped_lines (splitlines (name_diff base head).stdout))

  abbrev pub file_diff : Text → Text → Text → Completed
  file_diff base head path =
      git (text "git" ∷ text "diff" ∷ text "-U0" ∷ base ∷ head ∷ text "--" ∷ path ∷ [])

  -- Whether a file counts: a diff that cannot be had counts too.
  abbrev pub is_hit : Text → Text → Text → Option Text → Bool
  is_hit base head path none = false
  is_hit base head path (some keyword) =
      failed (file_diff base head path) || hunk_mentions (file_diff base head path).stdout keyword

  unfoldable pub resolve_keyword_hits : List Text → Text → Text → List Text
  unfolding keyword_of hunk_mentions
  resolve_keyword_hits [] base head = []
  resolve_keyword_hits (path ∷ paths) base head =
      let rest = resolve_keyword_hits paths base head in
      if is_hit base head path (keyword_of path) then path ∷ rest else rest
