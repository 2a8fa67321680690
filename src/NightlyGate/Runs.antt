-- ===== src/NightlyGate/Runs.antt =====
-- scripts/nlp_nightly_gate.py: on which nights the tests run.
use request_o_matic.Base.{
  ℕ, ◌≡◌, refl, ◌∙◌, Bool, true, false, not, ◌&&◌, ◌||◌, Option, none, some, List, [], ◌∷◌, ◌++◌,
  arith, Bool-cases, inl, inr, is_nil, all, ◌==◌, if◌then◌else◌,
}
use request_o_matic.Base.Int.{ℤ}
use request_o_matic.NightlyGate.{
  Decision, Args, decide, decision, on_changed, on_matched, hits_among, is_watched, watched_changes,
  is_tonights_cron, fnmatch, matches_any, watched_paths, is_edt,
}
use request_o_matic.NightlyGate.Diff.{
  Git, cat_file, name_diff, failed, stripped_lines, splitlines, resolve_changed_files, keyword_of,
  file_diff, hunk_mentions, is_hit, resolve_keyword_hits,
}
use request_o_matic.Text.{Text, text, text_eq}

abbrev pub any_of : (Text → Bool) → List Text → Bool
any_of p [] = false
any_of p (f ∷ files) = p f || any_of p files

abbrev is_some_of : List Text → Bool
is_some_of files = not (is_nil files)

some_append : (xs ys : List Text) → is_some_of (xs ++ ys) ≡ (is_some_of xs || is_some_of ys)
some_append [] ys = refl
some_append (x ∷ xs) ys = refl

some_if :
    (b : Bool) (f : Text) (rest : List Text)
    → is_some_of (if b then f ∷ rest else rest) ≡ (b || is_some_of rest)
some_if true f rest = refl
some_if false f rest = refl

-- A pattern without wildcards.
abbrev is_literal : Text → Bool
is_literal p = all (λ c. not (c == b'*' || c == b'?')) p

fnmatch-literal : (p path : Text) → is_literal p ≡ true → fnmatch p path ≡ text_eq p path
unfolding fnmatch text_eq
fnmatch-literal [] [] h = refl
fnmatch-literal [] (d ∷ path) h = refl
fnmatch-literal (c ∷ p) [] h = ground arith
fnmatch-literal (c ∷ p) (d ∷ path) h = ground (arith, fnmatch-literal p path)

abbrev pub is_one_of : List Text → Text → Bool
is_one_of names path = any_of (λ name. text_eq name path) names

matches_any-literal :
    (names : List Text) (path : Text)
    → all is_literal names ≡ true
    → matches_any names path ≡ is_one_of names path
matches_any-literal [] path h = refl
matches_any-literal (n ∷ names) path h =
    rw (fnmatch-literal n path (ground arith), matches_any-literal names path (ground arith))

-- A file of the list.
abbrev pub is_named : Text → Bool
is_named path = is_one_of watched_paths path

abbrev pub is_shared : Text → Bool
is_shared path =
    text_eq path (text "core/dependencies.py") || text_eq path (text "config/settings.py")

all_literal : all is_literal watched_paths ≡ true
unfolding text
all_literal = refl

is_watched_lem : (path : Text) → is_watched path ≡ is_named path
unfolding is_watched
is_watched_lem path = matches_any-literal watched_paths path all_literal

-- The entry of 07:00 UTC while New York is four hours behind, and else that of 08:00.
abbrev pub is_three_oclock : Text → ℤ → Bool
is_three_oclock schedule offset =
    (is_edt offset && text_eq schedule (text "0 7 * * *"))
    || (not (is_edt offset) && text_eq schedule (text "0 8 * * *"))

is_tonights_cron_lem :
    (schedule : Text) (offset : ℤ)
    → is_tonights_cron schedule offset ≡ is_three_oclock schedule offset
unfolding is_tonights_cron
is_tonights_cron_lem schedule offset = elim (Bool-cases (is_edt offset)) [
  | inl summer ↦ rw summer (ground arith)
  | inr winter ↦ rw winter refl
]

module _ (git : Git) (args : Args) where
  -- No commit has been validated, or git does not know it, or cannot compare with it.
  abbrev pub is_unknown : Bool
  is_unknown =
      is_nil args.base
      || (failed (cat_file git args.base) || failed (name_diff git args.base args.head))

  abbrev pub is_scheduled : Bool
  is_scheduled = text_eq args.event_name (text "schedule")

  -- A file that is named, or a shared one whose own diff mentions the word or cannot be had.
  abbrev pub touches : Text → Bool
  touches path =
      is_named path
      || (is_shared path
          && (failed (file_diff git args.base args.head path)
              || hunk_mentions (file_diff git args.base args.head path).stdout (text "groq")))

  is_hit_lem :
      (path : Text)
      → (is_watched path || is_hit git args.base args.head path (keyword_of path)) ≡ touches path
  unfolding keyword_of
  is_hit_lem path = elim (Bool-cases (is_shared path)) [
    | inl shared ↦ rw (is_watched_lem path, shared) refl
    | inr own ↦ rw (is_watched_lem path, own) refl
  ]

  abbrev pub changed : List Text
  changed = stripped_lines (splitlines (name_diff git args.base args.head).stdout)

  watched_or_hit :
      (files : List Text)
      → not (is_nil (watched_changes files ++ resolve_keyword_hits git files args.base args.head))
        ≡ any_of touches files
  unfolding watched_changes resolve_keyword_hits
  watched_or_hit [] = refl
  watched_or_hit (f ∷ files) =
      let hits = resolve_keyword_hits git files args.base args.head in
      let hit = is_hit git args.base args.head f (keyword_of f) in
      rw
        (
          some_append (watched_changes (f ∷ files))
              (resolve_keyword_hits git (f ∷ files) args.base args.head),
          some_if (is_watched f) f (watched_changes files),
          some_if hit f hits,
          ← watched_or_hit files,
          some_append (watched_changes files) hits,
        )
        (ground (arith, is_hit_lem f))

  on_matched_lem : (n : ℕ) (files : List Text) → (on_matched n files).should_run ≡ is_some_of files
  on_matched_lem n [] = refl
  on_matched_lem n (f ∷ files) = refl

  on_matched-tonight : (n : ℕ) (files : List Text) → (on_matched n files).is_tonight ≡ true
  on_matched-tonight n [] = refl
  on_matched-tonight n (f ∷ files) = refl

  resolve_changed_files_lem :
      resolve_changed_files git args.base args.head ≡ (if is_unknown then none else some changed)
  unfolding resolve_changed_files
  resolve_changed_files_lem = ground arith

  -- The decision on a night that is tonight's, with what is known of the changes.
  abbrev by_changes : Option (List Text) → Decision
  by_changes files = on_changed files (hits_among git args files)

  by_changes-runs :
      (u : Bool)
      → (by_changes (if u then none else some changed)).should_run ≡ (u || any_of touches changed)
  by_changes-runs true = refl
  by_changes-runs false =
      on_matched_lem _
        (watched_changes changed ++ resolve_keyword_hits git changed args.base args.head)
      ∙ watched_or_hit changed

  by_changes-tonight :
      (u : Bool) → (by_changes (if u then none else some changed)).is_tonight ≡ true
  by_changes-tonight true = refl
  by_changes-tonight false =
      on_matched-tonight _
        (watched_changes changed ++ resolve_keyword_hits git changed args.base args.head)

  -- When the tests run, and when the checks that are due once a night: for an event that is no
  -- schedule, always; for a schedule, on the one of its two entries that is 03:00 in New York at the
  -- offset in effect, and there the checks always, and the tests if the last validated commit is unknown
  -- or cannot be compared with, or if a file that changed since is one of the list, or one of the two
  -- shared ones whose diff mentions Groq or cannot be had.
  pub decision_lem :
      (offset : ℤ)
      → ((decision git args offset).should_run ≡ (
          not is_scheduled
          || (is_three_oclock args.event_schedule offset
              && (is_unknown || any_of touches changed))))
        × ((decision git args offset).is_tonight
            ≡ (not is_scheduled || is_three_oclock args.event_schedule offset))
  unfolding decision decide
  decision_lem offset = elim (Bool-cases is_scheduled) [
    | inr other_event ↦ rw other_event (refl, refl)
    | inl scheduled ↦ elim (Bool-cases (is_three_oclock args.event_schedule offset)) [
      | inr twin ↦
          rw (scheduled, is_tonights_cron_lem args.event_schedule offset, twin) (refl, refl)
      | inl tonight ↦
          rw
            (
              scheduled,
              is_tonights_cron_lem args.event_schedule offset,
              tonight,
              resolve_changed_files_lem,
            )
            (by_changes-runs is_unknown, by_changes-tonight is_unknown)
    ]
  ]
