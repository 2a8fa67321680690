-- ===== src/NightlyGate.antt =====
-- scripts/nlp_nightly_gate.py: whether tonight's run of the parser's tests against Groq is needed. git
-- is a parameter, and of the clock the offset from UTC in effect in New York.
pub mod Diff
pub mod Runs
use request_o_matic.Base.{
  ℕ, ◌-◌, Bool, true, false, not, ◌&&◌, ◌||◌, Option, none, some, List, [], ◌∷◌, ◌++◌, ◌==◌, ltb,
  take, length, is_nil, between, if◌then◌else◌,
}
use request_o_matic.Base.Int.{ℤ, negsuc}
use request_o_matic.Json.{decimal}
use request_o_matic.NightlyGate.Diff.{Git, resolve_changed_files, resolve_keyword_hits}
use request_o_matic.Text.{Text, text, text_eq, join}

abbrev pub cron_edt : Text
cron_edt = text "0 7 * * *"

abbrev pub cron_est : Text
cron_est = text "0 8 * * *"

-- `now_et.utcoffset() == _EDT_OFFSET`, in seconds
abbrev pub is_edt : ℤ → Bool
is_edt (negsuc n) = n == 14399
is_edt offset = false

unfoldable pub expected_cron : ℤ → Text
expected_cron offset = if is_edt offset then cron_edt else cron_est

unfoldable pub is_tonights_cron : Text → ℤ → Bool
unfolding expected_cron
is_tonights_cron event_schedule offset = text_eq event_schedule (expected_cron offset)

-- `fnmatch`, for patterns without brackets: `*` stands for any text and `?` for any character.
abbrev pub on_suffix : (Text → Bool) → Text → Bool
on_suffix f [] = f []
on_suffix f (c ∷ s) = f (c ∷ s) || on_suffix f s

abbrev pub on_next : ℕ → (Text → Bool) → Text → Bool
on_next p f [] = false
on_next p f (c ∷ s) = (p == b'?' || c == p) && f s

unfoldable pub fnmatch : Text → Text → Bool
fnmatch [] path = is_nil path
fnmatch (p ∷ pattern) path =
    let rest = fnmatch pattern in if p == b'*' then on_suffix rest path else on_next p rest path

-- `WATCHED_PATHS`
abbrev pub watched_paths : List Text
watched_paths =
    text "services/parser.py"
    ∷ text "core/groq_tracing.py"
    ∷ text "tests/scenarios.py"
    ∷ text "tests/integration/test_integration.py"
    ∷ text "tests/conftest.py"
    ∷ text "tests/integration/conftest.py"
    ∷ text ".github/workflows/nlp-nightly.yml"
    ∷ text "scripts/nlp_nightly_gate.py"
    ∷ []

abbrev pub matches_any : List Text → Text → Bool
matches_any [] path = false
matches_any (p ∷ patterns) path = fnmatch p path || matches_any patterns path

unfoldable pub is_watched : Text → Bool
unfolding fnmatch
is_watched path = matches_any watched_paths path

unfoldable pub watched_changes : List Text → List Text
watched_changes [] = []
watched_changes (path ∷ paths) =
    let rest = watched_changes paths in if is_watched path then path ∷ rest else rest

abbrev pub max_named_files : ℕ
max_named_files = 5

unfoldable pub summarize : List Text → Text
summarize files =
    let named = join (text ", ") (take max_named_files files) in
    if ltb max_named_files (length files)
    then named ++ (text " (+" ++ (decimal (length files - max_named_files) ++ text " more)"))
    else named

pub record Decision : Type 0 where
  pub should_run : Bool
  pub reason : Text
  pub is_tonight : Bool

abbrev pub quiet_night : ℕ → Text
quiet_night others =
    text "no changes to the NLP surface since the last validated run ("
    ++ (decimal others ++ text " other file(s) changed)")

abbrev pub wrong_twin : Text → ℤ → Text
wrong_twin event_schedule offset =
    text "cron '"
    ++ (event_schedule
        ++ (text "' is not 03:00 ET right now (tonight's entry is '"
            ++ (expected_cron offset ++ text "')")))

-- With the files that matched, of so many that changed.
abbrev pub on_matched : ℕ → List Text → Decision
on_matched changed [] = record {
  should_run = false;
  reason = quiet_night changed;
  is_tonight = true;
}
on_matched changed (file ∷ files) = record {
  should_run = true;
  reason = text "NLP surface changed: " ++ summarize (file ∷ files);
  is_tonight = true;
}

abbrev pub on_changed : Option (List Text) → List Text → Decision
on_changed none keyword_hits = record {
  should_run = true;
  reason = text "no usable baseline from a previously validated run; running";
  is_tonight = true;
}
on_changed (some files) keyword_hits =
    on_matched (length files) (watched_changes files ++ keyword_hits)

unfoldable pub decide : Text → Text → Option (List Text) → ℤ → List Text → Decision
unfolding is_tonights_cron watched_changes summarize expected_cron
decide event_name event_schedule changed_files offset keyword_hits =
    if not (text_eq event_name (text "schedule"))
    then record {
      should_run = true;
      reason = event_name ++ text ": running unconditionally";
      is_tonight = true;
    }
    else if not (is_tonights_cron event_schedule offset)
    then record {
      should_run = false;
      reason = wrong_twin event_schedule offset;
      is_tonight = false;
    }
    else on_changed changed_files keyword_hits

-- The arguments of the command line.
pub record Args : Type 0 where
  pub event_name : Text
  pub event_schedule : Text
  pub base : Text
  pub head : Text

module _ (git : Git) (args : Args) where
  abbrev pub changed_files : Option (List Text)
  changed_files =
      if text_eq args.event_name (text "schedule")
      then resolve_changed_files git args.base args.head
      else none

  abbrev pub hits_among : Option (List Text) → List Text
  hits_among none = []
  hits_among (some files) = resolve_keyword_hits git files args.base args.head

  unfoldable pub decision : ℤ → Decision
  unfolding decide resolve_changed_files resolve_keyword_hits
  decision offset =
      decide args.event_name args.event_schedule changed_files offset (hits_among changed_files)

abbrev lower_boolean : Bool → Text
lower_boolean true = text "true"
lower_boolean false = text "false"

-- The lines that `_write_github_output` appends, if a file is named.
unfoldable pub github_output : Option Text → Decision → List Text
github_output none d = []
github_output (some []) d = []
github_output (some (c ∷ path)) d =
    (text "should_run=" ++ lower_boolean d.should_run)
    ∷ (text "reason=" ++ d.reason)
    ∷ (text "is_tonight=" ++ lower_boolean d.is_tonight)
    ∷ []

-- `main`: the line that is printed, and the lines for the workflow.
unfoldable pub main : Git → Args → ℤ → Option Text → Text × List Text
unfolding decision github_output
main git args offset output_path =
    let d = decision git args offset in
    (
      (if d.should_run then text "RUN: " else text "SKIP: ") ++ d.reason,
      github_output output_path d,
    )
