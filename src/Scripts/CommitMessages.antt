-- ===== src/Scripts/CommitMessages.antt =====
-- scripts/check_commit_messages.py: the form of a commit's subject, and the exit code of the check.
pub mod Render
pub mod Lint
use Prim.Native.Char.{code}
use mathlib.Core.List.{◌++◌}
use Prim.Native.String.{[], ◌∷◌}
use civic_archive_api.Prelude.{
  ℕ, suc, String, Bool, true, false, not, ◌&&◌, ◌||◌, Option, none, some, List, any, eqb, ltb, leb,
  if◌then◌else◌, ◌==◌,
}
use civic_archive_api.Text.{is_empty, strip, starts_with, text_length}
use civic_archive_api.Text.Number.{digit_value, zeros}

abbrev pub allowed_types : List String
allowed_types = List.◌∷◌ "feat" (
    List.◌∷◌ "fix" (
      List.◌∷◌ "docs" (
        List.◌∷◌ "refactor" (
          List.◌∷◌ "chore" (
            List.◌∷◌ "test"
              (List.◌∷◌ "ci" (List.◌∷◌ "build" (List.◌∷◌ "perf" (List.◌∷◌ "revert" List.[])))))))))

abbrev pub named_scopes : List String
named_scopes = List.◌∷◌ "api" (
    List.◌∷◌ "db" (
      List.◌∷◌ "ops" (
        List.◌∷◌ "security" (
          List.◌∷◌ "deps" (
            List.◌∷◌ "docs" (
              List.◌∷◌ "ci" (List.◌∷◌ "release" (List.◌∷◌ "bench" (List.◌∷◌ "infra" List.[])))))))))

abbrev pub is_in : String → List String → Bool
is_in s texts = any (λ t. t == s) texts

-- `\d`
unfoldable pub is_decimal : ℕ → Bool
unfolding digit_value
is_decimal c = elim (digit_value c zeros) [ none ↦ false | some n ↦ true ]

-- `\d*`
unfoldable pub all_decimal : String → Bool
unfolding is_decimal
all_decimal [] = true
all_decimal (c ∷ s) = is_decimal (code c) && all_decimal s

-- `p\d+`
unfoldable pub is_phase : String → Bool
unfolding all_decimal is_empty
is_phase [] = false
is_phase (c ∷ s) = eqb (code c) b'p' && not (is_empty s) && all_decimal s

unfoldable pub is_scope : String → Bool
unfolding is_phase
is_scope s = is_phase s || is_in s named_scopes

-- The parts before and after the first character of a number.
unfoldable pub split_first : ℕ → String → Option (String × String)
split_first k [] = none
split_first k (c ∷ s) =
    if eqb (code c) k
    then some ([], s)
    else elim (split_first k s) [ none ↦ none | some parts ↦ some (c ∷ parts.0, parts.1) ]

-- `.+$` of a text that is stripped: it is not empty and has no line feed.
unfoldable pub is_line : String → Bool
is_line [] = true
is_line (c ∷ s) = not (eqb (code c) 10) && is_line s

-- What the pattern matches: the groups `type`, `scope`, `breaking` and `subject`.
pub record CommitSubject : Type 0 where
  pub commit_type : String
  pub scope : String
  pub breaking : Bool
  pub subject : String

-- `: (?P<subject>.+)$`
unfoldable pub match_payload : String → String → Bool → String → Option CommitSubject
unfolding is_line is_empty
match_payload commit_type scope breaking (c ∷ (d ∷ payload)) =
    if eqb (code c) b':' && eqb (code d) b' ' && not (is_empty payload) && is_line payload
    then some (record {
      commit_type = commit_type;
      scope = scope;
      breaking = breaking;
      subject = payload;
    })
    else none
match_payload commit_type scope breaking _ = none

-- `(?P<breaking>!)?`
unfoldable pub match_breaking : String → String → String → Option CommitSubject
unfolding match_payload
match_breaking commit_type scope [] = none
match_breaking commit_type scope (c ∷ s) =
    if eqb (code c) b'!'
    then match_payload commit_type scope true s
    else match_payload commit_type scope false (c ∷ s)

-- `\((?P<scope>...)\)`, where no scope has a bracket
unfoldable pub match_scope : String → Option (String × String) → Option CommitSubject
unfolding is_scope match_breaking
match_scope commit_type none = none
match_scope commit_type (some (scope, rest)) =
    if is_scope scope then match_breaking commit_type scope rest else none

unfoldable pub match_type : Option (String × String) → Option CommitSubject
unfolding match_scope split_first
match_type none = none
match_type (some (commit_type, rest)) =
    if is_in commit_type allowed_types
    then match_scope commit_type (split_first b')' rest)
    else none

-- `COMMIT_SUBJECT_PATTERN.match`
unfoldable pub match_subject : String → Option CommitSubject
unfolding match_type split_first
match_subject normalized = match_type (split_first b'(' normalized)

-- `payload.endswith(".")`
unfoldable pub ends_with_period : String → Bool
unfolding is_empty
ends_with_period [] = false
ends_with_period (c ∷ s) = (eqb (code c) b'.' && is_empty s) || ends_with_period s

-- `re.match(r"[a-z0-9]", payload)`
abbrev pub starts_well : String → Bool
starts_well [] = false
starts_well (c ∷ s) = (leb 97 (code c) && leb (code c) 122) || (leb 48 (code c) && leb (code c) 57)

abbrev pub message_if : Bool → String → List String → List String
message_if b message messages = if b then List.◌∷◌ message messages else messages

unfoldable pub payload_errors : String → List String
unfolding text_length ends_with_period
payload_errors payload =
    message_if (ltb 72 (text_length payload)) "subject length must be <= 72 characters" (
      message_if (ends_with_period payload) "subject must not end with a period" (
        message_if (not (starts_well payload)) "subject must start with a lowercase letter or digit"
          List.[]))

abbrev pub no_match : List String
no_match =
    List.◌∷◌
      "does not match required format: <type>(<scope>): <subject> (allowed types: feat, fix, docs, refactor, chore, test, ci, build, perf, revert)"
      List.[]

abbrev pub is_merge : String → Bool
is_merge s = starts_with s "Merge " || starts_with s "Revert \"Merge "

unfoldable pub lint_match : Option CommitSubject → List String
unfolding payload_errors
lint_match none = no_match
lint_match (some m) = payload_errors m.subject

unfoldable pub lint_subject : String → List String
unfolding strip is_empty starts_with match_subject lint_match
lint_subject subject =
    let normalized = strip subject in
    if is_empty normalized
    then List.◌∷◌ "subject is empty" List.[]
    else if is_merge normalized
    then List.[]
    else lint_match (match_subject normalized)

-- The violations of the commits in turn, without the heads of their lines.
unfoldable pub violations_of : List String → List String
unfolding lint_subject
violations_of List.[] = List.[]
violations_of (List.◌∷◌ subject subjects) = lint_subject subject ++ violations_of subjects

pub data Mode : Type 0 where
  fail warn : Mode

-- The first line of a message file, or the empty text.
abbrev pub first_line : List String → String
first_line List.[] = ""
first_line (List.◌∷◌ line lines) = line

abbrev exit_code : Mode → List String → ℕ
exit_code mode List.[] = 0
exit_code warn (List.◌∷◌ violation violations) = 0
exit_code fail (List.◌∷◌ violation violations) = 1

-- What `main` checks: the lines of a message file, or the subjects that `git log` prints. None of
-- them is a file that is missing, or a `git log` that fails.
pub data Source : Type 0 where
  message_file git_log : Option (List String) → Source

-- The exit code of `main`.
unfoldable pub main : Mode → Source → ℕ
unfolding violations_of lint_subject
main mode (message_file none) = 2
main mode (message_file (some lines)) = exit_code mode (lint_subject (first_line lines))
main mode (git_log none) = 2
main mode (git_log (some subjects)) = exit_code mode (violations_of subjects)
