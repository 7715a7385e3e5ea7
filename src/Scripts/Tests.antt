-- ===== src/Scripts/Tests.antt =====
-- Runs of the checks, and the theorems about them.
use civic_archive_api.Prelude.{
  ◌+◌, ◌≤◌, ◌≡◌, ◌↔◌, refl, String, true, false, some, [], ◌∷◌, ltb, if◌then◌else◌,
}
use civic_archive_api.Prelude.Int.{pos}
use civic_archive_api.Text.{is_empty, strip, starts_with, text_length}
use civic_archive_api.Text.Number.{digit_value}
use civic_archive_api.Scripts.RuntimeHealth.{
  Server, Run, http_get, attempt_from, check_with_retry, rstrip_slash,
}
use civic_archive_api.Scripts.RuntimeHealth.Attempts.{answers_within, check_with_retry_lem}
use civic_archive_api.Scripts.CommitMessages.{
  CommitSubject, fail, git_log, is_merge, is_decimal, all_decimal, is_phase, is_scope, split_first,
  is_line, match_payload, match_breaking, match_scope, match_type, match_subject, ends_with_period,
  payload_errors, lint_match, lint_subject, violations_of,
}
use civic_archive_api.Scripts.CommitMessages.Render.{render, IsConventional}
use civic_archive_api.Scripts.CommitMessages.Lint.{IsWellPut, lint_subject_iff}
use civic_archive_api.Scripts.RuntimeHealth
use civic_archive_api.Scripts.CommitMessages

abbrev http : String → String
http url = "http"

-- A server that is up from the third request on.
abbrev slow : Server
slow url n = some (if ltb n 2 then 503 else 200)

checks : Unit {0}
unfolding RuntimeHealth.main check_with_retry attempt_from http_get rstrip_slash is_empty
    CommitMessages.main violations_of lint_subject lint_match payload_errors ends_with_period
    match_subject match_type match_scope match_breaking match_payload is_line split_first is_scope
    is_phase all_decimal is_decimal digit_value strip starts_with text_length
checks = tt

third_time :
    check_with_retry http slow "http://localhost/health/live" 200 (pos 3) 0 0
    ≡ record { requests = 3; sleeps = 2; passed = true }
unfolding checks
third_time = refl

both_pass : (RuntimeHealth.main http slow "http://localhost/" (pos 3)).0 ≡ 0
unfolding checks
both_pass = refl

check_with_retry_lem_example :
    let r = check_with_retry http slow "http://localhost/" 200 (pos 1) 0 0 in
    (r.passed ≡ answers_within http slow "http://localhost/" 200 2 0)
    × (1 ≤ r.requests)
    × (r.requests ≤ 0 + 2)
    × (r.sleeps + 1 ≡ 0 + r.requests)
check_with_retry_lem_example = check_with_retry_lem http slow "http://localhost/" 200 1 0 0 refl

one_bad : CommitMessages.main fail (git_log (some ("feat(p12)!: add x" ∷ "fix(api): Y." ∷ []))) ≡ 1
unfolding checks
one_bad = refl

all_good : CommitMessages.main fail (git_log (some ("feat(p12)!: add x" ∷ "Merge b" ∷ []))) ≡ 0
unfolding checks
all_good = refl

no_merge : is_merge (strip " fix(api): y ") ≡ false
unfolding checks
no_merge = refl

lint_subject_iff_example : (lint_subject " fix(api): y " ≡ []) ↔ (
    (m : CommitSubject) × (strip " fix(api): y " ≡ render m)
    × IsConventional m
    × IsWellPut m.subject)
lint_subject_iff_example = lint_subject_iff " fix(api): y " no_merge
