-- ===== src/Services/Minutes/Clean.antt =====
-- The texts of a normalised item.
use civic_archive_api.Prelude.{
  String, ◌≡◌, ap, sym, ◌∙◌, inl, inr, Option-cases, false, Option, none, some,
}
use civic_archive_api.Text.{is_empty, or_none, strip}
use civic_archive_api.Text.Laws.{strip_idem, or_none-eq-some}
use civic_archive_api.Json.{Json, str}
use civic_archive_api.Errors.{ok, chain-eq-ok}
use civic_archive_api.Repositories.Minutes.{Minutes}
use civic_archive_api.Services.Values.{Value, json, optional_str, coerce_meeting_no_int, parse_date}
use civic_archive_api.Services.Minutes.{MinutesItem, minutes_of, require_texts, normalize_minutes}

-- A text that is neither blank nor has white space around it.
abbrev pub IsClean : String → Type 0
IsClean s = (strip s ≡ s) × (is_empty s ≡ false)

abbrev pub IsCleanIfAny : Option String → Type 0
IsCleanIfAny none = Unit
IsCleanIfAny (some s) = IsClean s

-- The texts of the minutes that a repository stores.
pub record HasCleanTexts (m : Minutes) : Type 0 where
  pub council : IsClean m.council
  pub url : IsClean m.url
  pub committee : IsCleanIfAny m.committee
  pub session : IsCleanIfAny m.session
  pub content : IsCleanIfAny m.content

or_none-IsCleanIfAny : (s : String) → IsCleanIfAny (or_none (strip s))
or_none-IsCleanIfAny s = elim (Option-cases (or_none (strip s))) [
  | inl blank ↦ rw blank tt
  | inr (t, e) ↦
      let (same, full) = or_none-eq-some (strip s) e in
      rw e (ap strip (sym same) ∙ strip_idem s ∙ same, full)
]

pub optional_str-IsCleanIfAny : (v : Value) → IsCleanIfAny (optional_str v)
unfolding optional_str
optional_str-IsCleanIfAny (json (str s)) = or_none-IsCleanIfAny s
optional_str-IsCleanIfAny _ = tt

require_texts-IsClean :
    (c u : Option String) {texts : String × String}
    → IsCleanIfAny c
    → IsCleanIfAny u
    → require_texts c u ≡ ok texts
    → IsClean texts.0 × IsClean texts.1
unfolding require_texts
require_texts-IsClean (some c) (some u) {texts = texts} hc hu e =
    let same : (c, u) ≡ texts = cc e in rw (sym same) (hc, hu)
require_texts-IsClean (some c) none hc hu e = cc
require_texts-IsClean none u hc hu e = cc

-- What an item is normalised to has no blank text and no white space around one; its council and its
-- URL are not empty.
pub normalize_minutes-HasCleanTexts :
    (shown : Json → String) (item : MinutesItem) (m : Minutes)
    → normalize_minutes shown item ≡ ok m
    → HasCleanTexts m
unfolding normalize_minutes
normalize_minutes-HasCleanTexts shown item m e =
    let (texts, rest, required) =
      chain-eq-ok _ (require_texts (optional_str item.council) (optional_str item.url)) e in
    let (n, rest', _) = chain-eq-ok _ (coerce_meeting_no_int item.meeting_no) rest in
    let (day, last, _) = chain-eq-ok _ (parse_date shown item.meeting_date) rest' in
    let e' : minutes_of item texts n day ≡ m = cc last in
    let (council, url) =
      require_texts-IsClean (optional_str item.council) (optional_str item.url)
        (optional_str-IsCleanIfAny item.council) (optional_str-IsCleanIfAny item.url) required in
    rw (sym e') (record {
      council = council;
      url = url;
      committee = optional_str-IsCleanIfAny item.committee;
      session = optional_str-IsCleanIfAny item.session;
      content = optional_str-IsCleanIfAny item.content;
    })
