-- ===== src/Services/Segments/Hashes.antt =====
-- What the texts that are hashed tell apart.
use civic_archive_api.Prelude.{
  arith, ◌≡◌, ◌↔◌, refl, ap, sym, ◌∙◌, String, Bool, true, false, ◌&&◌, Option, none, some,
}
use civic_archive_api.Prelude.Int.{ℤ}
use civic_archive_api.Text.{or_empty}
use civic_archive_api.Json.{str, obj, Fields, get_or_null}
use civic_archive_api.Json.Dumps.{dumps}
use civic_archive_api.Json.Dumps.Injective.{dumps_injective}
use civic_archive_api.Errors.{ok, chain-eq-ok}
use civic_archive_api.Repositories.Segments.{Segment}
use civic_archive_api.Services.Dates.{Date, iso_format, parse_iso_date}
use civic_archive_api.Services.Dates.Iso.{IsDate, parse_iso_date-iso_format}
use civic_archive_api.Services.Canonical.{canonical_json_value}
use civic_archive_api.Services.Segments.{
  text_or_null, int_or_null, date_or_null, dedupe_payload, legacy_payload, Library, dedupe_text,
}
use civic_archive_api.Services.Segments.Payload.{
  CanonicalValues, AreCanonical, sorted_payload, canonical_dict, HasNoFloats,
  sorted_payload-is_float_free,
}

-- The date is one of the calendar, if there is one.
abbrev pub IsDateIfAny : Option Date → Type 0
IsDateIfAny none = Unit
IsDateIfAny (some d) = IsDate d

-- Two segments have the same texts, numbers and dates, and JSON values with the same canonical form.
pub record AreAlike (s s' : Segment) (d d' : Option Date) : Type 0 where
  pub council : s.council ≡ s'.council
  pub committee : s.committee ≡ s'.committee
  pub session : s.session ≡ s'.session
  pub meeting_no_combined : s.meeting_no_combined ≡ s'.meeting_no_combined
  pub content : s.content ≡ s'.content
  pub summary : s.summary ≡ s'.summary
  pub subject : s.subject ≡ s'.subject
  pub party : s.party ≡ s'.party
  pub constituency : s.constituency ≡ s'.constituency
  pub department : s.department ≡ s'.department
  pub meeting_no : s.meeting_no ≡ s'.meeting_no
  pub importance : s.importance ≡ s'.importance
  pub meeting_date : d ≡ d'
  pub tag : canonical_json_value 1 s.tag ≡ canonical_json_value 1 s'.tag
  pub moderator : canonical_json_value 1 s.moderator ≡ canonical_json_value 1 s'.moderator
  pub questioner : canonical_json_value 1 s.questioner ≡ canonical_json_value 1 s'.questioner
  pub answerer : canonical_json_value 1 s.answerer ≡ canonical_json_value 1 s'.answerer

text_or_null_injective : (o p : Option String) → text_or_null o ≡ text_or_null p → o ≡ p
text_or_null_injective none none h = refl
text_or_null_injective none (some t) h = cc
text_or_null_injective (some s) none h = cc
text_or_null_injective (some s) (some t) h = cc h

int_or_null_injective : (o p : Option ℤ) → int_or_null o ≡ int_or_null p → o ≡ p
int_or_null_injective none none h = refl
int_or_null_injective none (some n) h = cc
int_or_null_injective (some m) none h = cc
int_or_null_injective (some m) (some n) h = cc h

iso_format_injective :
    (d e : Date)
    → IsDate d
    → IsDate e
    → iso_format d ≡ iso_format e
    → ◌≡◌ {A = Option Date} (some d) (some e)
iso_format_injective d e hd he h =
    sym (parse_iso_date-iso_format d hd) ∙ ap parse_iso_date h ∙ parse_iso_date-iso_format e he

date_or_null_injective :
    (o p : Option Date) → IsDateIfAny o → IsDateIfAny p → date_or_null o ≡ date_or_null p → o ≡ p
date_or_null_injective none none ho hp h = refl
date_or_null_injective none (some e) ho hp h = cc
date_or_null_injective (some d) none ho hp h = cc
date_or_null_injective (some d) (some e) ho hp h = iso_format_injective d e ho hp (cc h)

-- The text of a dict, with the canonical forms of its JSON values.
dict_of_text :
    (lib : Library) (s : Segment) (d : Option Date) (t : String)
    → dedupe_text lib s d ≡ ok t
    → (c : CanonicalValues) × AreCanonical s c
      × (t ≡ dumps lib.show_float (obj (sorted_payload s d c)))
unfolding dedupe_text
dict_of_text lib s d t h =
    let (v, written, canonical) =
      chain-eq-ok _ (canonical_json_value 0 (obj (dedupe_payload s d))) h in
    let (c, values, e) = canonical_dict s d v canonical in
    let e' : t ≡ dumps lib.show_float v = cc written in
    (c, values, e' ∙ ap (dumps lib.show_float) e)

fields_of_obj : {fs gs : Fields} → obj fs ≡ obj gs → fs ≡ gs
fields_of_obj h = cc h

alike_of_dicts :
    (s s' : Segment) (d d' : Option Date) (c c' : CanonicalValues)
    → AreCanonical s c
    → AreCanonical s' c'
    → IsDateIfAny d
    → IsDateIfAny d'
    → sorted_payload s d c ≡ sorted_payload s' d' c'
    → AreAlike s s' d d'
unfolding get_or_null
alike_of_dicts s s' d d' c c' values values' hd hd' h =
    let value : (key : String)
        → get_or_null key (sorted_payload s d c) ≡ get_or_null key (sorted_payload s' d' c') =
      λ key. ap (get_or_null key) h in
    record {
      council = let e : str s.council ≡ str s'.council = value "council" in cc e;
      committee = text_or_null_injective s.committee s'.committee (value "committee");
      session = text_or_null_injective s.session s'.session (value "session");
      meeting_no_combined =
          text_or_null_injective s.meeting_no_combined s'.meeting_no_combined
            (value "meeting_no_combined");
      content = text_or_null_injective s.content s'.content (value "content");
      summary = text_or_null_injective s.summary s'.summary (value "summary");
      subject = text_or_null_injective s.subject s'.subject (value "subject");
      party = text_or_null_injective s.party s'.party (value "party");
      constituency = text_or_null_injective s.constituency s'.constituency (value "constituency");
      department = text_or_null_injective s.department s'.department (value "department");
      meeting_no = int_or_null_injective s.meeting_no s'.meeting_no (value "meeting_no");
      importance = int_or_null_injective s.importance s'.importance (value "importance");
      meeting_date = date_or_null_injective d d' hd hd' (value "meeting_date");
      tag = let e : c.tag ≡ c'.tag = value "tag" in cc (e, values.tag, values'.tag);
      moderator =
          let e : c.moderator ≡ c'.moderator = value "moderator" in
          cc (e, values.moderator, values'.moderator);
      questioner =
          let e : c.questioner ≡ c'.questioner = value "questioner" in
          cc (e, values.questioner, values'.questioner);
      answerer =
          let e : c.answerer ≡ c'.answerer = value "answerer" in
          cc (e, values.answerer, values'.answerer);
    }

-- The text under the hash tells segments apart: two segments without floats in their JSON values,
-- and with dates that exist, have one text only if they agree in every text, number and date, and
-- their JSON values have the same canonical forms.
pub dedupe_text_injective :
    (lib : Library) (s s' : Segment) (d d' : Option Date) (t : String)
    → HasNoFloats s
    → HasNoFloats s'
    → IsDateIfAny d
    → IsDateIfAny d'
    → dedupe_text lib s d ≡ ok t
    → dedupe_text lib s' d' ≡ ok t
    → AreAlike s s' d d'
dedupe_text_injective lib s s' d d' t free free' hd hd' h h' =
    let (c, values, e) = dict_of_text lib s d t h in
    let (c', values', e') = dict_of_text lib s' d' t h' in
    alike_of_dicts s s' d d' c c' values values' hd hd' (
      fields_of_obj (
        dumps_injective lib.show_float _ _ (sorted_payload-is_float_free s d c values free)
          (sorted_payload-is_float_free s' d' c' values' free') (sym e ∙ e')))

abbrev pub is_set : Option String → Bool
is_set none = false
is_set (some s) = true

-- None of the nine fields that the legacy hash takes as texts is missing.
abbrev pub has_all_texts : Segment → Bool
has_all_texts s =
    is_set s.committee
    && is_set s.session
    && is_set s.meeting_no_combined
    && is_set s.content
    && is_set s.summary
    && is_set s.subject
    && is_set s.party
    && is_set s.constituency
    && is_set s.department

set_of_text : (o : Option String) → o ≡ some (or_empty o) → is_set o ≡ true
set_of_text none h = cc
set_of_text (some s) h = refl

text_of_set : (o : Option String) → is_set o ≡ true → some (or_empty o) ≡ o
text_of_set none h = cc
text_of_set (some s) h = refl

-- For a segment without floats in its JSON values and with a date that exists, if it has one, whose
-- text under the hash can be written: the legacy text is the same exactly if none of the nine texts
-- is missing.
pub legacy_text_iff :
    (lib : Library) (s : Segment) (d : Option Date) (t : String)
    → HasNoFloats s
    → IsDateIfAny d
    → dedupe_text lib s d ≡ ok t
    → (dedupe_text lib (legacy_payload s) d ≡ ok t) ↔ (has_all_texts s ≡ true)
unfolding legacy_payload
legacy_text_iff lib s d t free hd h = (
  λ legacy.
      let alike =
        dedupe_text_injective lib s (legacy_payload s) d d t free
          (record {
            tag = free.tag;
            moderator = free.moderator;
            questioner = free.questioner;
            answerer = free.answerer;
          })
          hd hd h legacy in
      rw
        (
          set_of_text s.committee alike.committee,
          set_of_text s.session alike.session,
          set_of_text s.meeting_no_combined alike.meeting_no_combined,
          set_of_text s.content alike.content,
          set_of_text s.summary alike.summary,
          set_of_text s.subject alike.subject,
          set_of_text s.party alike.party,
          set_of_text s.constituency alike.constituency,
          set_of_text s.department alike.department,
        )
        refl,
  λ all_set.
      let has_committee : is_set s.committee ≡ true = ground arith in
      let has_session : is_set s.session ≡ true = ground arith in
      let has_meeting_no_combined : is_set s.meeting_no_combined ≡ true = ground arith in
      let has_content : is_set s.content ≡ true = ground arith in
      let has_summary : is_set s.summary ≡ true = ground arith in
      let has_subject : is_set s.subject ≡ true = ground arith in
      let has_party : is_set s.party ≡ true = ground arith in
      let has_constituency : is_set s.constituency ≡ true = ground arith in
      let has_department : is_set s.department ≡ true = ground arith in
      rw
        (
          text_of_set s.committee has_committee,
          text_of_set s.session has_session,
          text_of_set s.meeting_no_combined has_meeting_no_combined,
          text_of_set s.content has_content,
          text_of_set s.summary has_summary,
          text_of_set s.subject has_subject,
          text_of_set s.party has_party,
          text_of_set s.constituency has_constituency,
          text_of_set s.department has_department,
        )
        h,
)
