-- ===== src/Services/Segments/Payload.antt =====
-- The canonical form of the dict that is hashed.
use civic_archive_api.Prelude.{◌≡◌, refl, ap, ◌∙◌, String, true, Option, none, some}
use civic_archive_api.Prelude.Int.{ℤ}
use civic_archive_api.Json.{Json, str, obj, Fields, end, field}
use civic_archive_api.Json.Dumps.Shapes.{is_float_free, have_float_free}
use civic_archive_api.Services.Canonical.Floats.{canonical_json_value-is_float_free}
use civic_archive_api.Errors.{Result, ok, chain-eq-ok}
use civic_archive_api.Repositories.Segments.{Segment}
use civic_archive_api.Services.Dates.{Date}
use civic_archive_api.Services.Canonical.{
  canonical_json_value, canonical_fields, sort_fields, place_field,
}
use civic_archive_api.Services.Segments.{text_or_null, int_or_null, date_or_null, dedupe_payload}

-- The JSON values of a segment, in their canonical form.
pub record CanonicalValues : Type 0 where
  pub tag : Json
  pub moderator : Json
  pub questioner : Json
  pub answerer : Json

-- The dict in the order of its keys.
abbrev pub sorted_payload : Segment → Option Date → CanonicalValues → Fields
sorted_payload s meeting_date c = field "answerer" c.answerer (
    field "committee" (text_or_null s.committee) (
      field "constituency" (text_or_null s.constituency) (
        field "content" (text_or_null s.content) (
          field "council" (str s.council) (
            field "department" (text_or_null s.department) (
              field "importance" (int_or_null s.importance) (
                field "meeting_date" (date_or_null meeting_date) (
                  field "meeting_no" (int_or_null s.meeting_no) (
                    field "meeting_no_combined" (text_or_null s.meeting_no_combined) (
                      field "moderator" c.moderator (
                        field "party" (text_or_null s.party) (
                          field "questioner" c.questioner (
                            field "session" (text_or_null s.session) (
                              field "subject" (text_or_null s.subject) (
                                field "summary" (text_or_null s.summary)
                                  (field "tag" c.tag end))))))))))))))))

canonical_text : (o : Option String) → canonical_json_value 1 (text_or_null o) ≡ ok (text_or_null o)
unfolding canonical_json_value
canonical_text none = refl
canonical_text (some s) = refl

canonical_str : (t : String) → canonical_json_value 1 (str t) ≡ ok (str t)
unfolding canonical_json_value
canonical_str t = refl

canonical_int : (o : Option ℤ) → canonical_json_value 1 (int_or_null o) ≡ ok (int_or_null o)
unfolding canonical_json_value
canonical_int none = refl
canonical_int (some n) = refl

canonical_date : (o : Option Date) → canonical_json_value 1 (date_or_null o) ≡ ok (date_or_null o)
unfolding canonical_json_value
canonical_date none = refl
canonical_date (some d) = refl

-- The JSON values of a segment have these canonical forms.
pub record AreCanonical (s : Segment) (c : CanonicalValues) : Type 0 where
  pub tag : canonical_json_value 1 s.tag ≡ ok c.tag
  pub moderator : canonical_json_value 1 s.moderator ≡ ok c.moderator
  pub questioner : canonical_json_value 1 s.questioner ≡ ok c.questioner
  pub answerer : canonical_json_value 1 s.answerer ≡ ok c.answerer

-- The dict as it is built, with these JSON values.
abbrev payload_with : Segment → Option Date → CanonicalValues → Fields
payload_with s d c =
    dedupe_payload
      (record s {
        tag = c.tag;
        moderator = c.moderator;
        questioner = c.questioner;
        answerer = c.answerer;
      })
      d

-- The fields `gs` are those of `fs`, each with its canonical value.
abbrev AreCanonicalFields : Fields → Fields → Type 0
AreCanonicalFields end gs = gs ≡ end
AreCanonicalFields (field k v fs) gs =
    (w : Json) × (fs' : Fields) × (canonical_json_value 1 v ≡ ok w)
    × AreCanonicalFields fs fs'
    × (gs ≡ field k w fs')

canonical_fields-AreCanonicalFields :
    (fs gs : Fields) → canonical_fields 1 fs ≡ ok gs → AreCanonicalFields fs gs
unfolding canonical_fields
canonical_fields-AreCanonicalFields end gs h = cc h
canonical_fields-AreCanonicalFields (field k v fs) gs h =
    let (w, rest, first) = chain-eq-ok _ (canonical_json_value 1 v) h in
    let (fs', last, others) = chain-eq-ok _ (canonical_fields 1 fs) rest in
    (w, fs', first, canonical_fields-AreCanonicalFields fs fs' others, cc last)

same_value : {r : Result Json} {v w : Json} → r ≡ ok v → r ≡ ok w → v ≡ w
same_value h e = cc (h, e)

canonical_payload :
    (s : Segment) (d : Option Date) (fields : Fields)
    → canonical_fields 1 (dedupe_payload s d) ≡ ok fields
    → (c : CanonicalValues) × AreCanonical s c × (fields ≡ payload_with s d c)
unfolding dedupe_payload
canonical_payload s d fields h =
    let (
      v0,
      fs0,
      c0,
      (
        v1,
        fs1,
        c1,
        (
          v2,
          fs2,
          c2,
          (
            v3,
            fs3,
            c3,
            (
              v4,
              fs4,
              c4,
              (
                v5,
                fs5,
                c5,
                (
                  v6,
                  fs6,
                  c6,
                  (
                    v7,
                    fs7,
                    c7,
                    (
                      v8,
                      fs8,
                      c8,
                      (
                        v9,
                        fs9,
                        c9,
                        (
                          v10,
                          fs10,
                          c10,
                          (
                            v11,
                            fs11,
                            c11,
                            (
                              v12,
                              fs12,
                              c12,
                              (
                                v13,
                                fs13,
                                c13,
                                (
                                  v14,
                                  fs14,
                                  c14,
                                  (v15, fs15, c15, (v16, fs16, c16, last, e16), e15),
                                  e14,
                                ),
                                e13,
                              ),
                              e12,
                            ),
                            e11,
                          ),
                          e10,
                        ),
                        e9,
                      ),
                      e8,
                    ),
                    e7,
                  ),
                  e6,
                ),
                e5,
              ),
              e4,
            ),
            e3,
          ),
          e2,
        ),
        e1,
      ),
      e0,
    ) =
      canonical_fields-AreCanonicalFields (dedupe_payload s d) fields h in
    (
      record { tag = v9; moderator = v11; questioner = v12; answerer = v13 },
      record { tag = c9; moderator = c11; questioner = c12; answerer = c13 },
      cc (
        e0,
        e1,
        e2,
        e3,
        e4,
        e5,
        e6,
        e7,
        e8,
        e9,
        e10,
        e11,
        e12,
        e13,
        e14,
        e15,
        e16,
        last,
        same_value c0 (canonical_str s.council),
        same_value c1 (canonical_text s.committee),
        same_value c2 (canonical_text s.session),
        same_value c3 (canonical_int s.meeting_no),
        same_value c4 (canonical_text s.meeting_no_combined),
        same_value c5 (canonical_date d),
        same_value c6 (canonical_text s.content),
        same_value c7 (canonical_text s.summary),
        same_value c8 (canonical_text s.subject),
        same_value c10 (canonical_int s.importance),
        same_value c14 (canonical_text s.party),
        same_value c15 (canonical_text s.constituency),
        same_value c16 (canonical_text s.department),
      ),
    )

-- The canonical dict has its keys in order.
sorted_lem :
    (s : Segment) (d : Option Date) (c : CanonicalValues)
    → sort_fields (payload_with s d c) ≡ sorted_payload s d c
unfolding sort_fields place_field dedupe_payload
sorted_lem s d c = refl

pub canonical_dict :
    (s : Segment) (d : Option Date) (v : Json)
    → canonical_json_value 0 (obj (dedupe_payload s d)) ≡ ok v
    → (c : CanonicalValues) × AreCanonical s c × (v ≡ obj (sorted_payload s d c))
unfolding canonical_json_value
canonical_dict s d v h =
    let (fields, e, inner) = chain-eq-ok _ (canonical_fields 1 (dedupe_payload s d)) h in
    let (c, values, same) = canonical_payload s d fields inner in
    let e' : v ≡ obj (sort_fields fields) = cc e in
    (c, values, e' ∙ ap (λ fs. obj (sort_fields fs)) same ∙ ap obj (sorted_lem s d c))

-- The JSON values of a segment hold no floats.
pub record HasNoFloats (s : Segment) : Type 0 where
  pub tag : is_float_free s.tag ≡ true
  pub moderator : is_float_free s.moderator ≡ true
  pub questioner : is_float_free s.questioner ≡ true
  pub answerer : is_float_free s.answerer ≡ true

free_text : (o : Option String) → is_float_free (text_or_null o) ≡ true
unfolding is_float_free
free_text none = refl
free_text (some s) = refl

free_int : (o : Option ℤ) → is_float_free (int_or_null o) ≡ true
unfolding is_float_free
free_int none = refl
free_int (some n) = refl

free_date : (o : Option Date) → is_float_free (date_or_null o) ≡ true
unfolding is_float_free
free_date none = refl
free_date (some d) = refl

pub sorted_payload-is_float_free :
    (s : Segment) (d : Option Date) (c : CanonicalValues)
    → AreCanonical s c
    → HasNoFloats s
    → is_float_free (obj (sorted_payload s d c)) ≡ true
unfolding is_float_free have_float_free
sorted_payload-is_float_free s d c values free =
    rw
      (
        canonical_json_value-is_float_free 1 s.answerer c.answerer values.answerer free.answerer,
        free_text s.committee,
        free_text s.constituency,
        free_text s.content,
        free_text s.department,
        free_int s.importance,
        free_date d,
        free_int s.meeting_no,
        free_text s.meeting_no_combined,
        canonical_json_value-is_float_free 1 s.moderator c.moderator values.moderator
            free.moderator,
        free_text s.party,
        canonical_json_value-is_float_free 1 s.questioner c.questioner values.questioner
            free.questioner,
        free_text s.session,
        free_text s.subject,
        free_text s.summary,
        canonical_json_value-is_float_free 1 s.tag c.tag values.tag free.tag,
      )
      refl
