-- ===== src/RequestSize/Answers.antt =====
-- How the guard answers: a body within the limit does not show, and one over it is refused whatever
-- the application makes of it.
use civic_archive_api.Prelude.{
  ℕ, String, Bool, not, ◌&&◌, ◌+◌, ◌≤◌, ◌<◌, ◌≡◌, ◌⊎◌, inl, inr, ◌∙◌, refl, true, false, Option,
  none, some, List, [], ◌∷◌, arith, leb, Bool-cases, if◌then◌else◌,
}
use civic_archive_api.Prelude.Int.{ℤ, pos, ltb_ℤ}
use civic_archive_api.Text.{is_empty, or_empty, strip}
use civic_archive_api.Text.Number.{parse_int}
use civic_archive_api.Json.{Fields}
use civic_archive_api.Errors.{HttpError, ok}
use civic_archive_api.Config.{Config}
use civic_archive_api.Http.{Request}
use civic_archive_api.RequestSize.{
  guard_body, Message, http_request, http_disconnect, Handler, respond, fail, receive, Guard,
  fresh_guard, error_response, guarded_receive, next_message, later_messages, run_plain,
  run_guarded, too_large, invalid_length, pass_on, after_call, call_guarded, with_content_length,
  is_guarded, request_size_guard,
}
use civic_archive_api.RequestSize.Delivery.{body_bytes, total_bytes, receive_within, receive_over}

abbrev pub content_length_raw : Request → String
content_length_raw r = strip (or_empty (r.header "content-length"))

-- The length that a request declares, if it declares one.
abbrev pub declared : Request → Option ℤ
declared r = if is_empty (content_length_raw r) then none else parse_int (content_length_raw r)

abbrev is_none : Option ℤ → Bool
is_none none = true
is_none (some n) = false

-- Whether a request declares a length that is not a number.
abbrev pub has_bad_length : Request → Bool
has_bad_length r =
    not (is_empty (content_length_raw r)) && is_none (parse_int (content_length_raw r))

-- A request declares no length, or one within the limit.
abbrev pub DeclaresUpTo : ℕ → Request → Type 0
DeclaresUpTo limit r =
    (is_empty (content_length_raw r) ≡ true)
    ⊎ ((n : ℤ) × (parse_int (content_length_raw r) ≡ some n) × (ltb_ℤ (pos limit) n ≡ false))

next-total :
    (messages : List Message)
    → body_bytes (next_message messages) + total_bytes (later_messages messages)
      ≡ total_bytes messages
next-total [] = omega arith
next-total (m ∷ messages) = refl

-- A guard that has counted more than the limit has noted it.
abbrev Notes : ℕ → Guard → Type 0
Notes limit g = limit < g.received_bytes → (details : Fields) × (g.guard_details ≡ some details)

over_Notes :
    (limit : ℕ) (n : Option ℤ) (g : Guard) (m : Message)
    → Notes limit g
    → leb (g.received_bytes + body_bytes m) limit ≡ false
    → Notes limit (guarded_receive (pos limit) n g m).1
over_Notes limit n g http_disconnect h over = unfold guarded_receive in h
over_Notes limit n g (http_request chunk more) h over =
    rw (receive_over limit n g chunk more (ground arith)) (λ _. (_, refl))

nothing_counted : (limit : ℕ) → Notes limit fresh_guard
nothing_counted limit h = let absurd : false ≡ true = ground arith in cc

receive-Notes :
    (limit : ℕ) (n : Option ℤ) (g : Guard) (m : Message)
    → Notes limit g
    → Notes limit (guarded_receive (pos limit) n g m).1
receive-Notes limit n g m h = elim (Bool-cases (leb (g.received_bytes + body_bytes m) limit)) [
  | inl within ↦
      let (_, counted, _) = receive_within limit n g m (ground arith) in
      λ much. ground (arith, counted)
  | inr over ↦ over_Notes limit n g m h over
]

module _ {R : Type 0} where
  run_within :
      (limit : ℕ) (n : Option ℤ) (handler : Handler R) (messages : List Message) (g : Guard)
      → g.received_bytes + total_bytes messages ≤ limit
      → ((run_guarded (pos limit) n handler messages g).0 ≡ run_plain handler messages)
        × ((run_guarded (pos limit) n handler messages g).1.guard_details ≡ g.guard_details)
  unfolding run_guarded run_plain
  run_within limit n (respond r) messages g h = (refl, refl)
  run_within limit n (fail e) messages g h = (refl, refl)
  run_within limit n (receive next) messages g h =
      let total = next-total messages in
      let (whole, counted, noted) =
        receive_within limit n g (next_message messages) (omega (arith, total)) in
      let g' = (guarded_receive (pos limit) n g (next_message messages)).1 in
      let (same, kept) =
        run_within limit n (next (next_message messages)) (later_messages messages) g'
          (omega (arith, total, counted)) in
      rw (run_guarded, whole) (same, kept ∙ noted)

  run-Notes :
      (limit : ℕ) (n : Option ℤ) (handler : Handler R) (messages : List Message) (g : Guard)
      → Notes limit g
      → Notes limit (run_guarded (pos limit) n handler messages g).1
  unfolding run_guarded
  run-Notes limit n (respond r) messages g h = h
  run-Notes limit n (fail e) messages g h = h
  run-Notes limit n (receive next) messages g h =
      run-Notes limit n (next (guarded_receive (pos limit) n g (next_message messages)).0)
        (later_messages messages) (guarded_receive (pos limit) n g (next_message messages)).1
        (receive-Notes limit n g (next_message messages) h)

  call_guarded-within :
      (limit : ℕ) (n : Option ℤ) (handler : Handler R) (messages : List Message)
      → total_bytes messages ≤ limit
      → call_guarded (pos limit) n handler messages ≡ pass_on (run_plain handler messages)
  unfolding call_guarded after_call
  call_guarded-within limit n handler messages few =
      let (same, none_noted) = run_within limit n handler messages fresh_guard (omega arith) in
      rw (none_noted, same) refl

  call_guarded-over :
      (limit : ℕ) (n : Option ℤ) (handler : Handler R) (messages : List Message)
      → limit < (run_guarded (pos limit) n handler messages fresh_guard).1.received_bytes
      → (e : HttpError) × (call_guarded (pos limit) n handler messages ≡ ok (error_response e))
        × (e.status_code ≡ 413)
  unfolding call_guarded after_call
  call_guarded-over limit n handler messages much =
      let (details, noted) =
        run-Notes limit n handler messages fresh_guard (nothing_counted limit) much in
      rw noted (too_large details, refl, refl)

  with_content_length-over :
      (limit : ℕ) (n : Option ℤ) (handler : Handler R) (messages : List Message)
      → limit < (run_guarded (pos limit) n handler messages fresh_guard).1.received_bytes
      → (e : HttpError) × (with_content_length (pos limit) n handler messages
          ≡ ok (error_response e))
        × (e.status_code ≡ (if is_none n then 400 else 413))
  unfolding with_content_length
  with_content_length-over limit none handler messages much = (invalid_length, refl, refl)
  with_content_length-over limit (some n) handler messages much =
      let (e, refused, status) = call_guarded-over limit (some n) handler messages much in
      elim (Bool-cases (ltb_ℤ (pos limit) n)) [
        | inl long ↦ rw long (_, refl, refl)
        | inr short ↦ rw short (e, refused, status)
      ]

  guard_body-within :
      (limit : ℕ) (r : Request) (handler : Handler R) (messages : List Message)
      → DeclaresUpTo limit r
      → total_bytes messages ≤ limit
      → guard_body (pos limit) (content_length_raw r) handler messages
        ≡ pass_on (run_plain handler messages)
  unfolding guard_body with_content_length
  guard_body-within limit r handler messages (inl empty) few =
      rw empty (call_guarded-within limit none handler messages few)
  guard_body-within limit r handler messages (inr (n, number, short)) few =
      elim (Bool-cases (is_empty (content_length_raw r))) [
        | inl empty ↦ rw empty (call_guarded-within limit none handler messages few)
        | inr full ↦
            rw (full, number, short) (call_guarded-within limit (some n) handler messages few)
      ]

  guard_body-over :
      (limit : ℕ) (r : Request) (handler : Handler R) (messages : List Message)
      → limit < (run_guarded (pos limit) (declared r) handler messages fresh_guard).1.received_bytes
      → (e : HttpError) × (guard_body (pos limit) (content_length_raw r) handler messages
          ≡ ok (error_response e))
        × (e.status_code ≡ (if has_bad_length r then 400 else 413))
  unfolding guard_body
  guard_body-over limit r handler messages much =
      elim (Bool-cases (is_empty (content_length_raw r))) [
        | inl empty ↦
            let (e, refused, status) =
              call_guarded-over limit none handler messages (rw empty at much) in
            rw empty (e, refused, status)
        | inr full ↦ rw full (
            with_content_length-over limit (parse_int (content_length_raw r)) handler messages
              (rw full at much))
      ]

  -- Under a limit that is not negative, a body within the limit of a request that declares no length,
  -- or one within the limit, does not show: the application runs on the messages as they are sent,
  -- and its response or exception is passed on.
  pub request_size_guard-within :
      (c : Config) (limit : ℕ) (r : Request) (handler : Handler R) (messages : List Message)
      → c.max_request_body_bytes ≡ pos limit
      → DeclaresUpTo limit r
      → total_bytes messages ≤ limit
      → request_size_guard c r handler messages ≡ pass_on (run_plain handler messages)
  unfolding request_size_guard
  request_size_guard-within c limit r handler messages bound length_ok few =
      rw bound (elim (Bool-cases (is_guarded r)) [
        | inl guarded ↦ rw guarded (guard_body-within limit r handler messages length_ok few)
        | inr free ↦ rw free refl
      ])

  -- Under a limit that is not negative, an application that reads more of a guarded request than the
  -- limit is not heard: the answer is an error response, with status 400 if the request declares a
  -- length that is not a number, and 413 if not.
  pub request_size_guard-over :
      (c : Config) (limit : ℕ) (r : Request) (handler : Handler R) (messages : List Message)
      → c.max_request_body_bytes ≡ pos limit
      → is_guarded r ≡ true
      → limit < (run_guarded (pos limit) (declared r) handler messages fresh_guard).1.received_bytes
      → (e : HttpError) × (request_size_guard c r handler messages ≡ ok (error_response e))
        × (e.status_code ≡ (if has_bad_length r then 400 else 413))
  unfolding request_size_guard
  request_size_guard-over c limit r handler messages bound guarded much =
      rw (bound, guarded) (guard_body-over limit r handler messages much)
