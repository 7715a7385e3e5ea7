-- ===== src/RequestSize/Delivery.antt =====
-- What the guarded `receive` delivers.
use civic_archive_api.Prelude.{
  ℕ, ◌+◌, ◌≤◌, ◌<◌, Bool, ◌≡◌, refl, true, false, Option, some, List, [], ◌∷◌, arith, length, leb,
  Bool-cases, inl, inr,
}
use civic_archive_api.Prelude.Int.{ℤ, pos, ltb_ℤ}
use civic_archive_api.RequestSize.{
  overflow_details, Message, http_request, http_disconnect, Guard, guarded_receive,
}

abbrev pub body_bytes : Message → ℕ
body_bytes (http_request chunk more_body) = length chunk
body_bytes http_disconnect = 0

abbrev pub total_bytes : List Message → ℕ
total_bytes [] = 0
total_bytes (m ∷ messages) = body_bytes m + total_bytes messages

-- The messages that a reader of all of `messages` gets.
unfoldable pub deliver : ℤ → Option ℤ → Guard → List Message → List Message
deliver limit content_length g [] = []
deliver limit content_length g (m ∷ messages) =
    let (m', g') = guarded_receive limit content_length g m in
    m' ∷ deliver limit content_length g' messages

-- What the guarded `receive` makes of one message, within the limit and over it.
pub receive_within :
    (limit : ℕ) (n : Option ℤ) (g : Guard) (m : Message)
    → g.received_bytes + body_bytes m ≤ limit
    → ((guarded_receive (pos limit) n g m).0 ≡ m)
      × ((guarded_receive (pos limit) n g m).1.received_bytes ≡ g.received_bytes + body_bytes m)
      × ((guarded_receive (pos limit) n g m).1.guard_details ≡ g.guard_details)
unfolding guarded_receive
receive_within limit n g http_disconnect h = (refl, omega arith, refl)
receive_within limit n g (http_request chunk more) h =
    let e : ltb_ℤ (pos limit) (pos (g.received_bytes + length chunk)) ≡ false = ground arith in
    rw e (refl, refl, refl)

pub receive_over :
    (limit : ℕ) (n : Option ℤ) (g : Guard) (chunk : List ℕ) (more : Bool)
    → limit < g.received_bytes + length chunk
    → guarded_receive (pos limit) n g (http_request chunk more) ≡ (
      http_request [] false,
      record {
        received_bytes = g.received_bytes + length chunk;
        guard_details = some (overflow_details (pos limit) n (g.received_bytes + length chunk));
      },
    )
unfolding guarded_receive
receive_over limit n g chunk more h =
    let e : ltb_ℤ (pos limit) (pos (g.received_bytes + length chunk)) ≡ true = ground arith in
    rw e refl

receive_disconnect :
    (limit : ℕ) (n : Option ℤ) (g : Guard)
    → guarded_receive (pos limit) n g http_disconnect ≡ (http_disconnect, g)
unfolding guarded_receive
receive_disconnect limit n g = refl

deliver_over :
    (limit : ℕ) (n : Option ℤ) (g : Guard) (messages : List Message)
    → limit < g.received_bytes
    → total_bytes (deliver (pos limit) n g messages) ≡ 0
unfolding deliver
deliver_over limit n g [] h = refl
deliver_over limit n g (http_disconnect ∷ messages) h =
    rw (receive_disconnect limit n g) (omega (arith, deliver_over limit n g messages h))
deliver_over limit n g (http_request chunk more ∷ messages) h =
    rw (receive_over limit n g chunk more (omega arith)) (
      omega (
        arith,
        deliver_over limit n
            (record {
              received_bytes = g.received_bytes + length chunk;
              guard_details =
                  some (overflow_details (pos limit) n (g.received_bytes + length chunk));
            })
            messages (omega arith),
      ))

-- Whatever the client sends, the handler gets no more bytes of the body than the limit.
pub deliver_bound :
    (limit : ℕ) (content_length : Option ℤ) (g : Guard) (messages : List Message)
    → g.received_bytes ≤ limit
    → g.received_bytes + total_bytes (deliver (pos limit) content_length g messages) ≤ limit
unfolding deliver
deliver_bound limit n g [] h = omega arith
deliver_bound limit n g (http_disconnect ∷ messages) h =
    rw (receive_disconnect limit n g) (omega (arith, deliver_bound limit n g messages h))
deliver_bound limit n g (http_request chunk more ∷ messages) h =
    elim (Bool-cases (leb (g.received_bytes + length chunk) limit)) [
      | inl within ↦
          let (whole, counted, _) =
            receive_within limit n g (http_request chunk more) (ground arith) in
          let ih =
            deliver_bound limit n (guarded_receive (pos limit) n g (http_request chunk more)).1
              messages (ground (arith, counted)) in
          rw whole (omega (arith, ih, counted))
      | inr over ↦ rw (receive_over limit n g chunk more (ground arith)) (
          omega (
            arith,
            h,
            deliver_over limit n
                (record {
                  received_bytes = g.received_bytes + length chunk;
                  guard_details =
                      some (overflow_details (pos limit) n (g.received_bytes + length chunk));
                })
                messages (ground arith),
          ))
    ]
