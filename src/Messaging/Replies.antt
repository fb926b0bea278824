-- ===== src/Messaging/Replies.antt =====
-- waitbus/_messaging.py: which request a reply answers.
use waitbus.Prelude.{
  String, ◌≡◌, refl, sym, ◌↔◌, Bool, true, false, ◌&&◌, Option, none, some, List, [], ◌∷◌, ◌++◌,
  str_eq, eq_iff, if◌then◌else◌, and_true,
}
use waitbus.Json.{as_str, ℤ, Fields}
use waitbus.Client.{is_text}
use waitbus.Emit.{EventInsert, Event}
use waitbus.Messaging.{
  agent_event, text_json, frame_fields, row_to_frame, is_reply, reply_decide, or_else,
  request_event, respond_event,
}

text_eq_iff : (s t : String) → (str_eq s t ≡ true) ↔ (t ≡ s)
text_eq_iff s t = (λ e. sym ((eq_iff s t).0 e), λ e. (eq_iff s t).1 (sym e))

both_iff : (a b c d : String) → ((str_eq a b && str_eq c d) ≡ true) ↔ ((b ≡ a) × (d ≡ c))
both_iff a b c d = (
  λ e.
      let (x, y) = and_true (str_eq a b) (str_eq c d) e in
      ((text_eq_iff a b).0 x, (text_eq_iff c d).0 y),
  λ e. rw ((text_eq_iff a b).1 e.0, (text_eq_iff c d).1 e.1) refl,
)

as_str-text_json : (o : Option String) → as_str (text_json o) ≡ o
unfolding as_str
as_str-text_json none = refl
as_str-text_json (some s) = refl

taken_iff :
    (b : Bool) (captured : List Fields) (frame : Fields)
    → ((if◌then◌else◌ {A = List Fields × Bool} b (captured ++ frame ∷ [], true) (captured, false)).1
        ≡ true)
      ↔ (b ≡ true)
taken_iff true captured frame = (λ e. refl, λ e. refl)
taken_iff false captured frame = (λ e. e, λ e. e)

-- The reply that is made of a request's frame takes the correlation, the sender and the return address
-- from it, and any waiting requester takes the frame of that reply exactly when the correlation and the
-- sender are its own.
pub reply_decide-respond_event :
    (time time' : ℤ) (to body sender fresh answer : String)
    (reply_to correlation_id thread : Option String)
    → (reply : EventInsert) × (respond_event time'
          (frame_fields (request_event time to body sender reply_to correlation_id fresh thread))
          answer
          none
          none
        ≡ some reply)
      × (reply.msg_body ≡ some answer)
      × (reply.msg_thread ≡ thread)
      × ((summary : Event → String) (id asked asker : String) (captured : List Fields)
          → ((reply_decide asked asker
                (row_to_frame summary (record { event_id = id; columns = reply }))
                captured).1
              ≡ true)
            ↔ ((asked ≡ or_else correlation_id fresh) × (asker ≡ sender)))
unfolding respond_event request_event frame_fields agent_event reply_decide row_to_frame is_reply
    is_text
reply_decide-respond_event time time' to body sender fresh answer reply_to correlation_id thread =
    let correlation = or_else correlation_id fresh in
    (
      _,
      refl,
      refl,
      as_str-text_json thread,
      λ summary id asked asker captured.
          let (taken, took) =
            taken_iff (str_eq correlation asked && str_eq sender asker) captured _ in
          let (equal, alike) = both_iff correlation asked sender asker in
          (λ e. equal (taken e), λ e. took (alike e)),
    )
