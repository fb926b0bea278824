-- ===== src/Messaging/Truncated.antt =====
-- waitbus/_messaging.py: a reply that the daemon has cut to a stub.
use waitbus.Prelude.{ℕ, String, ◌≡◌, ap, ◌∙◌, true, Option, none, some, List, ◌∷◌, ◌++◌, eq_refl}
use waitbus.Frame.{Bytes}
use waitbus.Json.{Json, str, obj, Fields}
use waitbus.Client.{
  is_text, kind_of, advance_cursor, take_frame, by_kind, read_json, await_loop, await_predicate,
  frame_bytes, Turn,
}
use waitbus.Emit.{Event, Table}
use waitbus.Messaging.{
  text_json, row_to_frame, truncated_frame, is_reply, reply_decide, fetch_event_by_id,
  refetch_reply, captured_reply, reply_of, await_reply, Reply, got, nothing,
}
use waitbus.Messaging.Passed.{AllPassed, await_reply-passed}

module _ (correlation_id sender : String) (loads : Bytes → Option Json)
    (convert : Fields → Option Fields) (summary : Event → String) where
  first_truncated_frame :
      (start : ℕ) (first : Turn) (ts : List Turn) (t : Table) (e : Event) (bytes : Bytes)
      → first.answer ≡ frame_bytes bytes
      → loads bytes ≡ some (obj (truncated_frame e))
      → e.columns.msg_correlation_id ≡ some correlation_id
      → fetch_event_by_id e.event_id t.rows ≡ some e
      → await_reply loads convert summary correlation_id sender none start (first ∷ ts) t
        ≡ got (row_to_frame summary e)
  unfolding await_reply await_predicate await_loop read_json by_kind kind_of take_frame
      advance_cursor reply_decide is_reply is_text reply_of captured_reply refetch_reply
      truncated_frame
  first_truncated_frame start first ts t e bytes a l c f =
      let asked : is_text correlation_id (text_json e.columns.msg_correlation_id) ≡ true =
        ap (λ o. is_text correlation_id (text_json o)) c ∙ eq_refl correlation_id in
      let found : refetch_reply loads convert summary (str e.event_id) t
          ≡ got (row_to_frame summary e) =
        ap
          (λ (o : Option Event). elim o as (λ _. Reply) [
            | none ↦ nothing
            | some x ↦ got (row_to_frame summary x)
          ])
          f in
      rw (a, l, asked) found

  -- A wait without a deadline: behind any control frames, frames that cannot be decoded and data frames
  -- that do not answer the request, a stub with the correlation ends the wait with the event that it
  -- stands for, whoever that event is addressed to.
  pub await_reply-truncated_frame :
      (start : ℕ) (pre : List Turn) (first : Turn) (ts : List Turn) (t : Table) (e : Event)
      (bytes : Bytes)
      → AllPassed correlation_id sender loads pre
      → first.answer ≡ frame_bytes bytes
      → loads bytes ≡ some (obj (truncated_frame e))
      → e.columns.msg_correlation_id ≡ some correlation_id
      → fetch_event_by_id e.event_id t.rows ≡ some e
      → await_reply loads convert summary correlation_id sender none start (pre ++ first ∷ ts) t
        ≡ got (row_to_frame summary e)
  await_reply-truncated_frame start pre first ts t e bytes p a l c f =
      await_reply-passed correlation_id sender loads convert summary pre (first ∷ ts) start t p
      ∙ first_truncated_frame start first ts t e bytes a l c f
