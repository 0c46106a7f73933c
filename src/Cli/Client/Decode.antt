-- ===== src/Cli/Client/Decode.antt =====
-- internal/cli/client/http_client.go, `decodeEvent`, against the fields that response.go writes: every event
-- of the server is decoded as the event of the client with the same fields.
use agent_cortex.Prelude.{
  Bool, true, Bytes, bytes_eq, List, [], ◌∷◌, ◌++◌, Option, All, ◌≡◌, refl, ap,
}
use agent_cortex.Prelude.Text.{codes}
use agent_cortex.Errors.{Result, ok, ◌>>=◌}
use agent_cortex.Json.{
  Json, Value, Object, IsUtf8, IsLawful, as_text, as_flag, member_of, is_struct, is_field_name,
}
use agent_cortex.Http.Qa.{
  Finished, Frame, heartbeat, text_delta, warning, stream_error, finished, Frames,
}
use agent_cortex.Http.Sse.{event_name, finished_body, body, IsPlain}
use agent_cortex.Cli.Client.{
  QaEvent, got_text, got_warning, got_finished, got_error, got_heartbeat, event_error, text_in,
  flag_in, decode_finished, decode_event, emitted,
}

-- The event that the client makes of an event of the server.
abbrev pub event_of : Frame → QaEvent
event_of (heartbeat ts) = got_heartbeat
event_of (text_delta t) = got_text t
event_of (warning t) = got_warning t
event_of (stream_error code message) = got_error (event_error code message)
event_of (finished fin) = got_finished fin

-- The events that the client passes on.
unfoldable pub heard : Frames → List QaEvent
heard [] = []
heard (e ∷ es) = (emitted (ok (event_of e))).0 ++ heard es

module _ (j : Json) (lawful : IsLawful j) (quote : Bytes → Bytes) where
  text_in-marshal :
      (o : Object) (name : Bytes)
      → is_struct o ≡ true
      → is_field_name name ≡ true
      → All (λ (m : Bytes × Value). IsUtf8 j m.1) o
      → text_in j (j.marshal o) name ≡ as_text j (member_of name o)
  text_in-marshal o name k l h =
      ap (λ (r : Result (Option Value)). r >>= as_text j) (lawful.member-marshal o name k l h)

  flag_in-marshal :
      (o : Object) (name : Bytes)
      → is_struct o ≡ true
      → is_field_name name ≡ true
      → All (λ (m : Bytes × Value). IsUtf8 j m.1) o
      → flag_in j (j.marshal o) name ≡ as_flag j (member_of name o)
  flag_in-marshal o name k l h =
      ap (λ (r : Result (Option Value)). r >>= as_flag j) (lawful.member-marshal o name k l h)

  abbrev gather : Object → Result Finished
  gather o = do
    a ← as_text j (member_of (codes "answer") o)
    id ← as_text j (member_of (codes "memory_id") o)
    saved ← as_flag j (member_of (codes "memory_saved") o)
    synced ← as_flag j (member_of (codes "markdown_synced") o)
    reason ← as_text j (member_of (codes "finish_reason") o)
    ok (record {
      answer = a;
      memory_id = id;
      memory_saved = saved;
      markdown_synced = synced;
      finish_reason = reason;
    })

  gather-finished_body :
      (a id reason : Bytes) (saved synced : Bool)
      → let fin : Finished = record {
        answer = a;
        memory_id = id;
        memory_saved = saved;
        markdown_synced = synced;
        finish_reason = reason;
      } in
        gather (finished_body fin) ≡ ok fin
  unfolding member_of bytes_eq
  gather-finished_body [] [] [] saved synced = refl
  gather-finished_body [] [] (c ∷ reason) saved synced = refl
  gather-finished_body [] (b ∷ id) [] saved synced = refl
  gather-finished_body [] (b ∷ id) (c ∷ reason) saved synced = refl
  gather-finished_body (x ∷ a) [] [] saved synced = refl
  gather-finished_body (x ∷ a) [] (c ∷ reason) saved synced = refl
  gather-finished_body (x ∷ a) (b ∷ id) [] saved synced = refl
  gather-finished_body (x ∷ a) (b ∷ id) (c ∷ reason) saved synced = refl

  finished_body-is_struct :
      (a id reason : Bytes) (saved synced : Bool)
      → is_struct (
          finished_body (record {
            answer = a;
            memory_id = id;
            memory_saved = saved;
            markdown_synced = synced;
            finish_reason = reason;
          }))
        ≡ true
  unfolding is_struct bytes_eq
  finished_body-is_struct [] [] [] saved synced = refl
  finished_body-is_struct [] [] (c ∷ reason) saved synced = refl
  finished_body-is_struct [] (b ∷ id) [] saved synced = refl
  finished_body-is_struct [] (b ∷ id) (c ∷ reason) saved synced = refl
  finished_body-is_struct (x ∷ a) [] [] saved synced = refl
  finished_body-is_struct (x ∷ a) [] (c ∷ reason) saved synced = refl
  finished_body-is_struct (x ∷ a) (b ∷ id) [] saved synced = refl
  finished_body-is_struct (x ∷ a) (b ∷ id) (c ∷ reason) saved synced = refl

  decode_finished-marshal :
      (fin : Finished)
      → IsPlain j (finished fin)
      → decode_finished j (j.marshal (finished_body fin)) ≡ ok fin
  decode_finished-marshal fin h =
      let o = finished_body fin in
      let k =
        finished_body-is_struct fin.answer fin.memory_id fin.finish_reason fin.memory_saved
          fin.markdown_synced in
      rw
        (
          text_in-marshal o (codes "answer") k refl h,
          text_in-marshal o (codes "memory_id") k refl h,
          flag_in-marshal o (codes "memory_saved") k refl h,
          flag_in-marshal o (codes "markdown_synced") k refl h,
          text_in-marshal o (codes "finish_reason") k refl h,
        )
        (gather-finished_body fin.answer fin.memory_id fin.finish_reason fin.memory_saved
          fin.markdown_synced)

  pub decode_event-marshal :
      (e : Frame)
      → IsPlain j e
      → decode_event j quote (event_name e) (j.marshal (body e)) ≡ ok (event_of e)
  unfolding decode_event member_of bytes_eq is_struct
  decode_event-marshal (heartbeat ts) h = refl
  decode_event-marshal (text_delta t) h =
      rw (text_in-marshal (body (text_delta t)) (codes "text") refl refl h) refl
  decode_event-marshal (warning t) h =
      rw (text_in-marshal (body (warning t)) (codes "message") refl refl h) refl
  decode_event-marshal (stream_error c m) h =
      rw
        (
          text_in-marshal (body (stream_error c m)) (codes "code") refl refl h,
          text_in-marshal (body (stream_error c m)) (codes "message") refl refl h,
        )
        refl
  decode_event-marshal (finished fin) h = rw (decode_finished-marshal fin h) refl
