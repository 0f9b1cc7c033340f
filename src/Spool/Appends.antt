-- ===== src/Spool/Appends.antt =====
-- The log of a session in scripts/forge_memory_spool.py as the sequence of its events, which
-- `append_event` adds to and `read_jsonl_events` gives back.
use rfc_codex_gentoo_stage.Prelude.{
  suc, String, true, false, not, List, [], ◌∷◌, ◌++◌, Option, none, some, ◌≡◌, ◌≢◌, refl, sym, ap,
  subst, ◌∙◌, length, length-append, arith, eq_iff, eq_refl,
}
use rfc_codex_gentoo_stage.Text.{all_chars, concat}
use rfc_codex_gentoo_stage.Value.{dict, Fields, as_dict, get, null}
use rfc_codex_gentoo_stage.Spool.Stored.{sort_keys, sort_fields, get_or-sort_fields}
use rfc_codex_gentoo_stage.Dns.Records.{put, find}
use rfc_codex_gentoo_stage.DnsPlan.Dicts
use rfc_codex_gentoo_stage.Spool.Check.{is_safe_id, require_safe_id, reject_secret_keys}
use rfc_codex_gentoo_stage.Spool.Files.{
  World, State, ok, ◌>>=◌, same_path, lines, is_blank, without_blank, count_jsonl_lines, events_of,
  read_jsonl_events, read_file, write_file, event_file_for, parse_extra_json,
}
use rfc_codex_gentoo_stage.Spool.Events.{
  AppendArguments, append_event, append_to, event_fields, with_event, or_empty,
}
use rfc_codex_gentoo_stage.Spool.Lines.{ends_line, is_break, lines-line_added, ends_line-line_added}

module _ (world : World) where
  -- The lines are JSON texts of the events, in order.
  abbrev pub AreEvents : List String → List Fields → Type 0
  AreEvents [] [] = Unit
  AreEvents [] (e ∷ es) = ⊥
  AreEvents (x ∷ xs) [] = ⊥
  AreEvents (x ∷ xs) (e ∷ es) = (world.loads x ≡ some (dict e)) × AreEvents xs es

  -- The log at the path consists of the events: each on a line of its own, with a line break at its end.
  abbrev LogText : Option String → List Fields → Type 0
  LogText none es = es ≡ []
  LogText (some text) es =
      (ends_line is_break text ≡ true) × AreEvents (without_blank (lines text)) es

  abbrev pub HoldsLog : State → String → List Fields → Type 0
  HoldsLog s path es = LogText (find same_path path s.files) es

  -- The JSON text of the event is one line that is not blank, and reads as the event with the keys of each object in their
  -- order, as `json.dumps` writes them for `sort_keys`.
  abbrev pub IsOneLine : Fields → Type 0
  IsOneLine event =
      (world.loads (world.canonical (dict event)) ≡ some (sort_keys (dict event)))
      × (all_chars (λ n. not (is_break n)) (world.canonical (dict event)) ≡ true)
      × (is_blank (world.canonical (dict event)) ≡ false)

  AreEvents-append :
      (xs : List String) (es : List Fields) (x : String) (e : Fields)
      → AreEvents xs es
      → world.loads x ≡ some (dict e)
      → AreEvents (xs ++ x ∷ []) (es ++ e ∷ [])
  AreEvents-append [] [] x e h g = (g, tt)
  AreEvents-append [] (f ∷ es) x e h g = absurd h
  AreEvents-append (y ∷ xs) [] x e h g = absurd h
  AreEvents-append (y ∷ xs) (f ∷ es) x e h g = (h.0, AreEvents-append xs es x e h.1 g)

  AreEvents-length : (xs : List String) (es : List Fields) → AreEvents xs es → length xs ≡ length es
  AreEvents-length [] [] h = refl
  AreEvents-length [] (f ∷ es) h = absurd h
  AreEvents-length (y ∷ xs) [] h = absurd h
  AreEvents-length (y ∷ xs) (f ∷ es) h = ap suc (AreEvents-length xs es h.1)

  events_of-AreEvents :
      (path : String) (xs : List String) (es : List Fields) (s : State)
      → AreEvents xs es
      → events_of world path xs s ≡ (ok es, s)
  unfolding events_of ◌>>=◌ as_dict
  events_of-AreEvents path [] [] s h = refl
  events_of-AreEvents path [] (f ∷ es) s h = absurd h
  events_of-AreEvents path (x ∷ xs) [] s h = absurd h
  events_of-AreEvents path (x ∷ xs) (e ∷ es) s h =
      rw (events_of, h.0, events_of-AreEvents path xs es s h.1) refl

  read_text :
      (path : String) (es : List Fields) (s : State) (o : Option String)
      → find same_path path s.files ≡ o
      → LogText o es
      → read_jsonl_events world path s ≡ (ok es, s)
  unfolding read_jsonl_events read_file ◌>>=◌
  read_text path es s none e g = rw (read_jsonl_events, e, g) refl
  read_text path es s (some text) e g =
      rw (read_jsonl_events, e) (events_of-AreEvents path (without_blank (lines text)) es s g.1)

  -- what reading a log of events gives
  pub read_jsonl_events-HoldsLog :
      (path : String) (es : List Fields) (s : State)
      → HoldsLog s path es
      → read_jsonl_events world path s ≡ (ok es, s)
  read_jsonl_events-HoldsLog path es s h = read_text path es s (find same_path path s.files) refl h

  old_text : (o : Option String) (es : List Fields) → LogText o es → LogText (some (or_empty o)) es
  unfolding lines without_blank is_blank ends_line
  old_text none es h = (refl, subst (AreEvents []) (sym h) tt)
  old_text (some text) es h = h

  new_text :
      (o : Option String) (es : List Fields) (event : Fields)
      → LogText o es
      → IsOneLine event
      → LogText (some (with_event world o event)) (es ++ sort_fields event ∷ [])
  unfolding with_event concat sort_keys
  new_text o es event h (reads, whole, filled) =
      let old = old_text o es h in
      (
        ends_line-line_added (or_empty o) (world.canonical (dict event)),
        subst (λ xs. AreEvents xs (es ++ sort_fields event ∷ []))
            (sym (lines-line_added (or_empty o) (world.canonical (dict event)) old.0 whole filled))
            (AreEvents-append (without_blank (lines (or_empty o))) es (world.canonical (dict event))
              (sort_fields event) old.1 reads),
      )

  abbrev new_state : State → String → Fields → State
  new_state s path event = record s {
    files = put same_path path (with_event world (find same_path path s.files) event) s.files;
  }

  same_sound : (p q : String) → same_path p q ≡ true → p ≡ q
  same_sound p q h = (eq_iff p q).0 h

  append_to-result :
      (path agent_id session_id : String) (event : Fields) (s : State)
      → reject_secret_keys [] (dict event) ≡ none
      → append_to world path agent_id session_id event s ≡ (
        ok (record {
          event_file = path;
          event_count =
              count_jsonl_lines (some (with_event world (find same_path path s.files) event));
          session_id = session_id;
          agent_id = agent_id;
        }),
        new_state s path event,
      )
  unfolding append_to read_file write_file ◌>>=◌
  append_to-result path agent_id session_id event s h =
      rw
        (
          append_to,
          h,
          Dicts.find-put_same same_path same_sound path
              (with_event world (find same_path path s.files) event) s.files (eq_refl path),
        )
        refl

  append_event-result :
      (args : AppendArguments) (s : State) (extra : Fields)
      → is_safe_id args.agent_id ≡ true
      → is_safe_id args.session_id ≡ true
      → parse_extra_json world args.extra_json s ≡ (ok extra, s)
      → append_event world args s
        ≡ append_to world
            (event_file_for args.spool_root args.agent_id args.session_id)
            args.agent_id
            args.session_id
            (event_fields world args args.agent_id args.session_id extra)
            s
  unfolding append_event require_safe_id ◌>>=◌
  append_event-result args s extra h g e = rw (append_event, h, g, e) refl

  count_appended :
      (text : String) (es : List Fields) (event : Fields)
      → LogText (some text) (es ++ sort_fields event ∷ [])
      → count_jsonl_lines (some text) ≡ suc (length es)
  unfolding count_jsonl_lines
  count_appended text es event h =
      AreEvents-length _ _ h.1 ∙ length-append es (sort_fields event ∷ []) ∙ omega arith

  log_after :
      (s : State) (path : String) (es : List Fields) (event : Fields)
      → HoldsLog s path es
      → IsOneLine event
      → HoldsLog (new_state s path event) path (es ++ sort_fields event ∷ [])
  log_after s path es event h line =
      subst (λ o. LogText o (es ++ sort_fields event ∷ []))
        (sym (
          Dicts.find-put_same same_path same_sound path
            (with_event world (find same_path path s.files) event) s.files (eq_refl path)))
        (new_text (find same_path path s.files) es event h line)

  -- If the two names are safe, the extra fields are read, no key of the event looks like a secret's, and the JSON text of
  -- the event is one line that reads as the event with sorted keys, then appending the event to a log that holds a sequence
  -- of events succeeds, reports one event more, leaves a log that holds the sequence with the event with sorted keys at its
  -- end and reads as that, and leaves every other file as it was; and the event with sorted keys has the value of the event
  -- for each key, with sorted keys within.
  pub append_event-Appends :
      (args : AppendArguments) (s : State) (es : List Fields) (extra : Fields) (other : String)
      → is_safe_id args.agent_id ≡ true
      → is_safe_id args.session_id ≡ true
      → parse_extra_json world args.extra_json s ≡ (ok extra, s)
      → reject_secret_keys [] (dict (event_fields world args args.agent_id args.session_id extra))
        ≡ none
      → IsOneLine (event_fields world args args.agent_id args.session_id extra)
      → HoldsLog s (event_file_for args.spool_root args.agent_id args.session_id) es
      → other ≢ event_file_for args.spool_root args.agent_id args.session_id
      → (t : State) × (append_event world args s ≡ (
        ok (record {
          event_file = event_file_for args.spool_root args.agent_id args.session_id;
          event_count = suc (length es);
          session_id = args.session_id;
          agent_id = args.agent_id;
        }),
        t,
      ))
        × HoldsLog t
            (event_file_for args.spool_root args.agent_id args.session_id)
            (es ++ sort_fields (event_fields world args args.agent_id args.session_id extra) ∷ [])
        × (read_jsonl_events world (event_file_for args.spool_root args.agent_id args.session_id) t
            ≡ (
              ok (
                  es
                  ++ sort_fields (event_fields world args args.agent_id args.session_id extra)
                    ∷ []),
              t,
            ))
        × (find same_path other t.files ≡ find same_path other s.files)
        × ((name : String)
            → get (sort_fields (event_fields world args args.agent_id args.session_id extra)) name
              ≡ sort_keys (get (event_fields world args args.agent_id args.session_id extra) name))
  unfolding get sort_keys
  append_event-Appends args s es extra other safe_agent safe_session parsed accepted line log
        apart =
      let path = event_file_for args.spool_root args.agent_id args.session_id in
      let event = event_fields world args args.agent_id args.session_id extra in
      let after = log_after s path es event log line in
      let text = with_event world (find same_path path s.files) event in
      (
        new_state s path event,
        append_event-result args s extra safe_agent safe_session parsed
            ∙ append_to-result path args.agent_id args.session_id event s accepted
            ∙ ap
                (λ n. (
                  ok (record {
                    event_file = path;
                    event_count = n;
                    session_id = args.session_id;
                    agent_id = args.agent_id;
                  }),
                  new_state s path event,
                ))
                (count_appended text es event
                  (new_text (find same_path path s.files) es event log line)),
        after,
        read_jsonl_events-HoldsLog path (es ++ sort_fields event ∷ []) (new_state s path event)
            after,
        Dicts.find-put_other same_path same_sound other path text s.files apart,
        λ name. get_or-sort_fields event name null,
      )
