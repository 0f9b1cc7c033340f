-- ===== src/Ntfy/Listener.antt =====
-- `process_messages` of scripts/codex_ntfy_reply_listener.py.
use rfc_codex_gentoo_stage.Prelude.{
  ℕ, zero, suc, ◌-◌, ℤ, String, Bool, true, false, Option, none, some, List, [], ◌∷◌, ◌++◌, length,
  ◌==◌, if◌then◌else◌,
}
use rfc_codex_gentoo_stage.Value.{Value, int, str, Fields, get, get_or, is_truthy, to_int}
use rfc_codex_gentoo_stage.Ntfy.Message.{Reply, normalize_reply_message}
use rfc_codex_gentoo_stage.Ntfy.Queue.{Queue, enqueue_reply}

-- What a run finds outside itself: `str` of a value that is no text, the identifiers that `uuid4`
-- draws in turn, the time, the topic of the environment, the padding of a timestamp, and the name of a temporary file.
pub record World : Type 0 where
  pub str_of : Value → String
  pub synthetic_message_id : ℕ → String
  pub now : ℤ
  pub reply_topic : String
  pub padded : ℤ → String
  pub temp_name : String

abbrev pub max_seen_ids : ℕ
max_seen_ids = 512

unfoldable pub drop : ℕ → List String → List String
drop zero ss = ss
drop (suc n) [] = []
drop (suc n) (s ∷ ss) = drop n ss

-- `deque.append` with `maxlen`: the oldest identifier falls out.
unfoldable pub push_seen : String → List String → List String
unfolding drop
push_seen id seen = drop (length (seen ++ (id ∷ [])) - max_seen_ids) (seen ++ (id ∷ []))

unfoldable pub is_seen : String → List String → Bool
is_seen id [] = false
is_seen id (s ∷ ss) = if s == id then true else is_seen id ss

-- `seen_ids` is the bounded queue and `lookup` the set; `drawn` counts the identifiers of `uuid4`,
-- and `enqueued` the replies written, in order.
pub record State : Type 0 where
  pub seen_ids : List String
  pub lookup : List String
  pub drawn : ℕ
  pub processed : ℕ
  pub enqueued : List Reply
  pub queue : Queue

module _ (world : World) (dry_run : Bool) where
  abbrev pub text : Value → String
  text (str s) = s
  text v = world.str_of v

  -- `str(event.get("id") or synthetic_message_id())`
  unfoldable pub id_of : Fields → State → String
  unfolding get is_truthy
  id_of event s =
      if is_truthy (get event "id")
      then text (get event "id")
      else world.synthetic_message_id s.drawn

  unfoldable pub reply_of : Fields → String → ℤ → Option Reply
  unfolding get_or normalize_reply_message
  reply_of event id time =
      normalize_reply_message (text (get_or event "message" (str ""))) id time
        (text (get_or event "topic" (str world.reply_topic)))

  -- the identifier that `uuid4` gave is gone
  unfoldable pub after_id : Fields → State → State
  unfolding get is_truthy
  after_id event s = record s {
    drawn = if is_truthy (get event "id") then s.drawn else suc s.drawn;
  }

  unfoldable pub note_seen : String → State → State
  unfolding push_seen
  note_seen id s = record s { seen_ids = push_seen id s.seen_ids; lookup = id ∷ s.lookup }

  abbrev pub enqueued_in : Reply → State → Bool × Queue → Option State
  enqueued_in reply s (false, queue) = none
  enqueued_in reply s (true, queue) = some (record s {
    processed = suc s.processed;
    enqueued = s.enqueued ++ (reply ∷ []);
    queue = queue;
  })

  -- `none` is the exception of a reply that cannot be enqueued
  unfoldable pub accept : Option Reply → State → Option State
  unfolding enqueue_reply
  accept none s = some s
  accept (some reply) s =
      if dry_run
      then some (record s { processed = suc s.processed })
      else enqueued_in reply s (enqueue_reply world.padded world.temp_name reply s.queue)

  unfoldable pub process_new : Fields → String → State → Option State
  unfolding reply_of note_seen accept to_int get_or
  process_new event id s = elim (to_int (get_or event "time" (int world.now))) [
    | none ↦ none
    | some time ↦ accept (reply_of event id time) (note_seen id s)
  ]

  -- `none` is an exception: a time that is no number, or a reply that cannot be enqueued
  unfoldable pub process_event : Fields → State → Option State
  unfolding id_of after_id process_new is_seen
  process_event event s =
      if is_seen (id_of event s) s.lookup
      then some (after_id event s)
      else process_new event (id_of event s) (after_id event s)

  unfoldable pub process_messages : List Fields → State → Option State
  unfolding process_event
  process_messages [] s = some s
  process_messages (event ∷ events) s = elim (process_event event s) [
    | none ↦ none
    | some t ↦ process_messages events t
  ]

-- `deque(seen_ids, maxlen=MAX_SEEN_IDS)` and `set(seen_ids)`
unfoldable pub start : List String → Queue → State
unfolding drop
start seen_ids queue = record {
  seen_ids = drop (length seen_ids - max_seen_ids) seen_ids;
  lookup = drop (length seen_ids - max_seen_ids) seen_ids;
  drawn = 0;
  processed = 0;
  enqueued = [];
  queue = queue;
}
