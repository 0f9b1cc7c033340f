-- ===== src/Ntfy/Tests.antt =====
-- Replies, a batch of messages and a queue on which the scripts of the ntfy queue run.
use rfc_codex_gentoo_stage.Ntfy.Runs.{
  Operation, enqueue, consume, run_operations, no_files, TakesLeast, consume_reply-Consumes,
}
use rfc_codex_gentoo_stage.Prelude.{
  pos, length, ◌≤◌, String, Option, none, some, List, [], ◌∷◌, ◌≡◌, refl, false,
}
use rfc_codex_gentoo_stage.Value.{int, str, dict, Fields, field, end}
use rfc_codex_gentoo_stage.Ntfy.Message.{
  allow, permission_reply, question_reply, status_request, unrecognized_reply, content_of,
  message_text, Reply,
}
use rfc_codex_gentoo_stage.Ntfy.Queue.{File, Queue, consume_reply}
use rfc_codex_gentoo_stage.Ntfy.Listener.{World, State, start, process_messages}
use rfc_codex_gentoo_stage.Ntfy.Laws.{Listens, process_messages-Listens}
use rfc_codex_gentoo_stage.Ntfy.Moves.{names}

allowed : content_of "Allow  req-7" ≡ permission_reply "req-7" allow
unfolding content_of
allowed = refl

answered : content_of "req:1: yes : no" ≡ question_reply "req:1" "yes : no"
unfolding content_of
answered = refl

asked : content_of "STATUS" ≡ status_request ""
unfolding content_of
asked = refl

unknown : content_of "allow two words" ≡ unrecognized_reply
unfolding content_of
unknown = refl

from_syslog : message_text "<13> app message=\" deny x \" end" ≡ "deny x"
unfolding message_text
from_syslog = refl

abbrev small_world : World
small_world = record {
  str_of = λ v. "?";
  synthetic_message_id = λ n. "drawn";
  now = pos 9;
  reply_topic = "topic";
  padded = λ n. "0000000001";
  temp_name = ".tmp.x.json";
}

abbrev message : String → String → Fields
message id text = field "id" (str id) (field "time" (int (pos 1)) (field "message" (str text) end))

abbrev batch : List Fields
batch =
    message "a" "allow r1"
    ∷ message "a" "allow r1"
    ∷ message "old" "deny r2"
    ∷ message "b" "r3: yes"
    ∷ []

abbrev empty_queue : Queue
empty_queue = record { pending = []; processed = [] }

abbrev state_or_start : Option State → State
state_or_start none = start [] empty_queue
state_or_start (some s) = s

abbrev after_batch : State
after_batch =
    state_or_start (process_messages small_world false batch (start ("old" ∷ []) empty_queue))

batch_returns :
    process_messages small_world false batch (start ("old" ∷ []) empty_queue) ≡ some after_batch
unfolding process_messages start
batch_returns = refl

two_enqueued : names after_batch.queue.pending ≡ "0000000001-a.json" ∷ "0000000001-b.json" ∷ []
unfolding process_messages start
two_enqueued = refl

process_messages-Listens_example :
    Listens (start ("old" ∷ []) empty_queue).lookup after_batch
    × (length after_batch.seen_ids ≤ 512)
process_messages-Listens_example =
    process_messages-Listens small_world false ("old" ∷ []) empty_queue batch after_batch
      batch_returns

abbrev reply_file : String → String → File
reply_file name id = record {
  name = name;
  content = some (dict (field "kind" (str "question_reply") (field "request_id" (str id) end)));
}

abbrev small_queue : Queue
small_queue = record {
  pending =
      record { name = "1.json"; content = none }
      ∷ reply_file "2.json" "r1"
      ∷ reply_file "3.json" "r1"
      ∷ [];
  processed = [];
}

second_left :
    names (consume_reply "r1" "question_reply" small_queue).1.pending ≡ "1.json" ∷ "3.json" ∷ []
unfolding consume_reply
second_left = refl

abbrev reply : String → Reply
reply id = record {
  content = question_reply "r1" "yes";
  message_id = id;
  timestamp = pos 1;
  topic = "topic";
  raw_message = "r1: yes";
}

abbrev operations : List Operation
operations =
    enqueue ".tmp.x.json" (reply "b")
    ∷ enqueue ".tmp.x.json" (reply "a")
    ∷ enqueue ".tmp.x.json" (reply "b")
    ∷ consume "r1" "question_reply"
    ∷ []

left_after :
    names (run_operations small_world.padded operations empty_queue).pending
    ≡ "0000000001-b.json" ∷ []
unfolding run_operations
left_after = refl

-- A slash in an identifier leaves the temporary file among the pending replies.
temporary_left :
    names
      (run_operations small_world.padded
        (enqueue ".tmp.x.json" (reply "a/b") ∷ [])
        empty_queue).pending
    ≡ ".tmp.x.json" ∷ []
unfolding run_operations
temporary_left = refl

consume_reply-Consumes_example :
    TakesLeast "r1" "question_reply"
      (run_operations small_world.padded operations no_files)
      (consume_reply "r1" "question_reply"
        (run_operations small_world.padded operations no_files)).0
      (consume_reply "r1" "question_reply"
        (run_operations small_world.padded operations no_files)).1
consume_reply-Consumes_example =
    consume_reply-Consumes small_world.padded operations "r1" "question_reply"
