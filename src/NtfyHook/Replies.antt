-- ===== src/NtfyHook/Replies.antt =====
-- The replies that scripts/codex_ntfy_hook.py waits for: those of the queue and those of the topic.
use rfc_codex_gentoo_stage.Prelude.{
  ℤ, ltb_ℤ, String, Bool, true, false, ◌&&◌, List, [], ◌∷◌, ◌++◌, Option, none, some, ◌==◌,
  if◌then◌else◌,
}
use rfc_codex_gentoo_stage.Text.{strip, lines_of, is_empty}
use rfc_codex_gentoo_stage.Value.{
  Value, str, int, dict, Fields, get, get_or, as_str, to_int, is_truthy, text_by,
}
use rfc_codex_gentoo_stage.Ntfy.Queue.{
  Queue, File, Search, found, missing, crashed, find_reply, mark_processed,
}
use rfc_codex_gentoo_stage.NtfyHook.Policy.{PolicyFile, Mode, mode_for_kind}

-- What the generator `poll_replies` gives next: a message, or an exception.
pub data Yield : Type 0 where
  yields : String → Yield
  raises : Yield

-- the newest time, and the identifiers of messages that were given
pub record Seen : Type 0 where
  pub newest : ℤ
  pub ids : List Value

abbrev pub same_value : Value → Value → Bool
same_value (str a) (str b) = a == b
same_value v w = false

abbrev pub is_known : Value → List Value → Bool
is_known v [] = false
is_known v (w ∷ ws) = if same_value v w then true else is_known v ws

abbrev maximum : ℤ → ℤ → ℤ
maximum a b = if ltb_ℤ a b then b else a

abbrev pub is_message : Fields → Bool
is_message event = elim (as_str (get event "event")) [ none ↦ false | some s ↦ s == "message" ]

-- `json.loads`, where `none` is a `JSONDecodeError`, and `str` of a value that is no text
module _ (loads : String → Option Value) (str_of : Value → String) where
  abbrev message_of : Fields → List Yield
  message_of event =
      let message = strip (text_by str_of (get_or event "message" (str ""))) in
      if is_empty message then [] else yields message ∷ []

  -- a message event, given once for its identifier; an identifier that is no text is taken for a new one
  unfoldable pub new_message : Fields → Seen → List Yield × Seen
  unfolding is_truthy get strip text_by get_or
  new_message event seen =
      let id = get event "id" in
      if is_truthy id && is_known id seen.ids
      then ([], seen)
      else (message_of event, (if is_truthy id then record seen { ids = id ∷ seen.ids } else seen))

  abbrev with_time : ℤ → Fields → Option ℤ → Seen → List Yield × Seen
  with_time since event none seen = (raises ∷ [], seen)
  with_time since event (some time) seen =
      let later = record seen { newest = maximum seen.newest time } in
      if is_message event then new_message event later else ([], later)

  -- what one line gives; a line that is no JSON is passed over
  unfoldable pub read_line : ℤ → Option Value → Seen → List Yield × Seen
  unfolding new_message to_int get_or
  read_line since none seen = ([], seen)
  read_line since (some (dict event)) seen =
      with_time since event (to_int (get_or event "time" (int since))) seen
  read_line since (some v) seen = (raises ∷ [], seen)

  unfoldable pub read_lines : ℤ → List String → Seen → List Yield × Seen
  unfolding read_line strip
  read_lines since [] seen = ([], seen)
  read_lines since (line ∷ rest) seen =
      if is_empty (strip line)
      then read_lines since rest seen
      else let (here, next) = read_line since (loads (strip line)) seen in
        let (later, last) = read_lines since rest next in (here ++ later, last)

  -- The polls that are made before the time is over: each gets the time of the newest event, and gives the body of the
  -- reply, or none for a `URLError`. Nothing is read behind an exception.
  unfoldable pub poll_topic : List (ℤ → Option String) → Seen → List Yield
  unfolding read_lines lines_of
  poll_topic [] seen = []
  poll_topic (poll ∷ polls) seen = elim (poll seen.newest) [
    | none ↦ poll_topic polls seen
    | some raw ↦
        let (here, next) = read_lines seen.newest (lines_of raw) seen in
        here ++ poll_topic polls next
  ]

abbrev pub filled : List String → List Yield
filled [] = []
filled (line ∷ rest) =
    let others = filled rest in
    if is_empty (strip line) then others else yields (strip line) ∷ others

-- What a look into the queue gives: a reply, with the mode of its kind; nothing; or an exception.
pub data Queued : Type 0 where
  queued : Fields → Mode → Queued
  nothing : Queued
  failed : Queued

abbrev pub with_policy : File → Fields → Queue → Option Mode → Queued × Queue
with_policy file payload q none = (failed, q)
with_policy file payload q (some mode) = (queued payload mode, mark_processed file q)

module _ (str_of : Value → String) (file : PolicyFile) where
  -- A reply that is found is moved once its mode is known.
  unfoldable pub take_reply : String → Search → Queue → Queued × Queue
  unfolding mode_for_kind mark_processed text_by get_or
  take_reply expected_kind missing q = (nothing, q)
  take_reply expected_kind crashed q = (failed, q)
  take_reply expected_kind (found source payload) q =
      with_policy source payload q
        (mode_for_kind file (text_by str_of (get_or payload "kind" (str expected_kind))))

  abbrev pub or_later : Queued × Queue → (Queue → Queued × Queue) → Queued × Queue
  or_later (nothing, q) later = later q
  or_later (queued payload mode, q) later = (queued payload mode, q)
  or_later (failed, q) later = (failed, q)

  -- The looks that are made before the time is over, each after what the listener did to the queue in between.
  unfoldable pub poll_queue_reply : String → String → List (Queue → Queue) → Queue → Queued × Queue
  unfolding find_reply take_reply
  poll_queue_reply request_id expected_kind [] q = (nothing, q)
  poll_queue_reply request_id expected_kind (change ∷ changes) q =
      or_later
        (take_reply expected_kind (find_reply request_id expected_kind (change q)) (change q))
        (poll_queue_reply request_id expected_kind changes)
