-- ===== src/Ntfy/Queue.antt =====
-- The queue directories of scripts/codex_ntfy_reply_queue.py: pending replies that are added, found
-- and moved to the processed ones. A directory is the list of its
-- files in the order of their names, which `sorted(pending.glob("*.json"))` gives; Ntfy/Runs.antt keeps that order.
use Prim.Native.String.{compare}
use Prim.Native.Nat.{Ordering}
use rfc_codex_gentoo_stage.Prelude.{
  ℤ, String, Bool, true, false, ◌&&◌, Option, none, some, List, [], ◌∷◌, ◌==◌, if◌then◌else◌,
}
use rfc_codex_gentoo_stage.Text.{concat, has_text}
use rfc_codex_gentoo_stage.Value.{Value, dict, Fields, get, as_str, is_truthy}
use rfc_codex_gentoo_stage.Ntfy.Message.{Reply, payload_of}

-- A file with the JSON value that it holds; `none` is a file that cannot be read or is no JSON.
pub record File : Type 0 where
  pub name : String
  pub content : Option Value

pub record Queue : Type 0 where
  pub pending : List File
  pub processed : List File

-- `temp_path.replace(destination)`: a file of the same name is replaced.
unfoldable pub place_file : File → List File → List File
place_file file [] = file ∷ []
place_file file (other ∷ others) =
    let rest = place_file file others in
    elim (compare file.name other.name) [
      | Ordering.lt ↦ file ∷ other ∷ others
      | Ordering.eq ↦ file ∷ others
      | Ordering.gt ↦ other ∷ rest
    ]

unfoldable pub remove_file : String → List File → List File
remove_file name [] = []
remove_file name (file ∷ files) =
    let rest = remove_file name files in if file.name == name then rest else file ∷ rest

-- `f"{timestamp:010d}-{message_id}.json"`, for a text of the padded timestamp
unfoldable pub file_name : (ℤ → String) → Reply → String
unfolding concat
file_name padded reply = concat (padded reply.timestamp ∷ "-" ∷ reply.message_id ∷ ".json" ∷ [])

abbrev pub add_pending : String → Reply → Queue → Queue
add_pending name reply q = record q {
  pending = place_file (record { name = name; content = some (dict (payload_of reply)) }) q.pending;
}

-- Whether it returns, and the queue that it leaves. A slash in the identifier names a directory that does not exist: the
-- replacement raises, and the temporary file stays behind.
unfoldable pub enqueue_reply : (ℤ → String) → String → Reply → Queue → Bool × Queue
unfolding file_name payload_of place_file has_text
enqueue_reply padded temp_name reply q =
    if has_text "/" reply.message_id
    then (false, add_pending temp_name reply q)
    else (true, add_pending (file_name padded reply) reply q)

-- `payload.get(key) == wanted`
unfoldable pub has_value : Fields → String → String → Bool
unfolding get as_str
has_value fields key wanted = elim (as_str (get fields key)) [ none ↦ false | some s ↦ s == wanted ]

unfoldable pub is_wanted_reply : String → String → Fields → Bool
unfolding has_value
is_wanted_reply request_id kind fields =
    has_value fields "kind" kind && has_value fields "request_id" request_id

-- what the search gives; `crashed` is the exception for a value that is no mapping
pub data Search : Type 0 where
  found : File → Fields → Search
  missing crashed : Search

-- what one file is to the search
pub data Look : Type 0 where
  match : Fields → Look
  skip stop : Look

unfoldable pub look_at : String → String → Option Value → Look
unfolding is_wanted_reply is_truthy
look_at request_id kind none = skip
look_at request_id kind (some (dict fields)) =
    if is_truthy (dict fields) && is_wanted_reply request_id kind fields then match fields else skip
look_at request_id kind (some v) = if is_truthy v then stop else skip

unfoldable pub find_in : String → String → List File → Search
unfolding look_at
find_in request_id kind [] = missing
find_in request_id kind (file ∷ files) =
    let rest = find_in request_id kind files in
    elim (look_at request_id kind file.content) [
      | match fields ↦ found file fields
      | skip ↦ rest
      | stop ↦ crashed
    ]

unfoldable pub find_reply : String → String → Queue → Search
unfolding find_in
find_reply request_id kind q = find_in request_id kind q.pending

unfoldable pub mark_processed : File → Queue → Queue
unfolding remove_file place_file
mark_processed file q = record {
  pending = remove_file file.name q.pending;
  processed = place_file file q.processed;
}

abbrev pub after_search : Search → Queue → Search × Queue
after_search (found file fields) q = (found file fields, mark_processed file q)
after_search missing q = (missing, q)
after_search crashed q = (crashed, q)

unfoldable pub consume_reply : String → String → Queue → Search × Queue
unfolding find_reply mark_processed
consume_reply request_id kind q = after_search (find_reply request_id kind q) q
