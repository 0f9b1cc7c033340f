-- ===== src/Ntfy/Runs.antt =====
-- Runs of the queue of scripts/codex_ntfy_reply_queue.py: any sequence of its two operations. Enqueuing has the name of
-- its temporary file.
use rfc_codex_gentoo_stage.Text.{has_text}
use Prim.Native.String.{compare}
use Prim.Native.Nat.{Ordering}
use rfc_codex_gentoo_stage.Prelude.{
  ℤ, String, true, false, List, [], ◌∷◌, ◌++◌, ◌≡◌, ◌≢◌, refl, sym, subst, All, All-map, Unique,
  ◌==◌, eq_iff, if◌then◌else◌, Bool,
}
use rfc_codex_gentoo_stage.Ntfy.Message.{Reply}
use rfc_codex_gentoo_stage.Ntfy.Queue.{
  File, Queue, place_file, remove_file, enqueue_reply, Search, found, missing, crashed, find_reply,
  mark_processed, after_search, consume_reply, add_pending, file_name,
}
use rfc_codex_gentoo_stage.Ntfy.Moves.{names, IsPassed, Moves, Consumes, consume_reply-Moves}
use rfc_codex_gentoo_stage.Ntfy.Order.{compare_trans, compare_irrefl, compare_flip}

abbrev pub Before : File → File → Type 0
Before f g = compare f.name g.name ≡ Ordering.lt

-- The names of the files ascend.
abbrev Ascends : List File → Type 0
Ascends [] = Unit
Ascends (f ∷ fs) = All (Before f) fs × Ascends fs

compare-eq : (s t : String) → compare s t ≡ Ordering.eq → s ≡ t
compare-eq s t e = (eq_iff s t).0 (rw e)

place_file-All :
    (P : File → Type 0) (f : File) (fs : List File) → P f → All P fs → All P (place_file f fs)
unfolding place_file
place_file-All P f [] p h = (p, tt)
place_file-All P f (g ∷ gs) p h =
    elim (compare f.name g.name)
      as (λ o. All P (elim o [
        | Ordering.lt ↦ f ∷ g ∷ gs
        | Ordering.eq ↦ f ∷ gs
        | Ordering.gt ↦ g ∷ place_file f gs
      ])) [
        | Ordering.lt ↦ (p, h)
        | Ordering.eq ↦ (p, h.1)
        | Ordering.gt ↦ (h.0, place_file-All P f gs p h.1)
      ]

placed :
    (f g : File) (gs : List File) (o : Ordering)
    → compare f.name g.name ≡ o
    → Ascends (g ∷ gs)
    → Ascends (place_file f gs)
    → Ascends (elim o [
      | Ordering.lt ↦ f ∷ g ∷ gs
      | Ordering.eq ↦ f ∷ gs
      | Ordering.gt ↦ g ∷ place_file f gs
    ])
placed f g gs Ordering.lt e h rest =
    ((e, All-map (Before g) (Before f) gs (λ k l. compare_trans f.name g.name k.name e l) h.0), h)
placed f g gs Ordering.eq e h rest = (
  All-map (Before g) (Before f) gs
      (λ k l. subst (λ n. compare n k.name ≡ Ordering.lt) (sym (compare-eq f.name g.name e)) l) h.0,
  h.1,
)
placed f g gs Ordering.gt e h rest =
    (place_file-All (Before g) f gs (compare_flip f.name g.name e) h.0, rest)

place_file-Ascends : (f : File) (fs : List File) → Ascends fs → Ascends (place_file f fs)
unfolding place_file
place_file-Ascends f [] h = (tt, tt)
place_file-Ascends f (g ∷ gs) h =
    placed f g gs (compare f.name g.name) refl h (place_file-Ascends f gs h.1)

remove_file-All :
    (P : File → Type 0) (name : String) (fs : List File) → All P fs → All P (remove_file name fs)
unfolding remove_file
remove_file-All P name [] h = tt
remove_file-All P name (f ∷ fs) h =
    elim (f.name == name)
      as (λ b. All P (if b then remove_file name fs else f ∷ remove_file name fs)) [
        | true ↦ remove_file-All P name fs h.1
        | false ↦ (h.0, remove_file-All P name fs h.1)
      ]

remove_file-Ascends : (name : String) (fs : List File) → Ascends fs → Ascends (remove_file name fs)
unfolding remove_file
remove_file-Ascends name [] h = tt
remove_file-Ascends name (f ∷ fs) h =
    elim (f.name == name)
      as (λ b. Ascends (if b then remove_file name fs else f ∷ remove_file name fs)) [
        | true ↦ remove_file-Ascends name fs h.1
        | false ↦ (remove_file-All (Before f) name fs h.0, remove_file-Ascends name fs h.1)
      ]

apart_names : (f : File) (fs : List File) → All (Before f) fs → All (λ n. f.name ≢ n) (names fs)
apart_names f [] h = tt
apart_names f (g ∷ gs) h = (
  λ e. compare_irrefl f.name (subst (λ n. compare f.name n ≡ Ordering.lt) (sym e) h.0),
  apart_names f gs h.1,
)

Ascends-Unique : (fs : List File) → Ascends fs → Unique (names fs)
Ascends-Unique [] h = tt
Ascends-Unique (f ∷ fs) h = (apart_names f fs h.0, Ascends-Unique fs h.1)

pub data Operation : Type 0 where
  enqueue : String → Reply → Operation
  consume : String → String → Operation

abbrev perform : (ℤ → String) → Operation → Queue → Queue
perform padded (enqueue temp_name reply) q = (enqueue_reply padded temp_name reply q).1
perform padded (consume request_id kind) q = (consume_reply request_id kind q).1

-- The queue after the operations, one after the other; an exception ends the operation in which it is raised.
unfoldable pub run_operations : (ℤ → String) → List Operation → Queue → Queue
unfolding enqueue_reply consume_reply
run_operations padded [] q = q
run_operations padded (operation ∷ operations) q =
    run_operations padded operations (perform padded operation q)

record IsOrdered (q : Queue) : Type 0 where
  pub pending : Ascends q.pending
  pub processed : Ascends q.processed

consume-IsOrdered :
    (search : Search) (q : Queue) → IsOrdered q → IsOrdered (after_search search q).1
unfolding mark_processed
consume-IsOrdered (found file payload) q h = record {
  pending = remove_file-Ascends file.name q.pending h.pending;
  processed = place_file-Ascends file q.processed h.processed;
}
consume-IsOrdered missing q h = h
consume-IsOrdered crashed q h = h

add_pending-IsOrdered :
    (name : String) (reply : Reply) (q : Queue) → IsOrdered q → IsOrdered (add_pending name reply q)
add_pending-IsOrdered name reply q h = record {
  pending = place_file-Ascends _ q.pending h.pending;
  processed = h.processed;
}

if-IsOrdered :
    (test : Bool) (p q : Bool × Queue)
    → IsOrdered p.1
    → IsOrdered q.1
    → IsOrdered (if test then p else q).1
if-IsOrdered true p q h k = h
if-IsOrdered false p q h k = k

perform-IsOrdered :
    (padded : ℤ → String) (operation : Operation) (q : Queue)
    → IsOrdered q
    → IsOrdered (perform padded operation q)
unfolding enqueue_reply consume_reply
perform-IsOrdered padded (enqueue temp_name reply) q h =
    if-IsOrdered (has_text "/" reply.message_id) _ _ (add_pending-IsOrdered temp_name reply q h)
      (add_pending-IsOrdered (file_name padded reply) reply q h)
perform-IsOrdered padded (consume request_id kind) q h =
    consume-IsOrdered (find_reply request_id kind q) q h

run_operations-IsOrdered :
    (padded : ℤ → String) (operations : List Operation) (q : Queue)
    → IsOrdered q
    → IsOrdered (run_operations padded operations q)
unfolding run_operations
run_operations-IsOrdered padded [] q h = h
run_operations-IsOrdered padded (operation ∷ operations) q h =
    run_operations-IsOrdered padded operations (perform padded operation q)
      (perform-IsOrdered padded operation q h)

abbrev pub no_files : Queue
no_files = record { pending = []; processed = [] }

right_after :
    (file : File) (earlier later : List File)
    → Ascends (earlier ++ (file ∷ later))
    → All (Before file) later
right_after file [] later h = h.0
right_after file (f ∷ earlier) later h = right_after file earlier later h.1

-- What a call promises with its result and the queue that it leaves, in a queue whose names ascend: a consumed reply is
-- a file of the least name among those that answer.
abbrev pub TakesLeast : String → String → Queue → Search → Queue → Type 0
TakesLeast request_id kind q (found file payload) next =
    (moves : Moves request_id kind q next file payload) × All (Before file) moves.later
TakesLeast request_id kind q missing next = (next ≡ q) × All (IsPassed request_id kind) q.pending
TakesLeast request_id kind q crashed next = next ≡ q

takes_least :
    (request_id kind : String) (q next : Queue) (search : Search)
    → Ascends q.pending
    → Consumes request_id kind q search next
    → TakesLeast request_id kind q search next
takes_least request_id kind q next (found file payload) h moves =
    (moves, right_after file moves.earlier moves.later (subst Ascends moves.was_pending h))
takes_least request_id kind q next missing h consumes = consumes
takes_least request_id kind q next crashed h consumes = consumes

-- Whatever was enqueued and consumed before, from two empty directories on, a call that consumes a reply takes the pending
-- file of the least name that answers: those that stand before it do not answer, and those behind it have greater names.
-- The file moves from the pending replies to the processed ones, and the other pending replies stay; if none is found, no
-- pending reply answers and the queue stays; an exception leaves it as well.
pub consume_reply-Consumes :
    (padded : ℤ → String) (operations : List Operation) (request_id kind : String)
    → TakesLeast request_id kind
        (run_operations padded operations no_files)
        (consume_reply request_id kind (run_operations padded operations no_files)).0
        (consume_reply request_id kind (run_operations padded operations no_files)).1
consume_reply-Consumes padded operations request_id kind =
    let h =
      run_operations-IsOrdered padded operations no_files
        (record { pending = tt; processed = tt }) in
    let q = run_operations padded operations no_files in
    takes_least request_id kind q _ _ h.pending
      (consume_reply-Moves request_id kind q (Ascends-Unique q.pending h.pending))
