-- ===== src/Ntfy/Laws.antt =====
-- What the listener of scripts/codex_ntfy_reply_listener.py enqueues, and how the queue of
-- scripts/codex_ntfy_reply_queue.py moves replies.
use rfc_codex_gentoo_stage.Prelude.{
  ℕ, zero, suc, ◌-◌, ◌≤◌, ℤ, String, Bool, true, false, Option, none, some, List, [], ◌∷◌, ◌++◌,
  length, length-append, append_assoc, append-nil, map, ◌+◌, ap, Bool-cases, inl, inr, ◌≡◌, ◌≢◌,
  refl, sym, ◌∙◌, subst, false≢true, All, All-append, All-map, Unique, ◌==◌, eq_refl, arith,
  if◌then◌else◌,
}
use rfc_codex_gentoo_stage.Value.{int, str, Fields, get_or, to_int}
use rfc_codex_gentoo_stage.Ntfy.Message.{Reply, normalize_reply_message}
use rfc_codex_gentoo_stage.Ntfy.Queue.{Queue}
use rfc_codex_gentoo_stage.Ntfy.Listener.{
  World, State, drop, push_seen, is_seen, id_of, reply_of, after_id, note_seen, accept, enqueued_in,
  process_new, process_event, process_messages, start, text,
}

length-drop : (n : ℕ) (ss : List String) → length (drop n ss) ≡ length ss - n
unfolding drop
length-drop zero ss = omega arith
length-drop (suc n) [] = omega arith
length-drop (suc n) (s ∷ ss) = omega (arith, length-drop n ss)

-- the last 512 identifiers
abbrev pub last_seen : List String → List String
last_seen ids = drop (length ids - 512) ids

drop-append : (n : ℕ) (xs ys : List String) → n ≤ length xs → drop n (xs ++ ys) ≡ drop n xs ++ ys
unfolding drop
drop-append zero xs ys h = refl
drop-append (suc n) [] ys h = absurd (omega (arith, h))
drop-append (suc n) (x ∷ xs) ys h = drop-append n xs ys (omega (arith, h))

drop_nil : (m : ℕ) → drop m [] ≡ []
unfolding drop
drop_nil zero = refl
drop_nil (suc m) = refl

drop-drop : (m n k : ℕ) (xs : List String) → k ≡ n + m → drop m (drop n xs) ≡ drop k xs
unfolding drop
drop-drop m zero k xs e = ap (λ i. drop i xs) (sym (plain m k e))
  where
    plain : (m k : ℕ) → k ≡ 0 + m → k ≡ m
    plain m k e = omega (arith, e)
drop-drop m (suc n) zero xs e = absurd (omega (arith, e))
drop-drop m (suc n) (suc k) [] e = drop_nil m
drop-drop m (suc n) (suc k) (x ∷ xs) e = drop-drop m n k xs (omega (arith, e))

-- adding to the last 512 identifiers gives the last 512 of all
push_seen-last_seen :
    (id : String) (ids : List String) → push_seen id (last_seen ids) ≡ last_seen (ids ++ (id ∷ []))
unfolding push_seen
push_seen-last_seen id ids =
    let n = length ids - 512 in
    let here = length-append (last_seen ids) (id ∷ []) in
    let size = length-drop n ids in
    let whole = length-append ids (id ∷ []) in
    ap (drop (length (last_seen ids ++ (id ∷ [])) - 512))
      (sym (drop-append n ids (id ∷ []) (omega arith)))
    ∙ drop-drop (length (last_seen ids ++ (id ∷ [])) - 512) n (length (ids ++ (id ∷ [])) - 512)
        (ids ++ (id ∷ [])) (omega (arith, here, size, whole))

is_seen_behind :
    (id other : String) (ids : List String)
    → is_seen id ids ≡ true
    → is_seen id (ids ++ (other ∷ [])) ≡ true
unfolding is_seen
is_seen_behind id other [] h = absurd (false≢true h)
is_seen_behind id other (s ∷ ss) h = elim (Bool-cases (s == id)) [
  | inl e ↦ rw e refl
  | inr e ↦ rw e (is_seen_behind id other ss (rw e at h))
]

is_seen_last : (id : String) (ids : List String) → is_seen id (ids ++ (id ∷ [])) ≡ true
unfolding is_seen
is_seen_last id [] = rw (eq_refl id) refl
is_seen_last id (s ∷ ss) = elim (Bool-cases (s == id)) [
  | inl e ↦ rw e refl
  | inr e ↦ rw e (is_seen_last id ss)
]

abbrev message_ids : List Reply → List String
message_ids replies = map (λ r. r.message_id) replies

apart-add :
    (id : String) (replies : List Reply) (reply : Reply)
    → All (λ other. id ≢ other) (message_ids replies)
    → id ≢ reply.message_id
    → All (λ other. id ≢ other) (message_ids (replies ++ (reply ∷ [])))
apart-add id [] reply h n = (n, tt)
apart-add id (r ∷ rs) reply h n = (h.0, apart-add id rs reply h.1 n)

Unique-add :
    (replies : List Reply) (reply : Reply)
    → Unique (message_ids replies)
    → All (λ (r : Reply). r.message_id ≢ reply.message_id) replies
    → Unique (message_ids (replies ++ (reply ∷ [])))
Unique-add [] reply u h = (tt, tt)
Unique-add (r ∷ rs) reply u h =
    (apart-add r.message_id rs reply u.0 h.0, Unique-add rs reply u.1 h.1)

-- With the identifiers seen at the start: what is enqueued was not among them and is so once; the bounded list, which is
-- saved, holds the last 512 of those seen at the start and of the `noted` ones, in order, and all that is enqueued is
-- noted. The set that the loop asks knows all that is enqueued, and only grows.
pub record Listens (before : List String) (s : State) : Type 0 where
  pub noted : List String
  pub once : Unique (message_ids s.enqueued)
  pub fresh : All (λ (r : Reply). is_seen r.message_id before ≡ false) s.enqueued
  pub remembers : s.seen_ids ≡ last_seen (before ++ noted)
  pub covered : All (λ (r : Reply). is_seen r.message_id noted ≡ true) s.enqueued
  pub known : All (λ (r : Reply). is_seen r.message_id s.lookup ≡ true) s.enqueued
  pub grows : (id : String) → is_seen id before ≡ true → is_seen id s.lookup ≡ true

is_seen_self : (id : String) (seen : List String) → is_seen id (id ∷ seen) ≡ true
unfolding is_seen
is_seen_self id seen = rw (eq_refl id)

is_seen_more :
    (id other : String) (seen : List String)
    → is_seen id seen ≡ true
    → is_seen id (other ∷ seen) ≡ true
unfolding is_seen
is_seen_more id other seen h =
    elim (other == id) as (λ b. (if b then true else is_seen id seen) ≡ true) [
      | true ↦ refl
      | false ↦ h
    ]

seen_apart :
    (a b : String) (seen : List String) → is_seen a seen ≡ true → is_seen b seen ≡ false → a ≢ b
seen_apart a b seen h k e = false≢true (sym k ∙ subst (λ x. is_seen x seen ≡ true) e h)

normalize-message_id :
    (message id topic : String) (time : ℤ) (reply : Reply)
    → normalize_reply_message message id time topic ≡ some reply
    → reply.message_id ≡ id
unfolding normalize_reply_message
normalize-message_id message id topic time reply h = ground arith

abbrev Ends : List String → Option State → Type 0
Ends before none = Unit
Ends before (some s) = Listens before s

pub not_true : (b : Bool) → (b ≡ true → ⊥) → b ≡ false
not_true true h = absurd (h refl)
not_true false h = refl

module _ (world : World) (dry_run : Bool) (before : List String) where
  remembers_more :
      (id : String) (noted seen_ids : List String)
      → seen_ids ≡ last_seen (before ++ noted)
      → push_seen id seen_ids ≡ last_seen (before ++ (noted ++ (id ∷ [])))
  remembers_more id noted seen_ids h =
      ap (push_seen id) h
      ∙ push_seen-last_seen id (before ++ noted)
      ∙ ap last_seen (append_assoc before noted (id ∷ []))

  note_seen-Listens :
      (id : String) (s : State) → Listens before s → Listens before (note_seen world dry_run id s)
  unfolding note_seen
  note_seen-Listens id s h = record {
    once = h.once;
    known = All-map _ _ s.enqueued (λ r seen. is_seen_more r.message_id id s.lookup seen) h.known;
    fresh = h.fresh;
    grows = λ other seen. is_seen_more other id s.lookup (h.grows other seen);
    noted = h.noted ++ (id ∷ []);
    remembers = remembers_more id h.noted s.seen_ids h.remembers;
    covered =
        All-map _ _ s.enqueued (λ r seen. is_seen_behind r.message_id id h.noted seen) h.covered;
  }

  new-fresh :
      (id : String) (s : State)
      → Listens before s
      → is_seen id s.lookup ≡ false
      → is_seen id before ≡ false
  new-fresh id s h new = not_true _ (λ old. false≢true (sym new ∙ h.grows id old))

  with_reply :
      (id : String) (s : State) (reply : Reply) (queue : Queue)
      → reply.message_id ≡ id
      → is_seen id s.lookup ≡ false
      → Listens before s
      → Listens before (record (note_seen world dry_run id s) {
        processed = suc (note_seen world dry_run id s).processed;
        enqueued = (note_seen world dry_run id s).enqueued ++ (reply ∷ []);
        queue = queue;
      })
  unfolding note_seen
  with_reply id s reply queue same new h =
      let unseen = subst (λ x. is_seen x s.lookup ≡ false) (sym same) new in
      record {
        noted = h.noted ++ (id ∷ []);
        once = Unique-add s.enqueued reply h.once (
            All-map _ _ s.enqueued
              (λ r seen. seen_apart r.message_id reply.message_id s.lookup seen unseen) h.known);
        fresh =
            All-append _ s.enqueued (reply ∷ []) h.fresh
              (new-fresh reply.message_id s h unseen, tt);
        remembers = remembers_more id h.noted s.seen_ids h.remembers;
        covered =
            All-append _ s.enqueued (reply ∷ [])
              (All-map _ _ s.enqueued (λ r seen. is_seen_behind r.message_id id h.noted seen)
                h.covered)
              (
                subst (λ x. is_seen x (h.noted ++ (id ∷ [])) ≡ true) (sym same)
                    (is_seen_last id h.noted),
                tt,
              );
        known =
            All-append _ s.enqueued (reply ∷ [])
              (All-map _ _ s.enqueued (λ r seen. is_seen_more r.message_id id s.lookup seen)
                h.known)
              (
                subst (λ x. is_seen x (id ∷ s.lookup) ≡ true) (sym same) (is_seen_self id s.lookup),
                tt,
              );
        grows = λ other seen. is_seen_more other id s.lookup (h.grows other seen);
      }

  by_outcome :
      (id : String) (s : State) (reply : Reply) (outcome : Bool × Queue)
      → reply.message_id ≡ id
      → is_seen id s.lookup ≡ false
      → Listens before s
      → Ends before (enqueued_in world dry_run reply (note_seen world dry_run id s) outcome)
  by_outcome id s reply (false, queue) same new h = tt
  by_outcome id s reply (true, queue) same new h = with_reply id s reply queue same new h

  dry_reply :
      (id : String) (s : State)
      → Listens before s
      → Listens before (record (note_seen world dry_run id s) {
        processed = suc (note_seen world dry_run id s).processed;
      })
  unfolding note_seen
  dry_reply id s h = record {
    noted = h.noted ++ (id ∷ []);
    once = h.once;
    fresh = h.fresh;
    remembers = remembers_more id h.noted s.seen_ids h.remembers;
    covered =
        All-map _ _ s.enqueued (λ r seen. is_seen_behind r.message_id id h.noted seen) h.covered;
    known = All-map _ _ s.enqueued (λ r seen. is_seen_more r.message_id id s.lookup seen) h.known;
    grows = λ other seen. is_seen_more other id s.lookup (h.grows other seen);
  }

  Ends-if :
      (test : Bool) (left right : Option State)
      → Ends before left
      → Ends before right
      → Ends before (if test then left else right)
  Ends-if true left right h k = h
  Ends-if false left right h k = k

  accept-Ends :
      (id : String) (s : State) (reply : Option Reply)
      → ((r : Reply) → reply ≡ some r → r.message_id ≡ id)
      → is_seen id s.lookup ≡ false
      → Listens before s
      → Ends before (accept world dry_run reply (note_seen world dry_run id s))
  unfolding accept
  accept-Ends id s none named new h = note_seen-Listens id s h
  accept-Ends id s (some reply) named new h =
      Ends-if dry_run _ _ (dry_reply id s h) (by_outcome id s reply _ (named reply refl) new h)

  reply_of-message_id :
      (event : Fields) (id : String) (time : ℤ) (r : Reply)
      → reply_of world dry_run event id time ≡ some r
      → r.message_id ≡ id
  unfolding reply_of
  reply_of-message_id event id time r e =
      normalize-message_id (text world dry_run (get_or event "message" (str ""))) id
        (text world dry_run (get_or event "topic" (str world.reply_topic))) time r e

  each_time :
      (o : Option ℤ) (f : ℤ → Option State)
      → ((n : ℤ) → Ends before (f n))
      → Ends before (elim o [ none ↦ none | some n ↦ f n ])
  each_time none f h = tt
  each_time (some n) f h = h n

  process_new-Ends :
      (event : Fields) (id : String) (s : State)
      → is_seen id s.lookup ≡ false
      → Listens before s
      → Ends before (process_new world dry_run event id s)
  unfolding process_new
  process_new-Ends event id s new h =
      each_time (to_int (get_or event "time" (int world.now))) _ (λ time.
        accept-Ends id s (reply_of world dry_run event id time) (reply_of-message_id event id time)
          new h)

  after_id-Listens :
      (event : Fields) (s : State)
      → Listens before s
      → Listens before (after_id world dry_run event s)
  unfolding after_id
  after_id-Listens event s h = record {
    once = h.once;
    known = h.known;
    fresh = h.fresh;
    grows = h.grows;
    noted = h.noted;
    remembers = h.remembers;
    covered = h.covered;
  }

  unless_seen :
      (test : Bool) (left right : Option State)
      → Ends before left
      → (test ≡ false → Ends before right)
      → Ends before (if test then left else right)
  unless_seen true left right h k = h
  unless_seen false left right h k = k refl

  process_event-Ends :
      (event : Fields) (s : State)
      → Listens before s
      → Ends before (process_event world dry_run event s)
  unfolding process_event after_id
  process_event-Ends event s h =
      unless_seen (is_seen (id_of world dry_run event s) s.lookup) _ _ (after_id-Listens event s h)
        (λ new.
          process_new-Ends event (id_of world dry_run event s) (after_id world dry_run event s) new
            (after_id-Listens event s h))

  then_messages :
      (o : Option State) (f : State → Option State)
      → Ends before o
      → ((t : State) → Listens before t → Ends before (f t))
      → Ends before (elim o [ none ↦ none | some t ↦ f t ])
  then_messages none f h k = tt
  then_messages (some t) f h k = k t h

  process_messages-Ends :
      (events : List Fields) (s : State)
      → Listens before s
      → Ends before (process_messages world dry_run events s)
  unfolding process_messages
  process_messages-Ends [] s h = h
  process_messages-Ends (event ∷ events) s h =
      then_messages (process_event world dry_run event s) _ (process_event-Ends event s h)
        (λ t k. process_messages-Ends events t k)

last_seen-last_seen : (ids : List String) → last_seen (last_seen ids) ≡ last_seen ids
unfolding drop
last_seen-last_seen ids = ap (λ k. drop k (last_seen ids)) none_over
  where
    none_over : length (last_seen ids) - 512 ≡ 0
    none_over = omega (arith, length-drop (length ids - 512) ids)

start-Listens :
    (seen_ids : List String) (queue : Queue)
    → Listens (start seen_ids queue).lookup (start seen_ids queue)
unfolding start
start-Listens seen_ids queue = record {
  once = tt;
  known = tt;
  fresh = tt;
  covered = tt;
  grows = λ id h. h;
  noted = [];
  remembers =
      sym (last_seen-last_seen seen_ids) ∙ ap last_seen (sym (append-nil (last_seen seen_ids)));
}

last_seen-bound : (ids : List String) → length (last_seen ids) ≤ 512
last_seen-bound ids = omega (arith, length-drop (length ids - 512) ids)

bounded : (before : List String) (s : State) → Listens before s → length s.seen_ids ≤ 512
bounded before s h =
    subst (λ ids. length ids ≤ 512) (sym h.remembers) (last_seen-bound (before ++ h.noted))

-- When the listener has gone through a batch of messages without an exception, every reply that it enqueued has another
-- message identifier than the others and than the last 512 ones seen before; the identifiers that it keeps, to be saved,
-- are the last 512 of those and of the ones noted in the batch, in order, at most 512; and the identifier of every reply
-- that it enqueued is among the noted ones.
pub process_messages-Listens :
    (world : World) (dry_run : Bool) (seen_ids : List String) (queue : Queue) (events : List Fields)
    (last : State)
    → process_messages world dry_run events (start seen_ids queue) ≡ some last
    → Listens (start seen_ids queue).lookup last × (length last.seen_ids ≤ 512)
process_messages-Listens world dry_run seen_ids queue events last e =
    let listens = subst (Ends (start seen_ids queue).lookup) e (
      process_messages-Ends world dry_run (start seen_ids queue).lookup events
        (start seen_ids queue) (start-Listens seen_ids queue)) in
    (listens, bounded (start seen_ids queue).lookup last listens)
