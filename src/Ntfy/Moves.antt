-- ===== src/Ntfy/Moves.antt =====
-- How `consume_reply` of scripts/codex_ntfy_reply_queue.py moves a reply.
use rfc_codex_gentoo_stage.Prelude.{
  String, false, List, [], ◌∷◌, ◌++◌, map, ◌≡◌, ◌≢◌, refl, sym, ap, ◌∙◌, subst, All, Unique, ◌==◌,
  eq_iff, eq_refl,
}
use rfc_codex_gentoo_stage.Ntfy.Laws.{not_true}
use rfc_codex_gentoo_stage.Value.{Fields}
use rfc_codex_gentoo_stage.Ntfy.Queue.{
  File, Queue, remove_file, Search, found, missing, crashed, Look, match, skip, stop, look_at,
  find_in, find_reply, mark_processed, consume_reply, place_file, after_search,
}

abbrev pub names : List File → List String
names files = map (λ f. f.name) files

-- The file holds no reply that is looked for, and does not stop the search.
abbrev pub IsPassed : String → String → File → Type 0
IsPassed request_id kind file = look_at request_id kind file.content ≡ skip

-- The file is the first of the queue that answers the search, its content is the payload, it
-- leaves the pending replies, which stay as they are but for it, and joins the processed ones.
pub record Moves (request_id kind : String) (q next : Queue) (file : File) (payload : Fields)
    : Type 0 where
  pub earlier : List File
  pub later : List File
  pub was_pending : q.pending ≡ earlier ++ (file ∷ later)
  pub is_first : All (IsPassed request_id kind) earlier
  pub answers : look_at request_id kind file.content ≡ match payload
  pub left : next.pending ≡ earlier ++ later
  pub joined : next.processed ≡ place_file file q.processed

-- where the search stops
record IsFirst (request_id kind : String) (files : List File) (file : File) (payload : Fields)
    : Type 0 where
  pub earlier : List File
  pub later : List File
  pub split : files ≡ earlier ++ (file ∷ later)
  pub passed : All (IsPassed request_id kind) earlier
  pub answers : look_at request_id kind file.content ≡ match payload

abbrev WhenFound : String → String → List File → Search → Type 0
WhenFound request_id kind files (found file payload) = IsFirst request_id kind files file payload
WhenFound request_id kind files missing = All (IsPassed request_id kind) files
WhenFound request_id kind files crashed = Unit

module _ (request_id kind : String) where
  later-WhenFound :
      (f : File) (files : List File) (search : Search)
      → IsPassed request_id kind f
      → WhenFound request_id kind files search
      → WhenFound request_id kind (f ∷ files) search
  later-WhenFound f files (found file payload) p h = record {
    earlier = f ∷ h.earlier;
    later = h.later;
    split = ap (λ fs. f ∷ fs) h.split;
    passed = (p, h.passed);
    answers = h.answers;
  }
  later-WhenFound f files missing p h = (p, h)
  later-WhenFound f files crashed p h = tt

  look-WhenFound :
      (f : File) (files : List File) (rest : Search) (look : Look)
      → look_at request_id kind f.content ≡ look
      → WhenFound request_id kind files rest
      → WhenFound request_id kind
          (f ∷ files)
          (elim look [ match fields ↦ found f fields | skip ↦ rest | stop ↦ crashed ])
  look-WhenFound f files rest (match fields) e h = record {
    earlier = [];
    later = files;
    split = refl;
    passed = tt;
    answers = e;
  }
  look-WhenFound f files rest skip e h = later-WhenFound f files rest e h
  look-WhenFound f files rest stop e h = tt

  find_in-WhenFound :
      (files : List File) → WhenFound request_id kind files (find_in request_id kind files)
  unfolding find_in
  find_in-WhenFound [] = tt
  find_in-WhenFound (f ∷ files) = look-WhenFound f files _ _ refl (find_in-WhenFound files)

differs : (a b : String) → a ≢ b → (a == b) ≡ false
differs a b n = not_true (a == b) (λ e. n ((eq_iff a b).0 e))

-- a file that has another name stays
remove_file-apart :
    (name : String) (files : List File)
    → All (λ other. name ≢ other) (names files)
    → remove_file name files ≡ files
unfolding remove_file
remove_file-apart name [] h = refl
remove_file-apart name (f ∷ files) h =
    rw (differs f.name name (λ e. h.0 (sym e)), remove_file-apart name files h.1)

apart_from :
    (name : String) (file : File) (earlier later : List File)
    → All (λ other. name ≢ other) (names (earlier ++ (file ∷ later)))
    → name ≢ file.name
apart_from name file [] later h = h.0
apart_from name file (f ∷ earlier) later h = apart_from name file earlier later h.1

remove_file-only :
    (file : File) (earlier later : List File)
    → Unique (names (earlier ++ (file ∷ later)))
    → remove_file file.name (earlier ++ (file ∷ later)) ≡ earlier ++ later
unfolding remove_file
remove_file-only file [] later u = rw (eq_refl file.name, remove_file-apart file.name later u.0)
remove_file-only file (f ∷ earlier) later u = rw (
  differs f.name file.name (apart_from f.name file earlier later u.0),
  remove_file-only file earlier later u.1,
)

-- What a call promises with its result and the queue that it leaves.
abbrev pub Consumes : String → String → Queue → Search → Queue → Type 0
Consumes request_id kind q (found file payload) next = Moves request_id kind q next file payload
Consumes request_id kind q missing next = (next ≡ q) × All (IsPassed request_id kind) q.pending
Consumes request_id kind q crashed next = next ≡ q

found-Consumes :
    (request_id kind : String) (q : Queue) (search : Search)
    → Unique (names q.pending)
    → WhenFound request_id kind q.pending search
    → Consumes request_id kind q (after_search search q).0 (after_search search q).1
unfolding mark_processed
found-Consumes request_id kind q (found file payload) unique h = record {
  earlier = h.earlier;
  later = h.later;
  was_pending = h.split;
  is_first = h.passed;
  answers = h.answers;
  left =
      ap (remove_file file.name) h.split
      ∙ remove_file-only file h.earlier h.later (subst (λ fs. Unique (names fs)) h.split unique);
  joined = refl;
}
found-Consumes request_id kind q missing unique h = (refl, h)
found-Consumes request_id kind q crashed unique h = refl

-- what a call does, if the names of the pending files differ
pub consume_reply-Moves :
    (request_id kind : String) (q : Queue)
    → Unique (names q.pending)
    → Consumes request_id kind q
        (consume_reply request_id kind q).0
        (consume_reply request_id kind q).1
unfolding consume_reply find_reply
consume_reply-Moves request_id kind q unique =
    found-Consumes request_id kind q (find_in request_id kind q.pending) unique
      (find_in-WhenFound request_id kind q.pending)
