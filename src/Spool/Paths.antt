-- ===== src/Spool/Paths.antt =====
-- The keys under which scripts/forge_memory_spool.py publishes a session, as paths below the root of the
-- object store.
use text.Mathlib.TextLemmas.{nil-append, cons-append, append_assoc}
use rfc_codex_gentoo_stage.Prelude.{
  ℕ, code, Char, String, Bool, true, false, not, nat_eq, List, [], ◌∷◌, ◌++◌, ◌≡◌, ◌≢◌, refl, sym,
  ap, subst, ◌∙◌, inl, inr, ◌⊎◌, Bool-cases, if◌then◌else◌, false≢true, arith,
}
use rfc_codex_gentoo_stage.Text.{split, split_at, all_chars, is_empty, append, concat}
use rfc_codex_gentoo_stage.Ntfy.Message.{is_id_char}
use rfc_codex_gentoo_stage.Spool.Check.{
  SpoolError, is_safe_id, require_safe_id, all_safe, normalized_prefix, stripped_prefix,
}
use rfc_codex_gentoo_stage.Spool.Files.{
  World, Spool, State, Result, ok, err, continue, pure, checked, ◌>>=◌, ◌/path◌, read_file,
  event_file_for,
}
use rfc_codex_gentoo_stage.Spool.Publish.{
  PublishArguments, Session, find_session, list_manifests, existing, newest, or_relative,
  within_dir,
}

left≢right : {a : SpoolError} {b : String} → ◌≢◌ {A = SpoolError ⊎ String} (inl a) (inr b)
left≢right h = cc

right_inj : {a b : String} → ◌≡◌ {A = SpoolError ⊎ String} (inr a) (inr b) → a ≡ b
right_inj h = cc

-- No part of the path is empty, `.` or `..`.
abbrev pub StaysInside : String → Type 0
StaysInside path = all_safe (split b'/' path) ≡ true

abbrev at_slash : ℕ → Bool
at_slash c = nat_eq c b'/'

module _ (test : ℕ → Bool) where
  on_head : Char → List String → List String
  on_head c [] = []
  on_head c (w ∷ ws) = String.◌∷◌ c w ∷ ws

  split_cons :
      (c : Char) (s : String)
      → split_at test (String.◌∷◌ c s)
        ≡ (if test (code c) then "" ∷ split_at test s else on_head c (split_at test s))
  unfolding split_at on_head
  split_cons c s = by_split (split_at test s)
    where
      by_split :
          (ws : List String)
          → (if test (code c) then "" ∷ ws else elim ws [ [] ↦ [] | w ∷ vs ↦ String.◌∷◌ c w ∷ vs ])
            ≡ (if test (code c) then "" ∷ ws else on_head c ws)
      by_split [] = refl
      by_split (w ∷ vs) = refl

  at_break :
      (c : Char) (s : String)
      → test (code c) ≡ true
      → split_at test (String.◌∷◌ c s) ≡ "" ∷ split_at test s
  at_break c s h = split_cons c s ∙ rw h refl

  at_other :
      (c : Char) (s : String)
      → test (code c) ≡ false
      → split_at test (String.◌∷◌ c s) ≡ on_head c (split_at test s)
  at_other c s h = split_cons c s ∙ rw h refl

  split_filled : (s : String) → (w : String) × (ws : List String) × (split_at test s ≡ w ∷ ws)
  unfolding split_at on_head
  split_filled String.[] = ("", [], refl)
  split_filled (String.◌∷◌ c s) = elim (Bool-cases (test (code c))) [
    | inl e ↦ ("", split_at test s, split_cons c s ∙ rw e refl)
    | inr e ↦
        let (w, ws, h) = split_filled s in (String.◌∷◌ c w, ws, split_cons c s ∙ rw (e, h) refl)
  ]

  split_join :
      (a : String) (c : Char) (b : String)
      → test (code c) ≡ true
      → split_at test (append a (String.◌∷◌ c b)) ≡ split_at test a ++ split_at test b
  unfolding split_at on_head
  split_join String.[] c b h = rw (nil-append (String.◌∷◌ c b)) (split_cons c b ∙ rw h refl)
  split_join (String.◌∷◌ d s) c b h = elim (Bool-cases (test (code d))) [
    | inl e ↦ rw (cons-append d s (String.◌∷◌ c b)) (
        at_break d (append s (String.◌∷◌ c b)) e
        ∙ ap (λ ws. "" ∷ ws) (split_join s c b h)
        ∙ ap (λ ws. ws ++ split_at test b) (sym (at_break d s e)))
    | inr e ↦
        let (w, ws, g) = split_filled s in
        rw (cons-append d s (String.◌∷◌ c b)) (
          at_other d (append s (String.◌∷◌ c b)) e
          ∙ ap (on_head d) (split_join s c b h ∙ ap (λ vs. vs ++ split_at test b) g)
          ∙ ap (λ vs. vs ++ split_at test b) (sym (at_other d s e ∙ ap (on_head d) g)))
  ]

  split_whole : (s : String) → all_chars (λ c. not (test c)) s ≡ true → split_at test s ≡ s ∷ []
  unfolding split_at all_chars on_head
  split_whole String.[] h = refl
  split_whole (String.◌∷◌ c s) h = elim (Bool-cases (test (code c))) [
    | inl e ↦ absurd (false≢true (rw e at h))
    | inr e ↦ split_cons c s ∙ rw (e, split_whole s (rw e at h)) refl
  ]

-- two paths with a slash between them
split-slash : (a b : String) → split b'/' (append a (append "/" b)) ≡ split b'/' a ++ split b'/' b
unfolding split
split-slash a b = rw (cons-append "/" "" b, nil-append b) (split_join at_slash a "/" b refl)

id_char_no_slash : (c : ℕ) → is_id_char c ≡ true → nat_eq c b'/' ≡ false
unfolding is_id_char
id_char_no_slash c h = ground arith

safe_id_chars : (s : String) → is_safe_id s ≡ true → all_chars (λ c. not (at_slash c)) s ≡ true
unfolding is_safe_id all_chars
safe_id_chars String.[] h = refl
safe_id_chars (String.◌∷◌ c String.[]) h = rw (id_char_no_slash (code c) h) refl
safe_id_chars (String.◌∷◌ c (String.◌∷◌ d String.[])) h =
    ground (arith, id_char_no_slash (code c), id_char_no_slash (code d))
safe_id_chars (String.◌∷◌ c (String.◌∷◌ d (String.◌∷◌ e s))) h =
    ground (arith, id_char_no_slash (code c), safe_id_chars (String.◌∷◌ d (String.◌∷◌ e s)))

-- an accepted name is one part of a path
split-id : (s : String) → is_safe_id s ≡ true → split b'/' s ≡ s ∷ []
unfolding split
split-id s h = split_whole at_slash s (safe_id_chars s h)

-- an accepted prefix
StaysInside-prefix : (raw prefix : String) → normalized_prefix raw ≡ inr prefix → StaysInside prefix
unfolding normalized_prefix
StaysInside-prefix raw prefix h = elim (Bool-cases (is_empty (stripped_prefix raw))) [
  | inl e ↦ absurd (left≢right (rw e at h))
  | inr e ↦ elim (Bool-cases (all_safe (split b'/' (stripped_prefix raw)))) [
    | inl f ↦ subst StaysInside (right_inj (rw (e, f) at h)) f
    | inr f ↦ absurd (left≢right (rw (e, f) at h))
  ]
]

-- a word between slashes, with what follows
between :
    (word rest : String)
    → append (append (append "/" word) "/") rest ≡ append "/" (append word (append "/" rest))
between word rest =
    append_assoc (append "/" word) "/" rest ∙ append_assoc "/" word (append "/" rest)

key_parts :
    (prefix agent_id session_id : String)
    → append prefix (
        append "/agents/"
          (append agent_id (append "/sessions/" (append session_id "/events.jsonl"))))
      ≡ append prefix (
          append "/" (
            append "agents" (
              append "/" (
                append agent_id (
                  append "/" (
                    append "sessions"
                      (append "/" (append session_id (append "/" "events.jsonl")))))))))
key_parts prefix agent_id session_id = ap (append prefix) (
    between "agents" (append agent_id (append "/sessions/" (append session_id "/events.jsonl")))
    ∙ ap (λ rest. append "/" (append "agents" (append "/" (append agent_id rest))))
        (between "sessions" (append session_id "/events.jsonl")))

word_parts :
    (split b'/' "agents" ≡ "agents" ∷ [])
    × (split b'/' "sessions" ≡ "sessions" ∷ [])
    × (split b'/' "events.jsonl" ≡ "events.jsonl" ∷ [])
unfolding split
word_parts = (refl, refl, refl)

-- a word of one part in front of a path
before_slash :
    (word rest : String)
    → split b'/' word ≡ word ∷ []
    → split b'/' (append word (append "/" rest)) ≡ word ∷ split b'/' rest
before_slash word rest h = split-slash word rest ∙ ap (λ ws. ws ++ split b'/' rest) h

event_key-split :
    (prefix agent_id session_id : String)
    → is_safe_id agent_id ≡ true
    → is_safe_id session_id ≡ true
    → split b'/'
        (concat (prefix ∷ "/agents/" ∷ agent_id ∷ "/sessions/" ∷ session_id ∷ "/events.jsonl" ∷ []))
      ≡ split b'/' prefix ++ ("agents" ∷ agent_id ∷ "sessions" ∷ session_id ∷ "events.jsonl" ∷ [])
unfolding concat
event_key-split prefix agent_id session_id safe_agent safe_session =
    let (agents, sessions, log) = word_parts in
    ap (split b'/') (key_parts prefix agent_id session_id)
    ∙ split-slash prefix _
    ∙ ap (λ ws. split b'/' prefix ++ ws)
        (before_slash "agents" _ agents
          ∙ ap (λ ws. "agents" ∷ ws)
              (before_slash agent_id _ (split-id agent_id safe_agent)
                ∙ ap (λ ws. agent_id ∷ ws)
                    (before_slash "sessions" _ sessions
                      ∙ ap (λ ws. "sessions" ∷ ws)
                          (before_slash session_id _ (split-id session_id safe_session)
                            ∙ ap (λ ws. session_id ∷ ws) log))))

continue-ok :
    {A B : Type 0} (r : Result A) (f : A → Spool B) (s t : State) (x : B)
    → continue r f s ≡ (ok x, t)
    → (a : A) × (r ≡ ok a) × (f a s ≡ (ok x, t))
continue-ok (ok a) f s t x h = (a, refl, h)
continue-ok (err e) f s t x h = cc

-- what has to be returned on the way to a result
bind-ok :
    {A B : Type 0} (m : Spool A) (f : A → Spool B) (s t : State) (x : B)
    → (m >>= f) s ≡ (ok x, t)
    → (a : A) × ((m s).0 ≡ ok a) × (f a (m s).1 ≡ (ok x, t))
unfolding ◌>>=◌
bind-ok m f s t x h = continue-ok (m s).0 f (m s).1 t x h

checked-ok :
    {A : Type 0} (r : SpoolError ⊎ A) (s : State) (a : A) → (checked r s).0 ≡ ok a → r ≡ inr a
checked-ok (inl e) s a h = cc
checked-ok (inr b) s a h = cc

require_safe_id-ok :
    (value name accepted : String)
    → require_safe_id value name ≡ inr accepted
    → (is_safe_id accepted ≡ true) × (accepted ≡ value)
unfolding require_safe_id
require_safe_id-ok value name accepted h = elim (Bool-cases (is_safe_id value)) [
  | inl e ↦ let same = right_inj (rw e at h) in (subst (λ v. is_safe_id v ≡ true) same e, sym same)
  | inr e ↦ absurd (left≢right (rw e at h))
]

returned-Session :
    (session found : Session) (s t : State) → pure session s ≡ (ok found, t) → session ≡ found
returned-Session session found s t h = cc

-- What the names and the key of the event log are in a session that is found.
abbrev pub IsKeyed : PublishArguments → Session → Type 0
IsKeyed args session =
    (session.agent_id ≡ args.agent_id)
    × (session.session_id ≡ args.session_id)
    × StaysInside session.prefix
    × (split b'/' session.event_key
        ≡ split b'/' session.prefix
          ++ ("agents" ∷ session.agent_id ∷ "sessions" ∷ session.session_id ∷ "events.jsonl" ∷ []))

-- If `find_session` finds a session to publish, then it has the names that were asked for, no part of its prefix is empty,
-- `.` or `..`, and the parts of the key of its event log are just those of the prefix, `agents`, the name of the agent,
-- `sessions`, the name of the session and `events.jsonl`: neither name reaches over a slash.
pub find_session-IsKeyed :
    (world : World) (args : PublishArguments) (s t : State) (session : Session)
    → find_session world args s ≡ (ok session, t)
    → IsKeyed args session
unfolding find_session
find_session-IsKeyed world args s t session h =
    let (agent_id, agent, h1) =
      bind-ok (checked (require_safe_id args.agent_id "agent-id")) _ s t session h in
    let (session_id, named, h2) =
      bind-ok (checked (require_safe_id args.session_id "session-id")) _ _ t session h1 in
    let (prefix, rooted, h3) =
      bind-ok
        (checked (normalized_prefix (if args.is_filesystem then args.prefix else args.s3_prefix))) _
        _ t session h2 in
    let (log, _, h4) =
      bind-ok (read_file (event_file_for args.spool_root agent_id session_id)) _ _ t session h3 in
    let (events, _, h5) =
      bind-ok (existing (event_file_for args.spool_root agent_id session_id) log) _ _ t session
        h4 in
    let (manifests, _, h6) = bind-ok (list_manifests args.spool_root session_id) _ _ t session h5 in
    let (manifest, _, h7) = bind-ok (newest session_id manifests) _ _ t session h6 in
    let (relative, _, h8) =
      bind-ok (or_relative (within_dir (args.spool_root /path "manifests") manifest)) _ _ t session
        h7 in
    let safe_agent =
      require_safe_id-ok args.agent_id "agent-id" agent_id (checked-ok _ _ agent_id agent) in
    let safe_session =
      require_safe_id-ok args.session_id "session-id" session_id
        (checked-ok _ _ session_id named) in
    subst (IsKeyed args) (returned-Session _ session _ t h8) (
      safe_agent.1,
      safe_session.1,
      StaysInside-prefix (if args.is_filesystem then args.prefix else args.s3_prefix) prefix
          (checked-ok _ _ prefix rooted),
      event_key-split prefix agent_id session_id safe_agent.0 safe_session.0,
    )
