-- ===== src/NtfyHook/Approvals.antt =====
-- When the hook of scripts/codex_ntfy_hook.py prints that a command is allowed.
use rfc_codex_gentoo_stage.Prelude.{
  String, Bool, true, false, ◌&&◌, List, [], ◌∷◌, Option, none, some, ◌==◌, ◌≡◌, ◌≢◌, ◌⊎◌, refl,
  sym, ap, subst, inl, inr, Any, Bool-cases, eq_iff, false≢true, if◌then◌else◌,
}
use rfc_codex_gentoo_stage.Value.{
  Value, null, bool, int, list, str, dict, Fields, end, field, get, get_or, as_str, is_truthy,
  text_by,
}
use rfc_codex_gentoo_stage.Ntfy.Message.{
  Decision, allow, deny, Content, permission_reply, question_reply, status_request,
  unrecognized_reply, content_of, message_text,
}
use rfc_codex_gentoo_stage.Ntfy.Queue.{
  Queue, File, Search, found, missing, crashed, Look, match, skip, stop, find_reply, find_in,
  look_at, is_wanted_reply, has_value,
}
use rfc_codex_gentoo_stage.NtfyHook.Policy.{Mode, state_driven, mode_for_kind}
use rfc_codex_gentoo_stage.NtfyHook.Replies.{
  Yield, yields, raises, Queued, queued, nothing, failed, take_reply, poll_queue_reply, with_policy,
  or_later,
}
use rfc_codex_gentoo_stage.NtfyHook.Hook.{
  World, Run, returns, printed, allow_output, deny_output, has_text_value, request_id, poll_replies,
  permission_content, decide,
}

-- The queues that the looks see, in order.
unfoldable pub looks : List (Queue → Queue) → Queue → List Queue
looks [] q = []
looks (change ∷ changes) q = change q ∷ looks changes (change q)

-- A pending file holds the reply.
abbrev pub IsPending : Fields → Queue → Type 0
IsPending payload q = Any (λ f. f.content ≡ some (dict payload)) q.pending

-- The reply stood in the queue at one of the looks, and answers the request.
abbrev pub IsQueued : String → String → List Queue → Fields → Type 0
IsQueued id kind queues payload =
    Any (IsPending payload) queues × (is_wanted_reply id kind payload ≡ true)

WhenFound : String → String → List File → Search → Type 0
WhenFound id kind files (found source payload) =
    Any (λ f. f.content ≡ some (dict payload)) files × (is_wanted_reply id kind payload ≡ true)
WhenFound id kind files missing = Unit
WhenFound id kind files crashed = Unit

found_later :
    (id kind : String) (file : File) (files : List File) (search : Search)
    → WhenFound id kind files search
    → WhenFound id kind (file ∷ files) search
unfolding WhenFound
found_later id kind file files (found source payload) h = (inr h.0, h.1)
found_later id kind file files missing h = tt
found_later id kind file files crashed h = tt

WhenMatch : String → String → Option Value → Look → Type 0
WhenMatch id kind content (match payload) =
    (content ≡ some (dict payload)) × (is_wanted_reply id kind payload ≡ true)
WhenMatch id kind content skip = Unit
WhenMatch id kind content stop = Unit

and_right : (a b : Bool) → a && b ≡ true → b ≡ true
and_right true b h = h
and_right false b h = absurd (false≢true h)

and_left : (a b : Bool) → a && b ≡ true → a ≡ true
and_left true b h = refl
and_left false b h = h

if_no_match :
    (id kind : String) (content : Option Value) (b : Bool)
    → WhenMatch id kind content (if b then stop else skip)
unfolding WhenMatch
if_no_match id kind content true = tt
if_no_match id kind content false = tt

look_at-matches :
    (id kind : String) (content : Option Value)
    → WhenMatch id kind content (look_at id kind content)
unfolding look_at WhenMatch
look_at-matches id kind none = tt
look_at-matches id kind (some (dict payload)) =
    elim (Bool-cases (is_truthy (dict payload) && is_wanted_reply id kind payload)) [
      | inl e ↦ rw e (refl, and_right (is_truthy (dict payload)) _ e)
      | inr e ↦ rw e tt
    ]
look_at-matches id kind (some null) = if_no_match id kind (some null) (is_truthy null)
look_at-matches id kind (some (bool b)) = if_no_match id kind (some (bool b)) (is_truthy (bool b))
look_at-matches id kind (some (int n)) = if_no_match id kind (some (int n)) (is_truthy (int n))
look_at-matches id kind (some (str s)) = if_no_match id kind (some (str s)) (is_truthy (str s))
look_at-matches id kind (some (list vs)) =
    if_no_match id kind (some (list vs)) (is_truthy (list vs))

find_in-finds :
    (id kind : String) (files : List File) → WhenFound id kind files (find_in id kind files)
unfolding find_in WhenFound WhenMatch
find_in-finds id kind [] = tt
find_in-finds id kind (file ∷ files) =
    by_look (look_at id kind file.content) (look_at-matches id kind file.content)
      (find_in-finds id kind files)
  where
    by_look :
        (look : Look)
        → WhenMatch id kind file.content look
        → WhenFound id kind files (find_in id kind files)
        → WhenFound id kind (file ∷ files) (elim look [
          | match fields ↦ found file fields
          | skip ↦ find_in id kind files
          | stop ↦ crashed
        ])
    by_look (match payload) h g = (inl h.0, h.1)
    by_look skip h g = found_later id kind file files (find_in id kind files) g
    by_look stop h g = tt

pub is_text :
    (v : Value) (wanted : String)
    → (elim (as_str v) [ none ↦ false | some s ↦ s == wanted ]) ≡ true
    → v ≡ str wanted
unfolding as_str
is_text null wanted h = absurd (false≢true h)
is_text (bool b) wanted h = absurd (false≢true h)
is_text (int n) wanted h = absurd (false≢true h)
is_text (str s) wanted h = ap (λ x. str x) ((eq_iff s wanted).0 h)
is_text (list vs) wanted h = absurd (false≢true h)
is_text (dict fs) wanted h = absurd (false≢true h)

get_or_default :
    (fields : Fields) (name s : String) (default : Value)
    → get_or fields name null ≡ str s
    → get_or fields name default ≡ str s
unfolding get_or
get_or_default end name s default h = cc
get_or_default (field k v fs) name s default h = elim (Bool-cases (k == name)) [
  | inl e ↦ rw e (rw e at h)
  | inr e ↦ rw e (get_or_default fs name s default (rw e at h))
]

pub none≢some : {A : Type 0} {a : A} → none ≢ some a
none≢some h = cc

pub some_inj : {A : Type 0} {a b : A} → some a ≡ some b → a ≡ b
some_inj h = cc

pub deny≢allow : printed deny_output ≢ printed allow_output
deny≢allow h = cc

pair_eq :
    (id other : String) (d e : Decision)
    → id ≡ other
    → d ≡ e
    → permission_reply id d ≡ permission_reply other e
pair_eq id other d e h g = cc

pub is_wanted_reply-get :
    (id kind : String) (payload : Fields)
    → is_wanted_reply id kind payload ≡ true
    → (get payload "kind" ≡ str kind) × (get payload "request_id" ≡ str id)
unfolding is_wanted_reply has_value as_str
is_wanted_reply-get id kind payload h = (
  is_text (get payload "kind") kind (and_left (has_value payload "kind" kind) _ h),
  is_text (get payload "request_id") id (and_right (has_value payload "kind" kind) _ h),
)

pub has_text_value-get :
    (payload : Fields) (key wanted : String)
    → has_text_value payload key wanted ≡ true
    → get payload key ≡ str wanted
unfolding has_text_value as_str
has_text_value-get payload key wanted h = is_text (get payload key) wanted h

module _ (world : World) where
  -- What a look gives, in terms of the queue that it sees.
  unfoldable pub WhenQueued : String → String → List Queue → Queued → Type 0
  WhenQueued id kind queues (queued payload mode) =
      IsQueued id kind queues payload × (mode_for_kind world.policy kind ≡ some mode)
  WhenQueued id kind queues nothing = Unit
  WhenQueued id kind queues failed = Unit

  kind_shown :
      (id kind : String) (payload : Fields)
      → is_wanted_reply id kind payload ≡ true
      → text_by world.str_of (get_or payload "kind" (str kind)) ≡ kind
  unfolding is_wanted_reply has_value text_by get_or get as_str
  kind_shown id kind payload h = ap (text_by world.str_of) (
      get_or_default payload "kind" kind (str kind)
        (is_text (get_or payload "kind" null) kind (and_left (has_value payload "kind" kind) _ h)))

  policy_gives :
      (id kind : String) (queues : List Queue) (source : File) (payload : Fields) (q : Queue)
      (mode : Option Mode)
      → IsQueued id kind queues payload
      → mode_for_kind world.policy kind ≡ mode
      → WhenQueued id kind queues (with_policy source payload q mode).0
  unfolding WhenQueued
  policy_gives id kind queues source payload q none h e = tt
  policy_gives id kind queues source payload q (some mode) h e = (h, e)

  take_reply-WhenQueued :
      (id kind : String) (search : Search) (q : Queue) (later : List Queue)
      → WhenFound id kind q.pending search
      → WhenQueued id kind (q ∷ later) (take_reply world.str_of world.policy kind search q).0
  unfolding take_reply WhenFound WhenQueued
  take_reply-WhenQueued id kind (found source payload) q later h =
      policy_gives id kind (q ∷ later) source payload q _ (inl h.0, h.1)
        (ap (mode_for_kind world.policy) (sym (kind_shown id kind payload h.1)))
  take_reply-WhenQueued id kind missing q later h = tt
  take_reply-WhenQueued id kind crashed q later h = tt

  queued_later :
      (id kind : String) (q : Queue) (queues : List Queue) (reply : Queued)
      → WhenQueued id kind queues reply
      → WhenQueued id kind (q ∷ queues) reply
  unfolding WhenQueued
  queued_later id kind q queues (queued payload mode) h = ((inr h.0.0, h.0.1), h.1)
  queued_later id kind q queues nothing h = tt
  queued_later id kind q queues failed h = tt

  no_reply :
      (source : File) (payload : Fields) (q : Queue) (mode : Option Mode)
      → (with_policy source payload q mode).0 ≡ nothing
      → (with_policy source payload q mode).1 ≡ q
  no_reply source payload q none h = refl
  no_reply source payload q (some mode) h = cc

  -- a look that finds nothing leaves the queue
  after_nothing :
      (kind : String) (search : Search) (q : Queue)
      → (take_reply world.str_of world.policy kind search q).0 ≡ nothing
      → (take_reply world.str_of world.policy kind search q).1 ≡ q
  unfolding take_reply
  after_nothing kind missing q h = refl
  after_nothing kind crashed q h = refl
  after_nothing kind (found source payload) q h =
      no_reply source payload q
        (mode_for_kind world.policy (text_by world.str_of (get_or payload "kind" (str kind)))) h

  or_later-WhenQueued :
      (id kind : String) (changes : List (Queue → Queue)) (q : Queue) (r : Queued × Queue)
      → WhenQueued id kind (q ∷ looks changes q) r.0
      → (r.0 ≡ nothing → r.1 ≡ q)
      → WhenQueued id kind
          (looks changes q)
          (poll_queue_reply world.str_of world.policy id kind changes q).0
      → WhenQueued id kind
          (q ∷ looks changes q)
          (or_later world.str_of world.policy r
            (poll_queue_reply world.str_of world.policy id kind changes)).0
  unfolding WhenQueued
  or_later-WhenQueued id kind changes q (queued payload mode, r) h same rest = h
  or_later-WhenQueued id kind changes q (failed, r) h same rest = tt
  or_later-WhenQueued id kind changes q (nothing, r) h same rest =
      subst
        (λ p.
          WhenQueued id kind (q ∷ looks changes q)
            (poll_queue_reply world.str_of world.policy id kind changes p).0)
        (sym (same refl))
        (queued_later id kind q (looks changes q)
          (poll_queue_reply world.str_of world.policy id kind changes q).0 rest)

  pub poll_queue_reply-WhenQueued :
      (id kind : String) (changes : List (Queue → Queue)) (q : Queue)
      → WhenQueued id kind
          (looks changes q)
          (poll_queue_reply world.str_of world.policy id kind changes q).0
  unfolding poll_queue_reply looks WhenQueued find_reply
  poll_queue_reply-WhenQueued id kind [] q = tt
  poll_queue_reply-WhenQueued id kind (change ∷ changes) q =
      let p = change q in
      let search = find_reply id kind p in
      or_later-WhenQueued id kind changes p (take_reply world.str_of world.policy kind search p)
        (take_reply-WhenQueued id kind search p (looks changes p) (find_in-finds id kind p.pending))
        (after_nothing kind search p) (poll_queue_reply-WhenQueued id kind changes p)

  -- The message allows the request.
  abbrev pub IsAllowing : Yield → Type 0
  IsAllowing (yields message) =
      content_of (message_text message) ≡ permission_reply (request_id world) allow
  IsAllowing raises = ⊥

  -- What has to be there for a command to be allowed.
  abbrev pub IsApproved : Queue → Type 0
  IsApproved q =
      (mode_for_kind world.policy "permission_reply" ≡ some state_driven)
      × (((payload : Fields) × Any (IsPending payload) (looks world.changes q)
            × (get payload "kind" ≡ str "permission_reply")
            × (get payload "request_id" ≡ str (request_id world))
            × (get payload "decision" ≡ str "allow"))
          ⊎ Any IsAllowing (poll_replies world))

  abbrev pub Allows : Run → Type 0
  Allows run = Any (λ o. o ≡ printed allow_output) run.outputs

  -- the message says so, if it is what makes the run allow
  pub from_decision :
      (d : Decision) (q : Queue)
      → Allows (record { ending = returns; outputs = decide world d ∷ []; queue = q })
      → d ≡ allow
  from_decision allow q h = refl
  from_decision deny q (inl h) = absurd (deny≢allow h)
  from_decision deny q (inr h) = elim h [ ]

  pub content_decides :
      (content : Content) (d : Decision)
      → permission_content world content ≡ some d
      → content ≡ permission_reply (request_id world) d
  content_decides (permission_reply id decision) d h = elim (Bool-cases (id == request_id world)) [
    | inl e ↦
        pair_eq id (request_id world) decision d ((eq_iff id (request_id world)).0 e)
          (some_inj (rw e at h))
    | inr e ↦ absurd (none≢some (rw e at h))
  ]
  content_decides (question_reply id answer) d h = cc
  content_decides (status_request id) d h = cc
  content_decides unrecognized_reply d h = cc
