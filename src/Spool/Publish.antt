-- ===== src/Spool/Publish.antt =====
-- `publish_session` of scripts/forge_memory_spool.py, for both of its backends.
use Prim.Native.String.{compare}
use rfc_codex_gentoo_stage.Prelude.{
  ℕ, pos, String, Bool, false, not, ◌||◌, List, [], ◌∷◌, ◌++◌, map, Option, none, some, ◌==◌,
  if◌then◌else◌, starts_with,
}
use rfc_codex_gentoo_stage.Text.{split, concat, is_empty, drop_prefix}
use rfc_codex_gentoo_stage.Text.Ends.{ends_with}
use rfc_codex_gentoo_stage.Sorted.{sort_by}
use rfc_codex_gentoo_stage.Value.{Value, str, int, list, dict, Fields}
use rfc_codex_gentoo_stage.Dns.Records.{find}
use rfc_codex_gentoo_stage.Spool.Check.{
  object_exists, event_log_missing, manifest_missing, store_root_missing, upload_failed,
  require_safe_id, normalized_prefix, require_s3_bucket, reject_secret_keys,
}
use rfc_codex_gentoo_stage.Spool.Files.{
  Files, World, Spool, pure, raise, checked, reject, ok, err, uncaught, ◌>>=◌, ◌>>◌, read_file,
  write_file, ◌/path◌, session_dir, event_file_for, same_path, size_of,
}
use rfc_codex_gentoo_stage.Spool.Events.{object, items}

-- the path of a file in a directory, from the directory on
unfoldable pub within_dir : String → String → Option String
unfolding drop_prefix concat
within_dir directory path =
    let prefix = concat (directory ∷ "/" ∷ []) in
    if starts_with path prefix then some (drop_prefix prefix path) else none

abbrev is_named : String → Option String → Bool
is_named name none = false
is_named name (some rest) = rest == name || ends_with rest (concat ("/" ∷ name ∷ []))

-- `manifest_root.glob(f"**/{name}")`
unfoldable pub files_named : String → String → Files → List String
unfolding within_dir ends_with concat
files_named directory name [] = []
files_named directory name ((path, text) ∷ files) =
    let rest = files_named directory name files in
    if is_named name (within_dir directory path) then path ∷ rest else rest

unfoldable pub manifest_files_for : String → String → Files → List String
unfolding files_named sort_by concat ◌/path◌
manifest_files_for spool_root session_id files =
    sort_by compare
      (files_named (spool_root /path "manifests") (concat (session_id ∷ ".json" ∷ [])) files)

unfoldable pub join_parts : String → List String → String
unfolding ◌/path◌
join_parts directory [] = directory
join_parts directory (part ∷ parts) = join_parts (directory /path part) parts

-- `root / key`, for a key without empty parts
unfoldable pub object_path : String → String → String
unfolding join_parts split
object_path root object_key = join_parts root (split b'/' object_key)

-- An object to publish, as its metadata name it.
pub record StoredObject : Type 0 where
  pub kind : String
  pub source_file : String
  pub object_key : String
  pub target : String
  pub sha256 : String
  pub size_bytes : ℕ

pub record PublishArguments : Type 0 where
  pub spool_root : String
  pub is_filesystem : Bool
  pub object_store_root : String
  pub s3_bucket : String
  pub s3_prefix : String
  pub session_id : String
  pub agent_id : String
  pub prefix : String
  pub overwrite : Bool

-- The names and keys of a session that is published.
pub record Session : Type 0 where
  pub agent_id : String
  pub session_id : String
  pub prefix : String
  pub event_path : String
  pub closeout_manifest : String
  pub event_key : String
  pub manifest_key : String
  pub publish_manifest_key : String

abbrev last_of : String → List String → String
last_of path [] = path
last_of path (p ∷ ps) = last_of p ps

abbrev pub newest : String → List String → Spool String
newest session_id [] = raise (manifest_missing session_id)
newest session_id (path ∷ paths) = pure (last_of path paths)

abbrev pub existing : String → Option String → Spool String
existing path none = raise (event_log_missing path)
existing path (some text) = pure text

-- `path.read_bytes()`, which raises for a file that does not exist
abbrev pub or_missing : Option String → Spool String
or_missing none s = (err uncaught, s)
or_missing (some text) s = (ok text, s)

abbrev pub or_relative : Option String → Spool String
or_relative none s = (err uncaught, s)
or_relative (some rest) s = (ok rest, s)

unfoldable pub list_manifests : String → String → Spool (List String)
unfolding manifest_files_for
list_manifests spool_root session_id s = (ok (manifest_files_for spool_root session_id s.files), s)

abbrev is_taken : Option String → Bool → Bool
is_taken none overwrite = false
is_taken (some text) overwrite = not overwrite

-- `raise SpoolError` if the file exists and must not be overwritten
unfoldable pub require_free : String → Bool → Spool (Unit {0})
unfolding find
require_free path overwrite s =
    if is_taken (find same_path path s.files) overwrite
    then raise (object_exists path) s
    else pure tt s

unfoldable pub copy_object : String → String → Bool → Spool (Unit {0})
unfolding require_free read_file write_file
copy_object source_file object_file overwrite = do
  require_free object_file overwrite
  text ← read_file source_file
  bytes ← or_missing text
  write_file object_file bytes

unfoldable pub copy_objects : List StoredObject → Bool → Spool (Unit {0})
unfolding copy_object
copy_objects [] overwrite = pure tt
copy_objects (item ∷ rest) overwrite = do
  copy_object item.source_file item.target overwrite
  copy_objects rest overwrite

module _ (world : World) where
  -- `file_metadata` and `s3_file_metadata`, which differ in what they call the target
  unfoldable pub metadata : String → String → String → String → Spool StoredObject
  unfolding read_file size_of
  metadata source_file target object_key kind = do
    text ← read_file source_file
    bytes ← or_missing text
    pure (record {
      kind = kind;
      source_file = source_file;
      object_key = object_key;
      target = target;
      sha256 = world.sha256 bytes;
      size_bytes = size_of bytes;
    })

  unfoldable pub object_value : String → StoredObject → Value
  object_value target_name item = dict (
      object (
        ("kind", str item.kind)
        ∷ ("source_file", str item.source_file)
        ∷ ("object_key", str item.object_key)
        ∷ (target_name, str item.target)
        ∷ ("sha256", str item.sha256)
        ∷ ("size_bytes", int (pos item.size_bytes))
        ∷ []))

  -- `subprocess.run([cli, "s3", "cp", source_file, object_uri], check=True)`
  unfoldable pub upload_s3_object : String → String → Spool (Unit {0})
  upload_s3_object source_file object_uri s =
      if world.uploads_well s.uploads (source_file, object_uri)
      then (ok tt, record s { uploads = s.uploads ++ (source_file, object_uri) ∷ [] })
      else raise (upload_failed object_uri) s

  unfoldable pub upload_objects : List StoredObject → Spool (Unit {0})
  unfolding upload_s3_object
  upload_objects [] = pure tt
  upload_objects (item ∷ rest) = do
    upload_s3_object item.source_file item.target
    upload_objects rest

  -- the checks that both backends share
  unfoldable pub find_session : PublishArguments → Spool Session
  unfolding require_safe_id normalized_prefix event_file_for read_file list_manifests within_dir
      concat ◌/path◌
  find_session args = do
    agent_id ← checked (require_safe_id args.agent_id "agent-id")
    session_id ← checked (require_safe_id args.session_id "session-id")
    prefix ←
        checked (normalized_prefix (if args.is_filesystem then args.prefix else args.s3_prefix))
    log ← read_file (event_file_for args.spool_root agent_id session_id)
    events ← existing (event_file_for args.spool_root agent_id session_id) log
    manifests ← list_manifests args.spool_root session_id
    closeout_manifest ← newest session_id manifests
    relative ← or_relative (within_dir (args.spool_root /path "manifests") closeout_manifest)
    pure (record {
      agent_id = agent_id;
      session_id = session_id;
      prefix = prefix;
      event_path = event_file_for args.spool_root agent_id session_id;
      closeout_manifest = closeout_manifest;
      event_key =
          concat
            (prefix ∷ "/agents/" ∷ agent_id ∷ "/sessions/" ∷ session_id ∷ "/events.jsonl" ∷ []);
      manifest_key = concat (prefix ∷ "/manifests/" ∷ relative ∷ []);
      publish_manifest_key =
          concat (prefix ∷ "/publish-manifests/" ∷ agent_id ∷ "/" ∷ session_id ∷ ".json" ∷ []);
    })

  unfoldable pub store_manifest : String → Session → List StoredObject → String → Fields
  unfolding object_value
  store_manifest root session objects file = object (
      ("schema", str "rfc-codex.forge-object-store-publish.v1")
      ∷ ("published_at_utc", str world.utc_now)
      ∷ ("backend", str "filesystem")
      ∷ ("object_store_root", str root)
      ∷ ("prefix", str session.prefix)
      ∷ ("session_id", str session.session_id)
      ∷ ("agent_id", str session.agent_id)
      ∷ ("host", str world.host)
      ∷ ("object_count", int (pos 2))
      ∷ ("objects", list (items (map (object_value "object_file") objects)))
      ∷ ("publish_manifest_key", str session.publish_manifest_key)
      ∷ ("publish_manifest_file", str file)
      ∷ [])

  -- writes the manifest of the publication, after its check
  unfoldable pub write_manifest : String → Fields → Spool Fields
  unfolding reject_secret_keys write_file concat
  write_manifest file manifest = do
    reject (reject_secret_keys [] (dict manifest))
    write_file file (concat (world.pretty (dict manifest) ∷ "\n" ∷ []))
    pure manifest

  unfoldable pub publish_to_store : Session → String → Bool → Spool Fields
  unfolding metadata object_path copy_objects require_free store_manifest write_manifest
  publish_to_store session root overwrite = do
    log ←
        metadata session.event_path (object_path root session.event_key) session.event_key
          "event-log"
    closed ←
        metadata session.closeout_manifest (object_path root session.manifest_key)
          session.manifest_key "closeout-manifest"
    copy_objects (log ∷ closed ∷ []) overwrite
    require_free (object_path root session.publish_manifest_key) overwrite
    write_manifest (object_path root session.publish_manifest_key) (
        store_manifest root session (log ∷ closed ∷ [])
          (object_path root session.publish_manifest_key))

  abbrev pub uri_of : String → String → String
  uri_of bucket object_key = concat ("s3://" ∷ bucket ∷ "/" ∷ object_key ∷ [])

  unfoldable pub s3_manifest : String → Session → List StoredObject → String → Fields
  unfolding object_value concat
  s3_manifest bucket session objects file = object (
      ("schema", str "rfc-codex.forge-object-store-publish.v1")
      ∷ ("published_at_utc", str world.utc_now)
      ∷ ("backend", str "s3")
      ∷ ("s3_bucket", str bucket)
      ∷ ("prefix", str session.prefix)
      ∷ ("session_id", str session.session_id)
      ∷ ("agent_id", str session.agent_id)
      ∷ ("host", str world.host)
      ∷ ("object_count", int (pos 3))
      ∷ ("objects", list (items (map (object_value "object_uri") objects)))
      ∷ ("publish_manifest_key", str session.publish_manifest_key)
      ∷ ("publish_manifest_uri", str (uri_of bucket session.publish_manifest_key))
      ∷ ("publish_manifest_file", str file)
      ∷ [])

  abbrev pub pending : String → Session → String → StoredObject
  pending bucket session file = record {
    kind = "publish-manifest";
    source_file = file;
    object_key = session.publish_manifest_key;
    target = uri_of bucket session.publish_manifest_key;
    sha256 = "pending-upload";
    size_bytes = 0;
  }

  unfoldable pub publish_to_s3 : PublishArguments → Session → Spool Fields
  unfolding require_s3_bucket session_dir metadata s3_manifest write_manifest upload_objects concat
      ◌/path◌
  publish_to_s3 args session = do
    bucket ← checked (require_s3_bucket args.s3_bucket)
    log ←
        metadata session.event_path (uri_of bucket session.event_key) session.event_key "event-log"
    closed ←
        metadata session.closeout_manifest (uri_of bucket session.manifest_key) session.manifest_key
          "closeout-manifest"
    let file =
        session_dir args.spool_root session.agent_id session.session_id
        /path "publish-manifests"
        /path concat (session.session_id ∷ ".json" ∷ [])
    let objects = log ∷ closed ∷ pending bucket session file ∷ []
    manifest ← write_manifest file (s3_manifest bucket session objects file)
    upload_objects objects
    pure manifest

  unfoldable pub store_or_raise : Session → String → Bool → Spool Fields
  unfolding publish_to_store
  store_or_raise session root overwrite =
      if is_empty root then raise store_root_missing else publish_to_store session root overwrite

  unfoldable pub publish_found : PublishArguments → Session → Spool Fields
  unfolding store_or_raise publish_to_s3
  publish_found args session =
      if args.is_filesystem
      then store_or_raise session args.object_store_root args.overwrite
      else publish_to_s3 args session

  unfoldable pub publish_session : PublishArguments → Spool Fields
  unfolding find_session publish_found
  publish_session args = do session ← find_session args; publish_found args session
