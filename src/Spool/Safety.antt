-- ===== src/Spool/Safety.antt =====
-- Publishing without `--overwrite` in scripts/forge_memory_spool.py changes no file that exists.
use rfc_codex_gentoo_stage.Prelude.{
  String, true, false, List, [], ◌∷◌, Option, none, some, ◌≡◌, refl, inl, inr, Bool-cases,
  if◌then◌else◌,
}
use rfc_codex_gentoo_stage.Text.{is_empty, concat}
use rfc_codex_gentoo_stage.Value.{Fields, dict}
use rfc_codex_gentoo_stage.Dns.Records.{find}
use rfc_codex_gentoo_stage.Spool.Check.{require_safe_id, normalized_prefix, reject_secret_keys}
use rfc_codex_gentoo_stage.Spool.Files.{
  World, State, checked, reject, same_path, event_file_for, ◌/path◌,
}
use rfc_codex_gentoo_stage.Spool.Publish.{
  within_dir, StoredObject, PublishArguments, Session, existing, newest, or_missing, or_relative,
  list_manifests, copy_object, copy_objects, metadata, find_session, write_manifest,
  publish_to_store, store_or_raise, publish_found, publish_session, object_path,
}
use rfc_codex_gentoo_stage.Spool.Guarded.{
  Reads, Reads-bind, checked-Reads, reject-Reads, read_file-Reads, Keeps, Reads-Keeps, Keeps-bind,
  KeepsFree, KeepsFree-bind, write_file-KeepsFree, write_then-KeepsFree, require_free-Keeps,
}

or_missing-Reads : (o : Option String) → Reads (or_missing o)
or_missing-Reads none = record { same = λ s. refl }
or_missing-Reads (some text) = record { same = λ s. refl }

or_relative-Reads : (o : Option String) → Reads (or_relative o)
or_relative-Reads none = record { same = λ s. refl }
or_relative-Reads (some text) = record { same = λ s. refl }

existing-Reads : (path : String) (o : Option String) → Reads (existing path o)
existing-Reads path none = record { same = λ s. refl }
existing-Reads path (some text) = record { same = λ s. refl }

newest-Reads : (session_id : String) (paths : List String) → Reads (newest session_id paths)
newest-Reads session_id [] = record { same = λ s. refl }
newest-Reads session_id (p ∷ ps) = record { same = λ s. refl }

list_manifests-Reads :
    (spool_root session_id : String) → Reads (list_manifests spool_root session_id)
unfolding list_manifests
list_manifests-Reads spool_root session_id = record { same = λ s. refl }

metadata-Reads :
    (world : World) (source_file target object_key kind : String)
    → Reads (metadata world source_file target object_key kind)
unfolding metadata
metadata-Reads world source_file target object_key kind =
    Reads-bind _ _ (read_file-Reads source_file)
      (λ text. Reads-bind _ _ (or_missing-Reads text) (λ bytes. record { same = λ s. refl }))

find_session-Reads : (world : World) (args : PublishArguments) → Reads (find_session world args)
unfolding find_session
find_session-Reads world args =
    Reads-bind (checked (require_safe_id args.agent_id "agent-id")) _
      (checked-Reads (require_safe_id args.agent_id "agent-id"))
      (λ agent_id.
        Reads-bind (checked (require_safe_id args.session_id "session-id")) _
          (checked-Reads (require_safe_id args.session_id "session-id"))
          (λ session_id.
            Reads-bind _ _
              (checked-Reads
                (normalized_prefix (if args.is_filesystem then args.prefix else args.s3_prefix)))
              (λ prefix.
                Reads-bind _ _
                  (read_file-Reads (event_file_for args.spool_root agent_id session_id))
                  (λ log.
                    Reads-bind _ _
                      (existing-Reads (event_file_for args.spool_root agent_id session_id) log)
                      (λ events.
                        Reads-bind _ _ (list_manifests-Reads args.spool_root session_id)
                          (λ manifests.
                            Reads-bind _ _ (newest-Reads session_id manifests) (λ closeout_manifest.
                              Reads-bind _ _
                                (or_relative-Reads (
                                  within_dir (args.spool_root /path "manifests") closeout_manifest))
                                (λ relative. record { same = λ s. refl }))))))))

module _ (path text : String) where
  copy_object-Keeps :
      (source_file object_file : String)
      → Keeps path text (copy_object source_file object_file false)
  unfolding copy_object
  copy_object-Keeps source_file object_file = require_free-Keeps path text object_file _ (
      KeepsFree-bind path text object_file _ _ (read_file-Reads source_file) (λ o.
        KeepsFree-bind path text object_file _ _ (or_missing-Reads o)
          (λ bytes. write_file-KeepsFree path text object_file bytes)))

  copy_objects-Keeps : (objects : List StoredObject) → Keeps path text (copy_objects objects false)
  unfolding copy_objects
  copy_objects-Keeps [] = Reads-Keeps path text _ (record { same = λ s. refl })
  copy_objects-Keeps (item ∷ rest) =
      Keeps-bind path text (copy_object item.source_file item.target false)
        (λ u. copy_objects rest false) (copy_object-Keeps item.source_file item.target)
        (λ u. copy_objects-Keeps rest)

  write_manifest-KeepsFree :
      (world : World) (file : String) (manifest : Fields)
      → KeepsFree path text file (write_manifest world file manifest)
  unfolding write_manifest
  write_manifest-KeepsFree world file manifest =
      KeepsFree-bind path text file (reject (reject_secret_keys [] (dict manifest))) _
        (reject-Reads (reject_secret_keys [] (dict manifest)))
        (λ u.
          write_then-KeepsFree path text file (concat (world.pretty (dict manifest) ∷ "\n" ∷ []))
            manifest)

  publish_to_store-Keeps :
      (world : World) (session : Session) (root : String)
      → Keeps path text (publish_to_store world session root false)
  unfolding publish_to_store
  publish_to_store-Keeps world session root =
      Keeps-bind path text
        (metadata world session.event_path (object_path root session.event_key) session.event_key
          "event-log")
        _
        (Reads-Keeps path text _
          (metadata-Reads world session.event_path _ session.event_key "event-log"))
        (λ log.
          Keeps-bind path text
            (metadata world session.closeout_manifest (object_path root session.manifest_key)
              session.manifest_key "closeout-manifest")
            _
            (Reads-Keeps path text _ (
              metadata-Reads world session.closeout_manifest _ session.manifest_key
                "closeout-manifest"))
            (λ closed.
              Keeps-bind path text (copy_objects (log ∷ closed ∷ []) false) _
                (copy_objects-Keeps (log ∷ closed ∷ []))
                (λ u.
                  require_free-Keeps path text (object_path root session.publish_manifest_key) _ (
                    write_manifest-KeepsFree world (object_path root session.publish_manifest_key)
                      _))))

  store_or_raise-Keeps :
      (world : World) (session : Session) (root : String)
      → Keeps path text (store_or_raise world session root false)
  unfolding store_or_raise
  store_or_raise-Keeps world session root = elim (Bool-cases (is_empty root)) [
    | inl e ↦ rw e (record { kept = λ s k. k })
    | inr e ↦ rw e (publish_to_store-Keeps world session root)
  ]

  publish_found-Keeps :
      (world : World) (args : PublishArguments) (session : Session)
      → args.is_filesystem ≡ true
      → args.overwrite ≡ false
      → Keeps path text (publish_found world args session)
  unfolding publish_found
  publish_found-Keeps world args session h g =
      rw (h, g) (store_or_raise-Keeps world session args.object_store_root)

  publish_session-Keeps :
      (world : World) (args : PublishArguments)
      → args.is_filesystem ≡ true
      → args.overwrite ≡ false
      → Keeps path text (publish_session world args)
  unfolding publish_session
  publish_session-Keeps world args h g =
      Keeps-bind path text (find_session world args) _
        (Reads-Keeps path text (find_session world args) (find_session-Reads world args))
        (λ session. publish_found-Keeps world args session h g)

-- If a session is published to a directory without overwriting, then every file that exists before has its text
-- afterwards, whether the publication returns or raises.
pub published_files_stay :
    (world : World) (args : PublishArguments) (s : State) (path text : String)
    → args.is_filesystem ≡ true
    → args.overwrite ≡ false
    → find same_path path s.files ≡ some text
    → find same_path path (publish_session world args s).1.files ≡ some text
published_files_stay world args s path text h g e =
    (publish_session-Keeps path text world args h g).kept s e
