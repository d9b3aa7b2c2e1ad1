-- ===== src/Config/Files.antt =====
-- The configuration that is read from the files of the pod.
use bke_console_service.Prelude.{
  ℕ, ◌≡◌, refl, ap, ◌∙◌, not, ◌&&◌, List, [], ◌∷◌, Option, none, some, arith, if◌then◌else◌,
}
use bke_console_service.Constants.{console_service_configmap, console_service_default_namespace}
use bke_console_service.Text.{Text, text_eq}
use bke_console_service.World.{Outcome, ok, err, panic, Dict, get?, get_bytes, or_nil, World, Env}
use bke_console_service.World.Dicts.{get?-put}
use bke_console_service.Config.{
  DirEntry, config_dir, entry_path, parse_config, add_content, read_entry, read_entries,
  get_config_from_pod, config_of, get_console_service_config,
}

abbrev readable : Outcome Text → Option Text
readable (ok content) = some content
readable (err e) = none
readable panic = none

abbrev or_else : Option Text → Option Text → Option Text
or_else none other = other
or_else (some v) other = some v

module _ {S : Type 0} (env : Env S) where
  -- What an entry gives for a name: its content, if it is a readable file of that name.
  abbrev pub content_for : ℕ → Text → DirEntry → Option Text
  content_for i key file =
      if not file.is_dir && text_eq file.name key
      then readable (env.read_file i (entry_path file))
      else none

  -- What the last readable file of a name holds.
  abbrev pub mounted : ℕ → Text → List DirEntry → Option Text
  mounted i key [] = none
  mounted i key (file ∷ files) = or_else (mounted i key files) (content_for i key file)

module _ {S : Type 0} (env : Env S) (read_dir : Text → Outcome (List DirEntry)) where
  get?-add_content :
      (name key : Text) (r : Outcome Text) (m : Dict Text)
      → get? key (add_content name r m)
        ≡ or_else (if text_eq name key then readable r else none) (get? key m)
  unfolding add_content
  get?-add_content name key (ok content) m = ground (arith, get?-put name key content m)
  get?-add_content name key (err e) m = ground arith
  get?-add_content name key panic m = ground arith

  get?-read_entry :
      (i : ℕ) (file : DirEntry) (key : Text) (m : Dict Text)
      → get? key (read_entry env read_dir i file m)
        ≡ or_else (content_for env i key file) (get? key m)
  unfolding read_entry
  get?-read_entry i file key m =
      ground (arith, get?-add_content file.name key (env.read_file i (entry_path file)) m)

  or_else_assoc : (a b c : Option Text) → or_else a (or_else b c) ≡ or_else (or_else a b) c
  or_else_assoc none b c = refl
  or_else_assoc (some v) b c = refl

  or_else-none : (a : Option Text) → or_else a none ≡ a
  or_else-none none = refl
  or_else-none (some v) = refl

  get?-read_entries :
      (i : ℕ) (files : List DirEntry) (key : Text) (m : Dict Text)
      → get? key (read_entries env read_dir i files m)
        ≡ or_else (mounted env i key files) (get? key m)
  unfolding read_entries
  get?-read_entries i [] key m = refl
  get?-read_entries i (file ∷ files) key m =
      get?-read_entries i files key (read_entry env read_dir i file m)
      ∙ ap (or_else (mounted env i key files)) (get?-read_entry i file key m)
      ∙ or_else_assoc (mounted env i key files) (content_for env i key file) (get? key m)

  -- Where the config map cannot be read and the directory can, the configuration is that of a map
  -- in which every key has the content of the last readable file of that name, and is empty if
  -- there is none; nothing changes.
  pub get_console_service_config-files :
      (files : List DirEntry) (e : Text) (w : World S)
      → env.get_config_map console_service_default_namespace console_service_configmap w.cluster
        ≡ err e
      → read_dir config_dir ≡ ok files
      → (m : Dict Text) × (get_console_service_config env read_dir w ≡ (ok (parse_config m), w))
        × ((key : Text) → get_bytes key m ≡ or_nil (mounted env w.calls key files))
  unfolding get_console_service_config config_of get_config_from_pod get_bytes
  get_console_service_config-files files e w unread listed = (
    read_entries env read_dir w.calls files [],
    rw unread (rw listed refl),
    λ key. ap or_nil (
        get?-read_entries w.calls files key []
        ∙ unfold get? in or_else-none (mounted env w.calls key files)),
  )
