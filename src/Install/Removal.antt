-- ===== src/Install/Removal.antt =====
-- Removing a plugin.
use iot_athome.Prelude.{
  ◌≡◌, refl, inl, inr, ◌&&◌, Bool-cases, some, none, Text, codes, if◌then◌else◌, ok, err,
}
use iot_athome.Files.{FsPath, Fs, dir, is_under, join_path, is_file, remove_dir_all}
use iot_athome.Files.Runs.{reading, context, ◌>>=◌}
use iot_athome.Install.{no_manifest, uninstall}

remove_dir_all_dir :
    (p : FsPath) (fs : Fs)
    → fs p ≡ some dir
    → remove_dir_all p fs ≡ (λ q. if is_under p q then none else fs q, ok tt)
unfolding remove_dir_all
remove_dir_all_dir p fs h = rw h refl

-- For a directory of that name, removal succeeds exactly if it has the file `manifest.yaml`; then all
-- that was in it is gone and every other path is as before, and otherwise nothing changes.
pub uninstall_exact :
    (id : Text) (plugin_dir : FsPath) (fs : Fs) (q : FsPath)
    → fs (join_path plugin_dir id) ≡ some dir
    → ((uninstall id plugin_dir fs).0 q ≡ (
        if is_file (join_path (join_path plugin_dir id) (codes "manifest.yaml")) fs
          && is_under (join_path plugin_dir id) q
        then none
        else fs q))
      × ((uninstall id plugin_dir fs).1 ≡ (
          if is_file (join_path (join_path plugin_dir id) (codes "manifest.yaml")) fs
          then ok tt
          else err (no_manifest (join_path plugin_dir id))))
unfolding uninstall ◌>>=◌ reading context
uninstall_exact id plugin_dir fs q h =
    let gone = remove_dir_all_dir (join_path plugin_dir id) fs h in
    elim (Bool-cases (is_file (join_path (join_path plugin_dir id) (codes "manifest.yaml")) fs)) [
      | inl e ↦ rw (h, e, gone) (refl, refl)
      | inr e ↦ rw (h, e) (refl, refl)
    ]
