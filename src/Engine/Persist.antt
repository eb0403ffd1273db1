-- ===== src/Engine/Persist.antt =====
-- What writing the database file leaves in the files, when it succeeds and when it fails.
use fsql.Engine.{
  save_file, persist, Database, save_text, write_chunks, rename_file, sync_directory, sync_opened,
  persist_catalog,
}
use fsql.Exec.{◌>>◌, continue_cases, continue_induction, sequence_ok, modify}
use fsql.Common.{
  ℕ, zero, suc, ◌≤◌, ◌<◌, Str, Bool, true, false, [], ◌∷◌, ◌++◌, append-nil, append_assoc, some,
  Result, ok, err, ◌≡◌, ◌≢◌, refl, sym, subst, ◌∙◌, ap, arith, length, take, drop, unwrap_or,
  if◌then◌else◌, take-append-drop, length-drop-cons,
}
use fsql.Catalog
use fsql.Utf8.{Bytes, utf8}
use fsql.Ordered.{str_ord, key_eq_iff}
use fsql.BTreeMap
use fsql.BTreeMap.{BTreeMap}
use fsql.BTreeMap.Laws.{get-insert, get-insert_self, get-remove}
use fsql.Options.{FsyncMode, always, data_only, never, DatabaseOptions}
use fsql.Platform.{Platform}
use fsql.World.{World, call, contents, write_file, sync_file, create_parent, has_parent}

-- the steps that only call the file system
pub call-files : (w : World) → (call w).1.files ≡ w.files
unfolding call
call-files w = refl

create_parent-files : (path : Str) (w : World) → (create_parent path w).1.files ≡ w.files
unfolding create_parent
create_parent-files path w = go (has_parent path)
  where
    go : (b : Bool) → (if b then call w else (ok tt, w)).1.files ≡ w.files
    go true = call-files w
    go false = refl

sync_file-files : (mode : FsyncMode) (w : World) → (sync_file mode w).1.files ≡ w.files
unfolding sync_file
sync_file-files always w = call-files w
sync_file-files data_only w = call-files w
sync_file-files never w = refl

sync_opened-files : (m : Result (Unit {0}) × World) → (sync_opened m).files ≡ m.1.files
unfolding sync_opened
sync_opened-files (ok u, w) = call-files w
sync_opened-files (err e, w) = refl

sync_directory-files : (mode : FsyncMode) (w : World) → (sync_directory mode w).files ≡ w.files
unfolding sync_directory
sync_directory-files always w = sync_opened-files (call w) ∙ call-files w
sync_directory-files data_only w = sync_opened-files (call w) ∙ call-files w
sync_directory-files never w = refl

get-insert_other :
    (j k : Str) (v : Str) (m : BTreeMap Str Str)
    → k ≢ j
    → BTreeMap.get j (BTreeMap.insert k v m) ≡ BTreeMap.get j m
get-insert_other j k v m h = ground (arith, get-insert j k v m, key_eq_iff j k)

contents-write : (path text : Str) (w : World) → contents path (write_file path text w) ≡ text
unfolding contents write_file
contents-write path text w = ap (λ t. unwrap_or t []) (get-insert_self path text w.files)

get-files :
    (path : Str) {m n : BTreeMap Str Str} → m ≡ n → BTreeMap.get path m ≡ BTreeMap.get path n
get-files path h = ap (λ m. BTreeMap.get path m) h

contents-files : (path : Str) (v w : World) → v.files ≡ w.files → contents path v ≡ contents path w
unfolding contents
contents-files path v w h = ap (λ m. unwrap_or (BTreeMap.get path m) []) h

module _ (tmp path : Str) (apart : tmp ≢ path) where
  write_file-keeps :
      (text : Str) (w : World)
      → BTreeMap.get path (write_file tmp text w).files ≡ BTreeMap.get path w.files
  unfolding write_file
  write_file-keeps text w = get-insert_other path tmp text w.files apart

  write_chunks-keeps :
      (fuel size : ℕ) (left : Str) (w : World)
      → BTreeMap.get path (write_chunks fuel size tmp left w).1.files ≡ BTreeMap.get path w.files
  unfolding write_chunks
  write_chunks-keeps zero size left w = refl
  write_chunks-keeps (suc fuel) size [] w = refl
  write_chunks-keeps (suc fuel) size (c ∷ left) w =
      continue_induction (λ m. BTreeMap.get path m.1.files ≡ BTreeMap.get path w.files) (call w).0
        (call w).1 _ (λ e. get-files path (call-files w))
        (λ u.
          write_chunks-keeps fuel size (drop size (c ∷ left)) _
          ∙ write_file-keeps _ (call w).1
          ∙ get-files path (call-files w))

-- Each chunk is written behind the ones before it, and the fuel is enough for all of them.
write_chunks-contents :
    (fuel size : ℕ) (tmp left : Str) (w : World)
    → 0 < size
    → length left ≤ fuel
    → (write_chunks fuel size tmp left w).0 ≡ ok tt
    → contents tmp (write_chunks fuel size tmp left w).1 ≡ contents tmp w ++ left
unfolding write_chunks contents
write_chunks-contents zero size tmp [] w s n h = sym (append-nil _)
write_chunks-contents zero size tmp (c ∷ left) w s n h = absurd (omega (arith, n))
write_chunks-contents (suc fuel) size tmp [] w s n h = sym (append-nil _)
write_chunks-contents (suc fuel) size tmp (c ∷ left) w s n h =
    let written = write_file tmp (contents tmp (call w).1 ++ take size (c ∷ left)) (call w).1 in
    let q =
      sequence_ok (call w).0 (call w).1
        (λ v.
          write_chunks fuel size tmp (drop size (c ∷ left))
            (write_file tmp (contents tmp v ++ take size (c ∷ left)) v))
        h in
    ap (λ m. contents tmp m.1) q.1
    ∙ write_chunks-contents fuel size tmp (drop size (c ∷ left)) written s
        (omega (arith, n, length-drop-cons size c left s)) (sym (ap (λ m. m.0) q.1) ∙ h)
    ∙ ap (λ x. x ++ drop size (c ∷ left)) (contents-write tmp _ (call w).1)
    ∙ append_assoc (contents tmp (call w).1) (take size (c ∷ left)) (drop size (c ∷ left))
    ∙ ap (λ x. contents tmp (call w).1 ++ x) (take-append-drop size (c ∷ left))
    ∙ ap (λ m. unwrap_or (BTreeMap.get tmp m) [] ++ c ∷ left) (call-files w)

-- what writing the file `path` leaves there: all of the text, or what was there before
unfoldable pub IsSaved : Str → Bytes → World → Result (Unit {0}) × World → Type 0
IsSaved path encoded before (ok _, after) = BTreeMap.get path after.files ≡ some encoded
IsSaved path encoded before (err _, after) =
    BTreeMap.get path after.files ≡ BTreeMap.get path before.files

rename_file-contents :
    (tmp path encoded : Str) (w : World)
    → tmp ≢ path
    → contents tmp w ≡ encoded
    → BTreeMap.get path (rename_file tmp path w).files ≡ some encoded
unfolding rename_file
rename_file-contents tmp path encoded w apart h = ground (
  arith,
  h,
  get-remove path tmp (BTreeMap.insert path (contents tmp w) w.files),
  get-insert_self path (contents tmp w) w.files,
  key_eq_iff path tmp,
)

module _ (p : Platform) (path : Str) (apart : p.temp_path path ≢ path) where
  -- from the synchronised temporary file to its new name
  finish-IsSaved :
      (mode : FsyncMode) (encoded : Str) (before v : World)
      → contents (p.temp_path path) v ≡ encoded
      → BTreeMap.get path v.files ≡ BTreeMap.get path before.files
      → IsSaved path encoded before (
          (sync_file mode
              >> (call
                  >> (modify (rename_file (p.temp_path path) path)
                      >> modify (sync_directory mode))))
            v)
  unfolding IsSaved
  finish-IsSaved mode encoded before v h same =
      let s = (sync_file mode v).1 in
      let fs = call-files s ∙ sync_file-files mode v in
      continue_cases (IsSaved path encoded before) (sync_file mode v).0 s _
        (λ e q. get-files path (sync_file-files mode v) ∙ same)
        (λ u q.
          continue_cases (IsSaved path encoded before) (call s).0 (call s).1 _
            (λ e q. get-files path fs ∙ same)
            (λ u q.
              get-files path (sync_directory-files mode _)
              ∙ rename_file-contents _ path encoded (call s).1 apart
                  (contents-files _ (call s).1 v fs ∙ h)))

  save_text-IsSaved :
      (o : DatabaseOptions) (encoded : Str) (w : World)
      → 0 < o.page_size
      → IsSaved path encoded w (save_text p path o encoded w)
  unfolding save_text IsSaved
  save_text-IsSaved o encoded w size =
      let tmp = p.temp_path path in
      let v = (create_parent path w).1 in
      let opened = write_file tmp [] (call v).1 in
      let chunks = write_chunks (length encoded) o.page_size tmp encoded opened in
      let fs = call-files v ∙ create_parent-files path w in
      let kept =
        write_chunks-keeps tmp path apart (length encoded) o.page_size encoded opened
        ∙ write_file-keeps tmp path apart [] (call v).1
        ∙ get-files path fs in
      continue_cases (IsSaved path encoded w) (create_parent path w).0 v _
        (λ e q. get-files path (create_parent-files path w))
        (λ u q.
          continue_cases (IsSaved path encoded w) (call v).0 (call v).1 _ (λ e q. get-files path fs)
            (λ u q.
              continue_cases (IsSaved path encoded w) chunks.0 chunks.1 _ (λ e q. kept)
                (λ u q.
                  finish-IsSaved o.fsync_mode encoded w chunks.1
                    (write_chunks-contents (length encoded) o.page_size tmp encoded opened size
                        (omega arith) q
                      ∙ ap (λ x. x ++ encoded) (contents-write tmp [] (call v).1))
                    kept)))

  -- Where the path of the temporary file is another one and pages are not empty, `persist` of a
  -- database with a file leaves in it the encoded catalog when it succeeds, and what was in it
  -- before, untouched, when it gives an error.
  pub persist-IsSaved :
      (db : Database) (w : World)
      → db.path ≡ some path
      → 0 < db.options.page_size
      → IsSaved path (utf8 (Catalog.encode db.catalog)) w (persist p db w)
  unfolding persist persist_catalog save_file
  persist-IsSaved db w at size =
      subst
        (λ o.
          IsSaved path (utf8 (Catalog.encode db.catalog)) w
            (save_file p db.options (utf8 (Catalog.encode db.catalog)) o w))
        (sym at) (save_text-IsSaved db.options (utf8 (Catalog.encode db.catalog)) w size)
