-- ===== src/System/Memory.antt =====
-- A file system in memory, which shows that what is relied on can be met.
use longhub_manager.Common.{
  ◌≡◌, ◌≢◌, refl, sym, ap, ◌∙◌, true, false, Option, none, some, Text, List, [], ◌∷◌, ◌++◌, Result,
  ok, err, lit, text_eq, text_eq_refl, text_eq_iff, if◌then◌else◌, arith,
}
use longhub_manager.System.{FileError, missing, failed, FileInfo, FileSystem}
use longhub_manager.System.Rely.{IsFileSystem}

abbrev pub Disk : Type 0
Disk = List (Text × Text)

unfoldable pub lookup : Text → Disk → Option Text
lookup path [] = none
lookup path ((p, d) ∷ disk) = if text_eq p path then some d else lookup path disk

unfoldable pub erase : Text → Disk → Disk
erase path [] = []
erase path ((p, d) ∷ disk) = if text_eq p path then erase path disk else (p, d) ∷ erase path disk

abbrev pub insert : Text → Text → Disk → Disk
insert path d disk = (path, d) ∷ disk

lookup-erase_self : (path : Text) (disk : Disk) → lookup path (erase path disk) ≡ none
unfolding lookup erase
lookup-erase_self path [] = refl
lookup-erase_self path ((p, d) ∷ disk) = ground (arith, lookup-erase_self path disk)

lookup-erase : (path q : Text) (disk : Disk) → q ≢ path → lookup q (erase path disk) ≡ lookup q disk
unfolding lookup erase
lookup-erase path q [] n = refl
lookup-erase path q ((p, d) ∷ disk) n =
    ground (arith, text_eq_iff p path, text_eq_iff p q, lookup-erase path q disk n)

lookup-insert :
    (path q d : Text) (disk : Disk) → q ≢ path → lookup q (insert path d disk) ≡ lookup q disk
unfolding lookup
lookup-insert path q d disk n = ground (arith, text_eq_iff path q)

lookup-insert_self : (path d : Text) (disk : Disk) → lookup path (insert path d disk) ≡ some d
unfolding lookup
lookup-insert_self path d disk = rw (text_eq_refl path) refl

abbrev pub read_from : Option Text → Result FileError Text
read_from none = err missing
read_from (some d) = ok d

abbrev pub info_from : Option Text → Result FileError FileInfo
info_from none = err missing
info_from (some d) =
    ok (record { is_regular = true; is_symlink = false; is_directory = false; size = 0 })

abbrev pub temp_name : Text
temp_name = lit "t.tmp"

abbrev pub create_in : Option Text → Disk → Result FileError Text × Disk
create_in none disk = (ok temp_name, insert temp_name [] disk)
create_in (some _) disk = (err (failed []), disk)

abbrev pub write_in : Option Text → Text → Text → Disk → Option FileError × Disk
write_in none path bytes disk = (some missing, disk)
write_in (some old) path bytes disk = (none, insert path (old ++ bytes) disk)

abbrev pub rename_in : Option Text → Text → Text → Disk → Option FileError × Disk
rename_in none from to disk = (some missing, disk)
rename_in (some d) from to disk = (none, insert to d (erase from disk))

abbrev pub remove_in : Option Text → Text → Disk → Option FileError × Disk
remove_in none path disk = (some missing, disk)
remove_in (some d) path disk = (none, erase path disk)

-- Calls succeed where their file is there, and there is room for one temporary file.
abbrev pub memory : FileSystem
memory = record {
  Env = Disk;
  lstat = λ path disk. info_from (lookup path disk);
  read_file = λ path disk. read_from (lookup path disk);
  make_dirs = λ path disk. (none, disk);
  create_temp = λ dir disk. create_in (lookup temp_name disk) disk;
  chmod = λ path disk. (none, disk);
  write = λ path bytes disk. write_in (lookup path disk) path bytes disk;
  sync = λ path disk. (none, disk);
  close = λ path disk. (none, disk);
  rename = λ from to disk. rename_in (lookup from disk) from to disk;
  remove = λ path disk. remove_in (lookup path disk) path disk;
}

found : (o : Option Text) (d : Text) → read_from o ≡ ok d → o ≡ some d
found none d h = absurd (ground (arith, h))
found (some e) d h = ground (arith, h)

pub info_missing : (o : Option Text) → info_from o ≡ err missing → read_from o ≡ err missing
info_missing none h = refl
info_missing (some e) h = absurd (ground (arith, h))

abbrev pub HasFile : Text → Text → Disk → Type 0
HasFile q d disk = read_from (lookup q disk) ≡ ok d

insert_others :
    (path q bytes d : Text) (disk : Disk)
    → q ≢ path
    → HasFile q d disk
    → HasFile q d (insert path bytes disk)
insert_others path q bytes d disk n h = ap read_from (lookup-insert path q bytes disk n) ∙ h

insert_self : (path d : Text) (disk : Disk) → HasFile path d (insert path d disk)
insert_self path d disk = ap read_from (lookup-insert_self path d disk)

pub erase_others :
    (path q d : Text) (disk : Disk) → q ≢ path → HasFile q d disk → HasFile q d (erase path disk)
erase_others path q d disk n h = ap read_from (lookup-erase path q disk n) ∙ h

differs : (q d path : Text) (disk : Disk) → HasFile q d disk → lookup path disk ≡ none → q ≢ path
differs q d path disk h k e =
    let gone : read_from (lookup q disk) ≡ err missing =
      ap (λ p. read_from (lookup p disk)) e ∙ ap read_from k in
    ground (arith, sym h ∙ gone)

pub create_case :
    (disk : Disk) (o : Option Text)
    → lookup temp_name disk ≡ o
    → ((name : Text)
        → (create_in o disk).0 ≡ ok name
        → (name ≡ temp_name)
          × (read_from (lookup name disk) ≡ err missing)
          × HasFile name [] (create_in o disk).1)
      × ((q d : Text) → HasFile q d disk → HasFile q d (create_in o disk).1)
create_case disk none k = (
  λ name h.
      let same : name ≡ temp_name = ground (arith, h) in
      (same, rw same (ap read_from k), rw same (insert_self temp_name [] disk)),
  λ q d i. insert_others temp_name q [] d disk (differs q d temp_name disk i k) i,
)
create_case disk (some x) k = (λ name h. absurd (ground (arith, h)), λ q d i. i)

pub write_case :
    (path bytes : Text) (disk : Disk) (o : Option Text)
    → lookup path disk ≡ o
    → ((old : Text)
        → (write_in o path bytes disk).0 ≡ none
        → HasFile path old disk
        → HasFile path (old ++ bytes) (write_in o path bytes disk).1)
      × ((q d : Text) → q ≢ path → HasFile q d disk → HasFile q d (write_in o path bytes disk).1)
write_case path bytes disk none k = (λ old h i. absurd (ground (arith, h)), λ q d n i. i)
write_case path bytes disk (some x) k = (
  λ old h i.
      let same : x ≡ old = ground (arith, found (lookup path disk) old i, k) in
      rw same (insert_self path (old ++ bytes) disk),
  λ q d n i. insert_others path q (x ++ bytes) d disk n i,
)

pub rename_case :
    (from to : Text) (disk : Disk) (o : Option Text)
    → lookup from disk ≡ o
    → ((bytes : Text)
        → (rename_in o from to disk).0 ≡ none
        → HasFile from bytes disk
        → HasFile to bytes (rename_in o from to disk).1)
      × ((q d : Text)
          → q ≢ from
          → q ≢ to
          → HasFile q d disk
          → HasFile q d (rename_in o from to disk).1)
      × ((e : FileError) (q d : Text)
          → (rename_in o from to disk).0 ≡ some e
          → HasFile q d disk
          → HasFile q d (rename_in o from to disk).1)
rename_case from to disk none k =
    (λ bytes h i. absurd (ground (arith, h)), λ q d n n' i. i, λ e q d h i. i)
rename_case from to disk (some x) k = (
  λ bytes h i.
      let same : x ≡ bytes = ground (arith, found (lookup from disk) bytes i, k) in
      rw same (insert_self to bytes (erase from disk)),
  λ q d n n' i. insert_others to q x d (erase from disk) n' (erase_others from q d disk n i),
  λ e q d h i. absurd (ground (arith, h)),
)

pub remove_case :
    (path : Text) (disk : Disk) (o : Option Text)
    → ((remove_in o path disk).0 ≡ none
        → read_from (lookup path (remove_in o path disk).1) ≡ err missing)
      × ((q d : Text) → q ≢ path → HasFile q d disk → HasFile q d (remove_in o path disk).1)
remove_case path disk none = (λ h. absurd (ground (arith, h)), λ q d n i. i)
remove_case path disk (some x) =
    (λ h. ap read_from (lookup-erase_self path disk), λ q d n i. erase_others path q d disk n i)

abbrev pub memory-IsFileSystem : IsFileSystem memory
memory-IsFileSystem = record {
  IsTemp = λ name. name ≡ temp_name;
  create_named = λ dir name disk h. ((create_case disk (lookup temp_name disk) refl).0 name h).0;
  lstat_missing = λ path disk h. info_missing (lookup path disk) h;
  make_dirs_leaves = λ path disk q d i. i;
  create_fresh = λ dir name disk h. ((create_case disk (lookup temp_name disk) refl).0 name h).1;
  create_empty = λ dir name disk h. ((create_case disk (lookup temp_name disk) refl).0 name h).2;
  create_leaves = λ dir disk q d i. (create_case disk (lookup temp_name disk) refl).1 q d i;
  chmod_leaves = λ path disk q d i. i;
  sync_leaves = λ path disk q d i. i;
  close_leaves = λ path disk q d i. i;
  write_done =
      λ path bytes old disk h i. (write_case path bytes disk (lookup path disk) refl).0 old h i;
  write_others =
      λ path bytes q d disk n i. (write_case path bytes disk (lookup path disk) refl).1 q d n i;
  rename_done =
      λ from to bytes disk h i. (rename_case from to disk (lookup from disk) refl).0 bytes h i;
  rename_others =
      λ from to q d disk n k i. (rename_case from to disk (lookup from disk) refl).1 q d n k i;
  rename_failed =
      λ from to e disk h q d i. (rename_case from to disk (lookup from disk) refl).2 e q d h i;
  remove_done = λ path disk h. (remove_case path disk (lookup path disk)).0 h;
  remove_others = λ path q d disk n i. (remove_case path disk (lookup path disk)).1 q d n i;
}
