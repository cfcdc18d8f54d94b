-- ===== src/Server/Stored.antt =====
-- What `stream_to_file` leaves on the disk, and the progress that it reports.
use localsend_rs.Base.{
  ℕ, ◌+◌, ◌≤◌, ◌≡◌, refl, sym, ◌∙◌, ◌⊎◌, inl, inr, Bool, true, false, arith, Bool-cases,
  Option-cases, none, some, List, [], ◌∷◌, ◌++◌, ◌==◌, ==_iff, ==_refl, bytes_eq, String, length,
  append_assoc, append-nil, length-append, if◌then◌else◌,
}
use localsend_rs.HashMap.{get}
use localsend_rs.HashMap.Laws.{get-insert, contains_key-get}
use localsend_rs.Server.Paths.{PathBuf, dedup_path}
use localsend_rs.Server.Names.{HasFree, dedup_path-free_iff}
use localsend_rs.Server.Files.{
  Disk, Faults, Piece, bytes, broken, Copied, copied, Adapter, poll_write, copy, Streamed, exists,
  write_file, open_file, stream_to_file,
}

-- The bytes of the body before its first broken piece.
unfoldable pub content : List Piece → List ℕ
content [] = []
content (bytes buf tick ∷ rest) = buf ++ content rest
content (broken msg ∷ rest) = []

unfoldable pub intact : List Piece → Bool
intact [] = true
intact (bytes buf tick ∷ rest) = intact rest
intact (broken msg ∷ rest) = false

-- The numbers do not rise from one to the next, and start at `n` at most.
abbrev pub Descending : ℕ → List ℕ → Type 0
Descending n [] = Unit
Descending n (x ∷ xs) = (x ≤ n) × Descending x xs

copy-inner :
    (pieces : List Piece) (w : Adapter) → (copy pieces w).0.inner ≡ w.inner ++ content pieces
unfolding copy content poll_write
copy-inner [] w = sym (append-nil w.inner)
copy-inner (bytes buf tick ∷ rest) w = rw (copy-inner rest (poll_write buf tick w), append_assoc)
copy-inner (broken msg ∷ rest) w = sym (append-nil w.inner)

copy-interval_bytes :
    (pieces : List Piece) (w : Adapter)
    → (copy pieces w).0.interval_bytes ≡ w.interval_bytes + length (content pieces)
unfolding copy content poll_write
copy-interval_bytes [] w = omega arith
copy-interval_bytes (bytes buf tick ∷ rest) w =
    omega
      (arith, copy-interval_bytes rest (poll_write buf tick w), length-append buf (content rest))
copy-interval_bytes (broken msg ∷ rest) w = omega arith

Descending-weaken : (n m : ℕ) (xs : List ℕ) → n ≤ m → Descending n xs → Descending m xs
Descending-weaken n m [] le h = tt
Descending-weaken n m (x ∷ xs) le (hx, h) = (omega arith, h)

poll_write-Descending :
    (buf : List ℕ) (tick : Bool) (w : Adapter)
    → Descending w.interval_bytes w.sent
    → Descending (poll_write buf tick w).interval_bytes (poll_write buf tick w).sent
unfolding poll_write
poll_write-Descending buf true w h =
    (omega arith, Descending-weaken w.interval_bytes _ w.sent (omega arith) h)
poll_write-Descending buf false w h = Descending-weaken w.interval_bytes _ w.sent (omega arith) h

copy-Descending :
    (pieces : List Piece) (w : Adapter)
    → Descending w.interval_bytes w.sent
    → Descending (copy pieces w).0.interval_bytes (copy pieces w).0.sent
unfolding copy
copy-Descending [] w h = h
copy-Descending (bytes buf tick ∷ rest) w h =
    copy-Descending rest (poll_write buf tick w) (poll_write-Descending buf tick w h)
copy-Descending (broken msg ∷ rest) w h = h

-- The disk with the target directory, as `stream_to_file` makes it.
unfoldable pub with_dir : PathBuf → Disk → Disk
with_dir dir disk =
    if exists disk dir then disk else record { files = disk.files; dirs = dir ∷ disk.dirs }

with_dir-files : (dir : PathBuf) (disk : Disk) → (with_dir dir disk).files ≡ disk.files
unfolding with_dir
with_dir-files dir disk = ground arith

exists-get :
    (disk : Disk) (q : PathBuf) (old : List ℕ) → get q disk.files ≡ some old → exists disk q ≡ true
unfolding exists
exists-get disk q old there = ground (arith, contains_key-get q disk.files, there)

other_path :
    (disk : Disk) (path q : PathBuf)
    → exists disk path ≡ false
    → exists disk q ≡ true
    → (path == q) ≡ false
other_path disk path q fresh there = elim (Bool-cases (path == q)) [
  | inl same ↦ cc (fresh, there, (==_iff path q).0 same)
  | inr other ↦ other
]

write_file-get :
    (faults : Faults) (path : PathBuf) (pieces : List Piece) (disk : Disk) (q : PathBuf)
    → get q (write_file faults path pieces disk).disk.files
      ≡ (if path == q then some (content pieces) else get q disk.files)
unfolding write_file
write_file-get faults path pieces disk q = get-insert path q _ disk.files ∙ rw (copy-inner pieces _)

abbrev broken_off : String → Disk → Streamed
broken_off msg disk = record { disk = disk; outcome = Copied.copy_failed msg; progress = [] }

-- The directory is there or is made, or the call ends.
stream_to_file-cases :
    (faults : Faults) (dir name : PathBuf) (pieces : List Piece) (disk : Disk)
    → (stream_to_file faults dir name pieces disk
        ≡ open_file faults dir name pieces (with_dir dir disk))
      ⊎ ((msg : String) × (stream_to_file faults dir name pieces disk ≡ broken_off msg disk))
unfolding stream_to_file with_dir
stream_to_file-cases faults dir name pieces disk = elim (Bool-cases (exists disk dir)) [
  | inl there ↦ inl (rw there)
  | inr missing ↦ elim (Option-cases faults.create_dir) [
    | inl made ↦ inl (rw (missing, made))
    | inr (msg, e) ↦ inr (msg, rw (missing, e))
  ]
]

open_file-cases :
    (faults : Faults) (dir name : PathBuf) (pieces : List Piece) (disk : Disk)
    → (open_file faults dir name pieces disk
        ≡ write_file faults (dedup_path (exists disk) dir name) pieces disk)
      ⊎ ((msg : String) × (open_file faults dir name pieces disk ≡ broken_off msg disk))
unfolding open_file
open_file-cases faults dir name pieces disk =
    elim (Option-cases (faults.create (dedup_path (exists disk) dir name))) [
      | inl e ↦ inl (rw (e, open_file))
      | inr (msg, e) ↦ inr (msg, rw (e, open_file))
    ]

copy-intact :
    (pieces : List Piece) (w : Adapter) → (copy pieces w).1 ≡ copied → intact pieces ≡ true
unfolding copy intact
copy-intact [] w h = refl
copy-intact (bytes buf tick ∷ rest) w h = copy-intact rest (poll_write buf tick w) h
copy-intact (broken msg ∷ rest) w h = cc h

abbrev opened : Adapter
opened = record { inner = []; interval_bytes = 0; sent = [] }

write_file-intact :
    (faults : Faults) (path : PathBuf) (pieces : List Piece) (disk : Disk)
    → (write_file faults path pieces disk).outcome ≡ copied
    → intact pieces ≡ true
unfolding write_file
write_file-intact faults path pieces disk h = copy-intact pieces opened (ground arith)

write_file-Descending :
    (faults : Faults) (path : PathBuf) (pieces : List Piece) (disk : Disk)
    → Descending (length (content pieces)) (write_file faults path pieces disk).progress
unfolding write_file
write_file-Descending faults path pieces disk =
    Descending-weaken _ _ (copy pieces opened).0.sent
      (omega (arith, copy-interval_bytes pieces opened)) (copy-Descending pieces opened tt)

open_file-keeps :
    (faults : Faults) (dir name : PathBuf) (pieces : List Piece) (disk : Disk) (q : PathBuf)
    (old : List ℕ)
    → HasFree (exists disk) dir name
    → get q disk.files ≡ some old
    → get q (open_file faults dir name pieces disk).disk.files ≡ some old
open_file-keeps faults dir name pieces disk q old free there =
    let path = dedup_path (exists disk) dir name in
    let other : (path == q) ≡ false =
      other_path disk path q ((dedup_path-free_iff (exists disk) dir name).1 free)
        (exists-get disk q old there) in
    elim (open_file-cases faults dir name pieces disk) [
      | inl e ↦ rw (e, write_file-get faults path pieces disk q, other) there
      | inr (msg, e) ↦ rw e there
    ]

-- A file that is on the disk keeps its bytes through an upload, whatever fails, as long as one of
-- the thousand paths that are tried for the new file is free.
pub stream_to_file-keeps :
    (faults : Faults) (dir name : PathBuf) (pieces : List Piece) (disk : Disk) (q : PathBuf)
    (old : List ℕ)
    → HasFree (exists (with_dir dir disk)) dir name
    → get q disk.files ≡ some old
    → get q (stream_to_file faults dir name pieces disk).disk.files ≡ some old
stream_to_file-keeps faults dir name pieces disk q old free there =
    elim (stream_to_file-cases faults dir name pieces disk) [
      | inl e ↦ rw e (
          open_file-keeps faults dir name pieces (with_dir dir disk) q old free
            (rw (with_dir-files dir disk) there))
      | inr (msg, e) ↦ rw e there
    ]

-- How an upload ends whose pieces all arrive: the file holds their bytes, in order.
pub record IsStored (dir name : PathBuf) (pieces : List Piece) (disk : Disk) (s : Streamed)
    : Type 0 where
  pub stored :
      get (dedup_path (exists (with_dir dir disk)) dir name) s.disk.files ≡ some (content pieces)
  pub complete : intact pieces ≡ true
  pub reports : Descending (length (content pieces)) s.progress

-- When the copy of a body succeeds, the file at the path that was chosen holds exactly the bytes
-- of the body, no piece of which was broken, and the numbers reported as progress never fell and
-- never exceeded the size of the body.
pub stream_to_file-IsStored :
    (faults : Faults) (dir name : PathBuf) (pieces : List Piece) (disk : Disk)
    → (stream_to_file faults dir name pieces disk).outcome ≡ copied
    → IsStored dir name pieces disk (stream_to_file faults dir name pieces disk)
stream_to_file-IsStored faults dir name pieces disk done =
    elim (stream_to_file-cases faults dir name pieces disk) [
      | inr (msg, e) ↦ cc (done, e)
      | inl e ↦ elim (open_file-cases faults dir name pieces (with_dir dir disk)) [
        | inr (msg, f) ↦ cc (done, e, f)
        | inl f ↦
            let path = dedup_path (exists (with_dir dir disk)) dir name in
            rw (e, f)
              (record {
                stored =
                    rw (write_file-get faults path pieces (with_dir dir disk) path, ==_refl path);
                complete =
                    write_file-intact faults path pieces (with_dir dir disk) (rw (e, f) at done);
                reports = write_file-Descending faults path pieces (with_dir dir disk);
              })
      ]
    ]

-- Nothing goes wrong on the disk.
pub record Faultless (faults : Faults) : Type 0 where
  pub makes_dir : faults.create_dir ≡ none
  pub creates : (path : PathBuf) → faults.create path ≡ none
  pub closes : faults.shutdown ≡ none

copy-copied :
    (pieces : List Piece) (w : Adapter) → intact pieces ≡ true → (copy pieces w).1 ≡ copied
unfolding copy intact
copy-copied [] w h = refl
copy-copied (bytes buf tick ∷ rest) w h = copy-copied rest (poll_write buf tick w) h
copy-copied (broken msg ∷ rest) w h = cc h

pub stream_to_file-copied :
    (faults : Faults) (dir name : PathBuf) (pieces : List Piece) (disk : Disk)
    → Faultless faults
    → intact pieces ≡ true
    → (stream_to_file faults dir name pieces disk).outcome ≡ copied
unfolding stream_to_file open_file write_file
stream_to_file-copied faults dir name pieces disk fine whole = ground (
  arith,
  fine.makes_dir,
  fine.closes,
  fine.creates (dedup_path (exists disk) dir name),
  fine.creates
      (dedup_path (exists (record { files = disk.files; dirs = dir ∷ disk.dirs })) dir name),
  copy-copied pieces opened whole,
)
