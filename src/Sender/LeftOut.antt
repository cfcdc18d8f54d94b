-- ===== src/Sender/LeftOut.antt =====
-- A file that the receiver did not accept, on the sender's side.
use localsend_rs.Base.{
  map, string_eq, ℕ, ◌≡◌, refl, ◌≢◌, inl, inr, String, false, List, [], ◌∷◌, arith, none, ◌==◌,
  Bool-cases,
}
use localsend_rs.HashMap.{HashMap, get}
use localsend_rs.Model.{FileState, NodeDevice, FileResponse}
use localsend_rs.Session.State.{FileEntry, Actor, Message}
use localsend_rs.Session.Transitions.{is_settled}
use localsend_rs.Session.Actor.{handle_message, run}
use localsend_rs.Session.Progress.{run-append}
use localsend_rs.Sender.Driver.{
  Entries, World, Upload, is_entry, progress_reports, upload_one, upload_files, send_files,
  send_accepted,
}
use localsend_rs.Sender.Waiting.{
  Waits, set_file_state-Waits, set_state-Waits, report_progress-Waits,
}

run-Waits :
    (new_v4 : ℕ → String) (id fid j : String) (f : FileEntry) (ns : List ℕ) (a : Actor)
    → Waits id fid f a
    → Waits id fid f (run new_v4 (map (λ n. Message.report_progress id j n) ns) a)
unfolding run handle_message
run-Waits new_v4 id fid j f [] a h = h
run-Waits new_v4 id fid j f (n ∷ ns) a h =
    run-Waits new_v4 id fid j f ns _ (report_progress-Waits id fid j f n a h)

get_absent :
    (j fid token : String) (files : HashMap String String)
    → get fid ((j, token) ∷ files) ≡ none
    → ((j == fid) ≡ false) × (get fid files ≡ none)
unfolding get
get_absent j fid token files absent = ground arith

upload_one-Waits :
    (new_v4 : ℕ → String) (w : World) (id j fid : String) (f : FileEntry) (u : Upload)
    (rest : List Message) (a : Actor)
    → is_settled f ≡ false
    → (j == fid) ≡ false
    → ((b : Actor) → Waits id fid f b → Waits id fid f (run new_v4 rest b))
    → Waits id fid f a
    → Waits id fid f (run new_v4 (upload_one w id j u rest) a)
unfolding upload_one progress_reports run handle_message
upload_one-Waits new_v4 w id j fid f Upload.sent rest a waiting other more h =
    rw (run-append new_v4) (
      more _ (
        set_file_state-Waits id j fid f FileState.finish _ waiting other (
          run-Waits new_v4 id fid j f (w.progress j) _
            (set_file_state-Waits id j fid f FileState.transfer a waiting other h))))
upload_one-Waits new_v4 w id j fid f (Upload.failed msg) rest a waiting other more h =
    rw (run-append new_v4) (
      set_file_state-Waits id j fid f (FileState.fail msg) _ waiting other (
        run-Waits new_v4 id fid j f (w.progress j) _
          (set_file_state-Waits id j fid f FileState.transfer a waiting other h)))
upload_one-Waits new_v4 w id j fid f Upload.cancelled rest a waiting other more h =
    run-Waits new_v4 id fid j f (w.progress j) _
      (set_file_state-Waits id j fid f FileState.transfer a waiting other h)

-- The uploads of other files.
upload_files-Waits :
    (new_v4 : ℕ → String) (w : World) (id fid : String) (f : FileEntry) (target : NodeDevice)
    (remote : String) (entries : Entries) (files : List (String × String)) (a : Actor)
    → is_settled f ≡ false
    → get fid files ≡ none
    → Waits id fid f a
    → Waits id fid f (run new_v4 (upload_files w id target remote entries files) a)
unfolding upload_files run
upload_files-Waits new_v4 w id fid f target remote entries [] a waiting absent h = h
upload_files-Waits new_v4 w id fid f target remote entries ((j, token) ∷ files) a waiting absent h =
    let (other, rest) = get_absent j fid token files absent in
    elim (Bool-cases (is_entry j entries)) [
      | inr unknown ↦
          rw (unknown, upload_files)
            (upload_files-Waits new_v4 w id fid f target remote entries files a waiting rest h)
      | inl known ↦
          rw (known, upload_files)
            (upload_one-Waits new_v4 w id j fid f (w.upload target remote j token)
              (upload_files w id target remote entries files) a waiting other
              (λ b k.
                upload_files-Waits new_v4 w id fid f target remote entries files b waiting rest k)
              h)
    ]

send_files-Waits :
    (new_v4 : ℕ → String) (w : World) (id fid : String) (f : FileEntry) (target : NodeDevice)
    (remote : String) (entries : Entries) (files : List (String × String)) (a : Actor)
    → is_settled f ≡ false
    → files ≢ []
    → get fid files ≡ none
    → Waits id fid f a
    → Waits id fid f (run new_v4 (send_files w id target remote entries files) a)
unfolding send_files run handle_message
send_files-Waits new_v4 w id fid f target remote entries [] a waiting some_file absent h =
    absurd (some_file refl)
send_files-Waits new_v4 w id fid f target remote entries (file ∷ files) a waiting some_file absent
      h =
    upload_files-Waits new_v4 w id fid f target remote entries (file ∷ files) _ waiting absent
      (set_state-Waits id fid f a h)

-- When the receiver accepts some of the files but not this one, the sender's session never
-- finishes by what the driver does, whatever the network does: the file stays as it was, neither
-- received nor skipped.
pub send_accepted-Waits :
    (new_v4 : ℕ → String) (w : World) (id fid : String) (f : FileEntry) (target : NodeDevice)
    (entries : Entries) (response : FileResponse) (a : Actor)
    → is_settled f ≡ false
    → response.files ≢ []
    → get fid response.files ≡ none
    → Waits id fid f a
    → Waits id fid f (run new_v4 (send_accepted w id target entries response) a)
unfolding send_accepted
send_accepted-Waits new_v4 w id fid f target entries response =
    send_files-Waits new_v4 w id fid f target response.session_id entries response.files
