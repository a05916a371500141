-- ===== src/Upload/Examples.antt =====
-- Runs of Upload.antt.
use llgoexamples.Base.{
  true, zero, suc, SysResult, ◌≢◌, inl, ℕ, ◌≡◌, ◌≤◌, refl, arith, List, [], ◌∷◌, Bytes, ret, length,
  take, drop, codes,
}
use llgoexamples.Hyper.Calls.{Log}
use llgoexamples.Hyper.Env.{Env, Laws, Reaction}
use llgoexamples.Hyper.Sample.{sample, sample-Laws, sample_with, sample_with-Laws}
use llgoexamples.World.{Outcome}
use llgoexamples.Exchange.{requests, start}
use llgoexamples.Upload.Transfers.Views.{ended, sizes, AllBetween}
use llgoexamples.Upload.Sent.{sizes-upload-AllBetween}
use llgoexamples.Upload.{poll_req_upload, Callback, UploadBody, step, main, poll_req_upload_cb}
use llgoexamples.Upload.Returns.{IsOver, upload-returns}
use llgoexamples.Upload.Succeeds.{upload-exits_zero}
use llgoexamples.Exchange.Success.{GoesWell}
use llgoexamples.Hyper.Prompt.{prompt, prompt-Laws, prompt-finds}
use llgoexamples.Upload.Main.{LeavesOpen, upload_exit_zero}
use llgoexamples.Upload.Content.{copied, read_from, poll_times}

abbrev argv : List Bytes
argv = codes "notes.txt" ∷ []

exits : (main sample 30 argv start).0 ≡ Outcome.exited 0
unfolding main step
exits = refl

-- Without an argument the program ends at once.
needs_file : (main sample 30 [] start).0 ≡ Outcome.exited 1
unfolding main
needs_file = refl

upload_exit_zero_example :
    let w = (main sample 30 argv start).1 in (requests w.log ≡ 1) × LeavesOpen sample argv w
upload_exit_zero_example = upload_exit_zero sample sample-Laws 30 argv exits

abbrev content : Bytes
content = codes "hello"

-- Each read gives what is left of `content`.
abbrev reads_content : Log → ℕ → ℕ → SysResult Bytes
reads_content log s n = ret (take n (drop (length (read_from s log)) content))

length-take-le : (n : ℕ) (bs : Bytes) → length (take n bs) ≤ n
length-take-le zero bs = omega arith
length-take-le (suc n) [] = omega arith
length-take-le (suc n) (b ∷ bs) = omega (arith, length-take-le n bs)

reads_content-fits :
    (log : Log) (s n : ℕ) (bs : Bytes) → reads_content log s n ≡ ret bs → length bs ≤ n
reads_content-fits log s n bs e =
    let fits = length-take-le n (drop (length (read_from s log)) content) in
    let same : take n (drop (length (read_from s log)) content) ≡ bs = cc in rw (← same) fits

-- A peer that asks for the request's body again and again, and a file that holds `content`.
abbrev asks : Log → Reaction Callback
asks log = Reaction.calls poll_req_upload

abbrev with_file : Env Callback
with_file = sample_with asks reads_content

with_file-Laws : Laws with_file
with_file-Laws = sample_with-Laws asks reads_content (λ log t e. cc) reads_content-fits

sizes-upload-AllBetween_example : AllBetween 1 8192 (sizes (main with_file 3 argv start).1.log)
sizes-upload-AllBetween_example = sizes-upload-AllBetween with_file with_file-Laws 3 argv

-- The first step hands over the whole file, the second tells hyper that this was all.
sent_in_full : copied (main with_file 2 argv start).1.log ≡ content
unfolding main step
sent_in_full = refl

told : ended (main with_file 2 argv start).1.log ≡ true
unfolding main step
told = refl

abbrev small : UploadBody
small = record { fd = 3; buf = 9; len = 2 }

-- The last of five calls finds the end of the file.
ends : (poll_req_upload_cb with_file small (poll_times with_file small 3 start).1).0 ≡ 0
unfolding poll_times poll_req_upload_cb
ends = refl

prompt-IsOver : IsOver prompt 0
prompt-IsOver log t e late = rw e (λ f. cc)

-- The peer `prompt` needs no reactions at all to get done, and its response has no body.
upload-returns_example : (main prompt 3 argv start).0 ≢ Outcome.running
upload-returns_example =
    upload-returns prompt prompt-Laws 0 3 argv
      (λ log t safe dead tagged _. prompt-finds log t safe dead tagged) prompt-IsOver (omega arith)

prompt-GoesWell : GoesWell (prompt {C = Callback})
prompt-GoesWell = record {
  nonblocking = λ log s. refl;
  method_set = λ log r bs. refl;
  uri_set = λ log r bs. refl;
  handshaken = λ log t e. rw e refl;
  answered = λ log t e. rw e refl;
  selected = λ log s r w e f. cc;
}

upload-exits_zero_example : (main prompt 3 argv start).0 ≡ Outcome.exited 0
unfolding llgoexamples.Connect.connect_to
upload-exits_zero_example =
    upload-exits_zero prompt prompt-Laws prompt-GoesWell (λ log t e. rw e (inl refl)) 0 3 argv _ _
      (λ log t safe dead tagged _. prompt-finds log t safe dead tagged) prompt-IsOver refl refl
      (omega arith)
