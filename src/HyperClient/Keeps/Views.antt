-- ===== src/HyperClient/Keeps/Views.antt =====
-- What is read off the log about the body of the response, and about tasks, only depends on the calls
-- that have to do with it.
use llgoexamples.Base.{ℕ, ◌≡◌, refl, ap, [], ◌∷◌, ◌++◌, suc, ret, errno, arith}
use llgoexamples.Hyper.Calls.{Call, Handle, Log}
use llgoexamples.Hyper.Ledger.{alive}
use llgoexamples.Hyper.Env.{userdata_of}
use llgoexamples.Exchange.{requests}
use llgoexamples.HyperClient.Keeps.{handed, is_body_call, is_task_call, calls_of}

pub handed-body_calls : (log : Log) → handed (calls_of is_body_call log) ≡ handed log
handed-body_calls [] = refl
handed-body_calls (Call.lent_buf bs ∷ log) = ap (λ l. l ++ bs) (handed-body_calls log)
handed-body_calls (Call.task_value t (Handle.mem p) ∷ log) = handed-body_calls log
handed-body_calls (Call.task_value t _ ∷ log) = handed-body_calls log
handed-body_calls (_ ∷ log) = handed-body_calls log

pub alive-body_calls :
    (p : ℕ) (log : Log)
    → alive (calls_of is_body_call log) (Handle.mem p) ≡ alive log (Handle.mem p)
alive-body_calls p [] = refl
alive-body_calls p (Call.malloc q ∷ log) = let rest = alive-body_calls p log in ground (arith, rest)
alive-body_calls p (Call.free q ∷ log) = let rest = alive-body_calls p log in ground (arith, rest)
alive-body_calls p (Call.task_value t (Handle.mem q) ∷ log) =
    let rest = alive-body_calls p log in ground (arith, rest)
alive-body_calls p (Call.task_value t _ ∷ log) = alive-body_calls p log
alive-body_calls p (Call.socket a (ret s) ∷ log) = alive-body_calls p log
alive-body_calls p (Call.socket a (errno e) ∷ log) = alive-body_calls p log
alive-body_calls p (Call.open_file f (ret s) ∷ log) = alive-body_calls p log
alive-body_calls p (Call.open_file f (errno e) ∷ log) = alive-body_calls p log
alive-body_calls p (_ ∷ log) = alive-body_calls p log

pub userdata_of-task_calls :
    (t : ℕ) (log : Log) → userdata_of (calls_of is_task_call log) t ≡ userdata_of log t
userdata_of-task_calls t [] = refl
userdata_of-task_calls t (Call.task_set_userdata s u ∷ log) =
    let rest = userdata_of-task_calls t log in ground (arith, rest)
userdata_of-task_calls t (Call.task_free s ∷ log) =
    let rest = userdata_of-task_calls t log in ground (arith, rest)
userdata_of-task_calls t (Call.task_value s (Handle.task q) ∷ log) = userdata_of-task_calls t log
userdata_of-task_calls t (Call.task_value s _ ∷ log) = userdata_of-task_calls t log
userdata_of-task_calls t (_ ∷ log) = userdata_of-task_calls t log

pub requests-task_calls : (log : Log) → requests (calls_of is_task_call log) ≡ requests log
requests-task_calls [] = refl
requests-task_calls (Call.clientconn_send c r t ∷ log) = ap suc (requests-task_calls log)
requests-task_calls (Call.task_value s (Handle.task q) ∷ log) = requests-task_calls log
requests-task_calls (Call.task_value s _ ∷ log) = requests-task_calls log
requests-task_calls (_ ∷ log) = requests-task_calls log

pub alive-task_calls :
    (p : ℕ) (log : Log)
    → alive (calls_of is_task_call log) (Handle.task p) ≡ alive log (Handle.task p)
alive-task_calls p [] = refl
alive-task_calls p (Call.task_free t ∷ log) =
    let rest = alive-task_calls p log in ground (arith, rest)
alive-task_calls p (Call.executor_push e t ∷ log) =
    let rest = alive-task_calls p log in ground (arith, rest)
alive-task_calls p (Call.executor_poll e t ∷ log) =
    let rest = alive-task_calls p log in ground (arith, rest)
alive-task_calls p (Call.clientconn_handshake i o t ∷ log) =
    let rest = alive-task_calls p log in ground (arith, rest)
alive-task_calls p (Call.clientconn_send c r t ∷ log) =
    let rest = alive-task_calls p log in ground (arith, rest)
alive-task_calls p (Call.body_foreach b t ∷ log) =
    let rest = alive-task_calls p log in ground (arith, rest)
alive-task_calls p (Call.body_data b t ∷ log) =
    let rest = alive-task_calls p log in ground (arith, rest)
alive-task_calls p (Call.task_value t (Handle.task q) ∷ log) =
    let rest = alive-task_calls p log in ground (arith, rest)
alive-task_calls p (Call.task_value t _ ∷ log) = alive-task_calls p log
alive-task_calls p (Call.socket a (ret s) ∷ log) = alive-task_calls p log
alive-task_calls p (Call.socket a (errno e) ∷ log) = alive-task_calls p log
alive-task_calls p (Call.open_file f (ret s) ∷ log) = alive-task_calls p log
alive-task_calls p (Call.open_file f (errno e) ∷ log) = alive-task_calls p log
alive-task_calls p (_ ∷ log) = alive-task_calls p log
