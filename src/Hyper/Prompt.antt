-- ===== src/Hyper/Prompt.antt =====
-- A peer like the one of Sample that hands over each task that it was given as soon as it is polled.
use llgoexamples.Base.{
  ℕ, ◌≡◌, ◌≢◌, Bool, false, [], ◌∷◌, null, is_null, arith, inl, inr, Bool-cases, refl, ◌||◌, ◌==◌,
  if◌then◌else◌,
}
use llgoexamples.Hyper.Calls.{Call, Handle, Log}
use llgoexamples.Hyper.Env.{Env, Laws, Reaction, userdata_of}
use llgoexamples.Hyper.Ledger.{alive, IsSafe}
use llgoexamples.Hyper.Sample.{sample_with, sample_with-Laws, nothing_to_read, nothing_to_read-fits}

-- The task is not one that hyper holds for the program.
abbrev is_idle : Log → ℕ → Bool
is_idle log t = is_null t || (alive log (Handle.task t) || is_null (userdata_of log t))

-- The task of the latest of `entries` that hyper holds, if there is one.
abbrev first_held : {C : Type 0} → Log → Log → Reaction C
first_held log [] = Reaction.waits
first_held log (Call.task_set_userdata t u ∷ entries) =
    if is_idle log t then first_held log entries else Reaction.finished t
first_held log (_ ∷ entries) = first_held log entries

abbrev pub prompt : {C : Type 0} → Env C
prompt = sample_with (λ log. first_held log log) nothing_to_read

finished-task :
    {C : Type 0} {s t : ℕ}
    → ◌≡◌ {A = Reaction C} (Reaction.finished s) (Reaction.finished t)
    → s ≡ t
finished-task e = cc

first_held-returns :
    {C : Type 0} (log entries : Log) (t : ℕ)
    → first_held {C = C} log entries ≡ Reaction.finished t
    → (t ≢ null) × (alive log (Handle.task t) ≡ false) × (userdata_of log t ≢ null)
first_held-returns log [] t e = absurd cc
first_held-returns log (Call.task_set_userdata s u ∷ entries) t e =
    elim (Bool-cases (is_idle log s)) [
      | inl skip ↦ first_held-returns log entries t (rw skip at e)
      | inr held ↦ let same : s ≡ t = finished-task (rw held at e) in ground (arith, held, same)
    ]
first_held-returns log (_ ∷ entries) t e = first_held-returns log entries t e

-- A task with userdata among the entries, which hyper holds, is found, or another is.
held-first_held :
    {C : Type 0} (log entries : Log) (t : ℕ)
    → is_idle log t ≡ false
    → userdata_of entries t ≢ null
    → (task : ℕ) × (first_held {C = C} log entries ≡ Reaction.finished task)
held-first_held log [] t held tagged = absurd (tagged refl)
held-first_held log (Call.task_set_userdata s u ∷ entries) t held tagged =
    elim (Bool-cases (is_idle log s)) [
      | inl skip ↦ rw skip (held-first_held log entries t held (ground (arith, held, skip, tagged)))
      | inr other ↦ rw other (s, refl)
    ]
held-first_held log (Call.task_free s ∷ entries) t held tagged =
    held-first_held log entries t held (ground (arith, tagged))
held-first_held log (_ ∷ entries) t held tagged = held-first_held log entries t held tagged

-- In a safe log NULL has no userdata.
safe-real : (log : Log) (t : ℕ) → IsSafe log → userdata_of log t ≢ null → t ≢ null
safe-real [] t safe tagged = absurd (tagged refl)
safe-real (Call.task_set_userdata s u ∷ log) t safe tagged = elim (Bool-cases (s == t)) [
  | inl same ↦ ground (arith, same, safe.1.1)
  | inr other ↦ safe-real log t safe.2 (ground (arith, other, tagged))
]
safe-real (Call.task_free s ∷ log) t safe tagged = safe-real log t safe.2 (ground (arith, tagged))
safe-real (_ ∷ log) t safe tagged = safe-real log t safe.2 tagged

pub prompt-Laws : {C : Type 0} → Laws (prompt {C = C})
prompt-Laws =
    sample_with-Laws (λ log. first_held log log) nothing_to_read
      (λ log t e. let found = first_held-returns log log t e in (found.0, found.1))
      nothing_to_read-fits

-- A task with userdata that it was given is handed over, or another is.
pub prompt-finds_real :
    {C : Type 0} (log : Log) (t : ℕ)
    → t ≢ null
    → alive log (Handle.task t) ≡ false
    → userdata_of log t ≢ null
    → (task : ℕ) × (first_held {C = C} log log ≡ Reaction.finished task)
      × (userdata_of log task ≢ null)
prompt-finds_real log t real dead tagged =
    let (task, e) = held-first_held log log t (ground (arith, real, dead, tagged)) tagged in
    (task, e, (first_held-returns log log task e).2)

pub prompt-finds :
    {C : Type 0} (log : Log) (t : ℕ)
    → IsSafe log
    → alive log (Handle.task t) ≡ false
    → userdata_of log t ≢ null
    → (task : ℕ) × (first_held {C = C} log log ≡ Reaction.finished task)
      × (userdata_of log task ≢ null)
prompt-finds log t safe dead tagged =
    prompt-finds_real log t (safe-real log t safe tagged) dead tagged

first_held-no_call :
    {C : Type 0} (c : C) (log entries : Log) → first_held log entries ≢ Reaction.calls c
first_held-no_call c log [] e = cc
first_held-no_call c log (Call.task_set_userdata s u ∷ entries) e =
    elim (Bool-cases (is_idle log s)) [
      | inl skip ↦ first_held-no_call c log entries (rw skip at e)
      | inr held ↦ absurd (cc (rw held at e))
    ]
first_held-no_call c log (_ ∷ entries) e = first_held-no_call c log entries e

-- It calls no callback of the program.
pub prompt-no_call : {C : Type 0} (c : C) (log : Log) → prompt.executor_poll log ≢ Reaction.calls c
prompt-no_call c log = first_held-no_call c log log
