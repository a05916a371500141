-- ===== src/Upload/Transfers.antt =====
-- Which calls of a run of Upload.antt have to do with the request's body, and the actions that make
-- none of them; one rule for each way to build an action.
pub mod Handlers
pub mod Cases
pub mod Loop
pub mod Views
use llgoexamples.Base.{
  ℕ, ◌≡◌, refl, ◌∙◌, Bool, true, false, [], ◌∷◌, SysResult, ◌==◌, if◌then◌else◌,
}
use llgoexamples.Hyper.Calls.{Call, Log}
use llgoexamples.World.{
  World, M, pure, ◌>>=◌, ◌>>◌, call, ask, create, get_conn, set_conn, branch, ConnData,
}

-- The calls that move bytes from the descriptor `file` to hyper.
abbrev pub is_transfer : ℕ → Call → Bool
is_transfer file (Call.read s n r) = s == file
is_transfer file (Call.read_into s p n r) = s == file
is_transfer file (Call.buf_copy p bs b) = true
is_transfer file (Call.chunk_set b) = true
is_transfer file Call.chunk_set_null = true
is_transfer file _ = false

abbrev pub transfers : ℕ → Log → Log
transfers file [] = []
transfers file (c ∷ log) = if is_transfer file c then c ∷ transfers file log else transfers file log

-- The action makes none of these calls, and leaves the connection's descriptor.
pub record Quiet {A : Type 0} (file : ℕ) (m : M A) : Type 0 where
  pub silent : (w : World) → transfers file (m w).1.log ≡ transfers file w.log
  pub same_fd : (w : World) → (m w).1.conn.fd ≡ w.conn.fd

module _ (file : ℕ) where
  pub Quiet-pure : {A : Type 0} (a : A) → Quiet file (pure a)
  Quiet-pure a = record { silent = λ w. refl; same_fd = λ w. refl }

  pub Quiet-bind :
      {A B : Type 0} (m : M A) (f : A → M B)
      → Quiet file m
      → ((a : A) → Quiet file (f a))
      → Quiet file (m >>= f)
  Quiet-bind m f qm qf = record {
    silent = λ w. (qf (m w).0).silent (m w).1 ∙ qm.silent w;
    same_fd = λ w. (qf (m w).0).same_fd (m w).1 ∙ qm.same_fd w;
  }

  pub Quiet-call : (c : Call) → is_transfer file c ≡ false → Quiet file (call c)
  Quiet-call c e = record { silent = λ w. rw e refl; same_fd = λ w. refl }

  pub Quiet-ask : {A : Type 0} (answer : Log → A) → Quiet file (ask answer)
  Quiet-ask answer = record { silent = λ w. refl; same_fd = λ w. refl }

  pub Quiet-create :
      (answer : Log → ℕ) (c : ℕ → Call)
      → ((p : ℕ) → is_transfer file (c p) ≡ false)
      → Quiet file (create answer c)
  Quiet-create answer c e = record { silent = λ w. rw (e (answer w.log)) refl; same_fd = λ w. refl }

  pub Quiet-branch :
      {A : Type 0} (b : Bool) (m n : M A) → Quiet file m → Quiet file n → Quiet file (branch b m n)
  Quiet-branch true m n qm qn = record { silent = qm.silent; same_fd = qm.same_fd }
  Quiet-branch false m n qm qn = record { silent = qn.silent; same_fd = qn.same_fd }

  pub ruleset quiet_rules =
      (Quiet-pure, Quiet-bind, Quiet-call, Quiet-ask, Quiet-create, Quiet-branch)
