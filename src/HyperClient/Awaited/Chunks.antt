-- ===== src/HyperClient/Awaited/Chunks.antt =====
-- `AppendToResponseBody` of rust/hyper/_demo/hyper_client/hyper.go has nothing to do with tasks.
use llgoexamples.Base.{
  ℕ, suc, ◌+◌, ◌≤◌, ◌≡◌, refl, ◌∙◌, Bool, true, false, not, Option, none, some, List, Bytes,
  is_null, length, arith,
}
use llgoexamples.Boxes.{find}
use llgoexamples.Hyper.{iter_break}
use llgoexamples.Hyper.Calls.{Call, Log}
use llgoexamples.Exchange.Reactions.{reactions}
use llgoexamples.HyperClient.State.{
  Cell, State, Result, returned, panicked, undefined, Go, after, ◌>>=◌, pure, call, branch, when,
  get_response,
}
use llgoexamples.HyperClient.Memory.{wrap, cells, freed, malloc, free, load, store}
use llgoexamples.HyperClient.Body.{grow_body, move_body, append_chunk, append_to_response_body}
use llgoexamples.HyperClient.Awaited.{IsQuiet}

record Quiet {A : Type 0} (m : Go A) : Type 0 where
  quiet : (s : State) → IsQuiet s (m s).1

IsQuiet-trans : {a b c : State} → IsQuiet a b → IsQuiet b c → IsQuiet a c
IsQuiet-trans j k = record { silent = k.silent ∙ j.silent; grows = omega (arith, j.grows, k.grows) }

same_log : (s s' : State) → s'.world.log ≡ s.world.log → IsQuiet s s'
same_log s s' e = record { silent = rw e refl; grows = rw e (omega arith) }

after-IsQuiet :
    {A B : Type 0} (r : Result A) (f : A → Go B) (s : State)
    → ((a : A) → Quiet (f a))
    → IsQuiet s (after r f s).1
after-IsQuiet (returned a) f s k = (k a).quiet s
after-IsQuiet (panicked text args) f s k = same_log s s refl
after-IsQuiet undefined f s k = same_log s s refl

Quiet-bind :
    {A B : Type 0} (m : Go A) (f : A → Go B) → Quiet m → ((a : A) → Quiet (f a)) → Quiet (m >>= f)
Quiet-bind m f km kf = record {
  quiet = λ s. IsQuiet-trans (km.quiet s) (after-IsQuiet (m s).0 f (m s).1 kf);
}

-- An action that makes no call at all.
Quiet-silent : {A : Type 0} (m : Go A) → ((s : State) → (m s).1.world.log ≡ s.world.log) → Quiet m
Quiet-silent m e = record { quiet = λ s. same_log s (m s).1 (e s) }

Quiet-branch : {A : Type 0} (b : Bool) (m n : Go A) → Quiet m → Quiet n → Quiet (branch b m n)
Quiet-branch true m n km kn = record { quiet = km.quiet }
Quiet-branch false m n km kn = record { quiet = kn.quiet }

Quiet-load : (p n : ℕ) → Quiet (load p n)
unfolding load
Quiet-load p n = Quiet-silent _ (λ s. ground arith)

Quiet-store : (p offset : ℕ) (cs : List Cell) → Quiet (store p offset cs)
unfolding store
Quiet-store p offset cs = Quiet-silent _ (λ s. ground arith)

freed-IsQuiet : (p : ℕ) (r : Option (List Cell)) (s : State) → IsQuiet s (freed p r s).1
freed-IsQuiet p none s = same_log s s refl
freed-IsQuiet p (some block) s = record { silent = refl; grows = omega arith }

Quiet-free : (p : ℕ) → Quiet (free p)
unfolding free
Quiet-free p = record { quiet = λ s. freed-IsQuiet p (find p s.heap) s }

Quiet-move_body : (new old len : ℕ) → Quiet (move_body new old len)
unfolding move_body
Quiet-move_body new old len =
    Quiet-bind (load old len) _ (Quiet-load old len)
      (λ body. Quiet-bind (store new 0 body) _ (Quiet-store new 0 body) (λ _. Quiet-free old))

Quiet-append_chunk : (chunk : Bytes) (new : ℕ) → Quiet (append_chunk chunk new)
unfolding append_chunk
Quiet-append_chunk chunk new = Quiet-bind get_response _ (Quiet-silent _ (λ s. refl)) (λ resp.
    Quiet-bind
      (when (not (is_null resp.response_body))
        (move_body new resp.response_body resp.response_body_len))
      _
      (Quiet-branch (not (is_null resp.response_body))
        (move_body new resp.response_body resp.response_body_len) (pure tt)
        (Quiet-move_body new _ _) (Quiet-silent _ (λ s. refl)))
      (λ _.
        Quiet-bind (store new resp.response_body_len (cells chunk)) _ (Quiet-store new _ _)
          (λ _. Quiet-silent _ (λ s. refl))))

Quiet-malloc : (answer : Log → ℕ) (size : ℕ) → Quiet (malloc answer size)
unfolding malloc
Quiet-malloc answer size = record { quiet = λ s. record { silent = refl; grows = omega arith } }

Quiet-call : (c : Call) → ((s : State) → IsQuiet s (call c s).1) → Quiet (call c)
Quiet-call c q = record { quiet = q }

Quiet-grow_body : (answer : Log → ℕ) (chunk : Bytes) → Quiet (grow_body answer chunk)
unfolding grow_body
Quiet-grow_body answer chunk = Quiet-bind get_response _ (Quiet-silent _ (λ s. refl)) (λ resp.
    let size = wrap (resp.response_body_len + length chunk) in
    Quiet-bind (malloc answer size) _ (Quiet-malloc answer size) (λ new.
      Quiet-branch (is_null new) _ (append_chunk chunk new)
        (Quiet-bind (call (Call.eprintf "Failed to allocate memory for response body\n")) _
          (Quiet-call _ (λ s. record { silent = refl; grows = omega arith }))
          (λ _. Quiet-silent (pure iter_break) (λ s. refl)))
        (Quiet-append_chunk chunk new)))

-- Its calls count as one reaction of hyper.
pub append-IsQuiet :
    (answer : Log → ℕ) (chunk : Bytes) (s : State)
    → let after = append_to_response_body answer chunk s in
      IsQuiet s after.1 × (suc (reactions s.world.log) ≤ reactions after.1.world.log)
unfolding append_to_response_body
append-IsQuiet answer chunk s =
    let s1 = (call (Call.lent_buf chunk) s).1 in
    let k = (Quiet-grow_body answer chunk).quiet s1 in
    (record { silent = k.silent; grows = omega (arith, k.grows) }, omega (arith, k.grows))
