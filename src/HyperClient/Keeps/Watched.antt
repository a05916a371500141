-- ===== src/HyperClient/Keeps/Watched.antt =====
-- An action that makes no watched call makes none of the calls of either kind.
use llgoexamples.Base.{◌≡◌, refl, sym, ◌∙◌, ap, Bool, true, false, ◌||◌}
use llgoexamples.Hyper.Calls.{Call}
use llgoexamples.HyperClient.State.{State, Go}
use llgoexamples.HyperClient.Keeps.{
  is_body_call, is_task_call, is_watched, calls_of, calls_of-calls_of, IsSame, Keeps,
}

or_true : (b : Bool) → (b || true) ≡ true
or_true true = refl
or_true false = refl

-- What avoids all watched calls avoids some of them.
weaken-IsSame :
    (some_calls all_calls : Call → Bool) (s s' : State)
    → ((c : Call) → some_calls c ≡ true → all_calls c ≡ true)
    → IsSame all_calls s s'
    → IsSame some_calls s s'
weaken-IsSame some_calls all_calls s s' sub k = record {
  heap = k.heap;
  body = k.body;
  len = k.len;
  silent =
      sym (calls_of-calls_of some_calls all_calls sub s'.world.log)
      ∙ ap (calls_of some_calls) k.silent
      ∙ calls_of-calls_of some_calls all_calls sub s.world.log;
  grows = k.grows;
}

pub Keeps-of_watched : {A : Type 0} (m : Go A) → Keeps is_watched m → Keeps is_body_call m
Keeps-of_watched m k = record {
  same = λ s. weaken-IsSame is_body_call is_watched s (m s).1 (λ c e. rw e refl) (k.same s);
  defined = k.defined;
}

pub Keeps-tasks : {A : Type 0} (m : Go A) → Keeps is_watched m → Keeps is_task_call m
Keeps-tasks m k = record {
  same = λ s.
      weaken-IsSame is_task_call is_watched s (m s).1 (λ c e. rw e (or_true (is_body_call c)))
        (k.same s);
  defined = k.defined;
}
