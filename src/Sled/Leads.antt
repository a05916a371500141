-- ===== src/Sled/Leads.antt =====
-- What stays true of the heap of lib/rust/sled/src/lib.rs over an action, one rule for each way to
-- build an action.
use llgoexamples.Base.{
  ℕ, suc, ◌≡◌, ◌≤◌, Bool, true, false, Option, none, some, if◌then◌else◌, arith,
}
use llgoexamples.Boxes.{
  find, Descending, remove-Descending, replace-Descending, find-remove-none, find-replace-none,
}
use llgoexamples.Sled.Memory.{
  Object, config, database, iterator, buffer, c_string, malloc_string, State, Run, returned,
  panicked, undefined, Op, after, ◌>>=◌, done, panic, break_rule, unwrap, into_raw, store_at,
  release, config_in, database_in, iterator_in, buffer_in, text_in,
}

-- What holds at the end, if the action returned.
abbrev pub Ends : {S A : Type 0} → (S → Type 0) → Run (A × S) → Type 0
Ends P (returned (a, s)) = P s
Ends P _ = Unit {0}

pub Ends-after :
    {S A B : Type 0} (P Q : S → Type 0) (r : Run (A × S)) (f : A → Op S B)
    → Ends P r
    → ((a : A) (s : S) → P s → Ends Q (f a s))
    → Ends Q (after r f)
Ends-after P Q (returned (a, s)) f ends go = go a s ends
Ends-after P Q panicked f ends go = tt
Ends-after P Q undefined f ends go = tt

module _ {Config Db : Type 0} where
  -- All objects lie at addresses of their own, none of which is to be handed out again.
  abbrev pub IsValid : State Config Db → Type 0
  IsValid s = Descending (suc s.next) s.heap

  -- The address was handed out, and there is nothing there any more.
  abbrev pub Dead : ℕ → State Config Db → Type 0
  Dead p s = (p ≤ s.next) × (find p s.heap ≡ none)

  -- More addresses are handed out, a valid state stays valid, and what is dead stays dead.
  pub record Later (s s' : State Config Db) : Type 0 where
    pub grows : s.next ≤ s'.next
    pub valid : IsValid s → IsValid s'
    pub dead : (p : ℕ) → Dead p s → Dead p s'

  Later-refl : (s : State Config Db) → Later s s
  Later-refl s = record { grows = omega arith; valid = λ v. v; dead = λ p d. d }

  Later-trans : (s t u : State Config Db) → Later s t → Later t u → Later s u
  Later-trans s t u a b = record {
    grows = omega (arith, a.grows, b.grows);
    valid = λ v. b.valid (a.valid v);
    dead = λ p d. b.dead p (a.dead p d);
  }

  pub record Leads {A : Type 0} (m : Op (State Config Db) A) : Type 0 where
    pub goes : (s : State Config Db) → Ends (Later s) (m s)

  pub Leads-done : {A : Type 0} (a : A) → Leads (done {A = A} a)
  Leads-done a = record { goes = λ s. Later-refl s }

  pub Leads-panic : {A : Type 0} → Leads (panic {A = A})
  Leads-panic = record { goes = λ s. tt }

  pub Leads-break_rule : {A : Type 0} → Leads (break_rule {A = A})
  Leads-break_rule = record { goes = λ s. tt }

  pub Leads-bind :
      {A B : Type 0} (m : Op (State Config Db) A) (f : A → Op (State Config Db) B)
      → Leads m
      → ((a : A) → Leads (f a))
      → Leads (m >>= f)
  Leads-bind m f lm lf = record {
    goes = λ s.
        Ends-after (Later s) (Later s) (m s) f (lm.goes s)
          (λ a t l. Ends-later s t (f a t) l ((lf a).goes t));
  }
    where
      Ends-later :
          {A : Type 0} (s t : State Config Db) (r : Run (A × State Config Db))
          → Later s t
          → Ends (Later t) r
          → Ends (Later s) r
      Ends-later s t (returned (a, u)) l e = Later-trans s t u l e
      Ends-later s t panicked l e = tt
      Ends-later s t undefined l e = tt

  pub Leads-if :
      {A : Type 0} (b : Bool) (m n : Op (State Config Db) A)
      → Leads m
      → Leads n
      → Leads (if b then m else n)
  Leads-if true m n lm ln = lm
  Leads-if false m n lm ln = ln

  pub Leads-unwrap : {A : Type 0} (r : Option A) → Leads (unwrap r)
  Leads-unwrap none = Leads-panic
  Leads-unwrap (some a) = Leads-done a

  pub Leads-into_raw : (object : Object Config Db) → Leads (into_raw object)
  Leads-into_raw object = record {
    goes = λ s. record {
      grows = omega arith;
      valid = λ v. (omega arith, v);
      dead = λ p d. (omega (arith, d.0), let gone = d.1 in ground (arith, gone, d.0));
    };
  }

  pub Leads-store_at : (p : ℕ) (object : Object Config Db) → Leads (store_at p object)
  Leads-store_at p object = record {
    goes = λ s. record {
      grows = omega arith;
      valid = replace-Descending p (suc s.next) object s.heap;
      dead = λ q d. (d.0, find-replace-none q p object s.heap d.1);
    };
  }

  pub Leads-release : (p : ℕ) → Leads (release p)
  Leads-release p = record {
    goes = λ s. record {
      grows = omega arith;
      valid = remove-Descending p (suc s.next) s.heap;
      dead = λ q d. (d.0, find-remove-none q p s.heap d.1);
    };
  }

  -- Following a pointer changes nothing.
  pub config_in-Ends :
      (P : State Config Db → Type 0) (o : Option (Object Config Db)) (s : State Config Db)
      → P s
      → Ends P (config_in o s)
  config_in-Ends P (some (config c)) s h = h
  config_in-Ends P (some (database c)) s h = tt
  config_in-Ends P (some (iterator c)) s h = tt
  config_in-Ends P (some (buffer c)) s h = tt
  config_in-Ends P (some (c_string c)) s h = tt
  config_in-Ends P (some (malloc_string c)) s h = tt
  config_in-Ends P none s h = tt

  pub database_in-Ends :
      (P : State Config Db → Type 0) (o : Option (Object Config Db)) (s : State Config Db)
      → P s
      → Ends P (database_in o s)
  database_in-Ends P (some (database c)) s h = h
  database_in-Ends P (some (config c)) s h = tt
  database_in-Ends P (some (iterator c)) s h = tt
  database_in-Ends P (some (buffer c)) s h = tt
  database_in-Ends P (some (c_string c)) s h = tt
  database_in-Ends P (some (malloc_string c)) s h = tt
  database_in-Ends P none s h = tt

  pub iterator_in-Ends :
      (P : State Config Db → Type 0) (o : Option (Object Config Db)) (s : State Config Db)
      → P s
      → Ends P (iterator_in o s)
  iterator_in-Ends P (some (iterator c)) s h = h
  iterator_in-Ends P (some (config c)) s h = tt
  iterator_in-Ends P (some (database c)) s h = tt
  iterator_in-Ends P (some (buffer c)) s h = tt
  iterator_in-Ends P (some (c_string c)) s h = tt
  iterator_in-Ends P (some (malloc_string c)) s h = tt
  iterator_in-Ends P none s h = tt

  pub buffer_in-Ends :
      (P : State Config Db → Type 0) (o : Option (Object Config Db)) (s : State Config Db)
      → P s
      → Ends P (buffer_in o s)
  buffer_in-Ends P (some (buffer c)) s h = h
  buffer_in-Ends P (some (config c)) s h = tt
  buffer_in-Ends P (some (database c)) s h = tt
  buffer_in-Ends P (some (iterator c)) s h = tt
  buffer_in-Ends P (some (c_string c)) s h = tt
  buffer_in-Ends P (some (malloc_string c)) s h = tt
  buffer_in-Ends P none s h = tt

  pub text_in-Ends :
      (P : State Config Db → Type 0) (o : Option (Object Config Db)) (s : State Config Db)
      → P s
      → Ends P (text_in o s)
  text_in-Ends P (some (c_string c)) s h = h
  text_in-Ends P (some (config c)) s h = tt
  text_in-Ends P (some (malloc_string c)) s h = tt
  text_in-Ends P (some (database c)) s h = tt
  text_in-Ends P (some (iterator c)) s h = tt
  text_in-Ends P (some (buffer c)) s h = tt
  text_in-Ends P none s h = tt

  pub Leads-find_config : (p : ℕ) → Leads (λ s. config_in (find p s.heap) s)
  Leads-find_config p = record {
    goes = λ s. config_in-Ends (Later s) (find p s.heap) s (Later-refl s);
  }

  pub Leads-find_database : (p : ℕ) → Leads (λ s. database_in (find p s.heap) s)
  Leads-find_database p = record {
    goes = λ s. database_in-Ends (Later s) (find p s.heap) s (Later-refl s);
  }

  pub Leads-find_iterator : (p : ℕ) → Leads (λ s. iterator_in (find p s.heap) s)
  Leads-find_iterator p = record {
    goes = λ s. iterator_in-Ends (Later s) (find p s.heap) s (Later-refl s);
  }

  pub Leads-find_buffer : (p : ℕ) → Leads (λ s. buffer_in (find p s.heap) s)
  Leads-find_buffer p = record {
    goes = λ s. buffer_in-Ends (Later s) (find p s.heap) s (Later-refl s);
  }

  pub Leads-find_text : (p : ℕ) → Leads (λ s. text_in (find p s.heap) s)
  Leads-find_text p = record { goes = λ s. text_in-Ends (Later s) (find p s.heap) s (Later-refl s) }

  pub ruleset leads_rules = (
    Leads-done, Leads-panic, Leads-break_rule, Leads-bind, Leads-if, Leads-unwrap, Leads-into_raw,
    Leads-store_at, Leads-release, Leads-find_config, Leads-find_database, Leads-find_iterator,
    Leads-find_buffer, Leads-find_text,
  )
