-- ===== src/HyperClient/Printed.antt =====
-- What rust/hyper/_demo/hyper_client/hyper.go prints of the body of the response.
use llgoexamples.Base.{
  ◌^◌, ◌≡◌, ◌⊎◌, refl, Bool, true, false, Option, some, [], ◌∷◌, Bytes, length, null, ◌==◌, ltb,
  inl, inr, Bool-cases, arith, ==-refl,
}
use llgoexamples.Hyper.Calls.{Arg, Call, Log}
use llgoexamples.Hyper.Env.{Env}
use llgoexamples.HyperClient.State.{
  State, Response, Result, returned, panicked, undefined, Go, after,
}
use llgoexamples.HyperClient.Memory.{cells}
use llgoexamples.HyperClient.Body.{values, print_body}
use llgoexamples.HyperClient.Blocks.{first_cells-cells}
use llgoexamples.HyperClient.Collected.{IsBlank, IsCollected}
use llgoexamples.HyperClient.Keeps.{handed}

values-cells : (bs : Bytes) → values (cells bs) ≡ some bs
values-cells [] = refl
values-cells (b ∷ bs) = rw (values-cells bs) refl

-- After `PrintBody`: the bytes were printed; or they are more than an array holds; or the body is
-- nil.
abbrev pub IsPrinted : Bytes → State → Result (Unit {0}) × State → Type 0
IsPrinted bs s after =
    ((ltb (2 ^ 30) (length bs) ≡ false)
      × (after ≡ (
        returned tt,
        record s { world = record s.world { log = Call.println (Arg.text bs ∷ []) ∷ s.world.log } },
      )))
    ⊎ ((ltb (2 ^ 30) (length bs) ≡ true) × (after ≡ (panicked "slice bounds out of range" [], s)))
    ⊎ (IsBlank s × (after ≡ (panicked "invalid memory address or nil pointer dereference" [], s)))

-- If the body of the response is the block that holds the collected bytes, `PrintBody` prints them, or
-- panics if they are more than 2 ^ 30. If there is no block, because no chunk came, it panics.
pub print_body-IsPrinted :
    (bs : Bytes) (s : State) → IsCollected bs s → IsPrinted bs s (print_body s)
unfolding print_body
print_body-IsPrinted bs s (inl (b, none_yet)) = inr (inr (b, rw b.no_body refl))
print_body-IsPrinted bs s (inr h) =
    let real : (s.response.response_body == null) ≡ false = ground (arith, h.real) in
    elim (Bool-cases (ltb (2 ^ 30) (length bs))) [
      | inl long ↦ inr (inl (long, rw (real, h.len, long) refl))
      | inr short ↦
          inl (
            short,
            rw (real, h.len, short, h.only) (simp (==-refl, first_cells-cells, values-cells)),
          )
    ]

-- What `main` has printed when it returns, given the calls before: the status and the message of the
-- response, then its body. Nothing undefined was done.
abbrev pub IsShown : Result Bool → State → Type 0
IsShown (returned true) s =
    (before : Log) × (s.world.log
      ≡ Call.println (Arg.text (handed before) ∷ [])
        ∷ Call.println (Arg.int s.response.status ∷ Arg.text s.response.message ∷ [])
        ∷ before)
IsShown (returned false) s = Unit
IsShown (panicked text args) s = Unit
IsShown undefined s = ⊥

-- The response that `Get` returns is the one of the state.
abbrev IsOfState : Result (Option Response) → State → Type 0
IsOfState (returned (some resp)) s = resp ≡ s.response
IsOfState _ s = Unit

-- The response that the action returns is always the one of the state.
record Reports (m : Go (Option Response)) : Type 0 where
  own : (s : State) → IsOfState (m s).0 (m s).1
