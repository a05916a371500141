-- ===== src/HyperClient/Body.antt =====
-- The callbacks of rust/hyper/_demo/hyper_client/hyper.go over the parts of a response, and the
-- printing of its body.
use llgoexamples.Base.{
  ℕ, ◌+◌, ◌^◌, not, Option, none, some, List, [], ◌∷◌, Bytes, length, is_null, ◌==◌, ltb,
}
use llgoexamples.Hyper.{iter_continue, iter_break}
use llgoexamples.Hyper.Calls.{Arg, Call, Log}
use llgoexamples.HyperClient.State.{
  Cell, Go, ◌>>=◌, ◌>>◌, pure, panic, break_rule, call, branch, when, get_response, set_body,
}
use llgoexamples.HyperClient.Memory.{wrap, cells, malloc, free, load, store}

-- `PrintEachHeader`
unfoldable pub print_header : Bytes → Bytes → Go ℕ
print_header name value = do
  call (Call.printf "%.*s: %.*s\n" (Arg.text name ∷ Arg.text value ∷ []))
  pure iter_continue

-- `Headers.Foreach`: the callback at each header, until it does not return "continue".
unfoldable pub each_header : List (Bytes × Bytes) → Go (Unit {0})
unfolding print_header
each_header [] = pure tt
each_header ((name, value) ∷ rest) = do
  r ← print_header name value
  when (r == iter_continue) (each_header rest)

-- The old body goes to the start of the new block, and its own block is freed.
unfoldable pub move_body : ℕ → ℕ → ℕ → Go (Unit {0})
unfolding load store free
move_body new old old_len = do body ← load old old_len; store new 0 body; free old

-- What follows a `malloc` that succeeded.
unfoldable pub append_chunk : Bytes → ℕ → Go ℕ
unfolding move_body
append_chunk chunk new = do
  resp ← get_response
  when (not (is_null resp.response_body)) (move_body new resp.response_body resp.response_body_len)
  store new resp.response_body_len (cells chunk)
  set_body new (wrap (resp.response_body_len + length chunk))
  pure iter_continue

-- After the chunk's bytes and length were asked for: a block for the old body and the chunk.
unfoldable pub grow_body : (Log → ℕ) → Bytes → Go ℕ
unfolding append_chunk malloc
grow_body answer chunk = do
  resp ← get_response
  new ← malloc answer (wrap (resp.response_body_len + length chunk))
  branch (is_null new)
      (do call (Call.eprintf "Failed to allocate memory for response body\n"); pure iter_break)
      (append_chunk chunk new)

-- `chunk` are the bytes of the buffer.
unfoldable pub append_to_response_body : (Log → ℕ) → Bytes → Go ℕ
unfolding grow_body
append_to_response_body answer chunk = do call (Call.lent_buf chunk); grow_body answer chunk

-- The bytes of cells that all have a value.
abbrev pub values : List Cell → Option Bytes
values [] = some []
values (none ∷ cs) = none
values (some b ∷ cs) = elim (values cs) [ none ↦ none | some bs ↦ some (b ∷ bs) ]

abbrev pub values_in : Option Bytes → Go Bytes
values_in none = break_rule
values_in (some bs) = pure bs

-- The conversion of a pointer and a length to a string through an array of 2 ^ 30 bytes. To slice
-- a nil array panics, and so does a length above the array's.
unfoldable pub go_string : ℕ → ℕ → Go Bytes
unfolding load
go_string at len =
    branch (is_null at) (panic "invalid memory address or nil pointer dereference" []) (
      branch (ltb (2 ^ 30) len) (panic "slice bounds out of range" [])
        (do body ← load at len; values_in (values body)))

-- `Response.PrintBody`
unfoldable pub print_body : Go (Unit {0})
unfolding go_string
print_body = do
  resp ← get_response
  body ← go_string resp.response_body resp.response_body_len
  call (Call.println (Arg.text body ∷ []))
