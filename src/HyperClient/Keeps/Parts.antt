-- ===== src/HyperClient/Keeps/Parts.antt =====
-- The transport, the connecting and the cases of the `switch` leave the body of the response alone.
use llgoexamples.Base.{
  ℕ, Bool, Option, none, some, List, [], ◌∷◌, Bytes, String, SysResult, ret, errno, refl, ◌==◌,
}
use llgoexamples.Hyper.{TaskReturnType, iter_continue}
use llgoexamples.Hyper.Calls.{AddrInfo, Arg, Call}
use llgoexamples.Hyper.Env.{Env}
use llgoexamples.HyperClient.State.{Go}
use llgoexamples.HyperClient.Transport.{
  read_register, read_returned, read_call_back, write_register, write_returned, write_call_back,
  release_read, release_write, free_wakers, wake_reader, wake_writer, selected, wait_for_io,
}
use llgoexamples.HyperClient.Sockets.{
  try_socket, first_socket, set_nonblocking, resolved, connect_to,
}
use llgoexamples.HyperClient.Body.{print_header, each_header}
use llgoexamples.HyperClient.Handlers.{
  Callback, print_chars, report_error, fail, check_type, on_handshake, send_through, take_results,
  foreach_header, clean_up, set_response, foreach_body, on_send, on_resp_body,
}
use llgoexamples.HyperClient.Keeps.{
  is_body_call, is_watched, Keeps, Keeps-pure, Keeps-branch, Keeps-bind, Keeps-call, Keeps-ask,
  keeps_rules,
}
use llgoexamples.HyperClient.Keeps.Watched.{Keeps-of_watched}

module _ {C : Type 0} (env : Env C) where
  Keeps-read_register : Keeps is_watched (read_register env)
  unfolding read_register
  Keeps-read_register = search keeps_rules depth 40 fits 40

  Keeps-read_returned : (r : SysResult Bytes) → Keeps is_watched (read_returned env r)
  unfolding read_returned
  Keeps-read_returned (ret bs) = search keeps_rules
  Keeps-read_returned (errno e) = search (keeps_rules, Keeps-read_register)

  pub Keeps-read_call_back : (n : ℕ) → Keeps is_watched (read_call_back env n)
  unfolding read_call_back
  Keeps-read_call_back n = search (keeps_rules, Keeps-read_returned)

  Keeps-write_register : Keeps is_watched (write_register env)
  unfolding write_register
  Keeps-write_register = search keeps_rules depth 40 fits 40

  Keeps-write_returned : (r : SysResult ℕ) → Keeps is_watched (write_returned env r)
  unfolding write_returned
  Keeps-write_returned (ret n) = search keeps_rules
  Keeps-write_returned (errno e) = search (keeps_rules, Keeps-write_register)

  pub Keeps-write_call_back : (buf : Bytes) → Keeps is_watched (write_call_back env buf)
  unfolding write_call_back
  Keeps-write_call_back buf = search (keeps_rules, Keeps-write_returned)

  Keeps-try_socket :
      (a : AddrInfo) (continue : Go (Option ℕ)) (r : SysResult ℕ)
      → Keeps is_watched continue
      → Keeps is_watched (try_socket env a continue r)
  unfolding try_socket
  Keeps-try_socket a continue (errno e) k = k
  Keeps-try_socket a continue (ret s) k = search keeps_rules depth 12 fits 3000

  Keeps-first_socket : (l : List AddrInfo) → Keeps is_watched (first_socket env l)
  unfolding first_socket
  Keeps-first_socket [] = search keeps_rules
  Keeps-first_socket (a ∷ l) = Keeps-bind _ _ (Keeps-ask (λ log. env.socket log a)) (λ r.
      Keeps-bind _ _ (Keeps-call (Call.socket a r) refl)
        (λ _. Keeps-try_socket a (first_socket env l) r (Keeps-first_socket l)))

  Keeps-set_nonblocking :
      (host : Bytes) (r : Option ℕ) → Keeps is_watched (set_nonblocking env host r)
  unfolding set_nonblocking
  Keeps-set_nonblocking host none = search keeps_rules
  Keeps-set_nonblocking host (some s) = search keeps_rules depth 12 fits 3000

  Keeps-resolved :
      (host port : Bytes) (r : Option (ℕ × List AddrInfo))
      → Keeps is_watched (resolved env host port r)
  unfolding resolved
  Keeps-resolved host port none = search keeps_rules
  Keeps-resolved host port (some (p, l)) =
      search (keeps_rules, Keeps-first_socket, Keeps-set_nonblocking)

  pub Keeps-connect_to : (host port : Bytes) → Keeps is_watched (connect_to env host port)
  unfolding connect_to
  Keeps-connect_to host port = search (keeps_rules, Keeps-resolved)

Keeps-wake_reader : Keeps is_watched wake_reader
unfolding wake_reader
Keeps-wake_reader = search keeps_rules

Keeps-wake_writer : Keeps is_watched wake_writer
unfolding wake_writer
Keeps-wake_writer = search keeps_rules

Keeps-selected : (r : SysResult (Bool × Bool)) → Keeps is_watched (selected r)
unfolding selected
Keeps-selected (errno e) = search keeps_rules
Keeps-selected (ret (a, b)) =
    search (keeps_rules, Keeps-wake_reader, Keeps-wake_writer) depth 12 fits 3000

pub Keeps-wait_for_io : {C : Type 0} (env : Env C) → Keeps is_watched (wait_for_io env)
unfolding wait_for_io
Keeps-wait_for_io env = search (keeps_rules, Keeps-selected) depth 12 fits 3000

Keeps-release_read : Keeps is_watched release_read
unfolding release_read
Keeps-release_read = search keeps_rules depth 12 fits 3000

Keeps-release_write : Keeps is_watched release_write
unfolding release_write
Keeps-release_write = search keeps_rules depth 12 fits 3000

pub Keeps-free_wakers : Keeps is_watched free_wakers
unfolding free_wakers
Keeps-free_wakers = search (keeps_rules, Keeps-release_read, Keeps-release_write)

Keeps-print_header : (name value : Bytes) → Keeps is_watched (print_header name value)
unfolding print_header
Keeps-print_header name value = search keeps_rules

pub Keeps-each_header : (l : List (Bytes × Bytes)) → Keeps is_watched (each_header l)
unfolding each_header
Keeps-each_header [] = search keeps_rules
Keeps-each_header ((name, value) ∷ l) =
    Keeps-bind _ _ (Keeps-print_header name value)
      (λ r. Keeps-branch (r == iter_continue) _ _ (Keeps-each_header l) (Keeps-pure tt))

Keeps-print_chars : (bs : Bytes) → Keeps is_watched (print_chars bs)
unfolding print_chars
Keeps-print_chars [] = search keeps_rules
Keeps-print_chars (b ∷ bs) =
    Keeps-bind _ _ (Keeps-call (Call.printf "%c" (Arg.int b ∷ [])) refl) (λ _. Keeps-print_chars bs)

module _ (env : Env Callback) where
  Keeps-report_error : (err : ℕ) → Keeps is_watched (report_error env err)
  unfolding report_error
  Keeps-report_error err = search (keeps_rules, Keeps-print_chars) depth 30 fits 3000

  pub Keeps-fail : (err : ℕ) → Keeps is_watched (fail env err)
  unfolding fail
  Keeps-fail err = search (keeps_rules, Keeps-report_error)

  pub Keeps-check_type :
      (failed_text unexpected_text : String) (expected : TaskReturnType) (task : ℕ)
      → Keeps is_watched (check_type env failed_text unexpected_text expected task)
  unfolding check_type
  Keeps-check_type failed_text unexpected_text expected task =
      search (keeps_rules, Keeps-fail) depth 20 fits 3000

  Keeps-send_through : (exec req task : ℕ) → Keeps is_body_call (send_through env exec req task)
  unfolding send_through
  Keeps-send_through exec req task = search keeps_rules depth 40 fits 9000

  pub Keeps-on_handshake : (exec req task : ℕ) → Keeps is_body_call (on_handshake env exec req task)
  unfolding on_handshake
  Keeps-on_handshake exec req task =
      search (keeps_rules, Keeps-of_watched, Keeps-check_type, Keeps-send_through)

  pub Keeps-set_response : (resp : ℕ) (rp : Bytes) → Keeps is_watched (set_response env resp rp)
  unfolding set_response
  Keeps-set_response resp rp = search keeps_rules depth 20 fits 3000

  Keeps-foreach_body : (exec resp : ℕ) → Keeps is_body_call (foreach_body env exec resp)
  unfolding foreach_body
  Keeps-foreach_body exec resp = search keeps_rules depth 20 fits 3000

  Keeps-foreach_header : (exec resp : ℕ) → Keeps is_body_call (foreach_header env exec resp)
  unfolding foreach_header
  Keeps-foreach_header exec resp =
      search (keeps_rules, Keeps-of_watched, Keeps-each_header, Keeps-foreach_body)

  Keeps-take_results : (exec task : ℕ) → Keeps is_body_call (take_results env exec task)
  unfolding take_results
  Keeps-take_results exec task =
      search (keeps_rules, Keeps-of_watched, Keeps-set_response, Keeps-foreach_header) depth 20 fits
        3000

  pub Keeps-on_send : (exec task : ℕ) → Keeps is_body_call (on_send env exec task)
  unfolding on_send
  Keeps-on_send exec task =
      search (keeps_rules, Keeps-of_watched, Keeps-check_type, Keeps-take_results)

  Keeps-clean_up : (exec task : ℕ) → Keeps is_body_call (clean_up exec task)
  unfolding clean_up
  Keeps-clean_up exec task = search (keeps_rules, Keeps-of_watched, Keeps-free_wakers)

  pub Keeps-on_resp_body : (exec task : ℕ) → Keeps is_body_call (on_resp_body env exec task)
  unfolding on_resp_body
  Keeps-on_resp_body exec task =
      search (keeps_rules, Keeps-of_watched, Keeps-check_type, Keeps-clean_up)
