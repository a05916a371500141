-- ===== src/HyperClient/Peer.antt =====
-- A peer that answers a request with a body in two pieces, and hands over each task as soon as it is
-- done.
use llgoexamples.Base.{
  ℕ, ◌≡◌, ◌≢◌, false, ◌&&◌, null, ltb, ◌==◌, length, arith, Bytes, ◌<◌, if◌then◌else◌, inl, inr,
  Bool-cases, codes,
}
use llgoexamples.Hyper.Calls.{Handle, Log}
use llgoexamples.Hyper.Env.{Env, Laws, Reaction}
use llgoexamples.Hyper.Ledger.{alive}
use llgoexamples.Hyper.Sample.{sample_with, sample_with-Laws, nothing_to_read, nothing_to_read-fits}
use llgoexamples.Hyper.Prompt.{prompt, prompt-Laws, prompt-no_call}
use llgoexamples.Exchange.{bodies}
use llgoexamples.HyperClient.Handlers.{Callback}
use llgoexamples.HyperClient.Keeps.{handed}
use llgoexamples.HyperClient.Gathers.{IsBounded}

abbrev executor : Log → Reaction Callback
executor log =
    if bodies log == 1 && ltb (length (handed log)) 6
    then Reaction.calls (Callback.append_to_response_body (codes "hey"))
    else prompt.executor_poll log

abbrev pub peer : Env Callback
peer = sample_with executor nothing_to_read

executor-returns :
    (log : Log) (t : ℕ)
    → executor log ≡ Reaction.finished t
    → (t ≢ null) × (alive log (Handle.task t) ≡ false)
executor-returns log t e = elim (Bool-cases (bodies log == 1 && ltb (length (handed log)) 6)) [
  | inl more ↦ absurd (cc (rw more at e))
  | inr over ↦ prompt-Laws.poll_returns log t (rw over at e)
]

pub peer-Laws : Laws peer
peer-Laws = sample_with-Laws executor nothing_to_read executor-returns nothing_to_read-fits

called :
    {a b : Bytes}
    → Reaction.calls (Callback.append_to_response_body a)
      ≡ Reaction.calls (Callback.append_to_response_body b)
    → a ≡ b
called e = cc

pub peer-IsBounded : IsBounded peer
peer-IsBounded log chunk e = elim (Bool-cases (bodies log == 1 && ltb (length (handed log)) 6)) [
  | inl more ↦
      let same : codes "hey" ≡ chunk = called (rw more at e) in
      let few : length (handed log) < 6 = ground (arith, more) in rw (← same) (omega (arith, few))
  | inr over ↦ absurd (prompt-no_call _ log (rw over at e))
]
