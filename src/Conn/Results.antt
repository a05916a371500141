-- ===== src/Conn/Results.antt =====
-- What the callbacks of Conn.antt tell hyper, and what they did to say so.
use llgoexamples.Base.{
  ℕ, ◌≡◌, ◌≢◌, ◌≤◌, ◌<◌, refl, true, not, Bytes, SysResult, ret, errno, null, ◌==◌, arith, length,
  ◌∷◌, inl, inr, Bool-cases, ap,
}
use llgoexamples.Hyper.{io_pending, io_error}
use llgoexamples.Hyper.Calls.{Call, Handle}
use llgoexamples.Hyper.Env.{Env, Laws}
use llgoexamples.Hyper.Ledger.{alive}
use llgoexamples.World.{World, branch}
use llgoexamples.Conn.{
  eagain, register_read, read_result, read_cb, register_write, write_result, write_cb,
}

module _ {C : Type 0} (env : Env C) (laws : Laws env) where
  register_read_lem :
      (w : World)
      → let after = register_read env w in
        (after.0 ≡ io_pending)
        × (after.1.conn.read_waker ≢ null)
        × (alive after.1.log (Handle.waker after.1.conn.read_waker) ≡ true)
  unfolding register_read
  register_read_lem w = (
    refl,
    ground (
      arith,
      laws.context_waker_fresh w.log,
      laws.context_waker_fresh (Call.waker_free w.conn.read_waker ∷ w.log),
    ),
    ground arith,
  )

  register_write_lem :
      (w : World)
      → let after = register_write env w in
        (after.0 ≡ io_pending)
        × (after.1.conn.write_waker ≢ null)
        × (alive after.1.log (Handle.waker after.1.conn.write_waker) ≡ true)
  unfolding register_write
  register_write_lem w = (
    refl,
    ground (
      arith,
      laws.context_waker_fresh w.log,
      laws.context_waker_fresh (Call.waker_free w.conn.write_waker ∷ w.log),
    ),
    ground arith,
  )

-- What the number that `read_cb` returned says of the answer `r` to `read`, with `v` after it.
abbrev pub ReadDecodes : ℕ → SysResult Bytes → ℕ → World → Type 0
ReadDecodes n r result v =
    (result ≡ io_pending
      → (r ≡ errno eagain)
        × (v.conn.read_waker ≢ null)
        × (alive v.log (Handle.waker v.conn.read_waker) ≡ true))
    × (result ≡ io_error → ((e : ℕ) × (r ≡ errno e) × (e ≢ eagain)))
    × (result ≤ n → ((bs : Bytes) × (r ≡ ret bs) × (length bs ≡ result)))

abbrev pub WriteDecodes : ℕ → SysResult ℕ → ℕ → World → Type 0
WriteDecodes n r result v =
    (result ≡ io_pending
      → (r ≡ errno eagain)
        × (v.conn.write_waker ≢ null)
        × (alive v.log (Handle.waker v.conn.write_waker) ≡ true))
    × (result ≡ io_error → ((e : ℕ) × (r ≡ errno e) × (e ≢ eagain)))
    × (result ≤ n → (r ≡ ret result))

module _ {C : Type 0} (env : Env C) (laws : Laws env) where
  read_result_lem :
      (n : ℕ) (r : SysResult Bytes) (w : World)
      → n < io_error
      → ((bs : Bytes) → r ≡ ret bs → length bs ≤ n)
      → ReadDecodes n r (read_result env r w).0 (read_result env r w).1
  unfolding read_result
  read_result_lem n (ret bs) w small fits =
      let f = fits bs refl in
      ((λ e. absurd (omega arith)), (λ e. absurd (omega arith)), (λ _. (bs, refl, refl)))
  read_result_lem n (errno e) w small fits = elim (Bool-cases (not (e == eagain))) [
    | inl other ↦
        rw (other, branch)
          ((λ h. absurd (omega arith)), (λ _. (e, refl, ground arith)), (λ h. absurd (omega arith)))
    | inr again ↦
        rw (again, branch)
          (let (result, real, live) = register_read_lem env laws w in
            let same : e ≡ eagain = ground arith in
            (
              (λ h. (ap (λ k. errno k) same, real, live)),
              (λ h. absurd (omega (arith, result))),
              (λ h. absurd (omega (arith, result))),
            ))
  ]

  write_result_lem :
      (n : ℕ) (r : SysResult ℕ) (w : World)
      → n < io_error
      → ((k : ℕ) → r ≡ ret k → k ≤ n)
      → WriteDecodes n r (write_result env r w).0 (write_result env r w).1
  unfolding write_result
  write_result_lem n (ret k) w small fits =
      let f = fits k refl in ((λ e. absurd (omega arith)), (λ e. absurd (omega arith)), (λ _. refl))
  write_result_lem n (errno e) w small fits = elim (Bool-cases (not (e == eagain))) [
    | inl other ↦
        rw (other, branch)
          ((λ h. absurd (omega arith)), (λ _. (e, refl, ground arith)), (λ h. absurd (omega arith)))
    | inr again ↦
        rw (again, branch)
          (let (result, real, live) = register_write_lem env laws w in
            let same : e ≡ eagain = ground arith in
            (
              (λ h. (ap (λ k. errno k) same, real, live)),
              (λ h. absurd (omega (arith, result))),
              (λ h. absurd (omega (arith, result))),
            ))
  ]

  -- Within `laws`, for a buffer of fewer than HYPER_IO_ERROR bytes: `read_cb` returns HYPER_IO_PENDING
  -- only if `read` answered EAGAIN, and then the read waker is not NULL and alive; HYPER_IO_ERROR only
  -- if it answered another error; and a number that fits the buffer only as the number of bytes read.
  pub read_cb_lem :
      (n : ℕ) (w : World)
      → n < io_error
      → let after = read_cb env n w in ReadDecodes n (env.read w.log w.conn.fd n) after.0 after.1
  unfolding read_cb
  read_cb_lem n w small =
      read_result_lem n (env.read w.log w.conn.fd n) _ small
        (λ bs e. laws.read_fits w.log w.conn.fd n bs e)

  -- Within `laws`, for fewer than HYPER_IO_ERROR bytes: `write_cb` returns HYPER_IO_PENDING only
  -- if `write` answered EAGAIN, and then the write waker is not NULL and alive; HYPER_IO_ERROR only if
  -- it answered another error; and a number that fits the bytes only as the number of bytes written.
  pub write_cb_lem :
      (bs : Bytes) (w : World)
      → length bs < io_error
      → let after = write_cb env bs w in
        WriteDecodes (length bs) (env.write w.log w.conn.fd bs) after.0 after.1
  unfolding write_cb
  write_cb_lem bs w small =
      write_result_lem (length bs) (env.write w.log w.conn.fd bs) _ small
        (λ k e. laws.write_fits w.log w.conn.fd bs k e)
