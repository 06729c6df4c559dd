-- ===== src/Dd/Invariant/Keep.antt =====
-- The completions of src/app/spdk_dd.c keep the invariant of a copy.
use bdev_ubi.Dd.Invariant.Searched.{seek-Inv}
use bdev_ubi.Dd.Invariant.Search.{IsSearch}
use bdev_ubi.Common.{
  ℕ, ◌+◌, ◌-◌, ◌<◌, ◌≡◌, refl, ap, ◌∙◌, inl, inr, true, Option, none, some, arith, pos, [], subst,
}
use bdev_ubi.Posix.{Memory, overwrite}
use bdev_ubi.Dd.{
  Opts, SubmitType, dd_populate, dd_read, dd_write, write_output, Submission, Io, Job, update,
  Answers, add64,
}
use bdev_ubi.Dd.Seek.{target_seek}
use bdev_ubi.Dd.Events.{deliver, polled, answered, complete_poll, advance, transfer, land}
use bdev_ubi.Dd.Invariant.{Plan, IsPlan, Region, Stage, IsUnit, Tail, Filled, whole_of, target_of}
use bdev_ubi.Dd.Invariant.Total.{busy, busy_flight, le-sum}
use bdev_ubi.Dd.Invariant.Moves.{moved, moved-Core, written}
use bdev_ubi.Dd.Invariant.Writes.{whole_lem, written-Core, put_at_start, put_outside}
use bdev_ubi.Dd.Invariant.Steps.{
  same, writing, reading, deliver_lem, read_input_lem, read_output_lem, complete_read,
  complete_populate, write_lem, read_lem,
}
use bdev_ubi.Dd.Invariant.Finish.{Inv}

module _ (ceil_div : ℕ → ℕ → ℕ) (o : Opts) (p : Plan) (plan : IsPlan ceil_div o p) (a : Answers)
    (ok : a.submit_rc ≡ pos 0) (s : Job) (i : ℕ) (inv : Inv ceil_div o p s) (hi : i < p.n)
    (sub : Submission) (e : (s.ios i).flight ≡ some sub) where
  pub is_busy : busy (s.ios i) ≡ 1
  is_busy = ap busy_flight e

  some_out : 0 < s.outstanding
  some_out = omega (arith, is_busy, inv.core.counted, le-sum busy p.n s.ios i hi)

  pub not_told : s.exits ≡ []
  not_told = elim inv.phase [ inl (x, z) ↦ x | inr (x, z, q) ↦ absurd (omega (arith, some_out, z)) ]

  -- A unit that goes on has the same bytes.
  next-Inv :
      (io : Io) (bytes : ℕ)
      → busy io ≡ 1
      → io.offset ≡ (s.ios i).offset
      → io.length ≡ (s.ios i).length
      → IsUnit ceil_div o p s.input.pos io io.flight
      → Inv ceil_div o p (moved ceil_div o p s i io (s.outstanding - 1 + 1) s.input.pos bytes)
  next-Inv io bytes b f l u = record {
    core =
        moved-Core ceil_div o p s i io (s.outstanding - 1 + 1) s.input.pos bytes inv.core hi b
          (omega arith) inv.core.high inv.core.aligned (omega (arith, some_out, is_busy)) u
          (λ j own. (b, omega (arith, f, own.1), omega (arith, f, l, own.2))) (λ j h. inl h);
    phase = inl (not_told, omega arith);
  }

  module _ (r : Region ceil_div o p s.input.pos (s.ios i)) where
    populated-Tail : Tail ceil_div o p (
        reading ceil_div o p plan a ok (s.ios i) (
          overwrite
            (s.ios i).buf
            0
            (λ x. s.disk (target_of ceil_div o p (s.ios i) + x))
            (whole_of ceil_div o p (s.ios i))))
    populated-Tail x h l =
        let io = s.ios i in
        put_at_start io.buf (λ x. s.disk (target_of ceil_div o p io + x)) (whole_of ceil_div o p io)
          x l
        ∙ inv.core.behind (target_of ceil_div o p io + x)
            (elim (whole_lem ceil_div o p plan s.input.pos io r).1 [
              | inl w ↦ absurd (omega (arith, w, h, l))
              | inr end ↦ omega (arith, end, h, r.0)
            ])

    read-Tail :
        Tail ceil_div o p (s.ios i)
        → Tail ceil_div o p (
            writing ceil_div o p plan a ok
              (s.ios i)
              (overwrite (s.ios i).buf 0 (λ x. p.input ((s.ios i).offset + x)) (s.ios i).length))
    read-Tail t x h l =
        let io = s.ios i in
        put_outside io.buf 0 (λ x. p.input (io.offset + x)) io.length x (inr (omega (arith, h)))
        ∙ t x h l

    read-Filled : Filled ceil_div o p (
        writing ceil_div o p plan a ok
          (s.ios i)
          (overwrite (s.ios i).buf 0 (λ x. p.input ((s.ios i).offset + x)) (s.ios i).length))
    read-Filled x h =
        let io = s.ios i in put_at_start io.buf (λ x. p.input (io.offset + x)) io.length x h

    pub populate_lem :
        (s.ios i).type ≡ dd_populate
        → Stage ceil_div o p dd_populate (s.ios i) sub
        → deliver ceil_div o p.input a (polled i (pos sub.length)) s
          ≡ moved ceil_div o p s i
              (reading ceil_div o p plan a ok (s.ios i) (
                overwrite
                  (s.ios i).buf
                  0
                  (λ x. s.disk (target_of ceil_div o p (s.ios i) + x))
                  (whole_of ceil_div o p (s.ios i))))
              (s.outstanding - 1 + 1)
              s.input.pos
              s.incremental_bytes
    populate_lem t g =
        rw
          (
            deliver_lem ceil_div o p plan a ok s i inv.core hi sub e r sub.length,
            read_output_lem ceil_div o p plan a ok s i inv.core hi sub e r sub.length
                (ap (λ (q : Submission). q.operation) g),
            complete_populate ceil_div o p plan a ok s i inv.core hi sub e r
                (overwrite (s.ios i).buf 0 (λ x. s.disk (sub.offset + x)) sub.length) t,
            read_lem ceil_div o p plan a ok s i inv.core hi sub e r
                (overwrite (s.ios i).buf 0 (λ x. s.disk (sub.offset + x)) sub.length),
            g,
          )
          refl

    populate-Inv :
        (s.ios i).type ≡ dd_populate
        → Stage ceil_div o p dd_populate (s.ios i) sub
        → Inv ceil_div o p (deliver ceil_div o p.input a (polled i (pos sub.length)) s)
    populate-Inv t g =
        rw (populate_lem t g)
          (next-Inv _ s.incremental_bytes refl refl refl (r, (refl, populated-Tail)))

    pub read_done_lem :
        (s.ios i).type ≡ dd_read
        → Stage ceil_div o p dd_read (s.ios i) sub
        → deliver ceil_div o p.input a (polled i (pos sub.length)) s
          ≡ moved ceil_div o p s i
              (writing ceil_div o p plan a ok
                (s.ios i)
                (overwrite (s.ios i).buf 0 (λ x. p.input ((s.ios i).offset + x)) (s.ios i).length))
              (s.outstanding - 1 + 1)
              s.input.pos
              (add64 s.incremental_bytes (s.ios i).length)
    read_done_lem t g =
        rw
          (
            deliver_lem ceil_div o p plan a ok s i inv.core hi sub e r sub.length,
            read_input_lem ceil_div o p plan a ok s i inv.core hi sub e r sub.length
                (ap (λ (q : Submission). q.operation) g.0),
            complete_read ceil_div o p plan a ok s i inv.core hi sub e r
                (overwrite (s.ios i).buf 0 (λ x. p.input (sub.offset + x)) sub.length) t,
            write_lem ceil_div o p plan a ok s i inv.core hi sub e r
                (overwrite (s.ios i).buf 0 (λ x. p.input (sub.offset + x)) sub.length),
            g.0,
          )
          refl

    read-Inv :
        (s.ios i).type ≡ dd_read
        → Stage ceil_div o p dd_read (s.ios i) sub
        → Inv ceil_div o p (deliver ceil_div o p.input a (polled i (pos sub.length)) s)
    read-Inv t g =
        rw (read_done_lem t g) (next-Inv _ _ refl refl refl (r, (refl, read-Tail g.1, read-Filled)))

    landed : Memory → Job
    landed disk = record s {
      disk = disk;
      ios = update s.ios i (record (s.ios i) { flight = none });
    }

    write_output_lem :
        (n : ℕ)
        → sub.operation ≡ write_output
        → transfer p.input i sub.operation sub.offset n (land i s)
          ≡ landed (overwrite s.disk sub.offset (s.ios i).buf n)
    unfolding landed
    write_output_lem n q = rw (q, same i) refl

    landed_type :
        (disk : Memory) (k : SubmitType) → (s.ios i).type ≡ k → ((landed disk).ios i).type ≡ k
    unfolding landed
    landed_type disk k t = rw (same i) t

    complete_write :
        (disk : Memory)
        → (s.ios i).type ≡ dd_write
        → complete_poll ceil_div o p.input a i (landed disk)
          ≡ target_seek ceil_div o a i (record (landed disk) { outstanding = s.outstanding - 1 })
    unfolding complete_poll advance landed
    complete_write disk t =
        ap
          (λ (k : SubmitType).
            advance ceil_div o p.input a k i
              (record (landed disk) { outstanding = s.outstanding - 1 }))
          (landed_type disk dd_write t)

    pub done_lem :
        (s.ios i).type ≡ dd_write
        → Stage ceil_div o p dd_write (s.ios i) sub
        → deliver ceil_div o p.input a (polled i (pos sub.length)) s
          ≡ target_seek ceil_div o a i (written ceil_div o p s i)
    unfolding landed
    done_lem t g =
        rw
          (
            deliver_lem ceil_div o p plan a ok s i inv.core hi sub e r sub.length,
            write_output_lem sub.length (ap (λ (q : Submission). q.operation) g.0),
            complete_write (overwrite s.disk sub.offset (s.ios i).buf sub.length) t,
            g.0,
          )
          refl

    write-Inv :
        (s.ios i).type ≡ dd_write
        → Stage ceil_div o p dd_write (s.ios i) sub
        → IsSearch ceil_div o p a s.input.pos
        → Inv ceil_div o p (deliver ceil_div o p.input a (polled i (pos sub.length)) s)
    write-Inv t g honest = rw (done_lem t g) (
        seek-Inv ceil_div o p plan (written ceil_div o p s i) i
          (written-Core ceil_div o p plan s i inv.core hi r g.1 g.2 is_busy) hi (rw (same i) refl) a
          ok honest not_told (rw (same i) r.2)
          (rw (same i) (elim r.3 [ inl m ↦ inl m | inr end ↦ inr (omega (arith, end, r.1)) ])))

  Stage-Inv :
      (k : SubmitType)
      → (s.ios i).type ≡ k
      → Region ceil_div o p s.input.pos (s.ios i)
      → Stage ceil_div o p k (s.ios i) sub
      → IsSearch ceil_div o p a s.input.pos
      → Inv ceil_div o p (deliver ceil_div o p.input a (polled i (pos sub.length)) s)
  Stage-Inv dd_populate t r g honest = populate-Inv r t g
  Stage-Inv dd_read t r g honest = read-Inv r t g
  Stage-Inv dd_write t r g honest = write-Inv r t g honest

  -- What the unit in flight is at.
  pub stage_lem :
      Region ceil_div o p s.input.pos (s.ios i) × Stage ceil_div o p (s.ios i).type (s.ios i) sub
  stage_lem =
      subst (λ (f : Option Submission). IsUnit ceil_div o p s.input.pos (s.ios i) f) e
        (inv.core.units i hi)

  -- Whatever a unit has in flight, its completion keeps the invariant.
  pub polled-Inv :
      IsSearch ceil_div o p a s.input.pos
      → Inv ceil_div o p (deliver ceil_div o p.input a (polled i (pos sub.length)) s)
  polled-Inv honest = Stage-Inv (s.ios i).type refl stage_lem.0 stage_lem.1 honest

  -- A bdev's success is a result with all bytes.
  pub answered_lem :
      deliver ceil_div o p.input a (answered i true) s
      ≡ deliver ceil_div o p.input a (polled i (pos sub.length)) s
  unfolding deliver
  answered_lem = simp (e, plan.uring)

  pub answered-Inv :
      IsSearch ceil_div o p a s.input.pos
      → Inv ceil_div o p (deliver ceil_div o p.input a (answered i true) s)
  answered-Inv honest = rw answered_lem (polled-Inv honest)
