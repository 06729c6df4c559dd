-- ===== src/Dd/Uring/Refines.antt =====
-- src/app/spdk_dd.c: the submissions of dd_target_write, dd_target_read and dd_target_populate_buffer,
-- as io_uring carries them out.
use bdev_ubi.Common.{
  ℕ, ◌<◌, ◌≡◌, refl, ap, ◌∙◌, Bool, true, false, Option, none, some, ◌==◌, ℤ, ==_iff, ◌≤◌, ◌%◌, ◌^◌,
  pos,
}
use bdev_ubi.Dd.{
  SubmitType, dd_populate, dd_read, dd_write, TargetType, file, Job, Side, on_input, on_output,
  Operation, read_input, read_output, write_output, Submission, Io, Opts, Answers, is_stopped,
  add64,
}
use bdev_ubi.Dd.Copy.{
  submit_code, launch, fill, target_read, target_write, whole_blocks, write_offset,
}
use bdev_ubi.Dd.Uring.{
  Registered, register, Sqe, is_write, uring_submit, carried_out, entry_of, moved, target_of,
  has_file, entry_lem,
}

-- Whether a unit has to be populated before it is read.
abbrev pub IsDue : SubmitType → Job → Io → Type 0
IsDue dd_populate s io = (io.length % s.output.block_size == 0) ≡ false
IsDue dd_read s io = Unit {0}
IsDue dd_write s io = Unit {0}

-- Where a unit of a type is to go.
abbrev pub meant_for : SubmitType → Side
meant_for dd_populate = on_output
meant_for dd_read = on_input
meant_for dd_write = on_output

launched :
    (i : ℕ) (type : SubmitType) (sub : Submission) (s : Job)
    → (launch i type sub (pos 0) s).ios i ≡ record (s.ios i) { type = type; flight = some sub }
unfolding launch
launched i type sub s = rw ((==_iff i i).1 refl) refl

module _ (ceil_div : ℕ → ℕ → ℕ) (o : Opts) (a : Answers) where
  -- How many bytes a unit of a type is to move, and from or to which position.
  abbrev pub meant_length : SubmitType → Job → Io → ℕ
  meant_length dd_populate s io = whole_blocks ceil_div o a io.length s.output.block_size
  meant_length dd_read s io = io.length
  meant_length dd_write s io = whole_blocks ceil_div o a io.length s.output.block_size

  abbrev pub meant_offset : SubmitType → Io → ℕ
  meant_offset dd_populate io = write_offset ceil_div o a io.offset
  meant_offset dd_read io = io.offset
  meant_offset dd_write io = write_offset ceil_div o a io.offset

  -- The function that submits the units of a type.
  abbrev pub submitted : SubmitType → ℕ → Job → Job
  submitted dd_populate i s = fill ceil_div o a i (s.ios i).offset s
  submitted dd_read i s = target_read ceil_div o a i s
  submitted dd_write i s = target_write ceil_div o a i s

  no_code : (k : TargetType) (rc : ℤ) → k ≡ file → o.aio ≡ false → submit_code o k rc ≡ pos 0
  no_code k rc e u = rw (e, u) refl

  in_flight : SubmitType → Operation → Io → Job → Submission
  in_flight type operation io s = record {
    operation = operation;
    offset = meant_offset type io;
    length = meant_length type s io;
  }

  populated :
      (i : ℕ) (s : Job)
      → IsDue dd_populate s (s.ios i)
      → submitted dd_populate i s
        ≡ launch i dd_populate
            (in_flight dd_populate read_output (s.ios i) s)
            (submit_code o s.output.type a.submit_rc)
            s
  unfolding fill in_flight
  populated i s due = rw due refl

  read_lem :
      (i : ℕ) (s : Job)
      → is_stopped s ≡ false
      → submitted dd_read i s
        ≡ launch i dd_read
            (in_flight dd_read read_input (s.ios i) s)
            (submit_code o s.input.type a.submit_rc)
            s
  unfolding target_read in_flight
  read_lem i s go = rw go refl

  written :
      (i : ℕ) (s : Job)
      → is_stopped s ≡ false
      → submitted dd_write i s
        ≡ launch i dd_write
            (in_flight dd_write write_output (s.ios i) s)
            (submit_code o s.output.type a.submit_rc)
            (record s { incremental_bytes = add64 s.incremental_bytes (s.ios i).length })
  unfolding target_write in_flight
  written i s go = rw go refl

  -- The unit after its submission, to a file by the ring.
  unit_of :
      (type : SubmitType) (operation : Operation) (i : ℕ) (t s : Job) (k : TargetType)
      → k ≡ file
      → o.aio ≡ false
      → t ≡ launch i type (in_flight type operation (s.ios i) s) (submit_code o k a.submit_rc) s
      → t.ios i
        ≡ record (s.ios i) { type = type; flight = some (in_flight type operation (s.ios i) s) }
  unit_of type operation i t s k f u e =
      ap (λ (x : Job). x.ios i)
        (e
          ∙ ap (λ (rc : ℤ). launch i type (in_flight type operation (s.ios i) s) rc s)
              (no_code k a.submit_rc f u))
      ∙ launched i type (in_flight type operation (s.ios i) s) s

  unit-submitted :
      (r : Registered) (type : SubmitType) (i : ℕ) (s : Job)
      → o.aio ≡ false
      → (target_of (meant_for type) s).type ≡ file
      → is_stopped s ≡ false
      → IsDue type s (s.ios i)
      → entry_of r i ((submitted type i s).ios i)
        ≡ some (
            uring_submit r type i
              (meant_for type)
              (meant_length type s (s.ios i))
              (meant_offset type (s.ios i)))
  unfolding in_flight
  unit-submitted r dd_populate i s u f go due =
      ap (λ (io : Io). entry_of r i io)
        (unit_of dd_populate read_output i _ s s.output.type f u (populated i s due))
  unit-submitted r dd_read i s u f go due =
      ap (λ (io : Io). entry_of r i io)
        (unit_of dd_read read_input i _ s s.input.type f u (read_lem i s go))
  unit-submitted r dd_write i s u f go due =
      let t = record s { incremental_bytes = add64 s.incremental_bytes (s.ios i).length } in
      ap (λ (io : Io). entry_of r i io)
        (unit_of dd_write write_output i _ t s.output.type f u (written i s go))

  -- Let dd_run have registered the files and the buffers of `n` units with the ring, and let neither an
  -- error nor an interrupt have stopped the copy. When dd_target_write, dd_target_read or the populating
  -- of a partial block submits a unit to a file, and the bytes fit the unit's buffer and are less than
  -- 4 GiB, then the entry of dd_uring_submit has the kernel, which looks fixed files and buffers up by
  -- their indices, move what is meant: between the unit's own buffer and the descriptor of the output,
  -- at the unit's place there and in whole blocks, or for a read that of the input, at the unit's
  -- position and length; and it writes exactly for a write.
  pub uring_submit-Refines :
      (has_input has_output : Bool) (n size : ℕ) (s : Job) (type : SubmitType) (i : ℕ)
      → has_file has_input has_output (meant_for type) ≡ true
      → o.aio ≡ false
      → (target_of (meant_for type) s).type ≡ file
      → is_stopped s ≡ false
      → IsDue type s (s.ios i)
      → i < n
      → meant_length type s (s.ios i) ≤ size
      → meant_length type s (s.ios i) < 2 ^ 32
      → moved (register has_input has_output n size s) (submitted type i s) i
        ≡ some (record {
          writes = is_write type;
          fd = (target_of (meant_for type) s).fd;
          unit = i;
          size = size;
          length = meant_length type s (s.ios i);
          offset = meant_offset type (s.ios i);
        })
  uring_submit-Refines b c n size s type i f u k go due h fits short =
      let r = register b c n size s in
      ap (λ (e : Option Sqe). elim e [ none ↦ none | some e ↦ carried_out r e ])
        (unit-submitted r type i s u k go due)
      ∙ entry_lem b c n size s type i (meant_for type) (meant_length type s (s.ios i))
          (meant_offset type (s.ios i)) f h fits short
