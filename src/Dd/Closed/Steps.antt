-- ===== src/Dd/Closed/Steps.antt =====
-- The operations of a copy of src/app/spdk_dd.c, from dd_target_write to dd_target_seek and the callbacks
-- of a bdev's seeks, leave what dd_exit looks at.
use Prim.Native.Nat.{min}
use bdev_ubi.Common.{
  ℕ, refl, zero, suc, ◌-◌, ◌%◌, not, ◌||◌, ◌&&◌, Option, none, some, List, [], ◌∷◌, ltb, ◌==◌,
  if◌then◌else◌, ℤ, pos, negsuc, is_zero,
}
use bdev_ubi.Dd.{
  Opts, SubmitType, Submission, TargetType, file, bdev, Job, Answers, add64, sub64, mul64,
  read_region_start, is_stopped, update,
}
use bdev_ubi.Dd.Copy.{
  show_progress, finish, launch, target_write, target_read, fill, target_populate_buffer,
}
use bdev_ubi.Dd.Seek.{
  enxio, pop, launch_seek, extend_output, finalize_output, no_data, no_hole, seek_file_hole,
  seek_file, move_to, fail_with, start_seek_data, seek_bdev, seek_target, target_seek, found_data,
  bdev_seek_data_done, next_seek, set_length, bdev_seek_hole_done, seek_units, length_before,
}
use bdev_ubi.Dd.Closed.{Tracks, exit-Tracks, if-Tracks, still}

module _ (s : Job) where
  pub finish-Tracks : (t : Job) → Tracks s t → Tracks s (finish t)
  unfolding finish show_progress
  finish-Tracks t h =
      if-Tracks s (t.outstanding == 0) _ _
        (λ e.
          exit-Tracks s t.error (if is_zero t.error then show_progress t else t)
            (if-Tracks s (is_zero t.error) (show_progress t) t (λ e. still s h refl) (λ e. h)))
        (λ e. h)

  launch-Tracks :
      (i : ℕ) (k : SubmitType) (sub : Submission) (rc : ℤ) (t : Job)
      → Tracks s t
      → Tracks s (launch i k sub rc t)
  unfolding launch
  launch-Tracks i k sub rc t h =
      if-Tracks s (is_zero rc) _ _ (λ e. still s h refl)
        (λ e.
          if-Tracks s (t.outstanding == 0) _ _
            (λ e.
              exit-Tracks s rc
                (record t { ios = update t.ios i (record (t.ios i) { type = k }); error = rc })
                (still s h refl))
            (λ e. still s h refl))

  launch_seek-Tracks :
      (i : ℕ) (sub : Submission) (rc : ℤ) (t : Job) → Tracks s t → Tracks s (launch_seek i sub rc t)
  unfolding launch_seek
  launch_seek-Tracks i sub rc t h =
      if-Tracks s (is_zero rc) _ _ (λ e. still s h refl)
        (λ e.
          if-Tracks s (t.outstanding == 0) _ _
            (λ e. exit-Tracks s rc (fail_with rc t) (still s h refl)) (λ e. still s h refl))

  module _ (ceil_div : ℕ → ℕ → ℕ) (o : Opts) (a : Answers) where
    pub write-Tracks : (i : ℕ) (t : Job) → Tracks s t → Tracks s (target_write ceil_div o a i t)
    unfolding target_write
    write-Tracks i t h =
        if-Tracks s (is_stopped t) _ _ (λ e. finish-Tracks t h)
          (λ e.
            launch-Tracks i _ _ _
              (record t { incremental_bytes = add64 t.incremental_bytes (t.ios i).length })
              (still s h refl))

    pub read-Tracks : (i : ℕ) (t : Job) → Tracks s t → Tracks s (target_read ceil_div o a i t)
    unfolding target_read
    read-Tracks i t h =
        if-Tracks s (is_stopped t) _ _
          (λ e. if-Tracks s (t.outstanding == 0) _ _ (λ e. exit-Tracks s t.error t h) (λ e. h))
          (λ e. launch-Tracks i _ _ _ t h)

    fill-Tracks : (i at : ℕ) (t : Job) → Tracks s t → Tracks s (fill ceil_div o a i at t)
    unfolding fill
    fill-Tracks i at t h =
        if-Tracks s ((t.ios i).length % t.output.block_size == 0) _ _ (λ e. read-Tracks i t h)
          (λ e. launch-Tracks i _ _ _ t h)

    populate-Tracks :
        (i : ℕ) (t : Job) → Tracks s t → Tracks s (target_populate_buffer ceil_div o a i t)
    unfolding target_populate_buffer
    populate-Tracks i t h =
        let length =
          min (t.ios i).length (sub64 t.copy_size (sub64 t.input.pos (read_region_start o))) in
        if-Tracks s ((length == 0) || is_stopped t) _ _ (λ e. finish-Tracks _ (still s h refl))
          (λ e.
            fill-Tracks i t.input.pos
              (record t {
                ios = update t.ios i (record (t.ios i) { offset = t.input.pos; length = length });
                input = record t.input { pos = add64 t.input.pos length };
              })
              (still s h refl))

    extend-Tracks : (end : ℤ) (t : Job) → Tracks s t → Tracks s (extend_output ceil_div o a end t)
    unfolding extend_output
    extend-Tracks (negsuc e) t h = still s h refl
    extend-Tracks (pos offset) t h =
        if-Tracks s (ltb offset (add64 t.copy_size t.output.pos) && not (is_zero a.truncate_rc)) _ _
          (λ e. still s h refl) (λ e. h)

    finalize-Tracks : (t : Job) → Tracks s t → Tracks s (finalize_output ceil_div o a t)
    unfolding finalize_output
    finalize-Tracks t h =
        if-Tracks s (t.outstanding == 0) _ _
          (λ e.
            finish-Tracks _
              (if-Tracks s o.has_output_file _ _ (λ e. extend-Tracks a.end_offset t h) (λ e. h)))
          (λ e. h)

    no_data-Tracks : (errno : ℕ) (t : Job) → Tracks s t → Tracks s (no_data ceil_div o a errno t)
    unfolding no_data
    no_data-Tracks errno t h =
        if-Tracks s (errno == enxio) _ _ (λ e. finalize-Tracks t h)
          (λ e.
            if-Tracks s (t.outstanding == 0) _ _
              (λ e. exit-Tracks s (pos errno) (fail_with (pos errno) t) (still s h refl)) (λ e. h))

    file_hole-Tracks :
        (i : ℕ) (hole : ℤ) (t : Job) → Tracks s t → Tracks s (seek_file_hole ceil_div o a i hole t)
    unfolding seek_file_hole no_hole
    file_hole-Tracks i (negsuc e) t h =
        if-Tracks s (t.outstanding == 0) _ _
          (λ e. exit-Tracks s (pos a.hole_errno) (fail_with (pos a.hole_errno) t) (still s h refl))
          (λ e. h)
    file_hole-Tracks i (pos hole) t h =
        populate-Tracks i
          (set_length i
            (if ltb t.input.pos hole
              then min o.io_unit_size (hole - t.input.pos)
              else o.io_unit_size)
            t)
          (still s h refl)

    file-Tracks :
        (i : ℕ) (start : ℤ) (t : Job) → Tracks s t → Tracks s (seek_file ceil_div o a i start t)
    unfolding seek_file
    file-Tracks i (negsuc e) t h = no_data-Tracks a.data_errno t h
    file-Tracks i (pos next) t h =
        file_hole-Tracks i a.hole_offset _
          (if-Tracks s (ltb t.input.pos next) (move_to next t) t (λ e. still s h refl) (λ e. h))

    start-Tracks : (i : ℕ) (t : Job) → Tracks s t → Tracks s (start_seek_data ceil_div o a i t)
    unfolding start_seek_data
    start-Tracks i t h = launch_seek-Tracks i _ a.seek_rc t h

    bdev-Tracks :
        (i : ℕ) (q : List ℕ) (t : Job) → Tracks s t → Tracks s (seek_bdev ceil_div o a i q t)
    unfolding seek_bdev
    bdev-Tracks i [] t h = start-Tracks i (record t { seek_queue = i ∷ [] }) (still s h refl)
    bdev-Tracks i (j ∷ q) t h = still s h refl

    target-Tracks :
        (i : ℕ) (k : TargetType) (t : Job) → Tracks s t → Tracks s (seek_target ceil_div o a i k t)
    unfolding seek_target
    target-Tracks i file t h = file-Tracks i a.data_offset t h
    target-Tracks i bdev t h = bdev-Tracks i t.seek_queue t h

    pub seek-Tracks : (i : ℕ) (t : Job) → Tracks s t → Tracks s (target_seek ceil_div o a i t)
    unfolding target_seek
    seek-Tracks i t h =
        if-Tracks s o.sparse _ _
          (λ e.
            if-Tracks s
              ((sub64 t.copy_size (sub64 t.input.pos (read_region_start o)) == 0) || is_stopped t) _
              _ (λ e. finish-Tracks t h) (λ e. target-Tracks i t.input.type t h))
          (λ e. populate-Tracks i t h)

    found-Tracks :
        (i : ℕ) (found : Option ℕ) (t : Job)
        → Tracks s t
        → Tracks s (found_data ceil_div o a i found t)
    unfolding found_data
    found-Tracks i none t h = finalize-Tracks (pop t) (still s h refl)
    found-Tracks i (some block) t h =
        let u = move_to (mul64 block t.input.block_size) t in
        launch_seek-Tracks i _ a.seek_rc (if is_zero a.seek_rc then u else pop u)
          (if-Tracks s (is_zero a.seek_rc) u (pop u) (λ e. still s h refl) (λ e. still s h refl))

    pub data_done-Tracks :
        (i : ℕ) (found : Option ℕ) (t : Job)
        → Tracks s t
        → Tracks s (bdev_seek_data_done ceil_div o a i found t)
    unfolding bdev_seek_data_done
    data_done-Tracks i found t h =
        if-Tracks s (is_stopped t) _ _ (λ e. finish-Tracks (pop t) (still s h refl))
          (λ e.
            found-Tracks i found (record t { outstanding = t.outstanding - 1 }) (still s h refl))

    next-Tracks : (q : List ℕ) (t : Job) → Tracks s t → Tracks s (next_seek ceil_div o a q t)
    unfolding next_seek
    next-Tracks [] t h = h
    next-Tracks (i ∷ q) t h =
        if-Tracks s (ltb t.input.pos t.input.total_size) _ _ (λ e. start-Tracks i t h) (λ e. h)

    pub hole_done-Tracks :
        (i : ℕ) (found : Option ℕ) (t : Job)
        → Tracks s t
        → Tracks s (bdev_seek_hole_done ceil_div o a i found t)
    unfolding bdev_seek_hole_done
    hole_done-Tracks i found t h =
        if-Tracks s (is_stopped (pop t)) _ _ (λ e. finish-Tracks (pop t) (still s h refl))
          (λ e. next-Tracks _ _ (
            populate-Tracks i
              (set_length i (length_before ceil_div o a found (pop t))
                (record (pop t) { outstanding = t.outstanding - 1 }))
              (still s h refl)))

  pub units-Tracks :
      (ceil_div : ℕ → ℕ → ℕ) (o : Opts) (a : ℕ → Answers) (n : ℕ) (t : Job)
      → Tracks s t
      → Tracks s (seek_units ceil_div o a n t)
  unfolding seek_units
  units-Tracks ceil_div o a zero t h = h
  units-Tracks ceil_div o a (suc n) t h =
      seek-Tracks ceil_div o (a n) n _ (units-Tracks ceil_div o a n t h)
