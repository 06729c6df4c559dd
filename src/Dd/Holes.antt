-- ===== src/Dd/Holes.antt =====
-- A sparse copy of src/app/spdk_dd.c from a file that has no data, only a hole.
use bdev_ubi.Common.{
  ℕ, zero, suc, ◌≡◌, refl, ap, ◌∙◌, true, false, ◌==◌, ℤ, pos, negsuc, List, ◌∷◌, Bool-cases, inl,
  inr,
}
use bdev_ubi.Dd.{Opts, Job, Answers, TargetType, file, sub64, read_region_start}
use bdev_ubi.Dd.Copy.{exit, show_progress, finish}
use bdev_ubi.Dd.Seek.{enxio, target_seek, seek_target, seek_file, no_data, seek_units, fail_with}
use bdev_ubi.Dd.Invariant.{Plan}
use bdev_ubi.Dd.Invariant.Finish.{finish_done}
use bdev_ubi.Dd.Invariant.Search.{no_data_lem}

-- The search of a unit finds no data, and the output file can be extended.
abbrev pub FindsNone : Opts → Answers → Type 0
FindsNone o a =
    ((e : ℕ) × (a.data_offset ≡ negsuc e))
    × (a.data_errno ≡ enxio)
    × ((n : ℕ) × (a.end_offset ≡ pos n))
    × (a.truncate_rc ≡ pos 0)

-- Something is to be copied from a file, and nothing happened so far but calls of dd_exit.
pub record IsIdle (o : Opts) (s : Job) : Type 0 where
  pub from_file : s.input.type ≡ file
  pub some_bytes : (sub64 s.copy_size (sub64 s.input.pos (read_region_start o)) == 0) ≡ false
  pub idle : s.outstanding ≡ 0
  pub calm : s.error ≡ pos 0
  pub running : s.interrupt ≡ false

-- lseek of a descriptor that is closed.
abbrev ebadf : ℕ
ebadf = 9

abbrev pub IsRefused : Answers → Type 0
IsRefused a = ((e : ℕ) × (a.data_offset ≡ negsuc e)) × (a.data_errno ≡ ebadf)

-- The codes of dd_exit after `n` units, newest first: 0, and then EBADF.
abbrev pub codes : ℕ → List ℤ → List ℤ
codes zero before = before
codes (suc zero) before = pos 0 ∷ before
codes (suc (suc n)) before = pos ebadf ∷ codes (suc n) before

-- What the units leave for the next one.
abbrev Left : Opts → ℕ → Job → Type 0
Left o zero s = IsIdle o s
Left o (suc zero) s = IsIdle o s
Left o (suc (suc n)) s = (s.outstanding ≡ 0) × (s.error ≡ pos ebadf)

no_plan : Plan
no_plan = record { n = 0; size = 0; block = 0; input = λ x. 0; before = λ x. 0 }

module _ (ceil_div : ℕ → ℕ → ℕ) (o : Opts) (sparse : o.sparse ≡ true) where
  seek_target_lem :
      (a : Answers) (i : ℕ) (s : Job)
      → seek_target ceil_div o a i file s ≡ seek_file ceil_div o a i a.data_offset s
  unfolding seek_target
  seek_target_lem a i s = refl

  goes_lem :
      (a : Answers) (i : ℕ) (s : Job)
      → IsIdle o s
      → target_seek ceil_div o a i s ≡ seek_target ceil_div o a i s.input.type s
  unfolding target_seek
  goes_lem a i s h = simp (sparse, h.some_bytes, h.calm, h.running)

  file_lem :
      (a : Answers) (i : ℕ) (s : Job)
      → IsIdle o s
      → target_seek ceil_div o a i s ≡ seek_file ceil_div o a i a.data_offset s
  file_lem a i s h =
      goes_lem a i s h
      ∙ ap (λ (k : TargetType). seek_target ceil_div o a i k s) h.from_file
      ∙ seek_target_lem a i s

  none_lem :
      (a : Answers) (i : ℕ) (s : Job)
      → FindsNone o a
      → seek_file ceil_div o a i a.data_offset s ≡ no_data ceil_div o a enxio s
  unfolding seek_file
  none_lem a i s f =
      ap (λ (z : ℤ). seek_file ceil_div o a i z s) f.0.1
      ∙ ap (λ (n : ℕ). no_data ceil_div o a n s) f.1

  seek_lem :
      (a : Answers) (i : ℕ) (s : Job)
      → FindsNone o a
      → IsIdle o s
      → target_seek ceil_div o a i s ≡ exit (pos 0) (show_progress s)
  seek_lem a i s f h =
      file_lem a i s h
      ∙ none_lem a i s f
      ∙ no_data_lem ceil_div o no_plan a (f.2, f.3) s
      ∙ finish_done s h.calm (rw (h.idle) refl)

  told-IsIdle : (s : Job) → IsIdle o s → IsIdle o (exit (pos 0) (show_progress s))
  unfolding exit show_progress
  told-IsIdle s h = record {
    from_file = h.from_file;
    some_bytes = h.some_bytes;
    idle = h.idle;
    calm = h.calm;
    running = h.running;
  }

  told_lem : (rc : ℤ) (s : Job) → (exit rc s).exits ≡ rc ∷ s.exits
  unfolding exit
  told_lem rc s = refl

  progress_lem : (s : Job) → (show_progress s).exits ≡ s.exits
  unfolding show_progress
  progress_lem s = refl

  refused_lem :
      (a : Answers) (s : Job)
      → s.outstanding ≡ 0
      → no_data ceil_div o a ebadf s ≡ exit (pos ebadf) (fail_with (pos ebadf) s)
  unfolding no_data
  refused_lem a s h = rw h refl

  closed_lem :
      (a : Answers) (i : ℕ) (s : Job)
      → IsRefused a
      → IsIdle o s
      → target_seek ceil_div o a i s ≡ exit (pos ebadf) (fail_with (pos ebadf) s)
  unfolding seek_file
  closed_lem a i s f h =
      file_lem a i s h
      ∙ ap (λ (z : ℤ). seek_file ceil_div o a i z s) f.0.1
      ∙ ap (λ (n : ℕ). no_data ceil_div o a n s) f.1
      ∙ refused_lem a s h.idle

  finish_failed :
      (s : Job) → s.outstanding ≡ 0 → s.error ≡ pos ebadf → finish s ≡ exit (pos ebadf) s
  unfolding finish
  finish_failed s h e = rw (h, e) refl

  ends_lem :
      (a : Answers) (i : ℕ) (s : Job)
      → s.error ≡ pos ebadf
      → target_seek ceil_div o a i s ≡ finish s
  unfolding target_seek
  ends_lem a i s e =
      elim (Bool-cases (sub64 s.copy_size (sub64 s.input.pos (read_region_start o)) == 0)) [
        | inl z ↦ simp (sparse, z)
        | inr z ↦ simp (sparse, z, e)
      ]

  failed_exits :
      (s : Job) → (exit (pos ebadf) (fail_with (pos ebadf) s)).exits ≡ pos ebadf ∷ s.exits
  unfolding exit
  failed_exits s = refl

  failed_idle :
      (s : Job)
      → s.outstanding ≡ 0
      → (let u = exit (pos ebadf) (fail_with (pos ebadf) s) in
          (u.outstanding ≡ 0) × (u.error ≡ pos ebadf))
  unfolding exit
  failed_idle s h = (h, refl)

  still_failed :
      (s : Job)
      → (s.outstanding ≡ 0) × (s.error ≡ pos ebadf)
      → (let u = exit (pos ebadf) s in (u.outstanding ≡ 0) × (u.error ≡ pos ebadf))
  unfolding exit
  still_failed s h = h

  -- One unit more.
  next_lem :
      (a : ℕ → Answers) (n : ℕ) (u : Job) (before : List ℤ)
      → FindsNone o (a 0)
      → ((k : ℕ) → IsRefused (a (suc k)))
      → (Left o n u × (u.exits ≡ codes n before))
      → (let v = target_seek ceil_div o (a n) n u in
          Left o (suc n) v × (v.exits ≡ codes (suc n) before))
  next_lem a zero u before f r (h, e) = rw (seek_lem (a 0) 0 u f h) (
    told-IsIdle u h,
    told_lem (pos 0) (show_progress u) ∙ ap (λ (cs : List ℤ). pos 0 ∷ cs) (progress_lem u ∙ e),
  )
  next_lem a (suc zero) u before f r (h, e) =
      rw (closed_lem (a 1) 1 u (r 0) h)
        (failed_idle u h.idle, failed_exits u ∙ ap (λ (cs : List ℤ). pos ebadf ∷ cs) e)
  next_lem a (suc (suc n)) u before f r (h, e) =
      rw (ends_lem (a (suc (suc n))) (suc (suc n)) u h.1 ∙ finish_failed u h.0 h.1)
        (still_failed u h, told_lem (pos ebadf) u ∙ ap (λ (cs : List ℤ). pos ebadf ∷ cs) e)

  module _ (a : ℕ → Answers) (none_found : FindsNone o (a 0))
      (refused : (k : ℕ) → IsRefused (a (suc k))) (s : Job) (idle : IsIdle o s) where
    units_lem :
        (n : ℕ) → (let u = seek_units ceil_div o a n s in Left o n u × (u.exits ≡ codes n s.exits))
    unfolding seek_units
    units_lem zero = (idle, refl)
    units_lem (suc n) =
        next_lem a n (seek_units ceil_div o a n s) s.exits none_found refused (units_lem n)

    -- Let a sparse copy of an input file begin, with something to copy, nothing in flight, no error and no
    -- interrupt. If the search of the first unit finds no data (and the output file's end is found, and it
    -- can be extended), dd_exit closes the input, and lseek fails for it with EBADF from then on. Then
    -- dd_exit is called `n` times for `n` units: with 0 for the first, and with EBADF for each of the
    -- others, though all was copied.
    pub hole_exits : (n : ℕ) → (seek_units ceil_div o a n s).exits ≡ codes n s.exits
    hole_exits n = (units_lem n).1
