-- ===== src/Dd/Accepted/Quiet.antt =====
-- What holds while dd_run of src/app/spdk_dd.c opens the input: no I/O was started.
use bdev_ubi.Common.{
  ℕ, ◌≡◌, refl, ap, ◌∙◌, Bool, true, false, not, Option, none, some, List, is_neg, Bool-cases, inl,
  inr, ◌∷◌, sym, ◌==◌, ◌&&◌,
}
use bdev_ubi.Posix.{Memory, FilePath}
use bdev_ubi.Dd.{Io, read_region_start, Side, on_input}
use bdev_ubi.Dd.Copy.{exit}
use bdev_ubi.Dd.Flags.{OpenFlag, trunc, has_flag, open_flags, emptied, disk_after, parse_flags}
use bdev_ubi.Dd.Setup.{Settings, opts_of, Device, Setup, limit_by_size}
use bdev_ubi.Dd.Prepare.{
  overflows, first_setup, open_file, open_bdev, flags_or_exit, read_input_flags, read_output_flags,
  open_input,
}
use bdev_ubi.Dd.Accepted.Attempts.{Holds, bind_lem, if_lem, SameOpts, count_lem, IsQuiet}

-- The output and the flags of the files that were opened.
abbrev pub files : Setup → Memory × List (List OpenFlag)
files t = (t.job.disk, t.opened)

abbrev pub more_files : List OpenFlag → Setup → Memory × List (List OpenFlag)
more_files flags t = (emptied flags t.job.disk, flags ∷ t.opened)

emptied-disk_after :
    (disk : Memory) (flags : List OpenFlag) (now : Memory) (opened : List (List OpenFlag)) (x : ℕ)
    → now x ≡ disk_after opened disk x
    → emptied flags now x ≡ disk_after (flags ∷ opened) disk x
unfolding emptied disk_after
emptied-disk_after disk flags now opened x h = elim (Bool-cases (has_flag trunc flags)) [
  | inl e ↦ rw e refl
  | inr e ↦ rw e h
]

module _ (g : Settings) (disk : Memory) where
  abbrev pub Quiet : Setup → Type 0
  Quiet t = IsQuiet (opts_of g) disk t

  pub first_lem : Quiet (first_setup g disk)
  first_lem = record {
    same_opts = (refl, refl, refl, refl, refl);
    calm = refl;
    running = refl;
    idle = refl;
    free = λ i. refl;
    untouched = λ x. unfold disk_after in refl;
  }

  -- A step that changes only what is not spoken of.
  pub quiet_lem :
      (t u : Setup)
      → Quiet t
      → SameOpts (opts_of g) u.opts
      → u.job.error ≡ t.job.error
      → u.job.interrupt ≡ t.job.interrupt
      → u.job.outstanding ≡ t.job.outstanding
      → u.job.ios ≡ t.job.ios
      → files u ≡ files t
      → Quiet u
  quiet_lem t u q o e r out ios d = record {
    same_opts = o;
    calm = e ∙ q.calm;
    running = r ∙ q.running;
    idle = out ∙ q.idle;
    free = λ i. ap (λ (f : ℕ → Io). (f i).flight) ios ∙ q.free i;
    untouched = λ x.
        ap (λ (f : Memory × List (List OpenFlag)). f.0 x) d
        ∙ q.untouched x
        ∙ ap (λ (f : Memory × List (List OpenFlag)). disk_after f.1 disk x) (sym d);
  }

  -- A step that opens a file beside it.
  pub opened_lem :
      (flags : List OpenFlag) (t u : Setup)
      → Quiet t
      → SameOpts (opts_of g) u.opts
      → u.job.error ≡ t.job.error
      → u.job.interrupt ≡ t.job.interrupt
      → u.job.outstanding ≡ t.job.outstanding
      → u.job.ios ≡ t.job.ios
      → files u ≡ more_files flags t
      → Quiet u
  opened_lem flags t u q o e r out ios d = record {
    same_opts = o;
    calm = e ∙ q.calm;
    running = r ∙ q.running;
    idle = out ∙ q.idle;
    free = λ i. ap (λ (f : ℕ → Io). (f i).flight) ios ∙ q.free i;
    untouched = λ x.
        ap (λ (f : Memory × List (List OpenFlag)). f.0 x) d
        ∙ emptied_lem x
        ∙ ap (λ (f : Memory × List (List OpenFlag)). disk_after f.1 disk x) (sym d);
  }
    where
      emptied_lem : (x : ℕ) → emptied flags t.job.disk x ≡ disk_after (flags ∷ t.opened) disk x
      emptied_lem x = emptied-disk_after disk flags t.job.disk t.opened x (q.untouched x)

  pub open_file_lem :
      (is_input : Bool) (d : Device) (flags : List OpenFlag) (t : Setup)
      → Quiet t
      → Holds (λ r. Quiet r.0) (open_file is_input d flags t)
  unfolding open_file
  open_file_lem true d flags t q =
      if_lem (λ r. Quiet r.0) (is_neg d.open_rc) _ _ tt
        (if_lem (λ r. Quiet r.0) (d.file_size == 0 && overflows t.opts) _ _ tt
          (opened_lem (open_flags true flags) t _ q
            (count_lem (opts_of g) (limit_by_size _ _ _) q.same_opts) refl refl refl refl refl))
  open_file_lem false d flags t q =
      if_lem (λ r. Quiet r.0) (is_neg d.open_rc) _ _ tt
        (if_lem (λ r. Quiet r.0) (d.file_size == 0 && overflows t.opts) _ _ tt
          (opened_lem (open_flags false flags) t _ q (count_lem (opts_of g) t.opts q.same_opts) refl
            refl refl refl refl))

  pub open_bdev_lem :
      (side : Side) (skip : ℕ) (d : Device) (t : Setup)
      → Quiet t
      → Holds (λ r. Quiet r.0) (open_bdev side skip d t)
  unfolding open_bdev
  open_bdev_lem side skip d t q =
      if_lem (λ r. Quiet r.0) (is_neg d.open_rc) _ _ tt
        (if_lem (λ r. Quiet r.0) (not d.has_channel) _ _ tt
          (quiet_lem t _ q (count_lem (opts_of g) (limit_by_size _ _ _) q.same_opts) refl refl refl
            refl refl))

  pub flags_lem : (r : Option (List OpenFlag)) (t : Setup) → Quiet t → Quiet (flags_or_exit r t).0
  unfolding flags_or_exit exit
  flags_lem none t q = quiet_lem t _ q q.same_opts refl refl refl refl refl
  flags_lem (some flags) t q = q

  pub input_flags_lem : (f : Option FilePath) (t : Setup) → Quiet t → Quiet (read_input_flags f t).0
  unfolding read_input_flags
  input_flags_lem none t q = q
  input_flags_lem (some s) t q =
      flags_lem (parse_flags s).0 _ (quiet_lem t _ q q.same_opts refl refl refl refl refl)

  pub output_flags_lem :
      (f : Option FilePath) (t : Setup) → Quiet t → Quiet (read_output_flags f t).0
  unfolding read_output_flags
  output_flags_lem none t q = q
  output_flags_lem (some s) t q =
      flags_lem (parse_flags s).0 _ (quiet_lem t _ q q.same_opts refl refl refl refl refl)

  -- The input's position is at its region's start.
  abbrev pub Placed : Setup → Type 0
  Placed t = Quiet t × (t.job.input.pos ≡ read_region_start t.opts)

  pub open_input_lem : (d : Device) (t : Setup) → Quiet t → Holds Placed (open_input g d t)
  unfolding open_input
  open_input_lem d t q =
      bind_lem (λ r. Quiet r.0) Placed _ _
        (if_lem (λ r. Quiet r.0) g.input_file _ _
          (open_file_lem true d _ _ (input_flags_lem t.input_flags t q))
          (if_lem (λ r. Quiet r.0) g.input_bdev _ _
            (open_bdev_lem on_input t.opts.input_offset d t q) q))
        (λ r h. (quiet_lem r.0 _ h h.same_opts refl refl refl refl refl, refl))
